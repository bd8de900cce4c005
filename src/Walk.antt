-- ===== src/Walk.antt =====
-- hash/event_hash.go: the stack of ids, and the loop of the two walks over the graph of events
-- (poset/traversal.go and vector/traversal.go), which differ in what a visit does.
pub mod Rule
use lachesis_ex.Prelude.{ℕ, zero, suc, List, [], ◌∷◌, Option, none, some}

-- `EventsStack.PushAll`, with the top of the stack first: the last id pushed is the first popped.
unfoldable pub push_all : List ℕ → List ℕ → List ℕ
push_all [] stack = stack
push_all (id ∷ ids) stack = push_all ids (id ∷ stack)

-- How a walk ends. An event that is not found is an error of the walk, fatal for both callers.
pub data Walked {ℓ} (S : Type ℓ) : Type ℓ where
  done : S → Walked S
  not_found out_of_fuel : Walked S

module _ {ℓ} {S : Type ℓ} (visit : S → ℕ → Option (S × List ℕ)) where
  -- The loop of `dfsSubgraph`: a visit gives the state after it and the parents to walk to.
  unfoldable pub walk : ℕ → List ℕ → S → Walked S
  unfolding push_all
  walk fuel [] s = done s
  walk zero (id ∷ stack) s = out_of_fuel
  walk (suc fuel) (id ∷ stack) s = elim (visit s id) [
    | none ↦ not_found
    | some (next, parents) ↦ walk fuel (push_all parents stack) next
  ]
