-- ===== src/Poset/Confirm.antt =====
-- poset/traversal.go and `confirmEvents` of poset/frame_decide.go: the events that an Atropos
-- confirms. What the caller does with each of them is a function on a state of its own.
pub mod Ancestors
pub mod Once
use lachesis_ex.Prelude.{
  ℕ, zero, suc, ◌+◌, List, [], ◌∷◌, Option, none, some, ◌>>=◌, length, ◌==◌, if◌then◌else◌,
}
use lachesis_ex.Prelude.Assoc.{lookup, insert}
use lachesis_ex.Inter.{EventHeaderData}
use lachesis_ex.Walk.{Walked, walk}

-- The headers of the epoch that the storage of events has, by id.
abbrev pub Headers : Type 0
Headers = List (ℕ × EventHeaderData)

-- The frame that confirmed an event: `GetEventConfirmedOn`, where 0 stands for none.
unfoldable pub confirmed_on : List (ℕ × ℕ) → ℕ → ℕ
confirmed_on table id = elim (lookup id table) [ none ↦ 0 | some frame ↦ frame ]

module _ {ℓ} {A : Type ℓ} (headers : Headers) (frame : ℕ)
    (on_confirmed : A → EventHeaderData → A) where
  -- The filter of `confirmEvents`, with the parents that the walk pushes if it accepts.
  unfoldable pub confirm_event : List (ℕ × ℕ) × A → EventHeaderData → (List (ℕ × ℕ) × A) × List ℕ
  unfolding confirmed_on
  confirm_event (table, a) header =
      if confirmed_on table header.hash == 0
      then ((insert header.hash frame table, on_confirmed a header), header.parents)
      else ((table, a), [])

  -- One round of `dfsSubgraph` with that filter.
  unfoldable pub visit_event : List (ℕ × ℕ) × A → ℕ → Option ((List (ℕ × ℕ) × A) × List ℕ)
  unfolding confirm_event
  visit_event s id = lookup id headers >>= λ header. some (confirm_event s header)

  -- `confirmEvents`
  unfoldable pub confirm_events : ℕ → ℕ → List (ℕ × ℕ) × A → Walked (List (ℕ × ℕ) × A)
  unfolding walk visit_event
  confirm_events fuel atropos s = walk visit_event fuel (atropos ∷ []) s

-- The parents of all headers: more than these, and the Atropos, no walk pushes.
unfoldable pub count_parents : Headers → ℕ
count_parents [] = 0
count_parents ((id, header) ∷ rest) = length header.parents + count_parents rest
