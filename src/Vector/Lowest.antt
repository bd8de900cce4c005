-- ===== src/Vector/Lowest.antt =====
-- vector/index.go and vector/traversal.go: the walk of a new event that writes its number into the
-- LowestAfter vectors of the events that it observes and its branch has not observed before.
pub mod Marks
pub mod Reached
use lachesis_ex.Prelude.{
  ℕ, zero, suc, ◌+◌, Bool, true, false, List, [], ◌∷◌, Option, none, some, ◌>>=◌, ◌==◌,
  if◌then◌else◌,
}
use lachesis_ex.Prelude.Assoc.{lookup, insert}
use lachesis_ex.Inter.{EventHeaderData}
use lachesis_ex.Walk.{push_all, Walked, walk}
use lachesis_ex.Vector.Clock.{lowest_after_get, lowest_after_set}

-- `GetLowestAfterSeq`, where a missing vector is nil.
unfoldable pub get_lowest_after_seq : List (ℕ × List ℕ) → ℕ → List ℕ
get_lowest_after_seq table id = elim (lookup id table) [ none ↦ [] | some v ↦ v ]

module _ (headers : List (ℕ × EventHeaderData)) (branch seq : ℕ) where
  -- One round of `dfsSubgraph` with `onWalk`.
  unfoldable pub on_walk : List (ℕ × List ℕ) → ℕ → Option (List (ℕ × List ℕ) × List ℕ)
  unfolding get_lowest_after_seq
  on_walk table id =
      if lowest_after_get (get_lowest_after_seq table id) branch == 0
      then (lookup id headers >>= λ header. some (
        insert id (lowest_after_set (get_lowest_after_seq table id) branch seq) table,
        header.parents,
      ))
      else some (table, [])

  -- `dfsSubgraph`, for the parents of the new event.
  unfoldable pub walk_observed : ℕ → List ℕ → List (ℕ × List ℕ) → Walked (List (ℕ × List ℕ))
  unfolding walk on_walk push_all
  walk_observed fuel parents table = walk on_walk fuel (push_all parents []) table
