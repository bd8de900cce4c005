-- ===== src/Election/Process.antt =====
-- poset/election: the handler of a new root. The relation `observe` and the roots of a frame come
-- from outside, as in the source.
pub mod Final
pub mod Frame
use lachesis_ex.Prelude.{ℕ, ◌-◌, Bool, List, [], ◌∷◌, Option, none, some, leb, ◌==◌, if◌then◌else◌}
use lachesis_ex.Prelude.Assoc.{insert}
use lachesis_ex.Election.{
  Outcome, ok, ◌>>=◌, RootAndSlot, Election, Res, choose_atropos, not_decided_roots, first_round,
  later_round,
}

module _ (observe : ℕ → ℕ → Bool) (get_frame_roots : ℕ → List RootAndSlot) where
  -- The loop of `observedRoots`.
  select_observed : ℕ → List RootAndSlot → List RootAndSlot
  select_observed root [] = []
  select_observed root (r ∷ rs) =
      let rest = select_observed root rs in if observe root r.id then r ∷ rest else rest

  -- The loop of `observedRootsMap`: of two roots of a validator the later one stays.
  map_observed : ℕ → List RootAndSlot → List (ℕ × ℕ) → List (ℕ × ℕ)
  map_observed root [] m = m
  map_observed root (r ∷ rs) m =
      map_observed root rs (if observe root r.id then insert r.validator r.id m else m)

  -- `observedRoots`
  pub observed_roots : ℕ → ℕ → List RootAndSlot
  unfolding select_observed
  observed_roots root frame = select_observed root (get_frame_roots frame)

  -- `observedRootsMap`, of which the source uses the ids.
  pub observed_roots_map : ℕ → ℕ → List (ℕ × ℕ)
  unfolding map_observed
  observed_roots_map root frame = map_observed root (get_frame_roots frame) []

  -- The votes of a root newer than the frame to decide.
  vote_on_subjects : Election → RootAndSlot → List ℕ → Outcome Election
  unfolding first_round later_round observed_roots observed_roots_map
  vote_on_subjects el r subjects =
      if r.frame - el.frame_to_decide == 1
      then ok (first_round r.id (observed_roots_map r.id (r.frame - 1)) subjects el)
      else later_round r.id (observed_roots r.id (r.frame - 1)) subjects el

  -- `ProcessRoot` after its first look at the decided roots. A frame above the one to decide
  -- makes the round at least 1, so the source's test for round 0 never holds.
  process_new_root : Election → RootAndSlot → Outcome (Election × Option Res)
  unfolding vote_on_subjects
  process_new_root el r =
      if leb r.frame el.frame_to_decide
      then ok (el, none)
      else (not_decided_roots el >>= λ subjects.
          vote_on_subjects el r subjects >>= λ el'. choose_atropos el' >>= λ res. ok (el', res))

  -- `ProcessRoot`
  unfoldable pub process_root : Election → RootAndSlot → Outcome (Election × Option Res)
  unfolding process_new_root
  process_root el r = choose_atropos el >>= λ res. elim res [
    | none ↦ process_new_root el r
    | some found ↦ ok (el, some found)
  ]
