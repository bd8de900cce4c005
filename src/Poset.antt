-- ===== src/Poset.antt =====
-- poset/poset.go and poset/store_roots.go: the frame of an event, and the roots of the epoch.
pub mod Event
pub mod Ordering
pub mod Confirm
pub mod Decide
pub mod Elections
pub mod Process
use lachesis_ex.Prelude.{
  ℕ, ◌+◌, ◌-◌, ◌%◌, Bool, true, false, not, ◌&&◌, ◌||◌, List, [], ◌∷◌, Option, none, some, ◌>>=◌,
  ltb, leb, ◌==◌, if◌then◌else◌, word32,
}
use lachesis_ex.Inter.{EventHeaderData, self_parent, is_self_parent}
use lachesis_ex.Pos.{Validators}
use lachesis_ex.Pos.Stake.{StakeCounter, new_counter, count, has_quorum}
use lachesis_ex.Election.{RootAndSlot}

-- The order of the keys in the table of roots: the frame, the validator and the id, big-endian.
abbrev pub root_less : RootAndSlot → RootAndSlot → Bool
root_less a b =
    if a.frame == b.frame
    then if a.validator == b.validator then ltb a.id b.id else ltb a.validator b.validator
    else ltb a.frame b.frame

-- `AddRoot`: a key that is there is only written again. The cache of a frame's roots is left out.
unfoldable pub add_root : RootAndSlot → List RootAndSlot → List RootAndSlot
add_root r [] = r ∷ []
add_root r (s ∷ t) =
    if root_less s r then s ∷ add_root r t else if root_less r s then r ∷ s ∷ t else s ∷ t

-- `GetFrameRoots`, from the table.
unfoldable pub get_frame_roots : ℕ → List RootAndSlot → List RootAndSlot
get_frame_roots f [] = []
get_frame_roots f (r ∷ t) = if r.frame == f then r ∷ get_frame_roots f t else get_frame_roots f t

-- The loop over the parents of `calcFrameIdx`, where a missing parent is a panic. The greatest
-- frame of the parents, which the source computes and does not use, is left out.
unfoldable pub self_parent_frame :
    (ℕ → Option EventHeaderData) → EventHeaderData → ℕ → List ℕ → Option ℕ
self_parent_frame header e found [] = some found
self_parent_frame header e found (p ∷ ps) = header p >>= λ parent.
    self_parent_frame header e (if is_self_parent e p then parent.frame else found) ps

-- An event without parents is a root of the first frame.
abbrev pub first_or : List ℕ → Option (ℕ × Bool) → Option (ℕ × Bool)
first_or [] found = some (1, true)
first_or (_ ∷ _) found = found

module _ (forkless_cause : ℕ → ℕ → Bool) (vv : Validators) (roots : List RootAndSlot) where
  -- The root is counted if it forklessly causes the event.
  pub count_root : StakeCounter → ℕ → RootAndSlot → Option StakeCounter
  unfolding count
  count_root s event r =
      if forkless_cause event r.id then (count s r.validator >>= λ (s', _). some s') else some s

  -- The loop of `forklessCausedByQuorumOn`, left once a quorum is reached.
  pub count_roots : StakeCounter → ℕ → List RootAndSlot → Option StakeCounter
  unfolding count_root has_quorum
  count_roots s event [] = some s
  count_roots s event (r ∷ rs) =
      count_root s event r >>= λ s'. if has_quorum s' then some s' else count_roots s' event rs

  -- `forklessCausedByQuorumOn`
  unfoldable pub forkless_caused_by_quorum_on : ℕ → ℕ → Option Bool
  unfolding count_roots new_counter get_frame_roots has_quorum
  forkless_caused_by_quorum_on event f =
      count_roots (new_counter vv) event (get_frame_roots f roots) >>= λ s. some (has_quorum s)

  -- What `calcFrameIdx` finds of an event that claims a frame.
  unfoldable pub check_frame : EventHeaderData → ℕ → Option (ℕ × Bool)
  check_frame e self_frame =
      if not e.is_root
      then some (self_frame, false)
      else if not (e.frame == (self_frame + 1) % word32)
      then some ((self_frame + 1) % word32, false)
      else if leb e.frame 1
      then some ((self_frame + 1) % word32, true)
      else forkless_caused_by_quorum_on e.hash (e.frame - 1) >>= λ q.
          some ((self_frame + 1) % word32, q)

  -- The frame that `calcFrameIdx` computes for a new event.
  unfoldable pub new_frame : EventHeaderData → ℕ → Option (ℕ × Bool)
  new_frame e self_frame = elim (self_parent e) [
    | none ↦ some (1, true)
    | some _ ↦ forkless_caused_by_quorum_on e.hash self_frame >>= λ q.
        some (if q then ((self_frame + 1) % word32, true) else (self_frame, false))
  ]

  -- `calcFrameIdx` of an event with parents.
  pub frame_of_parents : (ℕ → Option EventHeaderData) → EventHeaderData → Bool → Option (ℕ × Bool)
  unfolding self_parent_frame check_frame new_frame
  frame_of_parents header e check_only = self_parent_frame header e 0 e.parents >>= λ self_frame.
      if check_only then check_frame e self_frame else new_frame e self_frame

  -- `calcFrameIdx`
  unfoldable pub calc_frame_idx :
      (ℕ → Option EventHeaderData) → EventHeaderData → Bool → Option (ℕ × Bool)
  unfolding frame_of_parents
  calc_frame_idx header e check_only = first_or e.parents (frame_of_parents header e check_only)
