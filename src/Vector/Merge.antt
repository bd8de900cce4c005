-- ===== src/Vector/Merge.antt =====
-- vector/index.go: the vectors of an event with the branches of each creator merged into one.
use lachesis_ex.Prelude.{
  ℕ, suc, ◌≡◌, refl, Bool, false, not, ◌&&◌, ◌||◌, List, [], ◌∷◌, ltb, ◌==◌, if◌then◌else◌, arith,
  Bool-cases, inl, inr,
}
use lachesis_ex.Pos.{Validators, len}
use lachesis_ex.Vector.Clock.{
  BranchSeq, is_fork_detected, before_seq_get, before_time_get, before_seq_set, before_time_set,
  new_highest_before_seq, new_highest_before_time,
}
use lachesis_ex.Vector.Branches.{BranchesInfo, at_least_one_fork}

-- The lowest sequence number seen, where 0 stands for none.
abbrev lowest : ℕ → ℕ → ℕ
lowest acc m = if not (m == 0) && (acc == 0 || ltb m acc) then m else acc

-- What the loop over the branches has so far, with a branch that is not marked as a fork.
unfoldable pub merge_branch : BranchSeq → BranchSeq → BranchSeq
merge_branch acc b = record {
  seq = if ltb acc.seq b.seq then b.seq else acc.seq;
  min_seq = lowest acc.min_seq b.min_seq;
}

-- The loop over the branches of a creator, left at the first that is marked as a fork.
unfoldable pub merge_branches : List ℕ → List ℕ → BranchSeq → ℕ → List ℕ → BranchSeq × ℕ
unfolding merge_branch
merge_branches before times acc time [] = (acc, time)
merge_branches before times acc time (i ∷ is) =
    let b = before_seq_get before i in
    let rest =
      merge_branches before times (merge_branch acc b)
        (if ltb acc.seq b.seq then before_time_get times i else time) is in
    if is_fork_detected b then (b, time) else rest

-- The loop over the creators, from the index `c` on.
unfoldable pub merge_creators :
    List ℕ → List ℕ → ℕ → List (List ℕ) → List ℕ × List ℕ → List ℕ × List ℕ
unfolding merge_branches
merge_creators before times c [] merged = merged
merge_creators before times c (is ∷ iss) (seqs, moments) =
    let (seq, time) = merge_branches before times (record { seq = 0; min_seq = 0 }) 0 is in
    merge_creators before times (suc c) iss
      (before_seq_set seqs c seq, before_time_set moments c time)

-- `getHighestBeforeMerged`, of the vectors of an event.
unfoldable pub get_highest_before_merged :
    Validators → BranchesInfo → List ℕ × List ℕ → List ℕ × List ℕ
unfolding at_least_one_fork merge_creators new_highest_before_seq new_highest_before_time
get_highest_before_merged vv bi (before, times) =
    if not (at_least_one_fork vv bi)
    then (before, times)
    else merge_creators before times 0 bi.by_creators
        (new_highest_before_seq (len vv), new_highest_before_time (len vv))

-- One of the branches is marked as a fork.
pub any_fork : List ℕ → List ℕ → Bool
any_fork before [] = false
any_fork before (i ∷ is) = is_fork_detected (before_seq_get before i) || any_fork before is

merge_branch-fork :
    (acc b : BranchSeq)
    → is_fork_detected acc ≡ false
    → is_fork_detected b ≡ false
    → is_fork_detected (merge_branch acc b) ≡ false
unfolding merge_branch
merge_branch-fork acc b h k = ground arith

merge_branches-fork_of :
    (before times : List ℕ) (acc : BranchSeq) (time : ℕ) (is : List ℕ)
    → is_fork_detected acc ≡ false
    → is_fork_detected (merge_branches before times acc time is).0 ≡ any_fork before is
unfolding merge_branches any_fork
merge_branches-fork_of before times acc time [] h = h
merge_branches-fork_of before times acc time (i ∷ is) h =
    let b = before_seq_get before i in
    elim (Bool-cases (is_fork_detected b)) [
      | inl e ↦ rw e e
      | inr e ↦ rw e (
          merge_branches-fork_of before times (merge_branch acc b)
            (if ltb acc.seq b.seq then before_time_get times i else time) is
            (merge_branch-fork acc b h e))
    ]

-- The merged entry of a creator is marked as a fork just where one of the creator's branches is.
pub merge_branches-fork :
    (before times is : List ℕ)
    → is_fork_detected (merge_branches before times (record { seq = 0; min_seq = 0 }) 0 is).0
      ≡ any_fork before is
merge_branches-fork before times is =
    merge_branches-fork_of before times (record { seq = 0; min_seq = 0 }) 0 is refl
