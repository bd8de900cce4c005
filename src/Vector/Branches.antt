-- ===== src/Vector/Branches.antt =====
-- vector/branches_info.go and the branch bookkeeping of vector/index.go. `none` is a fatal log
-- line or a run-time panic.
pub mod Invariant
pub mod Initial
use lachesis_ex.Prelude.{
  ℕ, zero, suc, ◌+◌, ◌%◌, Bool, true, false, ◌||◌, not, List, [], ◌∷◌, ◌++◌, Option, none, some,
  ◌>>=◌, length, get_elem?, set, replicate, ltb, ◌==◌, if◌then◌else◌, word32,
}
use lachesis_ex.Prelude.Assoc.{lookup}
use lachesis_ex.Inter.{EventHeaderData, self_parent}
use lachesis_ex.Pos.{Validators, len}
use lachesis_ex.Vector.Clock.{fork_detected_seq, before_seq_set}

pub record BranchesInfo : Type 0 where
  -- branch id to the highest sequence number in the branch
  pub last_seq : List ℕ
  -- branch id to validator index
  pub creator_idxs : List ℕ
  -- validator index to branch ids
  pub by_creators : List (List ℕ)

-- The numbers from `i` on, `n` of them.
unfoldable pub indices : ℕ → ℕ → List ℕ
indices i zero = []
indices i (suc n) = i ∷ indices (suc i) n

unfoldable pub singletons : List ℕ → List (List ℕ)
singletons [] = []
singletons (i ∷ is) = (i ∷ []) ∷ singletons is

-- `newInitialBranchesInfo`
unfoldable pub new_initial_branches_info : Validators → BranchesInfo
new_initial_branches_info vv = record {
  last_seq = replicate (length vv.cache.ids) 0;
  creator_idxs = indices 0 (length vv.cache.ids);
  by_creators = singletons (indices 0 (len vv));
}

-- `atLeastOneFork`
unfoldable pub at_least_one_fork : Validators → BranchesInfo → Bool
at_least_one_fork vv bi = ltb (len vv) (length bi.creator_idxs)

-- The end of `fillGlobalBranchID`: a branch of its own for a newly observed fork.
new_branch : BranchesInfo → ℕ → ℕ → Option (BranchesInfo × ℕ)
new_branch bi seq me = get_elem? bi.by_creators me >>= λ branches. some (
  record {
    last_seq = bi.last_seq ++ seq ∷ [];
    creator_idxs = bi.creator_idxs ++ me ∷ [];
    by_creators = set bi.by_creators me (branches ++ length bi.last_seq ∷ []);
  },
  length bi.last_seq,
)

-- A branch that the event continues.
abbrev extend_branch : BranchesInfo → ℕ → ℕ → BranchesInfo × ℕ
extend_branch bi seq branch = (record bi { last_seq = set bi.last_seq branch seq }, branch)

-- The event continues the branch if its last sequence number says so; else a new fork is observed.
continue_or_fork : BranchesInfo → ℕ → ℕ → ℕ → (ℕ → Bool) → Option (BranchesInfo × ℕ)
unfolding new_branch
continue_or_fork bi seq me branch follows = get_elem? bi.last_seq branch >>= λ last.
    if follows last then some (extend_branch bi seq branch) else new_branch bi seq me

-- `fillGlobalBranchID`, over the table of the branches of the events.
unfoldable pub fill_global_branch_id :
    Validators → List (ℕ × ℕ) → BranchesInfo → EventHeaderData → ℕ → Option (BranchesInfo × ℕ)
unfolding continue_or_fork
fill_global_branch_id vv event_branch bi e me =
    if not (length bi.creator_idxs == length bi.last_seq) || ltb (length bi.creator_idxs) (len vv)
    then none
    else elim (self_parent e) [
      | none ↦ continue_or_fork bi e.seq me me (λ last. last == 0)
      | some p ↦ lookup p event_branch >>= λ branch.
          continue_or_fork bi e.seq me branch (λ last. (last + 1) % word32 == e.seq)
    ]

-- The loop of `setForkDetected` over the branches of a creator.
unfoldable pub mark_branches : List ℕ → List ℕ → List ℕ
mark_branches vec [] = vec
mark_branches vec (b ∷ bs) = mark_branches (before_seq_set vec b fork_detected_seq) bs

-- `setForkDetected`
unfoldable pub set_fork_detected : Validators → BranchesInfo → List ℕ → ℕ → Option (List ℕ)
unfolding at_least_one_fork mark_branches
set_fork_detected vv bi vec branch = get_elem? bi.creator_idxs branch >>= λ creator.
    get_elem? bi.by_creators creator >>= λ bs.
    if at_least_one_fork vv bi then some (mark_branches vec bs) else none
