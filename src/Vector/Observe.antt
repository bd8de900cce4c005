-- ===== src/Vector/Observe.antt =====
-- vector/index.go: `fillEventVectors` up to its walk over the graph: the vectors that a new event
-- gets from those of its parents. `none` is a run-time panic or a fatal log line.
pub mod Entries
use lachesis_ex.Prelude.{
  ℕ, zero, suc, Bool, true, false, not, ◌&&◌, ◌||◌, List, [], ◌∷◌, Option, none, some, ◌>>=◌,
  length, get_elem?, ltb, leb, ◌==◌, if◌then◌else◌,
}
use lachesis_ex.Pos.{Validators, len, get_idx}
use lachesis_ex.Inter.{EventHeaderData}
use lachesis_ex.Vector.Clock.{
  BranchSeq, is_fork_detected, before_seq_get, before_seq_set, before_time_get, before_time_set,
  lowest_after_set, new_lowest_after_seq, new_highest_before_seq, new_highest_before_time,
}
use lachesis_ex.Vector.Branches.{
  BranchesInfo, fill_global_branch_id, at_least_one_fork, set_fork_detected,
}

-- `allVecs`
pub record AllVecs : Type 0 where
  pub after : List ℕ
  pub before_seq : List ℕ
  pub before_time : List ℕ

-- The vectors of an event that observes nothing but itself, made for `n` branches.
unfoldable pub own_vecs : ℕ → ℕ → ℕ → ℕ → AllVecs
own_vecs n branch seq claimed_time = record {
  after = lowest_after_set (new_lowest_after_seq n) branch seq;
  before_seq =
      before_seq_set (new_highest_before_seq n) branch (record { seq = seq; min_seq = seq });
  before_time = before_time_set (new_highest_before_time n) branch claimed_time;
}

-- The parent's lowest number of the branch is taken: the entry and the vector after that.
unfoldable pub take_min : List ℕ → ℕ → BranchSeq → BranchSeq → BranchSeq × List ℕ
take_min vec branch mine his =
    if mine.seq == 0 || ltb his.min_seq mine.min_seq
    then (
      record mine { min_seq = his.min_seq },
      before_seq_set vec branch (record mine { min_seq = his.min_seq }),
    )
    else (mine, vec)

-- The parent's highest number of the branch is taken, and its time.
unfoldable pub take_seq : BranchSeq × List ℕ → List ℕ → List ℕ → ℕ → BranchSeq → List ℕ × List ℕ
take_seq (mine, vec) times his_times branch his =
    if ltb mine.seq his.seq
    then (
      before_seq_set vec branch (record mine { seq = his.seq }),
      before_time_set times branch (before_time_get his_times branch),
    )
    else (vec, times)

-- One round of the loop over the branches: what the event learns of a branch from a parent.
unfoldable pub observe_branch :
    Validators → BranchesInfo → List ℕ × List ℕ → ℕ → List ℕ × List ℕ → Option (List ℕ × List ℕ)
unfolding take_min take_seq set_fork_detected
observe_branch vv bi (his_vec, his_times) branch (vec, times) =
    let his = before_seq_get his_vec branch in
    let mine = before_seq_get vec branch in
    if (his.seq == 0 && not (is_fork_detected his)) || is_fork_detected mine
    then some (vec, times)
    else if is_fork_detected his
    then (set_fork_detected vv bi vec branch >>= λ marked. some (marked, times))
    else some (take_seq (take_min vec branch mine his) times his_times branch his)

-- The loop over the branches, from the id `branch` on, `n` of them.
unfoldable pub observe_parent :
    Validators → BranchesInfo → List ℕ × List ℕ → ℕ → ℕ → List ℕ × List ℕ → Option (List ℕ × List ℕ)
unfolding observe_branch
observe_parent vv bi his branch zero vecs = some vecs
observe_parent vv bi his branch (suc n) vecs =
    observe_branch vv bi his branch vecs >>= λ next. observe_parent vv bi his (suc branch) n next

-- The loop over the parents.
unfoldable pub observe_parents :
    Validators → BranchesInfo → List (List ℕ × List ℕ) → List ℕ × List ℕ → Option (List ℕ × List ℕ)
unfolding observe_parent
observe_parents vv bi [] vecs = some vecs
observe_parents vv bi (his ∷ parents) vecs =
    observe_parent vv bi his 0 (length bi.creator_idxs) vecs >>= λ next.
    observe_parents vv bi parents next

-- Two branches of a creator of which the event observes the same sequence number.
unfoldable pub overlap : BranchSeq → BranchSeq → Bool
overlap a b = not (a.seq == 0 || b.seq == 0) && (leb a.min_seq b.seq && leb b.min_seq a.seq)

-- The inner loop over pairs of branches.
unfoldable pub overlaps_one : List ℕ → ℕ → List ℕ → Bool
unfolding overlap
overlaps_one vec i [] = false
overlaps_one vec i (j ∷ js) =
    (not (i == j) && overlap (before_seq_get vec i) (before_seq_get vec j)) || overlaps_one vec i js

-- The outer loop.
unfoldable pub overlaps_any : List ℕ → List ℕ → List ℕ → Bool
unfolding overlaps_one
overlaps_any vec [] all_branches = false
overlaps_any vec (i ∷ is) all_branches =
    overlaps_one vec i all_branches || overlaps_any vec is all_branches

-- One round of the loop over the creators that looks for forks which no parent observes.
detect_fork : Validators → BranchesInfo → ℕ → List ℕ → Option (List ℕ)
unfolding overlaps_any set_fork_detected
detect_fork vv bi creator vec =
    if is_fork_detected (before_seq_get vec creator)
    then some vec
    else get_elem? bi.by_creators creator >>= λ bs.
        if overlaps_any vec bs bs then set_fork_detected vv bi vec creator else some vec

-- That loop, from `creator` on, over `n` of them.
unfoldable pub detect_forks : Validators → BranchesInfo → ℕ → ℕ → List ℕ → Option (List ℕ)
unfolding detect_fork
detect_forks vv bi creator zero vec = some vec
detect_forks vv bi creator (suc n) vec =
    detect_fork vv bi creator vec >>= λ next. detect_forks vv bi (suc creator) n next

-- The branch of an event and its vectors, from its parents' vectors.
unfoldable pub event_vecs :
    Validators
    → List (ℕ × ℕ)
    → BranchesInfo
    → EventHeaderData
    → List (List ℕ × List ℕ)
    → Option (BranchesInfo × AllVecs)
unfolding fill_global_branch_id own_vecs observe_parents detect_forks at_least_one_fork
event_vecs vv event_branch bi e parents =
    fill_global_branch_id vv event_branch bi e (get_idx vv e.creator) >>= λ (bi', branch).
    let own = own_vecs (length bi.creator_idxs) branch e.seq e.claimed_time in
    observe_parents vv bi' parents (own.before_seq, own.before_time) >>= λ (vec, times).
    (if at_least_one_fork vv bi' then detect_forks vv bi' 0 (len vv) vec else some vec)
    >>= λ checked. some (bi', record own { before_seq = checked; before_time = times })
