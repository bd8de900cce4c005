-- ===== src/Vector/ForklessCause.antt =====
-- vector/forkless_cause.go. `none` is a fatal log line: an event that the tables do not have.
pub mod Loop
pub mod Observers
pub mod Quorum
use lachesis_ex.Prelude.{
  ℕ, zero, suc, Bool, true, false, ◌&&◌, not, List, [], ◌∷◌, Option, none, some, ◌>>=◌, leb, ◌==◌,
  if◌then◌else◌, length,
}
use lachesis_ex.Prelude.Assoc.{lookup}
use lachesis_ex.Inter.{EventHeaderData}
use lachesis_ex.Pos.{Validators, get_idx}
use lachesis_ex.Pos.Stake.{StakeCounter, new_counter, count_by_idx, has_quorum}
use lachesis_ex.Vector.Clock.{lowest_after_get, before_seq_get, is_fork_detected}
use lachesis_ex.Vector.Branches.{BranchesInfo, at_least_one_fork}
use lachesis_ex.Vector.Index.{Index, branches}

-- On this branch, the highest event that A observes does observe B.
unfoldable pub observes : List ℕ → List ℕ → ℕ → Bool
observes a b branch =
    leb (lowest_after_get b branch) (before_seq_get a branch).seq
    && (not (lowest_after_get b branch == 0) && not (is_fork_detected (before_seq_get a branch)))

-- One round of the loop of `forklessCause`.
count_branch : List ℕ → List ℕ → ℕ → ℕ → StakeCounter → Option StakeCounter
unfolding observes
count_branch a b branch creator counter =
    if observes a b branch
    then (count_by_idx counter creator >>= λ (counted, new). some counted)
    else some counter

-- That loop over the creators of the branches, from `branch` on.
pub count_branches : List ℕ → List ℕ → ℕ → List ℕ → StakeCounter → Option StakeCounter
unfolding count_branch
count_branches a b branch [] counter = some counter
count_branches a b branch (creator ∷ rest) counter =
    count_branch a b branch creator counter >>= λ counted.
    count_branches a b (suc branch) rest counted

-- The check that A does not observe a fork of B's creator.
unfoldable pub observes_cheater : Index → List ℕ → ℕ → Option Bool
unfolding at_least_one_fork branches
observes_cheater vi a b_id =
    if at_least_one_fork vi.validators (branches vi)
    then (lookup b_id vi.tables.event_branch >>= λ branch.
        some (is_fork_detected (before_seq_get a branch)))
    else some false

-- `forklessCause`
unfoldable pub forkless_cause : Index → ℕ → ℕ → Option Bool
unfolding count_branches observes_cheater branches
forkless_cause vi a_id b_id = lookup a_id vi.tables.highest_before_seq >>= λ a.
    observes_cheater vi a b_id >>= λ cheater.
    if cheater
    then some false
    else (lookup b_id vi.tables.lowest_after_seq >>= λ b.
        count_branches a b 0 (branches vi).creator_idxs (new_counter vi.validators) >>= λ counter.
        some (has_quorum counter))

-- The filter of `NoCheaters`; an option that is not found is fatal.
no_cheaters_loop : Validators → (ℕ → Option EventHeaderData) → List ℕ → List ℕ → Option (List ℕ)
no_cheaters_loop vv get_event highest [] = some []
no_cheaters_loop vv get_event highest (id ∷ ids) = get_event id >>= λ header.
    no_cheaters_loop vv get_event highest ids >>= λ rest.
    if is_fork_detected (before_seq_get highest (get_idx vv header.creator))
    then some rest
    else some (id ∷ rest)

-- The vector that is nil for an event not found.
abbrev vector_of : Option (List ℕ) → List ℕ
vector_of none = []
vector_of (some v) = v

-- `NoCheaters`
unfoldable pub no_cheaters :
    Index → (ℕ → Option EventHeaderData) → Option ℕ → List ℕ → Option (List ℕ)
unfolding no_cheaters_loop
no_cheaters vi get_event none options = some options
no_cheaters vi get_event (some p) options =
    no_cheaters_loop vi.validators get_event (vector_of (lookup p vi.tables.highest_before_seq))
      options
