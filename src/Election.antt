-- ===== src/Election.antt =====
-- poset/election: the votes on which root of the frame to decide becomes Atropos.
pub mod Process
pub mod Choice
pub mod Agreement
use lachesis_ex.Prelude.{
  ℕ, ◌+◌, Bool, true, false, ◌&&◌, ◌||◌, not, List, [], ◌∷◌, ◌++◌, Option, none, some, length, leb,
  ◌==◌, if◌then◌else◌,
}
use mathlib.Core.Option.{get_or}
use lachesis_ex.Prelude.Assoc.{lookup, insert}
use lachesis_ex.Pos.{Validators, len}
use lachesis_ex.Pos.Stake.{StakeCounter, new_counter, count, has_quorum}

-- How a call ends: a value, a returned error, or a fatal log line or panic.
pub data Outcome {ℓ} (A : Type ℓ) : Type ℓ where
  ok : A → Outcome A
  all_no fork_roots : Outcome A
  crit : Outcome A

infixl 5 ◌>>=◌
abbrev pub ◌>>=◌ {ℓ κ} : {A : Type ℓ} {B : Type κ} → Outcome A → (A → Outcome B) → Outcome B
ok a >>= f = f a
all_no >>= f = all_no
fork_roots >>= f = fork_roots
crit >>= f = crit

abbrev pub or_crit {ℓ} : {A : Type ℓ} → Option A → Outcome A
or_crit (some a) = ok a
or_crit none = crit

-- `RootAndSlot`, with the slot's fields.
pub record RootAndSlot : Type 0 where
  pub id : ℕ
  pub frame : ℕ
  pub validator : ℕ

pub record VoteValue : Type 0 where
  pub decided : Bool
  pub is_yes : Bool
  pub observed_root : ℕ

-- Votes by the id of the voting root and the validator voted on.
abbrev pub Votes : Type 0
Votes = List (ℕ × List (ℕ × VoteValue))

pub record Election : Type 0 where
  pub frame_to_decide : ℕ
  pub validators : Validators
  pub decided_roots : List (ℕ × VoteValue)
  pub votes : Votes

pub record Res : Type 0 where
  pub frame : ℕ
  pub atropos : ℕ

-- `Reset`, which is also all that `New` does to the state.
unfoldable pub reset : Validators → ℕ → Election
reset vv frame = record { frame_to_decide = frame; validators = vv; decided_roots = []; votes = [] }

unfoldable pub find_vote : ℕ → ℕ → Votes → Option VoteValue
find_vote root validator votes = elim (lookup root votes) [
  | none ↦ none
  | some m ↦ lookup validator m
]

-- The votes of a root, none if it has none yet.
abbrev votes_of : Option (List (ℕ × VoteValue)) → List (ℕ × VoteValue)
votes_of none = []
votes_of (some m) = m

unfoldable pub put_vote : ℕ → ℕ → VoteValue → Votes → Votes
put_vote root validator v votes =
    insert root (insert validator v (votes_of (lookup root votes))) votes

-- The loop of `chooseAtropos`, over the validators in the order of their stakes.
choose_loop : ℕ → List (ℕ × VoteValue) → List ℕ → Outcome (Option Res)
choose_loop frame decided [] = all_no
choose_loop frame decided (v ∷ vs) =
    let rest = choose_loop frame decided vs in
    elim (lookup v decided) [
      | none ↦ ok none
      | some vote ↦
          if vote.is_yes
          then ok (some (record { frame = frame; atropos = vote.observed_root }))
          else rest
    ]

-- `chooseAtropos`
unfoldable pub choose_atropos : Election → Outcome (Option Res)
unfolding choose_loop
choose_atropos el = choose_loop el.frame_to_decide el.decided_roots el.validators.cache.ids

-- The loop of `notDecidedRoots`.
undecided : List (ℕ × VoteValue) → List ℕ → List ℕ
undecided decided [] = []
undecided decided (v ∷ vs) = elim (lookup v decided) [
  | none ↦ v ∷ undecided decided vs
  | some _ ↦ undecided decided vs
]

-- `notDecidedRoots`, with its sanity check.
unfoldable pub not_decided_roots : Election → Outcome (List ℕ)
unfolding undecided
not_decided_roots el =
    let subjects = undecided el.decided_roots el.validators.cache.ids in
    if length subjects + length el.decided_roots == len el.validators then ok subjects else crit

-- The state of the votes on one subject, while they are counted.
pub record Tally : Type 0 where
  pub yes_votes : StakeCounter
  pub no_votes : StakeCounter
  pub all_votes : StakeCounter
  pub subject_hash : Option ℕ

unfoldable pub new_tally : Validators → Tally
new_tally vv = record {
  yes_votes = new_counter vv;
  no_votes = new_counter vv;
  all_votes = new_counter vv;
  subject_hash = none;
}

-- A yes vote for another root than the yes votes before it.
abbrev differs : Option ℕ → VoteValue → Bool
differs none vote = false
differs (some h) vote = vote.is_yes && not (h == vote.observed_root)

-- The vote goes to the side that it takes.
count_side : Tally → ℕ → VoteValue → Outcome Tally
count_side t validator vote =
    if vote.is_yes
    then (or_crit (count t.yes_votes validator) >>= λ (c, new).
        ok (record t { yes_votes = c; subject_hash = some vote.observed_root }))
    else (or_crit (count t.no_votes validator) >>= λ (c, new). ok (record t { no_votes = c }))

-- A validator that votes twice is an error. Its message reads the subject's hash, which panics
-- when no yes vote has set it.
abbrev pub double_vote : Option ℕ → Outcome Tally
double_vote none = crit
double_vote (some _) = fork_roots

-- One found vote: the fork check, the two counters, and the check that no validator votes twice.
count_vote : Tally → ℕ → VoteValue → Outcome Tally
unfolding count_side
count_vote t validator vote =
    if differs t.subject_hash vote
    then fork_roots
    else (count_side t validator vote >>= λ u. or_crit (count u.all_votes validator) >>= λ (c, new).
        if new then ok (record u { all_votes = c }) else double_vote u.subject_hash)

-- The loop over the observed roots. Every one of them must have voted on the subject.
unfoldable pub count_votes : Votes → ℕ → List RootAndSlot → Tally → Outcome Tally
unfolding count_vote
count_votes votes subject [] t = ok t
count_votes votes subject (r ∷ rs) t = or_crit (find_vote r.id subject votes) >>= λ vote.
    count_vote t r.validator vote >>= λ u. count_votes votes subject rs u

-- The vote that follows from a tally: the majority, and final if one side has a quorum.
unfoldable pub vote_of_tally : Tally → VoteValue
vote_of_tally t =
    let majority = leb t.no_votes.sum t.yes_votes.sum in
    record {
      decided = has_quorum t.yes_votes || has_quorum t.no_votes;
      is_yes = majority;
      observed_root = if majority then get_or t.subject_hash 0 else 0;
    }

-- The vote of a root of a later round on one subject.
unfoldable pub aggregate : Validators → Votes → List RootAndSlot → ℕ → Outcome VoteValue
unfolding count_votes new_tally vote_of_tally
aggregate vv votes observed subject = count_votes votes subject observed (new_tally vv) >>= λ t.
    if has_quorum t.all_votes then ok (vote_of_tally t) else crit

-- A final vote decides the subject; every vote is kept for the next rounds.
unfoldable pub save_vote : ℕ → ℕ → VoteValue → Election → Election
unfolding put_vote
save_vote root subject vote el = record el {
  decided_roots = if vote.decided then insert subject vote el.decided_roots else el.decided_roots;
  votes = put_vote root subject vote el.votes;
}

-- The first round: yes for a subject whose root is observed.
unfoldable pub first_vote : List (ℕ × ℕ) → ℕ → VoteValue
first_vote observed subject = elim (lookup subject observed) [
  | none ↦ record { decided = false; is_yes = false; observed_root = 0 }
  | some root ↦ record { decided = false; is_yes = true; observed_root = root }
]

-- The loops of `ProcessRoot` over the subjects, in the first round and in a later one.
first_round : ℕ → List (ℕ × ℕ) → List ℕ → Election → Election
unfolding save_vote first_vote
first_round root observed [] el = el
first_round root observed (s ∷ ss) el =
    first_round root observed ss (save_vote root s (first_vote observed s) el)

later_round : ℕ → List RootAndSlot → List ℕ → Election → Outcome Election
unfolding save_vote aggregate
later_round root observed [] el = ok el
later_round root observed (s ∷ ss) el = aggregate el.validators el.votes observed s >>= λ vote.
    later_round root observed ss (save_vote root s vote el)
