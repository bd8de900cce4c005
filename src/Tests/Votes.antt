-- ===== src/Tests/Votes.antt =====
-- Tests and examples for the election.
use lachesis_ex.Prelude.{
  ℕ, ◌≡◌, ◌↔◌, refl, inl, inr, true, false, List, [], ◌∷◌, Option, none, some, arith,
}
use lachesis_ex.Prelude.Assoc.{lookup}
use lachesis_ex.Pos.{get_idx, get_stake_by_idx, quorum, len}
use lachesis_ex.Pos.Stake.{new_counter, count, has_quorum}
use lachesis_ex.Election.{
  Outcome, ok, RootAndSlot, VoteValue, Votes, Election, Res, reset, find_vote, choose_atropos,
  aggregate, not_decided_roots,
}
use lachesis_ex.Election.Process.{process_root}
use lachesis_ex.Election.Process.Final.{process_root-decided_kept}
use lachesis_ex.Election.Choice.{FirstYes, choose_atropos-FirstYes, choose_atropos-agree}
use lachesis_ex.Election.Agreement.{Consistent, final_vote-agree}
use lachesis_ex.Tests.Groups.{group, group-IsSound}

abbrev root : ℕ → ℕ → RootAndSlot
root id validator = record { id = id; frame = 2; validator = validator }

abbrev yes_vote : ℕ → VoteValue
yes_vote r = record { decided = false; is_yes = true; observed_root = r }

-- Three roots of the second frame, all of which observe the root 13 of the validator 3.
abbrev votes : Votes
votes = (21, (3, yes_vote 13) ∷ []) ∷ (22, (3, yes_vote 13) ∷ []) ∷ (23, (3, yes_vote 13) ∷ []) ∷ []

abbrev all_roots : List RootAndSlot
all_roots = root 21 3 ∷ root 22 7 ∷ root 23 9 ∷ []

abbrev two_roots : List RootAndSlot
two_roots = root 21 3 ∷ root 22 7 ∷ []

abbrev final_yes : VoteValue
final_yes = record { decided = true; is_yes = true; observed_root = 13 }

aggregate_test : aggregate group votes all_roots 3 ≡ ok final_yes
unfolding aggregate find_vote count new_counter get_idx get_stake_by_idx has_quorum quorum
aggregate_test = refl

two_roots_test : aggregate group votes two_roots 3 ≡ ok final_yes
unfolding aggregate find_vote count new_counter get_idx get_stake_by_idx has_quorum quorum
two_roots_test = refl

votes-Consistent : Consistent group 3 votes votes all_roots two_roots
unfolding find_vote
votes-Consistent = record {
  yes_no = λ i a b. elim b [
    | inl (_, (v, is, side)) ↦ ground arith
    | inr (inl (_, (v, is, side))) ↦ ground arith
    | inr (inr b) ↦ absurd b
  ];
  no_yes = λ i a b. elim a [
    | inl (_, (v, is, side)) ↦ ground arith
    | inr (inl (_, (v, is, side))) ↦ ground arith
    | inr (inr (inl (_, (v, is, side)))) ↦ ground arith
    | inr (inr (inr a)) ↦ absurd a
  ];
}

final_vote-agree_example : final_yes.is_yes ≡ final_yes.is_yes
final_vote-agree_example =
    final_vote-agree group 3 votes votes all_roots two_roots final_yes final_yes group-IsSound
      votes-Consistent aggregate_test two_roots_test refl

-- Two nodes in the middle of an election: the second has decided one validator more.
abbrev early : Election
early = record (reset group 1) { decided_roots = (3, final_yes) ∷ [] }

abbrev later : Election
later = record (reset group 1) {
  decided_roots = (3, final_yes) ∷ (7, record final_yes { observed_root = 17 }) ∷ [];
}

abbrev chosen : Res
chosen = record { frame = 1; atropos = 13 }

early_test : choose_atropos early ≡ ok (some chosen)
unfolding choose_atropos reset
early_test = refl

later_test : choose_atropos later ≡ ok (some chosen)
unfolding choose_atropos reset
later_test = refl

choose_atropos-agree_example : chosen ≡ chosen
unfolding reset
choose_atropos-agree_example =
    choose_atropos-agree early later chosen chosen refl refl (λ v x y a b. ground arith) early_test
      later_test

choose_atropos-FirstYes_example :
    (choose_atropos early ≡ ok (some chosen))
    ↔ (FirstYes early.decided_roots early.validators.cache.ids 13 × (1 ≡ early.frame_to_decide))
choose_atropos-FirstYes_example = choose_atropos-FirstYes early chosen

abbrev one_decided : Election
one_decided = record (reset group 1) { decided_roots = (7, final_yes) ∷ [] }

-- A root of the second frame that observes nothing of the first votes no on the others.
abbrev after_root : Outcome (Election × Option Res)
after_root = process_root (λ a b. false) (λ f. []) one_decided (root 21 3)

process_root_test :
    after_root
    ≡ ok (
      record one_decided {
        votes =
            (
              21,
              (3, record { decided = false; is_yes = false; observed_root = 0 })
                  ∷ (9, record { decided = false; is_yes = false; observed_root = 0 })
                  ∷ [],
            )
            ∷ [];
      },
      none,
    )
unfolding process_root choose_atropos reset not_decided_roots len
process_root_test = refl

process_root-decided_kept_example : lookup 7 one_decided.decided_roots ≡ some final_yes
unfolding reset
process_root-decided_kept_example =
    process_root-decided_kept (λ a b. false) (λ f. []) one_decided
      (record one_decided {
        votes =
            (
              21,
              (3, record { decided = false; is_yes = false; observed_root = 0 })
                  ∷ (9, record { decided = false; is_yes = false; observed_root = 0 })
                  ∷ [],
            )
            ∷ [];
      })
      (root 21 3) none 7 final_yes refl process_root_test
