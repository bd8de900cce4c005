-- ===== src/Tests/Decisions.antt =====
-- Tests and examples for the decision of frames.
use lachesis_ex.Prelude.{
  ℕ, ◌+◌, ◌≡◌, ◌↔◌, ◌⊎◌, refl, sym, ap, ◌∙◌, suc, true, List, [], ◌∷◌, none, some, arith, Holds,
  Bool-cases, inl, inr, ◌==◌, ==_iff,
}
use mathlib.Core.Path.{subst}
use mathlib.Core.Option.{some-injective}
use lachesis_ex.Prelude.Assoc.{lookup}
use lachesis_ex.Inter.{EventHeaderData}
use lachesis_ex.Pos.{get_idx}
use lachesis_ex.Vector.Clock.{before_seq_get, before_seq_set}
use lachesis_ex.Vector.Bytes.{read, write, le_bytes, from_le}
use lachesis_ex.Election.{choose_atropos}
use lachesis_ex.Walk.{done}
use lachesis_ex.Poset.Ordering.{fare_ordering, fare_timestamps}
use lachesis_ex.Poset.Confirm.{Headers, confirmed_on, confirm_events, count_parents}
use lachesis_ex.Poset.Confirm.Ancestors.{Ancestor, IsStored, IsClosed}
use lachesis_ex.Poset.Confirm.Once.{Confirmed, confirm_events-Confirmed}
use lachesis_ex.Poset.Decide.{Application, State, Block, ended, info_key, confirm_block}
use lachesis_ex.Poset.Decide.Blocks.{confirm_block-events}
use lachesis_ex.Poset.Decide.Meant.{IsMeant}
use lachesis_ex.Poset.Decide.Ends.{EndsWith}
use lachesis_ex.Poset.Elections.{handle_election}
use lachesis_ex.Poset.Elections.Ends.{Advanced, handle_election-Advanced}
use lachesis_ex.Tests.Groups.{group}

abbrev pub event : ℕ → ℕ → List ℕ → EventHeaderData
event id seq parents = record {
  version = 0;
  epoch = 1;
  seq = seq;
  frame = 1;
  is_root = true;
  creator = 3;
  prev_epoch_hash = 0;
  parents = parents;
  gas_power_left = (0, 0);
  gas_power_used = 0;
  lamport = seq;
  claimed_time = 5;
  median_time = 50 + seq;
  tx_hash = 0;
  extra = [];
  hash = id;
}

-- An event with its self-parent.
abbrev pub headers : Headers
headers = (11, event 11 1 []) ∷ (12, event 12 2 (11 ∷ [])) ∷ []

pub found :
    (id : ℕ) (h : EventHeaderData)
    → lookup id headers ≡ some h
    → ((11 ≡ id) × (event 11 1 [] ≡ h)) ⊎ ((12 ≡ id) × (event 12 2 (11 ∷ []) ≡ h))
found id h l = elim (Bool-cases (11 == id)) [
  | inl e ↦ inl ((==_iff 11 id).0 e, some-injective _ _ (rw e at l))
  | inr e ↦ elim (Bool-cases (12 == id)) [
    | inl f ↦ inr ((==_iff 12 id).0 f, some-injective _ _ (rw f at (rw e at l)))
    | inr f ↦ absurd (ground (arith, rw f at (rw e at l)))
  ]
]

pub headers-IsStored : IsStored headers
headers-IsStored = record {
  by_id = λ id h l. elim (found id h l) [
    | inl (i, e) ↦ sym (ap (λ x. x.hash) e) ∙ i
    | inr (i, e) ↦ sym (ap (λ x. x.hash) e) ∙ i
  ];
  parents_first = λ id h l p own. elim (found id h l) [
    | inl (i, e) ↦ absurd (subst (λ x. Holds p x.parents) (sym e) own)
    | inr (i, e) ↦ elim (subst (λ x. Holds p x.parents) (sym e) own) [
      | inl q ↦ (event 11 1 [], rw q refl)
      | inr q ↦ absurd q
    ]
  ];
}

none-IsClosed : IsClosed headers []
unfolding confirmed_on
none-IsClosed id h pos l p own = absurd (omega (arith, pos))

abbrev count_call : ℕ → EventHeaderData → ℕ
count_call n h = suc n

confirm_events_test :
    confirm_events headers 1 count_call 2 12 ([], 0) ≡ done ((12, 1) ∷ (11, 1) ∷ [], 2)
unfolding confirm_events
confirm_events_test = refl

confirm_events-Confirmed_example :
    (s : List (ℕ × ℕ) × ℕ) × (confirm_events headers 1 count_call 2 12 ([], 0) ≡ done s)
    × Confirmed headers headers-IsStored 1 (omega arith) count_call [] 0 12 s
unfolding count_parents
confirm_events-Confirmed_example =
    confirm_events-Confirmed headers headers-IsStored 1 (omega arith) count_call [] 0 12 2
      (event 12 2 (11 ∷ [])) refl none-IsClosed (omega arith)

-- An application that takes all events in and seals the epoch with the second block.
abbrev pub app : Application
app = record {
  apply_block = some (λ block frame cheaters. (block.atropos, block.index == 7));
  select_validators = none;
  is_allowed = λ e depth. true;
  hash_of = λ old new. old + new;
}

abbrev pub state : State
state = record {
  checkpoint = record { last_decided_frame = 0; last_block_n = 5; last_atropos = 90; app_hash = 8 };
  epoch_n = 1;
  prev_epoch = record { epoch = 0; time = 40; last_atropos = 90; app_hash = 8 };
  validators = group;
  election = record { frame_to_decide = 1; validators = group; decided_roots = []; votes = [] };
  confirmed = [];
  frame_infos = [];
  roots = record { id = 11; frame = 1; validator = 3 } ∷ [];
}

-- The vector of the Atropos: both events of the validator 3 are observed.
abbrev vector : List ℕ
vector = before_seq_set [] (get_idx group 3) (record { seq = 2; min_seq = 1 })

abbrev after_block : State
after_block = record state {
  confirmed = (12, 1) ∷ (11, 1) ∷ [];
  frame_infos = (info_key 1 1, fare_timestamps 40 52 2 1) ∷ [];
}

abbrev block : Block
block = record { index = 6; time = 52; events = 11 ∷ 12 ∷ []; prev_hash = 90; atropos = 12 }

block_test : confirm_block app headers (λ _. vector) state 1 12 ≡ ended (after_block, block, [])
unfolding confirm_block confirm_events fare_ordering fare_timestamps get_idx before_seq_set
    before_seq_get write le_bytes from_le read
block_test = refl

confirm_block-events_example : Holds 11 block.events ↔ (
    (h : EventHeaderData) × (lookup 11 headers ≡ some h)
    × IsMeant app group vector h
    × (confirmed_on [] 11 ≡ 0)
    × Ancestor headers 12 11)
confirm_block-events_example =
    confirm_block-events app headers (λ _. vector) state after_block 1 12 block [] headers-IsStored
      (omega arith) none-IsClosed block_test 11

-- The root 11 is processed again, and decides nothing.
handle_election_test :
    handle_election app headers (λ _. vector) (λ x y. true) 2 2 (some (event 11 1 [])) state
    ≡ ended state
unfolding handle_election choose_atropos
handle_election_test = refl

handle_election-Advanced_example :
    EndsWith
      (Advanced state)
      (handle_election app headers (λ _. vector) (λ x y. true) 2 2 (some (event 11 1 [])) state)
handle_election-Advanced_example =
    handle_election-Advanced app headers (λ _. vector) (λ x y. true) 2 headers-IsStored 2
      (some (event 11 1 [])) state
      (record { to_decide = refl; small = omega arith; blocks = omega arith }) (omega arith)
      (omega arith, tt) (omega arith) (omega arith)
