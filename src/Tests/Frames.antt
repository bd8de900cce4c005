-- ===== src/Tests/Frames.antt =====
-- Tests and examples for the frames and the order of the events.
use lachesis_ex.Prelude.{
  ℕ, ◌+◌, ◌-◌, ◌*◌, ◌≤◌, ◌<◌, ◌≡◌, refl, true, false, [], ◌∷◌, Option, none, some, arith, word64,
  word32, ◌==◌, if◌then◌else◌,
}
use mathlib.Core.List.Perm
use lachesis_ex.Inter.{EventHeaderData, self_parent, is_self_parent, max_of}
use lachesis_ex.Pos.{get_idx, get_stake_by_idx, quorum, len, has_validator}
use lachesis_ex.Pos.Stake.{new_counter, count, has_quorum}
use lachesis_ex.Poset.{add_root, calc_frame_idx, forkless_caused_by_quorum_on}
use lachesis_ex.Poset.Event.{VectorClock, Poset, prepare}
use lachesis_ex.Poset.Event.Frames.{filled, calc_frame_idx-filled}
use lachesis_ex.Poset.Ordering.{
  FrameInfo, fare_ordering, fare_timestamps, calc_consensus_time, time_ratio,
}
use lachesis_ex.Poset.Ordering.Times.{calc_consensus_time-fare_timestamps, fare_timestamps-bounds}
use lachesis_ex.Poset.Ordering.Stable.{fare_ordering-perm}
use lachesis_ex.Tests.Groups.{group}

abbrev info : FrameInfo
info = fare_timestamps 100 160 14 12

info_test : info ≡ record { time_offset = word64 - 120; time_ratio = 20; last_consensus_time = 160 }
unfolding fare_timestamps
info_test = refl

calc_consensus_time-fare_timestamps_example :
    calc_consensus_time info 13 ≡ 100 + 2 * time_ratio 100 160 14 12
calc_consensus_time-fare_timestamps_example =
    calc_consensus_time-fare_timestamps 100 160 14 12 13 (omega arith) (omega arith) (omega arith)
      (omega arith) (omega arith)

fare_timestamps-bounds_example :
    (100 < info.last_consensus_time)
    × (info.last_consensus_time ≤ max_of 160 103)
    × (calc_consensus_time info 14 ≡ info.last_consensus_time)
fare_timestamps-bounds_example =
    fare_timestamps-bounds 100 160 14 12 (omega arith) (omega arith) (omega arith) (omega arith)

-- The last event of the validator 3, a root of the first frame.
abbrev own : EventHeaderData
own = record {
  version = 0;
  epoch = 1;
  seq = 1;
  frame = 1;
  is_root = true;
  creator = 3;
  prev_epoch_hash = 77;
  parents = [];
  gas_power_left = (0, 0);
  gas_power_used = 0;
  lamport = 1;
  claimed_time = 5;
  median_time = 5;
  tx_hash = 0;
  extra = [];
  hash = 400;
}

abbrev peer : EventHeaderData
peer = record own { creator = 7; hash = 500 }

fare_ordering_test : fare_ordering (peer ∷ own ∷ []) ≡ 400 ∷ 500 ∷ []
unfolding fare_ordering
fare_ordering_test = refl

fare_ordering-perm_example : fare_ordering (own ∷ peer ∷ []) ≡ fare_ordering (peer ∷ own ∷ [])
fare_ordering-perm_example =
    fare_ordering-perm (own ∷ peer ∷ []) (peer ∷ own ∷ []) (Perm.swap peer own [])

-- The next event of the validator 3, before its fields are filled in.
abbrev draft : EventHeaderData
draft = record own {
  seq = 2;
  frame = 0;
  is_root = false;
  parents = 400 ∷ 500 ∷ [];
  lamport = 2;
  hash = 600;
}

abbrev header : ℕ → Option EventHeaderData
header id = if id == 400 then some own else if id == 500 then some peer else none

-- An index that counts its events, in which every root causes every event.
abbrev clock : VectorClock ℕ
clock = record {
  no_cheaters = λ s p options. options;
  add = λ s e. s + 1;
  drop_not_flushed = λ s. s;
  flush = λ s. s;
  forkless_cause = λ s a b. true;
  median_time = λ s id t. 9;
}

abbrev state : Poset ℕ
state = record {
  epoch = 1;
  validators = group;
  prev_epoch_hash = 77;
  prev_epoch_time = 1;
  vec_clock = 0;
  roots =
      record { id = 400; frame = 1; validator = 3 }
      ∷ record { id = 500; frame = 1; validator = 7 }
      ∷ [];
}

abbrev prepared : EventHeaderData
prepared = record draft { frame = 2; is_root = true; median_time = 9; prev_epoch_hash = 0 }

prepare_test :
    prepare clock header state draft ≡ some (record state { vec_clock = 1 }, some prepared)
unfolding prepare has_validator self_parent is_self_parent forkless_caused_by_quorum_on new_counter
    count get_idx get_stake_by_idx has_quorum quorum len
prepare_test = refl

add_root_test :
    add_root (record { id = 600; frame = 2; validator = 3 }) state.roots
    ≡ record { id = 400; frame = 1; validator = 3 }
      ∷ record { id = 500; frame = 1; validator = 7 }
      ∷ record { id = 600; frame = 2; validator = 3 }
      ∷ []
unfolding add_root
add_root_test = refl

header-lt : (h : ℕ) (p : EventHeaderData) → header h ≡ some p → p.frame < word32
header-lt h p e = ground arith

calc_frame_idx-filled_example :
    calc_frame_idx (λ a b. true) group state.roots header (filled draft 2 true 9 0 700) true
    ≡ some (2, true)
unfolding calc_frame_idx self_parent is_self_parent forkless_caused_by_quorum_on new_counter count
    get_idx get_stake_by_idx has_quorum quorum len
calc_frame_idx-filled_example =
    calc_frame_idx-filled (λ a b. true) (λ a b. true) group state.roots header header-lt draft 700 9
      0 (λ r. refl) 2 true refl
