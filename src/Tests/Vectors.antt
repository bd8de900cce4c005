-- ===== src/Tests/Vectors.antt =====
-- Tests and examples for the vector index.
use lachesis_ex.Prelude.{
  ℕ, ◌*◌, ◌<◌, ◌≡◌, ◌↔◌, refl, Bool, true, List, [], ◌∷◌, none, some, sum, arith, replicate,
}
use lachesis_ex.Prelude.Assoc.{lookup}
use lachesis_ex.Inter.{EventHeaderData, self_parent}
use lachesis_ex.Pos.{len, get_idx, get_stake_by_idx, quorum}
use lachesis_ex.Pos.Stake.{new_counter, count_by_idx, has_quorum}
use lachesis_ex.Pos.Stake.Counting.{weight, both}
use lachesis_ex.Vector.Clock.{
  new_lowest_after_seq, new_highest_before_seq, new_highest_before_time, is_fork_detected,
  lowest_after_get, lowest_after_set, before_time_get, before_time_set, before_seq_get,
  before_seq_set,
}
use lachesis_ex.Vector.Bytes.{from_le, read, le_bytes, write}
use lachesis_ex.Vector.Branches.{
  BranchesInfo, indices, new_initial_branches_info, fill_global_branch_id,
}
use lachesis_ex.Vector.Branches.Invariant.{IsPartition, Assigned, fill_global_branch_id-Assigned}
use lachesis_ex.Vector.Branches.Initial.{new_initial_branches_info-IsPartition}
use lachesis_ex.Vector.Index.{
  Index, empty_tables, branches, init_branches_info, drop_not_flushed, flush,
}
use lachesis_ex.Vector.ForklessCause.{forkless_cause, no_cheaters}
use lachesis_ex.Vector.ForklessCause.Quorum.{
  SeesFork, Majority, forkless_cause-quorum, forkless_cause_both,
}
use lachesis_ex.Vector.ForklessCause.Observers.{AreObservers}
use lachesis_ex.Vector.Observe.{event_vecs, take_min, take_seq}
use lachesis_ex.Vector.Observe.Entries.{take_seq-covering}
use lachesis_ex.Vector.Merge.{
  merge_branches, any_fork, merge_branches-fork, get_highest_before_merged,
}
use lachesis_ex.Vector.MedianTime.{MedianTimeIndex, weighted_median, median_time}
use lachesis_ex.Vector.MedianTime.Weighted.{IsMedian, weighted_median-IsMedian}
use lachesis_ex.Tests.Groups.{group, group-IsSound}

-- What the event 100 observes: one event of the first validator, two of the second.
abbrev highest : List ℕ
highest = 1 ∷ 0 ∷ 0 ∷ 0 ∷ 1 ∷ 0 ∷ 0 ∷ 0 ∷ 2 ∷ 0 ∷ 0 ∷ 0 ∷ 1 ∷ 0 ∷ 0 ∷ 0 ∷ []

-- What observes the event 200: the first event of each of the first two validators.
abbrev lowest : List ℕ
lowest = 1 ∷ 0 ∷ 0 ∷ 0 ∷ 1 ∷ 0 ∷ 0 ∷ 0 ∷ []

abbrev index : Index
index = record {
  validators = group;
  bi = none;
  tables = record empty_tables {
    highest_before_seq = (100, highest) ∷ [];
    lowest_after_seq = (200, lowest) ∷ (300, lowest) ∷ [];
    event_branch = (200, 0) ∷ (300, 0) ∷ [];
  };
  flushed = empty_tables;
}

quorum_test : forkless_cause index 100 200 ≡ some true
unfolding forkless_cause len new_initial_branches_info indices lowest_after_get from_le read
    before_seq_get count_by_idx new_counter get_stake_by_idx has_quorum quorum
quorum_test = refl

missing_test : forkless_cause index 100 201 ≡ none
unfolding forkless_cause len new_initial_branches_info indices
missing_test = refl

flushed_test :
    (drop_not_flushed (flush (init_branches_info index))).tables.branches_info
    ≡ some (new_initial_branches_info group)
unfolding drop_not_flushed flush init_branches_info
flushed_test = refl

no_cheaters_test : no_cheaters index (λ id. none) none (200 ∷ []) ≡ some (200 ∷ [])
unfolding no_cheaters
no_cheaters_test = refl

median_time_test : median_time group (some (highest, 0 ∷ [])) 50 ≡ some 0
unfolding median_time get_stake_by_idx before_seq_get from_le read before_time_get
median_time_test = refl

merged_test :
    get_highest_before_merged group (new_initial_branches_info group) (highest, []) ≡ (highest, [])
unfolding get_highest_before_merged len new_initial_branches_info indices
merged_test = refl

merge_branches-fork_example :
    is_fork_detected (merge_branches highest [] (record { seq = 0; min_seq = 0 }) 0 (0 ∷ 1 ∷ [])).0
    ≡ any_fork highest (0 ∷ 1 ∷ [])
merge_branches-fork_example = merge_branches-fork highest [] (0 ∷ 1 ∷ [])

abbrev claims : List MedianTimeIndex
claims =
    record { stake = 5; claimed_time = 30 }
    ∷ record { stake = 1; claimed_time = 10 }
    ∷ record { stake = 1; claimed_time = 20 }
    ∷ []

median_test : weighted_median claims ≡ some 30
unfolding weighted_median
median_test = refl

weighted_median-IsMedian_example : (m : ℕ) × (weighted_median claims ≡ some m) × IsMedian m claims
weighted_median-IsMedian_example = weighted_median-IsMedian claims (omega arith)

new_initial_branches_info-IsPartition_example : IsPartition group (new_initial_branches_info group)
unfolding len
new_initial_branches_info-IsPartition_example = new_initial_branches_info-IsPartition group refl

abbrev index-IsPartition : IsPartition index.validators (branches index)
unfolding len branches
index-IsPartition = new_initial_branches_info-IsPartition group refl

forkless_cause-quorum_example :
    (r : Bool) × (ms : List Bool) × (forkless_cause index 100 200 ≡ some r)
    × AreObservers index highest lowest ms
    × ((r ≡ true) ↔ ((¬ SeesFork index highest 0) × Majority index ms))
forkless_cause-quorum_example =
    forkless_cause-quorum index 100 200 0 highest lowest group-IsSound index-IsPartition refl refl
      refl

caused :
    (id : ℕ)
    → lookup id index.tables.lowest_after_seq ≡ some lowest
    → forkless_cause index 100 id ≡ some true
unfolding forkless_cause len new_initial_branches_info indices lowest_after_get from_le read
    before_seq_get count_by_idx new_counter get_stake_by_idx has_quorum quorum
caused id h = rw h refl

forkless_cause_both_example :
    (a : List ℕ) × (v1 : List ℕ) × (v2 : List ℕ) × (m1 : List Bool) × (m2 : List Bool) × (lookup 100
        index.tables.highest_before_seq
      ≡ some a)
    × (lookup 200 index.tables.lowest_after_seq ≡ some v1)
    × (lookup 300 index.tables.lowest_after_seq ≡ some v2)
    × AreObservers index a v1 m1
    × AreObservers index a v2 m2
    × (sum group.cache.stakes < 3 * weight (both m1 m2) group.cache.stakes)
forkless_cause_both_example =
    forkless_cause_both index 100 200 300 group-IsSound index-IsPartition (caused 200 refl)
      (caused 300 refl)

-- An event of the second validator, its first.
abbrev event : EventHeaderData
event = record {
  version = 0;
  epoch = 1;
  seq = 1;
  frame = 1;
  is_root = true;
  creator = 7;
  prev_epoch_hash = 0;
  parents = [];
  gas_power_left = (0, 0);
  gas_power_used = 0;
  lamport = 1;
  claimed_time = 1;
  median_time = 0;
  tx_hash = 0;
  extra = [];
  hash = 400;
}

fill_global_branch_id-Assigned_example :
    (r : BranchesInfo × ℕ) × (fill_global_branch_id group []
        (new_initial_branches_info group)
        event
        1
      ≡ some r)
    × Assigned group r.0 1 1 r.1
unfolding len new_initial_branches_info indices self_parent
fill_global_branch_id-Assigned_example =
    fill_global_branch_id-Assigned group [] (new_initial_branches_info group) event 1
      (new_initial_branches_info-IsPartition group refl) (omega arith) refl

take_seq-covering_example :
    before_seq_get
      (take_seq
        (take_min highest 1 (record { seq = 2; min_seq = 1 }) (record { seq = 5; min_seq = 1 }))
        []
        []
        1
        (record { seq = 5; min_seq = 1 })).0
      1
    ≡ record { seq = 5; min_seq = 1 }
unfolding before_seq_get from_le read
take_seq-covering_example =
    take_seq-covering highest [] [] 1 1 (record { seq = 2; min_seq = 1 })
      (record { seq = 5; min_seq = 1 }) refl refl (omega arith, omega arith)
      (omega arith, omega arith)

-- The event on top of one with the vector above.
event_vecs_test :
    event_vecs group [] (new_initial_branches_info group) event ((highest, []) ∷ [])
    ≡ some (
      record (new_initial_branches_info group) { last_seq = 0 ∷ 1 ∷ 0 ∷ [] },
      record {
        after = lowest_after_set (replicate 12 0) 1 1;
        before_seq = 1 ∷ 0 ∷ 0 ∷ 0 ∷ 1 ∷ 0 ∷ 0 ∷ 0 ∷ 2 ∷ 0 ∷ 0 ∷ 0 ∷ 1 ∷ 0 ∷ 0 ∷ 0 ∷ replicate 8 0;
        before_time = replicate 24 0;
      },
    )
unfolding event_vecs get_idx self_parent new_initial_branches_info indices len new_lowest_after_seq
    new_highest_before_seq new_highest_before_time before_seq_get before_seq_set before_time_get
    before_time_set le_bytes from_le read write
event_vecs_test = refl
