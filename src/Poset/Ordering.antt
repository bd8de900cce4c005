-- ===== src/Poset/Ordering.antt =====
-- poset/event_ordering.go and poset/frame_info.go: the order of a block's events and the
-- consensus time of a frame.
-- An int64 is written as its 64 bits, that is as a number below 2 ^ 64: sums, differences and
-- products of int64 and of uint64 have the same bits.
pub mod Times
pub mod Stable
use lachesis_ex.Prelude.{
  ℕ, ◌+◌, ◌-◌, ◌*◌, ◌/◌, ◌%◌, ◌^◌, Bool, List, [], ◌∷◌, map, Option, none, some, ltb, ◌==◌,
  if◌then◌else◌, word32, word64,
}
use lachesis_ex.Prelude.Sort.{sort}
use lachesis_ex.Inter.{EventHeaderData, max_of}

-- The `Less` of the sort: the Lamport times, then the ids.
abbrev pub before : EventHeaderData → EventHeaderData → Bool
before a b = if a.lamport == b.lamport then ltb a.hash b.hash else ltb a.lamport b.lamport

-- `fareOrdering`
unfoldable pub fare_ordering : List EventHeaderData → List ℕ
fare_ordering unordered = map (λ e. e.hash) (sort before unordered)

pub record FrameInfo : Type 0 where
  pub time_offset : ℕ
  pub time_ratio : ℕ
  pub last_consensus_time : ℕ

-- The period that the frame's time covers.
unfoldable pub frame_time_period : ℕ → ℕ → ℕ
frame_time_period last now = if ltb now last then 1 else max_of ((now + (word64 - last)) % word64) 1

-- The time of one Lamport step.
unfoldable pub time_ratio : ℕ → ℕ → ℕ → ℕ → ℕ
unfolding frame_time_period
time_ratio last now highest lowest =
    max_of (frame_time_period last now / max_of ((highest + (word32 - lowest) + 1) % word32) 1) 1

-- `CalcConsensusTime`
unfoldable pub calc_consensus_time : FrameInfo → ℕ → ℕ
calc_consensus_time f lamport = (lamport * f.time_ratio % word64 + f.time_offset) % word64

-- `fareTimestamps`, for the consensus time of the frame before and the median time of the Atropos.
unfoldable pub fare_timestamps : ℕ → ℕ → ℕ → ℕ → FrameInfo
unfolding time_ratio
fare_timestamps last now highest lowest =
    let ratio = time_ratio last now highest lowest in
    let offset = ((last + ratio) % word64 + (word64 - lowest * ratio % word64)) % word64 in
    record {
      time_offset = offset;
      time_ratio = ratio;
      last_consensus_time = (highest * ratio % word64 + offset) % word64;
    }

-- `math.MaxInt64/2`
abbrev offset_shift : ℕ
offset_shift = 2 ^ 62 - 1

-- The fields that `EncodeRLP` hands to the RLP library, and what `DecodeRLP` makes of them.
unfoldable pub to_marshaling : FrameInfo → FrameInfo
to_marshaling f = record f { time_offset = (f.time_offset + offset_shift) % word64 }

unfoldable pub of_marshaling : FrameInfo → FrameInfo
of_marshaling m = record m { time_offset = (m.time_offset + (word64 - offset_shift)) % word64 }
