-- ===== src/Poset/Ordering/Times.antt =====
-- The consensus times of a frame grow with the Lamport times and keep behind the median time.
use lachesis_ex.Prelude.{
  ℕ, ◌+◌, ◌-◌, ◌*◌, ◌/◌, ◌%◌, ◌≤◌, ◌<◌, ◌≡◌, refl, ap, ltb, if◌then◌else◌, word32, word64, arith,
}
use native.Mathlib.Nat.{add-mul, mul-div-le, mul-le-mul_right}
use lachesis_ex.Inter.{max_of}
use lachesis_ex.Poset.Ordering.{
  FrameInfo, frame_time_period, time_ratio, calc_consensus_time, fare_timestamps, to_marshaling,
  of_marshaling,
}

-- The two words in which the code sums up: an unsigned product and an offset below its value.
sum_of_words :
    (last r p q d : ℕ)
    → p + r ≡ q + d
    → last + d < word64
    → last < word64
    → (p % word64 + ((last + r) % word64 + (word64 - q % word64)) % word64) % word64 ≡ last + d
sum_of_words last r p q d e f l = omega arith

-- The Lamport steps from the lowest event of the frame, which is one step after the frame before.
steps_lem : (l low r : ℕ) → low ≤ l → l * r + r ≡ low * r + (l - low + 1) * r
steps_lem l low r h =
    let split : l ≡ low + (l - low) = omega arith in
    omega (arith, add-mul low (l - low) r, add-mul (l - low) 1 r, ap (λ x. x * r) split)

-- Above the words: the steps of the frame, the time that they cover and the time of one of them.
time_ratio_lem :
    (last now high low : ℕ)
    → low ≤ high
    → high + 1 < word32
    → now < word64
    → last < word64
    → time_ratio last now high low ≡ max_of (max_of (now - last) 1 / (high - low + 1)) 1
unfolding time_ratio frame_time_period
time_ratio_lem last now high low h w nw lw =
    let period : max_of ((high + (word32 - low) + 1) % word32) 1 ≡ high - low + 1 = ground arith in
    let time : (if ltb now last then 1 else max_of ((now + (word64 - last)) % word64) 1)
        ≡ max_of (now - last) 1 =
      ground arith in
    rw (period, time) refl

max_step : (t k : ℕ) → k * max_of (max_of t 1 / k) 1 ≤ max_of t k
max_step t k = ground (arith, mul-div-le (max_of t 1) k)

-- The steps of a frame take no more time than has passed, or one unit each.
ratio_le :
    (last now high low : ℕ)
    → low ≤ high
    → high + 1 < word32
    → now < word64
    → last < word64
    → (high - low + 1) * time_ratio last now high low ≤ max_of (now - last) (high - low + 1)
ratio_le last now high low h w nw lw =
    rw (time_ratio_lem last now high low h w nw lw) (max_step (now - last) (high - low + 1))

ratio_pos : (last now high low : ℕ) → 0 < time_ratio last now high low
unfolding time_ratio
ratio_pos last now high low = ground arith

-- The time of an event of the frame is that of the frame before and a step of the frame's ratio
-- for each Lamport time from the lowest one on: no product or difference of the 64-bit
-- computation wraps to another value. The Lamport times are below 2 ^ 32 - 1, and the time of the
-- frame before leaves 2 ^ 32 units to the end of the range.
pub calc_consensus_time-fare_timestamps :
    (last now high low l : ℕ)
    → low ≤ l
    → l ≤ high
    → high + 1 < word32
    → now < word64
    → last + word32 ≤ word64
    → calc_consensus_time (fare_timestamps last now high low) l
      ≡ last + (l - low + 1) * time_ratio last now high low
unfolding calc_consensus_time fare_timestamps
calc_consensus_time-fare_timestamps last now high low l h k w nw lw =
    let r : ℕ = time_ratio last now high low in
    let most : (high - low + 1) * r ≤ max_of (now - last) (high - low + 1) =
      ratio_le last now high low (omega arith) w nw (omega arith) in
    let fewer : (l - low + 1) * r ≤ (high - low + 1) * r = mul-le-mul_right r (omega arith) in
    sum_of_words last r (l * r) (low * r) ((l - low + 1) * r) (steps_lem l low r h) (ground arith)
      (omega arith)

-- The consensus time of a frame is later than that of the frame before, and no later than the
-- median time of its Atropos, or one unit for each Lamport step of the frame. It is the
-- consensus time of the event with the highest Lamport time. The bounds are as above.
pub fare_timestamps-bounds :
    (last now high low : ℕ)
    → low ≤ high
    → high + 1 < word32
    → now < word64
    → last + word32 ≤ word64
    → let f = fare_timestamps last now high low in
      (last < f.last_consensus_time)
      × (f.last_consensus_time ≤ max_of now (last + (high - low + 1)))
      × (calc_consensus_time f high ≡ f.last_consensus_time)
unfolding calc_consensus_time fare_timestamps
fare_timestamps-bounds last now high low h w nw lw =
    let r : ℕ = time_ratio last now high low in
    let most : (high - low + 1) * r ≤ max_of (now - last) (high - low + 1) =
      ratio_le last now high low h w nw (omega arith) in
    let one_step : 1 * r ≤ (high - low + 1) * r = mul-le-mul_right r (omega arith) in
    let time = calc_consensus_time-fare_timestamps last now high low high h (omega arith) w nw lw in
    let r_pos = ratio_pos last now high low in (ground arith, ground arith, refl)

-- A frame's record is what it was after a trip through its marshalled form, for offsets of either
-- sign.
pub of_marshaling-to_marshaling :
    (f : FrameInfo) → f.time_offset < word64 → of_marshaling (to_marshaling f) ≡ f
unfolding of_marshaling to_marshaling
of_marshaling-to_marshaling f h = ap (λ t. record f { time_offset = t }) (omega arith)
