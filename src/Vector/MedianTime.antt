-- ===== src/Vector/MedianTime.antt =====
-- vector/median_time.go, over the merged vectors of an event.
pub mod Weighted
use lachesis_ex.Prelude.{
  ℕ, zero, suc, ◌+◌, ◌/◌, ◌%◌, Bool, true, false, ◌||◌, List, [], ◌∷◌, Option, none, some, ◌>>=◌,
  get_elem?, ltb, leb, ◌==◌, if◌then◌else◌, word64,
}
use lachesis_ex.Prelude.Sort.{sort}
use lachesis_ex.Pos.{Validators, get_stake_by_idx}
use lachesis_ex.Vector.Clock.{BranchSeq, before_seq_get, before_time_get, is_fork_detected}

pub record MedianTimeIndex : Type 0 where
  pub stake : ℕ
  pub claimed_time : ℕ

-- The `Less` of the sort.
abbrev pub earlier : MedianTimeIndex → MedianTimeIndex → Bool
earlier a b = ltb a.claimed_time b.claimed_time

-- What one validator adds: a cheater weighs nothing, and one that is not observed claims the
-- time of the genesis.
unfoldable pub claim : ℕ → ℕ → BranchSeq → ℕ → MedianTimeIndex
claim genesis_time stake seq time =
    if is_fork_detected seq
    then record { stake = 0; claimed_time = time }
    else record { stake = stake; claimed_time = if seq.seq == 0 then genesis_time else time }

-- The loop over the validators, from index `i` on.
claims : Validators → List ℕ → List ℕ → ℕ → ℕ → List ℕ → Option (List MedianTimeIndex)
unfolding claim
claims vv before times genesis_time i [] = some []
claims vv before times genesis_time i (id ∷ ids) = get_stake_by_idx vv i >>= λ stake.
    claims vv before times genesis_time (suc i) ids >>= λ rest.
    some (claim genesis_time stake (before_seq_get before i) (before_time_get times i) ∷ rest)

-- `honestTotalStake`, as the loop adds it up.
unfoldable pub total : ℕ → List MedianTimeIndex → ℕ
total acc [] = acc
total acc (c ∷ cs) = total ((acc + c.stake) % word64) cs

-- The loop that stops at the claim with which half of the stake is reached: the stake so far, and
-- the median, zero if it never stops.
unfoldable pub scan : ℕ → ℕ → List MedianTimeIndex → ℕ × ℕ
scan half curr [] = (curr, 0)
scan half curr (c ∷ cs) =
    let rest = scan half ((curr + c.stake) % word64) cs in
    if leb half ((curr + c.stake) % word64)
    then ((curr + c.stake) % word64, c.claimed_time)
    else rest

-- The weighted median, with its sanity check, which is fatal.
unfoldable pub weighted_median : List MedianTimeIndex → Option ℕ
unfolding total scan
weighted_median highests =
    let honest = total 0 highests in
    let (curr, median) = scan (honest / 2) 0 (sort earlier highests) in
    if ltb curr (honest / 2) || ltb honest curr then none else some median

-- `MedianTime`, for the merged vectors of an event, or 0 where the event is not found.
unfoldable pub median_time : Validators → Option (List ℕ × List ℕ) → ℕ → Option ℕ
unfolding claims weighted_median
median_time vv none genesis_time = some 0
median_time vv (some (before, times)) genesis_time =
    claims vv before times genesis_time 0 vv.cache.ids >>= λ highests. weighted_median highests
