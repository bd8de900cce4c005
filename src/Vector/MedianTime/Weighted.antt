-- ===== src/Vector/MedianTime/Weighted.antt =====
-- The weighted median lies where the stake is.
use lachesis_ex.Prelude.{
  ℕ, ◌+◌, ◌/◌, ◌%◌, ◌≤◌, ◌<◌, ◌≡◌, refl, Bool, List, [], ◌∷◌, map, Perm, some, ltb, leb,
  if◌then◌else◌, word64, arith, sum, sum-perm, Bool-cases, inl, inr,
}
use mathlib.Core.List.Perm
use lachesis_ex.Prelude.Sort.{sort, sort-perm, sort-IsSorted, IsSorted, IsWeak, Above}
use lachesis_ex.Vector.MedianTime.{MedianTimeIndex, earlier, total, scan, weighted_median}

-- The stake of the claims that pass the test.
pub stake_where : (ℕ → Bool) → List MedianTimeIndex → ℕ
stake_where p [] = 0
stake_where p (c ∷ cs) = (if p c.claimed_time then c.stake else 0) + stake_where p cs

abbrev pub stakes : List MedianTimeIndex → List ℕ
stakes = map (λ c. c.stake)

-- The claims up to a time, and those before it.
abbrev pub stake_up_to : ℕ → List MedianTimeIndex → ℕ
stake_up_to m = stake_where (λ t. leb t m)

abbrev pub stake_before : ℕ → List MedianTimeIndex → ℕ
stake_before m = stake_where (λ t. ltb t m)

stake_where-sum :
    (p : ℕ → Bool) (cs : List MedianTimeIndex)
    → stake_where p cs ≡ sum (map (λ c. if p c.claimed_time then c.stake else 0) cs)
unfolding stake_where
stake_where-sum p [] = refl
stake_where-sum p (c ∷ cs) = omega (arith, stake_where-sum p cs)

stake_where-perm :
    (p : ℕ → Bool) {cs ds : List MedianTimeIndex} → Perm cs ds → stake_where p cs ≡ stake_where p ds
stake_where-perm p {cs} {ds} q = omega (
  arith,
  stake_where-sum p cs,
  stake_where-sum p ds,
  sum-perm (Perm.map (λ c. if p c.claimed_time then c.stake else 0) q),
)

total-exact :
    (acc : ℕ) (cs : List MedianTimeIndex)
    → acc + sum (stakes cs) < word64
    → total acc cs ≡ acc + sum (stakes cs)
unfolding total
total-exact acc [] h = omega arith
total-exact acc (c ∷ cs) h = omega (arith, total-exact ((acc + c.stake) % word64) cs)

-- All claims of the list are later than the time, or not earlier.
abbrev NotBefore : ℕ → List MedianTimeIndex → Type 0
NotBefore m [] = Unit
NotBefore m (c ∷ cs) = (m ≤ c.claimed_time) × NotBefore m cs

stake_before-none : (m : ℕ) (cs : List MedianTimeIndex) → NotBefore m cs → stake_before m cs ≡ 0
unfolding stake_where
stake_before-none m [] h = refl
stake_before-none m (c ∷ cs) h = ground (arith, stake_before-none m cs h.1)

Above-NotBefore :
    (c : MedianTimeIndex) (cs : List MedianTimeIndex)
    → Above earlier c cs
    → NotBefore c.claimed_time cs
Above-NotBefore c [] h = tt
Above-NotBefore c (d ∷ cs) h = (ground arith, Above-NotBefore c cs h.1)

-- The scan stops within the list, as long as the half is not yet reached and can be.
scan-NotBefore :
    (half curr k : ℕ) (cs : List MedianTimeIndex)
    → NotBefore k cs
    → curr < half
    → half ≤ curr + sum (stakes cs)
    → curr + sum (stakes cs) < word64
    → k ≤ (scan half curr cs).1
unfolding scan
scan-NotBefore half curr k [] n l h f = absurd (omega arith)
scan-NotBefore half curr k (c ∷ cs) n l h f =
    ground (arith, scan-NotBefore half ((curr + c.stake) % word64) k cs n.1)

-- What the scan over sorted claims finds.
record Found (half curr : ℕ) (cs : List MedianTimeIndex) (r : ℕ × ℕ) : Type 0 where
  reached : half ≤ r.0
  within : r.0 ≤ curr + sum (stakes cs)
  enough : half ≤ curr + stake_up_to r.1 cs
  least : curr < half → curr + stake_before r.1 cs < half

Found-later :
    (half curr : ℕ) (c : MedianTimeIndex) (cs : List MedianTimeIndex) (r : ℕ × ℕ)
    → curr + c.stake < half
    → c.claimed_time ≤ r.1
    → Found half (curr + c.stake) cs r
    → Found half curr (c ∷ cs) r
unfolding stake_where
Found-later half curr c cs r go late f = record {
  reached = f.reached;
  within = omega (arith, f.within);
  enough = ground (arith, f.enough);
  least = λ l. ground (arith, f.least go);
}

scan-Found :
    (half curr : ℕ) (cs : List MedianTimeIndex)
    → IsSorted earlier cs
    → half ≤ curr + sum (stakes cs)
    → curr + sum (stakes cs) < word64
    → Found half curr cs (scan half curr cs)
unfolding scan stake_where
scan-Found half curr [] s h f = omega arith
scan-Found half curr (c ∷ cs) s h f =
    let next : (curr + c.stake) % word64 ≡ curr + c.stake = omega arith in
    rw (next, scan)
      (elim (Bool-cases (leb half (curr + c.stake))) [
        | inl stop ↦ rw stop (record {
          reached = ground arith;
          within = omega arith;
          enough = ground arith;
          least =
              λ l. ground (arith, stake_before-none c.claimed_time cs (Above-NotBefore c cs s.0));
        })
        | inr go ↦
            let ih : Found half (curr + c.stake) cs (scan half (curr + c.stake) cs) =
              scan-Found half (curr + c.stake) cs s.1 (omega arith) (omega arith) in
            let late : c.claimed_time ≤ (scan half (curr + c.stake) cs).1 =
              scan-NotBefore half (curr + c.stake) c.claimed_time cs (Above-NotBefore c cs s.0)
                (ground arith) (omega arith) (omega arith) in
            rw go
              (Found-later half curr c cs (scan half (curr + c.stake) cs) (ground arith) late ih)
      ])

earlier-IsWeak : IsWeak earlier
earlier-IsWeak = record { asymm = λ x y h. ground arith; negtrans = λ x y z h k. ground arith }

-- What makes `m` a median of the claims: those up to `m` hold half of the stake, rounded down, and
-- those before `m` hold less than that.
pub record IsMedian (m : ℕ) (cs : List MedianTimeIndex) : Type 0 where
  pub enough : sum (stakes cs) / 2 ≤ stake_up_to m cs
  pub least : 0 < sum (stakes cs) / 2 → stake_before m cs < sum (stakes cs) / 2

-- As long as the sum of the stakes fits in 64 bits, the sanity check of the median never fails,
-- whatever the order in which the claims come, and the time returned is a weighted median: the
-- claims up to it hold at least half of the stake, rounded down to a whole number as in the code,
-- and those before it hold less than that (when it is not zero).
pub weighted_median-IsMedian :
    (cs : List MedianTimeIndex)
    → sum (stakes cs) < word64
    → (m : ℕ) × (weighted_median cs ≡ some m) × IsMedian m cs
unfolding weighted_median
weighted_median-IsMedian cs fits =
    let p : Perm (sort earlier cs) cs = sort-perm earlier cs in
    let same : sum (stakes (sort earlier cs)) ≡ sum (stakes cs) =
      sum-perm (Perm.map (λ c. c.stake) p) in
    let whole : total 0 cs ≡ sum (stakes cs) = omega (arith, total-exact 0 cs (omega arith)) in
    let half : ℕ = sum (stakes cs) / 2 in
    let f : Found half 0 (sort earlier cs) (scan half 0 (sort earlier cs)) =
      scan-Found half 0 (sort earlier cs) (sort-IsSorted earlier earlier-IsWeak cs) (omega arith)
        (omega arith) in
    (
      (scan half 0 (sort earlier cs)).1,
      rw (whole) (ground (arith, f.reached, f.within)),
      record {
        enough =
            omega
              (arith, f.enough, stake_where-perm (λ t. leb t (scan half 0 (sort earlier cs)).1) p);
        least = λ l.
            omega
              (arith, f.least l, stake_where-perm (λ t. ltb t (scan half 0 (sort earlier cs)).1) p);
      },
    )
