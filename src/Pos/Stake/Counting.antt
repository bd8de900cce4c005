-- ===== src/Pos/Stake/Counting.antt =====
-- What a stake counter has collected, and what two quorums have in common.
use lachesis_ex.Prelude.{
  ℕ, zero, suc, ◌+◌, ◌*◌, ◌%◌, ◌^◌, ◌≤◌, ◌<◌, ◌≡◌, refl, ap, ◌∙◌, ◌↔◌, Bool, true, false, not, ◌&&◌,
  List, [], ◌∷◌, map, some, arith, length, get_elem?, set, replicate, sum, sum-perm, length-perm,
  length-set, length-replicate, length-map, if◌then◌else◌, word64, get_elem?-some,
}
use lachesis_ex.Pos.{ValidatorsBuilder, Validators, len, get_stake_by_idx, quorum, build}
use lachesis_ex.Pos.Caches.{build-stakes-perm, build-total_stake}
use lachesis_ex.Pos.Stake.{
  StakeCounter, new_counter, count_by_idx, has_quorum, balance_to_stake, stake_to_balance,
}

-- The stakes at the marked positions.
abbrev pub weight : List Bool → List ℕ → ℕ
weight [] ws = 0
weight (b ∷ bs) [] = 0
weight (b ∷ bs) (w ∷ ws) = (if b then w else 0) + weight bs ws

-- The positions that both lists mark.
abbrev pub both : List Bool → List Bool → List Bool
both [] cs = []
both (b ∷ bs) [] = []
both (b ∷ bs) (c ∷ cs) = (b && c) ∷ both bs cs

pub weight-le-sum : (bs : List Bool) (ws : List ℕ) → weight bs ws ≤ sum ws
weight-le-sum [] ws = omega arith
weight-le-sum (b ∷ bs) [] = omega arith
weight-le-sum (true ∷ bs) (w ∷ ws) = omega (arith, weight-le-sum bs ws)
weight-le-sum (false ∷ bs) (w ∷ ws) = omega (arith, weight-le-sum bs ws)

pub weight-replicate : (n : ℕ) (ws : List ℕ) → weight (replicate n false) ws ≡ 0
weight-replicate zero ws = refl
weight-replicate (suc n) [] = refl
weight-replicate (suc n) (w ∷ ws) = omega (arith, weight-replicate n ws)

pub weight-set :
    (bs : List Bool) (ws : List ℕ) (i w : ℕ)
    → get_elem? bs i ≡ some false
    → get_elem? ws i ≡ some w
    → weight (set bs i true) ws ≡ weight bs ws + w
weight-set [] ws i w h k = cc
weight-set (b ∷ bs) [] i w h k = cc
weight-set (b ∷ bs) (v ∷ ws) zero w h k = ground arith
weight-set (b ∷ bs) (v ∷ ws) (suc i) w h k = omega (arith, weight-set bs ws i w h k)

-- Two marked sets weigh together at most all of it and what they share.
pub weight-both :
    (bs cs : List Bool) (ws : List ℕ)
    → weight bs ws + weight cs ws ≤ sum ws + weight (both bs cs) ws
weight-both [] cs ws = omega (arith, weight-le-sum cs ws)
weight-both (b ∷ bs) [] ws = omega (arith, weight-le-sum (b ∷ bs) ws)
weight-both (b ∷ bs) (c ∷ cs) [] = omega arith
weight-both (b ∷ bs) (c ∷ cs) (w ∷ ws) = ground (arith, weight-both bs cs ws)

-- The group's arrays are aligned and its stakes add up with room for the doubling in `Quorum`.
pub record IsSound (vv : Validators) : Type 0 where
  pub aligned : length vv.cache.stakes ≡ len vv
  pub total : vv.cache.total_stake ≡ sum vv.cache.stakes
  pub room : sum vv.cache.stakes < 2 ^ 63

-- The counter has counted each marked validator once.
pub record IsCounting (s : StakeCounter) : Type 0 where
  pub marks : length s.already ≡ length s.validators.cache.stakes
  pub counted : s.sum ≡ weight s.already s.validators.cache.stakes
  pub needed : s.quorum ≡ quorum s.validators

pub new_counter-IsCounting : (vv : Validators) → IsSound vv → IsCounting (new_counter vv)
unfolding new_counter
new_counter-IsCounting vv v = record {
  marks = length-replicate (len vv) false ∙ omega arith;
  counted = omega (arith, weight-replicate (len vv) vv.cache.stakes);
  needed = refl;
}

-- What `CountByIdx` does at an index in range: it counts a validator the first time only.
abbrev pub Counted : StakeCounter → ℕ → StakeCounter × Bool → Type 0
Counted s i (t, new) =
    IsCounting t
    × (t.validators ≡ s.validators)
    × (get_elem? s.already i ≡ some (not new))
    × (t.already ≡ set s.already i true)

pub set_self {ℓ} :
    {A : Type ℓ} (xs : List A) (i : ℕ) (v : A) → get_elem? xs i ≡ some v → set xs i v ≡ xs
set_self [] i v h = refl
set_self (x ∷ xs) zero v h = ground arith
set_self (x ∷ xs) (suc i) v h = ap (◌∷◌ x) (set_self xs i v h)

-- On a counter over a sound group, counting an index in range always succeeds. It reports
-- whether the validator was new, marks it, and keeps the sum the weight of the marked ones.
pub count_by_idx-Counted :
    (s : StakeCounter) (i : ℕ)
    → IsSound s.validators
    → IsCounting s
    → i < length s.validators.cache.stakes
    → (r : StakeCounter × Bool) × (count_by_idx s i ≡ some r) × Counted s i r
unfolding count_by_idx get_stake_by_idx
count_by_idx-Counted s i v c h =
    let (seen, at) = get_elem?-some s.already i (rw c.marks h) in
    let (w, stake) = get_elem?-some s.validators.cache.stakes i h in go seen w at stake
  where
    go :
        (seen : Bool) (w : ℕ)
        → get_elem? s.already i ≡ some seen
        → get_elem? s.validators.cache.stakes i ≡ some w
        → (r : StakeCounter × Bool) × (count_by_idx s i ≡ some r) × Counted s i r
    go true w at stake = (
      (s, false),
      rw (at, count_by_idx),
      (c, refl, at, ground (arith, set_self s.already i true at)),
    )
    go false w at stake = (
      (record s { already = set s.already i true; sum = (s.sum + w) % word64 }, true),
      rw (at, count_by_idx) (rw stake),
      (
        record {
          marks = length-set s.already i true ∙ c.marks;
          counted = omega (
            arith,
            c.counted,
            weight-set s.already s.validators.cache.stakes i w at stake,
            weight-le-sum (set s.already i true) s.validators.cache.stakes,
            v.room,
          );
          needed = c.needed;
        },
        refl,
        at,
        refl,
      ),
    )

-- A counter over a sound group has its quorum exactly when what it counted is more than two thirds
-- of the total.
pub has_quorum_iff :
    (s : StakeCounter)
    → IsSound s.validators
    → IsCounting s
    → (has_quorum s ≡ true)
      ↔ (2 * sum s.validators.cache.stakes < 3 * weight s.already s.validators.cache.stakes)
unfolding has_quorum quorum
has_quorum_iff s v c = (λ h. ground arith, λ h. ground arith)

-- Two sets of more than two thirds each share more than a third.
pub majorities_intersect :
    (bs cs : List Bool) (ws : List ℕ)
    → 2 * sum ws < 3 * weight bs ws
    → 2 * sum ws < 3 * weight cs ws
    → sum ws < 3 * weight (both bs cs) ws
majorities_intersect bs cs ws h k = omega (arith, weight-both bs cs ws)

-- Two counters over one sound group that both have their quorum have counted, both of them,
-- validators that hold more than a third of the total stake.
pub quorums_intersect :
    (s t : StakeCounter)
    → IsSound s.validators
    → IsCounting s
    → IsCounting t
    → t.validators ≡ s.validators
    → has_quorum s ≡ true
    → has_quorum t ≡ true
    → sum s.validators.cache.stakes
      < 3 * weight (both s.already t.already) s.validators.cache.stakes
quorums_intersect s t v c d e h k =
    majorities_intersect s.already t.already s.validators.cache.stakes ((has_quorum_iff s v c).0 h)
      (rw e at ((has_quorum_iff t (rw e v) d).0 k))

-- A group built from stakes that add up to less than 2 ^ 63 is sound.
pub build-IsSound :
    (b : ValidatorsBuilder) → sum (map (λ (id, s). s) (build b).values) < 2 ^ 63 → IsSound (build b)
unfolding len
build-IsSound b h =
    let p = build-stakes-perm b in
    record {
      aligned = length-perm p ∙ length-map (build b).values (λ (id, s). s);
      total = omega (arith, build-total_stake b, sum-perm p);
      room = omega (arith, sum-perm p);
    }

-- A stake below 2 ^ 63 survives the way to a balance and back.
pub balance_to_stake-stake_to_balance :
    (s : ℕ) → s < 2 ^ 63 → balance_to_stake (stake_to_balance s) ≡ s
unfolding balance_to_stake stake_to_balance
balance_to_stake-stake_to_balance s h = ground arith
