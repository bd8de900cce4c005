-- ===== src/Pos/Caches.antt =====
-- `calcCaches`: the arrays and the index of a built group describe its sorted array.
use mathlib.Core.Logic.{∥∥₁_elim, ∥∥₁_map, ∥∥₁_prop}
use mathlib.Core.HLevel.{⊥_prop}
use mathlib.Core.Logic.Or
use mathlib.Core.List.{
  Nodup, Nodup-cons, Nodup-nil, Mem, not-mem-nil, mem-cons, mem-cons_self, mem-cons_of_mem,
  append_assoc,
}
use mathlib.Core.List.Perm
use lachesis_ex.Prelude.{
  ℕ, zero, suc, ◌+◌, ◌%◌, ◌<◌, ◌≡◌, refl, ap, ◌∙◌, sym, ◌≢◌, true, List, [], ◌∷◌, ◌++◌, map, Perm,
  Option, none, some, arith, length, get_elem?, set, replicate, sum, sum-perm, length-perm,
  length-map, length-append, ◌==◌, word64, Bool-cases, Option-cases, inl, inr,
}
use lachesis_ex.Prelude.Assoc.{lookup, lookup-insert, IsDistinct}
use lachesis_ex.Prelude.Sort.{sort-perm}
use lachesis_ex.Pos.{
  Validator, less, ValidatorsBuilder, Cache, set_all, to_validator, sorted_array, cache_entry,
  fill_caches, calc_caches, build, get, get_idx, get_stake_by_idx, has_validator,
}
use lachesis_ex.Pos.Build.{nonzero, set_all-IsDistinct, lookup-set_all}

set-append {ℓ} :
    {A : Type ℓ} (pre rest : List A) (x v : A)
    → set (pre ++ x ∷ rest) (length pre) v ≡ (pre ++ v ∷ []) ++ rest
set-append [] rest x v = refl
set-append (y ∷ pre) rest x v = ap (◌∷◌ y) (set-append pre rest x v)

-- The loop of `calcCaches` writes the stakes and ids one after the other.
fill_caches-stakes :
    (vs : List Validator) (i : ℕ) (pre : List ℕ) (c : Cache)
    → i ≡ length pre
    → c.stakes ≡ pre ++ replicate (length vs) 0
    → (fill_caches i vs c).stakes ≡ pre ++ map (λ v. v.stake) vs
unfolding fill_caches
fill_caches-stakes [] i pre c h e = e
fill_caches-stakes (v ∷ vs) i pre c h e =
    fill_caches-stakes vs (suc i) (pre ++ v.stake ∷ []) _
      (omega (arith, length-append pre (v.stake ∷ [])))
      (rw (e, h) (set-append pre (replicate (length vs) 0) 0 v.stake))
    ∙ append_assoc pre (v.stake ∷ []) _

fill_caches-ids :
    (vs : List Validator) (i : ℕ) (pre : List ℕ) (c : Cache)
    → i ≡ length pre
    → c.ids ≡ pre ++ replicate (length vs) 0
    → (fill_caches i vs c).ids ≡ pre ++ map (λ v. v.id) vs
unfolding fill_caches
fill_caches-ids [] i pre c h e = e
fill_caches-ids (v ∷ vs) i pre c h e =
    fill_caches-ids vs (suc i) (pre ++ v.id ∷ []) _ (omega (arith, length-append pre (v.id ∷ [])))
      (rw (e, h) (set-append pre (replicate (length vs) 0) 0 v.id))
    ∙ append_assoc pre (v.id ∷ []) _

fill_caches-total :
    (vs : List Validator) (i : ℕ) (c : Cache)
    → c.total_stake < word64
    → (fill_caches i vs c).total_stake ≡ (c.total_stake + sum (map (λ v. v.stake) vs)) % word64
unfolding fill_caches
fill_caches-total [] i c h = omega arith
fill_caches-total (v ∷ vs) i c h = omega (arith, fill_caches-total vs (suc i) (cache_entry i v c))

fill_caches-fresh :
    (vs : List Validator) (i : ℕ) (c : Cache) (j : ℕ)
    → ¬ Mem j (map (λ v. v.id) vs)
    → lookup j (fill_caches i vs c).indexes ≡ lookup j c.indexes
unfolding fill_caches
fill_caches-fresh [] i c j h = refl
fill_caches-fresh (v ∷ vs) i c j h =
    fill_caches-fresh vs (suc i) _ j (λ m. h (mem-cons_of_mem v.id m))
    ∙ ground (arith, lookup-insert v.id j i c.indexes, other)
  where
    other : v.id ≢ j
    other e = h (rw e mem-cons_self)

fill_caches-indexes :
    (vs : List Validator) (i k : ℕ) (c : Cache) (v : Validator)
    → Nodup (map (λ v. v.id) vs)
    → get_elem? vs k ≡ some v
    → lookup v.id (fill_caches i vs c).indexes ≡ some (i + k)
unfolding fill_caches
fill_caches-indexes [] i k c v n h = cc
fill_caches-indexes (w ∷ vs) i zero c v n h = ground (
  arith,
  fill_caches-fresh vs (suc i) (cache_entry i w c) w.id (Nodup-cons.0 n).0,
  lookup-insert w.id w.id i c.indexes,
)
fill_caches-indexes (w ∷ vs) i (suc k) c v n h =
    ground (arith, fill_caches-indexes vs (suc i) k (cache_entry i w c) v (Nodup-cons.0 n).1 h)

mem-ids :
    (k s : ℕ) (m : ValidatorsBuilder)
    → lookup k m ≡ some s
    → Mem (to_validator (k, s)) (map to_validator m)
mem-ids k s [] h = cc
mem-ids k s ((j, t) ∷ m) h = elim (Bool-cases (j == k)) [
  | inl e ↦ ground (arith, mem-cons_self {a = to_validator (j, t)} {l = map to_validator m})
  | inr e ↦ mem-cons_of_mem (to_validator (j, t)) (mem-ids k s m (ground arith))
]

not-mem-ids :
    (k : ℕ) (m : ValidatorsBuilder)
    → lookup k m ≡ none
    → ¬ Mem k (map (λ v. v.id) (map to_validator m))
not-mem-ids k [] h q = not-mem-nil q
not-mem-ids k ((j, t) ∷ m) h q =
    Or.elim ⊥_prop (mem-cons.0 q) (λ e. ground arith) (not-mem-ids k m (ground arith))

Nodup-ids : (m : ValidatorsBuilder) → IsDistinct m → Nodup (map (λ v. v.id) (map to_validator m))
Nodup-ids [] d = Nodup-nil
Nodup-ids ((j, t) ∷ m) d = Nodup-cons.1 (not-mem-ids j m d.0, Nodup-ids m d.1)

mem-elem {ℓ} :
    {A : Type ℓ} (xs : List A) (a : A) → Mem a xs → ∥ ((i : ℕ) × (get_elem? xs i ≡ some a)) ∥₁
mem-elem [] a m = absurd (not-mem-nil m)
mem-elem (x ∷ xs) a m =
    Or.elim ∥∥₁_prop (mem-cons.0 m) (λ e. ∣ (0, ap some (sym e)) ∣₁)
      (λ q. ∥∥₁_map (mem-elem xs a q) (λ (i, e). (suc i, e)))

pub Option-set : {o p : Option ℕ} → IsProp (o ≡ p)
Option-set {o} {p} = s o p
  where
    s : IsSet (Option ℕ)
    s = hlevel

elem-mem {ℓ} : {A : Type ℓ} (xs : List A) (i : ℕ) (a : A) → get_elem? xs i ≡ some a → Mem a xs
elem-mem [] i a h = cc
elem-mem (x ∷ xs) zero a h = ground (arith, mem-cons_self {a = x} {l = xs})
elem-mem (x ∷ xs) (suc i) a h = mem-cons_of_mem x (elem-mem xs i a h)

elem-map {ℓ κ} :
    {A : Type ℓ} {B : Type κ} (xs : List A) (i : ℕ) (f : A → B) {b : B}
    → get_elem? (map f xs) i ≡ some b
    → (a : A) × (get_elem? xs i ≡ some a) × (f a ≡ b)
elem-map [] i f h = cc
elem-map (x ∷ xs) zero f h = (x, refl, cc)
elem-map (x ∷ xs) (suc i) f h = elem-map xs i f h

map-elem {ℓ κ} :
    {A : Type ℓ} {B : Type κ} (xs : List A) (i : ℕ) (f : A → B) {a : A}
    → get_elem? xs i ≡ some a
    → get_elem? (map f xs) i ≡ some (f a)
map-elem [] i f h = cc
map-elem (x ∷ xs) zero f h = ground arith
map-elem (x ∷ xs) (suc i) f h = map-elem xs i f h

mem-lookup :
    (m : ValidatorsBuilder) (v : Validator)
    → IsDistinct m
    → Mem v (map to_validator m)
    → lookup v.id m ≡ some v.stake
mem-lookup [] v d q = absurd (not-mem-nil q)
mem-lookup ((j, t) ∷ m) v d q =
    Or.elim Option-set (mem-cons.0 q) (λ e. ground arith)
      (λ q'. ground (arith, d.0, mem-lookup m v d.1 q'))

stakes-map : (m : ValidatorsBuilder) → map (λ v. v.stake) (map to_validator m) ≡ map (λ (k, s). s) m
stakes-map [] = refl
stakes-map ((k, s) ∷ m) = ap (◌∷◌ s) (stakes-map m)

module _ (m : ValidatorsBuilder) (d : IsDistinct m) where
  sorted-perm : Perm (sorted_array m) (map to_validator m)
  unfolding sorted_array
  sorted-perm = sort-perm less (map to_validator m)

  length-sorted : length (sorted_array m) ≡ length m
  length-sorted = length-perm sorted-perm ∙ length-map m to_validator

  sorted-Nodup : Nodup (map (λ v. v.id) (sorted_array m))
  sorted-Nodup = Perm.nodup (Perm.symm (Perm.map (λ v. v.id) sorted-perm)) (Nodup-ids m d)

  calc_caches-stakes : (calc_caches m).stakes ≡ map (λ v. v.stake) (sorted_array m)
  unfolding calc_caches
  calc_caches-stakes = fill_caches-stakes (sorted_array m) 0 [] _ refl (rw length-sorted)

  calc_caches-ids : (calc_caches m).ids ≡ map (λ v. v.id) (sorted_array m)
  unfolding calc_caches
  calc_caches-ids = fill_caches-ids (sorted_array m) 0 [] _ refl (rw length-sorted)

  calc_caches-total : (calc_caches m).total_stake ≡ sum (map (λ (k, s). s) m) % word64
  unfolding calc_caches
  calc_caches-total =
      fill_caches-total (sorted_array m) 0
        (record {
          indexes = [];
          stakes = replicate (length m) 0;
          ids = replicate (length m) 0;
          total_stake = 0;
        })
        (omega arith)
      ∙ omega (arith, sum-perm (Perm.map (λ v. v.stake) sorted-perm), ap sum (stakes-map m))

  calc_caches-indexes :
      (i : ℕ) (v : Validator)
      → get_elem? (sorted_array m) i ≡ some v
      → lookup v.id (calc_caches m).indexes ≡ some i
  unfolding calc_caches
  calc_caches-indexes i v h =
      fill_caches-indexes (sorted_array m) 0 i _ v sorted-Nodup h ∙ ap some (omega arith)

  sorted-lookup :
      (i : ℕ) (v : Validator) → get_elem? (sorted_array m) i ≡ some v → lookup v.id m ≡ some v.stake
  sorted-lookup i v h =
      mem-lookup m v d ((Perm.mem_iff sorted-perm).0 (elem-mem (sorted_array m) i v h))

  lookup-sorted :
      (id s : ℕ)
      → lookup id m ≡ some s
      → ∥ ((i : ℕ) × (get_elem? (sorted_array m) i ≡ some (to_validator (id, s)))) ∥₁
  lookup-sorted id s h =
      mem-elem (sorted_array m) _ ((Perm.mem_iff sorted-perm).1 (mem-ids id s m h))

  calc_caches_index :
      (i id : ℕ)
      → get_elem? (calc_caches m).ids i ≡ some id
      → (s : ℕ) × (lookup id m ≡ some s)
        × (lookup id (calc_caches m).indexes ≡ some i)
        × (get_elem? (calc_caches m).stakes i ≡ some s)
  calc_caches_index i id h =
      let (v, at, e) = elem-map (sorted_array m) i (λ v. v.id) (rw calc_caches-ids at h) in
      (
        v.stake,
        rw e at (sorted-lookup i v at),
        rw e at (calc_caches-indexes i v at),
        rw calc_caches-stakes (map-elem (sorted_array m) i (λ v. v.stake) at),
      )

  calc_caches_complete :
      (id s : ℕ)
      → lookup id m ≡ some s
      → get_elem?
          (calc_caches m).ids
          (elim (lookup id (calc_caches m).indexes) [ none ↦ 0 | some i ↦ i ])
        ≡ some id
  calc_caches_complete id s h = ∥∥₁_elim (lookup-sorted id s h) Option-set λ (i, e). ground (
    arith,
    calc_caches-indexes i (to_validator (id, s)) e,
    calc_caches-ids,
    map-elem (sorted_array m) i (λ v. v.id) e,
  )

-- In a group built from a map, which has each id once, the id at an index is one to which the
-- builder gave a stake above zero; the group gives that index for it, that stake at the index and
-- for the id, and has it as a validator.
pub build_index :
    (b : ValidatorsBuilder) (i id : ℕ)
    → IsDistinct b
    → get_elem? (build b).cache.ids i ≡ some id
    → (s : ℕ) × (lookup id b ≡ some s)
      × (0 < s)
      × (get_idx (build b) id ≡ i)
      × (get_stake_by_idx (build b) i ≡ some s)
      × (get (build b) id ≡ s)
      × (has_validator (build b) id ≡ true)
unfolding build get_idx get_stake_by_idx get has_validator
build_index b i id d h =
    let (s, held, index, stake) =
      calc_caches_index (set_all b []) (set_all-IsDistinct b [] tt) i id h in
    let (given, some_stake) = built_from s (sym (lookup-set_all b [] id d) ∙ held) in
    (s, given, some_stake, ground arith, ground arith, ground arith, ground arith)
  where
    built_from :
        (s : ℕ)
        → (elim (lookup id b) [ none ↦ none | some t ↦ nonzero t ]) ≡ some s
        → (lookup id b ≡ some s) × (0 < s)
    built_from s e = elim (Option-cases (lookup id b)) [
      | inl q ↦ absurd (ground (arith, rw q at e))
      | inr (t, q) ↦ let e' = rw q at e in (ground arith, ground arith)
    ]

-- Every validator of a built group stands in its arrays, at the index that the group gives it.
pub build_index_complete :
    (b : ValidatorsBuilder) (id : ℕ)
    → has_validator (build b) id ≡ true
    → get_elem? (build b).cache.ids (get_idx (build b) id) ≡ some id
unfolding build get_idx has_validator
build_index_complete b id h = elim (Option-cases (lookup id (set_all b []))) [
  | inl e ↦ ground arith
  | inr (s, e) ↦ calc_caches_complete (set_all b []) (set_all-IsDistinct b [] tt) id s e
]

pub build-stakes-perm :
    (b : ValidatorsBuilder) → Perm (build b).cache.stakes (map (λ (id, s). s) (build b).values)
unfolding build
build-stakes-perm b =
    let m = set_all b [] in
    let d = set_all-IsDistinct b [] tt in
    rw (calc_caches-stakes m d, ← stakes-map m) (Perm.map (λ v. v.stake) (sorted-perm m d))

-- The total of a built group is the sum of its stakes, as a uint64.
pub build-total_stake :
    (b : ValidatorsBuilder)
    → (build b).cache.total_stake ≡ sum (map (λ (id, s). s) (build b).values) % word64
unfolding build
build-total_stake b = calc_caches-total (set_all b []) (set_all-IsDistinct b [] tt)
