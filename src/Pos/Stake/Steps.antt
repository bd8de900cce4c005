-- ===== src/Pos/Stake/Steps.antt =====
-- What one counted validator adds to a counter.
use lachesis_ex.Prelude.{
  ℕ, zero, suc, ◌+◌, ◌<◌, ◌≡◌, ◌⊎◌, ◌∙◌, inl, inr, Bool, true, false, not, List, [], ◌∷◌, some,
  length, arith, get_elem?, get_or, set, if◌then◌else◌, Option-cases, get_elem?-set, get_elem?-lt,
  get_elem?-some,
}
use lachesis_ex.Pos.{Validators, get_idx}
use lachesis_ex.Pos.Stake.{StakeCounter, count, count_by_idx}
use lachesis_ex.Pos.Stake.Counting.{
  weight, IsSound, IsCounting, count_by_idx-Counted, weight-set, set_self,
}

abbrev pub Marked : StakeCounter → ℕ → Type 0
Marked s i = get_elem? s.already i ≡ some true

-- What a successful `Count` did.
pub record Step (s : StakeCounter) (i : ℕ) (t : StakeCounter) (new : Bool) : Type 0 where
  pub counting : IsCounting t
  pub group : t.validators ≡ s.validators
  pub fresh : get_elem? s.already i ≡ some (not new)
  pub marks : t.already ≡ set s.already i true
  pub added : t.sum ≡ s.sum + (if new then get_or s.validators.cache.stakes i 0 else 0)

get_or-of_elem : (xs : List ℕ) (i w : ℕ) → get_elem? xs i ≡ some w → get_or xs i 0 ≡ w
get_or-of_elem [] i w h = cc
get_or-of_elem (x ∷ xs) zero w h = ground arith
get_or-of_elem (x ∷ xs) (suc i) w h = get_or-of_elem xs i w h

count-inside :
    (s : StakeCounter) (i : ℕ) (r : StakeCounter × Bool)
    → count_by_idx s i ≡ some r
    → i < length s.already
unfolding count_by_idx
count-inside s i r h = elim (Option-cases (get_elem? s.already i)) [
  | inl e ↦ ground arith
  | inr (b, e) ↦ get_elem?-lt s.already i b e
]

count-added :
    (s t : StakeCounter) (i w : ℕ) (new : Bool)
    → IsCounting s
    → IsCounting t
    → t.validators ≡ s.validators
    → get_elem? s.already i ≡ some (not new)
    → t.already ≡ set s.already i true
    → get_elem? s.validators.cache.stakes i ≡ some w
    → t.sum ≡ s.sum + (if new then get_or s.validators.cache.stakes i 0 else 0)
count-added s t i w true c d same fresh marks stake =
    let after : t.sum ≡ weight (set s.already i true) s.validators.cache.stakes =
      rw (← same, ← marks) d.counted in
    omega (
      arith,
      after,
      c.counted,
      weight-set s.already s.validators.cache.stakes i w fresh stake,
      get_or-of_elem s.validators.cache.stakes i w stake,
    )
count-added s t i w false c d same fresh marks stake =
    let unchanged : t.already ≡ s.already = marks ∙ set_self s.already i true fresh in
    let after : t.sum ≡ weight s.already s.validators.cache.stakes =
      rw (← same, ← unchanged) d.counted in
    omega (arith, after, c.counted)

-- An outcome of `CountByIdx`, with what it added.
count_by_idx-Step :
    (s : StakeCounter) (i : ℕ) (t : StakeCounter) (new : Bool)
    → IsSound s.validators
    → IsCounting s
    → count_by_idx s i ≡ some (t, new)
    → Step s i t new
count_by_idx-Step s i t new v c h =
    let inside : i < length s.validators.cache.stakes =
      omega (arith, c.marks, count-inside s i (t, new) h) in
    let ((u, fresh), done, (c', same, before, marks)) = count_by_idx-Counted s i v c inside in
    let eu : u ≡ t = cc in
    let ef : fresh ≡ new = cc in
    let (w, stake) = get_elem?-some s.validators.cache.stakes i inside in
    record {
      counting = rw eu at c';
      group = rw eu at same;
      fresh = rw ef at before;
      marks = rw eu at marks;
      added =
          count-added s t i w new c (rw eu at c') (rw eu at same) (rw ef at before) (rw eu at marks)
            stake;
    }

pub count-Step :
    (vv : Validators) (s : StakeCounter) (id : ℕ) (t : StakeCounter) (new : Bool)
    → IsSound vv
    → s.validators ≡ vv
    → IsCounting s
    → count s id ≡ some (t, new)
    → Step s (get_idx vv id) t new
unfolding count
count-Step vv s id t new v e c h = count_by_idx-Step s (get_idx vv id) t new (rw e v) c (rw (← e) h)

-- The marks after a step are the old ones and the new one.
pub Marked-inv :
    {s : StakeCounter} {i : ℕ} {t : StakeCounter} {new : Bool} (j : ℕ)
    → Step s i t new
    → Marked t j
    → (i ≡ j) ⊎ Marked s j
Marked-inv {s} {i} {t} {new} j st m = ground (
  arith,
  st.marks,
  get_elem?-set s.already i j true (get_elem?-lt s.already i (not new) st.fresh),
)

pub Marked-mono :
    {s : StakeCounter} {i : ℕ} {t : StakeCounter} {new : Bool} (j : ℕ)
    → Step s i t new
    → Marked s j
    → Marked t j
Marked-mono {s} {i} {t} {new} j st m = ground (
  arith,
  st.marks,
  get_elem?-set s.already i j true (get_elem?-lt s.already i (not new) st.fresh),
)

pub Marked-self :
    {s : StakeCounter} {i : ℕ} {t : StakeCounter} {new : Bool} → Step s i t new → Marked t i
Marked-self {s} {i} {t} {new} st = ground (
  arith,
  st.marks,
  get_elem?-set s.already i i true (get_elem?-lt s.already i (not new) st.fresh),
)
