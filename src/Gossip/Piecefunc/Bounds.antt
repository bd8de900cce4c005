-- ===== src/Gossip/Piecefunc/Bounds.antt =====
-- The values of a piecewise linear function stay between those of its dots.
use native.Mathlib.Nat.{div-le_of_le-mul, mul-add, mul-le-mul_right}
use lachesis_ex.Prelude.{
  ℕ, ◌+◌, ◌-◌, ◌*◌, ◌/◌, ◌%◌, ◌≤◌, ◌<◌, ◌≡◌, sym, ap, ◌∙◌, false, List, [], ◌∷◌, some, ltb, ◌==◌,
  arith, word64, Bool-cases, inl, inr,
}
use lachesis_ex.Gossip.Piecefunc.{percent_unit, Dot, sub64, mul, div, interpolate, get}

-- The dots go from left to right, between two heights, and products with the unit fit 64 bits.
abbrev pub IsCurve : ℕ → ℕ → List Dot → Type 0
IsCurve low high [] = Unit
IsCurve low high (a ∷ []) = (low ≤ a.y) × (a.y ≤ high) × (a.x * percent_unit < word64)
IsCurve low high (a ∷ b ∷ rest) =
    (low ≤ a.y)
    × (a.y ≤ high)
    × (a.x * percent_unit < word64)
    × (a.x < b.x)
    × IsCurve low high (b ∷ rest)

abbrev pub last_x : List Dot → ℕ
last_x [] = 0
last_x (a ∷ []) = a.x
last_x (a ∷ b ∷ rest) = last_x (b ∷ rest)

sum-bounds :
    (low high p q : ℕ)
    → low * percent_unit ≤ p + q
    → p + q ≤ high * percent_unit
    → high * percent_unit < word64
    → (low ≤ (p % word64 / percent_unit + q % word64 / percent_unit) + 1)
      × (p % word64 / percent_unit + q % word64 / percent_unit ≤ high)
sum-bounds low high p q a b c = (omega arith, omega arith)

-- A weighted sum of two heights, in millionths.
weighted-bounds :
    (low high y z r : ℕ)
    → low ≤ y
    → y ≤ high
    → low ≤ z
    → z ≤ high
    → r ≤ percent_unit
    → high * percent_unit < word64
    → (low ≤ (mul y (percent_unit - r) + mul z r) + 1) × (mul y (percent_unit - r) + mul z r ≤ high)
unfolding mul
weighted-bounds low high y z r a b c d e f =
    let s = percent_unit - r in
    let ly : low * s ≤ y * s = mul-le-mul_right s a in
    let lz : low * r ≤ z * r = mul-le-mul_right r c in
    let hy : y * s ≤ high * s = mul-le-mul_right s b in
    let hz : z * r ≤ high * r = mul-le-mul_right r d in
    let low_sum : low * s + low * r ≡ low * percent_unit =
      sym (mul-add low s r) ∙ ap (λ n. low * n) (omega arith) in
    let high_sum : high * s + high * r ≡ high * percent_unit =
      sym (mul-add high s r) ∙ ap (λ n. high * n) (omega arith) in
    sum-bounds low high (y * s) (z * r) (omega (arith, ly, lz, low_sum))
      (omega (arith, hy, hz, high_sum)) f

-- Within a piece the ratio is no more than one.
interpolate-bounds :
    (low high x : ℕ) (a b : Dot)
    → low ≤ a.y
    → a.y ≤ high
    → low ≤ b.y
    → b.y ≤ high
    → a.x < b.x
    → b.x * percent_unit < word64
    → a.x ≤ x
    → x ≤ b.x
    → high * percent_unit < word64
    → (r : ℕ) × (interpolate x a b ≡ some r) × (low ≤ r + 1) × (r ≤ high)
unfolding interpolate div
interpolate-bounds low high x a b la ha lb hb up small from to fit =
    let over : sub64 x a.x ≡ x - a.x = omega arith in
    let width : sub64 b.x a.x ≡ b.x - a.x = omega arith in
    let exact : (x - a.x) * percent_unit % word64 ≡ (x - a.x) * percent_unit = omega arith in
    let part : (x - a.x) * percent_unit ≤ (b.x - a.x) * percent_unit = omega arith in
    let ratio = (x - a.x) * percent_unit / (b.x - a.x) in
    let below : ratio ≤ percent_unit = div-le_of_le-mul (b.x - a.x) part in
    let rest : sub64 percent_unit ratio ≡ percent_unit - ratio = omega (arith, below) in
    let (l, h) = weighted-bounds low high a.y b.y ratio la ha lb hb below fit in
    let wide : (b.x - a.x == 0) ≡ false = ground arith in
    (
      mul a.y (percent_unit - ratio) + mul b.y ratio,
      rw (over, width, wide, exact, rest) (ap some (omega (arith, h, fit))),
      l,
      h,
    )

-- Between its first and its last dot, a piecewise linear function has a value, which is not above
-- the highest dot and at most one below the lowest. The dots go from left to right, there are two
-- of them or more, and the products with the unit fit 64 bits.
pub get-bounds :
    (low high x : ℕ) (a b : Dot) (rest : List Dot)
    → IsCurve low high (a ∷ b ∷ rest)
    → a.x ≤ x
    → x ≤ last_x (a ∷ b ∷ rest)
    → high * percent_unit < word64
    → (r : ℕ) × (get x (a ∷ b ∷ rest) ≡ some r) × (low ≤ r + 1) × (r ≤ high)
unfolding get
get-bounds low high x a b [] (la, ha, sa, up, (lb, hb, sb)) from to fit =
    interpolate-bounds low high x a b la ha lb hb up sb from to fit
get-bounds low high x a b (c ∷ rest) (la, ha, sa, up, more) from to fit =
    elim (Bool-cases (ltb x b.x)) [
      | inl e ↦ rw e (
          interpolate-bounds low high x a b la ha (first more).0 (first more).1 up (first more).2
            from (ground arith) fit)
      | inr e ↦ rw e (get-bounds low high x b c rest more (ground arith) to fit)
    ]
  where
    first :
        IsCurve low high (b ∷ c ∷ rest) → (low ≤ b.y) × (b.y ≤ high) × (b.x * percent_unit < word64)
    first (l, h, s, _, _) = (l, h, s)
