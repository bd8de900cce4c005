-- ===== src/Gossip/Piecefunc.antt =====
-- gossip/piecefunc/piecefunc.go: a piecewise linear function of 64-bit numbers.
pub mod Bounds
use lachesis_ex.Prelude.{
  ℕ, ◌+◌, ◌-◌, ◌*◌, ◌/◌, ◌%◌, Bool, true, false, List, [], ◌∷◌, Option, none, some, ◌>>=◌, ltb,
  ◌==◌, if◌then◌else◌, word64,
}

-- `PercentUnit`
abbrev pub percent_unit : ℕ
percent_unit = 1000000

pub record Dot : Type 0 where
  pub x : ℕ
  pub y : ℕ

-- The difference of two 64-bit numbers.
abbrev pub sub64 : ℕ → ℕ → ℕ
sub64 a b = (a + (word64 - b)) % word64

-- `Mul`
unfoldable pub mul : ℕ → ℕ → ℕ
mul a b = a * b % word64 / percent_unit

-- `Div`, where a divisor of 0 is a panic.
unfoldable pub div : ℕ → ℕ → Option ℕ
div a b = if b == 0 then none else some (a * percent_unit % word64 / b)

-- The interpolation between two dots.
unfoldable pub interpolate : ℕ → Dot → Dot → Option ℕ
unfolding mul div
interpolate x a b = div (sub64 x a.x) (sub64 b.x a.x) >>= λ ratio.
    some ((mul a.y (sub64 percent_unit ratio) + mul b.y ratio) % word64)

-- `Get`: the piece ends at the first inner dot above `x`, or at the last dot. Fewer than two dots
-- are an index out of range.
unfoldable pub get : ℕ → List Dot → Option ℕ
unfolding interpolate
get x [] = none
get x (a ∷ []) = none
get x (a ∷ b ∷ []) = interpolate x a b
get x (a ∷ b ∷ c ∷ rest) =
    let later = get x (b ∷ c ∷ rest) in if ltb x b.x then interpolate x a b else later
