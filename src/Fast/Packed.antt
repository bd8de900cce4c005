-- ===== src/Fast/Packed.antt =====
-- The arrays of sizes of an encoded event.
use lachesis_ex.Prelude.{ℕ, ◌+◌, ◌*◌, ◌^◌, ◌<◌, ◌≡◌, false, [], ◌∷◌, some, leb, arith}
use lachesis_ex.Fast.{push, push_values, pack, pop, pop_values, calc_size}

-- Five numbers of four bits.
pub pack-4 :
    (a b c d e : ℕ)
    → a < 16
    → b < 16
    → c < 16
    → d < 16
    → e < 16
    → (x y z : ℕ) × (pack 4 (a ∷ b ∷ c ∷ d ∷ e ∷ []) 5 ≡ some (x ∷ y ∷ z ∷ []))
      × (pop_values 4 (x ∷ y ∷ z ∷ []) 0 5 ≡ some (a ∷ b ∷ c ∷ d ∷ e ∷ []))
unfolding pack push_values push pop_values pop calc_size
pack-4 a b c d e p q r s t =
    let small : (v : ℕ) → v < 16 → leb (2 ^ 4) v ≡ false = λ v h. ground arith in
    (
      a + b * 16,
      c + d * 16,
      e,
      rw (small a p, small b q, small c r, small d s, small e t) ground arith,
      ground arith,
    )

-- Ten numbers of two bits.
pub pack-2 :
    (a b c d e f g h i j : ℕ)
    → a < 4
    → b < 4
    → c < 4
    → d < 4
    → e < 4
    → f < 4
    → g < 4
    → h < 4
    → i < 4
    → j < 4
    → (x y z : ℕ) × (pack 2 (a ∷ b ∷ c ∷ d ∷ e ∷ f ∷ g ∷ h ∷ i ∷ j ∷ []) 10 ≡ some (x ∷ y ∷ z ∷ []))
      × (pop_values 2 (x ∷ y ∷ z ∷ []) 0 7 ≡ some (a ∷ b ∷ c ∷ d ∷ e ∷ f ∷ g ∷ []))
      × (pop_values 2 (x ∷ y ∷ z ∷ []) 7 3 ≡ some (h ∷ i ∷ j ∷ []))
unfolding pack push_values push pop_values pop calc_size
pack-2 a b c d e f g h i j p q r s t u v w k l =
    let small : (n : ℕ) → n < 4 → leb (2 ^ 2) n ≡ false = λ n m. ground arith in
    (
      a + b * 4 + c * 16 + d * 64,
      e + f * 4 + g * 16 + h * 64,
      i + j * 4,
      rw
          (
            small a p,
            small b q,
            small c r,
            small d s,
            small e t,
            small f u,
            small g v,
            small h w,
            small i k,
            small j l,
          )
          (ground arith),
      ground arith,
      ground arith,
    )
