-- ===== src/Check/Basic/Gas.antt =====
-- The intrinsic gas, without the wrap-around of its 64 bits.
use lachesis_ex.Prelude.{
  ℕ, zero, suc, ◌+◌, ◌-◌, ◌*◌, ◌/◌, ◌%◌, ◌≤◌, ◌<◌, ◌≡◌, Bool, true, false, List, [], ◌∷◌, none,
  some, length, ltb, if◌then◌else◌, word64, arith, Bool-cases, inl, inr,
}
use native.Mathlib.Nat.{div-lt_iff_lt-mul}
use lachesis_ex.Check.Basic.{GasTable, count_non_zero, gas_of_bytes, intrinsic}

-- The price of the bytes, each priced by itself, as an exact number.
pub price_of_bytes : GasTable → List ℕ → ℕ
price_of_bytes t [] = 0
price_of_bytes t (zero ∷ bs) = t.zero_byte + price_of_bytes t bs
price_of_bytes t (suc b ∷ bs) = t.non_zero_byte + price_of_bytes t bs

-- The price of the transaction and of its bytes, as an exact number.
pub exact_gas : GasTable → List ℕ → Bool → ℕ
unfolding price_of_bytes
exact_gas t payload true = t.contract_creation + price_of_bytes t payload
exact_gas t payload false = t.tx_gas + price_of_bytes t payload

-- The prices of bytes are positive, and those of transactions fit in 64 bits.
pub record IsPriced (t : GasTable) : Type 0 where
  pub bytes : (0 < t.non_zero_byte) × (0 < t.zero_byte)
  pub bases : (t.tx_gas < word64) × (t.contract_creation < word64)

-- The test that the sum stays below 2 ^ 64, done by a division.
fits_iff :
    (gas n price : ℕ)
    → 0 < price
    → gas < word64
    → ltb ((word64 - 1 - gas) / price) n ≡ ltb (word64 - 1) (gas + n * price)
fits_iff gas n price p g =
    let (to, from) = div-lt_iff_lt-mul {k = price} {x = word64 - 1 - gas} {y = n} p in
    ground (arith, to, from)

count_non_zero-le : (bs : List ℕ) → count_non_zero bs ≤ length bs
unfolding count_non_zero
count_non_zero-le [] = omega arith
count_non_zero-le (b ∷ bs) = ground (arith, count_non_zero-le bs)

-- The counts of both kinds of bytes, times the prices, are the prices one by one.
price_of_bytes-counts :
    (t : GasTable) (bs : List ℕ)
    → count_non_zero bs * t.non_zero_byte + (length bs - count_non_zero bs) * t.zero_byte
      ≡ price_of_bytes t bs
unfolding count_non_zero price_of_bytes
price_of_bytes-counts t [] = omega arith
price_of_bytes-counts t (zero ∷ bs) =
    let up : suc (length bs) - count_non_zero bs ≡ suc (length bs - count_non_zero bs) =
      omega (arith, count_non_zero-le bs) in
    rw up (omega (arith, price_of_bytes-counts t bs))
price_of_bytes-counts t (suc b ∷ bs) =
    let one : count_non_zero (suc b ∷ bs) ≡ 1 + count_non_zero bs = ground arith in
    let rest : length (suc b ∷ bs) - (1 + count_non_zero bs) ≡ length bs - count_non_zero bs =
      omega arith in
    rw (one, rest) (omega (arith, price_of_bytes-counts t bs))

exact_gas-counts :
    (t : GasTable) (bs : List ℕ) (creation : Bool)
    → exact_gas t bs creation
      ≡ (if creation then t.contract_creation else t.tx_gas)
        + count_non_zero bs * t.non_zero_byte
        + (length bs - count_non_zero bs) * t.zero_byte
unfolding exact_gas
exact_gas-counts t bs true = omega (arith, price_of_bytes-counts t bs)
exact_gas-counts t bs false = omega (arith, price_of_bytes-counts t bs)

gas_of_bytes_lem :
    (t : GasTable) (gas nz z : ℕ)
    → (0 < t.non_zero_byte) × (0 < t.zero_byte)
    → gas < word64
    → gas_of_bytes t gas nz z ≡ (
        if ltb (gas + nz * t.non_zero_byte + z * t.zero_byte) word64
        then some (gas + nz * t.non_zero_byte + z * t.zero_byte)
        else none)
unfolding gas_of_bytes
gas_of_bytes_lem t gas nz z (p, q) g =
    elim (Bool-cases (ltb (word64 - 1) (gas + nz * t.non_zero_byte))) [
      | inl over ↦ rw (fits_iff gas nz t.non_zero_byte p g, over) (ground arith)
      | inr fits ↦
          let exact : (gas + nz * t.non_zero_byte) % word64 ≡ gas + nz * t.non_zero_byte =
            ground arith in
          rw
            (
              fits_iff gas nz t.non_zero_byte p g,
              fits,
              exact,
              fits_iff (gas + nz * t.non_zero_byte) z t.zero_byte q (ground arith),
            )
            (ground arith)
    ]

base-lt :
    (t : GasTable) (creation : Bool)
    → IsPriced t
    → (if creation then t.contract_creation else t.tx_gas) < word64
base-lt t true p = p.bases.1
base-lt t false p = p.bases.0

-- The intrinsic gas is the exact price of the transaction and of its bytes, each priced as zero or
-- not, and an error just
-- where that price does not fit in 64 bits, for positive prices of bytes and prices of
-- transactions below 2 ^ 64.
pub intrinsic-exact_gas :
    (t : GasTable) (payload : List ℕ) (creation : Bool)
    → IsPriced t
    → intrinsic t payload creation ≡ (
        if ltb (exact_gas t payload creation) word64
        then some (exact_gas t payload creation)
        else none)
unfolding intrinsic count_non_zero
intrinsic-exact_gas t [] creation p =
    ground (arith, base-lt t creation p, exact_gas-counts t [] creation)
intrinsic-exact_gas t (b ∷ bs) creation p = rw (exact_gas-counts t (b ∷ bs) creation) (
    ground (
      arith,
      base-lt t creation p,
      gas_of_bytes_lem t (if creation then t.contract_creation else t.tx_gas)
          (count_non_zero (b ∷ bs)) (length (b ∷ bs) - count_non_zero (b ∷ bs)) p.bytes
          (base-lt t creation p),
    ))
