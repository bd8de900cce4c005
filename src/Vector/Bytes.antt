-- ===== src/Vector/Bytes.antt =====
-- encoding/binary.LittleEndian on byte slices: a number at an offset of a list of bytes.
use native.Mathlib.Nat.{pow-suc}
use lachesis_ex.Prelude.{
  ℕ, zero, suc, ◌+◌, ◌*◌, ◌/◌, ◌%◌, ◌^◌, ◌≤◌, ◌<◌, ◌≡◌, refl, ap, ap₂, ◌∙◌, ◌⊎◌, inl, List, [], ◌∷◌,
  ◌++◌, arith, length, get_or, set, replicate, length-set, get_or-set, get_or-ge,
}

-- The `n` bytes of `v`, the lowest first.
unfoldable pub le_bytes : ℕ → ℕ → List ℕ
le_bytes zero v = []
le_bytes (suc n) v = (v % 256) ∷ le_bytes n (v / 256)

unfoldable pub from_le : List ℕ → ℕ
from_le [] = 0
from_le (b ∷ bs) = b + 256 * from_le bs

-- `b[off : off + n]`
unfoldable pub read : List ℕ → ℕ → ℕ → List ℕ
read b off zero = []
read b off (suc n) = get_or b off 0 ∷ read b (off + 1) n

-- Writes the bytes from `off` on.
unfoldable pub write : List ℕ → ℕ → List ℕ → List ℕ
write b off [] = b
write b off (v ∷ vs) = write (set b off v) (off + 1) vs

pub length-le_bytes : (n v : ℕ) → length (le_bytes n v) ≡ n
unfolding le_bytes
length-le_bytes zero v = refl
length-le_bytes (suc n) v = ap suc (length-le_bytes n (v / 256))

pub from_le-le_bytes : (n v : ℕ) → v < 256 ^ n → from_le (le_bytes n v) ≡ v
unfolding from_le le_bytes
from_le-le_bytes zero v h = omega arith
from_le-le_bytes (suc n) v h =
    let p = pow-suc 256 n in omega (arith, from_le-le_bytes n (v / 256) (omega arith))

pub length-write : (b : List ℕ) (off : ℕ) (vs : List ℕ) → length (write b off vs) ≡ length b
unfolding write
length-write b off [] = refl
length-write b off (v ∷ vs) = length-write (set b off v) (off + 1) vs ∙ length-set b off v

get_or-write :
    (b : List ℕ) (off : ℕ) (vs : List ℕ) (j : ℕ)
    → off + length vs ≤ length b
    → (j < off) ⊎ (off + length vs ≤ j)
    → get_or (write b off vs) j 0 ≡ get_or b j 0
unfolding write
get_or-write b off [] j h k = refl
get_or-write b off (v ∷ vs) j h k =
    get_or-write (set b off v) (off + 1) vs j (omega (arith, length-set b off v)) (ground arith)
    ∙ ground (arith, get_or-set b off j v 0)

-- What was written is read back.
pub read-write_self :
    (b : List ℕ) (off : ℕ) (vs : List ℕ)
    → off + length vs ≤ length b
    → read (write b off vs) off (length vs) ≡ vs
unfolding read write
read-write_self b off [] h = refl
read-write_self b off (v ∷ vs) h =
    ap₂ ◌∷◌
      (get_or-write (set b off v) (off + 1) vs off (omega (arith, length-set b off v))
          (inl (omega arith))
        ∙ ground (arith, get_or-set b off off v 0))
      (read-write_self (set b off v) (off + 1) vs (omega (arith, length-set b off v)))

-- A write leaves the bytes on either side as they were.
pub read-write_apart :
    (b : List ℕ) (off : ℕ) (vs : List ℕ) (at n : ℕ)
    → off + length vs ≤ length b
    → (at + n ≤ off) ⊎ (off + length vs ≤ at)
    → read (write b off vs) at n ≡ read b at n
unfolding read write
read-write_apart b off vs at zero h k = refl
read-write_apart b off vs at (suc n) h k =
    ap₂ ◌∷◌ (get_or-write b off vs at h (ground arith))
      (read-write_apart b off vs (at + 1) n h (ground arith))

get_or-zeros : (b : List ℕ) (n j : ℕ) → get_or (b ++ replicate n 0) j 0 ≡ get_or b j 0
get_or-zeros [] zero j = refl
get_or-zeros [] (suc n) zero = refl
get_or-zeros [] (suc n) (suc j) = get_or-zeros [] n j
get_or-zeros (x ∷ b) n zero = refl
get_or-zeros (x ∷ b) n (suc j) = get_or-zeros b n j

-- Zeros behind the end are what a read beyond the end gives.
pub read-zeros : (b : List ℕ) (n at k : ℕ) → read (b ++ replicate n 0) at k ≡ read b at k
unfolding read
read-zeros b n at zero = refl
read-zeros b n at (suc k) = ap₂ ◌∷◌ (get_or-zeros b n at) (read-zeros b n (at + 1) k)

-- A read beyond the end gives zero.
pub read_beyond : (b : List ℕ) (at k : ℕ) → length b ≤ at → from_le (read b at k) ≡ 0
unfolding read from_le
read_beyond b at zero h = refl
read_beyond b at (suc k) h =
    omega (arith, get_or-ge b at 0 h, read_beyond b (at + 1) k (omega arith))
