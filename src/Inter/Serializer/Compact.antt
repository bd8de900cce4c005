-- ===== src/Inter/Serializer/Compact.antt =====
-- Numbers, hashes and lists of them are read as they were written.
use lachesis_ex.Prelude.{
  ℕ, zero, suc, ◌+◌, ◌-◌, ◌*◌, ◌/◌, ◌%◌, ◌^◌, ◌≤◌, ◌<◌, ◌≡◌, refl, sym, ap, ap₂, ◌∙◌, inl, inr,
  false, ◌&&◌, List, [], ◌∷◌, ◌++◌, some, length, ltb, ◌==◌, arith, word64, Bool-cases, ==_iff,
  length-append,
}
use native.Mathlib.Nat.{mul_assoc, pow-suc}
use lachesis_ex.Fast.{read_bytes}
use lachesis_ex.Inter.Serializer.{
  decoded, write_uint_compact, value_of, last_of, read_uint_compact, hash_bytes, of_hash_bytes,
  sizes, write_fields, write_parents, read_fields, read_parents, read_hash,
}

pub append_assoc {ℓ} : {A : Type ℓ} (xs ys zs : List A) → (xs ++ ys) ++ zs ≡ xs ++ (ys ++ zs)
append_assoc [] ys zs = refl
append_assoc (x ∷ xs) ys zs = ap (λ l. x ∷ l) (append_assoc xs ys zs)

pub read_bytes-append : (bs rest : List ℕ) → read_bytes (length bs) (bs ++ rest) ≡ some (bs, rest)
unfolding read_bytes
read_bytes-append [] rest = refl
read_bytes-append (b ∷ bs) rest = rw (read_bytes-append bs rest) refl

value_of-write : (n v : ℕ) → v < 256 ^ n → value_of (write_uint_compact n v) ≡ v
unfolding value_of write_uint_compact
value_of-write zero v h = omega arith
value_of-write (suc n) v h = elim (Bool-cases (v / 256 == 0)) [
  | inl e ↦ rw e (ground arith)
  | inr e ↦ rw e (omega (arith, value_of-write n (v / 256) (omega arith)))
]

-- The highest byte written is 0 only for 0.
last_of-write : (n v : ℕ) → v < 256 ^ suc n → last_of (write_uint_compact (suc n) v) ≡ 0 → v ≡ 0
unfolding last_of write_uint_compact
last_of-write zero v h l = elim (Bool-cases (v / 256 == 0)) [
  | inl e ↦ ground (arith, rw e at l)
  | inr e ↦ absurd (ground arith)
]
last_of-write (suc n) v h l = elim (Bool-cases (v / 256 == 0)) [
  | inl e ↦ ground (arith, rw e at l)
  | inr e ↦ absurd (ground (arith, last_of-write n (v / 256) (omega arith) (rw e at l)))
]

write_zero :
    (m : ℕ)
    → (ltb 1 (length (write_uint_compact (suc m) 0)) && last_of (write_uint_compact (suc m) 0) == 0)
      ≡ false
unfolding write_uint_compact
write_zero m = refl

-- No number is written with a highest byte 0 and one more.
canonical-write :
    (n v : ℕ)
    → v < 256 ^ suc n
    → (ltb 1 (length (write_uint_compact (suc n) v)) && last_of (write_uint_compact (suc n) v) == 0)
      ≡ false
canonical-write n v h = elim (Bool-cases (last_of (write_uint_compact (suc n) v) == 0)) [
  | inl e ↦
      rw (last_of-write n v h ((==_iff (last_of (write_uint_compact (suc n) v)) 0).0 e))
        (write_zero n)
  | inr e ↦ ground arith
]

read_uint_compact-write :
    (n v : ℕ) (rest : List ℕ)
    → v < 256 ^ suc n
    → v < word64
    → read_uint_compact
        (length (write_uint_compact (suc n) v))
        (write_uint_compact (suc n) v ++ rest)
      ≡ decoded (v, rest)
unfolding read_uint_compact
read_uint_compact-write n v rest h w =
    rw
      (
        read_bytes-append (write_uint_compact (suc n) v) rest,
        canonical-write n v h,
        value_of-write (suc n) v h,
      )
      (ap (λ x. decoded (x, rest)) (omega (arith, w)))

-- The bounds of the fields of one width.
abbrev pub AllBelow : ℕ → List ℕ → Type 0
AllBelow bound [] = Unit
AllBelow bound (v ∷ vs) = (v < bound) × AllBelow bound vs

read_fields-cons :
    (k v : ℕ) (ns vs buf rest end : List ℕ)
    → read_uint_compact (suc k) buf ≡ decoded (v, rest)
    → read_fields ns rest ≡ decoded (vs, end)
    → read_fields (k ∷ ns) buf ≡ decoded (v ∷ vs, end)
unfolding read_fields
read_fields-cons k v ns vs buf rest end h t = rw (h, t) refl

suc-length :
    (n v : ℕ)
    → suc (length (write_uint_compact (suc n) v) - 1) ≡ length (write_uint_compact (suc n) v)
unfolding write_uint_compact
suc-length n v = omega arith

pub read_fields-write :
    (n : ℕ) (vs rest : List ℕ)
    → 256 ^ suc n ≤ word64
    → AllBelow (256 ^ suc n) vs
    → read_fields (sizes (suc n) vs) (write_fields (suc n) vs ++ rest) ≡ decoded (vs, rest)
unfolding read_fields write_fields
read_fields-write n [] rest w h = refl
read_fields-write n (v ∷ vs) rest w (h, hs) =
    read_fields-cons (length (write_uint_compact (suc n) v) - 1) v (sizes (suc n) vs) vs
      ((write_uint_compact (suc n) v ++ write_fields (suc n) vs) ++ rest)
      (write_fields (suc n) vs ++ rest) rest
      (ap₂ read_uint_compact (suc-length n v)
          (append_assoc (write_uint_compact (suc n) v) (write_fields (suc n) vs) rest)
        ∙ read_uint_compact-write n v (write_fields (suc n) vs ++ rest) h (omega (arith, h, w)))
      (read_fields-write n vs rest w hs)

of_hash_bytes-append :
    (h : ℕ) (bs cs : List ℕ) → of_hash_bytes h (bs ++ cs) ≡ of_hash_bytes (of_hash_bytes h bs) cs
unfolding of_hash_bytes
of_hash_bytes-append h [] cs = refl
of_hash_bytes-append h (b ∷ bs) cs = of_hash_bytes-append (h * 256 + b) bs cs

-- A hash of n bytes, under a prefix.
pub of_hash_bytes-hash_bytes :
    (n p h : ℕ) → h < 256 ^ n → of_hash_bytes p (hash_bytes n h) ≡ p * 256 ^ n + h
unfolding of_hash_bytes hash_bytes
of_hash_bytes-hash_bytes zero p h l = omega arith
of_hash_bytes-hash_bytes (suc n) p h l =
    of_hash_bytes-append p (hash_bytes n (h / 256)) (h % 256 ∷ [])
    ∙ ap (λ x. x * 256 + h % 256) (of_hash_bytes-hash_bytes n p (h / 256) (omega arith))
    ∙ omega (arith, sym (mul_assoc p (256 ^ n) 256), ap (λ x. p * x) (pow-suc 256 n))

pub length-hash_bytes : (n h : ℕ) → length (hash_bytes n h) ≡ n
unfolding hash_bytes
length-hash_bytes zero h = refl
length-hash_bytes (suc n) h =
    omega
      (arith, length-append (hash_bytes n (h / 256)) (h % 256 ∷ []), length-hash_bytes n (h / 256))

-- The parents, which are numbers of 32 bytes with the epoch in the four highest.
abbrev pub OfEpoch : ℕ → List ℕ → Type 0
OfEpoch epoch [] = Unit
OfEpoch epoch (p ∷ ps) = (p / 2 ^ 224 ≡ epoch) × OfEpoch epoch ps

read_parents-cons :
    (n epoch : ℕ) (bs ps buf rest end : List ℕ)
    → read_bytes 28 buf ≡ some (bs, rest)
    → read_parents n epoch rest ≡ decoded (ps, end)
    → read_parents (suc n) epoch buf ≡ decoded (of_hash_bytes epoch bs ∷ ps, end)
unfolding read_parents
read_parents-cons n epoch bs ps buf rest end h t = rw (h, t) refl

-- A hash that is not the default.
pub read_hash-write :
    (default kept h : ℕ) (rest : List ℕ)
    → h < 256 ^ 32
    → (h == default) ≡ false
    → read_hash false default kept (hash_bytes 32 h ++ rest) ≡ decoded (h, rest)
unfolding read_hash
read_hash-write default kept h rest l d =
    let next : read_bytes 32 (hash_bytes 32 h ++ rest) ≡ some (hash_bytes 32 h, rest) =
      ap (λ n. read_bytes n (hash_bytes 32 h ++ rest)) (sym (length-hash_bytes 32 h))
      ∙ read_bytes-append (hash_bytes 32 h) rest in
    go (hash_bytes 32 h ++ rest) next (of_hash_bytes-hash_bytes 32 0 h l ∙ omega arith)
  where
    go :
        (buf : List ℕ)
        → read_bytes 32 buf ≡ some (hash_bytes 32 h, rest)
        → of_hash_bytes 0 (hash_bytes 32 h) ≡ h
        → read_hash false default kept buf ≡ decoded (h, rest)
    go buf next back = rw (next, back, d) refl

pub read_parents-write :
    (epoch : ℕ) (ps rest : List ℕ)
    → OfEpoch epoch ps
    → read_parents (length ps) epoch (write_parents ps ++ rest) ≡ decoded (ps, rest)
unfolding read_parents write_parents
read_parents-write epoch [] rest h = refl
read_parents-write epoch (p ∷ ps) rest (h, hs) =
    let bs = hash_bytes 28 (p % 2 ^ 224) in
    let next : read_bytes 28 ((bs ++ write_parents ps) ++ rest)
        ≡ some (bs, write_parents ps ++ rest) =
      ap₂ read_bytes (sym (length-hash_bytes 28 (p % 2 ^ 224)))
        (append_assoc bs (write_parents ps) rest)
      ∙ read_bytes-append bs (write_parents ps ++ rest) in
    let back : of_hash_bytes epoch bs ≡ p =
      of_hash_bytes-hash_bytes 28 epoch (p % 2 ^ 224) (omega arith) ∙ omega (arith, h) in
    read_parents-cons (length ps) epoch bs ps ((bs ++ write_parents ps) ++ rest)
      (write_parents ps ++ rest) rest next (read_parents-write epoch ps rest hs)
    ∙ ap (λ x. decoded (x ∷ ps, rest)) back
