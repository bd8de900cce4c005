-- ===== src/Prelude/Assoc.antt =====
-- Go maps with numeric keys, as association lists.
use lachesis_ex.Prelude.Tests.{◌==◌, if◌then◌else◌, Bool-cases}
use Prim.Native.Nat.{ℕ}
use mathlib.Core.Path.{◌≡◌, refl}
use mathlib.Core.Logic.{inl, inr}
use mathlib.Core.Option.{Option, none, some}
use mathlib.Core.List.{List, [], ◌∷◌, Perm}
use mathlib.Core.List.Perm
use native.Mathlib.Omega.{arith}

module _ {ℓ} {V : Type ℓ} where
  -- `m[k]`, with `none` for a missing key.
  abbrev pub lookup : ℕ → List (ℕ × V) → Option V
  lookup key ((id, value) ∷ rest) = if id == key then some value else lookup key rest
  lookup key [] = none

  -- `m[k] = v`
  abbrev pub insert : ℕ → V → List (ℕ × V) → List (ℕ × V)
  insert key value (entry ∷ rest) =
      if entry.0 == key then (key, value) ∷ rest else entry ∷ insert key value rest
  insert key value [] = (key, value) ∷ []

  -- `delete(m, k)`
  abbrev pub erase : ℕ → List (ℕ × V) → List (ℕ × V)
  erase k [] = []
  erase k ((j, w) ∷ m) = if j == k then erase k m else (j, w) ∷ erase k m

  pub lookup-insert :
      (key id : ℕ) (value : V) (entries : List (ℕ × V))
      → lookup id (insert key value entries) ≡ (if key == id then some value else lookup id entries)
  lookup-insert key id value (_ ∷ rest) = ground (arith, lookup-insert key id value rest)
  lookup-insert key id value [] = refl

  pub lookup-erase :
      (k j : ℕ) (m : List (ℕ × V)) → lookup j (erase k m) ≡ (if k == j then none else lookup j m)
  lookup-erase k j [] = ground arith
  lookup-erase k j ((i, w) ∷ m) = ground (arith, lookup-erase k j m)

  -- A map has one entry for a key.
  abbrev pub IsDistinct : List (ℕ × V) → Type ℓ
  IsDistinct [] = Unit
  IsDistinct ((k, v) ∷ m) = (lookup k m ≡ none) × IsDistinct m

  pub insert-IsDistinct :
      (k : ℕ) (v : V) (m : List (ℕ × V)) → IsDistinct m → IsDistinct (insert k v m)
  insert-IsDistinct k v [] d = (refl, tt)
  insert-IsDistinct k v ((j, w) ∷ m) d =
      ground (arith, insert-IsDistinct k v m, lookup-insert k j v m)

  pub erase-IsDistinct : (k : ℕ) (m : List (ℕ × V)) → IsDistinct m → IsDistinct (erase k m)
  erase-IsDistinct k [] d = tt
  erase-IsDistinct k ((j, w) ∷ m) d = ground (arith, erase-IsDistinct k m, lookup-erase k j m)

  erase-of_none : (k : ℕ) (m : List (ℕ × V)) → lookup k m ≡ none → erase k m ≡ m
  erase-of_none k [] h = refl
  erase-of_none k ((j, w) ∷ m) h = ground (arith, erase-of_none k m)

  perm-erase :
      (k : ℕ) (v : V) (m : List (ℕ × V))
      → IsDistinct m
      → lookup k m ≡ some v
      → Perm m ((k, v) ∷ erase k m)
  perm-erase k v [] d h = cc
  perm-erase k v ((j, w) ∷ m) d h = elim (Bool-cases (j == k)) [
    | inl e ↦ ground (arith, Perm.refl ((j, w) ∷ m), erase-of_none k m)
    | inr e ↦
        let rest = perm-erase k v m d.1 (ground arith) in
        ground (arith, Perm.trans (Perm.cons (j, w) rest) (Perm.swap (k, v) (j, w) (erase k m)))
  ]

  -- Two maps with the same contents hold the same entries, whatever the iteration order.
  pub lookup_ext :
      (m n : List (ℕ × V))
      → IsDistinct m
      → IsDistinct n
      → ((k : ℕ) → lookup k m ≡ lookup k n)
      → Perm m n
  lookup_ext [] [] d e h = Perm.refl []
  lookup_ext [] ((k, v) ∷ n) d e h = ground (arith, h k)
  lookup_ext ((k, v) ∷ m) n d e h =
      Perm.trans
        (Perm.cons (k, v)
          (lookup_ext m (erase k n) d.1 (erase-IsDistinct k n e)
            λ j. ground (arith, h j, lookup-erase k j n)))
        (Perm.symm (perm-erase k v n e (ground (arith, h k))))
