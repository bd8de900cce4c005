-- ===== src/Prelude/Sort.antt =====
-- `sort.Sort` and `sort.Slice` for a given `Less`, with the laws that every sorting routine has.
use mathlib.Core.Path.{◌≡◌, refl, ap₂, ◌∙◌}
use mathlib.Core.Logic.{∥∥₁_elim}
use mathlib.Core.Bool.{Bool, true, false}
use mathlib.Core.List.{List, [], ◌∷◌, Perm, Permᴰ}
use mathlib.Core.List.Perm
use native.Mathlib.Omega.{arith}
use lachesis_ex.Prelude.Tests.{if◌then◌else◌}

module _ {ℓ} {A : Type ℓ} (less : A → A → Bool) where
  abbrev pub insert_sorted : A → List A → List A
  insert_sorted x [] = x ∷ []
  insert_sorted x (y ∷ l) = if less y x then y ∷ insert_sorted x l else x ∷ y ∷ l

  abbrev pub sort : List A → List A
  sort [] = []
  sort (x ∷ l) = insert_sorted x (sort l)

  -- No entry is less than an earlier one.
  abbrev pub Above : A → List A → Type 0
  Above x [] = Unit
  Above x (y ∷ l) = (less y x ≡ false) × Above x l

  abbrev pub IsSorted : List A → Type 0
  IsSorted [] = Unit
  IsSorted (x ∷ l) = Above x l × IsSorted l

  insert_sorted-perm : (x : A) (l : List A) → Perm (insert_sorted x l) (x ∷ l)
  insert_sorted-perm x [] = Perm.refl (x ∷ [])
  insert_sorted-perm x (y ∷ l) = ground (
    arith,
    Perm.refl (x ∷ y ∷ l),
    Perm.trans (Perm.cons y (insert_sorted-perm x l)) (Perm.swap x y l),
  )

  -- Sorting neither loses nor makes up an entry.
  pub sort-perm : (l : List A) → Perm (sort l) l
  sort-perm [] = Perm.refl []
  sort-perm (x ∷ l) = Perm.trans (insert_sorted-perm x (sort l)) (Perm.cons x (sort-perm l))

-- A strict order in which two entries neither of which is less are the same entry.
pub record IsStrict {ℓ} {A : Type ℓ} (less : A → A → Bool) : Type ℓ where
  pub asymm : (x y : A) → less x y ≡ true → less y x ≡ false
  pub trans : (x y z : A) → less x y ≡ true → less y z ≡ true → less x z ≡ true
  pub connected : (x y : A) → less x y ≡ false → less y x ≡ false → x ≡ y

module _ {ℓ} {A : Type ℓ} (less : A → A → Bool) (o : IsStrict less) where
  insert_sorted_comm :
      (x y : A) (l : List A)
      → insert_sorted less x (insert_sorted less y l)
        ≡ insert_sorted less y (insert_sorted less x l)
  insert_sorted_comm x y [] = ground (arith, o.asymm x y, o.connected x y, o.asymm y x)
  insert_sorted_comm x y (z ∷ l) = ground (
    arith,
    insert_sorted_comm x y l,
    o.connected x y,
    o.connected z x,
    o.connected z y,
    o.asymm x y,
    o.asymm y x,
    o.trans x z y,
    o.trans y z x,
  )

  Permᴰ-sort : {l k : List A} → Permᴰ l k → sort less l ≡ sort less k
  Permᴰ-sort Permᴰ.nil = refl
  Permᴰ-sort (Permᴰ.cons e p) = ap₂ (insert_sorted less) e (Permᴰ-sort p)
  Permᴰ-sort (Permᴰ.swap {a} {b} {l = l} e f) = rw (← e, ← f) (insert_sorted_comm a b (sort less l))
  Permᴰ-sort (Permᴰ.trans p q) = Permᴰ-sort p ∙ Permᴰ-sort q

  -- The order in which the entries came is not seen in the sorted list.
  pub sort-perm_eq : IsSet (List A) → {l k : List A} → Perm l k → sort less l ≡ sort less k
  sort-perm_eq s p = ∥∥₁_elim p (s _ _) Permᴰ-sort

-- A strict weak order: what the sort needs to sort.
pub record IsWeak {ℓ} {A : Type ℓ} (less : A → A → Bool) : Type ℓ where
  pub asymm : (x y : A) → less x y ≡ true → less y x ≡ false
  pub negtrans : (x y z : A) → less x y ≡ false → less y z ≡ false → less x z ≡ false

module _ {ℓ} {A : Type ℓ} (less : A → A → Bool) (o : IsWeak less) where
  Above-insert_sorted :
      (z x : A) (l : List A)
      → less x z ≡ false
      → Above less z l
      → Above less z (insert_sorted less x l)
  Above-insert_sorted z x [] h a = (h, tt)
  Above-insert_sorted z x (y ∷ l) h a = ground (arith, Above-insert_sorted z x l h a.1)

  -- What is below the head is below the rest.
  Above-mono : (x y : A) (l : List A) → less y x ≡ false → Above less y l → Above less x l
  Above-mono x y [] h a = tt
  Above-mono x y (z ∷ l) h a = (ground (arith, a.0, o.negtrans z y x), Above-mono x y l h a.1)

  insert_sorted-IsSorted :
      (x : A) (l : List A) → IsSorted less l → IsSorted less (insert_sorted less x l)
  insert_sorted-IsSorted x [] s = (tt, tt)
  insert_sorted-IsSorted x (y ∷ l) s = ground (
    arith,
    insert_sorted-IsSorted x l s.1,
    Above-insert_sorted y x l,
    Above-mono x y l,
    o.asymm y x,
  )

  pub sort-IsSorted : (l : List A) → IsSorted less (sort less l)
  sort-IsSorted [] = tt
  sort-IsSorted (x ∷ l) = insert_sorted-IsSorted x (sort less l) (sort-IsSorted l)
