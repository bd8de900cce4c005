-- ===== src/Kvdb/Order.antt =====
-- The order of byte strings, and lists of keys in this order.
use lachesis_ex.Prelude.{
  ◌≡◌, ◌⊎◌, inl, inr, refl, sym, ap, ◌∙◌, Bool, true, false, List, [], ◌∷◌, Option, none, some, ltb,
  ◌==◌, if◌then◌else◌, arith, Bool-cases,
}
use lachesis_ex.Kvdb.{Bytes, bytes_eq}
use lachesis_ex.Kvdb.Writes.{bytes_eq-eq}

-- `bytes.Compare(a, b) < 0`
unfoldable pub bytes_lt : Bytes → Bytes → Bool
bytes_lt [] [] = false
bytes_lt [] (_ ∷ _) = true
bytes_lt (_ ∷ _) [] = false
bytes_lt (a ∷ later) (b ∷ bs) = if a == b then bytes_lt later bs else ltb a b

-- `bytes.HasPrefix`
unfoldable pub has_prefix : Bytes → Bytes → Bool
has_prefix bs [] = true
has_prefix [] (p ∷ ps) = false
has_prefix (b ∷ bs) (p ∷ ps) = if b == p then has_prefix bs ps else false

pub bytes_lt_irrefl : (a : Bytes) → bytes_lt a a ≡ false
unfolding bytes_lt
bytes_lt_irrefl [] = refl
bytes_lt_irrefl (x ∷ a) = ground (arith, bytes_lt_irrefl a)

pub bytes_lt_trans :
    (a b c : Bytes) → bytes_lt a b ≡ true → bytes_lt b c ≡ true → bytes_lt a c ≡ true
unfolding bytes_lt
bytes_lt_trans [] [] c h k = absurd (ground arith)
bytes_lt_trans [] (y ∷ b) [] h k = absurd (ground arith)
bytes_lt_trans [] (y ∷ b) (z ∷ c) h k = refl
bytes_lt_trans (x ∷ a) [] c h k = absurd (ground arith)
bytes_lt_trans (x ∷ a) (y ∷ b) [] h k = absurd (ground arith)
bytes_lt_trans (x ∷ a) (y ∷ b) (z ∷ c) h k = ground (arith, bytes_lt_trans a b c)

pub bytes_lt-cases : (a b : Bytes) → (bytes_lt a b ≡ true) ⊎ ((a ≡ b) ⊎ (bytes_lt b a ≡ true))
unfolding bytes_lt
bytes_lt-cases [] [] = inr (inl refl)
bytes_lt-cases [] (y ∷ b) = inl refl
bytes_lt-cases (x ∷ a) [] = inr (inr refl)
bytes_lt-cases (x ∷ a) (y ∷ b) = ground (arith, bytes_lt-cases a b)

pub lt-ne : (k j : Bytes) → bytes_lt k j ≡ true → bytes_eq j k ≡ false
lt-ne k j h = elim (Bool-cases (bytes_eq j k)) [
  | inl e ↦
      let same : bytes_lt k k ≡ true = ap (λ x. bytes_lt k x) (sym (bytes_eq-eq j k e)) ∙ h in
      absurd (ground (arith, bytes_lt_irrefl k))
  | inr e ↦ e
]

-- A key above a string that is not below the prefix, but does not have it, does not have it either.
pub has_prefix_above :
    (p k j : Bytes)
    → bytes_lt k p ≡ false
    → has_prefix k p ≡ false
    → bytes_lt k j ≡ true
    → has_prefix j p ≡ false
unfolding bytes_lt has_prefix
has_prefix_above [] k j h n l = absurd (ground arith)
has_prefix_above (p ∷ ps) [] j h n l = absurd (ground arith)
has_prefix_above (p ∷ ps) (x ∷ k) [] h n l = refl
has_prefix_above (p ∷ ps) (x ∷ k) (y ∷ j) h n l = ground (arith, has_prefix_above ps k j)

module _ {V : Type 0} where
  -- The value of the first entry of a key.
  unfoldable pub find_key : Bytes → List (Bytes × V) → Option V
  find_key k [] = none
  find_key k ((j, v) ∷ es) = if bytes_eq j k then some v else find_key k es

  -- All keys are above the string.
  abbrev pub Above : Bytes → List (Bytes × V) → Type 0
  Above k [] = Unit
  Above k ((j, v) ∷ es) = (bytes_lt k j ≡ true) × Above k es

  abbrev pub IsAscending : List (Bytes × V) → Type 0
  IsAscending [] = Unit
  IsAscending ((k, v) ∷ es) = Above k es × IsAscending es

  pub Above-trans :
      (j k : Bytes) (es : List (Bytes × V)) → bytes_lt j k ≡ true → Above k es → Above j es
  Above-trans j k [] h a = tt
  Above-trans j k ((i, v) ∷ es) h (first, a) =
      (bytes_lt_trans j k i h first, Above-trans j k es h a)

  -- A key that is not above the string is not among them.
  pub find_key-Above : (k : Bytes) (es : List (Bytes × V)) → Above k es → find_key k es ≡ none
  unfolding find_key
  find_key-Above k [] a = refl
  find_key-Above k ((j, v) ∷ es) (first, a) = rw (lt-ne k j first) (find_key-Above k es a)
