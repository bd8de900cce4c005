-- ===== src/Kvdb/Iterator/Visits.antt =====
-- What a visit of the iterator comes to, and the order of the keys at its place.
use lachesis_ex.Prelude.{
  ◌≡◌, ◌⊎◌, inl, inr, refl, sym, ap, ◌∙◌, Bool, true, false, List, [], ◌∷◌, Option, none, some,
  arith, Bool-cases,
}
use lachesis_ex.Kvdb.{Bytes, bytes_eq}
use lachesis_ex.Kvdb.Writes.{bytes_eq-eq}
use lachesis_ex.Kvdb.Order.{
  bytes_lt, has_prefix, bytes_lt_irrefl, bytes_lt_trans, bytes_lt-cases, find_key, Above,
  IsAscending,
}
use lachesis_ex.Kvdb.Iterator.{Iterator, has_its_prefix, is_after, before_parent}
use lachesis_ex.Kvdb.Iterator.Follows.{
  is_from, IsWanted, Follows, IsNext, find_key-below, find_key-prefix,
}

pub find_key-before :
    (j k : Bytes) (ps : List (Bytes × Bytes))
    → before_parent ps k ≡ true
    → IsAscending ps
    → bytes_lt j k ≡ true
    → find_key j ps ≡ none
unfolding before_parent find_key
find_key-before j k [] b a h = refl
find_key-before j k ((i, w) ∷ ps) b (above, a) h =
    let lower : bytes_lt j i ≡ true = ground (arith, bytes_lt-cases j i, bytes_lt_trans i j k) in
    find_key-below j i w ps lower above

pub ne-lt : (k j : Bytes) → bytes_lt k j ≡ true → bytes_eq k j ≡ false
ne-lt k j h = elim (Bool-cases (bytes_eq k j)) [
  | inl e ↦
      let same : bytes_lt k k ≡ true = ap (bytes_lt k) (bytes_eq-eq k j e) ∙ h in
      absurd (ground (arith, bytes_lt_irrefl k))
  | inr e ↦ e
]

-- After a key that is not below the prefix and does not have it, no key has it.
pub foreign-none :
    {V : Type 0} (start prefix : Option Bytes) (k j : Bytes) (v : V) (later : List (Bytes × V))
    → (prefix ≡ none) ⊎ (start ≡ prefix)
    → is_from start k ≡ true
    → has_its_prefix prefix k ≡ false
    → Above k later
    → IsWanted start prefix j
    → find_key j ((k, v) ∷ later) ≡ none
unfolding find_key
foreign-none start none k j v later fits from n above w = absurd (ground arith)
foreign-none none (some p) k j v later fits from n above w = absurd (ground arith)
foreign-none (some s) (some p) k j v later fits from n above (w, has) =
    let same : s ≡ p = ground arith in
    let not_below : bytes_lt k p ≡ false = ap (bytes_lt k) (sym same) ∙ ground arith in
    elim (Bool-cases (bytes_eq k j)) [
      | inl e ↦
          let both : has_prefix k p ≡ true = ap (λ x. has_prefix x p) (bytes_eq-eq k j e) ∙ has in
          absurd (ground arith)
      | inr e ↦ rw e (find_key-prefix p k j later not_below n has above)
    ]

pub is_after_trans :
    (last : Option Bytes) (k j : Bytes)
    → is_after last k ≡ true
    → bytes_lt k j ≡ true
    → is_after last j ≡ true
is_after_trans none k j h l = refl
is_after_trans (some p) k j h l = bytes_lt_trans p k j h l

module _ (contents : Bytes → Option Bytes) (start prefix : Option Bytes)
    (fits : (prefix ≡ none) ⊎ (start ≡ prefix)) where
  -- What a visit, a loop or `Next` comes to.
  pub record Found (last : Option Bytes) (it : Iterator) : Type 0 where
    pub key : Bytes
    pub value : Bytes
    pub current : it.current ≡ some (key, value)
    pub is_next : IsNext contents start prefix last key value
    pub goes_on : Follows contents start prefix it (some key)

  abbrev pub Outcome : Option Bytes → Bool × Iterator → Type 0
  Outcome last (false, it) = Follows contents start prefix it last
  Outcome last (true, it) = Found last it
