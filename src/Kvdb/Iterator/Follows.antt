-- ===== src/Kvdb/Iterator/Follows.antt =====
-- What the iterator stands for: the map of the cache over the database, from a place on.
use lachesis_ex.Prelude.{
  ◌≡◌, ◌⊎◌, inl, inr, refl, sym, ap, ◌∙◌, Bool, true, false, not, List, [], ◌∷◌, Option, none, some,
  arith, Bool-cases,
}
use lachesis_ex.Kvdb.{Bytes, bytes_eq}
use lachesis_ex.Kvdb.Writes.{over, bytes_eq-eq}
use lachesis_ex.Kvdb.Order.{
  bytes_lt, has_prefix, bytes_lt_irrefl, bytes_lt_trans, bytes_lt-cases, has_prefix_above, find_key,
  Above, IsAscending, Above-trans, find_key-Above,
}
use lachesis_ex.Kvdb.Iterator.{Iterator, has_its_prefix, is_after}

-- The key is not below the start.
abbrev pub is_from : Option Bytes → Bytes → Bool
is_from none key = true
is_from (some s) key = not (bytes_lt key s)

-- The keys that the iterator is to give.
abbrev pub IsWanted : Option Bytes → Option Bytes → Bytes → Type 0
IsWanted start prefix key = (is_from start key ≡ true) × (has_its_prefix prefix key ≡ true)

module _ {V : Type 0} where
  -- All keys pass a test.
  abbrev pub AllKeys : (Bytes → Bool) → List (Bytes × V) → Type 0
  AllKeys test [] = Unit
  AllKeys test ((k, v) ∷ es) = (test k ≡ true) × AllKeys test es

module _ (contents : Bytes → Option Bytes) (start prefix : Option Bytes) where
  -- The iterator gives what is left of the contents after its place, and has given all from `last`
  -- to its place.
  pub record Follows (it : Iterator) (last : Option Bytes) : Type 0 where
    pub inited : it.inited ≡ true
    pub same_prefix : it.prefix ≡ prefix
    pub nodes_IsAscending : IsAscending it.nodes
    pub parent_IsAscending : IsAscending it.parent
    pub nodes_after : AllKeys (is_after it.prev_key) it.nodes
    pub nodes_from : AllKeys (is_from start) it.nodes
    pub parent_prefix : AllKeys (has_its_prefix prefix) it.parent
    pub parent_from : AllKeys (is_from start) it.parent
    pub reads :
        (j : Bytes)
        → IsWanted start prefix j
        → is_after it.prev_key j ≡ true
        → over (find_key j it.nodes) (find_key j it.parent) ≡ contents j
    pub behind : (j : Bytes) → is_after it.prev_key j ≡ true → is_after last j ≡ true
    pub passed :
        (j : Bytes)
        → IsWanted start prefix j
        → is_after last j ≡ true
        → is_after it.prev_key j ≡ false
        → contents j ≡ none

  -- The pair is the first one after `last`.
  pub record IsNext (last : Option Bytes) (key value : Bytes) : Type 0 where
    pub wanted : IsWanted start prefix key
    pub follows : is_after last key ≡ true
    pub holds : contents key ≡ some value
    pub least :
        (j : Bytes)
        → IsWanted start prefix j
        → is_after last j ≡ true
        → bytes_lt j key ≡ true
        → contents j ≡ none

-- Of two keys, one is not above the other.
pub not_lt-cases : (j k : Bytes) → bytes_lt k j ≡ false → (j ≡ k) ⊎ (bytes_lt j k ≡ true)
not_lt-cases j k h = ground (arith, bytes_lt-cases j k)

pub lt_asymm : (j k : Bytes) → bytes_lt j k ≡ true → bytes_lt k j ≡ false
lt_asymm j k h = ground (arith, bytes_lt_trans j k j, bytes_lt_irrefl j, Bool-cases (bytes_lt k j))

module _ {V : Type 0} where
  -- What is above a key is above a string before it.
  pub AllKeys-Above :
      (k : Bytes) (es : List (Bytes × V)) → Above k es → AllKeys (is_after (some k)) es
  AllKeys-Above k [] a = tt
  AllKeys-Above k ((j, v) ∷ es) (first, a) = (first, AllKeys-Above k es a)

  -- A key below the first one of an ascending list is not in it.
  pub find_key-below :
      (j k : Bytes) (v : V) (es : List (Bytes × V))
      → bytes_lt j k ≡ true
      → Above k es
      → find_key j ((k, v) ∷ es) ≡ none
  find_key-below j k v es h a = find_key-Above j ((k, v) ∷ es) (h, Above-trans j k es h a)

  -- No key that has the prefix stands after one that is not below it and does not have it.
  pub find_key-prefix :
      (p k j : Bytes) (es : List (Bytes × V))
      → bytes_lt k p ≡ false
      → has_prefix k p ≡ false
      → has_prefix j p ≡ true
      → Above k es
      → find_key j es ≡ none
  unfolding find_key
  find_key-prefix p k j [] h n has a = refl
  find_key-prefix p k j ((i, v) ∷ es) h n has (first, a) = elim (Bool-cases (bytes_eq i j)) [
    | inl e ↦
        let above : bytes_lt k j ≡ true =
          ap (λ x. bytes_lt k x) (sym (bytes_eq-eq i j e)) ∙ first in
        absurd (ground (arith, has_prefix_above p k j))
    | inr e ↦ rw e (find_key-prefix p k j es h n has a)
  ]
