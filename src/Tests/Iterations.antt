-- ===== src/Tests/Iterations.antt =====
-- Tests and an example for the iterator, over a sorted tree and a database that takes no writes.
use lachesis_ex.Prelude.{
  ◌≡◌, inl, inr, refl, sym, ap, ◌∙◌, true, false, ◌&&◌, List, [], ◌∷◌, Option, none, some, length,
  if◌then◌else◌, arith, Bool-cases,
}
use mathlib.Core.Path.{subst}
use lachesis_ex.Kvdb.{
  Bytes, bytes_eq, Write, find, HasOnce, reply, is_some, Tree, Store, IsReliable,
}
use lachesis_ex.Kvdb.Writes.{bytes_eq-eq, bytes_eq_refl}
use lachesis_ex.Kvdb.Order.{
  bytes_lt, has_prefix, find_key, Above, IsAscending, Above-trans, find_key-Above,
}
use lachesis_ex.Kvdb.Flushable.{Flushable, get}
use lachesis_ex.Kvdb.Iterator.{
  Range, all_keys, keys_with, start_of, prefix_of, has_its_prefix, new_iterator, iterate,
}
use lachesis_ex.Kvdb.Iterator.Follows.{is_from, AllKeys, not_lt-cases}
use lachesis_ex.Kvdb.Iterator.Merged.{InRange, Iterates, iterate-get, find_key-find}

-- A tree as the list of its entries, in the order of their keys.
unfoldable put_sorted : Bytes → Option Bytes → List Write → List Write
unfolding bytes_eq bytes_lt
put_sorted k v [] = (k, v) ∷ []
put_sorted k v ((j, w) ∷ ws) =
    if bytes_eq j k
    then (k, v) ∷ ws
    else if bytes_lt k j
    then (k, v) ∷ (j, w) ∷ ws
    else (j, w) ∷ put_sorted k v ws

find-put_sorted :
    (k j : Bytes) (v : Option Bytes) (ws : List Write)
    → find j (put_sorted k v ws) ≡ (if bytes_eq k j then some v else find j ws)
unfolding find put_sorted
find-put_sorted k j v [] = refl
find-put_sorted k j v ((i, w) ∷ ws) = elim (Bool-cases (bytes_eq i k)) [
  | inl e ↦
      let same : i ≡ k = bytes_eq-eq i k e in
      rw (e, same) (elim (Bool-cases (bytes_eq k j)) [ inl q ↦ rw q refl | inr q ↦ rw q refl ])
  | inr e ↦ elim (Bool-cases (bytes_lt k i)) [
    | inl l ↦ rw (e, l) refl
    | inr l ↦ elim (Bool-cases (bytes_eq k j)) [
      | inl f ↦
          let same : k ≡ j = bytes_eq-eq k j f in
          let apart : bytes_eq i j ≡ false = ap (λ x. bytes_eq i x) (sym same) ∙ e in
          ground (arith, find-put_sorted k j v ws)
      | inr f ↦ ground (arith, find-put_sorted k j v ws)
    ]
  ]
]

Above-put_sorted :
    (j k : Bytes) (v : Option Bytes) (ws : List Write)
    → bytes_lt j k ≡ true
    → Above j ws
    → Above j (put_sorted k v ws)
unfolding put_sorted
Above-put_sorted j k v [] h a = (h, tt)
Above-put_sorted j k v ((i, w) ∷ ws) h (first, a) = elim (Bool-cases (bytes_eq i k)) [
  | inl e ↦ rw e (h, a)
  | inr e ↦ elim (Bool-cases (bytes_lt k i)) [
    | inl l ↦ rw (e, l) (h, (first, a))
    | inr l ↦ rw (e, l) (first, Above-put_sorted j k v ws h a)
  ]
]

put_sorted-IsAscending :
    (k : Bytes) (v : Option Bytes) (ws : List Write)
    → IsAscending ws
    → IsAscending (put_sorted k v ws)
unfolding put_sorted
put_sorted-IsAscending k v [] a = (tt, tt)
put_sorted-IsAscending k v ((i, w) ∷ ws) (first, a) = elim (Bool-cases (bytes_eq i k)) [
  | inl e ↦ rw e (subst (λ x. Above x ws) (bytes_eq-eq i k e) first, a)
  | inr e ↦ elim (Bool-cases (bytes_lt k i)) [
    | inl l ↦ rw (e, l) ((l, Above-trans k i ws l first), (first, a))
    | inr l ↦ elim (not_lt-cases i k l) [
      | inl same ↦
          let both : bytes_eq i k ≡ true = ap (bytes_eq i) (sym same) ∙ bytes_eq_refl i in
          absurd (ground arith)
      | inr below ↦
          rw (e, l) (Above-put_sorted i k v ws below first, put_sorted-IsAscending k v ws a)
    ]
  ]
]

HasOnce-ascending : (ws : List Write) → IsAscending ws → HasOnce ws
HasOnce-ascending [] a = tt
HasOnce-ascending ((k, v) ∷ ws) (first, a) =
    (sym (find_key-find k ws) ∙ find_key-Above k ws first, HasOnce-ascending ws a)

find-nothing : (k : Bytes) → find k [] ≡ none
unfolding find
find-nothing k = refl

abbrev Sorted : Type 0
Sorted = (ws : List Write) × IsAscending ws

abbrev sorted_tree : Tree Sorted
sorted_tree = record {
  empty = ([], tt);
  get = λ k t. find k t.0;
  put = λ k v t. (put_sorted k v t.0, put_sorted-IsAscending k v t.0 t.1);
  entries = λ t. t.0;
  get-empty = find-nothing;
  get-put = λ k j v t. find-put_sorted k j v t.0;
  entries-get = λ k t. refl;
  entries-HasOnce = λ t. HasOnce-ascending t.0 t.1;
}

-- A database with two pairs, which takes no writes.
abbrev rows : List (Bytes × Bytes)
rows = (2 ∷ [], 20 ∷ []) ∷ (3 ∷ 1 ∷ [], 30 ∷ []) ∷ []

abbrev fixed : Store (Unit {0})
fixed = record {
  has = λ d k. reply (is_some (find_key k rows));
  get = λ d k. reply (find_key k rows);
  write = λ d ws. (d, true);
  put = λ d k v. (d, true);
  value_size = λ ws. length ws;
  close = λ d. (d, reply tt);
}

fixed-IsReliable : IsReliable (Unit {0}) fixed
fixed-IsReliable = record {
  content = λ d k. find_key k rows;
  get-content = λ d k. refl;
  has-content = λ d k. refl;
  write-content = λ d ws h k. absurd (ground arith);
  write-failed = λ d ws k. inl refl;
}

-- The rows of a range.
keep : Range → List (Bytes × Bytes) → List (Bytes × Bytes)
keep range [] = []
keep range ((k, v) ∷ es) =
    if is_from (start_of range) k && has_its_prefix (prefix_of range) k
    then (k, v) ∷ keep range es
    else keep range es

Above-keep :
    (range : Range) (j : Bytes) (es : List (Bytes × Bytes)) → Above j es → Above j (keep range es)
unfolding keep
Above-keep range j [] a = tt
Above-keep range j ((k, v) ∷ es) (first, a) = ground (arith, Above-keep range j es)

keep-IsAscending :
    (range : Range) (es : List (Bytes × Bytes)) → IsAscending es → IsAscending (keep range es)
unfolding keep
keep-IsAscending range [] a = tt
keep-IsAscending range ((k, v) ∷ es) (first, a) =
    ground (arith, keep-IsAscending range es, Above-keep range k es)

keep_from :
    (range : Range) (es : List (Bytes × Bytes)) → AllKeys (is_from (start_of range)) (keep range es)
unfolding keep
keep_from range [] = tt
keep_from range ((k, v) ∷ es) = ground (arith, keep_from range es)

keep_prefix :
    (range : Range) (es : List (Bytes × Bytes))
    → AllKeys (has_its_prefix (prefix_of range)) (keep range es)
unfolding keep
keep_prefix range [] = tt
keep_prefix range ((k, v) ∷ es) = ground (arith, keep_prefix range es)

find_key-keep :
    (range : Range) (j : Bytes) (es : List (Bytes × Bytes))
    → InRange range j
    → find_key j (keep range es) ≡ find_key j es
unfolding keep find_key
find_key-keep range j [] i = refl
find_key-keep range j ((k, v) ∷ es) i = elim (Bool-cases (bytes_eq k j)) [
  | inr e ↦ ground (arith, find_key-keep range j es)
  | inl e ↦
      let in_range : InRange range k = subst (InRange range) (sym (bytes_eq-eq k j e)) i in
      ground (arith, find_key-keep range j es)
]

rows-IsAscending : IsAscending rows
unfolding bytes_lt
rows-IsAscending = ((refl, tt), (tt, tt))

fixed-Iterates : Iterates (Unit {0}) fixed-IsReliable.content
unfolding fixed-IsReliable
fixed-Iterates = record {
  pairs = λ d range. keep range rows;
  pairs-IsAscending = λ d range. keep-IsAscending range rows rows-IsAscending;
  pairs_from = λ d range. keep_from range rows;
  pairs_prefix = λ d range. keep_prefix range rows;
  find_key-pairs = λ d range k i. find_key-keep range k rows i;
}

-- The cache deletes the key 2, and puts 3 and 3 2.
abbrev entries : List Write
entries = (2 ∷ [], none) ∷ (3 ∷ [], some (7 ∷ [])) ∷ (3 ∷ 2 ∷ [], some (8 ∷ [])) ∷ []

entries-IsAscending : IsAscending entries
unfolding bytes_lt
entries-IsAscending = ((refl, (refl, tt)), ((refl, tt), (tt, tt)))

abbrev cache : Flushable Sorted (Unit {0})
cache = record {
  modified = some (entries, entries-IsAscending);
  underlying = tt;
  size_estimation = 5;
}

abbrev pairs_with_three : List (Bytes × Bytes)
pairs_with_three = fixed-Iterates.pairs tt (keys_with (3 ∷ []))

iterate_test :
    iterate 9 9 (
      new_iterator sorted_tree (keys_with (3 ∷ [])) (entries, entries-IsAscending) pairs_with_three)
    ≡ some ((3 ∷ [], 7 ∷ []) ∷ (3 ∷ 1 ∷ [], 30 ∷ []) ∷ (3 ∷ 2 ∷ [], 8 ∷ []) ∷ [])
unfolding iterate new_iterator fixed-Iterates keep bytes_lt has_prefix
iterate_test = refl

iterate_all_test :
    iterate 9 9 (
      new_iterator sorted_tree all_keys
        (entries, entries-IsAscending)
        (fixed-Iterates.pairs tt all_keys))
    ≡ some ((3 ∷ [], 7 ∷ []) ∷ (3 ∷ 1 ∷ [], 30 ∷ []) ∷ (3 ∷ 2 ∷ [], 8 ∷ []) ∷ [])
unfolding iterate new_iterator fixed-Iterates keep bytes_lt has_prefix
iterate_all_test = refl

iterate-get_example :
    (out : List (Bytes × Bytes)) × (iterate 9 9 (
        new_iterator sorted_tree
          (keys_with (3 ∷ []))
          (entries, entries-IsAscending)
          pairs_with_three)
      ≡ some out)
    × IsAscending out
    × AllKeys (is_from (some (3 ∷ []))) out
    × AllKeys (has_its_prefix (some (3 ∷ []))) out
    × ((k : Bytes)
        → InRange (keys_with (3 ∷ [])) k
        → get sorted_tree fixed 0 cache k ≡ reply (find_key k out))
unfolding fixed-Iterates keep bytes_lt has_prefix
iterate-get_example =
    iterate-get sorted_tree fixed 0 fixed-IsReliable fixed-Iterates (λ t. t.1) (keys_with (3 ∷ []))
      cache (entries, entries-IsAscending) 9 9 refl (omega arith) (omega arith)
