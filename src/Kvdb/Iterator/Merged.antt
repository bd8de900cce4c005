-- ===== src/Kvdb/Iterator/Merged.antt =====
-- An iteration lists what `Get` reads.
use lachesis_ex.Prelude.{
  ℕ, ◌+◌, ◌≤◌, ◌<◌, ◌≡◌, ◌⊎◌, inl, inr, refl, sym, ap, ap₂, ◌∙◌, true, false, not, List, [], ◌∷◌,
  Option, none, some, if◌then◌else◌, arith, Bool-cases, length,
}
use lachesis_ex.Kvdb.{Bytes, bytes_eq, Write, find, reply, Tree, Store, IsReliable}
use lachesis_ex.Kvdb.Writes.{over, bytes_eq-eq}
use lachesis_ex.Kvdb.Order.{bytes_lt, bytes_lt_trans, find_key, Above, IsAscending}
use lachesis_ex.Kvdb.Flushable.{Flushable, get}
use lachesis_ex.Kvdb.Flushable.Refines.{get-open}
use lachesis_ex.Kvdb.Iterator.{
  Range, all_keys, keys_from, keys_with, start_of, prefix_of, has_its_prefix, ceiling,
  init_iterator, new_iterator, iterate,
}
use lachesis_ex.Kvdb.Iterator.Follows.{is_from, IsWanted, AllKeys, Follows}
use lachesis_ex.Kvdb.Iterator.Loop.{size}
use lachesis_ex.Kvdb.Iterator.Listing.{iterate-Lists}

-- The key is in the range.
abbrev pub InRange : Range → Bytes → Type 0
InRange range = IsWanted (start_of range) (prefix_of range)

-- The iterators of a database, as they are documented: they give the contents that are in the
-- range, in the order of the keys.
pub record Iterates (D : Type 0) (content : D → Bytes → Option Bytes) : Type 0 where
  pub pairs : D → Range → List (Bytes × Bytes)
  pub pairs-IsAscending : (d : D) (range : Range) → IsAscending (pairs d range)
  pub pairs_from : (d : D) (range : Range) → AllKeys (is_from (start_of range)) (pairs d range)
  pub pairs_prefix :
      (d : D) (range : Range) → AllKeys (has_its_prefix (prefix_of range)) (pairs d range)
  pub find_key-pairs :
      (d : D) (range : Range) (k : Bytes)
      → InRange range k
      → find_key k (pairs d range) ≡ content d k

pub find_key-find : (k : Bytes) (ws : List Write) → find_key k ws ≡ find k ws
unfolding find_key find
find_key-find k [] = refl
find_key-find k ((j, v) ∷ ws) = ap (λ r. if bytes_eq j k then some v else r) (find_key-find k ws)

Above-ceiling : (s k : Bytes) (ws : List Write) → Above k ws → Above k (ceiling s ws)
unfolding ceiling
Above-ceiling s k [] a = tt
Above-ceiling s k ((j, v) ∷ ws) (first, a) = elim (Bool-cases (bytes_lt j s)) [
  | inl q ↦ rw q (Above-ceiling s k ws a)
  | inr q ↦ rw q (first, a)
]

-- The nodes from the ceiling on are those that are not below the start.
ceiling-IsAscending : (s : Bytes) (ws : List Write) → IsAscending ws → IsAscending (ceiling s ws)
unfolding ceiling
ceiling-IsAscending s [] a = tt
ceiling-IsAscending s ((j, v) ∷ ws) (first, a) = elim (Bool-cases (bytes_lt j s)) [
  | inl q ↦ rw q (ceiling-IsAscending s ws a)
  | inr q ↦ rw q (first, a)
]

Above-from :
    (s j : Bytes) (ws : List Write)
    → bytes_lt j s ≡ false
    → Above j ws
    → AllKeys (is_from (some s)) ws
Above-from s j [] h a = tt
Above-from s j ((i, v) ∷ ws) h (first, a) =
    (ground (arith, bytes_lt_trans j i s, Bool-cases (bytes_lt i s)), Above-from s j ws h a)

ceiling_from :
    (s : Bytes) (ws : List Write) → IsAscending ws → AllKeys (is_from (some s)) (ceiling s ws)
unfolding ceiling
ceiling_from s [] a = tt
ceiling_from s ((j, v) ∷ ws) (first, a) = elim (Bool-cases (bytes_lt j s)) [
  | inl q ↦ rw q (ceiling_from s ws a)
  | inr q ↦ rw q (ap not q, Above-from s j ws q first)
]

find_key-ceiling :
    (s k : Bytes) (ws : List Write)
    → bytes_lt k s ≡ false
    → find_key k (ceiling s ws) ≡ find_key k ws
unfolding ceiling find_key
find_key-ceiling s k [] h = refl
find_key-ceiling s k ((j, v) ∷ ws) h = elim (Bool-cases (bytes_lt j s)) [
  | inr q ↦ rw q refl
  | inl q ↦ elim (Bool-cases (bytes_eq j k)) [
    | inl e ↦
        let both : bytes_lt k s ≡ true = ap (λ x. bytes_lt x s) (sym (bytes_eq-eq j k e)) ∙ q in
        absurd (ground arith)
    | inr e ↦ rw (q, e) (find_key-ceiling s k ws h)
  ]
]

length-ceiling : (s : Bytes) (ws : List Write) → length (ceiling s ws) ≤ length ws
unfolding ceiling
length-ceiling s [] = omega arith
length-ceiling s ((j, v) ∷ ws) = ground (arith, length-ceiling s ws)

-- The nodes at the first `Next`.
abbrev first_nodes : Option Bytes → List Write → List Write
first_nodes none ws = ws
first_nodes (some s) ws = ceiling s ws

first_nodes-IsAscending :
    (start : Option Bytes) (ws : List Write) → IsAscending ws → IsAscending (first_nodes start ws)
first_nodes-IsAscending none ws a = a
first_nodes-IsAscending (some s) ws a = ceiling-IsAscending s ws a

AllKeys-true : {V : Type 0} (es : List (Bytes × V)) → AllKeys (λ k. true) es
AllKeys-true [] = tt
AllKeys-true ((k, v) ∷ es) = (refl, AllKeys-true es)

first_nodes_from :
    (start : Option Bytes) (ws : List Write)
    → IsAscending ws
    → AllKeys (is_from start) (first_nodes start ws)
first_nodes_from none ws a = AllKeys-true ws
first_nodes_from (some s) ws a = ceiling_from s ws a

find_key-first_nodes :
    (start : Option Bytes) (k : Bytes) (ws : List Write)
    → is_from start k ≡ true
    → find_key k (first_nodes start ws) ≡ find_key k ws
find_key-first_nodes none k ws h = refl
find_key-first_nodes (some s) k ws h =
    find_key-ceiling s k ws (ground (arith, Bool-cases (bytes_lt k s)))

length-first_nodes :
    (start : Option Bytes) (ws : List Write) → length (first_nodes start ws) ≤ length ws
length-first_nodes none ws = omega arith
length-first_nodes (some s) ws = length-ceiling s ws

range_fits : (range : Range) → (prefix_of range ≡ none) ⊎ (start_of range ≡ prefix_of range)
range_fits all_keys = inl refl
range_fits (keys_from s) = inl refl
range_fits (keys_with p) = inr refl

module _ {T D : Type 0} (tree : Tree T) (store : Store D) (ideal : ℕ)
    (reliable : IsReliable D store) (iterates : Iterates D reliable.content)
    (ordered : (t : T) → IsAscending (tree.entries t)) where
  -- What is read through the cache.
  abbrev reading : T → D → Bytes → Option Bytes
  reading t d k = over (tree.get k t) (reliable.content d k)

  init-nodes :
      (range : Range) (t : T) (pairs : List (Bytes × Bytes))
      → init_iterator (new_iterator tree range t pairs) ≡ record {
        nodes = first_nodes (start_of range) (tree.entries t);
        parent = pairs;
        prev_key = none;
        current = none;
        start = start_of range;
        prefix = prefix_of range;
        inited = true;
      }
  unfolding init_iterator new_iterator
  init-nodes all_keys t pairs = refl
  init-nodes (keys_from s) t pairs = refl
  init-nodes (keys_with p) t pairs = refl

  new_iterator-Follows :
      (range : Range) (t : T) (d : D)
      → Follows
          (reading t d)
          (start_of range)
          (prefix_of range)
          (init_iterator (new_iterator tree range t (iterates.pairs d range)))
          none
  new_iterator-Follows range t d =
      let ws = tree.entries t in
      rw (init-nodes range t (iterates.pairs d range)) (record {
        inited = refl;
        same_prefix = refl;
        nodes_IsAscending = first_nodes-IsAscending (start_of range) ws (ordered t);
        parent_IsAscending = iterates.pairs-IsAscending d range;
        nodes_after = AllKeys-true (first_nodes (start_of range) ws);
        nodes_from = first_nodes_from (start_of range) ws (ordered t);
        parent_prefix = iterates.pairs_prefix d range;
        parent_from = iterates.pairs_from d range;
        reads = λ j w h.
            ap₂ over
              (find_key-first_nodes (start_of range) j ws w.0
                ∙ find_key-find j ws
                ∙ tree.entries-get j t)
              (iterates.find_key-pairs d range j w);
        behind = λ j h. refl;
        passed = λ j w h l. absurd (ground arith);
      })

  -- An iteration over the whole cache, from a start or with a prefix, ends, with fuel greater than
  -- the numbers of entries in the cache and of pairs in the database. It lists, in the ascending
  -- order of the keys and each key once, only keys that are in the range, and for each key of the
  -- range just what `Get` reads. The cache is open, and its tree is in order.
  pub iterate-get :
      (range : Range) (w : Flushable T D) (t : T) (rounds fuel : ℕ)
      → w.modified ≡ some t
      → length (tree.entries t) + length (iterates.pairs w.underlying range) < rounds
      → length (tree.entries t) + length (iterates.pairs w.underlying range) < fuel
      → (out : List (Bytes × Bytes)) × (iterate rounds fuel
            (new_iterator tree range t (iterates.pairs w.underlying range))
          ≡ some out)
        × IsAscending out
        × AllKeys (is_from (start_of range)) out
        × AllKeys (has_its_prefix (prefix_of range)) out
        × ((k : Bytes) → InRange range k → get tree store ideal w k ≡ reply (find_key k out))
  iterate-get range w t rounds fuel o r f =
      let d = w.underlying in
      let it = new_iterator tree range t (iterates.pairs d range) in
      let small : size (init_iterator it)
          ≤ length (tree.entries t) + length (iterates.pairs d range) =
        rw (init-nodes range t (iterates.pairs d range))
          (omega (arith, length-first_nodes (start_of range) (tree.entries t))) in
      let (out, is, lists) =
        iterate-Lists (reading t d) (start_of range) (prefix_of range) (range_fits range) rounds
          fuel it none (new_iterator-Follows range t d) (omega arith) (omega arith) in
      (
        out,
        is,
        lists.ascending,
        lists.all_from,
        lists.all_prefix,
        λ k i. get-open tree store ideal reliable w t k o ∙ ap reply (sym (lists.reads k i refl)),
      )
