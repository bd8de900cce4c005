-- ===== src/Kvdb/Iterator.antt =====
-- kvdb/flushable/flushable.go: the iterator that merges the cache with the database under it.
pub mod Follows
pub mod Visits
pub mod Nodes
pub mod Pairs
pub mod Loop
pub mod Least
pub mod Listing
pub mod Merged
use lachesis_ex.Prelude.{
  ℕ, suc, zero, Bool, true, false, not, List, [], ◌∷◌, Option, none, some, ◌||◌, if◌then◌else◌,
}
use lachesis_ex.Kvdb.{Bytes, Write, Tree}
use lachesis_ex.Kvdb.Order.{bytes_lt, has_prefix}

-- `iterator`: the node of the tree with those after it, in their order, none of them when `treeOk`
-- is false; the pair at which the database's iterator stands with those after it, none of them
-- when `parentOk` is false; and the key and value that are current. The database's iterator has no
-- error, and the cache does not change while it is iterated.
pub record Iterator : Type 0 where
  pub nodes : List Write
  pub parent : List (Bytes × Bytes)
  pub prev_key : Option Bytes
  pub current : Option (Bytes × Bytes)
  pub start : Option Bytes
  pub prefix : Option Bytes
  pub inited : Bool

-- The two tests of `isSuitable`: the prefix, and being above the key before.
abbrev pub has_its_prefix : Option Bytes → Bytes → Bool
has_its_prefix none key = true
has_its_prefix (some p) key = has_prefix key p

abbrev pub is_after : Option Bytes → Bytes → Bool
is_after none key = true
is_after (some p) key = bytes_lt p key

-- A node with a value, `isSuitable` for its key: the iterator stops there, or goes on.
unfoldable pub take_node : Iterator → Bytes → Bytes → List Write → Bool × Iterator
take_node it k v later =
    if not (has_its_prefix it.prefix k)
    then (false, record it { nodes = [] })
    else if is_after it.prev_key k
    then (true, record it { nodes = later; current = some (k, v); prev_key = some k })
    else (false, record it { nodes = later })

-- The body of the inner loop, where a node without a value is a deleted key.
unfoldable pub visit_node : Iterator → Bytes → Option Bytes → List Write → Bool × Iterator
unfolding take_node
visit_node it k none later = (false, record it { nodes = later; prev_key = some k })
visit_node it k (some v) later = take_node it k v later

-- The key is not above that of the database's iterator, if this one stands at a pair.
unfoldable pub before_parent : List (Bytes × Bytes) → Bytes → Bool
before_parent [] k = true
before_parent ((j, w) ∷ later) k = not (bytes_lt j k)

-- The inner loop, over the nodes of the iterator while it has them (`treeOk`).
unfoldable pub tree_loop : List Write → Iterator → Bool × Iterator
unfolding visit_node before_parent
tree_loop [] it = (false, it)
tree_loop ((k, v) ∷ later) it = elim it.nodes [
  | [] ↦ (false, it)
  | _ ∷ _ ↦ elim (before_parent it.parent k) [
    | false ↦ (false, it)
    | true ↦
        let r = visit_node it k v later in
        elim r.0 [ true ↦ (true, r.1) | false ↦ tree_loop later r.1 ]
  ]
]

-- The end of the outer loop's body: the pair of the database's iterator.
unfoldable pub visit_parent : List (Bytes × Bytes) → Iterator → Bool × Iterator
visit_parent [] it = (false, it)
visit_parent ((j, w) ∷ later) it =
    if not (has_its_prefix it.prefix j)
    then (false, record it { parent = [] })
    else if is_after it.prev_key j
    then (true, record it { parent = later; current = some (j, w); prev_key = some j })
    else (false, record it { parent = later })

-- There is a node or a pair left: `treeOk || parentOk`.
abbrev pub is_left : {V : Type 0} → List (Bytes × V) → Bool
is_left [] = false
is_left (_ ∷ _) = true

-- The outer loop of `Next`; `none` means that the fuel ran out.
unfoldable pub next_loop : ℕ → Iterator → Option (Bool × Iterator)
unfolding tree_loop visit_parent
next_loop zero it = none
next_loop (suc fuel) it = elim (is_left it.nodes || is_left it.parent) [
  | false ↦ some (false, it)
  | true ↦
      let r = tree_loop it.nodes it in
      elim r.0 [
        | true ↦ some (true, r.1)
        | false ↦
            let q = visit_parent r.1.parent r.1 in
            elim q.0 [ true ↦ some (true, q.1) | false ↦ next_loop fuel q.1 ]
      ]
]

-- `Ceiling` of the tree: the nodes from the least key that is not below the start.
unfoldable pub ceiling : Bytes → List Write → List Write
ceiling start [] = []
ceiling start ((k, v) ∷ later) = if bytes_lt k start then ceiling start later else (k, v) ∷ later

-- The start of the first `Next`.
unfoldable pub init_iterator : Iterator → Iterator
unfolding ceiling
init_iterator it = if it.inited then it else record it {
  inited = true;
  nodes = elim it.start [ none ↦ it.nodes | some s ↦ ceiling s it.nodes ];
}

-- `Next`
unfoldable pub next : ℕ → Iterator → Option (Bool × Iterator)
unfolding init_iterator next_loop
next fuel it = next_loop fuel (init_iterator it)

-- The keys that an iterator is opened for: all, those not below a start, those with a prefix.
pub data Range : Type 0 where
  all_keys : Range
  keys_from : Bytes → Range
  keys_with : Bytes → Range

abbrev pub start_of : Range → Option Bytes
start_of all_keys = none
start_of (keys_from s) = some s
start_of (keys_with p) = some p

abbrev pub prefix_of : Range → Option Bytes
prefix_of all_keys = none
prefix_of (keys_from s) = none
prefix_of (keys_with p) = some p

-- `NewIterator`, `NewIteratorWithStart` and `NewIteratorWithPrefix`, over the pairs that the
-- database's iterator gives.
unfoldable pub new_iterator : {T : Type 0} → Tree T → Range → T → List (Bytes × Bytes) → Iterator
new_iterator tree range t pairs = record {
  nodes = tree.entries t;
  parent = pairs;
  prev_key = none;
  current = none;
  start = start_of range;
  prefix = prefix_of range;
  inited = false;
}

-- The pairs of a whole iteration: `for it.Next() { it.Key(); it.Value() }`. The fuel bounds the
-- rounds, and those of each `Next`.
unfoldable pub iterate : ℕ → ℕ → Iterator → Option (List (Bytes × Bytes))
unfolding next
iterate zero fuel it = none
iterate (suc rounds) fuel it = elim (next fuel it) [
  | none ↦ none
  | some (found, following) ↦ elim found [
    | false ↦ some []
    | true ↦ elim following.current [
      | none ↦ none
      | some entry ↦ elim (iterate rounds fuel following) [
        | none ↦ none
        | some entries ↦ some (entry ∷ entries)
      ]
    ]
  ]
]
