-- ===== src/Poset/Ordering/Stable.antt =====
-- The order of a block's events is the same on every node.
use lachesis_ex.Prelude.{
  ℕ, ◌≡◌, refl, sym, ap, ◌∙◌, Bool, List, [], ◌∷◌, map, Perm, ltb, ◌==◌, if◌then◌else◌, arith,
}
use mathlib.Core.List.Perm
use lachesis_ex.Prelude.Sort.{sort, insert_sorted, sort-perm_eq, IsStrict}
use lachesis_ex.Inter.{EventHeaderData}
use lachesis_ex.Poset.Ordering.{before, fare_ordering}

-- All that the sort reads of an event: its Lamport time and its id.
abbrev key : EventHeaderData → ℕ × ℕ
key e = (e.lamport, e.hash)

abbrev key_less : ℕ × ℕ → ℕ × ℕ → Bool
key_less (l, h) (m, k) = if l == m then ltb h k else ltb l m

key_less-IsStrict : IsStrict key_less
key_less-IsStrict = record {
  asymm = λ (l, h) (m, k) e. ground arith;
  trans = λ (l, h) (m, k) (n, i) e f. ground arith;
  connected = λ (l, h) (m, k) e f. ground arith;
}

insert_sorted-map :
    (e : EventHeaderData) (es : List EventHeaderData)
    → insert_sorted key_less (key e) (map key es) ≡ map key (insert_sorted before e es)
insert_sorted-map e [] = refl
insert_sorted-map e (d ∷ es) = ground (arith, insert_sorted-map e es)

sort-map : (es : List EventHeaderData) → sort key_less (map key es) ≡ map key (sort before es)
sort-map [] = refl
sort-map (e ∷ es) =
    ap (insert_sorted key_less (key e)) (sort-map es) ∙ insert_sorted-map e (sort before es)

map-key : (es : List EventHeaderData) → map (λ k. k.1) (map key es) ≡ map (λ e. e.hash) es
map-key [] = refl
map-key (e ∷ es) = ap (λ l. e.hash ∷ l) (map-key es)

fare_ordering-sort :
    (es : List EventHeaderData) → fare_ordering es ≡ map (λ k. k.1) (sort key_less (map key es))
unfolding fare_ordering
fare_ordering-sort es = sym (ap (map (λ k. k.1)) (sort-map es) ∙ map-key (sort before es))

-- The order of a block's events does not depend on the order in which they were confirmed.
pub fare_ordering-perm :
    (es ds : List EventHeaderData) → Perm es ds → fare_ordering es ≡ fare_ordering ds
fare_ordering-perm es ds p =
    fare_ordering-sort es
    ∙ ap (map (λ k. k.1)) (sort-perm_eq key_less key_less-IsStrict (hlevel) (Perm.map key p))
    ∙ sym (fare_ordering-sort ds)
