-- ===== src/Kvdb/Iterator/Nodes.antt =====
-- A visit of the iterator at a node of the cache.
use lachesis_ex.Prelude.{
  ◌≡◌, ◌⊎◌, inl, inr, refl, sym, ap, ap₂, ◌∙◌, true, false, List, [], ◌∷◌, Option, none, some,
  arith, Bool-cases,
}
use mathlib.Core.Path.{subst}
use lachesis_ex.Kvdb.{Bytes, Write}
use lachesis_ex.Kvdb.Writes.{over, bytes_eq_refl}
use lachesis_ex.Kvdb.Order.{bytes_lt, find_key, IsAscending}
use lachesis_ex.Kvdb.Iterator.{
  Iterator, has_its_prefix, is_after, take_node, visit_node, before_parent,
}
use lachesis_ex.Kvdb.Iterator.Follows.{
  is_from, IsWanted, AllKeys, Follows, not_lt-cases, AllKeys-Above, find_key-below,
}
use lachesis_ex.Kvdb.Iterator.Visits.{Outcome, find_key-before, ne-lt, is_after_trans, foreign-none}

module _ (contents : Bytes → Option Bytes) (start prefix : Option Bytes)
    (fits : (prefix ≡ none) ⊎ (start ≡ prefix)) where
  module _ (it : Iterator) (last : Option Bytes) (k : Bytes)
      (f : Follows contents start prefix it last) where
    -- Between the last key and that of the first node, nothing is left.
    before_node :
        (v : Option Bytes) (later : List Write) (j : Bytes)
        → it.nodes ≡ (k, v) ∷ later
        → before_parent it.parent k ≡ true
        → IsWanted start prefix j
        → is_after last j ≡ true
        → bytes_lt j k ≡ true
        → contents j ≡ none
    before_node v later j e b w h l = elim (Bool-cases (is_after it.prev_key j)) [
      | inr q ↦ f.passed j w h q
      | inl q ↦
          let (above, rest) = subst IsAscending e f.nodes_IsAscending in
          sym (f.reads j w q)
          ∙ ap₂ over (ap (find_key j) e ∙ find_key-below j k v later l above)
              (find_key-before j k it.parent b f.parent_IsAscending l)
    ]

    -- The value at the first node.
    at_node :
        (v : Option Bytes) (later : List Write)
        → it.nodes ≡ (k, v) ∷ later
        → IsWanted start prefix k
        → contents k ≡ v
    unfolding find_key
    at_node v later e w =
        let (after, rest) = subst (AllKeys (is_after it.prev_key)) e f.nodes_after in
        let here : find_key k ((k, v) ∷ later) ≡ some v = rw (bytes_eq_refl k) refl in
        sym (f.reads k w after) ∙ ap (λ x. over x (find_key k it.parent)) (ap (find_key k) e ∙ here)

    -- The iterator after the first node, where all up to its key is given.
    after_node :
        (v : Option Bytes) (later : List Write) (entry : Option (Bytes × Bytes))
        (given : Option Bytes)
        → it.nodes ≡ (k, v) ∷ later
        → ((j : Bytes) → bytes_lt k j ≡ true → is_after given j ≡ true)
        → ((j : Bytes)
            → IsWanted start prefix j
            → is_after given j ≡ true
            → bytes_lt k j ≡ false
            → contents j ≡ none)
        → Follows contents start prefix
            (record it { nodes = later; current = entry; prev_key = some k })
            given
    unfolding find_key
    after_node v later entry given e behind passed =
        let (above, rest) = subst IsAscending e f.nodes_IsAscending in
        let (after, all) = subst (AllKeys (is_after it.prev_key)) e f.nodes_after in
        record {
          inited = f.inited;
          same_prefix = f.same_prefix;
          nodes_IsAscending = rest;
          parent_IsAscending = f.parent_IsAscending;
          nodes_after = AllKeys-Above k later above;
          nodes_from = (subst (AllKeys (is_from start)) e f.nodes_from).1;
          parent_prefix = f.parent_prefix;
          parent_from = f.parent_from;
          reads = λ j w h.
              let next : find_key j ((k, v) ∷ later) ≡ find_key j later = rw (ne-lt k j h) refl in
              ap (λ x. over x (find_key j it.parent)) (sym (ap (find_key j) e ∙ next))
              ∙ f.reads j w (is_after_trans it.prev_key k j after h);
          behind = behind;
          passed = passed;
        }

    -- All up to the key of a deleted node.
    deleted_node :
        (later : List Write) (j : Bytes)
        → it.nodes ≡ (k, none) ∷ later
        → before_parent it.parent k ≡ true
        → IsWanted start prefix j
        → is_after last j ≡ true
        → bytes_lt k j ≡ false
        → contents j ≡ none
    deleted_node later j e b w h l = elim (not_lt-cases j k l) [
      | inl same ↦ ap contents same ∙ at_node none later e (subst (IsWanted start prefix) same w)
      | inr below ↦ before_node none later j e b w h below
    ]

    -- A node without the prefix is the last one that is looked at.
    foreign_node :
        (v : Option Bytes) (later : List Write)
        → it.nodes ≡ (k, v) ∷ later
        → has_its_prefix prefix k ≡ false
        → Follows contents start prefix (record it { nodes = [] }) last
    unfolding find_key
    foreign_node v later e n = record {
      inited = f.inited;
      same_prefix = f.same_prefix;
      nodes_IsAscending = tt;
      parent_IsAscending = f.parent_IsAscending;
      nodes_after = tt;
      nodes_from = tt;
      parent_prefix = f.parent_prefix;
      parent_from = f.parent_from;
      reads = λ j w h.
          let gone : find_key j it.nodes ≡ none =
            ap (find_key j) e
            ∙ foreign-none start prefix k j v later fits
                (subst (AllKeys (is_from start)) e f.nodes_from).0 n
                (subst IsAscending e f.nodes_IsAscending).0 w in
          ap (λ x. over x (find_key j it.parent)) (sym gone) ∙ f.reads j w h;
      behind = f.behind;
      passed = f.passed;
    }

    take_node-Outcome :
        (v : Bytes) (later : List Write)
        → it.nodes ≡ (k, some v) ∷ later
        → before_parent it.parent k ≡ true
        → Outcome contents start prefix fits last (take_node it k v later)
    unfolding take_node
    take_node-Outcome v later e b =
        let (after, all) = subst (AllKeys (is_after it.prev_key)) e f.nodes_after in
        let (from, others) = subst (AllKeys (is_from start)) e f.nodes_from in
        elim (Bool-cases (has_its_prefix it.prefix k)) [
          | inr q ↦
              rw (q, take_node)
                (foreign_node (some v) later e
                  (subst (λ p. has_its_prefix p k ≡ false) f.same_prefix q))
          | inl q ↦
              rw (q, take_node)
                (rw (after, take_node)
                  (record {
                    key = k;
                    value = v;
                    current = refl;
                    is_next = record {
                      wanted = (from, subst (λ p. has_its_prefix p k ≡ true) f.same_prefix q);
                      follows = f.behind k after;
                      holds =
                          at_node (some v) later e
                            (from, subst (λ p. has_its_prefix p k ≡ true) f.same_prefix q);
                      least = λ j w h l. before_node (some v) later j e b w h l;
                    };
                    goes_on =
                        after_node (some v) later (some (k, v)) (some k) e (λ j h. h)
                          (λ j w h l. absurd (ground arith));
                  }))
        ]

    pub visit_node-Outcome :
        (v : Option Bytes) (later : List Write)
        → it.nodes ≡ (k, v) ∷ later
        → before_parent it.parent k ≡ true
        → Outcome contents start prefix fits last (visit_node it k v later)
    unfolding visit_node
    visit_node-Outcome none later e b =
        let (after, all) = subst (AllKeys (is_after it.prev_key)) e f.nodes_after in
        after_node none later it.current last e
          (λ j h. is_after_trans last k j (f.behind k after) h)
          (λ j w h l. deleted_node later j e b w h l)
    visit_node-Outcome (some v) later e b = take_node-Outcome v later e b
