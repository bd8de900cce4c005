-- ===== src/Kvdb/Iterator/Pairs.antt =====
-- A visit of the iterator at a pair of the database.
use lachesis_ex.Prelude.{
  ◌≡◌, ◌⊎◌, inl, inr, refl, sym, ap, ap₂, ◌∙◌, true, false, List, ◌∷◌, Option, none, some, arith,
  Bool-cases,
}
use mathlib.Core.Path.{subst}
use lachesis_ex.Kvdb.{Bytes, bytes_eq}
use lachesis_ex.Kvdb.Writes.{over, bytes_eq-eq, bytes_eq_refl}
use lachesis_ex.Kvdb.Order.{find_key, Above, IsAscending, Above-trans, find_key-Above}
use lachesis_ex.Kvdb.Iterator.{Iterator, has_its_prefix, is_after, visit_parent}
use lachesis_ex.Kvdb.Iterator.Follows.{is_from, AllKeys, Follows, AllKeys-Above, find_key-below}
use lachesis_ex.Kvdb.Iterator.Visits.{Found, Outcome, ne-lt, is_after_trans}

module _ (contents : Bytes → Option Bytes) (start prefix : Option Bytes)
    (fits : (prefix ≡ none) ⊎ (start ≡ prefix)) where
  module _ (it : Iterator) (last : Option Bytes) (i : Bytes) (w : Bytes)
      (later : List (Bytes × Bytes)) (f : Follows contents start prefix it last)
      (e : it.parent ≡ (i, w) ∷ later) where
    -- A pair that is not after the key before is skipped.
    skipped_pair :
        is_after it.prev_key i ≡ false
        → Follows contents start prefix (record it { parent = later }) last
    unfolding find_key
    skipped_pair n = record {
      inited = f.inited;
      same_prefix = f.same_prefix;
      nodes_IsAscending = f.nodes_IsAscending;
      parent_IsAscending = (subst IsAscending e f.parent_IsAscending).1;
      nodes_after = f.nodes_after;
      nodes_from = f.nodes_from;
      parent_prefix = (subst (AllKeys (has_its_prefix prefix)) e f.parent_prefix).1;
      parent_from = (subst (AllKeys (is_from start)) e f.parent_from).1;
      reads = λ j wanted h.
          let next : find_key j ((i, w) ∷ later) ≡ find_key j later =
            elim (Bool-cases (bytes_eq i j)) [
              | inl same ↦
                  let both : is_after it.prev_key i ≡ true =
                    subst (λ x. is_after it.prev_key x ≡ true) (sym (bytes_eq-eq i j same)) h in
                  absurd (ground arith)
              | inr other ↦ rw other refl
            ] in
          ap (over (find_key j it.nodes)) (sym (ap (find_key j) e ∙ next)) ∙ f.reads j wanted h;
      behind = f.behind;
      passed = f.passed;
    }

    -- A pair after the key before, and below all nodes, is the next one.
    taken_pair :
        is_after it.prev_key i ≡ true
        → Above i it.nodes
        → Found contents start prefix fits last
            (record it { parent = later; current = some (i, w); prev_key = some i })
    unfolding find_key
    taken_pair after below =
        let (above, rest) = subst IsAscending e f.parent_IsAscending in
        let (from, all_from) = subst (AllKeys (is_from start)) e f.parent_from in
        let (has, all_has) = subst (AllKeys (has_its_prefix prefix)) e f.parent_prefix in
        let here : find_key i ((i, w) ∷ later) ≡ some w = rw (bytes_eq_refl i) refl in
        record {
          key = i;
          value = w;
          current = refl;
          is_next = record {
            wanted = (from, has);
            follows = f.behind i after;
            holds =
                sym (f.reads i (from, has) after)
                ∙ ap₂ over (find_key-Above i it.nodes below) (ap (find_key i) e ∙ here);
            least = λ j wanted h l. elim (Bool-cases (is_after it.prev_key j)) [
              | inr q ↦ f.passed j wanted h q
              | inl q ↦
                  sym (f.reads j wanted q)
                  ∙ ap₂ over (find_key-Above j it.nodes (Above-trans j i it.nodes l below))
                      (ap (find_key j) e ∙ find_key-below j i w later l above)
            ];
          };
          goes_on = record {
            inited = f.inited;
            same_prefix = f.same_prefix;
            nodes_IsAscending = f.nodes_IsAscending;
            parent_IsAscending = rest;
            nodes_after = AllKeys-Above i it.nodes below;
            nodes_from = f.nodes_from;
            parent_prefix = all_has;
            parent_from = all_from;
            reads = λ j wanted h.
                let next : find_key j ((i, w) ∷ later) ≡ find_key j later = rw (ne-lt i j h) refl in
                ap (over (find_key j it.nodes)) (sym (ap (find_key j) e ∙ next))
                ∙ f.reads j wanted (is_after_trans it.prev_key i j after h);
            behind = λ j h. h;
            passed = λ j wanted h l. absurd (ground arith);
          };
        }

    pub visit_parent-Outcome :
        Above i it.nodes
        → Outcome contents start prefix fits last (visit_parent ((i, w) ∷ later) it)
    unfolding visit_parent
    visit_parent-Outcome below =
        let (has, all_has) = subst (AllKeys (has_its_prefix prefix)) e f.parent_prefix in
        let ours : has_its_prefix it.prefix i ≡ true =
          subst (λ p. has_its_prefix p i ≡ true) (sym f.same_prefix) has in
        elim (Bool-cases (is_after it.prev_key i)) [
          | inl q ↦ rw (ours, visit_parent) (rw (q, visit_parent) (taken_pair q below))
          | inr q ↦ rw (ours, visit_parent) (rw (q, visit_parent) (skipped_pair q))
        ]
