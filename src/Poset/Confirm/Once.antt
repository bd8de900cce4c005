-- ===== src/Poset/Confirm/Once.antt =====
-- An Atropos confirms just its ancestors that no frame before has confirmed, each of them once.
use lachesis_ex.Prelude.{
  ℕ, ◌<◌, ◌≡◌, ◌↔◌, ◌⊎◌, inl, inr, refl, sym, ap, ◌∙◌, true, List, [], ◌∷◌, some, ◌==◌,
  if◌then◌else◌, arith, Holds, Bool-cases, ==_iff,
}
use mathlib.Core.Option.{some-injective}
use mathlib.Core.Path.{subst}
use lachesis_ex.Prelude.Assoc.{lookup, insert}
use lachesis_ex.Inter.{EventHeaderData}
use lachesis_ex.Walk.{push_all, done}
use lachesis_ex.Walk.Rule.{Holds-push_all, Visited, walk_rule}
use lachesis_ex.Poset.Confirm.{
  Headers, confirmed_on, confirm_event, visit_event, confirm_events, count_parents,
}
use lachesis_ex.Poset.Confirm.Ancestors.{
  AllStored, Ancestor, Distinct, IsClosed, IsStored, confirmed_on-insert, fold_calls, has,
  left_parents, left_parents-le, left_parents_pays,
}

module _ {ℓ} {A : Type ℓ} (headers : Headers) (stored : IsStored headers) (frame : ℕ)
    (some_frame : 0 < frame) (call : A → EventHeaderData → A) (before : List (ℕ × ℕ)) (start : A)
    (atropos : ℕ) where
  -- What the walk has done when the ids of the stack are left to visit.
  record Inv (stack : List ℕ) (s : List (ℕ × ℕ) × A) : Type ℓ where
    known : (id : ℕ) → Holds id stack → (h : EventHeaderData) × (lookup id headers ≡ some h)
    walked : (id : ℕ) → Holds id stack → Ancestor headers atropos id
    closed :
        (id : ℕ) (h : EventHeaderData)
        → 0 < confirmed_on s.0 id
        → lookup id headers ≡ some h
        → (p : ℕ) → Holds p h.parents
        → (0 < confirmed_on s.0 p) ⊎ Holds p stack
    head : (0 < confirmed_on s.0 atropos) ⊎ Holds atropos stack
    news : List EventHeaderData
    folded : s.1 ≡ fold_calls call start news
    distinct : Distinct news
    from_storage : AllStored headers news
    fresh :
        (id : ℕ) → has id news ≡ true → (confirmed_on before id ≡ 0) × Ancestor headers atropos id
    values :
        (id : ℕ) → confirmed_on s.0 id ≡ (if has id news then frame else confirmed_on before id)

  -- A visit that is turned away.
  skip-Inv :
      (id : ℕ) (stack : List ℕ) (s : List (ℕ × ℕ) × A)
      → 0 < confirmed_on s.0 id
      → Inv (id ∷ stack) s
      → Inv stack s
  skip-Inv id stack s c j = record {
    known = λ i h. j.known i (inr h);
    walked = λ i h. j.walked i (inr h);
    closed = λ i h pos l p own. elim (j.closed i h pos l p own) [
      | inl q ↦ inl q
      | inr (inl e) ↦ inl (rw e c)
      | inr (inr q) ↦ inr q
    ];
    head = elim j.head [ inl q ↦ inl q | inr (inl e) ↦ inl (rw e c) | inr (inr q) ↦ inr q ];
    news = j.news;
    folded = j.folded;
    distinct = j.distinct;
    from_storage = j.from_storage;
    fresh = j.fresh;
    values = j.values;
  }

  -- A visit that confirms an event.
  confirm-Inv :
      (h : EventHeaderData) (stack : List ℕ) (table : List (ℕ × ℕ)) (a : A)
      → lookup h.hash headers ≡ some h
      → confirmed_on table h.hash ≡ 0
      → Inv (h.hash ∷ stack) (table, a)
      → Inv (push_all h.parents stack) (insert h.hash frame table, call a h)
  confirm-Inv h stack table a l c j =
      let own = j.walked h.hash (inl refl) in
      record {
        known = λ i q. elim ((Holds-push_all i h.parents stack).0 q) [
          | inl p ↦ stored.parents_first h.hash h l i p
          | inr r ↦ j.known i (inr r)
        ];
        walked = λ i q. elim ((Holds-push_all i h.parents stack).0 q) [
          | inl p ↦ Ancestor.parent_of h own l p
          | inr r ↦ j.walked i (inr r)
        ];
        closed = λ i g pos found p parent. elim (Bool-cases (h.hash == i)) [
          | inl e ↦
              let at_i : h.hash ≡ i = (==_iff h.hash i).0 e in
              let same : h ≡ g =
                some-injective h g (sym l ∙ ap (λ k. lookup k headers) at_i ∙ found) in
              inr (
                (Holds-push_all p h.parents stack).1
                  (inl (subst (λ x. Holds p x.parents) (sym same) parent)))
          | inr e ↦ later p (
              j.closed i g (ground (arith, confirmed_on-insert h.hash frame i table)) found p
                parent)
        ];
        head = later atropos j.head;
        news = h ∷ j.news;
        folded = ap (λ x. call x h) j.folded;
        distinct = (ground (arith, j.values h.hash), j.distinct);
        from_storage = (l, j.from_storage);
        fresh = λ i q. elim (Bool-cases (h.hash == i)) [
          | inl e ↦
              let at_i : h.hash ≡ i = (==_iff h.hash i).0 e in
              subst (λ k. (confirmed_on before k ≡ 0) × Ancestor headers atropos k) at_i
                (ground (arith, j.values h.hash), own)
          | inr e ↦ j.fresh i (rw e at q)
        ];
        values = λ i. ground (arith, j.values i, confirmed_on-insert h.hash frame i table);
      }
    where
      later :
          (p : ℕ)
          → (0 < confirmed_on table p) ⊎ Holds p (h.hash ∷ stack)
          → (0 < confirmed_on (insert h.hash frame table) p) ⊎ Holds p (push_all h.parents stack)
      later p (inl q) = inl (ground (arith, confirmed_on-insert h.hash frame p table))
      later p (inr (inl e)) = inl (ground (arith, confirmed_on-insert h.hash frame p table))
      later p (inr (inr q)) = inr ((Holds-push_all p h.parents stack).1 (inr q))

  visit-Inv :
      (h : EventHeaderData) (stack : List ℕ) (table : List (ℕ × ℕ)) (a : A)
      → lookup h.hash headers ≡ some h
      → Inv (h.hash ∷ stack) (table, a)
      → Visited
          (visit_event headers frame call)
          Inv
          (λ s. left_parents headers s.0)
          stack
          (table, a)
          (visit_event headers frame call (table, a) h.hash)
  unfolding visit_event confirm_event push_all
  visit-Inv h stack table a l j = elim (Bool-cases (confirmed_on table h.hash == 0)) [
    | inl e ↦
        let none_yet : confirmed_on table h.hash ≡ 0 = (==_iff (confirmed_on table h.hash) 0).0 e in
        record {
          next = (insert h.hash frame table, call a h);
          parents = h.parents;
          is = rw (l, e, visit_event) refl;
          kept = confirm-Inv h stack table a l none_yet j;
          paid = left_parents_pays headers table h.hash frame h some_frame l none_yet;
        }
    | inr e ↦ record {
      next = (table, a);
      parents = [];
      is = rw (l, e, visit_event) refl;
      kept = skip-Inv h.hash stack (table, a) (ground arith) j;
      paid = omega arith;
    }
  ]

  -- What is confirmed when the walk has ended with the table and the state of the callback.
  pub record Confirmed (s : List (ℕ × ℕ) × A) : Type ℓ where
    pub news : List EventHeaderData
    pub calls : s.1 ≡ fold_calls call start news
    pub distinct : Distinct news
    pub from_storage : AllStored headers news
    pub exact :
        (id : ℕ)
        → (has id news ≡ true) ↔ ((confirmed_on before id ≡ 0) × Ancestor headers atropos id)
    pub values :
        (id : ℕ) → confirmed_on s.0 id ≡ (if has id news then frame else confirmed_on before id)
    pub closed : IsClosed headers s.0

  Inv-Confirmed : (s : List (ℕ × ℕ) × A) → Inv [] s → Confirmed s
  Inv-Confirmed s j = record {
    news = j.news;
    calls = j.folded;
    distinct = j.distinct;
    from_storage = j.from_storage;
    exact = λ id. (j.fresh id, λ (c, up). ground (arith, j.values id, reached id up));
    values = j.values;
    closed = λ id h pos l p own. settled p (j.closed id h pos l p own);
  }
    where
      settled : (p : ℕ) → (0 < confirmed_on s.0 p) ⊎ Holds p [] → 0 < confirmed_on s.0 p
      settled p (inl q) = q
      settled p (inr q) = absurd q

      reached : (id : ℕ) → Ancestor headers atropos id → 0 < confirmed_on s.0 id
      reached _ Ancestor.itself = settled atropos j.head
      reached _ (Ancestor.parent_of {id} {p} h up l own) =
          settled p (j.closed id h (reached id up) l p own)

  -- With fuel for one id more than there are parents, confirming ends. It confirms on the frame
  -- just those ancestors of the Atropos, itself included, that were not confirmed before, calls
  -- the callback once for each of them, and leaves every other event as it was. Afterwards, as
  -- before, the parents of a confirmed event are confirmed. The events are stored under their
  -- ids and after their parents, and the frame is not 0.
  pub confirm_events-Confirmed :
      (fuel : ℕ) (h : EventHeaderData)
      → lookup atropos headers ≡ some h
      → IsClosed headers before
      → count_parents headers < fuel
      → (s : List (ℕ × ℕ) × A) × (confirm_events headers frame call fuel atropos (before, start)
          ≡ done s)
        × Confirmed s
  unfolding confirm_events
  confirm_events-Confirmed fuel h l c f =
      let (s, ends, j) =
        walk_rule (visit_event headers frame call) Inv (λ s. left_parents headers s.0) visit fuel
          (atropos ∷ []) (before, start) first (omega (arith, left_parents-le headers before)) in
      (s, ends, Inv-Confirmed s j)
    where
      visit :
          (id : ℕ) (stack : List ℕ) (s : List (ℕ × ℕ) × A)
          → Inv (id ∷ stack) s
          → Visited
              (visit_event headers frame call)
              Inv
              (λ s. left_parents headers s.0)
              stack
              s
              (visit_event headers frame call s id)
      visit id stack (table, a) j =
          let (g, found) = j.known id (inl refl) in
          let same : g.hash ≡ id = stored.by_id id g found in
          subst
            (λ k.
              Inv (k ∷ stack) (table, a)
              → Visited (visit_event headers frame call) Inv (λ s. left_parents headers s.0) stack
                  (table, a) (visit_event headers frame call (table, a) k))
            same (visit-Inv g stack table a (ap (λ k. lookup k headers) same ∙ found)) j

      first : Inv (atropos ∷ []) (before, start)
      first = record {
        known = λ id q. elim q [ inl e ↦ (h, rw e l) | inr q ↦ absurd q ];
        walked = λ id q. elim q [ inl e ↦ rw e Ancestor.itself | inr q ↦ absurd q ];
        closed = λ id g pos found p own. inl (c id g pos found p own);
        head = inr (inl refl);
        news = [];
        folded = refl;
        distinct = tt;
        from_storage = tt;
        fresh = λ id q. ground arith;
        values = λ id. refl;
      }
