-- ===== src/Vector/Lowest/Reached.antt =====
-- After the walk of a new event, all that it observes is marked for its branch.
use lachesis_ex.Prelude.{
  ℕ, ◌+◌, ◌≤◌, ◌<◌, ◌≡◌, ◌⊎◌, inl, inr, refl, sym, ap, ◌∙◌, List, [], ◌∷◌, some, length, ◌==◌,
  ==_iff, if◌then◌else◌, arith, Holds, Bool-cases, word32,
}
use mathlib.Core.Path.{subst}
use mathlib.Core.Option.{some-injective}
use lachesis_ex.Prelude.Assoc.{lookup}
use lachesis_ex.Inter.{EventHeaderData}
use lachesis_ex.Walk.{push_all, done}
use lachesis_ex.Walk.Rule.{length-push_all, Holds-push_all, Visited, walk_rule}
use lachesis_ex.Vector.Lowest.{on_walk, walk_observed}
use lachesis_ex.Vector.Lowest.Marks.{
  Headers, reached, AllAligned, left, all_parents, left-le, write, write-AllAligned, reached-write,
  left-write,
}

-- What a new event with these parents observes, but for itself.
pub data Observed (headers : Headers) (parents : List ℕ) : ℕ → Type 0 where
  direct : {p : ℕ} → Holds p parents → Observed headers parents p
  through :
      {id p : ℕ} (h : EventHeaderData)
      → Observed headers parents id
      → lookup id headers ≡ some h
      → Holds p h.parents
      → Observed headers parents p

module _ (branch seq : ℕ) (positive : 0 < seq) (small : seq < word32) where
  module _ (headers : Headers)
      (stored : (id : ℕ) (h : EventHeaderData)
        → lookup id headers ≡ some h
        → (p : ℕ) → Holds p h.parents
        → (g : EventHeaderData) × (lookup p headers ≡ some g))
      (parents : List ℕ) (before : List (ℕ × List ℕ)) where
    record Inv (stack : List ℕ) (s : List (ℕ × List ℕ)) : Type 0 where
      aligned : AllAligned s
      known : (id : ℕ) → Holds id stack → (h : EventHeaderData) × (lookup id headers ≡ some h)
      walked : (id : ℕ) → Holds id stack → Observed headers parents id
      closed :
          (id : ℕ) (h : EventHeaderData)
          → 0 < reached s branch id
          → lookup id headers ≡ some h
          → (p : ℕ) → Holds p h.parents
          → (0 < reached s branch p) ⊎ Holds p stack
      heads : (p : ℕ) → Holds p parents → (0 < reached s branch p) ⊎ Holds p stack
      values :
          (id : ℕ)
          → (reached s branch id ≡ reached before branch id)
            ⊎ ((reached before branch id ≡ 0)
                × (reached s branch id ≡ seq)
                × Observed headers parents id)

    skip-Inv :
        (id : ℕ) (stack : List ℕ) (s : List (ℕ × List ℕ))
        → 0 < reached s branch id
        → Inv (id ∷ stack) s
        → Inv stack s
    skip-Inv id stack s c j = record {
      aligned = j.aligned;
      known = λ i h. j.known i (inr h);
      walked = λ i h. j.walked i (inr h);
      closed = λ i h pos l p own. there p (j.closed i h pos l p own);
      heads = λ p own. there p (j.heads p own);
      values = j.values;
    }
      where
        there :
            (p : ℕ)
            → (0 < reached s branch p) ⊎ Holds p (id ∷ stack)
            → (0 < reached s branch p) ⊎ Holds p stack
        there p (inl q) = inl q
        there p (inr (inl e)) = inl (rw e c)
        there p (inr (inr q)) = inr q

    mark-Inv :
        (id : ℕ) (h : EventHeaderData) (stack : List ℕ) (s : List (ℕ × List ℕ))
        → lookup id headers ≡ some h
        → reached s branch id ≡ 0
        → Inv (id ∷ stack) s
        → Inv (push_all h.parents stack) (write branch seq positive small s id)
    mark-Inv id h stack s l c j = record {
      aligned = write-AllAligned branch seq positive small s id j.aligned;
      known = λ i q. elim ((Holds-push_all i h.parents stack).0 q) [
        | inl p ↦ stored id h l i p
        | inr r ↦ j.known i (inr r)
      ];
      walked = λ i q. elim ((Holds-push_all i h.parents stack).0 q) [
        | inl p ↦ Observed.through h (j.walked id (inl refl)) l p
        | inr r ↦ j.walked i (inr r)
      ];
      closed = λ i g pos found p own. elim (Bool-cases (id == i)) [
        | inl e ↦
            let same : h ≡ g =
              some-injective h g (sym l ∙ ap (λ k. lookup k headers) ((==_iff id i).0 e) ∙ found) in
            inr (
              (Holds-push_all p h.parents stack).1
                (inl (subst (λ x. Holds p x.parents) (sym same) own)))
        | inr e ↦ later p (
            j.closed i g (ground (arith, reached-write branch seq positive small s id i j.aligned))
              found p own)
      ];
      heads = λ p own. later p (j.heads p own);
      values = λ i. elim (Bool-cases (id == i)) [
        | inl e ↦ inr (
          was_zero i ((==_iff id i).0 e),
          rw (reached-write branch seq positive small s id i j.aligned, e) refl,
          subst (λ k. Observed headers parents k) ((==_iff id i).0 e) (j.walked id (inl refl)),
        )
        | inr e ↦
            let stays : reached (write branch seq positive small s id) branch i
                ≡ reached s branch i =
              rw (reached-write branch seq positive small s id i j.aligned, e) refl in
            elim (j.values i) [ inl q ↦ inl (stays ∙ q) | inr (z, r, o) ↦ inr (z, stays ∙ r, o) ]
      ];
    }
      where
        later :
            (p : ℕ)
            → (0 < reached s branch p) ⊎ Holds p (id ∷ stack)
            → (0 < reached (write branch seq positive small s id) branch p)
              ⊎ Holds p (push_all h.parents stack)
        later p (inl q) =
            inl (ground (arith, reached-write branch seq positive small s id p j.aligned))
        later p (inr (inl e)) =
            inl (ground (arith, reached-write branch seq positive small s id p j.aligned))
        later p (inr (inr q)) = inr ((Holds-push_all p h.parents stack).1 (inr q))

        was_zero : (i : ℕ) → id ≡ i → reached before branch i ≡ 0
        was_zero i e =
            let here : reached s branch i ≡ 0 = ap (λ k. reached s branch k) (sym e) ∙ c in
            elim (j.values i) [ inl q ↦ sym q ∙ here | inr (z, _, _) ↦ z ]

    visit-Inv :
        (id : ℕ) (stack : List ℕ) (s : List (ℕ × List ℕ))
        → Inv (id ∷ stack) s
        → Visited
            (on_walk headers branch seq)
            Inv
            (left headers branch)
            stack
            s
            (on_walk headers branch seq s id)
    unfolding on_walk reached write push_all
    visit-Inv id stack s j =
        let (h, l) = j.known id (inl refl) in
        elim (Bool-cases (reached s branch id == 0)) [
          | inl e ↦
              let none_yet : reached s branch id ≡ 0 = (==_iff (reached s branch id) 0).0 e in
              record {
                next = write branch seq positive small s id;
                parents = h.parents;
                is = rw (e, l) refl;
                kept = mark-Inv id h stack s l none_yet j;
                paid = left-write branch seq positive small headers s id h j.aligned l none_yet;
              }
          | inr e ↦ record {
            next = s;
            parents = [];
            is = rw e refl;
            kept = skip-Inv id stack s (ground arith) j;
            paid = omega arith;
          }
        ]

    -- The walk of a new event ends, with fuel for as many ids as all headers and the event have
    -- parents. Afterwards the branch has a number for all that the event observes: the number it
    -- had before, or else the event's; and no other event's number changes. The events are stored
    -- after their parents, the observed events of the branch were closed under parents, the vectors
    -- are whole entries of 32 bits, and the event's number is not 0.
    pub walk_observed-Observed :
        (fuel : ℕ)
        → AllAligned before
        → ((p : ℕ) → Holds p parents → (h : EventHeaderData) × (lookup p headers ≡ some h))
        → ((id : ℕ) (h : EventHeaderData)
            → 0 < reached before branch id
            → lookup id headers ≡ some h
            → (p : ℕ) → Holds p h.parents
            → 0 < reached before branch p)
        → length parents + all_parents headers ≤ fuel
        → (t : List (ℕ × List ℕ)) × (walk_observed headers branch seq fuel parents before ≡ done t)
          × ((id : ℕ)
              → Observed headers parents id
              → reached t branch id
                ≡ (if reached before branch id == 0 then seq else reached before branch id))
          × ((id : ℕ)
              → (reached t branch id ≡ reached before branch id)
                ⊎ ((reached before branch id ≡ 0)
                    × (reached t branch id ≡ seq)
                    × Observed headers parents id))
    unfolding walk_observed
    walk_observed-Observed fuel aligned found closed enough =
        let (t, ends, j) =
          walk_rule (on_walk headers branch seq) Inv (left headers branch) visit-Inv fuel
            (push_all parents []) before first
            (omega (arith, length-push_all parents [], left-le headers branch before, enough)) in
        (t, ends, (λ id o. value t j id (positive_at t j id o)), j.values)
      where
        first : Inv (push_all parents []) before
        first = record {
          aligned = aligned;
          known = λ p q. elim ((Holds-push_all p parents []).0 q) [
            | inl own ↦ found p own
            | inr none_left ↦ absurd none_left
          ];
          walked = λ p q. elim ((Holds-push_all p parents []).0 q) [
            | inl own ↦ Observed.direct own
            | inr none_left ↦ absurd none_left
          ];
          closed = λ id h pos l p own. inl (closed id h pos l p own);
          heads = λ p own. inr ((Holds-push_all p parents []).1 (inl own));
          values = λ id. inl refl;
        }

        settled :
            (t : List (ℕ × List ℕ)) (p : ℕ)
            → (0 < reached t branch p) ⊎ Holds p []
            → 0 < reached t branch p
        settled t p (inl q) = q
        settled t p (inr q) = absurd q

        positive_at :
            (t : List (ℕ × List ℕ))
            → Inv [] t
            → (id : ℕ) → Observed headers parents id
            → 0 < reached t branch id
        positive_at t j _ (Observed.direct {p} own) = settled t p (j.heads p own)
        positive_at t j _ (Observed.through {id} {p} h o l own) =
            settled t p (j.closed id h (positive_at t j id o) l p own)

        value :
            (t : List (ℕ × List ℕ))
            → Inv [] t
            → (id : ℕ) → 0 < reached t branch id
            → reached t branch id
              ≡ (if reached before branch id == 0 then seq else reached before branch id)
        value t j id pos = elim (j.values id) [ inl q ↦ ground arith | inr (z, r, o) ↦ rw z r ]
