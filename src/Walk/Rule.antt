-- ===== src/Walk/Rule.antt =====
-- The rule for walks: a measure that pays for what is pushed, and an invariant of the stack.
use lachesis_ex.Prelude.{
  ℕ, zero, suc, ◌+◌, ◌≤◌, ◌≡◌, ◌≢◌, refl, List, [], ◌∷◌, Option, some, length, arith, ◌⊎◌, ◌↔◌, inl,
  inr, Holds, Option-cases,
}
use lachesis_ex.Walk.{push_all, done, out_of_fuel, walk}

pub length-push_all : (ids stack : List ℕ) → length (push_all ids stack) ≡ length ids + length stack
unfolding push_all
length-push_all [] stack = omega arith
length-push_all (id ∷ ids) stack = omega (arith, length-push_all ids (id ∷ stack))

pub Holds-push_all :
    (p : ℕ) (ids stack : List ℕ) → Holds p (push_all ids stack) ↔ (Holds p ids ⊎ Holds p stack)
unfolding push_all
Holds-push_all p [] stack = (inr, λ h. elim h [ inl a ↦ absurd a | inr b ↦ b ])
Holds-push_all p (i ∷ is) stack =
    let (to, from) = Holds-push_all p is (i ∷ stack) in
    (
      λ h. elim (to h) [ inl a ↦ inl (inr a) | inr (inl e) ↦ inl (inl e) | inr (inr b) ↦ inr b ],
      λ h. elim h [
        | inl (inl e) ↦ from (inr (inl e))
        | inl (inr a) ↦ from (inl a)
        | inr b ↦ from (inr (inr b))
      ],
    )

module _ {ℓ κ} {S : Type ℓ} (visit : S → ℕ → Option (S × List ℕ)) (J : List ℕ → S → Type κ)
    (left : S → ℕ) where
  -- What a visit of the top of the stack does under the rule.
  pub record Visited (stack : List ℕ) (s : S) (o : Option (S × List ℕ)) : Type (ℓ ⊔ κ) where
    pub next : S
    pub parents : List ℕ
    pub is : o ≡ some (next, parents)
    pub kept : J (push_all parents stack) next
    pub paid : left next + length parents ≤ left s

  -- With fuel for the stack and for all that can still be pushed, the walk ends, and the
  -- invariant holds of the empty stack.
  pub walk_rule :
      ((id : ℕ) (stack : List ℕ) (s : S) → J (id ∷ stack) s → Visited stack s (visit s id))
      → (fuel : ℕ) (stack : List ℕ) (s : S) → J stack s
      → length stack + left s ≤ fuel
      → (t : S) × (walk visit fuel stack s ≡ done t) × J [] t
  unfolding walk
  walk_rule step zero [] s j f = (s, refl, j)
  walk_rule step (suc fuel) [] s j f = (s, refl, j)
  walk_rule step zero (id ∷ stack) s j f = absurd (omega arith)
  walk_rule step (suc fuel) (id ∷ stack) s j f =
      let v = step id stack s j in
      let (t, ends, end) =
        walk_rule step fuel (push_all v.parents stack) v.next v.kept
          (omega (arith, length-push_all v.parents stack, v.paid)) in
      (t, rw (v.is, walk) ends, end)

module _ {ℓ} {S : Type ℓ} (visit : S → ℕ → Option (S × List ℕ)) (left : S → ℕ)
    (paid : (id : ℕ) (s next : S) (parents : List ℕ)
      → visit s id ≡ some (next, parents)
      → left next + length parents ≤ left s) where
  -- The walk does not run out of fuel, whether or not it finds all events.
  pub walk-ends :
      (fuel : ℕ) (stack : List ℕ) (s : S)
      → length stack + left s ≤ fuel
      → walk visit fuel stack s ≢ out_of_fuel
  unfolding walk
  walk-ends zero [] s f = λ h. ground arith
  walk-ends (suc fuel) [] s f = λ h. ground arith
  walk-ends zero (id ∷ stack) s f = absurd (omega arith)
  walk-ends (suc fuel) (id ∷ stack) s f = elim (Option-cases (visit s id)) [
    | inl e ↦ rw (e, walk) (λ h. ground arith)
    | inr ((next, parents), e) ↦
        rw (e, walk)
          (walk-ends fuel (push_all parents stack) next
            (omega (arith, length-push_all parents stack, paid id s next parents e)))
  ]
