-- ===== src/Election/Process/Frame.antt =====
-- `ProcessRoot` decides no other frame than the one to decide.
use lachesis_ex.Prelude.{
  ℕ, ◌-◌, ◌≡◌, refl, Bool, List, [], ◌∷◌, Option, none, some, leb, ◌==◌, arith, Bool-cases, inl,
  inr,
}
use mathlib.Core.Path.{subst}
use lachesis_ex.Election.{
  ok, RootAndSlot, Election, Res, save_vote, first_vote, aggregate, first_round, later_round,
  choose_atropos, not_decided_roots,
}
use lachesis_ex.Election.Choice.{choose_atropos-FirstYes}
use lachesis_ex.Election.Process.{
  process_root, process_new_root, vote_on_subjects, observed_roots, observed_roots_map,
}
use lachesis_ex.Election.Process.Final.{>>=-eq-ok}

-- The frame of a result is the one to decide, which stays the same.
abbrev pub IsFor : ℕ → Election × Option Res → Type 0
IsFor f (el, none) = el.frame_to_decide ≡ f
IsFor f (el, some res) = (el.frame_to_decide ≡ f) × (res.frame ≡ f)

first_round-frame :
    (root : ℕ) (observed : List (ℕ × ℕ)) (ss : List ℕ) (el : Election)
    → (first_round root observed ss el).frame_to_decide ≡ el.frame_to_decide
unfolding first_round save_vote
first_round-frame root observed [] el = refl
first_round-frame root observed (s ∷ ss) el =
    first_round-frame root observed ss (save_vote root s (first_vote observed s) el)

later_round-frame :
    (root : ℕ) (observed : List RootAndSlot) (ss : List ℕ) (el el' : Election)
    → later_round root observed ss el ≡ ok el'
    → el'.frame_to_decide ≡ el.frame_to_decide
unfolding later_round save_vote
later_round-frame root observed [] el el' h = ground arith
later_round-frame root observed (s ∷ ss) el el' h =
    let (w, _, rest) = >>=-eq-ok (aggregate el.validators el.votes observed s) _ h in
    later_round-frame root observed ss (save_vote root s w el) el' rest

ok-injective {ℓ} : {A : Type ℓ} (a b : A) → ok a ≡ ok b → a ≡ b
ok-injective a b h = ground arith

chosen-IsFor :
    (el : Election) (res : Option Res)
    → choose_atropos el ≡ ok res
    → IsFor el.frame_to_decide (el, res)
chosen-IsFor el none h = refl
chosen-IsFor el (some res) h = (refl, ((choose_atropos-FirstYes el res).0 h).1)

module _ (observe : ℕ → ℕ → Bool) (frame_roots : ℕ → List RootAndSlot) where
  vote_on_subjects-frame :
      (el el' : Election) (r : RootAndSlot) (ss : List ℕ)
      → vote_on_subjects observe frame_roots el r ss ≡ ok el'
      → el'.frame_to_decide ≡ el.frame_to_decide
  unfolding vote_on_subjects
  vote_on_subjects-frame el el' r ss h = elim (Bool-cases (r.frame - el.frame_to_decide == 1)) [
    | inl e ↦ ground (
      arith,
      first_round-frame r.id (observed_roots_map observe frame_roots r.id (r.frame - 1)) ss el,
    )
    | inr e ↦
        later_round-frame r.id (observed_roots observe frame_roots r.id (r.frame - 1)) ss el el'
          (ground arith)
  ]

  process_new_root-IsFor :
      (el el' : Election) (r : RootAndSlot) (res : Option Res)
      → process_new_root observe frame_roots el r ≡ ok (el', res)
      → IsFor el.frame_to_decide (el', res)
  unfolding process_new_root
  process_new_root-IsFor el el' r res h = elim (Bool-cases (leb r.frame el.frame_to_decide)) [
    | inl e ↦ subst (IsFor el.frame_to_decide) (ok-injective _ _ (rw e at h)) refl
    | inr e ↦
        let (ss, found, more) = >>=-eq-ok (not_decided_roots el) _ (rw e at h) in
        let (el2, voted, last) = >>=-eq-ok (vote_on_subjects observe frame_roots el r ss) _ more in
        let (res2, chosen, done) = >>=-eq-ok (choose_atropos el2) _ last in
        let frame : el2.frame_to_decide ≡ el.frame_to_decide =
          vote_on_subjects-frame el el2 r ss voted in
        subst (IsFor el.frame_to_decide) (ok-injective _ _ done)
          (subst (λ f. IsFor f (el2, res2)) frame (chosen-IsFor el2 res2 chosen))
  ]

  pub process_root-IsFor :
      (el el' : Election) (r : RootAndSlot) (res : Option Res)
      → process_root observe frame_roots el r ≡ ok (el', res)
      → IsFor el.frame_to_decide (el', res)
  unfolding process_root
  process_root-IsFor el el' r res h =
      let (found, chosen, rest) = >>=-eq-ok (choose_atropos el) _ h in go found chosen rest
    where
      go :
          (found : Option Res)
          → choose_atropos el ≡ ok found
          → elim found [
            | none ↦ process_new_root observe frame_roots el r
            | some x ↦ ok (el, some x)
          ]
            ≡ ok (el', res)
          → IsFor el.frame_to_decide (el', res)
      go none chosen rest = process_new_root-IsFor el el' r res rest
      go (some x) chosen rest =
          subst (IsFor el.frame_to_decide) (ok-injective _ _ rest) (chosen-IsFor el (some x) chosen)
