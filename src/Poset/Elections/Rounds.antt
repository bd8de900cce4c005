-- ===== src/Poset/Elections/Rounds.antt =====
-- The loop of `processKnownRoots` ends: each of its rounds needs a root of its frame.
use lachesis_ex.Prelude.{
  ℕ, zero, suc, ◌+◌, ◌%◌, ◌≤◌, ◌<◌, ◌≡◌, inl, inr, refl, ◌∙◌, Bool, true, false, List, [], ◌∷◌,
  Option, none, some, leb, length, if◌then◌else◌, arith, Bool-cases, word32,
}
use lachesis_ex.Election.{Outcome, ok, RootAndSlot, Election, Res}
use lachesis_ex.Election.Process.{process_root}
use lachesis_ex.Election.Process.Frame.{IsFor, process_root-IsFor}
use lachesis_ex.Poset.{get_frame_roots}
use lachesis_ex.Poset.Decide.{Handled, ended, fatal, no_fuel}
use lachesis_ex.Poset.Decide.Ends.{EndsWith, >>=ₕ-EndsWith}
use lachesis_ex.Poset.Elections.{
  of_outcome, is_empty, process_slot, process_roots, process_known_roots,
}

pub EndsWith-mono {ℓ} :
    {A : Type ℓ} (P Q : A → Type 0) (x : Handled A)
    → ((a : A) → P a → Q a)
    → EndsWith P x
    → EndsWith Q x
EndsWith-mono P Q (ended a) f p = f a p
EndsWith-mono P Q fatal f p = tt
EndsWith-mono P Q no_fuel f p = p

-- A decision is for the frame to decide, and takes a root.
abbrev pub FoundIn : List RootAndSlot → ℕ → Election × Option Res → Type 0
FoundIn rs f (el, none) = el.frame_to_decide ≡ f
FoundIn rs f (el, some res) = (el.frame_to_decide ≡ f) × (res.frame ≡ f) × (is_empty rs ≡ false)

weaken :
    (rs more : List RootAndSlot) (g f : ℕ)
    → g ≡ f
    → is_empty more ≡ false
    → (x : Election × Option Res) → FoundIn rs g x
    → FoundIn more f x
weaken rs more g f e n (el, none) h = h ∙ e
weaken rs more g f e n (el, some res) (kept, frame, _) = (kept ∙ e, frame ∙ e, n)

-- Frames are far from the greatest number of 32 bits.
abbrev pub AreSmall : List RootAndSlot → Type 0
AreSmall [] = Unit
AreSmall (r ∷ rs) = (r.frame + 2 < word32) × AreSmall rs

-- The roots from a frame on.
unfoldable pub above : ℕ → List RootAndSlot → ℕ
above f [] = 0
above f (r ∷ rs) = (if leb f r.frame then 1 else 0) + above f rs

pub above-le : (f : ℕ) (rs : List RootAndSlot) → above f rs ≤ length rs
unfolding above
above-le f [] = omega arith
above-le f (r ∷ rs) = ground (arith, above-le f rs)

above_mono : (f : ℕ) (rs : List RootAndSlot) → above (f + 1) rs ≤ above f rs
unfolding above
above_mono f [] = omega arith
above_mono f (r ∷ rs) = ground (arith, above_mono f rs)

pub above-lt :
    (f : ℕ) (rs : List RootAndSlot)
    → is_empty (get_frame_roots f rs) ≡ false
    → above (f + 1) rs < above f rs
unfolding above get_frame_roots
above-lt f [] h = absurd (ground arith)
above-lt f (r ∷ rs) h = ground (arith, above-lt f rs, above_mono f rs)

pub frame-lt :
    (f : ℕ) (rs : List RootAndSlot)
    → AreSmall rs
    → is_empty (get_frame_roots f rs) ≡ false
    → f + 2 < word32
unfolding get_frame_roots
frame-lt f [] a h = absurd (ground arith)
frame-lt f (r ∷ rs) (small, a) h = ground (arith, frame-lt f rs a)

module _ (forkless_cause : ℕ → ℕ → Bool) (roots : List RootAndSlot) where
  pub process_slot-IsFor :
      (el : Election) (r : RootAndSlot)
      → EndsWith (IsFor el.frame_to_decide) (process_slot forkless_cause roots el r)
  unfolding process_slot
  process_slot-IsFor el r =
      go (process_root forkless_cause (λ f. get_frame_roots f roots) el r)
        λ x h. process_root-IsFor forkless_cause (λ f. get_frame_roots f roots) el x.0 r x.1 h
    where
      go :
          (o : Outcome (Election × Option Res))
          → ((x : Election × Option Res) → o ≡ ok x → IsFor el.frame_to_decide x)
          → EndsWith (IsFor el.frame_to_decide) (of_outcome o)
      go (ok x) h = h x refl
      go Outcome.all_no h = tt
      go Outcome.fork_roots h = tt
      go Outcome.crit h = tt

  process_roots-FoundIn :
      (rs : List RootAndSlot) (el : Election)
      → EndsWith (FoundIn rs el.frame_to_decide) (process_roots forkless_cause roots rs el)
  unfolding process_roots
  process_roots-FoundIn [] el = refl
  process_roots-FoundIn (r ∷ rs) el =
      >>=ₕ-EndsWith (IsFor el.frame_to_decide) (FoundIn (r ∷ rs) el.frame_to_decide)
        (process_slot forkless_cause roots el r) _ (process_slot-IsFor el r)
        (step λ next. process_roots-FoundIn rs next)
    where
      step :
          ((next : Election)
            → EndsWith
                (FoundIn rs next.frame_to_decide)
                (process_roots forkless_cause roots rs next))
          → (x : Election × Option Res) → IsFor el.frame_to_decide x
          → EndsWith (FoundIn (r ∷ rs) el.frame_to_decide) (elim x.1 [
            | none ↦ process_roots forkless_cause roots rs x.0
            | some res ↦ ended (x.0, some res)
          ])
      step again (next, some res) (kept, frame) = (kept, frame, refl)
      step again (next, none) kept =
          EndsWith-mono _ _ (process_roots forkless_cause roots rs next)
            (weaken rs (r ∷ rs) next.frame_to_decide el.frame_to_decide kept refl) (again next)

  -- With fuel for one frame more than there are roots from the frame on, `processKnownRoots` ends.
  pub process_known_roots-FoundIn :
      (fuel f : ℕ) (el : Election)
      → AreSmall roots
      → above f roots < fuel
      → EndsWith
          (FoundIn (get_frame_roots f roots) el.frame_to_decide)
          (process_known_roots forkless_cause roots fuel f el)
  unfolding process_known_roots
  process_known_roots-FoundIn zero f el a h = absurd (omega arith)
  process_known_roots-FoundIn (suc fuel) f el a h =
      >>=ₕ-EndsWith _ _ _ _ (process_roots-FoundIn (get_frame_roots f roots) el)
        (step λ g next. process_known_roots-FoundIn fuel g next a)
    where
      step :
          ((g : ℕ) (next : Election)
            → above g roots < fuel
            → EndsWith
                (FoundIn (get_frame_roots g roots) next.frame_to_decide)
                (process_known_roots forkless_cause roots fuel g next))
          → (x : Election × Option Res) → FoundIn (get_frame_roots f roots) el.frame_to_decide x
          → EndsWith (FoundIn (get_frame_roots f roots) el.frame_to_decide) (elim x.1 [
            | some res ↦ ended (x.0, some res)
            | none ↦ elim (is_empty (get_frame_roots f roots)) [
              | true ↦ ended (x.0, none)
              | false ↦ process_known_roots forkless_cause roots fuel ((f + 1) % word32) x.0
            ]
          ])
      step again (next, some res) found = found
      step again (next, none) kept = elim (Bool-cases (is_empty (get_frame_roots f roots))) [
        | inl e ↦ rw (e, EndsWith) kept
        | inr e ↦
            let up : (f + 1) % word32 ≡ f + 1 = ground (arith, frame-lt f roots a e) in
            rw (e, EndsWith)
              (EndsWith-mono _ _
                (process_known_roots forkless_cause roots fuel ((f + 1) % word32) next)
                (weaken (get_frame_roots ((f + 1) % word32) roots) (get_frame_roots f roots)
                  next.frame_to_decide el.frame_to_decide kept e)
                (again ((f + 1) % word32) next (rw up (omega (arith, above-lt f roots e, h)))))
      ]
