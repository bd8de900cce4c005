-- ===== src/Tests/Walks.antt =====
-- Tests and examples for the walk that updates the LowestAfter vectors.
use lachesis_ex.Prelude.{
  ℕ, ◌<◌, ◌≡◌, ◌⊎◌, inl, inr, refl, sym, false, List, [], ◌∷◌, some, ◌==◌, if◌then◌else◌, arith,
  Holds, Bool-cases,
}
use mathlib.Core.Path.{subst}
use mathlib.Core.Option.{some-injective}
use lachesis_ex.Prelude.Assoc.{lookup}
use lachesis_ex.Inter.{EventHeaderData}
use lachesis_ex.Walk.{done}
use lachesis_ex.Vector.Clock.{lowest_after_get, lowest_after_set}
use lachesis_ex.Vector.Lowest.{get_lowest_after_seq, walk_observed}
use lachesis_ex.Vector.Lowest.Marks.{Headers, reached, AllAligned, all_parents}
use lachesis_ex.Vector.Lowest.Reached.{Observed, walk_observed-Observed}

abbrev event : ℕ → List ℕ → EventHeaderData
event id parents = record {
  version = 0;
  epoch = 1;
  seq = 1;
  frame = 1;
  is_root = false;
  creator = 3;
  prev_epoch_hash = 0;
  parents = parents;
  gas_power_left = (0, 0);
  gas_power_used = 0;
  lamport = 1;
  claimed_time = 5;
  median_time = 5;
  tx_hash = 0;
  extra = [];
  hash = id;
}

abbrev headers : Headers
headers = (11, event 11 []) ∷ (12, event 12 (11 ∷ [])) ∷ []

headers-stored :
    (id : ℕ) (h : EventHeaderData)
    → lookup id headers ≡ some h
    → (p : ℕ) → Holds p h.parents
    → (g : EventHeaderData) × (lookup p headers ≡ some g)
headers-stored id h l p own = elim (Bool-cases (11 == id)) [
  | inl e ↦ absurd (subst (λ x. Holds p x.parents) (sym (some-injective _ _ (rw e at l))) own)
  | inr e ↦ elim (Bool-cases (12 == id)) [
    | inl f ↦
        elim (subst (λ x. Holds p x.parents) (sym (some-injective _ _ (rw f at (rw e at l)))) own) [
          | inl q ↦ (event 11 [], rw q refl)
          | inr q ↦ absurd q
        ]
    | inr f ↦ absurd (ground (arith, rw f at (rw e at l)))
  ]
]

none-AllAligned : AllAligned []
unfolding get_lowest_after_seq
none-AllAligned id = refl

none-closed :
    (id : ℕ) (h : EventHeaderData)
    → 0 < reached [] 2 id
    → lookup id headers ≡ some h
    → (p : ℕ) → Holds p h.parents
    → 0 < reached [] 2 p
unfolding reached get_lowest_after_seq lowest_after_get
none-closed id h pos l p own = absurd (omega (arith, pos))

-- The event on top of both writes its number 5 for the branch 2.
walk_observed_test :
    walk_observed headers 2 5 2 (12 ∷ []) []
    ≡ done ((12, lowest_after_set [] 2 5) ∷ (11, lowest_after_set [] 2 5) ∷ [])
unfolding walk_observed lowest_after_get
walk_observed_test = refl

walk_observed-Observed_example :
    (t : List (ℕ × List ℕ)) × (walk_observed headers 2 5 2 (12 ∷ []) [] ≡ done t)
    × ((id : ℕ)
        → Observed headers (12 ∷ []) id
        → reached t 2 id ≡ (if reached [] 2 id == 0 then 5 else reached [] 2 id))
    × ((id : ℕ)
        → (reached t 2 id ≡ reached [] 2 id)
          ⊎ ((reached [] 2 id ≡ 0) × (reached t 2 id ≡ 5) × Observed headers (12 ∷ []) id))
unfolding all_parents
walk_observed-Observed_example =
    walk_observed-Observed 2 5 (omega arith) (omega arith) headers headers-stored (12 ∷ []) [] 2
      none-AllAligned
      (λ p own. elim own [ inl q ↦ (event 12 (11 ∷ []), rw q refl) | inr q ↦ absurd q ]) none-closed
      (omega arith)
