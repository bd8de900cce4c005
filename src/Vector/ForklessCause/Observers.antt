-- ===== src/Vector/ForklessCause/Observers.antt =====
-- What it is to observe an event, apart from the loop of `forklessCause` that tests it.
use lachesis_ex.Prelude.{
  ℕ, zero, suc, ◌+◌, ◌≤◌, ◌<◌, ◌≡◌, ◌↔◌, refl, inl, inr, Bool, true, false, ◌||◌, ◌&&◌, ap, ◌∙◌,
  sym, List, [], ◌∷◌, some, length, arith, get_elem?, replicate, ◌==◌, Bool-cases,
}
use lachesis_ex.Pos.{len}
use lachesis_ex.Vector.Clock.{
  lowest_after_get, before_seq_get, is_fork_detected, IsFork, IsFork-is_fork_detected,
}
use lachesis_ex.Vector.Branches.{BranchesInfo}
use lachesis_ex.Vector.Index.{Index, branches}
use lachesis_ex.Vector.ForklessCause.{observes}

-- On this branch some event has observed B, the highest one that A observes stands there or later,
-- and A sees no fork.
abbrev pub Observes : List ℕ → List ℕ → ℕ → Type 0
Observes a b branch =
    (0 < lowest_after_get b branch)
    × (lowest_after_get b branch ≤ (before_seq_get a branch).seq)
    × (¬ IsFork (before_seq_get a branch))

-- A validator is marked exactly if one of its branches observes B.
pub record AreObservers (vi : Index) (a b : List ℕ) (ms : List Bool) : Type 0 where
  pub size : length ms ≡ len vi.validators
  pub exact :
      (c : ℕ)
      → c < len vi.validators
      → (get_elem? ms c ≡ some true) ↔ (
          (branch : ℕ) × (get_elem? (branches vi).creator_idxs branch ≡ some c)
          × Observes a b branch)

-- One of the creator's branches, from `branch` on, observes B.
unfoldable pub observed_by : List ℕ → List ℕ → ℕ → List ℕ → ℕ → Bool
observed_by a b branch [] c = false
observed_by a b branch (d ∷ rest) c =
    (d == c && observes a b branch) || observed_by a b (suc branch) rest c

-- For each entry the mark after the loop: the old one, or that of a branch.
unfoldable pub observers_from : List ℕ → List ℕ → ℕ → List ℕ → ℕ → List Bool → List Bool
observers_from a b branch cs i [] = []
observers_from a b branch cs i (m ∷ ms) =
    (m || observed_by a b branch cs i) ∷ observers_from a b branch cs (suc i) ms

-- Which validators have a branch that observes B, as far as A sees.
unfoldable pub observers : BranchesInfo → List ℕ → List ℕ → ℕ → List Bool
unfolding observers_from observed_by
observers bi a b n = observers_from a b 0 bi.creator_idxs 0 (replicate n false)

observes-Observes : (a b : List ℕ) (branch : ℕ) → (observes a b branch ≡ true) ↔ Observes a b branch
unfolding observes
observes-Observes a b branch =
    let (mark, marked) = IsFork-is_fork_detected (before_seq_get a branch) in
    (λ h. (ground arith, ground arith, λ f. let q = mark f in ground arith), from marked)
  where
    from :
        (is_fork_detected (before_seq_get a branch) ≡ true → IsFork (before_seq_get a branch))
        → Observes a b branch
        → observes a b branch ≡ true
    from marked (some_event, later, honest) =
        elim (Bool-cases (is_fork_detected (before_seq_get a branch))) [
          | inl q ↦ absurd (honest (marked q))
          | inr q ↦ ground arith
        ]

observed_by-branch :
    (a b : List ℕ) (branch : ℕ) (cs : List ℕ) (c : ℕ)
    → observed_by a b branch cs c ≡ true
    → (k : ℕ) × (get_elem? cs k ≡ some c) × (observes a b (branch + k) ≡ true)
unfolding observed_by
observed_by-branch a b branch [] c h = cc
observed_by-branch a b branch (d ∷ rest) c h =
    elim (Bool-cases (observed_by a b (suc branch) rest c)) [
      | inl q ↦
          let (k, at, o) = observed_by-branch a b (suc branch) rest c q in (suc k, at, ground arith)
      | inr q ↦ (0, ground arith, ground arith)
    ]

observed_by-of_branch :
    (a b : List ℕ) (branch : ℕ) (cs : List ℕ) (c k : ℕ)
    → get_elem? cs k ≡ some c
    → observes a b (branch + k) ≡ true
    → observed_by a b branch cs c ≡ true
unfolding observed_by
observed_by-of_branch a b branch [] c k h o = cc
observed_by-of_branch a b branch (d ∷ rest) c zero h o = ground arith
observed_by-of_branch a b branch (d ∷ rest) c (suc k) h o =
    ground (arith, observed_by-of_branch a b (suc branch) rest c k h (ground arith))

length-observers_from :
    (a b : List ℕ) (branch : ℕ) (cs : List ℕ) (i n : ℕ)
    → length (observers_from a b branch cs i (replicate n false)) ≡ n
unfolding observers_from
length-observers_from a b branch cs i zero = refl
length-observers_from a b branch cs i (suc n) =
    omega (arith, length-observers_from a b branch cs (suc i) n)

observers_from-elem :
    (a b : List ℕ) (branch : ℕ) (cs : List ℕ) (i n c : ℕ)
    → c < n
    → get_elem? (observers_from a b branch cs i (replicate n false)) c
      ≡ some (observed_by a b branch cs (i + c))
unfolding observers_from
observers_from-elem a b branch cs i zero c h = absurd (omega arith)
observers_from-elem a b branch cs i (suc n) zero h = ground arith
observers_from-elem a b branch cs i (suc n) (suc c) h =
    ground (arith, observers_from-elem a b branch cs (suc i) n c (omega arith))

pub observers-AreObservers :
    (vi : Index) (a b : List ℕ)
    → AreObservers vi a b (observers (branches vi) a b (len vi.validators))
unfolding observers
observers-AreObservers vi a b = record {
  size = length-observers_from a b 0 (branches vi).creator_idxs 0 (len vi.validators);
  exact = λ c h.
      let at = observers_from-elem a b 0 (branches vi).creator_idxs 0 (len vi.validators) c h in
      (
        λ e.
            let (k, is, o) = observed_by-branch a b 0 (branches vi).creator_idxs c (ground arith) in
            (k, is, (observes-Observes a b k).0 (sym (from_zero k) ∙ o)),
        λ (k, is, o).
            let by =
              observed_by-of_branch a b 0 (branches vi).creator_idxs c k is
                (from_zero k ∙ (observes-Observes a b k).1 o) in
            ground arith,
      );
}
  where
    from_zero : (k : ℕ) → observes a b (0 + k) ≡ observes a b k
    from_zero k = ap (observes a b) (omega arith)
