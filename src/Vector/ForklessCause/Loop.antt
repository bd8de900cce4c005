-- ===== src/Vector/ForklessCause/Loop.antt =====
-- The loop of `forklessCause` over the branches counts the observers.
use lachesis_ex.Prelude.{
  ℕ, zero, suc, ◌+◌, ◌<◌, ◌≡◌, refl, ap, ◌∙◌, sym, inl, inr, Bool, true, false, List, [], ◌∷◌, some,
  length, arith, get_elem?, set, Bool-cases,
}
use lachesis_ex.Pos.Stake.{StakeCounter}
use lachesis_ex.Pos.Stake.Counting.{IsSound, IsCounting, count_by_idx-Counted}
use lachesis_ex.Vector.ForklessCause.Observers.{observed_by, observers_from}
use lachesis_ex.Vector.ForklessCause.{observes, count_branches}

abbrev pub AllBelow : ℕ → List ℕ → Type 0
AllBelow n [] = Unit
AllBelow n (c ∷ cs) = (c < n) × AllBelow n cs

observers_from-none :
    (a b : List ℕ) (branch i : ℕ) (ms : List Bool) → observers_from a b branch [] i ms ≡ ms
unfolding observers_from observed_by
observers_from-none a b branch i [] = refl
observers_from-none a b branch i (true ∷ ms) =
    ap (◌∷◌ true) (observers_from-none a b branch (suc i) ms)
observers_from-none a b branch i (false ∷ ms) =
    ap (◌∷◌ false) (observers_from-none a b branch (suc i) ms)

-- A creator below the entries at hand is none of them.
observers_from-below :
    (a b : List ℕ) (branch : ℕ) (cs : List ℕ) (i d : ℕ) (ms : List Bool)
    → d < i
    → observers_from a b branch (d ∷ cs) i ms ≡ observers_from a b (suc branch) cs i ms
unfolding observers_from observed_by
observers_from-below a b branch cs i d [] h = refl
observers_from-below a b branch cs i d (m ∷ ms) h =
    ground (arith, observers_from-below a b branch cs (suc i) d ms)

-- A branch that observes B marks its creator; one that does not changes nothing.
observers_from-hit :
    (a b : List ℕ) (branch : ℕ) (cs : List ℕ) (i c d : ℕ) (ms : List Bool)
    → observes a b branch ≡ true
    → d ≡ i + c
    → observers_from a b branch (d ∷ cs) i ms ≡ observers_from a b (suc branch) cs i (set ms c true)
unfolding observers_from observed_by
observers_from-hit a b branch cs i c d [] h e = refl
observers_from-hit a b branch cs i zero d (m ∷ ms) h e =
    ground (arith, observers_from-below a b branch cs (suc i) d ms)
observers_from-hit a b branch cs i (suc c) d (m ∷ ms) h e =
    ground (arith, observers_from-hit a b branch cs (suc i) c d ms)

observers_from-miss :
    (a b : List ℕ) (branch : ℕ) (cs : List ℕ) (i c : ℕ) (ms : List Bool)
    → observes a b branch ≡ false
    → observers_from a b branch (c ∷ cs) i ms ≡ observers_from a b (suc branch) cs i ms
unfolding observers_from observed_by
observers_from-miss a b branch cs i c [] h = refl
observers_from-miss a b branch cs i c (m ∷ ms) h =
    ground (arith, observers_from-miss a b branch cs (suc i) c ms h)

-- The loop ends with the counter that has counted the observers and no one else.
abbrev pub Observed : List ℕ → List ℕ → ℕ → List ℕ → StakeCounter → StakeCounter → Type 0
Observed a b branch cs s t =
    IsCounting t
    × (t.validators ≡ s.validators)
    × (t.already ≡ observers_from a b branch cs 0 s.already)

pub count_branches-Observed :
    (a b : List ℕ) (branch : ℕ) (cs : List ℕ) (s : StakeCounter)
    → IsSound s.validators
    → IsCounting s
    → AllBelow (length s.validators.cache.stakes) cs
    → (t : StakeCounter) × (count_branches a b branch cs s ≡ some t) × Observed a b branch cs s t
unfolding count_branches
count_branches-Observed a b branch [] s v c h =
    (s, refl, (c, refl, sym (observers_from-none a b branch 0 s.already)))
count_branches-Observed a b branch (d ∷ cs) s v c h = elim (Bool-cases (observes a b branch)) [
  | inl hit ↦
      let ((t, new), done, (c', same, _, marks)) = count_by_idx-Counted s d v c h.0 in
      let (u, rest, (c2, same2, marks2)) =
        count_branches-Observed a b (suc branch) cs t (rw same v) c' (rw same h.1) in
      (
        u,
        rw hit (rw done rest),
        (
          c2,
          same2 ∙ same,
          marks2
              ∙ rw marks (sym (observers_from-hit a b branch cs 0 d d s.already hit (omega arith))),
        ),
      )
  | inr miss ↦
      let (u, rest, (c2, same2, marks2)) = count_branches-Observed a b (suc branch) cs s v c h.1 in
      (
        u,
        rw miss rest,
        (c2, same2, marks2 ∙ sym (observers_from-miss a b branch cs 0 d s.already miss)),
      )
]

pub partition-AllBelow :
    (cs : List ℕ) (n : ℕ) → ((b c : ℕ) → get_elem? cs b ≡ some c → c < n) → AllBelow n cs
partition-AllBelow [] n h = tt
partition-AllBelow (c ∷ cs) n h = (h 0 c refl, partition-AllBelow cs n λ b d e. h (suc b) d e)
