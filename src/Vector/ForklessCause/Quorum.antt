-- ===== src/Vector/ForklessCause/Quorum.antt =====
-- `forklessCause` as a statement about the validators that observe B.
use lachesis_ex.Prelude.{
  ℕ, ◌*◌, ◌<◌, ◌≡◌, ◌↔◌, refl, inl, inr, Bool, true, false, List, some, ◌>>=◌, >>=-eq-some, length,
  arith, sum, ltb, if◌then◌else◌, Bool-cases, get_elem?-lt,
}
use lachesis_ex.Prelude.Assoc.{lookup}
use lachesis_ex.Pos.{len}
use lachesis_ex.Pos.Stake.{StakeCounter, new_counter, has_quorum}
use lachesis_ex.Pos.Stake.Counting.{
  weight, both, IsSound, new_counter-IsCounting, has_quorum_iff, majorities_intersect,
}
use lachesis_ex.Vector.Branches.{at_least_one_fork}
use lachesis_ex.Vector.Branches.Invariant.{IsPartition}
use mathlib.Core.Option.{some-injective}
use lachesis_ex.Vector.Index.{Index, branches}
use lachesis_ex.Vector.Clock.{before_seq_get, is_fork_detected, IsFork, IsFork-is_fork_detected}
use lachesis_ex.Vector.ForklessCause.Observers.{AreObservers, observers, observers-AreObservers}
use lachesis_ex.Vector.ForklessCause.{count_branches, observes_cheater, forkless_cause}
use lachesis_ex.Vector.ForklessCause.Loop.{AllBelow, count_branches-Observed, partition-AllBelow}

-- The marked validators have more than two thirds of the stake.
abbrev pub Majority : Index → List Bool → Type 0
Majority vi ms = 2 * sum vi.validators.cache.stakes < 3 * weight ms vi.validators.cache.stakes

-- There are branches beside the validators' first ones, and A sees a fork on this branch.
abbrev pub SeesFork : Index → List ℕ → ℕ → Type 0
SeesFork vi a branch =
    (len vi.validators < length (branches vi).creator_idxs) × IsFork (before_seq_get a branch)

-- The check for a fork of B's creator answers, and says whether there is one.
observes_cheater-SeesFork :
    (vi : Index) (a : List ℕ) (b_id branch : ℕ)
    → lookup b_id vi.tables.event_branch ≡ some branch
    → (cheater : Bool) × (observes_cheater vi a b_id ≡ some cheater)
      × ((cheater ≡ true) ↔ SeesFork vi a branch)
unfolding observes_cheater at_least_one_fork
observes_cheater-SeesFork vi a b_id branch h =
    let mark = IsFork-is_fork_detected (before_seq_get a branch) in
    elim (Bool-cases (ltb (len vi.validators) (length (branches vi).creator_idxs))) [
      | inl q ↦ (
        is_fork_detected (before_seq_get a branch),
        rw (q, h) refl,
        ((λ e. (ground arith, mark.1 e)), (λ (_, f). mark.0 f)),
      )
      | inr q ↦ (false, rw q refl, ((λ e. cc), (λ (more, f). absurd (ground arith))))
    ]

module _ (vi : Index) (v : IsSound vi.validators)
    (p : IsPartition vi.validators (branches vi)) where
  creators-AllBelow : AllBelow (length vi.validators.cache.stakes) (branches vi).creator_idxs
  creators-AllBelow = partition-AllBelow (branches vi).creator_idxs _ λ b c e.
      let (bs, found, _) = p.listed b c e in
      omega (arith, get_elem?-lt (branches vi).by_creators c bs found, p.creators, v.aligned)

  quorum_of_loop :
      (a b : List ℕ)
      → (t : StakeCounter) × (count_branches a b 0
            (branches vi).creator_idxs
            (new_counter vi.validators)
          ≡ some t)
        × ((has_quorum t ≡ true) ↔ Majority vi (observers (branches vi) a b (len vi.validators)))
  unfolding observers new_counter
  quorum_of_loop a b =
      let (t, done, (c, same, marks)) =
        count_branches-Observed a b 0 (branches vi).creator_idxs (new_counter vi.validators) v
          (new_counter-IsCounting vi.validators v) creators-AllBelow in
      let decided = has_quorum_iff t (rw same v) c in (t, done, rw (same, marks) at decided)

-- Over a sound group, and with branches that are a partition: if A, B and the branch of B's
-- creator are in the tables, the answer exists. It is yes exactly when A does not see a fork on
-- that branch (where there is any fork at all), and those validators have more than two thirds of
-- the stake that have a branch with these properties: an event of it has observed B, the highest
-- event of it that A observes is that or a later one, and A sees no fork on it.
pub forkless_cause-quorum :
    (vi : Index) (a_id b_id branch : ℕ) (a b : List ℕ)
    → IsSound vi.validators
    → IsPartition vi.validators (branches vi)
    → lookup a_id vi.tables.highest_before_seq ≡ some a
    → lookup b_id vi.tables.lowest_after_seq ≡ some b
    → lookup b_id vi.tables.event_branch ≡ some branch
    → (r : Bool) × (ms : List Bool) × (forkless_cause vi a_id b_id ≡ some r)
      × AreObservers vi a b ms
      × ((r ≡ true) ↔ ((¬ SeesFork vi a branch) × Majority vi ms))
unfolding forkless_cause
forkless_cause-quorum vi a_id b_id branch a b v p ha hb hc =
    let (t, done, decided) = quorum_of_loop vi v p a b in
    let (cheater, answer, fork) = observes_cheater-SeesFork vi a b_id branch hc in
    go cheater t answer fork done decided
  where
    ms : List Bool
    ms = observers (branches vi) a b (len vi.validators)

    go :
        (cheater : Bool) (t : StakeCounter)
        → observes_cheater vi a b_id ≡ some cheater
        → (cheater ≡ true) ↔ SeesFork vi a branch
        → count_branches a b 0 (branches vi).creator_idxs (new_counter vi.validators) ≡ some t
        → (has_quorum t ≡ true) ↔ Majority vi ms
        → (r : Bool) × (ms : List Bool) × (forkless_cause vi a_id b_id ≡ some r)
          × AreObservers vi a b ms
          × ((r ≡ true) ↔ ((¬ SeesFork vi a branch) × Majority vi ms))
    go true t answer fork done decided = (
      false,
      ms,
      rw ha (rw answer refl),
      observers-AreObservers vi a b,
      ((λ e. cc), (λ (unseen, _). absurd (unseen (fork.0 refl)))),
    )
    go false t answer fork done decided = (
      has_quorum t,
      ms,
      rw ha (rw answer (rw hb (rw done refl))),
      observers-AreObservers vi a b,
      ((λ e. ((λ f. let q = fork.1 f in cc), decided.0 e)), (λ (_, q). decided.1 q)),
    )

-- A yes comes from events in the tables, and from a majority.
forkless_cause-found :
    (vi : Index) (a_id b_id : ℕ)
    → IsSound vi.validators
    → IsPartition vi.validators (branches vi)
    → forkless_cause vi a_id b_id ≡ some true
    → (a : List ℕ) × (b : List ℕ) × (lookup a_id vi.tables.highest_before_seq ≡ some a)
      × (lookup b_id vi.tables.lowest_after_seq ≡ some b)
      × Majority vi (observers (branches vi) a b (len vi.validators))
unfolding forkless_cause
forkless_cause-found vi a_id b_id v p h =
    let (a, ha, h1) = >>=-eq-some (lookup a_id vi.tables.highest_before_seq) _ h in
    let (cheater, hc, h2) = >>=-eq-some (observes_cheater vi a b_id) _ h1 in go a cheater ha h2
  where
    go :
        (a : List ℕ) (cheater : Bool)
        → lookup a_id vi.tables.highest_before_seq ≡ some a
        → (if cheater
            then some false
            else (lookup b_id vi.tables.lowest_after_seq >>= λ b.
                count_branches a b 0 (branches vi).creator_idxs (new_counter vi.validators) >>= λ t.
                some (has_quorum t)))
          ≡ some true
        → (a : List ℕ) × (b : List ℕ) × (lookup a_id vi.tables.highest_before_seq ≡ some a)
          × (lookup b_id vi.tables.lowest_after_seq ≡ some b)
          × Majority vi (observers (branches vi) a b (len vi.validators))
    go a true ha h2 = cc
    go a false ha h2 =
        let (b, hb, h3) = >>=-eq-some (lookup b_id vi.tables.lowest_after_seq) _ h2 in
        let (t, done, decided) = quorum_of_loop vi v p a b in
        (a, b, ha, hb, decided.0 (some-injective _ _ (rw done at h3)))

-- Over a sound group, and with branches that are a partition: if A is forkless caused by two
-- events, then validators with more than a third of the stake observe both of them: each has a
-- branch on which an event has observed the first, the highest event that A observes is that or a
-- later one, and A sees no fork; and such a branch for the second.
pub forkless_cause_both :
    (vi : Index) (a_id b1 b2 : ℕ)
    → IsSound vi.validators
    → IsPartition vi.validators (branches vi)
    → forkless_cause vi a_id b1 ≡ some true
    → forkless_cause vi a_id b2 ≡ some true
    → (a : List ℕ) × (v1 : List ℕ) × (v2 : List ℕ) × (m1 : List Bool) × (m2 : List Bool) × (lookup
          a_id vi.tables.highest_before_seq
        ≡ some a)
      × (lookup b1 vi.tables.lowest_after_seq ≡ some v1)
      × (lookup b2 vi.tables.lowest_after_seq ≡ some v2)
      × AreObservers vi a v1 m1
      × AreObservers vi a v2 m2
      × (sum vi.validators.cache.stakes < 3 * weight (both m1 m2) vi.validators.cache.stakes)
forkless_cause_both vi a_id b1 b2 v p h k =
    let (a, v1, ha, hb, first) = forkless_cause-found vi a_id b1 v p h in
    let (a', v2, ha', hb', second) = forkless_cause-found vi a_id b2 v p k in
    let same : a' ≡ a = cc in
    let second' = rw same at second in
    (
      a,
      v1,
      v2,
      observers (branches vi) a v1 (len vi.validators),
      observers (branches vi) a v2 (len vi.validators),
      ha,
      hb,
      hb',
      observers-AreObservers vi a v1,
      observers-AreObservers vi a v2,
      majorities_intersect _ _ vi.validators.cache.stakes first second',
    )
