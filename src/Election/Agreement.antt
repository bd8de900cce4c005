-- ===== src/Election/Agreement.antt =====
-- Two roots that count the votes of one round on one subject.
pub mod Tallies
use lachesis_ex.Prelude.{
  ℕ, zero, suc, ◌+◌, ◌*◌, ◌≤◌, ◌<◌, ◌≡◌, ◌⊎◌, refl, ap, ◌∙◌, sym, inl, inr, Bool, true, false, not,
  ◌||◌, ◌&&◌, List, [], ◌∷◌, Option, none, some, length, arith, get_elem?, replicate, sum,
  if◌then◌else◌, Bool-cases, leb,
}
use lachesis_ex.Pos.{Validators, get_idx, quorum, len}
use lachesis_ex.Pos.Stake.{StakeCounter, new_counter, has_quorum}
use lachesis_ex.Pos.Stake.Counting.{
  weight, both, weight-both, weight-le-sum, IsSound, IsCounting, new_counter-IsCounting,
  has_quorum_iff,
}
use lachesis_ex.Election.{
  Outcome, ok, crit, ◌>>=◌, RootAndSlot, VoteValue, Votes, Tally, new_tally, count_votes,
  vote_of_tally, aggregate,
}
use lachesis_ex.Election.Process.Final.{>>=-eq-ok}
use lachesis_ex.Pos.Stake.Steps.{Marked}
use Tallies.{IsTally, Tallied, AnyRoot, Voted, count_votes-Tallied}

not-Marked-replicate : (n i : ℕ) → get_elem? (replicate n false) i ≡ some true → ⊥
not-Marked-replicate zero i h = cc
not-Marked-replicate (suc n) zero h = cc
not-Marked-replicate (suc n) (suc i) h = not-Marked-replicate n i h

module _ (vv : Validators) (s : IsSound vv) where
  new_tally-IsTally : IsTally vv (new_tally vv)
  unfolding new_tally new_counter
  new_tally-IsTally = record {
    yes_group = refl;
    no_group = refl;
    all_group = refl;
    yes_counting = new_counter-IsCounting vv s;
    no_counting = new_counter-IsCounting vv s;
    all_counting = new_counter-IsCounting vv s;
    yes_in_all = λ i m. m;
    no_in_all = λ i m. m;
    parts = refl;
  }

  not-Marked-yes : (i : ℕ) → Marked (new_tally vv).yes_votes i → ⊥
  unfolding new_tally new_counter
  not-Marked-yes i m = not-Marked-replicate (len vv) i m

  not-Marked-no : (i : ℕ) → Marked (new_tally vv).no_votes i → ⊥
  unfolding new_tally new_counter
  not-Marked-no i m = not-Marked-replicate (len vv) i m

-- Nobody is marked in both lists.
weight-both_apart :
    (bs cs : List Bool) (ws : List ℕ)
    → ((i : ℕ) → get_elem? bs i ≡ some true → get_elem? cs i ≡ some true → ⊥)
    → weight (both bs cs) ws ≡ 0
weight-both_apart [] cs ws h = refl
weight-both_apart (b ∷ bs) [] ws h = refl
weight-both_apart (b ∷ bs) (c ∷ cs) [] h = refl
weight-both_apart (true ∷ bs) (true ∷ cs) (w ∷ ws) h = absurd (h 0 refl refl)
weight-both_apart (true ∷ bs) (false ∷ cs) (w ∷ ws) h =
    omega (arith, weight-both_apart bs cs ws λ i. h (suc i))
weight-both_apart (false ∷ bs) (c ∷ cs) (w ∷ ws) h =
    omega (arith, weight-both_apart bs cs ws λ i. h (suc i))

weight_apart :
    (bs cs : List Bool) (ws : List ℕ)
    → ((i : ℕ) → get_elem? bs i ≡ some true → get_elem? cs i ≡ some true → ⊥)
    → weight bs ws + weight cs ws ≤ sum ws
weight_apart bs cs ws h = omega (arith, weight-both bs cs ws, weight-both_apart bs cs ws h)

-- Where one root counts a validator's yes, the other does not count its no, and the reverse.
-- It fails only if a validator votes both ways, by forked roots.
pub record Consistent (vv : Validators) (subject : ℕ) (votes votes' : Votes)
    (rs rs' : List RootAndSlot) : Type 0 where
  pub yes_no :
      (i : ℕ)
      → AnyRoot (Voted vv votes subject true i) rs
      → AnyRoot (Voted vv votes' subject false i) rs'
      → ⊥
  pub no_yes :
      (i : ℕ)
      → AnyRoot (Voted vv votes subject false i) rs
      → AnyRoot (Voted vv votes' subject true i) rs'
      → ⊥

-- The tally of a successful aggregation, and its vote.
aggregate-tally :
    (vv : Validators) (votes : Votes) (rs : List RootAndSlot) (subject : ℕ) (x : VoteValue)
    → IsSound vv
    → aggregate vv votes rs subject ≡ ok x
    → (t : Tally) × Tallied vv votes subject rs (new_tally vv) t
      × (has_quorum t.all_votes ≡ true)
      × (x ≡ vote_of_tally t)
unfolding aggregate
aggregate-tally vv votes rs subject x s h =
    let (t, counted, rest) = >>=-eq-ok (count_votes votes subject rs (new_tally vv)) _ h in
    let tallied =
      count_votes-Tallied vv votes subject rs (new_tally vv) t s (new_tally-IsTally vv s) counted in
    elim (Bool-cases (has_quorum t.all_votes)) [
      | inl q ↦ (t, tallied, q, ground arith)
      | inr q ↦ ground arith
    ]

-- A quorum for one side outweighs the other side wherever more than two thirds are counted
-- and nobody is on the one side here and on the other there.
side_wins :
    (bs cs ds : List Bool) (ws : List ℕ)
    → ((i : ℕ) → get_elem? bs i ≡ some true → get_elem? cs i ≡ some true → ⊥)
    → 2 * sum ws < 3 * weight bs ws
    → 2 * sum ws < 3 * (weight ds ws + weight cs ws)
    → weight cs ws < weight ds ws
side_wins bs cs ds ws apart more full = omega (arith, weight_apart bs cs ws apart)

-- The weight that a counter of the group has counted.
counted_weight :
    (vv : Validators) (c : StakeCounter)
    → c.validators ≡ vv
    → IsCounting c
    → c.sum ≡ weight c.already vv.cache.stakes
counted_weight vv c e v = rw e at v.counted

quorum_weight :
    (vv : Validators) (c : StakeCounter)
    → IsSound vv
    → c.validators ≡ vv
    → IsCounting c
    → has_quorum c ≡ true
    → 2 * sum vv.cache.stakes < 3 * weight c.already vv.cache.stakes
quorum_weight vv c s e v q = rw e at ((has_quorum_iff c (rw e s) v).0 q)

module _ (vv : Validators) (s : IsSound vv) (subject : ℕ) (votes votes' : Votes)
    (rs rs' : List RootAndSlot) (t u : Tally) (a : Tallied vv votes subject rs (new_tally vv) t)
    (b : Tallied vv votes' subject rs' (new_tally vv) u)
    (same : Consistent vv subject votes votes' rs rs') (full : has_quorum u.all_votes ≡ true) where
  all_weight :
      2 * sum vv.cache.stakes
      < 3 * (weight u.yes_votes.already vv.cache.stakes + weight u.no_votes.already vv.cache.stakes)
  all_weight =
      let w = b.tally in
      omega (
        arith,
        quorum_weight vv u.all_votes s w.all_group w.all_counting full,
        counted_weight vv u.all_votes w.all_group w.all_counting,
        counted_weight vv u.yes_votes w.yes_group w.yes_counting,
        counted_weight vv u.no_votes w.no_group w.no_counting,
        w.parts,
      )

  yes_wins : has_quorum t.yes_votes ≡ true → u.no_votes.sum < u.yes_votes.sum
  yes_wins q =
      let w = b.tally in
      let won =
        side_wins t.yes_votes.already u.no_votes.already u.yes_votes.already vv.cache.stakes
          (λ i m n. apart i (a.from_yes i m) (b.from_no i n))
          (quorum_weight vv t.yes_votes s a.tally.yes_group a.tally.yes_counting q) all_weight in
      omega (
        arith,
        won,
        counted_weight vv u.yes_votes w.yes_group w.yes_counting,
        counted_weight vv u.no_votes w.no_group w.no_counting,
      )
    where
      apart :
          (i : ℕ)
          → AnyRoot (Voted vv votes subject true i) rs ⊎ Marked (new_tally vv).yes_votes i
          → AnyRoot (Voted vv votes' subject false i) rs' ⊎ Marked (new_tally vv).no_votes i
          → ⊥
      apart i (inl x) (inl y) = same.yes_no i x y
      apart i (inr x) y = not-Marked-yes vv s i x
      apart i (inl x) (inr y) = not-Marked-no vv s i y

  no_wins : has_quorum t.no_votes ≡ true → u.yes_votes.sum < u.no_votes.sum
  no_wins q =
      let w = b.tally in
      let won =
        side_wins t.no_votes.already u.yes_votes.already u.no_votes.already vv.cache.stakes
          (λ i m n. apart i (a.from_no i m) (b.from_yes i n))
          (quorum_weight vv t.no_votes s a.tally.no_group a.tally.no_counting q)
          (omega (arith, all_weight)) in
      omega (
        arith,
        won,
        counted_weight vv u.yes_votes w.yes_group w.yes_counting,
        counted_weight vv u.no_votes w.no_group w.no_counting,
      )
    where
      apart :
          (i : ℕ)
          → AnyRoot (Voted vv votes subject false i) rs ⊎ Marked (new_tally vv).no_votes i
          → AnyRoot (Voted vv votes' subject true i) rs' ⊎ Marked (new_tally vv).yes_votes i
          → ⊥
      apart i (inl x) (inl y) = same.no_yes i x y
      apart i (inr x) y = not-Marked-no vv s i x
      apart i (inl x) (inr y) = not-Marked-yes vv s i y

  -- Within one tally a quorum for a side is its majority.
  own_majority :
      ((has_quorum t.yes_votes ≡ true) → t.no_votes.sum < t.yes_votes.sum)
      × ((has_quorum t.no_votes ≡ true) → t.yes_votes.sum < t.no_votes.sum)
  own_majority =
      let w = a.tally in
      let y = counted_weight vv t.yes_votes w.yes_group w.yes_counting in
      let n = counted_weight vv t.no_votes w.no_group w.no_counting in
      let all = counted_weight vv t.all_votes w.all_group w.all_counting in
      let top = weight-le-sum t.all_votes.already vv.cache.stakes in
      (
        λ q. omega (
          arith,
          w.parts,
          y,
          n,
          all,
          top,
          quorum_weight vv t.yes_votes s w.yes_group w.yes_counting q,
        ),
        λ q. omega (
          arith,
          w.parts,
          y,
          n,
          all,
          top,
          quorum_weight vv t.no_votes s w.no_group w.no_counting q,
        ),
      )

  votes-agree :
      (vote_of_tally t).decided ≡ true → (vote_of_tally u).is_yes ≡ (vote_of_tally t).is_yes
  unfolding vote_of_tally
  votes-agree d = elim (Bool-cases (has_quorum t.yes_votes)) [
    | inl q ↦ ground (arith, yes_wins q, own_majority.0 q)
    | inr q ↦
        let q' : has_quorum t.no_votes ≡ true = ground arith in
        ground (arith, no_wins q', own_majority.1 q')
  ]

-- Over a sound group: if one root's count makes the vote on a subject final, then every other root
-- whose count of that round gives a vote votes the same way, on any node, unless a validator is
-- counted on one side here and on the other side there.
pub final_vote-agree :
    (vv : Validators) (subject : ℕ) (votes votes' : Votes) (rs rs' : List RootAndSlot)
    (x y : VoteValue)
    → IsSound vv
    → Consistent vv subject votes votes' rs rs'
    → aggregate vv votes rs subject ≡ ok x
    → aggregate vv votes' rs' subject ≡ ok y
    → x.decided ≡ true
    → y.is_yes ≡ x.is_yes
final_vote-agree vv subject votes votes' rs rs' x y s same h k d =
    let (t, a, _, ex) = aggregate-tally vv votes rs subject x s h in
    let (u, b, full, ey) = aggregate-tally vv votes' rs' subject y s k in
    rw (ex, ey) (votes-agree vv s subject votes votes' rs rs' t u a b same full (rw ex at d))
