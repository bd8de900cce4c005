-- ===== src/Election/Process/Final.antt =====
-- A decided root stays decided: `ProcessRoot` only adds decisions.
use lachesis_ex.Prelude.{
  ℕ, ◌≡◌, ◌≢◌, refl, Bool, List, [], ◌∷◌, Option, none, some, arith, Option-cases, Bool-cases, inl,
  inr, leb, ◌==◌, ◌-◌,
}
use lachesis_ex.Prelude.Assoc.{lookup, lookup-insert}
use lachesis_ex.Election.{
  Outcome, ok, ◌>>=◌, VoteValue, Election, RootAndSlot, Res, choose_atropos, undecided,
  not_decided_roots, save_vote, first_vote, aggregate, first_round, later_round,
}
use lachesis_ex.Election.Process.{
  vote_on_subjects, process_new_root, process_root, observed_roots, observed_roots_map,
}

pub >>=-eq-ok {ℓ κ} :
    {Before : Type ℓ} {After : Type κ} (first : Outcome Before) (next : Before → Outcome After)
    {result : After}
    → (first >>= next) ≡ ok result
    → (value : Before) × (first ≡ ok value) × (next value ≡ ok result)
>>=-eq-ok Outcome.crit next h = cc
>>=-eq-ok Outcome.fork_roots next h = cc
>>=-eq-ok Outcome.all_no next h = cc
>>=-eq-ok (ok value) next h = (value, refl, h)

abbrev NotIn : ℕ → List ℕ → Type 0
NotIn v [] = Unit
NotIn v (s ∷ ss) = (s ≢ v) × NotIn v ss

undecided-NotIn :
    (decided : List (ℕ × VoteValue)) (ids : List ℕ) (v : ℕ) (vote : VoteValue)
    → lookup v decided ≡ some vote
    → NotIn v (undecided decided ids)
unfolding undecided
undecided-NotIn decided [] v vote h = tt
undecided-NotIn decided (i ∷ is) v vote h = elim (Option-cases (lookup i decided)) [
  | inl e ↦ rw (e, undecided) ((λ q. ground arith), undecided-NotIn decided is v vote h)
  | inr (w, e) ↦ rw (e, undecided) (undecided-NotIn decided is v vote h)
]

subjects-NotIn :
    (el : Election) (ss : List ℕ) (v : ℕ) (vote : VoteValue)
    → not_decided_roots el ≡ ok ss
    → lookup v el.decided_roots ≡ some vote
    → NotIn v ss
unfolding not_decided_roots
subjects-NotIn el ss v vote h d =
    let same : undecided el.decided_roots el.validators.cache.ids ≡ ss = ground arith in
    rw same at (undecided-NotIn el.decided_roots el.validators.cache.ids v vote d)

save_vote-kept :
    (root s v : ℕ) (w : VoteValue) (el : Election)
    → s ≢ v
    → lookup v (save_vote root s w el).decided_roots ≡ lookup v el.decided_roots
unfolding save_vote
save_vote-kept root s v w el h = ground (arith, lookup-insert s v w el.decided_roots)

first_round-kept :
    (root v : ℕ) (observed : List (ℕ × ℕ)) (ss : List ℕ) (el : Election)
    → NotIn v ss
    → lookup v (first_round root observed ss el).decided_roots ≡ lookup v el.decided_roots
unfolding first_round
first_round-kept root v observed [] el n = refl
first_round-kept root v observed (s ∷ ss) el n =
    rw (first_round-kept root v observed ss (save_vote root s (first_vote observed s) el) n.1)
      (save_vote-kept root s v (first_vote observed s) el n.0)

later_round-kept :
    (root v : ℕ) (observed : List RootAndSlot) (ss : List ℕ) (el el' : Election)
    → NotIn v ss
    → later_round root observed ss el ≡ ok el'
    → lookup v el'.decided_roots ≡ lookup v el.decided_roots
unfolding later_round
later_round-kept root v observed [] el el' n h = ground arith
later_round-kept root v observed (s ∷ ss) el el' n h =
    let (w, _, rest) = >>=-eq-ok (aggregate el.validators el.votes observed s) _ h in
    rw (later_round-kept root v observed ss (save_vote root s w el) el' n.1 rest)
      (save_vote-kept root s v w el n.0)

module _ (observe : ℕ → ℕ → Bool) (get_frame_roots : ℕ → List RootAndSlot) where
  vote_on_subjects-kept :
      (el el' : Election) (r : RootAndSlot) (ss : List ℕ) (v : ℕ)
      → NotIn v ss
      → vote_on_subjects observe get_frame_roots el r ss ≡ ok el'
      → lookup v el'.decided_roots ≡ lookup v el.decided_roots
  unfolding vote_on_subjects
  vote_on_subjects-kept el el' r ss v n h = elim (Bool-cases (r.frame - el.frame_to_decide == 1)) [
    | inl e ↦
        let observed = observed_roots_map observe get_frame_roots r.id (r.frame - 1) in
        ground (arith, first_round-kept r.id v observed ss el n)
    | inr e ↦
        later_round-kept r.id v (observed_roots observe get_frame_roots r.id (r.frame - 1)) ss el
          el' n (ground arith)
  ]

  process_new_root-kept :
      (el el' : Election) (r : RootAndSlot) (res : Option Res) (v : ℕ) (vote : VoteValue)
      → lookup v el.decided_roots ≡ some vote
      → process_new_root observe get_frame_roots el r ≡ ok (el', res)
      → lookup v el'.decided_roots ≡ some vote
  unfolding process_new_root
  process_new_root-kept el el' r res v vote d h =
      elim (Bool-cases (leb r.frame el.frame_to_decide)) [
        | inl e ↦ ground arith
        | inr e ↦
            let (ss, found, more) = >>=-eq-ok (not_decided_roots el) _ (rw e at h) in
            let (el2, voted, last) =
              >>=-eq-ok (vote_on_subjects observe get_frame_roots el r ss) _ more in
            let (res2, chosen, done) = >>=-eq-ok (choose_atropos el2) _ last in
            let kept =
              vote_on_subjects-kept el el2 r ss v (subjects-NotIn el ss v vote found d) voted in
            ground (arith, kept)
      ]

  -- A final vote is never taken back or changed: when a root is processed without an error, a
  -- validator that was decided is decided as before.
  pub process_root-decided_kept :
      (el el' : Election) (r : RootAndSlot) (res : Option Res) (v : ℕ) (vote : VoteValue)
      → lookup v el.decided_roots ≡ some vote
      → process_root observe get_frame_roots el r ≡ ok (el', res)
      → lookup v el'.decided_roots ≡ some vote
  unfolding process_root
  process_root-decided_kept el el' r res v vote d h =
      let (found, chosen, rest) = >>=-eq-ok (choose_atropos el) _ h in go found rest
    where
      go :
          (found : Option Res)
          → elim found [
            | none ↦ process_new_root observe get_frame_roots el r
            | some res ↦ ok (el, some res)
          ]
            ≡ ok (el', res)
          → lookup v el'.decided_roots ≡ some vote
      go none rest = process_new_root-kept el el' r res v vote d rest
      go (some x) rest = ground arith
