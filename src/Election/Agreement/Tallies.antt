-- ===== src/Election/Agreement/Tallies.antt =====
-- What a tally of votes holds: who is counted on which side, and that nobody is counted twice.
use lachesis_ex.Prelude.{
  ℕ, ◌+◌, ◌≡◌, ◌⊎◌, refl, ap, ◌∙◌, sym, inl, inr, Bool, true, false, List, [], ◌∷◌, Option, none,
  some, arith, get_or, if◌then◌else◌, Bool-cases,
}
use lachesis_ex.Pos.{Validators, get_idx}
use lachesis_ex.Pos.Stake.{StakeCounter, count}
use lachesis_ex.Pos.Stake.Counting.{IsSound, IsCounting}
use lachesis_ex.Election.{
  Outcome, ok, ◌>>=◌, or_crit, RootAndSlot, VoteValue, Votes, Tally, find_vote, differs, count_side,
  count_vote, double_vote, count_votes,
}
use lachesis_ex.Election.Process.Final.{>>=-eq-ok}
use lachesis_ex.Pos.Stake.Steps.{Marked, Step, count-Step, Marked-inv, Marked-mono, Marked-self}

-- The three counters are over the group, and the two sides make up all votes.
pub record IsTally (vv : Validators) (t : Tally) : Type 0 where
  pub yes_group : t.yes_votes.validators ≡ vv
  pub no_group : t.no_votes.validators ≡ vv
  pub all_group : t.all_votes.validators ≡ vv
  pub yes_counting : IsCounting t.yes_votes
  pub no_counting : IsCounting t.no_votes
  pub all_counting : IsCounting t.all_votes
  pub yes_in_all : (i : ℕ) → Marked t.yes_votes i → Marked t.all_votes i
  pub no_in_all : (i : ℕ) → Marked t.no_votes i → Marked t.all_votes i
  pub parts : t.all_votes.sum ≡ t.yes_votes.sum + t.no_votes.sum

-- Whoever is new among all votes was on neither side.
new_side :
    {s all : StakeCounter} {i : ℕ} {t c : StakeCounter} {new : Bool}
    → ((j : ℕ) → Marked s j → Marked all j)
    → Step s i t new
    → Step all i c true
    → new ≡ true
new_side {new = true} inside st sa = refl
new_side {i = i} {new = false} inside st sa = absurd (clash (inside i st.fresh) sa.fresh)
  where
    clash : {o : Option Bool} → o ≡ some true → o ≡ some false → ⊥
    clash p q = cc

module _ (vv : Validators) (t : Tally) (v : IsTally vv t) (i : ℕ) (c : StakeCounter) (h : Option ℕ)
    (a : StakeCounter) (new : Bool) (sa : Step t.all_votes i a true) where
  abbrev yes_tally : Tally
  yes_tally = record { yes_votes = c; no_votes = t.no_votes; all_votes = a; subject_hash = h }

  abbrev no_tally : Tally
  no_tally = record { yes_votes = t.yes_votes; no_votes = c; all_votes = a; subject_hash = h }

  yes-IsTally : Step t.yes_votes i c new → IsTally vv yes_tally
  yes-IsTally st = record {
    yes_group = st.group ∙ v.yes_group;
    no_group = v.no_group;
    all_group = sa.group ∙ v.all_group;
    yes_counting = st.counting;
    no_counting = v.no_counting;
    all_counting = sa.counting;
    yes_in_all = λ j m. elim (Marked-inv j st m) [
      | inl e ↦ rw e at (Marked-self sa)
      | inr old ↦ Marked-mono j sa (v.yes_in_all j old)
    ];
    no_in_all = λ j m. Marked-mono j sa (v.no_in_all j m);
    parts =
        let fresh = new_side v.yes_in_all st sa in
        let mine = rw fresh at st.added in
        omega (
          arith,
          mine,
          sa.added,
          v.parts,
          ap (λ x. get_or x.cache.stakes i 0) (v.yes_group ∙ sym v.all_group),
        );
  }

  no-IsTally : Step t.no_votes i c new → IsTally vv no_tally
  no-IsTally st = record {
    yes_group = v.yes_group;
    no_group = st.group ∙ v.no_group;
    all_group = sa.group ∙ v.all_group;
    yes_counting = v.yes_counting;
    no_counting = st.counting;
    all_counting = sa.counting;
    yes_in_all = λ j m. Marked-mono j sa (v.yes_in_all j m);
    no_in_all = λ j m. elim (Marked-inv j st m) [
      | inl e ↦ rw e at (Marked-self sa)
      | inr old ↦ Marked-mono j sa (v.no_in_all j old)
    ];
    parts =
        let fresh = new_side v.no_in_all st sa in
        let mine = rw fresh at st.added in
        omega (
          arith,
          mine,
          sa.added,
          v.parts,
          ap (λ x. get_or x.cache.stakes i 0) (v.no_group ∙ sym v.all_group),
        );
  }

-- What one vote adds to a tally.
record Gains (vv : Validators) (t : Tally) (i : ℕ) (side : Bool) (u : Tally) : Type 0 where
  tally : IsTally vv u
  gained_yes : (j : ℕ) → Marked u.yes_votes j → ((i ≡ j) × (side ≡ true)) ⊎ Marked t.yes_votes j
  gained_no : (j : ℕ) → Marked u.no_votes j → ((i ≡ j) × (side ≡ false)) ⊎ Marked t.no_votes j

or_crit-ok {ℓ} : {A : Type ℓ} (o : Option A) {a : A} → or_crit o ≡ ok a → o ≡ some a
or_crit-ok (some b) h = ground arith
or_crit-ok none h = cc

double_vote-stops : (o : Option ℕ) (w : Tally) → double_vote o ≡ ok w → ⊥
double_vote-stops none w h = cc
double_vote-stops (some _) w h = cc

-- The last part of `count_vote`, after the side is counted.
abbrev finish : Tally → ℕ → Outcome Tally
finish u id = or_crit (count u.all_votes id) >>= λ (c, new).
    if new then ok (record u { all_votes = c }) else double_vote u.subject_hash

finish-ok :
    (u : Tally) (id : ℕ) (w : Tally)
    → finish u id ≡ ok w
    → (a : StakeCounter) × (count u.all_votes id ≡ some (a, true))
      × (w ≡ record u { all_votes = a })
finish-ok u id w h =
    let ((a, new), counted, rest) = >>=-eq-ok (or_crit (count u.all_votes id)) _ h in
    go a new (or_crit-ok (count u.all_votes id) counted) rest
  where
    go :
        (a : StakeCounter) (new : Bool)
        → count u.all_votes id ≡ some (a, new)
        → (if new then ok (record u { all_votes = a }) else double_vote u.subject_hash) ≡ ok w
        → (a : StakeCounter) × (count u.all_votes id ≡ some (a, true))
          × (w ≡ record u { all_votes = a })
    go a true e r = (a, e, ground arith)
    go a false e r = absurd (double_vote-stops u.subject_hash w r)

module _ (vv : Validators) (s : IsSound vv) (t : Tally) (v : IsTally vv t) (id : ℕ) where
  yes-Gains :
      (c : StakeCounter) (new : Bool) (h : Option ℕ) (w : Tally)
      → count t.yes_votes id ≡ some (c, new)
      → finish (record t { yes_votes = c; subject_hash = h }) id ≡ ok w
      → Gains vv t (get_idx vv id) true w
  yes-Gains c new h w e f =
      let (a, all, shape) = finish-ok _ id w f in
      let st = count-Step vv t.yes_votes id c new s v.yes_group v.yes_counting e in
      let sa = count-Step vv t.all_votes id a true s v.all_group v.all_counting all in
      rw shape (record {
        tally = yes-IsTally vv t v (get_idx vv id) c h a new sa st;
        gained_yes = λ j m. elim (Marked-inv j st m) [ inl q ↦ inl (q, refl) | inr old ↦ inr old ];
        gained_no = λ j m. inr m;
      })

  no-Gains :
      (c : StakeCounter) (new : Bool) (w : Tally)
      → count t.no_votes id ≡ some (c, new)
      → finish (record t { no_votes = c }) id ≡ ok w
      → Gains vv t (get_idx vv id) false w
  no-Gains c new w e f =
      let (a, all, shape) = finish-ok _ id w f in
      let st = count-Step vv t.no_votes id c new s v.no_group v.no_counting e in
      let sa = count-Step vv t.all_votes id a true s v.all_group v.all_counting all in
      rw shape (record {
        tally = no-IsTally vv t v (get_idx vv id) c t.subject_hash a new sa st;
        gained_yes = λ j m. inr m;
        gained_no = λ j m. elim (Marked-inv j st m) [ inl q ↦ inl (q, refl) | inr old ↦ inr old ];
      })

  side-Gains :
      (vote : VoteValue) (u w : Tally)
      → count_side t id vote ≡ ok u
      → finish u id ≡ ok w
      → Gains vv t (get_idx vv id) vote.is_yes w
  unfolding count_side
  side-Gains vote u w h f = elim (Bool-cases vote.is_yes) [
    | inl y ↦
        let ((c, new), counted, same) = >>=-eq-ok (or_crit (count t.yes_votes id)) _ (rw y at h) in
        let shape : u ≡ record t { yes_votes = c; subject_hash = some vote.observed_root } =
          ground arith in
        rw y (yes-Gains c new (some vote.observed_root) w (or_crit-ok _ counted) (rw shape at f))
    | inr n ↦
        let ((c, new), counted, same) = >>=-eq-ok (or_crit (count t.no_votes id)) _ (rw n at h) in
        let shape : u ≡ record t { no_votes = c } = ground arith in
        rw n (no-Gains c new w (or_crit-ok _ counted) (rw shape at f))
  ]

  count_vote-Gains :
      (vote : VoteValue) (w : Tally)
      → count_vote t id vote ≡ ok w
      → Gains vv t (get_idx vv id) vote.is_yes w
  unfolding count_vote
  count_vote-Gains vote w h = elim (Bool-cases (differs t.subject_hash vote)) [
    | inl e ↦ absurd (clash (rw e at h))
    | inr e ↦
        let (u, side, rest) = >>=-eq-ok (count_side t id vote) _ (rw e at h) in
        side-Gains vote u w side rest
  ]
    where
      clash : Outcome.fork_roots ≡ ok w → ⊥
      clash q = cc

-- Some root of the list satisfies the predicate.
abbrev pub AnyRoot : (RootAndSlot → Type 0) → List RootAndSlot → Type 0
AnyRoot P [] = ⊥
AnyRoot P (r ∷ rs) = P r ⊎ AnyRoot P rs

-- The root is of the validator with that index, and voted on that side.
abbrev pub Voted : Validators → Votes → ℕ → Bool → ℕ → RootAndSlot → Type 0
Voted vv votes subject side i r =
    (get_idx vv r.validator ≡ i)
    × ((vote : VoteValue) × (find_vote r.id subject votes ≡ some vote) × (vote.is_yes ≡ side))

-- A finished tally: its marks come from the votes of the counted roots.
pub record Tallied (vv : Validators) (votes : Votes) (subject : ℕ) (rs : List RootAndSlot)
    (t u : Tally) : Type 0 where
  pub tally : IsTally vv u
  pub from_yes :
      (i : ℕ)
      → Marked u.yes_votes i
      → AnyRoot (Voted vv votes subject true i) rs ⊎ Marked t.yes_votes i
  pub from_no :
      (i : ℕ)
      → Marked u.no_votes i
      → AnyRoot (Voted vv votes subject false i) rs ⊎ Marked t.no_votes i

pub count_votes-Tallied :
    (vv : Validators) (votes : Votes) (subject : ℕ) (rs : List RootAndSlot) (t u : Tally)
    → IsSound vv
    → IsTally vv t
    → count_votes votes subject rs t ≡ ok u
    → Tallied vv votes subject rs t u
unfolding count_votes
count_votes-Tallied vv votes subject [] t u s v h =
    let same : t ≡ u = ground arith in
    rw (← same) (record { tally = v; from_yes = λ i m. inr m; from_no = λ i m. inr m })
count_votes-Tallied vv votes subject (r ∷ rs) t u s v h =
    let (vote, found, more) = >>=-eq-ok (or_crit (find_vote r.id subject votes)) _ h in
    let (t1, counted, rest) = >>=-eq-ok (count_vote t r.validator vote) _ more in
    let voted = or_crit-ok (find_vote r.id subject votes) found in
    let g = count_vote-Gains vv s t v r.validator vote t1 counted in
    let w = count_votes-Tallied vv votes subject rs t1 u s g.tally rest in
    record {
      tally = w.tally;
      from_yes = λ i m. elim (w.from_yes i m) [
        | inl a ↦ inl (inr a)
        | inr k ↦ elim (g.gained_yes i k) [
          | inl (e, side) ↦ inl (inl (e, (vote, voted, side)))
          | inr old ↦ inr old
        ]
      ];
      from_no = λ i m. elim (w.from_no i m) [
        | inl a ↦ inl (inr a)
        | inr k ↦ elim (g.gained_no i k) [
          | inl (e, side) ↦ inl (inl (e, (vote, voted, side)))
          | inr old ↦ inr old
        ]
      ];
    }
