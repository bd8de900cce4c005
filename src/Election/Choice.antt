-- ===== src/Election/Choice.antt =====
-- `chooseAtropos`: the first validator, by stake, whose root is decided yes.
use lachesis_ex.Prelude.{
  ℕ, ◌≡◌, refl, ap, ◌↔◌, Bool, true, false, List, [], ◌∷◌, ◌++◌, some, arith, Option-cases,
  Bool-cases, inl, inr,
}
use lachesis_ex.Prelude.Assoc.{lookup}
use lachesis_ex.Election.{ok, VoteValue, Election, Res, choose_loop, choose_atropos}

-- The validator is decided, with the vote yes or no.
abbrev pub Decided : List (ℕ × VoteValue) → Bool → ℕ → VoteValue → Type 0
Decided decided side v vote = (lookup v decided ≡ some vote) × (vote.is_yes ≡ side)

abbrev pub AllNo : List (ℕ × VoteValue) → List ℕ → Type 0
AllNo decided [] = Unit
AllNo decided (v ∷ vs) = ((vote : VoteValue) × Decided decided false v vote) × AllNo decided vs

-- A validator decided yes, with all those before it in the order decided no.
pub record FirstYes (decided : List (ℕ × VoteValue)) (ids : List ℕ) (root : ℕ) : Type 0 where
  pub before : List ℕ
  pub validator : ℕ
  pub after : List ℕ
  pub vote : VoteValue
  pub order : ids ≡ before ++ validator ∷ after
  pub no_before : AllNo decided before
  pub chosen : Decided decided true validator vote
  pub observed : root ≡ vote.observed_root

choose_loop-FirstYes :
    (frame : ℕ) (decided : List (ℕ × VoteValue)) (ids : List ℕ) (res : Res)
    → choose_loop frame decided ids ≡ ok (some res)
    → FirstYes decided ids res.atropos × (res.frame ≡ frame)
unfolding choose_loop
choose_loop-FirstYes frame decided [] res h = cc
choose_loop-FirstYes frame decided (v ∷ vs) res h = elim (Option-cases (lookup v decided)) [
  | inl e ↦ ground (arith, e)
  | inr (vote, e) ↦ elim (Bool-cases vote.is_yes) [
    | inl y ↦ (
      record {
        before = [];
        validator = v;
        after = vs;
        vote = vote;
        order = refl;
        no_before = tt;
        chosen = (e, y);
        observed = ground arith;
      },
      ground arith,
    )
    | inr n ↦
        let (rest, f) = choose_loop-FirstYes frame decided vs res (ground arith) in
        (
          record {
            before = v ∷ rest.before;
            validator = rest.validator;
            after = rest.after;
            vote = rest.vote;
            order = ap (◌∷◌ v) rest.order;
            no_before = ((vote, (e, n)), rest.no_before);
            chosen = rest.chosen;
            observed = rest.observed;
          },
          f,
        )
  ]
]

choose_loop-of_first :
    (frame : ℕ) (decided : List (ℕ × VoteValue)) (before after : List ℕ) (v : ℕ) (vote : VoteValue)
    → AllNo decided before
    → Decided decided true v vote
    → choose_loop frame decided (before ++ v ∷ after)
      ≡ ok (some (record { frame = frame; atropos = vote.observed_root }))
unfolding choose_loop
choose_loop-of_first frame decided [] after v vote n (found, y) = ground arith
choose_loop-of_first frame decided (b ∷ before) after v vote ((w, (found, no_w)), n) y =
    ground (arith, choose_loop-of_first frame decided before after v vote n y)

-- `chooseAtropos` gives a root exactly if some validator is decided yes on that root and all the
-- validators before it, in the order of their stakes, are decided no. The frame is the one to
-- decide.
pub choose_atropos-FirstYes :
    (el : Election) (res : Res)
    → (choose_atropos el ≡ ok (some res)) ↔ (
        FirstYes el.decided_roots el.validators.cache.ids res.atropos
        × (res.frame ≡ el.frame_to_decide))
unfolding choose_atropos
choose_atropos-FirstYes el res = (
  choose_loop-FirstYes el.frame_to_decide el.decided_roots el.validators.cache.ids res,
  λ (y, f).
      rw
        (
          y.order,
          choose_loop-of_first el.frame_to_decide el.decided_roots y.before y.after y.validator
              y.vote y.no_before y.chosen,
        )
        (ground (arith, y.observed, f)),
)

-- The two nodes never hold different final votes on one validator.
abbrev pub Compatible : List (ℕ × VoteValue) → List (ℕ × VoteValue) → Type 0
Compatible d e =
    (v : ℕ) (x y : VoteValue)
    → lookup v d ≡ some x
    → lookup v e ≡ some y
    → (x.is_yes ≡ y.is_yes) × (x.observed_root ≡ y.observed_root)

choose_loop-agree :
    (frame : ℕ) (d e : List (ℕ × VoteValue)) (ids : List ℕ) (x y : Res)
    → Compatible d e
    → choose_loop frame d ids ≡ ok (some x)
    → choose_loop frame e ids ≡ ok (some y)
    → x ≡ y
unfolding choose_loop
choose_loop-agree frame d e [] x y c h k = cc
choose_loop-agree frame d e (v ∷ vs) x y c h k = elim (Option-cases (lookup v d)) [
  | inl n ↦ ground (arith, n)
  | inr (a, f) ↦ elim (Option-cases (lookup v e)) [
    | inl n ↦ ground (arith, n)
    | inr (b, g) ↦
        let same = c v a b f g in ground (arith, same, choose_loop-agree frame d e vs x y c)
  ]
]

-- Two nodes whose final votes are compatible, for one group and one frame, choose the same
-- Atropos, however many of the validators each of them has decided.
pub choose_atropos-agree :
    (el other : Election) (x y : Res)
    → el.validators ≡ other.validators
    → el.frame_to_decide ≡ other.frame_to_decide
    → Compatible el.decided_roots other.decided_roots
    → choose_atropos el ≡ ok (some x)
    → choose_atropos other ≡ ok (some y)
    → x ≡ y
unfolding choose_atropos
choose_atropos-agree el other x y v f c h k =
    choose_loop-agree el.frame_to_decide el.decided_roots other.decided_roots
      el.validators.cache.ids x y c h (rw (v, f) k)
