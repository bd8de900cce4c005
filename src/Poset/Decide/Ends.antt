-- ===== src/Poset/Decide/Ends.antt =====
-- A decided frame ends in a block, and the epoch goes on or is sealed.
use lachesis_ex.Prelude.{
  ℕ, suc, ◌+◌, ◌-◌, ◌%◌, ◌≤◌, ◌<◌, ◌≡◌, ◌≢◌, inl, inr, refl, ap, ◌∙◌, Bool, true, false, List, [],
  ◌∷◌, Option, none, some, length, ◌==◌, arith, Bool-cases, Option-cases, word32, word64,
  >>=-eq-some, ==_iff,
}
use mathlib.Core.Path.{subst}
use mathlib.Core.Option.{some-injective}
use lachesis_ex.Prelude.Assoc.{lookup}
use lachesis_ex.Inter.{EventHeaderData}
use lachesis_ex.Election.{reset}
use lachesis_ex.Walk.{Walked, done, not_found, out_of_fuel}
use lachesis_ex.Walk.Rule.{walk-ends}
use lachesis_ex.Poset.Confirm.{
  Headers, confirmed_on, confirm_event, visit_event, confirm_events, count_parents,
}
use lachesis_ex.Poset.Confirm.Ancestors.{IsStored, left_parents, left_parents-le, left_parents_pays}
use lachesis_ex.Poset.Decide.{
  Checkpoint, State, Block, Application, nothing, collect, Handled, ended, fatal, no_fuel, ◌>>=ₕ◌,
  or_fatal, of_walk, frame_consensus_time, apply_block, seal_epoch, confirm_block, start_frame,
  apply_decided, on_frame_decided,
}

-- It does not run out of fuel, and its value, if it is not fatal, is as `P` says.
abbrev pub EndsWith {ℓ} : {A : Type ℓ} → (A → Type 0) → Handled A → Type 0
EndsWith P (ended a) = P a
EndsWith P fatal = Unit
EndsWith P no_fuel = ⊥

pub >>=ₕ-EndsWith {ℓ κ} :
    {A : Type ℓ} {B : Type κ} (P : A → Type 0) (Q : B → Type 0) (first : Handled A)
    (next : A → Handled B)
    → EndsWith P first
    → ((a : A) → P a → EndsWith Q (next a))
    → EndsWith Q (first >>=ₕ next)
>>=ₕ-EndsWith P Q (ended a) next p more = more a p
>>=ₕ-EndsWith P Q fatal next p more = tt
>>=ₕ-EndsWith P Q no_fuel next p more = p

-- No more is known of the value.
abbrev pub Any {ℓ} : {A : Type ℓ} → A → Type 0
Any a = Unit

or_fatal-EndsWith {ℓ} : {A : Type ℓ} (o : Option A) → EndsWith Any (or_fatal o)
or_fatal-EndsWith none = tt
or_fatal-EndsWith (some a) = tt

of_walk-EndsWith {ℓ} : {A : Type ℓ} (w : Walked A) → w ≢ out_of_fuel → EndsWith Any (of_walk w)
of_walk-EndsWith (done a) h = tt
of_walk-EndsWith not_found h = tt
of_walk-EndsWith out_of_fuel h = h refl

-- Nothing but the confirmed events and the frame infos changes.
record Kept (s t : State) : Type 0 where
  checkpoint : t.checkpoint ≡ s.checkpoint
  epoch : t.epoch_n ≡ s.epoch_n
  validators : t.validators ≡ s.validators
  election : t.election ≡ s.election
  roots : t.roots ≡ s.roots

-- The frame is decided, with one more block, and the epoch goes on.
pub record GoesOn (s t : State) (frame : ℕ) : Type 0 where
  pub epoch : t.epoch_n ≡ s.epoch_n
  pub roots : t.roots ≡ s.roots
  pub last : t.checkpoint.last_decided_frame ≡ frame
  pub blocks : t.checkpoint.last_block_n ≡ (s.checkpoint.last_block_n + 1) % word64
  pub to_decide : t.election.frame_to_decide ≡ (frame + 1) % word32

-- The next epoch begins, without decided frames or roots.
pub record Begins (s t : State) : Type 0 where
  pub epoch : t.epoch_n ≡ (s.epoch_n + 1) % word32
  pub before : t.prev_epoch.epoch ≡ s.epoch_n
  pub roots : t.roots ≡ []
  pub last : t.checkpoint.last_decided_frame ≡ 0
  pub to_decide : t.election.frame_to_decide ≡ 1

abbrev pub Decided : State → ℕ → State × Bool → Type 0
Decided s frame (t, true) = Begins s t
Decided s frame (t, false) = GoesOn s t frame

module _ (app : Application) (headers : Headers) (merged : ℕ → List ℕ)
    (stored : IsStored headers) where
  -- A visit pushes no more parents than it takes from those left.
  confirm_event-paid {ℓ} :
      {A : Type ℓ} (call : A → EventHeaderData → A) (frame : ℕ) (table : List (ℕ × ℕ)) (a : A)
      (header : EventHeaderData)
      → 0 < frame
      → lookup header.hash headers ≡ some header
      → left_parents headers (confirm_event headers frame call (table, a) header).0.0
          + length (confirm_event headers frame call (table, a) header).1
        ≤ left_parents headers table
  unfolding confirm_event
  confirm_event-paid call frame table a header f l =
      elim (Bool-cases (confirmed_on table header.hash == 0)) [
        | inl e ↦ rw e (
            left_parents_pays headers table header.hash frame header f l
              ((==_iff (confirmed_on table header.hash) 0).0 e))
        | inr e ↦ rw e (omega arith)
      ]

  visit_event-paid {ℓ} :
      {A : Type ℓ} (call : A → EventHeaderData → A) (frame : ℕ)
      → 0 < frame
      → (id : ℕ) (s next : List (ℕ × ℕ) × A) (parents : List ℕ)
      → visit_event headers frame call s id ≡ some (next, parents)
      → left_parents headers next.0 + length parents ≤ left_parents headers s.0
  unfolding visit_event
  visit_event-paid call frame f id (table, a) next parents h =
      let (header, l, is) = >>=-eq-some (lookup id headers) _ h in
      subst (λ x. left_parents headers x.0.0 + length x.1 ≤ left_parents headers table)
        (some-injective _ _ is)
        (confirm_event-paid call frame table a header f
          (ap (λ k. lookup k headers) (stored.by_id id header l) ∙ l))

  confirm_events-ends {ℓ} :
      {A : Type ℓ} (call : A → EventHeaderData → A) (frame atropos : ℕ) (table : List (ℕ × ℕ))
      (a : A)
      → 0 < frame
      → confirm_events headers frame call (suc (count_parents headers)) atropos (table, a)
        ≢ out_of_fuel
  unfolding confirm_events
  confirm_events-ends call frame atropos table a f =
      walk-ends (visit_event headers frame call) (λ s. left_parents headers s.0)
        (visit_event-paid call frame f) (suc (count_parents headers)) (atropos ∷ []) (table, a)
        (omega (arith, left_parents-le headers table))

  confirm_block-Kept :
      (s : State) (frame atropos : ℕ)
      → 0 < frame
      → EndsWith (λ x. Kept s x.0) (confirm_block app headers merged s frame atropos)
  unfolding confirm_block
  confirm_block-Kept s frame atropos f =
      >>=ₕ-EndsWith Any _ _ _
        (of_walk-EndsWith _ (
          confirm_events-ends (collect app s.validators (merged atropos)) frame atropos s.confirmed
            (some nothing) f))
        λ (table, found) _. >>=ₕ-EndsWith Any _ _ _ (or_fatal-EndsWith found) λ c _.
          >>=ₕ-EndsWith Any _ _ _
            (or_fatal-EndsWith (frame_consensus_time s ((frame + (word32 - 1)) % word32)))
            λ last _.
              >>=ₕ-EndsWith Any _ _ _ (or_fatal-EndsWith (lookup atropos headers)) λ header _.
                record {
                  checkpoint = refl;
                  epoch = refl;
                  validators = refl;
                  election = refl;
                  roots = refl;
                }

  seal_epoch-Begins : (s : State) → EndsWith (λ t. Begins s t) (seal_epoch app s)
  unfolding seal_epoch reset
  seal_epoch-Begins s =
      >>=ₕ-EndsWith Any _ _ _
        (or_fatal-EndsWith (frame_consensus_time s s.checkpoint.last_decided_frame))
        λ time _. record {
          epoch = refl;
          before = refl;
          roots = refl;
          last = refl;
          to_decide = refl;
        }

  -- The application changes its own hash only.
  apply_block-kept :
      (c : Checkpoint) (block : Block) (frame : ℕ) (cheaters : List ℕ)
      → ((apply_block app c block frame cheaters).0.last_decided_frame ≡ c.last_decided_frame)
        × ((apply_block app c block frame cheaters).0.last_block_n ≡ c.last_block_n)
  unfolding apply_block
  apply_block-kept c block frame cheaters = elim (Option-cases app.apply_block) [
    | inl e ↦ rw e (refl, refl)
    | inr (run, e) ↦ rw e (refl, refl)
  ]

  apply_decided-Decided :
      (s t : State) (block : Block) (frame atropos : ℕ) (cheaters : List ℕ)
      → Kept (start_frame s frame) t
      → EndsWith (Decided s frame) (apply_decided app t block frame atropos cheaters)
  unfolding apply_decided start_frame apply_block reset
  apply_decided-Decided s t block frame atropos cheaters k =
      let counted = record t.checkpoint {
        last_block_n = (t.checkpoint.last_block_n + 1) % word64;
      } in
      let applied = apply_block app counted block frame cheaters in
      let (last, blocks) = apply_block-kept counted block frame cheaters in
      elim (Bool-cases applied.1) [
        | inl e ↦
            rw (e, apply_decided, EndsWith)
              (>>=ₕ-EndsWith
                (λ v.
                  Begins (record t { checkpoint = record applied.0 { last_atropos = atropos } }) v)
                _ _ _
                (seal_epoch-Begins
                  (record t { checkpoint = record applied.0 { last_atropos = atropos } }))
                λ v b. record {
                  epoch = b.epoch ∙ ap (λ n. (n + 1) % word32) k.epoch;
                  before = b.before ∙ k.epoch;
                  roots = b.roots;
                  last = b.last;
                  to_decide = b.to_decide;
                })
        | inr e ↦
            rw (e, apply_decided, EndsWith)
              (record {
                epoch = k.epoch;
                roots = k.roots;
                last = last ∙ ap (λ c. c.last_decided_frame) k.checkpoint;
                blocks = blocks ∙ ap (λ c. (c.last_block_n + 1) % word64) k.checkpoint;
                to_decide = ap (λ el. el.frame_to_decide) k.election;
              })
      ]

  -- A decided frame is handled without running out of fuel.
  pub on_frame_decided-Decided :
      (s : State) (frame atropos : ℕ)
      → 0 < frame
      → EndsWith (Decided s frame) (on_frame_decided app headers merged s frame atropos)
  unfolding on_frame_decided
  on_frame_decided-Decided s frame atropos f =
      >>=ₕ-EndsWith (λ x. Kept (start_frame s frame) x.0) _ _ _
        (confirm_block-Kept (start_frame s frame) frame atropos f)
        λ (t, block, cheaters) k. apply_decided-Decided s t block frame atropos cheaters k
