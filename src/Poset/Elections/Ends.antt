-- ===== src/Poset/Elections/Ends.antt =====
-- The loops of the elections end: a frame is decided at most once, and needs a root.
use lachesis_ex.Prelude.{
  ℕ, zero, suc, ◌+◌, ◌-◌, ◌%◌, ◌≤◌, ◌<◌, ◌≡◌, ◌⊎◌, inl, inr, refl, sym, ap, ◌∙◌, Bool, true, false,
  List, Option, none, some, length, arith, Bool-cases, word32, word64,
}
use mathlib.Core.Path.{subst}
use lachesis_ex.Inter.{EventHeaderData}
use lachesis_ex.Election.{Election, Res}
use lachesis_ex.Election.Process.Frame.{IsFor}
use lachesis_ex.Poset.{get_frame_roots}
use lachesis_ex.Poset.Confirm.{Headers}
use lachesis_ex.Poset.Confirm.Ancestors.{IsStored}
use lachesis_ex.Poset.Decide.{State, Application, ended, ◌>>=ₕ◌, on_frame_decided}
use lachesis_ex.Poset.Decide.Ends.{
  EndsWith, >>=ₕ-EndsWith, Decided, Begins, GoesOn, on_frame_decided-Decided,
}
use lachesis_ex.Poset.Elections.Rounds.{
  EndsWith-mono, FoundIn, AreSmall, above, above-le, above-lt, frame-lt, process_slot-IsFor,
  process_known_roots-FoundIn,
}
use lachesis_ex.Poset.Elections.{is_empty, handle_known_roots, handle_election}

-- The state before and after the elections of an epoch's frames.
pub record IsReady (s : State) : Type 0 where
  pub to_decide : s.election.frame_to_decide ≡ s.checkpoint.last_decided_frame + 1
  pub small : s.checkpoint.last_decided_frame + 2 < word32
  pub blocks : s.checkpoint.last_block_n < word64

-- The epoch goes on, with the same roots, one block for each frame decided, and the next frame to decide is the
-- one after the last; or the next epoch has begun.
pub record GoesOnTo (s t : State) : Type 0 where
  pub epoch : t.epoch_n ≡ s.epoch_n
  pub roots : t.roots ≡ s.roots
  pub later : s.checkpoint.last_decided_frame ≤ t.checkpoint.last_decided_frame
  pub blocks :
      t.checkpoint.last_block_n
      ≡ (s.checkpoint.last_block_n
          + (t.checkpoint.last_decided_frame - s.checkpoint.last_decided_frame))
        % word64
  pub to_decide : t.election.frame_to_decide ≡ t.checkpoint.last_decided_frame + 1

abbrev pub Advanced : State → State → Type 0
Advanced s t = GoesOnTo s t ⊎ Begins s t

-- One frame more, after the others.
GoesOn-Advanced :
    (s t u : State) (frame : ℕ)
    → frame ≡ s.checkpoint.last_decided_frame + 1
    → GoesOn s t frame
    → Advanced t u
    → Advanced s u
GoesOn-Advanced s t u frame f g (inl m) = inl (record {
  epoch = m.epoch ∙ g.epoch;
  roots = m.roots ∙ g.roots;
  later = omega (arith, m.later, g.last, f);
  blocks = omega (arith, m.blocks, g.blocks, m.later, g.last, f);
  to_decide = m.to_decide;
})
GoesOn-Advanced s t u frame f g (inr b) = inr (record {
  epoch = b.epoch ∙ ap (λ n. (n + 1) % word32) g.epoch;
  before = b.before ∙ g.epoch;
  roots = b.roots;
  last = b.last;
  to_decide = b.to_decide;
})

ended-Advanced :
    (s : State) (el : Election)
    → IsReady s
    → el.frame_to_decide ≡ s.election.frame_to_decide
    → Advanced s (record s { election = el })
ended-Advanced s el r e = inl (record {
  epoch = refl;
  roots = refl;
  later = omega arith;
  blocks = omega (arith, r.blocks);
  to_decide = e ∙ r.to_decide;
})

-- A state that the decision of the next frame leaves is ready for the one after it.
GoesOn-IsReady : (s t : State) (frame : ℕ) → frame + 2 < word32 → GoesOn s t frame → IsReady t
GoesOn-IsReady s t frame f g = record {
  to_decide = omega (arith, g.to_decide, g.last, f);
  small = omega (arith, g.last, f);
  blocks = omega (arith, g.blocks);
}

module _ (app : Application) (headers : Headers) (merged : ℕ → List ℕ)
    (forkless_cause : ℕ → ℕ → Bool) (rounds : ℕ) (stored : IsStored headers) where
  -- A decision, whatever the elections after it do.
  decided-Advanced :
      (fuel : ℕ) (s : State) (el : Election) (frame atropos : ℕ)
      → AreSmall s.roots
      → length s.roots < rounds
      → frame ≡ s.checkpoint.last_decided_frame + 1
      → frame + 2 < word32
      → above (frame + 1) s.roots < fuel
      → ((t : State)
          → IsReady t
          → AreSmall t.roots
          → length t.roots < rounds
          → above (t.checkpoint.last_decided_frame + 1) t.roots < fuel
          → EndsWith
              (Advanced t)
              (handle_known_roots app headers merged forkless_cause rounds fuel t))
      → EndsWith (Advanced s) (
          on_frame_decided app headers merged (record s { election = el }) frame atropos
          >>=ₕ λ (t, sealed). elim sealed [
            | true ↦ ended t
            | false ↦ handle_known_roots app headers merged forkless_cause rounds fuel t
          ])
  decided-Advanced fuel s el frame atropos a n f small h again =
      >>=ₕ-EndsWith (Decided (record s { election = el }) frame) _ _ _
        (on_frame_decided-Decided app headers merged stored (record s { election = el }) frame
          atropos (omega (arith, f)))
        step
    where
      step :
          (x : State × Bool)
          → Decided (record s { election = el }) frame x
          → EndsWith (Advanced s) (elim x.1 [
            | true ↦ ended x.0
            | false ↦ handle_known_roots app headers merged forkless_cause rounds fuel x.0
          ])
      step (t, true) b = inr (record {
        epoch = b.epoch;
        before = b.before;
        roots = b.roots;
        last = b.last;
        to_decide = b.to_decide;
      })
      step (t, false) g =
          let g' : GoesOn s t frame = record {
            epoch = g.epoch;
            roots = g.roots;
            last = g.last;
            blocks = g.blocks;
            to_decide = g.to_decide;
          } in
          EndsWith-mono _ _ (handle_known_roots app headers merged forkless_cause rounds fuel t)
            (λ u m. GoesOn-Advanced s t u frame f g' m)
            (again t (GoesOn-IsReady s t frame small g') (subst AreSmall (sym g.roots) a)
              (rw g.roots n) (rw (g.roots, g.last) h))

  handle_known_roots-Advanced :
      (fuel : ℕ) (s : State)
      → IsReady s
      → AreSmall s.roots
      → length s.roots < rounds
      → above (s.checkpoint.last_decided_frame + 1) s.roots < fuel
      → EndsWith (Advanced s) (handle_known_roots app headers merged forkless_cause rounds fuel s)
  unfolding handle_known_roots
  handle_known_roots-Advanced zero s r a n h = absurd (omega arith)
  handle_known_roots-Advanced (suc fuel) s r a n h =
      let up : (s.checkpoint.last_decided_frame + 1) % word32
          ≡ s.checkpoint.last_decided_frame + 1 =
        omega (arith, r.small) in
      >>=ₕ-EndsWith
        (FoundIn (get_frame_roots ((s.checkpoint.last_decided_frame + 1) % word32) s.roots)
          s.election.frame_to_decide)
        _ _ _
        (process_known_roots-FoundIn forkless_cause s.roots rounds
          ((s.checkpoint.last_decided_frame + 1) % word32) s.election a
          (omega (arith, above-le ((s.checkpoint.last_decided_frame + 1) % word32) s.roots)))
        (step λ t. handle_known_roots-Advanced fuel t)
    where
      step :
          ((t : State)
            → IsReady t
            → AreSmall t.roots
            → length t.roots < rounds
            → above (t.checkpoint.last_decided_frame + 1) t.roots < fuel
            → EndsWith
                (Advanced t)
                (handle_known_roots app headers merged forkless_cause rounds fuel t))
          → (x : Election × Option Res)
          → FoundIn
              (get_frame_roots ((s.checkpoint.last_decided_frame + 1) % word32) s.roots)
              s.election.frame_to_decide
              x
          → EndsWith (Advanced s) (elim x.1 [
            | none ↦ ended (record s { election = x.0 })
            | some res ↦
                on_frame_decided app headers merged
                  (record s { election = x.0 })
                  res.frame
                  res.atropos
                >>=ₕ λ (t, sealed). elim sealed [
                  | true ↦ ended t
                  | false ↦ handle_known_roots app headers merged forkless_cause rounds fuel t
                ]
          ])
      step again (el, none) kept = ended-Advanced s el r kept
      step again (el, some res) (kept, frame, root) =
          let up : (s.checkpoint.last_decided_frame + 1) % word32
              ≡ s.checkpoint.last_decided_frame + 1 =
            omega (arith, r.small) in
          let next : res.frame ≡ s.checkpoint.last_decided_frame + 1 = frame ∙ r.to_decide in
          let here : is_empty (get_frame_roots (s.checkpoint.last_decided_frame + 1) s.roots)
              ≡ false =
            rw up at root in
          decided-Advanced fuel s el res.frame res.atropos a n next
            (rw next (frame-lt (s.checkpoint.last_decided_frame + 1) s.roots a here))
            (rw next
              (omega (arith, above-lt (s.checkpoint.last_decided_frame + 1) s.roots here, h)))
            again

  -- `handleElection` ends, with fuel for one round more than the epoch has roots. If it does not
  -- end in a fatal error, either the epoch goes on, with its roots, with one block more for each frame
  -- more that is decided, and the election is on the frame after the last decided one; or the next epoch has
  -- begun, with no frame decided and no root. This holds for the election of the frame after the
  -- last decided one, if the frames are small numbers of 32 bits and the events are stored under
  -- their ids and after their parents.
  pub handle_election-Advanced :
      (fuel : ℕ) (root : Option EventHeaderData) (s : State)
      → IsReady s
      → s.checkpoint.last_decided_frame + 3 < word32
      → AreSmall s.roots
      → length s.roots < rounds
      → length s.roots < fuel
      → EndsWith (Advanced s) (handle_election app headers merged forkless_cause rounds fuel root s)
  unfolding handle_election
  handle_election-Advanced fuel none s r small a n f =
      handle_known_roots-Advanced fuel s r a n
        (omega (arith, above-le (s.checkpoint.last_decided_frame + 1) s.roots, f))
  handle_election-Advanced fuel (some root) s r small a n f = elim (Bool-cases root.is_root) [
    | inl e ↦
        rw (e, EndsWith)
          (>>=ₕ-EndsWith (IsFor s.election.frame_to_decide) _ _ _
            (process_slot-IsFor forkless_cause s.roots s.election
              (record { id = root.hash; frame = root.frame; validator = root.creator }))
            step)
    | inr e ↦ rw (e, EndsWith) (ended-Advanced s s.election r refl)
  ]
    where
      step :
          (x : Election × Option Res)
          → IsFor s.election.frame_to_decide x
          → EndsWith (Advanced s) (elim x.1 [
            | none ↦ ended (record s { election = x.0 })
            | some res ↦
                on_frame_decided app headers merged
                  (record s { election = x.0 })
                  res.frame
                  res.atropos
                >>=ₕ λ (t, sealed). elim sealed [
                  | true ↦ ended t
                  | false ↦ handle_known_roots app headers merged forkless_cause rounds fuel t
                ]
          ])
      step (el, none) kept = ended-Advanced s el r kept
      step (el, some res) (kept, frame) =
          decided-Advanced fuel s el res.frame res.atropos a n (frame ∙ r.to_decide)
            (rw (frame ∙ r.to_decide) (omega (arith, small)))
            (omega (arith, above-le (res.frame + 1) s.roots, f))
            (λ t. handle_known_roots-Advanced fuel t)
