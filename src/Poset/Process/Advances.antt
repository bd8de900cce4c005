-- ===== src/Poset/Process/Advances.antt =====
-- `ProcessEvent` ends; an error leaves the consensus as it was, and an event that `Prepare` filled
-- in is no error.
use lachesis_ex.Prelude.{
  ℕ, ◌+◌, ◌≤◌, ◌<◌, ◌≡◌, inl, inr, refl, sym, true, List, Option, none, some, length, arith,
  Option-cases, word32,
}
use mathlib.Core.Path.{subst}
use lachesis_ex.Inter.{EventHeaderData}
use lachesis_ex.Election.{RootAndSlot}
use lachesis_ex.Check.Parents.{Verdict, passes, panics, fails, validate_epoch}
use lachesis_ex.Poset.Confirm.{Headers}
use lachesis_ex.Poset.Confirm.Ancestors.{IsStored}
use lachesis_ex.Poset.Event.{
  VectorClock, Poset, Saved, saved, refused, frame_in, with_event, check_in, check_and_save_event,
  save_root,
}
use lachesis_ex.Poset.Decide.{GenesisState, State, Application}
use lachesis_ex.Poset.Decide.Ends.{EndsWith, >>=ₕ-EndsWith}
use lachesis_ex.Poset.Elections.Rounds.{AreSmall, EndsWith-mono}
use lachesis_ex.Poset.Elections.Ends.{IsReady, Advanced, handle_election-Advanced}
use lachesis_ex.Poset.Process.Roots.{
  AddsRoot, save_root-AreSmall, length-save_root, save_root-AddsRoot,
}
use lachesis_ex.Poset.Process.{
  Node, ProcessError, IndexVectors, header, view, after_check, after_epoch, process_event,
}

module _ {S : Type 0} (clock : VectorClock S) (vectors : IndexVectors S) (app : Application)
    (state_hash : GenesisState → ℕ) (headers : Headers) (rounds fuel : ℕ)
    (stored : IsStored headers) where
  abbrev pub headed : ℕ → Option EventHeaderData
  headed = header clock vectors app state_hash headers rounds fuel

  abbrev pub viewed : Node S → Poset S
  viewed = view clock vectors app state_hash headers rounds fuel

  -- The event is among the roots of the epoch, if it is a root, with those of before, and from
  -- there the consensus has gone on: to a state of the epoch, which keeps these roots, or to the
  -- next epoch.
  abbrev pub Accepted : State → EventHeaderData → State → Type 0
  Accepted s e t =
      (rs : List RootAndSlot) × AddsRoot s.roots e rs × Advanced (record s { roots = rs }) t

  -- A saved event is the only change of the roots.
  check_in-roots :
      (p q : Poset S) (s : S) (e : EventHeaderData)
      → check_in clock headed p s e ≡ some (saved q)
      → q.roots ≡ save_root clock headed p.roots e
  unfolding check_in
  check_in-roots p q s e h = elim (Option-cases (frame_in clock headed p s e true)) [
    | inl is ↦ let stops = rw (is, check_in) at h in absurd (ground arith)
    | inr (found, is) ↦ let found_so = rw (is, check_in) at h in ground arith
  ]

  roots_of_saved :
      (p q : Poset S) (e : EventHeaderData)
      → check_and_save_event clock headed p e ≡ some (saved q)
      → q.roots ≡ save_root clock headed p.roots e
  unfolding check_and_save_event
  roots_of_saved p q e h = ground (arith, check_in-roots p q (with_event clock headed p e) e)

  -- How `ProcessEvent` ends: an error changes nothing but the index; else the event is
  -- accepted.
  abbrev pub Processed : Node S → EventHeaderData → Node S × Option ProcessError → Type 0
  Processed n e (m, some err) = m.consensus ≡ n.consensus
  Processed n e (m, none) = Accepted n.consensus e m.consensus

  module _ (n : Node S) (e : EventHeaderData) (ready : IsReady n.consensus)
      (frame : n.consensus.checkpoint.last_decided_frame + 3 < word32)
      (small : AreSmall n.consensus.roots) (small_event : e.frame + 2 < word32)
      (enough_rounds : length n.consensus.roots + 1 < rounds)
      (enough_fuel : length n.consensus.roots + 1 < fuel) where
    -- The elections after the event is saved.
    pub saved-Advanced :
        (p : Poset S)
        → p.roots ≡ save_root clock headed n.consensus.roots e
        → EndsWith
            (λ x. (x.1 ≡ none) × Accepted n.consensus e x.0.consensus)
            (after_check clock vectors app state_hash headers rounds fuel n e (some (saved p)))
    unfolding after_check
    saved-Advanced p r =
        let s = record n.consensus { roots = p.roots } in
        let fewer : length p.roots ≤ length n.consensus.roots + 1 =
          rw r (length-save_root e n.consensus.roots) in
        >>=ₕ-EndsWith (Advanced s) _ _ _
          (handle_election-Advanced app headers (vectors.merged p.vec_clock)
            (clock.forkless_cause p.vec_clock) rounds stored fuel (some e) s
            (record { to_decide = ready.to_decide; small = ready.small; blocks = ready.blocks })
            frame (rw r (save_root-AreSmall e n.consensus.roots small_event small)) (omega arith)
            (omega arith))
          λ t a. (
            refl,
            (
              p.roots,
              subst (λ rs. AddsRoot n.consensus.roots e rs) (sym r)
                  (save_root-AddsRoot e n.consensus.roots),
              a,
            ),
          )

    checked-Processed :
        (o : Option (Saved S))
        → check_and_save_event clock headed (viewed n) e ≡ o
        → EndsWith
            (Processed n e)
            (after_check clock vectors app state_hash headers rounds fuel n e o)
    unfolding after_check
    checked-Processed none h = tt
    checked-Processed (some (refused err p)) h = refl
    checked-Processed (some (saved p)) h =
        EndsWith-mono _ (Processed n e)
          (after_check clock vectors app state_hash headers rounds fuel n e (some (saved p)))
          no_error (saved-Advanced p (roots_of_saved (viewed n) p e h))
      where
        no_error :
            (x : Node S × Option ProcessError)
            → (x.1 ≡ none) × Accepted n.consensus e x.0.consensus
            → Processed n e x
        no_error (m, none) (is, a) = a
        no_error (m, some err) (is, a) = absurd (ground arith)

    -- `ProcessEvent` ends, with fuel for two rounds more than the epoch has roots. If it does not
    -- end in a fatal error, either it replies an error and leaves the consensus as it was; or the
    -- roots of the epoch are those of before, with the event's own if it is a root, and with these
    -- the epoch goes on with one block more for each frame more that is decided, and the election on
    -- the frame after the last decided one, or the next epoch has begun, without roots. The election
    -- is that of the frame after the last decided one before, the frames are small numbers of 32
    -- bits, and the events are stored under their ids and after their parents. What the vector index
    -- replies is arbitrary.
    pub process_event-Processed :
        EndsWith
          (Processed n e)
          (process_event clock vectors app state_hash headers rounds fuel n e)
    unfolding process_event after_epoch
    process_event-Processed = go (validate_epoch n.consensus.validators n.consensus.epoch_n e)
      where
        go :
            (v : Verdict)
            → EndsWith
                (Processed n e)
                (after_epoch clock vectors app state_hash headers rounds fuel n e v)
        go passes = checked-Processed (check_and_save_event clock headed (viewed n) e) refl
        go panics = tt
        go (fails err) = refl
