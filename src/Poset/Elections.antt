-- ===== src/Poset/Elections.antt =====
-- poset/poset.go: the elections that a new root brings to an end, one frame after the other.
-- The relation between events comes from outside, as in Election/Process.
pub mod Rounds
pub mod Ends
use lachesis_ex.Prelude.{
  ℕ, zero, suc, ◌+◌, ◌%◌, Bool, true, false, not, List, [], ◌∷◌, Option, none, some, if◌then◌else◌,
  word32,
}
use lachesis_ex.Inter.{EventHeaderData}
use lachesis_ex.Election.{Outcome, ok, RootAndSlot, Election, Res}
use lachesis_ex.Election.Process.{process_root}
use lachesis_ex.Poset.{get_frame_roots}
use lachesis_ex.Poset.Confirm.{Headers}
use lachesis_ex.Poset.Decide.{
  State, Application, Handled, ended, fatal, no_fuel, ◌>>=ₕ◌, on_frame_decided,
}

-- An error of the election is fatal.
abbrev pub of_outcome {ℓ} : {A : Type ℓ} → Outcome A → Handled A
of_outcome (ok a) = ended a
of_outcome Outcome.all_no = fatal
of_outcome Outcome.fork_roots = fatal
of_outcome Outcome.crit = fatal

-- The frame has no roots.
abbrev pub is_empty : List RootAndSlot → Bool
is_empty [] = true
is_empty (_ ∷ _) = false

module _ (forkless_cause : ℕ → ℕ → Bool) (roots : List RootAndSlot) where
  -- `processRoot`
  unfoldable pub process_slot : Election → RootAndSlot → Handled (Election × Option Res)
  unfolding process_root get_frame_roots
  process_slot el r = of_outcome (process_root forkless_cause (λ f. get_frame_roots f roots) el r)

  -- The inner loop of `processKnownRoots`, left at the first decision.
  unfoldable pub process_roots : List RootAndSlot → Election → Handled (Election × Option Res)
  unfolding process_slot
  process_roots [] el = ended (el, none)
  process_roots (r ∷ rs) el = process_slot el r >>=ₕ λ (el', decided). elim decided [
    | none ↦ process_roots rs el'
    | some res ↦ ended (el', some res)
  ]

  -- The loop of `processKnownRoots` over the frames, until one has no roots.
  unfoldable pub process_known_roots : ℕ → ℕ → Election → Handled (Election × Option Res)
  unfolding process_roots get_frame_roots
  process_known_roots zero f el = no_fuel
  process_known_roots (suc fuel) f el =
      let frame_roots = get_frame_roots f roots in
      process_roots frame_roots el >>=ₕ λ (el', decided). elim decided [
        | some res ↦ ended (el', some res)
        | none ↦ elim (is_empty frame_roots) [
          | true ↦ ended (el', none)
          | false ↦ process_known_roots fuel ((f + 1) % word32) el'
        ]
      ]

module _ (app : Application) (headers : Headers) (merged : ℕ → List ℕ)
    (forkless_cause : ℕ → ℕ → Bool) (rounds : ℕ) where
  -- The loop of `handleElection`; each of its calls of `processKnownRoots` has fuel for `rounds`
  -- frames. The sealing of an epoch leaves the loop.
  unfoldable pub handle_known_roots : ℕ → State → Handled State
  unfolding process_known_roots on_frame_decided
  handle_known_roots zero s = no_fuel
  handle_known_roots (suc fuel) s =
      process_known_roots forkless_cause s.roots rounds
        ((s.checkpoint.last_decided_frame + 1) % word32) s.election
      >>=ₕ λ (el, decided). elim decided [
        | none ↦ ended (record s { election = el })
        | some res ↦
            on_frame_decided app headers merged (record s { election = el }) res.frame res.atropos
            >>=ₕ λ (t, sealed). elim sealed [ true ↦ ended t | false ↦ handle_known_roots fuel t ]
      ]

  -- `handleElection`, where `none` is the start of a node.
  unfoldable pub handle_election : ℕ → Option EventHeaderData → State → Handled State
  unfolding handle_known_roots process_slot on_frame_decided
  handle_election fuel none s = handle_known_roots fuel s
  handle_election fuel (some root) s =
      if not root.is_root
      then ended s
      else (process_slot forkless_cause s.roots s.election
            (record { id = root.hash; frame = root.frame; validator = root.creator })
          >>=ₕ λ (el, decided). elim decided [
            | none ↦ ended (record s { election = el })
            | some res ↦
                on_frame_decided app headers merged (record s { election = el }) res.frame
                  res.atropos
                >>=ₕ λ (t, sealed). elim sealed [
                  | true ↦ ended t
                  | false ↦ handle_known_roots fuel t
                ]
          ])
