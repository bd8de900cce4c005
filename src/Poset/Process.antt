-- ===== src/Poset/Process.antt =====
-- poset/poset.go: `ProcessEvent`, which checks and saves an event and lets it decide frames. The
-- operations of the vector index come from outside, as in Poset/Event.
pub mod Advances
pub mod Emitted
pub mod Roots
use lachesis_ex.Prelude.{ℕ, Bool, true, false, List, Option, none, some, ◌==◌, if◌then◌else◌}
use lachesis_ex.Prelude.Assoc.{lookup}
use lachesis_ex.Inter.{EventHeaderData}
use lachesis_ex.Pos.{Validators}
use lachesis_ex.Check.Parents.{CheckError, Verdict, passes, panics, fails, validate_epoch}
use lachesis_ex.Poset.Confirm.{Headers}
use lachesis_ex.Poset.Event.{
  VectorClock, Poset, SaveError, Saved, saved, refused, check_and_save_event,
}
use lachesis_ex.Poset.Decide.{GenesisState, State, Application, Handled, ended, fatal, ◌>>=ₕ◌}
use lachesis_ex.Poset.Elections.{handle_election}

-- The consensus state with the vector index.
pub record Node (S : Type 0) : Type 0 where
  pub consensus : State
  pub index : S

pub data ProcessError : Type 0 where
  epoch_error : CheckError → ProcessError
  save_error : SaveError → ProcessError

-- What the consensus uses of the index beside the operations of `VectorClock`:
-- `GetHighestBeforeMerged`, and the index that `Reset` leaves for the next epoch.
pub record IndexVectors (S : Type 0) : Type 0 where
  pub merged : S → ℕ → List ℕ
  pub reset : Validators → S

module _ {S : Type 0} (clock : VectorClock S) (vectors : IndexVectors S) (app : Application)
    (state_hash : GenesisState → ℕ) (headers : Headers) (rounds fuel : ℕ) where
  abbrev pub header : ℕ → Option EventHeaderData
  header id = lookup id headers

  -- What of the state `Prepare` and `checkAndSaveEvent` use.
  abbrev pub view : Node S → Poset S
  view n = record {
    epoch = n.consensus.epoch_n;
    validators = n.consensus.validators;
    prev_epoch_hash = state_hash n.consensus.prev_epoch;
    prev_epoch_time = n.consensus.prev_epoch.time;
    vec_clock = n.index;
    roots = n.consensus.roots;
  }

  -- The state with the saved roots.
  abbrev pub with_roots : State → Poset S → State
  with_roots s p = record s { roots = p.roots }

  -- The index after the elections: `sealEpoch` resets it, and is the last thing they do.
  unfoldable pub index_after : State → State → S → S
  index_after s t index = if t.epoch_n == s.epoch_n then index else vectors.reset t.validators

  -- `ProcessEvent` after the event is checked, and saved if it has passed; a panic is none.
  unfoldable pub after_check :
      Node S → EventHeaderData → Option (Saved S) → Handled (Node S × Option ProcessError)
  unfolding handle_election index_after
  after_check n e none = fatal
  after_check n e (some (refused err p)) =
      ended (record n { index = p.vec_clock }, some (save_error err))
  after_check n e (some (saved p)) =
      handle_election app headers (vectors.merged p.vec_clock) (clock.forkless_cause p.vec_clock)
        rounds fuel (some e) (with_roots n.consensus p)
      >>=ₕ λ t.
          ended (record { consensus = t; index = index_after n.consensus t p.vec_clock }, none)

  -- `ProcessEvent` after the check of the epoch.
  unfoldable pub after_epoch :
      Node S → EventHeaderData → Verdict → Handled (Node S × Option ProcessError)
  unfolding after_check check_and_save_event
  after_epoch n e (fails err) = ended (n, some (epoch_error err))
  after_epoch n e panics = fatal
  after_epoch n e passes = after_check n e (check_and_save_event clock header (view n) e)

  -- `ProcessEvent`
  unfoldable pub process_event : Node S → EventHeaderData → Handled (Node S × Option ProcessError)
  unfolding validate_epoch after_epoch
  process_event n e = after_epoch n e (validate_epoch n.consensus.validators n.consensus.epoch_n e)
