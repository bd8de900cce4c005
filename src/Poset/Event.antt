-- ===== src/Poset/Event.antt =====
-- poset/poset.go: the consensus fields of an event, filled in by `Prepare` and checked by
-- `checkAndSaveEvent`. The vector clock, and the hash of the state of the epoch before, come as
-- operations. `none` is a run-time panic or a fatal log line.
pub mod Frames
pub mod Prepared
use lachesis_ex.Prelude.{
  ℕ, Bool, true, false, not, ◌&&◌, List, Option, none, some, ◌>>=◌, length, leb, ltb, ◌==◌,
  if◌then◌else◌,
}
use lachesis_ex.Inter.{EventHeaderData, self_parent}
use lachesis_ex.Pos.{Validators}
use lachesis_ex.Election.{RootAndSlot}
use lachesis_ex.Check.Parents.{CheckError, Verdict, passes, panics, fails, validate_epoch}
use lachesis_ex.Poset.{add_root, calc_frame_idx}

-- The operations of `vector.Index` that the consensus uses, over the index's state.
pub record VectorClock (S : Type 0) : Type 0 where
  pub no_cheaters : S → Option ℕ → List ℕ → List ℕ
  pub add : S → EventHeaderData → S
  pub drop_not_flushed : S → S
  pub flush : S → S
  pub forkless_cause : S → ℕ → ℕ → Bool
  pub median_time : S → ℕ → ℕ → ℕ

-- What of the consensus state the two operations read and write.
pub record Poset (S : Type 0) : Type 0 where
  pub epoch : ℕ
  pub validators : Validators
  pub prev_epoch_hash : ℕ
  pub prev_epoch_time : ℕ
  pub vec_clock : S
  pub roots : List RootAndSlot

pub data SaveError : Type 0 where
  wrong_epoch_hash non_zero_epoch_hash cheaters_observed : SaveError
  wrong_is_root wrong_frame wrong_median_time : SaveError

pub data Saved (S : Type 0) : Type 0 where
  saved : Poset S → Saved S
  refused : SaveError → Poset S → Saved S

pub same : Bool → Bool → Bool
same true b = b
same false b = not b

module _ {S : Type 0} (clock : VectorClock S) (header : ℕ → Option EventHeaderData) where
  -- The state with the event in the index.
  abbrev pub with_event : Poset S → EventHeaderData → S
  with_event p e = clock.add p.vec_clock e

  abbrev pub dropped : Poset S → S → Poset S
  dropped p s = record p { vec_clock = clock.drop_not_flushed s }

  -- `calcFrameIdx` over the index `s`.
  unfoldable pub frame_in : Poset S → S → EventHeaderData → Bool → Option (ℕ × Bool)
  unfolding calc_frame_idx
  frame_in p s e check_only =
      calc_frame_idx (clock.forkless_cause s) p.validators p.roots header e check_only

  -- The fields that `Prepare` fills in.
  unfoldable pub fill : Poset S → S → EventHeaderData → ℕ × Bool → EventHeaderData
  fill p s e (frame, is_root) = record e {
    frame = frame;
    is_root = is_root;
    median_time = clock.median_time s e.hash p.prev_epoch_time;
    prev_epoch_hash = if leb e.seq 1 then p.prev_epoch_hash else 0;
  }

  -- `Prepare`; an event of another epoch or an unknown creator is dropped.
  unfoldable pub prepare : Poset S → EventHeaderData → Option (Poset S × Option EventHeaderData)
  unfolding validate_epoch frame_in fill
  prepare p e = elim (validate_epoch p.validators p.epoch e) [
    | passes ↦ frame_in p (with_event p e) e false >>= λ found.
        some (dropped p (with_event p e), some (fill p (with_event p e) e found))
    | fails _ ↦ some (p, none)
    | panics ↦ none
  ]

  -- The roots of the epoch with the event, if it is a root.
  abbrev pub save_root : List RootAndSlot → EventHeaderData → List RootAndSlot
  save_root roots e =
      if e.is_root
      then add_root (record { id = e.hash; frame = e.frame; validator = e.creator }) roots
      else roots

  -- `checkAndSaveEvent` after the event is in the index. The deferred drop finds nothing to drop
  -- after a flush.
  unfoldable pub check_in : Poset S → S → EventHeaderData → Option (Saved S)
  unfolding frame_in add_root same
  check_in p s e = frame_in p s e true >>= λ (frame, is_root). some (
      if not (same e.is_root is_root)
      then refused wrong_is_root (dropped p s)
      else if not (e.frame == frame)
      then refused wrong_frame (dropped p s)
      else if not (e.median_time == clock.median_time s e.hash p.prev_epoch_time)
      then refused wrong_median_time (dropped p s)
      else saved (record p {
        vec_clock = clock.drop_not_flushed (clock.flush s);
        roots = save_root p.roots e;
      }))

  -- `checkAndSaveEvent`
  unfoldable pub check_and_save_event : Poset S → EventHeaderData → Option (Saved S)
  unfolding check_in
  check_and_save_event p e =
      if leb e.seq 1 && not (e.prev_epoch_hash == p.prev_epoch_hash)
      then some (refused wrong_epoch_hash p)
      else if ltb 1 e.seq && not (e.prev_epoch_hash == 0)
      then some (refused non_zero_epoch_hash p)
      else if not
          (length (clock.no_cheaters p.vec_clock (self_parent e) e.parents) == length e.parents)
      then some (refused cheaters_observed p)
      else check_in p (with_event p e) e
