-- ===== src/Poset/Decide.antt =====
-- poset/frame_decide.go, poset/checkpoint.go and poset/epoch.go: the block of a decided frame, and
-- the change to a new epoch. The application's callbacks, the hash of two application hashes and
-- the merged vectors come from outside.
pub mod Blocks
pub mod Ends
pub mod Meant
use lachesis_ex.Prelude.{
  ℕ, zero, suc, ◌+◌, ◌-◌, ◌*◌, ◌%◌, ◌^◌, Bool, true, false, not, ◌&&◌, ◌||◌, List, [], ◌∷◌, ◌++◌,
  Option, none, some, ◌>>=◌, length, ltb, leb, ◌==◌, if◌then◌else◌, word32, word64,
}
use lachesis_ex.Prelude.Assoc.{lookup, insert}
use lachesis_ex.Inter.{EventHeaderData}
use lachesis_ex.Pos.{Validators, get_idx}
use lachesis_ex.Vector.Clock.{before_seq_get, is_fork_detected}
use lachesis_ex.Election.{RootAndSlot, Election, Res, reset}
use lachesis_ex.Walk.{Walked, done, not_found, out_of_fuel}
use lachesis_ex.Poset.Confirm.{Headers, confirm_events, count_parents}
use lachesis_ex.Poset.Ordering.{FrameInfo, fare_ordering, fare_timestamps}

-- `Checkpoint`
pub record Checkpoint : Type 0 where
  pub last_decided_frame : ℕ
  pub last_block_n : ℕ
  pub last_atropos : ℕ
  pub app_hash : ℕ

-- `GenesisState`
pub record GenesisState : Type 0 where
  pub epoch : ℕ
  pub time : ℕ
  pub last_atropos : ℕ
  pub app_hash : ℕ

-- The fields of `inter.Block` that `NewBlock` fills in.
pub record Block : Type 0 where
  pub index : ℕ
  pub time : ℕ
  pub events : List ℕ
  pub prev_hash : ℕ
  pub atropos : ℕ

-- What of the consensus state the decision of a frame reads and writes. The frame infos are kept
-- by the bytes of the epoch and the frame.
pub record State : Type 0 where
  pub checkpoint : Checkpoint
  pub epoch_n : ℕ
  pub prev_epoch : GenesisState
  pub validators : Validators
  pub election : Election
  pub confirmed : List (ℕ × ℕ)
  pub frame_infos : List (ℕ × FrameInfo)
  pub roots : List RootAndSlot

-- The application: `ApplyBlock` and `SelectValidatorsGroup`, which may be nil, and
-- `IsEventAllowedIntoBlock`, where nil is the function that allows every event. `hash_of` is the
-- hash of two hashes.
pub record Application : Type 0 where
  pub apply_block : Option (Block → ℕ → List ℕ → ℕ × Bool)
  pub select_validators : Option (ℕ → ℕ → Validators)
  pub is_allowed : EventHeaderData → ℕ → Bool
  pub hash_of : ℕ → ℕ → ℕ

-- What the callback of `confirmBlock` collects. `reported` holds the calls of `OnEventConfirmed`,
-- an event with its depth, in their order.
pub record Collected : Type 0 where
  pub events : List EventHeaderData
  pub reported : List (EventHeaderData × ℕ)
  pub highest : ℕ
  pub lowest : ℕ

-- How deep the event lies under the highest observed one of its creator.
unfoldable pub seq_depth : ℕ → ℕ → ℕ
seq_depth highest seq = if ltb highest seq then 2 ^ 31 - 1 else highest - seq

-- The event is part of the block.
unfoldable pub is_included : Application → Validators → List ℕ → EventHeaderData → Bool
unfolding seq_depth
is_included app vv vector e =
    let highest = before_seq_get vector (get_idx vv e.creator) in
    not (is_fork_detected highest) && app.is_allowed e (seq_depth highest.seq e.seq)

-- The callback on a confirmed event; `none` is its sanity check, which is fatal.
unfoldable pub collect :
    Application → Validators → List ℕ → Option Collected → EventHeaderData → Option Collected
unfolding is_included
collect app vv vector none e = none
collect app vv vector (some c) e =
    let highest = before_seq_get vector (get_idx vv e.creator) in
    if not (is_fork_detected highest) && ltb highest.seq e.seq
    then none
    else some (record {
      events = if is_included app vv vector e then c.events ++ e ∷ [] else c.events;
      reported = c.reported ++ (e, seq_depth highest.seq e.seq) ∷ [];
      highest = if c.highest == 0 || ltb c.highest e.lamport then e.lamport else c.highest;
      lowest = if c.lowest == 0 || ltb e.lamport c.lowest then e.lamport else c.lowest;
    })

-- The loop over the sorted ids, from index `i` on, that collects the cheaters.
unfoldable pub find_cheaters : List ℕ → ℕ → List ℕ → List ℕ
find_cheaters vector i [] = []
find_cheaters vector i (id ∷ ids) =
    if is_fork_detected (before_seq_get vector i)
    then id ∷ find_cheaters vector (suc i) ids
    else find_cheaters vector (suc i) ids

-- The key of a frame's info.
abbrev pub info_key : ℕ → ℕ → ℕ
info_key epoch frame = epoch * word32 + frame

-- `frameConsensusTime`; a missing info is a nil dereference.
unfoldable pub frame_consensus_time : State → ℕ → Option ℕ
frame_consensus_time s frame =
    if frame == 0
    then some s.prev_epoch.time
    else (lookup (info_key s.epoch_n frame) s.frame_infos >>= λ info. some info.last_consensus_time)

-- How the handling of roots ends: with a value, with a fatal log line or a panic, or without fuel.
pub data Handled {ℓ} (A : Type ℓ) : Type ℓ where
  ended : A → Handled A
  fatal no_fuel : Handled A

infixl 5 ◌>>=ₕ◌
abbrev pub ◌>>=ₕ◌ {ℓ κ} : {A : Type ℓ} {B : Type κ} → Handled A → (A → Handled B) → Handled B
ended a >>=ₕ f = f a
fatal >>=ₕ f = fatal
no_fuel >>=ₕ f = no_fuel

abbrev pub or_fatal {ℓ} : {A : Type ℓ} → Option A → Handled A
or_fatal none = fatal
or_fatal (some a) = ended a

abbrev of_walk {ℓ} : {A : Type ℓ} → Walked A → Handled A
of_walk (done a) = ended a
of_walk not_found = fatal
of_walk out_of_fuel = no_fuel

-- What `confirmBlock` has before the walk.
abbrev nothing : Collected
nothing = record { events = []; reported = []; highest = 0; lowest = 0 }

-- The callback `ApplyBlock`, with the application's new hash chained to the old one.
unfoldable pub apply_block : Application → Checkpoint → Block → ℕ → List ℕ → Checkpoint × Bool
apply_block app c block frame cheaters = elim app.apply_block [
  | none ↦ (c, false)
  | some run ↦
      let (new_hash, seal) = run block frame cheaters in
      (record c { app_hash = app.hash_of c.app_hash new_hash }, seal)
]

-- The validators of the next epoch.
abbrev next_validators : Application → State → ℕ → Validators
next_validators app s next = elim app.select_validators [
  | none ↦ s.validators
  | some select ↦ select s.epoch_n next
]

-- `sealEpoch`. The new epoch's database and vector index are empty.
unfoldable pub seal_epoch : Application → State → Handled State
unfolding frame_consensus_time reset
seal_epoch app s = or_fatal (frame_consensus_time s s.checkpoint.last_decided_frame) >>=ₕ λ time.
    let next = (s.epoch_n + 1) % word32 in
    let vv = next_validators app s next in
    ended (record s {
      prev_epoch = record {
        epoch = s.epoch_n;
        time = time;
        last_atropos = s.checkpoint.last_atropos;
        app_hash = s.checkpoint.app_hash;
      };
      validators = vv;
      epoch_n = next;
      checkpoint = record s.checkpoint { last_decided_frame = 0 };
      roots = [];
      election = reset vv 1;
    })

-- `onFrameDecided` before the block: the next election, and the frame is the last decided one.
unfoldable pub start_frame : State → ℕ → State
unfolding reset
start_frame s frame = record s {
  election = reset s.validators ((frame + 1) % word32);
  checkpoint = record s.checkpoint { last_decided_frame = frame };
}

-- `onFrameDecided` after the block: the new checkpoint, and the epoch is sealed if the application
-- says so.
unfoldable pub apply_decided : Application → State → Block → ℕ → ℕ → List ℕ → Handled (State × Bool)
unfolding apply_block seal_epoch
apply_decided app t block frame atropos cheaters =
    let counted = record t.checkpoint { last_block_n = (t.checkpoint.last_block_n + 1) % word64 } in
    let (applied, seal) = apply_block app counted block frame cheaters in
    let u = record t { checkpoint = record applied { last_atropos = atropos } } in
    elim seal [ true ↦ seal_epoch app u >>=ₕ λ v. ended (v, true) | false ↦ ended (u, false) ]

module _ (app : Application) (headers : Headers) (merged : ℕ → List ℕ) where
  -- `confirmBlock`, with the cheaters beside the block. The vector is `GetHighestBeforeMerged`'s.
  unfoldable pub confirm_block : State → ℕ → ℕ → Handled (State × Block × List ℕ)
  unfolding find_cheaters confirm_events count_parents collect frame_consensus_time fare_timestamps
      fare_ordering
  confirm_block s frame atropos =
      let vector = merged atropos in
      let cheaters = find_cheaters vector 0 s.validators.cache.ids in
      of_walk (
        confirm_events headers frame (collect app s.validators vector) (suc (count_parents headers))
          atropos (s.confirmed, some nothing))
      >>=ₕ λ (table, found). or_fatal found >>=ₕ λ c.
          or_fatal (frame_consensus_time s ((frame + (word32 - 1)) % word32)) >>=ₕ λ last.
          or_fatal (lookup atropos headers) >>=ₕ λ header.
          let info = fare_timestamps last header.median_time c.highest c.lowest in
          ended (
            record s {
              confirmed = table;
              frame_infos = insert (info_key s.epoch_n frame) info s.frame_infos;
            },
            record {
              index = (s.checkpoint.last_block_n + 1) % word64;
              time = info.last_consensus_time;
              events = fare_ordering c.events;
              prev_hash = s.checkpoint.last_atropos;
              atropos = atropos;
            },
            cheaters,
          )

  -- `onFrameDecided`, with whether the epoch was sealed.
  unfoldable pub on_frame_decided : State → ℕ → ℕ → Handled (State × Bool)
  unfolding confirm_block apply_decided
  on_frame_decided s frame atropos =
      confirm_block (start_frame s frame) frame atropos >>=ₕ λ (t, block, cheaters).
      apply_decided app t block frame atropos cheaters
