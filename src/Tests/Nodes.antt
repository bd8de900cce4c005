-- ===== src/Tests/Nodes.antt =====
-- Tests and examples for the processing of events.
use lachesis_ex.Prelude.{ℕ, ◌+◌, refl, false, true, [], ◌∷◌, arith}
use lachesis_ex.Inter.{EventHeaderData}
use lachesis_ex.Poset.Event.{VectorClock}
use lachesis_ex.Poset.Decide.{GenesisState}
use lachesis_ex.Poset.Decide.Ends.{EndsWith}
use lachesis_ex.Poset.Process.{Node, IndexVectors, process_event}
use lachesis_ex.Poset.Process.Advances.{Processed, process_event-Processed}
use lachesis_ex.Poset.Process.Emitted.{IsFine}
use lachesis_ex.Tests.Decisions.{event, headers, headers-IsStored, app, state}

-- An index that counts its events, in which every root causes every event.
abbrev clock : VectorClock ℕ
clock = record {
  no_cheaters = λ s p options. options;
  add = λ s e. s + 1;
  drop_not_flushed = λ s. s;
  flush = λ s. s;
  forkless_cause = λ s a b. true;
  median_time = λ s id t. 53;
}

abbrev vectors : IndexVectors ℕ
vectors = record { merged = λ s id. []; reset = λ vv. 0 }

abbrev hash_of : GenesisState → ℕ
hash_of g = 77

abbrev node : Node ℕ
node = record { consensus = state; index = 2 }

-- The third event of the validator 3, before its fields are filled in, and after.
abbrev draft : EventHeaderData
draft = record (event 0 3 (12 ∷ [])) { frame = 0; is_root = false }

abbrev prepared : EventHeaderData
prepared = record draft { frame = 2; is_root = true; median_time = 53 }

node-IsFine : IsFine clock vectors app hash_of headers 3 3 headers-IsStored node
node-IsFine = record {
  ready = record { to_decide = refl; small = omega arith; blocks = omega arith };
  frame = omega arith;
  small = (omega arith, tt);
  enough_rounds = omega arith;
  enough_fuel = omega arith;
}

process_event-Processed_example :
    EndsWith
      (Processed clock vectors app hash_of headers 3 3 headers-IsStored node
        (record prepared { hash = 13 }))
      (process_event clock vectors app hash_of headers 3 3 node (record prepared { hash = 13 }))
process_event-Processed_example =
    process_event-Processed clock vectors app hash_of headers 3 3 headers-IsStored node
      (record prepared { hash = 13 }) node-IsFine.ready node-IsFine.frame node-IsFine.small
      (omega arith) (omega arith) (omega arith)
