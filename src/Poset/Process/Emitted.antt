-- ===== src/Poset/Process/Emitted.antt =====
-- An event that a node prepares and then processes itself.
use lachesis_ex.Prelude.{ℕ, ◌+◌, ◌<◌, length, word32}
use lachesis_ex.Poset.Confirm.{Headers}
use lachesis_ex.Poset.Confirm.Ancestors.{IsStored}
use lachesis_ex.Poset.Event.{VectorClock, Poset}
use lachesis_ex.Poset.Decide.{GenesisState, Application}
use lachesis_ex.Poset.Elections.Rounds.{AreSmall}
use lachesis_ex.Poset.Elections.Ends.{IsReady}
use lachesis_ex.Poset.Process.{Node, IndexVectors}

module _ {S : Type 0} (clock : VectorClock S) (vectors : IndexVectors S) (app : Application)
    (state_hash : GenesisState → ℕ) (headers : Headers) (rounds fuel : ℕ)
    (stored : IsStored headers) where
  -- What the elections find of the state.
  pub record IsFine (n : Node S) : Type 0 where
    pub ready : IsReady n.consensus
    pub frame : n.consensus.checkpoint.last_decided_frame + 3 < word32
    pub small : AreSmall n.consensus.roots
    pub enough_rounds : length n.consensus.roots + 1 < rounds
    pub enough_fuel : length n.consensus.roots + 1 < fuel
