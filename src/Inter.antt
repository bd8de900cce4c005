-- ===== src/Inter.antt =====
-- inter/event.go: the header of an event. Its id, a hash of 32 bytes, is read as a number, most
-- significant byte first, so that the order of the bytes is the order of the numbers; it is
-- computed by other libraries (RLP, Keccak) and stands here as the field that the source caches.
pub mod Serializer
use lachesis_ex.Prelude.{
  ℕ, Bool, false, List, [], ◌∷◌, Option, none, some, leb, ltb, ◌==◌, if◌then◌else◌,
}

pub record EventHeaderData : Type 0 where
  pub version : ℕ
  pub epoch : ℕ
  pub seq : ℕ
  pub frame : ℕ
  pub is_root : Bool
  pub creator : ℕ
  pub prev_epoch_hash : ℕ
  pub parents : List ℕ
  -- the short-term and the long-term gas power
  pub gas_power_left : ℕ × ℕ
  pub gas_power_used : ℕ
  pub lamport : ℕ
  pub claimed_time : ℕ
  pub median_time : ℕ
  pub tx_hash : ℕ
  pub extra : List ℕ
  pub hash : ℕ

-- The first parent, where `SelfParent` reads it.
abbrev first_parent : ℕ → List ℕ → Option ℕ
first_parent seq [] = none
first_parent seq (p ∷ ps) = if leb seq 1 then none else some p

-- `SelfParent`
unfoldable pub self_parent : EventHeaderData → Option ℕ
self_parent e = first_parent e.seq e.parents

-- `IsSelfParent`
unfoldable pub is_self_parent : EventHeaderData → ℕ → Bool
is_self_parent e h = elim (self_parent e) [ none ↦ false | some p ↦ p == h ]

-- `idx.MaxLamport` and `MaxTimestamp`
abbrev pub max_of : ℕ → ℕ → ℕ
max_of x y = if ltb y x then x else y
