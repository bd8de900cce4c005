-- ===== src/Gossip/Ordering.antt =====
-- gossip/ordering/event_buffer.go: an event is processed when all its parents are connected, and
-- then the buffered events that may wait for it are tried again. The LRU cache of incomplete
-- events and the callbacks come from outside. The peer, which is only handed on, is left out.
pub mod Parents
pub mod Retries
pub mod Settled
use lachesis_ex.Prelude.{
  ℕ, zero, suc, Bool, true, false, not, List, [], ◌∷◌, Option, none, some, ◌>>=◌, ◌==◌,
  if◌then◌else◌,
}
use lachesis_ex.Inter.{EventHeaderData}

-- `Callback`, on a state of the caller. A `Check` that is nil is the one that passes every event;
-- the Booleans say whether there is no error.
pub record Callback (S : Type 0) : Type 0 where
  pub process : S → EventHeaderData → S × Bool
  pub get : S → ℕ → Option EventHeaderData
  pub exists : S → ℕ → Bool
  pub check : EventHeaderData → List EventHeaderData → Bool

-- The operations of the LRU cache: `Add`, `Get` for its effect on the order, `Remove`, and the
-- entries.
pub record Lru (L : Type 0) : Type 0 where
  pub add : EventHeaderData → L → L
  pub touch : ℕ → L → L
  pub remove : ℕ → L → L
  pub events : L → List EventHeaderData

-- The calls of `Process` and `Drop`; a call of `Process` with the state that it saw.
pub data Call (S : Type 0) : Type 0 where
  processed : S → EventHeaderData → Call S
  dropped : EventHeaderData → Call S

-- `EventBuffer` with the caller's state, and the calls, the last one first.
pub record EventBuffer (S L : Type 0) : Type 0 where
  pub incompletes : L
  pub state : S
  pub calls : List (Call S)

module _ {S L : Type 0} (callback : Callback S) (lru : Lru L) where
  -- The loop over the parents, which ends at the first that is not connected.
  unfoldable pub get_parents : S → L → List ℕ → L × Option (List EventHeaderData)
  get_parents s l [] = (l, some [])
  get_parents s l (p ∷ ps) = elim (callback.get s p) [
    | none ↦ (lru.touch p l, none)
    | some parent ↦
        let (next, rest) = get_parents s (lru.touch p l) ps in
        (next, rest >>= λ parents. some (parent ∷ parents))
  ]

  unfoldable pub drop : EventBuffer S L → EventHeaderData → EventBuffer S L
  drop b e = record b { calls = Call.dropped e ∷ b.calls }

  -- The loops over the incomplete events and their parents: a child is tried once for each parent
  -- that is the event.
  unfoldable pub push_child :
      (EventHeaderData → EventBuffer S L → Option (EventBuffer S L))
      → ℕ
      → EventHeaderData
      → List ℕ
      → EventBuffer S L
      → Option (EventBuffer S L)
  push_child push hash child [] b = some b
  push_child push hash child (p ∷ ps) b = elim (p == hash) [
    | true ↦ push child b >>= λ next. push_child push hash child ps next
    | false ↦ push_child push hash child ps b
  ]

  unfoldable pub push_children :
      (EventHeaderData → EventBuffer S L → Option (EventBuffer S L))
      → ℕ
      → List EventHeaderData
      → EventBuffer S L
      → Option (EventBuffer S L)
  unfolding push_child
  push_children push hash [] b = some b
  push_children push hash (c ∷ cs) b =
      push_child push hash c c.parents b >>= λ next. push_children push hash cs next

  -- `pushEvent` for an event that is not connected, when all its parents are.
  unfoldable pub connect :
      (EventHeaderData → EventBuffer S L → Option (EventBuffer S L))
      → EventHeaderData
      → List EventHeaderData
      → List EventHeaderData
      → EventBuffer S L
      → Option (EventBuffer S L)
  unfolding drop push_children
  connect push e parents all b = elim (callback.check e parents) [
    | false ↦ some (drop b e)
    | true ↦
        let (s, ok) = callback.process b.state e in
        let called = record b { state = s; calls = Call.processed b.state e ∷ b.calls } in
        elim ok [
          | false ↦ some (drop called e)
          | true ↦
              push_children push e.hash all
                (record called { incompletes = lru.remove e.hash b.incompletes })
        ]
  ]

  -- `pushEvent`; `none` is out of fuel.
  unfoldable pub push_event :
      ℕ → List EventHeaderData → Bool → EventHeaderData → EventBuffer S L → Option (EventBuffer S L)
  unfolding get_parents drop connect
  push_event zero all strict e b = none
  push_event (suc fuel) all strict e b = elim (callback.exists b.state e.hash) [
    | true ↦ some (if strict then drop b e else b)
    | false ↦
        let (l, found) = get_parents b.state b.incompletes e.parents in
        elim found [
          | none ↦ some (record b { incompletes = lru.add e l })
          | some parents ↦
              connect (push_event fuel all false) e parents all (record b { incompletes = l })
        ]
  ]

  -- `PushEvent`
  unfoldable pub push : ℕ → EventHeaderData → EventBuffer S L → Option (EventBuffer S L)
  unfolding push_event
  push fuel e b = push_event fuel (lru.events b.incompletes) true e b
