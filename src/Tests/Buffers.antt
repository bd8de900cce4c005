-- ===== src/Tests/Buffers.antt =====
-- Tests and examples for the buffer of events and for piecewise linear functions.
use lachesis_ex.Prelude.{
  ℕ, ◌+◌, ◌≤◌, ◌≡◌, refl, sym, inl, inr, Bool, true, false, not, List, [], ◌∷◌, filter, Option,
  none, some, ◌==◌, arith,
}
use mathlib.Core.Path.{subst}
use lachesis_ex.Prelude.Assoc.{lookup, insert, lookup-insert}
use lachesis_ex.Inter.{EventHeaderData}
use lachesis_ex.Gossip.Piecefunc.{Dot, get}
use lachesis_ex.Gossip.Piecefunc.Bounds.{get-bounds}
use lachesis_ex.Gossip.Ordering.{Callback, Lru, Call, EventBuffer, push}
use lachesis_ex.Gossip.Ordering.Parents.{AllProper, waiting, push-AllProper}
use lachesis_ex.Gossip.Ordering.Settled.{IsConnecting, IsAmong, IsSettled}

abbrev Connected : Type 0
Connected = List (ℕ × EventHeaderData)

abbrev is_there : Option EventHeaderData → Bool
is_there none = false
is_there (some _) = true

abbrev callback : Callback Connected
callback = record {
  process = λ s e. (insert e.hash e s, true);
  get = λ s id. lookup id s;
  exists = λ s id. is_there (lookup id s);
  check = λ e parents. true;
}

abbrev lru : Lru (List EventHeaderData)
lru = record {
  add = λ e l. e ∷ l;
  touch = λ id l. l;
  remove = λ id l. filter (λ e. not (e.hash == id)) l;
  events = λ l. l;
}

callback-IsConnecting : IsConnecting Connected callback
callback-IsConnecting = record {
  others = λ s e id apart h. ground (arith, lookup-insert e.hash id e s, apart, h);
  failed = λ s e id wrong h. cc;
  connected = λ s e o. ground (arith, lookup-insert e.hash e.hash e s);
  kept = λ s e id h. ground (arith, lookup-insert e.hash id e s);
}

abbrev event : ℕ → List ℕ → EventHeaderData
event id parents = record {
  version = 0;
  epoch = 1;
  seq = 1;
  frame = 0;
  is_root = false;
  creator = 3;
  prev_epoch_hash = 0;
  parents = parents;
  gas_power_left = (0, 0);
  gas_power_used = 0;
  lamport = 1;
  claimed_time = 5;
  median_time = 0;
  tx_hash = 0;
  extra = [];
  hash = id;
}

-- The event 12 waits for the event 11, and is processed after it.
abbrev buffer : EventBuffer Connected (List EventHeaderData)
buffer = record { incompletes = event 12 (11 ∷ []) ∷ []; state = []; calls = [] }

abbrev after_push : EventBuffer Connected (List EventHeaderData)
after_push = record {
  incompletes = [];
  state = (11, event 11 []) ∷ (12, event 12 (11 ∷ [])) ∷ [];
  calls =
      Call.processed ((11, event 11 []) ∷ []) (event 12 (11 ∷ []))
      ∷ Call.processed [] (event 11 [])
      ∷ [];
}

buffer-IsSettled :
    (c : EventHeaderData) → IsAmong c (event 12 (11 ∷ []) ∷ []) → IsSettled callback buffer c
buffer-IsSettled c (inl e) = subst (λ d. IsSettled callback buffer d) (sym e) (inr (inl refl))
buffer-IsSettled c (inr n) = absurd n

push_test : push callback lru 3 (event 11 []) buffer ≡ some after_push
unfolding push
push_test = refl

push-AllProper_example :
    (after : EventBuffer Connected (List EventHeaderData)) × (push callback lru 3
        (event 11 [])
        buffer
      ≡ some after)
    × AllProper callback after.calls
    × IsSettled callback after (event 11 [])
    × ((c : EventHeaderData) → IsAmong c (event 12 (11 ∷ []) ∷ []) → IsSettled callback after c)
unfolding waiting
push-AllProper_example =
    push-AllProper callback lru 3 (event 11 []) buffer callback-IsConnecting tt buffer-IsSettled
      (omega arith)

abbrev dot : ℕ → ℕ → Dot
dot x y = record { x = x; y = y }

get_test : get 15 (dot 0 100 ∷ dot 10 200 ∷ dot 20 50 ∷ []) ≡ some 125
unfolding get
get_test = refl

get-bounds_example :
    (r : ℕ) × (get 15 (dot 0 100 ∷ dot 10 200 ∷ dot 20 50 ∷ []) ≡ some r) × (50 ≤ r + 1) × (r ≤ 200)
get-bounds_example =
    get-bounds 50 200 15 (dot 0 100) (dot 10 200) (dot 20 50 ∷ [])
      (
        omega arith,
        omega arith,
        omega arith,
        omega arith,
        (
          omega arith,
          omega arith,
          omega arith,
          omega arith,
          (omega arith, omega arith, omega arith),
        ),
      )
      (omega arith) (omega arith) (omega arith)
