-- ===== src/Kvdb/Synced.antt =====
-- kvdb/flushable/lazy_flushable.go and synced_pool.go: caches whose databases are opened late, and
-- the pool that flushes all of them together under flags, which tell after a crash whether the
-- databases belong together.
pub mod Atomic
pub mod Loops
pub mod Phases
pub mod Restart
pub mod Complete
use lachesis_ex.Prelude.{
  ℕ, ◌+◌, Bool, true, false, List, [], ◌∷◌, ◌++◌, Option, none, some, ltb, ◌||◌, if◌then◌else◌,
}
use lachesis_ex.Prelude.Assoc.{lookup, insert, erase}
use lachesis_ex.Kvdb.{
  Bytes, bytes_eq, Write, Reply, reply, closed, nil_argument, store_error, panics, Tree, Store,
}
use lachesis_ex.Kvdb.Order.{has_prefix}
use lachesis_ex.Kvdb.Flushable.{Flushable, wrap, flush}

-- `LazyFlushable`: the producer is the database that it opens, and none once it is used. The
-- database under the cache is the empty one of the source (`devnull`) until then.
pub record LazyFlushable (T D : Type 0) : Type 0 where
  pub flushable : Flushable T D
  pub producer : Option D

-- `SyncedPool`: the caches under their names, and the names to drop at the next flush. The names
-- are numbers. Its lock is left out, and so is the time of the last flush.
pub record SyncedPool (T D : Type 0) : Type 0 where
  pub wrappers : List (ℕ × LazyFlushable T D)
  pub queued_drops : List ℕ

-- "flag", "dirty" and "initial"
abbrev pub flag : Bytes
flag = 102 ∷ 108 ∷ 97 ∷ 103 ∷ []

abbrev pub dirty : Bytes
dirty = 100 ∷ 105 ∷ 114 ∷ 116 ∷ 121 ∷ []

abbrev pub initial_mark : Bytes
initial_mark = 105 ∷ 110 ∷ 105 ∷ 116 ∷ 105 ∷ 97 ∷ 108 ∷ []

-- The contents of a value that may be nil.
abbrev pub contents : Option Bytes → Bytes
contents none = []
contents (some v) = v

-- What the flag was, in a marker.
abbrev pub mark_before : Option Bytes → Bytes
mark_before none = initial_mark
mark_before (some v) = v

-- The marker of a flush that has begun.
abbrev pub marker : Option Bytes → Bytes → Bytes
marker prev id = dirty ++ (mark_before prev ++ id)

-- How the check of the databases ends: with an error when one is dirty, has another flag than the
-- one before it, or cannot be read.
pub data Synced : Type 0 where
  synced dirty_state not_synced read_error : Synced

module _ {T D : Type 0} (tree : Tree T) (store : Store D) (ideal : ℕ) where
  -- `NewLazy`
  unfoldable pub new_lazy : D → D → LazyFlushable T D
  unfolding wrap
  new_lazy devnull d = record { flushable = wrap tree store ideal devnull; producer = some d }

  -- `InitUnderlyingDb`
  unfoldable pub init_underlying_db : LazyFlushable T D → LazyFlushable T D
  init_underlying_db w = elim w.producer [
    | none ↦ w
    | some d ↦ record { flushable = record w.flushable { underlying = d }; producer = none }
  ]

  -- `Flush` of the lazy cache
  unfoldable pub lazy_flush : LazyFlushable T D → LazyFlushable T D × Reply Unit
  unfolding init_underlying_db
  lazy_flush w =
      let opened = init_underlying_db w in
      let (f, end) = flush tree store ideal opened.flushable in
      (record opened { flushable = f }, end)

  -- The cache over a changed database.
  abbrev pub over_db : LazyFlushable T D → D → LazyFlushable T D
  over_db w d = record w { flushable = record w.flushable { underlying = d } }

  -- `db.Put(key, value)` under the cache, as the loops of the pool do it.
  unfoldable pub put_flag : LazyFlushable T D → Bytes → LazyFlushable T D × Reply Unit
  put_flag w value =
      let (d, failed) = store.put w.flushable.underlying flag value in
      (over_db w d, if failed then store_error else reply tt)

  -- The marker is put once the flag is read without an error.
  unfoldable pub put_marker :
      Bytes → LazyFlushable T D → Reply (Option Bytes) → LazyFlushable T D × Reply Unit
  unfolding put_flag
  put_marker id w (reply prev) = put_flag w (marker prev id)
  put_marker id w closed = (w, closed)
  put_marker id w nil_argument = (w, nil_argument)
  put_marker id w store_error = (w, store_error)
  put_marker id w panics = (w, panics)

  -- The first loop over the wrappers in `flush`: the flag becomes dirty.
  unfoldable pub write_dirty : Bytes → LazyFlushable T D → LazyFlushable T D × Reply Unit
  unfolding init_underlying_db put_marker
  write_dirty id w =
      let opened = init_underlying_db w in
      put_marker id opened (store.get opened.flushable.underlying flag)

  -- The last loop: the flag becomes the id of the flush.
  unfoldable pub write_clean : Bytes → LazyFlushable T D → LazyFlushable T D × Reply Unit
  unfolding init_underlying_db put_flag
  write_clean id w = put_flag (init_underlying_db w) id

  -- What a loop over the wrappers makes of one of them and, unless this one ends with an error, of
  -- the rest.
  unfoldable pub go_on :
      ℕ × LazyFlushable T D
      → Reply Unit
      → List (ℕ × LazyFlushable T D)
      → List (ℕ × LazyFlushable T D) × Reply Unit
      → List (ℕ × LazyFlushable T D) × Reply Unit
  go_on entry (reply _) ws rest = (entry ∷ rest.0, rest.1)
  go_on entry closed ws rest = (entry ∷ ws, closed)
  go_on entry nil_argument ws rest = (entry ∷ ws, nil_argument)
  go_on entry store_error ws rest = (entry ∷ ws, store_error)
  go_on entry panics ws rest = (entry ∷ ws, panics)

  -- A loop over the wrappers, which ends at the first error.
  unfoldable pub each :
      (LazyFlushable T D → LazyFlushable T D × Reply Unit)
      → List (ℕ × LazyFlushable T D)
      → List (ℕ × LazyFlushable T D) × Reply Unit
  unfolding go_on
  each body [] = ([], reply tt)
  each body ((name, w) ∷ ws) = go_on (name, (body w).0) (body w).1 ws (each body ws)

  -- The next loop, unless the one before ended with an error. It walks the map in its own order.
  unfoldable pub then_each :
      (List (ℕ × LazyFlushable T D) → List (ℕ × LazyFlushable T D))
      → (LazyFlushable T D → LazyFlushable T D × Reply Unit)
      → List (ℕ × LazyFlushable T D) × Reply Unit
      → List (ℕ × LazyFlushable T D) × Reply Unit
  unfolding each
  then_each order body (ws, reply _) = each body (order ws)
  then_each order body (ws, closed) = (ws, closed)
  then_each order body (ws, nil_argument) = (ws, nil_argument)
  then_each order body (ws, store_error) = (ws, store_error)
  then_each order body (ws, panics) = (ws, panics)

  -- The wrappers without those whose drop is queued; the databases of these are dropped.
  unfoldable pub drop_queued : List ℕ → List (ℕ × LazyFlushable T D) → List (ℕ × LazyFlushable T D)
  drop_queued [] ws = ws
  drop_queued (name ∷ names) ws = drop_queued names (erase name ws)

  -- The three loops of `flush`, each in an order of its own: `order` gives that of the map.
  unfoldable pub flush_wrappers :
      (ℕ → List (ℕ × LazyFlushable T D) → List (ℕ × LazyFlushable T D))
      → Bytes
      → List (ℕ × LazyFlushable T D)
      → List (ℕ × LazyFlushable T D) × Reply Unit
  unfolding then_each
  flush_wrappers order id ws =
      then_each (order 2) (write_clean id)
        (then_each (order 1) lazy_flush (then_each (order 0) (write_dirty id) (ws, reply tt)))

  -- `Flush` of the pool
  unfoldable pub flush_pool :
      (ℕ → List (ℕ × LazyFlushable T D) → List (ℕ × LazyFlushable T D))
      → Bytes
      → SyncedPool T D
      → SyncedPool T D × Reply Unit
  unfolding flush_wrappers drop_queued
  flush_pool order id p =
      let (ws, end) = flush_wrappers order id (drop_queued p.queued_drops p.wrappers) in
      (record { wrappers = ws; queued_drops = [] }, end)

  -- `dropDb`, the callback of a dropped cache
  unfoldable pub drop_db : SyncedPool T D → ℕ → SyncedPool T D
  drop_db p name = record p { queued_drops = name ∷ p.queued_drops }

  -- `GetDb`: a new cache opens what the producer gives for the name.
  unfoldable pub get_db : D → (ℕ → D) → SyncedPool T D → ℕ → SyncedPool T D × LazyFlushable T D
  unfolding new_lazy
  get_db devnull open_db p name = elim (lookup name p.wrappers) [
    | some w ↦ (p, w)
    | none ↦
        let w = new_lazy devnull (open_db name) in
        (record p { wrappers = insert name w p.wrappers }, w)
  ]

  -- `IsFlushNeeded`, for the minutes since the last flush
  unfoldable pub not_flushed_size : List (ℕ × LazyFlushable T D) → ℕ
  not_flushed_size [] = 0
  not_flushed_size ((name, w) ∷ ws) = w.flushable.size_estimation + not_flushed_size ws

  unfoldable pub is_flush_needed : ℕ → SyncedPool T D → Bool
  unfolding not_flushed_size
  is_flush_needed nanoseconds p =
      ltb 600000000000 nanoseconds || ltb 10485760 (not_flushed_size p.wrappers)

  -- The loop of `checkDbsSynced`, with the flag of the database before.
  unfoldable pub check_dbs_synced : Option Bytes → List (ℕ × D) → Synced
  unfolding has_prefix
  check_dbs_synced prev [] = synced
  check_dbs_synced prev ((name, d) ∷ ds) =
      let rest = λ (mark : Bytes). check_dbs_synced (some mark) ds in
      elim (store.get d flag) [
        | reply mark ↦ if has_prefix (contents mark) dirty then dirty_state else elim prev [
          | none ↦ rest (contents mark)
          | some before ↦ if bytes_eq (contents mark) before then rest before else not_synced
        ]
        | closed ↦ read_error
        | nil_argument ↦ read_error
        | store_error ↦ read_error
        | panics ↦ read_error
      ]

  -- The caches over the opened databases.
  unfoldable pub opened : D → List (ℕ × D) → List (ℕ × LazyFlushable T D)
  unfolding new_lazy init_underlying_db
  opened devnull [] = []
  opened devnull ((name, d) ∷ ds) =
      (name, init_underlying_db (new_lazy devnull d)) ∷ opened devnull ds

  -- `NewSyncedPool`, from the names that the producer has, in an order of the map, each with the
  -- database that it opens; `none` is the fatal log line.
  unfoldable pub new_synced_pool : D → List (ℕ × D) → Option (SyncedPool T D)
  unfolding opened check_dbs_synced
  new_synced_pool devnull ds = elim (check_dbs_synced none ds) [
    | synced ↦ some (record { wrappers = opened devnull ds; queued_drops = [] })
    | dirty_state ↦ none
    | not_synced ↦ none
    | read_error ↦ none
  ]

  -- The databases that are on the disk: those that the caches have opened.
  unfoldable pub on_disk : List (ℕ × LazyFlushable T D) → List (ℕ × D)
  on_disk [] = []
  on_disk ((name, w) ∷ ws) = elim w.producer [
    | none ↦ (name, w.flushable.underlying) ∷ on_disk ws
    | some d ↦ on_disk ws
  ]
