-- ===== src/Tests/Pools.antt =====
-- Tests and examples for the pool of caches that are flushed together.
use lachesis_ex.Prelude.{
  ℕ, zero, suc, ◌≡◌, ◌⊎◌, ◌∙◌, inl, inr, refl, true, false, List, [], ◌∷◌, ◌++◌, Option, none, some,
  length, arith,
}
use mathlib.Core.List.{Permᴰ}
use mathlib.Core.List.Permᴰ
use lachesis_ex.Kvdb.{Bytes, bytes_eq, Write, find, after, Reply, reply, is_some, Store}
use lachesis_ex.Kvdb.Writes.{after-append, bytes_eq_refl, over}
use lachesis_ex.Kvdb.Flushable.{flush}
use lachesis_ex.Kvdb.Order.{has_prefix}
use lachesis_ex.Kvdb.Synced.{
  LazyFlushable, SyncedPool, flag, dirty, drop_db, drop_queued, write_dirty, lazy_flush, flush_pool,
  new_synced_pool, on_disk, opened,
}
use lachesis_ex.Kvdb.Synced.Atomic.{IsAtomic}
use lachesis_ex.Kvdb.Synced.Loops.{All, names}
use lachesis_ex.Kvdb.Synced.Phases.{IsOld, IsNew, Before, Saved}
use lachesis_ex.Kvdb.Synced.Restart.{restart-flush_pool}
use lachesis_ex.Kvdb.Synced.Complete.{NeverFails, flush_pool_complete}
use lachesis_ex.Tests.Caches.{store}
use lachesis_ex.Tests.Trees.{Entries, find-empty, tree, put_entry}

-- A database as the list of the writes that it has taken, and the number of writes that it takes
-- before a crash.
abbrev Db : Type 0
Db = ℕ × List Write

abbrev crashing : Store Db
crashing = record {
  has = λ d k. reply (is_some (after d.1 k none));
  get = λ d k. reply (after d.1 k none);
  write = λ d ws. elim d.0 [ zero ↦ (d, true) | suc n ↦ ((n, d.1 ++ ws), false) ];
  put = λ d k v. elim d.0 [ zero ↦ (d, true) | suc n ↦ ((n, d.1 ++ (k, some v) ∷ []), false) ];
  value_size = λ ws. length ws;
  close = λ d. (d, reply tt);
}

after-put : (ws : List Write) (k v : Bytes) → after (ws ++ (k, some v) ∷ []) k none ≡ some v
unfolding after
after-put ws k v = after-append ws ((k, some v) ∷ []) k none ∙ rw (bytes_eq_refl k) refl

after-put_other :
    (ws : List Write) (k v j : Bytes)
    → bytes_eq k j ≡ false
    → after (ws ++ (k, some v) ∷ []) j none ≡ after ws j none
unfolding after
after-put_other ws k v j h = after-append ws ((k, some v) ∷ []) j none ∙ rw h refl

crashing-IsAtomic : IsAtomic Db crashing
crashing-IsAtomic = record {
  content = λ d k. after d.1 k none;
  get-content = λ d k v h. ground arith;
  write-content = write_content;
  write-failed = write_failed;
  put-content = put_content;
  put-failed = put_failed;
  put-other = put_other;
}
  where
    write_content :
        (d : Db) (ws : List Write)
        → (crashing.write d ws).1 ≡ false
        → (k : Bytes) → after (crashing.write d ws).0.1 k none ≡ after ws k (after d.1 k none)
    write_content (zero, old) ws h k = absurd (ground arith)
    write_content (suc n, old) ws h k = after-append old ws k none

    write_failed :
        (d : Db) (ws : List Write) (k : Bytes)
        → (after (crashing.write d ws).0.1 k none ≡ after d.1 k none)
          ⊎ (after (crashing.write d ws).0.1 k none ≡ after ws k (after d.1 k none))
    write_failed (zero, old) ws k = inl refl
    write_failed (suc n, old) ws k = inr (after-append old ws k none)

    put_content :
        (d : Db) (k v : Bytes)
        → (crashing.put d k v).1 ≡ false
        → after (crashing.put d k v).0.1 k none ≡ some v
    put_content (zero, old) k v h = absurd (ground arith)
    put_content (suc n, old) k v h = after-put old k v

    put_failed :
        (d : Db) (k v : Bytes)
        → (after (crashing.put d k v).0.1 k none ≡ after d.1 k none)
          ⊎ (after (crashing.put d k v).0.1 k none ≡ some v)
    put_failed (zero, old) k v = inl refl
    put_failed (suc n, old) k v = inr (after-put old k v)

    put_other :
        (d : Db) (k v j : Bytes)
        → bytes_eq k j ≡ false
        → after (crashing.put d k v).0.1 j none ≡ after d.1 j none
    put_other (zero, old) k v j h = refl
    put_other (suc n, old) k v j h = after-put_other old k v j h

-- Two databases with the flag 1, and a cache with one entry over each of them.
abbrev base : List Write
base = (flag, some (1 ∷ [])) ∷ []

abbrev cached : Entries
cached = ((5 ∷ [], some (7 ∷ [])) ∷ [], (find-empty (5 ∷ []), tt))

abbrev cache_over : Db → LazyFlushable Entries Db
cache_over d = record {
  flushable = record { modified = some cached; underlying = d; size_estimation = 2 };
  producer = none;
}

abbrev pool : ℕ → ℕ → SyncedPool Entries Db
pool m n = record {
  wrappers = (1, cache_over (m, base)) ∷ (2, cache_over (n, base)) ∷ [];
  queued_drops = [];
}

abbrev same_order : ℕ → List (ℕ × LazyFlushable Entries Db) → List (ℕ × LazyFlushable Entries Db)
same_order i ws = ws

abbrev old_contents : ℕ → Bytes → Option Bytes
old_contents name k = after base k none

abbrev new_contents : ℕ → Bytes → Option Bytes
new_contents name k = over (find k cached.0) (after base k none)

-- The caches of the pool are as the theorems want them.
cache_over-Before :
    (name n : ℕ)
    → Before tree crashing 0 crashing-IsAtomic
        (2 ∷ [])
        old_contents
        new_contents
        name
        (cache_over (n, base))
unfolding find bytes_eq after crashing-IsAtomic
cache_over-Before name n = record {
  caches = record { cache = cached; is_open = refl; no_flag = refl; makes = λ k. refl };
  is_old = λ k. refl;
}

-- The first database takes no write: the flush ends in a crash, and a restart finds the old
-- contents.
abbrev stopped : SyncedPool Entries Db
stopped = (flush_pool tree crashing 0 same_order (2 ∷ []) (pool 0 5)).0

abbrev left_dbs : List (ℕ × Db)
left_dbs = (1, (0, base)) ∷ (2, (5, base)) ∷ []

abbrev restarted : SyncedPool Entries Db
restarted = record { wrappers = opened tree crashing 0 (0, []) left_dbs; queued_drops = [] }

on_disk_test : on_disk tree crashing 0 stopped.wrappers ≡ left_dbs
unfolding flush_pool on_disk after bytes_eq write_dirty
on_disk_test = refl

restart_test : new_synced_pool tree crashing 0 (0, []) left_dbs ≡ some restarted
unfolding new_synced_pool after bytes_eq
restart_test = refl

-- A crash after the first flag is dirty is found at the restart.
dirty_test :
    new_synced_pool tree crashing 0
      (0, [])
      (on_disk tree crashing 0
        (flush_pool tree crashing 0 same_order (2 ∷ []) (pool 1 5)).0.wrappers)
    ≡ none
unfolding flush_pool new_synced_pool on_disk after bytes_eq find put_entry write_dirty lazy_flush
    flush
dirty_test = refl

restart-flush_pool_example :
    (All (IsOld tree crashing 0 crashing-IsAtomic (2 ∷ []) old_contents new_contents) left_dbs
      ⊎ (All (IsNew tree crashing 0 crashing-IsAtomic (2 ∷ []) old_contents new_contents) left_dbs
          × Permᴰ
              (names left_dbs)
              (names (drop_queued tree crashing 0 (pool 0 5).queued_drops (pool 0 5).wrappers))))
    × Permᴰ
        (names stopped.wrappers)
        (names (drop_queued tree crashing 0 (pool 0 5).queued_drops (pool 0 5).wrappers))
unfolding flush_pool on_disk drop_queued after bytes_eq write_dirty
restart-flush_pool_example =
    restart-flush_pool tree crashing 0 crashing-IsAtomic (2 ∷ []) old_contents new_contents
      same_order (0, []) (pool 0 5) restarted left_dbs (λ i ws. Permᴰ.refl ws)
      (cache_over-Before 1 0, (cache_over-Before 2 5, tt)) (Permᴰ.refl left_dbs) restart_test

-- A database whose drop is queued is gone before any flag is dirty: after a crash at the first flag
-- the other database passes the check with its old contents.
drop_test :
    on_disk tree crashing 0
      (flush_pool tree crashing 0 same_order
        (2 ∷ [])
        (drop_db tree crashing 0 (pool 5 0) 1)).0.wrappers
    ≡ (2, (0, base)) ∷ []
unfolding flush_pool drop_db on_disk after bytes_eq write_dirty
drop_test = refl

dropped_test :
    new_synced_pool tree crashing 0 (0, []) ((2, (0, base)) ∷ [])
    ≡ some (record {
      wrappers = opened tree crashing 0 (0, []) ((2, (0, base)) ∷ []);
      queued_drops = [];
    })
unfolding new_synced_pool after bytes_eq
dropped_test = refl

-- A pool over databases that never fail.
store-IsAtomic : IsAtomic (List Write) store
store-IsAtomic = record {
  content = λ d k. after d k none;
  get-content = λ d k v h. ground arith;
  write-content = λ d ws h k. after-append d ws k none;
  write-failed = λ d ws k. inr (after-append d ws k none);
  put-content = λ d k v h. after-put d k v;
  put-failed = λ d k v. inr (after-put d k v);
  put-other = λ d k v j h. after-put_other d k v j h;
}

store-NeverFails : NeverFails (List Write) store store-IsAtomic
unfolding store-IsAtomic
store-NeverFails = record { reads = λ d k. refl; puts = λ d k v. refl; writes = λ d ws. refl }

-- One cache over an opened database, and one whose database is not opened.
abbrev steady : SyncedPool Entries (List Write)
steady = record {
  wrappers =
      (
        1,
        record {
          flushable = record { modified = some cached; underlying = base; size_estimation = 2 };
          producer = none;
        },
      )
      ∷ (
        2,
        record {
          flushable = record { modified = some cached; underlying = []; size_estimation = 2 };
          producer = some base;
        },
      )
      ∷ [];
  queued_drops = [];
}

abbrev in_order :
    ℕ
    → List (ℕ × LazyFlushable Entries (List Write))
    → List (ℕ × LazyFlushable Entries (List Write))
in_order i ws = ws

steady-Before :
    All
      (Before tree store 0 store-IsAtomic (2 ∷ []) old_contents new_contents)
      (drop_queued tree store 0 steady.queued_drops steady.wrappers)
unfolding drop_queued find bytes_eq after store-IsAtomic
steady-Before = (
  record {
    caches = record { cache = cached; is_open = refl; no_flag = refl; makes = λ k. refl };
    is_old = λ k. refl;
  },
  (
    record {
      caches = record { cache = cached; is_open = refl; no_flag = refl; makes = λ k. refl };
      is_old = λ k. refl;
    },
    tt,
  ),
)

clean_id : has_prefix (2 ∷ []) dirty ≡ false
unfolding has_prefix
clean_id = refl

abbrev flushed_pool : SyncedPool Entries (List Write) × Reply Unit
flushed_pool = flush_pool tree store 0 in_order (2 ∷ []) steady

flush_pool_complete_example :
    (flushed_pool.1 ≡ reply tt)
    × All
        (Saved tree store 0 store-IsAtomic (2 ∷ []) old_contents new_contents)
        flushed_pool.0.wrappers
    × (new_synced_pool tree store 0 [] (on_disk tree store 0 flushed_pool.0.wrappers)
        ≡ some (record {
          wrappers = opened tree store 0 [] (on_disk tree store 0 flushed_pool.0.wrappers);
          queued_drops = [];
        }))
flush_pool_complete_example =
    flush_pool_complete tree store 0 store-IsAtomic store-NeverFails (2 ∷ []) old_contents
      new_contents in_order [] steady (on_disk tree store 0 flushed_pool.0.wrappers)
      (λ i ws. Permᴰ.refl ws) steady-Before clean_id
      (Permᴰ.refl (on_disk tree store 0 flushed_pool.0.wrappers))
