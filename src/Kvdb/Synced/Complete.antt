-- ===== src/Kvdb/Synced/Complete.antt =====
-- A flush of the pool over databases that do not fail, and the restart after it.
use lachesis_ex.Prelude.{
  ℕ, ◌≡◌, ◌⊎◌, inl, inr, refl, ap, ◌∙◌, false, List, [], ◌∷◌, ◌++◌, Option, none, some, ltb, arith,
  Bool-cases,
}
use mathlib.Core.List.{Permᴰ}
use lachesis_ex.Kvdb.{Bytes, Write, Reply, reply, Tree, Store}
use lachesis_ex.Kvdb.Writes.{bytes_eq_refl}
use lachesis_ex.Kvdb.Flushable.{Flushable, flush_entries, flush_last, flush}
use lachesis_ex.Kvdb.Order.{has_prefix}
use lachesis_ex.Kvdb.Synced.{
  LazyFlushable, SyncedPool, synced, flag, dirty, marker, init_underlying_db, lazy_flush, put_flag,
  put_marker, write_dirty, write_clean, drop_queued, flush_wrappers, flush_pool, then_each, each,
  go_on, check_dbs_synced, new_synced_pool, on_disk, opened,
}
use lachesis_ex.Kvdb.Synced.Atomic.{IsAtomic, flush-open}
use lachesis_ex.Kvdb.Synced.Loops.{All, All-perm}
use lachesis_ex.Kvdb.Synced.Phases.{Before, Marked, Flushed, Saved, IsNew, init_of_opened}
use lachesis_ex.Kvdb.Synced.Restart.{
  after_marks, after_flushes, after_marks-Left, after_flushes-Left, flush_wrappers-Left,
}

-- Reads reply the contents, and no write fails.
pub record NeverFails (D : Type 0) (store : Store D) (atomic : IsAtomic D store) : Type 0 where
  pub reads : (d : D) (k : Bytes) → store.get d k ≡ reply (atomic.content d k)
  pub puts : (d : D) (k v : Bytes) → (store.put d k v).1 ≡ false
  pub writes : (d : D) (ws : List Write) → (store.write d ws).1 ≡ false

module _ {T D : Type 0} (tree : Tree T) (store : Store D) (ideal : ℕ) (atomic : IsAtomic D store)
    (never : NeverFails D store atomic) where
  flush_entries-total :
      (es batch : List Write) (d : D)
      → (rest : List Write) × ((flush_entries tree store ideal es batch d).1 ≡ some rest)
  unfolding flush_entries
  flush_entries-total [] batch d = (batch, refl)
  flush_entries-total (e ∷ es) batch d =
      let both = batch ++ e ∷ [] in
      elim (Bool-cases (ltb ideal (store.value_size both))) [
        | inl q ↦
            rw (q, flush_entries)
              (rw (never.writes d both, flush_entries)
                (flush_entries-total es [] (store.write d both).0))
        | inr q ↦ rw (q, flush_entries) (flush_entries-total es both d)
      ]

  flush_last-ok :
      (d : D × Option (List Write)) (w : Flushable T D) (rest : List Write)
      → d.1 ≡ some rest
      → (flush_last tree store ideal d w).1 ≡ reply tt
  unfolding flush_last
  flush_last-ok (d, none) w rest h = absurd (ground arith)
  flush_last-ok (d, some batch) w rest h = rw (never.writes d batch) refl

  flush-ok :
      (w : Flushable T D) (t : T) → w.modified ≡ some t → (flush tree store ideal w).1 ≡ reply tt
  flush-ok w t o =
      let done = flush_entries tree store ideal (tree.entries t) [] w.underlying in
      let (rest, is) = flush_entries-total (tree.entries t) [] w.underlying in
      rw (flush-open tree store ideal atomic w t o) (flush_last-ok done w rest is)

  put_flag-ok : (w : LazyFlushable T D) (v : Bytes) → (put_flag tree store ideal w v).1 ≡ reply tt
  unfolding put_flag
  put_flag-ok w v = rw (never.puts w.flushable.underlying flag v) refl

  module _ (body : LazyFlushable T D → LazyFlushable T D × Reply Unit)
      (Start : ℕ → LazyFlushable T D → Type 0)
      (ends : (name : ℕ) (w : LazyFlushable T D) → Start name w → (body w).1 ≡ reply tt) where
    each-ok :
        (ws : List (ℕ × LazyFlushable T D))
        → All Start ws
        → (each tree store ideal body ws).1 ≡ reply tt
    unfolding each go_on
    each-ok [] all = refl
    each-ok ((name, w) ∷ ws) (first, all) = rw (ends name w first, go_on) (each-ok ws all)

    then_each-ok :
        (order : List (ℕ × LazyFlushable T D) → List (ℕ × LazyFlushable T D))
        (r : List (ℕ × LazyFlushable T D) × Reply Unit)
        → ((ws : List (ℕ × LazyFlushable T D)) → Permᴰ ws (order ws))
        → r.1 ≡ reply tt
        → All Start r.0
        → (then_each tree store ideal order body r).1 ≡ reply tt
    unfolding then_each
    then_each-ok order (ws, reply u) walks h all =
        each-ok (order ws) (All-perm Start (walks ws) all)
    then_each-ok order (ws, _) walks h all = absurd (ground arith)

  module _ (id : Bytes) (old new : ℕ → Bytes → Option Bytes) where
    write_dirty-ok : (w : LazyFlushable T D) → (write_dirty tree store ideal id w).1 ≡ reply tt
    unfolding write_dirty put_marker
    write_dirty-ok w =
        let o = init_underlying_db tree store ideal w in
        rw (never.reads o.flushable.underlying flag, put_marker)
          (put_flag-ok o (marker (atomic.content o.flushable.underlying flag) id))

    lazy_flush-ok :
        (name : ℕ) (w : LazyFlushable T D)
        → Marked tree store ideal atomic id old new name w
        → (lazy_flush tree store ideal w).1 ≡ reply tt
    unfolding lazy_flush
    lazy_flush-ok name w m =
        rw (init_of_opened tree store ideal atomic id old new w m.opened)
          (flush-ok w.flushable m.caches.cache m.caches.is_open)

    write_clean-ok : (w : LazyFlushable T D) → (write_clean tree store ideal id w).1 ≡ reply tt
    unfolding write_clean
    write_clean-ok w = put_flag-ok (init_underlying_db tree store ideal w) id

    flush_wrappers-ok :
        (order : ℕ → List (ℕ × LazyFlushable T D) → List (ℕ × LazyFlushable T D))
        (ws : List (ℕ × LazyFlushable T D))
        → ((i : ℕ) (vs : List (ℕ × LazyFlushable T D)) → Permᴰ vs (order i vs))
        → All (Before tree store ideal atomic id old new) ws
        → (flush_wrappers tree store ideal order id ws).1 ≡ reply tt
    unfolding flush_wrappers
    flush_wrappers-ok order ws walks all =
        let B = Before tree store ideal atomic id old new in
        let M = Marked tree store ideal atomic id old new in
        let F = Flushed tree store ideal atomic id old new in
        let one = after_marks tree store ideal atomic id old new order ws walks in
        let two = after_flushes tree store ideal atomic id old new order ws walks in
        let first : one.1 ≡ reply tt =
          then_each-ok (write_dirty tree store ideal id) B (λ n w h. write_dirty-ok w) (order 0)
            (ws, reply tt) (walks 0) refl all in
        let second : two.1 ≡ reply tt =
          then_each-ok (lazy_flush tree store ideal) M lazy_flush-ok (order 1) one (walks 1) first
            ((after_marks-Left tree store ideal atomic id old new order ws walks all).1 first) in
        then_each-ok (write_clean tree store ideal id) F (λ n w h. write_clean-ok w) (order 2) two
          (walks 2) second
          ((after_flushes-Left tree store ideal atomic id old new order ws walks all).1 second)

    -- The check passes over databases that all have the id.
    check_all :
        (ds : List (ℕ × D)) (prev : Option Bytes)
        → has_prefix id dirty ≡ false
        → (prev ≡ none) ⊎ (prev ≡ some id)
        → All (IsNew tree store ideal atomic id old new) ds
        → check_dbs_synced tree store ideal prev ds ≡ synced
    unfolding check_dbs_synced
    check_all [] prev clean p all = refl
    check_all ((name, d) ∷ ds) prev clean p (first, all) =
        let rest = check_all ds (some id) clean (inr refl) all in
        let read : store.get d flag ≡ reply (some id) = never.reads d flag ∙ ap reply first.0 in
        rw (read, check_dbs_synced)
          (rw clean (elim p [ inl e ↦ rw e rest | inr e ↦ rw e (rw (bytes_eq_refl id) rest) ]))

    on_disk-New :
        (ws : List (ℕ × LazyFlushable T D))
        → All (Saved tree store ideal atomic id old new) ws
        → All (IsNew tree store ideal atomic id old new) (on_disk tree store ideal ws)
    unfolding on_disk
    on_disk-New [] all = tt
    on_disk-New ((name, w) ∷ ws) (first, all) =
        let rest = on_disk-New ws all in rw first.opened (first.is_new, rest)

    -- Over databases that do not fail, a flush of the pool ends without an error. Every database is
    -- opened then and has the new contents with the id under the flag, every cache is empty, and a
    -- restart makes a pool of the databases, in whatever order they come. Before the flush the
    -- caches are open and have no entry for the flag, and the id does not begin with "dirty".
    pub flush_pool_complete :
        (order : ℕ → List (ℕ × LazyFlushable T D) → List (ℕ × LazyFlushable T D)) (devnull : D)
        (p : SyncedPool T D) (ds : List (ℕ × D))
        → ((i : ℕ) (ws : List (ℕ × LazyFlushable T D)) → Permᴰ ws (order i ws))
        → All
            (Before tree store ideal atomic id old new)
            (drop_queued tree store ideal p.queued_drops p.wrappers)
        → has_prefix id dirty ≡ false
        → Permᴰ (on_disk tree store ideal (flush_pool tree store ideal order id p).0.wrappers) ds
        → ((flush_pool tree store ideal order id p).1 ≡ reply tt)
          × All
              (Saved tree store ideal atomic id old new)
              (flush_pool tree store ideal order id p).0.wrappers
          × (new_synced_pool tree store ideal devnull ds
              ≡ some (record { wrappers = opened tree store ideal devnull ds; queued_drops = [] }))
    unfolding flush_pool new_synced_pool
    flush_pool_complete order devnull p ds walks all clean disk =
        let ws = drop_queued tree store ideal p.queued_drops p.wrappers in
        let ends = flush_wrappers-ok order ws walks all in
        let saved =
          (flush_wrappers-Left tree store ideal atomic id old new order ws walks all).1 ends in
        let dbs =
          All-perm (IsNew tree store ideal atomic id old new) disk
            (on_disk-New (flush_wrappers tree store ideal order id ws).0 saved) in
        (ends, saved, rw (check_all ds none clean (inl refl) dbs, new_synced_pool) refl)
