-- ===== src/Kvdb/Synced/Restart.antt =====
-- A restart after a flush of the pool that a crash or an error has stopped anywhere.
use lachesis_ex.Prelude.{
  ℕ, ◌≡◌, ◌⊎◌, inl, inr, refl, ap, ◌∙◌, false, List, [], ◌∷◌, Option, none, some, arith, Bool-cases,
  if◌then◌else◌,
}
use mathlib.Core.List.{Permᴰ}
use mathlib.Core.List.Permᴰ
use lachesis_ex.Kvdb.{
  Bytes, bytes_eq, Reply, reply, closed, nil_argument, store_error, panics, Tree, Store,
}
use lachesis_ex.Kvdb.Order.{has_prefix}
use lachesis_ex.Kvdb.Synced.{
  LazyFlushable, SyncedPool, Synced, synced, dirty_state, not_synced, read_error, flag, dirty,
  contents, lazy_flush, write_dirty, write_clean, drop_queued, flush_wrappers, flush_pool,
  then_each, each, check_dbs_synced, new_synced_pool, on_disk,
}
use lachesis_ex.Kvdb.Synced.Atomic.{IsAtomic}
use lachesis_ex.Kvdb.Synced.Loops.{
  All, All-weaken, All-perm, names, Permᴰ-names, each-All, then_each-ends, then_each-names,
}
use lachesis_ex.Kvdb.Synced.Phases.{
  IsDirty, IsOld, IsNew, Before, Marked, Flushed, Saved, Early, Late, write_dirty-Early,
  write_dirty-Marked, lazy_flush-Early, lazy_flush-Flushed, write_clean-Late, write_clean-Saved,
  Before-Early, Marked-Early, Flushed-Late,
}

module _ {T D : Type 0} (tree : Tree T) (store : Store D) (ideal : ℕ)
    (atomic : IsAtomic D store) where
  abbrev IsClean : ℕ → D → Type 0
  IsClean name d = has_prefix (contents (atomic.content d flag)) dirty ≡ false

  -- A database that passes the check is not dirty, and the check goes on.
  check_one :
      (name : ℕ) (d : D) (ds : List (ℕ × D)) (prev : Option Bytes) (r : Reply (Option Bytes))
      → store.get d flag ≡ r
      → check_dbs_synced tree store ideal prev ((name, d) ∷ ds) ≡ synced
      → IsClean name d
        × ((next : Option Bytes) × (check_dbs_synced tree store ideal next ds ≡ synced))
  unfolding check_dbs_synced
  check_one name d ds prev (reply mark) e h =
      let read : atomic.content d flag ≡ mark = atomic.get-content d flag mark e in
      let step = rw (e, check_dbs_synced) at h in
      elim (Bool-cases (has_prefix (contents mark) dirty)) [
        | inl bad ↦ let stopped = rw bad at step in absurd (ground arith)
        | inr good ↦ (
          ap (λ v. has_prefix (contents v) dirty) read ∙ good,
          check_rest prev mark (rw good at step),
        )
      ]
    where
      check_rest :
          (prev : Option Bytes) (mark : Option Bytes)
          → elim prev [
            | none ↦ check_dbs_synced tree store ideal (some (contents mark)) ds
            | some before ↦
                if bytes_eq (contents mark) before
                then check_dbs_synced tree store ideal (some before) ds
                else not_synced
          ]
            ≡ synced
          → (next : Option Bytes) × (check_dbs_synced tree store ideal next ds ≡ synced)
      check_rest none mark h = (some (contents mark), h)
      check_rest (some before) mark h = elim (Bool-cases (bytes_eq (contents mark) before)) [
        | inl q ↦ (some before, rw q at h)
        | inr q ↦ let stopped = rw q at h in absurd (ground arith)
      ]
  check_one name d ds prev closed e h =
      let s = rw (e, check_dbs_synced) at h in absurd (ground arith)
  check_one name d ds prev nil_argument e h =
      let s = rw (e, check_dbs_synced) at h in absurd (ground arith)
  check_one name d ds prev store_error e h =
      let s = rw (e, check_dbs_synced) at h in absurd (ground arith)
  check_one name d ds prev panics e h =
      let s = rw (e, check_dbs_synced) at h in absurd (ground arith)

  check-IsClean :
      (ds : List (ℕ × D)) (prev : Option Bytes)
      → check_dbs_synced tree store ideal prev ds ≡ synced
      → All IsClean ds
  check-IsClean [] prev h = tt
  check-IsClean ((name, d) ∷ ds) prev h =
      let (clean, (next, rest)) = check_one name d ds prev (store.get d flag) refl h in
      (clean, check-IsClean ds next rest)

  restart-IsClean :
      (devnull : D) (ds : List (ℕ × D)) (q : SyncedPool T D)
      → new_synced_pool tree store ideal devnull ds ≡ some q
      → All IsClean ds
  unfolding new_synced_pool
  restart-IsClean devnull ds q h =
      check-IsClean ds none (go (check_dbs_synced tree store ideal none ds) refl)
    where
      go :
          (s : Synced)
          → check_dbs_synced tree store ideal none ds ≡ s
          → check_dbs_synced tree store ideal none ds ≡ synced
      go synced e = e
      go dirty_state e = absurd (ground arith)
      go not_synced e = absurd (ground arith)
      go read_error e = absurd (ground arith)

  module _ (id : Bytes) (old new : ℕ → Bytes → Option Bytes) where
    -- What a crash leaves on the disk.
    abbrev EarlyDb : ℕ → D → Type 0
    EarlyDb name d =
        IsDirty tree store ideal atomic id old new d
        ⊎ IsOld tree store ideal atomic id old new name d

    abbrev LateDb : ℕ → D → Type 0
    LateDb name d =
        IsDirty tree store ideal atomic id old new d
        ⊎ IsNew tree store ideal atomic id old new name d

    on_disk-Early :
        (ws : List (ℕ × LazyFlushable T D))
        → All (Early tree store ideal atomic id old new) ws
        → All EarlyDb (on_disk tree store ideal ws)
    unfolding on_disk
    on_disk-Early [] all = tt
    on_disk-Early ((name, w) ∷ ws) (first, all) = go (on_disk-Early ws all) w.producer refl
      where
        go :
            All EarlyDb (on_disk tree store ideal ws)
            → (o : Option D) → w.producer ≡ o
            → All EarlyDb (elim o [
              | none ↦ (name, w.flushable.underlying) ∷ on_disk tree store ideal ws
              | some d ↦ on_disk tree store ideal ws
            ])
        go rest none e = (first e, rest)
        go rest (some d) e = rest

    on_disk-Late :
        (ws : List (ℕ × LazyFlushable T D))
        → All (Late tree store ideal atomic id old new) ws
        → All LateDb (on_disk tree store ideal ws)
          × (names (on_disk tree store ideal ws) ≡ names ws)
    unfolding on_disk names
    on_disk-Late [] all = (tt, refl)
    on_disk-Late ((name, w) ∷ ws) (first, all) =
        let (rest, same) = on_disk-Late ws all in
        rw first.opened ((first.is_dirty_or_new, rest), ap (λ ns. name ∷ ns) same)

    -- Where a flush may stop.
    abbrev Left : List (ℕ × LazyFlushable T D) → Type 0
    Left ws =
        All (Early tree store ideal atomic id old new) ws
        ⊎ All (Late tree store ideal atomic id old new) ws

    loop-Left :
        (order : List (ℕ × LazyFlushable T D) → List (ℕ × LazyFlushable T D))
        (body : LazyFlushable T D → LazyFlushable T D × Reply Unit)
        (Start Stopped Done : ℕ → LazyFlushable T D → Type 0)
        (r : List (ℕ × LazyFlushable T D) × Reply Unit)
        → ((name : ℕ) (w : LazyFlushable T D) → Start name w → Stopped name (body w).0)
        → ((name : ℕ) (w : LazyFlushable T D)
            → Start name w
            → (body w).1 ≡ reply tt
            → Done name (body w).0)
        → ((name : ℕ) (w : LazyFlushable T D) → Start name w → Stopped name w)
        → ((ws : List (ℕ × LazyFlushable T D)) → Permᴰ ws (order ws))
        → ((ws : List (ℕ × LazyFlushable T D)) → All Stopped ws → Left ws)
        → Left r.0 × (r.1 ≡ reply tt → All Start r.0)
        → Left (then_each tree store ideal order body r).0
          × ((then_each tree store ideal order body r).1 ≡ reply tt
              → All Done (then_each tree store ideal order body r).0)
    loop-Left order body Start Stopped Done r stops does unchanged walks left start =
        then_each-ends tree store ideal order body Left (All Start) (All Done) r start λ ws before.
          let (stop, done) =
            each-All tree store ideal body Start Stopped Done stops does unchanged (order ws)
              (All-perm Start (walks ws) before) in
          (left (each tree store ideal body (order ws)).0 stop, done)

    module _ (order : ℕ → List (ℕ × LazyFlushable T D) → List (ℕ × LazyFlushable T D))
        (ws : List (ℕ × LazyFlushable T D))
        (walks : (i : ℕ) (vs : List (ℕ × LazyFlushable T D)) → Permᴰ vs (order i vs)) where
      -- The state after the first loop, and after the second.
      abbrev pub after_marks : List (ℕ × LazyFlushable T D) × Reply Unit
      after_marks =
          then_each tree store ideal (order 0) (write_dirty tree store ideal id) (ws, reply tt)

      abbrev pub after_flushes : List (ℕ × LazyFlushable T D) × Reply Unit
      after_flushes = then_each tree store ideal (order 1) (lazy_flush tree store ideal) after_marks

      module _ (all : All (Before tree store ideal atomic id old new) ws) where
        pub after_marks-Left :
            Left after_marks.0
            × (after_marks.1 ≡ reply tt
                → All (Marked tree store ideal atomic id old new) after_marks.0)
        after_marks-Left =
            let B = Before tree store ideal atomic id old new in
            let E = Early tree store ideal atomic id old new in
            let early = All-weaken B E (Before-Early tree store ideal atomic id old new) ws all in
            loop-Left (order 0) (write_dirty tree store ideal id) B E
              (Marked tree store ideal atomic id old new) (ws, reply tt)
              (write_dirty-Early tree store ideal atomic id old new)
              (write_dirty-Marked tree store ideal atomic id old new)
              (Before-Early tree store ideal atomic id old new) (walks 0) (λ vs h. inl h)
              (inl early, λ h. all)

        pub after_flushes-Left :
            Left after_flushes.0
            × (after_flushes.1 ≡ reply tt
                → All (Flushed tree store ideal atomic id old new) after_flushes.0)
        after_flushes-Left =
            loop-Left (order 1) (lazy_flush tree store ideal)
              (Marked tree store ideal atomic id old new) (Early tree store ideal atomic id old new)
              (Flushed tree store ideal atomic id old new) after_marks
              (lazy_flush-Early tree store ideal atomic id old new)
              (lazy_flush-Flushed tree store ideal atomic id old new)
              (Marked-Early tree store ideal atomic id old new) (walks 1) (λ vs h. inl h)
              after_marks-Left

        pub flush_wrappers-Left :
            Left (flush_wrappers tree store ideal order id ws).0
            × ((flush_wrappers tree store ideal order id ws).1 ≡ reply tt
                → All
                    (Saved tree store ideal atomic id old new)
                    (flush_wrappers tree store ideal order id ws).0)
        unfolding flush_wrappers
        flush_wrappers-Left =
            loop-Left (order 2) (write_clean tree store ideal id)
              (Flushed tree store ideal atomic id old new) (Late tree store ideal atomic id old new)
              (Saved tree store ideal atomic id old new) after_flushes
              (write_clean-Late tree store ideal atomic id old new)
              (write_clean-Saved tree store ideal atomic id old new)
              (Flushed-Late tree store ideal atomic id old new) (walks 2) (λ vs h. inr h)
              after_flushes-Left

    flush_wrappers-names :
        (order : ℕ → List (ℕ × LazyFlushable T D) → List (ℕ × LazyFlushable T D))
        (ws : List (ℕ × LazyFlushable T D))
        → ((i : ℕ) (vs : List (ℕ × LazyFlushable T D)) → Permᴰ vs (order i vs))
        → Permᴰ (names (flush_wrappers tree store ideal order id ws).0) (names ws)
    unfolding flush_wrappers
    flush_wrappers-names order ws walks =
        let one =
          then_each tree store ideal (order 0) (write_dirty tree store ideal id) (ws, reply tt) in
        let two = then_each tree store ideal (order 1) (lazy_flush tree store ideal) one in
        then_each-names tree store ideal (order 2) (write_clean tree store ideal id) two (names ws)
          (walks 2)
          (then_each-names tree store ideal (order 1) (lazy_flush tree store ideal) one (names ws)
            (walks 1)
            (then_each-names tree store ideal (order 0) (write_dirty tree store ideal id)
              (ws, reply tt) (names ws) (walks 0) (Permᴰ.refl (names ws))))

    -- A clean database is not a dirty one.
    clean-or :
        (P : ℕ → D → Type 0) (ds : List (ℕ × D))
        → All IsClean ds
        → All (λ name d. IsDirty tree store ideal atomic id old new d ⊎ P name d) ds
        → All P ds
    clean-or P [] clean all = tt
    clean-or P ((name, d) ∷ ds) (c, clean) (inl bad, all) = absurd (ground arith)
    clean-or P ((name, d) ∷ ds) (c, clean) (inr p, all) = (p, clean-or P ds clean all)

    -- A flush is ended anywhere by a crash, or by an error, which is a crash at the write that fails.
    -- If the databases that are then on the disk pass the check of a restart, in whatever order they
    -- come, either each of them has its old contents, or each of them has the new ones and the id of
    -- the flush, and all caches that were not to be dropped have their databases on the disk. No
    -- cache is lost. Before the flush the caches are open and have no entry for the flag.
    pub restart-flush_pool :
        (order : ℕ → List (ℕ × LazyFlushable T D) → List (ℕ × LazyFlushable T D)) (devnull : D)
        (p q : SyncedPool T D) (ds : List (ℕ × D))
        → ((i : ℕ) (ws : List (ℕ × LazyFlushable T D)) → Permᴰ ws (order i ws))
        → All
            (Before tree store ideal atomic id old new)
            (drop_queued tree store ideal p.queued_drops p.wrappers)
        → Permᴰ (on_disk tree store ideal (flush_pool tree store ideal order id p).0.wrappers) ds
        → new_synced_pool tree store ideal devnull ds ≡ some q
        → (All (IsOld tree store ideal atomic id old new) ds
            ⊎ (All (IsNew tree store ideal atomic id old new) ds
                × Permᴰ
                    (names ds)
                    (names (drop_queued tree store ideal p.queued_drops p.wrappers))))
          × Permᴰ
              (names (flush_pool tree store ideal order id p).0.wrappers)
              (names (drop_queued tree store ideal p.queued_drops p.wrappers))
    unfolding flush_pool
    restart-flush_pool order devnull p q ds walks all disk passes =
        let ws = drop_queued tree store ideal p.queued_drops p.wrappers in
        let end = flush_wrappers tree store ideal order id ws in
        let clean = restart-IsClean devnull ds q passes in
        let kept = flush_wrappers-names order ws walks in
        let old_db = IsOld tree store ideal atomic id old new in
        let new_db = IsNew tree store ideal atomic id old new in
        (
          elim (flush_wrappers-Left order ws walks all).0 [
            | inl early ↦
                inl (clean-or old_db ds clean (All-perm EarlyDb disk (on_disk-Early end.0 early)))
            | inr late ↦
                let (dbs, same) = on_disk-Late end.0 late in
                inr (
                  clean-or new_db ds clean (All-perm LateDb disk dbs),
                  Permᴰ.trans (Permᴰ.symm (Permᴰ-names disk)) (rw same kept),
                )
          ],
          kept,
        )
