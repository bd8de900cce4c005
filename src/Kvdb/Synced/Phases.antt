-- ===== src/Kvdb/Synced/Phases.antt =====
-- What each loop of the pool's flush does to one cache and its database.
use lachesis_ex.Prelude.{
  ℕ, ◌≡◌, ◌⊎◌, inl, inr, refl, ap, ◌∙◌, true, false, Option, none, some, arith, Bool-cases,
}
use lachesis_ex.Kvdb.{
  Bytes, bytes_eq, Reply, reply, closed, nil_argument, store_error, panics, Tree, Store,
}
use lachesis_ex.Kvdb.Writes.{over, bytes_eq-eq}
use mathlib.Core.Path.{subst}
use lachesis_ex.Kvdb.Flushable.{Flushable}
use lachesis_ex.Kvdb.Order.{has_prefix}
use lachesis_ex.Kvdb.Synced.{
  LazyFlushable, flag, dirty, contents, marker, init_underlying_db, lazy_flush, put_flag,
  put_marker, write_dirty, write_clean,
}
use lachesis_ex.Kvdb.Synced.Atomic.{IsAtomic, flush-other, flush-saved}

module _ {T D : Type 0} (tree : Tree T) (store : Store D) (ideal : ℕ) (atomic : IsAtomic D store)
    (id : Bytes) (old new : ℕ → Bytes → Option Bytes) where
  -- The flag begins with "dirty".
  abbrev pub IsDirty : D → Type 0
  IsDirty d = has_prefix (contents (atomic.content d flag)) dirty ≡ true

  -- The database is as it was, or as it is to be, with the id of the flush under the flag.
  abbrev pub IsOld : ℕ → D → Type 0
  IsOld name d = (k : Bytes) → atomic.content d k ≡ old name k

  abbrev pub IsNew : ℕ → D → Type 0
  IsNew name d =
      (atomic.content d flag ≡ some id)
      × ((k : Bytes) → bytes_eq flag k ≡ false → atomic.content d k ≡ new name k)

  -- The database under the cache once it is opened.
  abbrev pub db_of : LazyFlushable T D → D
  db_of w = elim w.producer [ none ↦ w.flushable.underlying | some d ↦ d ]

  -- An open cache, without an entry for the flag, that makes the new contents of the old ones.
  pub record Caches (name : ℕ) (f : Flushable T D) : Type 0 where
    pub cache : T
    pub is_open : f.modified ≡ some cache
    pub no_flag : tree.get flag cache ≡ none
    pub makes : (k : Bytes) → over (tree.get k cache) (old name k) ≡ new name k

  -- Before the flush.
  pub record Before (name : ℕ) (w : LazyFlushable T D) : Type 0 where
    pub caches : Caches name w.flushable
    pub is_old : IsOld name (db_of w)

  -- The same once the database is opened.
  record Opened (name : ℕ) (w : LazyFlushable T D) : Type 0 where
    caches : Caches name w.flushable
    opened : w.producer ≡ none
    is_old : IsOld name w.flushable.underlying

  -- After the first loop.
  pub record Marked (name : ℕ) (w : LazyFlushable T D) : Type 0 where
    pub caches : Caches name w.flushable
    pub opened : w.producer ≡ none
    is_dirty : IsDirty w.flushable.underlying
    kept :
        (k : Bytes) → bytes_eq flag k ≡ false → atomic.content w.flushable.underlying k ≡ old name k

  -- After the second loop.
  pub record Flushed (name : ℕ) (w : LazyFlushable T D) : Type 0 where
    opened : w.producer ≡ none
    is_dirty : IsDirty w.flushable.underlying
    written :
        (k : Bytes) → bytes_eq flag k ≡ false → atomic.content w.flushable.underlying k ≡ new name k
    emptied : w.flushable.modified ≡ some tree.empty

  -- After the last loop.
  pub record Saved (name : ℕ) (w : LazyFlushable T D) : Type 0 where
    pub opened : w.producer ≡ none
    pub is_new : IsNew name w.flushable.underlying
    pub emptied : w.flushable.modified ≡ some tree.empty

  -- Where the first or the second loop may stop: an opened database is old or dirty.
  abbrev pub Early : ℕ → LazyFlushable T D → Type 0
  Early name w =
      w.producer ≡ none → IsDirty w.flushable.underlying ⊎ IsOld name w.flushable.underlying

  -- Where the last loop may stop: every database is dirty or new.
  pub record Late (name : ℕ) (w : LazyFlushable T D) : Type 0 where
    pub opened : w.producer ≡ none
    pub is_dirty_or_new : IsDirty w.flushable.underlying ⊎ IsNew name w.flushable.underlying

  init-opened : (w : LazyFlushable T D) → (init_underlying_db tree store ideal w).producer ≡ none
  unfolding init_underlying_db
  init-opened w = ground arith

  init-modified :
      (w : LazyFlushable T D)
      → (init_underlying_db tree store ideal w).flushable.modified ≡ w.flushable.modified
  unfolding init_underlying_db
  init-modified w = ground arith

  init-underlying :
      (w : LazyFlushable T D)
      → (init_underlying_db tree store ideal w).flushable.underlying ≡ db_of w
  unfolding init_underlying_db
  init-underlying w = ground arith

  init-Opened :
      (name : ℕ) (w : LazyFlushable T D)
      → Before name w
      → Opened name (init_underlying_db tree store ideal w)
  init-Opened name w b = record {
    caches = record {
      cache = b.caches.cache;
      is_open = init-modified w ∙ b.caches.is_open;
      no_flag = b.caches.no_flag;
      makes = b.caches.makes;
    };
    opened = init-opened w;
    is_old = λ k. ap (λ d. atomic.content d k) (init-underlying w) ∙ b.is_old k;
  }

  pub init_of_opened :
      (w : LazyFlushable T D) → w.producer ≡ none → init_underlying_db tree store ideal w ≡ w
  unfolding init_underlying_db
  init_of_opened w o = ground arith

  marker-IsDirty :
      (d : D) (prev : Option Bytes) → atomic.content d flag ≡ some (marker prev id) → IsDirty d
  unfolding has_prefix
  marker-IsDirty d prev e = rw e refl

  -- What is read after the flag is put, or not.
  put-IsOld :
      (name : ℕ) (d : D) (value : Bytes)
      → IsOld name d
      → atomic.content (store.put d flag value).0 flag ≡ atomic.content d flag
      → IsOld name (store.put d flag value).0
  put-IsOld name d value o e k = elim (Bool-cases (bytes_eq flag k)) [
    | inl same ↦
        subst (λ j. atomic.content (store.put d flag value).0 j ≡ old name j)
          (bytes_eq-eq flag k same) (e ∙ o flag)
    | inr other ↦ atomic.put-other d flag value k other ∙ o k
  ]

  put_marker-Early :
      (name : ℕ) (w : LazyFlushable T D) (r : Reply (Option Bytes))
      → Opened name w
      → Early name (put_marker tree store ideal id w r).0
  unfolding put_marker put_flag
  put_marker-Early name w (reply prev) b p =
      let d = w.flushable.underlying in
      elim (atomic.put-failed d flag (marker prev id)) [
        | inl e ↦ inr (put-IsOld name d (marker prev id) b.is_old e)
        | inr e ↦ inl (marker-IsDirty (store.put d flag (marker prev id)).0 prev e)
      ]
  put_marker-Early name w closed b p = inr b.is_old
  put_marker-Early name w nil_argument b p = inr b.is_old
  put_marker-Early name w store_error b p = inr b.is_old
  put_marker-Early name w panics b p = inr b.is_old

  put_marker-Marked :
      (name : ℕ) (w : LazyFlushable T D) (r : Reply (Option Bytes))
      → Opened name w
      → (put_marker tree store ideal id w r).1 ≡ reply tt
      → Marked name (put_marker tree store ideal id w r).0
  unfolding put_marker put_flag
  put_marker-Marked name w (reply prev) b h =
      let d = w.flushable.underlying in
      elim (Bool-cases (store.put d flag (marker prev id)).1) [
        | inl e ↦ let failed = rw e at h in absurd (ground arith)
        | inr e ↦ record {
          caches = record {
            cache = b.caches.cache;
            is_open = b.caches.is_open;
            no_flag = b.caches.no_flag;
            makes = b.caches.makes;
          };
          opened = b.opened;
          is_dirty =
              marker-IsDirty (store.put d flag (marker prev id)).0 prev
                (atomic.put-content d flag (marker prev id) e);
          kept = λ k other. atomic.put-other d flag (marker prev id) k other ∙ b.is_old k;
        }
      ]
  put_marker-Marked name w closed b h = absurd (ground arith)
  put_marker-Marked name w nil_argument b h = absurd (ground arith)
  put_marker-Marked name w store_error b h = absurd (ground arith)
  put_marker-Marked name w panics b h = absurd (ground arith)

  -- The first loop.
  pub write_dirty-Early :
      (name : ℕ) (w : LazyFlushable T D)
      → Before name w
      → Early name (write_dirty tree store ideal id w).0
  unfolding write_dirty
  write_dirty-Early name w b =
      let o = init_underlying_db tree store ideal w in
      put_marker-Early name o (store.get o.flushable.underlying flag) (init-Opened name w b)

  pub write_dirty-Marked :
      (name : ℕ) (w : LazyFlushable T D)
      → Before name w
      → (write_dirty tree store ideal id w).1 ≡ reply tt
      → Marked name (write_dirty tree store ideal id w).0
  unfolding write_dirty
  write_dirty-Marked name w b =
      let o = init_underlying_db tree store ideal w in
      put_marker-Marked name o (store.get o.flushable.underlying flag) (init-Opened name w b)

  -- The second loop.
  pub lazy_flush-Early :
      (name : ℕ) (w : LazyFlushable T D)
      → Marked name w
      → Early name (lazy_flush tree store ideal w).0
  unfolding lazy_flush
  lazy_flush-Early name w m = rw (init_of_opened w m.opened) (λ p. inl (
      ap (λ v. has_prefix (contents v) dirty)
        (flush-other tree store ideal atomic w.flushable m.caches.cache flag m.caches.is_open
          m.caches.no_flag)
      ∙ m.is_dirty))

  pub lazy_flush-Flushed :
      (name : ℕ) (w : LazyFlushable T D)
      → Marked name w
      → (lazy_flush tree store ideal w).1 ≡ reply tt
      → Flushed name (lazy_flush tree store ideal w).0
  unfolding lazy_flush
  lazy_flush-Flushed name w m h =
      let c = m.caches in
      let (reads, emptied) =
        flush-saved tree store ideal atomic w.flushable c.cache c.is_open
          (rw (init_of_opened w m.opened) at h) in
      rw (init_of_opened w m.opened) (record {
        opened = m.opened;
        is_dirty =
            ap (λ v. has_prefix (contents v) dirty)
              (flush-other tree store ideal atomic w.flushable c.cache flag c.is_open c.no_flag)
            ∙ m.is_dirty;
        written = λ k other. reads k ∙ ap (over (tree.get k c.cache)) (m.kept k other) ∙ c.makes k;
        emptied = emptied;
      })

  -- The last loop.
  pub write_clean-Late :
      (name : ℕ) (w : LazyFlushable T D)
      → Flushed name w
      → Late name (write_clean tree store ideal id w).0
  unfolding write_clean put_flag
  write_clean-Late name w m =
      let d = w.flushable.underlying in
      rw (init_of_opened w m.opened) (record {
        opened = m.opened;
        is_dirty_or_new = elim (atomic.put-failed d flag id) [
          | inl e ↦ inl (ap (λ v. has_prefix (contents v) dirty) e ∙ m.is_dirty)
          | inr e ↦ inr (e, λ k other. atomic.put-other d flag id k other ∙ m.written k other)
        ];
      })

  pub write_clean-Saved :
      (name : ℕ) (w : LazyFlushable T D)
      → Flushed name w
      → (write_clean tree store ideal id w).1 ≡ reply tt
      → Saved name (write_clean tree store ideal id w).0
  unfolding write_clean put_flag
  write_clean-Saved name w m h =
      let d = w.flushable.underlying in
      elim (Bool-cases (store.put d flag id).1) [
        | inl e ↦
            let failed = rw e at (rw (init_of_opened w m.opened) at h) in absurd (ground arith)
        | inr e ↦ rw (init_of_opened w m.opened) (record {
          opened = m.opened;
          is_new = (
            atomic.put-content d flag id e,
            λ k other. atomic.put-other d flag id k other ∙ m.written k other,
          );
          emptied = m.emptied;
        })
      ]

  -- What no loop has changed.
  pub Before-Early : (name : ℕ) (w : LazyFlushable T D) → Before name w → Early name w
  Before-Early name w b o = inr (λ k. rw o at (b.is_old k))

  pub Marked-Early : (name : ℕ) (w : LazyFlushable T D) → Marked name w → Early name w
  Marked-Early name w m o = inl m.is_dirty

  pub Flushed-Late : (name : ℕ) (w : LazyFlushable T D) → Flushed name w → Late name w
  Flushed-Late name w m = record { opened = m.opened; is_dirty_or_new = inl m.is_dirty }
