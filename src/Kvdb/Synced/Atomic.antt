-- ===== src/Kvdb/Synced/Atomic.antt =====
-- Databases that may fail at any write, and a cache that is flushed to one.
use lachesis_ex.Prelude.{
  ℕ, ◌≡◌, ◌⊎◌, inl, inr, refl, ap, ◌∙◌, false, List, [], ◌∷◌, ◌++◌, Option, none, some, ltb, arith,
  Bool-cases,
}
use lachesis_ex.Kvdb.{Bytes, bytes_eq, Write, find, after, reply, Tree, Store}
use lachesis_ex.Kvdb.Writes.{over, after-append, after-find, after-none, find-append}
use lachesis_ex.Kvdb.Flushable.{Flushable, flush_entries, flush_last, flush}

-- A database has contents. What a read replies is what they are. A batch or a put without an error
-- changes them as written; one that fails, or that a crash ends, leaves a key as before or as after
-- it.
pub record IsAtomic (D : Type 0) (store : Store D) : Type 0 where
  pub content : D → Bytes → Option Bytes
  pub get-content :
      (d : D) (k : Bytes) (v : Option Bytes) → store.get d k ≡ reply v → content d k ≡ v
  pub write-content :
      (d : D) (ws : List Write)
      → (store.write d ws).1 ≡ false
      → (k : Bytes) → content (store.write d ws).0 k ≡ after ws k (content d k)
  pub write-failed :
      (d : D) (ws : List Write) (k : Bytes)
      → (content (store.write d ws).0 k ≡ content d k)
        ⊎ (content (store.write d ws).0 k ≡ after ws k (content d k))
  pub put-content :
      (d : D) (k v : Bytes) → (store.put d k v).1 ≡ false → content (store.put d k v).0 k ≡ some v
  pub put-failed :
      (d : D) (k v : Bytes)
      → (content (store.put d k v).0 k ≡ content d k) ⊎ (content (store.put d k v).0 k ≡ some v)
  pub put-other :
      (d : D) (k v j : Bytes) → bytes_eq k j ≡ false → content (store.put d k v).0 j ≡ content d j

module _ {T D : Type 0} (tree : Tree T) (store : Store D) (ideal : ℕ)
    (atomic : IsAtomic D store) where
  -- A batch leaves a key that it does not write, whether it fails or not.
  write-other :
      (d : D) (ws : List Write) (k : Bytes)
      → find k ws ≡ none
      → atomic.content (store.write d ws).0 k ≡ atomic.content d k
  write-other d ws k f = elim (atomic.write-failed d ws k) [
    | inl e ↦ e
    | inr e ↦ e ∙ after-none ws k (atomic.content d k) f
  ]

  -- The loop leaves a key that is not in the cache, and so does the batch that it gives.
  flush_entries-other :
      (es batch : List Write) (d : D) (k : Bytes)
      → find k batch ≡ none
      → find k es ≡ none
      → (atomic.content (flush_entries tree store ideal es batch d).0 k ≡ atomic.content d k)
        × ((rest : List Write)
            → (flush_entries tree store ideal es batch d).1 ≡ some rest
            → find k rest ≡ none)
  unfolding flush_entries find
  flush_entries-other [] batch d k b f = (refl, λ rest h. ground arith)
  flush_entries-other ((j, v) ∷ es) batch d k b f =
      let both = batch ++ (j, v) ∷ [] in
      let all : find k both ≡ none = find-append batch ((j, v) ∷ []) k b (ground arith) in
      let other : find k es ≡ none = ground arith in
      elim (Bool-cases (ltb ideal (store.value_size both))) [
        | inl e ↦ elim (Bool-cases (store.write d both).1) [
          | inl g ↦
              rw (e, flush_entries) (rw (g, flush_entries) (write-other d both k all, λ rest h. cc))
          | inr g ↦
              let (same, left) = flush_entries-other es [] (store.write d both).0 k refl other in
              rw (e, flush_entries) (rw (g, flush_entries) (same ∙ write-other d both k all, left))
        ]
        | inr e ↦ rw (e, flush_entries) (flush_entries-other es both d k all other)
      ]

  -- The writes of a loop that does not fail, and the batch that it gives, are all of the entries.
  flush_entries-after :
      (es batch : List Write) (d : D) (rest : List Write) (k : Bytes)
      → (flush_entries tree store ideal es batch d).1 ≡ some rest
      → after rest k (atomic.content (flush_entries tree store ideal es batch d).0 k)
        ≡ after es k (after batch k (atomic.content d k))
  unfolding flush_entries after
  flush_entries-after [] batch d rest k h = ground arith
  flush_entries-after ((j, v) ∷ es) batch d rest k h =
      let both = batch ++ (j, v) ∷ [] in
      let joined = after-append batch ((j, v) ∷ []) k (atomic.content d k) in
      elim (Bool-cases (ltb ideal (store.value_size both))) [
        | inl e ↦ elim (Bool-cases (store.write d both).1) [
          | inl g ↦ let stopped = rw (g, flush_entries) at (rw (e, flush_entries) at h) in cc
          | inr g ↦
              rw (e, flush_entries)
                (rw (g, flush_entries)
                  (flush_entries-after es [] (store.write d both).0 rest k
                      (rw (g, flush_entries) at (rw (e, flush_entries) at h))
                    ∙ ap (after es k) (atomic.write-content d both g k ∙ joined)))
        ]
        | inr e ↦
            rw (e, flush_entries)
              (flush_entries-after es both d rest k (rw (e, flush_entries) at h)
                ∙ ap (after es k) joined)
      ]

  -- A flush leaves a key that is not in the cache, however it ends.
  flush_last-other :
      (d : D × Option (List Write)) (w : Flushable T D) (k : Bytes)
      → ((rest : List Write) → d.1 ≡ some rest → find k rest ≡ none)
      → atomic.content (flush_last tree store ideal d w).0.underlying k ≡ atomic.content d.0 k
  unfolding flush_last
  flush_last-other (d, none) w k f = refl
  flush_last-other (d, some batch) w k f = write-other d batch k (f batch refl)

  pub flush-open :
      (w : Flushable T D) (t : T)
      → w.modified ≡ some t
      → flush tree store ideal w
        ≡ flush_last tree store ideal
            (flush_entries tree store ideal (tree.entries t) [] w.underlying)
            w
  unfolding flush
  flush-open w t o = ground arith

  pub flush-other :
      (w : Flushable T D) (t : T) (k : Bytes)
      → w.modified ≡ some t
      → tree.get k t ≡ none
      → atomic.content (flush tree store ideal w).0.underlying k ≡ atomic.content w.underlying k
  unfolding find
  flush-other w t k o g =
      let (same, left) =
        flush_entries-other (tree.entries t) [] w.underlying k refl (tree.entries-get k t ∙ g) in
      let done = flush_entries tree store ideal (tree.entries t) [] w.underlying in
      rw (flush-open w t o) (flush_last-other done w k left ∙ same)

  -- After a flush that replies no error the database has the entries of the cache, which is empty.
  flush_last-saved :
      (d : D × Option (List Write)) (w : Flushable T D) (read : Bytes → Option Bytes)
      → ((rest : List Write) (k : Bytes)
          → d.1 ≡ some rest
          → after rest k (atomic.content d.0 k) ≡ read k)
      → (flush_last tree store ideal d w).1 ≡ reply tt
      → ((k : Bytes) → atomic.content (flush_last tree store ideal d w).0.underlying k ≡ read k)
        × ((flush_last tree store ideal d w).0.modified ≡ some tree.empty)
  unfolding flush_last
  flush_last-saved (d, none) w read f h = absurd (ground arith)
  flush_last-saved (d, some batch) w read f h = elim (Bool-cases (store.write d batch).1) [
    | inl e ↦ let failed = rw e at h in absurd (ground arith)
    | inr e ↦ (λ k. atomic.write-content d batch e k ∙ f batch k refl, refl)
  ]

  pub flush-saved :
      (w : Flushable T D) (t : T)
      → w.modified ≡ some t
      → (flush tree store ideal w).1 ≡ reply tt
      → ((k : Bytes)
          → atomic.content (flush tree store ideal w).0.underlying k
            ≡ over (tree.get k t) (atomic.content w.underlying k))
        × ((flush tree store ideal w).0.modified ≡ some tree.empty)
  unfolding after
  flush-saved w t o h =
      let done = flush_entries tree store ideal (tree.entries t) [] w.underlying in
      rw (flush-open w t o) (
        flush_last-saved done w (λ k. over (tree.get k t) (atomic.content w.underlying k))
          (λ rest k e.
            flush_entries-after (tree.entries t) [] w.underlying rest k e
            ∙ after-find (tree.entries t) k (atomic.content w.underlying k) (tree.entries-HasOnce t)
            ∙ ap (λ x. over x (atomic.content w.underlying k)) (tree.entries-get k t))
          (rw (flush-open w t o) at h))
