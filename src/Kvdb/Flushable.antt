-- ===== src/Kvdb/Flushable.antt =====
-- kvdb/flushable/flushable.go: a cache over a database. What is written stays in the cache until
-- it is flushed.
pub mod Spec
pub mod Refines
pub mod Failures
use lachesis_ex.Prelude.{
  ℕ, ◌+◌, Bool, true, false, List, [], ◌∷◌, ◌++◌, Option, none, some, length, ltb, if◌then◌else◌,
}
use lachesis_ex.Kvdb.{
  Bytes, Write, Reply, reply, closed, nil_argument, store_error, panics, is_some, Tree, Store,
}

-- `Flushable`; a closed one has no tree. Its lock is left out: calls come one after another.
pub record Flushable (T D : Type 0) : Type 0 where
  pub modified : Option T
  pub underlying : D
  pub size_estimation : ℕ

-- The parts of a batch, `cacheBatch`.
pub record CacheBatch : Type 0 where
  pub writes : List Write
  pub size : ℕ

-- `Put` and `Delete` of a batch. A nil value is kept as it is, and so stands for a deletion.
unfoldable pub batch_put : CacheBatch → Bytes → Option Bytes → CacheBatch
batch_put b key value = record {
  writes = b.writes ++ (key, value) ∷ [];
  size = b.size + (elim value [ none ↦ 0 | some v ↦ length v ] + length key);
}

unfoldable pub batch_delete : CacheBatch → Bytes → CacheBatch
batch_delete b key = record { writes = b.writes ++ (key, none) ∷ []; size = b.size + length key }

module _ {T D : Type 0} (tree : Tree T) (store : Store D) (ideal_batch_size : ℕ) where
  -- `Wrap`
  unfoldable pub wrap : D → Flushable T D
  wrap parent = record { modified = some tree.empty; underlying = parent; size_estimation = 0 }

  -- The end of `put`.
  unfoldable pub put_value : Flushable T D → Bytes → Bytes → Flushable T D × Reply Unit
  put_value w key value = elim w.modified [
    | none ↦ (w, closed)
    | some t ↦ (
      record w {
        modified = some (tree.put key (some value) t);
        size_estimation = w.size_estimation + (length key + length value);
      },
      reply tt,
    )
  ]

  -- `Put`, where a nil argument is none.
  unfoldable pub put : Flushable T D → Option Bytes → Option Bytes → Flushable T D × Reply Unit
  unfolding put_value
  put w none value = (w, nil_argument)
  put w (some key) none = (w, nil_argument)
  put w (some key) (some value) = put_value w key value

  -- `Has`
  unfoldable pub has : Flushable T D → Bytes → Reply Bool
  has w key = elim w.modified [
    | none ↦ closed
    | some t ↦ elim (tree.get key t) [
      | none ↦ store.has w.underlying key
      | some v ↦ reply (is_some v)
    ]
  ]

  -- `Get`
  unfoldable pub get : Flushable T D → Bytes → Reply (Option Bytes)
  get w key = elim w.modified [
    | none ↦ closed
    | some t ↦ elim (tree.get key t) [ none ↦ store.get w.underlying key | some v ↦ reply v ]
  ]

  -- `Delete`, which uses the tree of a closed one too.
  unfoldable pub delete : Flushable T D → Bytes → Flushable T D × Reply Unit
  delete w key = elim w.modified [
    | none ↦ (w, panics)
    | some t ↦ (
      record w {
        modified = some (tree.put key none t);
        size_estimation = w.size_estimation + length key;
      },
      reply tt,
    )
  ]

  -- `DropNotFlushed`
  unfoldable pub drop_not_flushed : Flushable T D → Flushable T D × Reply Unit
  drop_not_flushed w = elim w.modified [
    | none ↦ (w, panics)
    | some _ ↦ (record w { modified = some tree.empty; size_estimation = 0 }, reply tt)
  ]

  -- `Close`
  unfoldable pub close : Flushable T D → Flushable T D × Reply Unit
  close w = elim w.modified [
    | none ↦ (w, panics)
    | some _ ↦
        let (d, end) = store.close w.underlying in
        (record { modified = none; underlying = d; size_estimation = 0 }, end)
  ]

  -- The loop of `flush`: a batch that is large enough is written. `none` is an error of a write.
  unfoldable pub flush_entries : List Write → List Write → D → D × Option (List Write)
  flush_entries [] batch d = (d, some batch)
  flush_entries (e ∷ es) batch d =
      elim (ltb ideal_batch_size (store.value_size (batch ++ e ∷ []))) [
        | true ↦
            let (next, failed) = store.write d (batch ++ e ∷ []) in
            elim failed [ true ↦ (next, none) | false ↦ flush_entries es [] next ]
        | false ↦ flush_entries es (batch ++ e ∷ []) d
      ]

  -- The end of `flush`: the cache is emptied before the last batch is written.
  unfoldable pub flush_last : D × Option (List Write) → Flushable T D → Flushable T D × Reply Unit
  flush_last (d, none) w = (record w { underlying = d }, store_error)
  flush_last (d, some batch) w =
      let (next, failed) = store.write d batch in
      (
        record { modified = some tree.empty; underlying = next; size_estimation = 0 },
        if failed then store_error else reply tt,
      )

  -- `Flush`
  unfoldable pub flush : Flushable T D → Flushable T D × Reply Unit
  unfolding flush_entries flush_last
  flush w = elim w.modified [
    | none ↦ (w, closed)
    | some t ↦ flush_last (flush_entries (tree.entries t) [] w.underlying) w
  ]

  -- One write of a batch.
  unfoldable pub write_one : Flushable T D → Write → Flushable T D × Reply Unit
  unfolding put_value delete
  write_one w (key, none) = delete w key
  write_one w (key, some value) = put_value w key value

  -- `Write` of a batch, which stops at the first error.
  unfoldable pub batch_write : Flushable T D → List Write → Flushable T D × Reply Unit
  unfolding write_one
  batch_write w [] = (w, reply tt)
  batch_write w (e ∷ es) =
      let (next, end) = write_one w e in
      elim end [
        | reply _ ↦ batch_write next es
        | closed ↦ (next, closed)
        | nil_argument ↦ (next, nil_argument)
        | store_error ↦ (next, store_error)
        | panics ↦ (next, panics)
      ]
