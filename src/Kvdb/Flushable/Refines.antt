-- ===== src/Kvdb/Flushable/Refines.antt =====
-- The cache with its database is one map, of which a part is saved.
use lachesis_ex.Prelude.{
  ℕ, ◌≡◌, inl, inr, refl, ap, ◌∙◌, false, List, [], ◌∷◌, ◌++◌, Option, none, some, ltb, arith,
  Bool-cases,
}
use lachesis_ex.Kvdb.{Bytes, Write, after, reply, is_some, Tree, Store, IsReliable}
use lachesis_ex.Kvdb.Writes.{over, after-append, after-find}
use lachesis_ex.Kvdb.Flushable.{
  Flushable, wrap, put_value, put, has, get, delete, drop_not_flushed, flush_entries, flush_last,
  flush, write_one, batch_write,
}
use lachesis_ex.Kvdb.Flushable.Spec.{
  Op, Spec, delete_op, drop_op, flush_op, put_op, spec_step, spec_steps, step, steps, write_op,
}

module _ {T D : Type 0} (tree : Tree T) (store : Store D) (ideal : ℕ)
    (reliable : IsReliable D store) where
  -- The cache holds the current map over the saved one.
  record Related (w : Flushable T D) (s : Spec) : Type 0 where
    cache : T
    is_open : w.modified ≡ some cache
    current : (k : Bytes) → over (tree.get k cache) (reliable.content w.underlying k) ≡ s.current k
    saved : (k : Bytes) → reliable.content w.underlying k ≡ s.saved k

  put-Related :
      (w : Flushable T D) (s : Spec) (k : Bytes) (v : Option Bytes)
      → Related w s
      → Related (write_one tree store ideal w (k, v)).0 (spec_step (write_op ((k, v) ∷ [])) s)
        × ((write_one tree store ideal w (k, v)).1 ≡ reply tt)
  unfolding write_one spec_step after put_value delete
  put-Related w s k none r = rw r.is_open (
    record {
      cache = tree.put k none r.cache;
      is_open = refl;
      current = λ j. ground (arith, tree.get-put k j none r.cache, r.current j);
      saved = r.saved;
    },
    refl,
  )
  put-Related w s k (some v) r = rw r.is_open (
    record {
      cache = tree.put k (some v) r.cache;
      is_open = refl;
      current = λ j. ground (arith, tree.get-put k j (some v) r.cache, r.current j);
      saved = r.saved;
    },
    refl,
  )

  batch_write-Related :
      (ws : List Write) (w : Flushable T D) (s : Spec)
      → Related w s
      → Related (batch_write tree store ideal w ws).0 (spec_step (write_op ws) s)
        × ((batch_write tree store ideal w ws).1 ≡ reply tt)
  unfolding batch_write spec_step after
  batch_write-Related [] w s r =
      (record { cache = r.cache; is_open = r.is_open; current = r.current; saved = r.saved }, refl)
  batch_write-Related ((k, v) ∷ ws) w s r =
      let (first, ends) = put-Related w s k v r in
      rw (ends, batch_write)
        (batch_write-Related ws (write_one tree store ideal w (k, v)).0
          (spec_step (write_op ((k, v) ∷ [])) s) first)

  pub get-open :
      (w : Flushable T D) (t : T) (k : Bytes)
      → w.modified ≡ some t
      → get tree store ideal w k ≡ reply (over (tree.get k t) (reliable.content w.underlying k))
  unfolding get
  get-open w t k o = rw o (go (tree.get k t))
    where
      go :
          (x : Option (Option Bytes))
          → elim x [ none ↦ store.get w.underlying k | some v ↦ reply v ]
            ≡ reply (over x (reliable.content w.underlying k))
      go none = reliable.get-content w.underlying k
      go (some v) = refl

  get-Related :
      (w : Flushable T D) (s : Spec) (k : Bytes)
      → Related w s
      → get tree store ideal w k ≡ reply (s.current k)
  get-Related w s k r = get-open w r.cache k r.is_open ∙ ap reply (r.current k)

  has-Related :
      (w : Flushable T D) (s : Spec) (k : Bytes)
      → Related w s
      → has tree store ideal w k ≡ reply (is_some (s.current k))
  unfolding has
  has-Related w s k r =
      rw r.is_open (go (tree.get k r.cache)) ∙ ap (λ x. reply (is_some x)) (r.current k)
    where
      go :
          (x : Option (Option Bytes))
          → elim x [ none ↦ store.has w.underlying k | some v ↦ reply (is_some v) ]
            ≡ reply (is_some (over x (reliable.content w.underlying k)))
      go none = reliable.has-content w.underlying k
      go (some v) = refl

  module _ (never : (d : D) (ws : List Write) → (store.write d ws).1 ≡ false) where
    -- The writes of the loop and the batch that is left give all of the entries.
    flush_entries-after :
        (es batch : List Write) (d : D)
        → (next : D) × (rest : List Write) × (flush_entries tree store ideal es batch d
            ≡ (next, some rest))
          × ((k : Bytes)
              → after rest k (reliable.content next k)
                ≡ after es k (after batch k (reliable.content d k)))
    unfolding flush_entries after
    flush_entries-after [] batch d = (d, batch, refl, λ k. refl)
    flush_entries-after ((j, v) ∷ es) batch d =
        elim (Bool-cases (ltb ideal (store.value_size (batch ++ (j, v) ∷ [])))) [
          | inl e ↦
              let b = batch ++ (j, v) ∷ [] in
              let (next, rest, is, reads) = flush_entries-after es [] (store.write d b).0 in
              (
                next,
                rest,
                rw (e, flush_entries) (rw (never d b) is),
                λ k.
                    reads k
                    ∙ ap (after es k) (
                        reliable.write-content d b (never d b) k
                        ∙ after-append batch ((j, v) ∷ []) k (reliable.content d k)),
              )
          | inr e ↦
              let (next, rest, is, reads) = flush_entries-after es (batch ++ (j, v) ∷ []) d in
              (
                next,
                rest,
                rw (e, flush_entries) is,
                λ k.
                    reads k
                    ∙ ap (after es k) (after-append batch ((j, v) ∷ []) k (reliable.content d k)),
              )
        ]

    flush-Related :
        (w : Flushable T D) (s : Spec)
        → Related w s
        → Related (flush tree store ideal w).0 (spec_step flush_op s)
          × ((flush tree store ideal w).1 ≡ reply tt)
    unfolding flush flush_last spec_step
    flush-Related w s r =
        let (next, rest, is, reads) = flush_entries-after (tree.entries r.cache) [] w.underlying in
        let written : (k : Bytes) → reliable.content (store.write next rest).0 k ≡ s.current k =
          λ k.
            reliable.write-content next rest (never next rest) k
            ∙ reads k
            ∙ after-find (tree.entries r.cache) k (reliable.content w.underlying k)
                (tree.entries-HasOnce r.cache)
            ∙ ap (λ x. over x (reliable.content w.underlying k)) (tree.entries-get k r.cache)
            ∙ r.current k in
        rw (r.is_open, is, never next rest)
          (
            record {
              cache = tree.empty;
              is_open = refl;
              current = λ k.
                  ap (λ x. over x (reliable.content (store.write next rest).0 k)) (tree.get-empty k)
                  ∙ written k;
              saved = written;
            },
            refl,
          )

    drop-Related :
        (w : Flushable T D) (s : Spec)
        → Related w s
        → Related (drop_not_flushed tree store ideal w).0 (spec_step drop_op s)
          × ((drop_not_flushed tree store ideal w).1 ≡ reply tt)
    unfolding drop_not_flushed spec_step
    drop-Related w s r = rw r.is_open (
      record {
        cache = tree.empty;
        is_open = refl;
        current =
            λ k. ap (λ x. over x (reliable.content w.underlying k)) (tree.get-empty k) ∙ r.saved k;
        saved = r.saved;
      },
      refl,
    )

    step-Related :
        (o : Op) (w : Flushable T D) (s : Spec)
        → Related w s
        → Related (step tree store ideal o w).0 (spec_step o s)
          × ((step tree store ideal o w).1 ≡ reply tt)
    unfolding step spec_step put write_one after
    step-Related (put_op k v) w s r =
        let (next, ends) = put-Related w s k (some v) r in
        (
          record {
            cache = next.cache;
            is_open = next.is_open;
            current = next.current;
            saved = next.saved;
          },
          ends,
        )
    step-Related (delete_op k) w s r =
        let (next, ends) = put-Related w s k none r in
        (
          record {
            cache = next.cache;
            is_open = next.is_open;
            current = next.current;
            saved = next.saved;
          },
          ends,
        )
    step-Related (write_op ws) w s r = batch_write-Related ws w s r
    step-Related flush_op w s r = flush-Related w s r
    step-Related drop_op w s r = drop-Related w s r

    steps-Related :
        (os : List Op) (w : Flushable T D) (s : Spec)
        → Related w s
        → Related (steps tree store ideal os w) (spec_steps os s)
    unfolding steps spec_steps
    steps-Related [] w s r = r
    steps-Related (o ∷ os) w s r =
        steps-Related os (step tree store ideal o w).0 (spec_step o s) (step-Related o w s r).0

    -- The specification at the start: what the database holds is current and saved.
    abbrev pub initial : D → Spec
    initial d = record { current = reliable.content d; saved = reliable.content d }

    -- After any puts, deletes, batches, flushes and drops on a cache over a database whose batches
    -- never fail, `Get` and `Has` read the map that these operations make of the database's
    -- contents, where a flush saves the map and a drop goes back to the saved one; and the database
    -- itself holds the saved map.
    pub steps-refine :
        (os : List Op) (d : D) (k : Bytes)
        → (get tree store ideal (steps tree store ideal os (wrap tree store ideal d)) k
            ≡ reply ((spec_steps os (initial d)).current k))
          × (has tree store ideal (steps tree store ideal os (wrap tree store ideal d)) k
              ≡ reply (is_some ((spec_steps os (initial d)).current k)))
          × (reliable.content (steps tree store ideal os (wrap tree store ideal d)).underlying k
              ≡ (spec_steps os (initial d)).saved k)
    unfolding get has wrap
    steps-refine os d k =
        let w = steps tree store ideal os (wrap tree store ideal d) in
        let start : Related (wrap tree store ideal d) (initial d) = record {
          cache = tree.empty;
          is_open = refl;
          current = λ j. ap (λ x. over x (reliable.content d j)) (tree.get-empty j);
          saved = λ j. refl;
        } in
        let r = steps-Related os (wrap tree store ideal d) (initial d) start in
        (
          get-Related w (spec_steps os (initial d)) k r,
          has-Related w (spec_steps os (initial d)) k r,
          r.saved k,
        )
