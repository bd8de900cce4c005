-- ===== src/Kvdb/Flushable/Failures.antt =====
-- A flush that fails.
use lachesis_ex.Prelude.{
  ℕ, ◌≡◌, inl, inr, refl, sym, ap, ◌∙◌, List, [], ◌∷◌, ◌++◌, none, some, ltb, arith, Bool-cases,
  Option-cases,
}
use lachesis_ex.Kvdb.{Bytes, Write, find, reply, store_error, Tree, Store, IsReliable}
use lachesis_ex.Kvdb.Writes.{after-none, find-append}
use lachesis_ex.Kvdb.Flushable.{Flushable, get, flush_entries, flush_last, flush}
use lachesis_ex.Kvdb.Flushable.Refines.{get-open}

module _ {T D : Type 0} (tree : Tree T) (store : Store D) (ideal : ℕ)
    (reliable : IsReliable D store) where
  -- A batch that fails leaves a key that it does not write.
  write-other :
      (d : D) (ws : List Write) (k : Bytes)
      → find k ws ≡ none
      → reliable.content (store.write d ws).0 k ≡ reliable.content d k
  write-other d ws k f = elim (reliable.write-failed d ws k) [
    | inl e ↦ e
    | inr e ↦ e ∙ after-none ws k (reliable.content d k) f
  ]

  flush_entries-other :
      (es batch : List Write) (d next : D) (k : Bytes)
      → flush_entries tree store ideal es batch d ≡ (next, none)
      → find k batch ≡ none
      → find k es ≡ none
      → reliable.content next k ≡ reliable.content d k
  unfolding flush_entries find
  flush_entries-other [] batch d next k h b f = absurd (ground arith)
  flush_entries-other ((j, v) ∷ es) batch d next k h b f =
      let all : find k (batch ++ (j, v) ∷ []) ≡ none =
        find-append batch ((j, v) ∷ []) k b (ground arith) in
      let other : find k es ≡ none = ground arith in
      elim (Bool-cases (ltb ideal (store.value_size (batch ++ (j, v) ∷ [])))) [
        | inl e ↦ elim (Bool-cases (store.write d (batch ++ (j, v) ∷ [])).1) [
          | inl g ↦
              let same = rw (e, flush_entries) at h in
              ap (λ x. reliable.content x.0 k) (sym (rw (g, flush_entries) at same))
              ∙ write-other d (batch ++ (j, v) ∷ []) k all
          | inr g ↦
              flush_entries-other es [] (store.write d (batch ++ (j, v) ∷ [])).0 next k
                (rw (g, flush_entries) at (rw (e, flush_entries) at h)) refl other
              ∙ write-other d (batch ++ (j, v) ∷ []) k all
        ]
        | inr e ↦
            flush_entries-other es (batch ++ (j, v) ∷ []) d next k (rw (e, flush_entries) at h) all
              other
      ]

  -- A flush that fails before its last batch replies the error, and changes no reading: the cache
  -- still has all of its entries, whatever part of them the database has taken.
  pub flush-failed :
      (w : Flushable T D) (t : T) (next : D)
      → w.modified ≡ some t
      → flush_entries tree store ideal (tree.entries t) [] w.underlying ≡ (next, none)
      → ((flush tree store ideal w).1 ≡ store_error)
        × ((k : Bytes)
            → get tree store ideal (flush tree store ideal w).0 k ≡ get tree store ideal w k)
  unfolding flush flush_last find
  flush-failed w t next o f =
      let stays : (flush tree store ideal w).0 ≡ record w { underlying = next } = rw (o, f) refl in
      (
        rw (o, f) refl,
        λ k.
            ap (λ x. get tree store ideal x k) stays
            ∙ get-open tree store ideal reliable (record w { underlying = next }) t k o
            ∙ ap reply (elim (Option-cases (tree.get k t)) [
              | inl e ↦ rw e (
                  flush_entries-other (tree.entries t) [] w.underlying next k f refl
                    (tree.entries-get k t ∙ e))
              | inr (v, e) ↦ rw e refl
            ])
            ∙ sym (get-open tree store ideal reliable w t k o),
      )
