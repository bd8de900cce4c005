-- ===== src/Tests/Caches.antt =====
-- Tests and examples for the cache over a database.
use lachesis_ex.Prelude.{
  ◌≡◌, inl, inr, refl, true, false, List, [], ◌∷◌, ◌++◌, none, some, length, arith,
}
use lachesis_ex.Kvdb.{Bytes, Write, find, after, reply, store_error, is_some, Store, IsReliable}
use lachesis_ex.Kvdb.Writes.{after-append}
use lachesis_ex.Tests.Trees.{Entries, find-empty, tree, put_entry}
use lachesis_ex.Kvdb.Flushable.{Flushable, wrap, has, get, flush_entries, flush}
use lachesis_ex.Kvdb.Flushable.Spec.{
  Op, put_op, delete_op, write_op, flush_op, drop_op, spec_steps, steps,
}
use lachesis_ex.Kvdb.Flushable.Failures.{flush-failed}
use lachesis_ex.Kvdb.Flushable.Refines.{initial, steps-refine}

-- A database as the list of the writes that it has taken.
abbrev pub store : Store (List Write)
store = record {
  has = λ d k. reply (is_some (after d k none));
  get = λ d k. reply (after d k none);
  write = λ d ws. (d ++ ws, false);
  put = λ d k v. (d ++ (k, some v) ∷ [], false);
  value_size = λ ws. length ws;
  close = λ d. (d, reply tt);
}

store-IsReliable : IsReliable (List Write) store
store-IsReliable = record {
  content = λ d k. after d k none;
  get-content = λ d k. refl;
  has-content = λ d k. refl;
  write-content = λ d ws h k. after-append d ws k none;
  write-failed = λ d ws k. inr (after-append d ws k none);
}

-- One that takes no batch.
abbrev full : Store (List Write)
full = record {
  has = λ d k. reply (is_some (after d k none));
  get = λ d k. reply (after d k none);
  write = λ d ws. (d, true);
  put = λ d k v. (d, true);
  value_size = λ ws. length ws;
  close = λ d. (d, reply tt);
}

full-IsReliable : IsReliable (List Write) full
full-IsReliable = record {
  content = λ d k. after d k none;
  get-content = λ d k. refl;
  has-content = λ d k. refl;
  write-content = λ d ws h k. absurd (ground arith);
  write-failed = λ d ws k. inl refl;
}

abbrev old : List Write
old = (1 ∷ [], some (9 ∷ [])) ∷ []

abbrev ops : List Op
ops =
    put_op (2 ∷ []) (5 ∷ [])
    ∷ delete_op (1 ∷ [])
    ∷ flush_op
    ∷ write_op ((2 ∷ [], none) ∷ [])
    ∷ drop_op
    ∷ put_op (3 ∷ []) []
    ∷ []

steps_test :
    get tree store 0 (steps tree store 0 ops (wrap tree store 0 old)) (2 ∷ [])
    ≡ reply (some (5 ∷ []))
unfolding steps get wrap find put_entry after
steps_test = refl

steps-refine_example :
    (get tree store 0 (steps tree store 0 ops (wrap tree store 0 old)) (2 ∷ [])
      ≡ reply (
          (spec_steps ops (initial tree store 0 store-IsReliable (λ d ws. refl) old)).current
            (2 ∷ [])))
    × (has tree store 0 (steps tree store 0 ops (wrap tree store 0 old)) (2 ∷ [])
        ≡ reply (
            is_some (
              (spec_steps ops (initial tree store 0 store-IsReliable (λ d ws. refl) old)).current
                (2 ∷ []))))
    × (store-IsReliable.content (steps tree store 0 ops (wrap tree store 0 old)).underlying (2 ∷ [])
        ≡ (spec_steps ops (initial tree store 0 store-IsReliable (λ d ws. refl) old)).saved
            (2 ∷ []))
steps-refine_example = steps-refine tree store 0 store-IsReliable (λ d ws. refl) ops old (2 ∷ [])

-- A cache with one entry over a database that takes no batch.
abbrev stuck : Flushable Entries (List Write)
stuck = record {
  modified = some ((2 ∷ [], some (5 ∷ [])) ∷ [], (find-empty (2 ∷ []), tt));
  underlying = old;
  size_estimation = 2;
}

flush-failed_example :
    ((flush tree full 0 stuck).1 ≡ store_error)
    × ((k : Bytes) → get tree full 0 (flush tree full 0 stuck).0 k ≡ get tree full 0 stuck k)
unfolding flush_entries
flush-failed_example =
    flush-failed tree full 0 full-IsReliable stuck
      ((2 ∷ [], some (5 ∷ [])) ∷ [], (find-empty (2 ∷ []), tt)) old refl refl
