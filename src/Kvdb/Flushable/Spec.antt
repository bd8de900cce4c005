-- ===== src/Kvdb/Flushable/Spec.antt =====
-- The specification of the cache: a map and its saved copy, with the operations on them.
use lachesis_ex.Prelude.{ℕ, List, [], ◌∷◌, Option, none, some, if◌then◌else◌}
use lachesis_ex.Kvdb.{Bytes, bytes_eq, Write, after, Reply, Tree, Store}
use lachesis_ex.Kvdb.Flushable.{Flushable, put, delete, drop_not_flushed, flush, batch_write}

-- The specification: a map, and the map that was saved last.
pub record Spec : Type 0 where
  pub current : Bytes → Option Bytes
  pub saved : Bytes → Option Bytes

-- The operations that change it.
pub data Op : Type 0 where
  put_op : Bytes → Bytes → Op
  delete_op : Bytes → Op
  write_op : List Write → Op
  flush_op drop_op : Op

unfoldable pub spec_step : Op → Spec → Spec
unfolding after
spec_step (put_op k v) s = record s { current = λ j. if bytes_eq k j then some v else s.current j }
spec_step (delete_op k) s = record s { current = λ j. if bytes_eq k j then none else s.current j }
spec_step (write_op ws) s = record s { current = λ j. after ws j (s.current j) }
spec_step flush_op s = record s { saved = s.current }
spec_step drop_op s = record s { current = s.saved }

unfoldable pub spec_steps : List Op → Spec → Spec
unfolding spec_step
spec_steps [] s = s
spec_steps (o ∷ os) s = spec_steps os (spec_step o s)

module _ {T D : Type 0} (tree : Tree T) (store : Store D) (ideal : ℕ) where
  unfoldable pub step : Op → Flushable T D → Flushable T D × Reply Unit
  unfolding put delete batch_write flush drop_not_flushed
  step (put_op k v) w = put tree store ideal w (some k) (some v)
  step (delete_op k) w = delete tree store ideal w k
  step (write_op ws) w = batch_write tree store ideal w ws
  step flush_op w = flush tree store ideal w
  step drop_op w = drop_not_flushed tree store ideal w

  -- The state after the operations, whatever they reply.
  unfoldable pub steps : List Op → Flushable T D → Flushable T D
  unfolding step
  steps [] w = w
  steps (o ∷ os) w = steps os (step o w).0
