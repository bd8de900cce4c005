-- ===== src/Vector/Index.antt =====
-- vector/index.go and vector/store_vectors.go: the index over its tables. An event id not in a
-- table reads as nil. The LRU caches hold what the tables hold, and are left out.
use lachesis_ex.Prelude.{ℕ, List, [], Option, none, some}
use lachesis_ex.Pos.{Validators}
use lachesis_ex.Vector.Branches.{BranchesInfo, new_initial_branches_info}

pub record Tables : Type 0 where
  pub highest_before_seq : List (ℕ × List ℕ)
  pub highest_before_time : List (ℕ × List ℕ)
  pub lowest_after_seq : List (ℕ × List ℕ)
  pub event_branch : List (ℕ × ℕ)
  pub branches_info : Option BranchesInfo

pub record Index : Type 0 where
  pub validators : Validators
  -- nil until it is loaded
  pub bi : Option BranchesInfo
  -- what is in the flushable store, and what of it is flushed
  pub tables : Tables
  pub flushed : Tables

abbrev pub empty_tables : Tables
empty_tables = record {
  highest_before_seq = [];
  highest_before_time = [];
  lowest_after_seq = [];
  event_branch = [];
  branches_info = none;
}

-- What `initBranchesInfo` leaves in `vi.bi`.
unfoldable pub branches : Index → BranchesInfo
branches vi = elim vi.bi [
  | some bi ↦ bi
  | none ↦ elim vi.tables.branches_info [
    | some bi ↦ bi
    | none ↦ new_initial_branches_info vi.validators
  ]
]

-- `initBranchesInfo`
unfoldable pub init_branches_info : Index → Index
unfolding branches
init_branches_info vi = record vi { bi = some (branches vi) }

-- `DropNotFlushed`
unfoldable pub drop_not_flushed : Index → Index
drop_not_flushed vi = record vi { bi = none; tables = vi.flushed }

-- The tables with the branches info that `Flush` stores.
abbrev stored : Option BranchesInfo → Tables → Tables
stored none t = t
stored (some bi) t = record t { branches_info = some bi }

-- `Flush`
unfoldable pub flush : Index → Index
flush vi = record vi { tables = stored vi.bi vi.tables; flushed = stored vi.bi vi.tables }
