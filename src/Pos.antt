-- ===== src/Pos.antt =====
-- inter/pos/validators.go and inter/pos/sort.go: the validators of an epoch with their stakes.
-- A map of StakerID is an association list; ids and stakes are numbers (uint32 and uint64).
pub mod Build
pub mod Caches
pub mod Stake
use lachesis_ex.Prelude.{
  ℕ, zero, suc, ◌+◌, ◌*◌, ◌/◌, ◌%◌, Bool, true, false, List, [], ◌∷◌, map, Option, none, some,
  length, get_elem?, set, replicate, ltb, ◌==◌, if◌then◌else◌, word64,
}
use lachesis_ex.Prelude.Assoc.{lookup, insert, erase}
use lachesis_ex.Prelude.Sort.{sort}

pub record Validator : Type 0 where
  pub id : ℕ
  pub stake : ℕ

-- `validators.Less`: by stake, the greatest first, then by id.
pub less : Validator → Validator → Bool
less v w = if v.stake == w.stake then ltb v.id w.id else ltb w.stake v.stake

abbrev pub ValidatorsBuilder : Type 0
ValidatorsBuilder = List (ℕ × ℕ)

pub record Cache : Type 0 where
  pub indexes : List (ℕ × ℕ)
  pub stakes : List ℕ
  pub ids : List ℕ
  pub total_stake : ℕ

pub record Validators : Type 0 where
  pub values : ValidatorsBuilder
  pub cache : Cache

-- `ValidatorsBuilder.Set`
unfoldable pub set_stake : ℕ → ℕ → ValidatorsBuilder → ValidatorsBuilder
set_stake id stake vv = if stake == 0 then erase id vv else insert id stake vv

-- The loop that copies a map entry by entry, in whatever order the map is walked.
unfoldable pub set_all : List (ℕ × ℕ) → ValidatorsBuilder → ValidatorsBuilder
set_all [] vv = vv
set_all ((id, stake) ∷ rest) vv = set_all rest (set_stake id stake vv)

abbrev to_validator : ℕ × ℕ → Validator
to_validator (id, stake) = record { id = id; stake = stake }

-- `sortedArray`: the entries of the map, in the order that `Less` fixes.
unfoldable pub sorted_array : ValidatorsBuilder → List Validator
unfolding less
sorted_array values = sort less (map to_validator values)

-- The body of the loop of `calcCaches`.
abbrev cache_entry : ℕ → Validator → Cache → Cache
cache_entry i v c = record {
  indexes = insert v.id i c.indexes;
  stakes = set c.stakes i v.stake;
  ids = set c.ids i v.id;
  total_stake = (c.total_stake + v.stake) % word64;
}

-- That loop from index `i` on.
fill_caches : ℕ → List Validator → Cache → Cache
fill_caches i [] c = c
fill_caches i (v ∷ vs) c = fill_caches (suc i) vs (cache_entry i v c)

unfoldable pub calc_caches : ValidatorsBuilder → Cache
unfolding fill_caches sorted_array
calc_caches values = fill_caches 0 (sorted_array values) (record {
  indexes = [];
  stakes = replicate (length values) 0;
  ids = replicate (length values) 0;
  total_stake = 0;
})

-- `newValidators`, which is `ValidatorsBuilder.Build`.
unfoldable pub build : ValidatorsBuilder → Validators
unfolding set_stake set_all calc_caches
build values = let copy = set_all values [] in record { values = copy; cache = calc_caches copy }

-- `Len`
unfoldable pub len : Validators → ℕ
len vv = length vv.values

-- `Get`, with the zero value for a missing id.
unfoldable pub get : Validators → ℕ → ℕ
get vv id = elim (lookup id vv.values) [ none ↦ 0 | some s ↦ s ]

-- `GetIdx`, with the zero value for a missing id.
unfoldable pub get_idx : Validators → ℕ → ℕ
get_idx vv id = elim (lookup id vv.cache.indexes) [ none ↦ 0 | some i ↦ i ]

-- `GetStakeByIdx`; an index out of range is a run-time panic.
unfoldable pub get_stake_by_idx : Validators → ℕ → Option ℕ
get_stake_by_idx vv i = get_elem? vv.cache.stakes i

-- `Exists`
unfoldable pub has_validator : Validators → ℕ → Bool
has_validator vv id = elim (lookup id vv.values) [ none ↦ false | some s ↦ true ]

-- `Quorum`: the product wraps.
unfoldable pub quorum : Validators → ℕ
quorum vv = vv.cache.total_stake * 2 % word64 / 3 + 1

-- `EqualStakeValidators`
unfoldable pub equal_stake_validators : List ℕ → ℕ → Validators
unfolding build
equal_stake_validators ids stake = build (set_all (map (λ id. (id, stake)) ids) [])
