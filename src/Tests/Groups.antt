-- ===== src/Tests/Groups.antt =====
-- Tests and examples for the groups and the counters.
use lachesis_ex.Prelude.{ℕ, ◌*◌, ◌<◌, ◌≡◌, ◌↔◌, refl, Bool, true, false, [], ◌∷◌, some, sum, arith}
use lachesis_ex.Prelude.Assoc.{lookup, IsDistinct}
use lachesis_ex.Pos.{
  Validators, ValidatorsBuilder, build, get_idx, get_stake_by_idx, get, has_validator, quorum, len,
  equal_stake_validators,
}
use lachesis_ex.Pos.Build.{build-cache_of_same_contents}
use lachesis_ex.Pos.Caches.{build_index}
use lachesis_ex.Pos.Stake.{StakeCounter, count_by_idx, has_quorum}
use lachesis_ex.Pos.Stake.Counting.{
  weight, both, IsSound, IsCounting, Counted, has_quorum_iff, quorums_intersect,
  count_by_idx-Counted, build-IsSound,
}

-- Three validators, one with more stake.
abbrev builder : ValidatorsBuilder
builder = (7, 1) ∷ (3, 5) ∷ (9, 1) ∷ []

abbrev pub group : Validators
group = record {
  values = (7, 1) ∷ (3, 5) ∷ (9, 1) ∷ [];
  cache = record {
    indexes = (3, 0) ∷ (7, 1) ∷ (9, 2) ∷ [];
    stakes = 5 ∷ 1 ∷ 1 ∷ [];
    ids = 3 ∷ 7 ∷ 9 ∷ [];
    total_stake = 7;
  };
}

build-builder : build builder ≡ group
unfolding build
build-builder = refl

equal_stakes : (equal_stake_validators (4 ∷ 2 ∷ []) 1).cache.ids ≡ 2 ∷ 4 ∷ []
unfolding equal_stake_validators build
equal_stakes = refl

builder-IsDistinct : IsDistinct builder
builder-IsDistinct = (refl, (refl, (refl, tt)))

-- The same entries in another order.
abbrev reordered : ValidatorsBuilder
reordered = (9, 1) ∷ (7, 1) ∷ (3, 5) ∷ []

same_contents : (id : ℕ) → lookup id builder ≡ lookup id reordered
same_contents id = ground arith

build-cache_of_same_contents_example : (build builder).cache ≡ (build reordered).cache
build-cache_of_same_contents_example =
    build-cache_of_same_contents builder reordered builder-IsDistinct (refl, (refl, (refl, tt)))
      same_contents

build_index_example :
    (s : ℕ) × (lookup 7 builder ≡ some s)
    × (0 < s)
    × (get_idx (build builder) 7 ≡ 1)
    × (get_stake_by_idx (build builder) 1 ≡ some s)
    × (get (build builder) 7 ≡ s)
    × (has_validator (build builder) 7 ≡ true)
unfolding build
build_index_example = build_index builder 1 7 (refl, (refl, (refl, tt))) refl

build-IsSound_example : IsSound (build builder)
unfolding build
build-IsSound_example = build-IsSound builder (omega arith)

abbrev pub group-IsSound : IsSound group
unfolding len
group-IsSound = record { aligned = refl; total = refl; room = omega arith }

-- Two counters that share the validator with the most stake.
abbrev first_two : StakeCounter
first_two = record { validators = group; already = true ∷ true ∷ false ∷ []; quorum = 5; sum = 6 }

abbrev outer_two : StakeCounter
outer_two = record { validators = group; already = true ∷ false ∷ true ∷ []; quorum = 5; sum = 6 }

first_two-IsCounting : IsCounting first_two
unfolding quorum
first_two-IsCounting = record { marks = refl; counted = refl; needed = refl }

outer_two-IsCounting : IsCounting outer_two
unfolding quorum
outer_two-IsCounting = record { marks = refl; counted = refl; needed = refl }

has_quorum_iff_example :
    (has_quorum first_two ≡ true)
    ↔ (2 * sum group.cache.stakes < 3 * weight first_two.already group.cache.stakes)
has_quorum_iff_example = has_quorum_iff first_two group-IsSound first_two-IsCounting

quorums_intersect_example :
    sum group.cache.stakes
    < 3 * weight (both first_two.already outer_two.already) group.cache.stakes
unfolding has_quorum
quorums_intersect_example =
    quorums_intersect first_two outer_two group-IsSound first_two-IsCounting outer_two-IsCounting
      refl refl refl

count_by_idx-Counted_example :
    (r : StakeCounter × Bool) × (count_by_idx first_two 2 ≡ some r) × Counted first_two 2 r
count_by_idx-Counted_example =
    count_by_idx-Counted first_two 2 group-IsSound first_two-IsCounting (omega arith)
