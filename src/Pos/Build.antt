-- ===== src/Pos/Build.antt =====
-- What `newValidators` makes of a builder: its map, its sorted array and its caches.
use mathlib.Core.List.Perm
use lachesis_ex.Prelude.{
  ℕ, ◌≡◌, refl, List, [], ◌∷◌, Perm, Option, none, some, arith, length-perm, ◌==◌, if◌then◌else◌,
}
use lachesis_ex.Prelude.Assoc.{
  lookup, lookup-insert, lookup-erase, IsDistinct, insert-IsDistinct, erase-IsDistinct, lookup_ext,
}
use lachesis_ex.Prelude.Sort.{sort-perm_eq, IsStrict}
use lachesis_ex.Pos.{
  Validator, less, ValidatorsBuilder, set_stake, set_all, to_validator, sorted_array, calc_caches,
  build,
}

pub less-IsStrict : IsStrict less
unfolding less
less-IsStrict = record {
  asymm = λ x y h. ground arith;
  trans = λ x y z h k. ground arith;
  connected = λ x y h k. ground arith;
}

-- A stake of zero is no entry.
abbrev pub nonzero : ℕ → Option ℕ
nonzero s = if s == 0 then none else some s

abbrev pub or_else {ℓ} : {A : Type ℓ} → Option A → Option A → Option A
or_else (some a) o = some a
or_else none o = o

pub lookup-set_stake :
    (id j s : ℕ) (vv : ValidatorsBuilder)
    → lookup j (set_stake id s vv) ≡ (if id == j then nonzero s else lookup j vv)
unfolding set_stake
lookup-set_stake id j s vv = ground (arith, lookup-insert id j s vv, lookup-erase id j vv)

set_stake-IsDistinct :
    (id s : ℕ) (vv : ValidatorsBuilder) → IsDistinct vv → IsDistinct (set_stake id s vv)
unfolding set_stake
set_stake-IsDistinct id s vv d =
    ground (arith, insert-IsDistinct id s vv d, erase-IsDistinct id vv d)

pub set_all-IsDistinct :
    (m : List (ℕ × ℕ)) (vv : ValidatorsBuilder) → IsDistinct vv → IsDistinct (set_all m vv)
unfolding set_all
set_all-IsDistinct [] vv d = d
set_all-IsDistinct ((id, s) ∷ m) vv d =
    set_all-IsDistinct m (set_stake id s vv) (set_stake-IsDistinct id s vv d)

pub lookup-set_all :
    (m : List (ℕ × ℕ)) (vv : ValidatorsBuilder) (j : ℕ)
    → IsDistinct m
    → lookup j (set_all m vv) ≡ elim (lookup j m) [ none ↦ lookup j vv | some s ↦ nonzero s ]
unfolding set_all
lookup-set_all [] vv j d = refl
lookup-set_all ((id, s) ∷ m) vv j d =
    ground (arith, lookup-set_all m (set_stake id s vv) j d.1, lookup-set_stake id j s vv)

pub build-IsDistinct : (b : ValidatorsBuilder) → IsDistinct (build b).values
unfolding build
build-IsDistinct b = set_all-IsDistinct b [] tt

-- A group built from a map, which has each id once, holds exactly the ids with a stake above
-- zero, with that stake.
pub lookup-build :
    (b : ValidatorsBuilder) (j : ℕ)
    → IsDistinct b
    → lookup j (build b).values ≡ elim (lookup j b) [ none ↦ none | some s ↦ nonzero s ]
unfolding build
lookup-build b j d = lookup-set_all b [] j d

Validators-set : IsSet (List Validator)
Validators-set = hlevel

sorted_array-perm_eq : {m n : ValidatorsBuilder} → Perm m n → sorted_array m ≡ sorted_array n
unfolding sorted_array
sorted_array-perm_eq p = sort-perm_eq less less-IsStrict Validators-set (Perm.map to_validator p)

calc_caches-perm_eq : {m n : ValidatorsBuilder} → Perm m n → calc_caches m ≡ calc_caches n
unfolding calc_caches
calc_caches-perm_eq p = rw (sorted_array-perm_eq p, length-perm p)

-- Two builders that hold the same stakes, each id once, give the same caches: the order in which
-- their maps are walked is not seen in the indexes, the stakes, the ids or the total.
pub build-cache_of_same_contents :
    (b c : ValidatorsBuilder)
    → IsDistinct b
    → IsDistinct c
    → ((id : ℕ) → lookup id b ≡ lookup id c)
    → (build b).cache ≡ (build c).cache
unfolding build
build-cache_of_same_contents b c d e h = calc_caches-perm_eq (
    lookup_ext (set_all b []) (set_all c []) (set_all-IsDistinct b [] tt)
      (set_all-IsDistinct c [] tt) λ k. rw (lookup-set_all b [] k d, lookup-set_all c [] k e, h k))
