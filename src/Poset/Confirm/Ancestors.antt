-- ===== src/Poset/Confirm/Ancestors.antt =====
-- The ancestors of an event, and how many parents a walk can still push.
use lachesis_ex.Prelude.{
  ℕ, ◌+◌, ◌≤◌, ◌<◌, ◌≡◌, inl, inr, ap, Bool, true, false, List, [], ◌∷◌, some, length, ◌==◌,
  if◌then◌else◌, arith, Holds, Bool-cases,
}
use lachesis_ex.Prelude.Assoc.{lookup, insert, lookup-insert}
use lachesis_ex.Inter.{EventHeaderData}
use lachesis_ex.Poset.Confirm.{Headers, confirmed_on, count_parents}

-- What an event observes: itself and, through parents, its ancestors.
pub data Ancestor (headers : Headers) (head : ℕ) : ℕ → Type 0 where
  itself : Ancestor headers head head
  parent_of :
      {id p : ℕ} (h : EventHeaderData)
      → Ancestor headers head id
      → lookup id headers ≡ some h
      → Holds p h.parents
      → Ancestor headers head p

-- The storage of events: under its id, and after its parents.
pub record IsStored (headers : Headers) : Type 0 where
  pub by_id : (id : ℕ) (h : EventHeaderData) → lookup id headers ≡ some h → h.hash ≡ id
  pub parents_first :
      (id : ℕ) (h : EventHeaderData)
      → lookup id headers ≡ some h
      → (p : ℕ) → Holds p h.parents
      → (g : EventHeaderData) × (lookup p headers ≡ some g)

-- The parents of a confirmed event are confirmed.
abbrev pub IsClosed : Headers → List (ℕ × ℕ) → Type 0
IsClosed headers table =
    (id : ℕ) (h : EventHeaderData)
    → 0 < confirmed_on table id
    → lookup id headers ≡ some h
    → (p : ℕ) → Holds p h.parents
    → 0 < confirmed_on table p

-- The id is that of one of the events.
abbrev pub has : ℕ → List EventHeaderData → Bool
has id [] = false
has id (n ∷ ns) = if n.hash == id then true else has id ns

abbrev pub Distinct : List EventHeaderData → Type 0
Distinct [] = Unit
Distinct (n ∷ ns) = (has n.hash ns ≡ false) × Distinct ns

-- The events are those that the storage has.
abbrev pub AllStored : Headers → List EventHeaderData → Type 0
AllStored headers [] = Unit
AllStored headers (n ∷ ns) = (lookup n.hash headers ≡ some n) × AllStored headers ns

-- The calls of the callback, the last one first.
abbrev pub fold_calls {ℓ} : {A : Type ℓ} → (A → EventHeaderData → A) → A → List EventHeaderData → A
fold_calls f a [] = a
fold_calls f a (n ∷ ns) = f (fold_calls f a ns) n

pub confirmed_on-insert :
    (id frame j : ℕ) (table : List (ℕ × ℕ))
    → confirmed_on (insert id frame table) j ≡ (if id == j then frame else confirmed_on table j)
unfolding confirmed_on
confirmed_on-insert id frame j table = ground (arith, lookup-insert id j frame table)

-- The parents that the walk can still push.
unfoldable pub left_parents : Headers → List (ℕ × ℕ) → ℕ
left_parents [] table = 0
left_parents ((id, h) ∷ rest) table =
    (if confirmed_on table id == 0 then length h.parents else 0) + left_parents rest table

pub left_parents-le :
    (headers : Headers) (table : List (ℕ × ℕ)) → left_parents headers table ≤ count_parents headers
unfolding left_parents count_parents
left_parents-le [] table = omega arith
left_parents-le ((id, h) ∷ rest) table = ground (arith, left_parents-le rest table)

pub left_parents_mono :
    (headers : Headers) (table : List (ℕ × ℕ)) (id frame : ℕ)
    → 0 < frame
    → left_parents headers (insert id frame table) ≤ left_parents headers table
unfolding left_parents
left_parents_mono [] table id frame f = omega arith
left_parents_mono ((j, h) ∷ rest) table id frame f =
    ground (arith, left_parents_mono rest table id frame f, confirmed_on-insert id frame j table)

pub left_parents_pays :
    (headers : Headers) (table : List (ℕ × ℕ)) (id frame : ℕ) (h : EventHeaderData)
    → 0 < frame
    → lookup id headers ≡ some h
    → confirmed_on table id ≡ 0
    → left_parents headers (insert id frame table) + length h.parents ≤ left_parents headers table
unfolding left_parents
left_parents_pays [] table id frame h f l c = cc
left_parents_pays ((j, g) ∷ rest) table id frame h f l c = elim (Bool-cases (j == id)) [
  | inl e ↦
      let same : g ≡ h = ground arith in
      let size : length g.parents ≡ length h.parents = ap (λ x. length x.parents) same in
      ground (arith, left_parents_mono rest table id frame f, confirmed_on-insert id frame j table)
  | inr e ↦ ground (
    arith,
    left_parents_pays rest table id frame h f (rw e at l) c,
    confirmed_on-insert id frame j table,
  )
]
