-- ===== src/Vector/Lowest/Marks.antt =====
-- The number of an event is written into a LowestAfter vector, and what a walk can still push.
use lachesis_ex.Prelude.{
  ℕ, ◌+◌, ◌≤◌, ◌<◌, ◌≡◌, inl, inr, refl, ap, ◌∙◌, List, [], ◌∷◌, some, length, ◌==◌, if◌then◌else◌,
  arith, Bool-cases, word32,
}
use mathlib.Core.Option.{some-injective}
use lachesis_ex.Prelude.Assoc.{lookup, insert, lookup-insert}
use lachesis_ex.Inter.{EventHeaderData}
use lachesis_ex.Vector.Clock.{
  IsAligned, lowest_after_get, lowest_after_set, lowest_after_get-set, lowest_after_set-IsAligned,
}
use lachesis_ex.Vector.Lowest.{get_lowest_after_seq}

abbrev pub Headers : Type 0
Headers = List (ℕ × EventHeaderData)

-- The number that the branch has for the event, 0 if it has none.
unfoldable pub reached : List (ℕ × List ℕ) → ℕ → ℕ → ℕ
reached table branch id = lowest_after_get (get_lowest_after_seq table id) branch

-- All vectors are whole entries of four bytes.
abbrev pub AllAligned : List (ℕ × List ℕ) → Type 0
AllAligned table = (id : ℕ) → IsAligned 4 (get_lowest_after_seq table id)

-- The parents that the walk can still push.
unfoldable pub left : Headers → ℕ → List (ℕ × List ℕ) → ℕ
left [] branch table = 0
left ((id, h) ∷ rest) branch table =
    (if reached table branch id == 0 then length h.parents else 0) + left rest branch table

unfoldable pub all_parents : Headers → ℕ
all_parents [] = 0
all_parents ((id, h) ∷ rest) = length h.parents + all_parents rest

pub left-le :
    (headers : Headers) (branch : ℕ) (table : List (ℕ × List ℕ))
    → left headers branch table ≤ all_parents headers
unfolding left all_parents
left-le [] branch table = omega arith
left-le ((id, h) ∷ rest) branch table = ground (arith, left-le rest branch table)

module _ (branch seq : ℕ) (positive : 0 < seq) (small : seq < word32) where
  unfoldable pub write : List (ℕ × List ℕ) → ℕ → List (ℕ × List ℕ)
  write table id = insert id (lowest_after_set (get_lowest_after_seq table id) branch seq) table

  get-write :
      (table : List (ℕ × List ℕ)) (id j : ℕ)
      → get_lowest_after_seq (write table id) j ≡ (
          if id == j
          then lowest_after_set (get_lowest_after_seq table id) branch seq
          else get_lowest_after_seq table j)
  unfolding get_lowest_after_seq write
  get-write table id j = ground (
    arith,
    lookup-insert id j (lowest_after_set (get_lowest_after_seq table id) branch seq) table,
  )

  pub write-AllAligned :
      (table : List (ℕ × List ℕ)) (id : ℕ) → AllAligned table → AllAligned (write table id)
  write-AllAligned table id a j = elim (Bool-cases (id == j)) [
    | inl e ↦
        rw (get-write table id j, e)
          (lowest_after_set-IsAligned (get_lowest_after_seq table id) branch seq (a id))
    | inr e ↦ rw (get-write table id j, e) (a j)
  ]

  pub reached-write :
      (table : List (ℕ × List ℕ)) (id j : ℕ)
      → AllAligned table
      → reached (write table id) branch j ≡ (if id == j then seq else reached table branch j)
  unfolding reached
  reached-write table id j a = elim (Bool-cases (id == j)) [
    | inl e ↦
        rw (get-write table id j, e)
          (lowest_after_get-set (get_lowest_after_seq table id) branch branch seq (a id) small
            ∙ ground arith)
    | inr e ↦ rw (get-write table id j, e) refl
  ]

  left-write-le :
      (headers : Headers) (table : List (ℕ × List ℕ)) (id : ℕ)
      → AllAligned table
      → left headers branch (write table id) ≤ left headers branch table
  unfolding left
  left-write-le [] table id a = omega arith
  left-write-le ((j, h) ∷ rest) table id a =
      ground (arith, left-write-le rest table id a, reached-write table id j a)

  pub left-write :
      (headers : Headers) (table : List (ℕ × List ℕ)) (id : ℕ) (h : EventHeaderData)
      → AllAligned table
      → lookup id headers ≡ some h
      → reached table branch id ≡ 0
      → left headers branch (write table id) + length h.parents ≤ left headers branch table
  unfolding left
  left-write [] table id h a l c = cc
  left-write ((j, g) ∷ rest) table id h a l c = elim (Bool-cases (j == id)) [
    | inl e ↦
        let same : g ≡ h = some-injective g h (rw e at l) in
        let size : length g.parents ≡ length h.parents = ap (λ x. length x.parents) same in
        ground (arith, left-write-le rest table id a, reached-write table id j a)
    | inr e ↦ ground (arith, left-write rest table id h a (rw e at l) c, reached-write table id j a)
  ]
