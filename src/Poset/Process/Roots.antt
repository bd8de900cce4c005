-- ===== src/Poset/Process/Roots.antt =====
-- The table of roots of an epoch after an event is saved.
use lachesis_ex.Prelude.{
  ◌+◌, ◌≤◌, ◌<◌, ◌≡◌, ◌⊎◌, ◌↔◌, inl, inr, refl, ◌∙◌, true, false, List, [], ◌∷◌, length,
  if◌then◌else◌, arith, Bool-cases, word32,
}
use lachesis_ex.Inter.{EventHeaderData}
use lachesis_ex.Election.{RootAndSlot}
use lachesis_ex.Poset.{root_less, add_root}
use lachesis_ex.Poset.Elections.Rounds.{AreSmall}

-- The root is one of the list.
abbrev pub Among : RootAndSlot → List RootAndSlot → Type 0
Among r [] = ⊥
Among r (s ∷ rs) = (r ≡ s) ⊎ Among r rs

-- The event as a root, in the slot of its frame and creator.
abbrev pub slot_of : EventHeaderData → RootAndSlot
slot_of e = record { id = e.hash; frame = e.frame; validator = e.creator }

-- The new roots are the old ones, and the event if it is a root.
abbrev pub AddsRoot : List RootAndSlot → EventHeaderData → List RootAndSlot → Type 0
AddsRoot old e new =
    (r : RootAndSlot) → Among r new ↔ (Among r old ⊎ ((e.is_root ≡ true) × (r ≡ slot_of e)))

-- Roots of which neither stands before the other are the same.
root_less-same : (r s : RootAndSlot) → root_less s r ≡ false → root_less r s ≡ false → r ≡ s
root_less-same r s p q =
    let id : r.id ≡ s.id = ground arith in
    let frame : r.frame ≡ s.frame = ground arith in
    let validator : r.validator ≡ s.validator = ground arith in
    λ i. record { id = id i; frame = frame i; validator = validator i }

add_root-Among :
    (x r : RootAndSlot) (rs : List RootAndSlot) → Among x (add_root r rs) ↔ (Among x rs ⊎ (x ≡ r))
unfolding add_root
add_root-Among x r [] = (
  λ h. elim h [ inl e ↦ inr e | inr n ↦ absurd n ],
  λ h. elim h [ inl n ↦ absurd n | inr e ↦ inl e ],
)
add_root-Among x r (s ∷ rs) = elim (Bool-cases (root_less s r)) [
  | inl q ↦
      let (to, from) = add_root-Among x r rs in
      rw q (
        λ h. elim h [
          | inl e ↦ inl (inl e)
          | inr m ↦ elim (to m) [ inl m' ↦ inl (inr m') | inr e ↦ inr e ]
        ],
        λ h. elim h [
          | inl m ↦ elim m [ inl e ↦ inl e | inr m' ↦ inr (from (inl m')) ]
          | inr e ↦ inr (from (inr e))
        ],
      )
  | inr q ↦ elim (Bool-cases (root_less r s)) [
    | inl p ↦
        rw (q, p)
          (
            λ h. elim h [ inl e ↦ inr e | inr m ↦ inl m ],
            λ h. elim h [ inl m ↦ inr m | inr e ↦ inl e ],
          )
    | inr p ↦
        rw (q, p) (λ h. inl h, λ h. elim h [ inl m ↦ m | inr e ↦ inl (e ∙ root_less-same r s q p) ])
  ]
]

add_root-AreSmall :
    (r : RootAndSlot) (rs : List RootAndSlot)
    → r.frame + 2 < word32
    → AreSmall rs
    → AreSmall (add_root r rs)
unfolding add_root
add_root-AreSmall r [] h a = (h, tt)
add_root-AreSmall r (s ∷ rs) h (first, a) = elim (Bool-cases (root_less s r)) [
  | inl q ↦ rw q (first, add_root-AreSmall r rs h a)
  | inr q ↦ elim (Bool-cases (root_less r s)) [
    | inl p ↦ rw (q, p) (h, (first, a))
    | inr p ↦ rw (q, p) (first, a)
  ]
]

length-add_root : (r : RootAndSlot) (rs : List RootAndSlot) → length (add_root r rs) ≤ length rs + 1
unfolding add_root
length-add_root r [] = omega arith
length-add_root r (s ∷ rs) = elim (Bool-cases (root_less s r)) [
  | inl q ↦ rw q (omega (arith, length-add_root r rs))
  | inr q ↦ elim (Bool-cases (root_less r s)) [
    | inl p ↦ rw (q, p) (omega arith)
    | inr p ↦ rw (q, p) (omega arith)
  ]
]

pub save_root-AreSmall :
    (e : EventHeaderData) (rs : List RootAndSlot)
    → e.frame + 2 < word32
    → AreSmall rs
    → AreSmall (
        if e.is_root
        then add_root (record { id = e.hash; frame = e.frame; validator = e.creator }) rs
        else rs)
save_root-AreSmall e rs h a = elim (Bool-cases e.is_root) [
  | inl q ↦
      rw q
        (add_root-AreSmall (record { id = e.hash; frame = e.frame; validator = e.creator }) rs h a)
  | inr q ↦ rw q a
]

pub length-save_root :
    (e : EventHeaderData) (rs : List RootAndSlot)
    → length (
        if e.is_root
        then add_root (record { id = e.hash; frame = e.frame; validator = e.creator }) rs
        else rs)
      ≤ length rs + 1
length-save_root e rs = elim (Bool-cases e.is_root) [
  | inl q ↦
      rw q (length-add_root (record { id = e.hash; frame = e.frame; validator = e.creator }) rs)
  | inr q ↦ rw q (omega arith)
]

pub save_root-AddsRoot :
    (e : EventHeaderData) (rs : List RootAndSlot)
    → AddsRoot rs e (
        if e.is_root
        then add_root (record { id = e.hash; frame = e.frame; validator = e.creator }) rs
        else rs)
save_root-AddsRoot e rs r = elim (Bool-cases e.is_root) [
  | inl q ↦
      let (to, from) = add_root-Among r (slot_of e) rs in
      rw q (
        λ h. elim (to h) [ inl m ↦ inl m | inr is ↦ inr (refl, is) ],
        λ h. elim h [ inl m ↦ from (inl m) | inr (_, is) ↦ from (inr is) ],
      )
  | inr q ↦ rw q (λ h. inl h, λ h. elim h [ inl m ↦ m | inr (is, _) ↦ cc ])
]
