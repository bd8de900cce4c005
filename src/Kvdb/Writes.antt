-- ===== src/Kvdb/Writes.antt =====
-- Writes in their order, and what is read after them.
use lachesis_ex.Prelude.{
  ◌≡◌, inl, inr, refl, sym, ap, ap₂, ◌∙◌, true, List, [], ◌∷◌, ◌++◌, Option, none, some, ◌==◌,
  ==_iff, if◌then◌else◌, arith, Bool-cases,
}
use lachesis_ex.Kvdb.{Bytes, bytes_eq, Write, find, after, HasOnce}

-- What is read where the cache has an entry or none.
abbrev pub over : Option (Option Bytes) → Option Bytes → Option Bytes
over none old = old
over (some v) old = v

pub after-append :
    (ws vs : List Write) (k : Bytes) (old : Option Bytes)
    → after (ws ++ vs) k old ≡ after vs k (after ws k old)
unfolding after
after-append [] vs k old = refl
after-append ((j, v) ∷ ws) vs k old = after-append ws vs k (if bytes_eq j k then v else old)

pub bytes_eq-eq : (a b : Bytes) → bytes_eq a b ≡ true → a ≡ b
unfolding bytes_eq
bytes_eq-eq [] [] h = refl
bytes_eq-eq [] (x ∷ b) h = absurd (ground arith)
bytes_eq-eq (x ∷ a) [] h = absurd (ground arith)
bytes_eq-eq (x ∷ a) (y ∷ b) h = elim (Bool-cases (x == y)) [
  | inl e ↦ ap₂ (λ p q. p ∷ q) ((==_iff x y).0 e) (bytes_eq-eq a b (rw e at h))
  | inr e ↦ absurd (ground arith)
]

-- A key that is not written is as before.
pub after-none :
    (ws : List Write) (k : Bytes) (old : Option Bytes) → find k ws ≡ none → after ws k old ≡ old
unfolding after find
after-none [] k old h = refl
after-none ((j, v) ∷ ws) k old h = elim (Bool-cases (bytes_eq j k)) [
  | inl e ↦ absurd (ground arith)
  | inr e ↦ rw e (after-none ws k old (rw e at h))
]

-- Where no key comes twice, what is read is the entry of the key.
pub after-find :
    (ws : List Write) (k : Bytes) (old : Option Bytes)
    → HasOnce ws
    → after ws k old ≡ over (find k ws) old
unfolding after find
after-find [] k old d = refl
after-find ((j, v) ∷ ws) k old (new, d) = elim (Bool-cases (bytes_eq j k)) [
  | inl e ↦ rw e (after-none ws k v (ap (λ x. find x ws) (sym (bytes_eq-eq j k e)) ∙ new))
  | inr e ↦ rw e (after-find ws k old d)
]

pub find-append :
    (ws vs : List Write) (k : Bytes)
    → find k ws ≡ none
    → find k vs ≡ none
    → find k (ws ++ vs) ≡ none
unfolding find
find-append [] vs k h f = f
find-append ((j, v) ∷ ws) vs k h f = ground (arith, find-append ws vs k)

pub bytes_eq_refl : (k : Bytes) → bytes_eq k k ≡ true
unfolding bytes_eq
bytes_eq_refl [] = refl
bytes_eq_refl (b ∷ bs) = ground (arith, bytes_eq_refl bs)
