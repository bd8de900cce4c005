-- ===== src/Gossip/Ordering/Settled.antt =====
-- What it is for a buffered event to be settled, and that `Process` keeps it so.
use lachesis_ex.Prelude.{
  ℕ, ◌≡◌, ◌≢◌, sym, true, false, List, [], ◌∷◌, Option, none, some, ◌>>=◌, ◌==◌, arith, Holds,
  Bool-cases, ==_iff, inl, inr, ◌⊎◌,
}
use lachesis_ex.Inter.{EventHeaderData}
use lachesis_ex.Gossip.Ordering.{Callback, Call, EventBuffer}

-- An event that was processed without an error is connected, and connected events stay so. What
-- `Get` does not find is found after `Process` only if it is the event, processed without an error.
pub record IsConnecting (S : Type 0) (callback : Callback S) : Type 0 where
  pub connected :
      (s : S) (e : EventHeaderData)
      → (callback.process s e).1 ≡ true
      → callback.exists (callback.process s e).0 e.hash ≡ true
  pub kept :
      (s : S) (e : EventHeaderData) (id : ℕ)
      → callback.exists s id ≡ true
      → callback.exists (callback.process s e).0 id ≡ true
  pub others :
      (s : S) (e : EventHeaderData) (id : ℕ)
      → id ≢ e.hash
      → callback.get s id ≡ none
      → callback.get (callback.process s e).0 id ≡ none
  pub failed :
      (s : S) (e : EventHeaderData) (id : ℕ)
      → (callback.process s e).1 ≡ false
      → callback.get s id ≡ none
      → callback.get (callback.process s e).0 id ≡ none

-- The event is one of the list.
abbrev pub IsAmong : EventHeaderData → List EventHeaderData → Type 0
IsAmong e [] = ⊥
IsAmong e (c ∷ cs) = (e ≡ c) ⊎ IsAmong e cs

abbrev pub IsDropped : {S : Type 0} → EventHeaderData → List (Call S) → Type 0
IsDropped e [] = ⊥
IsDropped e (Call.processed s d ∷ cs) = IsDropped e cs
IsDropped e (Call.dropped d ∷ cs) = (e ≡ d) ⊎ IsDropped e cs

-- If the call ends, then with a value as `P` says.
abbrev pub IfEnds {ℓ} : {A : Type ℓ} → (A → Type 0) → Option A → Type 0
IfEnds P none = Unit
IfEnds P (some a) = P a

pub >>=-IfEnds {ℓ} :
    {A : Type ℓ} (P Q : A → Type 0) (first : Option A) (next : A → Option A)
    → IfEnds P first
    → ((a : A) → P a → IfEnds Q (next a))
    → IfEnds Q (first >>= next)
>>=-IfEnds P Q none next p more = tt
>>=-IfEnds P Q (some a) next p more = more a p

pub IfEnds-mono {ℓ} :
    {A : Type ℓ} (P Q : A → Type 0) (x : Option A) → ((a : A) → P a → Q a) → IfEnds P x → IfEnds Q x
IfEnds-mono P Q none f h = tt
IfEnds-mono P Q (some a) f h = f a h

pub IfEnds-some {ℓ} :
    {A : Type ℓ} (P : A → Type 0) (x : Option A) (a : A) → IfEnds P x → x ≡ some a → P a
IfEnds-some P none a h e = cc
IfEnds-some P (some b) a h e = ground arith

module _ {S : Type 0} (callback : Callback S) where
  -- `Get` does not find one of the events.
  abbrev pub Missing : S → List ℕ → Type 0
  Missing s [] = ⊥
  Missing s (p ∷ ps) = (callback.get s p ≡ none) ⊎ Missing s ps

  -- After `Process` a missing parent is still missing, or it is the event.
  pub process-Missing :
      (s : S) (e : EventHeaderData) (ps : List ℕ)
      → IsConnecting S callback
      → Missing s ps
      → Missing (callback.process s e).0 ps ⊎ (((callback.process s e).1 ≡ true) × Holds e.hash ps)
  process-Missing s e [] c h = absurd h
  process-Missing s e (p ∷ ps) c (inr h) = elim (process-Missing s e ps c h) [
    | inl m ↦ inl (inr m)
    | inr (ok, found) ↦ inr (ok, inr found)
  ]
  process-Missing s e (p ∷ ps) c (inl h) = elim (Bool-cases (p == e.hash)) [
    | inl q ↦ elim (Bool-cases (callback.process s e).1) [
      | inl ok ↦ inr (ok, inl (sym ((==_iff p e.hash).0 q)))
      | inr ok ↦ inl (inl (c.failed s e p ok h))
    ]
    | inr q ↦ inl (inl (c.others s e p (λ same. let t = (==_iff p e.hash).1 same in cc) h))
  ]

module _ {S L : Type 0} (callback : Callback S) where
  -- The event is connected, or was dropped.
  abbrev pub IsDone : EventBuffer S L → EventHeaderData → Type 0
  IsDone b e = (callback.exists b.state e.hash ≡ true) ⊎ IsDropped e b.calls

  -- Or it waits for one of its parents.
  abbrev pub IsSettled : EventBuffer S L → EventHeaderData → Type 0
  IsSettled b e = IsDone b e ⊎ Missing callback b.state e.parents

  -- What is done or settled stays so.
  abbrev pub Kept : List EventHeaderData → EventBuffer S L → EventBuffer S L → Type 0
  Kept all b d =
      ((x : EventHeaderData) → IsDone b x → IsDone d x)
      × ((x : EventHeaderData) → IsAmong x all → IsSettled b x → IsSettled d x)
