-- ===== src/Gossip/Ordering/Parents.antt =====
-- Events are processed after their parents, and pushing an event ends.
use lachesis_ex.Prelude.{
  ℕ, zero, suc, ◌+◌, ◌≤◌, ◌<◌, ◌≡◌, refl, sym, ap, ◌∙◌, Bool, true, false, List, [], ◌∷◌, Option,
  none, some, ◌>>=◌, >>=-eq-some, ◌==◌, if◌then◌else◌, arith, Bool-cases, Option-cases, inl, inr,
}
use lachesis_ex.Inter.{EventHeaderData}
use lachesis_ex.Gossip.Ordering.Settled.{IsConnecting, IsAmong, IsSettled, IfEnds-some}
use lachesis_ex.Gossip.Ordering.Retries.{push_event-IsSettled}
use lachesis_ex.Gossip.Ordering.{
  Callback, Lru, Call, EventBuffer, get_parents, drop, push_child, push_children, connect,
  push_event, push,
}

module _ {S : Type 0} (callback : Callback S) where
  abbrev pub AllConnected : S → List ℕ → Type 0
  AllConnected s [] = Unit
  AllConnected s (p ∷ ps) =
      ((h : EventHeaderData) × (callback.get s p ≡ some h)) × AllConnected s ps

  -- An event is processed where it is not connected and all its parents are.
  abbrev pub IsProper : Call S → Type 0
  IsProper (Call.processed s e) = (callback.exists s e.hash ≡ false) × AllConnected s e.parents
  IsProper (Call.dropped e) = Unit

  abbrev pub AllProper : List (Call S) → Type 0
  AllProper [] = Unit
  AllProper (c ∷ cs) = IsProper c × AllProper cs

  -- How many of the events are not connected.
  unfoldable pub waiting : S → List EventHeaderData → ℕ
  waiting s [] = 0
  waiting s (e ∷ es) = (if callback.exists s e.hash then 0 else 1) + waiting s es

  module _ (connecting : IsConnecting S callback) where
    waiting-le :
        (s : S) (e : EventHeaderData) (es : List EventHeaderData)
        → waiting (callback.process s e).0 es ≤ waiting s es
    unfolding waiting
    waiting-le s e [] = omega arith
    waiting-le s e (c ∷ cs) = ground (arith, waiting-le s e cs, connecting.kept s e c.hash)

    -- Another one of them is connected.
    waiting-lt :
        (s : S) (e : EventHeaderData) (es : List EventHeaderData)
        → IsAmong e es
        → callback.exists s e.hash ≡ false
        → (callback.process s e).1 ≡ true
        → waiting (callback.process s e).0 es < waiting s es
    unfolding waiting
    waiting-lt s e [] i x o = absurd i
    waiting-lt s e (c ∷ cs) (inl same) x o =
        let before : callback.exists s c.hash ≡ false =
          ap (λ y. callback.exists s y.hash) (sym same) ∙ x in
        let now : callback.exists (callback.process s e).0 c.hash ≡ true =
          ap (λ y. callback.exists (callback.process s e).0 y.hash) (sym same)
          ∙ connecting.connected s e o in
        ground (arith, waiting-le s e cs)
    waiting-lt s e (c ∷ cs) (inr i) x o =
        ground (arith, waiting-lt s e cs i x o, connecting.kept s e c.hash)

    waiting-pos :
        (s : S) (e : EventHeaderData) (es : List EventHeaderData)
        → IsAmong e es
        → callback.exists s e.hash ≡ false
        → 0 < waiting s es
    unfolding waiting
    waiting-pos s e [] i x = absurd i
    waiting-pos s e (c ∷ cs) (inl same) x =
        let here : callback.exists s c.hash ≡ false =
          ap (λ y. callback.exists s y.hash) (sym same) ∙ x in
        ground arith
    waiting-pos s e (c ∷ cs) (inr i) x = ground (arith, waiting-pos s e cs i x)

-- The call ends, with a value as `P` says.
abbrev pub EndsIn {ℓ} : {A : Type ℓ} → (A → Type 0) → Option A → Type 0
EndsIn P none = ⊥
EndsIn P (some a) = P a

>>=-EndsIn {ℓ} :
    {A : Type ℓ} (P Q : A → Type 0) (first : Option A) (next : A → Option A)
    → EndsIn P first
    → ((a : A) → P a → EndsIn Q (next a))
    → EndsIn Q (first >>= next)
>>=-EndsIn P Q none next p more = absurd p
>>=-EndsIn P Q (some a) next p more = more a p

module _ {S L : Type 0} (callback : Callback S) (lru : Lru L) (connecting : IsConnecting S callback)
    (all : List EventHeaderData) where
  -- What holds of the buffer after calls that began with no more than `n` events waiting.
  IsFine : ℕ → EventBuffer S L → Type 0
  IsFine n b = AllProper callback b.calls × (waiting callback b.state all ≤ n)

  IsFine-mono :
      (n k : ℕ) (x : Option (EventBuffer S L)) → n ≤ k → EndsIn (IsFine n) x → EndsIn (IsFine k) x
  unfolding IsFine
  IsFine-mono n k none l h = h
  IsFine-mono n k (some b) l (proper, w) = (proper, omega (arith, w, l))

  get_parents-AllConnected :
      (s : S) (l : L) (ps : List ℕ) (found : List EventHeaderData)
      → (get_parents callback lru s l ps).1 ≡ some found
      → AllConnected callback s ps
  unfolding get_parents
  get_parents-AllConnected s l [] found h = tt
  get_parents-AllConnected s l (p ∷ ps) found h = elim (Option-cases (callback.get s p)) [
    | inl e ↦ absurd (ground (arith, rw (e, get_parents) at h))
    | inr (parent, e) ↦
        let (rest, is, _) =
          >>=-eq-some (get_parents callback lru s (lru.touch p l) ps).1 _
            (rw (e, get_parents) at h) in
        ((parent, e), get_parents-AllConnected s (lru.touch p l) ps rest is)
  ]

  module _ (again : EventHeaderData → EventBuffer S L → Option (EventBuffer S L)) (n : ℕ)
      (ends : (c : EventHeaderData) (b : EventBuffer S L)
        → IsAmong c all
        → IsFine n b
        → EndsIn (IsFine n) (again c b)) where
    push_child-IsFine :
        (hash : ℕ) (c : EventHeaderData) (ps : List ℕ) (b : EventBuffer S L)
        → IsAmong c all
        → IsFine n b
        → EndsIn (IsFine n) (push_child callback lru again hash c ps b)
    unfolding push_child IsFine
    push_child-IsFine hash c [] b i f = f
    push_child-IsFine hash c (p ∷ ps) b i f = elim (Bool-cases (p == hash)) [
      | inl e ↦
          rw (e, EndsIn)
            (>>=-EndsIn (IsFine n) (IsFine n) (again c b) _ (ends c b i f)
              λ next g. push_child-IsFine hash c ps next i g)
      | inr e ↦ rw (e, EndsIn) (push_child-IsFine hash c ps b i f)
    ]

    push_children-IsFine :
        (hash : ℕ) (cs : List EventHeaderData) (b : EventBuffer S L)
        → ((c : EventHeaderData) → IsAmong c cs → IsAmong c all)
        → IsFine n b
        → EndsIn (IsFine n) (push_children callback lru again hash cs b)
    unfolding push_children IsFine
    push_children-IsFine hash [] b i f = f
    push_children-IsFine hash (c ∷ cs) b i f =
        >>=-EndsIn (IsFine n) (IsFine n) (push_child callback lru again hash c c.parents b) _
          (push_child-IsFine hash c c.parents b (i c (inl refl)) f)
          λ next g. push_children-IsFine hash cs next (λ d j. i d (inr j)) g

    connect-IsFine :
        (e : EventHeaderData) (parents : List EventHeaderData) (b : EventBuffer S L) (k : ℕ)
        → n ≤ k
        → callback.exists b.state e.hash ≡ false
        → AllConnected callback b.state e.parents
        → ((callback.process b.state e).1 ≡ true
            → waiting callback (callback.process b.state e).0 all ≤ n)
        → IsFine k b
        → EndsIn (IsFine k) (connect callback lru again e parents all b)
    unfolding connect IsFine drop
    connect-IsFine e parents b k l x ps fewer (proper, w) =
        elim (Bool-cases (callback.check e parents)) [
          | inl c ↦ elim (Bool-cases (callback.process b.state e).1) [
            | inl o ↦
                rw (c, o, EndsIn)
                  (IsFine-mono n k (push_children callback lru again e.hash all _) l
                    (push_children-IsFine e.hash all _ (λ d j. j) (((x, ps), proper), fewer o)))
            | inr o ↦
                rw (c, o, EndsIn)
                  (
                    (tt, ((x, ps), proper)),
                    omega (arith, waiting-le callback connecting b.state e all, w),
                  )
          ]
          | inr c ↦ rw (c, EndsIn) ((tt, proper), w)
        ]

  -- One round of `pushEvent`, whatever pushing the children does.
  push_event-step :
      (fuel n k : ℕ) (strict : Bool) (e : EventHeaderData) (b : EventBuffer S L)
      → (callback.exists b.state e.hash ≡ false
          → (c : EventHeaderData) (d : EventBuffer S L) → IsAmong c all
          → IsFine n d
          → EndsIn (IsFine n) (push_event callback lru fuel all false c d))
      → n ≤ k
      → (callback.exists b.state e.hash ≡ false
          → (callback.process b.state e).1 ≡ true
          → waiting callback (callback.process b.state e).0 all ≤ n)
      → IsFine k b
      → EndsIn (IsFine k) (push_event callback lru (suc fuel) all strict e b)
  unfolding push_event IsFine drop
  push_event-step fuel n k strict e b again l fewer (proper, w) =
      elim (Bool-cases (callback.exists b.state e.hash)) [
        | inl x ↦ rw (x, EndsIn) (quiet strict)
        | inr x ↦ elim (Option-cases (get_parents callback lru b.state b.incompletes e.parents).1) [
          | inl g ↦ rw (x, g, EndsIn) (proper, w)
          | inr (parents, g) ↦
              rw (x, g, EndsIn)
                (connect-IsFine (push_event callback lru fuel all false) n (again x) e parents
                  (record b {
                    incompletes = (get_parents callback lru b.state b.incompletes e.parents).0;
                  })
                  k l x (get_parents-AllConnected b.state b.incompletes e.parents parents g)
                  (fewer x) (proper, w))
        ]
      ]
    where
      quiet : (t : Bool) → IsFine k (if t then drop callback lru b e else b)
      quiet true = ((tt, proper), w)
      quiet false = (proper, w)

  push_event-IsFine :
      (fuel k : ℕ) (strict : Bool) (e : EventHeaderData) (b : EventBuffer S L)
      → IsAmong e all
      → k < fuel
      → IsFine k b
      → EndsIn (IsFine k) (push_event callback lru fuel all strict e b)
  unfolding IsFine
  push_event-IsFine zero k strict e b i l f = absurd (omega arith)
  push_event-IsFine (suc fuel) zero strict e b i l (proper, w) =
      let none_waits : callback.exists b.state e.hash ≡ false → ⊥ =
        λ x. omega (arith, waiting-pos callback connecting b.state e all i x, w) in
      push_event-step fuel 0 0 strict e b (λ x. absurd (none_waits x)) (omega arith)
        (λ x. absurd (none_waits x)) (proper, w)
  push_event-IsFine (suc fuel) (suc k) strict e b i l (proper, w) =
      push_event-step fuel k (suc k) strict e b
        (λ x c d j g. push_event-IsFine fuel k false c d j (omega (arith, l)) g) (omega arith)
        (λ x o. omega (arith, waiting-lt callback connecting b.state e all i x o, w)) (proper, w)

module _ {S L : Type 0} (callback : Callback S) (lru : Lru L) where
  -- Pushing an event ends, with fuel for two rounds more than there are buffered events that are not
  -- connected. `Process` is called only for an event that is not connected while all its parents
  -- are, if it was called so before. And none is left behind: if each event that was buffered was
  -- settled (connected, dropped, or with a parent that is not found), each of these is settled
  -- after the call, and so is the event pushed. An event that is processed without an error is
  -- connected then, connected events stay so, and processing finds no other event than that.
  pub push-AllProper :
      (fuel : ℕ) (e : EventHeaderData) (b : EventBuffer S L)
      → IsConnecting S callback
      → AllProper callback b.calls
      → ((c : EventHeaderData) → IsAmong c (lru.events b.incompletes) → IsSettled callback b c)
      → waiting callback b.state (lru.events b.incompletes) + 1 < fuel
      → (after : EventBuffer S L) × (push callback lru fuel e b ≡ some after)
        × AllProper callback after.calls
        × IsSettled callback after e
        × ((c : EventHeaderData)
            → IsAmong c (lru.events b.incompletes)
            → IsSettled callback after c)
  unfolding push IsFine
  push-AllProper zero e b connecting proper settled f = absurd (omega arith)
  push-AllProper (suc fuel) e b connecting proper settled f =
      let (after, is, calls) = found (push_event callback lru (suc fuel) all true e b) ends in
      let ((done, kept), own) =
        IfEnds-some _ (push_event callback lru (suc fuel) all true e b) after
          (push_event-IsSettled callback lru connecting all (suc fuel) true e b) is in
      (after, is, calls, own, λ c i. kept c i (settled c i))
    where
      all : List EventHeaderData
      all = lru.events b.incompletes

      ends :
          EndsIn
            (IsFine callback lru connecting all (waiting callback b.state all))
            (push_event callback lru (suc fuel) all true e b)
      ends =
          push_event-step callback lru connecting all fuel (waiting callback b.state all)
            (waiting callback b.state all) true e b
            (λ x c d j g.
              push_event-IsFine callback lru connecting all fuel (waiting callback b.state all)
                false c d j (omega (arith, f)) g)
            (omega arith) (λ x o. waiting-le callback connecting b.state e all)
            (proper, omega arith)

      found :
          (x : Option (EventBuffer S L))
          → EndsIn (IsFine callback lru connecting all (waiting callback b.state all)) x
          → (after : EventBuffer S L) × (x ≡ some after) × AllProper callback after.calls
      found none h = absurd h
      found (some after) (done, w) = (after, refl, done)
