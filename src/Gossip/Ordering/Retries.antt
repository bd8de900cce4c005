-- ===== src/Gossip/Ordering/Retries.antt =====
-- What becomes of the buffered events when an event is pushed: those that waited for it are tried
-- again.
use lachesis_ex.Prelude.{
  ℕ, zero, suc, ◌≡◌, refl, sym, Bool, true, false, List, [], ◌∷◌, Option, none, ◌==◌, if◌then◌else◌,
  arith, Holds, Bool-cases, Option-cases, ==_iff, inl, inr, ◌⊎◌,
}
use mathlib.Core.Path.{subst}
use lachesis_ex.Inter.{EventHeaderData}
use lachesis_ex.Gossip.Ordering.{
  Callback, Lru, EventBuffer, get_parents, drop, push_child, push_children, connect, push_event,
}
use lachesis_ex.Gossip.Ordering.Settled.{
  IsConnecting, IsAmong, IsDropped, IfEnds, >>=-IfEnds, IfEnds-mono, Missing, IsDone, IsSettled,
  Kept, process-Missing,
}

module _ {S L : Type 0} (callback : Callback S) (lru : Lru L) (connecting : IsConnecting S callback)
    (all : List EventHeaderData) where
  get_parents-Missing :
      (s : S) (l : L) (ps : List ℕ)
      → (get_parents callback lru s l ps).1 ≡ none
      → Missing callback s ps
  unfolding get_parents
  get_parents-Missing s l [] h = cc
  get_parents-Missing s l (p ∷ ps) h = elim (Option-cases (callback.get s p)) [
    | inl e ↦ inl e
    | inr (parent, e) ↦ elim (Option-cases (get_parents callback lru s (lru.touch p l) ps).1) [
      | inl none_found ↦ inr (get_parents-Missing s (lru.touch p l) ps none_found)
      | inr (rest, is) ↦ absurd (ground (arith, rw (e, is, get_parents) at h))
    ]
  ]

  module _ (again : EventHeaderData → EventBuffer S L → Option (EventBuffer S L))
      (tries : (c : EventHeaderData) (b : EventBuffer S L)
        → IfEnds (λ d. Kept callback all b d × IsSettled callback d c) (again c b)) where
    push_child-IsSettled :
        (hash : ℕ) (c : EventHeaderData) (ps : List ℕ) (b : EventBuffer S L)
        → IsAmong c all
        → IfEnds
            (λ d. Kept callback all b d × (Holds hash ps → IsSettled callback d c))
            (push_child callback lru again hash c ps b)
    unfolding push_child
    push_child-IsSettled hash c [] b i = (((λ x h. h), (λ x j h. h)), (λ h. absurd h))
    push_child-IsSettled hash c (p ∷ ps) b i = elim (Bool-cases (p == hash)) [
      | inl e ↦
          rw (e, IfEnds)
            (>>=-IfEnds _ _ (again c b) _ (tries c b) λ m ((done, kept), settled).
              IfEnds-mono _ _ (push_child callback lru again hash c ps m)
                (λ d ((done', kept'), _). (
                  ((λ x h. done' x (done x h)), (λ x j h. kept' x j (kept x j h))),
                  (λ h. kept' c i settled),
                ))
                (push_child-IsSettled hash c ps m i))
      | inr e ↦
          rw (e, IfEnds)
            (IfEnds-mono _ _ (push_child callback lru again hash c ps b)
              (λ d (kept, settled). (
                kept,
                (λ h. elim h [
                  | inl same ↦ let t = (==_iff p hash).1 (sym same) in cc
                  | inr rest ↦ settled rest
                ]),
              ))
              (push_child-IsSettled hash c ps b i))
    ]

    push_children-IsSettled :
        (hash : ℕ) (cs : List EventHeaderData) (b : EventBuffer S L)
        → ((c : EventHeaderData) → IsAmong c cs → IsAmong c all)
        → IfEnds
            (λ d.
              Kept callback all b d
              × ((c : EventHeaderData)
                  → IsAmong c cs
                  → Holds hash c.parents
                  → IsSettled callback d c))
            (push_children callback lru again hash cs b)
    unfolding push_children
    push_children-IsSettled hash [] b i = (((λ x h. h), (λ x j h. h)), (λ c h. absurd h))
    push_children-IsSettled hash (c ∷ cs) b i =
        >>=-IfEnds _ _ (push_child callback lru again hash c c.parents b) _
          (push_child-IsSettled hash c c.parents b (i c (inl refl)))
          λ m ((done, kept), settled).
            IfEnds-mono _ _ (push_children callback lru again hash cs m)
              (λ d ((done', kept'), rest). (
                ((λ x h. done' x (done x h)), (λ x j h. kept' x j (kept x j h))),
                (λ x among h. elim among [
                  | inl same ↦
                      subst (λ y. IsSettled callback d y) (sym same)
                        (kept' c (i c (inl refl))
                          (settled (subst (λ y. Holds hash y.parents) same h)))
                  | inr later ↦ rest x later h
                ]),
              ))
              (push_children-IsSettled hash cs m (λ x j. i x (inr j)))

    connect-IsSettled :
        (e : EventHeaderData) (parents : List EventHeaderData) (b : EventBuffer S L)
        → IfEnds
            (λ d. Kept callback all b d × IsSettled callback d e)
            (connect callback lru again e parents all b)
    unfolding connect drop
    connect-IsSettled e parents b = elim (Bool-cases (callback.check e parents)) [
      | inl c ↦ elim (Bool-cases (callback.process b.state e).1) [
        | inl o ↦
            rw (c, o, IfEnds)
              (IfEnds-mono _ _ (push_children callback lru again e.hash all _)
                (λ d ((done, kept), retried). (
                  (
                    (λ x h. done x (go_on x h)),
                    (λ x among h. elim h [
                      | inl finished ↦ inl (done x (go_on x finished))
                      | inr waits ↦
                          elim (process-Missing callback b.state e x.parents connecting waits) [
                            | inl m ↦ kept x among (inr m)
                            | inr (_, here) ↦ retried x among here
                          ]
                    ]),
                  ),
                  inl (done e (inl (connecting.connected b.state e o))),
                ))
                (push_children-IsSettled e.hash all _ (λ x j. j)))
        | inr o ↦
            rw (c, o, IfEnds)
              (
                (
                  (λ x h. elim h [
                    | inl is ↦ inl (connecting.kept b.state e x.hash is)
                    | inr d ↦ inr (inr d)
                  ]),
                  (λ x among h. elim h [
                    | inl (inl is) ↦ inl (inl (connecting.kept b.state e x.hash is))
                    | inl (inr d) ↦ inl (inr (inr d))
                    | inr waits ↦
                        elim (process-Missing callback b.state e x.parents connecting waits) [
                          | inl m ↦ inr m
                          | inr (ok, _) ↦ cc
                        ]
                  ]),
                ),
                inl (inr (inl refl)),
              )
      ]
      | inr c ↦
          rw (c, IfEnds)
            (
              (
                (λ x h. elim h [ inl is ↦ inl is | inr d ↦ inr (inr d) ]),
                (λ x among h. elim h [
                  | inl (inl is) ↦ inl (inl is)
                  | inl (inr d) ↦ inl (inr (inr d))
                  | inr waits ↦ inr waits
                ]),
              ),
              inl (inr (inl refl)),
            )
    ]
      where
        go_on :
            (x : EventHeaderData)
            → IsDone callback b x
            → (callback.exists (callback.process b.state e).0 x.hash ≡ true) ⊎ IsDropped x b.calls
        go_on x (inl is) = inl (connecting.kept b.state e x.hash is)
        go_on x (inr d) = inr d

  pub push_event-IsSettled :
      (fuel : ℕ) (strict : Bool) (e : EventHeaderData) (b : EventBuffer S L)
      → IfEnds
          (λ d. Kept callback all b d × IsSettled callback d e)
          (push_event callback lru fuel all strict e b)
  unfolding push_event drop
  push_event-IsSettled zero strict e b = tt
  push_event-IsSettled (suc fuel) strict e b = elim (Bool-cases (callback.exists b.state e.hash)) [
    | inl x ↦ rw (x, IfEnds) (quiet x strict)
    | inr x ↦ elim (Option-cases (get_parents callback lru b.state b.incompletes e.parents).1) [
      | inl g ↦
          rw (x, g, IfEnds)
            (
              ((λ y h. h), (λ y j h. h)),
              inr (get_parents-Missing b.state b.incompletes e.parents g),
            )
      | inr (parents, g) ↦
          rw (x, g, IfEnds)
            (connect-IsSettled (push_event callback lru fuel all false)
              (push_event-IsSettled fuel false) e parents
              (record b {
                incompletes = (get_parents callback lru b.state b.incompletes e.parents).0;
              }))
    ]
  ]
    where
      quiet :
          callback.exists b.state e.hash ≡ true
          → (t : Bool)
          → Kept callback all b (if t then drop callback lru b e else b)
            × IsSettled callback (if t then drop callback lru b e else b) e
      quiet x true = (
        (
          (λ y h. elim h [ inl is ↦ inl is | inr d ↦ inr (inr d) ]),
          (λ y among h. elim h [
            | inl (inl is) ↦ inl (inl is)
            | inl (inr d) ↦ inl (inr (inr d))
            | inr waits ↦ inr waits
          ]),
        ),
        inl (inl x),
      )
      quiet x false = (((λ y h. h), (λ y j h. h)), inl (inl x))
