-- ===== src/Poset/Decide/Meant.antt =====
-- Which of the events that are walked over `confirmBlock` collects.
use lachesis_ex.Prelude.{
  ℕ, ◌-◌, ◌≤◌, ◌≡◌, ◌↔◌, inl, inr, refl, sym, ap, ◌∙◌, Bool, true, List, [], ◌∷◌, ◌++◌, map, filter,
  none, some, ◌==◌, if◌then◌else◌, ◌&&◌, not, leb, arith, Holds, Bool-cases, Option-cases, ==_iff,
}
use mathlib.Core.Path.{subst}
use mathlib.Core.Option.{some-injective}
use lachesis_ex.Prelude.Sort.{insert_sorted, sort}
use lachesis_ex.Prelude.Assoc.{lookup}
use lachesis_ex.Inter.{EventHeaderData}
use lachesis_ex.Pos.{Validators, get_idx}
use lachesis_ex.Vector.Clock.{
  BranchSeq, before_seq_get, is_fork_detected, IsFork, IsFork-is_fork_detected,
}
use lachesis_ex.Poset.Ordering.{before}
use lachesis_ex.Poset.Confirm.{Headers}
use lachesis_ex.Poset.Confirm.Ancestors.{has, AllStored, fold_calls}
use lachesis_ex.Poset.Decide.{Application, Collected, nothing, seq_depth, is_included, collect}

has-append :
    (id : ℕ) (l : List EventHeaderData) (e : EventHeaderData)
    → has id (l ++ e ∷ []) ≡ (if e.hash == id then true else has id l)
has-append id [] e = refl
has-append id (x ∷ l) e = ground (arith, has-append id l e)

has-insert_sorted :
    (id : ℕ) (e : EventHeaderData) (l : List EventHeaderData)
    → has id (insert_sorted before e l) ≡ (if e.hash == id then true else has id l)
has-insert_sorted id e [] = refl
has-insert_sorted id e (x ∷ l) = ground (arith, has-insert_sorted id e l)

pub has-sort : (id : ℕ) (l : List EventHeaderData) → has id (sort before l) ≡ has id l
has-sort id [] = refl
has-sort id (e ∷ l) = ground (arith, has-insert_sorted id e (sort before l), has-sort id l)

pub Holds-map_hash :
    (id : ℕ) (l : List EventHeaderData) → Holds id (map (λ e. e.hash) l) ↔ (has id l ≡ true)
Holds-map_hash id [] = (λ h. absurd h, λ h. ground arith)
Holds-map_hash id (e ∷ l) = (
  λ h. elim h [ inl q ↦ ground arith | inr q ↦ ground (arith, (Holds-map_hash id l).0 q) ],
  λ h. elim (Bool-cases (e.hash == id)) [
    | inl q ↦ inl (sym ((==_iff e.hash id).0 q))
    | inr q ↦ inr ((Holds-map_hash id l).1 (rw q at h))
  ],
)

-- The entry of the event's creator in a vector.
abbrev pub entry_of : Validators → List ℕ → EventHeaderData → BranchSeq
entry_of vv vector e = before_seq_get vector (get_idx vv e.creator)

-- The events that belong into the block of an Atropos with this vector: of creators without a
-- fork in it, not above what it shows of them, and that the application lets in at their depth.
abbrev pub IsMeant : Application → Validators → List ℕ → EventHeaderData → Type 0
IsMeant app vv vector e =
    (¬ IsFork (entry_of vv vector e))
    × (e.seq ≤ (entry_of vv vector e).seq)
    × (app.is_allowed e ((entry_of vv vector e).seq - e.seq) ≡ true)

-- That as a test.
pub meant : Application → Validators → List ℕ → EventHeaderData → Bool
meant app vv vector e =
    not (is_fork_detected (entry_of vv vector e))
    && (leb e.seq (entry_of vv vector e).seq
        && app.is_allowed e ((entry_of vv vector e).seq - e.seq))

pub meant-IsMeant :
    (app : Application) (vv : Validators) (vector : List ℕ) (e : EventHeaderData)
    → (meant app vv vector e ≡ true) ↔ IsMeant app vv vector e
unfolding meant
meant-IsMeant app vv vector e =
    let (mark, marked) = IsFork-is_fork_detected (entry_of vv vector e) in
    (λ h. (λ f. let q = mark f in ground arith, ground arith, ground arith), from marked)
  where
    from :
        (is_fork_detected (entry_of vv vector e) ≡ true → IsFork (entry_of vv vector e))
        → IsMeant app vv vector e
        → meant app vv vector e ≡ true
    from marked (honest, below, allowed) =
        elim (Bool-cases (is_fork_detected (entry_of vv vector e))) [
          | inl q ↦ absurd (honest (marked q))
          | inr q ↦ ground arith
        ]

module _ (app : Application) (vv : Validators) (vector : List ℕ) where
  -- The filter of the code, where its sanity check passes.
  is_included-meant :
      (c d : Collected) (e : EventHeaderData)
      → collect app vv vector (some c) e ≡ some d
      → is_included app vv vector e ≡ meant app vv vector e
  unfolding collect meant is_included seq_depth
  is_included-meant c d e h = ground arith

  -- One call of the callback that is not fatal.
  collect-some :
      (c d : Collected) (e : EventHeaderData) (id : ℕ)
      → collect app vv vector (some c) e ≡ some d
      → has id d.events ≡ (if meant app vv vector e && e.hash == id then true else has id c.events)
  unfolding collect
  collect-some c d e id h = elim (Bool-cases (is_included app vv vector e)) [
    | inl q ↦ ground (arith, has-append id c.events e, is_included-meant c d e h)
    | inr q ↦ ground (arith, is_included-meant c d e h)
  ]

  collect-none : (e : EventHeaderData) → collect app vv vector none e ≡ none
  unfolding collect
  collect-none e = refl

  -- What is collected are the meant ones of the events walked over.
  pub has-collect :
      (news : List EventHeaderData) (c : Collected) (id : ℕ)
      → fold_calls (collect app vv vector) (some nothing) news ≡ some c
      → has id c.events ≡ has id (filter (meant app vv vector) news)
  has-collect [] c id h = ground arith
  has-collect (n ∷ ns) c id h =
      elim (Option-cases (fold_calls (collect app vv vector) (some nothing) ns)) [
        | inl q ↦ absurd (ground (arith, collect-none n, rw q at h))
        | inr (d, q) ↦ ground (arith, has-collect ns d id q, collect-some d c n id (rw q at h))
      ]

-- An entry of a part is a stored event that passes the part's test.
pub has-filter :
    (headers : Headers) (p : EventHeaderData → Bool) (id : ℕ) (l : List EventHeaderData)
    → AllStored headers l
    → has id (filter p l) ≡ true
    → (has id l ≡ true) × (h : EventHeaderData) × (lookup id headers ≡ some h) × (p h ≡ true)
has-filter headers p id [] a h = absurd (ground arith)
has-filter headers p id (n ∷ ns) (own, rest) h = elim (Bool-cases (n.hash == id)) [
  | inl e ↦ elim (Bool-cases (p n)) [
    | inl q ↦
        (ground arith, n, subst (λ k. lookup k headers ≡ some n) ((==_iff n.hash id).0 e) own, q)
    | inr q ↦
        let (_, x, l, own) = has-filter headers p id ns rest (rw q at h) in
        (ground arith, x, l, own)
  ]
  | inr e ↦
      let (inside, x, l, q) = has-filter headers p id ns rest (ground arith) in
      (ground arith, x, l, q)
]

pub has-filter_of :
    (headers : Headers) (p : EventHeaderData → Bool) (id : ℕ) (l : List EventHeaderData)
    (h : EventHeaderData)
    → AllStored headers l
    → has id l ≡ true
    → lookup id headers ≡ some h
    → p h ≡ true
    → has id (filter p l) ≡ true
has-filter_of headers p id [] h a i l q = ground arith
has-filter_of headers p id (n ∷ ns) h (own, rest) i l q = elim (Bool-cases (n.hash == id)) [
  | inl e ↦
      let same : h ≡ n =
        some-injective h n
          (sym l ∙ sym (ap (λ k. lookup k headers) ((==_iff n.hash id).0 e)) ∙ own) in
      let kept : p n ≡ true = sym (ap p same) ∙ q in ground arith
  | inr e ↦ ground (arith, has-filter_of headers p id ns h rest (rw e at i) l q)
]
