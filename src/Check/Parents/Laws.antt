-- ===== src/Check/Parents/Laws.antt =====
-- What an event that passes the parents check has: its place in its creator's chain.
use mathlib.Core.Path.{subst₂}
use lachesis_ex.Prelude.{
  ℕ, ◌+◌, ◌-◌, ◌%◌, ◌≤◌, ◌<◌, ◌≡◌, ◌≢◌, refl, ap, ◌∙◌, Bool, true, false, List, [], ◌∷◌, none, some,
  length, leb, ◌==◌, arith, word32, Bool-cases, Option-cases, ◌⊎◌, inl, inr,
}
use lachesis_ex.Inter.{EventHeaderData, self_parent, is_self_parent, max_of}
use lachesis_ex.Check.Parents.{
  Verdict, CheckError, passes, panics, fails, ◌then_check◌, unless, max_lamport, contains, set_size,
  same, check_self_parents, check_seq, validate_parents, wrong_lamport, double_parents,
  wrong_self_parent, wrong_seq,
}

abbrev pub All {ℓ κ} : {A : Type ℓ} → (A → Type κ) → List A → Type κ
All P [] = Unit
All P (x ∷ xs) = P x × All P xs

then_check-passes : (v w : Verdict) → v then_check w ≡ passes → (v ≡ passes) × (w ≡ passes)
then_check-passes passes w h = (refl, h)
then_check-passes panics w h = cc
then_check-passes (fails e) w h = cc

unless-passes : (b : Bool) (e : CheckError) → unless b e ≡ passes → b ≡ true
unless-passes true e h = refl
unless-passes false e h = cc

max_lamport-ge : (m : ℕ) (ps : List EventHeaderData) → m ≤ max_lamport m ps
unfolding max_lamport
max_lamport-ge m [] = omega arith
max_lamport-ge m (p ∷ ps) = ground (arith, max_lamport-ge (max_of m p.lamport) ps)

-- The parents are not above the greatest Lamport time.
max_lamport-bounds :
    (m : ℕ) (ps : List EventHeaderData) → All (λ p. p.lamport ≤ max_lamport m ps) ps
unfolding max_lamport
max_lamport-bounds m [] = tt
max_lamport-bounds m (p ∷ ps) = (
  ground (arith, max_lamport-ge (max_of m p.lamport) ps),
  max_lamport-bounds (max_of m p.lamport) ps,
)

max_lamport-lt :
    (m k : ℕ) (ps : List EventHeaderData)
    → m < k
    → All (λ p. p.lamport < k) ps
    → max_lamport m ps < k
unfolding max_lamport
max_lamport-lt m k [] h a = h
max_lamport-lt m k (p ∷ ps) h a = max_lamport-lt (max_of m p.lamport) k ps (ground arith) a.1

All-map {ℓ κ κ'} :
    {A : Type ℓ} {P : A → Type κ} {Q : A → Type κ'} (xs : List A)
    → ((x : A) → P x → Q x)
    → All P xs
    → All Q xs
All-map [] f a = tt
All-map (x ∷ xs) f a = (f x a.0, All-map xs f a.1)

set_size-le : (xs : List ℕ) → set_size xs ≤ length xs
unfolding set_size
set_size-le [] = omega arith
set_size-le (x ∷ xs) = ground (arith, set_size-le xs)

-- No id of the list stands in it twice.
abbrev pub NoDouble : List ℕ → Type 0
NoDouble [] = Unit
NoDouble (x ∷ xs) = (contains x xs ≡ false) × NoDouble xs

set_size-NoDouble : (xs : List ℕ) → set_size xs ≡ length xs → NoDouble xs
unfolding set_size
set_size-NoDouble [] h = tt
set_size-NoDouble (x ∷ xs) h = ground (arith, set_size-le xs, set_size-NoDouble xs)

-- The chain of the creator's events: the event follows its self-parent, which stands first,
-- and no other parent is of the creator.
abbrev pub Follows : EventHeaderData → List EventHeaderData → Type 0
Follows e [] = ⊥
Follows e (p ∷ ps) =
    (p.creator ≡ e.creator)
    × (self_parent e ≡ some p.hash)
    × (e.seq ≡ (p.seq + 1) % word32)
    × (p.claimed_time < e.claimed_time)
    × All (λ q. q.creator ≢ e.creator) ps

same-eq : (a b : Bool) → same a b ≡ true → a ≡ b
unfolding same
same-eq true b h = ground arith
same-eq false true h = cc
same-eq false false h = refl

check_self_parents-cons :
    (e : EventHeaderData) (h : ℕ) (hs : List ℕ) (p : EventHeaderData) (ps : List EventHeaderData)
    → check_self_parents e (h ∷ hs) (p ∷ ps) ≡ passes
    → ((p.creator == e.creator) ≡ is_self_parent e h) × (check_self_parents e hs ps ≡ passes)
unfolding check_self_parents
check_self_parents-cons e h hs p ps c =
    let b = same (p.creator == e.creator) (is_self_parent e h) in
    let (first, rest) =
      then_check-passes (unless b wrong_self_parent) (check_self_parents e hs ps) c in
    (same-eq _ _ (unless-passes b wrong_self_parent first), rest)

is_self_parent-of_some :
    (e : EventHeaderData) (h k : ℕ) → self_parent e ≡ some h → is_self_parent e k ≡ (h == k)
unfolding is_self_parent
is_self_parent-of_some e h k s = rw (s, is_self_parent)

is_self_parent-of_none :
    (e : EventHeaderData) (k : ℕ) → self_parent e ≡ none → is_self_parent e k ≡ false
unfolding is_self_parent
is_self_parent-of_none e k s = rw (s, is_self_parent)

-- Parents that are not the self-parent are of other creators.
others-differ :
    (e : EventHeaderData) (h : ℕ) (hs : List ℕ) (ps : List EventHeaderData)
    → length hs ≡ length ps
    → self_parent e ≡ some h
    → contains h hs ≡ false
    → check_self_parents e hs ps ≡ passes
    → All (λ q. q.creator ≢ e.creator) ps
unfolding contains
others-differ e h [] [] l s n c = tt
others-differ e h [] (p ∷ ps) l s n c = absurd (omega arith)
others-differ e h (k ∷ ks) [] l s n c = tt
others-differ e h (k ∷ ks) (p ∷ ps) l s n c =
    let (first, rest) = check_self_parents-cons e k ks p ps c in
    let not_self = is_self_parent-of_some e h k s in
    (λ q. ground arith, others-differ e h ks ps (omega arith) s (ground arith) rest)

nobody-own :
    (e : EventHeaderData) (hs : List ℕ) (ps : List EventHeaderData)
    → length hs ≡ length ps
    → self_parent e ≡ none
    → check_self_parents e hs ps ≡ passes
    → All (λ q. q.creator ≢ e.creator) ps
nobody-own e [] [] l s c = tt
nobody-own e [] (p ∷ ps) l s c = absurd (omega arith)
nobody-own e (k ∷ ks) [] l s c = tt
nobody-own e (k ∷ ks) (p ∷ ps) l s c =
    let (first, rest) = check_self_parents-cons e k ks p ps c in
    let not_self = is_self_parent-of_none e k s in
    (λ q. ground arith, nobody-own e ks ps (omega arith) s rest)

-- The parents of an event that passes.
pub record WellParented (e : EventHeaderData) (parents : List EventHeaderData) : Type 0 where
  pub above : All (λ p. p.lamport < e.lamport) parents
  pub single : NoDouble e.parents
  pub chain :
      ((e.seq ≤ 1) × All (λ p. p.creator ≢ e.creator) parents) ⊎ ((1 < e.seq) × Follows e parents)

against-inv :
    (e : EventHeaderData) (h : ℕ) (parents : List EventHeaderData)
    → self_parent e ≡ some h
    → check_seq e parents (some h) ≡ passes
    → (p : EventHeaderData) × (ps : List EventHeaderData) × (parents ≡ p ∷ ps)
      × (1 < e.seq)
      × (h ≡ p.hash)
      × (e.seq ≡ (p.seq + 1) % word32)
      × (p.claimed_time < e.claimed_time)
unfolding check_seq
against-inv e h [] s c = ground arith
against-inv e h (p ∷ ps) s c = (
  p,
  ps,
  refl,
  ground arith,
  ground (arith, is_self_parent-of_some e h p.hash s),
  ground arith,
  ground arith,
)

seq_of_parents :
    (e : EventHeaderData) (h : ℕ) → self_parent e ≡ some h → (t : List ℕ) × (e.parents ≡ h ∷ t)
unfolding self_parent
seq_of_parents e h s = ground arith

follows :
    (e : EventHeaderData) (h : ℕ) (hs : List ℕ) (p : EventHeaderData) (ps : List EventHeaderData)
    → self_parent e ≡ some h
    → h ≡ p.hash
    → e.seq ≡ (p.seq + 1) % word32
    → p.claimed_time < e.claimed_time
    → length (h ∷ hs) ≡ length (p ∷ ps)
    → NoDouble (h ∷ hs)
    → check_self_parents e (h ∷ hs) (p ∷ ps) ≡ passes
    → Follows e (p ∷ ps)
follows e h hs p ps s id next later l n c =
    let (first, rest) = check_self_parents-cons e h hs p ps c in
    (
      ground (arith, is_self_parent-of_some e h h s),
      s ∙ ap some id,
      next,
      later,
      others-differ e h hs ps (omega arith) s n.0 rest,
    )

-- The four checks, one by one.
validate-inv :
    (e : EventHeaderData) (parents : List EventHeaderData)
    → validate_parents e parents ≡ passes
    → (length e.parents ≡ length parents)
      × (e.lamport ≡ (max_lamport 0 parents + 1) % word32)
      × (set_size e.parents ≡ length e.parents)
      × (check_self_parents e e.parents parents ≡ passes)
      × (check_seq e parents (self_parent e) ≡ passes)
unfolding validate_parents
validate-inv e parents h = elim (Bool-cases (length e.parents == length parents)) [
  | inr n ↦ absurd (clash (rw n at h))
  | inl same ↦
      let lamport = unless (e.lamport == (max_lamport 0 parents + 1) % word32) wrong_lamport in
      let single = unless (set_size e.parents == length e.parents) double_parents in
      let selves = check_self_parents e e.parents parents in
      let (abc, d) =
        then_check-passes (lamport then_check single then_check selves)
          (check_seq e parents (self_parent e)) (rw same at h) in
      let (ab, c) = then_check-passes (lamport then_check single) selves abc in
      let (a, b) = then_check-passes lamport single ab in
      (
        ground arith,
        ground (arith, unless-passes _ wrong_lamport a),
        ground (arith, unless-passes _ double_parents b),
        c,
        d,
      )
]
  where
    clash : panics ≡ passes → ⊥
    clash q = cc

-- An event passes the parents check only if it is above all its parents in Lamport time, has no
-- parent twice, and either starts its creator's chain, with no parent of that creator, or follows
-- its self-parent by one in sequence and later in time, with no other parent of its creator.
-- The Lamport times of the parents are taken to leave room for one more.
pub validate_parents-WellParented :
    (e : EventHeaderData) (parents : List EventHeaderData)
    → All (λ p. p.lamport < word32 - 1) parents
    → validate_parents e parents ≡ passes
    → WellParented e parents
validate_parents-WellParented e parents room h =
    let (l, lam, size, selves, seq) = validate-inv e parents h in
    let top = max_lamport-lt 0 (word32 - 1) parents (omega arith) room in
    record {
      above = All-map parents (λ p b. omega arith) (max_lamport-bounds 0 parents);
      single = set_size-NoDouble e.parents size;
      chain = elim (Option-cases (self_parent e)) [
        | inl s ↦ inl (first_of_seq (rw s at seq), nobody-own e e.parents parents l s selves)
        | inr (id, s) ↦
            let (p, ps, shape, more, same_id, next, later) =
              against-inv e id parents s (rw s at seq) in
            let (ids, stored) = seq_of_parents e id s in
            inr (
              more,
              rw shape (
                  follows e id ids p ps s same_id next later (rw (stored, shape) at l)
                    (rw stored at (set_size-NoDouble e.parents size))
                    (subst₂ (λ x y. check_self_parents e x y ≡ passes) stored shape selves)),
            )
      ];
    }
  where
    first_of_seq : check_seq e parents none ≡ passes → e.seq ≤ 1
    first_of_seq q = ground (arith, unless-passes (leb e.seq 1) wrong_seq (unfold check_seq in q))
