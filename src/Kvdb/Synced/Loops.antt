-- ===== src/Kvdb/Synced/Loops.antt =====
-- The loops of the pool: what they keep of each cache, wherever they end.
use lachesis_ex.Prelude.{ℕ, ◌≡◌, refl, ap, List, [], ◌∷◌, arith}
use mathlib.Core.List.{Permᴰ}
use mathlib.Core.List.Permᴰ
use mathlib.Core.Path.{subst}
use lachesis_ex.Kvdb.{Reply, reply, closed, nil_argument, store_error, panics, Tree, Store}
use lachesis_ex.Kvdb.Synced.{LazyFlushable, go_on, each, then_each}

-- A predicate on all entries of a map.
abbrev pub All {ℓ} : {A : Type ℓ} → (ℕ → A → Type 0) → List (ℕ × A) → Type 0
All P [] = Unit
All P ((name, a) ∷ ws) = P name a × All P ws

pub All-weaken :
    {A : Type 0} (P Q : ℕ → A → Type 0)
    → ((name : ℕ) (a : A) → P name a → Q name a)
    → (ws : List (ℕ × A)) → All P ws
    → All Q ws
All-weaken P Q f [] all = tt
All-weaken P Q f ((name, a) ∷ ws) (first, all) = (f name a first, All-weaken P Q f ws all)

-- It does not depend on the order.
pub All-perm :
    {A : Type 0} (P : ℕ → A → Type 0) {ws vs : List (ℕ × A)} → Permᴰ ws vs → All P ws → All P vs
All-perm P Permᴰ.nil all = tt
All-perm P (Permᴰ.cons e p) (first, all) =
    (subst (λ (x : ℕ × _). P x.0 x.1) e first, All-perm P p all)
All-perm P (Permᴰ.swap e f) (first, (second, all)) =
    (subst (λ (x : ℕ × _). P x.0 x.1) f second, (subst (λ (x : ℕ × _). P x.0 x.1) e first, all))
All-perm P (Permᴰ.trans p q) all = All-perm P q (All-perm P p all)

-- The names of the entries.
unfoldable pub names : {A : Type 0} → List (ℕ × A) → List ℕ
names [] = []
names ((name, a) ∷ ws) = name ∷ names ws

pub Permᴰ-names : {A : Type 0} {ws vs : List (ℕ × A)} → Permᴰ ws vs → Permᴰ (names ws) (names vs)
unfolding names
Permᴰ-names Permᴰ.nil = Permᴰ.nil
Permᴰ-names (Permᴰ.cons e p) = Permᴰ.cons (ap (λ (x : ℕ × _). x.0) e) (Permᴰ-names p)
Permᴰ-names (Permᴰ.swap e f) = Permᴰ.swap (ap (λ (x : ℕ × _). x.0) e) (ap (λ (x : ℕ × _). x.0) f)
Permᴰ-names (Permᴰ.trans p q) = Permᴰ.trans (Permᴰ-names p) (Permᴰ-names q)

module _ {T D : Type 0} (tree : Tree T) (store : Store D) (ideal : ℕ) where
  -- Where a body takes `Before` to `Done`, or to `Stopped` when it ends with an error, so does the
  -- loop.
  module _ (body : LazyFlushable T D → LazyFlushable T D × Reply Unit)
      (Before Stopped Done : ℕ → LazyFlushable T D → Type 0)
      (stops : (name : ℕ) (w : LazyFlushable T D) → Before name w → Stopped name (body w).0)
      (does : (name : ℕ) (w : LazyFlushable T D)
        → Before name w
        → (body w).1 ≡ reply tt
        → Done name (body w).0)
      (unchanged : (name : ℕ) (w : LazyFlushable T D) → Before name w → Stopped name w) where
    go_on-All :
        (name : ℕ) (next : LazyFlushable T D) (end : Reply Unit) (ws : List (ℕ × LazyFlushable T D))
        (rest : List (ℕ × LazyFlushable T D) × Reply Unit)
        → Stopped name next
        → (end ≡ reply tt → Done name next)
        → All Stopped ws
        → All Stopped rest.0 × (rest.1 ≡ reply tt → All Done rest.0)
        → All Stopped (go_on tree store ideal (name, next) end ws rest).0
          × ((go_on tree store ideal (name, next) end ws rest).1 ≡ reply tt
              → All Done (go_on tree store ideal (name, next) end ws rest).0)
    unfolding go_on
    go_on-All name next (reply u) ws rest s d all (ss, ds) = ((s, ss), λ h. (d refl, ds h))
    go_on-All name next closed ws rest s d all r = ((s, all), λ h. absurd (ground arith))
    go_on-All name next nil_argument ws rest s d all r = ((s, all), λ h. absurd (ground arith))
    go_on-All name next store_error ws rest s d all r = ((s, all), λ h. absurd (ground arith))
    go_on-All name next panics ws rest s d all r = ((s, all), λ h. absurd (ground arith))

    pub each-All :
        (ws : List (ℕ × LazyFlushable T D))
        → All Before ws
        → All Stopped (each tree store ideal body ws).0
          × ((each tree store ideal body ws).1 ≡ reply tt
              → All Done (each tree store ideal body ws).0)
    unfolding each
    each-All [] all = (tt, λ h. tt)
    each-All ((name, w) ∷ ws) (first, all) =
        go_on-All name (body w).0 (body w).1 ws (each tree store ideal body ws) (stops name w first)
          (does name w first) (All-weaken Before Stopped unchanged ws all) (each-All ws all)

  -- The next loop goes on where the one before has done all, and else leaves what it left.
  pub then_each-ends :
      (order : List (ℕ × LazyFlushable T D) → List (ℕ × LazyFlushable T D))
      (body : LazyFlushable T D → LazyFlushable T D × Reply Unit)
      (Left Before Done : List (ℕ × LazyFlushable T D) → Type 0)
      (r : List (ℕ × LazyFlushable T D) × Reply Unit)
      → Left r.0 × (r.1 ≡ reply tt → Before r.0)
      → ((ws : List (ℕ × LazyFlushable T D))
          → Before ws
          → Left (each tree store ideal body (order ws)).0
            × ((each tree store ideal body (order ws)).1 ≡ reply tt
                → Done (each tree store ideal body (order ws)).0))
      → Left (then_each tree store ideal order body r).0
        × ((then_each tree store ideal order body r).1 ≡ reply tt
            → Done (then_each tree store ideal order body r).0)
  unfolding then_each
  then_each-ends order body L B E (ws, reply u) (l, b) f = f ws (b refl)
  then_each-ends order body L B E (ws, closed) (l, b) f = (l, λ h. absurd (ground arith))
  then_each-ends order body L B E (ws, nil_argument) (l, b) f = (l, λ h. absurd (ground arith))
  then_each-ends order body L B E (ws, store_error) (l, b) f = (l, λ h. absurd (ground arith))
  then_each-ends order body L B E (ws, panics) (l, b) f = (l, λ h. absurd (ground arith))

  go_on-names :
      (name : ℕ) (next : LazyFlushable T D) (end : Reply Unit) (ws : List (ℕ × LazyFlushable T D))
      (rest : List (ℕ × LazyFlushable T D) × Reply Unit)
      → names rest.0 ≡ names ws
      → names (go_on tree store ideal (name, next) end ws rest).0 ≡ name ∷ names ws
  unfolding go_on names
  go_on-names name next (reply u) ws rest e = ap (λ ns. name ∷ ns) e
  go_on-names name next closed ws rest e = refl
  go_on-names name next nil_argument ws rest e = refl
  go_on-names name next store_error ws rest e = refl
  go_on-names name next panics ws rest e = refl

  -- No cache is lost in a loop.
  each-names :
      (body : LazyFlushable T D → LazyFlushable T D × Reply Unit)
      (ws : List (ℕ × LazyFlushable T D))
      → names (each tree store ideal body ws).0 ≡ names ws
  unfolding each names
  each-names body [] = refl
  each-names body ((name, w) ∷ ws) =
      go_on-names name (body w).0 (body w).1 ws (each tree store ideal body ws) (each-names body ws)

  pub then_each-names :
      (order : List (ℕ × LazyFlushable T D) → List (ℕ × LazyFlushable T D))
      (body : LazyFlushable T D → LazyFlushable T D × Reply Unit)
      (r : List (ℕ × LazyFlushable T D) × Reply Unit) (ns : List ℕ)
      → ((ws : List (ℕ × LazyFlushable T D)) → Permᴰ ws (order ws))
      → Permᴰ (names r.0) ns
      → Permᴰ (names (then_each tree store ideal order body r).0) ns
  unfolding then_each
  then_each-names order body (ws, reply u) ns o p =
      rw (each-names body (order ws)) (Permᴰ.trans (Permᴰ-names (Permᴰ.symm (o ws))) p)
  then_each-names order body (ws, closed) ns o p = p
  then_each-names order body (ws, nil_argument) ns o p = p
  then_each-names order body (ws, store_error) ns o p = p
  then_each-names order body (ws, panics) ns o p = p
