-- ===== src/Kvdb/Iterator/Least.antt =====
-- `Next`: it ends, at the first pair after the last one.
use lachesis_ex.Prelude.{
  ℕ, zero, suc, ◌+◌, ◌≤◌, ◌<◌, ◌≡◌, ◌≢◌, ◌⊎◌, inl, inr, refl, sym, ap, ap₂, ◌∙◌, Bool, true, false,
  List, [], ◌∷◌, Option, none, some, ◌||◌, arith, Bool-cases, length,
}
use mathlib.Core.Path.{subst}
use lachesis_ex.Kvdb.{Bytes, Write}
use lachesis_ex.Kvdb.Writes.{over}
use lachesis_ex.Kvdb.Order.{find_key}
use lachesis_ex.Kvdb.Iterator.{Iterator, is_after, tree_loop, visit_parent, is_left, next_loop}
use lachesis_ex.Kvdb.Iterator.Follows.{IsWanted, Follows}
use lachesis_ex.Kvdb.Iterator.Visits.{Found, Outcome}
use lachesis_ex.Kvdb.Iterator.Pairs.{visit_parent-Outcome}
use lachesis_ex.Kvdb.Iterator.Loop.{size, Ready, tree_loop-LoopEnd}

less_of : (a b c : ℕ) → a ≤ b → (b ≢ 0 → a < b) → b ≤ c → 0 < c → a < c
less_of a zero c h less k pos = omega arith
less_of a (suc b) c h less k pos =
    let below : a < suc b = less (λ e. absurd (omega arith)) in omega arith

module _ (contents : Bytes → Option Bytes) (start prefix : Option Bytes)
    (fits : (prefix ≡ none) ⊎ (start ≡ prefix)) where
  -- The pair of the database, after the inner loop has found nothing.
  record PairEnd (last : Option Bytes) (it : Iterator) (r : Bool × Iterator) : Type 0 where
    outcome : Outcome contents start prefix fits last r
    not_more : size r.1 ≤ size it
    fewer : size it ≢ 0 → size r.1 < size it

  visit_parent-fewer :
      (it : Iterator) (i w : Bytes) (later : List (Bytes × Bytes))
      → (length (visit_parent ((i, w) ∷ later) it).1.parent ≤ length later)
        × ((visit_parent ((i, w) ∷ later) it).1.nodes ≡ it.nodes)
  unfolding visit_parent
  visit_parent-fewer it i w later = ground arith

  visit_parent-PairEnd :
      (ps : List (Bytes × Bytes)) (it : Iterator) (last : Option Bytes)
      → it.parent ≡ ps
      → Follows contents start prefix it last
      → Ready it.parent it.nodes
      → PairEnd last it (visit_parent ps it)
  unfolding visit_parent
  visit_parent-PairEnd [] it last e f ready = record {
    outcome = f;
    not_more = omega arith;
    fewer = λ h.
        let empty : it.nodes ≡ [] = subst (λ ps. Ready ps it.nodes) e ready in
        absurd (h (omega (arith, ap length e, ap length empty)));
  }
  visit_parent-PairEnd ((i, w) ∷ later) it last e f ready =
      let (short, same) = visit_parent-fewer it i w later in
      record {
        outcome =
            visit_parent-Outcome contents start prefix fits it last i w later f e
              (subst (λ ps. Ready ps it.nodes) e ready);
        not_more = omega (arith, short, ap length same, ap length e);
        fewer = λ h. omega (arith, short, ap length same, ap length e);
      }

  -- Nothing is left after the last key.
  abbrev pub Exhausted : Option Bytes → Type 0
  Exhausted last =
      (j : Bytes) → IsWanted start prefix j → is_after last j ≡ true → contents j ≡ none

  abbrev pub NextEnd : Option Bytes → Iterator → Bool × Iterator → Type 0
  NextEnd last it (true, next) = Found contents start prefix fits last next × (size next < size it)
  NextEnd last it (false, next) = Exhausted last

  nothing_left :
      (it : Iterator) (last : Option Bytes)
      → Follows contents start prefix it last
      → it.nodes ≡ []
      → it.parent ≡ []
      → Exhausted last
  unfolding find_key
  nothing_left it last f n p j w h = elim (Bool-cases (is_after it.prev_key j)) [
    | inr q ↦ f.passed j w h q
    | inl q ↦ sym (f.reads j w q) ∙ ap₂ over (ap (find_key j) n) (ap (find_key j) p)
  ]

  is_left-nil : {V : Type 0} (es : List (Bytes × V)) → is_left es ≡ false → es ≡ []
  is_left-nil [] h = refl
  is_left-nil (e ∷ es) h = absurd (ground arith)

  is_left-size : (it : Iterator) → is_left it.nodes || is_left it.parent ≡ true → 0 < size it
  is_left-size it h = go it.nodes it.parent h
    where
      go :
          (ns : List Write) (ps : List (Bytes × Bytes))
          → is_left ns || is_left ps ≡ true
          → 0 < length ns + length ps
      go [] [] h = absurd (ground arith)
      go [] (p ∷ ps) h = omega arith
      go (n ∷ ns) ps h = omega arith

  NextEnd-fewer :
      (last : Option Bytes) (it smaller : Iterator) (r : Bool × Iterator)
      → size smaller < size it
      → NextEnd last smaller r
      → NextEnd last it r
  NextEnd-fewer last it smaller (true, next) h (found, less) = (found, omega arith)
  NextEnd-fewer last it smaller (false, next) h end = end

  pub next_loop-NextEnd :
      (fuel : ℕ) (it : Iterator) (last : Option Bytes)
      → Follows contents start prefix it last
      → size it < fuel
      → (r : Bool × Iterator) × (next_loop fuel it ≡ some r) × NextEnd last it r
  unfolding next_loop
  next_loop-NextEnd zero it last f h = absurd (omega arith)
  next_loop-NextEnd (suc fuel) it last f h =
      elim (Bool-cases (is_left it.nodes || is_left it.parent)) [
        | inr b ↦ (
          (false, it),
          rw (b, next_loop) refl,
          nothing_left it last f (is_left-nil it.nodes (ground arith))
              (is_left-nil it.parent (ground arith)),
        )
        | inl b ↦
            let r = tree_loop it.nodes it in
            let loop = tree_loop-LoopEnd contents start prefix fits it.nodes it last f (inl refl) in
            elim (Bool-cases r.0) [
              | inl g ↦ (
                (true, r.1),
                rw (b, next_loop) (rw (g, next_loop) refl),
                (
                  subst (λ t. Outcome contents start prefix fits last (t, r.1)) g loop.outcome,
                  omega (arith, loop.fewer_found g, ap length loop.same_parent),
                ),
              )
              | inr g ↦
                  let q = visit_parent r.1.parent r.1 in
                  let pair =
                    visit_parent-PairEnd r.1.parent r.1 last refl
                      (subst (λ t. Outcome contents start prefix fits last (t, r.1)) g loop.outcome)
                      (loop.is_ready g) in
                  let less : size q.1 < size it =
                    less_of (size q.1) (size r.1) (size it) pair.not_more pair.fewer
                      (omega (arith, loop.fewer, ap length loop.same_parent)) (is_left-size it b) in
                  elim (Bool-cases q.0) [
                    | inl d ↦ (
                      (true, q.1),
                      rw (b, next_loop) (rw (g, next_loop) (rw (d, next_loop) refl)),
                      (
                        subst (λ t. Outcome contents start prefix fits last (t, q.1)) d
                            pair.outcome,
                        less,
                      ),
                    )
                    | inr d ↦
                        let (end, is, ends) =
                          next_loop-NextEnd fuel q.1 last
                            (subst (λ t. Outcome contents start prefix fits last (t, q.1)) d
                              pair.outcome)
                            (omega arith) in
                        (
                          end,
                          rw (b, next_loop) (rw (g, next_loop) (rw (d, next_loop) is)),
                          NextEnd-fewer last it q.1 end less ends,
                        )
                  ]
            ]
      ]
