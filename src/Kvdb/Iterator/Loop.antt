-- ===== src/Kvdb/Iterator/Loop.antt =====
-- The inner loop of `Next`, over the nodes of the cache.
use lachesis_ex.Prelude.{
  ℕ, ◌+◌, ◌≤◌, ◌<◌, ◌≡◌, ◌⊎◌, inl, inr, refl, sym, ap, ◌∙◌, Bool, true, false, List, [], ◌∷◌,
  Option, none, some, arith, Bool-cases, length,
}
use mathlib.Core.Path.{subst}
use lachesis_ex.Kvdb.{Bytes, Write}
use lachesis_ex.Kvdb.Order.{bytes_lt, Above, IsAscending, Above-trans}
use lachesis_ex.Kvdb.Iterator.{Iterator, take_node, visit_node, before_parent, tree_loop}
use lachesis_ex.Kvdb.Iterator.Follows.{Follows}
use lachesis_ex.Kvdb.Iterator.Visits.{Outcome}
use lachesis_ex.Kvdb.Iterator.Nodes.{visit_node-Outcome}

-- The nodes and pairs that are left.
abbrev pub size : Iterator → ℕ
size it = length it.nodes + length it.parent

-- The pair of the database comes before all nodes, if there is one; else there are no nodes.
abbrev pub Ready : List (Bytes × Bytes) → List Write → Type 0
Ready [] nodes = nodes ≡ []
Ready ((i, w) ∷ later) nodes = Above i nodes

Ready-nil : (ps : List (Bytes × Bytes)) → Ready ps []
Ready-nil [] = refl
Ready-nil ((i, w) ∷ ps) = tt

-- A node that does not come before the pair of the database.
Ready-cons :
    (ps : List (Bytes × Bytes)) (k : Bytes) (v : Option Bytes) (later : List Write)
    → before_parent ps k ≡ false
    → Above k later
    → Ready ps ((k, v) ∷ later)
unfolding before_parent
Ready-cons [] k v later b a = absurd (ground arith)
Ready-cons ((i, w) ∷ ps) k v later b a =
    let lower : bytes_lt i k ≡ true = ground (arith, Bool-cases (bytes_lt i k)) in
    (lower, Above-trans i k later lower a)

visit_node-parent :
    (it : Iterator) (k : Bytes) (v : Option Bytes) (later : List Write)
    → (visit_node it k v later).1.parent ≡ it.parent
unfolding visit_node take_node
visit_node-parent it k none later = refl
visit_node-parent it k (some v) later = ground arith

visit_node-nodes :
    (it : Iterator) (k : Bytes) (v : Option Bytes) (later : List Write)
    → ((visit_node it k v later).1.nodes ≡ later) ⊎ ((visit_node it k v later).1.nodes ≡ [])
unfolding visit_node take_node
visit_node-nodes it k none later = inl refl
visit_node-nodes it k (some v) later = ground arith

-- The loop at the first node.
tree_loop-cons :
    (it : Iterator) (k : Bytes) (v : Option Bytes) (later : List Write)
    → it.nodes ≡ (k, v) ∷ later
    → tree_loop ((k, v) ∷ later) it ≡ elim (before_parent it.parent k) [
      | false ↦ (false, it)
      | true ↦
          let r = visit_node it k v later in
          elim r.0 [ true ↦ (true, r.1) | false ↦ tree_loop later r.1 ]
    ]
unfolding tree_loop
tree_loop-cons it k v later e =
    ap
      (λ (ns : List Write). elim ns [
        | [] ↦ (false, it)
        | _ ∷ _ ↦ elim (before_parent it.parent k) [
          | false ↦ (false, it)
          | true ↦
              let r = visit_node it k v later in
              elim r.0 [ true ↦ (true, r.1) | false ↦ tree_loop later r.1 ]
        ]
      ])
      e

tree_loop-nil : (it : Iterator) (ns : List Write) → it.nodes ≡ [] → tree_loop ns it ≡ (false, it)
unfolding tree_loop
tree_loop-nil it [] e = refl
tree_loop-nil it ((k, v) ∷ later) e =
    ap
      (λ (ns : List Write). elim ns [
        | [] ↦ (false, it)
        | _ ∷ _ ↦ elim (before_parent it.parent k) [
          | false ↦ (false, it)
          | true ↦
              let r = visit_node it k v later in
              elim r.0 [ true ↦ (true, r.1) | false ↦ tree_loop later r.1 ]
        ]
      ])
      e

module _ (contents : Bytes → Option Bytes) (start prefix : Option Bytes)
    (fits : (prefix ≡ none) ⊎ (start ≡ prefix)) where
  -- How the inner loop ends.
  pub record LoopEnd (last : Option Bytes) (it : Iterator) (r : Bool × Iterator) : Type 0 where
    pub outcome : Outcome contents start prefix fits last r
    pub same_parent : r.1.parent ≡ it.parent
    pub is_ready : r.0 ≡ false → Ready r.1.parent r.1.nodes
    pub fewer : length r.1.nodes ≤ length it.nodes
    pub fewer_found : r.0 ≡ true → length r.1.nodes < length it.nodes

  loop_ended :
      (it : Iterator) (last : Option Bytes)
      → Follows contents start prefix it last
      → Ready it.parent it.nodes
      → LoopEnd last it (false, it)
  loop_ended it last f ready = record {
    outcome = f;
    same_parent = refl;
    is_ready = λ h. ready;
    fewer = omega arith;
    fewer_found = λ h. absurd (ground arith);
  }

  pub tree_loop-LoopEnd :
      (ns : List Write) (it : Iterator) (last : Option Bytes)
      → Follows contents start prefix it last
      → (it.nodes ≡ ns) ⊎ (it.nodes ≡ [])
      → LoopEnd last it (tree_loop ns it)
  tree_loop-LoopEnd ns it last f (inr e) =
      rw (tree_loop-nil it ns e)
        (loop_ended it last f (subst (Ready it.parent) (sym e) (Ready-nil it.parent)))
  tree_loop-LoopEnd [] it last f (inl e) =
      rw (tree_loop-nil it [] e)
        (loop_ended it last f (subst (Ready it.parent) (sym e) (Ready-nil it.parent)))
  tree_loop-LoopEnd ((k, v) ∷ later) it last f (inl e) =
      let r = visit_node it k v later in
      elim (Bool-cases (before_parent it.parent k)) [
        | inr q ↦
            let (above, rest) = subst IsAscending e f.nodes_IsAscending in
            rw (tree_loop-cons it k v later e) (
              rw q (
                loop_ended it last f
                  (subst (Ready it.parent) (sym e) (Ready-cons it.parent k v later q above))))
        | inl q ↦
            let o = visit_node-Outcome contents start prefix fits it last k f v later e q in
            let parent = visit_node-parent it k v later in
            let left : length r.1.nodes < length it.nodes =
              omega (arith, ap length e, shorter (visit_node-nodes it k v later)) in
            rw (tree_loop-cons it k v later e) (
              rw q (elim (Bool-cases r.0) [
                | inl g ↦ rw g (record {
                  outcome = subst (λ b. Outcome contents start prefix fits last (b, r.1)) g o;
                  same_parent = parent;
                  is_ready = λ h. absurd (ground arith);
                  fewer = omega arith;
                  fewer_found = λ h. left;
                })
                | inr g ↦
                    let end =
                      tree_loop-LoopEnd later r.1 last
                        (subst (λ b. Outcome contents start prefix fits last (b, r.1)) g o)
                        (visit_node-nodes it k v later) in
                    rw g (record {
                      outcome = end.outcome;
                      same_parent = end.same_parent ∙ parent;
                      is_ready = end.is_ready;
                      fewer = omega (arith, end.fewer);
                      fewer_found = λ h. omega (arith, end.fewer);
                    })
              ]))
      ]
    where
      shorter :
          ((visit_node it k v later).1.nodes ≡ later) ⊎ ((visit_node it k v later).1.nodes ≡ [])
          → length (visit_node it k v later).1.nodes ≤ length later
      shorter (inl s) = omega (arith, ap length s)
      shorter (inr s) = omega (arith, ap length s)
