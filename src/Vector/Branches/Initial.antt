-- ===== src/Vector/Branches/Initial.antt =====
-- The branches of a new index: one for each validator.
use lachesis_ex.Prelude.{
  Holds, ℕ, zero, suc, ◌+◌, ◌≡◌, refl, inl, inr, List, [], ◌∷◌, none, some, length, arith,
  get_elem?, ltb, if◌then◌else◌, length-replicate,
}
use lachesis_ex.Pos.{Validators, len}
use lachesis_ex.Vector.Branches.{indices, singletons, new_initial_branches_info}
use lachesis_ex.Vector.Branches.Invariant.{IsPartition}

elem-indices : (i n b : ℕ) → get_elem? (indices i n) b ≡ (if ltb b n then some (i + b) else none)
unfolding indices
elem-indices i zero b = ground arith
elem-indices i (suc n) zero = ground arith
elem-indices i (suc n) (suc b) = ground (arith, elem-indices (suc i) n b)

length-indices : (i n : ℕ) → length (indices i n) ≡ n
unfolding indices
length-indices i zero = refl
length-indices i (suc n) = omega (arith, length-indices (suc i) n)

length-singletons : (is : List ℕ) → length (singletons is) ≡ length is
unfolding singletons
length-singletons [] = refl
length-singletons (i ∷ is) = omega (arith, length-singletons is)

elem-singletons :
    (is : List ℕ) (c x : ℕ) → get_elem? is c ≡ some x → get_elem? (singletons is) c ≡ some (x ∷ [])
unfolding singletons
elem-singletons (i ∷ is) zero x h = ground arith
elem-singletons (i ∷ is) (suc c) x h = elem-singletons is c x h
elem-singletons [] c x h = ground arith

singletons-elem :
    (is : List ℕ) (c : ℕ) (bs : List ℕ)
    → get_elem? (singletons is) c ≡ some bs
    → (x : ℕ) × (get_elem? is c ≡ some x) × (bs ≡ x ∷ [])
unfolding singletons
singletons-elem (i ∷ is) zero bs h = (i, refl, ground arith)
singletons-elem (i ∷ is) (suc c) bs h = singletons-elem is c bs h
singletons-elem [] c bs h = ground arith

single-Holds : (b x : ℕ) (bs : List ℕ) → bs ≡ x ∷ [] → Holds b bs → b ≡ x
single-Holds b x bs e h = elim (rw e at h) [ inl same ↦ same | inr none_left ↦ absurd none_left ]

-- The branches of a new index are a partition: each validator has the branch of its own index.
pub new_initial_branches_info-IsPartition :
    (vv : Validators) → length vv.cache.ids ≡ len vv → IsPartition vv (new_initial_branches_info vv)
unfolding new_initial_branches_info
new_initial_branches_info-IsPartition vv aligned = record {
  same_length = omega (
    arith,
    length-indices 0 (length vv.cache.ids),
    length-replicate {A = ℕ} (length vv.cache.ids) 0,
  );
  creators = omega (arith, length-singletons (indices 0 (len vv)), length-indices 0 (len vv));
  enough = omega (arith, length-indices 0 (length vv.cache.ids));
  listed = λ b c e.
      let at_b = elem-indices 0 (length vv.cache.ids) b in
      let same : c ≡ b = ground arith in
      let at_c : get_elem? (indices 0 (len vv)) c ≡ some b =
        ground (arith, elem-indices 0 (len vv) c) in
      (b ∷ [], elem-singletons (indices 0 (len vv)) c b at_c, inl refl);
  owned = λ b c bs e h.
      let (x, is, single) = singletons-elem (indices 0 (len vv)) c bs e in
      let own : b ≡ x = single-Holds b x bs single h in
      ground (arith, elem-indices 0 (len vv) c, elem-indices 0 (length vv.cache.ids) b);
}
