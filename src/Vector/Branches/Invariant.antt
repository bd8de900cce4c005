-- ===== src/Vector/Branches/Invariant.antt =====
-- The branches stay a partition of the creators, however forks come in.
use lachesis_ex.Prelude.{
  Holds, ℕ, zero, suc, ◌+◌, ◌%◌, ◌≤◌, ◌<◌, ◌≡◌, refl, ◌∙◌, ◌⊎◌, inl, inr, Bool, false, ◌||◌, not,
  List, [], ◌∷◌, ◌++◌, Option, none, some, length, arith, get_elem?, set, ltb, ◌==◌, if◌then◌else◌,
  word32, Bool-cases, Option-cases, length-append, length-set, get_elem?-set, get_elem?-some,
  get_elem?-lt,
}
use lachesis_ex.Prelude.Assoc.{lookup}
use lachesis_ex.Inter.{EventHeaderData, self_parent}
use lachesis_ex.Pos.{Validators, len}
use lachesis_ex.Vector.Branches.{
  BranchesInfo, extend_branch, continue_or_fork, new_branch, fill_global_branch_id,
}

-- Every branch has a creator and stands in that creator's list of branches.
pub record IsPartition (vv : Validators) (bi : BranchesInfo) : Type 0 where
  pub same_length : length bi.creator_idxs ≡ length bi.last_seq
  pub creators : length bi.by_creators ≡ len vv
  pub enough : len vv ≤ length bi.creator_idxs
  pub listed :
      (b c : ℕ)
      → get_elem? bi.creator_idxs b ≡ some c
      → (bs : List ℕ) × (get_elem? bi.by_creators c ≡ some bs) × Holds b bs
  pub owned :
      (b c : ℕ) (bs : List ℕ)
      → get_elem? bi.by_creators c ≡ some bs
      → Holds b bs
      → get_elem? bi.creator_idxs b ≡ some c

Holds-append : (x y : ℕ) (ys : List ℕ) → Holds x ys → Holds x (ys ++ y ∷ [])
Holds-append x y (z ∷ ys) (inl e) = inl e
Holds-append x y (z ∷ ys) (inr h) = inr (Holds-append x y ys h)
Holds-append x y [] h = absurd h

Holds-last : (x : ℕ) (ys : List ℕ) → Holds x (ys ++ x ∷ [])
Holds-last x [] = inl refl
Holds-last x (y ∷ ys) = inr (Holds-last x ys)

Holds-inv : (x y : ℕ) (ys : List ℕ) → Holds x (ys ++ y ∷ []) → (x ≡ y) ⊎ Holds x ys
Holds-inv x y [] h = h
Holds-inv x y (z ∷ ys) (inl e) = inr (inl e)
Holds-inv x y (z ∷ ys) (inr h) = go (Holds-inv x y ys h)
  where
    go : (x ≡ y) ⊎ Holds x ys → (x ≡ y) ⊎ ((x ≡ z) ⊎ Holds x ys)
    go (inl e) = inl e
    go (inr k) = inr (inr k)

get_elem?-append {ℓ} :
    {A : Type ℓ} (xs : List A) (x : A) (i : ℕ)
    → get_elem? (xs ++ x ∷ []) i ≡ (if i == length xs then some x else get_elem? xs i)
get_elem?-append [] x zero = refl
get_elem?-append [] x (suc i) = ground arith
get_elem?-append (y ∷ xs) x zero = ground arith
get_elem?-append (y ∷ xs) x (suc i) = ground (arith, get_elem?-append xs x i)

-- What a step of the bookkeeping gives: a partition still, and the event's branch, which belongs
-- to its creator and ends in the event.
pub record Assigned (vv : Validators) (bi : BranchesInfo) (me seq branch : ℕ) : Type 0 where
  pub partition : IsPartition vv bi
  pub mine : get_elem? bi.creator_idxs branch ≡ some me
  pub ends : get_elem? bi.last_seq branch ≡ some seq

module _ (vv : Validators) (bi : BranchesInfo) (me seq : ℕ) (v : IsPartition vv bi) where
  extend-Assigned :
      (branch : ℕ)
      → get_elem? bi.creator_idxs branch ≡ some me
      → Assigned vv (record bi { last_seq = set bi.last_seq branch seq }) me seq branch
  extend-Assigned branch at =
      let inside = get_elem?-lt bi.creator_idxs branch me at in
      record {
        partition = record {
          same_length = omega (arith, v.same_length, length-set bi.last_seq branch seq);
          creators = v.creators;
          enough = v.enough;
          listed = v.listed;
          owned = v.owned;
        };
        mine = at;
        ends = ground (arith, get_elem?-set bi.last_seq branch branch seq, v.same_length);
      }

  module _ (bs : List ℕ) (found : get_elem? bi.by_creators me ≡ some bs) where
    abbrev grown : BranchesInfo
    grown = record {
      last_seq = bi.last_seq ++ seq ∷ [];
      creator_idxs = bi.creator_idxs ++ me ∷ [];
      by_creators = set bi.by_creators me (bs ++ length bi.last_seq ∷ []);
    }

    by_creators-grown :
        (c : ℕ)
        → get_elem? grown.by_creators c
          ≡ (if me == c then some (bs ++ length bi.last_seq ∷ []) else get_elem? bi.by_creators c)
    by_creators-grown c =
        get_elem?-set bi.by_creators me c _ (get_elem?-lt bi.by_creators me bs found)

    old-listed :
        (b c : ℕ)
        → (cs : List ℕ) × (get_elem? bi.by_creators c ≡ some cs) × Holds b cs
        → (cs : List ℕ) × (get_elem? grown.by_creators c ≡ some cs) × Holds b cs
    old-listed b c (cs, p, q) = elim (Bool-cases (me == c)) [
      | inl e ↦
          let same : cs ≡ bs = ground arith in
          (
            bs ++ length bi.last_seq ∷ [],
            ground (arith, by_creators-grown c),
            Holds-append b (length bi.last_seq) bs (rw same at q),
          )
      | inr e ↦ (cs, ground (arith, by_creators-grown c), q)
    ]

    grown-listed :
        (b c : ℕ)
        → get_elem? grown.creator_idxs b ≡ some c
        → (cs : List ℕ) × (get_elem? grown.by_creators c ≡ some cs) × Holds b cs
    grown-listed b c h = elim (Bool-cases (b == length bi.creator_idxs)) [
      | inl e ↦
          let own : c ≡ me = ground (arith, get_elem?-append bi.creator_idxs me b) in
          let last : b ≡ length bi.last_seq = ground (arith, v.same_length) in
          (
            bs ++ length bi.last_seq ∷ [],
            ground (arith, by_creators-grown c),
            rw last (Holds-last (length bi.last_seq) bs),
          )
      | inr e ↦
          let before : get_elem? bi.creator_idxs b ≡ some c =
            ground (arith, get_elem?-append bi.creator_idxs me b) in
          old-listed b c (v.listed b c before)
    ]

    kept :
        (b c : ℕ) → get_elem? bi.creator_idxs b ≡ some c → get_elem? grown.creator_idxs b ≡ some c
    kept b c h =
        ground (arith, get_elem?-append bi.creator_idxs me b, get_elem?-lt bi.creator_idxs b c h)

    grown-owned :
        (b c : ℕ) (cs : List ℕ)
        → get_elem? grown.by_creators c ≡ some cs
        → Holds b cs
        → get_elem? grown.creator_idxs b ≡ some c
    grown-owned b c cs h k = elim (Bool-cases (me == c)) [
      | inl e ↦
          let own : c ≡ me = ground arith in
          let whole : cs ≡ bs ++ length bi.last_seq ∷ [] = ground (arith, by_creators-grown c) in
          elim (Holds-inv b (length bi.last_seq) bs (rw whole at k)) [
            | inl last ↦ ground (arith, get_elem?-append bi.creator_idxs me b, v.same_length, own)
            | inr before ↦ kept b c (v.owned b c bs (rw own found) before)
          ]
      | inr e ↦ kept b c (v.owned b c cs (ground (arith, by_creators-grown c)) k)
    ]

    grown-Assigned : me < len vv → Assigned vv grown me seq (length bi.last_seq)
    grown-Assigned h = record {
      partition = record {
        same_length = omega (
          arith,
          v.same_length,
          length-append bi.creator_idxs (me ∷ []),
          length-append bi.last_seq (seq ∷ []),
        );
        creators = length-set bi.by_creators me _ ∙ v.creators;
        enough = omega (arith, v.enough, length-append bi.creator_idxs (me ∷ []));
        listed = grown-listed;
        owned = grown-owned;
      };
      mine =
          ground (arith, get_elem?-append bi.creator_idxs me (length bi.last_seq), v.same_length);
      ends = ground (arith, get_elem?-append bi.last_seq seq (length bi.last_seq));
    }

  new_branch-Assigned :
      me < len vv
      → (r : BranchesInfo × ℕ) × (new_branch bi seq me ≡ some r) × Assigned vv r.0 me seq r.1
  unfolding new_branch
  new_branch-Assigned h =
      let (bs, found) = get_elem?-some bi.by_creators me (rw v.creators h) in
      ((grown bs found, length bi.last_seq), rw found, grown-Assigned bs found h)

  continue_or_fork-Assigned :
      (branch : ℕ) (follows : ℕ → Bool)
      → me < len vv
      → get_elem? bi.creator_idxs branch ≡ some me
      → (r : BranchesInfo × ℕ) × (continue_or_fork bi seq me branch follows ≡ some r)
        × Assigned vv r.0 me seq r.1
  unfolding continue_or_fork
  continue_or_fork-Assigned branch follows h mine =
      let inside = get_elem?-lt bi.creator_idxs branch me mine in
      let (last, found) = get_elem?-some bi.last_seq branch (omega (arith, v.same_length)) in
      elim (Bool-cases (follows last)) [
        | inl e ↦ (extend_branch bi seq branch, rw found (rw e), extend-Assigned branch mine)
        | inr e ↦ let (r, done, a) = new_branch-Assigned h in (r, rw found (rw e done), a)
      ]

-- The self-parent, if there is one, has a branch, and one of its creator's.
abbrev pub ParentKnown : List (ℕ × ℕ) → BranchesInfo → Option ℕ → ℕ → Type 0
ParentKnown event_branch bi none me = get_elem? bi.creator_idxs me ≡ some me
ParentKnown event_branch bi (some p) me =
    (b : ℕ) × (lookup p event_branch ≡ some b) × (get_elem? bi.creator_idxs b ≡ some me)

-- Over a partition, and with the self-parent processed before, `fillGlobalBranchID` always
-- gives the event a branch. The branch belongs to the event's creator, its last sequence number
-- is the event's, and the branches are a partition again, also when a new fork adds one.
pub fill_global_branch_id-Assigned :
    (vv : Validators) (event_branch : List (ℕ × ℕ)) (bi : BranchesInfo) (e : EventHeaderData)
    (me : ℕ)
    → IsPartition vv bi
    → me < len vv
    → ParentKnown event_branch bi (self_parent e) me
    → (r : BranchesInfo × ℕ) × (fill_global_branch_id vv event_branch bi e me ≡ some r)
      × Assigned vv r.0 me e.seq r.1
unfolding fill_global_branch_id
fill_global_branch_id-Assigned vv event_branch bi e me v h k =
    let guard : (not (length bi.creator_idxs == length bi.last_seq)
          || ltb (length bi.creator_idxs) (len vv))
        ≡ false =
      ground (arith, v.same_length, v.enough) in
    elim (Option-cases (self_parent e)) [
      | inl none_ ↦
          let (r, done, a) =
            continue_or_fork-Assigned vv bi me e.seq v me (λ last. last == 0) h (rw none_ at k) in
          (r, rw guard (rw none_ done), a)
      | inr (p, some_) ↦
          let (b, found, mine) = known p some_ in
          let (r, done, a) =
            continue_or_fork-Assigned vv bi me e.seq v b (λ last. (last + 1) % word32 == e.seq) h
              mine in
          (r, rw guard (rw some_ (rw found done)), a)
    ]
  where
    known :
        (p : ℕ)
        → self_parent e ≡ some p
        → (b : ℕ) × (lookup p event_branch ≡ some b) × (get_elem? bi.creator_idxs b ≡ some me)
    known p some_ = rw some_ at k
