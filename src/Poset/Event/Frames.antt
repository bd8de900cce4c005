-- ===== src/Poset/Event/Frames.antt =====
-- The frame that is computed for a new event is the one that the check finds in it.
use lachesis_ex.Prelude.{
  ℕ, ◌+◌, ◌%◌, ◌<◌, ◌≡◌, refl, sym, ap, ◌∙◌, Bool, true, false, List, [], ◌∷◌, Option, none, some,
  ◌>>=◌, >>=-eq-some, if◌then◌else◌, arith, word32, Option-cases, inl, inr,
}
use mathlib.Core.Path.{fun_ext}
use lachesis_ex.Inter.{EventHeaderData, self_parent, is_self_parent}
use lachesis_ex.Pos.{Validators}
use lachesis_ex.Pos.Stake.{StakeCounter, new_counter, count, has_quorum}
use lachesis_ex.Election.{RootAndSlot}
use lachesis_ex.Poset.{
  get_frame_roots, calc_frame_idx, frame_of_parents, first_or, self_parent_frame, count_root,
  count_roots, forkless_caused_by_quorum_on, check_frame, new_frame,
}
use lachesis_ex.Poset.Event.{same}

-- The event with the fields filled in, under its new id.
abbrev pub filled : EventHeaderData → ℕ → Bool → ℕ → ℕ → ℕ → EventHeaderData
filled e frame is_root median prev hash = record e {
  frame = frame;
  is_root = is_root;
  median_time = median;
  prev_epoch_hash = prev;
  hash = hash;
}

module _ (fc gc : ℕ → ℕ → Bool) (vv : Validators) (roots : List RootAndSlot) (old new : ℕ)
    (answers : (r : ℕ) → gc new r ≡ fc old r) where
  count_roots_lem :
      (s : StakeCounter) (rs : List RootAndSlot)
      → count_roots gc vv roots s new rs ≡ count_roots fc vv roots s old rs
  unfolding count_roots count_root
  count_roots_lem s [] = refl
  count_roots_lem s (r ∷ rs) = rw (answers r.id) (
      ap (λ k. (if fc old r.id then (count s r.validator >>= λ x. some x.0) else some s) >>= k)
        (fun_ext λ x. ap (λ z. if has_quorum x then some x else z) (count_roots_lem x rs)))

  quorum_lem :
      (f : ℕ)
      → forkless_caused_by_quorum_on gc vv roots new f
        ≡ forkless_caused_by_quorum_on fc vv roots old f
  unfolding forkless_caused_by_quorum_on
  quorum_lem f = rw (count_roots_lem (new_counter vv) (get_frame_roots f roots)) refl

module _ (header : ℕ → Option EventHeaderData)
    (bounded : (h : ℕ) (p : EventHeaderData) → header h ≡ some p → p.frame < word32) where
  self_parent_frame-lt :
      (e : EventHeaderData) (found f : ℕ) (ps : List ℕ)
      → found < word32
      → self_parent_frame header e found ps ≡ some f
      → f < word32
  unfolding self_parent_frame
  self_parent_frame-lt e found f [] b h = (ground arith)
  self_parent_frame-lt e found f (p ∷ ps) b h =
      let (parent, is, next) =
        >>=-eq-some (header p)
          (λ q. self_parent_frame header e (if is_self_parent e p then q.frame else found) ps) h in
      self_parent_frame-lt e (if is_self_parent e p then parent.frame else found) f ps
        (ground (arith, bounded p parent is)) next

self_parent_frame-filled :
    (header : ℕ → Option EventHeaderData) (e : EventHeaderData) (f : ℕ) (b : Bool) (m q h found : ℕ)
    (ps : List ℕ)
    → self_parent_frame header (filled e f b m q h) found ps ≡ self_parent_frame header e found ps
unfolding self_parent_frame is_self_parent self_parent
self_parent_frame-filled header e f b m q h found [] = refl
self_parent_frame-filled header e f b m q h found (p ∷ ps) =
    ap (λ k. header p >>= k)
      (fun_ext λ x.
        self_parent_frame-filled header e f b m q h (if is_self_parent e p then x.frame else found)
          ps)

is_self_parent-none :
    (e : EventHeaderData) (p : ℕ) → self_parent e ≡ none → is_self_parent e p ≡ false
unfolding is_self_parent
is_self_parent-none e p n = rw (n, is_self_parent) refl

self_parent_frame-none :
    (header : ℕ → Option EventHeaderData) (e : EventHeaderData) (found f : ℕ) (ps : List ℕ)
    → self_parent e ≡ none
    → self_parent_frame header e found ps ≡ some f
    → found ≡ f
unfolding self_parent_frame
self_parent_frame-none header e found f [] n h = cc
self_parent_frame-none header e found f (p ∷ ps) n h =
    let (parent, is, next) =
      >>=-eq-some (header p)
        (λ q. self_parent_frame header e (if is_self_parent e p then q.frame else found) ps) h in
    ground (
      arith,
      self_parent_frame-none header e (if is_self_parent e p then parent.frame else found) f ps n
          next,
      is_self_parent-none e p n,
    )

first_or_mono :
    (ps : List ℕ) {x y r : Option (ℕ × Bool)}
    → first_or ps x ≡ r
    → (x ≡ r → y ≡ r)
    → first_or ps y ≡ r
first_or_mono [] h k = h
first_or_mono (_ ∷ _) h k = k h

module _ (fc gc : ℕ → ℕ → Bool) (vv : Validators) (roots : List RootAndSlot)
    (header : ℕ → Option EventHeaderData)
    (bounded : (h : ℕ) (p : EventHeaderData) → header h ≡ some p → p.frame < word32)
    (e : EventHeaderData) (new m q : ℕ) (answers : (r : ℕ) → gc new r ≡ fc e.hash r) where
  new_frame-check_frame :
      (self_frame f : ℕ) (b : Bool)
      → self_frame < word32
      → (self_parent e ≡ none → self_frame ≡ 0)
      → new_frame fc vv roots e self_frame ≡ some (f, b)
      → check_frame gc vv roots (filled e f b m q new) self_frame ≡ some (f, b)
  unfolding new_frame check_frame
  new_frame-check_frame self_frame f b lt none_zero h = elim (Option-cases (self_parent e)) [
    | inl n ↦
        let found : some (1, true) ≡ some (f, b) = rw (n, new_frame) at h in
        ground (arith, none_zero n)
    | inr (p, n) ↦
        let (x, found, same) =
          >>=-eq-some (forkless_caused_by_quorum_on fc vv roots e.hash self_frame)
            (λ x. some (if x then ((self_frame + 1) % word32, true) else (self_frame, false)))
            (rw (n, new_frame) at h) in
        ground (arith, quorum_lem fc gc vv roots e.hash new answers self_frame)
  ]

  frame_of_parents-filled :
      (f : ℕ) (b : Bool)
      → frame_of_parents fc vv roots header e false ≡ some (f, b)
      → frame_of_parents gc vv roots header (filled e f b m q new) true ≡ some (f, b)
  unfolding frame_of_parents
  frame_of_parents-filled f b h =
      let (self_frame, is, found) =
        >>=-eq-some (self_parent_frame header e 0 e.parents) (λ x. new_frame fc vv roots e x) h in
      let checked =
        new_frame-check_frame self_frame f b
          (self_parent_frame-lt header bounded e 0 self_frame e.parents (omega arith) is)
          (λ n. sym (self_parent_frame-none header e 0 self_frame e.parents n is)) found in
      ap (λ o. o >>= λ x. check_frame gc vv roots (filled e f b m q new) x)
        (self_parent_frame-filled header e f b m q new 0 e.parents ∙ is)
      ∙ checked

  -- The frame and the root flag computed for a new event are those that the check finds in the
  -- event once they are filled in, whatever its other new fields and its id are. The frames of the
  -- events are below 2 ^ 32, and the new id is forklessly caused by the roots that the old one is.
  pub calc_frame_idx-filled :
      (f : ℕ) (b : Bool)
      → calc_frame_idx fc vv roots header e false ≡ some (f, b)
      → calc_frame_idx gc vv roots header (filled e f b m q new) true ≡ some (f, b)
  unfolding calc_frame_idx
  calc_frame_idx-filled f b h = first_or_mono e.parents h (frame_of_parents-filled f b)
