-- ===== src/Poset/Event/Prepared.antt =====
-- What `Prepare` fills in passes `checkAndSaveEvent`.
use lachesis_ex.Prelude.{
  ℕ, ◌<◌, ◌≡◌, refl, ap, Bool, true, false, not, ◌&&◌, Option, none, some, >>=-eq-some, length, leb,
  ltb, ◌==◌, arith, word32, ==_self,
}
use mathlib.Core.Path.{subst}
use mathlib.Core.Option.{some-injective}
use lachesis_ex.Inter.{EventHeaderData, self_parent}
use lachesis_ex.Check.Parents.{Verdict, passes, panics, fails, validate_epoch}
use lachesis_ex.Poset.Event.{
  VectorClock, Poset, saved, fill, prepare, same, dropped, frame_in, check_in, check_and_save_event,
  save_root, with_event,
}
use lachesis_ex.Poset.Event.Frames.{calc_frame_idx-filled}

same_self : (b : Bool) → same b b ≡ true
unfolding same
same_self true = refl
same_self false = refl

module _ {S : Type 0} (clock : VectorClock S) (header : ℕ → Option EventHeaderData)
    (bounded : (h : ℕ) (p : EventHeaderData) → header h ≡ some p → p.frame < word32) where
  prepare-fill :
      (v : Verdict) (p p' : Poset S) (e f : EventHeaderData)
      → validate_epoch p.validators p.epoch e ≡ v
      → prepare clock header p e ≡ some (p', some f)
      → (found : ℕ × Bool) × (frame_in clock header p (with_event clock header p e) e false
          ≡ some found)
        × (fill clock header p (with_event clock header p e) e found ≡ f)
  unfolding prepare
  prepare-fill passes p p' e f v h =
      let (found, is, same) =
        >>=-eq-some (frame_in clock header p (with_event clock header p e) e false)
          (λ x. some (
            dropped clock header p (with_event clock header p e),
            some (fill clock header p (with_event clock header p e) e x),
          ))
          (rw (v, prepare) at h) in
      (found, is, some-injective _ _ (ap (λ x. x.1) (some-injective _ _ same)))
  prepare-fill panics p p' e f v h =
      let stops : none ≡ some (p', some f) = rw (v, prepare) at h in ground arith
  prepare-fill (fails x) p p' e f v h =
      let drops : some (p, none) ≡ some (p', some f) = rw (v, prepare) at h in ground arith

  -- Only an event that passes the check of its epoch is filled in, and it passes it afterwards.
  pub prepare-passes :
      (p p' : Poset S) (e f : EventHeaderData) (new : ℕ)
      → prepare clock header p e ≡ some (p', some f)
      → validate_epoch p.validators p.epoch (record f { hash = new }) ≡ passes
  unfolding prepare validate_epoch fill
  prepare-passes p p' e f new h =
      let (found, is, same) =
        prepare-fill (validate_epoch p.validators p.epoch e) p p' e f refl h in
      subst (λ g. validate_epoch p.validators p.epoch (record g { hash = new }) ≡ passes) same
        (go (validate_epoch p.validators p.epoch e) refl)
    where
      go :
          (v : Verdict)
          → validate_epoch p.validators p.epoch e ≡ v
          → validate_epoch p.validators p.epoch e ≡ passes
      go passes q = q
      go panics q =
          let stops : none ≡ some (p', some f) = rw (q, prepare) at h in absurd (ground arith)
      go (fails x) q =
          let drops : some (p, none) ≡ some (p', some f) = rw (q, prepare) at h in
          absurd (ground arith)

  -- The event that is checked, once its fields are filled in and it has a new id.
  abbrev final : Poset S → EventHeaderData → ℕ × Bool → ℕ → EventHeaderData
  final p e found new = record (fill clock header p (with_event clock header p e) e found) {
    hash = new;
  }

  check_in-saved :
      (p : Poset S) (s : S) (e : EventHeaderData)
      → frame_in clock header p s e true ≡ some (e.frame, e.is_root)
      → clock.median_time s e.hash p.prev_epoch_time ≡ e.median_time
      → (q : Poset S) × (check_in clock header p s e ≡ some (saved q))
        × (q.roots ≡ save_root clock header p.roots e)
  unfolding check_in
  check_in-saved p s e found median =
      let q : Poset S = record p {
        vec_clock = clock.drop_not_flushed (clock.flush s);
        roots = save_root clock header p.roots e;
      } in
      let root : same e.is_root e.is_root ≡ true = same_self e.is_root in
      (
        q,
        rw (found, check_in) (rw (root, ==_self e.frame, median, ==_self e.median_time) refl),
        refl,
      )

  fill-saved :
      (p : Poset S) (e : EventHeaderData) (found : ℕ × Bool) (new : ℕ)
      → frame_in clock header p (with_event clock header p e) e false ≡ some found
      → ((r : ℕ)
          → clock.forkless_cause (with_event clock header p (final p e found new)) new r
            ≡ clock.forkless_cause (with_event clock header p e) e.hash r)
      → ((t : ℕ)
          → clock.median_time (with_event clock header p (final p e found new)) new t
            ≡ clock.median_time (with_event clock header p e) e.hash t)
      → length (clock.no_cheaters p.vec_clock (self_parent e) e.parents) ≡ length e.parents
      → (q : Poset S) × (check_and_save_event clock header p (final p e found new) ≡ some (saved q))
        × (q.roots ≡ save_root clock header p.roots (final p e found new))
  unfolding check_and_save_event check_in frame_in fill self_parent
  fill-saved p e (f, b) new is answers median honest =
      let e' : EventHeaderData = final p e (f, b) new in
      let found : frame_in clock header p (with_event clock header p e') e' true ≡ some (f, b) =
        calc_frame_idx-filled (clock.forkless_cause (with_event clock header p e))
          (clock.forkless_cause (with_event clock header p e')) p.validators p.roots header bounded
          e new e'.median_time e'.prev_epoch_hash answers f b is in
      let (q, same, roots) =
        check_in-saved p (with_event clock header p e') e' found (median p.prev_epoch_time) in
      let first : (leb e.seq 1 && not (e'.prev_epoch_hash == p.prev_epoch_hash)) ≡ false =
        ground arith in
      let later : (ltb 1 e.seq && not (e'.prev_epoch_hash == 0)) ≡ false = ground arith in
      let clean : (length (clock.no_cheaters p.vec_clock (self_parent e) e.parents)
            == length e.parents)
          ≡ true =
        ground (arith) in
      (q, rw (first, later, clean) same, roots)

  -- An event that `Prepare` fills in is saved by `checkAndSaveEvent`, and is among the roots of
  -- the epoch if it is a root. The event keeps its other fields and gets the id `new`. The frames
  -- of the parents are below 2 ^ 32; the index answers for the new id as for the one at
  -- preparation; and none of the parents is a cheater's.
  pub prepare-saved :
      (p p' : Poset S) (e f : EventHeaderData) (new : ℕ)
      → prepare clock header p e ≡ some (p', some f)
      → ((r : ℕ)
          → clock.forkless_cause (clock.add p.vec_clock (record f { hash = new })) new r
            ≡ clock.forkless_cause (clock.add p.vec_clock e) e.hash r)
      → ((t : ℕ)
          → clock.median_time (clock.add p.vec_clock (record f { hash = new })) new t
            ≡ clock.median_time (clock.add p.vec_clock e) e.hash t)
      → length (clock.no_cheaters p.vec_clock (self_parent e) e.parents) ≡ length e.parents
      → (q : Poset S) × (check_and_save_event clock header p (record f { hash = new })
          ≡ some (saved q))
        × (q.roots ≡ save_root clock header p.roots (record f { hash = new }))
  prepare-saved p p' e f new h answers median honest =
      let (found, is, same) =
        prepare-fill (validate_epoch p.validators p.epoch e) p p' e f refl h in
      subst
        (λ g.
          (q : Poset S) × (check_and_save_event clock header p (record g { hash = new })
            ≡ some (saved q))
          × (q.roots ≡ save_root clock header p.roots (record g { hash = new })))
        same (fill-saved p e found new is (rw same answers) (rw same median) honest)
