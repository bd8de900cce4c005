-- ===== src/Poset/Decide/Blocks.antt =====
-- What the block of a decided frame holds.
use lachesis_ex.Prelude.{
  ℕ, suc, ◌+◌, ◌-◌, ◌%◌, ◌<◌, ◌≡◌, ◌↔◌, refl, sym, ap, ◌∙◌, List, filter, Option, none, some, arith,
  Holds, word32,
}
use mathlib.Core.Path.{subst}
use lachesis_ex.Prelude.Sort.{sort}
use lachesis_ex.Prelude.Assoc.{lookup}
use lachesis_ex.Inter.{EventHeaderData}
use lachesis_ex.Walk.{Walked, done}
use lachesis_ex.Poset.Ordering.{before, fare_ordering}
use lachesis_ex.Poset.Confirm.{Headers, confirmed_on, confirm_events, count_parents}
use lachesis_ex.Poset.Confirm.Ancestors.{Ancestor, IsStored, IsClosed, has, fold_calls}
use lachesis_ex.Poset.Confirm.Once.{confirm_events-Confirmed}
use lachesis_ex.Poset.Decide.{
  State, Block, Application, Collected, nothing, collect, Handled, ended, fatal, no_fuel, ◌>>=ₕ◌,
  or_fatal, of_walk, frame_consensus_time, confirm_block,
}
use lachesis_ex.Poset.Decide.Meant.{
  IsMeant, has-sort, Holds-map_hash, meant, meant-IsMeant, has-collect, has-filter, has-filter_of,
}

pub bind-eq-ended {ℓ κ} :
    {A : Type ℓ} {B : Type κ} (first : Handled A) (next : A → Handled B) {b : B}
    → (first >>=ₕ next) ≡ ended b
    → (a : A) × (first ≡ ended a) × (next a ≡ ended b)
bind-eq-ended fatal next h = cc
bind-eq-ended no_fuel next h = cc
bind-eq-ended (ended a) next h = (a, refl, h)

pub ended-injective {ℓ} : {A : Type ℓ} (a b : A) → ended a ≡ ended b → a ≡ b
ended-injective a b h = ground arith

done-injective {ℓ} : {A : Type ℓ} (a b : A) → done a ≡ done b → a ≡ b
done-injective a b h = ground arith

pub of_walk-eq-ended {ℓ} : {A : Type ℓ} (w : Walked A) {a : A} → of_walk w ≡ ended a → w ≡ done a
of_walk-eq-ended (done a) h = ground arith
of_walk-eq-ended Walked.not_found h = cc
of_walk-eq-ended Walked.out_of_fuel h = cc

pub or_fatal-eq-ended {ℓ} : {A : Type ℓ} (o : Option A) {a : A} → or_fatal o ≡ ended a → o ≡ some a
or_fatal-eq-ended none h = cc
or_fatal-eq-ended (some a) h = ground arith

module _ (app : Application) (headers : Headers) (merged : ℕ → List ℕ) (s t : State)
    (frame atropos : ℕ) (block : Block) (cheaters : List ℕ) where
  -- What a confirmed block was made of.
  record Made : Type 0 where
    found : Collected
    table : List (ℕ × ℕ)
    header : EventHeaderData
    is_stored : lookup atropos headers ≡ some header
    walked :
        confirm_events headers frame
          (collect app s.validators (merged atropos))
          (suc (count_parents headers))
          atropos
          (s.confirmed, some nothing)
        ≡ done (table, some found)
    ordered : block.events ≡ fare_ordering found.events
    kept : t.confirmed ≡ table

  confirm_block-Made :
      confirm_block app headers merged s frame atropos ≡ ended (t, block, cheaters) → Made
  unfolding confirm_block
  confirm_block-Made h =
      let ((table, found), w, first) =
        bind-eq-ended
          (of_walk (
            confirm_events headers frame (collect app s.validators (merged atropos))
              (suc (count_parents headers)) atropos (s.confirmed, some nothing)))
          _ h in
      let (c, f, second) = bind-eq-ended (or_fatal found) _ first in
      let (last, q, third) =
        bind-eq-ended (or_fatal (frame_consensus_time s ((frame + (word32 - 1)) % word32))) _
          second in
      let (header, l, fourth) = bind-eq-ended (or_fatal (lookup atropos headers)) _ third in
      record {
        found = c;
        table = table;
        header = header;
        is_stored = or_fatal-eq-ended (lookup atropos headers) l;
        walked = of_walk-eq-ended _ w ∙ ap (λ x. done (table, x)) (or_fatal-eq-ended found f);
        ordered = sym (ap (λ x. x.1.events) (ended-injective _ _ fourth));
        kept = sym (ap (λ x. x.0.confirmed) (ended-injective _ _ fourth));
      }

  -- If the block of a decided frame is made, without a fatal error, it holds just those ancestors
  -- of its Atropos, itself included, that no frame before had confirmed, whose creator has no fork
  -- in the Atropos' vector, and that the application lets in at their depth under the highest event
  -- of the creator in that vector, which they are not above. The events are stored under their ids
  -- and after their parents, the events confirmed before come with their ancestors, and the frame
  -- is not 0.
  pub confirm_block-events :
      IsStored headers
      → 0 < frame
      → IsClosed headers s.confirmed
      → confirm_block app headers merged s frame atropos ≡ ended (t, block, cheaters)
      → (id : ℕ)
      → Holds id block.events ↔ (
          (h : EventHeaderData) × (lookup id headers ≡ some h)
          × IsMeant app s.validators (merged atropos) h
          × (confirmed_on s.confirmed id ≡ 0)
          × Ancestor headers atropos id)
  unfolding fare_ordering
  confirm_block-events stored f closed r id =
      let m = confirm_block-Made r in
      let p = meant app s.validators (merged atropos) in
      let test = meant-IsMeant app s.validators (merged atropos) in
      let (end, ends, c) =
        confirm_events-Confirmed headers stored frame f (collect app s.validators (merged atropos))
          s.confirmed (some nothing) atropos (suc (count_parents headers)) m.header m.is_stored
          closed (omega arith) in
      let same : end ≡ (m.table, some m.found) = done-injective _ _ (sym ends ∙ m.walked) in
      let calls : fold_calls (collect app s.validators (merged atropos)) (some nothing) c.news
          ≡ some m.found =
        sym c.calls ∙ ap (λ x. x.1) same in
      let all : has id (sort before m.found.events) ≡ has id (filter p c.news) =
        has-sort id m.found.events
        ∙ has-collect app s.validators (merged atropos) c.news m.found id calls in
      let listed = Holds-map_hash id (sort before m.found.events) in
      (
        λ h.
            let (inside, x, l, q) =
              has-filter headers p id c.news c.from_storage
                (sym all ∙ listed.0 (subst (λ es. Holds id es) m.ordered h)) in
            let (new, up) = (c.exact id).0 inside in (x, l, (test x).0 q, new, up),
        λ (x, l, q, new, up).
            subst (λ es. Holds id es) (sym m.ordered)
              (listed.1 (
                all
                ∙ has-filter_of headers p id c.news x c.from_storage ((c.exact id).1 (new, up)) l
                    ((test x).1 q))),
      )
