-- ===== src/Kvdb/Iterator/Listing.antt =====
-- A whole iteration lists the contents.
use lachesis_ex.Prelude.{
  ℕ, zero, suc, ◌<◌, ◌≡◌, ◌⊎◌, inl, inr, refl, sym, ap, ◌∙◌, Bool, true, false, List, [], ◌∷◌,
  Option, none, some, arith,
}
use mathlib.Core.Path.{subst}
use lachesis_ex.Kvdb.{Bytes}
use lachesis_ex.Kvdb.Writes.{bytes_eq_refl}
use lachesis_ex.Kvdb.Order.{bytes_lt-cases, find_key, Above, IsAscending}
use lachesis_ex.Kvdb.Iterator.{Iterator, has_its_prefix, is_after, init_iterator, next, iterate}
use lachesis_ex.Kvdb.Iterator.Follows.{is_from, IsWanted, AllKeys, Follows, IsNext, find_key-below}
use lachesis_ex.Kvdb.Iterator.Visits.{ne-lt, is_after_trans}
use lachesis_ex.Kvdb.Iterator.Loop.{size}
use lachesis_ex.Kvdb.Iterator.Least.{Exhausted, NextEnd, next_loop-NextEnd}

module _ (contents : Bytes → Option Bytes) (start prefix : Option Bytes)
    (fits : (prefix ≡ none) ⊎ (start ≡ prefix)) where
  -- The pairs after `last`, in the order of their keys, each key once, and no others.
  pub record IsListing (last : Option Bytes) (out : List (Bytes × Bytes)) : Type 0 where
    pub ascending : IsAscending out
    pub all_after : AllKeys (is_after last) out
    pub all_from : AllKeys (is_from start) out
    pub all_prefix : AllKeys (has_its_prefix prefix) out
    pub reads :
        (j : Bytes) → IsWanted start prefix j → is_after last j ≡ true → find_key j out ≡ contents j

  Above-AllKeys :
      (k : Bytes) (es : List (Bytes × Bytes)) → AllKeys (is_after (some k)) es → Above k es
  Above-AllKeys k [] a = tt
  Above-AllKeys k ((j, v) ∷ es) (first, a) = (first, Above-AllKeys k es a)

  AllKeys-after :
      (last : Option Bytes) (k : Bytes) (es : List (Bytes × Bytes))
      → is_after last k ≡ true
      → AllKeys (is_after (some k)) es
      → AllKeys (is_after last) es
  AllKeys-after last k [] h a = tt
  AllKeys-after last k ((j, v) ∷ es) h (first, a) =
      (is_after_trans last k j h first, AllKeys-after last k es h a)

  IsListing-nil :
      (last : Option Bytes) → Exhausted contents start prefix fits last → IsListing last []
  unfolding find_key
  IsListing-nil last h = record {
    ascending = tt;
    all_after = tt;
    all_from = tt;
    all_prefix = tt;
    reads = λ j w a. sym (h j w a);
  }

  IsListing-cons :
      (last : Option Bytes) (k v : Bytes) (out : List (Bytes × Bytes))
      → IsNext contents start prefix last k v
      → IsListing (some k) out
      → IsListing last ((k, v) ∷ out)
  unfolding find_key
  IsListing-cons last k v out n l = record {
    ascending = (Above-AllKeys k out l.all_after, l.ascending);
    all_after = (n.follows, AllKeys-after last k out n.follows l.all_after);
    all_from = (n.wanted.0, l.all_from);
    all_prefix = (n.wanted.1, l.all_prefix);
    reads = λ j w a. elim (bytes_lt-cases j k) [
      | inl below ↦
          find_key-below j k v out below (Above-AllKeys k out l.all_after)
          ∙ sym (n.least j w a below)
      | inr (inl same) ↦
          let here : find_key k ((k, v) ∷ out) ≡ some v = rw (bytes_eq_refl k) refl in
          ap (λ x. find_key x ((k, v) ∷ out)) same ∙ here ∙ sym n.holds ∙ ap contents (sym same)
      | inr (inr above) ↦ rw (ne-lt k j above) (l.reads j w above)
    ];
  }

  init-inited : (it : Iterator) → it.inited ≡ true → init_iterator it ≡ it
  unfolding init_iterator
  init-inited it e = ground arith

  -- The rest of an iteration that goes on from a pair.
  abbrev Lists : ℕ → ℕ → Iterator → Option Bytes → Type 0
  Lists rounds fuel it last =
      (out : List (Bytes × Bytes)) × (iterate rounds fuel it ≡ some out) × IsListing last out

  iterate-next :
      (rounds fuel : ℕ) (it : Iterator) (last : Option Bytes) (r : Bool × Iterator)
      → next fuel it ≡ some r
      → NextEnd contents start prefix fits last (init_iterator it) r
      → ((key : Bytes)
          → Follows contents start prefix r.1 (some key)
          → size r.1 < size (init_iterator it)
          → Lists rounds fuel r.1 (some key))
      → Lists (suc rounds) fuel it last
  unfolding iterate
  iterate-next rounds fuel it last (false, following) e end rest =
      ([], rw (e, iterate) refl, IsListing-nil last end)
  iterate-next rounds fuel it last (true, following) e (found, less) rest =
      let (out, is, lists) = rest found.key found.goes_on less in
      (
        (found.key, found.value) ∷ out,
        rw (e, iterate) (rw (found.current, iterate) (rw (is, iterate) refl)),
        IsListing-cons last found.key found.value out found.is_next lists,
      )

  pub iterate-Lists :
      (rounds fuel : ℕ) (it : Iterator) (last : Option Bytes)
      → Follows contents start prefix (init_iterator it) last
      → size (init_iterator it) < rounds
      → size (init_iterator it) < fuel
      → Lists rounds fuel it last
  unfolding next
  iterate-Lists zero fuel it last f r h = absurd (omega arith)
  iterate-Lists (suc rounds) fuel it last f r h =
      let (end, is, ends) =
        next_loop-NextEnd contents start prefix fits fuel (init_iterator it) last f h in
      iterate-next rounds fuel it last end is ends λ key g less.
        let same : init_iterator end.1 ≡ end.1 = init-inited end.1 g.inited in
        iterate-Lists rounds fuel end.1 (some key)
          (subst (λ x. Follows contents start prefix x (some key)) (sym same) g)
          (rw same (omega arith)) (rw same (omega arith))
