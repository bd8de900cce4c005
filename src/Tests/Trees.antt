-- ===== src/Tests/Trees.antt =====
-- A sorted tree as a list of entries, for the tests of the caches.
use lachesis_ex.Prelude.{
  ◌≡◌, inl, inr, refl, sym, ap, ◌∙◌, true, false, List, [], ◌∷◌, Option, none, some, if◌then◌else◌,
  arith, Bool-cases,
}
use mathlib.Core.Path.{subst}
use lachesis_ex.Kvdb.{Bytes, bytes_eq, Write, find, HasOnce, Tree}
use lachesis_ex.Kvdb.Writes.{bytes_eq-eq, bytes_eq_refl}

unfoldable pub put_entry : Bytes → Option Bytes → List Write → List Write
unfolding bytes_eq
put_entry k v [] = (k, v) ∷ []
put_entry k v ((j, w) ∷ ws) = if bytes_eq j k then (k, v) ∷ ws else (j, w) ∷ put_entry k v ws

pub find-put_entry :
    (k j : Bytes) (v : Option Bytes) (ws : List Write)
    → find j (put_entry k v ws) ≡ (if bytes_eq k j then some v else find j ws)
unfolding find put_entry
find-put_entry k j v [] = refl
find-put_entry k j v ((i, w) ∷ ws) = elim (Bool-cases (bytes_eq i k)) [
  | inl e ↦
      let same : i ≡ k = bytes_eq-eq i k e in
      rw (e, same) (elim (Bool-cases (bytes_eq k j)) [ inl q ↦ rw q refl | inr q ↦ rw q refl ])
  | inr e ↦ elim (Bool-cases (bytes_eq k j)) [
    | inl f ↦
        let same : k ≡ j = bytes_eq-eq k j f in
        let apart : bytes_eq i j ≡ false = ap (λ x. bytes_eq i x) (sym same) ∙ e in
        ground (arith, find-put_entry k j v ws)
    | inr f ↦ ground (arith, find-put_entry k j v ws)
  ]
]

pub put_entry-HasOnce :
    (k : Bytes) (v : Option Bytes) (ws : List Write) → HasOnce ws → HasOnce (put_entry k v ws)
unfolding put_entry find
put_entry-HasOnce k v [] d = (refl, tt)
put_entry-HasOnce k v ((i, w) ∷ ws) (new, d) = elim (Bool-cases (bytes_eq i k)) [
  | inl e ↦ let same : i ≡ k = bytes_eq-eq i k e in rw e (subst (λ x. find x ws ≡ none) same new, d)
  | inr e ↦ rw e (go e (find-put_entry k i v ws), put_entry-HasOnce k v ws d)
]
  where
    go :
        bytes_eq i k ≡ false
        → (find i (put_entry k v ws) ≡ (if bytes_eq k i then some v else find i ws))
        → find i (put_entry k v ws) ≡ none
    go e h = elim (Bool-cases (bytes_eq k i)) [
      | inl q ↦
          let back : bytes_eq i k ≡ true =
            ap (λ x. bytes_eq x k) (sym (bytes_eq-eq k i q)) ∙ bytes_eq_refl k in
          absurd (ground arith)
      | inr q ↦ h ∙ rw q new
    ]

pub find-empty : (k : Bytes) → find k [] ≡ none
unfolding find
find-empty k = refl

abbrev pub Entries : Type 0
Entries = (ws : List Write) × HasOnce ws

abbrev pub tree : Tree Entries
tree = record {
  empty = ([], tt);
  get = λ k t. find k t.0;
  put = λ k v t. (put_entry k v t.0, put_entry-HasOnce k v t.0 t.1);
  entries = λ t. t.0;
  get-empty = find-empty;
  get-put = λ k j v t. find-put_entry k j v t.0;
  entries-get = λ k t. refl;
  entries-HasOnce = λ t. t.1;
}
