-- ===== src/Vector/Observe/Entries.antt =====
-- An event's entry for a branch covers that of its parent.
use lachesis_ex.Prelude.{
  ℕ, ◌<◌, ◌≡◌, refl, sym, ap, ◌∙◌, ◌||◌, List, ltb, ◌==◌, if◌then◌else◌, word32, Bool-cases, ==_iff,
  inl, inr,
}
use lachesis_ex.Vector.Clock.{
  BranchSeq, IsAligned, before_seq_get, before_seq_set, before_seq_get-set,
  before_seq_set-IsAligned,
}
use lachesis_ex.Vector.Observe.{take_min, take_seq}

-- The range of numbers that covers both ranges; a range that ends in 0 is empty.
abbrev pub covering : BranchSeq → BranchSeq → BranchSeq
covering a b = record {
  seq = if ltb a.seq b.seq then b.seq else a.seq;
  min_seq = if a.seq == 0 || ltb b.min_seq a.min_seq then b.min_seq else a.min_seq;
}

unchanged :
    (vec : List ℕ) (branch j : ℕ) (mine : BranchSeq)
    → before_seq_get vec branch ≡ mine
    → before_seq_get vec j ≡ (if branch == j then mine else before_seq_get vec j)
unchanged vec branch j mine is = elim (Bool-cases (branch == j)) [
  | inl e ↦ rw e (ap (before_seq_get vec) (sym ((==_iff branch j).0 e)) ∙ is)
  | inr e ↦ rw e refl
]

set_twice :
    (vec : List ℕ) (branch j : ℕ) (s t : BranchSeq)
    → IsAligned 8 vec
    → (s.seq < word32) × (s.min_seq < word32)
    → (t.seq < word32) × (t.min_seq < word32)
    → before_seq_get (before_seq_set (before_seq_set vec branch s) branch t) j
      ≡ (if branch == j then t else before_seq_get vec j)
set_twice vec branch j s t a (h, k) (h', k') =
    let second =
      before_seq_get-set (before_seq_set vec branch s) branch j t
        (before_seq_set-IsAligned vec branch s a) h' k' in
    let first = before_seq_get-set vec branch j s a h k in
    elim (Bool-cases (branch == j)) [
      | inl e ↦ rw e (rw e at second)
      | inr e ↦ rw e ((rw e at second) ∙ (rw e at first))
    ]

-- After the entry of a parent is taken, the event's entry for the branch covers its old range and
-- the parent's, and every other entry is as before. The vector has whole entries, and the two
-- ranges are of 32-bit numbers.
pub take_seq-covering :
    (vec times his_times : List ℕ) (branch j : ℕ) (mine his : BranchSeq)
    → IsAligned 8 vec
    → before_seq_get vec branch ≡ mine
    → (mine.seq < word32) × (mine.min_seq < word32)
    → (his.seq < word32) × (his.min_seq < word32)
    → before_seq_get (take_seq (take_min vec branch mine his) times his_times branch his).0 j
      ≡ (if branch == j then covering mine his else before_seq_get vec j)
unfolding take_seq take_min
take_seq-covering vec times his_times branch j mine his a is (m, mm) (h, hm) =
    elim (Bool-cases (mine.seq == 0 || ltb his.min_seq mine.min_seq)) [
      | inl low ↦ elim (Bool-cases (ltb mine.seq his.seq)) [
        | inl high ↦
            rw (low, high)
              (set_twice vec branch j (record { seq = mine.seq; min_seq = his.min_seq })
                (record { seq = his.seq; min_seq = his.min_seq }) a (m, hm) (h, hm))
        | inr old ↦
            rw (low, old)
              (before_seq_get-set vec branch j (record { seq = mine.seq; min_seq = his.min_seq }) a
                m hm)
      ]
      | inr kept ↦ elim (Bool-cases (ltb mine.seq his.seq)) [
        | inl high ↦
            rw (kept, high)
              (before_seq_get-set vec branch j (record { seq = his.seq; min_seq = mine.min_seq }) a
                h mm)
        | inr old ↦ rw (kept, old) (unchanged vec branch j mine is)
      ]
    ]
