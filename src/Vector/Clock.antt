-- ===== src/Vector/Clock.antt =====
-- vector/vector.go: the vector clocks, kept as bytes with 4 or 8 for an entry.
-- Indices stay far below 2 ^ 28, so the offsets do not wrap.
use lachesis_ex.Prelude.{
  ℕ, ◌↔◌, refl, true, ◌+◌, ◌-◌, ◌*◌, ◌/◌, ◌%◌, ◌^◌, ◌≤◌, ◌<◌, ◌≡◌, ap, ◌∙◌, ◌⊎◌, Bool, List, ◌++◌,
  arith, length, replicate, length-append, length-replicate, leb, ◌==◌, if◌then◌else◌, ◌&&◌, word32,
  word64,
}
use lachesis_ex.Vector.Bytes.{
  le_bytes, from_le, read, write, length-le_bytes, from_le-le_bytes, length-write, read-write_self,
  read-write_apart, read-zeros, read_beyond,
}

pub record BranchSeq : Type 0 where
  pub seq : ℕ
  pub min_seq : ℕ

abbrev pub fork_detected_seq : BranchSeq
fork_detected_seq = record { seq = 0; min_seq = 2 ^ 31 - 1 }

-- `BranchSeq.IsForkDetected`
abbrev pub is_fork_detected : BranchSeq → Bool
is_fork_detected s = s.seq == fork_detected_seq.seq && s.min_seq == fork_detected_seq.min_seq

-- The entry carries the mark of a fork.
abbrev pub IsFork : BranchSeq → Type 0
IsFork s = s ≡ fork_detected_seq

pub IsFork-is_fork_detected : (s : BranchSeq) → IsFork s ↔ (is_fork_detected s ≡ true)
IsFork-is_fork_detected s = (λ h. rw h refl, to)
  where
    to : is_fork_detected s ≡ true → IsFork s
    to h =
        let seq : s.seq ≡ 0 = ground arith in
        let min : s.min_seq ≡ 2 ^ 31 - 1 = ground arith in
        λ i. record { seq = seq i; min_seq = min i }

-- The loop `for int(i) >= b.Size() { append zeros }`, with entries of `w` bytes.
abbrev grow : ℕ → List ℕ → ℕ → List ℕ
grow w b i = b ++ replicate (w * (i + 1 - length b / w)) 0

unfoldable pub new_lowest_after_seq : ℕ → List ℕ
new_lowest_after_seq size = replicate (size * 4) 0

unfoldable pub new_highest_before_time : ℕ → List ℕ
new_highest_before_time size = replicate (size * 8) 0

unfoldable pub new_highest_before_seq : ℕ → List ℕ
new_highest_before_seq size = replicate (size * 8) 0

-- `LowestAfterSeq.Get`
unfoldable pub lowest_after_get : List ℕ → ℕ → ℕ
lowest_after_get b i = if leb (length b / 4) i then 0 else from_le (read b (i * 4) 4)

-- `LowestAfterSeq.Set`
unfoldable pub lowest_after_set : List ℕ → ℕ → ℕ → List ℕ
lowest_after_set b i seq = write (grow 4 b i) (i * 4) (le_bytes 4 seq)

-- `HighestBeforeTime.Get`
unfoldable pub before_time_get : List ℕ → ℕ → ℕ
before_time_get b i = if leb (length b / 8) i then 0 else from_le (read b (i * 8) 8)

-- `HighestBeforeTime.Set`
unfoldable pub before_time_set : List ℕ → ℕ → ℕ → List ℕ
before_time_set b i time = write (grow 8 b i) (i * 8) (le_bytes 8 time)

-- `HighestBeforeSeq.Get`
unfoldable pub before_seq_get : List ℕ → ℕ → BranchSeq
before_seq_get b i =
    if leb (length b / 8) i
    then record { seq = 0; min_seq = 0 }
    else record { seq = from_le (read b (i * 8) 4); min_seq = from_le (read b (i * 8 + 4) 4) }

-- `HighestBeforeSeq.Set`
unfoldable pub before_seq_set : List ℕ → ℕ → BranchSeq → List ℕ
before_seq_set b i s =
    write (write (grow 8 b i) (i * 8) (le_bytes 4 s.seq)) (i * 8 + 4) (le_bytes 4 s.min_seq)

-- The bytes make up whole entries of `w` bytes.
abbrev pub IsAligned : ℕ → List ℕ → Type 0
IsAligned w b = length b % w ≡ 0

length-grow :
    (w : ℕ) (b : List ℕ) (i : ℕ) → length (grow w b i) ≡ length b + w * (i + 1 - length b / w)
length-grow w b i = omega (
  arith,
  length-append b (replicate (w * (i + 1 - length b / w)) 0),
  length-replicate {A = ℕ} (w * (i + 1 - length b / w)) 0,
)

lowest_after_read :
    (b : List ℕ) (i : ℕ) → IsAligned 4 b → lowest_after_get b i ≡ from_le (read b (i * 4) 4)
unfolding lowest_after_get
lowest_after_read b i a = ground (arith, read_beyond b (i * 4) 4)

before_time_read :
    (b : List ℕ) (i : ℕ) → IsAligned 8 b → before_time_get b i ≡ from_le (read b (i * 8) 8)
unfolding before_time_get
before_time_read b i a = ground (arith, read_beyond b (i * 8) 8)

before_seq_read :
    (b : List ℕ) (i : ℕ)
    → IsAligned 8 b
    → before_seq_get b i
      ≡ record { seq = from_le (read b (i * 8) 4); min_seq = from_le (read b (i * 8 + 4) 4) }
unfolding before_seq_get
before_seq_read b i a = ground (arith, read_beyond b (i * 8) 4, read_beyond b (i * 8 + 4) 4)

module _ (b : List ℕ) (off k v : ℕ) (fits : off + k ≤ length b) where
  -- The number that was just written.
  read_back : v < 256 ^ k → from_le (read (write b off (le_bytes k v)) off k) ≡ v
  read_back h =
      let l = length-le_bytes k v in
      ap from_le (rw l at (read-write_self b off (le_bytes k v) (omega arith)))
      ∙ from_le-le_bytes k v h

  -- A number that lies apart from it.
  read_other :
      (to m : ℕ)
      → (to + m ≤ off) ⊎ (off + k ≤ to)
      → from_le (read (write b off (le_bytes k v)) to m) ≡ from_le (read b to m)
  read_other to m apart =
      let l = length-le_bytes k v in
      ap from_le (read-write_apart b off (le_bytes k v) to m (omega arith) (rw l apart))

read_grown :
    (w : ℕ) (b : List ℕ) (i to m : ℕ) → from_le (read (grow w b i) to m) ≡ from_le (read b to m)
read_grown w b i to m = ap from_le (read-zeros b _ to m)

pub lowest_after_set-IsAligned :
    (b : List ℕ) (i seq : ℕ) → IsAligned 4 b → IsAligned 4 (lowest_after_set b i seq)
unfolding lowest_after_set
lowest_after_set-IsAligned b i seq a =
    omega (arith, length-grow 4 b i, length-write (grow 4 b i) (i * 4) (le_bytes 4 seq))

pub before_time_set-IsAligned :
    (b : List ℕ) (i time : ℕ) → IsAligned 8 b → IsAligned 8 (before_time_set b i time)
unfolding before_time_set
before_time_set-IsAligned b i time a =
    omega (arith, length-grow 8 b i, length-write (grow 8 b i) (i * 8) (le_bytes 8 time))

pub before_seq_set-IsAligned :
    (b : List ℕ) (i : ℕ) (s : BranchSeq) → IsAligned 8 b → IsAligned 8 (before_seq_set b i s)
unfolding before_seq_set
before_seq_set-IsAligned b i s a =
    let lower = write (grow 8 b i) (i * 8) (le_bytes 4 s.seq) in
    omega (
      arith,
      length-grow 8 b i,
      length-write (grow 8 b i) (i * 8) (le_bytes 4 s.seq),
      length-write lower (i * 8 + 4) (le_bytes 4 s.min_seq),
    )

lowest_after_written :
    (b : List ℕ) (i j seq : ℕ)
    → seq < word32
    → from_le (read (lowest_after_set b i seq) (j * 4) 4)
      ≡ (if i == j then seq else from_le (read b (j * 4) 4))
unfolding lowest_after_set
lowest_after_written b i j seq h =
    let fits : i * 4 + 4 ≤ length (grow 4 b i) = omega (arith, length-grow 4 b i) in
    ground (
      arith,
      read_back (grow 4 b i) (i * 4) 4 seq fits h,
      read_other (grow 4 b i) (i * 4) 4 seq fits (j * 4) 4,
      read_grown 4 b i (j * 4) 4,
    )

-- Reading an entry of a LowestAfter vector after a write gives the written number at that
-- index, also beyond the old end, and what was there before at every other index. The vector has
-- whole entries, and the number 32 bits.
pub lowest_after_get-set :
    (b : List ℕ) (i j seq : ℕ)
    → IsAligned 4 b
    → seq < word32
    → lowest_after_get (lowest_after_set b i seq) j ≡ (if i == j then seq else lowest_after_get b j)
lowest_after_get-set b i j seq a h =
    rw
      (
        lowest_after_read (lowest_after_set b i seq) j (lowest_after_set-IsAligned b i seq a),
        lowest_after_read b j a,
      )
      (lowest_after_written b i j seq h)

before_time_written :
    (b : List ℕ) (i j time : ℕ)
    → time < word64
    → from_le (read (before_time_set b i time) (j * 8) 8)
      ≡ (if i == j then time else from_le (read b (j * 8) 8))
unfolding before_time_set
before_time_written b i j time h =
    let fits : i * 8 + 8 ≤ length (grow 8 b i) = omega (arith, length-grow 8 b i) in
    ground (
      arith,
      read_back (grow 8 b i) (i * 8) 8 time fits h,
      read_other (grow 8 b i) (i * 8) 8 time fits (j * 8) 8,
      read_grown 8 b i (j * 8) 8,
    )

-- Reading an entry of a HighestBeforeTime vector after a write gives the written time at that
-- index, also beyond the old end, and what was there before at every other index. The vector has
-- whole entries, and the time 64 bits.
pub before_time_get-set :
    (b : List ℕ) (i j time : ℕ)
    → IsAligned 8 b
    → time < word64
    → before_time_get (before_time_set b i time) j ≡ (if i == j then time else before_time_get b j)
before_time_get-set b i j time a h =
    rw
      (
        before_time_read (before_time_set b i time) j (before_time_set-IsAligned b i time a),
        before_time_read b j a,
      )
      (before_time_written b i j time h)

-- An entry has 8 bytes, the sequence numbers 4 each.
abbrev entry : List ℕ → ℕ → BranchSeq
entry b j = record { seq = from_le (read b (j * 8) 4); min_seq = from_le (read b (j * 8 + 4) 4) }

before_seq_written :
    (b : List ℕ) (i j : ℕ) (s : BranchSeq)
    → s.seq < word32
    → s.min_seq < word32
    → entry (before_seq_set b i s) j ≡ (if i == j then s else entry b j)
unfolding before_seq_set
before_seq_written b i j s h k =
    let g = grow 8 b i in
    let fits : i * 8 + 4 ≤ length g = omega (arith, length-grow 8 b i) in
    let lower = write g (i * 8) (le_bytes 4 s.seq) in
    let fits' : i * 8 + 4 + 4 ≤ length lower =
      omega (arith, length-grow 8 b i, length-write g (i * 8) (le_bytes 4 s.seq)) in
    ground (
      arith,
      read_back g (i * 8) 4 s.seq fits h,
      read_other g (i * 8) 4 s.seq fits (j * 8) 4,
      read_other g (i * 8) 4 s.seq fits (j * 8 + 4) 4,
      read_back lower (i * 8 + 4) 4 s.min_seq fits' k,
      read_other lower (i * 8 + 4) 4 s.min_seq fits' (j * 8) 4,
      read_other lower (i * 8 + 4) 4 s.min_seq fits' (j * 8 + 4) 4,
      read_grown 8 b i (j * 8) 4,
      read_grown 8 b i (j * 8 + 4) 4,
    )

-- Reading an entry of a HighestBeforeSeq vector after a write gives the written pair at that
-- index, also beyond the old end, and what was there before at every other index. The vector has
-- whole entries, and the pair is of numbers of 32 bits.
pub before_seq_get-set :
    (b : List ℕ) (i j : ℕ) (s : BranchSeq)
    → IsAligned 8 b
    → s.seq < word32
    → s.min_seq < word32
    → before_seq_get (before_seq_set b i s) j ≡ (if i == j then s else before_seq_get b j)
before_seq_get-set b i j s a h k =
    rw
      (
        before_seq_read (before_seq_set b i s) j (before_seq_set-IsAligned b i s a),
        before_seq_read b j a,
      )
      (before_seq_written b i j s h k)
