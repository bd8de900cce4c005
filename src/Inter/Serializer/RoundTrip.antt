-- ===== src/Inter/Serializer/RoundTrip.antt =====
-- The header of an event is decoded as it was encoded.
use lachesis_ex.Prelude.{
  ℕ, zero, suc, ◌-◌, ◌/◌, ◌%◌, ◌^◌, ◌≤◌, ◌<◌, ◌≡◌, refl, sym, ap, ap₂, ◌∙◌, inl, inr, Bool, true,
  false, not, List, [], ◌∷◌, ◌++◌, Option, some, length, get_or, ◌==◌, ==_iff, if◌then◌else◌, arith,
  word32, Bool-cases,
}
use lachesis_ex.Fast.{pop_values}
use lachesis_ex.Fast.Packed.{pack-4, pack-2}
use lachesis_ex.Inter.{EventHeaderData}
use lachesis_ex.Inter.Serializer.{
  Decoded, decoded, ◌>>=ₑ◌, or_invalid, write_uint_compact, hash_bytes, fields64, fields32, flag,
  flags, sizes, write_fields, write_parents, body, marshal_binary, read_fields, read_parents,
  read_hash, read_header, unmarshal_binary,
}
use lachesis_ex.Inter.Serializer.Compact.{
  AllBelow, read_fields-write, OfEpoch, read_parents-write, read_hash-write,
}

length-write : (n v : ℕ) → length (write_uint_compact (suc n) v) - 1 ≤ n
unfolding write_uint_compact
length-write zero v = ground arith
length-write (suc n) v = ground (arith, length-write n (v / 256))

-- A hash and its flag.
read_hash-flag :
    (default kept h : ℕ) (rest : List ℕ)
    → h < 256 ^ 32
    → ((h == default) ≡ true → kept ≡ h)
    → read_hash
        (not (flag (h == default) == 0))
        default
        kept
        ((if h == default then [] else hash_bytes 32 h) ++ rest)
      ≡ decoded (h, rest)
unfolding read_hash
read_hash-flag default kept h rest l k = elim (Bool-cases (h == default)) [
  | inl e ↦ rw (e, k e) refl
  | inr e ↦ rw e (read_hash-write default kept h rest l e)
]

-- The steps after the header of the encoding.
read_header-steps :
    (empty_tx_hash prev_hash tx_hash : ℕ) (e : EventHeaderData)
    (s64 f64 s32 f32 bools parents buf buf1 buf2 buf3 buf4 extra : List ℕ)
    → read_fields s64 buf ≡ decoded (f64, buf1)
    → read_fields s32 buf1 ≡ decoded (f32, buf2)
    → read_parents (get_or f32 6 0 % word32) (get_or f32 1 0 % word32) buf2
      ≡ decoded (parents, buf3)
    → read_hash (not (get_or bools 1 0 == 0)) 0 e.prev_epoch_hash buf3 ≡ decoded (prev_hash, buf4)
    → read_hash (not (get_or bools 2 0 == 0)) empty_tx_hash empty_tx_hash buf4
      ≡ decoded (tx_hash, extra)
    → read_header empty_tx_hash e s64 s32 bools buf
      ≡ decoded (record e {
        version = get_or f32 0 0 % word32;
        epoch = get_or f32 1 0 % word32;
        seq = get_or f32 2 0 % word32;
        frame = get_or f32 3 0 % word32;
        is_root = not (get_or bools 0 0 == 0);
        creator = get_or f32 4 0 % word32;
        prev_epoch_hash = prev_hash;
        parents = parents;
        gas_power_left = (get_or f64 0 0, get_or f64 1 0);
        gas_power_used = get_or f64 2 0;
        lamport = get_or f32 5 0 % word32;
        claimed_time = get_or f64 3 0;
        median_time = get_or f64 4 0;
        tx_hash = tx_hash;
        extra = extra;
      })
unfolding read_header
read_header-steps empty_tx_hash prev_hash tx_hash e s64 f64 s32 f32 bools parents buf buf1 buf2 buf3
      buf4 extra h2 h4 h6 h7 h8 =
    rw (h2, h4, h6, h7, h8) refl

-- What fits into the encoding: words of their widths, and parents of the event's epoch.
pub record IsEncodable (e : EventHeaderData) : Type 0 where
  pub words64 : AllBelow (2 ^ 64) (fields64 e)
  pub words32 : AllBelow (2 ^ 32) (fields32 e)
  pub count : length e.parents < word32
  pub of_epoch : OfEpoch e.epoch e.parents
  pub prev_hash : e.prev_epoch_hash < 2 ^ 256
  pub tx_hash : e.tx_hash < 2 ^ 256

not-flag : (b : Bool) → not (flag b == 0) ≡ b
not-flag true = refl
not-flag false = refl

-- `UnmarshalBinary` for the numbers of the header, if they are there.
abbrev with_numbers :
    ℕ
    → EventHeaderData
    → Option (List ℕ)
    → Option (List ℕ)
    → Option (List ℕ)
    → List ℕ
    → Decoded EventHeaderData
with_numbers empty_tx_hash e a b c buf = or_invalid a >>=ₑ λ s64. or_invalid b >>=ₑ λ s32.
    or_invalid c >>=ₑ λ bools. read_header empty_tx_hash e s64 s32 bools buf

unmarshal-body :
    (empty_tx_hash x y z u v w : ℕ) (e new : EventHeaderData)
    → IsEncodable e
    → new.prev_epoch_hash ≡ 0
    → pop_values 4 (x ∷ y ∷ z ∷ []) 0 5 ≡ some (sizes 8 (fields64 e))
    → pop_values 2 (u ∷ v ∷ w ∷ []) 0 7 ≡ some (sizes 4 (fields32 e))
    → pop_values 2 (u ∷ v ∷ w ∷ []) 7 3 ≡ some (flags empty_tx_hash e)
    → unmarshal_binary empty_tx_hash new (x ∷ y ∷ z ∷ u ∷ v ∷ w ∷ body empty_tx_hash e)
      ≡ decoded (record e { hash = new.hash })
unfolding unmarshal_binary body fields64 fields32 flags
unmarshal-body empty_tx_hash x y z u v w e new ok fresh q4 q7 q3 =
    let (h0, (h1, (h2, (h3, (h4, (h5, (h6, _))))))) = ok.words32 in
    let word : (n : ℕ) → n < 2 ^ 32 → n % word32 ≡ n = λ n l. omega (arith, l) in
    let last = (if e.tx_hash == empty_tx_hash then [] else hash_bytes 32 e.tx_hash) ++ e.extra in
    let next = (if e.prev_epoch_hash == 0 then [] else hash_bytes 32 e.prev_epoch_hash) ++ last in
    ap
      (λ o.
        with_numbers empty_tx_hash new o (pop_values 2 (u ∷ v ∷ w ∷ []) 0 7)
          (pop_values 2 (u ∷ v ∷ w ∷ []) 7 3) (body empty_tx_hash e))
      q4
    ∙ ap
        (λ o.
          with_numbers empty_tx_hash new (some (sizes 8 (fields64 e))) o
            (pop_values 2 (u ∷ v ∷ w ∷ []) 7 3) (body empty_tx_hash e))
        q7
    ∙ ap
        (λ o.
          with_numbers empty_tx_hash new (some (sizes 8 (fields64 e))) (some (sizes 4 (fields32 e)))
            o (body empty_tx_hash e))
        q3
    ∙ read_header-steps empty_tx_hash e.prev_epoch_hash e.tx_hash new (sizes 8 (fields64 e))
        (fields64 e) (sizes 4 (fields32 e)) (fields32 e) (flags empty_tx_hash e) e.parents
        (body empty_tx_hash e) (write_fields 4 (fields32 e) ++ (write_parents e.parents ++ next))
        (write_parents e.parents ++ next) next last e.extra
        (read_fields-write 7 (fields64 e) _ (omega arith) ok.words64)
        (read_fields-write 3 (fields32 e) _ (omega arith) ok.words32)
        (ap₂ (λ n f. read_parents n f (write_parents e.parents ++ next))
            (word (length e.parents % word32) h6 ∙ word (length e.parents) ok.count)
            (word e.epoch h1)
          ∙ read_parents-write e.epoch e.parents next ok.of_epoch)
        (read_hash-flag 0 new.prev_epoch_hash e.prev_epoch_hash last ok.prev_hash
          λ d. fresh ∙ sym ((==_iff e.prev_epoch_hash 0).0 d))
        (read_hash-flag empty_tx_hash empty_tx_hash e.tx_hash e.extra ok.tx_hash
          λ d. sym ((==_iff e.tx_hash empty_tx_hash).0 d))
    ∙ rw
        (
          word e.version h0,
          word e.epoch h1,
          word e.seq h2,
          word e.frame h3,
          word e.creator h4,
          word e.lamport h5,
          not-flag e.is_root,
        )
        refl

-- The header of an event is encoded without a panic, and decoded into a new header as it was, but
-- for the cached hash: its words have their widths, its hashes 32 bytes, and its parents are of
-- its epoch.
pub unmarshal_binary-marshal_binary :
    (empty_tx_hash : ℕ) (e new : EventHeaderData)
    → IsEncodable e
    → new.prev_epoch_hash ≡ 0
    → (raw : List ℕ) × (marshal_binary empty_tx_hash e ≡ some raw)
      × (unmarshal_binary empty_tx_hash new raw ≡ decoded (record e { hash = new.hash }))
unfolding marshal_binary body fields64 fields32 flags
unmarshal_binary-marshal_binary empty_tx_hash e new ok fresh =
    let size : (n v : ℕ) → n < 16 → length (write_uint_compact (suc n) v) - 1 < 16 =
      λ n v h. omega (arith, length-write n v) in
    let small : (v : ℕ) → length (write_uint_compact 4 v) - 1 < 4 =
      λ v. omega (arith, length-write 3 v) in
    let bit : (b : Bool) → flag b < 4 = λ b. ground arith in
    let (x, y, z, p4, q4) =
      pack-4 _ _ _ _ _ (size 7 e.gas_power_left.0 (omega arith))
        (size 7 e.gas_power_left.1 (omega arith)) (size 7 e.gas_power_used (omega arith))
        (size 7 e.claimed_time (omega arith)) (size 7 e.median_time (omega arith)) in
    let (u, v, w, p2, q7, q3) =
      pack-2 _ _ _ _ _ _ _ _ _ _ (small e.version) (small e.epoch) (small e.seq) (small e.frame)
        (small e.creator) (small e.lamport) (small (length e.parents % word32)) (bit e.is_root)
        (bit (e.prev_epoch_hash == 0)) (bit (e.tx_hash == empty_tx_hash)) in
    (
      x ∷ y ∷ z ∷ u ∷ v ∷ w ∷ body empty_tx_hash e,
      rw (p4, p2) refl,
      unmarshal-body empty_tx_hash x y z u v w e new ok fresh q4 q7 q3,
    )
