-- ===== src/Inter/Serializer.antt =====
-- inter/event_serializer.go: the compact binary form of the header of an event.
pub mod Compact
pub mod RoundTrip
use lachesis_ex.Prelude.{
  ℕ, zero, suc, ◌+◌, ◌-◌, ◌*◌, ◌/◌, ◌%◌, ◌^◌, Bool, true, false, not, ◌&&◌, List, [], ◌∷◌, ◌++◌,
  map, Option, none, some, ◌>>=◌, length, get_or, ltb, ◌==◌, if◌then◌else◌, word32, word64,
}
use lachesis_ex.Fast.{pack, pop_values, read_bytes}
use lachesis_ex.Inter.{EventHeaderData}

-- How decoding ends: a value, or one of the two errors. A panic while decoding is the first.
pub data Decoded {ℓ} (A : Type ℓ) : Type ℓ where
  decoded : A → Decoded A
  invalid non_canonical : Decoded A

infixl 5 ◌>>=ₑ◌
abbrev pub ◌>>=ₑ◌ {ℓ κ} : {A : Type ℓ} {B : Type κ} → Decoded A → (A → Decoded B) → Decoded B
decoded a >>=ₑ f = f a
invalid >>=ₑ f = invalid
non_canonical >>=ₑ f = non_canonical

abbrev pub or_invalid {ℓ} : {A : Type ℓ} → Option A → Decoded A
or_invalid none = invalid
or_invalid (some a) = decoded a

-- `writeUintCompact`, at most so many bytes.
unfoldable pub write_uint_compact : ℕ → ℕ → List ℕ
write_uint_compact zero v = []
write_uint_compact (suc size) v =
    v % 256 ∷ (if v / 256 == 0 then [] else write_uint_compact size (v / 256))

-- The number with these bytes, the lowest first.
unfoldable pub value_of : List ℕ → ℕ
value_of [] = 0
value_of (b ∷ bs) = b + 256 * value_of bs

unfoldable pub last_of : List ℕ → ℕ
last_of [] = 0
last_of (b ∷ []) = b
last_of (b ∷ c ∷ bs) = last_of (c ∷ bs)

-- `readUintCompact`
unfoldable pub read_uint_compact : ℕ → List ℕ → Decoded (ℕ × List ℕ)
unfolding read_bytes value_of last_of
read_uint_compact n buf = or_invalid (read_bytes n buf) >>=ₑ λ (bs, rest).
    if ltb 1 n && last_of bs == 0 then non_canonical else decoded (value_of bs % word64, rest)

-- The bytes of a hash, the highest first, and the hash of such bytes.
unfoldable pub hash_bytes : ℕ → ℕ → List ℕ
hash_bytes zero h = []
hash_bytes (suc n) h = hash_bytes n (h / 256) ++ h % 256 ∷ []

unfoldable pub of_hash_bytes : ℕ → List ℕ → ℕ
of_hash_bytes h [] = h
of_hash_bytes h (b ∷ bs) = of_hash_bytes (h * 256 + b) bs

-- The fields by their widths.
unfoldable pub fields64 : EventHeaderData → List ℕ
fields64 e =
    e.gas_power_left.0 ∷ e.gas_power_left.1 ∷ e.gas_power_used ∷ e.claimed_time ∷ e.median_time ∷ []

unfoldable pub fields32 : EventHeaderData → List ℕ
fields32 e =
    e.version ∷ e.epoch ∷ e.seq ∷ e.frame ∷ e.creator ∷ e.lamport ∷ length e.parents % word32 ∷ []

abbrev pub flag : Bool → ℕ
flag b = if b then 1 else 0

unfoldable pub flags : ℕ → EventHeaderData → List ℕ
flags empty_tx_hash e =
    flag e.is_root ∷ flag (e.prev_epoch_hash == 0) ∷ flag (e.tx_hash == empty_tx_hash) ∷ []

-- The numbers in the header of the encoding, one less than the sizes.
abbrev pub sizes : ℕ → List ℕ → List ℕ
sizes size vs = map (λ v. length (write_uint_compact size v) - 1) vs

unfoldable pub write_fields : ℕ → List ℕ → List ℕ
unfolding write_uint_compact
write_fields size [] = []
write_fields size (v ∷ vs) = write_uint_compact size v ++ write_fields size vs

-- The parents without their epoch, which are the four highest bytes.
unfoldable pub write_parents : List ℕ → List ℕ
unfolding hash_bytes
write_parents [] = []
write_parents (p ∷ ps) = hash_bytes 28 (p % 2 ^ 224) ++ write_parents ps

-- What follows the header of the encoding.
unfoldable pub body : ℕ → EventHeaderData → List ℕ
unfolding write_fields fields64 fields32 write_parents hash_bytes
body empty_tx_hash e =
    write_fields 8 (fields64 e)
    ++ (write_fields 4 (fields32 e)
        ++ (write_parents e.parents
            ++ ((if e.prev_epoch_hash == 0 then [] else hash_bytes 32 e.prev_epoch_hash)
                ++ ((if e.tx_hash == empty_tx_hash then [] else hash_bytes 32 e.tx_hash)
                    ++ e.extra))))

-- `MarshalBinary`, where `none` is a panic of a push.
unfoldable pub marshal_binary : ℕ → EventHeaderData → Option (List ℕ)
unfolding pack body write_uint_compact fields64 fields32 flags
marshal_binary empty_tx_hash e = pack 4 (sizes 8 (fields64 e)) 5 >>= λ header3.
    pack 2 (sizes 4 (fields32 e) ++ flags empty_tx_hash e) 10 >>= λ header2.
    some (header3 ++ (header2 ++ body empty_tx_hash e))

-- The loop that reads fields, for the numbers of the header.
unfoldable pub read_fields : List ℕ → List ℕ → Decoded (List ℕ × List ℕ)
unfolding read_uint_compact
read_fields [] buf = decoded ([], buf)
read_fields (n ∷ ns) buf = read_uint_compact (suc n) buf >>=ₑ λ (v, rest).
    read_fields ns rest >>=ₑ λ (vs, end). decoded (v ∷ vs, end)

unfoldable pub read_parents : ℕ → ℕ → List ℕ → Decoded (List ℕ × List ℕ)
unfolding read_bytes of_hash_bytes
read_parents zero epoch buf = decoded ([], buf)
read_parents (suc n) epoch buf = or_invalid (read_bytes 28 buf) >>=ₑ λ (bs, rest).
    read_parents n epoch rest >>=ₑ λ (ps, end). decoded (of_hash_bytes epoch bs ∷ ps, end)

-- A hash that is in the bytes unless the flag says that it is the default, which the bytes must
-- not hold.
unfoldable pub read_hash : Bool → ℕ → ℕ → List ℕ → Decoded (ℕ × List ℕ)
unfolding read_bytes of_hash_bytes
read_hash is_default default kept buf =
    if is_default
    then decoded (kept, buf)
    else (or_invalid (read_bytes 32 buf) >>=ₑ λ (bs, rest).
        if of_hash_bytes 0 bs == default then non_canonical else decoded (of_hash_bytes 0 bs, rest))

-- `UnmarshalBinary` after the header of the encoding, for the numbers that it holds.
unfoldable pub read_header :
    ℕ → EventHeaderData → List ℕ → List ℕ → List ℕ → List ℕ → Decoded EventHeaderData
unfolding read_fields read_parents read_hash
read_header empty_tx_hash e sizes64 sizes32 bools buf = read_fields sizes64 buf >>=ₑ λ (f64, buf1).
    read_fields sizes32 buf1 >>=ₑ λ (f32, buf2).
    read_parents (get_or f32 6 0 % word32) (get_or f32 1 0 % word32) buf2 >>=ₑ λ (parents, buf3).
    read_hash (not (get_or bools 1 0 == 0)) 0 e.prev_epoch_hash buf3 >>=ₑ λ (prev_hash, buf4).
    read_hash (not (get_or bools 2 0 == 0)) empty_tx_hash empty_tx_hash buf4
    >>=ₑ λ (tx_hash, extra). decoded (record e {
      version = get_or f32 0 0 % word32;
      epoch = get_or f32 1 0 % word32;
      seq = get_or f32 2 0 % word32;
      frame = get_or f32 3 0 % word32;
      is_root = not (get_or bools 0 0 == 0);
      creator = get_or f32 4 0 % word32;
      prev_epoch_hash = prev_hash;
      parents = parents;
      gas_power_left = (get_or f64 0 0, get_or f64 1 0);
      gas_power_used = get_or f64 2 0;
      lamport = get_or f32 5 0 % word32;
      claimed_time = get_or f64 3 0;
      median_time = get_or f64 4 0;
      tx_hash = tx_hash;
      extra = extra;
    })

-- `UnmarshalBinary` into the header `e`, whose previous epoch hash stays if the bytes have none.
-- The source pops each number when it needs it.
unfoldable pub unmarshal_binary : ℕ → EventHeaderData → List ℕ → Decoded EventHeaderData
unfolding read_bytes pop_values read_header
unmarshal_binary empty_tx_hash e raw = or_invalid (read_bytes 3 raw) >>=ₑ λ (header3, more).
    or_invalid (read_bytes 3 more) >>=ₑ λ (header2, buf).
    or_invalid (pop_values 4 header3 0 5) >>=ₑ λ sizes64.
    or_invalid (pop_values 2 header2 0 7) >>=ₑ λ sizes32.
    or_invalid (pop_values 2 header2 7 3) >>=ₑ λ bools.
    read_header empty_tx_hash e sizes64 sizes32 bools buf
