-- ===== src/Tests/Encodings.antt =====
-- Tests and examples for the binary form of the header of an event.
use lachesis_ex.Prelude.{ℕ, ◌+◌, ◌^◌, ◌≡◌, refl, true, false, List, [], ◌∷◌, some, arith}
use lachesis_ex.Inter.{EventHeaderData}
use lachesis_ex.Inter.Serializer.{
  decoded, non_canonical, read_uint_compact, write_uint_compact, marshal_binary, unmarshal_binary,
  fields64, fields32,
}
use lachesis_ex.Inter.Serializer.RoundTrip.{IsEncodable, unmarshal_binary-marshal_binary}

abbrev header : EventHeaderData
header = record {
  version = 0;
  epoch = 1;
  seq = 1;
  frame = 1;
  is_root = true;
  creator = 300;
  prev_epoch_hash = 77;
  parents = (2 ^ 224 + 11) ∷ [];
  gas_power_left = (70000, 1);
  gas_power_used = 28000;
  lamport = 2;
  claimed_time = 5;
  median_time = 6;
  tx_hash = 9;
  extra = 4 ∷ 5 ∷ [];
  hash = 12;
}

-- A header without any field set.
abbrev blank : EventHeaderData
blank = record {
  version = 0;
  epoch = 0;
  seq = 0;
  frame = 0;
  is_root = false;
  creator = 0;
  prev_epoch_hash = 0;
  parents = [];
  gas_power_left = (0, 0);
  gas_power_used = 0;
  lamport = 0;
  claimed_time = 0;
  median_time = 0;
  tx_hash = 0;
  extra = [];
  hash = 0;
}

compact_test : write_uint_compact 8 70000 ≡ 112 ∷ 17 ∷ 1 ∷ []
unfolding write_uint_compact
compact_test = refl

-- Nine bytes are read as a number of 64 bits.
nine_bytes_test : read_uint_compact 9 (7 ∷ 0 ∷ 0 ∷ 0 ∷ 0 ∷ 0 ∷ 0 ∷ 0 ∷ 1 ∷ []) ≡ decoded (7, [])
unfolding read_uint_compact
nine_bytes_test = refl

two_bytes_test : read_uint_compact 2 (7 ∷ 0 ∷ []) ≡ non_canonical
unfolding read_uint_compact
two_bytes_test = refl

header-IsEncodable : IsEncodable header
unfolding fields64 fields32
header-IsEncodable = record {
  words64 = (omega arith, (omega arith, (omega arith, (omega arith, (omega arith, tt)))));
  words32 = (
    omega arith,
    (omega arith, (omega arith, (omega arith, (omega arith, (omega arith, (omega arith, tt)))))),
  );
  count = omega arith;
  of_epoch = (refl, tt);
  prev_hash = omega arith;
  tx_hash = omega arith;
}

unmarshal_binary-marshal_binary_example :
    (raw : List ℕ) × (marshal_binary 9 header ≡ some raw)
    × (unmarshal_binary 9 blank raw ≡ decoded (record header { hash = 0 }))
unmarshal_binary-marshal_binary_example =
    unmarshal_binary-marshal_binary 9 header blank header-IsEncodable refl
