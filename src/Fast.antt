-- ===== src/Fast.antt =====
-- utils/fast/bits.go, buffer.go: small numbers packed into bytes, and a cursor over bytes.
pub mod Packed
use lachesis_ex.Prelude.{
  ℕ, zero, suc, ◌+◌, ◌*◌, ◌/◌, ◌%◌, ◌^◌, Bool, List, [], ◌∷◌, Option, none, some, ◌>>=◌, get_elem?,
  set, replicate, ltb, leb, if◌then◌else◌,
}

-- `calcSize`
unfoldable pub calc_size : ℕ → ℕ → ℕ
calc_size bits count = bits * count / 8 + (if ltb 0 (bits * count % 8) then 1 else 0)

-- `Push`, on the bytes and the offset. The bits it writes are still 0, so that `|=` is a sum.
unfoldable pub push : ℕ → List ℕ × ℕ → ℕ → Option (List ℕ × ℕ)
push bits (raw, offset) v =
    if leb (2 ^ bits) v
    then none
    else (get_elem? raw (offset * bits / 8) >>= λ b.
        some (set raw (offset * bits / 8) ((b + v * 2 ^ (offset * bits % 8)) % 256), suc offset))

-- A loop of pushes.
unfoldable pub push_values : ℕ → List ℕ × ℕ → List ℕ → Option (List ℕ)
unfolding push
push_values bits (raw, offset) [] = some raw
push_values bits (raw, offset) (v ∷ vs) =
    push bits (raw, offset) v >>= λ next. push_values bits next vs

-- The bytes of a new array with the values.
unfoldable pub pack : ℕ → List ℕ → ℕ → Option (List ℕ)
unfolding push_values calc_size
pack bits vs count = push_values bits (replicate (calc_size bits count) 0, 0) vs

-- `Pop`, with the offset of the number.
unfoldable pub pop : ℕ → List ℕ → ℕ → Option ℕ
pop bits raw offset =
    get_elem? raw (offset * bits / 8) >>= λ b. some (b / 2 ^ (offset * bits % 8) % 2 ^ bits)

-- A loop of pops, from an offset on.
unfoldable pub pop_values : ℕ → List ℕ → ℕ → ℕ → Option (List ℕ)
unfolding pop
pop_values bits raw offset zero = some []
pop_values bits raw offset (suc n) =
    pop bits raw offset >>= λ v. pop_values bits raw (suc offset) n >>= λ vs. some (v ∷ vs)

-- `Read`: so many bytes, and those behind them.
unfoldable pub read_bytes : ℕ → List ℕ → Option (List ℕ × List ℕ)
read_bytes zero buf = some ([], buf)
read_bytes (suc n) [] = none
read_bytes (suc n) (b ∷ buf) = read_bytes n buf >>= λ (bs, rest). some (b ∷ bs, rest)
