-- ===== src/Check/Basic.antt =====
-- eventcheck/basiccheck, with lachesis/params/params.go, and `IntrinsicGas` of
-- evmcore/state_transition.go.
pub mod Gas
pub mod Limits
use lachesis_ex.Prelude.{
  ℕ, ◌+◌, ◌-◌, ◌*◌, ◌/◌, ◌%◌, ◌^◌, Bool, true, false, not, ◌&&◌, ◌||◌, List, [], ◌∷◌, Option, none,
  some, length, ltb, leb, ◌==◌, if◌then◌else◌, word64,
}
use lachesis_ex.Prelude.Int.{ℤ, pos, negsuc}
use lachesis_ex.Inter.{EventHeaderData, max_of}

-- What the checks read of a transaction of go-ethereum.
pub record Transaction : Type 0 where
  pub value : ℤ
  pub gas_price : ℤ
  pub gas : ℕ
  pub payload : List ℕ
  -- nil for the creation of a contract
  pub to : Option ℕ

-- `Event`
pub record Event : Type 0 where
  pub header : EventHeaderData
  pub sig : List ℕ
  pub transactions : List Transaction

-- The gas prices that go-ethereum's `params` give.
pub record GasTable : Type 0 where
  pub tx_gas : ℕ
  pub contract_creation : ℕ
  pub non_zero_byte : ℕ
  pub zero_byte : ℕ

-- What the checks read of `DagConfig`.
pub record DagConfig : Type 0 where
  pub max_parents : ℕ
  pub max_free_parents : ℕ

pub data BasicError : Type 0 where
  sig_malformed wrong_version extra_too_large no_parents too_many_parents : BasicError
  too_big_gas_used wrong_gas_used intrinsic_gas underpriced : BasicError
  not_inited zero_time negative_value huge_value out_of_gas : BasicError

-- The next check, if the one before finds nothing.
infixl 5 ◌or_else◌
abbrev pub ◌or_else◌ : Option BasicError → Option BasicError → Option BasicError
none or_else e = e
(some x) or_else e = some x

abbrev pub fail_if : Bool → BasicError → Option BasicError
fail_if true e = some e
fail_if false e = none

-- `EventGas`, `ParentGas`, `ExtraDataGas`, `MaxGasPowerUsed`, `MaxExtraData` and `MinGasPrice`
abbrev pub event_gas : ℕ
event_gas = 28_000

abbrev pub parent_gas : ℕ
parent_gas = 2_400

abbrev pub extra_data_gas : ℕ
extra_data_gas = 150

abbrev pub max_gas_power_used : ℕ
max_gas_power_used = 10_000_000 + event_gas

abbrev pub max_extra_data : ℕ
max_extra_data = 128

abbrev pub min_gas_price : ℕ
min_gas_price = 1_000_000_000

-- The bytes that are not zero.
unfoldable pub count_non_zero : List ℕ → ℕ
count_non_zero [] = 0
count_non_zero (b ∷ bs) = if b == 0 then count_non_zero bs else 1 + count_non_zero bs

-- `IntrinsicGas` once the bytes are counted; `none` is an error of being out of gas.
unfoldable pub gas_of_bytes : GasTable → ℕ → ℕ → ℕ → Option ℕ
gas_of_bytes t gas nz z =
    if ltb ((word64 - 1 - gas) / t.non_zero_byte) nz
    then none
    else if ltb ((word64 - 1 - (gas + nz * t.non_zero_byte) % word64) / t.zero_byte) z
    then none
    else some (((gas + nz * t.non_zero_byte) % word64 + z * t.zero_byte) % word64)

-- `IntrinsicGas`, with `homestead` true.
unfoldable pub intrinsic : GasTable → List ℕ → Bool → Option ℕ
unfolding gas_of_bytes count_non_zero
intrinsic t payload creation =
    let gas = if creation then t.contract_creation else t.tx_gas in
    let nz = count_non_zero payload in
    if ltb 0 (length payload) then gas_of_bytes t gas nz (length payload - nz) else some gas

abbrev pub is_negative : ℤ → Bool
is_negative (pos n) = false
is_negative (negsuc n) = true

-- The price is below the minimum.
abbrev pub is_cheap : ℤ → Bool
is_cheap (pos n) = ltb n min_gas_price
is_cheap (negsuc n) = true

abbrev pub is_creation : Option ℕ → Bool
is_creation none = true
is_creation (some _) = false

-- `validateTx`
unfoldable pub validate_tx : GasTable → Transaction → Option BasicError
unfolding intrinsic
validate_tx t tx =
    fail_if (is_negative tx.value || is_negative tx.gas_price) negative_value
    or_else elim (intrinsic t tx.payload (is_creation tx.to)) [
      | none ↦ some out_of_gas
      | some least ↦
          fail_if (ltb tx.gas least) intrinsic_gas
          or_else fail_if (is_cheap tx.gas_price) underpriced
    ]

-- `checkTxs`
unfoldable pub check_txs : GasTable → List Transaction → Option BasicError
unfolding validate_tx
check_txs t [] = none
check_txs t (tx ∷ txs) = validate_tx t tx or_else check_txs t txs

-- The loop of `CalcGasPowerUsed` over the transactions.
unfoldable pub txs_gas : ℕ → List Transaction → ℕ
txs_gas acc [] = acc
txs_gas acc (tx ∷ txs) = txs_gas ((acc + tx.gas) % word64) txs

-- `CalcGasPowerUsed`
unfoldable pub calc_gas_power_used : DagConfig → Event → ℕ
unfolding txs_gas
calc_gas_power_used c e =
    let parents =
      if ltb c.max_free_parents (length e.header.parents)
      then (length e.header.parents - c.max_free_parents) * parent_gas % word64
      else 0 in
    let extra = length e.header.extra * extra_data_gas % word64 in
    (((txs_gas 0 e.transactions + parents) % word64 + extra) % word64 + event_gas) % word64

-- `checkGas`
unfoldable pub check_gas : DagConfig → Event → Option BasicError
unfolding calc_gas_power_used
check_gas c e =
    fail_if (ltb max_gas_power_used e.header.gas_power_used) too_big_gas_used
    or_else fail_if (not (e.header.gas_power_used == calc_gas_power_used c e)) wrong_gas_used

-- `math.MaxInt32/2` and `math.MaxInt64/2`
abbrev pub huge32 : ℕ
huge32 = 2 ^ 30 - 1

abbrev pub huge64 : ℕ
huge64 = 2 ^ 62 - 1

-- `checkLimits`
unfoldable pub check_limits : DagConfig → Event → Option BasicError
check_limits c e =
    fail_if (ltb max_extra_data (length e.header.extra)) extra_too_large
    or_else fail_if (ltb c.max_parents (length e.header.parents)) too_many_parents
    or_else fail_if
        (leb huge32 e.header.seq
          || leb huge32 e.header.epoch
          || leb huge32 e.header.frame
          || leb huge32 e.header.lamport
          || leb huge64 e.header.gas_power_used
          || leb huge64 (max_of e.header.gas_power_left.0 e.header.gas_power_left.1))
        huge_value

-- `checkInited`
unfoldable pub check_inited : Event → Option BasicError
check_inited e =
    fail_if
      (e.header.seq == 0 || e.header.epoch == 0 || e.header.frame == 0 || e.header.lamport == 0)
      not_inited
    or_else fail_if (e.header.claimed_time == 0) zero_time
    or_else fail_if (ltb 1 e.header.seq && length e.header.parents == 0) no_parents
    or_else fail_if (not (length e.sig == 65)) sig_malformed

-- `Validate`
unfoldable pub validate_basic : GasTable → DagConfig → Event → Option BasicError
unfolding check_limits check_inited check_gas check_txs
validate_basic t c e =
    fail_if (not (e.header.version == 0)) wrong_version
    or_else check_limits c e
    or_else check_inited e
    or_else check_gas c e
    or_else check_txs t e.transactions
