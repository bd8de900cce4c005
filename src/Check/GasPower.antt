-- ===== src/Check/GasPower.antt =====
-- eventcheck/gaspowercheck: the gas power that an event may use. `none` is a run-time panic.
-- The two configurations have the indices 0 and 1, as gossip/checker_helpers.go builds them.
pub mod Bounds
use lachesis_ex.Prelude.{
  ℕ, ◌+◌, ◌-◌, ◌*◌, ◌/◌, ◌%◌, Bool, true, false, ◌&&◌, List, [], ◌∷◌, Option, none, some, ◌>>=◌,
  ltb, leb, ◌==◌, if◌then◌else◌, word64,
}
use lachesis_ex.Prelude.Assoc.{lookup}
use lachesis_ex.Inter.{EventHeaderData, self_parent}
use lachesis_ex.Pos.{Validators, get}

pub record Config : Type 0 where
  pub idx : ℕ
  pub alloc_per_sec : ℕ
  pub max_alloc_period : ℕ
  pub startup_alloc_period : ℕ
  pub min_startup_gas : ℕ

pub record ValidationContext : Type 0 where
  pub epoch : ℕ
  pub configs : Config × Config
  pub validators : Validators
  pub prev_epoch_last_headers : List (ℕ × EventHeaderData)
  pub prev_epoch_end_time : ℕ
  pub prev_epoch_refunds : List (ℕ × ℕ)

-- Nanoseconds.
abbrev pub second : ℕ
second = 1_000_000_000

pub record Rate : Type 0 where
  pub per_sec : ℕ
  pub max_gas_power : ℕ
  pub startup : ℕ

-- `Gas[idx]`
abbrev pub gas_at : ℕ × ℕ → ℕ → ℕ
gas_at (short, long) i = if i == 0 then short else long

-- `calcValidatorGasPowerPerSec` for a validator with some stake. The product of big numbers does
-- not wrap; its quotient is cut to 64 bits. A total of zero is a division by zero.
unfoldable pub rate_of_stake : ℕ → ℕ → Config → Option Rate
rate_of_stake stake total c =
    if total == 0
    then none
    else let per_sec = c.alloc_per_sec * stake / total % word64 in
      let startup = per_sec * (c.startup_alloc_period / second) % word64 in
      some (record {
        per_sec = per_sec;
        max_gas_power = per_sec * (c.max_alloc_period / second) % word64;
        startup = if ltb startup c.min_startup_gas then c.min_startup_gas else startup;
      })

-- `calcValidatorGasPowerPerSec`
unfoldable pub calc_validator_rate : ℕ → Validators → Config → Option Rate
unfolding rate_of_stake
calc_validator_rate validator vv c =
    if get vv validator == 0
    then some (record { per_sec = 0; max_gas_power = 0; startup = 0 })
    else rate_of_stake (get vv validator) vv.cache.total_stake c

-- The refund of a creator, zero if there is none.
unfoldable pub refund : ValidationContext → ℕ → ℕ
refund ctx creator = elim (lookup creator ctx.prev_epoch_refunds) [ none ↦ 0 | some r ↦ r ]

-- The gas power left and the median time to start from: the self-parent's, or those of the
-- creator's last event of the epoch before, or those of a new validator.
unfoldable pub starting_point :
    EventHeaderData → Option EventHeaderData → ValidationContext → Config → ℕ → Option (ℕ × ℕ)
unfolding refund
starting_point e parent ctx c startup = elim (self_parent e) [
  | some _ ↦ parent >>= λ p. some (gas_at p.gas_power_left c.idx, p.median_time)
  | none ↦ elim (lookup e.creator ctx.prev_epoch_last_headers) [
    | some h ↦
        let left = (gas_at h.gas_power_left c.idx + refund ctx e.creator) % word64 in
        some (if ltb left startup then startup else left, h.median_time)
    | none ↦ some ((startup + refund ctx e.creator) % word64, ctx.prev_epoch_end_time)
  ]
]

-- The gas power after the time that has passed. A time that went back counts as none.
unfoldable pub grow_gas : Rate → ℕ → ℕ → ℕ → ℕ
grow_gas rate left before now =
    let passed = now - (if ltb now before then now else before) in
    let gas = (passed * rate.per_sec / second % word64 + left) % word64 in
    if ltb rate.max_gas_power gas then rate.max_gas_power else gas

-- `calcGasPower`
unfoldable pub calc_gas_power :
    EventHeaderData → Option EventHeaderData → ValidationContext → Config → Option ℕ
unfolding calc_validator_rate starting_point grow_gas
calc_gas_power e parent ctx c = calc_validator_rate e.creator ctx.validators c >>= λ rate.
    starting_point e parent ctx c rate.startup >>= λ (left, before).
    some (grow_gas rate left before e.median_time)

pub data GasVerdict : Type 0 where
  passes not_relevant wrong_gas_power_left : GasVerdict

-- `Validate`, over `CalcGasPower` for both configurations.
unfoldable pub validate_gas_power :
    ValidationContext → EventHeaderData → Option EventHeaderData → Option GasVerdict
unfolding calc_gas_power
validate_gas_power ctx e parent =
    if ctx.epoch == e.epoch
    then (calc_gas_power e parent ctx ctx.configs.0 >>= λ short.
        calc_gas_power e parent ctx ctx.configs.1 >>= λ long.
        if (e.gas_power_left.0 + e.gas_power_used) % word64 == short
          && (e.gas_power_left.1 + e.gas_power_used) % word64 == long
        then some passes
        else some wrong_gas_power_left)
    else some not_relevant
