-- ===== src/Tests/Checks.antt =====
-- Tests and examples for the event checks.
use lachesis_ex.Prelude.{
  ℕ, ◌≤◌, ◌≡◌, ◌^◌, refl, true, false, [], ◌∷◌, none, some, arith, ltb, if◌then◌else◌, word64,
  replicate,
}
use lachesis_ex.Prelude.Int.{pos}
use lachesis_ex.Inter.{EventHeaderData, self_parent, is_self_parent}
use lachesis_ex.Pos.{get, has_validator}
use lachesis_ex.Check.Parents.{
  passes, validate_parents, validate_epoch, max_lamport, set_size, check_self_parents,
}
use lachesis_ex.Check.Parents.Laws.{WellParented, validate_parents-WellParented}
use lachesis_ex.Check.GasPower.{
  Config, ValidationContext, Rate, GasVerdict, calc_validator_rate, calc_gas_power,
  validate_gas_power,
}
use lachesis_ex.Check.GasPower.Bounds.{validate_gas_power-used}
use lachesis_ex.Check.Basic.{Transaction, Event, GasTable, DagConfig, intrinsic, validate_basic}
use lachesis_ex.Check.Basic.Gas.{exact_gas, IsPriced, intrinsic-exact_gas}
use lachesis_ex.Check.Basic.Limits.{IsLimited, validate_basic-IsLimited}
use lachesis_ex.Tests.Groups.{group}

-- The second event of the validator 7, and its parents.
abbrev own : EventHeaderData
own = record {
  version = 0;
  epoch = 1;
  seq = 1;
  frame = 1;
  is_root = true;
  creator = 7;
  prev_epoch_hash = 0;
  parents = [];
  gas_power_left = (5, 5);
  gas_power_used = 0;
  lamport = 1;
  claimed_time = 1;
  median_time = 1_000_000_000;
  tx_hash = 0;
  extra = [];
  hash = 400;
}

abbrev other : EventHeaderData
other = record own { creator = 3; hash = 500; lamport = 2 }

abbrev second_event : EventHeaderData
second_event = record own {
  seq = 2;
  parents = 400 ∷ 500 ∷ [];
  lamport = 3;
  claimed_time = 9;
  hash = 600;
  median_time = 3_000_000_000;
  gas_power_left = (5, 5);
  gas_power_used = 20;
}

parents_test : validate_parents second_event (own ∷ other ∷ []) ≡ passes
unfolding validate_parents max_lamport set_size check_self_parents is_self_parent self_parent
parents_test = refl

epoch_test : validate_epoch group 1 second_event ≡ passes
unfolding validate_epoch has_validator
epoch_test = refl

validate_parents-WellParented_example : WellParented second_event (own ∷ other ∷ [])
validate_parents-WellParented_example =
    validate_parents-WellParented second_event (own ∷ other ∷ []) (omega arith, (omega arith, tt))
      parents_test

abbrev config : ℕ → Config
config i = record {
  idx = i;
  alloc_per_sec = 70;
  max_alloc_period = 60_000_000_000;
  startup_alloc_period = 5_000_000_000;
  min_startup_gas = 10;
}

abbrev context : ValidationContext
context = record {
  epoch = 1;
  configs = (config 0, config 1);
  validators = group;
  prev_epoch_last_headers = [];
  prev_epoch_end_time = 0;
  prev_epoch_refunds = [];
}

-- Ten units a second for two seconds, over the five that were left.
gas_power_test : calc_gas_power second_event (some own) context (config 0) ≡ some 25
unfolding calc_gas_power get self_parent
gas_power_test = refl

validate_gas_power_test :
    validate_gas_power context second_event (some own) ≡ some GasVerdict.passes
unfolding validate_gas_power get self_parent
validate_gas_power_test = refl

-- A creator without stake gets nothing.
no_stake_test :
    calc_gas_power (record second_event { creator = 8 }) (some own) context (config 0) ≡ some 0
unfolding calc_gas_power get self_parent
no_stake_test = refl

validate_gas_power-used_example :
    (short : Rate) × (long : Rate) × (calc_validator_rate 7 group (config 0) ≡ some short)
    × (calc_validator_rate 7 group (config 1) ≡ some long)
    × (25 ≤ short.max_gas_power)
    × (25 ≤ long.max_gas_power)
validate_gas_power-used_example =
    validate_gas_power-used context second_event (some own) (omega arith) (omega arith)
      (omega arith) validate_gas_power_test

-- The prices of Ethereum.
abbrev prices : GasTable
prices = record { tx_gas = 21_000; contract_creation = 53_000; non_zero_byte = 16; zero_byte = 4 }

prices-IsPriced : IsPriced prices
prices-IsPriced = record { bytes = (omega arith, omega arith); bases = (omega arith, omega arith) }

intrinsic-exact_gas_example : intrinsic prices (0 ∷ 7 ∷ 0 ∷ []) false ≡ (
    if ltb (exact_gas prices (0 ∷ 7 ∷ 0 ∷ []) false) word64
    then some (exact_gas prices (0 ∷ 7 ∷ 0 ∷ []) false)
    else none)
intrinsic-exact_gas_example = intrinsic-exact_gas prices (0 ∷ 7 ∷ 0 ∷ []) false prices-IsPriced

-- Two transactions with more gas than 64 bits hold together.
abbrev huge_gas : Transaction
huge_gas = record {
  value = pos 0;
  gas_price = pos 1_000_000_000;
  gas = 2 ^ 63;
  payload = [];
  to = some 1;
}

abbrev overflowing : Event
overflowing = record {
  header = record second_event { gas_power_used = 28_000 };
  sig = replicate 65 0;
  transactions = huge_gas ∷ huge_gas ∷ [];
}

abbrev limits : DagConfig
limits = record { max_parents = 10; max_free_parents = 3 }

overflowing_passes : validate_basic prices limits overflowing ≡ none
unfolding validate_basic
overflowing_passes = refl

validate_basic-IsLimited_example : IsLimited prices limits overflowing
validate_basic-IsLimited_example =
    validate_basic-IsLimited prices limits overflowing prices-IsPriced overflowing_passes
