-- ===== src/Check/GasPower/Bounds.antt =====
-- How much gas power an event can have.
use lachesis_ex.Prelude.{
  ℕ, ◌+◌, ◌%◌, ◌^◌, ◌≤◌, ◌<◌, ◌≡◌, Bool, true, ◌&&◌, Option, some, >>=-eq-some, ◌==◌, if◌then◌else◌,
  word64, arith, Bool-cases, ==_iff, inl, inr,
}
use lachesis_ex.Inter.{EventHeaderData}
use lachesis_ex.Pos.{get}
use lachesis_ex.Check.GasPower.{
  Config, ValidationContext, Rate, GasVerdict, calc_validator_rate, starting_point, grow_gas,
  calc_gas_power, validate_gas_power,
}

grow_gas-le :
    (rate : Rate) (left before now : ℕ) → grow_gas rate left before now ≤ rate.max_gas_power
unfolding grow_gas
grow_gas-le rate left before now = ground arith

-- The gas power of an event is never above the maximum for its creator's stake.
pub calc_gas_power-le :
    (e : EventHeaderData) (parent : Option EventHeaderData) (ctx : ValidationContext) (c : Config)
    (gas : ℕ)
    → calc_gas_power e parent ctx c ≡ some gas
    → (rate : Rate) × (calc_validator_rate e.creator ctx.validators c ≡ some rate)
      × (gas ≤ rate.max_gas_power)
unfolding calc_gas_power
calc_gas_power-le e parent ctx c gas h =
    let (rate, found, h1) = >>=-eq-some (calc_validator_rate e.creator ctx.validators c) _ h in
    let ((left, before), start, h2) =
      >>=-eq-some (starting_point e parent ctx c rate.startup) _ h1 in
    (rate, found, ground (arith, grow_gas-le rate left before e.median_time))

-- While the event's creator has no stake, no gas power at all is granted.
pub calc_gas_power-no_stake :
    (e : EventHeaderData) (parent : Option EventHeaderData) (ctx : ValidationContext) (c : Config)
    (gas : ℕ)
    → get ctx.validators e.creator ≡ 0
    → calc_gas_power e parent ctx c ≡ some gas
    → gas ≡ 0
unfolding calc_validator_rate
calc_gas_power-no_stake e parent ctx c gas none_at h =
    let (rate, found, le) = calc_gas_power-le e parent ctx c gas h in ground arith

both_equal :
    (b c : Bool)
    → (if b && c then some GasVerdict.passes else some GasVerdict.wrong_gas_power_left)
      ≡ some GasVerdict.passes
    → (b ≡ true) × (c ≡ true)
both_equal b c h = ground arith

fits :
    (left used gas : ℕ) {top : ℕ}
    → left < 2 ^ 63
    → used < 2 ^ 63
    → (left + used) % word64 ≡ gas
    → gas ≤ top
    → left + used ≤ top
fits left used gas l u e le = omega arith

-- An event that passes the gas power check, with gas numbers below 2 ^ 63, uses no more than
-- what its creator may have of either kind.
pub validate_gas_power-used :
    (ctx : ValidationContext) (e : EventHeaderData) (parent : Option EventHeaderData)
    → e.gas_power_left.0 < 2 ^ 63
    → e.gas_power_left.1 < 2 ^ 63
    → e.gas_power_used < 2 ^ 63
    → validate_gas_power ctx e parent ≡ some GasVerdict.passes
    → (short : Rate) × (long : Rate) × (calc_validator_rate e.creator ctx.validators ctx.configs.0
        ≡ some short)
      × (calc_validator_rate e.creator ctx.validators ctx.configs.1 ≡ some long)
      × (e.gas_power_left.0 + e.gas_power_used ≤ short.max_gas_power)
      × (e.gas_power_left.1 + e.gas_power_used ≤ long.max_gas_power)
unfolding validate_gas_power
validate_gas_power-used ctx e parent l0 l1 u h = elim (Bool-cases (ctx.epoch == e.epoch)) [
  | inr n ↦ ground (arith, n)
  | inl same ↦
      let (g0, c0, h1) = >>=-eq-some (calc_gas_power e parent ctx ctx.configs.0) _ (rw same at h) in
      let (g1, c1, h2) = >>=-eq-some (calc_gas_power e parent ctx ctx.configs.1) _ h1 in
      let (r0, f0, le0) = calc_gas_power-le e parent ctx ctx.configs.0 g0 c0 in
      let (r1, f1, le1) = calc_gas_power-le e parent ctx ctx.configs.1 g1 c1 in
      let (e0, e1) = both_equal _ _ h2 in
      (
        r0,
        r1,
        f0,
        f1,
        fits e.gas_power_left.0 e.gas_power_used g0 l0 u ((==_iff _ _).0 e0) le0,
        fits e.gas_power_left.1 e.gas_power_used g1 l1 u ((==_iff _ _).0 e1) le1,
      )
]
