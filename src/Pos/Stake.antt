-- ===== src/Pos/Stake.antt =====
-- inter/pos/stake.go: stakes, balances and the counter that collects a quorum.
pub mod Counting
pub mod Steps
use lachesis_ex.Prelude.{
  ℕ, zero, suc, ◌+◌, ◌-◌, ◌*◌, ◌/◌, ◌%◌, ◌^◌, Bool, true, false, List, [], ◌∷◌, Option, none, some,
  ◌>>=◌, length, get_elem?, set, replicate, ltb, leb, if◌then◌else◌, word64,
}
use lachesis_ex.Prelude.Int.{ℤ, pos, negsuc, ◌*ℤ◌}
use lachesis_ex.Pos.{Validators, len, get_idx, get_stake_by_idx, quorum}

-- `balanceToStakeRatio`: an ether over a thousand.
abbrev pub balance_to_stake_ratio : ℕ
balance_to_stake_ratio = 1_000_000_000_000_000

-- `BalanceToStake`: the quotient is rounded down; one below zero or of 64 bits or more gives 0.
-- A negative balance has a negative quotient.
pub balance_to_stake : ℤ → ℕ
balance_to_stake (pos n) =
    if leb (2 ^ 63) (n / balance_to_stake_ratio) then 0 else n / balance_to_stake_ratio
balance_to_stake (negsuc n) = 0

-- `int64(x)` of a uint64.
abbrev pub to_int64 : ℕ → ℤ
to_int64 x = if ltb x (2 ^ 63) then pos x else negsuc (2 ^ 64 - x - 1)

-- `StakeToBalance`
pub stake_to_balance : ℕ → ℤ
stake_to_balance stake = to_int64 stake *ℤ pos balance_to_stake_ratio

pub record StakeCounter : Type 0 where
  pub validators : Validators
  pub already : List Bool
  pub quorum : ℕ
  pub sum : ℕ

-- `newStakeCounter`
unfoldable pub new_counter : Validators → StakeCounter
unfolding len
new_counter vv = record {
  validators = vv;
  already = replicate (len vv) false;
  quorum = quorum vv;
  sum = 0;
}

-- `CountByIdx`; `none` is the panic on an index out of range.
unfoldable pub count_by_idx : StakeCounter → ℕ → Option (StakeCounter × Bool)
count_by_idx s i = get_elem? s.already i >>= λ seen.
    if seen
    then some (s, false)
    else get_stake_by_idx s.validators i >>= λ stake.
        some (record s { already = set s.already i true; sum = (s.sum + stake) % word64 }, true)

-- `Count`
unfoldable pub count : StakeCounter → ℕ → Option (StakeCounter × Bool)
unfolding count_by_idx
count s v = count_by_idx s (get_idx s.validators v)

-- `HasQuorum`
unfoldable pub has_quorum : StakeCounter → Bool
has_quorum s = leb s.quorum s.sum
