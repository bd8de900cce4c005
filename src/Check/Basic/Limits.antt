-- ===== src/Check/Basic/Limits.antt =====
-- What an event that passes the basic checks keeps to.
use lachesis_ex.Prelude.{
  ℕ, ◌+◌, ◌-◌, ◌*◌, ◌%◌, ◌≤◌, ◌<◌, ◌≡◌, refl, inl, inr, false, true, List, [], ◌∷◌, Option, none,
  some, length, word64, arith, map, sum, Option-cases,
}
use lachesis_ex.Prelude.Int.{ℤ, pos, negsuc}
use lachesis_ex.Check.Basic.{
  Transaction, Event, GasTable, DagConfig, BasicError, ◌or_else◌, is_negative, is_cheap,
  is_creation, intrinsic, validate_tx, check_txs, txs_gas, calc_gas_power_used, check_gas,
  check_limits, check_inited, validate_basic, event_gas, parent_gas, extra_data_gas,
  max_gas_power_used, max_extra_data, min_gas_price, huge32, huge64,
}
use lachesis_ex.Check.Basic.Gas.{exact_gas, IsPriced, intrinsic-exact_gas}

-- What a transaction pays for: its bytes, and a contract where it has no receiver.
pub price_of : GasTable → List ℕ → Option ℕ → ℕ
price_of t payload none = exact_gas t payload true
price_of t payload (some _) = exact_gas t payload false

pub record IsPaid (t : GasTable) (tx : Transaction) : Type 0 where
  pub value : (v : ℕ) × (tx.value ≡ pos v)
  pub gas_price : (g : ℕ) × (tx.gas_price ≡ pos g) × (min_gas_price ≤ g)
  pub gas : price_of t tx.payload tx.to ≤ tx.gas

abbrev pub AllPaid : GasTable → List Transaction → Type 0
AllPaid t [] = Unit
AllPaid t (tx ∷ txs) = IsPaid t tx × AllPaid t txs

not_negative : (z : ℤ) → is_negative z ≡ false → (v : ℕ) × (z ≡ pos v)
not_negative (pos v) h = (v, refl)
not_negative (negsuc v) h = cc

not_cheap : (z : ℤ) → is_cheap z ≡ false → (g : ℕ) × (z ≡ pos g) × (min_gas_price ≤ g)
not_cheap (pos g) h = (g, refl, ground arith)
not_cheap (negsuc g) h = cc

intrinsic-price_of :
    (t : GasTable) (payload : List ℕ) (to : Option ℕ) (least : ℕ)
    → IsPriced t
    → intrinsic t payload (is_creation to) ≡ some least
    → least ≡ price_of t payload to
unfolding price_of
intrinsic-price_of t payload none least p h = ground (arith, intrinsic-exact_gas t payload true p)
intrinsic-price_of t payload (some a) least p h =
    ground (arith, intrinsic-exact_gas t payload false p)

validate_tx-IsPaid :
    (t : GasTable) (tx : Transaction) → IsPriced t → validate_tx t tx ≡ none → IsPaid t tx
unfolding validate_tx
validate_tx-IsPaid t tx p h = elim (Option-cases (intrinsic t tx.payload (is_creation tx.to))) [
  | inl out ↦ absurd (ground (arith, rw out at h))
  | inr (least, is) ↦
      let h' = rw is at h in
      record {
        value = not_negative tx.value (ground arith);
        gas_price = not_cheap tx.gas_price (ground arith);
        gas = ground (arith, intrinsic-price_of t tx.payload tx.to least p is);
      }
]

or_else-eq-none : (a b : Option BasicError) → (a or_else b) ≡ none → (a ≡ none) × (b ≡ none)
or_else-eq-none none b h = (refl, h)
or_else-eq-none (some x) b h = cc

check_txs-AllPaid :
    (t : GasTable) (txs : List Transaction) → IsPriced t → check_txs t txs ≡ none → AllPaid t txs
unfolding check_txs
check_txs-AllPaid t [] p h = tt
check_txs-AllPaid t (tx ∷ txs) p h =
    let (first, rest) = or_else-eq-none (validate_tx t tx) (check_txs t txs) h in
    (validate_tx-IsPaid t tx p first, check_txs-AllPaid t txs p rest)

-- All that the checks promise of an event.
pub record IsLimited (t : GasTable) (c : DagConfig) (e : Event) : Type 0 where
  pub numbers :
      (0 < e.header.seq)
      × (e.header.seq < huge32)
      × (0 < e.header.frame)
      × (e.header.frame < huge32)
      × (0 < e.header.epoch)
      × (e.header.epoch < huge32)
  pub lamport : (0 < e.header.lamport) × (e.header.lamport < huge32)
  pub parents :
      (length e.header.parents ≤ c.max_parents) × (1 < e.header.seq → 0 < length e.header.parents)
  pub form : (e.header.version ≡ 0) × (length e.sig ≡ 65) × (0 < e.header.claimed_time)
  pub extra : length e.header.extra ≤ max_extra_data
  pub gas_left : (e.header.gas_power_left.0 < huge64) × (e.header.gas_power_left.1 < huge64)
  pub gas_used : e.header.gas_power_used ≤ max_gas_power_used
  pub paid : AllPaid t e.transactions
  -- what is paid for besides the transactions
  pub overhead :
      e.header.gas_power_used
      ≡ (sum (map (λ tx. tx.gas) e.transactions)
          + (length e.header.parents - c.max_free_parents) * parent_gas
          + length e.header.extra * extra_data_gas
          + event_gas)
        % word64

txs_gas-sum :
    (acc : ℕ) (txs : List Transaction)
    → txs_gas acc txs % word64 ≡ (acc + sum (map (λ tx. tx.gas) txs)) % word64
unfolding txs_gas
txs_gas-sum acc [] = omega arith
txs_gas-sum acc (tx ∷ txs) = omega (arith, txs_gas-sum ((acc + tx.gas) % word64) txs)

calc_gas_power_used-exact :
    (c : DagConfig) (e : Event)
    → calc_gas_power_used c e
      ≡ (sum (map (λ tx. tx.gas) e.transactions)
          + (length e.header.parents - c.max_free_parents) * parent_gas
          + length e.header.extra * extra_data_gas
          + event_gas)
        % word64
unfolding calc_gas_power_used
calc_gas_power_used-exact c e = ground (arith, txs_gas-sum 0 e.transactions)

-- An event that passes the basic checks keeps to the limits: its version is 0, its signature has
-- 65 bytes and its time is not 0; its sequence number, epoch, frame and Lamport time are positive
-- and below a half of their range, as is the gas power left, which may be 0; its extra data and its
-- parents are no more than allowed, and it has a parent unless it is the first of its creator. The
-- gas power that it claims to use is at most the maximum and is, modulo 2 ^ 64, the sum over its
-- transactions with the prices of its parents beyond the free ones and of its extra bytes. Each of
-- its transactions has a value and a gas price that are not negative, the latter the minimum or
-- more, and gas for the exact price of its bytes and of the transaction. The gas table has positive
-- prices of bytes, and prices of transactions below 2 ^ 64.
pub validate_basic-IsLimited :
    (t : GasTable) (c : DagConfig) (e : Event)
    → IsPriced t
    → validate_basic t c e ≡ none
    → IsLimited t c e
unfolding validate_basic check_limits check_inited check_gas
validate_basic-IsLimited t c e p h = record {
  numbers = ground arith;
  lamport = ground arith;
  parents = ground arith;
  form = ground arith;
  extra = ground arith;
  gas_left = ground arith;
  paid = check_txs-AllPaid t e.transactions p (or_else-eq-none _ _ h).1;
  gas_used = ground arith;
  overhead = ground (arith, calc_gas_power_used-exact c e);
}
