-- ===== src/Core/Carry.antt =====
-- crates/hypercarry-core/src/carry.rs: the result of one carry trade, in checked decimal arithmetic.
pub mod Neutral
pub mod Settled
use hypercarry.Base.{
  ℕ, ◌+◌, ◌≡◌, Bool, true, false, Option, none, some, List, [], ◌∷◌, length, is_some, if◌then◌else◌,
}
use hypercarry.Base.Int.{ℤ, leb_ℤ}
use hypercarry.Decimal.{Decimal}

pub data CarrySide : Type 0 where
  long short : CarrySide

pub record FundingSettlement (Num : Type 0) : Type 0 where
  pub settlement_time_ms : ℤ
  pub funding_rate : Num
  pub mark_price : Num

pub record FeeSchedule (Num : Type 0) : Type 0 where
  pub entry_rate : Num
  pub exit_rate : Num

pub record CarryExit (Num : Type 0) : Type 0 where
  pub perp_price : Num
  pub spot_price : Option Num

pub record CarryTrade (Num : Type 0) : Type 0 where
  pub side : CarrySide
  pub size : Num
  pub perp_entry_price : Num
  pub spot_entry_price : Option Num
  pub exit : Option (CarryExit Num)
  pub fees : FeeSchedule Num

pub record CarryPnl (Num : Type 0) : Type 0 where
  pub funding : Num
  pub perp_price_pnl : Num
  pub spot_price_pnl : Num
  pub fees : Num
  pub net : Num
  pub entry_notional : Num
  pub settlements : ℕ
  pub first_settlement_ms : Option ℤ
  pub last_settlement_ms : Option ℤ
  pub closed : Bool

-- `CarryError`, without the rejected values and the name of the field.
pub data CarryError : Type 0 where
  non_positive_size non_positive_price negative_fee_rate hedge_mismatch : CarryError
  unordered_settlements : ℤ → CarryError
  overflow : CarryError

pub data Outcome {ℓ} (A : Type ℓ) : Type ℓ where
  fault : CarryError → Outcome A
  value : A → Outcome A

infixl 5 ◌>>=◌
abbrev pub ◌>>=◌ {ℓ κ} : {A : Type ℓ} {B : Type κ} → Outcome A → (A → Outcome B) → Outcome B
fault e >>= next = fault e
value a >>= next = next a

infixl 5 ◌>>◌
abbrev pub ◌>>◌ {ℓ} : {B : Type ℓ} → Outcome (Unit {0}) → Outcome B → Outcome B
check >> rest = check >>= λ passed. rest

abbrev pub refuse : Bool → CarryError → Outcome (Unit {0})
refuse true e = fault e
refuse false e = value tt

-- `ok_or(CarryError::Overflow)`
abbrev pub or_overflow {ℓ} : {A : Type ℓ} → Option A → Outcome A
or_overflow none = fault overflow
or_overflow (some a) = value a

abbrev pub hours_per_year : ℕ
hours_per_year = 8760

-- The time of the first settlement, and of the last.
abbrev pub first_time : {Num : Type 0} → List (FundingSettlement Num) → Option ℤ
first_time [] = none
first_time (s ∷ rest) = some s.settlement_time_ms

abbrev pub last_time : {Num : Type 0} → List (FundingSettlement Num) → Option ℤ
last_time [] = none
last_time (s ∷ []) = some s.settlement_time_ms
last_time (s ∷ t ∷ rest) = last_time (t ∷ rest)

-- `previous_time.is_some_and(|previous| time <= previous)`
abbrev pub not_after : ℤ → Option ℤ → Bool
not_after time none = false
not_after time (some previous) = leb_ℤ time previous

module _ {Num : Type 0} ⦃d : Decimal Num⦄ where
  unfoldable pub require_positive : Num → Outcome (Unit {0})
  require_positive price = refuse (d.le price d.zero) non_positive_price

  abbrev pub mul : Num → Num → Outcome Num
  mul a b = or_overflow (d.checked_mul a b)

  abbrev pub add : Num → Num → Outcome Num
  add a b = or_overflow (d.checked_add a b)

  abbrev pub sub : Num → Num → Outcome Num
  sub a b = or_overflow (d.checked_sub a b)

  -- `CarrySide::funding_sign` and `CarrySide::price_sign`
  unfoldable pub funding_sign : CarrySide → Num
  funding_sign long = d.neg d.one
  funding_sign short = d.one

  unfoldable pub price_sign : CarrySide → Num
  price_sign long = d.one
  price_sign short = d.neg d.one

  unfoldable pub require_spot : Option Num → Outcome (Unit {0})
  unfolding require_positive
  require_spot none = value tt
  require_spot (some spot) = require_positive spot

  -- The prices of the hedge at entry and at exit: both or neither.
  unfoldable pub require_hedge : Option Num → Option Num → Outcome (Unit {0})
  unfolding require_positive
  require_hedge (some entry) (some spot) = require_positive spot
  require_hedge none none = value tt
  require_hedge (some entry) none = fault hedge_mismatch
  require_hedge none (some spot) = fault hedge_mismatch

  unfoldable pub require_exit : Option Num → Option (CarryExit Num) → Outcome (Unit {0})
  unfolding require_hedge
  require_exit entry none = value tt
  require_exit entry (some exit) =
      require_positive exit.perp_price >> require_hedge entry exit.spot_price

  -- `CarryTrade::validate`
  unfoldable pub validate : CarryTrade Num → Outcome (Unit {0})
  unfolding require_spot require_exit
  validate t = do
    refuse (d.le t.size d.zero) non_positive_size
    require_positive t.perp_entry_price
    require_spot t.spot_entry_price
    refuse (d.lt t.fees.entry_rate d.zero) negative_fee_rate
    refuse (d.lt t.fees.exit_rate d.zero) negative_fee_rate
    require_exit t.spot_entry_price t.exit

  -- The loop of `accrue_funding`, with the total and the previous time.
  unfoldable pub accrue :
      CarryTrade Num → Num → Option ℤ → List (FundingSettlement Num) → Outcome Num
  unfolding require_positive
  accrue t total previous [] = value total
  accrue t total previous (s ∷ rest) = do
    refuse (not_after s.settlement_time_ms previous) (unordered_settlements s.settlement_time_ms)
    require_positive s.mark_price
    notional ← mul t.size s.mark_price
    gross ← mul notional s.funding_rate
    payment ← mul gross (funding_sign t.side)
    next ← add total payment
    accrue t next (some s.settlement_time_ms) rest

  -- `CarryTrade::accrue_funding`
  unfoldable pub accrue_funding : CarryTrade Num → List (FundingSettlement Num) → Outcome Num
  unfolding accrue
  accrue_funding t settlements = accrue t d.zero none settlements

  unfoldable pub spot_result : CarryTrade Num → Option Num → Option Num → Outcome Num
  spot_result t (some entry) (some close) = do
    spot_move ← sub close entry
    gross ← mul t.size spot_move
    mul gross (d.neg (price_sign t.side))
  spot_result t _ _ = value d.zero

  unfoldable pub exit_result : CarryTrade Num → Option (CarryExit Num) → Outcome (Num × Num)
  unfolding spot_result
  exit_result t none = value (d.zero, d.zero)
  exit_result t (some exit) = do
    perp_move ← sub exit.perp_price t.perp_entry_price
    gross ← mul t.size perp_move
    perp ← mul gross (price_sign t.side)
    spot ← spot_result t t.spot_entry_price exit.spot_price
    value (perp, spot)

  -- `CarryTrade::price_result`
  unfoldable pub price_result : CarryTrade Num → Outcome (Num × Num)
  unfolding exit_result
  price_result t = exit_result t t.exit

  -- A charge on one leg, added to the total; nothing for a leg that is not there.
  unfoldable pub charge : CarryTrade Num → Num → Num → Option Num → Outcome Num
  charge t total rate none = value total
  charge t total rate (some price) = do
    notional ← mul t.size price
    fee ← mul notional rate
    add total fee

  unfoldable pub exit_fees : CarryTrade Num → Num → Option (CarryExit Num) → Outcome Num
  unfolding charge
  exit_fees t total none = value total
  exit_fees t total (some exit) = do
    with_perp ← charge t total t.fees.exit_rate (some exit.perp_price)
    charge t with_perp t.fees.exit_rate exit.spot_price

  -- `CarryTrade::fees`
  unfoldable pub total_fees : CarryTrade Num → Outcome Num
  unfolding exit_fees
  total_fees t = do
    notional ← mul t.size t.perp_entry_price
    entry_fee ← mul notional t.fees.entry_rate
    with_spot ← charge t entry_fee t.fees.entry_rate t.spot_entry_price
    exit_fees t with_spot t.exit

  -- `CarryTrade::evaluate`
  unfoldable pub evaluate : CarryTrade Num → List (FundingSettlement Num) → Outcome (CarryPnl Num)
  unfolding accrue_funding price_result total_fees
  evaluate t settlements = do
    validate t
    funding ← accrue_funding t settlements
    prices ← price_result t
    fees ← total_fees t
    entry_notional ← mul t.size t.perp_entry_price
    with_perp ← add funding prices.0
    with_spot ← add with_perp prices.1
    net ← sub with_spot fees
    value (record {
      funding = funding;
      perp_price_pnl = prices.0;
      spot_price_pnl = prices.1;
      fees = fees;
      net = net;
      entry_notional = entry_notional;
      settlements = length settlements;
      first_settlement_ms = first_time settlements;
      last_settlement_ms = last_time settlements;
      closed = is_some t.exit;
    })

  unfoldable pub annualized_return : Num → Num → Num → Outcome Num
  unfolding require_positive
  annualized_return net capital holding_hours = do
    require_positive capital
    require_positive holding_hours
    period_return ← or_overflow (d.checked_div net capital)
    periods_per_year ← or_overflow (d.checked_div (d.from_u32 hours_per_year) holding_hours)
    mul period_return periods_per_year
