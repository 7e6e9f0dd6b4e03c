-- ===== src/Execution/Risk.antt =====
-- crates/hypercarry-execution/src/risk.rs: the risk limits, the kill switch and the ordered policy.
-- The snapshot source and the kill switch are functions that the policy is given.
pub mod Reasons
pub mod Allows
pub mod Closed
use hypercarry.Base.{
  ℕ, ◌≡◌, Bool, true, false, not, ◌&&◌, ◌||◌, Option, none, some, List, [], ◌∷◌, ◌++◌, ltb, leb,
  ◌==◌, length, any, filter, is_empty, and_then, if◌then◌else◌,
}
use hypercarry.Base.Int.{ℤ, pos, ltb_ℤ, leb_ℤ, checked_sub}
use hypercarry.Base.Text.{Text, codes, text_eq, is_blank, has_char}
use hypercarry.Decimal.{Decimal}
use hypercarry.Execution.Error.{Result, ok, err, panic, policy, ◌>>=◌, ◌>>◌, fail_if, or_fail}
use hypercarry.Execution.Model.{ValidatedOrder, validate_order}
use Reasons.{
  kill_switch_code, market_code, stale_code, order_notional_code, aggregate_code, deviation_code,
  leverage_code, open_orders_code, frequency_code, loss_code, allow_code, kill_switch_reason,
  market_reason, stale_reason, limit_reason, leverage_reason, open_orders_reason, frequency_reason,
  allow_reason, order_notional_text, aggregate_text, deviation_text, bps_text, loss_text, no_text,
}

abbrev pub bps_denominator : ℕ
bps_denominator = 10_000

pub record RiskLimits (Num : Type 0) : Type 0 where
  pub allowed_markets : List Text
  pub max_order_notional : Num
  pub max_aggregate_notional : Num
  pub max_price_deviation_bps : Num
  pub max_leverage : Num
  pub max_orders_per_window : ℕ
  pub order_frequency_window_ms : ℤ
  pub max_open_orders : ℕ
  pub max_rolling_loss : Num
  pub max_market_data_age_ms : ℤ

pub record RiskSnapshot (Num : Type 0) : Type 0 where
  pub observed_at_ms : ℤ
  pub market_data_at_ms : ℤ
  pub reference_price : Num
  pub aggregate_notional : Num
  pub account_equity : Num
  pub open_order_count : ℕ
  pub recent_order_times_ms : List ℤ
  pub rolling_pnl : Num

pub data RiskDecision : Type 0 where
  allow : Text → Text → RiskDecision
  reject : Text → Text → RiskDecision

-- What `fs::metadata` says of the path of the `FileKillSwitch`.
pub data PathStatus : Type 0 where
  present not_found unreadable : PathStatus

-- `FileKillSwitch::is_engaged`
unfoldable pub is_engaged : PathStatus → Result Bool
is_engaged present = ok true
is_engaged not_found = ok false
is_engaged unreadable = err policy

pub record ComprehensiveRiskPolicy (Num : Type 0) : Type 0 where
  pub limits : RiskLimits Num
  pub snapshots : ValidatedOrder Num → Result (RiskSnapshot Num)
  pub kill_switch : Result Bool

-- `format!("{}:{}", venue, market)`
abbrev pub market_key : {Num : Type 0} → ValidatedOrder Num → Text
market_key o = o.venue ++ b':' ∷ o.market

abbrev pub contains : List Text → Text → Bool
contains markets key = any (λ m. text_eq m key) markets

module _ {Num : Type 0} ⦃d : Decimal Num⦄ where
  -- `RiskLimits::validate`
  unfoldable pub validate_limits : RiskLimits Num → Result (Unit {0})
  validate_limits l = do
    fail_if
        (is_empty l.allowed_markets
          || any (λ m. is_blank m || not (has_char b':' m)) l.allowed_markets)
        policy
    fail_if (d.le l.max_order_notional d.zero) policy
    fail_if (d.le l.max_aggregate_notional d.zero) policy
    fail_if (d.le l.max_leverage d.zero) policy
    fail_if
        (d.lt l.max_price_deviation_bps d.zero
          || d.le (d.from_u32 bps_denominator) l.max_price_deviation_bps)
        policy
    fail_if (d.lt l.max_rolling_loss d.zero) policy
    fail_if
        (l.max_orders_per_window == 0
          || leb_ℤ l.order_frequency_window_ms (pos 0)
          || l.max_open_orders == 0
          || ltb_ℤ l.max_market_data_age_ms (pos 0))
        policy

  unfoldable pub validate_snapshot : RiskSnapshot Num → Result (Unit {0})
  validate_snapshot s = do
    fail_if (ltb_ℤ s.observed_at_ms (pos 0) || ltb_ℤ s.market_data_at_ms (pos 0)) policy
    fail_if
        (d.le s.reference_price d.zero
          || d.lt s.aggregate_notional d.zero
          || d.le s.account_equity d.zero)
        policy

  -- `ComprehensiveRiskPolicy::new`
  unfoldable pub new_policy :
      RiskLimits Num
      → (ValidatedOrder Num → Result (RiskSnapshot Num))
      → Result Bool
      → Result (ComprehensiveRiskPolicy Num)
  new_policy limits snapshots kill_switch = do
    validate_limits limits
    ok (record { limits = limits; snapshots = snapshots; kill_switch = kill_switch })

  unfoldable pub checked_abs : Num → Option Num
  checked_abs value = if d.lt value d.zero then d.checked_sub d.zero value else some value

  unfoldable pub order_notional : ValidatedOrder Num → Result Num
  order_notional o = do
    product ← or_fail (d.checked_mul o.quantity o.limit_price) policy
    ok (d.normalize product)

  unfoldable pub price_deviation_bps : ValidatedOrder Num → Num → Result Num
  unfolding checked_abs
  price_deviation_bps o reference = do
    bps ←
        or_fail
          (and_then
            (and_then (and_then (d.checked_sub o.limit_price reference) checked_abs)
              (λ deviation. d.checked_div deviation reference))
            (λ ratio. d.checked_mul ratio (d.from_u32 bps_denominator)))
          policy
    ok (d.normalize bps)

  unfoldable pub rolling_loss : Num → Result Num
  rolling_loss pnl =
      if d.lt pnl d.zero then or_fail (d.checked_sub d.zero pnl) policy else ok d.zero

  -- The last checks of `evaluate`: open orders, order frequency and rolling loss.
  unfoldable pub evaluate_activity :
      RiskLimits Num → RiskSnapshot Num → RiskDecision → Result RiskDecision
  evaluate_activity l s allowed =
      if leb l.max_open_orders s.open_order_count
      then ok (reject open_orders_code (open_orders_reason s.open_order_count l.max_open_orders))
      else do
        window_start ← or_fail (checked_sub s.observed_at_ms l.order_frequency_window_ms) policy
        fail_if (any (λ time. ltb_ℤ s.observed_at_ms time) s.recent_order_times_ms) policy
        let recent = length (filter (λ time. leb_ℤ window_start time) s.recent_order_times_ms)
        if leb l.max_orders_per_window recent
            then ok (reject frequency_code (frequency_reason recent l.order_frequency_window_ms))
            else do
              loss ← rolling_loss s.rolling_pnl
              if d.lt l.max_rolling_loss loss
                  then ok (
                      reject loss_code
                        (limit_reason loss_text loss no_text l.max_rolling_loss no_text))
                  else ok allowed

  -- The checks of notional, deviation and leverage.
  unfoldable pub evaluate_exposure :
      RiskLimits Num → RiskSnapshot Num → ValidatedOrder Num → Result RiskDecision
  evaluate_exposure l s o = do
    notional ← order_notional o
    if d.lt l.max_order_notional notional
        then ok (
            reject order_notional_code
              (limit_reason order_notional_text notional no_text l.max_order_notional no_text))
        else do
          projected ← or_fail (d.checked_add s.aggregate_notional notional) policy
          if d.lt l.max_aggregate_notional projected
              then ok (
                  reject aggregate_code (
                    limit_reason aggregate_text projected no_text l.max_aggregate_notional no_text))
              else do
                deviation ← price_deviation_bps o s.reference_price
                if d.lt l.max_price_deviation_bps deviation
                    then ok (
                        reject deviation_code (
                          limit_reason deviation_text deviation bps_text l.max_price_deviation_bps
                            bps_text))
                    else do
                      quotient ← or_fail (d.checked_div projected s.account_equity) policy
                      if d.lt l.max_leverage (d.normalize quotient)
                          then ok (
                              reject leverage_code
                                (leverage_reason (d.normalize quotient) l.max_leverage))
                          else evaluate_activity l s
                              (allow allow_code (allow_reason (market_key o) notional deviation))

  -- The snapshot and the age of its market data.
  unfoldable pub evaluate_snapshot :
      ComprehensiveRiskPolicy Num → ValidatedOrder Num → Result RiskDecision
  evaluate_snapshot p o = do
    s ← p.snapshots o
    validate_snapshot s
    age ← or_fail (checked_sub s.observed_at_ms s.market_data_at_ms) policy
    fail_if (ltb_ℤ age (pos 0)) policy
    if ltb_ℤ p.limits.max_market_data_age_ms age
        then ok (reject stale_code (stale_reason age p.limits.max_market_data_age_ms))
        else evaluate_exposure p.limits s o

  -- `ComprehensiveRiskPolicy::evaluate`
  unfoldable pub evaluate : ComprehensiveRiskPolicy Num → ValidatedOrder Num → Result RiskDecision
  evaluate p o = do
    validate_order o
    validate_limits p.limits
    engaged ← p.kill_switch
    if engaged
        then ok (reject kill_switch_code kill_switch_reason)
        else if not (contains p.limits.allowed_markets (market_key o))
        then ok (reject market_code (market_reason (market_key o)))
        else evaluate_snapshot p o
