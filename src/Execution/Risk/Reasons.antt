-- ===== src/Execution/Risk/Reasons.antt =====
-- The codes and reasons of the decisions in crates/hypercarry-execution/src/risk.rs.
use hypercarry.Base.{ℕ, [], ◌++◌}
use hypercarry.Base.Int.{ℤ}
use hypercarry.Base.Text.{Text, codes, show_nat, show_int}
use hypercarry.Decimal.{Decimal}

unfoldable pub kill_switch_code : Text
kill_switch_code = codes "kill_switch"

unfoldable pub market_code : Text
market_code = codes "market_not_allowed"

unfoldable pub stale_code : Text
stale_code = codes "stale_market_data"

unfoldable pub order_notional_code : Text
order_notional_code = codes "max_order_notional"

unfoldable pub aggregate_code : Text
aggregate_code = codes "max_aggregate_notional"

unfoldable pub deviation_code : Text
deviation_code = codes "max_price_deviation"

unfoldable pub leverage_code : Text
leverage_code = codes "max_leverage"

unfoldable pub open_orders_code : Text
open_orders_code = codes "max_open_orders"

unfoldable pub frequency_code : Text
frequency_code = codes "order_frequency"

unfoldable pub loss_code : Text
loss_code = codes "max_rolling_loss"

unfoldable pub allow_code : Text
allow_code = codes "all_limits_satisfied"

unfoldable pub kill_switch_reason : Text
kill_switch_reason = codes "process-independent kill switch is engaged"

unfoldable pub market_reason : Text → Text
market_reason key = codes "market " ++ (key ++ codes " is not in the exact allowlist")

unfoldable pub stale_reason : ℤ → ℤ → Text
stale_reason age limit =
    codes "market data age "
    ++ (show_int age ++ (codes "ms exceeds " ++ (show_int limit ++ codes "ms")))

unfoldable pub open_orders_reason : ℕ → ℕ → Text
open_orders_reason count limit =
    codes "open order count " ++ (show_nat count ++ (codes " reached limit " ++ show_nat limit))

unfoldable pub frequency_reason : ℕ → ℤ → Text
frequency_reason recent window =
    show_nat recent
    ++ (codes " orders already occurred in the inclusive "
        ++ (show_int window ++ codes "ms window"))

unfoldable pub order_notional_text : Text
order_notional_text = codes "order notional "

unfoldable pub aggregate_text : Text
aggregate_text = codes "projected aggregate notional "

unfoldable pub deviation_text : Text
deviation_text = codes "limit deviation "

unfoldable pub bps_text : Text
bps_text = codes "bps"

unfoldable pub loss_text : Text
loss_text = codes "rolling loss "

unfoldable pub no_text : Text
no_text = []

module _ {Num : Type 0} ⦃d : Decimal Num⦄ where
  -- `{prefix}{value}{unit} exceeds {limit}{unit}`
  unfoldable pub limit_reason : Text → Num → Text → Num → Text → Text
  limit_reason prefix value unit limit limit_unit =
      prefix
      ++ (d.display value ++ (unit ++ (codes " exceeds " ++ (d.display limit ++ limit_unit))))

  unfoldable pub leverage_reason : Num → Num → Text
  leverage_reason value limit =
      codes "projected leverage "
      ++ (d.display value ++ (codes "x exceeds " ++ (d.display limit ++ codes "x")))

  unfoldable pub allow_reason : Text → Num → Num → Text
  allow_reason key notional deviation =
      codes "allowed "
      ++ (key
          ++ (codes " notional "
              ++ (d.display notional
                  ++ (codes " at " ++ (d.display deviation ++ codes "bps deviation")))))
