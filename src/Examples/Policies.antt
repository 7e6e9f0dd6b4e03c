-- ===== src/Examples/Policies.antt =====
-- The risk policy of crates/hypercarry-execution/src/risk.rs on a concrete order and snapshot.
use hypercarry.Base.{subst, ◌*◌, ◌^◌, ◌≡◌, ◌≢◌, ◌↔◌, refl, true, false, [], ◌∷◌, arith}
use hypercarry.Base.Int.{IsI64, pos, checked_sub}
use hypercarry.Base.Text.{Text, codes, text_eq, byte_len, is_blank, has_char}
use hypercarry.Decimal.Fixed.{Fixed, fixed, cents}
use hypercarry.Execution.Error.{ok-injective, ok, panic}
use hypercarry.Execution.Model.{validate_order}
use hypercarry.Execution.Risk.{
  RiskLimits, RiskSnapshot, allow, reject, ComprehensiveRiskPolicy, validate_limits,
  validate_snapshot, evaluate, evaluate_snapshot, evaluate_exposure, evaluate_activity,
  order_notional, price_deviation_bps, rolling_loss, market_key,
}
use hypercarry.Execution.Risk.Reasons.{
  allow_code, allow_reason, kill_switch_code, kill_switch_reason,
}
use hypercarry.Execution.Risk.Allows.{IsAllowed, evaluate_iff}
use hypercarry.Execution.Risk.Closed.{evaluate-ne-panic, Loosens, evaluate_monotone}
use hypercarry.Examples.Orders.{sell_order}

abbrev pub limits_1 : RiskLimits Fixed
limits_1 = record {
  allowed_markets = codes "venue:BTC-PERP" ∷ [];
  max_order_notional = cents 20000;
  max_aggregate_notional = cents 50000;
  max_price_deviation_bps = cents 10000;
  max_leverage = cents 200;
  max_orders_per_window = 3;
  order_frequency_window_ms = pos 60000;
  max_open_orders = 2;
  max_rolling_loss = cents 5000;
  max_market_data_age_ms = pos 500;
}

abbrev snapshot_1 : RiskSnapshot Fixed
snapshot_1 = record {
  observed_at_ms = pos 100000;
  market_data_at_ms = pos 99900;
  reference_price = cents 10000;
  aggregate_notional = cents 10000;
  account_equity = cents 100000;
  open_order_count = 1;
  recent_order_times_ms = pos 1000 ∷ pos 90000 ∷ [];
  rolling_pnl = cents 0;
}

abbrev policy_1 : ComprehensiveRiskPolicy Fixed
policy_1 = record { limits = limits_1; snapshots = λ o. ok snapshot_1; kill_switch = ok false }

abbrev limits_2 : RiskLimits Fixed
limits_2 = record limits_1 { max_open_orders = 4; order_frequency_window_ms = pos 500 }

limits_2_valid : validate_limits limits_2 ≡ ok tt
unfolding validate_limits is_blank has_char fixed
limits_2_valid = refl

-- 1.23 at 100.5 is 123.615, and 50 basis points above the reference price.
allowed :
    evaluate policy_1 sell_order
    ≡ ok (
        allow allow_code
          (allow_reason (market_key sell_order) (pos (123615 * 10 ^ 25)) (cents 5000)))
unfolding evaluate validate_order validate_limits evaluate_snapshot validate_snapshot
    evaluate_exposure evaluate_activity order_notional price_deviation_bps rolling_loss is_blank
    has_char byte_len text_eq fixed checked_sub
allowed = refl

stopped :
    evaluate (record policy_1 { kill_switch = ok true }) sell_order
    ≡ ok (reject kill_switch_code kill_switch_reason)
unfolding evaluate validate_order validate_limits is_blank has_char byte_len fixed
stopped = refl

evaluate_iff_example :
    ((reason : Text) × (evaluate policy_1 sell_order ≡ ok (allow allow_code reason)))
    ↔ IsAllowed policy_1 sell_order
evaluate_iff_example = evaluate_iff policy_1 sell_order

evaluate-ne-panic_example : evaluate policy_1 sell_order ≢ panic
evaluate-ne-panic_example = evaluate-ne-panic policy_1 sell_order (ground arith) (ground arith)

looser : Loosens limits_1 limits_2
looser = record {
  markets = λ key h. h;
  order_notional = omega arith;
  aggregate = omega arith;
  deviation = omega arith;
  leverage = omega arith;
  orders = omega arith;
  window = omega arith;
  open_orders = omega arith;
  loss = omega arith;
  age = omega arith;
}

snapshot_time :
    (s : RiskSnapshot Fixed) → policy_1.snapshots sell_order ≡ ok s → IsI64 s.observed_at_ms
snapshot_time s e =
    subst (λ x. IsI64 x.observed_at_ms) (ok-injective snapshot_1 s e) (omega arith, omega arith)

evaluate_monotone_example :
    (reason : Text) × (evaluate (record policy_1 { limits = limits_2 }) sell_order
      ≡ ok (allow allow_code reason))
evaluate_monotone_example =
    evaluate_monotone policy_1 limits_2 sell_order _ snapshot_time looser limits_2_valid allowed
