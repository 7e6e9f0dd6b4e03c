-- ===== src/Execution/Risk/Closed.antt =====
-- The policy of crates/hypercarry-execution/src/risk.rs: its panics, and its dependence on the limits.
use hypercarry.Base.{
  ap, ◌≤◌, ◌≡◌, ◌≢◌, refl, some, List, [], ◌∷◌, length, filter, Bool, true, false, arith,
  if◌then◌else◌,
}
use hypercarry.Base.Int.{
  ℤ, pos, ◌≤ℤ◌, ◌-ℤ◌, leb_ℤ, pos_part, neg_part, IsI64, exact_difference, is_i64, int_laws, ltb_ℤ,
  checked_sub,
}
use hypercarry.Base.Text.{Text}
use hypercarry.Decimal.{Decimal}
use hypercarry.Decimal.Order.{AtMost}
use hypercarry.Execution.Error.{
  Result, ok, panic, policy, >>=-eq-panic, or_fail-eq-panic, fail_if-eq-panic, or_fail_map-ne-panic,
}
use hypercarry.Execution.Model.{ValidatedOrder, validate_order}
use hypercarry.Execution.Risk.{
  RiskLimits, RiskSnapshot, RiskDecision, allow, reject, ComprehensiveRiskPolicy, market_key,
  contains, validate_limits, validate_snapshot, order_notional, price_deviation_bps, rolling_loss,
  evaluate_activity, evaluate_exposure, evaluate_snapshot, evaluate,
}
use hypercarry.Execution.Risk.Allows.{IsCovered, IsCalm, evaluate_iff}
use hypercarry.Execution.Risk.Reasons.{allow_code}

-- A test whose branch rejects does not panic.
refused-panic :
    (b : Bool) (c r : Text) (k : Result RiskDecision)
    → (if b then ok (reject c r) else k) ≡ panic
    → k ≡ panic
refused-panic true c r k h = cc
refused-panic false c r k h = h

in_range :
    (t w w' start : ℤ)
    → IsI64 t
    → pos 0 ≤ℤ w'
    → w' ≤ℤ w
    → checked_sub t w ≡ some start
    → is_i64 (t -ℤ w') ≡ true
unfolding checked_sub ◌-ℤ◌
in_range t w w' start r positive le h = ground arith

-- A shorter window starts later, where the time is a 64-bit integer.
shorter_start :
    (t w w' start : ℤ)
    → IsI64 t
    → pos 0 ≤ℤ w'
    → w' ≤ℤ w
    → checked_sub t w ≡ some start
    → (start' : ℤ) × (checked_sub t w' ≡ some start') × (start ≤ℤ start')
unfolding checked_sub
shorter_start t w w' start r positive le h = (
  t -ℤ w',
  rw (in_range t w w' start r positive le h) refl,
  omega (
    int_laws,
    ap pos_part (exact_difference t w start h),
    ap neg_part (exact_difference t w start h),
  ),
)

-- A later start leaves fewer times in the window.
fewer_times :
    (start start' : ℤ) (times : List ℤ)
    → start ≤ℤ start'
    → length (filter (λ time. leb_ℤ start' time) times)
      ≤ length (filter (λ time. leb_ℤ start time) times)
fewer_times start start' [] h = omega arith
fewer_times start start' (x ∷ times) h = ground (arith, fewer_times start start' times h)

module _ {Num : Type 0} ⦃d : Decimal Num⦄ where
  activity-ne-panic :
      (l : RiskLimits Num) (s : RiskSnapshot Num) (allowed : RiskDecision)
      → evaluate_activity l s allowed ≢ panic
  unfolding evaluate_activity rolling_loss
  activity-ne-panic l s allowed = ground arith

  notional-ne-panic : (o : ValidatedOrder Num) → order_notional o ≢ panic
  unfolding order_notional
  notional-ne-panic o = ground arith

  deviation-ne-panic : (o : ValidatedOrder Num) (r : Num) → price_deviation_bps o r ≢ panic
  unfolding price_deviation_bps
  deviation-ne-panic o r = or_fail_map-ne-panic _ policy d.normalize

  exposure-ne-panic :
      (l : RiskLimits Num) (s : RiskSnapshot Num) (o : ValidatedOrder Num)
      → evaluate_exposure l s o ≢ panic
  unfolding evaluate_exposure
  exposure-ne-panic l s o h =
      let (notional, h1) = >>=-eq-panic (order_notional o) _ (notional-ne-panic o) h in
      let h2 = refused-panic (d.lt l.max_order_notional notional) _ _ _ h1 in
      let (projected, h3) =
        or_fail-eq-panic (d.checked_add s.aggregate_notional notional) policy _ h2 in
      let h4 = refused-panic (d.lt l.max_aggregate_notional projected) _ _ _ h3 in
      let (deviation, h5) =
        >>=-eq-panic (price_deviation_bps o s.reference_price) _
          (deviation-ne-panic o s.reference_price) h4 in
      let h6 = refused-panic (d.lt l.max_price_deviation_bps deviation) _ _ _ h5 in
      let (quotient, h7) =
        or_fail-eq-panic (d.checked_div projected s.account_equity) policy _ h6 in
      let h8 = refused-panic (d.lt l.max_leverage (d.normalize quotient)) _ _ _ h7 in
      activity-ne-panic l s _ h8

  valid_snapshot-ne-panic : (s : RiskSnapshot Num) → validate_snapshot s ≢ panic
  unfolding validate_snapshot
  valid_snapshot-ne-panic s = ground arith

  snapshot-ne-panic :
      (p : ComprehensiveRiskPolicy Num) (o : ValidatedOrder Num)
      → p.snapshots o ≢ panic
      → evaluate_snapshot p o ≢ panic
  unfolding evaluate_snapshot
  snapshot-ne-panic p o h e =
      let (s, e1) = >>=-eq-panic (p.snapshots o) _ h e in
      let (valid, e2) = >>=-eq-panic (validate_snapshot s) _ (valid_snapshot-ne-panic s) e1 in
      let (age, e3) =
        or_fail-eq-panic (checked_sub s.observed_at_ms s.market_data_at_ms) policy _ e2 in
      let e4 = fail_if-eq-panic (ltb_ℤ age (pos 0)) policy _ e3 in
      let e5 = refused-panic (ltb_ℤ p.limits.max_market_data_age_ms age) _ _ _ e4 in
      exposure-ne-panic p.limits s o e5

  valid-ne-panic : (o : ValidatedOrder Num) → validate_order o ≢ panic
  unfolding validate_order
  valid-ne-panic o = ground arith

  limits-ne-panic : (l : RiskLimits Num) → validate_limits l ≢ panic
  unfolding validate_limits
  limits-ne-panic l = ground arith

  -- All arithmetic of the policy is checked: it panics only where its snapshot source or its kill
  -- switch does, whatever the order, the limits and the snapshot.
  pub evaluate-ne-panic :
      (p : ComprehensiveRiskPolicy Num) (o : ValidatedOrder Num)
      → p.kill_switch ≢ panic
      → p.snapshots o ≢ panic
      → evaluate p o ≢ panic
  unfolding evaluate
  evaluate-ne-panic p o hk hs =
      ground (arith, valid-ne-panic o, limits-ne-panic p.limits, snapshot-ne-panic p o hs)

  -- Limits that are nowhere tighter; fewer orders fall into a shorter window.
  pub record Loosens (l k : RiskLimits Num) : Type 0 where
    pub markets :
        (key : Text) → contains l.allowed_markets key ≡ true → contains k.allowed_markets key ≡ true
    pub order_notional : AtMost l.max_order_notional k.max_order_notional
    pub aggregate : AtMost l.max_aggregate_notional k.max_aggregate_notional
    pub deviation : AtMost l.max_price_deviation_bps k.max_price_deviation_bps
    pub leverage : AtMost l.max_leverage k.max_leverage
    pub orders : l.max_orders_per_window ≤ k.max_orders_per_window
    pub window : k.order_frequency_window_ms ≤ℤ l.order_frequency_window_ms
    pub open_orders : l.max_open_orders ≤ k.max_open_orders
    pub loss : AtMost l.max_rolling_loss k.max_rolling_loss
    pub age : l.max_market_data_age_ms ≤ℤ k.max_market_data_age_ms

  IsCovered-mono :
      (l k : RiskLimits Num) (s : RiskSnapshot Num) (o : ValidatedOrder Num)
      → Loosens l k
      → IsCovered l s o
      → IsCovered k s o
  IsCovered-mono l k s o m c = record {
    notional = c.notional;
    projected = c.projected;
    deviation = c.deviation;
    quotient = c.quotient;
    notional_value = c.notional_value;
    notional_within = omega (arith, m.order_notional);
    projected_value = c.projected_value;
    projected_within = omega (arith, m.aggregate);
    deviation_value = c.deviation_value;
    deviation_within = omega (arith, m.deviation);
    leverage_value = c.leverage_value;
    leverage_within = omega (arith, m.leverage);
  }

  window-nonneg :
      (k : RiskLimits Num) → validate_limits k ≡ ok tt → pos 0 ≤ℤ k.order_frequency_window_ms
  unfolding validate_limits
  window-nonneg k v = ground arith

  IsCalm-mono :
      (l k : RiskLimits Num) (s : RiskSnapshot Num)
      → Loosens l k
      → validate_limits k ≡ ok tt
      → IsI64 s.observed_at_ms
      → IsCalm l s
      → IsCalm k s
  IsCalm-mono l k s m v r c =
      let (start, started, later) =
        shorter_start s.observed_at_ms l.order_frequency_window_ms k.order_frequency_window_ms
          c.window_start r (window-nonneg k v) m.window c.start in
      record {
        window_start = start;
        loss = c.loss;
        open_orders = omega (arith, m.open_orders);
        start = started;
        past = c.past;
        frequency = omega (
          arith,
          m.orders,
          c.frequency,
          fewer_times c.window_start start s.recent_order_times_ms later,
        );
        loss_value = c.loss_value;
        loss_within = omega (arith, m.loss);
      }

  -- Where the time of a snapshot is a 64-bit integer, an order that one policy allows is allowed by
  -- every policy with the same sources and valid limits that are nowhere tighter: no market fewer, no
  -- limit lower, no longer window for the order frequency.
  pub evaluate_monotone :
      (p : ComprehensiveRiskPolicy Num) (k : RiskLimits Num) (o : ValidatedOrder Num)
      (reason : Text)
      → ((s : RiskSnapshot Num) → p.snapshots o ≡ ok s → IsI64 s.observed_at_ms)
      → Loosens p.limits k
      → validate_limits k ≡ ok tt
      → evaluate p o ≡ ok (allow allow_code reason)
      → (reason' : Text) × (evaluate (record p { limits = k }) o ≡ ok (allow allow_code reason'))
  evaluate_monotone p k o reason times m v h =
      let a = (evaluate_iff p o).0 (reason, h) in
      (evaluate_iff (record p { limits = k }) o).1 (record {
        snapshot = a.snapshot;
        age = a.age;
        order_valid = a.order_valid;
        limits_valid = v;
        switch_off = a.switch_off;
        listed = m.markets (market_key o) a.listed;
        snapshot_value = a.snapshot_value;
        snapshot_valid = a.snapshot_valid;
        age_value = a.age_value;
        not_future = a.not_future;
        fresh = omega (arith, m.age, a.fresh);
        covered = IsCovered-mono p.limits k a.snapshot o m a.covered;
        calm = IsCalm-mono p.limits k a.snapshot m v (times a.snapshot a.snapshot_value) a.calm;
      })
