-- ===== src/Execution/Risk/Allows.antt =====
-- When `ComprehensiveRiskPolicy::evaluate` of crates/hypercarry-execution/src/risk.rs allows an order.
use hypercarry.Base.{
  ◌<◌, ◌≡◌, ◌↔◌, refl, ap, ◌∙◌, Bool, true, false, not, some, List, [], ◌∷◌, leb, lt_of_leb-false,
  length, any, filter, All, if◌then◌else◌, arith,
}
use hypercarry.Base.Int.{ℤ, pos, ltb_ℤ, leb_ℤ, ◌≤ℤ◌, checked_sub}
use hypercarry.Base.Text.{Text}
use hypercarry.Decimal.{Decimal}
use hypercarry.Decimal.Order.{AtMost, lt_false, lt_false_normalize}
use hypercarry.Execution.Error.{
  Result, ok, policy, >>=-eq-ok, or_fail-eq-ok, fail_if-eq-ok, ok-injective,
}
use hypercarry.Execution.Model.{ValidatedOrder, validate_order}
use hypercarry.Execution.Risk.{
  RiskLimits, RiskSnapshot, RiskDecision, allow, reject, ComprehensiveRiskPolicy, market_key,
  contains, validate_limits, validate_snapshot, order_notional, price_deviation_bps, rolling_loss,
  evaluate_activity, evaluate_exposure, evaluate_snapshot, evaluate,
}
use hypercarry.Execution.Risk.Reasons.{allow_code, allow_reason}

of_not-false : (b : Bool) → not b ≡ false → b ≡ true
of_not-false b h = ground arith

not_ltb : (a b : ℤ) → ltb_ℤ a b ≡ false → b ≤ℤ a
not_ltb a b h = ground arith

not_after : (now : ℤ) (xs : List ℤ) → any (λ x. ltb_ℤ now x) xs ≡ false → All (λ x. x ≤ℤ now) xs
not_after now [] h = tt
not_after now (x ∷ xs) h = (ground arith, not_after now xs (ground arith))

any_after : (now : ℤ) (xs : List ℤ) → All (λ x. x ≤ℤ now) xs → any (λ x. ltb_ℤ now x) xs ≡ false
any_after now [] h = refl
any_after now (x ∷ xs) h = ground (arith, any_after now xs h.1)

-- A test whose branch rejects was not met by an order that is allowed.
passed :
    (b : Bool) (c r : Text) (k : Result RiskDecision) {code reason : Text}
    → (if b then ok (reject c r) else k) ≡ ok (allow code reason)
    → (b ≡ false) × (k ≡ ok (allow code reason))
passed true c r k h = absurd (ground arith)
passed false c r k h = (refl, h)

module _ {Num : Type 0} ⦃d : Decimal Num⦄ where
  -- The limits on activity: room for one more open order, no order time in the future, fewer orders
  -- in the window than the limit, and a rolling loss within its limit.
  pub record IsCalm (l : RiskLimits Num) (s : RiskSnapshot Num) : Type 0 where
    pub window_start : ℤ
    pub loss : Num
    pub open_orders : s.open_order_count < l.max_open_orders
    pub start : checked_sub s.observed_at_ms l.order_frequency_window_ms ≡ some window_start
    pub past : All (λ time. time ≤ℤ s.observed_at_ms) s.recent_order_times_ms
    pub frequency :
        length (filter (λ time. leb_ℤ window_start time) s.recent_order_times_ms)
        < l.max_orders_per_window
    pub loss_value : rolling_loss s.rolling_pnl ≡ ok loss
    pub loss_within : AtMost loss l.max_rolling_loss

  -- The limits on exposure, on the notional, the projected aggregate, the deviation from the
  -- reference price and the leverage that the checked arithmetic computes.
  pub record IsCovered (l : RiskLimits Num) (s : RiskSnapshot Num) (o : ValidatedOrder Num)
      : Type 0 where
    pub notional : Num
    pub projected : Num
    pub deviation : Num
    pub quotient : Num
    pub notional_value : order_notional o ≡ ok notional
    pub notional_within : AtMost notional l.max_order_notional
    pub projected_value : d.checked_add s.aggregate_notional notional ≡ some projected
    pub projected_within : AtMost projected l.max_aggregate_notional
    pub deviation_value : price_deviation_bps o s.reference_price ≡ ok deviation
    pub deviation_within : AtMost deviation l.max_price_deviation_bps
    pub leverage_value : d.checked_div projected s.account_equity ≡ some quotient
    pub leverage_within : AtMost quotient l.max_leverage

  activity_split :
      (l : RiskLimits Num) (s : RiskSnapshot Num) (allowed : RiskDecision) (code reason : Text)
      → evaluate_activity l s allowed ≡ ok (allow code reason)
      → IsCalm l s × (allowed ≡ allow code reason)
  unfolding evaluate_activity
  activity_split l s allowed code reason h =
      let (room, h1) = passed (leb l.max_open_orders s.open_order_count) _ _ _ h in
      let (start, es, h2) = or_fail-eq-ok _ policy _ h1 in
      let (past, h3) = fail_if-eq-ok _ policy _ h2 in
      let (few, h4) = passed _ _ _ _ h3 in
      let (loss, el, h5) = >>=-eq-ok _ _ h4 in
      let (within, h6) = passed (d.lt l.max_rolling_loss loss) _ _ _ h5 in
      (
        record {
          window_start = start;
          loss = loss;
          open_orders = lt_of_leb-false _ _ room;
          start = es;
          past = not_after s.observed_at_ms s.recent_order_times_ms past;
          frequency = lt_of_leb-false _ _ few;
          loss_value = el;
          loss_within = lt_false l.max_rolling_loss loss within;
        },
        ok-injective _ _ h6,
      )

  activity_join :
      (l : RiskLimits Num) (s : RiskSnapshot Num) (allowed : RiskDecision)
      → IsCalm l s
      → evaluate_activity l s allowed ≡ ok allowed
  unfolding evaluate_activity
  activity_join l s allowed h = ground (
    arith,
    h.start,
    any_after s.observed_at_ms s.recent_order_times_ms h.past,
    h.loss_value,
    d.lt_units l.max_rolling_loss h.loss,
  )

  exposure_split :
      (l : RiskLimits Num) (s : RiskSnapshot Num) (o : ValidatedOrder Num) (code reason : Text)
      → evaluate_exposure l s o ≡ ok (allow code reason)
      → IsCovered l s o × IsCalm l s
  unfolding evaluate_exposure
  exposure_split l s o code reason h =
      let (notional, en, h1) = >>=-eq-ok _ _ h in
      let (small, h2) = passed _ _ _ _ h1 in
      let (projected, ep, h3) = or_fail-eq-ok _ policy _ h2 in
      let (fitting, h4) = passed _ _ _ _ h3 in
      let (deviation, ed, h5) = >>=-eq-ok _ _ h4 in
      let (near, h6) = passed _ _ _ _ h5 in
      let (quotient, eq, h7) = or_fail-eq-ok _ policy _ h6 in
      let (backed, h8) = passed _ _ _ _ h7 in
      (
        record {
          notional = notional;
          projected = projected;
          deviation = deviation;
          quotient = quotient;
          notional_value = en;
          notional_within = lt_false l.max_order_notional notional small;
          projected_value = ep;
          projected_within = lt_false l.max_aggregate_notional projected fitting;
          deviation_value = ed;
          deviation_within = lt_false l.max_price_deviation_bps deviation near;
          leverage_value = eq;
          leverage_within = lt_false_normalize l.max_leverage quotient backed;
        },
        (activity_split l s _ code reason h8).0,
      )

  exposure_join :
      (l : RiskLimits Num) (s : RiskSnapshot Num) (o : ValidatedOrder Num) (c : IsCovered l s o)
      → IsCalm l s
      → evaluate_exposure l s o
        ≡ ok (allow allow_code (allow_reason (market_key o) c.notional c.deviation))
  unfolding evaluate_exposure
  exposure_join l s o c h = ground (
    arith,
    d.lt_units l.max_order_notional c.notional,
    d.lt_units l.max_aggregate_notional c.projected,
    d.lt_units l.max_price_deviation_bps c.deviation,
    d.lt_units l.max_leverage (d.normalize c.quotient),
    d.units_normalize c.quotient,
    activity_join l s (allow allow_code (allow_reason (market_key o) c.notional c.deviation)) h,
  )

  -- What the whole policy asks of an order: its own limits and the order are valid, the kill switch
  -- is known to be off, the market is listed, and the snapshot is valid, fresh, covered and calm.
  pub record IsAllowed (p : ComprehensiveRiskPolicy Num) (o : ValidatedOrder Num) : Type 0 where
    pub snapshot : RiskSnapshot Num
    pub age : ℤ
    pub order_valid : validate_order o ≡ ok tt
    pub limits_valid : validate_limits p.limits ≡ ok tt
    pub switch_off : p.kill_switch ≡ ok false
    pub listed : contains p.limits.allowed_markets (market_key o) ≡ true
    pub snapshot_value : p.snapshots o ≡ ok snapshot
    pub snapshot_valid : validate_snapshot snapshot ≡ ok tt
    pub age_value : checked_sub snapshot.observed_at_ms snapshot.market_data_at_ms ≡ some age
    pub not_future : pos 0 ≤ℤ age
    pub fresh : age ≤ℤ p.limits.max_market_data_age_ms
    pub covered : IsCovered p.limits snapshot o
    pub calm : IsCalm p.limits snapshot

  IsAllowed-split :
      (p : ComprehensiveRiskPolicy Num) (o : ValidatedOrder Num) (code reason : Text)
      → evaluate p o ≡ ok (allow code reason)
      → IsAllowed p o
  unfolding evaluate evaluate_snapshot
  IsAllowed-split p o code reason h =
      let (_, vo, h1) = >>=-eq-ok _ _ h in
      let (_, vl, h2) = >>=-eq-ok _ _ h1 in
      let (engaged, es, h3) = >>=-eq-ok _ _ h2 in
      let (off, h4) = passed engaged _ _ _ h3 in
      let (unlisted, h5) =
        passed (not (contains p.limits.allowed_markets (market_key o))) _ _ _ h4 in
      let (s, ess, h6) = >>=-eq-ok _ _ h5 in
      let (_, vs, h7) = >>=-eq-ok _ _ h6 in
      let (age, ea, h8) = or_fail-eq-ok _ policy _ h7 in
      let (past, h9) = fail_if-eq-ok _ policy _ h8 in
      let (fresh, h10) = passed _ _ _ _ h9 in
      let (covered, calm) = exposure_split p.limits s o code reason h10 in
      record {
        snapshot = s;
        age = age;
        order_valid = vo;
        limits_valid = vl;
        switch_off = es ∙ ap ok off;
        listed = of_not-false _ unlisted;
        snapshot_value = ess;
        snapshot_valid = vs;
        age_value = ea;
        not_future = not_ltb age (pos 0) past;
        fresh = not_ltb p.limits.max_market_data_age_ms age fresh;
        covered = covered;
        calm = calm;
      }

  IsAllowed-join :
      (p : ComprehensiveRiskPolicy Num) (o : ValidatedOrder Num) (a : IsAllowed p o)
      → evaluate p o
        ≡ ok (allow allow_code (allow_reason (market_key o) a.covered.notional a.covered.deviation))
  unfolding evaluate evaluate_snapshot
  IsAllowed-join p o a = ground (arith, exposure_join p.limits a.snapshot o a.covered a.calm)

  -- The policy allows an order exactly where every limit is met; then its code is
  -- `all_limits_satisfied`.
  pub evaluate_iff :
      (p : ComprehensiveRiskPolicy Num) (o : ValidatedOrder Num)
      → ((reason : Text) × (evaluate p o ≡ ok (allow allow_code reason))) ↔ IsAllowed p o
  evaluate_iff p o = (
    λ h. IsAllowed-split p o allow_code h.0 h.1,
    λ a. (allow_reason (market_key o) a.covered.notional a.covered.deviation, IsAllowed-join p o a),
  )
