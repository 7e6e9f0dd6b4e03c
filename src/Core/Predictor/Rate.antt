-- ===== src/Core/Predictor/Rate.antt =====
-- The bounds of what `predict_next_hour` of crates/hypercarry-core/src/predictor.rs returns.
use hypercarry.Base.{
  ℕ, ◌*◌, ◌^◌, ◌≡◌, refl, sym, false, List, [], some, Bool, not, ◌||◌, ◌==◌, subst, arith, is_empty,
  length,
}
use hypercarry.Base.Int.{
  ℤ, pos, ◌≤ℤ◌, ◌<ℤ◌, ltb_ℤ, leb_ℤ, rem_euclid, checked_sub, ◌-ℤ◌, saturating_sub,
}
use hypercarry.Base.Text.{is_blank}
use hypercarry.Base.Outcome.{value, bind-value, or_fault-value, refuse-value, value-injective}
use hypercarry.Decimal.{Decimal, clamp, min_of}
use hypercarry.Decimal.Order.{AtMost, min_of_bounds}
use hypercarry.Core.Predictor.{
  no_samples, empty_coin, unaligned_settlement, cutoff_outside_window, future_benchmark,
  benchmark_settlement_mismatch, observed_after, settles_elsewhere, benchmark_times, arithmetic,
  PremiumSample, PredictionRequest, FundingPrediction, PredictionCoverage, new_request,
  window_start_ms, interest_rate_eight_hour, clamp_bound_eight_hour, hourly_funding_cap, eight,
  hourly_funding_from_average_premium, funding_hour_ms,
}
use hypercarry.Core.Predictor.Forecast.{
  Slots, fill_slots, sum_premiums, expected_samples, to_u32, coverage_of, forecast,
  predict_next_hour,
}

to_u32-some : (n m : ℕ) → to_u32 n ≡ some m → n ≡ m
to_u32-some n m h = ground arith

zero_of : (n : ℕ) → not (n == 0) ≡ false → n ≡ 0
zero_of n h = ground arith

begun_of : (x start : ℤ) (b : Bool) → (ltb_ℤ x start || b) ≡ false → start ≤ℤ x
begun_of x start b h = ground arith

open_of : (x y : ℤ) (b : Bool) → (b || leb_ℤ x y) ≡ false → y <ℤ x
open_of x y b h = ground arith

module _ {Num : Type 0} ⦃d : Decimal Num⦄ where
  -- Between the negative of a bound and the bound.
  abbrev pub IsWithin : Num → Num → Type 0
  IsWithin bound x = AtMost (d.neg bound) x × AtMost x bound

  clamp-IsWithin :
      (x bound : Num) (n : ℕ) → d.units bound ≡ pos n → IsWithin bound (clamp x (d.neg bound) bound)
  unfolding clamp ◌-ℤ◌
  clamp-IsWithin x bound n e =
      ground (arith, d.lt_units x (d.neg bound), d.lt_units bound x, d.units_neg bound)

  hourly-IsWithin :
      (average rate : Num)
      → hourly_funding_from_average_premium average ≡ value rate
      → IsWithin hourly_funding_cap rate
  unfolding hourly_funding_from_average_premium
  hourly-IsWithin average rate h =
      let (difference, _, h1) =
        or_fault-value (d.checked_sub interest_rate_eight_hour average) arithmetic _ h in
      let (sum, _, h2) =
        or_fault-value
          (d.checked_add average
            (clamp difference (d.neg clamp_bound_eight_hour) clamp_bound_eight_hour))
          arithmetic _ h1 in
      let (hourly, _, h3) = or_fault-value (d.checked_div sum eight) arithmetic _ h2 in
      subst (IsWithin hourly_funding_cap) (value-injective _ _ h3) (
        clamp-IsWithin hourly hourly_funding_cap (4 * 10 ^ 26)
          (d.units_of_scaled 4 2 (omega arith) (omega arith)))

  -- What a prediction promises: the times of its request, and the bounds of its rate and coverage.
  pub record IsForecast (q : PredictionRequest Num) (f : FundingPrediction Num) : Type 0 where
    pub settlement : f.settlement_time_ms ≡ q.settlement_time_ms
    pub cutoff : f.generated_at_ms ≡ q.as_of_ms
    pub capped : IsWithin hourly_funding_cap f.predicted_hourly_rate
    pub covered : AtMost f.coverage.coverage_ratio d.one

  -- What a request that is accepted meets: an aligned settlement, an hour that fits, a cutoff within
  -- that hour, and no benchmark from after the cutoff.
  pub record IsAsked (q : PredictionRequest Num) : Type 0 where
    pub aligned : rem_euclid q.settlement_time_ms funding_hour_ms ≡ 0
    pub start : ℤ
    pub hour : checked_sub q.settlement_time_ms (pos funding_hour_ms) ≡ some start
    pub begun : start ≤ℤ q.as_of_ms
    pub open_hour : q.as_of_ms <ℤ q.settlement_time_ms

  pub new_request-IsAsked :
      (q q' : PredictionRequest Num) → new_request q ≡ value q' → IsAsked q × (q ≡ q')
  unfolding new_request
  new_request-IsAsked q q' h =
      let (_, h1) = refuse-value (is_blank q.coin) empty_coin _ h in
      let (aligned, h2) =
        refuse-value (not (rem_euclid q.settlement_time_ms funding_hour_ms == 0))
          (unaligned_settlement q.settlement_time_ms) _ h1 in
      let (start, hour, h3) =
        or_fault-value (checked_sub q.settlement_time_ms (pos funding_hour_ms)) arithmetic _ h2 in
      let (inside, h4) =
        refuse-value (ltb_ℤ q.as_of_ms start || leb_ℤ q.settlement_time_ms q.as_of_ms)
          (cutoff_outside_window q.as_of_ms start) _ h3 in
      let (_, h5) =
        refuse-value (observed_after q.official_benchmark q.as_of_ms)
          (future_benchmark (benchmark_times q.official_benchmark).0 q.as_of_ms) _ h4 in
      let (_, h6) =
        refuse-value (settles_elsewhere q.official_benchmark q.settlement_time_ms)
          (benchmark_settlement_mismatch (benchmark_times q.official_benchmark).1
            q.settlement_time_ms)
          _ h5 in
      (
        record {
          aligned = zero_of _ aligned;
          start = start;
          hour = hour;
          begun = begun_of q.as_of_ms start _ inside;
          open_hour = open_of q.settlement_time_ms q.as_of_ms _ inside;
        },
        value-injective _ _ h6,
      )

  -- What the coverage counts.
  Counts : PredictionCoverage Num → ℕ → ℤ → ℤ → Type 0
  Counts c used cutoff start =
      (c.samples_used ≡ used)
      × (c.expected_samples_so_far ≡ expected_samples cutoff start)
      × AtMost c.coverage_ratio d.one

  coverage_of-Counts :
      (used : ℕ) (cutoff start : ℤ) (c : PredictionCoverage Num)
      → coverage_of used cutoff start ≡ value c
      → Counts c used cutoff start
  unfolding coverage_of Counts
  coverage_of-Counts used cutoff start c h =
      let (ratio, _, h1) =
        or_fault-value
          (d.checked_div (d.from_u32 used) (d.from_u32 (expected_samples cutoff start))) arithmetic
          _ h in
      let (progress, _, h2) =
        or_fault-value
          (d.checked_div (d.from_i64 (saturating_sub cutoff start))
            (d.from_i64 (pos funding_hour_ms)))
          arithmetic _ h1 in
      let (confidence, _, h3) =
        or_fault-value (d.checked_mul (min_of ratio d.one) progress) arithmetic _ h2 in
      subst (λ x. Counts x used cutoff start) (value-injective _ _ h3)
        (refl, refl, (min_of_bounds ratio d.one).1)

  -- A forecast carries its request's times, a capped rate, and the coverage of its slots.
  FromSlots : PredictionRequest Num → ℤ → Slots Num → FundingPrediction Num → Type 0
  FromSlots q start slots f =
      (f.settlement_time_ms ≡ q.settlement_time_ms)
      × (f.generated_at_ms ≡ q.as_of_ms)
      × IsWithin hourly_funding_cap f.predicted_hourly_rate
      × Counts f.coverage (length slots) q.as_of_ms start

  forecast-FromSlots :
      (q : PredictionRequest Num) (start : ℤ) (slots : Slots Num) (f : FundingPrediction Num)
      → forecast q start slots ≡ value f
      → FromSlots q start slots f
  unfolding forecast FromSlots
  forecast-FromSlots q start slots f h =
      let (sum, _, h1) = bind-value (sum_premiums d.zero slots) _ h in
      let (used, few, h2) = or_fault-value (to_u32 (length slots)) arithmetic _ h1 in
      let (average, _, h3) = or_fault-value (d.checked_div sum (d.from_u32 used)) arithmetic _ h2 in
      let (coverage, counted, h4) = bind-value (coverage_of used q.as_of_ms start) _ h3 in
      let (rate, rated, h5) = bind-value (hourly_funding_from_average_premium average) _ h4 in
      subst (FromSlots q start slots) (value-injective _ _ h5) (
        refl,
        refl,
        hourly-IsWithin average rate rated,
        subst (λ n. Counts coverage n q.as_of_ms start) (sym (to_u32-some (length slots) used few))
            (coverage_of-Counts used q.as_of_ms start coverage counted),
      )

  -- What a prediction takes from its parts.
  pub record Parts (q : PredictionRequest Num) (samples : List (PremiumSample Num))
      (f : FundingPrediction Num) : Type 0 where
    pub asked : IsAsked q
    pub slots : Slots Num
    pub filled : fill_slots q (window_start_ms q) samples [] ≡ value slots
    pub used : f.coverage.samples_used ≡ length slots
    pub expected :
        f.coverage.expected_samples_so_far ≡ expected_samples q.as_of_ms (window_start_ms q)
    pub promised : IsForecast q f

  pub predict_next_hour-Parts :
      (q : PredictionRequest Num) (samples : List (PremiumSample Num)) (f : FundingPrediction Num)
      → predict_next_hour q samples ≡ value f
      → Parts q samples f
  unfolding predict_next_hour FromSlots Counts
  predict_next_hour-Parts q samples f h =
      let (q', e, h0) = bind-value (new_request q) _ h in
      let (asked, same) = new_request-IsAsked q q' e in
      let (slots, filled, h1) = bind-value (fill_slots q' (window_start_ms q') samples []) _ h0 in
      let (_, h2) =
        refuse-value (is_empty slots) (no_samples q'.as_of_ms (window_start_ms q')) _ h1 in
      let made =
        subst (λ x. FromSlots x (window_start_ms x) slots f) (sym same)
          (forecast-FromSlots q' (window_start_ms q') slots f h2) in
      let (settles, cut, capped, counts) = made in
      let (used, expected, covered) = counts in
      record {
        asked = asked;
        slots = slots;
        filled =
            subst (λ x. fill_slots x (window_start_ms x) samples [] ≡ value slots) (sym same)
              filled;
        used = used;
        expected = expected;
        promised = record {
          settlement = settles;
          cutoff = cut;
          capped = capped;
          covered = covered;
        };
      }

  -- A prediction is for the settlement and the cutoff of its request, its hourly rate lies within the
  -- cap of 4%, and its coverage ratio is at most one.
  predict_next_hour-IsForecast :
      (q : PredictionRequest Num) (samples : List (PremiumSample Num)) (f : FundingPrediction Num)
      → predict_next_hour q samples ≡ value f
      → IsForecast q f
  predict_next_hour-IsForecast q samples f h = (predict_next_hour-Parts q samples f h).promised
