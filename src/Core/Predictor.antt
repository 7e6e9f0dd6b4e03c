-- ===== src/Core/Predictor.antt =====
-- crates/hypercarry-core/src/predictor.rs: premium samples, the funding formula, requests, and the
-- evaluation of a prediction. Errors keep their kind and the times that they name.
pub mod Forecast
pub mod Rate
pub mod Slots
pub mod Window
pub mod Coverage
pub mod Conflicts
use hypercarry.Base.{
  ℕ, ◌≡◌, Bool, true, false, not, ◌&&◌, ◌||◌, Option, none, some, List, ◌==◌, option_eq,
  if◌then◌else◌,
}
use hypercarry.Base.Int.{
  ℤ, pos, negsuc, leb_ℤ, ltb_ℤ, eqb_ℤ, checked_sub, saturating_sub, rem_euclid,
}
use hypercarry.Base.Text.{Text, text_eq, is_blank}
use hypercarry.Base.Outcome.{Outcome, panic, fault, value, ◌>>=◌, ◌>>◌, refuse, or_fault}
use hypercarry.Decimal.{Decimal, max_of, clamp}

pub data PredictorError : Type 0 where
  empty_coin non_positive_price non_positive_book_size payload : PredictorError
  unaligned_settlement conflicting_sample_timestamp : ℤ → PredictorError
  cutoff_outside_window no_samples : (as_of_ms start_ms : ℤ) → PredictorError
  future_benchmark benchmark_settlement_mismatch : ℤ → ℤ → PredictorError
  missing_benchmark_interval zero_benchmark_interval : PredictorError
  settlement_mismatch prediction_after_settlement : PredictorError
  empty_backtest mixed_backtest_coins duplicate_backtest_settlement arithmetic : PredictorError

abbrev pub funding_hour_ms : ℕ
funding_hour_ms = 3600000

pub record PremiumSample (Num : Type 0) : Type 0 where
  pub coin : Text
  pub observed_at_ms : ℤ
  pub oracle_px : Num
  pub impact_bid_px : Num
  pub impact_ask_px : Num
  pub reported_premium : Option Num

pub record OfficialBenchmark (Num : Type 0) : Type 0 where
  pub observed_at_ms : ℤ
  pub settlement_time_ms : ℤ
  pub hourly_rate : Num

pub record PredictionRequest (Num : Type 0) : Type 0 where
  pub coin : Text
  pub settlement_time_ms : ℤ
  pub as_of_ms : ℤ
  pub official_benchmark : Option (OfficialBenchmark Num)

pub record PredictionCoverage (Num : Type 0) : Type 0 where
  pub samples_used : ℕ
  pub expected_samples_so_far : ℕ
  pub coverage_ratio : Num
  pub hour_progress_ratio : Num
  pub confidence_ratio : Num

pub record FundingPrediction (Num : Type 0) : Type 0 where
  pub schema_version : ℕ
  pub coin : Text
  pub settlement_time_ms : ℤ
  pub generated_at_ms : ℤ
  pub average_premium : Num
  pub predicted_hourly_rate : Num
  pub coverage : PredictionCoverage Num
  pub official_benchmark_hourly_rate : Option Num

pub record RealizedSettlement (Num : Type 0) : Type 0 where
  pub coin : Text
  pub settlement_time_ms : ℤ
  pub hourly_rate : Num

pub record PredictionEvaluation (Num : Type 0) : Type 0 where
  pub schema_version : ℕ
  pub coin : Text
  pub settlement_time_ms : ℤ
  pub predicted_hourly_rate : Num
  pub realized_hourly_rate : Num
  pub signed_error : Num
  pub absolute_error : Num
  pub official_signed_error : Option Num
  pub official_absolute_error : Option Num

abbrev pub Predicted : Type 0 → Type 0
Predicted A = Outcome PredictorError A

module _ {Num : Type 0} ⦃d : Decimal Num⦄ where
  -- `interest_rate_eight_hour`, `clamp_bound_eight_hour`, `hourly_funding_cap` and `eight`
  abbrev pub interest_rate_eight_hour : Num
  interest_rate_eight_hour = d.of_scaled 1 4

  abbrev pub clamp_bound_eight_hour : Num
  clamp_bound_eight_hour = d.of_scaled 5 4

  abbrev pub hourly_funding_cap : Num
  hourly_funding_cap = d.of_scaled 4 2

  abbrev pub eight : Num
  eight = d.from_u32 8

  -- The loop over the three prices.
  unfoldable pub positive_prices : Num → Num → Num → Predicted (Unit {0})
  positive_prices oracle bid ask = do
    refuse (d.le oracle d.zero) non_positive_price
    refuse (d.le bid d.zero) non_positive_price
    refuse (d.le ask d.zero) non_positive_price

  -- `PremiumSample::new` of the fields of a sample
  unfoldable pub new_sample : PremiumSample Num → Predicted (PremiumSample Num)
  unfolding positive_prices
  new_sample s = do
    refuse (is_blank s.coin) empty_coin
    positive_prices s.oracle_px s.impact_bid_px s.impact_ask_px
    value s

  unfoldable pub premium_index : Num → Num → Num → Predicted Num
  unfolding positive_prices max_of
  premium_index oracle bid ask = do
    positive_prices oracle bid ask
    over ← or_fault (d.checked_sub bid oracle) arithmetic
    under ← or_fault (d.checked_sub oracle ask) arithmetic
    difference ← or_fault (d.checked_sub (max_of over d.zero) (max_of under d.zero)) arithmetic
    or_fault (d.checked_div difference oracle) arithmetic

  -- `calculated_premium`
  abbrev pub calculated_premium : PremiumSample Num → Predicted Num
  calculated_premium s = premium_index s.oracle_px s.impact_bid_px s.impact_ask_px

  unfoldable pub hourly_funding_from_average_premium : Num → Predicted Num
  unfolding clamp
  hourly_funding_from_average_premium average = do
    difference ← or_fault (d.checked_sub interest_rate_eight_hour average) arithmetic
    let clamped = clamp difference (d.neg clamp_bound_eight_hour) clamp_bound_eight_hour
    rate ← or_fault (d.checked_add average clamped) arithmetic
    hourly ← or_fault (d.checked_div rate eight) arithmetic
    value (clamp hourly (d.neg hourly_funding_cap) hourly_funding_cap)

  abbrev observed_after : Option (OfficialBenchmark Num) → ℤ → Bool
  observed_after none as_of = false
  observed_after (some b) as_of = ltb_ℤ as_of b.observed_at_ms

  abbrev settles_elsewhere : Option (OfficialBenchmark Num) → ℤ → Bool
  settles_elsewhere none settlement = false
  settles_elsewhere (some b) settlement = not (eqb_ℤ b.settlement_time_ms settlement)

  abbrev benchmark_times : Option (OfficialBenchmark Num) → ℤ × ℤ
  benchmark_times none = (pos 0, pos 0)
  benchmark_times (some b) = (b.observed_at_ms, b.settlement_time_ms)

  -- `PredictionRequest::new` of the fields of a request
  unfoldable pub new_request : PredictionRequest Num → Predicted (PredictionRequest Num)
  unfolding rem_euclid
  new_request q = do
    refuse (is_blank q.coin) empty_coin
    refuse (not (rem_euclid q.settlement_time_ms funding_hour_ms == 0))
        (unaligned_settlement q.settlement_time_ms)
    start ← or_fault (checked_sub q.settlement_time_ms (pos funding_hour_ms)) arithmetic
    refuse (ltb_ℤ q.as_of_ms start || leb_ℤ q.settlement_time_ms q.as_of_ms)
        (cutoff_outside_window q.as_of_ms start)
    refuse (observed_after q.official_benchmark q.as_of_ms)
        (future_benchmark (benchmark_times q.official_benchmark).0 q.as_of_ms)
    refuse (settles_elsewhere q.official_benchmark q.settlement_time_ms) (
        benchmark_settlement_mismatch (benchmark_times q.official_benchmark).1 q.settlement_time_ms)
    value q

  unfoldable pub window_start_ms : PredictionRequest Num → ℤ
  unfolding saturating_sub
  window_start_ms q = saturating_sub q.settlement_time_ms (pos funding_hour_ms)

  -- `RealizedSettlement::new` of the fields of a settlement
  unfoldable pub new_settlement : RealizedSettlement Num → Predicted (RealizedSettlement Num)
  unfolding rem_euclid
  new_settlement s = do
    refuse (is_blank s.coin) empty_coin
    refuse (not (rem_euclid s.settlement_time_ms funding_hour_ms == 0))
        (unaligned_settlement s.settlement_time_ms)
    value s

  -- `Decimal::abs`
  abbrev abs : Num → Num
  abs x = if d.lt x d.zero then d.neg x else x

  abbrev error_of : Option Num → Num → Predicted (Option Num)
  error_of none realized = value none
  error_of (some rate) realized = do
    e ← or_fault (d.checked_sub rate realized) arithmetic
    value (some e)

  abbrev abs_of : Option Num → Option Num
  abs_of none = none
  abs_of (some x) = some (abs x)

  unfoldable pub evaluate_prediction :
      FundingPrediction Num → RealizedSettlement Num → Predicted (PredictionEvaluation Num)
  unfolding new_settlement
  evaluate_prediction f s = do
    checked ← new_settlement s
    refuse (not (text_eq f.coin s.coin) || not (eqb_ℤ f.settlement_time_ms s.settlement_time_ms))
        settlement_mismatch
    refuse (leb_ℤ f.settlement_time_ms f.generated_at_ms) prediction_after_settlement
    signed ← or_fault (d.checked_sub f.predicted_hourly_rate s.hourly_rate) arithmetic
    official ← error_of f.official_benchmark_hourly_rate s.hourly_rate
    value (record {
      schema_version = 1;
      coin = f.coin;
      settlement_time_ms = f.settlement_time_ms;
      predicted_hourly_rate = f.predicted_hourly_rate;
      realized_hourly_rate = s.hourly_rate;
      signed_error = signed;
      absolute_error = abs signed;
      official_signed_error = official;
      official_absolute_error = abs_of official;
    })
