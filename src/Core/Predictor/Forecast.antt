-- ===== src/Core/Predictor/Forecast.antt =====
-- `predict_next_hour` of crates/hypercarry-core/src/predictor.rs. The map of slots is a list in the
-- order of its keys.
use hypercarry.Base.{
  ℕ, ◌^◌, Bool, ◌&&◌, Option, none, some, List, [], ◌∷◌, length, is_empty, ltb, option_eq, min,
  if◌then◌else◌,
}
use hypercarry.Base.Int.{
  ℤ, pos, negsuc, leb_ℤ, ltb_ℤ, eqb_ℤ, saturating_sub, saturating_add, div_euclid,
}
use hypercarry.Base.Text.{text_eq}
use hypercarry.Base.Outcome.{fault, value, ◌>>=◌, ◌>>◌, refuse, or_fault}
use hypercarry.Decimal.{Decimal, min_of}
use hypercarry.Core.Predictor.{
  no_samples, conflicting_sample_timestamp, arithmetic, PremiumSample, OfficialBenchmark,
  PredictionRequest, PredictionCoverage, FundingPrediction, Predicted, new_sample, new_request,
  window_start_ms, calculated_premium, premium_index, hourly_funding_from_average_premium,
  funding_hour_ms,
}

abbrev pub premium_sample_interval_ms : ℕ
premium_sample_interval_ms = 5000

abbrev pub premium_samples_per_hour : ℕ
premium_samples_per_hour = 720

abbrev pub Slots : Type 0 → Type 0
Slots Num = List (ℤ × PremiumSample Num)

-- `u32::try_from`
abbrev pub to_u32 : ℕ → Option ℕ
to_u32 n = if ltb n (2 ^ 32) then some n else none

abbrev u32_or_hour : ℤ → ℕ
u32_or_hour (pos n) = if ltb n (2 ^ 32) then n else premium_samples_per_hour
u32_or_hour (negsuc n) = premium_samples_per_hour

unfoldable pub expected_samples : ℤ → ℤ → ℕ
unfolding saturating_sub saturating_add div_euclid
expected_samples cutoff start =
    min
      (u32_or_hour (
        saturating_add (div_euclid (saturating_sub cutoff start) premium_sample_interval_ms)
          (pos 1)))
      premium_samples_per_hour

module _ {Num : Type 0} where
  -- `BTreeMap::get` and `BTreeMap::insert`
  unfoldable pub get_slot : ℤ → Slots Num → Option (PremiumSample Num)
  get_slot key [] = none
  get_slot key ((k, s) ∷ rest) = if eqb_ℤ k key then some s else get_slot key rest

  unfoldable pub insert_slot : ℤ → PremiumSample Num → Slots Num → Slots Num
  insert_slot key s [] = (key, s) ∷ []
  insert_slot key s ((k, t) ∷ rest) =
      if ltb_ℤ key k
      then (key, s) ∷ (k, t) ∷ rest
      else if eqb_ℤ k key
      then (key, s) ∷ rest
      else (k, t) ∷ insert_slot key s rest

module _ {Num : Type 0} ⦃d : Decimal Num⦄ where
  -- `==` of samples, whose decimals are equal by value.
  unfoldable pub sample_eq : PremiumSample Num → PremiumSample Num → Bool
  sample_eq a b =
      text_eq a.coin b.coin
      && eqb_ℤ a.observed_at_ms b.observed_at_ms
      && d.eq a.oracle_px b.oracle_px
      && d.eq a.impact_bid_px b.impact_bid_px
      && d.eq a.impact_ask_px b.impact_ask_px
      && option_eq d.eq a.reported_premium b.reported_premium

  -- The filter of the samples.
  unfoldable pub in_window : PredictionRequest Num → ℤ → PremiumSample Num → Bool
  in_window q start s =
      text_eq s.coin q.coin
      && leb_ℤ start s.observed_at_ms
      && leb_ℤ s.observed_at_ms q.as_of_ms
      && ltb_ℤ s.observed_at_ms q.settlement_time_ms

  abbrev pub slot_of : PremiumSample Num → ℤ
  slot_of s = div_euclid s.observed_at_ms premium_sample_interval_ms

  -- The `match` on the slot's entry.
  unfoldable pub update_slot :
      PremiumSample Num → Option (PremiumSample Num) → Slots Num → Predicted (Slots Num)
  update_slot s none slots = value (insert_slot (slot_of s) s slots)
  update_slot s (some existing) slots =
      if eqb_ℤ existing.observed_at_ms s.observed_at_ms
      then if sample_eq existing s
        then value slots
        else fault (conflicting_sample_timestamp s.observed_at_ms)
      else if ltb_ℤ s.observed_at_ms existing.observed_at_ms
      then value slots
      else value (insert_slot (slot_of s) s slots)

  -- One sample of the loop.
  unfoldable pub add_sample :
      PredictionRequest Num → ℤ → PremiumSample Num → Slots Num → Predicted (Slots Num)
  unfolding update_slot in_window
  add_sample q start s slots =
      let added = new_sample s >>= λ checked. update_slot s (get_slot (slot_of s) slots) slots in
      if in_window q start s then added else value slots

  unfoldable pub fill_slots :
      PredictionRequest Num → ℤ → List (PremiumSample Num) → Slots Num → Predicted (Slots Num)
  unfolding add_sample
  fill_slots q start [] slots = value slots
  fill_slots q start (s ∷ rest) slots =
      add_sample q start s slots >>= λ slots'. fill_slots q start rest slots'

  -- The sum of the premiums, in the order of the slots.
  unfoldable pub sum_premiums : Num → Slots Num → Predicted Num
  unfolding premium_index
  sum_premiums sum [] = value sum
  sum_premiums sum ((k, s) ∷ rest) = do
    premium ← calculated_premium s
    next ← or_fault (d.checked_add sum premium) arithmetic
    sum_premiums next rest

  abbrev rate_of : Option (OfficialBenchmark Num) → Option Num
  rate_of none = none
  rate_of (some b) = some b.hourly_rate

  -- The coverage at the cutoff.
  unfoldable pub coverage_of : ℕ → ℤ → ℤ → Predicted (PredictionCoverage Num)
  unfolding expected_samples min_of saturating_sub
  coverage_of used cutoff start = do
    ratio ←
        or_fault (d.checked_div (d.from_u32 used) (d.from_u32 (expected_samples cutoff start)))
          arithmetic
    progress ←
        or_fault
          (d.checked_div (d.from_i64 (saturating_sub cutoff start))
            (d.from_i64 (pos funding_hour_ms)))
          arithmetic
    confidence ← or_fault (d.checked_mul (min_of ratio d.one) progress) arithmetic
    value (record {
      samples_used = used;
      expected_samples_so_far = expected_samples cutoff start;
      coverage_ratio = min_of ratio d.one;
      hour_progress_ratio = progress;
      confidence_ratio = confidence;
    })

  -- The forecast from the slots.
  unfoldable pub forecast :
      PredictionRequest Num → ℤ → Slots Num → Predicted (FundingPrediction Num)
  unfolding sum_premiums coverage_of
  forecast q start slots = do
    sum ← sum_premiums d.zero slots
    used ← or_fault (to_u32 (length slots)) arithmetic
    average ← or_fault (d.checked_div sum (d.from_u32 used)) arithmetic
    coverage ← coverage_of used q.as_of_ms start
    rate ← hourly_funding_from_average_premium average
    value (record {
      schema_version = 1;
      coin = q.coin;
      settlement_time_ms = q.settlement_time_ms;
      generated_at_ms = q.as_of_ms;
      average_premium = average;
      predicted_hourly_rate = rate;
      coverage = coverage;
      official_benchmark_hourly_rate = rate_of q.official_benchmark;
    })

  -- Once the samples are in their slots.
  abbrev pub concluded : PredictionRequest Num → Slots Num → Predicted (FundingPrediction Num)
  concluded q slots = do
    refuse (is_empty slots) (no_samples q.as_of_ms (window_start_ms q))
    forecast q (window_start_ms q) slots

  unfoldable pub predict_next_hour :
      PredictionRequest Num → List (PremiumSample Num) → Predicted (FundingPrediction Num)
  unfolding fill_slots forecast
  predict_next_hour request samples = do
    q ← new_request request
    slots ← fill_slots q (window_start_ms q) samples []
    concluded q slots
