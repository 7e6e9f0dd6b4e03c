-- ===== src/Examples/Predictions.antt =====
-- Predictions of crates/hypercarry-core/src/predictor.rs on concrete samples.
use hypercarry.Base.{
  Bool, false, inr, In, ℕ, ◌^◌, ◌*◌, ◌≤◌, ◌≡◌, refl, true, some, none, List, [], ◌∷◌, filter, arith,
}
use hypercarry.Base.Int.{leb_ℤ, ℤ, pos, ◌-ℤ◌, div_euclid, rem_euclid, checked_sub}
use hypercarry.Base.Text.{codes, is_blank, text_eq}
use hypercarry.Base.Outcome.{value, fault}
use hypercarry.Decimal.Fixed.{Fixed, fixed, cents}
use hypercarry.Core.Predictor.{
  PremiumSample, PredictionRequest, FundingPrediction, conflicting_sample_timestamp,
  cutoff_outside_window, new_sample, new_request, window_start_ms, positive_prices,
  hourly_funding_from_average_premium,
}
use hypercarry.Core.Predictor.Forecast.{
  Slots, get_slot, insert_slot, sample_eq, in_window, slot_of, update_slot, add_sample, fill_slots,
  predict_next_hour, premium_samples_per_hour,
}
use hypercarry.Core.Predictor.Coverage.{predict_next_hour_coverage}
use hypercarry.Core.Predictor.Slots.{HasLater, fill_slots-HasLater}
use hypercarry.Core.Predictor.Window.{IsOutside, predict_next_hour-filter}
use hypercarry.Core.Predictor.Conflicts.{predict_next_hour_conflict}

-- A premium of `n` hundredths of the oracle price of 1.
abbrev sample_at : ℕ → ℕ → PremiumSample Fixed
sample_at time bid = record {
  coin = codes "BTC";
  observed_at_ms = pos time;
  oracle_px = cents 100;
  impact_bid_px = cents bid;
  impact_ask_px = cents 102;
  reported_premium = none;
}

-- The settlement at two hours, 10 seconds after the start of its hour.
abbrev request_1 : PredictionRequest Fixed
request_1 = record {
  coin = codes "BTC";
  settlement_time_ms = pos 7200000;
  as_of_ms = pos 3610000;
  official_benchmark = none;
}

-- Two samples of one slot, one of the next, and one of after the cutoff.
abbrev samples_1 : List (PremiumSample Fixed)
samples_1 =
    sample_at 3600200 101 ∷ sample_at 3600100 90 ∷ sample_at 3605100 101 ∷ sample_at 3611000 90 ∷ []

abbrev slots_1 : Slots Fixed
slots_1 = (pos 720, sample_at 3600200 101) ∷ (pos 721, sample_at 3605100 101) ∷ []

abbrev prediction_1 : FundingPrediction Fixed
prediction_1 = record {
  schema_version = 1;
  coin = codes "BTC";
  settlement_time_ms = pos 7200000;
  generated_at_ms = pos 3610000;
  average_premium = cents 1;
  predicted_hourly_rate = pos (11875 * 10 ^ 21);
  coverage = record {
    samples_used = 2;
    expected_samples_so_far = 3;
    coverage_ratio = pos 6666666666666666666666666666;
    hour_progress_ratio = pos 27777777777777777777777777;
    confidence_ratio = pos 18518518518518518518518517;
  };
  official_benchmark_hourly_rate = none;
}

filled : fill_slots request_1 (window_start_ms request_1) samples_1 [] ≡ value slots_1
unfolding fixed window_start_ms fill_slots add_sample in_window new_sample positive_prices
    update_slot get_slot insert_slot is_blank text_eq div_euclid
filled = refl

predicted : predict_next_hour request_1 samples_1 ≡ value prediction_1
unfolding fixed window_start_ms fill_slots add_sample in_window new_sample positive_prices
    update_slot get_slot insert_slot is_blank text_eq div_euclid predict_next_hour new_request
    checked_sub hourly_funding_from_average_premium
predicted = refl

-- A cutoff at the settlement is refused.
late :
    new_request (record request_1 { as_of_ms = pos 7200000 })
    ≡ fault (cutoff_outside_window (pos 7200000) (pos 3600000))
unfolding new_request rem_euclid is_blank checked_sub ◌-ℤ◌
late = refl

predict_next_hour_coverage_example : (2 ≤ 3) × (3 ≤ premium_samples_per_hour)
predict_next_hour_coverage_example =
    predict_next_hour_coverage request_1 samples_1 prediction_1 predicted

fill_slots-HasLater_example :
    ((k : ℤ) (t : PremiumSample Fixed)
      → get_slot k slots_1 ≡ some t
      → In t samples_1
        × (in_window request_1 (window_start_ms request_1) t ≡ true)
        × (slot_of t ≡ k))
    × ((s : PremiumSample Fixed)
        → In s samples_1
        → in_window request_1 (window_start_ms request_1) s ≡ true
        → HasLater s (slot_of s) slots_1)
fill_slots-HasLater_example =
    fill_slots-HasLater request_1 (window_start_ms request_1) samples_1 slots_1 filled

abbrev by_cutoff : PremiumSample Fixed → Bool
by_cutoff s = leb_ℤ s.observed_at_ms (pos 3610000)

after_cutoff : (s : PremiumSample Fixed) → by_cutoff s ≡ false → IsOutside request_1 s
after_cutoff s h = inr (inr (ground arith))

predict_next_hour-filter_example :
    predict_next_hour request_1 (filter by_cutoff samples_1) ≡ predict_next_hour request_1 samples_1
predict_next_hour-filter_example =
    predict_next_hour-filter request_1 by_cutoff samples_1 after_cutoff

abbrev first_sample : PremiumSample Fixed
first_sample = sample_at 3600100 101

abbrev second_sample : PremiumSample Fixed
second_sample = sample_at 3600100 90

abbrev third_sample : PremiumSample Fixed
third_sample = sample_at 3600200 101

-- Two samples of one time that disagree, and a later one of their slot.
predict_next_hour_conflict_example :
    (predict_next_hour request_1 (first_sample ∷ second_sample ∷ third_sample ∷ [])
      ≡ fault (conflicting_sample_timestamp (pos 3600100)))
    × (predict_next_hour request_1 (first_sample ∷ third_sample ∷ second_sample ∷ [])
        ≡ predict_next_hour request_1 (third_sample ∷ []))
unfolding fixed window_start_ms in_window new_sample new_request positive_prices is_blank text_eq
    div_euclid sample_eq rem_euclid checked_sub
predict_next_hour_conflict_example =
    predict_next_hour_conflict request_1 first_sample third_sample second_sample refl
      ((refl, refl), (refl, refl), (refl, refl)) refl refl refl (ground arith)
