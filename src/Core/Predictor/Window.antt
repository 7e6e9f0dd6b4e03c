-- ===== src/Core/Predictor/Window.antt =====
-- What a prediction of crates/hypercarry-core/src/predictor.rs looks at.
use hypercarry.Base.{
  ◌⊎◌, ◌≢◌, Bool, arith, ◌≡◌, refl, sym, ap, subst, ◌∙◌, inl, inr, false, List, [], ◌∷◌, filter,
  if◌then◌else◌, Bool-cases,
}
use hypercarry.Base.Int.{
  ℤ, pos, pos_part, neg_part, ◌+ℤ◌, ◌-ℤ◌, ◌<ℤ◌, leb_ℤ, int_laws, saturated_difference,
  exact_difference,
}
use hypercarry.Base.Text.{Text, text_eq, text_eq_sound}
use hypercarry.Base.Outcome.{Outcome, value, fault, panic, ◌>>=◌}
use hypercarry.Decimal.{Decimal}
use hypercarry.Core.Predictor.{
  PredictorError, PremiumSample, PredictionRequest, new_sample, new_request, window_start_ms,
  funding_hour_ms,
}
use hypercarry.Core.Predictor.Forecast.{
  Slots, get_slot, in_window, slot_of, update_slot, add_sample, fill_slots, concluded,
  predict_next_hour,
}
use hypercarry.Core.Predictor.Rate.{IsAsked, new_request-IsAsked}

not_le : (a b : ℤ) → b <ℤ a → leb_ℤ a b ≡ false
not_le a b h = ground arith

early : (t o start : ℤ) → t -ℤ pos 3600000 ≡ start → o +ℤ pos 3600000 <ℤ t → leb_ℤ start o ≡ false
early t o start e h = not_le start o (omega (int_laws, ap pos_part e, ap neg_part e, h))

other_coin : (a b : Text) → a ≢ b → text_eq a b ≡ false
other_coin a b h = ground (arith, text_eq_sound a b)

module _ {Num : Type 0} ⦃d : Decimal Num⦄ where
  fill_slots-cons :
      (q : PredictionRequest Num) (start : ℤ) (s : PremiumSample Num)
      (rest : List (PremiumSample Num)) (m : Slots Num)
      → fill_slots q start (s ∷ rest) m
        ≡ (add_sample q start s m >>= λ m'. fill_slots q start rest m')
  unfolding fill_slots
  fill_slots-cons q start s rest m = refl

  add_sample-outside :
      (q : PredictionRequest Num) (start : ℤ) (s : PremiumSample Num) (m : Slots Num)
      → in_window q start s ≡ false
      → add_sample q start s m ≡ value m
  unfolding add_sample
  add_sample-outside q start s m h =
      ap
        (λ b.
          if b
          then (new_sample s >>= λ checked. update_slot s (get_slot (slot_of s) m) m)
          else value m)
        h

  -- A sample of another coin, of before the hour of the settlement, or of after the cutoff.
  abbrev pub IsOutside : PredictionRequest Num → PremiumSample Num → Type 0
  IsOutside q s =
      (s.coin ≢ q.coin)
      ⊎ (s.observed_at_ms +ℤ pos 3600000 <ℤ q.settlement_time_ms)
      ⊎ (q.as_of_ms <ℤ s.observed_at_ms)

  -- The start of the window of a request that is accepted.
  begins :
      (q : PredictionRequest Num) (o : ℤ)
      → IsAsked q
      → o +ℤ pos 3600000 <ℤ q.settlement_time_ms
      → leb_ℤ (window_start_ms q) o ≡ false
  unfolding window_start_ms
  begins q o asked h =
      ap (λ x. leb_ℤ x o)
        (saturated_difference q.settlement_time_ms (pos funding_hour_ms) asked.start asked.hour)
      ∙ early q.settlement_time_ms o asked.start
          (exact_difference q.settlement_time_ms (pos funding_hour_ms) asked.start asked.hour) h

  in_window-outside :
      (q : PredictionRequest Num) (s : PremiumSample Num)
      → IsAsked q
      → IsOutside q s
      → in_window q (window_start_ms q) s ≡ false
  unfolding in_window
  in_window-outside q s asked (inl coin) = ground (arith, other_coin s.coin q.coin coin)
  in_window-outside q s asked (inr (inl before)) =
      ground (arith, begins q s.observed_at_ms asked before)
  in_window-outside q s asked (inr (inr late)) = ground arith

  fill_slots-filter :
      (q : PredictionRequest Num) (start : ℤ) (p : PremiumSample Num → Bool)
      (samples : List (PremiumSample Num)) (m : Slots Num)
      → ((s : PremiumSample Num) → p s ≡ false → in_window q start s ≡ false)
      → fill_slots q start (filter p samples) m ≡ fill_slots q start samples m
  fill_slots-filter q start p [] m outside = refl
  fill_slots-filter q start p (s ∷ rest) m outside = elim (Bool-cases (p s)) [
    | inl kept ↦ rw kept (
        fill_slots-cons q start s (filter p rest) m
        ∙ (λ i. add_sample q start s m >>= λ m'. fill_slots-filter q start p rest m' outside i)
        ∙ sym (fill_slots-cons q start s rest m))
    | inr dropped ↦ rw dropped (
        fill_slots-filter q start p rest m outside
        ∙ ap (λ o. o >>= λ m'. fill_slots q start rest m')
            (sym (add_sample-outside q start s m (outside s dropped)))
        ∙ sym (fill_slots-cons q start s rest m))
  ]

  -- Dropping any samples that are of another coin, of more than an hour before the settlement, or of
  -- after the cutoff changes neither the result of a prediction nor its error: a prediction does not
  -- look ahead.
  pub predict_next_hour-filter :
      (q : PredictionRequest Num) (p : PremiumSample Num → Bool)
      (samples : List (PremiumSample Num))
      → ((s : PremiumSample Num) → p s ≡ false → IsOutside q s)
      → predict_next_hour q (filter p samples) ≡ predict_next_hour q samples
  unfolding predict_next_hour
  predict_next_hour-filter q p samples outside =
      asked (new_request q) (λ q' e. new_request-IsAsked q q' e)
    where
      asked :
          (o : Outcome PredictorError (PredictionRequest Num))
          → ((q' : PredictionRequest Num) → o ≡ value q' → IsAsked q × (q ≡ q'))
          → (o >>= λ x. fill_slots x (window_start_ms x) (filter p samples) [] >>= concluded x)
            ≡ (o >>= λ x. fill_slots x (window_start_ms x) samples [] >>= concluded x)
      asked panic same = refl
      asked (fault e) same = refl
      asked (value q') same =
          let (accepted, e) = same q' refl in
          subst
            (λ x.
              (fill_slots x (window_start_ms x) (filter p samples) [] >>= concluded x)
              ≡ (fill_slots x (window_start_ms x) samples [] >>= concluded x))
            e
            (ap (λ o. o >>= concluded q)
              (fill_slots-filter q (window_start_ms q) p samples []
                (λ s h. in_window-outside q s accepted (outside s h))))
