-- ===== src/Core/Predictor/Coverage.antt =====
-- How many slots a prediction of crates/hypercarry-core/src/predictor.rs can use.
use hypercarry.Base.{
  ℕ, ◌+◌, ◌/◌, ◌≡◌, refl, sym, ap, subst, ◌∙◌, inl, inr, true, false, List, [], ◌∷◌, ◌≤◌, ◌<◌,
  length, Option, none, some, arith, Bool-cases,
}
use hypercarry.Base.Int.{
  saturated_difference, exact_difference, ℤ, pos, negsuc, pos_part, neg_part, ◌+ℤ◌, ◌-ℤ◌, ◌≤ℤ◌,
  ◌<ℤ◌, eqb_ℤ, ltb_ℤ, int_laws, eq_of_parts, div_euclid, rem_euclid,
}
use hypercarry.Base.Outcome.{value, bind-value, value-injective, if-value, fault}
use hypercarry.Decimal.{Decimal}
use hypercarry.Core.Predictor.{
  funding_hour_ms, conflicting_sample_timestamp, new_sample, PremiumSample, PredictionRequest,
  FundingPrediction, window_start_ms,
}
use hypercarry.Core.Predictor.Forecast.{
  Slots, get_slot, insert_slot, update_slot, sample_eq, in_window, slot_of, add_sample, fill_slots,
  expected_samples, predict_next_hour, premium_samples_per_hour,
}
use hypercarry.Core.Predictor.Rate.{IsAsked, predict_next_hour-Parts}

-- Keys that strictly increase, from one bound to another.
abbrev IsBetween : {Num : Type 0} → ℤ → ℤ → Slots Num → Type 0
IsBetween low high [] = Unit {0}
IsBetween low high ((k, s) ∷ rest) = (low ≤ℤ k) × (k ≤ℤ high) × IsBetween (k +ℤ pos 1) high rest

lt_of : (a b : ℤ) → ltb_ℤ a b ≡ true → a <ℤ b
lt_of a b h = ground arith

next_le : (a b : ℤ) → ltb_ℤ a b ≡ true → a +ℤ pos 1 ≤ℤ b
next_le a b h = omega (int_laws, lt_of a b h)

same_key : (a b : ℤ) → eqb_ℤ a b ≡ true → a ≡ b
same_key a b h = ground arith

above : (k key : ℤ) → ltb_ℤ key k ≡ false → eqb_ℤ k key ≡ false → k <ℤ key
above k key h e = ground arith

between : (k key : ℤ) → ltb_ℤ key k ≡ false → eqb_ℤ k key ≡ false → k +ℤ pos 1 ≤ℤ key
between k key h e = omega (int_laws, above k key h e)

module _ {Num : Type 0} where
  IsBetween-length :
      (low high : ℤ) (m : Slots Num)
      → low ≤ℤ high +ℤ pos 1
      → IsBetween low high m
      → low +ℤ pos (length m) ≤ℤ high +ℤ pos 1
  IsBetween-length low high [] h b = omega int_laws
  IsBetween-length low high ((k, s) ∷ rest) h b =
      omega (int_laws, IsBetween-length (k +ℤ pos 1) high rest (omega int_laws) b.2)

  insert_slot-IsBetween :
      (key : ℤ) (s : PremiumSample Num) (low high : ℤ) (m : Slots Num)
      → low ≤ℤ key
      → key ≤ℤ high
      → IsBetween low high m
      → IsBetween low high (insert_slot key s m)
  unfolding insert_slot
  insert_slot-IsBetween key s low high [] h h' b = (h, h', tt)
  insert_slot-IsBetween key s low high ((k, t) ∷ rest) h h' b = elim (Bool-cases (ltb_ℤ key k)) [
    | inl before ↦ rw before (h, h', (next_le key k before, b.1, b.2))
    | inr after ↦ rw after (elim (Bool-cases (eqb_ℤ k key)) [
      | inl same ↦
          rw same (h, h', subst (λ x. IsBetween (x +ℤ pos 1) high rest) (same_key k key same) b.2)
      | inr other ↦ rw other (
        b.0,
        b.1,
        insert_slot-IsBetween key s (k +ℤ pos 1) high rest (between k key after other) h' b.2,
      )
    ])
  ]

div_mono : (a b : ℤ) → a ≤ℤ b → div_euclid a 5000 ≤ℤ div_euclid b 5000
unfolding div_euclid
div_mono (pos m) (pos n) h = omega arith
div_mono (pos m) (negsuc n) h = omega arith
div_mono (negsuc m) (pos n) h = omega arith
div_mono (negsuc m) (negsuc n) h = omega arith

div_add :
    (a : ℤ) (c : ℕ)
    → rem_euclid a 5000 ≡ 0
    → div_euclid (a +ℤ pos c) 5000 ≡ div_euclid a 5000 +ℤ pos (c / 5000)
unfolding div_euclid rem_euclid ◌+ℤ◌
div_add (pos n) c h = ground arith
div_add (negsuc n) c h = ground arith

aligned_start : (t s : ℤ) → rem_euclid t 3600000 ≡ 0 → t -ℤ pos 3600000 ≡ s → rem_euclid s 5000 ≡ 0
unfolding rem_euclid ◌-ℤ◌
aligned_start (pos n) s h e = ground arith
aligned_start (negsuc n) s h e = ground arith

-- The expected count of an hour that has begun.
expected_lem :
    (q_start cutoff : ℤ) (c : ℕ)
    → c < 3600000
    → cutoff -ℤ q_start ≡ pos c
    → expected_samples cutoff q_start ≡ c / 5000 + 1
unfolding expected_samples ◌+ℤ◌
expected_lem q_start cutoff c h e = rw e (ground arith)

nonneg_pos : (x : ℤ) → pos 0 ≤ℤ x → x ≡ pos (pos_part x)
nonneg_pos (pos n) h = refl
nonneg_pos (negsuc n) h = absurd (omega arith)

room : (low high : ℤ) (k : ℕ) → high ≡ low +ℤ pos k → low ≤ℤ high +ℤ pos 1
room low high k e = omega (int_laws, ap pos_part e, ap neg_part e)

elapsed :
    (t cutoff start : ℤ)
    → t -ℤ pos 3600000 ≡ start
    → start ≤ℤ cutoff
    → cutoff <ℤ t
    → (c : ℕ) × (c < 3600000) × (cutoff -ℤ start ≡ pos c) × (start +ℤ pos c ≡ cutoff)
elapsed t cutoff start e h h' =
    let p = nonneg_pos (cutoff -ℤ start) (omega (int_laws, h)) in
    (
      pos_part (cutoff -ℤ start),
      omega (int_laws, ap pos_part e, ap neg_part e, ap neg_part p),
      p,
      eq_of_parts _ _ (omega (int_laws, ap neg_part p)),
    )

counted :
    (n : ℕ) (low high : ℤ) (c used expected : ℕ)
    → c < 3600000
    → used ≡ n
    → expected ≡ c / 5000 + 1
    → high ≡ low +ℤ pos (c / 5000)
    → low +ℤ pos n ≤ℤ high +ℤ pos 1
    → (used ≤ expected) × (expected ≤ 720)
counted n low high c used expected h e1 e2 e3 b =
    (omega (int_laws, ap pos_part e3, ap neg_part e3), omega arith)

module _ {Num : Type 0} ⦃d : Decimal Num⦄ where
  window_times :
      (q : PredictionRequest Num) (start : ℤ) (s : PremiumSample Num)
      → in_window q start s ≡ true
      → (start ≤ℤ s.observed_at_ms) × (s.observed_at_ms ≤ℤ q.as_of_ms)
  unfolding in_window
  window_times q start s h = ground arith

  update_slot-IsBetween :
      (s : PremiumSample Num) (entry : Option (PremiumSample Num)) (low high : ℤ) (m m' : Slots Num)
      → low ≤ℤ slot_of s
      → slot_of s ≤ℤ high
      → update_slot s entry m ≡ value m'
      → IsBetween low high m
      → IsBetween low high m'
  unfolding update_slot
  update_slot-IsBetween s none low high m m' lo hi h b =
      subst (IsBetween low high) (value-injective _ m' h)
        (insert_slot-IsBetween (slot_of s) s low high m lo hi b)
  update_slot-IsBetween s (some e) low high m m' lo hi h b =
      elim (if-value (eqb_ℤ e.observed_at_ms s.observed_at_ms) _ _ h) [
        | inl (_, h1) ↦
            elim (if-value (sample_eq e s) (value m)
              (fault (conflicting_sample_timestamp s.observed_at_ms)) h1) [
                | inl (_, h2) ↦ subst (IsBetween low high) (value-injective m m' h2) b
                | inr (_, h2) ↦ cc
              ]
        | inr (_, h1) ↦
            elim (if-value (ltb_ℤ s.observed_at_ms e.observed_at_ms) (value m)
              (value (insert_slot (slot_of s) s m)) h1) [
                | inl (_, h2) ↦ subst (IsBetween low high) (value-injective m m' h2) b
                | inr (_, h2) ↦
                    subst (IsBetween low high) (value-injective _ m' h2)
                      (insert_slot-IsBetween (slot_of s) s low high m lo hi b)
              ]
      ]

  add_sample-IsBetween :
      (q : PredictionRequest Num) (start : ℤ) (s : PremiumSample Num) (m m' : Slots Num)
      → add_sample q start s m ≡ value m'
      → IsBetween (div_euclid start 5000) (div_euclid q.as_of_ms 5000) m
      → IsBetween (div_euclid start 5000) (div_euclid q.as_of_ms 5000) m'
  unfolding add_sample
  add_sample-IsBetween q start s m m' h b = elim (if-value (in_window q start s) _ (value m) h) [
    | inl (inside, h1) ↦
        let (_, _, h2) = bind-value (new_sample s) _ h1 in
        let (early, late) = window_times q start s inside in
        update_slot-IsBetween s (get_slot (slot_of s) m) (div_euclid start 5000)
          (div_euclid q.as_of_ms 5000) m m' (div_mono start s.observed_at_ms early)
          (div_mono s.observed_at_ms q.as_of_ms late) h2 b
    | inr (_, h1) ↦
        subst (IsBetween (div_euclid start 5000) (div_euclid q.as_of_ms 5000))
          (value-injective m m' h1) b
  ]

  fill_slots-IsBetween :
      (q : PredictionRequest Num) (start : ℤ) (samples : List (PremiumSample Num))
      (m m' : Slots Num)
      → fill_slots q start samples m ≡ value m'
      → IsBetween (div_euclid start 5000) (div_euclid q.as_of_ms 5000) m
      → IsBetween (div_euclid start 5000) (div_euclid q.as_of_ms 5000) m'
  unfolding fill_slots
  fill_slots-IsBetween q start [] m m' h b =
      subst (IsBetween (div_euclid start 5000) (div_euclid q.as_of_ms 5000))
        (value-injective m m' h) b
  fill_slots-IsBetween q start (s ∷ rest) m m' h b =
      let (m1, e, h1) = bind-value (add_sample q start s m) _ h in
      fill_slots-IsBetween q start rest m1 m' h1 (add_sample-IsBetween q start s m m1 e b)

  -- The start of the window, and the time since then.
  Hour : PredictionRequest Num → ℕ → Type 0
  Hour q c =
      (c < 3600000)
      × (q.as_of_ms -ℤ window_start_ms q ≡ pos c)
      × (window_start_ms q +ℤ pos c ≡ q.as_of_ms)
      × (rem_euclid (window_start_ms q) 5000 ≡ 0)

  IsAsked-Hour : (q : PredictionRequest Num) → IsAsked q → (c : ℕ) × Hour q c
  unfolding window_start_ms Hour
  IsAsked-Hour q asked =
      let e =
        saturated_difference q.settlement_time_ms (pos funding_hour_ms) asked.start asked.hour in
      let far =
        exact_difference q.settlement_time_ms (pos funding_hour_ms) asked.start asked.hour in
      let (c, small, after, since) =
        elapsed q.settlement_time_ms q.as_of_ms asked.start far asked.begun asked.open_hour in
      (
        c,
        subst
            (λ x.
              (c < 3600000)
              × (q.as_of_ms -ℤ x ≡ pos c)
              × (x +ℤ pos c ≡ q.as_of_ms)
              × (rem_euclid x 5000 ≡ 0))
            (sym e)
            (small, after, since, aligned_start q.settlement_time_ms asked.start asked.aligned far),
      )

  -- A prediction uses no more samples than the five-second slots that have begun since the start of the
  -- hour, which are at most 720.
  pub predict_next_hour_coverage :
      (q : PredictionRequest Num) (samples : List (PremiumSample Num)) (f : FundingPrediction Num)
      → predict_next_hour q samples ≡ value f
      → (f.coverage.samples_used ≤ f.coverage.expected_samples_so_far)
        × (f.coverage.expected_samples_so_far ≤ premium_samples_per_hour)
  unfolding Hour
  predict_next_hour_coverage q samples f h =
      let parts = predict_next_hour-Parts q samples f h in
      let start = window_start_ms q in
      let (c, hour) = IsAsked-Hour q parts.asked in
      let (small, after, since, aligned) = hour in
      let inside = fill_slots-IsBetween q start samples [] parts.slots parts.filled tt in
      let end = ap (λ x. div_euclid x 5000) (sym since) ∙ div_add start c aligned in
      counted (length parts.slots) (div_euclid start 5000) (div_euclid q.as_of_ms 5000) c
        f.coverage.samples_used f.coverage.expected_samples_so_far small parts.used
        (parts.expected ∙ expected_lem start q.as_of_ms c small after) end
        (IsBetween-length (div_euclid start 5000) (div_euclid q.as_of_ms 5000) parts.slots
          (room (div_euclid start 5000) (div_euclid q.as_of_ms 5000) (c / 5000) end) inside)
