-- ===== src/Core/Predictor/Conflicts.antt =====
-- Samples of one receive time that disagree, in crates/hypercarry-core/src/predictor.rs.
use hypercarry.Base.{
  ◌≡◌, refl, sym, ap, subst, ◌∙◌, true, false, some, List, [], ◌∷◌, if◌then◌else◌, arith,
}
use hypercarry.Base.Int.{ℤ, div_euclid, ◌<ℤ◌, eqb_ℤ}
use hypercarry.Base.Outcome.{value, fault, ◌>>=◌}
use hypercarry.Decimal.{Decimal}
use hypercarry.Core.Predictor.{
  conflicting_sample_timestamp, PremiumSample, PredictionRequest, new_sample, new_request,
  window_start_ms,
}
use hypercarry.Core.Predictor.Forecast.{
  Slots, premium_sample_interval_ms, get_slot, insert_slot, sample_eq, in_window, slot_of,
  update_slot, add_sample, fill_slots, concluded, predict_next_hour,
}

same_slot : (k j : ℤ) → k ≡ j → eqb_ℤ k j ≡ true
same_slot k j e = ground arith

module _ {Num : Type 0} ⦃d : Decimal Num⦄ where
  -- A valid sample of the window.
  abbrev pub IsUsable : PredictionRequest Num → PremiumSample Num → Type 0
  IsUsable q s = (in_window q (window_start_ms q) s ≡ true) × (new_sample s ≡ value s)

  add_usable :
      (q : PredictionRequest Num) (s : PremiumSample Num) (m : Slots Num)
      → IsUsable q s
      → add_sample q (window_start_ms q) s m ≡ update_slot s (get_slot (slot_of s) m) m
  unfolding add_sample
  add_usable q s m (inside, valid) =
      ap
        (λ b.
          if b
          then (new_sample s >>= λ checked. update_slot s (get_slot (slot_of s) m) m)
          else value m)
        inside
      ∙ ap (λ o. o >>= λ checked. update_slot s (get_slot (slot_of s) m) m) valid

  only :
      (k : ℤ) (s t : PremiumSample Num)
      → k ≡ slot_of s
      → get_slot (slot_of s) ((k, t) ∷ []) ≡ some t
  unfolding get_slot
  only k s t e = ground (arith, e)

  first :
      (q : PredictionRequest Num) (s : PremiumSample Num)
      → IsUsable q s
      → add_sample q (window_start_ms q) s [] ≡ value ((slot_of s, s) ∷ [])
  unfolding get_slot update_slot insert_slot
  first q s u = add_usable q s [] u

  entry :
      (q : PredictionRequest Num) (k : ℤ) (s t : PremiumSample Num)
      → k ≡ slot_of s
      → IsUsable q s
      → add_sample q (window_start_ms q) s ((k, t) ∷ []) ≡ update_slot s (some t) ((k, t) ∷ [])
  entry q k s t e u =
      add_usable q s ((k, t) ∷ []) u ∙ ap (λ o. update_slot s o ((k, t) ∷ [])) (only k s t e)

  conflicts :
      (s t : PremiumSample Num) (m : Slots Num)
      → t.observed_at_ms ≡ s.observed_at_ms
      → sample_eq t s ≡ false
      → update_slot s (some t) m ≡ fault (conflicting_sample_timestamp s.observed_at_ms)
  unfolding update_slot
  conflicts s t m e other = ground (arith, other)

  ignored :
      (s t : PremiumSample Num) (m : Slots Num)
      → s.observed_at_ms <ℤ t.observed_at_ms
      → update_slot s (some t) m ≡ value m
  unfolding update_slot
  ignored s t m h = ground arith

  replaced :
      (s t : PremiumSample Num) (k : ℤ)
      → k ≡ slot_of s
      → t.observed_at_ms <ℤ s.observed_at_ms
      → update_slot s (some t) ((k, t) ∷ []) ≡ value ((slot_of s, s) ∷ [])
  unfolding update_slot insert_slot
  replaced s t k e h = ground (arith, same_slot k (slot_of s) e)

  one :
      (q : PredictionRequest Num) (b : PremiumSample Num) (m : Slots Num)
      → fill_slots q (window_start_ms q) (b ∷ []) m
        ≡ (add_sample q (window_start_ms q) b m >>= λ m1. value m1)
  unfolding fill_slots
  one q b m = refl

  three :
      (q : PredictionRequest Num) (a b c : PremiumSample Num) (m : Slots Num)
      → fill_slots q (window_start_ms q) (a ∷ b ∷ c ∷ []) m ≡ (
          add_sample q (window_start_ms q) a m >>= λ m1.
          add_sample q (window_start_ms q) b m1 >>= λ m2.
          add_sample q (window_start_ms q) c m2 >>= λ m3. value m3)
  unfolding fill_slots
  three q a b c m = refl

  predicted :
      (q : PredictionRequest Num) (samples : List (PremiumSample Num))
      → new_request q ≡ value q
      → predict_next_hour q samples ≡ (fill_slots q (window_start_ms q) samples [] >>= concluded q)
  unfolding predict_next_hour
  predicted q samples e =
      ap (λ o. o >>= λ x. fill_slots x (window_start_ms x) samples [] >>= concluded x) e

  -- Of two usable samples of one time that differ, a prediction rejects the pair if they come first and
  -- a later usable sample `b` of their slot comes third, but not if `b` comes between them: it then
  -- predicts from `b` alone. So whether a conflict is an error depends on the order of the samples.
  pub predict_next_hour_conflict :
      (q : PredictionRequest Num) (a b c : PremiumSample Num)
      → new_request q ≡ value q
      → IsUsable q a × IsUsable q b × IsUsable q c
      → a.observed_at_ms ≡ c.observed_at_ms
      → sample_eq a c ≡ false
      → slot_of a ≡ slot_of b
      → a.observed_at_ms <ℤ b.observed_at_ms
      → (predict_next_hour q (a ∷ c ∷ b ∷ [])
          ≡ fault (conflicting_sample_timestamp c.observed_at_ms))
        × (predict_next_hour q (a ∷ b ∷ c ∷ []) ≡ predict_next_hour q (b ∷ []))
  predict_next_hour_conflict q a b c e (ua, ub, uc) same other slot later = (
    predicted q (a ∷ c ∷ b ∷ []) e ∙ ap (λ o. o >>= concluded q) rejects,
    predicted q (a ∷ b ∷ c ∷ []) e
        ∙ ap (λ o. o >>= concluded q) (accepts ∙ sym alone)
        ∙ sym (predicted q (b ∷ []) e),
  )
    where
      slot_c : slot_of a ≡ slot_of c
      slot_c = ap (λ t. div_euclid t premium_sample_interval_ms) same

      pair :
          add_sample q (window_start_ms q) c ((slot_of a, a) ∷ [])
          ≡ fault (conflicting_sample_timestamp c.observed_at_ms)
      pair = entry q (slot_of a) c a slot_c uc ∙ conflicts c a ((slot_of a, a) ∷ []) same other

      newer : add_sample q (window_start_ms q) b ((slot_of a, a) ∷ []) ≡ value ((slot_of b, b) ∷ [])
      newer = entry q (slot_of a) b a slot ub ∙ replaced b a (slot_of a) slot later

      older : add_sample q (window_start_ms q) c ((slot_of b, b) ∷ []) ≡ value ((slot_of b, b) ∷ [])
      older =
          entry q (slot_of b) c b (sym slot ∙ slot_c) uc
          ∙ ignored c b ((slot_of b, b) ∷ []) (subst (λ t. t <ℤ b.observed_at_ms) same later)

      rejects :
          fill_slots q (window_start_ms q) (a ∷ c ∷ b ∷ []) []
          ≡ fault (conflicting_sample_timestamp c.observed_at_ms)
      rejects = three q a c b [] ∙ rw (first q a ua) (rw pair refl)

      accepts : fill_slots q (window_start_ms q) (a ∷ b ∷ c ∷ []) [] ≡ value ((slot_of b, b) ∷ [])
      accepts = three q a b c [] ∙ rw (first q a ua) (rw newer (rw older refl))

      alone : fill_slots q (window_start_ms q) (b ∷ []) [] ≡ value ((slot_of b, b) ∷ [])
      alone = one q b [] ∙ rw (first q b ub) refl
