-- ===== src/Core/Predictor/Slots.antt =====
-- The map of slots in crates/hypercarry-core/src/predictor.rs.
use hypercarry.Base.{
  In, ◌≡◌, refl, sym, ap, subst, ◌∙◌, ◌⊎◌, inl, inr, true, false, Option, some, none, List, [], ◌∷◌,
  if◌then◌else◌, arith, Bool-cases,
}
use hypercarry.Base.Int.{ℤ, ◌≤ℤ◌, eqb_ℤ, ltb_ℤ}
use hypercarry.Base.Outcome.{value, fault, bind-value, value-injective, if-value}
use hypercarry.Decimal.{Decimal}
use hypercarry.Core.Predictor.{
  PredictorError, conflicting_sample_timestamp, PremiumSample, PredictionRequest, new_sample,
}
use hypercarry.Core.Predictor.Forecast.{
  Slots, get_slot, insert_slot, sample_eq, in_window, slot_of, update_slot, add_sample, fill_slots,
}

eqb_ℤ-eq : (a b : ℤ) → eqb_ℤ a b ≡ true → a ≡ b
eqb_ℤ-eq a b h = ground arith

eqb_ℤ_refl : (a : ℤ) → eqb_ℤ a a ≡ true
eqb_ℤ_refl a = ground arith

eqb_ℤ_trans : (a b c : ℤ) → eqb_ℤ a b ≡ true → eqb_ℤ a c ≡ eqb_ℤ b c
eqb_ℤ_trans a b c h = ap (λ x. eqb_ℤ x c) (eqb_ℤ-eq a b h)

some-injective : {A : Type 0} (a b : A) → some a ≡ some b → a ≡ b
some-injective a b h = ground arith

none-ne-some : {A : Type 0} (a : A) → none ≡ some a → ⊥
none-ne-some a h = cc

fault-ne-value : {A : Type 0} {e : PredictorError} {a : A} → fault e ≡ value a → ⊥
fault-ne-value h = cc

true-ne-false : true ≡ false → ⊥
true-ne-false h = cc

module _ {Num : Type 0} where
  no_entry : (k : ℤ) (t : PremiumSample Num) → get_slot k [] ≡ some t → ⊥
  unfolding get_slot
  no_entry k t h = cc

  not_later :
      (s e e' : PremiumSample Num)
      → e ≡ e'
      → ltb_ℤ s.observed_at_ms e.observed_at_ms ≡ false
      → e'.observed_at_ms ≤ℤ s.observed_at_ms
  not_later s e e' same h = subst (λ x. x.observed_at_ms ≤ℤ s.observed_at_ms) same (ground arith)

  pub get_slot-insert_slot :
      (j k : ℤ) (s : PremiumSample Num) (m : Slots Num)
      → get_slot j (insert_slot k s m) ≡ (if eqb_ℤ k j then some s else get_slot j m)
  unfolding get_slot insert_slot
  get_slot-insert_slot j k s [] = refl
  get_slot-insert_slot j k s ((i, t) ∷ rest) =
      ground (arith, get_slot-insert_slot j k s rest, eqb_ℤ-eq i k, eqb_ℤ_trans i k j)

module _ {Num : Type 0} ⦃d : Decimal Num⦄ where
  -- An entry of the slot that is at least as late.
  abbrev pub HasLater : PremiumSample Num → ℤ → Slots Num → Type 0
  HasLater s k m =
      (t : PremiumSample Num) × (get_slot k m ≡ some t) × (s.observed_at_ms ≤ℤ t.observed_at_ms)

  HasLater-weaken :
      (s t : PremiumSample Num) (k : ℤ) (m : Slots Num)
      → s.observed_at_ms ≤ℤ t.observed_at_ms
      → HasLater t k m
      → HasLater s k m
  HasLater-weaken s t k m h (u, found, later) = (u, found, ground arith)

  -- A step of the loop: it loses no entry but for a later one, takes the sample of its slot, and adds
  -- nothing else.
  record Steps (s : PremiumSample Num) (m m' : Slots Num) : Type 0 where
    pub keeps : (k : ℤ) (t : PremiumSample Num) → get_slot k m ≡ some t → HasLater t k m'
    pub takes : HasLater s (slot_of s) m'
    pub adds :
        (k : ℤ) (t : PremiumSample Num)
        → get_slot k m' ≡ some t
        → (get_slot k m ≡ some t) ⊎ ((s ≡ t) × (slot_of s ≡ k))

  kept :
      (s e : PremiumSample Num) (m : Slots Num)
      → get_slot (slot_of s) m ≡ some e
      → s.observed_at_ms ≤ℤ e.observed_at_ms
      → Steps s m m
  kept s e m found later = record {
    keeps = λ k t h. (t, h, ground arith);
    takes = (e, found, later);
    adds = λ k t h. inl h;
  }

  inserted :
      (s : PremiumSample Num) (m : Slots Num)
      → ((e : PremiumSample Num)
          → get_slot (slot_of s) m ≡ some e
          → e.observed_at_ms ≤ℤ s.observed_at_ms)
      → Steps s m (insert_slot (slot_of s) s m)
  inserted s m newer = record { keeps = keeps; takes = (s, own, ground arith); adds = adds }
    where
      found :
          (k : ℤ)
          → get_slot k (insert_slot (slot_of s) s m)
            ≡ (if eqb_ℤ (slot_of s) k then some s else get_slot k m)
      found k = get_slot-insert_slot k (slot_of s) s m

      own : get_slot (slot_of s) (insert_slot (slot_of s) s m) ≡ some s
      own =
          found (slot_of s)
          ∙ ap (λ b. if b then some s else get_slot (slot_of s) m) (eqb_ℤ_refl (slot_of s))

      keeps :
          (k : ℤ) (t : PremiumSample Num)
          → get_slot k m ≡ some t
          → HasLater t k (insert_slot (slot_of s) s m)
      keeps k t h = elim (Bool-cases (eqb_ℤ (slot_of s) k)) [
        | inl same ↦ (
          s,
          found k ∙ ap (λ b. if b then some s else get_slot k m) same,
          newer t (ap (λ x. get_slot x m) (eqb_ℤ-eq (slot_of s) k same) ∙ h),
        )
        | inr other ↦
            (t, found k ∙ ap (λ b. if b then some s else get_slot k m) other ∙ h, ground arith)
      ]

      adds :
          (k : ℤ) (t : PremiumSample Num)
          → get_slot k (insert_slot (slot_of s) s m) ≡ some t
          → (get_slot k m ≡ some t) ⊎ ((s ≡ t) × (slot_of s ≡ k))
      adds k t h = elim (Bool-cases (eqb_ℤ (slot_of s) k)) [
        | inl same ↦ inr (
          some-injective s t
              (sym (ap (λ b. if b then some s else get_slot k m) same) ∙ sym (found k) ∙ h),
          eqb_ℤ-eq (slot_of s) k same,
        )
        | inr other ↦
            inl (sym (ap (λ b. if b then some s else get_slot k m) other) ∙ sym (found k) ∙ h)
      ]

  update_slot-Steps :
      (s : PremiumSample Num) (entry : Option (PremiumSample Num)) (m m' : Slots Num)
      → get_slot (slot_of s) m ≡ entry
      → update_slot s entry m ≡ value m'
      → Steps s m m'
  unfolding update_slot
  update_slot-Steps s none m m' found h =
      subst (Steps s m) (value-injective _ _ h)
        (inserted s m (λ e h'. absurd (none-ne-some e (sym found ∙ h'))))
  update_slot-Steps s (some e) m m' found h =
      elim (if-value (eqb_ℤ e.observed_at_ms s.observed_at_ms) _ _ h) [
        | inl (same, h1) ↦
            elim (if-value (sample_eq e s) (value m)
              (fault (conflicting_sample_timestamp s.observed_at_ms)) h1) [
                | inl (_, h2) ↦
                    subst (Steps s m) (value-injective m m' h2) (kept s e m found (ground arith))
                | inr (_, h2) ↦ absurd (fault-ne-value h2)
              ]
        | inr (other, h1) ↦
            elim (if-value (ltb_ℤ s.observed_at_ms e.observed_at_ms) (value m)
              (value (insert_slot (slot_of s) s m)) h1) [
                | inl (older, h2) ↦
                    subst (Steps s m) (value-injective m m' h2) (kept s e m found (ground arith))
                | inr (newer, h2) ↦ subst (Steps s m) (value-injective _ m' h2) (
                    inserted s m (λ e' found'.
                      not_later s e e' (some-injective e e' (sym found ∙ found')) newer))
              ]
      ]

  -- What the loop does to the samples of the window.
  record Filled (q : PredictionRequest Num) (start : ℤ) (samples : List (PremiumSample Num))
      (m m' : Slots Num) : Type 0 where
    pub keeps : (k : ℤ) (t : PremiumSample Num) → get_slot k m ≡ some t → HasLater t k m'
    pub takes :
        (s : PremiumSample Num)
        → In s samples
        → in_window q start s ≡ true
        → HasLater s (slot_of s) m'
    pub adds :
        (k : ℤ) (t : PremiumSample Num)
        → get_slot k m' ≡ some t
        → (get_slot k m ≡ some t) ⊎ (In t samples × (in_window q start t ≡ true) × (slot_of t ≡ k))

  add_sample-value :
      (q : PredictionRequest Num) (start : ℤ) (s : PremiumSample Num) (m m' : Slots Num)
      → add_sample q start s m ≡ value m'
      → ((in_window q start s ≡ true) × Steps s m m') ⊎ ((in_window q start s ≡ false) × (m ≡ m'))
  unfolding add_sample
  add_sample-value q start s m m' h = elim (if-value (in_window q start s) _ _ h) [
    | inl (inside, h1) ↦
        let (_, _, h2) = bind-value (new_sample s) _ h1 in
        inl (inside, update_slot-Steps s (get_slot (slot_of s) m) m m' refl h2)
    | inr (outside, h1) ↦ inr (outside, value-injective m m' h1)
  ]

  cons-Filled :
      (q : PredictionRequest Num) (start : ℤ) (s : PremiumSample Num)
      (rest : List (PremiumSample Num)) (m m1 m' : Slots Num)
      → (in_window q start s ≡ true) × Steps s m m1
      → Filled q start rest m1 m'
      → Filled q start (s ∷ rest) m m'
  cons-Filled q start s rest m m1 m' (inside, step) f = record {
    keeps = keeps;
    takes = takes;
    adds = adds;
  }
    where
      onward : (t : PremiumSample Num) (k : ℤ) → HasLater t k m1 → HasLater t k m'
      onward t k (u, found, later) = HasLater-weaken t u k m' later (f.keeps k u found)

      keeps : (k : ℤ) (t : PremiumSample Num) → get_slot k m ≡ some t → HasLater t k m'
      keeps k t h = onward t k (step.keeps k t h)

      takes :
          (t : PremiumSample Num)
          → In t (s ∷ rest)
          → in_window q start t ≡ true
          → HasLater t (slot_of t) m'
      takes t (inl e) w = subst (λ x. HasLater x (slot_of x) m') e (onward s (slot_of s) step.takes)
      takes t (inr i) w = f.takes t i w

      adds :
          (k : ℤ) (t : PremiumSample Num)
          → get_slot k m' ≡ some t
          → (get_slot k m ≡ some t)
            ⊎ (In t (s ∷ rest) × (in_window q start t ≡ true) × (slot_of t ≡ k))
      adds k t h = elim (f.adds k t h) [
        | inl before ↦ elim (step.adds k t before) [
          | inl first ↦ inl first
          | inr (own, slot) ↦ inr (
            inl own,
            subst (λ x. in_window q start x ≡ true) own inside,
            ap (λ x. slot_of x) (sym own) ∙ slot,
          )
        ]
        | inr (i, w, slot) ↦ inr (inr i, w, slot)
      ]

  skip-Filled :
      (q : PredictionRequest Num) (start : ℤ) (s : PremiumSample Num)
      (rest : List (PremiumSample Num)) (m m' : Slots Num)
      → in_window q start s ≡ false
      → Filled q start rest m m'
      → Filled q start (s ∷ rest) m m'
  skip-Filled q start s rest m m' outside f = record { keeps = f.keeps; takes = takes; adds = adds }
    where
      takes :
          (t : PremiumSample Num)
          → In t (s ∷ rest)
          → in_window q start t ≡ true
          → HasLater t (slot_of t) m'
      takes t (inl e) w = absurd (true-ne-false (sym w ∙ ap (in_window q start) (sym e) ∙ outside))
      takes t (inr i) w = f.takes t i w

      adds :
          (k : ℤ) (t : PremiumSample Num)
          → get_slot k m' ≡ some t
          → (get_slot k m ≡ some t)
            ⊎ (In t (s ∷ rest) × (in_window q start t ≡ true) × (slot_of t ≡ k))
      adds k t h = elim (f.adds k t h) [
        | inl before ↦ inl before
        | inr (i, w, slot) ↦ inr (inr i, w, slot)
      ]

  fill_slots-Filled :
      (q : PredictionRequest Num) (start : ℤ) (samples : List (PremiumSample Num))
      (m m' : Slots Num)
      → fill_slots q start samples m ≡ value m'
      → Filled q start samples m m'
  unfolding fill_slots
  fill_slots-Filled q start [] m m' h =
      subst (Filled q start [] m) (value-injective m m' h) (record {
        keeps = λ k t h'. (t, h', ground arith);
        takes = λ s i w. absurd i;
        adds = λ k t h'. inl h';
      })
  fill_slots-Filled q start (s ∷ rest) m m' h =
      let (m1, e, h1) = bind-value (add_sample q start s m) _ h in
      let f = fill_slots-Filled q start rest m1 m' h1 in
      elim (add_sample-value q start s m m1 e) [
        | inl step ↦ cons-Filled q start s rest m m1 m' step f
        | inr (outside, same) ↦
            skip-Filled q start s rest m m' outside
              (subst (λ x. Filled q start rest x m') (sym same) f)
      ]

  -- After the loop of a prediction, every entry of the map is a sample of the window in its own slot,
  -- and every sample of the window has an entry of its slot that is at least as late: the latest sample
  -- of each five-second slot wins.
  pub fill_slots-HasLater :
      (q : PredictionRequest Num) (start : ℤ) (samples : List (PremiumSample Num)) (m : Slots Num)
      → fill_slots q start samples [] ≡ value m
      → ((k : ℤ) (t : PremiumSample Num)
          → get_slot k m ≡ some t
          → In t samples × (in_window q start t ≡ true) × (slot_of t ≡ k))
        × ((s : PremiumSample Num)
            → In s samples
            → in_window q start s ≡ true
            → HasLater s (slot_of s) m)
  fill_slots-HasLater q start samples m h =
      let f = fill_slots-Filled q start samples [] m h in (entries f, f.takes)
    where
      entries :
          Filled q start samples [] m
          → (k : ℤ) (t : PremiumSample Num) → get_slot k m ≡ some t
          → In t samples × (in_window q start t ≡ true) × (slot_of t ≡ k)
      entries f k t h' = elim (f.adds k t h') [
        | inl none_yet ↦ absurd (no_entry k t none_yet)
        | inr found ↦ found
      ]
