-- ===== src/Services/Signing/Reviewed.antt =====
-- What the signer's policy lets through.
use hypercarry.Base.{
  ℕ, ◌+◌, ◌≤◌, ◌<◌, ◌≡◌, sym, ap, subst, ◌∙◌, inl, inr, Bool, true, false, ◌&&◌, Option, List, leb,
  ◌==◌, arith, and_true, leb→le, if◌then◌else◌,
}
use hypercarry.Base.Int.{saturating_add_u64}
use hypercarry.Base.Text.{Text, codes, text_eq, text_eq_sound}
use hypercarry.Base.Json.{Json, json_eq, json_eq_sound, get, as_u64, as_array}
use hypercarry.Base.Outcome.{
  Outcome, value, ◌>>=◌, bind-value, or_fault-value, value-injective, if-value,
}
use hypercarry.Decimal.{Decimal}
use hypercarry.Decimal.Order.{Below, AtMost, lt_true, le_true}
use hypercarry.Services.Policy.{
  ServiceError, refused, RuntimeConfig, ServicePolicy, both_multiples, is_multiple, ensured,
}
use hypercarry.Services.Signing.{
  SigningRequest, Purpose, placement, cancel, schedule, flatten, is_mainnet, window_open,
  exact_order, cancel_action, flatten_action, flatten_order, order_action, schedule_action,
  decimal_member, first_element, is_single, validate_flatten, validate_schedule, is_schedule,
  validate_request,
}

-- The window of a signature: the nonce lies within five seconds of the time, and the expiry after
-- both, at most the time to live after the nonce.
pub record IsWindow (q : SigningRequest) (ttl now : ℕ) : Type 0 where
  pub nonce_early : q.nonce ≤ now + 5000
  pub nonce_late : now ≤ q.nonce + 5000
  pub alive : now < q.expires_after
  pub ahead : q.nonce < q.expires_after
  pub brief : q.expires_after ≤ q.nonce + ttl

window_open-IsWindow :
    (q : SigningRequest) (ttl now : ℕ) → window_open q ttl now ≡ true → IsWindow q ttl now
window_open-IsWindow q ttl now h = record {
  nonce_early = ground arith;
  nonce_late = ground arith;
  alive = ground arith;
  ahead = ground arith;
  brief = ground arith;
}

module _ {Num : Type 0} ⦃d : Decimal Num⦄ where
  -- `a` and `b` are whole multiples of their steps.
  abbrev pub AreMultiples : Num → Num → Num → Num → Type 0
  AreMultiples a a_step b b_step =
      (is_multiple a a_step ≡ value true) × (is_multiple b b_step ≡ value true)

  both_multiples-AreMultiples :
      (a a_step b b_step : Num)
      → both_multiples a a_step b b_step ≡ value true
      → AreMultiples a a_step b b_step
  both_multiples-AreMultiples a a_step b b_step h =
      let (first, e, h1) = bind-value (is_multiple a a_step) _ h in split first e h1
    where
      split :
          (first : Bool)
          → is_multiple a a_step ≡ value first
          → (if first then is_multiple b b_step else value false) ≡ value true
          → AreMultiples a a_step b b_step
      split true e h1 = (e, h1)
      split false e h1 = cc

  -- An emergency order: reduce-only and immediate, on the other side of the reviewed order, at most of
  -- its quantity, in whole steps, at a price within the collar.
  pub record IsEmergency (q : SigningRequest) (r : RuntimeConfig Num) (p : ServicePolicy Num)
      : Type 0 where
    pub price : Num
    pub size : Num
    pub action : q.action ≡ order_action (flatten_order r price size)
    pub positive : Below d.zero size
    pub bounded : AtMost size r.order.quantity
    pub aligned : AreMultiples size r.metadata.size_step price r.metadata.price_tick
    pub above_floor : AtMost p.emergency_min_price price
    pub below_ceiling : AtMost price p.emergency_max_price

  flatten_action-value :
      (r : RuntimeConfig Num) (price size : Num) (action : Json)
      → flatten_action r price size ≡ value action
      → Below d.zero size
        × AtMost size r.order.quantity
        × AreMultiples size r.metadata.size_step price r.metadata.price_tick
        × (order_action (flatten_order r price size) ≡ action)
  unfolding flatten_action
  flatten_action-value r price size action h =
      let (sized, h1) = ensured (d.lt d.zero size && d.le size r.order.quantity) _ h in
      let (aligned, e, h2) =
        bind-value (both_multiples size r.metadata.size_step price r.metadata.price_tick) _ h1 in
      let (yes_aligned, h3) = ensured aligned _ h2 in
      let (above, below) = and_true (d.lt d.zero size) (d.le size r.order.quantity) sized in
      (
        lt_true d.zero size above,
        le_true size r.order.quantity below,
        both_multiples-AreMultiples size r.metadata.size_step price r.metadata.price_tick
            (e ∙ ap value yes_aligned),
        value-injective _ _ h3,
      )

  -- A scheduled cancellation lies at least five seconds ahead and within the horizon.
  abbrev pub IsScheduled : SigningRequest → ServicePolicy Num → ℕ → Type 0
  IsScheduled q p now =
      (at : ℕ) × (q.action ≡ schedule_action at)
      × (saturating_add_u64 now 5000 ≤ at)
      × (at ≤ saturating_add_u64 now p.cancel_horizon_ms)

  validate_schedule-IsScheduled :
      (q : SigningRequest) (p : ServicePolicy Num) (now : ℕ) (purpose : Purpose)
      → validate_schedule q p now ≡ value purpose
      → (purpose ≡ schedule) × IsScheduled q p now
  unfolding validate_schedule
  validate_schedule-IsScheduled q p now purpose h =
      let (found, _, h1) = or_fault-value (get q.action (codes "time")) refused _ h in
      let (at, _, h2) = or_fault-value (as_u64 found) refused _ h1 in
      let (same, h3) = ensured (json_eq q.action (schedule_action at)) _ h2 in
      let (timed, h4) =
        ensured
          (leb (saturating_add_u64 now 5000) at
            && leb at (saturating_add_u64 now p.cancel_horizon_ms))
          _ h3 in
      let (early, late) =
        and_true (leb (saturating_add_u64 now 5000) at)
          (leb at (saturating_add_u64 now p.cancel_horizon_ms)) timed in
      (
        sym (value-injective _ _ h4),
        (at, json_eq_sound q.action (schedule_action at) same, leb→le _ _ early, leb→le _ _ late),
      )

  -- What an action must be to be signed for each purpose.
  abbrev pub IsReviewed :
      (List ℕ → List ℕ)
      → SigningRequest
      → RuntimeConfig Num
      → ServicePolicy Num
      → ℕ
      → Purpose
      → Type 0
  IsReviewed sha256 q r p now placement = exact_order sha256 r ≡ value q.action
  IsReviewed sha256 q r p now cancel = cancel_action sha256 r ≡ value q.action
  IsReviewed sha256 q r p now schedule = IsScheduled q p now
  IsReviewed sha256 q r p now flatten = IsEmergency q r p

  module _ (from_str : Text → Option Num) where
    validate_flatten-IsEmergency :
        (q : SigningRequest) (r : RuntimeConfig Num) (p : ServicePolicy Num) (purpose : Purpose)
        → validate_flatten from_str q r p ≡ value purpose
        → (purpose ≡ flatten) × IsEmergency q r p
    unfolding validate_flatten
    validate_flatten-IsEmergency q r p purpose h =
        let (found, _, h1) = or_fault-value (get q.action (codes "orders")) refused _ h in
        let (orders, _, h2) = or_fault-value (as_array found) refused _ h1 in
        let (_, h3) = ensured (is_single orders) _ h2 in
        let (price, _, h4) =
          bind-value (decimal_member from_str (first_element orders) (codes "p")) _ h3 in
        let (size, _, h5) =
          bind-value (decimal_member from_str (first_element orders) (codes "s")) _ h4 in
        let (expected, built, h6) = bind-value (flatten_action r price size) _ h5 in
        let (same, h7) = ensured (json_eq q.action expected) _ h6 in
        let (collar, h8) =
          ensured (d.le p.emergency_min_price price && d.le price p.emergency_max_price) _ h7 in
        let (above, below) =
          and_true (d.le p.emergency_min_price price) (d.le price p.emergency_max_price) collar in
        let (positive, bounded, aligned, shape) =
          flatten_action-value r price size expected built in
        (
          sym (value-injective _ _ h8),
          record {
            price = price;
            size = size;
            action = json_eq_sound q.action expected same ∙ sym shape;
            positive = positive;
            bounded = bounded;
            aligned = aligned;
            above_floor = le_true p.emergency_min_price price above;
            below_ceiling = le_true price p.emergency_max_price below;
          },
        )

    IsReviewed-emergency :
        (sha256 : List ℕ → List ℕ) (q : SigningRequest) (r : RuntimeConfig Num)
        (p : ServicePolicy Num) (now : ℕ) (purpose : Purpose)
        → (if is_schedule q.action
            then validate_schedule q p now
            else validate_flatten from_str q r p)
          ≡ value purpose
        → IsReviewed sha256 q r p now purpose
    IsReviewed-emergency sha256 q r p now purpose h =
        elim (if-value (is_schedule q.action) (validate_schedule q p now)
          (validate_flatten from_str q r p) h) [
            | inl (_, h1) ↦
                let (e, s) = validate_schedule-IsScheduled q p now purpose h1 in
                subst (IsReviewed sha256 q r p now) (sym e) s
            | inr (_, h1) ↦
                let (e, s) = validate_flatten-IsEmergency q r p purpose h1 in
                subst (IsReviewed sha256 q r p now) (sym e) s
          ]

    -- The signer's policy lets a request through only for mainnet, under the runtime's key and
    -- address, within its window, and only if its action is the exact reviewed order, the
    -- cancellation of that order, a cancellation scheduled within the horizon, or an emergency
    -- order: reduce-only, on the other side, at most the reviewed quantity, within the collar.
    pub validate_request-IsReviewed :
        (sha256 : List ℕ → List ℕ) (q : SigningRequest) (r : RuntimeConfig Num)
        (p : ServicePolicy Num) (now : ℕ) (purpose : Purpose)
        → validate_request from_str sha256 q r p now ≡ value purpose
        → (is_mainnet q.network ≡ true)
          × (q.key_id ≡ r.signer_alias)
          × (q.signer_address ≡ r.signer_address)
          × IsWindow q r.action_ttl_ms now
          × IsReviewed sha256 q r p now purpose
    unfolding validate_request
    validate_request-IsReviewed sha256 q r p now purpose h =
        let (schema, h1) = ensured ((q.schema_version == 1) && is_mainnet q.network) _ h in
        let (identity, h2) =
          ensured (text_eq q.key_id r.signer_alias && text_eq q.signer_address r.signer_address) _
            h1 in
        let (window, h3) = ensured (window_open q r.action_ttl_ms now) _ h2 in
        let (exact, built, h4) = bind-value (exact_order sha256 r) _ h3 in
        let (_, mainnet) = and_true (q.schema_version == 1) (is_mainnet q.network) schema in
        let (key, address) =
          and_true (text_eq q.key_id r.signer_alias) (text_eq q.signer_address r.signer_address)
            identity in
        (
          mainnet,
          text_eq_sound _ _ key,
          text_eq_sound _ _ address,
          window_open-IsWindow q r.action_ttl_ms now window,
          reviewed exact built h4,
        )
      where
        emergency : Outcome ServiceError Purpose
        emergency =
            if is_schedule q.action
            then validate_schedule q p now
            else validate_flatten from_str q r p

        cancelled :
            (cancelling : Json)
            → cancel_action sha256 r ≡ value cancelling
            → (if json_eq q.action cancelling then value cancel else emergency) ≡ value purpose
            → IsReviewed sha256 q r p now purpose
        cancelled cancelling built h5 =
            elim (if-value (json_eq q.action cancelling) (value cancel) emergency h5) [
              | inl (same, e) ↦
                  subst (IsReviewed sha256 q r p now) (value-injective cancel purpose e)
                    (built ∙ ap value (sym (json_eq_sound q.action cancelling same)))
              | inr (_, h6) ↦ IsReviewed-emergency sha256 q r p now purpose h6
            ]

        reviewed :
            (exact : Json)
            → exact_order sha256 r ≡ value exact
            → (if json_eq q.action exact
                then value placement
                else cancel_action sha256 r >>= λ cancelling.
                    if json_eq q.action cancelling then value cancel else emergency)
              ≡ value purpose
            → IsReviewed sha256 q r p now purpose
        reviewed exact built h5 =
            elim (if-value (json_eq q.action exact) (value placement)
              (cancel_action sha256 r >>= λ cancelling.
                if json_eq q.action cancelling then value cancel else emergency)
              h5) [
                | inl (same, e) ↦
                    subst (IsReviewed sha256 q r p now) (value-injective placement purpose e)
                      (built ∙ ap value (sym (json_eq_sound q.action exact same)))
                | inr (_, h6) ↦
                    let (cancelling, made, h7) = bind-value (cancel_action sha256 r) _ h6 in
                    cancelled cancelling made h7
              ]
