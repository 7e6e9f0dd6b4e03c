-- ===== src/Execution/Model/Conservative.antt =====
-- `ValidatedOrder::resolve` of crates/hypercarry-execution/src/model.rs where its decimal arithmetic
-- is exact: the amounts of the resolved order against the multiples of the venue's increments.
use hypercarry.Base.{ℕ, ◌+◌, ◌*◌, ◌/◌, ◌<◌, ◌≡◌, true, false, arith}
use hypercarry.Base.Int.{pos, ◌≤ℤ◌}
use hypercarry.Base.Text.{text_eq_of_eq}
use hypercarry.Decimal.{Decimal}
use hypercarry.Execution.Error.{ok}
use hypercarry.Execution.Model.{
  Side, buy, sell, OrderIntent, MarketMetadata, ValidatedOrder, execution_schema_version, positive,
  validate_order, validate_intent, validate_metadata, quantize_price, quantize_down, resolve,
}
use hypercarry.Execution.Model.Quantize.{quantize_down_lem, quantize_up_lem, round_up_to}
use hypercarry.Execution.Model.Resolve.{resolve-eq-ok}

-- A buy rounds its price down to the tick and a sell rounds it up.
abbrev pub rounded_price : Side → ℕ → ℕ → ℕ
rounded_price buy p t = p / t * t
rounded_price sell p t = round_up_to p t

module _ {Num : Type 0} ⦃d : Decimal Num⦄ where
  -- The amounts in units of 10^-28, with positive increments, where no rounding happens.
  pub record IsExact (i : OrderIntent Num) (m : MarketMetadata Num) (q s p t : ℕ) : Type 0 where
    pub quantity_units : d.units i.quantity ≡ pos q
    pub step_units : d.units m.size_step ≡ pos s
    pub price_units : d.units i.limit_price ≡ pos p
    pub tick_units : d.units m.price_tick ≡ pos t
    pub step_pos : 0 < s
    pub tick_pos : 0 < t
    pub quantity_fits : d.fits (pos (q / s * s)) ≡ true
    pub down_fits : d.fits (pos (p / t * t)) ≡ true
    pub sum_fits : d.fits (pos (p + t)) ≡ true
    pub up_fits : d.fits (pos (round_up_to p t)) ≡ true

  module _ (i : OrderIntent Num) (m : MarketMetadata Num) (q s p t : ℕ)
      (x : IsExact i m q s p t) where
    exact_quantity :
        (c : Num) × (quantize_down i.quantity m.size_step ≡ ok c) × (d.units c ≡ pos (q / s * s))
    exact_quantity =
        quantize_down_lem i.quantity m.size_step q s x.quantity_units x.step_units x.step_pos
          x.quantity_fits

    exact_price :
        (side : Side)
        → (c : Num) × (quantize_price side i.limit_price m.price_tick ≡ ok c)
          × (d.units c ≡ pos (rounded_price side p t))
    unfolding quantize_price
    exact_price buy =
        quantize_down_lem i.limit_price m.price_tick p t x.price_units x.tick_units x.tick_pos
          x.down_fits
    exact_price sell =
        quantize_up_lem i.limit_price m.price_tick p t x.price_units x.tick_units x.tick_pos
          x.sum_fits x.up_fits

    -- A resolved order has the largest multiple of the size step that the intent's quantity covers,
    -- which is at least the minimum size, and the limit price rounded to the tick, down for a buy
    -- and up for a sell; the rest of the intent is carried over, and the order is valid.
    pub resolve_conservative :
        (o : ValidatedOrder Num)
        → resolve i m ≡ ok o
        → (d.units o.quantity ≡ pos (q / s * s))
          × (d.units m.minimum_size ≤ℤ d.units o.quantity)
          × (d.units o.limit_price ≡ pos (rounded_price i.side p t))
          × (o.correlation_id ≡ i.correlation_id)
          × (o.venue ≡ m.venue)
          × (o.market ≡ m.market)
          × (o.side ≡ i.side)
          × (o.created_at_ms ≡ i.created_at_ms)
          × (validate_order o ≡ ok tt)
    resolve_conservative o h = ground (
      arith,
      resolve-eq-ok i m o h,
      exact_quantity,
      exact_price i.side,
      d.lt_units o.quantity m.minimum_size,
    )

    abbrev resolved_order : ValidatedOrder Num
    resolved_order = record {
      schema_version = execution_schema_version;
      correlation_id = i.correlation_id;
      venue = i.venue;
      market = i.market;
      side = i.side;
      quantity = exact_quantity.0;
      limit_price = (exact_price i.side).0;
      created_at_ms = i.created_at_ms;
    }

    price_positive : 0 < rounded_price i.side p t → positive (exact_price i.side).0 ≡ ok tt
    unfolding positive
    price_positive hp =
        ground (arith, exact_price i.side, d.le_units (exact_price i.side).0 d.zero, d.units_zero)

    quantity_positive :
        validate_metadata m ≡ ok tt
        → d.units m.minimum_size ≤ℤ pos (q / s * s)
        → positive exact_quantity.0 ≡ ok tt
    unfolding positive validate_metadata
    quantity_positive vm hm = ground (
      arith,
      exact_quantity,
      d.le_units exact_quantity.0 d.zero,
      d.le_units m.minimum_size d.zero,
      d.units_zero,
    )

    resolved_valid :
        validate_intent i ≡ ok tt
        → positive exact_quantity.0 ≡ ok tt
        → positive (exact_price i.side).0 ≡ ok tt
        → validate_order resolved_order ≡ ok tt
    unfolding validate_intent validate_order
    resolved_valid vi pq pp = ground arith

    large_enough :
        d.units m.minimum_size ≤ℤ pos (q / s * s) → d.lt exact_quantity.0 m.minimum_size ≡ false
    large_enough hm = ground (arith, exact_quantity, d.lt_units exact_quantity.0 m.minimum_size)

    -- Where the amounts have positive increments and the rounded quantity, the price rounded either
    -- way and the sum of price and tick are representable, resolution of a valid intent under valid
    -- metadata of its market succeeds if the rounded quantity reaches the minimum size and the rounded
    -- price is positive.
    pub resolve_succeeds :
        validate_intent i ≡ ok tt
        → validate_metadata m ≡ ok tt
        → i.venue ≡ m.venue
        → i.market ≡ m.market
        → d.units m.minimum_size ≤ℤ pos (q / s * s)
        → 0 < rounded_price i.side p t
        → (o : ValidatedOrder Num) × (resolve i m ≡ ok o)
    unfolding resolve
    resolve_succeeds vi vm ev em hm hp =
        let pq = quantity_positive vm hm in
        let pp = price_positive hp in
        (
          resolved_order,
          ground (
            arith,
            text_eq_of_eq i.venue m.venue,
            text_eq_of_eq i.market m.market,
            exact_quantity,
            exact_price i.side,
            large_enough hm,
            pq,
            pp,
            resolved_valid vi pq pp,
          ),
        )
