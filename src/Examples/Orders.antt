-- ===== src/Examples/Orders.antt =====
-- Intents, metadata and orders of the tests in crates/hypercarry-execution/src/model.rs, and their
-- resolution.
use hypercarry.Base.{◌*◌, ◌/◌, ◌^◌, ◌≡◌, refl, arith}
use hypercarry.Base.Int.{pos, ◌≤ℤ◌}
use hypercarry.Base.Text.{Text, codes, text_eq, byte_len, is_blank}
use hypercarry.Decimal.Fixed.{Fixed, fixed, cents}
use hypercarry.Execution.Error.{ok}
use hypercarry.Execution.Model.{
  sell, OrderIntent, MarketMetadata, ValidatedOrder, validate_intent, validate_metadata,
  validate_order, resolve, quantize_down, quantize_price,
}
use hypercarry.Execution.Model.Conservative.{
  IsExact, rounded_price, resolve_conservative, resolve_succeeds,
}

abbrev pub venue : Text
venue = codes "venue"

abbrev pub market : Text
market = codes "BTC-PERP"

-- 1.239 at 100.26, with a tick of 0.5 and a step of 0.01.
abbrev pub sell_intent : OrderIntent Fixed
sell_intent = record {
  schema_version = 1;
  correlation_id = codes "sell-1";
  venue = venue;
  market = market;
  side = sell;
  quantity = pos (1239 * 10 ^ 25);
  limit_price = cents 10026;
  created_at_ms = pos 1000;
}

abbrev pub metadata_1 : MarketMetadata Fixed
metadata_1 = record {
  venue = venue;
  market = market;
  price_tick = cents 50;
  size_step = cents 1;
  minimum_size = cents 10;
}

abbrev pub sell_order : ValidatedOrder Fixed
sell_order = record {
  schema_version = 1;
  correlation_id = codes "sell-1";
  venue = venue;
  market = market;
  side = sell;
  quantity = cents 123;
  limit_price = cents 10050;
  created_at_ms = pos 1000;
}

resolve_sell : resolve sell_intent metadata_1 ≡ ok sell_order
unfolding resolve validate_intent validate_metadata validate_order fixed byte_len is_blank text_eq
    quantize_down quantize_price
resolve_sell = refl

sell_IsExact :
    IsExact sell_intent metadata_1 (1239 * 10 ^ 25) (10 ^ 26) (10026 * 10 ^ 26) (50 * 10 ^ 26)
unfolding fixed
sell_IsExact = record {
  quantity_units = refl;
  step_units = refl;
  price_units = refl;
  tick_units = refl;
  step_pos = omega arith;
  tick_pos = omega arith;
  quantity_fits = refl;
  down_fits = refl;
  sum_fits = refl;
  up_fits = refl;
}

sell_metadata_valid : validate_metadata metadata_1 ≡ ok tt
unfolding validate_metadata fixed is_blank
sell_metadata_valid = refl

sell_intent_valid : validate_intent sell_intent ≡ ok tt
unfolding validate_intent fixed is_blank byte_len
sell_intent_valid = refl

pub sell_order_valid : validate_order sell_order ≡ ok tt
unfolding validate_order fixed is_blank byte_len
sell_order_valid = refl

large_enough : fixed.units metadata_1.minimum_size ≤ℤ pos (1239 * 10 ^ 25 / 10 ^ 26 * 10 ^ 26)
unfolding fixed
large_enough = omega arith

resolve_conservative_example :
    (fixed.units sell_order.quantity ≡ pos (1239 * 10 ^ 25 / 10 ^ 26 * 10 ^ 26))
    × (fixed.units metadata_1.minimum_size ≤ℤ fixed.units sell_order.quantity)
    × (fixed.units sell_order.limit_price
        ≡ pos (rounded_price sell (10026 * 10 ^ 26) (50 * 10 ^ 26)))
    × (sell_order.correlation_id ≡ sell_intent.correlation_id)
    × (sell_order.venue ≡ metadata_1.venue)
    × (sell_order.market ≡ metadata_1.market)
    × (sell_order.side ≡ sell_intent.side)
    × (sell_order.created_at_ms ≡ sell_intent.created_at_ms)
    × (validate_order sell_order ≡ ok tt)
resolve_conservative_example =
    resolve_conservative sell_intent metadata_1 (1239 * 10 ^ 25) (10 ^ 26) (10026 * 10 ^ 26)
      (50 * 10 ^ 26) sell_IsExact sell_order resolve_sell

resolve_succeeds_example : (o : ValidatedOrder Fixed) × (resolve sell_intent metadata_1 ≡ ok o)
resolve_succeeds_example =
    resolve_succeeds sell_intent metadata_1 (1239 * 10 ^ 25) (10 ^ 26) (10026 * 10 ^ 26)
      (50 * 10 ^ 26) sell_IsExact sell_intent_valid sell_metadata_valid refl refl large_enough
      (omega arith)
