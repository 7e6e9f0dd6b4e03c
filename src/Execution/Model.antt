-- ===== src/Execution/Model.antt =====
-- crates/hypercarry-execution/src/model.rs: intents, market metadata, validated orders and reports.
pub mod Quantize
pub mod Resolve
pub mod Conservative
use hypercarry.Base.{
  ℕ, ◌≡◌, Bool, true, false, not, ◌||◌, Option, none, some, List, [], ltb, ◌==◌, all, is_empty,
  if◌then◌else◌,
}
use hypercarry.Base.Int.{ℤ, pos, ltb_ℤ, eqb_ℤ}
use hypercarry.Base.Text.{Text, text_eq, is_blank, byte_len, is_ascii_alphanumeric}
use hypercarry.Decimal.{Decimal}
use hypercarry.Execution.Error.{
  ExecutionError, validation, metadata, Result, ok, err, panic, ◌>>=◌, ◌>>◌, fail_if, or_fail,
  or_panic, map_err,
}

abbrev pub execution_schema_version : ℕ
execution_schema_version = 1

pub data Side : Type 0 where
  buy sell : Side

abbrev pub side_eq : Side → Side → Bool
side_eq buy buy = true
side_eq sell sell = true
side_eq _ _ = false

pub record OrderIntent (Num : Type 0) : Type 0 where
  pub schema_version : ℕ
  pub correlation_id : Text
  pub venue : Text
  pub market : Text
  pub side : Side
  pub quantity : Num
  pub limit_price : Num
  pub created_at_ms : ℤ

pub record MarketMetadata (Num : Type 0) : Type 0 where
  pub venue : Text
  pub market : Text
  pub price_tick : Num
  pub size_step : Num
  pub minimum_size : Num

pub record ValidatedOrder (Num : Type 0) : Type 0 where
  pub schema_version : ℕ
  pub correlation_id : Text
  pub venue : Text
  pub market : Text
  pub side : Side
  pub quantity : Num
  pub limit_price : Num
  pub created_at_ms : ℤ

pub data ExecutionMode : Type 0 where
  simulation dry_run testnet mainnet : ExecutionMode

pub data OrderState : Type 0 where
  validated submission_pending submission_uncertain open_order dry_run_recorded : OrderState
  partially_filled cancel_pending filled cancelled rejected no_fill : OrderState

pub record Fill (Num : Type 0) : Type 0 where
  pub occurred_at_ms : ℤ
  pub quantity : Num
  pub price : Num
  pub fee_quote : Num

pub record Cancellation (Num : Type 0) : Type 0 where
  pub occurred_at_ms : ℤ
  pub remaining_quantity : Num

pub record Rejection : Type 0 where
  pub code : Text
  pub reason : Text

pub record ExecutionReport (Num : Type 0) : Type 0 where
  pub schema_version : ℕ
  pub correlation_id : Text
  pub mode : ExecutionMode
  pub state : OrderState
  pub fills : List (Fill Num)
  pub cancellation : Option (Cancellation Num)
  pub rejection : Option Rejection

-- `ExecutionReport::empty`
unfoldable pub empty_report :
    {Num : Type 0} → ValidatedOrder Num → ExecutionMode → OrderState → ExecutionReport Num
empty_report order mode state = record {
  schema_version = execution_schema_version;
  correlation_id = order.correlation_id;
  mode = mode;
  state = state;
  fills = [];
  cancellation = none;
  rejection = none;
}

abbrev is_id_byte : ℕ → Bool
is_id_byte c = is_ascii_alphanumeric c || c == b'-' || c == b'_' || c == b'.'

unfoldable pub validate_correlation_id : Text → Result (Unit {0})
validate_correlation_id value =
    fail_if (is_empty value || ltb 128 (byte_len value) || not (all is_id_byte value)) validation

unfoldable pub validate_name : Text → Result (Unit {0})
validate_name value = fail_if (is_blank value) validation

module _ {Num : Type 0} ⦃d : Decimal Num⦄ where
  unfoldable pub positive : Num → Result (Unit {0})
  positive value = fail_if (d.le value d.zero) validation

  -- `OrderIntent::validate`
  unfoldable pub validate_intent : OrderIntent Num → Result (Unit {0})
  unfolding validate_correlation_id validate_name positive
  validate_intent i = do
    fail_if (not (i.schema_version == execution_schema_version)) validation
    validate_correlation_id i.correlation_id
    validate_name i.venue
    validate_name i.market
    positive i.quantity
    positive i.limit_price
    fail_if (ltb_ℤ i.created_at_ms (pos 0)) validation

  -- `OrderIntent::limit`
  unfoldable pub limit : Text → Text → Text → Side → Num → Num → ℤ → Result (OrderIntent Num)
  limit correlation_id venue market side quantity limit_price created_at_ms =
      let value : OrderIntent Num = record {
        schema_version = execution_schema_version;
        correlation_id = correlation_id;
        venue = venue;
        market = market;
        side = side;
        quantity = quantity;
        limit_price = limit_price;
        created_at_ms = created_at_ms;
      } in
      validate_intent value >> ok value

  -- `MarketMetadata::validate`, with `metadata_error` on each part.
  unfoldable pub validate_metadata : MarketMetadata Num → Result (Unit {0})
  unfolding validate_name positive
  validate_metadata m = do
    map_err (validate_name m.venue) metadata
    map_err (validate_name m.market) metadata
    map_err (positive m.price_tick) metadata
    map_err (positive m.size_step) metadata
    map_err (positive m.minimum_size) metadata

  -- `MarketMetadata::new`
  unfoldable pub new_metadata : Text → Text → Num → Num → Num → Result (MarketMetadata Num)
  new_metadata venue market price_tick size_step minimum_size =
      let value : MarketMetadata Num = record {
        venue = venue;
        market = market;
        price_tick = price_tick;
        size_step = size_step;
        minimum_size = minimum_size;
      } in
      validate_metadata value >> ok value

  -- `ValidatedOrder::validate`
  unfoldable pub validate_order : ValidatedOrder Num → Result (Unit {0})
  unfolding validate_correlation_id validate_name positive
  validate_order o = do
    fail_if (not (o.schema_version == execution_schema_version)) validation
    validate_correlation_id o.correlation_id
    validate_name o.venue
    validate_name o.market
    positive o.quantity
    positive o.limit_price
    fail_if (ltb_ℤ o.created_at_ms (pos 0)) validation

  unfoldable pub quantize_down : Num → Num → Result Num
  quantize_down value increment = do
    remainder ← or_panic (d.checked_rem value increment)
    or_panic (d.checked_sub value remainder)

  -- The sum is checked, and the subtraction after it.
  abbrev round_up : Num → Num → Num → Option Num
  round_up value increment remainder = elim (d.checked_add value increment) [
    | none ↦ none
    | some sum ↦ d.checked_sub sum remainder
  ]

  unfoldable pub quantize_up : Num → Num → Result Num
  quantize_up value increment = do
    remainder ← or_panic (d.checked_rem value increment)
    if d.eq remainder d.zero
        then ok value
        else or_fail (round_up value increment remainder) validation

  unfoldable pub quantize_price : Side → Num → Num → Result Num
  unfolding quantize_down quantize_up
  quantize_price buy price tick = quantize_down price tick
  quantize_price sell price tick = quantize_up price tick

  -- `ValidatedOrder::resolve`
  unfoldable pub resolve : OrderIntent Num → MarketMetadata Num → Result (ValidatedOrder Num)
  resolve i m = do
    validate_intent i
    validate_metadata m
    fail_if (not (text_eq i.venue m.venue) || not (text_eq i.market m.market)) metadata
    quantity ← quantize_down i.quantity m.size_step
    fail_if (d.lt quantity m.minimum_size) validation
    limit_price ← quantize_price i.side i.limit_price m.price_tick
    positive limit_price
    let order : ValidatedOrder Num = record {
      schema_version = execution_schema_version;
      correlation_id = i.correlation_id;
      venue = i.venue;
      market = i.market;
      side = i.side;
      quantity = quantity;
      limit_price = limit_price;
      created_at_ms = i.created_at_ms;
    }
    validate_order order
    ok order
