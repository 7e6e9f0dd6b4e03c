-- ===== src/Execution/Model/Resolve.antt =====
-- `ValidatedOrder::resolve` and the validations of crates/hypercarry-execution/src/model.rs.
use hypercarry.Base.{◌≤◌, ◌≡◌, ◌↔◌, true, false, arith, is_empty, all}
use hypercarry.Base.Int.{pos, ◌≤ℤ◌}
use hypercarry.Base.Text.{Text, text_eq_sound, is_blank, byte_len}
use hypercarry.Decimal.{Decimal}
use hypercarry.Decimal.Order.{Below}
use hypercarry.Execution.Error.{ok}
use hypercarry.Execution.Model.{
  OrderIntent, MarketMetadata, ValidatedOrder, execution_schema_version, is_id_byte, validate_order,
  validate_intent, validate_metadata, quantize_price, quantize_down, resolve,
}

-- What the validations accept: an identifier of 1 to 128 bytes of ASCII letters, digits, '-', '_' or
-- '.', and a name that is not blank.
pub record IsCorrelationId (id : Text) : Type 0 where
  pub not_empty : is_empty id ≡ false
  pub short : byte_len id ≤ 128
  pub characters : all is_id_byte id ≡ true

module _ {Num : Type 0} ⦃d : Decimal Num⦄ where
  pub record IsValidOrder (o : ValidatedOrder Num) : Type 0 where
    pub schema : o.schema_version ≡ execution_schema_version
    pub correlation : IsCorrelationId o.correlation_id
    pub venue_named : is_blank o.venue ≡ false
    pub market_named : is_blank o.market ≡ false
    pub quantity_pos : Below d.zero o.quantity
    pub price_pos : Below d.zero o.limit_price
    pub after_epoch : pos 0 ≤ℤ o.created_at_ms

  IsValidOrder-of_ok : (o : ValidatedOrder Num) → validate_order o ≡ ok tt → IsValidOrder o
  unfolding validate_order
  IsValidOrder-of_ok o h =
      ground (arith, d.le_units o.quantity d.zero, d.le_units o.limit_price d.zero)

  ok_of_IsValidOrder : (o : ValidatedOrder Num) → IsValidOrder o → validate_order o ≡ ok tt
  unfolding validate_order
  ok_of_IsValidOrder o v =
      ground (arith, d.le_units o.quantity d.zero, d.le_units o.limit_price d.zero)

  -- `validate` of an order succeeds exactly on the orders that are valid field by field.
  validate_order_iff : (o : ValidatedOrder Num) → (validate_order o ≡ ok tt) ↔ IsValidOrder o
  validate_order_iff o = (IsValidOrder-of_ok o, ok_of_IsValidOrder o)

  -- What a successful resolution has established.
  pub record Resolved (i : OrderIntent Num) (m : MarketMetadata Num) (o : ValidatedOrder Num)
      : Type 0 where
    pub intent_valid : validate_intent i ≡ ok tt
    pub metadata_valid : validate_metadata m ≡ ok tt
    pub venue_matched : i.venue ≡ m.venue
    pub market_matched : i.market ≡ m.market
    pub quantity : quantize_down i.quantity m.size_step ≡ ok o.quantity
    pub minimum : d.lt o.quantity m.minimum_size ≡ false
    pub price : quantize_price i.side i.limit_price m.price_tick ≡ ok o.limit_price
    pub order_valid : validate_order o ≡ ok tt
    pub correlation_kept : o.correlation_id ≡ i.correlation_id
    pub venue_kept : o.venue ≡ i.venue
    pub market_kept : o.market ≡ i.market
    pub side_kept : o.side ≡ i.side
    pub time_kept : o.created_at_ms ≡ i.created_at_ms

  pub resolve-eq-ok :
      (i : OrderIntent Num) (m : MarketMetadata Num) (o : ValidatedOrder Num)
      → resolve i m ≡ ok o
      → Resolved i m o
  unfolding resolve
  resolve-eq-ok i m o h =
      ground (arith, text_eq_sound i.venue m.venue, text_eq_sound i.market m.market)
