-- ===== src/Examples/Identities.antt =====
-- Client order identifiers of crates/hypercarry-execution/src/identity.rs on concrete orders.
use hypercarry.Base.{◌≡◌, refl, [], ◌∷◌, arith}
use hypercarry.Base.Text.{as_bytes, codes, show_int}
use hypercarry.Decimal.Fixed.{Fixed, fixed}
use hypercarry.Execution.Error.{ok, err, validation}
use hypercarry.Execution.Model.{ValidatedOrder}
use hypercarry.Execution.Identity.{ClientOrderId, preimage, to_string, from_str}
use hypercarry.Execution.Identity.Hex.{IsId, from_str-to_string}
use hypercarry.Execution.Identity.Framing.{IsHashable, SameIdentity, preimage-injective}
use hypercarry.Examples.Orders.{sell_order}

abbrev pub id_1 : ClientOrderId
id_1 = record { bytes = 0 ∷ 1 ∷ 2 ∷ 3 ∷ 4 ∷ 5 ∷ 6 ∷ 7 ∷ 8 ∷ 9 ∷ 10 ∷ 11 ∷ 12 ∷ 13 ∷ 200 ∷ 255 ∷ [] }

id_1-IsId : IsId id_1
id_1-IsId = record { size = refl; in_range = ground arith }

id_1_text : to_string id_1 ≡ codes "0x000102030405060708090a0b0c0dc8ff"
unfolding to_string
id_1_text = refl

no_prefix : from_str (codes "000102030405060708090a0b0c0dc8ff") ≡ err validation
unfolding from_str
no_prefix = refl

from_str-to_string_example : from_str (to_string id_1) ≡ ok id_1
from_str-to_string_example = from_str-to_string id_1 id_1-IsId

sell_order-IsHashable : IsHashable sell_order
unfolding as_bytes fixed show_int
sell_order-IsHashable = record {
  correlation_len = omega arith;
  venue_len = omega arith;
  market_len = omega arith;
  quantity_len = omega arith;
  price_len = omega arith;
  time = ground arith;
}

-- The schema version is not hashed.
abbrev other_schema : ValidatedOrder Fixed
other_schema = record sell_order { schema_version = 2 }

other_schema-IsHashable : IsHashable other_schema
other_schema-IsHashable = record {
  correlation_len = sell_order-IsHashable.correlation_len;
  venue_len = sell_order-IsHashable.venue_len;
  market_len = sell_order-IsHashable.market_len;
  quantity_len = sell_order-IsHashable.quantity_len;
  price_len = sell_order-IsHashable.price_len;
  time = sell_order-IsHashable.time;
}

same_preimage : preimage sell_order ≡ preimage other_schema
unfolding preimage
same_preimage = refl

preimage-injective_example : SameIdentity sell_order other_schema
preimage-injective_example =
    preimage-injective sell_order other_schema sell_order-IsHashable other_schema-IsHashable
      same_preimage
