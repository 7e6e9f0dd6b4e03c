-- ===== src/Execution/Identity.antt =====
-- crates/hypercarry-execution/src/identity.rs: the client order identifier of 16 bytes, derived from
-- a hash of the order, and its hexadecimal form.
pub mod Bytes
pub mod Framing
pub mod Hex
use hypercarry.Base.{
  ℕ, zero, suc, ◌+◌, ◌-◌, ◌*◌, ◌/◌, ◌%◌, ◌^◌, ◌≡◌, Bool, true, false, not, ◌&&◌, ◌||◌, Option, none,
  some, List, [], ◌∷◌, ◌++◌, length, take, ltb, leb, ◌==◌, all, if◌then◌else◌,
}
use hypercarry.Base.Int.{ℤ, pos, negsuc, u64_bound}
use hypercarry.Base.Text.{Text, codes, as_bytes, byte_len, text_eq, is_ascii_hexdigit}
use hypercarry.Decimal.{Decimal}
use hypercarry.Execution.Error.{Result, ok, err, panic, validation, ◌>>=◌, ◌>>◌, fail_if, or_fail}
use hypercarry.Execution.Model.{Side, buy, sell, ValidatedOrder, validate_order}

-- `DOMAIN`, with its closing zero byte.
abbrev domain : List ℕ
domain = codes "hypercarry/client-order-id/v1" ++ 0 ∷ []

-- `[u8; 16]`
pub record ClientOrderId : Type 0 where
  pub bytes : List ℕ

abbrev pub id_eq : ClientOrderId → ClientOrderId → Bool
id_eq a b = text_eq a.bytes b.bytes

-- `to_be_bytes` of a word of `k` bytes.
unfoldable pub be_bytes : ℕ → ℕ → List ℕ
be_bytes zero n = []
be_bytes (suc k) n = (n / 256 ^ k) ∷ be_bytes k (n % 256 ^ k)

-- The two's complement of an `i64`, as an unsigned word.
abbrev pub word64 : ℤ → ℕ
word64 (pos n) = n
word64 (negsuc n) = u64_bound - 1 - n

-- `u64::try_from(len).unwrap_or(u64::MAX)`
abbrev u64_or_max : ℕ → ℕ
u64_or_max n = if ltb n u64_bound then n else u64_bound - 1

-- `update_field`: what it feeds to the hasher.
unfoldable pub frame : List ℕ → List ℕ
unfolding be_bytes
frame field = be_bytes 8 (u64_or_max (length field)) ++ field

abbrev pub side_byte : Side → ℕ
side_byte buy = 0
side_byte sell = 1

module _ {Num : Type 0} ⦃d : Decimal Num⦄ where
  -- The bytes that `derive` feeds to the hasher, in order.
  unfoldable pub preimage : ValidatedOrder Num → List ℕ
  unfolding frame
  preimage o =
      domain
      ++ (frame (as_bytes o.correlation_id)
          ++ (frame (as_bytes o.venue)
              ++ (frame (as_bytes o.market)
                  ++ (side_byte o.side
                      ∷ (frame (as_bytes (d.display (d.normalize o.quantity)))
                          ++ (frame (as_bytes (d.display (d.normalize o.limit_price)))
                              ++ be_bytes 8 (word64 o.created_at_ms)))))))

  -- `ClientOrderId::derive`; the hash function SHA-256 is a parameter.
  unfoldable pub derive : (List ℕ → List ℕ) → ValidatedOrder Num → Result ClientOrderId
  unfolding preimage
  derive sha256 o = do validate_order o; ok (record { bytes = take 16 (sha256 (preimage o)) })

abbrev pub hex_digit : ℕ → ℕ
hex_digit n = if ltb n 10 then b'0' + n else b'a' + (n - 10)

-- `{byte:02x}` of each byte.
unfoldable pub hex : List ℕ → Text
hex [] = []
hex (b ∷ bs) = hex_digit (b / 16) ∷ hex_digit (b % 16) ∷ hex bs

-- `Display`
unfoldable pub to_string : ClientOrderId → Text
unfolding hex
to_string id = b'0' ∷ b'x' ∷ hex id.bytes

abbrev pub hex_value : ℕ → ℕ
hex_value c = if leb c b'9' then c - b'0' else if leb c b'F' then c - b'A' + 10 else c - b'a' + 10

-- The loop over the pairs of digits, each read by `u8::from_str_radix`.
unfoldable pub parse_pairs : Text → List ℕ
parse_pairs (a ∷ b ∷ rest) = (16 * hex_value a + hex_value b) ∷ parse_pairs rest
parse_pairs _ = []

unfoldable pub parse_digits : Text → Result ClientOrderId
parse_digits digits = do
  fail_if (not (byte_len digits == 32) || not (all is_ascii_hexdigit digits)) validation
  ok (record { bytes = parse_pairs digits })

abbrev strip_0x : Text → Option Text
strip_0x (a ∷ b ∷ rest) = if (a == b'0') && (b == b'x') then some rest else none
strip_0x _ = none

-- `FromStr`
unfoldable pub from_str : Text → Result ClientOrderId
from_str value = do digits ← or_fail (strip_0x value) validation; parse_digits digits
