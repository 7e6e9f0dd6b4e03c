-- ===== src/Execution/Identity/Hex.antt =====
-- `Display` and `FromStr` of crates/hypercarry-execution/src/identity.rs, one after the other.
use hypercarry.Base.{
  ℕ, ◌*◌, ◌/◌, ◌%◌, ◌<◌, ◌≡◌, refl, ap, ◌∙◌, true, List, [], ◌∷◌, length, all, All, arith,
}
use hypercarry.Base.Text.{Text, byte_len, as_bytes, utf8, is_ascii_hexdigit}
use hypercarry.Execution.Error.{ok}
use hypercarry.Execution.Identity.{
  ClientOrderId, hex_digit, hex_value, hex, to_string, parse_pairs, parse_digits, from_str,
}

-- Sixteen bytes.
pub record IsId (id : ClientOrderId) : Type 0 where
  pub size : length id.bytes ≡ 16
  pub in_range : All (λ b. b < 256) id.bytes

hex_value-hex_digit : (n : ℕ) → n < 16 → hex_value (hex_digit n) ≡ n
hex_value-hex_digit n h = ground arith

hexdigit-hex_digit : (n : ℕ) → n < 16 → is_ascii_hexdigit (hex_digit n) ≡ true
hexdigit-hex_digit n h = ground arith

all-hex : (bs : List ℕ) → All (λ b. b < 256) bs → all is_ascii_hexdigit (hex bs) ≡ true
unfolding hex
all-hex [] h = refl
all-hex (b ∷ bs) h =
    ground (arith, hexdigit-hex_digit (b / 16), hexdigit-hex_digit (b % 16), all-hex bs h.1)

ascii_len : (c : ℕ) → is_ascii_hexdigit c ≡ true → utf8 c ≡ c ∷ []
unfolding utf8
ascii_len c h = ground arith

byte_len-hex : (s : Text) → all is_ascii_hexdigit s ≡ true → byte_len s ≡ length s
unfolding byte_len as_bytes
byte_len-hex [] h = refl
byte_len-hex (c ∷ s) h = ground (arith, ascii_len c, byte_len-hex s)

length-hex : (bs : List ℕ) → length (hex bs) ≡ 2 * length bs
unfolding hex
length-hex [] = omega arith
length-hex (b ∷ bs) = omega (arith, length-hex bs)

parse_pairs-hex : (bs : List ℕ) → All (λ b. b < 256) bs → parse_pairs (hex bs) ≡ bs
unfolding parse_pairs hex
parse_pairs-hex [] h = refl
parse_pairs-hex (b ∷ bs) h =
    ground
      (arith, hex_value-hex_digit (b / 16), hex_value-hex_digit (b % 16), parse_pairs-hex bs h.1)

parse_digits_lem :
    (s : Text)
    → byte_len s ≡ 32
    → all is_ascii_hexdigit s ≡ true
    → parse_digits s ≡ ok (record { bytes = parse_pairs s })
unfolding parse_digits
parse_digits_lem s n h = rw (n, h) refl

-- The text of an identifier of sixteen bytes parses back to it.
pub from_str-to_string : (id : ClientOrderId) → IsId id → from_str (to_string id) ≡ ok id
unfolding from_str to_string
from_str-to_string id h =
    parse_digits_lem (hex id.bytes) size digits
    ∙ ap (λ bs. ok (record { bytes = bs })) (parse_pairs-hex id.bytes h.in_range)
  where
    digits : all is_ascii_hexdigit (hex id.bytes) ≡ true
    digits = all-hex id.bytes h.in_range

    size : byte_len (hex id.bytes) ≡ 32
    size = omega (arith, byte_len-hex (hex id.bytes) digits, length-hex id.bytes, h.size)
