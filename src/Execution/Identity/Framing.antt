-- ===== src/Execution/Identity/Framing.antt =====
-- What `ClientOrderId::derive` of crates/hypercarry-execution/src/identity.rs hashes, against the
-- fields of the order.
use hypercarry.Base.{ℕ, ◌<◌, ◌≡◌, refl, List, ◌∷◌, length, arith}
use hypercarry.Base.Int.{IsI64, u64_bound}
use hypercarry.Base.Text.{as_bytes}
use hypercarry.Decimal.{Decimal}
use hypercarry.Execution.Model.{Side, ValidatedOrder}
use hypercarry.Execution.Identity.{domain, preimage, side_byte}
use hypercarry.Execution.Identity.Bytes.{
  frame-injective, append_split, be_bytes-injective, word64-injective, word64-lt,
}

side_byte-injective : (a b : Side) → side_byte a ≡ side_byte b → a ≡ b
side_byte-injective a b e = ground arith

cons-injective : (a b : ℕ) (xs ys : List ℕ) → a ∷ xs ≡ b ∷ ys → (a ≡ b) × (xs ≡ ys)
cons-injective a b xs ys e = ground arith

module _ {Num : Type 0} ⦃d : Decimal Num⦄ where
  abbrev shown : Num → List ℕ
  shown n = as_bytes (d.display (d.normalize n))

  -- Each field has less than 2^64 bytes and the time is an `i64`, as in any process.
  pub record IsHashable (o : ValidatedOrder Num) : Type 0 where
    pub correlation_len : length (as_bytes o.correlation_id) < u64_bound
    pub venue_len : length (as_bytes o.venue) < u64_bound
    pub market_len : length (as_bytes o.market) < u64_bound
    pub quantity_len : length (shown o.quantity) < u64_bound
    pub price_len : length (shown o.limit_price) < u64_bound
    pub time : IsI64 o.created_at_ms

  -- The identity that the identifier stands for.
  pub record SameIdentity (o p : ValidatedOrder Num) : Type 0 where
    pub correlation : as_bytes o.correlation_id ≡ as_bytes p.correlation_id
    pub venue : as_bytes o.venue ≡ as_bytes p.venue
    pub market : as_bytes o.market ≡ as_bytes p.market
    pub side : o.side ≡ p.side
    pub quantity : shown o.quantity ≡ shown p.quantity
    pub price : shown o.limit_price ≡ shown p.limit_price
    pub time : o.created_at_ms ≡ p.created_at_ms

  -- Orders with one preimage agree in the bytes of their identifier, venue and market, in side, in
  -- the digits of their quantity and price, and in time.
  pub preimage-injective :
      (o p : ValidatedOrder Num)
      → IsHashable o
      → IsHashable p
      → preimage o ≡ preimage p
      → SameIdentity o p
  unfolding preimage
  preimage-injective o p ho hp e =
      let (_, e1) = append_split domain domain _ _ refl e in
      let (correlation, e2) = frame-injective _ _ _ _ ho.correlation_len hp.correlation_len e1 in
      let (venue, e3) = frame-injective _ _ _ _ ho.venue_len hp.venue_len e2 in
      let (market, e4) = frame-injective _ _ _ _ ho.market_len hp.market_len e3 in
      let (side, e5) = cons-injective _ _ _ _ e4 in
      let (quantity, e6) = frame-injective _ _ _ _ ho.quantity_len hp.quantity_len e5 in
      let (price, e7) = frame-injective _ _ _ _ ho.price_len hp.price_len e6 in
      record {
        correlation = correlation;
        venue = venue;
        market = market;
        side = side_byte-injective o.side p.side side;
        quantity = quantity;
        price = price;
        time =
            word64-injective o.created_at_ms p.created_at_ms ho.time hp.time
              (be_bytes-injective 8 _ _ (word64-lt _ ho.time) (word64-lt _ hp.time) e7);
      }
