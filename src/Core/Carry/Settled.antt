-- ===== src/Core/Carry/Settled.antt =====
-- What an evaluated trade of crates/hypercarry-core/src/carry.rs has checked and computed.
use hypercarry.Base.{
  ◌≡◌, refl, sym, ap, ◌∙◌, Bool, true, false, Option, none, some, List, [], ◌∷◌, arith,
}
use hypercarry.Base.Int.{ℤ, pos, ◌+ℤ◌, ◌-ℤ◌, ◌<ℤ◌, int_laws}
use hypercarry.Decimal.{Decimal}
use hypercarry.Decimal.Order.{Below}
use hypercarry.Core.Carry.{
  FundingSettlement, CarryExit, CarryTrade, CarryError, Outcome, fault, value, ◌>>=◌, ◌>>◌, refuse,
  or_overflow, mul, add, sub, not_after, require_positive, price_sign, funding_sign, accrue,
  spot_result, exit_result, price_result,
}

pub bind-value {ℓ κ} :
    {A : Type ℓ} {B : Type κ} (o : Outcome A) (next : A → Outcome B) {b : B}
    → (o >>= next) ≡ value b
    → (a : A) × (o ≡ value a) × (next a ≡ value b)
bind-value (fault e) next h = cc
bind-value (value a) next h = (a, refl, h)

pub refuse-value {ℓ} :
    {B : Type ℓ} (b : Bool) (e : CarryError) (rest : Outcome B) {r : B}
    → (refuse b e >> rest) ≡ value r
    → (b ≡ false) × (rest ≡ value r)
refuse-value true e rest h = cc
refuse-value false e rest h = (refl, h)

pub or_overflow-value {ℓ} :
    {A : Type ℓ} (o : Option A) {a : A} → or_overflow o ≡ value a → o ≡ some a
or_overflow-value o h = ground arith

pub value-injective {ℓ} : {A : Type ℓ} (a b : A) → value a ≡ value b → a ≡ b
value-injective a b h = ground arith

pub some-injective {ℓ} : {A : Type ℓ} (a b : A) → some a ≡ some b → a ≡ b
some-injective a b h = ground arith

cancels : (x : ℤ) → x +ℤ (pos 0 -ℤ x) ≡ pos 0
cancels x = grind int_laws

-- Later than the previous time, where there is one.
abbrev pub IsLater : ℤ → Option ℤ → Type 0
IsLater time none = Unit {0}
IsLater time (some previous) = previous <ℤ time

IsLater_lem :
    (time : ℤ) (previous : Option ℤ) → not_after time previous ≡ false → IsLater time previous
IsLater_lem time none h = tt
IsLater_lem time (some p) h = ground arith

module _ {Num : Type 0} ⦃d : Decimal Num⦄ where
  -- Settlements at increasing times, each with a positive mark price.
  abbrev pub IsSchedule : Option ℤ → List (FundingSettlement Num) → Type 0
  IsSchedule previous [] = Unit {0}
  IsSchedule previous (s ∷ rest) =
      IsLater s.settlement_time_ms previous
      × Below d.zero s.mark_price
      × IsSchedule (some s.settlement_time_ms) rest

  pub positive_of : (price : Num) → require_positive price ≡ value tt → Below d.zero price
  unfolding require_positive
  positive_of price h = ground (arith, d.le_units price d.zero)

  pub accrue-IsSchedule :
      (t : CarryTrade Num) (total : Num) (previous : Option ℤ) (ss : List (FundingSettlement Num))
      (r : Num)
      → accrue t total previous ss ≡ value r
      → IsSchedule previous ss
  unfolding accrue
  accrue-IsSchedule t total previous [] r h = tt
  accrue-IsSchedule t total previous (s ∷ rest) r h =
      let (later, h1) = refuse-value (not_after s.settlement_time_ms previous) _ _ h in
      let (_, positive, h2) = bind-value (require_positive s.mark_price) _ h1 in
      let (notional, _, h3) = bind-value (mul t.size s.mark_price) _ h2 in
      let (gross, _, h4) = bind-value (mul notional s.funding_rate) _ h3 in
      let (payment, _, h5) = bind-value (mul gross (funding_sign t.side)) _ h4 in
      let (next, _, h6) = bind-value (add total payment) _ h5 in
      (
        IsLater_lem s.settlement_time_ms previous later,
        positive_of s.mark_price positive,
        accrue-IsSchedule t next (some s.settlement_time_ms) rest r h6,
      )

  -- A hedged trade whose two legs moved by the same amount.
  module _ (t : CarryTrade Num) (exit : CarryExit Num) (entry close move perp spot : Num)
      (closed : t.exit ≡ some exit) (hedge_entry : t.spot_entry_price ≡ some entry)
      (hedge_exit : exit.spot_price ≡ some close)
      (perp_moved : d.checked_sub exit.perp_price t.perp_entry_price ≡ some move)
      (spot_moved : d.checked_sub close entry ≡ some move) where
    spot_leg :
        (gross : Num)
        → d.checked_mul t.size move ≡ some gross
        → spot_result t (some entry) (some close) ≡ value spot
        → d.checked_mul gross (d.neg (price_sign t.side)) ≡ some spot
    unfolding spot_result
    spot_leg gross eg h =
        let (m, em, h1) = bind-value (sub close entry) _ h in
        let (g, e, h2) = bind-value (mul t.size m) _ h1 in
        or_overflow-value (d.checked_mul gross (d.neg (price_sign t.side))) (
          ground (
            arith,
            or_overflow-value (d.checked_sub close entry) em,
            or_overflow-value (d.checked_mul t.size m) e,
          ))

    opposite_units :
        (gross p : Num)
        → d.checked_mul gross (price_sign t.side) ≡ some p
        → d.checked_mul gross (d.neg (price_sign t.side)) ≡ some spot
        → d.units p +ℤ d.units spot ≡ pos 0
    opposite_units gross p ep es =
        let (c, ec, u) = d.mul_neg gross (price_sign t.side) p ep in
        let us = sym (ap d.units (some-injective c spot (sym ec ∙ es))) ∙ u in
        ap (λ x. d.units p +ℤ x) us ∙ cancels (d.units p)

    -- Where the perpetual and its hedge move by the same amount, the two price results cancel exactly,
    -- whatever rounding their products take: a hedged carry keeps its funding less its fees.
    pub price_result_neutral :
        price_result t ≡ value (perp, spot) → d.units perp +ℤ d.units spot ≡ pos 0
    unfolding price_result exit_result spot_result
    price_result_neutral h =
        let h1 = sym (ap (exit_result t) closed) ∙ h in
        let (m, em, h2) = bind-value (sub exit.perp_price t.perp_entry_price) _ h1 in
        let (gross, eg, h3) = bind-value (mul t.size m) _ h2 in
        let (p, ep, h4) = bind-value (mul gross (price_sign t.side)) _ h3 in
        let (s, es, h5) = bind-value (spot_result t t.spot_entry_price exit.spot_price) _ h4 in
        let moved = some-injective m move (
          sym (or_overflow-value (d.checked_sub exit.perp_price t.perp_entry_price) em)
          ∙ perp_moved) in
        let product =
          ap (d.checked_mul t.size) (sym moved) ∙ or_overflow-value (d.checked_mul t.size m) eg in
        let pair = value-injective _ _ h5 in
        let hedge =
          sym (
            ap (λ a. spot_result t a exit.spot_price) hedge_entry
            ∙ ap (spot_result t (some entry)) hedge_exit)
          ∙ es
          ∙ ap (λ x. value x.1) pair in
        opposite_units gross perp (or_overflow-value _ ep ∙ ap (λ x. some x.0) pair)
          (spot_leg gross product hedge)
