-- ===== src/Core/Carry/Neutral.antt =====
-- What a trade of crates/hypercarry-core/src/carry.rs evaluates to, and a hedged one's net result.
use hypercarry.Base.{◌≡◌, sym, ap, ◌∙◌, true, Option, some, none, List}
use hypercarry.Base.Int.{ℤ, pos, ◌+ℤ◌, ◌-ℤ◌, int_laws, pos_part, neg_part}
use hypercarry.Decimal.{Decimal, Gives}
use hypercarry.Decimal.Order.{Below, AtMost, le_false, lt_false}
use hypercarry.Core.Carry.{
  FundingSettlement, CarryExit, CarryTrade, CarryPnl, value, mul, add, sub, validate,
  require_positive, require_spot, accrue_funding, price_result, total_fees, evaluate,
}
use hypercarry.Core.Carry.Settled.{
  bind-value, refuse-value, or_overflow-value, value-injective, some-injective, positive_of,
  IsSchedule, accrue-IsSchedule, price_result_neutral,
}

regroup : (f p s : ℤ) → p +ℤ s ≡ pos 0 → (f +ℤ p) +ℤ s ≡ f
regroup f p s h = grind (int_laws, ap pos_part h, ap neg_part h)

module _ {Num : Type 0} ⦃d : Decimal Num⦄ where
  exact : {u : ℤ} (o : Option Num) (x : Num) → Gives d.units o u → o ≡ some x → d.units x ≡ u
  exact o x (c, e, u) h = ap d.units (some-injective x c (sym h ∙ e)) ∙ u

  -- The parts of an evaluated trade, each of the operation that computes it.
  record Evaluated (t : CarryTrade Num) (ss : List (FundingSettlement Num)) (r : CarryPnl Num)
      : Type 0 where
    pub valid : validate t ≡ value tt
    pub accrued : accrue_funding t ss ≡ value r.funding
    pub priced : price_result t ≡ value (r.perp_price_pnl, r.spot_price_pnl)
    pub charged : total_fees t ≡ value r.fees
    pub with_perp : Num
    pub with_spot : Num
    pub perp_sum : d.checked_add r.funding r.perp_price_pnl ≡ some with_perp
    pub spot_sum : d.checked_add with_perp r.spot_price_pnl ≡ some with_spot
    pub net_sum : d.checked_sub with_spot r.fees ≡ some r.net

  evaluate-Evaluated :
      (t : CarryTrade Num) (ss : List (FundingSettlement Num)) (r : CarryPnl Num)
      → evaluate t ss ≡ value r
      → Evaluated t ss r
  unfolding evaluate
  evaluate-Evaluated t ss r h =
      let (_, valid, h1) = bind-value (validate t) _ h in
      let (funding, accrued, h2) = bind-value (accrue_funding t ss) _ h1 in
      let (prices, priced, h3) = bind-value (price_result t) _ h2 in
      let (fees, charged, h4) = bind-value (total_fees t) _ h3 in
      let (notional, _, h5) = bind-value (mul t.size t.perp_entry_price) _ h4 in
      let (with_perp, e1, h6) = bind-value (add funding prices.0) _ h5 in
      let (with_spot, e2, h7) = bind-value (add with_perp prices.1) _ h6 in
      let (net, e3, h8) = bind-value (sub with_spot fees) _ h7 in
      let same = value-injective _ _ h8 in
      let funding_is = ap (λ x. x.funding) same in
      let perp_is = ap (λ x. x.perp_price_pnl) same in
      let spot_is = ap (λ x. x.spot_price_pnl) same in
      let fees_is = ap (λ x. x.fees) same in
      record {
        valid = valid;
        accrued = accrued ∙ ap value funding_is;
        priced = priced ∙ ap (λ x. value (x.perp_price_pnl, x.spot_price_pnl)) same;
        charged = charged ∙ ap value fees_is;
        with_perp = with_perp;
        with_spot = with_spot;
        perp_sum =
            ap (λ x. d.checked_add x.funding x.perp_price_pnl) (sym same) ∙ or_overflow-value _ e1;
        spot_sum = ap (d.checked_add with_perp) (sym spot_is) ∙ or_overflow-value _ e2;
        net_sum =
            ap (d.checked_sub with_spot) (sym fees_is)
            ∙ or_overflow-value _ e3
            ∙ ap (λ x. some x.net) same;
      }

  -- What validation leaves of the size, the entry price and the fee rates.
  abbrev pub IsPriced : CarryTrade Num → Type 0
  IsPriced t =
      Below d.zero t.size
      × Below d.zero t.perp_entry_price
      × AtMost d.zero t.fees.entry_rate
      × AtMost d.zero t.fees.exit_rate

  validate-IsPriced : (t : CarryTrade Num) → validate t ≡ value tt → IsPriced t
  unfolding validate
  validate-IsPriced t h =
      let (size, h1) = refuse-value (d.le t.size d.zero) _ _ h in
      let (_, price, h2) = bind-value (require_positive t.perp_entry_price) _ h1 in
      let (_, _, h3) = bind-value (require_spot t.spot_entry_price) _ h2 in
      let (entry, h4) = refuse-value (d.lt t.fees.entry_rate d.zero) _ _ h3 in
      let (leave, h5) = refuse-value (d.lt t.fees.exit_rate d.zero) _ _ h4 in
      (
        le_false t.size d.zero size,
        positive_of t.perp_entry_price price,
        lt_false t.fees.entry_rate d.zero entry,
        lt_false t.fees.exit_rate d.zero leave,
      )

  -- A trade that evaluates has a positive size and entry price and fee rates that are not negative,
  -- and every settlement it was given is later than the one before and has a positive mark price:
  -- no result is computed from disordered or unpriced settlements.
  evaluate-IsSchedule :
      (t : CarryTrade Num) (ss : List (FundingSettlement Num)) (r : CarryPnl Num)
      → evaluate t ss ≡ value r
      → IsPriced t × IsSchedule none ss
  unfolding accrue_funding
  evaluate-IsSchedule t ss r h =
      let e = evaluate-Evaluated t ss r h in
      (validate-IsPriced t e.valid, accrue-IsSchedule t d.zero none ss r.funding e.accrued)

  -- A hedged trade closed after its perpetual and its hedge moved by the same amount keeps exactly
  -- its funding less its fees, where the two sums and the difference are representable: the two
  -- price results cancel, whatever rounding their products took.
  pub evaluate_neutral :
      (t : CarryTrade Num) (ss : List (FundingSettlement Num)) (r : CarryPnl Num)
      (exit : CarryExit Num) (entry close move : Num)
      → evaluate t ss ≡ value r
      → t.exit ≡ some exit
      → t.spot_entry_price ≡ some entry
      → exit.spot_price ≡ some close
      → d.checked_sub exit.perp_price t.perp_entry_price ≡ some move
      → d.checked_sub close entry ≡ some move
      → d.fits (d.units r.funding +ℤ d.units r.perp_price_pnl) ≡ true
      → d.fits (d.units r.funding) ≡ true
      → d.fits (d.units r.funding -ℤ d.units r.fees) ≡ true
      → d.units r.net ≡ d.units r.funding -ℤ d.units r.fees
  evaluate_neutral t ss r exit entry close move h closed hedge_entry hedge_exit perp_moved
        spot_moved f1 f2 f3 =
      let e = evaluate-Evaluated t ss r h in
      let cancel =
        price_result_neutral t exit entry close move r.perp_price_pnl r.spot_price_pnl closed
          hedge_entry hedge_exit perp_moved spot_moved e.priced in
      let after_perp = exact _ e.with_perp (d.add_exact r.funding r.perp_price_pnl f1) e.perp_sum in
      let total =
        regroup (d.units r.funding) (d.units r.perp_price_pnl) (d.units r.spot_price_pnl) cancel in
      let left = ap (λ x. x +ℤ d.units r.spot_price_pnl) after_perp ∙ total in
      let after_spot =
        exact _ e.with_spot (d.add_exact e.with_perp r.spot_price_pnl (ap d.fits left ∙ f2))
          e.spot_sum
        ∙ left in
      let difference = ap (λ x. x -ℤ d.units r.fees) after_spot in
      exact _ r.net (d.sub_exact e.with_spot r.fees (ap d.fits difference ∙ f3)) e.net_sum
      ∙ difference
