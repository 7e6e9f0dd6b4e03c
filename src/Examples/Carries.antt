-- ===== src/Examples/Carries.antt =====
-- A hedged trade of crates/hypercarry-core/src/carry.rs on concrete prices.
use hypercarry.Base.{◌≡◌, refl, true, some, List, [], ◌∷◌}
use hypercarry.Base.Int.{ℤ, pos, ◌-ℤ◌, ◌+ℤ◌}
use hypercarry.Decimal.Fixed.{Fixed, fixed, fixed_neg, fixed_fits, cents}
use hypercarry.Core.Carry.{
  short, FundingSettlement, CarryExit, CarryTrade, CarryPnl, value, fault, unordered_settlements,
  evaluate, validate, funding_sign, price_sign,
}
use hypercarry.Core.Carry.Neutral.{evaluate_neutral}

abbrev carry_exit : CarryExit Fixed
carry_exit = record { perp_price = cents 11000; spot_price = some (cents 11100) }

-- A short of 2 at 100 against a hedge at 101, with a fee of 1%, closed 10 higher.
abbrev carry_trade : CarryTrade Fixed
carry_trade = record {
  side = short;
  size = cents 200;
  perp_entry_price = cents 10000;
  spot_entry_price = some (cents 10100);
  exit = some carry_exit;
  fees = record { entry_rate = cents 1; exit_rate = cents 1 };
}

abbrev settlement_at : ℤ → FundingSettlement Fixed
settlement_at time = record {
  settlement_time_ms = time;
  funding_rate = cents 1;
  mark_price = cents 10000;
}

abbrev settlements_1 : List (FundingSettlement Fixed)
settlements_1 = settlement_at (pos 3600000) ∷ settlement_at (pos 7200000) ∷ []

abbrev carry_pnl : CarryPnl Fixed
carry_pnl = record {
  funding = cents 400;
  perp_price_pnl = fixed_neg (cents 2000);
  spot_price_pnl = cents 2000;
  fees = cents 844;
  net = fixed_neg (cents 444);
  entry_notional = cents 20000;
  settlements = 2;
  first_settlement_ms = some (pos 3600000);
  last_settlement_ms = some (pos 7200000);
  closed = true;
}

evaluated : evaluate carry_trade settlements_1 ≡ value carry_pnl
unfolding evaluate fixed validate funding_sign price_sign
evaluated = refl

-- A settlement given twice is refused.
refused :
    evaluate carry_trade (settlement_at (pos 3600000) ∷ settlement_at (pos 3600000) ∷ [])
    ≡ fault (unordered_settlements (pos 3600000))
unfolding evaluate fixed validate funding_sign price_sign
refused = refl

evaluate_neutral_example : fixed_neg (cents 444) ≡ cents 400 -ℤ cents 844
unfolding fixed fixed_fits ◌+ℤ◌ ◌-ℤ◌
evaluate_neutral_example =
    evaluate_neutral carry_trade settlements_1 carry_pnl carry_exit (cents 10100) (cents 11100)
      (cents 1000) evaluated refl refl refl refl refl refl refl refl
