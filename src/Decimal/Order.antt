-- ===== src/Decimal/Order.antt =====
-- What the comparisons of decimals say of their values.
use hypercarry.Base.{◌≡◌, true, false, arith}
use hypercarry.Base.Int.{◌≤ℤ◌, ◌<ℤ◌}
use hypercarry.Decimal.{Decimal, min_of}

module _ {Num : Type 0} ⦃d : Decimal Num⦄ where
  -- The order of two decimals by value.
  abbrev pub AtMost : Num → Num → Type 0
  AtMost a b = d.units a ≤ℤ d.units b

  abbrev pub Below : Num → Num → Type 0
  Below a b = d.units a <ℤ d.units b

  -- Equal values, perhaps at different scales.
  abbrev pub SameValue : Num → Num → Type 0
  SameValue a b = d.units a ≡ d.units b

  pub lt_true : (a b : Num) → d.lt a b ≡ true → Below a b
  lt_true a b h = ground (arith, d.lt_units a b)

  pub lt_false : (a b : Num) → d.lt a b ≡ false → AtMost b a
  lt_false a b h = ground (arith, d.lt_units a b)

  pub lt_false_normalize : (a b : Num) → d.lt a (d.normalize b) ≡ false → AtMost b a
  lt_false_normalize a b h = ground (arith, d.lt_units a (d.normalize b), d.units_normalize b)

  pub le_true : (a b : Num) → d.le a b ≡ true → AtMost a b
  le_true a b h = ground (arith, d.le_units a b)

  pub le_false : (a b : Num) → d.le a b ≡ false → Below b a
  le_false a b h = ground (arith, d.le_units a b)

  pub eq_true : (a b : Num) → d.eq a b ≡ true → SameValue a b
  eq_true a b h = ground (arith, d.eq_units a b)

  pub eq_refl : (a : Num) → d.eq a a ≡ true
  eq_refl a = ground (arith, d.eq_units a a)

  -- The minimum is below both, and is one of them.
  pub min_of_bounds : (a b : Num) → AtMost (min_of a b) a × AtMost (min_of a b) b
  unfolding min_of
  min_of_bounds a b = ground (arith, d.lt_units b a)
