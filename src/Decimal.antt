-- ===== src/Decimal.antt =====
-- The interface of `rust_decimal::Decimal`, the third-party type of every price, size and rate: its
-- operations, and what the crate documents of them. `units` is the numeric value of a decimal in
-- units of 10^-28, a whole number since the scale is at most 28. `fits` tells which numbers of units
-- have an exact representation (a mantissa of 96 bits at some scale up to 28).
pub mod Fixed
pub mod Order
use hypercarry.Base.{
  ℕ, ◌^◌, ◌*◌, ◌-◌, ◌%◌, ◌<◌, ◌≤◌, ◌≡◌, Bool, true, Option, some, none, if◌then◌else◌,
}
use hypercarry.Base.Int.{ℤ, pos, ◌+ℤ◌, ◌-ℤ◌, ltb_ℤ, leb_ℤ, eqb_ℤ}
use hypercarry.Base.Text.{Text}

abbrev pub unit_scale : ℕ
unit_scale = 10 ^ 28

-- A checked operation that gives exactly this number of units.
abbrev pub Gives : {Num : Type 0} → (Num → ℤ) → Option Num → ℤ → Type 0
Gives {Num} units r u = (c : Num) × (r ≡ some c) × (units c ≡ u)

pub record Decimal (Num : Type 0) : Type 0 where
  pub units : Num → ℤ
  pub fits : ℤ → Bool
  -- `Decimal::ZERO`, `Decimal::ONE`, `Decimal::from(u32)` and `Decimal::from(i64)`
  pub zero : Num
  pub one : Num
  pub from_u32 : ℕ → Num
  pub from_i64 : ℤ → Num
  -- `Decimal::new` of a mantissa that is not negative
  pub of_scaled : ℕ → ℕ → Num
  -- `<`, `<=` and `==`, which compare values: `1.0 == 1.00`
  pub lt : Num → Num → Bool
  pub le : Num → Num → Bool
  pub eq : Num → Num → Bool
  -- The checked operations are `none` on overflow and on division by zero; the operators `+`, `-`,
  -- `*`, `/` and `%` panic then.
  pub checked_add : Num → Num → Option Num
  pub checked_sub : Num → Num → Option Num
  pub checked_mul : Num → Num → Option Num
  pub checked_div : Num → Num → Option Num
  pub checked_rem : Num → Num → Option Num
  -- unary `-`: the sign is a flag of its own
  pub neg : Num → Num
  -- drops trailing zeros of the mantissa
  pub normalize : Num → Num
  -- `Display`
  pub display : Num → Text
  pub units_zero : units zero ≡ pos 0
  pub units_one : units one ≡ pos unit_scale
  pub units_from_u32 : (n : ℕ) → n < 2 ^ 32 → units (from_u32 n) ≡ pos (n * unit_scale)
  pub units_of_scaled :
      (m scale : ℕ)
      → m < 2 ^ 63
      → scale ≤ 28
      → units (of_scaled m scale) ≡ pos (m * 10 ^ (28 - scale))
  pub lt_units : (a b : Num) → lt a b ≡ ltb_ℤ (units a) (units b)
  pub le_units : (a b : Num) → le a b ≡ leb_ℤ (units a) (units b)
  pub eq_units : (a b : Num) → eq a b ≡ eqb_ℤ (units a) (units b)
  pub units_normalize : (a : Num) → units (normalize a) ≡ units a
  -- Sums and differences are exact where the exact value is representable.
  pub add_exact :
      (a b : Num)
      → fits (units a +ℤ units b) ≡ true
      → Gives units (checked_add a b) (units a +ℤ units b)
  pub sub_exact :
      (a b : Num)
      → fits (units a -ℤ units b) ≡ true
      → Gives units (checked_sub a b) (units a -ℤ units b)
  pub units_neg : (a : Num) → units (neg a) ≡ pos 0 -ℤ units a
  -- A product is rounded by its magnitude.
  pub mul_neg :
      (a b c : Num)
      → checked_mul a b ≡ some c
      → Gives units (checked_mul a (neg b)) (pos 0 -ℤ units c)
  -- The remainder is exact.
  pub rem_exact :
      (a b : Num) (m n : ℕ)
      → units a ≡ pos m
      → units b ≡ pos n
      → 0 < n
      → Gives units (checked_rem a b) (pos (m % n))

-- `Ord::min`
unfoldable pub min_of : {Num : Type 0} ⦃d : Decimal Num⦄ → Num → Num → Num
min_of ⦃d⦄ a b = if d.lt b a then b else a

-- `Decimal::max`
unfoldable pub max_of : {Num : Type 0} ⦃d : Decimal Num⦄ → Num → Num → Num
max_of ⦃d⦄ a b = if d.lt a b then b else a

-- `Ord::clamp`, for bounds in order: it panics where they are not.
unfoldable pub clamp : {Num : Type 0} ⦃d : Decimal Num⦄ → Num → Num → Num → Num
clamp ⦃d⦄ x low high = if d.lt x low then low else if d.lt high x then high else x
