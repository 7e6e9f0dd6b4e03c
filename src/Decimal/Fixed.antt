-- ===== src/Decimal/Fixed.antt =====
-- A concrete decimal, for the tests and the examples: fixed point with 28 places, whose operations
-- truncate, within the range of a mantissa of 96 bits. It meets the laws of the interface.
use hypercarry.Base.{
  ℕ, zero, suc, ◌+◌, ◌-◌, ◌*◌, ◌/◌, ◌%◌, ◌^◌, ◌<◌, ◌≡◌, refl, ap, ◌∙◌, Bool, true, ◌&&◌, Option,
  none, some, ltb, ◌==◌, if◌then◌else◌, arith,
}
use hypercarry.Base.Int.{◌≤ℤ◌, ℤ, pos, negsuc, pos_part, neg_part, ◌+ℤ◌, ◌-ℤ◌, ltb_ℤ, leb_ℤ, eqb_ℤ}
use hypercarry.Base.Text.{show_int}
use hypercarry.Decimal.{Decimal, unit_scale, Gives}

abbrev pub Fixed : Type 0
Fixed = ℤ

abbrev mantissa_bound : ℕ
mantissa_bound = 2 ^ 96 * unit_scale

unfoldable pub fixed_fits : ℤ → Bool
fixed_fits u = ltb (pos_part u) mantissa_bound && ltb (neg_part u) mantissa_bound

pub fixed_fits_small : (u : ℤ) → pos 0 ≤ℤ u → u ≤ℤ pos (10 ^ 30) → fixed_fits u ≡ true
unfolding fixed_fits
fixed_fits_small u lo hi = ground arith

abbrev bounded : ℤ → Option ℤ
bounded u = if fixed_fits u then some u else none

abbrev pub negate : ℕ → ℤ
negate zero = pos 0
negate (suc n) = negsuc n

-- The sign of a product or quotient of magnitudes.
abbrev with_signs : ℤ → ℤ → ℕ → ℤ
with_signs (pos a) (pos b) n = pos n
with_signs (pos a) (negsuc b) n = negate n
with_signs (negsuc a) (pos b) n = negate n
with_signs (negsuc a) (negsuc b) n = pos n

abbrev magnitude : ℤ → ℕ
magnitude a = pos_part a + neg_part a

pub fixed_mul : ℤ → ℤ → Option ℤ
unfolding fixed_fits
fixed_mul a b = bounded (with_signs a b (magnitude a * magnitude b / unit_scale))

pub fixed_div : ℤ → ℤ → Option ℤ
unfolding fixed_fits
fixed_div a b =
    if magnitude b == 0
    then none
    else bounded (with_signs a b (magnitude a * unit_scale / magnitude b))

abbrev rem_sign : ℤ → ℕ → ℤ
rem_sign (pos a) n = pos n
rem_sign (negsuc a) n = negate n

pub fixed_rem : ℤ → ℤ → Option ℤ
fixed_rem a b = if magnitude b == 0 then none else some (rem_sign a (magnitude a % magnitude b))

pub fixed_add : ℤ → ℤ → Option ℤ
unfolding fixed_fits ◌+ℤ◌
fixed_add a b = bounded (a +ℤ b)

pub fixed_sub : ℤ → ℤ → Option ℤ
unfolding fixed_fits ◌-ℤ◌
fixed_sub a b = bounded (a -ℤ b)

pub fixed_add_exact :
    (a b : ℤ) → fixed_fits (a +ℤ b) ≡ true → Gives (λ u. u) (fixed_add a b) (a +ℤ b)
unfolding fixed_add
fixed_add_exact a b h = (a +ℤ b, rw h, refl)

pub fixed_sub_exact :
    (a b : ℤ) → fixed_fits (a -ℤ b) ≡ true → Gives (λ u. u) (fixed_sub a b) (a -ℤ b)
unfolding fixed_sub
fixed_sub_exact a b h = (a -ℤ b, rw h, refl)

pub fixed_rem_exact :
    (a b : ℤ) (m n : ℕ)
    → a ≡ pos m
    → b ≡ pos n
    → 0 < n
    → Gives (λ u. u) (fixed_rem a b) (pos (m % n))
unfolding fixed_rem
fixed_rem_exact a b m n ea eb h = (pos (m % n), ground arith, refl)

abbrev pub fixed_neg : ℤ → ℤ
fixed_neg (pos n) = negate n
fixed_neg (negsuc n) = pos (suc n)

pub fixed_neg_units : (a : ℤ) → fixed_neg a ≡ pos 0 -ℤ a
unfolding ◌-ℤ◌
fixed_neg_units (pos zero) = refl
fixed_neg_units (pos (suc n)) = ground arith
fixed_neg_units (negsuc n) = ground arith

with_signs_neg :
    (a b : ℤ) (n : ℕ)
    → (magnitude b ≡ 0 → n ≡ 0)
    → with_signs a (fixed_neg b) n ≡ fixed_neg (with_signs a b n)
with_signs_neg a b n h = ground arith

magnitude_neg : (a : ℤ) → magnitude (fixed_neg a) ≡ magnitude a
magnitude_neg a = ground arith

fits_neg : (a : ℤ) → fixed_fits (fixed_neg a) ≡ fixed_fits a
unfolding fixed_fits
fits_neg a = ground arith

bounded_neg : (u c : ℤ) → bounded u ≡ some c → bounded (fixed_neg u) ≡ some (fixed_neg c)
bounded_neg u c h = ground (arith, fits_neg u)

no_product : (m n : ℕ) → n ≡ 0 → m * n / unit_scale ≡ 0
no_product m n h = rw h (grind arith)

pub fixed_mul_neg :
    (a b c : ℤ) → fixed_mul a b ≡ some c → Gives (λ u. u) (fixed_mul a (fixed_neg b)) (pos 0 -ℤ c)
unfolding fixed_mul
fixed_mul_neg a b c h = (fixed_neg c, product, fixed_neg_units c)
  where
    product : fixed_mul a (fixed_neg b) ≡ some (fixed_neg c)
    product =
        ap (λ m. bounded (with_signs a (fixed_neg b) (magnitude a * m / unit_scale)))
          (magnitude_neg b)
        ∙ ap bounded (
            with_signs_neg a b (magnitude a * magnitude b / unit_scale)
              (no_product (magnitude a) (magnitude b)))
        ∙ bounded_neg (with_signs a b (magnitude a * magnitude b / unit_scale)) c h

abbrev pub scaled_int : ℤ → ℤ
scaled_int (pos n) = pos (n * unit_scale)
scaled_int (negsuc n) = negate (suc n * unit_scale)

instance unfoldable pub fixed : Decimal Fixed
unfolding fixed_add fixed_sub fixed_mul fixed_div fixed_rem
fixed = record {
  units = λ u. u;
  fits = fixed_fits;
  zero = pos 0;
  one = pos unit_scale;
  from_u32 = λ n. pos (n * unit_scale);
  from_i64 = scaled_int;
  of_scaled = λ m scale. pos (m * 10 ^ (28 - scale));
  lt = ltb_ℤ;
  le = leb_ℤ;
  eq = eqb_ℤ;
  checked_add = fixed_add;
  checked_sub = fixed_sub;
  checked_mul = fixed_mul;
  checked_div = fixed_div;
  checked_rem = fixed_rem;
  neg = fixed_neg;
  normalize = λ u. u;
  display = λ u. show_int u;
  units_zero = refl;
  units_one = refl;
  units_from_u32 = λ n h. refl;
  units_of_scaled = λ m scale small fine. refl;
  lt_units = λ a b. refl;
  le_units = λ a b. refl;
  eq_units = λ a b. refl;
  units_normalize = λ a. refl;
  add_exact = fixed_add_exact;
  sub_exact = fixed_sub_exact;
  units_neg = fixed_neg_units;
  mul_neg = fixed_mul_neg;
  rem_exact = fixed_rem_exact;
}

-- n hundredths, such as 150 for 1.5.
abbrev pub cents : ℕ → Fixed
cents n = pos (n * 10 ^ 26)
