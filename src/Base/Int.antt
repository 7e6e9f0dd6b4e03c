-- ===== src/Base/Int.antt =====
-- Signed integers over the native numbers, and the checked operations of Rust's `i64` and `u64`.
use Prim.Native.Nat.{ℕ, suc, ◌+◌, ◌-◌, ◌*◌, ◌/◌, ◌%◌, ◌^◌, ◌≤◌, ◌<◌}
use mathlib.Core.Path.{◌≡◌}
use mathlib.Core.Bool.{Bool, ◌&&◌}
use mathlib.Core.Option.{Option, none, some}
use native.Mathlib.Omega.{arith}
use hypercarry.Base.Tests.{ltb, leb, ◌==◌, if◌then◌else◌}

-- `negsuc n` is -(n + 1).
pub data ℤ : Type 0 where
  pos : ℕ → ℤ
  negsuc : ℕ → ℤ

abbrev pub pos_part : ℤ → ℕ
pos_part (pos n) = n
pos_part (negsuc n) = 0

abbrev pub neg_part : ℤ → ℕ
neg_part (pos n) = 0
neg_part (negsuc n) = suc n

abbrev pub sub_ℕ : ℕ → ℕ → ℤ
sub_ℕ a b = if leb b a then pos (a - b) else negsuc (b - a - 1)

infixl 65 ◌+ℤ◌ ◌-ℤ◌
infixl 70 ◌*ℤ◌
infix 50 ◌≤ℤ◌ ◌<ℤ◌
unfoldable pub ◌+ℤ◌ : ℤ → ℤ → ℤ
a +ℤ b = sub_ℕ (pos_part a + pos_part b) (neg_part a + neg_part b)

unfoldable pub ◌-ℤ◌ : ℤ → ℤ → ℤ
a -ℤ b = sub_ℕ (pos_part a + neg_part b) (neg_part a + pos_part b)

unfoldable pub ◌*ℤ◌ : ℤ → ℤ → ℤ
a *ℤ b =
    sub_ℕ (pos_part a * pos_part b + neg_part a * neg_part b)
      (pos_part a * neg_part b + neg_part a * pos_part b)

abbrev pub ◌≤ℤ◌ : ℤ → ℤ → Type 0
a ≤ℤ b = pos_part a + neg_part b ≤ pos_part b + neg_part a

abbrev pub ◌<ℤ◌ : ℤ → ℤ → Type 0
a <ℤ b = pos_part a + neg_part b < pos_part b + neg_part a

abbrev pub ltb_ℤ : ℤ → ℤ → Bool
ltb_ℤ a b = ltb (pos_part a + neg_part b) (pos_part b + neg_part a)

abbrev pub leb_ℤ : ℤ → ℤ → Bool
leb_ℤ a b = leb (pos_part a + neg_part b) (pos_part b + neg_part a)

abbrev pub eqb_ℤ : ℤ → ℤ → Bool
eqb_ℤ a b = (pos_part a + neg_part b) == (pos_part b + neg_part a)

-- One lemma for each operation lets `omega` work with the operations shut.
pub +ℤ_parts :
    (a b : ℤ)
    → pos_part (a +ℤ b) + neg_part a + neg_part b ≡ neg_part (a +ℤ b) + pos_part a + pos_part b
unfolding ◌+ℤ◌
+ℤ_parts a b = ground arith

pub -ℤ_parts :
    (a b : ℤ)
    → pos_part (a -ℤ b) + neg_part a + pos_part b ≡ neg_part (a -ℤ b) + pos_part a + neg_part b
unfolding ◌-ℤ◌
-ℤ_parts a b = ground arith

pub eq_of_parts : (a b : ℤ) → pos_part a + neg_part b ≡ pos_part b + neg_part a → a ≡ b
eq_of_parts a b h = ground arith

pub ruleset int_laws = (arith, +ℤ_parts, -ℤ_parts, eq_of_parts)

-- The bound of `i64`, and of `u64`.
abbrev pub i64_bound : ℕ
i64_bound = 2 ^ 63

abbrev pub u64_bound : ℕ
u64_bound = 2 ^ 64

abbrev pub is_i64 : ℤ → Bool
is_i64 a = ltb (pos_part a) i64_bound && leb (neg_part a) i64_bound

abbrev pub IsI64 : ℤ → Type 0
IsI64 a = (pos_part a < i64_bound) × (neg_part a ≤ i64_bound)

-- `i64::checked_add` and `i64::checked_sub`.
unfoldable pub checked_add : ℤ → ℤ → Option ℤ
checked_add a b = if is_i64 (a +ℤ b) then some (a +ℤ b) else none

unfoldable pub checked_sub : ℤ → ℤ → Option ℤ
checked_sub a b = if is_i64 (a -ℤ b) then some (a -ℤ b) else none

-- `u64::try_from` of an `i64`, and `i64::try_from` of a `u64`.
abbrev pub to_u64 : ℤ → Option ℕ
to_u64 (pos n) = some n
to_u64 (negsuc n) = none

abbrev pub to_i64 : ℕ → Option ℤ
to_i64 n = if ltb n i64_bound then some (pos n) else none

-- A difference that is in range is exact, also where it saturates.
pub exact_difference : (a b c : ℤ) → checked_sub a b ≡ some c → a -ℤ b ≡ c
unfolding checked_sub
exact_difference a b c h = ground arith

-- `u64::checked_add`.
abbrev pub checked_add_u64 : ℕ → ℕ → Option ℕ
checked_add_u64 a b = if ltb (a + b) u64_bound then some (a + b) else none

-- `u64::saturating_add` and `u64::abs_diff`.
abbrev pub saturating_add_u64 : ℕ → ℕ → ℕ
saturating_add_u64 a b = if ltb (a + b) u64_bound then a + b else u64_bound - 1

abbrev pub abs_diff : ℕ → ℕ → ℕ
abs_diff a b = if leb a b then b - a else a - b

-- `i64::saturating_sub` and `i64::saturating_add`.
abbrev saturated : ℤ → ℤ
saturated x =
    if is_i64 x then x else if ltb_ℤ x (pos 0) then negsuc (i64_bound - 1) else pos (i64_bound - 1)

unfoldable pub saturating_sub : ℤ → ℤ → ℤ
saturating_sub a b = saturated (a -ℤ b)

pub saturated_difference : (a b c : ℤ) → checked_sub a b ≡ some c → saturating_sub a b ≡ c
unfolding checked_sub saturating_sub
saturated_difference a b c h = ground arith

unfoldable pub saturating_add : ℤ → ℤ → ℤ
saturating_add a b = saturated (a +ℤ b)

-- `i64::div_euclid` and `i64::rem_euclid` by a positive number.
unfoldable pub div_euclid : ℤ → ℕ → ℤ
div_euclid (pos n) k = pos (n / k)
div_euclid (negsuc n) k = negsuc (n / k)

unfoldable pub rem_euclid : ℤ → ℕ → ℕ
rem_euclid (pos n) k = n % k
rem_euclid (negsuc n) k = k - 1 - n % k
