-- ===== src/Execution/Model/Quantize.antt =====
-- `quantize_down` and `quantize_up` of crates/hypercarry-execution/src/model.rs against the multiples
-- of the increment.
use hypercarry.Base.{
  ℕ, ◌+◌, ◌-◌, ◌*◌, ◌/◌, ◌%◌, ◌≤◌, ◌<◌, ◌≡◌, refl, sym, ◌∙◌, ap, true, false, arith, Bool-cases,
  inl, inr,
}
use hypercarry.Base.Int.{pos, ◌-ℤ◌, ◌+ℤ◌, int_laws}
use hypercarry.Decimal.{Decimal}
use hypercarry.Execution.Error.{ok}
use hypercarry.Execution.Model.{quantize_down, quantize_up}

-- A whole difference of numbers, and a sum.
pos_sub : (m k : ℕ) → k ≤ m → pos m -ℤ pos k ≡ pos (m - k)
pos_sub m k h = omega int_laws

pos_add : (m k : ℕ) → pos m +ℤ pos k ≡ pos (m + k)
pos_add m k = omega int_laws

down_of_rem : (m n : ℕ) → m - m % n ≡ m / n * n
down_of_rem m n = grind arith

mod-le : (m n : ℕ) → 0 < n → m % n ≤ m
mod-le m n h = omega arith

module _ {Num : Type 0} ⦃d : Decimal Num⦄ (value increment : Num) (m n : ℕ)
    (value_units : d.units value ≡ pos m) (increment_units : d.units increment ≡ pos n)
    (increment_pos : 0 < n) where
  -- The difference that `quantize_down` takes, in units.
  down_units : (r : Num) → d.units r ≡ pos (m % n) → d.units value -ℤ d.units r ≡ pos (m / n * n)
  down_units r e =
      rw (value_units, e) (pos_sub m (m % n) (mod-le m n increment_pos) ∙ ap pos (down_of_rem m n))

  pub quantize_down_lem :
      d.fits (pos (m / n * n)) ≡ true
      → (q : Num) × (quantize_down value increment ≡ ok q) × (d.units q ≡ pos (m / n * n))
  unfolding quantize_down
  quantize_down_lem f =
      let (r, re, ru) = d.rem_exact value increment m n value_units increment_units increment_pos in
      let (q, qe, qu) = d.sub_exact value r (rw (down_units r ru) f) in
      (q, rw (re, qe) refl, qu ∙ down_units r ru)

-- The least multiple of `n` that is at least `m`.
abbrev pub round_up_to : ℕ → ℕ → ℕ
round_up_to m n = (m + n - 1) / n * n

round_up_to_exact : (m n : ℕ) → 0 < n → m % n ≡ 0 → round_up_to m n ≡ m
round_up_to_exact m n h e = grind arith

round_up_to_inexact : (m n : ℕ) → 0 < n → 0 < m % n → m + n - m % n ≡ round_up_to m n
round_up_to_inexact m n h e = grind arith

module _ {Num : Type 0} ⦃d : Decimal Num⦄ (value increment : Num) (m n : ℕ)
    (value_units : d.units value ≡ pos m) (increment_units : d.units increment ≡ pos n)
    (increment_pos : 0 < n) where
  zero_of_rem : (r : Num) → d.units r ≡ pos (m % n) → d.eq r d.zero ≡ true → m % n ≡ 0
  zero_of_rem r ru z = ground (arith, d.eq_units r d.zero, d.units_zero)

  pos_of_rem : (r : Num) → d.units r ≡ pos (m % n) → d.eq r d.zero ≡ false → 0 < m % n
  pos_of_rem r ru z = ground (arith, d.eq_units r d.zero, d.units_zero)

  sum_units : d.units value +ℤ d.units increment ≡ pos (m + n)
  sum_units = rw (value_units, increment_units) (pos_add m n)

  up_units :
      (s r : Num)
      → d.units s ≡ pos (m + n)
      → d.units r ≡ pos (m % n)
      → 0 < m % n
      → d.units s -ℤ d.units r ≡ pos (round_up_to m n)
  up_units s r se re h =
      rw (se, re)
        (pos_sub (m + n) (m % n) (omega arith) ∙ ap pos (round_up_to_inexact m n increment_pos h))

  pub quantize_up_lem :
      d.fits (pos (m + n)) ≡ true
      → d.fits (pos (round_up_to m n)) ≡ true
      → (q : Num) × (quantize_up value increment ≡ ok q) × (d.units q ≡ pos (round_up_to m n))
  unfolding quantize_up
  quantize_up_lem fs f =
      let (r, re, ru) = d.rem_exact value increment m n value_units increment_units increment_pos in
      let (s, se, su) = d.add_exact value increment (rw sum_units fs) in
      elim (Bool-cases (d.eq r d.zero)) [
        | inl z ↦ (
          value,
          rw (re, z) refl,
          value_units ∙ ap pos (sym (round_up_to_exact m n increment_pos (zero_of_rem r ru z))),
        )
        | inr z ↦
            let e = up_units s r (su ∙ sum_units) ru (pos_of_rem r ru z) in
            let (q, qe, qu) = d.sub_exact s r (rw e f) in (q, ground arith, qu ∙ e)
      ]
