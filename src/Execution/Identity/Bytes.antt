-- ===== src/Execution/Identity/Bytes.antt =====
-- Fixed-width big-endian words and length-prefixed fields, as
-- crates/hypercarry-execution/src/identity.rs hashes them.
use native.Mathlib.Nat.{pow-suc}
use mathlib.Core.List.{append_assoc}
use hypercarry.Base.{
  ℕ, zero, suc, ◌/◌, ◌%◌, ◌^◌, ◌<◌, ◌≡◌, refl, sym, ap, ◌∙◌, List, [], ◌∷◌, ◌++◌, length, arith,
  lt→ltb,
}
use hypercarry.Base.Int.{ℤ, IsI64, u64_bound}
use hypercarry.Execution.Identity.{be_bytes, frame, word64}

pub append_split {ℓ} :
    {A : Type ℓ} (xs ys r s : List A)
    → length xs ≡ length ys
    → xs ++ r ≡ ys ++ s
    → (xs ≡ ys) × (r ≡ s)
append_split [] [] r s n e = (refl, e)
append_split [] (y ∷ ys) r s n e = absurd (omega arith)
append_split (x ∷ xs) [] r s n e = absurd (omega arith)
append_split (x ∷ xs) (y ∷ ys) r s n e = ground (arith, append_split xs ys r s)

pub length-be_bytes : (k n : ℕ) → length (be_bytes k n) ≡ k
unfolding be_bytes
length-be_bytes zero n = refl
length-be_bytes (suc k) n = ap suc (length-be_bytes k (n % 256 ^ k))

pow_pos : (k : ℕ) → 0 < 256 ^ k
pow_pos zero = omega arith
pow_pos (suc k) = rw pow-suc (omega (arith, pow_pos k))

-- A word is determined by its quotient and its remainder.
word_of_parts : (p m n : ℕ) → 0 < p → m / p ≡ n / p → m % p ≡ n % p → m ≡ n
word_of_parts p m n h q r = grind arith

pub be_bytes-injective :
    (k m n : ℕ) → m < 256 ^ k → n < 256 ^ k → be_bytes k m ≡ be_bytes k n → m ≡ n
unfolding be_bytes
be_bytes-injective zero m n hm hn e = omega arith
be_bytes-injective (suc k) m n hm hn e =
    let ih = be_bytes-injective k (m % 256 ^ k) (n % 256 ^ k) in
    let p = pow_pos k in ground (arith, ih, p, word_of_parts (256 ^ k) m n)

pub word64-injective : (a b : ℤ) → IsI64 a → IsI64 b → word64 a ≡ word64 b → a ≡ b
word64-injective a b ha hb e = ground arith

pub word64-lt : (a : ℤ) → IsI64 a → word64 a < 256 ^ 8
word64-lt a h = ground arith

frame_of_short : (f : List ℕ) → length f < u64_bound → frame f ≡ be_bytes 8 (length f) ++ f
unfolding frame
frame_of_short f h = ap (λ n. be_bytes 8 n ++ f) (rw (lt→ltb (length f) u64_bound h) refl)

regroup : (f r : List ℕ) → length f < u64_bound → frame f ++ r ≡ be_bytes 8 (length f) ++ (f ++ r)
regroup f r h = rw (frame_of_short f h) (append_assoc (be_bytes 8 (length f)) f r)

-- A field that is followed by anything is determined, and so is what follows it.
pub frame-injective :
    (f g r s : List ℕ)
    → length f < u64_bound
    → length g < u64_bound
    → frame f ++ r ≡ frame g ++ s
    → (f ≡ g) × (r ≡ s)
frame-injective f g r s hf hg e =
    let e' : be_bytes 8 (length f) ++ (f ++ r) ≡ be_bytes 8 (length g) ++ (g ++ s) =
      sym (regroup f r hf) ∙ e ∙ regroup g s hg in
    let widths : length (be_bytes 8 (length f)) ≡ length (be_bytes 8 (length g)) =
      length-be_bytes 8 (length f) ∙ sym (length-be_bytes 8 (length g)) in
    let (heads, rests) = append_split _ _ (f ++ r) (g ++ s) widths e' in
    append_split f g r s (be_bytes-injective 8 (length f) (length g) hf hg heads) rests
