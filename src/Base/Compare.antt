-- ===== src/Base/Compare.antt =====
-- Three-way comparisons (`Ord::cmp`) of numbers, texts and tuples, and what makes one a total order.
use Prim.Native.Nat.{ℕ, compare, Ordering}
use mathlib.Core.Path.{◌≡◌, refl}
use mathlib.Core.Bool.{Bool, true, false}
use mathlib.Core.List.{List, [], ◌∷◌}
use native.Mathlib.Omega.{arith}
use hypercarry.Base.Int.{ℤ, eqb_ℤ, ltb_ℤ}
use hypercarry.Base.Text.{Text}
use hypercarry.Base.Tests.{if◌then◌else◌}

abbrev pub is_lt : Ordering → Bool
is_lt Ordering.lt = true
is_lt Ordering.eq = false
is_lt Ordering.gt = false

-- `Ordering::then`
abbrev pub then_cmp : Ordering → Ordering → Ordering
then_cmp Ordering.lt o = Ordering.lt
then_cmp Ordering.eq o = o
then_cmp Ordering.gt o = Ordering.gt

abbrev pub compare_ℤ : ℤ → ℤ → Ordering
compare_ℤ a b = if ltb_ℤ a b then Ordering.lt else if eqb_ℤ a b then Ordering.eq else Ordering.gt

-- The order of the bytes of UTF-8 is that of the code points.
unfoldable pub compare_text : Text → Text → Ordering
compare_text [] [] = Ordering.eq
compare_text [] (y ∷ ys) = Ordering.lt
compare_text (x ∷ xs) [] = Ordering.gt
compare_text (x ∷ xs) (y ∷ ys) = then_cmp (compare x y) (compare_text xs ys)

abbrev pub compare_pair {ℓ κ} :
    {A : Type ℓ} {B : Type κ} → (A → A → Ordering) → (B → B → Ordering) → A × B → A × B → Ordering
compare_pair f g p q = then_cmp (f p.0 q.0) (g p.1 q.1)

pub record IsOrder {ℓ} {A : Type ℓ} (cmp : A → A → Ordering) : Type ℓ where
  pub same : (a b : A) → cmp a b ≡ Ordering.eq → a ≡ b
  pub itself : (a : A) → cmp a a ≡ Ordering.eq
  pub flips : (a b : A) → cmp a b ≡ Ordering.gt → cmp b a ≡ Ordering.lt
  pub chains : (a b c : A) → cmp a b ≡ Ordering.lt → cmp b c ≡ Ordering.lt → cmp a c ≡ Ordering.lt

compare_nat-same : (a b : ℕ) → compare a b ≡ Ordering.eq → a ≡ b
compare_nat-same a b h = ground arith

compare_nat-flips : (a b : ℕ) → compare a b ≡ Ordering.gt → compare b a ≡ Ordering.lt
compare_nat-flips a b h = ground arith

compare_nat-itself : (a : ℕ) → compare a a ≡ Ordering.eq
compare_nat-itself a = ground arith

compare_nat-chains :
    (a b c : ℕ) → compare a b ≡ Ordering.lt → compare b c ≡ Ordering.lt → compare a c ≡ Ordering.lt
compare_nat-chains a b c h h' = ground arith

pub compare_nat-IsOrder : IsOrder compare
compare_nat-IsOrder = record {
  same = compare_nat-same;
  itself = compare_nat-itself;
  flips = compare_nat-flips;
  chains = compare_nat-chains;
}

compare_int-same : (a b : ℤ) → compare_ℤ a b ≡ Ordering.eq → a ≡ b
compare_int-same a b h = ground arith

compare_int-flips : (a b : ℤ) → compare_ℤ a b ≡ Ordering.gt → compare_ℤ b a ≡ Ordering.lt
compare_int-flips a b h = ground arith

compare_int-itself : (a : ℤ) → compare_ℤ a a ≡ Ordering.eq
compare_int-itself a = ground arith

compare_int-chains :
    (a b c : ℤ)
    → compare_ℤ a b ≡ Ordering.lt
    → compare_ℤ b c ≡ Ordering.lt
    → compare_ℤ a c ≡ Ordering.lt
compare_int-chains a b c h h' = ground arith

pub compare_int-IsOrder : IsOrder compare_ℤ
compare_int-IsOrder = record {
  same = compare_int-same;
  itself = compare_int-itself;
  flips = compare_int-flips;
  chains = compare_int-chains;
}

then_cmp-eq : (x y : Ordering) → then_cmp x y ≡ Ordering.eq → (x ≡ Ordering.eq) × (y ≡ Ordering.eq)
then_cmp-eq x y h = ground arith

-- A comparison by a first and then by a second part.
module _ {ℓ κ} {A : Type ℓ} {B : Type κ} {f : A → A → Ordering} {g : B → B → Ordering}
    (o : IsOrder f) (o' : IsOrder g) where
  pair-same : (p q : A × B) → compare_pair f g p q ≡ Ordering.eq → p ≡ q
  pair-same (a, b) (a', b') h =
      let (e, e') = then_cmp-eq (f a a') (g b b') h in λ i. (o.same a a' e i, o'.same b b' e' i)

  pair-flips :
      (p q : A × B) → compare_pair f g p q ≡ Ordering.gt → compare_pair f g q p ≡ Ordering.lt
  pair-flips (a, b) (a', b') h =
      ground (arith, o.flips a a', o.same a a', o.itself a, o'.flips b b')

  pair-chains :
      (p q r : A × B)
      → compare_pair f g p q ≡ Ordering.lt
      → compare_pair f g q r ≡ Ordering.lt
      → compare_pair f g p r ≡ Ordering.lt
  pair-chains (a, b) (a', b') (a'', b'') h h' =
      ground (arith, o.chains a a' a'', o.same a a', o.same a' a'', o'.chains b b' b'')

  pub compare_pair-IsOrder : IsOrder (compare_pair f g)
  compare_pair-IsOrder = record {
    same = pair-same;
    itself = λ p. rw (o.itself p.0) (o'.itself p.1);
    flips = pair-flips;
    chains = pair-chains;
  }

-- A comparison by an injective key.
pub compare_by-IsOrder {ℓ κ} :
    {A : Type ℓ} {B : Type κ} {f : B → B → Ordering} (key : A → B)
    → ((a b : A) → key a ≡ key b → a ≡ b)
    → IsOrder f
    → IsOrder (λ a b. f (key a) (key b))
compare_by-IsOrder key injective o = record {
  same = λ a b h. injective a b (o.same (key a) (key b) h);
  itself = λ a. o.itself (key a);
  flips = λ a b h. o.flips (key a) (key b) h;
  chains = λ a b c h h'. o.chains (key a) (key b) (key c) h h';
}

compare_text-same : (s t : Text) → compare_text s t ≡ Ordering.eq → s ≡ t
unfolding compare_text
compare_text-same [] [] h = refl
compare_text-same [] (y ∷ ys) h = cc
compare_text-same (x ∷ xs) [] h = cc
compare_text-same (x ∷ xs) (y ∷ ys) h = ground (arith, compare_text-same xs ys)

compare_text-itself : (s : Text) → compare_text s s ≡ Ordering.eq
unfolding compare_text
compare_text-itself [] = refl
compare_text-itself (x ∷ xs) = ground (arith, compare_text-itself xs)

compare_text-flips : (s t : Text) → compare_text s t ≡ Ordering.gt → compare_text t s ≡ Ordering.lt
unfolding compare_text
compare_text-flips [] [] h = cc
compare_text-flips [] (y ∷ ys) h = cc
compare_text-flips (x ∷ xs) [] h = refl
compare_text-flips (x ∷ xs) (y ∷ ys) h = ground (arith, compare_text-flips xs ys)

compare_text-chains :
    (s t u : Text)
    → compare_text s t ≡ Ordering.lt
    → compare_text t u ≡ Ordering.lt
    → compare_text s u ≡ Ordering.lt
unfolding compare_text
compare_text-chains [] [] u h h' = cc
compare_text-chains [] (y ∷ ys) [] h h' = cc
compare_text-chains [] (y ∷ ys) (z ∷ zs) h h' = refl
compare_text-chains (x ∷ xs) [] u h h' = cc
compare_text-chains (x ∷ xs) (y ∷ ys) [] h h' = cc
compare_text-chains (x ∷ xs) (y ∷ ys) (z ∷ zs) h h' = ground (arith, compare_text-chains xs ys zs)

pub compare_text-IsOrder : IsOrder compare_text
compare_text-IsOrder = record {
  same = compare_text-same;
  itself = compare_text-itself;
  flips = compare_text-flips;
  chains = compare_text-chains;
}

-- Component by component, as paths compare.
unfoldable pub compare_list {ℓ} : {A : Type ℓ} → (A → A → Ordering) → List A → List A → Ordering
compare_list f [] [] = Ordering.eq
compare_list f [] (y ∷ ys) = Ordering.lt
compare_list f (x ∷ xs) [] = Ordering.gt
compare_list f (x ∷ xs) (y ∷ ys) = then_cmp (f x y) (compare_list f xs ys)

module _ {A : Type 0} {f : A → A → Ordering} (o : IsOrder f) where
  list-same : (s t : List A) → compare_list f s t ≡ Ordering.eq → s ≡ t
  unfolding compare_list
  list-same [] [] h = refl
  list-same [] (y ∷ ys) h = cc
  list-same (x ∷ xs) [] h = cc
  list-same (x ∷ xs) (y ∷ ys) h =
      let (e, e') = then_cmp-eq (f x y) (compare_list f xs ys) h in
      λ i. o.same x y e i ∷ list-same xs ys e' i

  list-itself : (s : List A) → compare_list f s s ≡ Ordering.eq
  unfolding compare_list
  list-itself [] = refl
  list-itself (x ∷ xs) = rw (o.itself x) (list-itself xs)

  list-flips : (s t : List A) → compare_list f s t ≡ Ordering.gt → compare_list f t s ≡ Ordering.lt
  unfolding compare_list
  list-flips [] [] h = cc
  list-flips [] (y ∷ ys) h = cc
  list-flips (x ∷ xs) [] h = refl
  list-flips (x ∷ xs) (y ∷ ys) h =
      ground (arith, o.flips x y, o.same x y, o.itself x, list-flips xs ys)

  list-chains :
      (s t u : List A)
      → compare_list f s t ≡ Ordering.lt
      → compare_list f t u ≡ Ordering.lt
      → compare_list f s u ≡ Ordering.lt
  unfolding compare_list
  list-chains [] [] u h h' = cc
  list-chains [] (y ∷ ys) [] h h' = cc
  list-chains [] (y ∷ ys) (z ∷ zs) h h' = refl
  list-chains (x ∷ xs) [] u h h' = cc
  list-chains (x ∷ xs) (y ∷ ys) [] h h' = cc
  list-chains (x ∷ xs) (y ∷ ys) (z ∷ zs) h h' =
      ground (arith, o.chains x y z, o.same x y, o.same y z, list-chains xs ys zs)

  pub compare_list-IsOrder : IsOrder (compare_list f)
  compare_list-IsOrder = record {
    same = list-same;
    itself = list-itself;
    flips = list-flips;
    chains = list-chains;
  }
