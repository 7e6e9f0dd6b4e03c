-- ===== src/Base/Ordered.antt =====
-- `BTreeMap` as a list of entries in the order of their keys.
use Prim.Native.Nat.{Ordering}
use mathlib.Core.Path.{◌≡◌, refl, sym, subst}
use mathlib.Core.Logic.{◌⊎◌, inl, inr}
use mathlib.Core.Option.{Option, none, some}
use mathlib.Core.List.{List, [], ◌∷◌, ◌++◌}
use native.Mathlib.Omega.{arith}
use hypercarry.Base.Lists.{All, In}
use hypercarry.Base.Compare.{IsOrder}

abbrev pub choose {ℓ} : {A : Type ℓ} → Ordering → A → A → A → A
choose Ordering.lt a b c = a
choose Ordering.eq a b c = b
choose Ordering.gt a b c = c

abbrev pub Entries : Type 0 → Type 0 → Type 0
Entries K V = List (K × V)

flipped :
    {K : Type 0} {cmp : K → K → Ordering} (o : IsOrder cmp) (k j : K)
    → cmp j k ≡ Ordering.lt
    → cmp k j ≡ Ordering.gt
flipped o k j h = ground (arith, o.chains k j k, o.itself k, o.same k j)

module _ {K V : Type 0} where
  -- `get`
  unfoldable pub lookup : (K → K → Ordering) → K → Entries K V → Option V
  lookup cmp k [] = none
  lookup cmp k ((j, v) ∷ rest) = choose (cmp k j) none (some v) (lookup cmp k rest)

  -- `insert`
  unfoldable pub insert : (K → K → Ordering) → K → V → Entries K V → Entries K V
  insert cmp k v [] = (k, v) ∷ []
  insert cmp k v ((j, w) ∷ rest) =
      choose (cmp k j) ((k, v) ∷ (j, w) ∷ rest) ((k, v) ∷ rest) ((j, w) ∷ insert cmp k v rest)

  -- `into_values`
  abbrev pub values : Entries K V → List V
  values [] = []
  values ((k, v) ∷ rest) = v ∷ values rest

  -- Every key is above a bound, and the keys strictly increase.
  abbrev pub Above : (K → K → Ordering) → K → Entries K V → Type 0
  Above cmp low m = All (λ e. cmp low e.0 ≡ Ordering.lt) m

  abbrev pub IsSorted : (K → K → Ordering) → Entries K V → Type 0
  IsSorted cmp [] = Unit {0}
  IsSorted cmp ((k, v) ∷ rest) = Above cmp k rest × IsSorted cmp rest

  module _ {cmp : K → K → Ordering} (o : IsOrder cmp) where
    Above-down : (j k : K) (m : Entries K V) → cmp j k ≡ Ordering.lt → Above cmp k m → Above cmp j m
    Above-down j k [] h a = tt
    Above-down j k ((i, v) ∷ rest) h a = (o.chains j k i h a.0, Above-down j k rest h a.1)

    insert-Above :
        (low k : K) (v : V) (m : Entries K V)
        → cmp low k ≡ Ordering.lt
        → Above cmp low m
        → Above cmp low (insert cmp k v m)
    unfolding insert
    insert-Above low k v [] h a = (h, tt)
    insert-Above low k v ((j, w) ∷ rest) h a = ground (arith, insert-Above low k v rest h)

    placed :
        (k j : K) (v w : V) (rest : Entries K V) (order : Ordering)
        → cmp k j ≡ order
        → IsSorted cmp ((j, w) ∷ rest)
        → IsSorted cmp (insert cmp k v rest)
        → IsSorted cmp
            (choose order ((k, v) ∷ (j, w) ∷ rest) ((k, v) ∷ rest) ((j, w) ∷ insert cmp k v rest))
    placed k j v w rest Ordering.lt e s ih = ((e, Above-down k j rest e s.0), s)
    placed k j v w rest Ordering.eq e s ih =
        (subst (λ x. Above cmp x rest) (sym (o.same k j e)) s.0, s.1)
    placed k j v w rest Ordering.gt e s ih = (insert-Above j k v rest (o.flips k j e) s.0, ih)

    pub insert-IsSorted :
        (k : K) (v : V) (m : Entries K V) → IsSorted cmp m → IsSorted cmp (insert cmp k v m)
    unfolding insert
    insert-IsSorted k v [] s = (tt, tt)
    insert-IsSorted k v ((j, w) ∷ rest) s =
        placed k j v w rest (cmp k j) refl s (insert-IsSorted k v rest s.1)

    pub lookup-insert :
        (i k : K) (v : V) (m : Entries K V)
        → lookup cmp i (insert cmp k v m)
          ≡ choose (cmp i k) (lookup cmp i m) (some v) (lookup cmp i m)
    unfolding lookup insert
    lookup-insert i k v [] = refl
    lookup-insert i k v ((j, w) ∷ rest) = ground (
      arith,
      lookup-insert i k v rest,
      o.chains i k j,
      o.chains i j k,
      o.chains j k i,
      o.chains k j i,
      o.flips k j,
      o.flips i j,
      o.flips i k,
      o.same i k,
      o.same k j,
      o.same i j,
      o.itself i,
    )

    pub lookup-Above : (k : K) (m : Entries K V) → Above cmp k m → lookup cmp k m ≡ none
    unfolding lookup
    lookup-Above k [] a = refl
    lookup-Above k ((j, v) ∷ rest) a = rw a.0 refl

    -- A key above all is added at the end, and is not found before.
    pub insert_last :
        (k : K) (v : V) (m : Entries K V)
        → All (λ e. cmp e.0 k ≡ Ordering.lt) m
        → (insert cmp k v m ≡ m ++ (k, v) ∷ []) × (lookup cmp k m ≡ none)
    unfolding lookup insert
    insert_last k v [] a = (refl, refl)
    insert_last k v ((j, w) ∷ rest) a =
        let (added, missing) = insert_last k v rest a.1 in
        rw (flipped o k j a.0) ((λ i. (j, w) ∷ added i), missing)

  pub insert-All {κ} :
      (P : K × V → Type κ) (cmp : K → K → Ordering) (k : K) (v : V) (m : Entries K V)
      → P (k, v)
      → All P m
      → All P (insert cmp k v m)
  unfolding insert
  insert-All P cmp k v [] p h = (p, tt)
  insert-All P cmp k v ((j, w) ∷ rest) p h = at (cmp k j) (insert-All P cmp k v rest p h.1)
    where
      at :
          (order : Ordering)
          → All P (insert cmp k v rest)
          → All P
              (choose order ((k, v) ∷ (j, w) ∷ rest) ((k, v) ∷ rest) ((j, w) ∷ insert cmp k v rest))
      at Ordering.lt ih = (p, h)
      at Ordering.eq ih = (p, h.1)
      at Ordering.gt ih = (h.0, ih)

  found_at :
      {cmp : K → K → Ordering} (o : IsOrder cmp) (k j : K) (v w : V) (rest : Entries K V)
      (order : Ordering)
      → cmp k j ≡ order
      → choose order none (some w) (lookup cmp k rest) ≡ some v
      → ((j ≡ k) × (w ≡ v)) ⊎ (lookup cmp k rest ≡ some v)
  found_at o k j v w rest Ordering.lt e h = cc
  found_at o k j v w rest Ordering.eq e h = inl (sym (o.same k j e), (ground arith))
  found_at o k j v w rest Ordering.gt e h = inr h

  -- What is found under a key is the value of an entry of that key.
  pub lookup-In :
      {cmp : K → K → Ordering} (o : IsOrder cmp) (k : K) (v : V) (m : Entries K V)
      → lookup cmp k m ≡ some v
      → In v (values m)
  unfolding lookup
  lookup-In o k v [] h = cc
  lookup-In {cmp = cmp} o k v ((j, w) ∷ rest) h = elim (found_at o k j v w rest (cmp k j) refl h) [
    | inl (_, same) ↦ inl same
    | inr later ↦ inr (lookup-In o k v rest later)
  ]

  pub lookup-All {κ} :
      (P : K × V → Type κ) {cmp : K → K → Ordering} (o : IsOrder cmp) (k : K) (v : V)
      (m : Entries K V)
      → All P m
      → lookup cmp k m ≡ some v
      → P (k, v)
  unfolding lookup
  lookup-All P o k v [] a h = absurd (nothing h)
    where
      nothing : {v : V} → none ≡ some v → ⊥
      nothing h = cc
  lookup-All P {cmp = cmp} o k v ((j, w) ∷ rest) a h =
      elim (found_at o k j v w rest (cmp k j) refl h) [
        | inl (key, same) ↦ subst P (λ i. (key i, same i)) a.0
        | inr later ↦ lookup-All P o k v rest a.1 later
      ]
