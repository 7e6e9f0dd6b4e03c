-- ===== src/Storage/Kept.antt =====
-- One record of `merge_records`, in crates/hypercarry-storage/src/dataset.rs: which row of its identity
-- the map keeps.
use Prim.Native.Nat.{Ordering}
use hypercarry.Base.{
  ◌≡◌, refl, sym, ap, subst, ◌∙◌, ◌⊎◌, inl, inr, Bool, true, false, not, ◌||◌, Option, some, none,
  All, if◌then◌else◌, arith,
}
use hypercarry.Base.Outcome.{value, fault, value-injective, if-value}
use hypercarry.Base.Compare.{is_lt}
use hypercarry.Base.Ordered.{lookup, insert, choose, lookup-insert}
use hypercarry.Decimal.{Decimal}
use hypercarry.Decimal.Order.{SameValue, eq_true}
use hypercarry.Storage.{
  SettledFundingIdentity, SettledFundingRecord, DatasetError, conflicting_duplicate, Rows,
  compare_identity, compare_provenance, compare_identity-IsOrder, compare_provenance-IsOrder,
  merge_row,
}

nothing : {A : Type 0} {a : A} → none ≡ some a → ⊥
nothing h = cc

refused : {A : Type 0} {e : DatasetError} {a : A} → fault e ≡ value a → ⊥
refused h = cc

one_value : {A : Type 0} {a b : A} → some a ≡ some b → a ≡ b
one_value h = ground arith

module _ {Num : Type 0} ⦃d : Decimal Num⦄ where
  -- The market values of two records are equal.
  abbrev pub Agrees : SettledFundingRecord Num → SettledFundingRecord Num → Type 0
  Agrees c r = SameValue c.funding_rate r.funding_rate × SameValue c.premium r.premium

  -- No later provenance, in the canonical order.
  abbrev pub NotAfter : SettledFundingRecord Num → SettledFundingRecord Num → Type 0
  NotAfter c r = is_lt (compare_provenance r.provenance c.provenance) ≡ false

  -- The row of a record's identity stands for it.
  abbrev pub Holds : SettledFundingRecord Num → Rows Num → Type 0
  Holds r m =
      (c : SettledFundingRecord Num) × (lookup compare_identity r.identity m ≡ some c)
      × Agrees c r
      × NotAfter c r

  -- Each row stands under its identity.
  abbrev pub Keyed : Rows Num → Type 0
  Keyed m = All (λ e. e.0 ≡ e.1.identity) m

  -- A later row is replaced by an earlier one of its identity and values, or one is added.
  abbrev pub Improves : SettledFundingRecord Num → Rows Num → Type 0
  Improves r m =
      (c : SettledFundingRecord Num)
      → lookup compare_identity r.identity m ≡ some c
      → Agrees c r × (is_lt (compare_provenance r.provenance c.provenance) ≡ true)

  same_market :
      (c r : SettledFundingRecord Num)
      → (not (d.eq c.funding_rate r.funding_rate) || not (d.eq c.premium r.premium)) ≡ false
      → Agrees c r
  same_market c r h =
      ground (arith, eq_true c.funding_rate r.funding_rate, eq_true c.premium r.premium)

  pub merge_row_cases :
      (r : SettledFundingRecord Num) (entry : Option (SettledFundingRecord Num)) (m m' : Rows Num)
      → lookup compare_identity r.identity m ≡ entry
      → merge_row r entry m ≡ value m'
      → ((m ≡ m') × Holds r m) ⊎ ((insert compare_identity r.identity r m ≡ m') × Improves r m)
  unfolding merge_row
  merge_row_cases r none m m' found h =
      inr (value-injective _ _ h, λ c h'. absurd (nothing (sym found ∙ h')))
  merge_row_cases r (some c) m m' found h =
      elim (if-value (not (d.eq c.funding_rate r.funding_rate) || not (d.eq c.premium r.premium)) _
        _ h) [
          | inl (_, h1) ↦ absurd (refused h1)
          | inr (same, h1) ↦
              elim (if-value (is_lt (compare_provenance r.provenance c.provenance)) _ _ h1) [
                | inl (less, h2) ↦ inr (
                  value-injective _ _ h2,
                  λ c' h'.
                      subst
                        (λ x.
                          Agrees x r
                          × (is_lt (compare_provenance r.provenance x.provenance) ≡ true))
                        (one_value (sym found ∙ h')) (same_market c r same, less),
                )
                | inr (more, h2) ↦
                    inl (value-injective _ _ h2, (c, found, same_market c r same, more))
              ]
        ]

  NotAfter-itself : (r : SettledFundingRecord Num) → NotAfter r r
  NotAfter-itself r = rw (compare_provenance-IsOrder.itself r.provenance) refl

  earlier :
      (r c x : SettledFundingRecord Num)
      → is_lt (compare_provenance r.provenance c.provenance) ≡ true
      → NotAfter c x
      → NotAfter r x
  earlier r c x h h' =
      ground (arith, compare_provenance-IsOrder.chains x.provenance r.provenance c.provenance)

  found_in :
      (i : SettledFundingIdentity) (r : SettledFundingRecord Num) (m : Rows Num) (order : Ordering)
      → compare_identity i r.identity ≡ order
      → lookup compare_identity i (insert compare_identity r.identity r m)
        ≡ choose order (lookup compare_identity i m) (some r) (lookup compare_identity i m)
  found_in i r m order e =
      lookup-insert compare_identity-IsOrder i r.identity r m
      ∙ ap (λ o. choose o (lookup compare_identity i m) (some r) (lookup compare_identity i m)) e

  -- The record that is put in stands for itself.
  pub insert-Holds :
      (r : SettledFundingRecord Num) (m : Rows Num)
      → Holds r (insert compare_identity r.identity r m)
  insert-Holds r m = (
    r,
    found_in r.identity r m Ordering.eq (compare_identity-IsOrder.itself r.identity),
    (refl, refl),
    NotAfter-itself r,
  )

  -- Those that had a row still have one.
  pub Holds-insert :
      (x r : SettledFundingRecord Num) (m : Rows Num)
      → Improves r m
      → Holds x m
      → Holds x (insert compare_identity r.identity r m)
  Holds-insert x r m improves (c, found, agrees, before) =
      at (compare_identity x.identity r.identity) refl
    where
      at :
          (order : Ordering)
          → compare_identity x.identity r.identity ≡ order
          → Holds x (insert compare_identity r.identity r m)
      at Ordering.lt e = (c, found_in x.identity r m Ordering.lt e ∙ found, agrees, before)
      at Ordering.gt e = (c, found_in x.identity r m Ordering.gt e ∙ found, agrees, before)
      at Ordering.eq e =
          let same = compare_identity-IsOrder.same x.identity r.identity e in
          let (agrees', less) =
            improves c (ap (λ i. lookup compare_identity i m) (sym same) ∙ found) in
          (
            r,
            found_in x.identity r m Ordering.eq e,
            (sym agrees'.0 ∙ agrees.0, sym agrees'.1 ∙ agrees.1),
            earlier r c x less before,
          )

  pub eq_of : (a b : Num) → SameValue a b → d.eq a b ≡ true
  eq_of a b h = ground (arith, d.eq_units a b)

  -- A record that has a row already changes nothing.
  pub merge_row-Holds :
      (r : SettledFundingRecord Num) (m : Rows Num)
      → Holds r m
      → merge_row r (lookup compare_identity r.identity m) m ≡ value m
  unfolding merge_row
  merge_row-Holds r m (c, found, agrees, before) = rw found (
      kept (d.eq c.funding_rate r.funding_rate) (d.eq c.premium r.premium)
        (is_lt (compare_provenance r.provenance c.provenance))
        (eq_of c.funding_rate r.funding_rate agrees.0) (eq_of c.premium r.premium agrees.1) before)
    where
      kept :
          (x y z : Bool)
          → x ≡ true
          → y ≡ true
          → z ≡ false
          → (if not x || not y
              then fault (conflicting_duplicate r.identity)
              else if z
              then value (insert compare_identity r.identity r m)
              else value m)
            ≡ value m
      kept x y z h h' h'' = ground arith
