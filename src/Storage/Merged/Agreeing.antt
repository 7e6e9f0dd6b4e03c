-- ===== src/Storage/Merged/Agreeing.antt =====
-- When `merge_records` of crates/hypercarry-storage/src/dataset.rs succeeds.
use hypercarry.Base.{
  ◌≡◌, refl, sym, ap, ◌∙◌, ◌↔◌, inl, inr, Bool, true, false, Option, some, none, List, [], ◌∷◌,
  ◌++◌, In, if◌then◌else◌, arith,
}
use hypercarry.Base.Outcome.{Outcome, value, ◌>>=◌}
use hypercarry.Base.Ordered.{lookup, insert, values, lookup-All}
use hypercarry.Decimal.{Decimal}
use hypercarry.Storage.{
  SettledFundingRecord, DatasetError, Rows, compare_identity, compare_provenance,
  compare_identity-IsOrder, merge_row, merge_all, merge_records,
}
use hypercarry.Storage.Kept.{Agrees, eq_of}
use hypercarry.Base.Compare.{is_lt}
use hypercarry.Storage.Merged.{merged_rows, Sound, merge_row-Merges}

either :
    {A : Type 0} (b : Bool) (x y : A)
    → (z : A) × (◌≡◌ {A = Outcome DatasetError A} (if b then value x else value y) (value z))
either true x y = (x, refl)
either false x y = (y, refl)

module _ {Num : Type 0} ⦃d : Decimal Num⦄ where
  -- Records of one identity have the same market values.
  abbrev pub NoConflict : List (SettledFundingRecord Num) → Type 0
  NoConflict given =
      (c r : SettledFundingRecord Num)
      → In c given
      → In r given
      → c.identity ≡ r.identity
      → Agrees c r

  no_fault :
      (c r : SettledFundingRecord Num) (m : Rows Num)
      → Agrees c r
      → (m' : Rows Num) × (merge_row r (some c) m ≡ value m')
  unfolding merge_row
  no_fault c r m agrees = rw (eq_of c.funding_rate r.funding_rate agrees.0) (
      rw (eq_of c.premium r.premium agrees.1) (
        either (is_lt (compare_provenance r.provenance c.provenance))
          (insert compare_identity r.identity r m) m))

  merge_row_succeeds :
      (given : List (SettledFundingRecord Num)) (r : SettledFundingRecord Num) (m : Rows Num)
      (entry : Option (SettledFundingRecord Num))
      → NoConflict given
      → In r given
      → Sound given m
      → lookup compare_identity r.identity m ≡ entry
      → (m' : Rows Num) × (merge_row r entry m ≡ value m')
  unfolding merge_row
  merge_row_succeeds given r m none agree i s found = (_, refl)
  merge_row_succeeds given r m (some c) agree i s found = no_fault c r m (
      agree c r
        (lookup-All (λ e. In e.1 given) compare_identity-IsOrder r.identity c m s.from found) i
        (sym (
          lookup-All (λ e. e.0 ≡ e.1.identity) compare_identity-IsOrder r.identity c m s.keyed
            found)))

  merge_all_succeeds :
      (given todo : List (SettledFundingRecord Num)) (m : Rows Num)
      → NoConflict given
      → ((x : SettledFundingRecord Num) → In x todo → In x given)
      → Sound given m
      → (m' : Rows Num) × (merge_all todo m ≡ value m')
  unfolding merge_all
  merge_all_succeeds given [] m agree i s = (m, refl)
  merge_all_succeeds given (r ∷ todo) m agree i s =
      let (m1, e) =
        merge_row_succeeds given r m (lookup compare_identity r.identity m) agree (i r (inl refl)) s
          refl in
      let one = merge_row-Merges given r m m1 (i r (inl refl)) s e in
      let (m', e') = merge_all_succeeds given todo m1 agree (λ x i'. i x (inr i')) one.sound in
      (m', ap (λ o. o >>= λ n. merge_all todo n) e ∙ e')

  one_value : {A : Type 0} (a b : A) → Num → some a ≡ some b → a ≡ b
  one_value a b n h = ground arith

  succeeds :
      (existing incoming : List (SettledFundingRecord Num))
      → NoConflict (existing ++ incoming)
      → (rows : List (SettledFundingRecord Num)) × (merge_records existing incoming ≡ value rows)
  unfolding merge_records
  succeeds existing incoming agree =
      let (m, e) =
        merge_all_succeeds (existing ++ incoming) (existing ++ incoming) [] agree (λ x i. i)
          (record { sorted = tt; keyed = tt; from = tt }) in
      (values m, ap (λ o. o >>= λ rows. value (values rows)) e)

  agreeing :
      (existing incoming rows : List (SettledFundingRecord Num))
      → merge_records existing incoming ≡ value rows
      → NoConflict (existing ++ incoming)
  agreeing existing incoming rows h c r i j same =
      let (m, _, merges) = merged_rows existing incoming rows h in
      let (x, found, agrees, _) = merges.holds c i in
      let (y, found', agrees', _) = merges.holds r j in
      let e =
        one_value x y c.funding_rate
          (sym found ∙ ap (λ k. lookup compare_identity k m) same ∙ found') in
      (
        sym agrees.0 ∙ ap (λ z. d.units z.funding_rate) e ∙ agrees'.0,
        sym agrees.1 ∙ ap (λ z. d.units z.premium) e ∙ agrees'.1,
      )

  -- A merge succeeds exactly where all records of one identity have the same market values.
  pub merge_records_iff :
      (existing incoming : List (SettledFundingRecord Num))
      → NoConflict (existing ++ incoming) ↔ (
          (rows : List (SettledFundingRecord Num)) × (merge_records existing incoming ≡ value rows))
  merge_records_iff existing incoming =
      (succeeds existing incoming, λ (rows, h). agreeing existing incoming rows h)
