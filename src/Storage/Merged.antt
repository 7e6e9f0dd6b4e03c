-- ===== src/Storage/Merged.antt =====
-- What `merge_records` of crates/hypercarry-storage/src/dataset.rs makes of its rows, and of rows that
-- are merged again.
pub mod Agreeing
use Prim.Native.Nat.{Ordering}
use hypercarry.Base.{
  ◌≡◌, refl, sym, ap, subst, ◌∙◌, inl, inr, List, [], ◌∷◌, ◌++◌, In, All, All-split,
}
use hypercarry.Base.Outcome.{Outcome, panic, value, fault, ◌>>=◌, bind-value, value-injective}
use hypercarry.Base.Ordered.{
  lookup, insert, values, IsSorted, insert-IsSorted, insert-All, insert_last, lookup-In, lookup-All,
}
use hypercarry.Decimal.{Decimal}
use hypercarry.Storage.{
  SettledFundingIdentity, SettledFundingRecord, DatasetError, Rows, compare_identity,
  compare_identity-IsOrder, merge_row, merge_all, merge_records,
}
use hypercarry.Storage.Kept.{
  Agrees, NotAfter, Holds, Keyed, merge_row_cases, insert-Holds, Holds-insert, merge_row-Holds,
}

module _ {Num : Type 0} where
  append_nil : (m : Rows Num) → m ++ [] ≡ m
  append_nil [] = refl
  append_nil (e ∷ m) = λ i. e ∷ append_nil m i

  append_one :
      (m n : Rows Num) (e : SettledFundingIdentity × SettledFundingRecord Num)
      → (m ++ e ∷ []) ++ n ≡ m ++ e ∷ n
  append_one [] n e = refl
  append_one (e' ∷ m) n e = λ i. e' ∷ append_one m n e i

  -- In a sorted list the keys before an entry are below its key.
  sorted_before :
      (m n : Rows Num) (e : SettledFundingIdentity × SettledFundingRecord Num)
      → IsSorted compare_identity (m ++ e ∷ n)
      → All (λ x. compare_identity x.0 e.0 ≡ Ordering.lt) m
  sorted_before [] n e s = tt
  sorted_before ((k, v) ∷ m) n e s = (
    (All-split (λ x. compare_identity k x.0 ≡ Ordering.lt) m (e ∷ n) s.0).1.0,
    sorted_before m n e s.1,
  )

  -- Identities that strictly increase.
  abbrev pub IsAscending : List (SettledFundingRecord Num) → Type 0
  IsAscending [] = Unit {0}
  IsAscending (r ∷ rest) =
      All (λ x. compare_identity r.identity x.identity ≡ Ordering.lt) rest × IsAscending rest

  above_values :
      (k : SettledFundingIdentity) (m : Rows Num)
      → All (λ e. compare_identity k e.0 ≡ Ordering.lt) m
      → All (λ e. e.0 ≡ e.1.identity) m
      → All (λ x. compare_identity k x.identity ≡ Ordering.lt) (values m)
  above_values k [] h e = tt
  above_values k ((j, v) ∷ m) h e =
      (subst (λ i. compare_identity k i ≡ Ordering.lt) e.0 h.0, above_values k m h.1 e.1)

  values-IsAscending :
      (m : Rows Num)
      → IsSorted compare_identity m
      → All (λ e. e.0 ≡ e.1.identity) m
      → IsAscending (values m)
  values-IsAscending [] s e = tt
  values-IsAscending ((k, v) ∷ m) s e = (
    subst (λ i. All (λ x. compare_identity i x.identity ≡ Ordering.lt) (values m)) e.0
        (above_values k m s.0 e.1),
    values-IsAscending m s.1 e.1,
  )

  values_from :
      (P : SettledFundingRecord Num → Type 0) (m : Rows Num) → All (λ e. P e.1) m → All P (values m)
  values_from P [] h = tt
  values_from P ((k, v) ∷ m) h = (h.0, values_from P m h.1)

module _ {Num : Type 0} ⦃d : Decimal Num⦄ where
  -- What the map is throughout: sorted, keyed, and of given records.
  record Sound (given : List (SettledFundingRecord Num)) (m : Rows Num) : Type 0 where
    pub sorted : IsSorted compare_identity m
    pub keyed : Keyed m
    pub from : All (λ e. In e.1 given) m

  insert-Sound :
      (given : List (SettledFundingRecord Num)) (r : SettledFundingRecord Num) (m : Rows Num)
      → In r given
      → Sound given m
      → Sound given (insert compare_identity r.identity r m)
  insert-Sound given r m i s = record {
    sorted = insert-IsSorted compare_identity-IsOrder r.identity r m s.sorted;
    keyed = insert-All (λ e. e.0 ≡ e.1.identity) compare_identity r.identity r m refl s.keyed;
    from = insert-All (λ e. In e.1 given) compare_identity r.identity r m i s.from;
  }

  -- A step or more of the loop.
  record Merges (given done : List (SettledFundingRecord Num)) (m m' : Rows Num) : Type 0 where
    pub sound : Sound given m'
    pub keeps : (x : SettledFundingRecord Num) → Holds x m → Holds x m'
    pub holds : (x : SettledFundingRecord Num) → In x done → Holds x m'

  merge_row-Merges :
      (given : List (SettledFundingRecord Num)) (r : SettledFundingRecord Num) (m m' : Rows Num)
      → In r given
      → Sound given m
      → merge_row r (lookup compare_identity r.identity m) m ≡ value m'
      → Merges given (r ∷ []) m m'
  merge_row-Merges given r m m' i s h =
      elim (merge_row_cases r (lookup compare_identity r.identity m) m m' refl h) [
        | inl (same, held) ↦
            subst (Merges given (r ∷ []) m) same
              (record { sound = s; keeps = λ x h'. h'; holds = λ x i'. alone x i' m held })
        | inr (new, improves) ↦ subst (Merges given (r ∷ []) m) new (record {
          sound = insert-Sound given r m i s;
          keeps = λ x h'. Holds-insert x r m improves h';
          holds = λ x i'. alone x i' (insert compare_identity r.identity r m) (insert-Holds r m);
        })
      ]
    where
      alone :
          (x : SettledFundingRecord Num) → In x (r ∷ []) → (n : Rows Num) → Holds r n → Holds x n
      alone x (inl e) n held = subst (λ y. Holds y n) e held
      alone x (inr i') n held = absurd i'

  merge_all-Merges :
      (given todo : List (SettledFundingRecord Num)) (m m' : Rows Num)
      → ((x : SettledFundingRecord Num) → In x todo → In x given)
      → Sound given m
      → merge_all todo m ≡ value m'
      → Merges given todo m m'
  unfolding merge_all
  merge_all-Merges given [] m m' i s h =
      subst (Merges given [] m) (value-injective m m' h)
        (record { sound = s; keeps = λ x h'. h'; holds = λ x i'. absurd i' })
  merge_all-Merges given (r ∷ todo) m m' i s h =
      let (m1, e, h1) = bind-value (merge_row r (lookup compare_identity r.identity m) m) _ h in
      let one = merge_row-Merges given r m m1 (i r (inl refl)) s e in
      let more = merge_all-Merges given todo m1 m' (λ x i'. i x (inr i')) one.sound h1 in
      record {
        sound = more.sound;
        keeps = λ x h'. more.keeps x (one.keeps x h');
        holds = held one more;
      }
    where
      held :
          {m1 : Rows Num}
          → Merges given (r ∷ []) m m1
          → Merges given todo m1 m'
          → (x : SettledFundingRecord Num) → In x (r ∷ todo)
          → Holds x m'
      held one more x (inl e') = more.keeps x (one.holds x (inl e'))
      held one more x (inr i') = more.holds x i'

  -- What a merge of records promises.
  pub record IsMerged (given rows : List (SettledFundingRecord Num)) : Type 0 where
    pub ascending : IsAscending rows
    pub from : All (λ c. In c given) rows
    pub kept :
        (r : SettledFundingRecord Num)
        → In r given
        → (c : SettledFundingRecord Num) × In c rows
          × (c.identity ≡ r.identity)
          × Agrees c r
          × NotAfter c r

  -- The map behind a merge.
  merged_rows :
      (existing incoming rows : List (SettledFundingRecord Num))
      → merge_records existing incoming ≡ value rows
      → (m : Rows Num) × (values m ≡ rows)
        × Merges (existing ++ incoming) (existing ++ incoming) [] m
  unfolding merge_records
  merged_rows existing incoming rows h =
      let (m, e, h1) = bind-value (merge_all (existing ++ incoming) []) _ h in
      (
        m,
        value-injective _ _ h1,
        merge_all-Merges (existing ++ incoming) (existing ++ incoming) [] m (λ x i. i)
            (record { sorted = tt; keyed = tt; from = tt }) e,
      )

  -- The rows of a merge have strictly increasing identities, each is one of the given records, and each
  -- given record has a row of its identity with the same market values, whose provenance is no later in
  -- the canonical order.
  pub merge_records-IsMerged :
      (existing incoming rows : List (SettledFundingRecord Num))
      → merge_records existing incoming ≡ value rows
      → IsMerged (existing ++ incoming) rows
  merge_records-IsMerged existing incoming rows h =
      let (m, e, merges) = merged_rows existing incoming rows h in
      subst (IsMerged (existing ++ incoming)) e (record {
        ascending = values-IsAscending m merges.sound.sorted merges.sound.keyed;
        from = values_from (λ c. In c (existing ++ incoming)) m merges.sound.from;
        kept = λ r i. row r m merges.sound.keyed (merges.holds r i);
      })
    where
      row :
          (r : SettledFundingRecord Num) (m : Rows Num)
          → Keyed m
          → Holds r m
          → (c : SettledFundingRecord Num) × In c (values m)
            × (c.identity ≡ r.identity)
            × Agrees c r
            × NotAfter c r
      row r m keyed (c, found, agrees, before) = (
        c,
        lookup-In compare_identity-IsOrder r.identity c m found,
        sym (
            lookup-All (λ e. e.0 ≡ e.1.identity) compare_identity-IsOrder r.identity c m keyed
              found),
        agrees,
        before,
      )

  merge_all-held :
      (todo : List (SettledFundingRecord Num)) (m : Rows Num)
      → ((x : SettledFundingRecord Num) → In x todo → Holds x m)
      → merge_all todo m ≡ value m
  unfolding merge_all
  merge_all-held [] m h = refl
  merge_all-held (r ∷ todo) m h =
      ap (λ o. o >>= λ m'. merge_all todo m') (merge_row-Holds r m (h r (inl refl)))
      ∙ merge_all-held todo m (λ x i. h x (inr i))

  merge_all-append :
      (xs ys : List (SettledFundingRecord Num)) (m : Rows Num)
      → merge_all (xs ++ ys) m ≡ (merge_all xs m >>= λ m'. merge_all ys m')
  unfolding merge_all
  merge_all-append [] ys m = refl
  merge_all-append (r ∷ xs) ys m =
      at (merge_row r (lookup compare_identity r.identity m) m) (λ m'. merge_all-append xs ys m')
    where
      at :
          (o : Outcome DatasetError (Rows Num))
          → ((m' : Rows Num)
              → merge_all (xs ++ ys) m' ≡ (merge_all xs m' >>= λ m''. merge_all ys m''))
          → (o >>= λ m'. merge_all (xs ++ ys) m')
            ≡ ((o >>= λ m'. merge_all xs m') >>= λ m'. merge_all ys m')
      at panic rest = refl
      at (fault e) rest = refl
      at (value m') rest = rest m'

  added :
      (k : SettledFundingIdentity) (v : SettledFundingRecord Num) (m : Rows Num)
      → k ≡ v.identity
      → All (λ x. compare_identity x.0 k ≡ Ordering.lt) m
      → merge_row v (lookup compare_identity v.identity m) m ≡ value (m ++ (k, v) ∷ [])
  unfolding merge_row
  added k v m e below =
      let (last, missing) =
        insert_last compare_identity-IsOrder v.identity v m
          (subst (λ i. All (λ x. compare_identity x.0 i ≡ Ordering.lt) m) e below) in
      rw missing (ap value (last ∙ (λ i. m ++ (sym e i, v) ∷ [])))

  -- Sorted rows that are merged into no rows are those rows.
  refill :
      (acc m : Rows Num)
      → IsSorted compare_identity (acc ++ m)
      → Keyed m
      → merge_all (values m) acc ≡ value (acc ++ m)
  unfolding merge_all
  refill acc [] s e = ap value (sym (append_nil acc))
  refill acc ((k, v) ∷ m) s e =
      ap (λ o. o >>= λ m'. merge_all (values m) m')
        (added k v acc e.0 (sorted_before acc m (k, v) s))
      ∙ refill (acc ++ (k, v) ∷ []) m
          (subst (IsSorted compare_identity) (sym (append_one acc m (k, v))) s) e.1
      ∙ ap value (append_one acc m (k, v))

  -- Merging again any of the records that made the rows changes nothing.
  pub merge_records_replayed :
      (existing incoming rows replayed : List (SettledFundingRecord Num))
      → merge_records existing incoming ≡ value rows
      → ((r : SettledFundingRecord Num) → In r replayed → In r (existing ++ incoming))
      → merge_records rows replayed ≡ value rows
  unfolding merge_records
  merge_records_replayed existing incoming rows replayed h inside =
      let (m, e, merges) = merged_rows existing incoming rows h in
      subst (λ xs. merge_records xs replayed ≡ value xs) e
        (ap (λ o. o >>= λ m'. value (values m'))
          (merge_all-append (values m) replayed []
            ∙ ap (λ o. o >>= λ m'. merge_all replayed m')
                (refill [] m merges.sound.sorted merges.sound.keyed)
            ∙ merge_all-held replayed m (λ x i. merges.holds x (inside x i))))
