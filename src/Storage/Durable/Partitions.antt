-- ===== src/Storage/Durable/Partitions.antt =====
-- The merge and the write of one partition, in crates/hypercarry-storage/src/dataset.rs.
use hypercarry.Base.{
  ◌≡◌, refl, sym, ap, subst, ◌∙◌, inl, inr, Bool, true, false, not, ◌&&◌, ◌||◌, Option, some, none,
  is_some, any, List, [], ◌∷◌, ◌++◌, In, if◌then◌else◌, arith, and_true,
}
use hypercarry.Base.Int.{ℤ, eqb_ℤ}
use hypercarry.Base.Text.{Text, text_eq_sound}
use hypercarry.Base.Outcome.{value, bind-value, refuse-value, value-injective}
use hypercarry.Base.Ordered.{lookup}
use hypercarry.Decimal.{Decimal}
use hypercarry.Storage.{
  Network, SettledFundingIdentity, SettledFundingRecord, invalid_parquet, merge_records,
}
use hypercarry.Storage.Merged.{IsMerged, merge_records-IsMerged}
use hypercarry.Storage.Dataset.{
  PathBuf, Files, Dataset, compare_path, network_eq, is_in, partition_directory, replace_file,
}
use hypercarry.Storage.Commit.{
  Merge, reads, existing_rows, stored_rows, rows_of, identity_eq, record_eq, exists,
  store_partition, rows_eq, merge_partition, write_partition,
}
use hypercarry.Storage.Durable.{
  HasRow, Keeps, Keeps-refl, Ends, Covers, store_partition-HasRow, store_partition-Keeps,
  replace_file-Ends,
}
use hypercarry.Storage.Durable.Groups.{append_left}

network_eq_sound : (a b : Network) → network_eq a b ≡ true → a ≡ b
network_eq_sound a b h = ground arith

time_eq_sound : (a b : ℤ) → eqb_ℤ a b ≡ true → a ≡ b
time_eq_sound a b h = ground arith

four :
    (a b c d : Bool) → (a && b && c && d) ≡ true → (a ≡ true) × (b ≡ true) × (c ≡ true) × (d ≡ true)
four a b c d h = ground arith

second : (a b c d e : Bool) → (a && b && c && d && e) ≡ true → b ≡ true
second a b c d e h = ground arith

identity_eq_sound : (a b : SettledFundingIdentity) → identity_eq a b ≡ true → a ≡ b
identity_eq_sound a b h =
    let (network, venue, coin, time) = four _ _ _ _ h in
    λ i. record {
      network = network_eq_sound a.network b.network network i;
      venue = text_eq_sound a.venue b.venue venue i;
      coin = text_eq_sound a.coin b.coin coin i;
      settlement_time = time_eq_sound a.settlement_time b.settlement_time time i;
    }

-- The first test for a partition finds each that is there.
abbrev pub Finds : Files → Type 0
Finds files = (directory : PathBuf) → files.finds_partition directory ≡ true

module _ {Num : Type 0} ⦃d : Decimal Num⦄ where
  -- Lists that compare equal have the same identities.
  record_eq-identity :
      (a b : SettledFundingRecord Num) → record_eq a b ≡ true → a.identity ≡ b.identity
  record_eq-identity a b h = identity_eq_sound a.identity b.identity (second _ _ _ _ _ h)

  rows_eq-Covers : (xs ys : List (SettledFundingRecord Num)) → rows_eq xs ys ≡ true → Covers xs ys
  unfolding rows_eq
  rows_eq-Covers [] [] h r i = absurd i
  rows_eq-Covers [] (b ∷ ys) h r i = cc
  rows_eq-Covers (a ∷ xs) [] h r i = absurd i
  rows_eq-Covers (a ∷ xs) (b ∷ ys) h r (inl e) = (
    a,
    inl refl,
    record_eq-identity a b (and_true (record_eq a b) (rows_eq xs ys) h).0 ∙ ap (λ x. x.identity) e,
  )
  rows_eq-Covers (a ∷ xs) (b ∷ ys) h r (inr i) =
      let (c, inside, e) =
        rows_eq-Covers xs ys (and_true (record_eq a b) (rows_eq xs ys) h).1 r i in
      (c, inr inside, e)

  -- What the merge of a partition gives.
  abbrev pub Promised : PathBuf → List (SettledFundingRecord Num) → Dataset Num → Merge Num → Type 0
  Promised directory incoming s merge =
      (stored_rows directory s ≡ merge.0) × IsMerged (stored_rows directory s ++ incoming) merge.1

  -- What is read of a partition that is found if it is there.
  found_rows :
      (files : Files) (directory : PathBuf) (s : Dataset Num)
      → files.finds_partition directory ≡ true
      → existing_rows files directory s ≡ stored_rows directory s
  found_rows files directory s h = ap (λ b. if b then stored_rows directory s else []) h

  pub merge_partition-Promised :
      (files : Files) (date : ℤ → Option Text) (directory : PathBuf)
      (incoming : List (SettledFundingRecord Num)) (s : Dataset Num) (merge : Merge Num)
      → files.finds_partition directory ≡ true
      → merge_partition files date directory incoming s ≡ value merge
      → Promised directory incoming s merge
  unfolding merge_partition
  merge_partition-Promised files date directory incoming s merge finds h =
      let (_, _, h1) =
        bind-value (reads files directory (exists (files.finds_partition directory) directory s)) _
          h in
      let (_, h2) =
        refuse-value
          (any (λ r. not (is_in (partition_directory date r) directory))
            (existing_rows files directory s))
          invalid_parquet _ h1 in
      let (merged, e, h3) =
        bind-value (merge_records (existing_rows files directory s) incoming) _ h2 in
      subst (Promised directory incoming s) (value-injective _ _ h3) (
        sym (found_rows files directory s finds),
        subst (λ rows. IsMerged (rows ++ incoming) merged) (found_rows files directory s finds)
            (merge_records-IsMerged (existing_rows files directory s) incoming merged e),
      )

  -- The merged rows cover the ones before, and the new ones.
  pub IsMerged-Covers :
      (given rows : List (SettledFundingRecord Num)) → IsMerged given rows → Covers rows given
  IsMerged-Covers given rows m r i = let (c, inside, e, _, _) = m.kept r i in (c, inside, e)

  -- The rows of a partition are there.
  abbrev pub AllThere : List (SettledFundingRecord Num) → Dataset Num → Type 0
  AllThere rows s = (c : SettledFundingRecord Num) → In c rows → HasRow s c.identity

  unwritten :
      (finds : Bool) (directory : PathBuf) (s : Dataset Num)
      (entry : Option (List (SettledFundingRecord Num)))
      → lookup compare_path directory s.partitions ≡ entry
      → (merged : List (SettledFundingRecord Num))
      → (not (finds && is_some entry) || not (rows_eq (rows_of entry) merged)) ≡ false
      → AllThere merged s
  unwritten finds directory s none found merged h c i = absurd (ground arith)
  unwritten finds directory s (some rows) found merged h c i =
      let (r, inside, e) = rows_eq-Covers rows merged (ground arith) c i in
      (directory, rows, r, found, inside, e)

  pub write_partition-Ends :
      (files : Files) (directory : PathBuf) (incoming : List (SettledFundingRecord Num))
      (s : Dataset Num) (merged : List (SettledFundingRecord Num))
      → IsMerged (stored_rows directory s ++ incoming) merged
      → Ends
          (Keeps s)
          (λ t b. AllThere merged t)
          (write_partition files directory (stored_rows directory s, merged) s)
  unfolding write_partition
  write_partition-Ends files directory incoming s merged m =
      at
        (not (exists (files.finds_partition_again directory) directory s)
          || not (rows_eq (stored_rows directory s) merged))
        refl
    where
      kept : Keeps s (store_partition directory merged s)
      kept =
          store_partition-Keeps directory merged s (λ r i.
            IsMerged-Covers _ merged m r (append_left r (stored_rows directory s) incoming i))

      at :
          (b : Bool)
          → (not (exists (files.finds_partition_again directory) directory s)
              || not (rows_eq (stored_rows directory s) merged))
            ≡ b
          → Ends
              (Keeps s)
              (λ t b'. AllThere merged t)
              (if b
                then replace_file
                    (files.writes_partition directory)
                    (store_partition directory merged s)
                    s
                else (s, value false))
      at true e =
          let (keeps, stored) =
            replace_file-Ends (Keeps s) (files.writes_partition directory)
              (store_partition directory merged s) s kept (Keeps-refl s) in
          (
            keeps,
            λ b h.
                subst (AllThere merged) (sym (stored b h))
                  (λ c i. store_partition-HasRow directory merged s c i),
          )
      at false e = (
        Keeps-refl s,
        λ b h.
            unwritten (files.finds_partition_again directory) directory s
              (lookup compare_path directory s.partitions) refl merged e,
      )
