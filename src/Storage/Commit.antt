-- ===== src/Storage/Commit.antt =====
-- `SettledFundingDataset::commit` of crates/hypercarry-storage/src/dataset.rs: the rows go to their
-- partitions, and the checkpoints advance after the last of these is written.
use hypercarry.Base.{
  ℕ, ◌+◌, ◌-◌, Bool, true, false, not, ◌&&◌, ◌||◌, Option, none, some, is_some, List, [], ◌∷◌,
  length, any, ◌==◌, if◌then◌else◌,
}
use hypercarry.Base.Int.{ℤ, eqb_ℤ}
use hypercarry.Base.Text.{Text, text_eq}
use hypercarry.Base.Outcome.{Outcome, value, ◌>>=◌, ◌>>◌, refuse}
use hypercarry.Base.Compare.{compare_text, compare_list}
use hypercarry.Base.Ordered.{Entries, lookup, insert}
use hypercarry.Decimal.{Decimal}
use hypercarry.Storage.{
  SettledFundingIdentity, IngestionProvenance, SettledFundingRecord, DatasetError, invalid_parquet,
  merge_records,
}
use hypercarry.Storage.Dataset.{
  PathBuf, CommitReport, Candidates, Files, Dataset, Committed, compare_path, network_eq,
  endpoint_eq, is_in, partition_directory, group_rows, add_candidates, replace_file,
  advance_checkpoint, and_next,
}

-- The rows of a partition before and after its merge.
abbrev pub Merge : Type 0 → Type 0
Merge Num = List (SettledFundingRecord Num) × List (SettledFundingRecord Num)

abbrev pub Totals : Type 0
Totals = CommitReport × Candidates

abbrev pub reads : Files → PathBuf → Bool → Outcome DatasetError (Unit {0})
reads files directory true = files.reads_partition directory
reads files directory false = value tt

abbrev pub fresh_report : ℕ → CommitReport
fresh_report n = record {
  input_rows = n;
  rows_added = 0;
  duplicates_collapsed = 0;
  partitions_written = 0;
  checkpoints_written = 0;
}

abbrev pub reported : CommitReport → ℕ → CommitReport
reported report n = record {
  input_rows = report.input_rows;
  rows_added = report.rows_added;
  duplicates_collapsed = report.duplicates_collapsed;
  partitions_written = report.partitions_written;
  checkpoints_written = n;
}

module _ {Num : Type 0} where
  abbrev pub rows_of : Option (List (SettledFundingRecord Num)) → List (SettledFundingRecord Num)
  rows_of none = []
  rows_of (some rows) = rows

  -- The rows of a partition's file, none where there is no file.
  abbrev pub stored_rows : PathBuf → Dataset Num → List (SettledFundingRecord Num)
  stored_rows directory s = rows_of (lookup compare_path directory s.partitions)

  -- `path.exists()`, of a test that finds a file that is there or does not.
  abbrev pub exists : Bool → PathBuf → Dataset Num → Bool
  exists finds directory s = finds && is_some (lookup compare_path directory s.partitions)

  -- The rows that are read, none where the file is not found.
  abbrev pub existing_rows : Files → PathBuf → Dataset Num → List (SettledFundingRecord Num)
  existing_rows files directory s =
      if files.finds_partition directory then stored_rows directory s else []

  abbrev pub store_partition : PathBuf → List (SettledFundingRecord Num) → Dataset Num → Dataset Num
  store_partition directory rows s = record {
    partitions = insert compare_path directory rows s.partitions;
    checkpoints = s.checkpoints;
  }

  -- The counts after one partition.
  abbrev pub counted :
      Merge Num → List (SettledFundingRecord Num) → Bool → CommitReport → CommitReport
  counted (existing, merged) incoming written report = record {
    input_rows = report.input_rows;
    rows_added = report.rows_added + (length merged - length existing);
    duplicates_collapsed =
        report.duplicates_collapsed + (length existing + length incoming - length merged);
    partitions_written =
        if written then report.partitions_written + 1 else report.partitions_written;
    checkpoints_written = report.checkpoints_written;
  }

abbrev pub identity_eq : SettledFundingIdentity → SettledFundingIdentity → Bool
identity_eq a b =
    network_eq a.network b.network
    && text_eq a.venue b.venue
    && text_eq a.coin b.coin
    && eqb_ℤ a.settlement_time b.settlement_time

abbrev provenance_eq : IngestionProvenance → IngestionProvenance → Bool
provenance_eq a b =
    endpoint_eq a.source_endpoint_class b.source_endpoint_class
    && eqb_ℤ a.ingestion_time b.ingestion_time
    && eqb_ℤ a.request_window.start b.request_window.start
    && eqb_ℤ a.request_window.end b.request_window.end
    && text_eq a.software_version b.software_version

module _ {Num : Type 0} ⦃d : Decimal Num⦄ where
  -- `==` of records and of lists of them
  abbrev pub record_eq : SettledFundingRecord Num → SettledFundingRecord Num → Bool
  record_eq a b =
      a.schema_version == b.schema_version
      && identity_eq a.identity b.identity
      && d.eq a.funding_rate b.funding_rate
      && d.eq a.premium b.premium
      && provenance_eq a.provenance b.provenance

  unfoldable pub rows_eq : List (SettledFundingRecord Num) → List (SettledFundingRecord Num) → Bool
  unfolding text_eq
  rows_eq [] [] = true
  rows_eq [] (b ∷ rest') = false
  rows_eq (a ∷ rest) [] = false
  rows_eq (a ∷ rest) (b ∷ rest') = record_eq a b && rows_eq rest rest'

  unfoldable pub merge_partition :
      Files
      → (ℤ → Option Text)
      → PathBuf
      → List (SettledFundingRecord Num)
      → Dataset Num
      → Outcome DatasetError (Merge Num)
  unfolding lookup compare_list compare_text partition_directory merge_records
  merge_partition files date directory incoming s = do
    reads files directory (exists (files.finds_partition directory) directory s)
    refuse
        (any (λ r. not (is_in (partition_directory date r) directory))
          (existing_rows files directory s))
        invalid_parquet
    merged ← merge_records (existing_rows files directory s) incoming
    value (existing_rows files directory s, merged)

  unfoldable pub write_partition : Files → PathBuf → Merge Num → Dataset Num → Committed Num Bool
  unfolding rows_eq lookup insert compare_list compare_text
  write_partition files directory (existing, merged) s =
      if not (exists (files.finds_partition_again directory) directory s)
        || not (rows_eq existing merged)
      then replace_file (files.writes_partition directory) (store_partition directory merged s) s
      else (s, value false)

  -- One partition of the loop.
  unfoldable pub commit_partition :
      Files
      → (ℤ → Option Text)
      → PathBuf
      → List (SettledFundingRecord Num)
      → Totals
      → Dataset Num
      → Committed Num Totals
  unfolding merge_partition write_partition add_candidates
  commit_partition files date directory incoming (report, candidates) s =
      and_next (s, merge_partition files date directory incoming s)
        λ s1 merge. and_next (write_partition files directory merge s1) λ s2 written.
          (s2, value (counted merge incoming written report, add_candidates merge.1 candidates))

  unfoldable pub commit_partitions :
      Files
      → (ℤ → Option Text)
      → Entries PathBuf (List (SettledFundingRecord Num))
      → Totals
      → Dataset Num
      → Committed Num Totals
  unfolding commit_partition
  commit_partitions files date [] totals s = (s, value totals)
  commit_partitions files date ((directory, incoming) ∷ rest) totals s =
      and_next (commit_partition files date directory incoming totals s)
        λ s' totals'. commit_partitions files date rest totals' s'

  -- The checkpoints, and how many were written.
  unfoldable pub commit_checkpoints : Files → Candidates → ℕ → Dataset Num → Committed Num ℕ
  unfolding advance_checkpoint
  commit_checkpoints files [] n s = (s, value n)
  commit_checkpoints files ((stream, c) ∷ rest) n s =
      and_next (advance_checkpoint files stream c s)
        λ s' advanced. commit_checkpoints files rest (if advanced then n + 1 else n) s'

  unfoldable pub commit :
      Files
      → (ℤ → Option Text)
      → List (SettledFundingRecord Num)
      → Dataset Num
      → Committed Num CommitReport
  unfolding group_rows commit_partitions commit_checkpoints
  commit files date records s =
      and_next (s, group_rows date records [])
        λ s0 groups.
          and_next (commit_partitions files date groups (fresh_report (length records), []) s0)
            λ s1 totals.
              and_next (commit_checkpoints files totals.1 0 s1)
                λ s2 n. (s2, value (reported totals.0 n))
