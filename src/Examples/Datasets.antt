-- ===== src/Examples/Datasets.antt =====
-- Rows of crates/hypercarry-storage that are merged: a later copy of a row, and a conflicting one.
use hypercarry.Base.{
  true, false, ◌↔◌, ℕ, Option, some, ◌≡◌, refl, List, [], ◌∷◌, ◌++◌, In, inl, inr,
}
use hypercarry.Base.Int.{ℤ, pos}
use hypercarry.Base.Text.{Text, codes}
use hypercarry.Base.Outcome.{value, fault}
use hypercarry.Base.Compare.{compare_text}
use hypercarry.Base.Ordered.{lookup, insert}
use hypercarry.Decimal.Fixed.{Fixed, fixed, cents}
use hypercarry.Storage.{
  io, mainnet, official, development, SourceEndpointClass, SettledFundingRecord,
  conflicting_duplicate, compare_identity, compare_provenance, merge_row, merge_all, merge_records,
}
use hypercarry.Storage.Dataset.{Files, Dataset, written, unsynced}
use hypercarry.Storage.Commit.{commit}
use hypercarry.Storage.Durable.Commits.{IsDurable, commit-IsDurable}
use hypercarry.Storage.Merged.Agreeing.{NoConflict, merge_records_iff}
use hypercarry.Storage.Merged.{IsMerged, merge_records-IsMerged, merge_records_replayed}

abbrev row_of : ℕ → ℕ → ℕ → SourceEndpointClass → SettledFundingRecord Fixed
row_of hour rate ingested source = record {
  schema_version = 1;
  identity = record {
    network = mainnet;
    venue = codes "hl";
    coin = codes "BTC";
    settlement_time = pos hour;
  };
  funding_rate = cents rate;
  premium = cents 1;
  provenance = record {
    source_endpoint_class = source;
    ingestion_time = pos ingested;
    request_window = record { start = pos 0; end = pos 9 };
    software_version = codes "1";
  };
}

abbrev existing_1 : List (SettledFundingRecord Fixed)
existing_1 = row_of 2 5 20 development ∷ []

abbrev incoming_1 : List (SettledFundingRecord Fixed)
incoming_1 =
    row_of 3 6 30 official
    ∷ row_of 2 5 20 official
    ∷ row_of 1 4 40 official
    ∷ row_of 3 6 31 official
    ∷ []

abbrev rows_1 : List (SettledFundingRecord Fixed)
rows_1 = row_of 1 4 40 official ∷ row_of 2 5 20 official ∷ row_of 3 6 30 official ∷ []

merged : merge_records existing_1 incoming_1 ≡ value rows_1
unfolding fixed merge_records merge_all merge_row lookup insert compare_identity compare_provenance
    compare_text
merged = refl

conflicting :
    merge_records existing_1 (row_of 2 6 20 development ∷ [])
    ≡ fault (conflicting_duplicate (row_of 2 6 20 development).identity)
unfolding fixed merge_records merge_all merge_row lookup insert compare_identity compare_provenance
    compare_text
conflicting = refl

merge_records-IsMerged_example : IsMerged (existing_1 ++ incoming_1) rows_1
merge_records-IsMerged_example = merge_records-IsMerged existing_1 incoming_1 rows_1 merged

merge_records_iff_example : NoConflict (existing_1 ++ incoming_1) ↔ (
    (rows : List (SettledFundingRecord Fixed)) × (merge_records existing_1 incoming_1 ≡ value rows))
merge_records_iff_example = merge_records_iff existing_1 incoming_1

-- The row of hour 2 is fetched again.
again :
    (r : SettledFundingRecord Fixed)
    → In r (row_of 2 5 20 official ∷ [])
    → In r (existing_1 ++ incoming_1)
again r (inl e) = inr (inr (inl e))
again r (inr i) = absurd i

merge_records_replayed_example : merge_records rows_1 (row_of 2 5 20 official ∷ []) ≡ value rows_1
merge_records_replayed_example =
    merge_records_replayed existing_1 incoming_1 rows_1 (row_of 2 5 20 official ∷ []) merged again

-- Every file is written, but the checkpoint of the stream is not synchronized.
abbrev files_1 : Files
files_1 = record {
  finds_partition = λ path. true;
  finds_partition_again = λ path. true;
  finds_checkpoint = λ path. true;
  reads_partition = λ path. value tt;
  writes_partition = λ path. written;
  reads_checkpoint = λ path. value tt;
  writes_checkpoint = λ path. unsynced io;
}

abbrev one_day : ℤ → Option Text
one_day time = some (codes "1970-01-01")

abbrev empty_dataset : Dataset Fixed
empty_dataset = record { partitions = []; checkpoints = [] }

abbrev files_2 : Files
files_2 = record {
  finds_partition = λ path. true;
  finds_partition_again = λ path. true;
  finds_checkpoint = λ path. true;
  reads_partition = λ path. value tt;
  writes_partition = λ path. written;
  reads_checkpoint = λ path. value tt;
  writes_checkpoint = λ path. written;
}

-- Five rows, of which two copies are collapsed, in one partition of one stream.
committed :
    (commit files_2 one_day (existing_1 ++ incoming_1) empty_dataset).1
    ≡ value (record {
      input_rows = 5;
      rows_added = 3;
      duplicates_collapsed = 2;
      partitions_written = 1;
      checkpoints_written = 1;
    })
unfolding fixed commit
committed = refl

commit-IsDurable_example :
    IsDurable
      (existing_1 ++ incoming_1)
      empty_dataset
      (commit files_1 one_day (existing_1 ++ incoming_1) empty_dataset)
commit-IsDurable_example =
    commit-IsDurable files_1 one_day (existing_1 ++ incoming_1) empty_dataset (λ directory. refl)

-- A partition whose metadata cannot be read the first time is taken for missing, and replaced.
abbrev files_3 : Files
files_3 = record files_2 { finds_partition = λ path. false }

abbrev dataset_1 : Dataset Fixed
dataset_1 = (commit files_2 one_day existing_1 empty_dataset).0

lost :
    (commit files_3 one_day (row_of 3 6 30 official ∷ []) dataset_1).0.partitions
    ≡ (commit files_2 one_day (row_of 3 6 30 official ∷ []) empty_dataset).0.partitions
unfolding fixed commit
lost = refl
