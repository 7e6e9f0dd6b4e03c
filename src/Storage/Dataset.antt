-- ===== src/Storage/Dataset.antt =====
-- The partitions and the checkpoints of a dataset of crates/hypercarry-storage/src/dataset.rs. A file
-- is read as it was written (its decimals perhaps at another scale), unless its read fails or it is
-- not found; a write that fails has left the file as it was or, where only the synchronization after
-- the rename failed, replaced it (`AtomicFile`). The date of a time (the crate chrono) is a parameter.
use Prim.Native.Nat.{Ordering}
use hypercarry.Base.{
  ℕ, ◌+◌, ◌-◌, ◌/◌, ◌%◌, Bool, true, false, ◌&&◌, ◌||◌, Option, none, some, List, [], ◌∷◌, ◌++◌,
  ltb, ◌==◌, if◌then◌else◌,
}
use hypercarry.Base.Int.{ℤ, leb_ℤ, ltb_ℤ}
use hypercarry.Base.Text.{Text, codes, text_eq, as_bytes, is_ascii_alphanumeric}
use hypercarry.Base.Outcome.{Outcome, panic, fault, value, ◌>>=◌, ◌>>◌, or_fault, ensure}
use hypercarry.Base.Compare.{compare_text, compare_list, compare_pair}
use hypercarry.Base.Ordered.{Entries, lookup, insert}
use hypercarry.Storage.{
  Network, mainnet, testnet, network_as_str, SourceEndpointClass, official, development,
  SettledFundingRecord, DatasetError, contract, invalid_checkpoint,
}

abbrev pub PathBuf : Type 0
PathBuf = List Text

abbrev upper_hex : ℕ → ℕ
upper_hex n = if ltb n 10 then b'0' + n else b'A' + (n - 10)

abbrev encode_bytes : List ℕ → Text
encode_bytes [] = []
encode_bytes (b ∷ rest) =
    if is_ascii_alphanumeric b || b == b'-' || b == b'_' || b == b'.'
    then b ∷ encode_bytes rest
    else b'%' ∷ upper_hex (b / 16) ∷ upper_hex (b % 16) ∷ encode_bytes rest

unfoldable pub encode_partition_value : Text → Text
unfolding as_bytes
encode_partition_value s = encode_bytes (as_bytes s)

pub record StreamIdentity : Type 0 where
  pub network : Network
  pub venue : Text
  pub coin : Text

pub record CheckpointCandidate : Type 0 where
  pub last_settlement_time_ms : ℤ
  pub software_version : Text

pub record ResumeCheckpoint : Type 0 where
  pub schema_version : ℕ
  pub network : Network
  pub venue : Text
  pub coin : Text
  pub last_settlement_time_ms : ℤ
  pub software_version : Text

pub record CommitReport : Type 0 where
  pub input_rows : ℕ
  pub rows_added : ℕ
  pub duplicates_collapsed : ℕ
  pub partitions_written : ℕ
  pub checkpoints_written : ℕ

-- The components of a stream's directory below the root.
unfoldable pub stream_directory : StreamIdentity → PathBuf
unfolding encode_partition_value
stream_directory s =
    codes "settled_funding"
    ∷ codes "schema_version=1"
    ∷ (codes "network=" ++ network_as_str s.network)
    ∷ (codes "venue=" ++ encode_partition_value s.venue)
    ∷ (codes "coin=" ++ encode_partition_value s.coin)
    ∷ []

abbrev pub stream_key : StreamIdentity → Text × (Text × Text)
stream_key s = (network_as_str s.network, (s.venue, s.coin))

-- `Ord for StreamIdentity`
unfoldable pub compare_stream : StreamIdentity → StreamIdentity → Ordering
unfolding compare_text
compare_stream a b =
    compare_pair compare_text (compare_pair compare_text compare_text) (stream_key a) (stream_key b)

abbrev pub compare_path : PathBuf → PathBuf → Ordering
compare_path a b = compare_list compare_text a b

abbrev path_eq : PathBuf → PathBuf → Bool
path_eq [] [] = true
path_eq [] (y ∷ ys) = false
path_eq (x ∷ xs) [] = false
path_eq (x ∷ xs) (y ∷ ys) = text_eq x y && path_eq xs ys

abbrev pub network_eq : Network → Network → Bool
network_eq mainnet mainnet = true
network_eq mainnet testnet = false
network_eq testnet mainnet = false
network_eq testnet testnet = true

abbrev pub endpoint_eq : SourceEndpointClass → SourceEndpointClass → Bool
endpoint_eq official official = true
endpoint_eq official development = false
endpoint_eq development official = false
endpoint_eq development development = true

abbrev pub Candidates : Type 0
Candidates = Entries StreamIdentity CheckpointCandidate

-- How a write of a file ends.
pub data Write : Type 0 where
  written : Write
  not_written unsynced : DatasetError → Write

-- What the tests, reads and writes of the files give. `Path::exists` is true where the file is there
-- and its metadata can be read; a commit tests a partition twice.
pub record Files : Type 0 where
  pub finds_partition : PathBuf → Bool
  pub finds_partition_again : PathBuf → Bool
  pub finds_checkpoint : PathBuf → Bool
  pub reads_partition : PathBuf → Outcome DatasetError (Unit {0})
  pub writes_partition : PathBuf → Write
  pub reads_checkpoint : PathBuf → Outcome DatasetError (Unit {0})
  pub writes_checkpoint : PathBuf → Write

abbrev pub is_in : Option PathBuf → PathBuf → Bool
is_in none directory = false
is_in (some path) directory = path_eq path directory

-- `entry(..).and_modify(..).or_insert(..)`
unfoldable pub put_candidate :
    StreamIdentity → CheckpointCandidate → Option CheckpointCandidate → Candidates → Candidates
unfolding insert compare_stream
put_candidate stream c none m = insert compare_stream stream c m
put_candidate stream c (some current) m =
    if ltb_ℤ current.last_settlement_time_ms c.last_settlement_time_ms
    then insert compare_stream stream c m
    else m

-- The checks of `resume_checkpoint` on the file that it finds.
abbrev check_checkpoint :
    Files
    → StreamIdentity
    → Option ResumeCheckpoint
    → Outcome DatasetError (Option ResumeCheckpoint)
check_checkpoint files stream none = value none
check_checkpoint files stream (some cp) = do
  files.reads_checkpoint (stream_directory stream)
  ensure
      (cp.schema_version == 1
        && network_eq cp.network stream.network
        && text_eq cp.venue stream.venue
        && text_eq cp.coin stream.coin)
      invalid_checkpoint
  value (some cp)

abbrev pub is_stale : Option ResumeCheckpoint → CheckpointCandidate → Bool
is_stale none c = false
is_stale (some cp) c = leb_ℤ c.last_settlement_time_ms cp.last_settlement_time_ms

abbrev pub checkpoint_of : StreamIdentity → CheckpointCandidate → ResumeCheckpoint
checkpoint_of stream c = record {
  schema_version = 1;
  network = stream.network;
  venue = stream.venue;
  coin = stream.coin;
  last_settlement_time_ms = c.last_settlement_time_ms;
  software_version = c.software_version;
}

module _ {Num : Type 0} where
  abbrev pub stream_of : SettledFundingRecord Num → StreamIdentity
  stream_of r = record {
    network = r.identity.network;
    venue = r.identity.venue;
    coin = r.identity.coin;
  }

  -- The directory of a record below the root.
  unfoldable pub partition_directory : (ℤ → Option Text) → SettledFundingRecord Num → Option PathBuf
  unfolding stream_directory
  partition_directory date r = elim (date r.identity.settlement_time) [
    | none ↦ none
    | some day ↦ some (stream_directory (stream_of r) ++ (codes "settlement_date_utc=" ++ day) ∷ [])
  ]

  -- `entry(..).or_default().push(..)`
  abbrev pub push_row :
      SettledFundingRecord Num
      → Option (List (SettledFundingRecord Num))
      → List (SettledFundingRecord Num)
  push_row r none = r ∷ []
  push_row r (some rows) = rows ++ r ∷ []

  unfoldable pub group_rows :
      (ℤ → Option Text)
      → List (SettledFundingRecord Num)
      → Entries PathBuf (List (SettledFundingRecord Num))
      → Outcome DatasetError (Entries PathBuf (List (SettledFundingRecord Num)))
  unfolding partition_directory lookup insert compare_list compare_text
  group_rows date [] groups = value groups
  group_rows date (r ∷ rest) groups = do
    directory ← or_fault (partition_directory date r) contract
    group_rows date rest
        (insert compare_path directory (push_row r (lookup compare_path directory groups)) groups)

  abbrev pub candidate_of : SettledFundingRecord Num → CheckpointCandidate
  candidate_of r = record {
    last_settlement_time_ms = r.identity.settlement_time;
    software_version = r.provenance.software_version;
  }

  unfoldable pub add_candidates : List (SettledFundingRecord Num) → Candidates → Candidates
  unfolding put_candidate lookup compare_stream
  add_candidates [] m = m
  add_candidates (r ∷ rest) m =
      add_candidates rest
        (put_candidate (stream_of r) (candidate_of r) (lookup compare_stream (stream_of r) m) m)

-- The files `data.parquet` by the directory of their partition, and `_checkpoint.json` by that of
-- their stream.
pub record Dataset (Num : Type 0) : Type 0 where
  pub partitions : Entries PathBuf (List (SettledFundingRecord Num))
  pub checkpoints : Entries PathBuf ResumeCheckpoint

-- What a step leaves behind, and what it gives.
abbrev pub Committed : Type 0 → Type 0 → Type 0
Committed Num A = Dataset Num × Outcome DatasetError A

module _ {Num : Type 0} where
  -- `?` on the result of a step.
  abbrev pub and_next :
      {A B : Type 0} → Committed Num A → (Dataset Num → A → Committed Num B) → Committed Num B
  and_next (s, panic) next = (s, panic)
  and_next (s, fault e) next = (s, fault e)
  and_next (s, value a) next = next s a

  -- The dataset with the file replaced, and without.
  abbrev pub replace_file : Write → Dataset Num → Dataset Num → Committed Num Bool
  replace_file written new old = (new, value true)
  replace_file (not_written e) new old = (old, fault e)
  replace_file (unsynced e) new old = (new, fault e)

  unfoldable pub resume_checkpoint :
      Files → StreamIdentity → Dataset Num → Outcome DatasetError (Option ResumeCheckpoint)
  unfolding stream_directory lookup compare_list compare_text
  resume_checkpoint files stream s =
      let found = lookup compare_path (stream_directory stream) s.checkpoints in
      check_checkpoint files stream
        (if files.finds_checkpoint (stream_directory stream) then found else none)

  abbrev pub store_checkpoint : PathBuf → ResumeCheckpoint → Dataset Num → Dataset Num
  store_checkpoint path cp s = record {
    partitions = s.partitions;
    checkpoints = insert compare_path path cp s.checkpoints;
  }

  unfoldable pub advance_checkpoint :
      Files → StreamIdentity → CheckpointCandidate → Dataset Num → Committed Num Bool
  unfolding resume_checkpoint stream_directory insert compare_list compare_text
  advance_checkpoint files stream c s =
      and_next (s, resume_checkpoint files stream s)
        λ s' existing.
          if is_stale existing c
          then (s', value false)
          else replace_file (files.writes_checkpoint (stream_directory stream))
              (store_checkpoint (stream_directory stream) (checkpoint_of stream c) s') s'
