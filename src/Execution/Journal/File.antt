-- ===== src/Execution/Journal/File.antt =====
-- The file journal of crates/hypercarry-execution/src/journal.rs. The JSON text of a record is the
-- work of serde_json, a parameter; files are read as text, so the errors of the file system are
-- given by the outcome of each write.
use hypercarry.Base.{
  ℕ, suc, Bool, true, false, not, ◌&&◌, ◌||◌, List, [], ◌∷◌, ◌++◌, leb, ◌==◌, if◌then◌else◌,
}
use hypercarry.Base.Int.{ℤ, u64_bound, checked_add_u64}
use hypercarry.Base.Text.{Text, is_blank}
use hypercarry.Decimal.{Decimal}
use hypercarry.Execution.Error.{
  Result, ok, err, panic, journal_io, journal_schema, journal_json, ◌>>=◌, ◌>>◌, fail_if, or_fail,
}
use hypercarry.Execution.Model.{execution_schema_version}
use hypercarry.Execution.Journal.{JournalEventKind, JournalEvent, JsonCodec, validate_record}

-- `BufRead::lines`: a line ends at a newline, which is dropped with one carriage return before it.
abbrev at_newline : Text → Bool
at_newline [] = false
at_newline (c ∷ cs) = c == 10

abbrev onto_first : ℕ → List Text → List Text
onto_first c [] = (c ∷ []) ∷ []
onto_first c (line ∷ rest) = (c ∷ line) ∷ rest

unfoldable pub lines : Text → List Text
lines [] = []
lines (c ∷ cs) =
    let rest = lines cs in
    if c == 10 then [] ∷ rest else if (c == 13) && at_newline cs then rest else onto_first c rest

-- The file of a journal with what its writer still buffers.
pub record FileJournal : Type 0 where
  pub contents : Text
  pub buffer : Text
  pub next_sequence : ℕ

-- The outcome of `write_all`, `flush` and `sync_data`. A failure leaves any part of the bytes in the
-- file and any part in the buffer.
pub data WriteOutcome : Type 0 where
  written : WriteOutcome
  failed : (on_disk pending : Text) → WriteOutcome

module _ {Num : Type 0} ⦃d : Decimal Num⦄ (json : JsonCodec Num) where
  -- The loop of `next_sequence_from`.
  unfoldable pub count_lines : ℕ → List Text → Result ℕ
  count_lines expected [] = ok expected
  count_lines expected (line ∷ rest) = do
    fail_if (is_blank line) journal_schema
    r ← or_fail (json.decode line) journal_json
    fail_if (not (r.schema_version == execution_schema_version)) journal_schema
    fail_if (not (r.sequence == expected)) journal_schema
    validate_record r
    next ← or_fail (checked_add_u64 expected 1) journal_schema
    count_lines next rest

  unfoldable pub next_sequence_from : Text → Result ℕ
  unfolding count_lines
  next_sequence_from contents = count_lines 0 (lines contents)

  -- `FileJournal::open` of a file that another process may have locked.
  unfoldable pub open_journal : Bool → Text → Result FileJournal
  unfolding next_sequence_from
  open_journal locked contents = do
    fail_if locked journal_io
    next ← next_sequence_from contents
    ok (record { contents = contents; buffer = []; next_sequence = next })

  unfoldable pub after_write : FileJournal → Text → WriteOutcome → FileJournal × Bool
  after_write j line written =
      (record j { contents = j.contents ++ (j.buffer ++ line); buffer = [] }, true)
  after_write j line (failed on_disk pending) =
      (record j { contents = j.contents ++ on_disk; buffer = pending }, false)

  -- The effects of `append` once the record is encoded.
  unfoldable pub write_record :
      FileJournal
      → ℕ
      → JournalEvent Num
      → Text
      → WriteOutcome
      → FileJournal × Result (JournalEvent Num)
  unfolding after_write
  write_record j following r encoded outcome =
      let (j', synced) = after_write j (encoded ++ 10 ∷ []) outcome in
      if synced then (record j' { next_sequence = following }, ok r) else (j', err journal_io)

  abbrev pub next_record : FileJournal → ℤ → Text → JournalEventKind Num → JournalEvent Num
  next_record j recorded_at_ms id event = record {
    schema_version = execution_schema_version;
    sequence = j.next_sequence;
    recorded_at_ms = recorded_at_ms;
    correlation_id = id;
    event = event;
  }

  -- What `append` does before it writes: the following sequence number and the encoded record.
  unfoldable pub prepare : FileJournal → JournalEvent Num → Result (ℕ × Text)
  prepare j r = do
    following ← or_fail (checked_add_u64 j.next_sequence 1) journal_schema
    validate_record r
    encoded ← or_fail (json.encode r) journal_json
    ok (following, encoded)

  -- `append` of the file journal, with the journal after it.
  unfoldable pub append_file :
      FileJournal
      → ℤ
      → Text
      → JournalEventKind Num
      → WriteOutcome
      → FileJournal × Result (JournalEvent Num)
  append_file j recorded_at_ms id event outcome =
      elim (prepare j (next_record j recorded_at_ms id event)) [
        | ok (following, encoded) ↦
            write_record j following (next_record j recorded_at_ms id event) encoded outcome
        | err e ↦ (j, err e)
        | panic ↦ (j, panic)
      ]

  -- The loop of `read_journal`, where `count` records have been read.
  unfoldable pub read_lines : ℕ → List Text → Result (List (JournalEvent Num))
  read_lines count [] = ok []
  read_lines count (line ∷ rest) = do
    fail_if (is_blank line) journal_schema
    r ← or_fail (json.decode line) journal_json
    fail_if (leb u64_bound count) journal_schema
    fail_if (not (r.schema_version == execution_schema_version) || not (r.sequence == count))
        journal_schema
    validate_record r
    records ← read_lines (suc count) rest
    ok (r ∷ records)

  unfoldable pub read_journal : Text → Result (List (JournalEvent Num))
  unfolding read_lines
  read_journal contents = read_lines 0 (lines contents)
