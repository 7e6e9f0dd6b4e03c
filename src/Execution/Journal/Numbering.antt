-- ===== src/Execution/Journal/Numbering.antt =====
-- The two readers of the file journal in crates/hypercarry-execution/src/journal.rs: the one behind
-- `open`, which counts, and `read_journal`.
use hypercarry.Base.{
  ℕ, suc, ◌+◌, ◌<◌, ◌≡◌, refl, ap, ◌∙◌, not, ◌||◌, List, [], ◌∷◌, leb, ◌==◌, length, inl, inr,
  arith, Bool-cases, Option-cases,
}
use hypercarry.Base.Int.{u64_bound}
use hypercarry.Base.Text.{Text, is_blank}
use hypercarry.Decimal.{Decimal}
use hypercarry.Execution.Error.{
  Result, ok, err, panic, journal_schema, journal_json, ◌>>=◌, >>=-eq-ok, fail_if-eq-ok,
  or_fail-eq-ok,
}
use hypercarry.Execution.Model.{execution_schema_version}
use hypercarry.Execution.Journal.{JournalEvent, JsonCodec, validate_record}
use hypercarry.Execution.Journal.File.{
  count_lines, read_lines, next_sequence_from, read_journal, lines,
}

module _ {Num : Type 0} ⦃d : Decimal Num⦄ (json : JsonCodec Num) where
  counted : ℕ → Result (List (JournalEvent Num)) → Result ℕ
  counted k read = read >>= λ records. ok (k + length records)

  counted-cons :
      (k : ℕ) (r : JournalEvent Num) (read : Result (List (JournalEvent Num)))
      → counted (suc k) read ≡ counted k (read >>= λ records. ok (r ∷ records))
  unfolding counted
  counted-cons k r (ok records) = ap ok (omega arith)
  counted-cons k r (err e) = refl
  counted-cons k r panic = refl

  count_lines-read_lines :
      (k : ℕ) (texts : List Text)
      → k + length texts < u64_bound
      → count_lines json k texts ≡ counted k (read_lines json k texts)
  unfolding count_lines read_lines counted
  count_lines-read_lines k [] h = ap ok (omega arith)
  count_lines-read_lines k (line ∷ rest) h = elim (Bool-cases (is_blank line)) [
    | inl blank ↦ rw blank refl
    | inr full ↦ elim (Option-cases (json.decode line)) [
      | inl bad ↦ rw (full, bad) refl
      | inr (r, e) ↦ ground (
        arith,
        counted-cons k r (read_lines json (suc k) rest),
        count_lines-read_lines (suc k) rest (omega arith),
      )
    ]
  ]

  counted_zero :
      (read : Result (List (JournalEvent Num)))
      → counted 0 read ≡ (read >>= λ records. ok (length records))
  unfolding counted
  counted_zero (ok records) = ap ok (omega arith)
  counted_zero (err e) = refl
  counted_zero panic = refl

  -- Opening a file of fewer than 2^64 lines counts what `read_journal` returns, and fails with the same
  -- error where that fails.
  pub next_sequence_from-read_journal :
      (contents : Text)
      → length (lines contents) < u64_bound
      → next_sequence_from json contents
        ≡ (read_journal json contents >>= λ records. ok (length records))
  unfolding next_sequence_from read_journal
  next_sequence_from-read_journal contents h =
      count_lines-read_lines 0 (lines contents) (omega arith)
      ∙ counted_zero (read_lines json 0 (lines contents))

  -- Each record is valid, and the records are numbered from `k` on.
  abbrev pub IsNumbered : ℕ → List (JournalEvent Num) → Type 0
  IsNumbered k [] = Unit {0}
  IsNumbered k (r ∷ rest) =
      (r.sequence ≡ k)
      × (r.schema_version ≡ execution_schema_version)
      × (validate_record r ≡ ok tt)
      × IsNumbered (suc k) rest

  read_lines-IsNumbered :
      (k : ℕ) (texts : List Text) (records : List (JournalEvent Num))
      → read_lines json k texts ≡ ok records
      → IsNumbered k records × (length records ≡ length texts)
  unfolding read_lines
  read_lines-IsNumbered k [] records h = ground arith
  read_lines-IsNumbered k (line ∷ rest) records h =
      let (blank, h1) = fail_if-eq-ok (is_blank line) journal_schema _ h in
      let (r, er, h2) = or_fail-eq-ok (json.decode line) journal_json _ h1 in
      let (few, h3) = fail_if-eq-ok (leb u64_bound k) journal_schema _ h2 in
      let (same, h4) =
        fail_if-eq-ok (not (r.schema_version == execution_schema_version) || not (r.sequence == k))
          journal_schema _ h3 in
      let (_, valid, h5) = >>=-eq-ok (validate_record r) _ h4 in
      let (tail, et, h6) = >>=-eq-ok (read_lines json (suc k) rest) _ h5 in
      let both = read_lines-IsNumbered (suc k) rest tail et in ground arith

  -- What `read_journal` returns is one valid record for each line, numbered from zero without gaps.
  pub read_journal-IsNumbered :
      (contents : Text) (records : List (JournalEvent Num))
      → read_journal json contents ≡ ok records
      → IsNumbered 0 records × (length records ≡ length (lines contents))
  unfolding read_journal
  read_journal-IsNumbered contents records h = read_lines-IsNumbered 0 (lines contents) records h
