-- ===== src/Execution/Journal/Roundtrip.antt =====
-- One append to the file journal of crates/hypercarry-execution/src/journal.rs, against the records
-- that the file holds.
use hypercarry.Base.{
  ℕ, suc, ◌+◌, ◌<◌, ◌≡◌, refl, sym, ap, ◌∙◌, true, false, some, List, [], ◌∷◌, ◌++◌, length,
  length-append, All, All-append, arith,
}
use hypercarry.Base.Int.{ℤ, u64_bound, checked_add_u64}
use hypercarry.Base.Text.{Text, is_blank}
use hypercarry.Decimal.{Decimal}
use hypercarry.Execution.Error.{
  Result, ok, err, panic, journal_schema, journal_json, >>=-eq-ok, or_fail-eq-ok, ok-injective,
}
use hypercarry.Execution.Model.{execution_schema_version}
use hypercarry.Execution.Journal.{JournalEventKind, JournalEvent, JsonCodec, validate_record}
use hypercarry.Execution.Journal.File.{
  FileJournal, written, prepare, next_record, after_write, write_record, append_file, read_lines,
}
use hypercarry.Execution.Journal.Lines.{IsLine, join, join-append}
use hypercarry.Execution.Journal.Numbering.{IsNumbered}

module _ {Num : Type 0} ⦃d : Decimal Num⦄ (json : JsonCodec Num) where
  -- What the journal relies on of serde_json: its compact output has no control characters and is not
  -- blank, and it reads back to the value.
  pub record IsFaithful : Type 0 where
    pub reads_back :
        (r : JournalEvent Num) (text : Text) → json.encode r ≡ some text → json.decode text ≡ some r
    pub one_line : (r : JournalEvent Num) (text : Text) → json.encode r ≡ some text → IsLine text
    pub not_blank :
        (r : JournalEvent Num) (text : Text) → json.encode r ≡ some text → is_blank text ≡ false

  -- Line by line, the texts read as the records.
  abbrev pub Reads : List Text → List (JournalEvent Num) → Type 0
  Reads [] [] = Unit {0}
  Reads [] (r ∷ rs) = (true ≡ false)
  Reads (t ∷ ts) [] = (true ≡ false)
  Reads (t ∷ ts) (r ∷ rs) = (json.decode t ≡ some r) × (is_blank t ≡ false) × Reads ts rs

  pub Reads-append :
      (ts : List Text) (rs : List (JournalEvent Num)) (t : Text) (r : JournalEvent Num)
      → Reads ts rs
      → json.decode t ≡ some r
      → is_blank t ≡ false
      → Reads (ts ++ t ∷ []) (rs ++ r ∷ [])
  Reads-append [] [] t r h e b = (e, b, tt)
  Reads-append [] (x ∷ rs) t r h e b = absurd (ground arith)
  Reads-append (s ∷ ts) [] t r h e b = absurd (ground arith)
  Reads-append (s ∷ ts) (x ∷ rs) t r h e b = (h.0, h.1, Reads-append ts rs t r h.2 e b)

  pub Reads-length :
      (ts : List Text) (rs : List (JournalEvent Num)) → Reads ts rs → length ts ≡ length rs
  Reads-length [] [] h = refl
  Reads-length [] (x ∷ rs) h = absurd (ground arith)
  Reads-length (s ∷ ts) [] h = absurd (ground arith)
  Reads-length (s ∷ ts) (x ∷ rs) h = ap suc (Reads-length ts rs h.2)

  pub IsNumbered-append :
      (k : ℕ) (rs : List (JournalEvent Num)) (r : JournalEvent Num)
      → IsNumbered json k rs
      → r.sequence ≡ k + length rs
      → r.schema_version ≡ execution_schema_version
      → validate_record r ≡ ok tt
      → IsNumbered json k (rs ++ r ∷ [])
  IsNumbered-append k [] r h s v e = (omega arith, v, e, tt)
  IsNumbered-append k (x ∷ rs) r h s v e =
      (h.0, h.1, h.2, IsNumbered-append (suc k) rs r h.3 (omega arith) v e)

  pub read_lines_lem :
      (k : ℕ) (ts : List Text) (rs : List (JournalEvent Num))
      → Reads ts rs
      → IsNumbered json k rs
      → k + length rs < u64_bound
      → read_lines json k ts ≡ ok rs
  unfolding read_lines
  read_lines_lem k [] [] h n b = refl
  read_lines_lem k [] (x ∷ rs) h n b = absurd (ground arith)
  read_lines_lem k (s ∷ ts) [] h n b = absurd (ground arith)
  read_lines_lem k (s ∷ ts) (x ∷ rs) h n b =
      ground (arith, read_lines_lem (suc k) ts rs h.2 n.3 (omega arith))

  -- The file holds exactly these records.
  pub record Holds (j : FileJournal) (rs : List (JournalEvent Num)) : Type 0 where
    pub texts : List Text
    pub reads : Reads texts rs
    pub clean : All IsLine texts
    pub in_file : j.contents ≡ join texts
    pub flushed : j.buffer ≡ []
    pub numbered : IsNumbered json 0 rs
    pub next : j.next_sequence ≡ length rs
    pub bounded : length rs < u64_bound

  abbrev pub returned : Result (JournalEvent Num) → List (JournalEvent Num)
  returned (ok r) = r ∷ []
  returned (err e) = []
  returned panic = []

  abbrev pub grown : FileJournal → Text → FileJournal
  grown j text = record {
    contents = j.contents ++ (j.buffer ++ (text ++ 10 ∷ []));
    buffer = [];
    next_sequence = suc j.next_sequence;
  }

  -- The ways through `append` where a write succeeds.
  pub data Appends (j : FileJournal) (r : JournalEvent Num)
      (x : FileJournal × Result (JournalEvent Num)) : Type 0 where
    refuses : returned x.1 ≡ [] → x.0 ≡ j → Appends j r x
    extends :
        (text : Text)
        → json.encode r ≡ some text
        → validate_record r ≡ ok tt
        → suc j.next_sequence < u64_bound
        → x ≡ (grown j text, ok r)
        → Appends j r x

  prepare-eq-ok :
      (j : FileJournal) (r : JournalEvent Num) (following : ℕ) (text : Text)
      → prepare json j r ≡ ok (following, text)
      → (following ≡ suc j.next_sequence)
        × (suc j.next_sequence < u64_bound)
        × (validate_record r ≡ ok tt)
        × (json.encode r ≡ some text)
  unfolding prepare
  prepare-eq-ok j r following text h =
      let (n, en, h1) = or_fail-eq-ok (checked_add_u64 j.next_sequence 1) journal_schema _ h in
      let (_, valid, h2) = >>=-eq-ok (validate_record r) _ h1 in
      let (t, et, h3) = or_fail-eq-ok (json.encode r) journal_json _ h2 in
      let e = ok-injective (n, t) (following, text) h3 in
      (sym (ap (λ x. x.0) e) ∙ ground arith, ground arith, valid, et ∙ ap some (ap (λ x. x.1) e))

  pub Appends-append_file :
      (j : FileJournal) (at_ms : ℤ) (id : Text) (event : JournalEventKind Num)
      → Appends j (next_record json j at_ms id event) (append_file json j at_ms id event written)
  unfolding append_file write_record after_write
  Appends-append_file j at_ms id event =
      go (prepare json j (next_record json j at_ms id event)) refl
    where
      go :
          (p : Result (ℕ × Text))
          → prepare json j (next_record json j at_ms id event) ≡ p
          → Appends j
              (next_record json j at_ms id event)
              (append_file json j at_ms id event written)
      go (ok (following, text)) e =
          let parts = prepare-eq-ok j (next_record json j at_ms id event) following text e in
          extends text parts.3 parts.2 parts.1 (rw (append_file, e, parts.0) refl)
      go (err x) e = refuses (rw (append_file, e, returned) refl) (rw (append_file, e) refl)
      go panic e = refuses (rw (append_file, e, returned) refl) (rw (append_file, e) refl)

  -- A record that a fitting journal appended fits.
  pub Holds-grown :
      (f : IsFaithful) (j : FileJournal) (rs : List (JournalEvent Num)) (r : JournalEvent Num)
      (text : Text)
      → Holds j rs
      → json.encode r ≡ some text
      → validate_record r ≡ ok tt
      → suc j.next_sequence < u64_bound
      → r.sequence ≡ j.next_sequence
      → r.schema_version ≡ execution_schema_version
      → Holds (grown j text) (rs ++ r ∷ [])
  Holds-grown f j rs r text h e v b s k = record {
    texts = h.texts ++ text ∷ [];
    reads = Reads-append h.texts rs text r h.reads (f.reads_back r text e) (f.not_blank r text e);
    clean = All-append IsLine h.texts (text ∷ []) h.clean (f.one_line r text e, tt);
    in_file = rw (h.in_file, h.flushed, join-append h.texts text) refl;
    flushed = refl;
    numbered = IsNumbered-append 0 rs r h.numbered (omega (arith, s, h.next)) k v;
    next = omega (arith, h.next, length-append rs (r ∷ []));
    bounded = omega (arith, h.next, b, length-append rs (r ∷ []));
  }
