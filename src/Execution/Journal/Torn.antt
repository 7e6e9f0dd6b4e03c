-- ===== src/Execution/Journal/Torn.antt =====
-- The file journal of crates/hypercarry-execution/src/journal.rs after a write that stopped just
-- before the newline of its record.
use mathlib.Core.List.{append_assoc}
use hypercarry.Base.{
  ℕ, suc, ◌+◌, ◌<◌, ◌≡◌, refl, sym, ap, ◌∙◌, false, none, some, List, [], ◌∷◌, ◌++◌, length,
  length-append, All, All-append, arith,
}
use hypercarry.Base.Int.{ℤ, u64_bound}
use hypercarry.Base.Text.{Text, is_blank, has_char}
use hypercarry.Decimal.{Decimal}
use hypercarry.Execution.Error.{Result, ok, err, journal_json}
use hypercarry.Execution.Model.{execution_schema_version}
use hypercarry.Execution.Journal.{JournalEventKind, JournalEvent, JsonCodec, validate_record}
use hypercarry.Execution.Journal.File.{
  FileJournal, written, append_file, next_record, read_lines, read_journal, open_journal, lines,
}
use hypercarry.Execution.Journal.Lines.{IsLine, join, lines-append, lines-join, join-append}
use hypercarry.Execution.Journal.Numbering.{IsNumbered, next_sequence_from-read_journal}
use hypercarry.Execution.Journal.Roundtrip.{
  IsFaithful, Reads, Reads-length, Reads-append, IsNumbered-append, read_lines_lem, Holds, Appends,
  refuses, extends, Appends-append_file, returned,
}

lines_unfinished :
    (c : ℕ) (line : Text)
    → has_char 10 (c ∷ line) ≡ false
    → has_char 13 (c ∷ line) ≡ false
    → lines (c ∷ line) ≡ (c ∷ line) ∷ []
unfolding lines has_char
lines_unfinished c [] f r = ground arith
lines_unfinished c (x ∷ line) f r = ground (arith, lines_unfinished x line)

lines-join_unfinished :
    (texts : List Text) (line : Text)
    → All IsLine texts
    → IsLine line
    → is_blank line ≡ false
    → lines (join texts ++ line) ≡ texts ++ line ∷ []
unfolding join
lines-join_unfinished [] [] h l b = absurd (unfold is_blank in ground arith)
lines-join_unfinished [] (c ∷ line) h l b = lines_unfinished c line l.no_feed l.no_return
lines-join_unfinished (x ∷ rest) line h l b =
    ap lines (append_assoc x (10 ∷ join rest) line)
    ∙ lines-append x (join rest ++ line) h.0.no_feed h.0.no_return
    ∙ ap (λ ts. x ∷ ts) (lines-join_unfinished rest line h.1 l b)

not_blank-append : (s t : Text) → is_blank s ≡ false → is_blank (s ++ t) ≡ false
unfolding is_blank
not_blank-append [] t h = absurd (ground arith)
not_blank-append (c ∷ s) t h = ground (arith, not_blank-append s t)

has_char-append :
    (c : ℕ) (s t : Text) → has_char c s ≡ false → has_char c t ≡ false → has_char c (s ++ t) ≡ false
unfolding has_char
has_char-append c [] t h k = k
has_char-append c (x ∷ s) t h k = ground (arith, has_char-append c s t)

module _ {Num : Type 0} ⦃d : Decimal Num⦄ (json : JsonCodec Num) where
  -- serde_json refuses trailing characters: two records on one line are not JSON.
  abbrev pub RefusesTwo : Type 0
  RefusesTwo =
      (r s : JournalEvent Num) (text other : Text)
      → json.encode r ≡ some text
      → json.encode s ≡ some other
      → json.decode (text ++ other) ≡ none

  read_lines_bad :
      (k : ℕ) (ts : List Text) (rs : List (JournalEvent Num)) (bad : Text)
      → Reads json ts rs
      → IsNumbered json k rs
      → k + length rs < u64_bound
      → is_blank bad ≡ false
      → json.decode bad ≡ none
      → read_lines json k (ts ++ bad ∷ []) ≡ err journal_json
  unfolding read_lines
  read_lines_bad k [] [] bad h n b full e = rw (full, e) refl
  read_lines_bad k [] (x ∷ rs) bad h n b full e = absurd (ground arith)
  read_lines_bad k (s ∷ ts) [] bad h n b full e = absurd (ground arith)
  read_lines_bad k (s ∷ ts) (x ∷ rs) bad h n b full e =
      ground (arith, read_lines_bad (suc k) ts rs bad h.2 n.3 (omega arith) full e)

  -- Opening a file follows from reading it.
  open_of_read :
      (contents : Text) (records : List (JournalEvent Num))
      → length (lines contents) < u64_bound
      → read_journal json contents ≡ ok records
      → open_journal json false contents
        ≡ ok (record { contents = contents; buffer = []; next_sequence = length records })
  unfolding open_journal
  open_of_read contents records b e = rw (next_sequence_from-read_journal json contents b, e) refl

  refused_of_read :
      (contents : Text)
      → length (lines contents) < u64_bound
      → read_journal json contents ≡ err journal_json
      → open_journal json false contents ≡ err journal_json
  unfolding open_journal
  refused_of_read contents b e = rw (next_sequence_from-read_journal json contents b, e) refl

  -- The journal that `open` makes of the file with an unfinished line.
  abbrev pub reopened : FileJournal → Text → List (JournalEvent Num) → FileJournal
  reopened j text rs = record {
    contents = j.contents ++ text;
    buffer = [];
    next_sequence = suc (length rs);
  }

  module _ (f : IsFaithful json) (j : FileJournal) (rs : List (JournalEvent Num))
      (r : JournalEvent Num) (text : Text) (h : Holds json j rs)
      (encoded : json.encode r ≡ some text) (valid : validate_record r ≡ ok tt)
      (numbered : r.sequence ≡ length rs) (schema : r.schema_version ≡ execution_schema_version)
      (room : suc (length rs) < u64_bound) where
    torn_lines : lines (j.contents ++ text) ≡ h.texts ++ text ∷ []
    torn_lines = rw h.in_file (
        lines-join_unfinished h.texts text h.clean (f.one_line r text encoded)
          (f.not_blank r text encoded))

    torn_opens : open_journal json false (j.contents ++ text) ≡ ok (reopened j text rs)
    torn_opens =
        open_of_read (j.contents ++ text) (rs ++ r ∷ [])
          (rw torn_lines (
            omega (
              arith,
              Reads-length json h.texts rs h.reads,
              length-append h.texts (text ∷ []),
              room,
            )))
          (unfold read_journal in rw torn_lines all_read)
        ∙ ap (λ n. ok (record { contents = j.contents ++ text; buffer = []; next_sequence = n }))
            (omega (arith, length-append rs (r ∷ [])))
      where
        all_read : read_lines json 0 (h.texts ++ text ∷ []) ≡ ok (rs ++ r ∷ [])
        all_read =
            read_lines_lem json 0 (h.texts ++ text ∷ []) (rs ++ r ∷ [])
              (Reads-append json h.texts rs text r h.reads (f.reads_back r text encoded)
                (f.not_blank r text encoded))
              (IsNumbered-append json 0 rs r h.numbered (omega (arith, numbered)) schema valid)
              (omega (arith, length-append rs (r ∷ []), room))

    module _ (two : RefusesTwo) where
      glued_refused :
          (s : JournalEvent Num) (other : Text)
          → json.encode s ≡ some other
          → open_journal json false ((j.contents ++ text) ++ (other ++ 10 ∷ [])) ≡ err journal_json
      glued_refused s other es = refused_of_read _ few (unfold read_journal in rw glued bad)
        where
          line : IsLine (text ++ other)
          line = record {
            no_feed =
                has_char-append 10 text other (f.one_line r text encoded).no_feed
                  (f.one_line s other es).no_feed;
            no_return =
                has_char-append 13 text other (f.one_line r text encoded).no_return
                  (f.one_line s other es).no_return;
          }

          together :
              (j.contents ++ text) ++ (other ++ 10 ∷ []) ≡ join (h.texts ++ (text ++ other) ∷ [])
          together =
              append_assoc j.contents text (other ++ 10 ∷ [])
              ∙ ap (λ t. j.contents ++ t) (sym (append_assoc text other (10 ∷ [])))
              ∙ ap (λ c. c ++ ((text ++ other) ++ 10 ∷ [])) h.in_file
              ∙ sym (join-append h.texts (text ++ other))

          glued :
              lines ((j.contents ++ text) ++ (other ++ 10 ∷ [])) ≡ h.texts ++ (text ++ other) ∷ []
          glued =
              ap lines together
              ∙ lines-join (h.texts ++ (text ++ other) ∷ [])
                  (All-append IsLine h.texts ((text ++ other) ∷ []) h.clean (line, tt))

          few : length (lines ((j.contents ++ text) ++ (other ++ 10 ∷ []))) < u64_bound
          few = rw glued (
              omega (
                arith,
                Reads-length json h.texts rs h.reads,
                length-append h.texts ((text ++ other) ∷ []),
                room,
              ))

          bad : read_lines json 0 (h.texts ++ (text ++ other) ∷ []) ≡ err journal_json
          bad =
              read_lines_bad 0 h.texts rs (text ++ other) h.reads h.numbered
                (omega (arith, h.bounded))
                (not_blank-append text other (f.not_blank r text encoded))
                (two r s text other encoded es)

      -- A journal whose last write stopped before the newline of a complete record opens without an
      -- error, at the next sequence number; but the first record that is then appended shares its line,
      -- and after that the file opens no more.
      pub torn_append :
          (at_ms : ℤ) (id : Text) (event : JournalEventKind Num) (j' : FileJournal)
          (s : JournalEvent Num)
          → append_file json (reopened j text rs) at_ms id event written ≡ (j', ok s)
          → (open_journal json false (j.contents ++ text) ≡ ok (reopened j text rs))
            × (open_journal json false j'.contents ≡ err journal_json)
      torn_append at_ms id event j' s e =
          (torn_opens, go _ (Appends-append_file json (reopened j text rs) at_ms id event) e)
        where
          go :
              (x : FileJournal × Result (JournalEvent Num))
              → Appends json
                  (reopened j text rs)
                  (next_record json (reopened j text rs) at_ms id event)
                  x
              → x ≡ (j', ok s)
              → open_journal json false j'.contents ≡ err journal_json
          go x (refuses empty same) y = absurd (ground (arith, ap (λ p. returned json p.1) y))
          go x (extends other es v b done) y =
              ap
                (λ (p : FileJournal × Result (JournalEvent Num)).
                  open_journal json false p.0.contents)
                (sym y ∙ done)
              ∙ glued_refused _ other es
