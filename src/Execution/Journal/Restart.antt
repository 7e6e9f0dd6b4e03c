-- ===== src/Execution/Journal/Restart.antt =====
-- A run of appends to the file journal of crates/hypercarry-execution/src/journal.rs, and its restart.
use mathlib.Core.List.{append_assoc, append-nil}
use hypercarry.Base.{◌≡◌, refl, subst, ◌∙◌, false, List, [], ◌∷◌, ◌++◌, length, arith}
use hypercarry.Base.Int.{ℤ}
use hypercarry.Base.Text.{Text}
use hypercarry.Decimal.{Decimal}
use hypercarry.Execution.Error.{Result, ok}
use hypercarry.Execution.Journal.{JournalEventKind, JournalEvent, JsonCodec}
use hypercarry.Execution.Journal.File.{
  FileJournal, written, next_record, append_file, read_journal, next_sequence_from, open_journal,
}
use hypercarry.Execution.Journal.Lines.{join, lines-join}
use hypercarry.Execution.Journal.Numbering.{next_sequence_from-read_journal}
use hypercarry.Execution.Journal.Roundtrip.{
  IsFaithful, Reads-length, read_lines_lem, Holds, Holds-grown, Appends, refuses, extends,
  Appends-append_file, returned,
}

-- One request to append.
pub record Request (Num : Type 0) : Type 0 where
  pub recorded_at_ms : ℤ
  pub correlation_id : Text
  pub event : JournalEventKind Num

-- The journal of a new file.
abbrev pub new_file : FileJournal
new_file = record { contents = []; buffer = []; next_sequence = 0 }

module _ {Num : Type 0} ⦃d : Decimal Num⦄ (json : JsonCodec Num) where
  -- A run of requests where every write succeeds, with the records that it returned.
  unfoldable pub append_all :
      FileJournal → List (Request Num) → FileJournal × List (JournalEvent Num)
  append_all j [] = (j, [])
  append_all j (q ∷ qs) =
      let x = append_file json j q.recorded_at_ms q.correlation_id q.event written in
      let y = append_all x.0 qs in (y.0, returned json x.1 ++ y.1)

  Holds-append_file :
      (f : IsFaithful json) (j : FileJournal) (rs : List (JournalEvent Num)) (q : Request Num)
      → Holds json j rs
      → Holds json (append_file json j q.recorded_at_ms q.correlation_id q.event written).0 (
          rs
          ++ returned json (append_file json j q.recorded_at_ms q.correlation_id q.event written).1)
  Holds-append_file f j rs q h =
      go (append_file json j q.recorded_at_ms q.correlation_id q.event written)
        (Appends-append_file json j q.recorded_at_ms q.correlation_id q.event)
    where
      go :
          (x : FileJournal × Result (JournalEvent Num))
          → Appends json j (next_record json j q.recorded_at_ms q.correlation_id q.event) x
          → Holds json x.0 (rs ++ returned json x.1)
      go x (refuses empty same) = rw (empty, same, append-nil rs) h
      go x (extends text e v b done) = rw done (Holds-grown json f j rs _ text h e v b refl refl)

  Holds-append_all :
      (f : IsFaithful json) (j : FileJournal) (rs : List (JournalEvent Num))
      (qs : List (Request Num))
      → Holds json j rs
      → Holds json (append_all j qs).0 (rs ++ (append_all j qs).1)
  unfolding append_all
  Holds-append_all f j rs [] h = rw (append-nil rs) h
  Holds-append_all f j rs (q ∷ qs) h =
      subst (λ xs. Holds json (append_all j (q ∷ qs)).0 xs) (append_assoc rs _ _)
        (Holds-append_all f (append_file json j q.recorded_at_ms q.correlation_id q.event written).0
          _ qs (Holds-append_file f j rs q h))

  Holds-read_journal :
      (j : FileJournal) (rs : List (JournalEvent Num))
      → Holds json j rs
      → read_journal json j.contents ≡ ok rs
  unfolding read_journal
  Holds-read_journal j rs h =
      rw (h.in_file, lines-join h.texts h.clean)
        (read_lines_lem json 0 h.texts rs h.reads h.numbered (omega (arith, h.bounded)))

  Holds-open_journal :
      (j : FileJournal) (rs : List (JournalEvent Num))
      → Holds json j rs
      → open_journal json false j.contents ≡ ok j
  unfolding open_journal
  Holds-open_journal j rs h = rw counted (rw (h.next, h.flushed) refl)
    where
      counted : next_sequence_from json j.contents ≡ ok (length rs)
      counted =
          next_sequence_from-read_journal json j.contents (
            rw (h.in_file, lines-join h.texts h.clean)
              (omega (arith, Reads-length json h.texts rs h.reads, h.bounded)))
          ∙ rw (Holds-read_journal j rs h) refl

  -- Over a new file, where every write succeeds: whatever a host asks to append, `read_journal` of the
  -- file gives exactly the records that `append` returned, in order, and opening the file again
  -- gives the journal that the host had.
  pub append_all-read_journal :
      (f : IsFaithful json) (qs : List (Request Num))
      → (read_journal json (append_all new_file qs).0.contents ≡ ok (append_all new_file qs).1)
        × (open_journal json false (append_all new_file qs).0.contents
            ≡ ok (append_all new_file qs).0)
  unfolding join
  append_all-read_journal f qs = (Holds-read_journal _ _ all, Holds-open_journal _ _ all)
    where
      all : Holds json (append_all new_file qs).0 (append_all new_file qs).1
      all = Holds-append_all f _ [] qs (record {
        texts = [];
        reads = tt;
        clean = tt;
        in_file = refl;
        flushed = refl;
        numbered = tt;
        next = refl;
        bounded = omega arith;
      })
