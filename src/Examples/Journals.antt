-- ===== src/Examples/Journals.antt =====
-- Journals of crates/hypercarry-execution/src/journal.rs on concrete records.
use hypercarry.Base.{◌<◌, ◌≡◌, refl, false, none, some, List, [], ◌∷◌, ◌++◌, length, inl, arith}
use hypercarry.Base.Int.{pos, negsuc, u64_bound}
use hypercarry.Base.Text.{Text, codes, text_eq, is_blank, byte_len}
use hypercarry.Decimal.Fixed.{Fixed, fixed, cents}
use hypercarry.Execution.Error.{ok, err, journal_json, ◌>>=◌}
use hypercarry.Execution.Model.{validate_correlation_id, submission_pending, open_order}
use hypercarry.Execution.Lifecycle.{OrderStateMachine, new_machine}
use hypercarry.Execution.Lifecycle.Steps.{Observation, final, observe, after, logged}
use hypercarry.Execution.Journal.{
  risk_allowed, JournalEvent, recover_from_journal, validate_record, validate_kind,
}
use hypercarry.Execution.Journal.File.{
  FileJournal, written, open_journal, read_journal, next_sequence_from, append_file, prepare,
  write_record, after_write, lines,
}
use hypercarry.Execution.Journal.Numbering.{
  IsNumbered, next_sequence_from-read_journal, read_journal-IsNumbered,
}
use hypercarry.Execution.Journal.Lines.{join}
use hypercarry.Execution.Journal.Roundtrip.{Holds}
use hypercarry.Execution.Journal.Restart.{Request, append_all, new_file, append_all-read_journal}
use hypercarry.Execution.Journal.Recovery.{
  Journals, nothing, other, observed_next, recorded_as, recover_from_journal-final,
}
use hypercarry.Execution.Journal.Torn.{reopened, torn_append}
use hypercarry.Examples.Orders.{sell_order}
use hypercarry.Examples.Identities.{id_1}
use hypercarry.Examples.Tallies.{allowed_at, tallies, tallies-IsFaithful, tallies_refuse_two}

abbrev requests : List (Request Fixed)
requests =
    record { recorded_at_ms = pos 5; correlation_id = codes "order-1"; event = risk_allowed }
    ∷ record { recorded_at_ms = negsuc 0; correlation_id = codes "order-1"; event = risk_allowed }
    ∷ record { recorded_at_ms = pos 5; correlation_id = codes "order-1"; event = risk_allowed }
    ∷ []

-- The second request is before the epoch and is refused.
appended : (append_all tallies new_file requests).1 ≡ allowed_at 0 ∷ allowed_at 1 ∷ []
unfolding append_all append_file prepare write_record after_write validate_record validate_kind
    validate_correlation_id text_eq byte_len
appended = refl

append_all-read_journal_example :
    (read_journal tallies (append_all tallies new_file requests).0.contents
      ≡ ok (append_all tallies new_file requests).1)
    × (open_journal tallies false (append_all tallies new_file requests).0.contents
        ≡ ok (append_all tallies new_file requests).0)
append_all-read_journal_example = append_all-read_journal tallies tallies-IsFaithful requests

abbrev two_lines : Text
two_lines = codes "b\nab\n"

next_sequence_from-read_journal_example :
    next_sequence_from tallies two_lines
    ≡ (read_journal tallies two_lines >>= λ records. ok (length records))
next_sequence_from-read_journal_example = next_sequence_from-read_journal tallies two_lines few
  where
    few : length (lines two_lines) < u64_bound
    few = unfold lines in omega arith

read_two_lines : read_journal tallies two_lines ≡ ok (allowed_at 0 ∷ allowed_at 1 ∷ [])
unfolding read_journal lines validate_record validate_kind validate_correlation_id byte_len is_blank
read_two_lines = refl

read_journal-IsNumbered_example :
    IsNumbered tallies 0 (allowed_at 0 ∷ allowed_at 1 ∷ [])
    × (length (allowed_at 0 ∷ allowed_at 1 ∷ []) ≡ length (lines two_lines))
read_journal-IsNumbered_example =
    read_journal-IsNumbered tallies two_lines (allowed_at 0 ∷ allowed_at 1 ∷ []) read_two_lines

-- A new file whose first write stopped before the newline.
new_file-Holds : Holds tallies new_file []
unfolding join
new_file-Holds = record {
  texts = [];
  reads = tt;
  clean = tt;
  in_file = refl;
  flushed = refl;
  numbered = tt;
  next = refl;
  bounded = omega arith;
}

abbrev glued : FileJournal
glued = record { contents = codes "bab\n"; buffer = []; next_sequence = 2 }

append_torn :
    append_file tallies
      (reopened tallies new_file (codes "b") [])
      (pos 5)
      (codes "order-1")
      risk_allowed
      written
    ≡ (glued, ok (allowed_at 1))
unfolding append_file prepare write_record after_write validate_record validate_kind
    validate_correlation_id text_eq byte_len
append_torn = refl

first_valid : validate_record (allowed_at 0) ≡ ok tt
unfolding validate_record validate_kind validate_correlation_id byte_len
first_valid = refl

first_encoded : tallies.encode (allowed_at 0) ≡ some (codes "b")
unfolding text_eq
first_encoded = refl

torn_append_example :
    (open_journal tallies false (codes "b") ≡ ok (reopened tallies new_file (codes "b") []))
    × (open_journal tallies false (codes "bab\n") ≡ err journal_json)
torn_append_example =
    torn_append tallies tallies-IsFaithful new_file [] (allowed_at 0) (codes "b") new_file-Holds
      first_encoded first_valid refl refl (omega arith) tallies_refuse_two (pos 5) (codes "order-1")
      risk_allowed glued (allowed_at 1) append_torn

-- A journal of one order with a record of another among its own.
abbrev seen_first : Observation Fixed
seen_first = record {
  to = submission_pending;
  at_ms = pos 1001;
  venue_id = none;
  cumulative = cents 0;
}

abbrev seen_second : Observation Fixed
seen_second = record { to = open_order; at_ms = pos 1002; venue_id = some 7; cumulative = cents 0 }

abbrev machine_1 : OrderStateMachine Fixed
machine_1 = new_machine sell_order id_1

abbrev shared_events : List (JournalEvent Fixed)
shared_events =
    recorded_as sell_order.correlation_id 0 (pos 1001) (logged (observe machine_1 seen_first))
    ++ (allowed_at 1
        ∷ (recorded_as sell_order.correlation_id 2 (pos 1002)
              (logged (observe (after machine_1 (observe machine_1 seen_first)) seen_second))
            ++ []))

shared_events-Journals :
    Journals sell_order.correlation_id machine_1 (seen_first ∷ seen_second ∷ []) shared_events
unfolding text_eq
shared_events-Journals =
    observed_next seen_first 0 (pos 1001)
      (other (allowed_at 1) (inl refl) (observed_next seen_second 2 (pos 1002) nothing))

recover_from_journal-final_example :
    recover_from_journal sell_order id_1 shared_events
    ≡ ok (final machine_1 (seen_first ∷ seen_second ∷ []))
recover_from_journal-final_example =
    recover_from_journal-final sell_order id_1 (seen_first ∷ seen_second ∷ []) shared_events
      shared_events-Journals
