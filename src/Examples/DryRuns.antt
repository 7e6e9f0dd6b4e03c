-- ===== src/Examples/DryRuns.antt =====
-- Dry runs of crates/hypercarry-execution/src/dry_run.rs over a memory journal.
use hypercarry.Base.{ℕ, ◌≡◌, refl, true, [], ◌∷◌}
use hypercarry.Base.Int.{pos}
use hypercarry.Base.Text.{codes, text_eq, byte_len, is_blank}
use hypercarry.Decimal.Fixed.{Fixed, fixed}
use hypercarry.Execution.Error.{ok}
use hypercarry.Execution.Model.{
  ValidatedOrder, dry_run, dry_run_recorded, resolve, validate_intent, validate_metadata,
  validate_order, quantize_down, quantize_price, empty_report, validate_correlation_id,
}
use hypercarry.Execution.Risk.{RiskDecision, allow}
use hypercarry.Execution.Journal.{
  JournalEventKind, risk_decision_recorded, exact_action, state_observed, JournalEvent,
  InMemoryJournal, append_memory, event_of_decision, validate_record, validate_kind,
}
use hypercarry.Execution.DryRun.{DryRun, decide, evaluate, act, run_adapter, execute}
use hypercarry.Execution.DryRun.Memory.{memory}
use hypercarry.Execution.DryRun.Order.{Extends, payloads, report_of, evaluate-eq-ok}
use hypercarry.Examples.Orders.{sell_intent, metadata_1, sell_order}

abbrev pipeline : DryRun (InMemoryJournal Fixed) Fixed
pipeline = record {
  resolver = λ venue market. ok metadata_1;
  policy = λ order. ok (allow (codes "code") (codes "reason"));
  journal = record { events = [] };
}

abbrev event_at : ℕ → JournalEventKind Fixed → JournalEvent Fixed
event_at n kind = record {
  schema_version = 1;
  sequence = n;
  recorded_at_ms = pos 1000;
  correlation_id = codes "sell-1";
  event = kind;
}

abbrev journal_after : InMemoryJournal Fixed
journal_after = record {
  events =
      event_at 0 (risk_decision_recorded true (codes "code") (codes "reason"))
      ∷ event_at 1 (exact_action dry_run sell_order)
      ∷ event_at 2 (state_observed dry_run_recorded)
      ∷ [];
}

evaluated :
    evaluate pipeline sell_intent
    ≡ (journal_after, ok (empty_report sell_order dry_run dry_run_recorded))
unfolding evaluate decide act run_adapter execute memory append_memory event_of_decision
    validate_record validate_kind resolve validate_intent validate_metadata validate_order
    quantize_down quantize_price validate_correlation_id empty_report text_eq byte_len is_blank
    fixed
evaluated = refl

evaluate-eq-ok_example :
    (order : ValidatedOrder Fixed) × (decision : RiskDecision) × (decide pipeline sell_intent
      ≡ ok (order, decision))
    × (empty_report sell_order dry_run dry_run_recorded ≡ report_of order decision)
    × Extends sell_intent pipeline.journal journal_after (payloads order decision)
evaluate-eq-ok_example =
    evaluate-eq-ok pipeline sell_intent journal_after
      (empty_report sell_order dry_run dry_run_recorded) evaluated
