-- ===== src/Execution/DryRun.antt =====
-- crates/hypercarry-execution/src/dry_run.rs: the pipeline that resolves an intent, asks the policy,
-- journals the decision and the exact action, and then runs an adapter that signs nothing. The
-- resolver and the policy are functions, the journal any that meets the interface.
pub mod Order
pub mod Memory
use hypercarry.Base.{
  ℕ, ◌≡◌, Option, some, List, [], ◌∷◌, ◌++◌, length, leb, if◌then◌else◌, Bool-cases, inl, inr, refl,
  arith, Bool, true, false,
}
use hypercarry.Base.Int.{ℤ, u64_bound}
use hypercarry.Base.Text.{Text}
use hypercarry.Decimal.{Decimal}
use hypercarry.Execution.Error.{Result, ok, err, panic, journal_schema, ◌>>=◌, ◌>>◌, fail_if}
use hypercarry.Execution.Model.{
  OrderIntent, MarketMetadata, ValidatedOrder, ExecutionMode, dry_run, ExecutionReport, OrderState,
  dry_run_recorded, rejected, Rejection, resolve, validate_order, empty_report,
  execution_schema_version,
}
use hypercarry.Execution.Risk.{RiskDecision, allow, reject}
use hypercarry.Execution.Journal.{
  JournalEventKind, exact_action, state_observed, JournalEvent, event_of_decision, InMemoryJournal,
  append_memory, validate_record,
}

-- What one appended record says.
pub record Says {Num : Type 0} (r : JournalEvent Num) (at_ms : ℤ) (id : Text)
    (event : JournalEventKind Num) : Type 0 where
  pub time : r.recorded_at_ms ≡ at_ms
  pub correlation : r.correlation_id ≡ id
  pub payload : r.event ≡ event

-- The trait `Journal`: an append that succeeds adds one record with what was asked to the end.
pub record Journal (J Num : Type 0) : Type 0 where
  pub events : J → List (JournalEvent Num)
  pub append : J → ℤ → Text → JournalEventKind Num → J × Result (JournalEvent Num)
  pub append_ok :
      (j j' : J) (at_ms : ℤ) (id : Text) (event : JournalEventKind Num) (r : JournalEvent Num)
      → append j at_ms id event ≡ (j', ok r)
      → (events j' ≡ events j ++ r ∷ []) × Says r at_ms id event

pub record DryRun (J Num : Type 0) : Type 0 where
  pub resolver : Text → Text → Result (MarketMetadata Num)
  pub policy : ValidatedOrder Num → Result RiskDecision
  pub journal : J

unfoldable pub rejected_report :
    {Num : Type 0} → ValidatedOrder Num → Text → Text → ExecutionReport Num
rejected_report order code reason = record (empty_report order dry_run rejected) {
  rejection = some (record { code = code; reason = reason });
}

module _ {Num : Type 0} ⦃d : Decimal Num⦄ where
  -- `DryRunAdapter::execute`
  unfoldable pub execute : ValidatedOrder Num → Result (ExecutionReport Num)
  execute order = validate_order order >> ok (empty_report order dry_run dry_run_recorded)

  -- What `evaluate` computes before it writes.
  unfoldable pub decide :
      {J : Type 0} → DryRun J Num → OrderIntent Num → Result (ValidatedOrder Num × RiskDecision)
  decide p intent = do
    market_metadata ← p.resolver intent.venue intent.market
    order ← resolve intent market_metadata
    decision ← p.policy order
    ok (order, decision)

-- `self.journal.append(..)?` and then the rest.
abbrev pub after_append {ℓ} :
    {Num J : Type 0} {B : Type ℓ}
    → J × Result (JournalEvent Num)
    → (J → J × Result B)
    → J × Result B
after_append (next, ok r) rest = rest next
after_append (next, err e) rest = (next, err e)
after_append (next, panic) rest = (next, panic)

module _ {Num : Type 0} ⦃d : Decimal Num⦄ {J : Type 0} ⦃log : Journal J Num⦄ where
  abbrev pub append_then {ℓ} :
      {B : Type ℓ} → J → OrderIntent Num → JournalEventKind Num → (J → J × Result B) → J × Result B
  append_then j intent event rest =
      after_append (log.append j intent.created_at_ms intent.correlation_id event) rest

  abbrev pub after_execute :
      J → OrderIntent Num → Result (ExecutionReport Num) → J × Result (ExecutionReport Num)
  after_execute j intent (ok report) =
      append_then j intent (state_observed report.state) (λ last. (last, ok report))
  after_execute j intent (err e) = (j, err e)
  after_execute j intent panic = (j, panic)

  -- The end of `evaluate`: the adapter and the state that it reports.
  unfoldable pub run_adapter :
      J → OrderIntent Num → ValidatedOrder Num → J × Result (ExecutionReport Num)
  unfolding execute
  run_adapter j intent order = after_execute j intent (execute order)

  -- The part of `evaluate` after the decision is journalled.
  unfoldable pub act :
      J → OrderIntent Num → ValidatedOrder Num → RiskDecision → J × Result (ExecutionReport Num)
  unfolding run_adapter
  act j intent order (reject code reason) =
      append_then j intent (state_observed rejected)
        (λ last. (last, ok (rejected_report order code reason)))
  act j intent order (allow code reason) =
      append_then j intent (exact_action dry_run order) (λ next. run_adapter next intent order)

  abbrev pub after_decide :
      J
      → OrderIntent Num
      → Result (ValidatedOrder Num × RiskDecision)
      → J × Result (ExecutionReport Num)
  after_decide j intent (ok (order, decision)) =
      append_then j intent (event_of_decision decision) (λ next. act next intent order decision)
  after_decide j intent (err e) = (j, err e)
  after_decide j intent panic = (j, panic)

  -- `DryRun::evaluate`, with the journal after it.
  unfoldable pub evaluate : DryRun J Num → OrderIntent Num → J × Result (ExecutionReport Num)
  unfolding decide
  evaluate p intent = after_decide p.journal intent (decide p intent)
