-- ===== src/Execution/DryRun/Order.antt =====
-- The journal that a dry run of crates/hypercarry-execution/src/dry_run.rs leaves.
use mathlib.Core.List.{append_assoc, append-nil}
use hypercarry.Base.{◌≡◌, refl, sym, ap, subst, ◌∙◌, List, [], ◌∷◌, ◌++◌, arith, true, false}
use hypercarry.Decimal.{Decimal}
use hypercarry.Execution.Error.{Result, ok, err, panic, ◌>>◌, ok-injective}
use hypercarry.Execution.Model.{
  OrderIntent, ValidatedOrder, dry_run, ExecutionReport, dry_run_recorded, rejected, validate_order,
  empty_report,
}
use hypercarry.Execution.Risk.{RiskDecision, allow, reject}
use hypercarry.Execution.Journal.{
  JournalEventKind, exact_action, state_observed, JournalEvent, event_of_decision,
}
use hypercarry.Execution.DryRun.{
  Says, Journal, DryRun, execute, decide, rejected_report, after_append, after_execute,
  after_decide, run_adapter, act, evaluate,
}

after_append-eq-ok {ℓ} :
    {Num J : Type 0} {B : Type ℓ} (x : J × Result (JournalEvent Num)) (rest : J → J × Result B)
    {j' : J} {b : B}
    → after_append x rest ≡ (j', ok b)
    → (next : J) × (r : JournalEvent Num) × (x ≡ (next, ok r)) × (rest next ≡ (j', ok b))
after_append-eq-ok (next, ok r) rest h = (next, r, refl, h)
after_append-eq-ok (next, err e) rest h = absurd (ground arith)
after_append-eq-ok (next, panic) rest h = absurd (ground arith)

module _ {Num : Type 0} where
  abbrev pub acted : ValidatedOrder Num → RiskDecision → List (JournalEventKind Num)
  acted order (allow code reason) =
      exact_action dry_run order ∷ state_observed dry_run_recorded ∷ []
  acted order (reject code reason) = state_observed rejected ∷ []

  -- The payloads that a dry run writes, in order.
  abbrev pub payloads : ValidatedOrder Num → RiskDecision → List (JournalEventKind Num)
  payloads order decision = event_of_decision decision ∷ acted order decision

  abbrev pub report_of : ValidatedOrder Num → RiskDecision → ExecutionReport Num
  report_of order (allow code reason) = empty_report order dry_run dry_run_recorded
  report_of order (reject code reason) = rejected_report order code reason

  -- The records say these payloads, one each, under the identifier and the time of the intent.
  abbrev pub SayAll :
      OrderIntent Num → List (JournalEvent Num) → List (JournalEventKind Num) → Type 0
  SayAll intent [] [] = Unit {0}
  SayAll intent [] (k ∷ ks) = (true ≡ false)
  SayAll intent (r ∷ rs) [] = (true ≡ false)
  SayAll intent (r ∷ rs) (k ∷ ks) =
      Says r intent.created_at_ms intent.correlation_id k × SayAll intent rs ks

module _ {Num : Type 0} ⦃d : Decimal Num⦄ {J : Type 0} ⦃log : Journal J Num⦄ where
  -- The journal `j'` continues `j` by records of these payloads.
  pub record Extends (intent : OrderIntent Num) (j j' : J) (kinds : List (JournalEventKind Num))
      : Type 0 where
    pub added : List (JournalEvent Num)
    pub extended : log.events j' ≡ log.events j ++ added
    pub say : SayAll intent added kinds

  Extends-cons :
      (intent : OrderIntent Num) (j next j' : J) (r : JournalEvent Num) (k : JournalEventKind Num)
      (ks : List (JournalEventKind Num))
      → log.append j intent.created_at_ms intent.correlation_id k ≡ (next, ok r)
      → Extends intent next j' ks
      → Extends intent j j' (k ∷ ks)
  Extends-cons intent j next j' r k ks e x =
      let (one, says) = log.append_ok j next intent.created_at_ms intent.correlation_id k r e in
      record {
        added = r ∷ x.added;
        extended =
            x.extended
            ∙ ap (λ es. es ++ x.added) one
            ∙ append_assoc (log.events j) (r ∷ []) x.added;
        say = (says, x.say);
      }

  Extends-nil : (intent : OrderIntent Num) (j : J) → Extends intent j j []
  Extends-nil intent j = record { added = []; extended = sym (append-nil (log.events j)); say = tt }

  run_adapter-eq-ok :
      (j j' : J) (intent : OrderIntent Num) (order : ValidatedOrder Num)
      (report : ExecutionReport Num)
      → run_adapter j intent order ≡ (j', ok report)
      → (report ≡ empty_report order dry_run dry_run_recorded)
        × Extends intent j j' (state_observed dry_run_recorded ∷ [])
  unfolding run_adapter execute empty_report
  run_adapter-eq-ok j j' intent order report e = go (validate_order order) e
    where
      go :
          (v : Result (Unit {0}))
          → after_execute j intent (v >> ok (empty_report order dry_run dry_run_recorded))
            ≡ (j', ok report)
          → (report ≡ empty_report order dry_run dry_run_recorded)
            × Extends intent j j' (state_observed dry_run_recorded ∷ [])
      go (ok done) x =
          let (last, r, a, b) =
            after_append-eq-ok
              (log.append j intent.created_at_ms intent.correlation_id
                (state_observed dry_run_recorded))
              _ x in
          (
            ok-injective _ _ (sym (ap (λ y. y.1) b)),
            Extends-cons intent j last j' r (state_observed dry_run_recorded) [] a
                (subst (λ y. Extends intent last y []) (ap (λ y. y.0) b) (Extends-nil intent last)),
          )
      go (err f) x = absurd (ground arith)
      go panic x = absurd (ground arith)

  act-eq-ok :
      (j j' : J) (intent : OrderIntent Num) (order : ValidatedOrder Num) (decision : RiskDecision)
      (report : ExecutionReport Num)
      → act j intent order decision ≡ (j', ok report)
      → (report ≡ report_of order decision) × Extends intent j j' (acted order decision)
  unfolding act
  act-eq-ok j j' intent order (reject code reason) report e =
      let (last, r, a, b) =
        after_append-eq-ok
          (log.append j intent.created_at_ms intent.correlation_id (state_observed rejected)) _ e in
      (
        ok-injective _ _ (sym (ap (λ y. y.1) b)),
        Extends-cons intent j last j' r (state_observed rejected) [] a
            (subst (λ y. Extends intent last y []) (ap (λ y. y.0) b) (Extends-nil intent last)),
      )
  act-eq-ok j j' intent order (allow code reason) report e =
      let (next, r, a, b) =
        after_append-eq-ok
          (log.append j intent.created_at_ms intent.correlation_id (exact_action dry_run order)) _
          e in
      let (same, x) = run_adapter-eq-ok next j' intent order report b in
      (same, Extends-cons intent j next j' r (exact_action dry_run order) _ a x)

  -- A dry run that returns a report has journalled, after what was there and in this order, the policy's
  -- decision on the resolved order and then either the rejected state, or the exact action and after
  -- it the state `DryRunRecorded`, all under the intent's identifier and time; the report has that
  -- state and no fill.
  pub evaluate-eq-ok :
      (p : DryRun J Num) (intent : OrderIntent Num) (j' : J) (report : ExecutionReport Num)
      → evaluate p intent ≡ (j', ok report)
      → (order : ValidatedOrder Num) × (decision : RiskDecision) × (decide p intent
          ≡ ok (order, decision))
        × (report ≡ report_of order decision)
        × Extends intent p.journal j' (payloads order decision)
  unfolding evaluate
  evaluate-eq-ok p intent j' report e = go (decide p intent) refl e
    where
      go :
          (x : Result (ValidatedOrder Num × RiskDecision))
          → decide p intent ≡ x
          → after_decide p.journal intent x ≡ (j', ok report)
          → (order : ValidatedOrder Num) × (decision : RiskDecision) × (decide p intent
              ≡ ok (order, decision))
            × (report ≡ report_of order decision)
            × Extends intent p.journal j' (payloads order decision)
      go (ok (order, decision)) x y =
          let (next, r, a, b) =
            after_append-eq-ok
              (log.append p.journal intent.created_at_ms intent.correlation_id
                (event_of_decision decision))
              _ y in
          let (same, more) = act-eq-ok next j' intent order decision report b in
          (
            order,
            decision,
            x,
            same,
            Extends-cons intent p.journal next j' r (event_of_decision decision) _ a more,
          )
      go (err f) x y = absurd (ground arith)
      go panic x y = absurd (ground arith)
