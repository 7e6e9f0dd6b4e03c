-- ===== src/Execution/Journal.antt =====
-- crates/hypercarry-execution/src/journal.rs: the records of the journal, their validation, and the
-- memory journal.
pub mod File
pub mod Lines
pub mod Numbering
pub mod Roundtrip
pub mod Restart
pub mod Recovery
pub mod Torn
use hypercarry.Base.{
  ℕ, zero, suc, ◌+◌, ◌≡◌, Bool, true, false, not, ◌&&◌, ◌||◌, Option, none, some, List, [], ◌∷◌,
  ◌++◌, ltb, leb, ◌==◌, length, any, all, filter, is_empty, if◌then◌else◌,
}
use hypercarry.Base.Int.{ℤ, pos, ltb_ℤ, u64_bound, checked_add_u64}
use hypercarry.Base.Text.{Text, text_eq, is_blank, byte_len, is_ascii_hexdigit}
use hypercarry.Decimal.{Decimal}
use hypercarry.Execution.Error.{
  Result, ok, err, panic, journal_io, journal_schema, journal_json, ◌>>=◌, ◌>>◌, fail_if, or_fail,
  map_err,
}
use hypercarry.Execution.Model.{
  ExecutionMode, OrderState, Rejection, ValidatedOrder, execution_schema_version,
  validate_correlation_id, validate_order,
}
use hypercarry.Execution.Identity.{ClientOrderId, to_string}
use hypercarry.Execution.Lifecycle.{LifecycleTransition, OrderStateMachine, recover}
use hypercarry.Execution.Risk.{RiskDecision, allow, reject}

pub data ExecutionNetwork : Type 0 where
  testnet_network mainnet_network : ExecutionNetwork

pub data JournalEventKind (Num : Type 0) : Type 0 where
  execution_context_bound :
      (network : ExecutionNetwork) (account_id config_digest evidence_digest signer_key_id : Text)
      → JournalEventKind Num
  risk_allowed : JournalEventKind Num
  risk_decision_recorded : (allowed : Bool) (code reason : Text) → JournalEventKind Num
  risk_rejected : Rejection → JournalEventKind Num
  venue_rejected : Rejection → JournalEventKind Num
  exact_action : ExecutionMode → ValidatedOrder Num → JournalEventKind Num
  state_observed : OrderState → JournalEventKind Num
  lifecycle_transition : LifecycleTransition Num → JournalEventKind Num
  external_event_applied : (source event_id : Text) → JournalEventKind Num
  emergency_cancel_scheduled : Option ℤ → JournalEventKind Num

pub record JournalEvent (Num : Type 0) : Type 0 where
  pub schema_version : ℕ
  pub sequence : ℕ
  pub recorded_at_ms : ℤ
  pub correlation_id : Text
  pub event : JournalEventKind Num

-- `serde_json::to_vec` and `serde_json::from_str` of a record.
pub record JsonCodec (Num : Type 0) : Type 0 where
  pub encode : JournalEvent Num → Option Text
  pub decode : Text → Option (JournalEvent Num)

-- `From<RiskDecision> for JournalEventKind`
unfoldable pub event_of_decision : {Num : Type 0} → RiskDecision → JournalEventKind Num
event_of_decision (allow code reason) = risk_decision_recorded true code reason
event_of_decision (reject code reason) = risk_rejected (record { code = code; reason = reason })

abbrev is_digest : Text → Bool
is_digest digest = (byte_len digest == 64) && all is_ascii_hexdigit digest

abbrev before_epoch : Option ℤ → Bool
before_epoch none = false
before_epoch (some at) = ltb_ℤ at (pos 0)

module _ {Num : Type 0} ⦃d : Decimal Num⦄ where
  -- The `match` on the kind of event in `validate_record`.
  unfoldable pub validate_kind : Text → JournalEventKind Num → Result (Unit {0})
  validate_kind id (risk_rejected r) = fail_if (is_blank r.code || is_blank r.reason) journal_schema
  validate_kind id (venue_rejected r) =
      fail_if (is_blank r.code || is_blank r.reason) journal_schema
  validate_kind id (risk_decision_recorded allowed code reason) =
      fail_if (is_blank code || is_blank reason) journal_schema
  validate_kind id (exact_action mode order) = do
    map_err (validate_order order) journal_schema
    fail_if (not (text_eq order.correlation_id id)) journal_schema
  validate_kind id (lifecycle_transition t) =
      fail_if (is_empty (to_string t.client_order_id)) journal_schema
  validate_kind id (external_event_applied source event_id) =
      fail_if
        (is_blank source
          || is_blank event_id
          || ltb 64 (byte_len source)
          || ltb 128 (byte_len event_id))
        journal_schema
  validate_kind id (execution_context_bound network account_id config evidence signer) =
      fail_if
        (is_empty account_id
          || is_empty signer
          || not (is_digest config)
          || not (is_digest evidence))
        journal_schema
  validate_kind id (emergency_cancel_scheduled at_ms) = fail_if (before_epoch at_ms) journal_schema
  validate_kind id risk_allowed = ok tt
  validate_kind id (state_observed state) = ok tt

  unfoldable pub validate_record : JournalEvent Num → Result (Unit {0})
  unfolding validate_kind
  validate_record r = do
    map_err (validate_correlation_id r.correlation_id) journal_schema
    fail_if (ltb_ℤ r.recorded_at_ms (pos 0)) journal_schema
    validate_kind r.correlation_id r.event

pub record InMemoryJournal (Num : Type 0) : Type 0 where
  pub events : List (JournalEvent Num)

module _ {Num : Type 0} ⦃d : Decimal Num⦄ where
  -- `append` of the memory journal, with the journal after it.
  unfoldable pub append_memory :
      InMemoryJournal Num
      → ℤ
      → Text
      → JournalEventKind Num
      → InMemoryJournal Num × Result (JournalEvent Num)
  append_memory j recorded_at_ms id event =
      let r : JournalEvent Num = record {
        schema_version = execution_schema_version;
        sequence = length j.events;
        recorded_at_ms = recorded_at_ms;
        correlation_id = id;
        event = event;
      } in
      let checked : Result (Unit {0}) =
        fail_if (leb u64_bound (length j.events)) journal_schema >> validate_record r in
      elim checked [
        | ok done ↦ (record { events = j.events ++ r ∷ [] }, ok r)
        | err e ↦ (j, err e)
        | panic ↦ (j, panic)
      ]

  -- The transitions that the events of one correlation identifier record.
  abbrev transition_of : JournalEventKind Num → List (LifecycleTransition Num)
  transition_of (lifecycle_transition t) = t ∷ []
  transition_of _ = []

  unfoldable pub own_transitions : Text → List (JournalEvent Num) → List (LifecycleTransition Num)
  own_transitions id [] = []
  own_transitions id (e ∷ es) =
      let rest = own_transitions id es in
      if text_eq e.correlation_id id then transition_of e.event ++ rest else rest

  -- `OrderStateMachine::recover_from_journal` of lifecycle.rs
  unfoldable pub recover_from_journal :
      ValidatedOrder Num → ClientOrderId → List (JournalEvent Num) → Result (OrderStateMachine Num)
  unfolding own_transitions
  recover_from_journal order id events =
      recover order id (own_transitions order.correlation_id events)
