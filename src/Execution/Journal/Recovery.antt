-- ===== src/Execution/Journal/Recovery.antt =====
-- `OrderStateMachine::recover_from_journal` of crates/hypercarry-execution/src/lifecycle.rs, over a
-- journal that many orders share.
use hypercarry.Base.{ℕ, ◌≡◌, refl, ap, ◌∙◌, false, ◌⊎◌, inl, inr, List, [], ◌∷◌, ◌++◌, arith}
use hypercarry.Base.Int.{ℤ}
use hypercarry.Base.Text.{Text, text_eq, text_eq_refl}
use hypercarry.Decimal.{Decimal}
use hypercarry.Execution.Error.{ok}
use hypercarry.Execution.Model.{ValidatedOrder, execution_schema_version}
use hypercarry.Execution.Identity.{ClientOrderId}
use hypercarry.Execution.Lifecycle.{LifecycleTransition, OrderStateMachine, new_machine, recover}
use hypercarry.Execution.Lifecycle.Steps.{Observation, observe, after, logged, final, history}
use hypercarry.Execution.Lifecycle.Replay.{recover-history}
use hypercarry.Execution.Journal.{
  JournalEvent, lifecycle_transition, own_transitions, transition_of, recover_from_journal,
}

module _ {Num : Type 0} ⦃d : Decimal Num⦄ where
  -- The records that a host writes of one observation, at the next sequence numbers.
  abbrev pub recorded_as : Text → ℕ → ℤ → List (LifecycleTransition Num) → List (JournalEvent Num)
  recorded_as id sequence at_ms [] = []
  recorded_as id sequence at_ms (t ∷ ts) =
      record {
        schema_version = execution_schema_version;
        sequence = sequence;
        recorded_at_ms = at_ms;
        correlation_id = id;
        event = lifecycle_transition t;
      }
      ∷ recorded_as id sequence at_ms ts

  -- A journal that a host wrote over the observations of one order: the records of each observation,
  -- with any other records among them that are of other orders or of another kind.
  pub data Journals (id : Text)
      : OrderStateMachine Num → List (Observation Num) → List (JournalEvent Num) → Type 0 where
    nothing : {m : OrderStateMachine Num} → Journals id m [] []
    other :
        {m : OrderStateMachine Num} {os : List (Observation Num)} {es : List (JournalEvent Num)}
        (e : JournalEvent Num)
        → (text_eq e.correlation_id id ≡ false) ⊎ (transition_of e.event ≡ [])
        → Journals id m os es
        → Journals id m os (e ∷ es)
    observed_next :
        {m : OrderStateMachine Num} {os : List (Observation Num)} {es : List (JournalEvent Num)}
        (o : Observation Num) (sequence : ℕ) (at_ms : ℤ)
        → Journals id (after m (observe m o)) os es
        → Journals id m (o ∷ os) (recorded_as id sequence at_ms (logged (observe m o)) ++ es)

  own_transitions-recorded_as :
      (id : Text) (sequence : ℕ) (at_ms : ℤ) (ts : List (LifecycleTransition Num))
      (es : List (JournalEvent Num))
      → own_transitions id (recorded_as id sequence at_ms ts ++ es) ≡ ts ++ own_transitions id es
  unfolding own_transitions
  own_transitions-recorded_as id sequence at_ms [] es = refl
  own_transitions-recorded_as id sequence at_ms (t ∷ ts) es =
      ground (arith, text_eq_refl id, own_transitions-recorded_as id sequence at_ms ts es)

  own_transitions_other :
      (id : Text) (e : JournalEvent Num) (es : List (JournalEvent Num))
      → (text_eq e.correlation_id id ≡ false) ⊎ (transition_of e.event ≡ [])
      → own_transitions id (e ∷ es) ≡ own_transitions id es
  unfolding own_transitions
  own_transitions_other id e es (inl h) = rw h refl
  own_transitions_other id e es (inr h) = ground arith

  own_transitions-history :
      (id : Text) {m : OrderStateMachine Num} {os : List (Observation Num)}
      {es : List (JournalEvent Num)}
      → Journals id m os es
      → own_transitions id es ≡ history m os
  own_transitions-history id nothing = unfold own_transitions history in refl
  own_transitions-history id (other {es} e h j) =
      own_transitions_other id e es h ∙ own_transitions-history id j
  own_transitions-history id {m} (observed_next {os} {es} o sequence at_ms j) =
      own_transitions-recorded_as id sequence at_ms (logged (observe m o)) es
      ∙ ap (λ ts. logged (observe m o) ++ ts) (own_transitions-history id j)
      ∙ unfold history in refl

  -- However the records of one order lie among those of others, recovery from the whole journal gives
  -- the machine that the host had after all its observations.
  pub recover_from_journal-final :
      (order : ValidatedOrder Num) (id : ClientOrderId) (os : List (Observation Num))
      (events : List (JournalEvent Num))
      → Journals order.correlation_id (new_machine order id) os events
      → recover_from_journal order id events ≡ ok (final (new_machine order id) os)
  unfolding recover_from_journal
  recover_from_journal-final order id os events j =
      ap (λ ts. recover order id ts) (own_transitions-history order.correlation_id j)
      ∙ recover-history order id os
