-- ===== src/Execution/Lifecycle/Steps.antt =====
-- The outcomes of `transition` in crates/hypercarry-execution/src/lifecycle.rs, path by path, and
-- runs of a machine.
use hypercarry.Base.{ℕ, ◌≡◌, ◌⊎◌, inl, inr, true, false, Option, List, [], ◌∷◌, ◌++◌, arith}
use hypercarry.Base.Int.{ℤ, ltb_ℤ}
use hypercarry.Decimal.{Decimal}
use hypercarry.Execution.Error.{Result, ok, err, panic, lifecycle}
use hypercarry.Execution.Model.{OrderState}
use hypercarry.Execution.Lifecycle.{
  LifecycleTransition, TransitionOutcome, applied, duplicate, OrderStateMachine, allowed_transition,
  id_changed, fill_out_of_range, fill_contradicts, is_duplicate, recorded, advanced, transition,
}

module _ {Num : Type 0} ⦃d : Decimal Num⦄ where
  -- The guards that an observation passes to advance the machine.
  pub record Passes (m : OrderStateMachine Num) (to : OrderState) (at_ms : ℤ) (venue_id : Option ℕ)
      (cumulative : Num) : Type 0 where
    pub fresh : is_duplicate m to venue_id cumulative ≡ false
    pub in_time : ltb_ℤ at_ms m.last_occurred_at_ms ≡ false
    pub allowed : allowed_transition m.state to ≡ true
    pub same_id : id_changed m.venue_order_id venue_id ≡ false
    pub in_range : fill_out_of_range m cumulative ≡ false
    pub consistent : fill_contradicts to cumulative m.order.quantity ≡ false

  module _ (m : OrderStateMachine Num) (to : OrderState) (at_ms : ℤ) (venue_id : Option ℕ)
      (cumulative : Num) where
    -- A transition is a duplicate, an advance that passes every guard, or a lifecycle error.
    pub transition_cases :
        ((is_duplicate m to venue_id cumulative ≡ true)
          × (transition m to at_ms venue_id cumulative ≡ ok (duplicate, m)))
        ⊎ (Passes m to at_ms venue_id cumulative
            × (transition m to at_ms venue_id cumulative
                ≡ ok (
                  applied (recorded m to at_ms venue_id cumulative),
                  advanced m to at_ms venue_id cumulative,
                )))
        ⊎ (transition m to at_ms venue_id cumulative ≡ err lifecycle)
    unfolding transition
    transition_cases = ground arith

    pub transition_of_Passes :
        Passes m to at_ms venue_id cumulative
        → transition m to at_ms venue_id cumulative
          ≡ ok (
            applied (recorded m to at_ms venue_id cumulative),
            advanced m to at_ms venue_id cumulative,
          )
    unfolding transition
    transition_of_Passes p = ground arith

    pub Passes-of_applied :
        (t : LifecycleTransition Num) (m' : OrderStateMachine Num)
        → transition m to at_ms venue_id cumulative ≡ ok (applied t, m')
        → Passes m to at_ms venue_id cumulative
          × (t ≡ recorded m to at_ms venue_id cumulative)
          × (m' ≡ advanced m to at_ms venue_id cumulative)
    unfolding transition
    Passes-of_applied t m' h = ground arith

-- One venue observation, and a host that feeds observations to a machine and journals every
-- transition that was applied.
pub record Observation (Num : Type 0) : Type 0 where
  pub to : OrderState
  pub at_ms : ℤ
  pub venue_id : Option ℕ
  pub cumulative : Num

module _ {Num : Type 0} where
  abbrev pub after :
      OrderStateMachine Num
      → Result (TransitionOutcome Num × OrderStateMachine Num)
      → OrderStateMachine Num
  after m (ok (out, m')) = m'
  after m (err e) = m
  after m panic = m

  abbrev pub logged :
      Result (TransitionOutcome Num × OrderStateMachine Num) → List (LifecycleTransition Num)
  logged (ok (applied t, m')) = t ∷ []
  logged (ok (duplicate, m')) = []
  logged (err e) = []
  logged panic = []

module _ {Num : Type 0} ⦃d : Decimal Num⦄ where
  abbrev pub observe :
      OrderStateMachine Num
      → Observation Num
      → Result (TransitionOutcome Num × OrderStateMachine Num)
  observe m o = transition m o.to o.at_ms o.venue_id o.cumulative

  unfoldable pub final : OrderStateMachine Num → List (Observation Num) → OrderStateMachine Num
  final m [] = m
  final m (o ∷ os) = final (after m (observe m o)) os

  unfoldable pub history :
      OrderStateMachine Num → List (Observation Num) → List (LifecycleTransition Num)
  history m [] = []
  history m (o ∷ os) = logged (observe m o) ++ history (after m (observe m o)) os

  -- To prove something of the machine after an observation, prove it of the machine before it and
  -- of an advance.
  pub after_cases {ℓ} :
      (P : OrderStateMachine Num → Type ℓ) (m : OrderStateMachine Num) (o : Observation Num)
      → P m
      → (Passes m o.to o.at_ms o.venue_id o.cumulative
          → P (advanced m o.to o.at_ms o.venue_id o.cumulative))
      → P (after m (observe m o))
  after_cases P m o same next = elim (transition_cases m o.to o.at_ms o.venue_id o.cumulative) [
    | inl (_, e) ↦ rw e same
    | inr (inl (p, e)) ↦ rw e (next p)
    | inr (inr e) ↦ rw e same
  ]
