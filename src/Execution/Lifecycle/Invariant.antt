-- ===== src/Execution/Lifecycle/Invariant.antt =====
-- What the states of crates/hypercarry-execution/src/lifecycle.rs say of the fill, after any
-- observations.
use hypercarry.Base.{ℕ, ◌≡◌, refl, ap, ◌⊎◌, inl, inr, false, Option, some, List, [], ◌∷◌, arith}
use hypercarry.Base.Int.{ℤ, ◌≤ℤ◌}
use hypercarry.Decimal.{Decimal}
use hypercarry.Decimal.Order.{AtMost, Below, SameValue}
use hypercarry.Execution.Error.{ok, err, lifecycle}
use hypercarry.Execution.Model.{
  OrderState, open_order, dry_run_recorded, partially_filled, filled, cancelled, rejected, no_fill,
  ValidatedOrder, validate_order,
}
use hypercarry.Execution.Identity.{ClientOrderId}
use hypercarry.Execution.Lifecycle.{
  OrderStateMachine, allowed_transition, fill_out_of_range, fill_contradicts, advanced, new_machine,
  duplicate,
}
use hypercarry.Execution.Lifecycle.Steps.{
  Passes, Observation, after, observe, final, after_cases, transition_cases,
}

-- The states that end an order.
pub data IsTerminal : OrderState → Type 0 where
  terminal_filled : IsTerminal filled
  terminal_cancelled : IsTerminal cancelled
  terminal_rejected : IsTerminal rejected
  terminal_no_fill : IsTerminal no_fill
  terminal_dry_run : IsTerminal dry_run_recorded

not-allowed_of_IsTerminal :
    {s : OrderState} (to : OrderState) → IsTerminal s → allowed_transition s to ≡ false
unfolding allowed_transition
not-allowed_of_IsTerminal to terminal_filled = ground arith
not-allowed_of_IsTerminal to terminal_cancelled = ground arith
not-allowed_of_IsTerminal to terminal_rejected = ground arith
not-allowed_of_IsTerminal to terminal_no_fill = ground arith
not-allowed_of_IsTerminal to terminal_dry_run = ground arith

module _ {Num : Type 0} ⦃d : Decimal Num⦄ where
  -- The cumulative fill lies between nothing and the whole quantity, and fits the state.
  pub record IsConsistent (m : OrderStateMachine Num) : Type 0 where
    pub at_least_zero : AtMost d.zero m.cumulative_filled
    pub within_order : AtMost m.cumulative_filled m.order.quantity
    pub partial :
        m.state ≡ partially_filled
        → Below d.zero m.cumulative_filled × Below m.cumulative_filled m.order.quantity
    pub complete : m.state ≡ filled → SameValue m.cumulative_filled m.order.quantity
    pub untouched : m.state ≡ open_order → SameValue m.cumulative_filled d.zero

  pub new_machine-IsConsistent :
      (order : ValidatedOrder Num) (id : ClientOrderId)
      → validate_order order ≡ ok tt
      → IsConsistent (new_machine order id)
  unfolding new_machine validate_order
  new_machine-IsConsistent order id v = ground (arith, d.le_units order.quantity d.zero)

  advanced-IsConsistent :
      (m : OrderStateMachine Num) (to : OrderState) (at_ms : ℤ) (v : Option ℕ) (c : Num)
      → Passes m to at_ms v c
      → IsConsistent (advanced m to at_ms v c)
  unfolding fill_out_of_range fill_contradicts
  advanced-IsConsistent m to at_ms v c p = ground (
    arith,
    d.lt_units c d.zero,
    d.lt_units m.order.quantity c,
    d.le_units c d.zero,
    d.le_units m.order.quantity c,
    d.eq_units c m.order.quantity,
    d.eq_units c d.zero,
  )

  final-keeps {ℓ} :
      (P : OrderStateMachine Num → Type ℓ)
      → ((m : OrderStateMachine Num) (o : Observation Num) → P m → P (after m (observe m o)))
      → (m : OrderStateMachine Num) (os : List (Observation Num)) → P m
      → P (final m os)
  unfolding final
  final-keeps P step m [] h = h
  final-keeps P step m (o ∷ os) h = final-keeps P step (after m (observe m o)) os (step m o h)

  -- After any observations of a valid order the cumulative fill lies between zero and the quantity;
  -- it is strictly between in the state `PartiallyFilled`, the quantity in `Filled` and zero in
  -- `Open`.
  pub final-IsConsistent :
      (order : ValidatedOrder Num) (id : ClientOrderId) (os : List (Observation Num))
      → validate_order order ≡ ok tt
      → IsConsistent (final (new_machine order id) os)
  final-IsConsistent order id os v =
      final-keeps IsConsistent
        (λ m o h.
          after_cases IsConsistent m o h
            (λ p. advanced-IsConsistent m o.to o.at_ms o.venue_id o.cumulative p))
        (new_machine order id) os (new_machine-IsConsistent order id v)

  -- How a machine may have moved on.
  pub record Advances (m n : OrderStateMachine Num) : Type 0 where
    pub same_order : n.order ≡ m.order
    pub same_id : n.client_order_id ≡ m.client_order_id
    pub fill_grows : AtMost m.cumulative_filled n.cumulative_filled
    pub time_grows : m.last_occurred_at_ms ≤ℤ n.last_occurred_at_ms
    pub venue_id_kept : (v : ℕ) → m.venue_order_id ≡ some v → n.venue_order_id ≡ some v

  Advances-advanced :
      (s m : OrderStateMachine Num) (to : OrderState) (at_ms : ℤ) (v : Option ℕ) (c : Num)
      → Passes m to at_ms v c
      → Advances s m
      → Advances s (advanced m to at_ms v c)
  unfolding fill_out_of_range
  Advances-advanced s m to at_ms v c p h = record {
    same_order = h.same_order;
    same_id = h.same_id;
    fill_grows = ground (arith, d.lt_units c m.cumulative_filled);
    time_grows = ground arith;
    venue_id_kept = λ w e. ground (arith, h.venue_id_kept w e);
  }

  -- Over any observations the order and its identifier stay, the fill and the time never fall, and
  -- a venue identifier once known never changes.
  pub final-Advances :
      (m : OrderStateMachine Num) (os : List (Observation Num)) → Advances m (final m os)
  final-Advances m os =
      final-keeps (Advances m)
        (λ n o h.
          after_cases (Advances m) n o h
            (λ p. Advances-advanced m n o.to o.at_ms o.venue_id o.cumulative p h))
        m os
        (record {
          same_order = refl;
          same_id = refl;
          fill_grows = omega arith;
          time_grows = omega arith;
          venue_id_kept = λ v e. e;
        })

  -- In a terminal state every observation is a duplicate or an error, and none of any number of
  -- them changes the machine.
  pub terminal_absorbs :
      (m : OrderStateMachine Num) (o : Observation Num) (os : List (Observation Num))
      → IsTerminal m.state
      → ((observe m o ≡ ok (duplicate, m)) ⊎ (observe m o ≡ err lifecycle)) × (final m os ≡ m)
  terminal_absorbs m o os t = (one, final-keeps (λ n. n ≡ m) stays m os refl)
    where
      one : (observe m o ≡ ok (duplicate, m)) ⊎ (observe m o ≡ err lifecycle)
      one = elim (transition_cases m o.to o.at_ms o.venue_id o.cumulative) [
        | inl (_, e) ↦ inl e
        | inr (inl (p, e)) ↦ absurd (ground (arith, not-allowed_of_IsTerminal o.to t, p.allowed))
        | inr (inr e) ↦ inr e
      ]

      stays : (n : OrderStateMachine Num) (x : Observation Num) → n ≡ m → after n (observe n x) ≡ m
      stays n x e =
          after_cases (λ k. k ≡ m) n x e
            λ p. absurd (
              ground (
                arith,
                not-allowed_of_IsTerminal x.to t,
                p.allowed,
                ap (λ (k : OrderStateMachine Num). k.state) e,
              ))
