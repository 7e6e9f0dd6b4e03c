-- ===== src/Execution/Lifecycle/Replay.antt =====
-- `OrderStateMachine::recover` of crates/hypercarry-execution/src/lifecycle.rs, against the runs of a
-- machine.
use hypercarry.Base.{
  Bool, ◌&&◌, ℕ, ◌≡◌, refl, sym, ap, ◌∙◌, inl, inr, true, false, Option, none, some, List, [], ◌∷◌,
  ◌++◌, map, ◌==◌, option_eq, or_else, arith,
}
use hypercarry.Base.Int.{ℤ}
use hypercarry.Base.Text.{text_eq_refl, text_eq_sound}
use hypercarry.Decimal.{Decimal}
use hypercarry.Decimal.Order.{eq_refl}
use hypercarry.Execution.Error.{ok, >>=-eq-ok}
use hypercarry.Execution.Model.{OrderState, ValidatedOrder, OrderState}
use hypercarry.Execution.Identity.{ClientOrderId}
use hypercarry.Execution.Lifecycle.{
  LifecycleTransition, OrderStateMachine, allowed_transition, state_eq, state_eq_sound, id_changed,
  is_duplicate, recorded, advanced, transition_eq, replayed, replay_one, replay_all, recover,
  new_machine,
}
use hypercarry.Execution.Lifecycle.Steps.{
  Passes, transition_of_Passes, transition_cases, Observation, after, logged, observe, final,
  history, after_cases,
}

-- No state may follow itself.
not-allowed_self : (a b : OrderState) → allowed_transition a b ≡ true → state_eq b a ≡ false
unfolding allowed_transition state_eq
not-allowed_self a b h = ground arith

merged_id : (v w : Option ℕ) → id_changed w v ≡ false → id_changed w (or_else v w) ≡ false
merged_id v w h = ground arith

or_else_twice : (v w : Option ℕ) → or_else (or_else v w) w ≡ or_else v w
or_else_twice none none = refl
or_else_twice none (some w) = refl
or_else_twice (some v) w = refl

option_eq_refl : (v : Option ℕ) → option_eq (λ a b. a == b) v v ≡ true
option_eq_refl none = refl
option_eq_refl (some v) = ground arith

option_eq_sound : (v w : Option ℕ) → option_eq (λ a b. a == b) v w ≡ true → v ≡ w
option_eq_sound v w h = ground arith

six :
    (a b c d e f : Bool)
    → (a && b && c && d && e && f) ≡ true
    → (a ≡ true) × (b ≡ true) × (c ≡ true) × (d ≡ true) × (e ≡ true) × (f ≡ true)
six a b c d e f h = ground arith

module _ {Num : Type 0} ⦃d : Decimal Num⦄ where
  transition_eq_refl : (t : LifecycleTransition Num) → transition_eq t t ≡ true
  unfolding transition_eq
  transition_eq_refl t = ground (
    arith,
    text_eq_refl t.client_order_id.bytes,
    option_eq_refl t.venue_order_id,
    eq_refl t.cumulative_filled,
  )

  -- An advance is replayed with the venue identifier that it recorded.
  Passes-merged :
      (m : OrderStateMachine Num) (to : OrderState) (at_ms : ℤ) (v : Option ℕ) (c : Num)
      → Passes m to at_ms v c
      → Passes m to at_ms (or_else v m.venue_order_id) c
  unfolding is_duplicate
  Passes-merged m to at_ms v c p =
      ground (arith, not-allowed_self m.state to, merged_id v m.venue_order_id)

  replay_one-recorded :
      (m : OrderStateMachine Num) (to : OrderState) (at_ms : ℤ) (v : Option ℕ) (c : Num)
      → Passes m to at_ms v c
      → replay_one m m.client_order_id (recorded m to at_ms v c) ≡ ok (advanced m to at_ms v c)
  unfolding replay_one replayed
  replay_one-recorded m to at_ms v c p = ground (
    arith,
    text_eq_refl m.client_order_id.bytes,
    transition_of_Passes m to at_ms (or_else v m.venue_order_id) c (Passes-merged m to at_ms v c p),
    or_else_twice v m.venue_order_id,
    transition_eq_refl (recorded m to at_ms (or_else v m.venue_order_id) c),
  )

  -- Replaying what one observation left in the journal gives the machine after it.
  replay_observation :
      (m : OrderStateMachine Num) (o : Observation Num) (ts : List (LifecycleTransition Num))
      → replay_all m m.client_order_id (logged (observe m o) ++ ts)
        ≡ replay_all (after m (observe m o)) m.client_order_id ts
  unfolding replay_all
  replay_observation m o ts = elim (transition_cases m o.to o.at_ms o.venue_id o.cumulative) [
    | inl (_, e) ↦ rw e refl
    | inr (inl (p, e)) ↦
        rw e (rw (replay_one-recorded m o.to o.at_ms o.venue_id o.cumulative p) refl)
    | inr (inr e) ↦ rw e refl
  ]

  after-client_order_id :
      (m : OrderStateMachine Num) (o : Observation Num)
      → (after m (observe m o)).client_order_id ≡ m.client_order_id
  after-client_order_id m o =
      after_cases (λ m'. m'.client_order_id ≡ m.client_order_id) m o refl (λ p. refl)

  replay_all-history :
      (m : OrderStateMachine Num) (os : List (Observation Num))
      → replay_all m m.client_order_id (history m os) ≡ ok (final m os)
  unfolding history final
  replay_all-history m [] = unfold replay_all in refl
  replay_all-history m (o ∷ os) =
      replay_observation m o (history (after m (observe m o)) os)
      ∙ ap (λ i. replay_all (after m (observe m o)) i (history (after m (observe m o)) os))
          (sym (after-client_order_id m o))
      ∙ replay_all-history (after m (observe m o)) os

  -- Whatever observations a host feeds to a new machine, in any order and with any duplicates and
  -- refused ones among them, `recover` of the journalled transitions succeeds and gives the machine
  -- that the host had at the end.
  pub recover-history :
      (order : ValidatedOrder Num) (id : ClientOrderId) (os : List (Observation Num))
      → recover order id (history (new_machine order id) os) ≡ ok (final (new_machine order id) os)
  unfolding recover new_machine
  recover-history order id os = replay_all-history (new_machine order id) os

  -- The observation that a journalled transition records.
  abbrev pub observed : LifecycleTransition Num → Observation Num
  observed t = record {
    to = t.to;
    at_ms = t.occurred_at_ms;
    venue_id = t.venue_order_id;
    cumulative = t.cumulative_filled;
  }

  -- A transition that compares equal to the one that its own observation records is that one.
  recorded_same :
      (m : OrderStateMachine Num) (t : LifecycleTransition Num)
      → transition_eq (recorded m t.to t.occurred_at_ms t.venue_order_id t.cumulative_filled) t
        ≡ true
      → recorded m t.to t.occurred_at_ms t.venue_order_id t.cumulative_filled ≡ t
  unfolding transition_eq
  recorded_same m t h =
      let (id, from, _, _, venue, _) = six _ _ _ _ _ _ h in
      λ i. record {
        client_order_id = record {
          bytes = text_eq_sound m.client_order_id.bytes t.client_order_id.bytes id i;
        };
        from = state_eq_sound m.state t.from from i;
        to = t.to;
        occurred_at_ms = t.occurred_at_ms;
        venue_order_id =
            option_eq_sound (or_else t.venue_order_id m.venue_order_id) t.venue_order_id venue i;
        cumulative_filled = t.cumulative_filled;
      }

  -- An accepted transition is what the machine records of its observation.
  replay_one-observed :
      (m : OrderStateMachine Num) (id : ClientOrderId) (t : LifecycleTransition Num)
      (n : OrderStateMachine Num)
      → replay_one m id t ≡ ok n
      → (n ≡ after m (observe m (observed t))) × (logged (observe m (observed t)) ≡ t ∷ [])
  unfolding replay_one replayed
  replay_one-observed m id t n h = ground (
    arith,
    recorded_same m t,
    transition_cases m t.to t.occurred_at_ms t.venue_order_id t.cumulative_filled,
  )

  replay_all-observed :
      (m : OrderStateMachine Num) (id : ClientOrderId) (ts : List (LifecycleTransition Num))
      (n : OrderStateMachine Num)
      → replay_all m id ts ≡ ok n
      → (n ≡ final m (map observed ts)) × (history m (map observed ts) ≡ ts)
  unfolding replay_all final history
  replay_all-observed m id [] n h = (ground arith, refl)
  replay_all-observed m id (t ∷ ts) n h =
      let (k, hk, hn) = >>=-eq-ok (replay_one m id t) (λ next. replay_all next id ts) h in
      let (same, one) = replay_one-observed m id t k hk in
      let (end, rest) = replay_all-observed k id ts n hn in
      (
        end ∙ ap (λ x. final x (map observed ts)) same,
        ap (λ l. l ++ history (after m (observe m (observed t))) (map observed ts)) one
            ∙ ap (λ x. t ∷ history x (map observed ts)) (sym same)
            ∙ (λ i. t ∷ rest i),
      )

  -- Any log that `recover` accepts, whoever wrote it, is, entry by entry, the journal of a new machine
  -- that observes what its entries record; and it gives the machine at the end of these observations.
  pub recover-observed :
      (order : ValidatedOrder Num) (id : ClientOrderId) (ts : List (LifecycleTransition Num))
      (n : OrderStateMachine Num)
      → recover order id ts ≡ ok n
      → (n ≡ final (new_machine order id) (map observed ts))
        × (history (new_machine order id) (map observed ts) ≡ ts)
  unfolding recover
  recover-observed order id ts n h = replay_all-observed (new_machine order id) id ts n h
