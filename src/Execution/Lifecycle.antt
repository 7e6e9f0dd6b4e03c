-- ===== src/Execution/Lifecycle.antt =====
-- crates/hypercarry-execution/src/lifecycle.rs: the state machine of one order. `transition` returns
-- the machine after it.
pub mod Invariant
pub mod Steps
pub mod Replay
use hypercarry.Base.{
  ℕ, ◌≡◌, Bool, true, false, not, ◌&&◌, ◌||◌, Option, none, some, List, [], ◌∷◌, ◌==◌, option_eq,
  is_some, or_else, if◌then◌else◌, arith, refl,
}
use hypercarry.Base.Int.{ℤ, ltb_ℤ, eqb_ℤ}
use hypercarry.Decimal.{Decimal}
use hypercarry.Execution.Error.{Result, ok, err, panic, lifecycle, ◌>>=◌, ◌>>◌, fail_if}
use hypercarry.Execution.Model.{
  OrderState, validated, submission_pending, submission_uncertain, open_order, dry_run_recorded,
  partially_filled, cancel_pending, filled, cancelled, rejected, no_fill, ValidatedOrder,
}
use hypercarry.Execution.Identity.{ClientOrderId, id_eq}

pub record LifecycleTransition (Num : Type 0) : Type 0 where
  pub client_order_id : ClientOrderId
  pub from : OrderState
  pub to : OrderState
  pub occurred_at_ms : ℤ
  pub venue_order_id : Option ℕ
  pub cumulative_filled : Num

pub data TransitionOutcome (Num : Type 0) : Type 0 where
  applied : LifecycleTransition Num → TransitionOutcome Num
  duplicate : TransitionOutcome Num

pub record OrderStateMachine (Num : Type 0) : Type 0 where
  pub order : ValidatedOrder Num
  pub client_order_id : ClientOrderId
  pub state : OrderState
  pub venue_order_id : Option ℕ
  pub cumulative_filled : Num
  pub last_occurred_at_ms : ℤ

-- The derived `==` of `OrderState`.
abbrev state_rank : OrderState → ℕ
state_rank validated = 0
state_rank submission_pending = 1
state_rank submission_uncertain = 2
state_rank open_order = 3
state_rank dry_run_recorded = 4
state_rank partially_filled = 5
state_rank cancel_pending = 6
state_rank filled = 7
state_rank cancelled = 8
state_rank rejected = 9
state_rank no_fill = 10

unfoldable pub state_eq : OrderState → OrderState → Bool
state_eq a b = state_rank a == state_rank b

pub state_eq_sound : (a b : OrderState) → state_eq a b ≡ true → a ≡ b
unfolding state_eq
state_eq_sound a b h = ground arith

pub state_eq_refl : (a : OrderState) → state_eq a a ≡ true
unfolding state_eq
state_eq_refl a = ground arith

unfoldable pub allowed_transition : OrderState → OrderState → Bool
allowed_transition validated submission_pending = true
allowed_transition validated dry_run_recorded = true
allowed_transition validated rejected = true
allowed_transition validated no_fill = true
allowed_transition submission_pending submission_uncertain = true
allowed_transition submission_pending open_order = true
allowed_transition submission_pending partially_filled = true
allowed_transition submission_pending filled = true
allowed_transition submission_pending rejected = true
allowed_transition submission_uncertain open_order = true
allowed_transition submission_uncertain partially_filled = true
allowed_transition submission_uncertain filled = true
allowed_transition submission_uncertain cancelled = true
allowed_transition submission_uncertain rejected = true
allowed_transition cancel_pending open_order = true
allowed_transition cancel_pending partially_filled = true
allowed_transition cancel_pending filled = true
allowed_transition cancel_pending cancelled = true
allowed_transition cancel_pending rejected = true
allowed_transition open_order partially_filled = true
allowed_transition open_order filled = true
allowed_transition open_order cancel_pending = true
allowed_transition open_order cancelled = true
allowed_transition open_order rejected = true
allowed_transition partially_filled filled = true
allowed_transition partially_filled cancel_pending = true
allowed_transition partially_filled cancelled = true
allowed_transition _ _ = false

abbrev id_changed : Option ℕ → Option ℕ → Bool
id_changed known observed =
    is_some known && is_some observed && not (option_eq (λ a b. a == b) known observed)

module _ {Num : Type 0} ⦃d : Decimal Num⦄ where
  -- `OrderStateMachine::new`
  unfoldable pub new_machine : ValidatedOrder Num → ClientOrderId → OrderStateMachine Num
  new_machine order id = record {
    order = order;
    client_order_id = id;
    state = validated;
    venue_order_id = none;
    cumulative_filled = d.zero;
    last_occurred_at_ms = order.created_at_ms;
  }

  -- The cumulative fill is checked against the order's quantity.
  unfoldable pub fill_out_of_range : OrderStateMachine Num → Num → Bool
  fill_out_of_range m cumulative =
      d.lt cumulative m.cumulative_filled
      || d.lt cumulative d.zero
      || d.lt m.order.quantity cumulative

  -- The `match to` with its guards: true where the new state contradicts the fill.
  unfoldable pub fill_contradicts : OrderState → Num → Num → Bool
  fill_contradicts partially_filled cumulative quantity =
      d.le cumulative d.zero || d.le quantity cumulative
  fill_contradicts filled cumulative quantity = not (d.eq cumulative quantity)
  fill_contradicts open_order cumulative quantity = not (d.eq cumulative d.zero)
  fill_contradicts _ cumulative quantity = false

  unfoldable pub is_duplicate : OrderStateMachine Num → OrderState → Option ℕ → Num → Bool
  unfolding state_eq
  is_duplicate m to venue_id cumulative =
      state_eq to m.state
      && option_eq (λ a b. a == b) venue_id m.venue_order_id
      && d.eq cumulative m.cumulative_filled

  abbrev pub recorded :
      OrderStateMachine Num → OrderState → ℤ → Option ℕ → Num → LifecycleTransition Num
  recorded m to at_ms venue_id cumulative = record {
    client_order_id = m.client_order_id;
    from = m.state;
    to = to;
    occurred_at_ms = at_ms;
    venue_order_id = or_else venue_id m.venue_order_id;
    cumulative_filled = cumulative;
  }

  abbrev pub advanced :
      OrderStateMachine Num → OrderState → ℤ → Option ℕ → Num → OrderStateMachine Num
  advanced m to at_ms venue_id cumulative = record m {
    state = to;
    venue_order_id = or_else venue_id m.venue_order_id;
    cumulative_filled = cumulative;
    last_occurred_at_ms = at_ms;
  }

  -- `transition`, with the machine after it.
  unfoldable pub transition :
      OrderStateMachine Num
      → OrderState
      → ℤ
      → Option ℕ
      → Num
      → Result (TransitionOutcome Num × OrderStateMachine Num)
  transition m to at_ms venue_id cumulative =
      if is_duplicate m to venue_id cumulative then ok (duplicate, m) else do
        fail_if (ltb_ℤ at_ms m.last_occurred_at_ms) lifecycle
        fail_if (not (allowed_transition m.state to)) lifecycle
        fail_if (id_changed m.venue_order_id venue_id) lifecycle
        fail_if (fill_out_of_range m cumulative) lifecycle
        fail_if (fill_contradicts to cumulative m.order.quantity) lifecycle
        ok (
          applied (recorded m to at_ms venue_id cumulative),
          advanced m to at_ms venue_id cumulative,
        )

  -- The derived `==` of `LifecycleTransition`.
  unfoldable pub transition_eq : LifecycleTransition Num → LifecycleTransition Num → Bool
  unfolding state_eq
  transition_eq a b =
      id_eq a.client_order_id b.client_order_id
      && state_eq a.from b.from
      && state_eq a.to b.to
      && eqb_ℤ a.occurred_at_ms b.occurred_at_ms
      && option_eq (λ x y. x == y) a.venue_order_id b.venue_order_id
      && d.eq a.cumulative_filled b.cumulative_filled

  -- What `recover` makes of the outcome of one replayed transition.
  unfoldable pub replayed :
      LifecycleTransition Num
      → TransitionOutcome Num × OrderStateMachine Num
      → Result (OrderStateMachine Num)
  replayed expected (applied actual, m) =
      fail_if (not (transition_eq actual expected)) lifecycle >> ok m
  replayed expected (duplicate, m) = err lifecycle

  -- The body of the loop of `recover`.
  unfoldable pub replay_one :
      OrderStateMachine Num
      → ClientOrderId
      → LifecycleTransition Num
      → Result (OrderStateMachine Num)
  unfolding state_eq
  replay_one m id expected = do
    fail_if (not (id_eq expected.client_order_id id) || not (state_eq expected.from m.state))
        lifecycle
    outcome ←
        transition m expected.to expected.occurred_at_ms expected.venue_order_id
          expected.cumulative_filled
    replayed expected outcome

  unfoldable pub replay_all :
      OrderStateMachine Num
      → ClientOrderId
      → List (LifecycleTransition Num)
      → Result (OrderStateMachine Num)
  replay_all m id [] = ok m
  replay_all m id (t ∷ ts) = replay_one m id t >>= λ next. replay_all next id ts

  -- `OrderStateMachine::recover`
  unfoldable pub recover :
      ValidatedOrder Num
      → ClientOrderId
      → List (LifecycleTransition Num)
      → Result (OrderStateMachine Num)
  unfolding replay_all
  recover order id transitions = replay_all (new_machine order id) id transitions
