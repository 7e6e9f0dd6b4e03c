-- ===== src/Examples/Machines.antt =====
-- Order state machines of crates/hypercarry-execution/src/lifecycle.rs on concrete observations.
use hypercarry.Base.{ℕ, ◌≡◌, ◌⊎◌, refl, some, List, [], ◌∷◌, map}
use hypercarry.Base.Int.{pos}
use hypercarry.Base.Text.{text_eq}
use hypercarry.Decimal.Fixed.{Fixed, fixed, cents}
use hypercarry.Execution.Error.{ok, err, lifecycle}
use hypercarry.Execution.Model.{
  OrderState, submission_pending, open_order, partially_filled, filled, cancelled,
}
use hypercarry.Execution.Lifecycle.{
  OrderStateMachine, duplicate, new_machine, transition, recover, is_duplicate, allowed_transition,
  fill_out_of_range, fill_contradicts, replay_one, replayed, transition_eq, state_eq,
}
use hypercarry.Execution.Lifecycle.Steps.{Observation, observe, final, history}
use hypercarry.Execution.Lifecycle.Replay.{recover-history, recover-observed, observed}
use hypercarry.Execution.Lifecycle.Invariant.{
  IsConsistent, Advances, terminal_filled, final-IsConsistent, final-Advances, terminal_absorbs,
}
use hypercarry.Examples.Orders.{sell_order, sell_order_valid}
use hypercarry.Examples.Identities.{id_1}

abbrev seen : OrderState → ℕ → ℕ → Observation Fixed
seen to at_ms fill = record {
  to = to;
  at_ms = pos at_ms;
  venue_id = some 7;
  cumulative = cents fill;
}

-- A fill in two parts, with a duplicate and a late acknowledgement that is refused.
abbrev observations : List (Observation Fixed)
observations =
    seen submission_pending 1001 0
    ∷ seen open_order 1002 0
    ∷ seen partially_filled 1003 50
    ∷ seen partially_filled 1004 50
    ∷ seen open_order 1005 0
    ∷ seen filled 1006 123
    ∷ []

abbrev machine_0 : OrderStateMachine Fixed
machine_0 = new_machine sell_order id_1

abbrev machine_filled : OrderStateMachine Fixed
machine_filled = record {
  order = sell_order;
  client_order_id = id_1;
  state = filled;
  venue_order_id = some 7;
  cumulative_filled = cents 123;
  last_occurred_at_ms = pos 1006;
}

final-observations : final machine_0 observations ≡ machine_filled
unfolding final new_machine transition is_duplicate allowed_transition fill_out_of_range
    fill_contradicts fixed
final-observations = refl

recover-observations : recover sell_order id_1 (history machine_0 observations) ≡ ok machine_filled
unfolding recover history new_machine transition is_duplicate allowed_transition fill_out_of_range
    fill_contradicts replay_one replayed transition_eq state_eq text_eq fixed
recover-observations = refl

final-IsConsistent_example : IsConsistent (final machine_0 observations)
final-IsConsistent_example = final-IsConsistent sell_order id_1 observations sell_order_valid

final-Advances_example : Advances machine_0 (final machine_0 observations)
final-Advances_example = final-Advances machine_0 observations

recover-history_example :
    recover sell_order id_1 (history machine_0 observations) ≡ ok (final machine_0 observations)
recover-history_example = recover-history sell_order id_1 observations

recover-observed_example :
    (machine_filled ≡ final machine_0 (map observed (history machine_0 observations)))
    × (history machine_0 (map observed (history machine_0 observations))
        ≡ history machine_0 observations)
recover-observed_example =
    recover-observed sell_order id_1 (history machine_0 observations) machine_filled
      recover-observations

terminal_absorbs_example :
    ((observe machine_filled (seen cancelled 1007 123) ≡ ok (duplicate, machine_filled))
      ⊎ (observe machine_filled (seen cancelled 1007 123) ≡ err lifecycle))
    × (final machine_filled observations ≡ machine_filled)
terminal_absorbs_example =
    terminal_absorbs machine_filled (seen cancelled 1007 123) observations terminal_filled
