-- ===== src/Examples/Simulations.antt =====
-- Replays of crates/hypercarry-execution/src/simulator.rs on concrete frames.
use hypercarry.Base.{ℕ, ◌*◌, ◌^◌, ◌≡◌, refl, true, none, some, List, [], ◌∷◌, All, arith}
use hypercarry.Base.Int.{ℤ, pos, ◌≤ℤ◌, ◌+ℤ◌, checked_add}
use hypercarry.Base.Text.{byte_len, is_blank}
use hypercarry.Decimal.{min_of}
use hypercarry.Decimal.Fixed.{Fixed, fixed, fixed_fits_small, cents}
use hypercarry.Execution.Error.{ok}
use hypercarry.Execution.Model.{
  ExecutionReport, ExecutionMode, cancelled, validate_order, empty_report,
}
use hypercarry.Execution.Simulator.{
  MarketFrame, cancel_wins, SimulationConfig, SimulatorAdapter, new_adapter, out_of_order,
  validate_frames, validate_frame, bad_assumptions, simulate, replay_frames, step_frame, take_frame,
  winning_cancellation, apply_slippage, slipped, top_of_book, crosses_limit, fee_quote, with_fill,
  cancelled_report, finish,
}
use hypercarry.Execution.Simulator.Report.{IsFair, IsOutcome}
use hypercarry.Execution.Simulator.Fair.{simulate-IsFair}
use hypercarry.Examples.Orders.{sell_order}

abbrev frame_at : ℕ → ℕ → ℕ → MarketFrame Fixed
frame_at at_ms bid size = record {
  observed_at_ms = pos at_ms;
  best_bid = cents bid;
  best_ask = cents 20000;
  bid_size = cents size;
  ask_size = cents 100;
}

-- The first frame comes before the order, the second offers a part at the limit, the third only a worse
-- price, and the cancellation wins over the fourth.
abbrev frames_1 : List (MarketFrame Fixed)
frames_1 =
    frame_at 1000 10100 100
    ∷ frame_at 1010 10060 50
    ∷ frame_at 1020 10000 50
    ∷ frame_at 1030 10100 100
    ∷ []

abbrev config_1 : SimulationConfig Fixed
config_1 = record {
  latency_ms = 10;
  fee_bps = cents 450;
  slippage_bps = cents 0;
  cancel_race_priority = cancel_wins;
}

abbrev adapter_1 : SimulatorAdapter Fixed
adapter_1 = record { frames = frames_1; config = config_1; cancellation_at_ms = some (pos 1030) }

made_adapter : new_adapter frames_1 config_1 (some (pos 1030)) ≡ ok adapter_1
unfolding new_adapter out_of_order validate_frames validate_frame bad_assumptions fixed
made_adapter = refl

abbrev report_1 : ExecutionReport Fixed
report_1 = record {
  schema_version = 1;
  correlation_id = sell_order.correlation_id;
  mode = ExecutionMode.simulation;
  state = cancelled;
  fills =
      record {
        occurred_at_ms = pos 1010;
        quantity = cents 50;
        price = cents 10060;
        fee_quote = pos (226350 * 10 ^ 21);
      }
      ∷ [];
  cancellation = some (record { occurred_at_ms = pos 1030; remaining_quantity = cents 73 });
  rejection = none;
}

simulated : simulate adapter_1 sell_order ≡ ok report_1
unfolding simulate replay_frames step_frame take_frame winning_cancellation apply_slippage slipped
    top_of_book crosses_limit fee_quote with_fill cancelled_report finish validate_order
    empty_report min_of byte_len is_blank checked_add ◌+ℤ◌ fixed
simulated = refl

within_range : (u : ℤ) → pos 0 ≤ℤ u → u ≤ℤ fixed.units sell_order.quantity → fixed.fits u ≡ true
unfolding fixed
within_range u lo hi = fixed_fits_small u lo (omega (arith, hi))

eligible : checked_add sell_order.created_at_ms (pos 10) ≡ some (pos 1010)
unfolding checked_add ◌+ℤ◌
eligible = refl

simulate-IsFair_example :
    All (IsFair adapter_1 sell_order (pos 1010)) report_1.fills
    × IsOutcome adapter_1 sell_order report_1
simulate-IsFair_example =
    simulate-IsFair frames_1 config_1 (some (pos 1030)) adapter_1 made_adapter sell_order (pos 10)
      (pos 1010) report_1 within_range refl eligible simulated
