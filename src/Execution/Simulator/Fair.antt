-- ===== src/Execution/Simulator/Fair.antt =====
-- A finished replay of crates/hypercarry-execution/src/simulator.rs.
use hypercarry.Base.{◌≡◌, subst, true, Option, some, List, All}
use hypercarry.Base.Int.{ℤ, pos, ◌≤ℤ◌, checked_add, to_i64}
use hypercarry.Decimal.{Decimal}
use hypercarry.Execution.Error.{ok, simulation, >>=-eq-ok, fail_if-eq-ok, ok-injective}
use hypercarry.Execution.Model.{ValidatedOrder, validate_order, ExecutionReport}
use hypercarry.Execution.Simulator.{
  MarketFrame, SimulationConfig, SimulatorAdapter, new_adapter, validate_frames, simulate,
}
use hypercarry.Execution.Simulator.Report.{IsFair, IsOutcome}
use hypercarry.Execution.Simulator.{out_of_order, bad_assumptions, option_before_epoch}
use hypercarry.Execution.Simulator.Conserves.{Good, replay_frames-Good, usable, start-Running}

module _ {Num : Type 0} ⦃d : Decimal Num⦄ (frames : List (MarketFrame Num))
    (config : SimulationConfig Num) (cancellation_at_ms : Option ℤ) (s : SimulatorAdapter Num)
    (made : new_adapter frames config cancellation_at_ms ≡ ok s) where
  made_frames : validate_frames s.frames ≡ ok tt
  unfolding new_adapter
  made_frames =
      let (_, m1) = fail_if-eq-ok (out_of_order frames) simulation _ made in
      let (_, valid, m2) = >>=-eq-ok (validate_frames frames) _ m1 in
      let (_, m3) =
        fail_if-eq-ok (bad_assumptions config.fee_bps config.slippage_bps) simulation _ m2 in
      let (_, m4) = fail_if-eq-ok (option_before_epoch cancellation_at_ms) simulation _ m3 in
      subst (λ (x : SimulatorAdapter Num). validate_frames x.frames ≡ ok tt) (ok-injective _ _ m4)
        valid

  -- Where every amount up to the quantity of the order is representable: in a report of the simulator
  -- every fill is fair (at a frame not before the order could arrive nor after a cancellation, of a
  -- positive quantity that the frame offered, within the limit price), and the state fits the fills:
  -- `Filled` with the whole quantity, `Cancelled` at the given time with what remained, and otherwise
  -- `PartiallyFilled` or `NoFill` with a part or nothing.
  pub simulate-IsFair :
      (order : ValidatedOrder Num) (latency_ms eligible_at_ms : ℤ) (report : ExecutionReport Num)
      → ((u : ℤ) → pos 0 ≤ℤ u → u ≤ℤ d.units order.quantity → d.fits u ≡ true)
      → to_i64 s.config.latency_ms ≡ some latency_ms
      → checked_add order.created_at_ms latency_ms ≡ some eligible_at_ms
      → simulate s order ≡ ok report
      → All (IsFair s order eligible_at_ms) report.fills × IsOutcome s order report
  unfolding simulate Good
  simulate-IsFair order latency_ms eligible_at_ms report exact el ee e =
      let (_, valid, e1) = >>=-eq-ok (validate_order order) _ e in
      replay_frames-Good s order eligible_at_ms made_frames exact _ _ _ report
        (usable s order eligible_at_ms made_frames exact s.frames (λ f m. m))
        (start-Running s order eligible_at_ms made_frames exact valid) (simp (el, ee) at e1)
