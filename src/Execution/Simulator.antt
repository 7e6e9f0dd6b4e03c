-- ===== src/Execution/Simulator.antt =====
-- crates/hypercarry-execution/src/simulator.rs: market frames, replay assumptions and the replay of
-- one order against the frames.
pub mod Report
pub mod Frames
pub mod Conserves
pub mod Fair
use hypercarry.Base.{
  ℕ, ◌≡◌, Bool, true, false, not, ◌&&◌, ◌||◌, Option, none, some, List, [], ◌∷◌, ◌++◌, any, filter,
  if◌then◌else◌,
}
use hypercarry.Base.Int.{ℤ, pos, ltb_ℤ, leb_ℤ, eqb_ℤ, checked_add, to_i64}
use hypercarry.Decimal.{Decimal, min_of}
use hypercarry.Execution.Error.{
  Result, ok, err, panic, simulation, ◌>>=◌, ◌>>◌, fail_if, or_fail, or_panic,
}
use hypercarry.Execution.Model.{
  Side, buy, sell, ValidatedOrder, validate_order, ExecutionMode, ExecutionReport, Fill,
  Cancellation, OrderState, no_fill, cancelled, filled, partially_filled, empty_report,
}

abbrev pub bps_denominator : ℕ
bps_denominator = 10_000

pub record MarketFrame (Num : Type 0) : Type 0 where
  pub observed_at_ms : ℤ
  pub best_bid : Num
  pub best_ask : Num
  pub bid_size : Num
  pub ask_size : Num

pub data CancelRacePriority : Type 0 where
  cancel_wins fill_wins : CancelRacePriority

abbrev cancel_has_priority : CancelRacePriority → Bool
cancel_has_priority cancel_wins = true
cancel_has_priority fill_wins = false

pub record SimulationConfig (Num : Type 0) : Type 0 where
  pub latency_ms : ℕ
  pub fee_bps : Num
  pub slippage_bps : Num
  pub cancel_race_priority : CancelRacePriority

pub record SimulatorAdapter (Num : Type 0) : Type 0 where
  pub frames : List (MarketFrame Num)
  pub config : SimulationConfig Num
  pub cancellation_at_ms : Option ℤ

-- What one frame makes of the replay: a final report, or a report and what remains of the order.
pub data FrameOutcome (Num : Type 0) : Type 0 where
  stopped : ExecutionReport Num → FrameOutcome Num
  going : ExecutionReport Num → Num → FrameOutcome Num

-- `frames.windows(2).any(..)`: a frame is later than the next one.
unfoldable pub out_of_order : {Num : Type 0} → List (MarketFrame Num) → Bool
out_of_order [] = false
out_of_order (f ∷ []) = false
out_of_order (f ∷ g ∷ rest) = ltb_ℤ g.observed_at_ms f.observed_at_ms || out_of_order (g ∷ rest)

abbrev option_before_epoch : Option ℤ → Bool
option_before_epoch none = false
option_before_epoch (some t) = ltb_ℤ t (pos 0)

-- The test inside `winning_cancellation`.
abbrev pub wins : CancelRacePriority → ℤ → ℤ → Bool
wins priority cancelled_at_ms frame_at_ms =
    ltb_ℤ cancelled_at_ms frame_at_ms
    || (eqb_ℤ cancelled_at_ms frame_at_ms && cancel_has_priority priority)

unfoldable pub winning_cancellation : CancelRacePriority → Option ℤ → ℤ → Option ℤ
winning_cancellation priority none frame_at_ms = none
winning_cancellation priority (some t) frame_at_ms =
    if wins priority t frame_at_ms then some t else none

module _ {Num : Type 0} ⦃d : Decimal Num⦄ where
  -- `MarketFrame::validate`
  unfoldable pub validate_frame : MarketFrame Num → Result (Unit {0})
  validate_frame f = do
    fail_if (ltb_ℤ f.observed_at_ms (pos 0)) simulation
    fail_if (d.le f.best_bid d.zero || d.le f.best_ask d.zero || d.lt f.best_ask f.best_bid)
        simulation
    fail_if (d.lt f.bid_size d.zero || d.lt f.ask_size d.zero) simulation

  -- `MarketFrame::new`
  unfoldable pub new_frame : ℤ → Num → Num → Num → Num → Result (MarketFrame Num)
  new_frame observed_at_ms best_bid best_ask bid_size ask_size =
      let frame : MarketFrame Num = record {
        observed_at_ms = observed_at_ms;
        best_bid = best_bid;
        best_ask = best_ask;
        bid_size = bid_size;
        ask_size = ask_size;
      } in
      validate_frame frame >> ok frame

  -- The test of the fee and the slippage, which `SimulationConfig::new` and `SimulatorAdapter::new` make.
  unfoldable pub bad_assumptions : Num → Num → Bool
  bad_assumptions fee_bps slippage_bps =
      d.lt fee_bps d.zero
      || d.lt slippage_bps d.zero
      || d.le (d.from_u32 bps_denominator) slippage_bps

  -- `SimulationConfig::new`
  unfoldable pub new_config : ℕ → Num → Num → CancelRacePriority → Result (SimulationConfig Num)
  new_config latency_ms fee_bps slippage_bps priority = do
    fail_if (bad_assumptions fee_bps slippage_bps) simulation
    ok (record {
      latency_ms = latency_ms;
      fee_bps = fee_bps;
      slippage_bps = slippage_bps;
      cancel_race_priority = priority;
    })

  unfoldable pub validate_frames : List (MarketFrame Num) → Result (Unit {0})
  validate_frames [] = ok tt
  validate_frames (f ∷ rest) = validate_frame f >> validate_frames rest

  -- `SimulatorAdapter::new`
  unfoldable pub new_adapter :
      List (MarketFrame Num) → SimulationConfig Num → Option ℤ → Result (SimulatorAdapter Num)
  new_adapter frames config cancellation_at_ms = do
    fail_if (out_of_order frames) simulation
    validate_frames frames
    fail_if (bad_assumptions config.fee_bps config.slippage_bps) simulation
    fail_if (option_before_epoch cancellation_at_ms) simulation
    ok (record { frames = frames; config = config; cancellation_at_ms = cancellation_at_ms })

  unfoldable pub crosses_limit : Side → Num → Num → Bool
  crosses_limit buy execution_price limit_price = d.le execution_price limit_price
  crosses_limit sell execution_price limit_price = d.le limit_price execution_price

  -- The price with its slippage, in operators that panic where they overflow.
  unfoldable pub slipped : Num → Side → Num → Result Num
  slipped price buy fraction = do
    factor ← or_panic (d.checked_add d.one fraction)
    or_panic (d.checked_mul price factor)
  slipped price sell fraction = do
    factor ← or_panic (d.checked_sub d.one fraction)
    or_panic (d.checked_mul price factor)

  unfoldable pub apply_slippage : Num → Side → Num → Result Num
  apply_slippage price side slippage_bps = do
    fraction ← or_panic (d.checked_div slippage_bps (d.from_u32 bps_denominator))
    value ← slipped price side fraction
    fail_if (d.le value d.zero) simulation
    ok value

  -- The side of the book that an order takes: its price and its size.
  unfoldable pub top_of_book : Side → MarketFrame Num → Num × Num
  top_of_book buy f = (f.best_ask, f.ask_size)
  top_of_book sell f = (f.best_bid, f.bid_size)

  unfoldable pub fee_quote : Num → Num → Num → Result Num
  fee_quote quantity price fee_bps = do
    notional ← or_panic (d.checked_mul quantity price)
    scaled ← or_panic (d.checked_mul notional fee_bps)
    fee ← or_panic (d.checked_div scaled (d.from_u32 bps_denominator))
    ok (d.normalize fee)

  unfoldable pub cancelled_report : ExecutionReport Num → ℤ → Num → ExecutionReport Num
  cancelled_report report at_ms remaining = record report {
    state = cancelled;
    cancellation = some (record { occurred_at_ms = at_ms; remaining_quantity = remaining });
  }

  unfoldable pub with_fill : ExecutionReport Num → OrderState → Fill Num → ExecutionReport Num
  with_fill report state fill = record report { state = state; fills = report.fills ++ fill ∷ [] }

  -- After the last frame.
  unfoldable pub finish : Option ℤ → ExecutionReport Num → Num → ExecutionReport Num
  finish none report remaining = report
  finish (some t) report remaining = cancelled_report report t remaining

  -- The body of the loop after the test for a cancellation. A `continue` is `going` with nothing
  -- changed.
  unfoldable pub take_frame :
      SimulatorAdapter Num
      → ValidatedOrder Num
      → MarketFrame Num
      → ExecutionReport Num
      → Num
      → Result (FrameOutcome Num)
  take_frame s order f report remaining = do
    price ← apply_slippage (top_of_book order.side f).0 order.side s.config.slippage_bps
    if not (crosses_limit order.side price order.limit_price)
          || d.eq (top_of_book order.side f).1 d.zero
        then ok (going report remaining)
        else do
          let quantity = min_of remaining (top_of_book order.side f).1
          fee ← fee_quote quantity price s.config.fee_bps
          left ← or_panic (d.checked_sub remaining quantity)
          let fill : Fill Num = record {
            occurred_at_ms = f.observed_at_ms;
            quantity = quantity;
            price = d.normalize price;
            fee_quote = fee;
          }
          if d.eq left d.zero
              then ok (stopped (with_fill report filled fill))
              else ok (going (with_fill report partially_filled fill) left)

  -- The body of the loop, where a cancellation may have won.
  unfoldable pub step_frame :
      Option ℤ
      → SimulatorAdapter Num
      → ValidatedOrder Num
      → MarketFrame Num
      → ExecutionReport Num
      → Num
      → Result (FrameOutcome Num)
  unfolding take_frame
  step_frame (some t) s order f report remaining =
      ok (stopped (cancelled_report report t remaining))
  step_frame none s order f report remaining = take_frame s order f report remaining

  -- The loop over the frames that are late enough, with the report and the remaining quantity.
  unfoldable pub replay_frames :
      SimulatorAdapter Num
      → ValidatedOrder Num
      → List (MarketFrame Num)
      → ExecutionReport Num
      → Num
      → Result (ExecutionReport Num)
  unfolding step_frame
  replay_frames s order [] report remaining = ok (finish s.cancellation_at_ms report remaining)
  replay_frames s order (f ∷ rest) report remaining = do
    outcome ←
        step_frame
          (winning_cancellation s.config.cancel_race_priority s.cancellation_at_ms f.observed_at_ms)
          s order f report remaining
    elim outcome [
      | stopped final ↦ ok final
      | going next left ↦ replay_frames s order rest next left
    ]

  abbrev pub is_late : ℤ → MarketFrame Num → Bool
  is_late eligible_at_ms f = leb_ℤ eligible_at_ms f.observed_at_ms

  -- `SimulatorAdapter::simulate`
  unfoldable pub simulate : SimulatorAdapter Num → ValidatedOrder Num → Result (ExecutionReport Num)
  simulate s order = do
    validate_order order
    latency_ms ← or_fail (to_i64 s.config.latency_ms) simulation
    eligible_at_ms ← or_fail (checked_add order.created_at_ms latency_ms) simulation
    replay_frames s order (filter (is_late eligible_at_ms) s.frames)
        (empty_report order ExecutionMode.simulation no_fill) order.quantity
