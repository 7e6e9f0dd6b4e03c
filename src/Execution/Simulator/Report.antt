-- ===== src/Execution/Simulator/Report.antt =====
-- What a report of the simulator in crates/hypercarry-execution/src/simulator.rs says: its fills and
-- its outcome.
use hypercarry.Base.{◌≡◌, ap, true, false, Option, none, some, List, [], ◌∷◌, ◌++◌, arith}
use hypercarry.Base.Int.{ℤ, pos, ◌+ℤ◌, ◌≤ℤ◌, ◌<ℤ◌, int_laws, pos_part, neg_part}
use hypercarry.Decimal.{Decimal, min_of}
use hypercarry.Decimal.Order.{AtMost, Below}
use hypercarry.Execution.Error.{ok}
use hypercarry.Execution.Model.{
  Side, buy, sell, ValidatedOrder, ExecutionReport, Fill, no_fill, cancelled, filled,
  partially_filled,
}
use hypercarry.Execution.Simulator.{
  MarketFrame, CancelRacePriority, cancel_wins, SimulatorAdapter, winning_cancellation,
  validate_frame, top_of_book, crosses_limit,
}

-- Membership in a list.
pub data Member {ℓ} {A : Type ℓ} (x : A) : List A → Type ℓ where
  here : {xs : List A} → Member x (x ∷ xs)
  there : {y : A} {xs : List A} → Member x xs → Member x (y ∷ xs)

-- No cancellation stands before this time.
pub record IsUncancelled (priority : CancelRacePriority) (cancellation : Option ℤ) (at_ms : ℤ)
    : Type 0 where
  pub not_late : (t : ℤ) → cancellation ≡ some t → at_ms ≤ℤ t
  pub in_time : (t : ℤ) → cancellation ≡ some t → priority ≡ cancel_wins → at_ms <ℤ t

pub IsUncancelled_lem :
    (priority : CancelRacePriority) (cancellation : Option ℤ) (at_ms : ℤ)
    → winning_cancellation priority cancellation at_ms ≡ none
    → IsUncancelled priority cancellation at_ms
unfolding winning_cancellation
IsUncancelled_lem priority cancellation at_ms h = record {
  not_late = λ t e. ground arith;
  in_time = λ t e w. ground arith;
}

pub winning_cancellation-eq-some :
    (priority : CancelRacePriority) (cancellation : Option ℤ) (at_ms t : ℤ)
    → winning_cancellation priority cancellation at_ms ≡ some t
    → cancellation ≡ some t
unfolding winning_cancellation
winning_cancellation-eq-some priority none at_ms t h = absurd (ground arith)
winning_cancellation-eq-some priority (some x) at_ms t h = ground arith

module _ {Num : Type 0} ⦃d : Decimal Num⦄ where
  -- The price is no worse than the limit.
  abbrev pub WithinLimit : Side → Num → Num → Type 0
  WithinLimit buy price limit_price = AtMost price limit_price
  WithinLimit sell price limit_price = AtMost limit_price price

  -- A fill at one of the frames, not before the order could reach the market, of a positive quantity
  -- that the frame offered, at a price within the limit, and before any cancellation.
  pub record IsFair (s : SimulatorAdapter Num) (order : ValidatedOrder Num) (eligible_at_ms : ℤ)
      (fill : Fill Num) : Type 0 where
    pub frame : MarketFrame Num
    pub is_frame : Member frame s.frames
    pub same_time : fill.occurred_at_ms ≡ frame.observed_at_ms
    pub eligible : eligible_at_ms ≤ℤ fill.occurred_at_ms
    pub quantity_pos : Below d.zero fill.quantity
    pub offered : AtMost fill.quantity (top_of_book order.side frame).1
    pub within_limit : WithinLimit order.side fill.price order.limit_price
    pub uncancelled :
        IsUncancelled s.config.cancel_race_priority s.cancellation_at_ms fill.occurred_at_ms

  -- The sum of the quantities of the fills, in units.
  unfoldable pub filled_units : List (Fill Num) → ℤ
  filled_units [] = pos 0
  filled_units (f ∷ fs) = d.units f.quantity +ℤ filled_units fs

  pub filled_units-append :
      (fs : List (Fill Num)) (f : Fill Num)
      → filled_units (fs ++ f ∷ []) ≡ filled_units fs +ℤ d.units f.quantity
  unfolding filled_units
  filled_units-append [] f = omega int_laws
  filled_units-append (x ∷ fs) f =
      omega
        (int_laws, ap pos_part (filled_units-append fs f), ap neg_part (filled_units-append fs f))

  -- The four outcomes of a replay, with the sum of the fills and what was left of the order.
  pub data IsOutcome (s : SimulatorAdapter Num) (order : ValidatedOrder Num)
      (report : ExecutionReport Num) : Type 0 where
    completed :
        report.state ≡ filled
        → report.cancellation ≡ none
        → filled_units report.fills ≡ d.units order.quantity
        → IsOutcome s order report
    cut_short :
        (at_ms : ℤ) (remaining : Num)
        → report.state ≡ cancelled
        → s.cancellation_at_ms ≡ some at_ms
        → report.cancellation
          ≡ some (record { occurred_at_ms = at_ms; remaining_quantity = remaining })
        → Below d.zero remaining
        → filled_units report.fills +ℤ d.units remaining ≡ d.units order.quantity
        → IsOutcome s order report
    left_partial :
        report.state ≡ partially_filled
        → s.cancellation_at_ms ≡ none
        → report.cancellation ≡ none
        → pos 0 <ℤ filled_units report.fills
        → filled_units report.fills <ℤ d.units order.quantity
        → IsOutcome s order report
    left_whole :
        report.state ≡ no_fill
        → s.cancellation_at_ms ≡ none
        → report.cancellation ≡ none
        → report.fills ≡ []
        → IsOutcome s order report

  pub WithinLimit_lem :
      (side : Side) (price limit_price : Num)
      → crosses_limit side price limit_price ≡ true
      → WithinLimit side (d.normalize price) limit_price
  unfolding crosses_limit
  WithinLimit_lem buy price limit_price h =
      ground (arith, d.le_units price limit_price, d.units_normalize price)
  WithinLimit_lem sell price limit_price h =
      ground (arith, d.le_units limit_price price, d.units_normalize price)

  -- What a valid frame offers, where it offers something, is positive.
  pub offer_pos :
      (side : Side) (f : MarketFrame Num)
      → validate_frame f ≡ ok tt
      → d.eq (top_of_book side f).1 d.zero ≡ false
      → Below d.zero (top_of_book side f).1
  unfolding validate_frame top_of_book
  offer_pos buy f v z = ground (arith, d.lt_units f.ask_size d.zero, d.eq_units f.ask_size d.zero)
  offer_pos sell f v z = ground (arith, d.lt_units f.bid_size d.zero, d.eq_units f.bid_size d.zero)

  pub min_of_pos : (a b : Num) → Below d.zero a → Below d.zero b → Below d.zero (min_of a b)
  unfolding min_of
  min_of_pos a b ha hb = ground arith
