-- ===== src/Execution/Simulator/Conserves.antt =====
-- The loop of the replay in crates/hypercarry-execution/src/simulator.rs and its invariant.
use hypercarry.Base.{
  ◌≡◌, refl, ap, subst, ◌∙◌, ◌⊎◌, inl, inr, true, false, not, ◌||◌, Option, none, some, List, [],
  ◌∷◌, ◌++◌, All, All-append, arith, filter, Bool-cases,
}
use hypercarry.Base.Int.{ℤ, pos, ◌+ℤ◌, ◌-ℤ◌, ◌≤ℤ◌, ◌<ℤ◌, int_laws, pos_part, neg_part}
use hypercarry.Decimal.{Decimal, min_of}
use hypercarry.Decimal.Order.{Below, min_of_bounds}
use hypercarry.Execution.Error.{ok, >>=-eq-ok, or_panic-eq-ok, ok-injective}
use hypercarry.Execution.Model.{
  ValidatedOrder, validate_order, ExecutionMode, ExecutionReport, Fill, no_fill, filled,
  partially_filled, empty_report,
}
use hypercarry.Execution.Simulator.{
  MarketFrame, SimulatorAdapter, validate_frames, winning_cancellation, apply_slippage, top_of_book,
  crosses_limit, fee_quote, FrameOutcome, stopped, going, take_frame, step_frame, cancelled_report,
  with_fill, finish, replay_frames, is_late,
}
use hypercarry.Execution.Simulator.Report.{
  Member, here, there, IsUncancelled, IsUncancelled_lem, winning_cancellation-eq-some,
  WithinLimit_lem, IsFair, filled_units, filled_units-append, IsOutcome, completed, cut_short,
  left_partial, left_whole, offer_pos, min_of_pos,
}
use hypercarry.Execution.Simulator.Frames.{if_split, both_false, frame_valid}

module _ {Num : Type 0} ⦃d : Decimal Num⦄ (s : SimulatorAdapter Num) (order : ValidatedOrder Num)
    (eligible_at_ms : ℤ) (frames_valid : validate_frames s.frames ≡ ok tt)
    (exact : (u : ℤ) → pos 0 ≤ℤ u → u ≤ℤ d.units order.quantity → d.fits u ≡ true) where
  -- The report and the remaining quantity between two frames.
  pub record Running (report : ExecutionReport Num) (remaining : Num) : Type 0 where
    fair : All (IsFair s order eligible_at_ms) report.fills
    balance : filled_units report.fills +ℤ d.units remaining ≡ d.units order.quantity
    left : Below d.zero remaining
    filled_some : pos 0 ≤ℤ filled_units report.fills
    uncancelled : report.cancellation ≡ none
    untouched :
        ((report.state ≡ no_fill) × (report.fills ≡ []))
        ⊎ ((report.state ≡ partially_filled) × (pos 0 <ℤ filled_units report.fills))

  -- A frame of the adapter that is late enough.
  pub record Usable (f : MarketFrame Num) : Type 0 where
    is_frame : Member f s.frames
    late : eligible_at_ms ≤ℤ f.observed_at_ms

  unfoldable pub Good : ExecutionReport Num → Type 0
  Good report = All (IsFair s order eligible_at_ms) report.fills × IsOutcome s order report

  cancelled-Good :
      (report : ExecutionReport Num) (remaining : Num) (t : ℤ)
      → Running report remaining
      → s.cancellation_at_ms ≡ some t
      → Good (cancelled_report report t remaining)
  unfolding cancelled_report Good
  cancelled-Good report remaining t h e =
      (h.fair, cut_short t remaining refl e refl h.left h.balance)

  finish-Good :
      (report : ExecutionReport Num) (remaining : Num) (c : Option ℤ)
      → Running report remaining
      → s.cancellation_at_ms ≡ c
      → Good (finish c report remaining)
  unfolding finish Good
  finish-Good report remaining none h e = (
    h.fair,
    elim h.untouched [
      | inl (state, empty) ↦ left_whole state e h.uncancelled empty
      | inr (state, some_filled) ↦ left_partial state e h.uncancelled some_filled short
    ],
  )
    where
      short : filled_units report.fills <ℤ d.units order.quantity
      short = omega (
        int_laws,
        h.left,
        ap pos_part h.balance,
        ap neg_part h.balance,
        ap pos_part d.units_zero,
        ap neg_part d.units_zero,
      )
  finish-Good report remaining (some t) h e = cancelled-Good report remaining t h e

  -- One fill: what it took and what it left.
  module _ (f : MarketFrame Num) (report : ExecutionReport Num) (remaining price fee left : Num)
      (usable : Usable f) (running : Running report remaining)
      (uncancelled : IsUncancelled s.config.cancel_race_priority s.cancellation_at_ms
        f.observed_at_ms)
      (crosses : crosses_limit order.side price order.limit_price ≡ true)
      (offers : d.eq (top_of_book order.side f).1 d.zero ≡ false)
      (took : d.checked_sub remaining (min_of remaining (top_of_book order.side f).1)
        ≡ some left) where
    abbrev quantity : Num
    quantity = min_of remaining (top_of_book order.side f).1

    abbrev fill : Fill Num
    fill = record {
      occurred_at_ms = f.observed_at_ms;
      quantity = quantity;
      price = d.normalize price;
      fee_quote = fee;
    }

    quantity_pos : Below d.zero quantity
    quantity_pos =
        min_of_pos remaining (top_of_book order.side f).1 running.left
          (offer_pos order.side f (frame_valid s.frames frames_valid usable.is_frame) offers)

    fill-IsFair : IsFair s order eligible_at_ms fill
    fill-IsFair = record {
      frame = f;
      is_frame = usable.is_frame;
      same_time = refl;
      eligible = usable.late;
      quantity_pos = quantity_pos;
      offered = (min_of_bounds remaining (top_of_book order.side f).1).1;
      within_limit = WithinLimit_lem order.side price order.limit_price crosses;
      uncancelled = uncancelled;
    }

    in_range : d.fits (d.units remaining -ℤ d.units quantity) ≡ true
    in_range =
        exact (d.units remaining -ℤ d.units quantity)
          (omega (int_laws, (min_of_bounds remaining (top_of_book order.side f).1).0))
          (omega (
            int_laws,
            quantity_pos,
            running.filled_some,
            ap pos_part running.balance,
            ap neg_part running.balance,
            ap pos_part d.units_zero,
            ap neg_part d.units_zero,
          ))

    left_units : d.units left ≡ d.units remaining -ℤ d.units quantity
    left_units =
        let (c, ec, uc) = d.sub_exact remaining quantity in_range in
        ap d.units (ground (arith, took, ec)) ∙ uc

    new_total :
        filled_units (report.fills ++ fill ∷ []) ≡ filled_units report.fills +ℤ d.units quantity
    new_total = filled_units-append report.fills fill

    new_balance : filled_units (report.fills ++ fill ∷ []) +ℤ d.units left ≡ d.units order.quantity
    new_balance = omega (
      int_laws,
      ap pos_part new_total,
      ap neg_part new_total,
      ap pos_part left_units,
      ap neg_part left_units,
      ap pos_part running.balance,
      ap neg_part running.balance,
    )

    new-IsFair : All (IsFair s order eligible_at_ms) (report.fills ++ fill ∷ [])
    new-IsFair =
        All-append (IsFair s order eligible_at_ms) report.fills (fill ∷ []) running.fair
          (fill-IsFair, tt)

    new_filled : pos 0 <ℤ filled_units (report.fills ++ fill ∷ [])
    new_filled = omega (
      int_laws,
      quantity_pos,
      running.filled_some,
      ap pos_part new_total,
      ap neg_part new_total,
      ap pos_part d.units_zero,
      ap neg_part d.units_zero,
    )

    left_at_least : d.units d.zero ≤ℤ d.units left
    left_at_least = omega (
      int_laws,
      (min_of_bounds remaining (top_of_book order.side f).1).0,
      ap pos_part left_units,
      ap neg_part left_units,
      ap pos_part d.units_zero,
      ap neg_part d.units_zero,
    )

    filled-Good : d.eq left d.zero ≡ true → Good (with_fill report filled fill)
    unfolding with_fill Good
    filled-Good z = (new-IsFair, completed refl running.uncancelled total)
      where
        none_left : d.units left ≡ pos 0
        none_left = ground (arith, d.eq_units left d.zero, d.units_zero)

        total : filled_units (report.fills ++ fill ∷ []) ≡ d.units order.quantity
        total = omega (
          int_laws,
          ap pos_part new_balance,
          ap neg_part new_balance,
          ap pos_part none_left,
          ap neg_part none_left,
        )

    partial-Running :
        d.eq left d.zero ≡ false → Running (with_fill report partially_filled fill) left
    unfolding with_fill
    partial-Running z = record {
      fair = new-IsFair;
      balance = new_balance;
      left = ground (arith, d.eq_units left d.zero, left_at_least);
      filled_some = omega (arith, new_filled);
      uncancelled = running.uncancelled;
      untouched = inr (refl, new_filled);
    }

  -- What one frame makes of a running replay.
  Continues : FrameOutcome Num → Type 0
  Continues (stopped report) = Good report
  Continues (going report left) = Running report left

  take_frame-Continues :
      (f : MarketFrame Num) (report : ExecutionReport Num) (remaining : Num) (o : FrameOutcome Num)
      → Usable f
      → Running report remaining
      → IsUncancelled s.config.cancel_race_priority s.cancellation_at_ms f.observed_at_ms
      → take_frame s order f report remaining ≡ ok o
      → Continues o
  unfolding take_frame Continues
  take_frame-Continues f report remaining o u h free e =
      let (price, ep, e1) =
        >>=-eq-ok (apply_slippage (top_of_book order.side f).0 order.side s.config.slippage_bps) _
          e in
      elim (if_split
        (not (crosses_limit order.side price order.limit_price)
          || d.eq (top_of_book order.side f).1 d.zero)
        (going report remaining) _ e1) [
          | inl (skip, same) ↦ subst Continues same h
          | inr (take, e2) ↦
              let (crosses, offers) =
                both_false (crosses_limit order.side price order.limit_price)
                  (d.eq (top_of_book order.side f).1 d.zero) take in
              let (fee, ef, e3) =
                >>=-eq-ok
                  (fee_quote (min_of remaining (top_of_book order.side f).1) price s.config.fee_bps)
                  _ e2 in
              let (left, took, e4) =
                or_panic-eq-ok
                  (d.checked_sub remaining (min_of remaining (top_of_book order.side f).1)) _ e3 in
              elim (if_split (d.eq left d.zero) _ _ e4) [
                | inl (z, same) ↦
                    subst Continues same
                      (filled-Good f report remaining price fee left u h free crosses offers took z)
                | inr (z, same) ↦ subst Continues (ok-injective _ _ same) (
                    partial-Running f report remaining price fee left u h free crosses offers took
                      z)
              ]
        ]

  step_frame-Continues :
      (f : MarketFrame Num) (report : ExecutionReport Num) (remaining : Num) (o : FrameOutcome Num)
      (c : Option ℤ)
      → Usable f
      → Running report remaining
      → winning_cancellation s.config.cancel_race_priority s.cancellation_at_ms f.observed_at_ms ≡ c
      → step_frame c s order f report remaining ≡ ok o
      → Continues o
  unfolding step_frame Continues
  step_frame-Continues f report remaining o (some t) u h w e =
      subst Continues (ok-injective _ _ e) (
        cancelled-Good report remaining t h (
          winning_cancellation-eq-some s.config.cancel_race_priority s.cancellation_at_ms
            f.observed_at_ms t w))
  step_frame-Continues f report remaining o none u h w e =
      take_frame-Continues f report remaining o u h
        (IsUncancelled_lem s.config.cancel_race_priority s.cancellation_at_ms f.observed_at_ms w) e

  pub replay_frames-Good :
      (frames : List (MarketFrame Num)) (report : ExecutionReport Num) (remaining : Num)
      (r : ExecutionReport Num)
      → All Usable frames
      → Running report remaining
      → replay_frames s order frames report remaining ≡ ok r
      → Good r
  unfolding replay_frames Continues
  replay_frames-Good [] report remaining r u h e =
      subst Good (ok-injective _ _ e) (finish-Good report remaining s.cancellation_at_ms h refl)
  replay_frames-Good (f ∷ rest) report remaining r u h e =
      let (o, eo, er) =
        >>=-eq-ok
          (step_frame
            (winning_cancellation s.config.cancel_race_priority s.cancellation_at_ms
              f.observed_at_ms)
            s order f report remaining)
          _ e in
      go (λ next left c x. replay_frames-Good rest next left r u.1 c x) o
        (step_frame-Continues f report remaining o _ u.0 h refl eo) er
    where
      go :
          ((next : ExecutionReport Num) (left : Num)
            → Running next left
            → replay_frames s order rest next left ≡ ok r
            → Good r)
          → (o : FrameOutcome Num) → Continues o
          → (elim o [
            | stopped final ↦ ok final
            | going next left ↦ replay_frames s order rest next left
          ])
            ≡ ok r
          → Good r
      go later (stopped final) c x = subst Good (ok-injective _ _ x) c
      go later (going next left) c x = later next left c x

  pub usable :
      (frames : List (MarketFrame Num))
      → ((f : MarketFrame Num) → Member f frames → Member f s.frames)
      → All Usable (filter (is_late eligible_at_ms) frames)
  usable [] sub = tt
  usable (f ∷ frames) sub = elim (Bool-cases (is_late eligible_at_ms f)) [
    | inl late ↦ rw late (
      record { is_frame = sub f here; late = ground arith },
      usable frames (λ g m. sub g (there m)),
    )
    | inr early ↦ rw early (usable frames (λ g m. sub g (there m)))
  ]

  pub start-Running :
      validate_order order ≡ ok tt
      → Running (empty_report order ExecutionMode.simulation no_fill) order.quantity
  unfolding empty_report filled_units validate_order
  start-Running v = record {
    fair = tt;
    balance = omega int_laws;
    left = ground (arith, d.le_units order.quantity d.zero);
    filled_some = omega arith;
    uncancelled = refl;
    untouched = inl (refl, refl);
  }
