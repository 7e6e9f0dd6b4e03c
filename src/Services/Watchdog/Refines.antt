-- ===== src/Services/Watchdog/Refines.antt =====
-- The watchdog refines its protocol: the automaton reads the trace of every run.
use hypercarry.Base.{
  ℕ, ◌≤◌, ◌≡◌, refl, inl, inr, Bool, true, false, not, ◌||◌, Option, none, some, List, [], ◌∷◌,
  arith, Bool-cases, if◌then◌else◌,
}
use hypercarry.Base.Int.{saturating_add_u64, checked_add_u64}
use hypercarry.Base.Text.{Text, text_eq}
use hypercarry.Base.Outcome.{Outcome, value}
use hypercarry.Decimal.{Decimal}
use hypercarry.Services.Policy.{ServiceError, RuntimeConfig, ServicePolicy}
use hypercarry.Services.Signing.{schedule_action, cancel_action}
use hypercarry.Services.Watchdog.World.{
  WatchdogState, Effect, World, M, ◌>>=◌, ◌>>◌, answer, require, emit, pure, succeeds, get_state,
  put_state, save,
}
use hypercarry.Services.Watchdog.{
  EmergencyAnswers, RoundAnswers, Progress, again, finished, submit, close_position, give_up,
  armed_before, emergency, beat, armed, rearm, protect, round, rounds, resume, run, lease_held,
  rearm_due, heartbeat_permitted, is_empty_array,
}
use hypercarry.Services.Watchdog.Rules.{
  After, bind-After, answer-After, lift-After, require-After, save-After, require_last,
  succeeds-After, weaken-After,
}
use hypercarry.Services.Watchdog.Submissions.{
  Reaches, Anywhere, Then, Ends, cancel-After, arm-After, close_position-After,
}
use hypercarry.Services.Watchdog.Spec.{
  Phase, watching, stopped, cancelling, Spec, Step, Follows, here, then_step,
}

outlasts :
    (now timeout deadline : ℕ) (armed_until : Option ℕ)
    → heartbeat_permitted armed_until now timeout ≡ true
    → armed_until ≡ some deadline
    → saturating_add_u64 now timeout ≤ deadline
unfolding heartbeat_permitted
outlasts now timeout deadline none permitted e = cc
outlasts now timeout deadline (some until) permitted e = ground arith

-- The state that was loaded, before anything was done.
abbrev pub loaded : WatchdogState → World
loaded s = record { state = s; trace = [] }

abbrev pub initial : WatchdogState → Spec
initial s = record { phase = watching; nonce = s.last_nonce }

module _ {Num : Type 0} ⦃d : Decimal Num⦄ (from_str : Text → Option Num) (sha256 : List ℕ → List ℕ)
    (r : RuntimeConfig Num) (p : ServicePolicy Num) (start : Spec) where
  abbrev On : Phase → World → Type 0
  On phase w = Reaches from_str sha256 r p start phase w

  abbrev Some : World → Type 0
  Some w = Anywhere from_str sha256 r p start w

  -- An emergency that returns has found the position flat, and has saved that.
  abbrev pub IsClosed : World → Type 0
  IsClosed w = (w.state.emergency ≡ true) × (w.state.flat ≡ true)

  abbrev pub Closed : Unit {0} → World → Type 0
  Closed done w = Some w × (w.state.flat ≡ true)

  -- The last part of an emergency.
  settle-After :
      (e : EmergencyAnswers Num) (w : World)
      → Some w
      → After Closed Some (
          (answer e.position_after >>= λ after. get_state >>= λ state.
          put_state (record state { flat = d.eq after d.zero })
          >> (save e.saved_after >> require (d.eq after d.zero)))
            w)
  settle-After e w (phase, (u, follows, at, below)) =
      answer-After Some Closed e.position_after _ w (phase, (u, follows, at, below))
        λ after e1.
          save-After Some Closed e.saved_after _
            (record w { state = record w.state { flat = d.eq after d.zero } })
            (phase, (u, follows, at, below))
            (require_last Some Closed (d.eq after d.zero) _
              (phase, (u, then_step _ follows (Step.save _), at, below))
              λ flat. ((phase, (u, then_step _ follows (Step.save _), at, below)), flat))

  pub emergency-After :
      (e : EmergencyAnswers Num) (w : World)
      → On watching w
      → After Closed Some (emergency from_str sha256 r p e w)
  unfolding emergency
  emergency-After e w (u, follows, at, below) =
      let s : WatchdogState = record w.state { emergency = true; flat = false } in
      let w0 : World = record w { state = s } in
      let w1 : World = record { state = s; trace = Effect.state_saved s ∷ w.trace } in
      let t2 : List Effect =
        Effect.heartbeat_removed ∷ Effect.kill_switch_written ∷ Effect.state_saved s ∷ w.trace in
      let w2 : World = record { state = s; trace = t2 } in
      let saved : Some w1 = (watching, (u, then_step _ follows (Step.save s), at, below)) in
      let killed : On stopped w2 = (
        record { phase = stopped; nonce = u.nonce },
        then_step _ (then_step _ (then_step _ follows (Step.save s)) (Step.kill at refl))
            Step.remove,
        refl,
        below,
      ) in
      save-After Some Closed e.saved _ w0 (watching, (u, follows, at, below))
        (answer-After Some Closed e.kill_now _ w1 saved λ now e1.
          require-After Some Closed e.kill_saved _ w1 saved λ e2.
            lift-After Some Closed (cancel_action sha256 r) _ w2 (stopped, killed)
              λ action built.
                bind-After Some Closed (Then from_str sha256 r p start cancelling)
                  (submit from_str sha256 r p e.cancelling action) _ w2
                  (cancel-After from_str sha256 r p start e.cancelling action w2 built killed)
                  λ done w3 h3.
                    answer-After Some Closed e.open_orders _ w3 (cancelling, h3)
                      λ orders e3.
                        require-After Some Closed (is_empty_array orders) _ w3 (cancelling, h3)
                          λ e4.
                            answer-After Some Closed e.position _ w3 (cancelling, h3)
                              λ position e5.
                                bind-After Some Closed (Ends from_str sha256 r p start)
                                  (close_position from_str sha256 r p e position) _ w3
                                  (close_position-After from_str sha256 r p start e position w3 h3)
                                  λ done' w4 h4. settle-After e w4 h4)

  -- What a round leaves: still watching, where the loop goes on.
  abbrev Round : Progress → World → Type 0
  Round (again started) w = On watching w
  Round finished w = Some w

  branch-After :
      (b : Bool) (m m' : M Progress) (w : World)
      → After Round Some (m w)
      → After Round Some (m' w)
      → After Round Some ((if b then m else m') w)
  branch-After true m m' w h h' = h
  branch-After false m m' w h h' = h'

  give_up-After :
      (e : EmergencyAnswers Num) (w : World)
      → On watching w
      → After Round Some (give_up from_str sha256 r p e w)
  give_up-After e w h =
      bind-After Some Round Closed (emergency from_str sha256 r p e) _ w (emergency-After e w h)
        λ done w' h'. h'.0

  -- The heartbeat is removed and the emergency begins.
  recover-After :
      (e : EmergencyAnswers Num) (w : World)
      → On watching w
      → After Round Some ((emit Effect.heartbeat_removed >> give_up from_str sha256 r p e) w)
  recover-After e w (u, follows, at, below) =
      give_up-After e (record w { trace = Effect.heartbeat_removed ∷ w.trace })
        (u, then_step _ follows Step.remove, at, below)

  beat-After :
      (e : EmergencyAnswers Num) (a : RoundAnswers) (w : World)
      → On watching w
      → After Round Some (beat from_str sha256 r p e a w)
  unfolding beat
  beat-After e a w h =
      answer-After Some Round a.beat_now _ w (watching, h)
        λ now e1.
          elim (Bool-cases
            (heartbeat_permitted w.state.armed_until_ms now r.heartbeat_timeout_ms)) [
              | inl permitted ↦ rw permitted (written now permitted)
              | inr late ↦ rw late (recover-After e w h)
            ]
    where
      written :
          (now : ℕ)
          → heartbeat_permitted w.state.armed_until_ms now r.heartbeat_timeout_ms ≡ true
          → After Round Some (
              (answer w.state.armed_until_ms >>= λ armed.
              require a.beat_saved
              >> (emit (Effect.heartbeat_written now armed) >> pure (again true)))
                w)
      written now permitted =
          answer-After Some Round w.state.armed_until_ms _ w (watching, h)
            λ deadline e2.
              require-After Some Round a.beat_saved _ w (watching, h)
                λ e3. (
                  h.0,
                  then_step _ h.1 (
                      Step.beat now deadline h.2 (
                        outlasts now r.heartbeat_timeout_ms deadline w.state.armed_until_ms
                          permitted e2)),
                  h.2,
                  h.3,
                )

  armed-After :
      (binding : Text) (e : EmergencyAnswers Num) (a : RoundAnswers) (deadline : ℕ) (w : World)
      → On watching w
      → After Round Some (armed from_str sha256 r p binding e a deadline w)
  unfolding armed
  armed-After binding e a deadline w (u, follows, at, below) =
      let s : WatchdogState = record w.state { armed_until_ms = some deadline } in
      let w1 : World = record { state = s; trace = Effect.state_saved s ∷ w.trace } in
      save-After Some Round a.saved _ (record w { state = s }) (watching, (u, follows, at, below))
        (branch-After
          (not (lease_held p binding a.lease_again a.lease_again_now)
            || a.kill_switch_again
            || a.stop_again)
          _ _ w1 (give_up-After e w1 (u, then_step _ follows (Step.save s), at, below))
          (beat-After e a w1 (u, then_step _ follows (Step.save s), at, below)))

  rearm-After :
      (binding : Text) (e : EmergencyAnswers Num) (a : RoundAnswers) (w : World)
      → On watching w
      → After Round Some (rearm from_str sha256 r p binding e a w)
  unfolding rearm
  rearm-After binding e a w h =
      answer-After Some Round a.deadline_now _ w (watching, h)
        λ now e1.
          answer-After Some Round (checked_add_u64 now p.cancel_horizon_ms) _ w (watching, h)
            λ deadline e2.
              bind-After Some Round (λ ok. On watching)
                (succeeds (submit from_str sha256 r p a.arming (schedule_action deadline))) _ w
                (armed_or_not deadline)
                λ ok w' h'.
                  branch-After ok _ _ w' (armed-After binding e a deadline w' h')
                    (recover-After e w' h')
    where
      armed_or_not :
          (deadline : ℕ)
          → After
              (λ ok. On watching)
              Some
              (succeeds (submit from_str sha256 r p a.arming (schedule_action deadline)) w)
      armed_or_not deadline =
          weaken-After (λ ok. On watching) (λ ok. On watching) (On watching) Some
            (succeeds (submit from_str sha256 r p a.arming (schedule_action deadline)) w)
            (λ ok w' x. x) (λ w' x. (watching, x))
            (succeeds-After (On watching)
              (submit from_str sha256 r p a.arming (schedule_action deadline)) w
              (arm-After from_str sha256 r p start a.arming deadline w h))

  protect-After :
      (binding : Text) (e : EmergencyAnswers Num) (a : RoundAnswers) (w : World)
      → On watching w
      → After Round Some (protect from_str sha256 r p binding e a w)
  unfolding protect
  protect-After binding e a w h =
      answer-After Some Round a.rearm_now _ w (watching, h)
        λ now e1.
          branch-After (rearm_due w.state.armed_until_ms now p) _ _ w (rearm-After binding e a w h)
            (beat-After e a w h)

  round-After :
      (binding : Text) (e : EmergencyAnswers Num) (started : Bool) (a : RoundAnswers) (w : World)
      → On watching w
      → After Round Some (round from_str sha256 r p binding e started a w)
  unfolding round
  round-After binding e started a w h =
      branch-After a.stop _ _ w (branch-After started _ _ w (give_up-After e w h) (watching, h)) (
        branch-After (not (lease_held p binding a.lease a.lease_now)) _ _ w
          (branch-After started _ _ w (give_up-After e w h) h)
          (branch-After a.kill_switch _ _ w (give_up-After e w h) (protect-After binding e a w h)))

  resumed-After :
      (next : Bool → M Progress)
      → ((started : Bool) (w : World) → On watching w → After Round Some (next started w))
      → (progress : Progress) (w : World) → Round progress w
      → After Round Some (resume from_str sha256 r p next progress w)
  resumed-After next k (again started) w h = k started w h
  resumed-After next k finished w h = h

  rounds-After :
      (binding : Text) (e : EmergencyAnswers Num) (started : Bool) (given : List RoundAnswers)
      (w : World)
      → On watching w
      → After Round Some (rounds from_str sha256 r p binding e started given w)
  unfolding rounds
  rounds-After binding e started [] w h = h
  rounds-After binding e started (a ∷ rest) w h =
      bind-After Some Round Round (round from_str sha256 r p binding e started a) _ w
        (round-After binding e started a w h)
        (resumed-After (λ started'. rounds from_str sha256 r p binding e started' rest)
          (λ started' w'. rounds-After binding e started' rest w'))

  watch-After :
      (binding : Text) (e : EmergencyAnswers Num) (started : Bool) (given : List RoundAnswers)
      (w : World)
      → On watching w
      → After Round Some (
          (require (not w.state.emergency)
              >> (emit Effect.heartbeat_removed
                  >> rounds from_str sha256 r p binding e started given))
            w)
  watch-After binding e started given w (u, follows, at, below) =
      require-After Some Round (not w.state.emergency) _ w (watching, (u, follows, at, below))
        λ calm.
          rounds-After binding e started given
            (record w { trace = Effect.heartbeat_removed ∷ w.trace })
            (u, then_step _ follows Step.remove, at, below)

  run-After :
      (recover : Bool) (binding : Text) (e : EmergencyAnswers Num) (given : List RoundAnswers)
      (w : World)
      → On watching w
      → After Round Some (run from_str sha256 r p recover binding e given w)
  unfolding run
  run-After recover binding e given w h =
      require-After Some Round (text_eq w.state.binding binding) _ w (watching, h)
        λ bound. branch-After recover _ _ w (give_up-After e w h) (
          watch-After binding e (armed_before from_str sha256 r p w.state.armed_until_ms) given w h)

  reached : (m : World × Outcome ServiceError Progress) → After Round Some m → Some m.0
  reached (w, Outcome.panic) h = h
  reached (w, Outcome.fault x) h = h
  reached (w, value (again started)) h = (watching, h)
  reached (w, value finished) h = h

-- The watchdog refines its protocol: whatever the clock, the files, the signer and the venue answer,
-- and whether it returns, fails or goes on, the automaton reads the trace of its run. So heartbeats
-- are written only while it watches and for a deadline that outlasts them; every submission bears a
-- nonce above all before it and passes the signer's policy; and after the kill switch is written, it
-- submits the cancellation of the reviewed order first, then at most one order that closes the
-- position, and no heartbeat.
pub run-Follows :
    {Num : Type 0} ⦃d : Decimal Num⦄ (from_str : Text → Option Num) (sha256 : List ℕ → List ℕ)
    (r : RuntimeConfig Num) (p : ServicePolicy Num) (recover : Bool) (binding : Text)
    (e : EmergencyAnswers Num) (given : List RoundAnswers) (s : WatchdogState)
    → (v : Spec) × Follows from_str sha256 r p
        (initial s)
        (run from_str sha256 r p recover binding e given (loaded s)).0.trace
        v
run-Follows from_str sha256 r p recover binding e given s =
    let m = run from_str sha256 r p recover binding e given (loaded s) in
    let (_, (v, follows, _, _)) = reached from_str sha256 r p (initial s) m (
      run-After from_str sha256 r p (initial s) recover binding e given (loaded s)
        (initial s, here, refl, omega arith)) in
    (v, follows)
