-- ===== src/Services/Watchdog/Safety.antt =====
-- What the protocol of the watchdog guarantees of a trace, the latest effect first.
use hypercarry.Base.{
  ℕ, ◌+◌, ◌≤◌, ◌<◌, ◌≡◌, refl, sym, ap, subst, ◌∙◌, Bool, true, false, List, [], ◌∷◌, if◌then◌else◌,
  arith, Option,
}
use hypercarry.Base.Text.{Text, text_eq}
use hypercarry.Decimal.{Decimal}
use hypercarry.Services.Policy.{ServiceError, RuntimeConfig, ServicePolicy}
use hypercarry.Services.Watchdog.World.{
  World, WatchdogState, Effect, kill_switch_written, heartbeat_written, submitted,
}
use hypercarry.Services.Watchdog.{EmergencyAnswers, RoundAnswers, Progress, emergency, run}
use hypercarry.Services.Watchdog.Refines.{run-Follows, loaded, initial, Closed, emergency-After}
use hypercarry.Services.Watchdog.Rules.{After, require-After, bind-After, weaken-After}
use hypercarry.Base.Outcome.{Outcome, value}
use hypercarry.Services.Watchdog.Spec.{
  Phase, watching, stopped, cancelling, closing, Spec, Step, save, remove, beat, arm, kill, cancel,
  close, Follows, here, then_step, Somewhere,
}

-- The last nonce of a trace, over the nonce before it.
unfoldable pub last_submitted : ℕ → List Effect → ℕ
last_submitted base [] = base
last_submitted base (submitted q ∷ t) = q.nonce
last_submitted base (_ ∷ t) = last_submitted base t

-- Each submission bears a nonce above the last before it.
abbrev pub IsIncreasing : ℕ → List Effect → Type 0
IsIncreasing base [] = Unit {0}
IsIncreasing base (submitted q ∷ t) = (last_submitted base t < q.nonce) × IsIncreasing base t
IsIncreasing base (_ ∷ t) = IsIncreasing base t

unfoldable pub is_killed : List Effect → Bool
is_killed [] = false
is_killed (kill_switch_written ∷ t) = true
is_killed (_ ∷ t) = is_killed t

-- No heartbeat follows the kill switch, which is written once.
abbrev pub IsHushed : List Effect → Type 0
IsHushed [] = Unit {0}
IsHushed (heartbeat_written now deadline ∷ t) = (is_killed t ≡ false) × IsHushed t
IsHushed (kill_switch_written ∷ t) = (is_killed t ≡ false) × IsHushed t
IsHushed (_ ∷ t) = IsHushed t

-- The submissions that follow the kill switch.
unfoldable pub recoveries : List Effect → ℕ
unfolding is_killed
recoveries [] = 0
recoveries (submitted q ∷ t) = (if is_killed t then 1 else 0) + recoveries t
recoveries (_ ∷ t) = recoveries t

abbrev rank : Phase → ℕ
rank watching = 0
rank stopped = 0
rank cancelling = 1
rank closing = 2

abbrev has_stopped : Phase → Bool
has_stopped watching = false
has_stopped _ = true

-- What the automaton knows of the trace that it has read.
record Known (base : ℕ) (t : List Effect) (u : Spec) : Type 0 where
  pub nonce : last_submitted base t ≡ u.nonce
  pub increasing : IsIncreasing base t
  pub killed : is_killed t ≡ has_stopped u.phase
  pub hushed : IsHushed t
  pub counted : recoveries t ≡ rank u.phase

module _ {Num : Type 0} ⦃d : Decimal Num⦄ (from_str : Text → Option Num) (sha256 : List ℕ → List ℕ)
    (r : RuntimeConfig Num) (p : ServicePolicy Num) where
  Step-Known :
      (base : ℕ) (t : List Effect) {u v : Spec} {e : Effect}
      → Step from_str sha256 r p u e v
      → Known base t u
      → Known base (e ∷ t) v
  unfolding last_submitted is_killed recoveries
  Step-Known base t (save s) k = record {
    nonce = k.nonce;
    increasing = k.increasing;
    killed = k.killed;
    hushed = k.hushed;
    counted = k.counted;
  }
  Step-Known base t remove k = record {
    nonce = k.nonce;
    increasing = k.increasing;
    killed = k.killed;
    hushed = k.hushed;
    counted = k.counted;
  }
  Step-Known base t (beat now deadline on outlasts) k = record {
    nonce = k.nonce;
    increasing = k.increasing;
    killed = k.killed;
    hushed = (k.killed ∙ ap has_stopped on, k.hushed);
    counted = k.counted;
  }
  Step-Known base t (arm q at on shape fresh e) k = ground (arith, ap has_stopped on, ap rank on)
  Step-Known base t (kill on e) k = ground (arith, ap has_stopped on, ap rank on)
  Step-Known base t (cancel q on shape fresh e) k = ground (arith, ap has_stopped on, ap rank on)
  Step-Known base t (close q price size on shape fresh e) k =
      ground (arith, ap has_stopped on, ap rank on)

  Follows-Known :
      {s : Spec} {t : List Effect} {v : Spec}
      → s.phase ≡ watching
      → Follows from_str sha256 r p s t v
      → Known s.nonce t v
  unfolding last_submitted is_killed recoveries
  Follows-Known on here = record {
    nonce = refl;
    increasing = tt;
    killed = sym (ap has_stopped on);
    hushed = tt;
    counted = sym (ap rank on);
  }
  Follows-Known {s} on (then_step {t} e follows step) =
      Step-Known s.nonce t step (Follows-Known on follows)

-- Nonces increase, the kill switch is written once and silences heartbeats, and at most two
-- submissions follow it.
abbrev pub IsSafe : ℕ → List Effect → Type 0
IsSafe base t = IsIncreasing base t × IsHushed t × (recoveries t ≤ 2)

rank_bound : (phase : Phase) → rank phase ≤ 2
rank_bound watching = omega arith
rank_bound stopped = omega arith
rank_bound cancelling = omega arith
rank_bound closing = omega arith

-- In every run of the watchdog the nonces of its submissions strictly increase, from the last that its
-- state had; the kill switch is written at most once and no heartbeat after it; and at most two
-- submissions follow the kill switch.
pub run-IsSafe :
    {Num : Type 0} ⦃d : Decimal Num⦄ (from_str : Text → Option Num) (sha256 : List ℕ → List ℕ)
    (r : RuntimeConfig Num) (p : ServicePolicy Num) (recover : Bool) (binding : Text)
    (e : EmergencyAnswers Num) (given : List RoundAnswers) (s : WatchdogState)
    → IsSafe s.last_nonce (run from_str sha256 r p recover binding e given (loaded s)).0.trace
run-IsSafe from_str sha256 r p recover binding e given s =
    let (v, follows) = run-Follows from_str sha256 r p recover binding e given s in
    let k = Follows-Known from_str sha256 r p refl follows in
    (k.increasing, k.hushed, omega (arith, k.counted, rank_bound v.phase))

Flat : Progress → World → Type 0
Flat progress w = w.state.flat ≡ true

Failed : World → Type 0
Failed w = Unit {0}

value-After :
    (m : World × Outcome ServiceError Progress) (w : World) (progress : Progress)
    → After Flat Failed m
    → m ≡ (w, value progress)
    → Flat progress w
value-After m w progress h e = subst (After Flat Failed) e h

-- A recovery that returns without an error leaves a state that says flat: the position was read as
-- zero after the last order.
run_recovers :
    {Num : Type 0} ⦃d : Decimal Num⦄ (from_str : Text → Option Num) (sha256 : List ℕ → List ℕ)
    (r : RuntimeConfig Num) (p : ServicePolicy Num) (binding : Text) (e : EmergencyAnswers Num)
    (given : List RoundAnswers) (s : WatchdogState) (w : World) (progress : Progress)
    → run from_str sha256 r p true binding e given (loaded s) ≡ (w, value progress)
    → w.state.flat ≡ true
unfolding Flat Failed run
run_recovers from_str sha256 r p binding e given s w progress h =
    value-After (run from_str sha256 r p true binding e given (loaded s)) w progress recovered h
  where
    recovered : After Flat Failed (run from_str sha256 r p true binding e given (loaded s))
    recovered = require-After Failed Flat (text_eq s.binding binding) _ (loaded s) tt λ bound.
        bind-After Failed Flat (Closed from_str sha256 r p (initial s))
          (emergency from_str sha256 r p e) _ (loaded s)
          (weaken-After (Closed from_str sha256 r p (initial s))
            (Closed from_str sha256 r p (initial s)) (Somewhere from_str sha256 r p (initial s))
            Failed (emergency from_str sha256 r p e (loaded s)) (λ done w' x. x) (λ w' x. tt)
            (emergency-After from_str sha256 r p (initial s) e (loaded s)
              (initial s, here, refl, omega arith)))
          λ done w' closed. closed.1
