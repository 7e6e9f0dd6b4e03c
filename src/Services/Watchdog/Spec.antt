-- ===== src/Services/Watchdog/Spec.antt =====
-- The protocol of the watchdog, as an automaton that reads its trace.
use hypercarry.Base.{ℕ, ◌≤◌, ◌<◌, ◌≡◌, Option, List, [], ◌∷◌}
use hypercarry.Base.Int.{saturating_add_u64}
use hypercarry.Base.Text.{Text}
use hypercarry.Base.Outcome.{value}
use hypercarry.Decimal.{Decimal}
use hypercarry.Services.Policy.{RuntimeConfig, ServicePolicy}
use hypercarry.Services.Signing.{
  SigningRequest, Purpose, schedule_action, cancel_action, flatten_action, validate_request,
}
use hypercarry.Services.Watchdog.World.{
  WatchdogState, Effect, state_saved, kill_switch_written, heartbeat_removed, heartbeat_written,
  submitted, World,
}

-- Protecting the executor; stopped, with the kill switch in place; the reviewed order cancelled; the
-- position closed.
pub data Phase : Type 0 where
  watching stopped cancelling closing : Phase

pub record Spec : Type 0 where
  pub phase : Phase
  pub nonce : ℕ

module _ {Num : Type 0} ⦃d : Decimal Num⦄ (from_str : Text → Option Num) (sha256 : List ℕ → List ℕ)
    (r : RuntimeConfig Num) (p : ServicePolicy Num) where
  -- The signer's policy lets the request through at some time.
  abbrev pub IsSigned : SigningRequest → Type 0
  IsSigned q =
      (now : ℕ) × (purpose : Purpose) × (validate_request from_str sha256 q r p now ≡ value purpose)

  -- A submission: under a nonce above all before it, with an action that the signer's policy allows.
  abbrev pub IsFresh : Spec → SigningRequest → Type 0
  IsFresh v q = (v.nonce < q.nonce) × IsSigned q

  pub data Step : Spec → Effect → Spec → Type 0 where
    save : {v : Spec} (s : WatchdogState) → Step v (state_saved s) v
    remove : {v : Spec} → Step v heartbeat_removed v
    -- A heartbeat is written only while watching, for a deadline that outlasts the trust in it.
    beat :
        {v : Spec} (now deadline : ℕ)
        → v.phase ≡ watching
        → saturating_add_u64 now r.heartbeat_timeout_ms ≤ deadline
        → Step v (heartbeat_written now deadline) v
    arm :
        {v u : Spec} (q : SigningRequest) (at : ℕ)
        → v.phase ≡ watching
        → q.action ≡ schedule_action at
        → IsFresh v q
        → u ≡ record { phase = watching; nonce = q.nonce }
        → Step v (submitted q) u
    kill :
        {v u : Spec}
        → v.phase ≡ watching
        → u ≡ record { phase = stopped; nonce = v.nonce }
        → Step v kill_switch_written u
    cancel :
        {v u : Spec} (q : SigningRequest)
        → v.phase ≡ stopped
        → cancel_action sha256 r ≡ value q.action
        → IsFresh v q
        → u ≡ record { phase = cancelling; nonce = q.nonce }
        → Step v (submitted q) u
    close :
        {v u : Spec} (q : SigningRequest) (price size : Num)
        → v.phase ≡ cancelling
        → flatten_action r price size ≡ value q.action
        → IsFresh v q
        → u ≡ record { phase = closing; nonce = q.nonce }
        → Step v (submitted q) u

  -- The automaton reads a trace, the latest effect first.
  pub data Follows (v : Spec) : List Effect → Spec → Type 0 where
    here : Follows v [] v
    then_step :
        {t : List Effect} {u u' : Spec} (e : Effect)
        → Follows v t u
        → Step u e u'
        → Follows v (e ∷ t) u'

  -- The trace so far leads the automaton to a phase, with no nonce above the last that the state has.
  abbrev pub At : Spec → Phase → World → Type 0
  At start phase w =
      (u : Spec) × Follows start w.trace u × (u.phase ≡ phase) × (u.nonce ≤ w.state.last_nonce)

  abbrev pub Somewhere : Spec → World → Type 0
  Somewhere start w = (phase : Phase) × At start phase w
