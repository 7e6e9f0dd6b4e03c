-- ===== src/Services/Watchdog.antt =====
-- crates/hypercarry-mainnet-services/src/watchdog.rs: the watchdog, which keeps a cancellation
-- scheduled at the venue while the executor lives, and closes the position when it does not.
pub mod Pace
pub mod World
pub mod Rules
pub mod Spec
pub mod Submissions
pub mod Refines
pub mod Safety
use hypercarry.Base.{
  ℕ, ◌+◌, ◌-◌, ◌≡◌, Bool, true, false, not, ◌&&◌, ◌||◌, Option, none, some, List, [], ◌∷◌, ltb, leb,
  ◌==◌, max, if◌then◌else◌,
}
use hypercarry.Base.Int.{saturating_add_u64, checked_add_u64, u64_bound}
use hypercarry.Base.Text.{Text, codes, text_eq}
use hypercarry.Base.Json.{Json, Elements, nil, cons, text, array, json_eq, get_or_null, bool_eq}
use hypercarry.Base.Outcome.{Outcome, fault, value}
use hypercarry.Decimal.{Decimal}
use hypercarry.Execution.Journal.{ExecutionNetwork, mainnet_network}
use hypercarry.Services.Policy.{ServiceError, refused, RuntimeConfig, ServicePolicy}
use hypercarry.Services.Signing.{
  SigningRequest, is_mainnet, is_buy, cancel_action, flatten_action, schedule_action,
  validate_request,
}
use hypercarry.Services.Watchdog.World.{
  WatchdogState, Effect, kill_switch_written, heartbeat_removed, heartbeat_written, submitted, M,
  ◌>>=◌, ◌>>◌, pure, lift, answer, require, emit, get_state, put_state, save, succeeds,
}

pub record Lease : Type 0 where
  pub schema_version : ℕ
  pub network : ExecutionNetwork
  pub integration_config_digest : Text
  pub observed_at_ms : ℕ

unfoldable pub lease_is_fresh : Lease → Text → ℕ → ℕ → Bool
lease_is_fresh lease binding now max_age =
    (lease.schema_version == 1)
    && is_mainnet lease.network
    && text_eq lease.integration_config_digest binding
    && leb lease.observed_at_ms now
    && leb (now - lease.observed_at_ms) max_age

-- `now_ms().unwrap_or(u64::MAX)`
abbrev now_or_max : Option ℕ → ℕ
now_or_max none = u64_bound - 1
now_or_max (some now) = now

-- The lease as it was read, where it could be, and the clock.
unfoldable pub lease_held :
    {Num : Type 0} → ServicePolicy Num → Text → Option Lease → Option ℕ → Bool
unfolding lease_is_fresh
lease_held p binding none now = false
lease_held p binding (some lease) now =
    lease_is_fresh lease binding (now_or_max now) p.executor_lease_timeout_ms

-- `until.saturating_sub(now)` is the subtraction of ℕ.
unfoldable pub rearm_due : {Num : Type 0} → Option ℕ → ℕ → ServicePolicy Num → Bool
rearm_due none now p = true
rearm_due (some armed) now p = leb (armed - now) (p.cancel_horizon_ms - p.rearm_interval_ms)

unfoldable pub heartbeat_permitted : Option ℕ → ℕ → ℕ → Bool
heartbeat_permitted none now timeout = false
heartbeat_permitted (some armed) now timeout = leb (saturating_add_u64 now timeout) armed

-- The answers of the world to one submission: the clock three times, whether the state was saved,
-- `check_agent` twice, whether the signer's answer was verified, and the venue's response.
pub record SubmitAnswers : Type 0 where
  pub now : Option ℕ
  pub saved : Bool
  pub agent : Bool
  pub signed : Bool
  pub now_signed : Option ℕ
  pub agent_again : Bool
  pub now_posted : Option ℕ
  pub response : Option Json

-- The answers during an emergency; the positions are those of `account_position`.
pub record EmergencyAnswers (Num : Type 0) : Type 0 where
  pub saved : Bool
  pub kill_now : Option ℕ
  pub kill_saved : Bool
  pub cancelling : SubmitAnswers
  pub open_orders : Option Json
  pub position : Option Num
  pub flattening : SubmitAnswers
  pub position_after : Option Num
  pub saved_after : Bool

-- The answers during one round of the loop.
pub record RoundAnswers : Type 0 where
  pub stop : Bool
  pub lease : Option Lease
  pub lease_now : Option ℕ
  pub kill_switch : Bool
  pub rearm_now : Option ℕ
  pub deadline_now : Option ℕ
  pub arming : SubmitAnswers
  pub saved : Bool
  pub lease_again : Option Lease
  pub lease_again_now : Option ℕ
  pub kill_switch_again : Bool
  pub stop_again : Bool
  pub beat_now : Option ℕ
  pub beat_saved : Bool

-- What a round leaves: the loop goes on, with `started`, or the watchdog has returned.
pub data Progress : Type 0 where
  again : (started : Bool) → Progress
  finished : Progress

abbrev is_empty_array : Json → Bool
is_empty_array (array nil) = true
is_empty_array _ = false

module _ {Num : Type 0} ⦃d : Decimal Num⦄ (from_str : Text → Option Num) (sha256 : List ℕ → List ℕ)
    (r : RuntimeConfig Num) (p : ServicePolicy Num) where
  -- The request that `submit` builds.
  abbrev request_of : ℕ → ℕ → Json → SigningRequest
  request_of nonce expires action = record {
    schema_version = 1;
    network = mainnet_network;
    key_id = r.signer_alias;
    signer_address = r.signer_address;
    nonce = nonce;
    expires_after = expires;
    action = action;
  }

  -- `validate_request` at the time of the clock.
  unfoldable pub validated : SigningRequest → Option ℕ → M (Unit {0})
  validated q clock = do
    now ← answer clock
    purpose ← lift (validate_request from_str sha256 q r p now)
    pure tt

  -- The request, once it has been validated, until it is posted.
  unfoldable pub post : SigningRequest → SubmitAnswers → M (Unit {0})
  unfolding validated
  post q a = do
    state ← get_state
    put_state (record state { last_nonce = q.nonce })
    save a.saved
    require a.agent
    require a.signed
    validated q a.now_signed
    require a.agent_again
    validated q a.now_posted
    emit (submitted q)
    response ← answer a.response
    require (json_eq (get_or_null response (codes "status")) (text (codes "ok")))

  unfoldable pub submit : SubmitAnswers → Json → M (Unit {0})
  unfolding post
  submit a action = do
    now ← answer a.now
    state ← get_state
    after ← answer (checked_add_u64 state.last_nonce 1)
    expires ← answer (checked_add_u64 (max now after) r.action_ttl_ms)
    purpose ←
        lift (validate_request from_str sha256 (request_of (max now after) expires action) r p now)
    post (request_of (max now after) expires action) a

  -- The size of a position, and the price at which it is closed.
  abbrev closing_price : Num → Num
  closing_price position =
      if d.lt d.zero position then p.emergency_min_price else p.emergency_max_price

  abbrev closing_size : Num → Option Num
  closing_size position =
      if d.lt position d.zero then d.checked_sub d.zero position else some position

  -- The part of `emergency` for an open position.
  unfoldable pub flatten_position : EmergencyAnswers Num → Num → M (Unit {0})
  unfolding submit
  flatten_position e position = do
    require (bool_eq (d.lt d.zero position) (is_buy r.order.side))
    size ← answer (closing_size position)
    action ← lift (flatten_action r (closing_price position) size)
    submit e.flattening action

  unfoldable pub close_position : EmergencyAnswers Num → Num → M (Unit {0})
  unfolding flatten_position
  close_position e position = if d.eq position d.zero then pure tt else flatten_position e position

  unfoldable pub emergency : EmergencyAnswers Num → M (Unit {0})
  unfolding submit close_position
  emergency e = do
    state ← get_state
    put_state (record state { emergency = true; flat = false })
    save e.saved
    now ← answer e.kill_now
    require e.kill_saved
    emit kill_switch_written
    emit heartbeat_removed
    action ← lift (cancel_action sha256 r)
    submit e.cancelling action
    orders ← answer e.open_orders
    require (is_empty_array orders)
    position ← answer e.position
    close_position e position
    after ← answer e.position_after
    state' ← get_state
    put_state (record state' { flat = d.eq after d.zero })
    save e.saved_after
    require (d.eq after d.zero)

  -- `return emergency(…)`
  abbrev pub give_up : EmergencyAnswers Num → M Progress
  give_up e = emergency e >> pure finished

  -- The last part of a round: the heartbeat.
  unfoldable pub beat : EmergencyAnswers Num → RoundAnswers → M Progress
  unfolding emergency
  beat e a = do
    now ← answer a.beat_now
    state ← get_state
    let recovery = emit heartbeat_removed >> give_up e
    let heartbeat = answer state.armed_until_ms >>= λ armed.
        require a.beat_saved >> (emit (heartbeat_written now armed) >> pure (again true))
    if heartbeat_permitted state.armed_until_ms now r.heartbeat_timeout_ms
        then heartbeat
        else recovery

  -- After an acknowledged re-arming.
  unfoldable pub armed : Text → EmergencyAnswers Num → RoundAnswers → ℕ → M Progress
  unfolding emergency beat
  armed binding e a deadline = do
    state ← get_state
    put_state (record state { armed_until_ms = some deadline })
    save a.saved
    if not (lease_held p binding a.lease_again a.lease_again_now)
          || a.kill_switch_again
          || a.stop_again
        then give_up e
        else beat e a

  unfoldable pub rearm : Text → EmergencyAnswers Num → RoundAnswers → M Progress
  unfolding emergency submit armed
  rearm binding e a = do
    now ← answer a.deadline_now
    deadline ← answer (checked_add_u64 now p.cancel_horizon_ms)
    acknowledged ← succeeds (submit a.arming (schedule_action deadline))
    let recovery = emit heartbeat_removed >> give_up e
    if acknowledged then armed binding e a deadline else recovery

  -- A round in which the lease is held and the kill switch absent.
  unfoldable pub protect : Text → EmergencyAnswers Num → RoundAnswers → M Progress
  unfolding rearm beat
  protect binding e a = do
    now ← answer a.rearm_now
    state ← get_state
    if rearm_due state.armed_until_ms now p then rearm binding e a else beat e a

  -- One round of the loop in `run`.
  unfoldable pub round : Text → EmergencyAnswers Num → Bool → RoundAnswers → M Progress
  unfolding emergency protect
  round binding e started a =
      if a.stop
      then if started then give_up e else pure finished
      else if not (lease_held p binding a.lease a.lease_now)
      then if started then give_up e else pure (again false)
      else if a.kill_switch
      then give_up e
      else protect binding e a

  abbrev resume : (Bool → M Progress) → Progress → M Progress
  resume next finished = pure finished
  resume next (again started) = next started

  -- The loop, over the rounds that are given; a watchdog that has not returned goes on.
  unfoldable pub rounds : Text → EmergencyAnswers Num → Bool → List RoundAnswers → M Progress
  unfolding round
  rounds binding e started [] = pure (again started)
  rounds binding e started (a ∷ rest) =
      round binding e started a >>= resume (λ started'. rounds binding e started' rest)

  abbrev armed_before : Option ℕ → Bool
  armed_before none = false
  armed_before (some deadline) = true

  -- `run`, from the state that it has loaded: the first checks of the artifact and the lock are left
  -- out, and remove nothing.
  unfoldable pub run : Bool → Text → EmergencyAnswers Num → List RoundAnswers → M Progress
  unfolding emergency rounds
  run recover binding e given = do
    state ← get_state
    require (text_eq state.binding binding)
    let loop =
        require (not state.emergency)
        >> (emit heartbeat_removed >> rounds binding e (armed_before state.armed_until_ms) given)
    if recover then give_up e else loop
