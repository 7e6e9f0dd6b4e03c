-- ===== src/Examples/Watchdogs.antt =====
-- The signing policy and the watchdog of crates/hypercarry-mainnet-services/src on a short canary.
use hypercarry.Base.{
  ℕ, ◌≡◌, refl, true, false, Option, some, none, List, [], ◌∷◌, ◌++◌, if◌then◌else◌, arith,
}
use hypercarry.Base.Text.{Text, codes, text_eq, byte_len, show_int, is_blank}
use hypercarry.Base.Json.{Json, text, array, nil, object, member, end, json_eq, get, get_or_null}
use hypercarry.Base.Outcome.{value}
use hypercarry.Decimal.Fixed.{Fixed, fixed, fixed_neg, cents}
use hypercarry.Execution.Journal.{mainnet_network}
use hypercarry.Execution.Identity.{derive, to_string}
use hypercarry.Execution.Model.{validate_order}
use hypercarry.Services.Policy.{RuntimeConfig, ServicePolicy, validate_policy}
use hypercarry.Services.Signing.{
  SigningRequest, placement, exact_order, order_action, placement_order, is_mainnet,
  validate_request, validate_flatten, flatten_action, cancel_action, is_schedule,
}
use hypercarry.Services.Signing.Reviewed.{IsReviewed, IsWindow, validate_request-IsReviewed}
use hypercarry.Services.Watchdog.{
  SubmitAnswers, EmergencyAnswers, RoundAnswers, Lease, finished, rearm_due, heartbeat_permitted,
  run,
}
use hypercarry.Services.Watchdog.World.{WatchdogState, World}
use hypercarry.Services.Watchdog.Pace.{rearm_due-heartbeat_permitted}
use hypercarry.Services.Watchdog.Refines.{loaded, initial, run-Follows}
use hypercarry.Services.Watchdog.Safety.{IsSafe, run-IsSafe}
use hypercarry.Services.Watchdog.Spec.{Spec, Follows}
use hypercarry.Examples.Orders.{sell_order, metadata_1}
use hypercarry.Examples.Policies.{limits_1}

abbrev runtime : RuntimeConfig Fixed
runtime = record {
  account_address = codes "0xaa";
  signer_address = codes "0xbb";
  signer_alias = codes "canary";
  signer_socket = codes "/private/signer.sock";
  signer_timeout_ms = 1000;
  action_ttl_ms = 10000;
  journal = codes "/private/journal";
  health_file = codes "/private/health";
  heartbeat = codes "/private/heartbeat";
  heartbeat_timeout_ms = 10000;
  kill_switch = codes "/private/kill";
  asset_id = 7;
  size_decimals = 2;
  metadata = metadata_1;
  order = sell_order;
  risk = limits_1;
  reconciliation_attempts = 3;
  reconciliation_interval_ms = 1000;
  services_policy_digest = none;
  executor_lease = some (codes "/private/lease");
  supervisor_policy_digest = none;
}

abbrev digest_1 : Text
digest_1 = codes "0000000000000000000000000000000000000000000000000000000000000000"

abbrev policy : ServicePolicy Fixed
policy = record {
  schema_version = 1;
  backend = codes "/private/backend";
  backend_sha256 = digest_1;
  backend_config = none;
  backend_config_sha256 = none;
  signer_sha256 = digest_1;
  watchdog_sha256 = digest_1;
  backend_timeout_ms = 1000;
  signer_state = codes "/private/signer";
  watchdog_state = codes "/private/watchdog";
  watchdog_interval_ms = 1000;
  rearm_interval_ms = 10000;
  cancel_horizon_ms = 30000;
  executor_lease = codes "/private/lease";
  executor_lease_timeout_ms = 5000;
  emergency_min_price = cents 9000;
  emergency_max_price = cents 11000;
}

policy_valid :
    validate_policy (record { backend_config_private = true; paths_valid = true }) policy runtime
    ≡ value tt
unfolding validate_policy fixed text_eq byte_len
policy_valid = refl

-- A constant hash, and a parser that knows two numbers.
abbrev hash : List ℕ → List ℕ
hash bytes = eight ++ eight
  where
    eight : List ℕ
    eight = 0 ∷ 0 ∷ 0 ∷ 0 ∷ 0 ∷ 0 ∷ 0 ∷ 0 ∷ []

abbrev from_str : Text → Option Fixed
from_str t =
    if text_eq t (show_int (cents 11000))
    then some (cents 11000)
    else if text_eq t (show_int (cents 123))
    then some (cents 123)
    else none

abbrev request : Json → SigningRequest
request action = record {
  schema_version = 1;
  network = mainnet_network;
  key_id = codes "canary";
  signer_address = codes "0xbb";
  nonce = 50000;
  expires_after = 60000;
  action = action;
}

abbrev placing : Json
placing = order_action (placement_order runtime (record { bytes = hash [] }))

placed : validate_request from_str hash (request placing) runtime policy 51000 ≡ value placement
unfolding validate_request fixed derive validate_order exact_order text_eq json_eq byte_len is_blank
    to_string show_int
placed = refl

validate_request-IsReviewed_example :
    (is_mainnet mainnet_network ≡ true)
    × (codes "canary" ≡ codes "canary")
    × (codes "0xbb" ≡ codes "0xbb")
    × IsWindow (request placing) 10000 51000
    × IsReviewed hash (request placing) runtime policy 51000 placement
validate_request-IsReviewed_example =
    validate_request-IsReviewed from_str hash (request placing) runtime policy 51000 placement
      placed

rearm_due-heartbeat_permitted_example : heartbeat_permitted (some 75000) 53000 10000 ≡ true
unfolding rearm_due
rearm_due-heartbeat_permitted_example =
    rearm_due-heartbeat_permitted (record { backend_config_private = true; paths_valid = true })
      policy runtime (some 75000) 50000 53000 policy_valid (omega arith) refl

abbrev acknowledged : Option ℕ → SubmitAnswers
acknowledged now = record {
  now = now;
  saved = true;
  agent = true;
  signed = true;
  now_signed = now;
  agent_again = true;
  now_posted = now;
  response = some (object (member (codes "status") (text (codes "ok")) end));
}

-- An emergency that finds the whole order filled, and closes it.
abbrev closing_answers : EmergencyAnswers Fixed
closing_answers = record {
  saved = true;
  kill_now = some 60000;
  kill_saved = true;
  cancelling = acknowledged (some 60000);
  open_orders = some (array nil);
  position = some (fixed_neg (cents 123));
  flattening = acknowledged (some 60100);
  position_after = some (cents 0);
  saved_after = true;
}

abbrev held : Option Lease
held = some (record {
  schema_version = 1;
  network = mainnet_network;
  integration_config_digest = codes "binding";
  observed_at_ms = 49000;
})

-- A round that arms the venue and writes a heartbeat, and one that finds the lease gone.
abbrev good_round : RoundAnswers
good_round = record {
  stop = false;
  lease = held;
  lease_now = some 50000;
  kill_switch = false;
  rearm_now = some 50000;
  deadline_now = some 50000;
  arming = acknowledged (some 50000);
  saved = true;
  lease_again = held;
  lease_again_now = some 50000;
  kill_switch_again = false;
  stop_again = false;
  beat_now = some 50100;
  beat_saved = true;
}

abbrev lost_round : RoundAnswers
lost_round = record good_round { lease = none }

abbrev fresh_state : WatchdogState
fresh_state = record {
  binding = codes "binding";
  last_nonce = 0;
  armed_until_ms = none;
  emergency = false;
  flat = false;
}

abbrev binding : Text
binding = codes "binding"

run-Follows_example :
    (v : Spec) × Follows from_str hash runtime policy
      (initial fresh_state)
      (run from_str hash runtime policy false binding closing_answers
        (good_round ∷ lost_round ∷ [])
        (loaded fresh_state)).0.trace
      v
run-Follows_example =
    run-Follows from_str hash runtime policy false binding closing_answers
      (good_round ∷ lost_round ∷ []) fresh_state

run-IsSafe_example :
    IsSafe 0
      (run from_str hash runtime policy false binding closing_answers
        (good_round ∷ lost_round ∷ [])
        (loaded fresh_state)).0.trace
run-IsSafe_example =
    run-IsSafe from_str hash runtime policy false binding closing_answers
      (good_round ∷ lost_round ∷ []) fresh_state

abbrev recovered : World
recovered =
    (run from_str hash runtime policy true binding closing_answers [] (loaded fresh_state)).0

-- The recovery cancels, closes the position, and returns.
recovery_returns :
    (run from_str hash runtime policy true binding closing_answers [] (loaded fresh_state)).1
    ≡ value finished
unfolding run validate_request validate_flatten fixed derive validate_order exact_order
    cancel_action is_schedule text_eq json_eq byte_len get flatten_action is_blank to_string
    get_or_null show_int
recovery_returns = refl
