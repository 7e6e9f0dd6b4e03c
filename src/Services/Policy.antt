-- ===== src/Services/Policy.antt =====
-- `RuntimeConfig` of crates/hypercarry-mainnet-config/src/lib.rs, and `ServicePolicy` of
-- crates/hypercarry-mainnet-services/src/policy.rs with the part of its validation that reads no file.
pub mod Horizon
use hypercarry.Base.{
  ℕ, ◌/◌, ◌≡◌, Bool, true, false, not, ◌&&◌, Option, none, some, List, [], ◌∷◌, ltb, leb, ◌==◌, all,
  is_some, option_eq, if◌then◌else◌,
}
use hypercarry.Base.Text.{Text, text_eq, byte_len, is_ascii_hexdigit}
use hypercarry.Base.Json.{bool_eq}
use hypercarry.Base.Outcome.{Outcome, value, ◌>>=◌, ◌>>◌, ensure, ensure-value, or_panic}
use hypercarry.Decimal.{Decimal}
use hypercarry.Execution.Model.{MarketMetadata, ValidatedOrder}
use hypercarry.Execution.Risk.{RiskLimits}

-- `anyhow::Error`
pub data ServiceError : Type 0 where
  refused : ServiceError

-- Inversion of a check that passed.
pub ensured {ℓ} :
    {B : Type ℓ} (b : Bool) (rest : Outcome ServiceError B) {r : B}
    → (ensure b refused >> rest) ≡ value r
    → (b ≡ true) × (rest ≡ value r)
ensured b rest h = ensure-value b refused rest h

pub record RuntimeConfig (Num : Type 0) : Type 0 where
  pub account_address : Text
  pub signer_address : Text
  pub signer_alias : Text
  pub signer_socket : Text
  pub signer_timeout_ms : ℕ
  pub action_ttl_ms : ℕ
  pub journal : Text
  pub health_file : Text
  pub heartbeat : Text
  pub heartbeat_timeout_ms : ℕ
  pub kill_switch : Text
  pub asset_id : ℕ
  pub size_decimals : ℕ
  pub metadata : MarketMetadata Num
  pub order : ValidatedOrder Num
  pub risk : RiskLimits Num
  pub reconciliation_attempts : ℕ
  pub reconciliation_interval_ms : ℕ
  pub services_policy_digest : Option Text
  pub executor_lease : Option Text
  pub supervisor_policy_digest : Option Text

pub record ServicePolicy (Num : Type 0) : Type 0 where
  pub schema_version : ℕ
  pub backend : Text
  pub backend_sha256 : Text
  pub backend_config : Option Text
  pub backend_config_sha256 : Option Text
  pub signer_sha256 : Text
  pub watchdog_sha256 : Text
  pub backend_timeout_ms : ℕ
  pub signer_state : Text
  pub watchdog_state : Text
  pub watchdog_interval_ms : ℕ
  pub rearm_interval_ms : ℕ
  pub cancel_horizon_ms : ℕ
  pub executor_lease : Text
  pub executor_lease_timeout_ms : ℕ
  pub emergency_min_price : Num
  pub emergency_max_price : Num

-- `(lo..=hi).contains(&x)`
abbrev pub within : ℕ → ℕ → ℕ → Bool
within lo hi x = leb lo x && leb x hi

abbrev is_sha256 : Text → Bool
is_sha256 hash = (byte_len hash == 64) && all is_ascii_hexdigit hash

-- What the file system says of the policy's paths: the backend configuration stands at an absolute
-- path in a private directory, and `validate_paths` finds the others distinct, absolute and private.
pub record PathAnswers : Type 0 where
  pub backend_config_private : Bool
  pub paths_valid : Bool

abbrev digest_valid : Option Text → Bool
digest_valid none = false
digest_valid (some hash) = is_sha256 hash

abbrev backend_config_valid : PathAnswers → Option Text → Option Text → Bool
backend_config_valid answers none digest = true
backend_config_valid answers (some path) digest =
    answers.backend_config_private && digest_valid digest

-- The bounds on the re-arm cadence.
abbrev rearm_valid : {Num : Type 0} → ServicePolicy Num → Bool
rearm_valid p =
    within 1000 30000 p.rearm_interval_ms
    && leb p.watchdog_interval_ms p.rearm_interval_ms
    && leb p.rearm_interval_ms (p.cancel_horizon_ms / 3)

module _ {Num : Type 0} ⦃d : Decimal Num⦄ where
  abbrev collar_valid : ServicePolicy Num → Bool
  collar_valid p =
      d.lt d.zero p.emergency_min_price && d.le p.emergency_min_price p.emergency_max_price

  -- `price % tick == Decimal::ZERO`, which panics at a tick of zero.
  abbrev pub is_multiple : Num → Num → Outcome ServiceError Bool
  is_multiple price tick = do rest ← or_panic (d.checked_rem price tick); value (d.eq rest d.zero)

  -- `left % left_step == 0 && right % right_step == 0`: the second is tested only if the first holds.
  abbrev pub both_multiples : Num → Num → Num → Num → Outcome ServiceError Bool
  both_multiples left left_step right right_step = do
    aligned ← is_multiple left left_step
    let second = is_multiple right right_step
    if aligned then second else value false

  -- `ServicePolicy::validate`
  unfoldable pub validate_policy :
      PathAnswers → ServicePolicy Num → RuntimeConfig Num → Outcome ServiceError (Unit {0})
  validate_policy answers p runtime = do
    ensure (option_eq text_eq runtime.executor_lease (some p.executor_lease)) refused
    ensure (p.schema_version == 1) refused
    ensure (bool_eq (is_some p.backend_config) (is_some p.backend_config_sha256)) refused
    ensure (backend_config_valid answers p.backend_config p.backend_config_sha256) refused
    ensure (within 100 60000 p.backend_timeout_ms) refused
    ensure (within 100 1000 p.watchdog_interval_ms) refused
    ensure (within 30000 120000 p.cancel_horizon_ms) refused
    ensure (rearm_valid p) refused
    ensure (within 1000 30000 p.executor_lease_timeout_ms) refused
    ensure (ltb runtime.heartbeat_timeout_ms (p.cancel_horizon_ms / 2)) refused
    ensure (collar_valid p) refused
    aligned ←
        both_multiples p.emergency_min_price runtime.metadata.price_tick p.emergency_max_price
          runtime.metadata.price_tick
    ensure aligned refused
    ensure (all is_sha256 (p.backend_sha256 ∷ p.signer_sha256 ∷ p.watchdog_sha256 ∷ [])) refused
    ensure answers.paths_valid refused
