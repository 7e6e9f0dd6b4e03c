-- ===== src/Execution/Mainnet/Evidence.antt =====
-- The release evidence and the canary configuration of
-- crates/hypercarry-execution/src/mainnet.rs. The JSON payloads under the digests (serde_json) and
-- SHA-256 are parameters.
use hypercarry.Base.{
  ℕ, Bool, not, ◌||◌, Option, none, some, List, [], ◌∷◌, ltb, ◌==◌, length, any, if◌then◌else◌,
}
use hypercarry.Base.Int.{ℤ, pos, ltb_ℤ, leb_ℤ}
use hypercarry.Base.Text.{Text, text_eq, is_blank, has_char}
use hypercarry.Decimal.{Decimal}
use hypercarry.Execution.Error.{Result, ok, release_gate, ◌>>=◌, ◌>>◌, fail_if, or_fail}
use hypercarry.Execution.Identity.{hex}
use hypercarry.Execution.Mainnet.{
  required_clean_sessions, validate_audit_id, validate_commit, validate_exact_commit,
  validate_digest,
}

pub record TestnetSessionEvidence : Type 0 where
  pub session_id : Text
  pub commit : Text
  pub started_at_ms : ℤ
  pub ended_at_ms : ℤ
  pub independent_reviewer : Text
  pub final_state_check : Text
  pub orphaned_orders : ℕ
  pub unmanaged_orders : ℕ
  pub unresolved_submissions : ℕ
  pub risk_limit_bypasses : ℕ
  pub secret_leaks : ℕ

pub record HumanReleaseDecision : Type 0 where
  pub approved : Bool
  pub approver : Text
  pub decided_at_ms : ℤ
  pub evidence_digest : Text

pub record ReviewedReleaseBundle : Type 0 where
  pub source_commit : Text
  pub cargo_lock_digest : Text
  pub mainnet_transport_artifact : Text
  pub mainnet_signer_key_id : Text
  pub config_digest : Text
  pub dependency_audit : Text
  pub execution_security_review : Text
  pub rollback_test : Text

pub record MainnetReleaseEvidence : Type 0 where
  pub schema_version : ℕ
  pub testnet_sessions : List TestnetSessionEvidence
  pub reviewed_bundle : ReviewedReleaseBundle
  pub release_decision : HumanReleaseDecision

pub record MainnetReleaseConfig (Num : Type 0) : Type 0 where
  pub source_commit : Text
  pub cargo_lock_digest : Text
  pub allowed_market : Text
  pub canary_notional_limit : Num
  pub reviewed_max_canary_notional : Num
  pub testnet_key_id : Text
  pub config_revision : Text
  pub config_review : Text
  pub max_health_age_ms : ℤ
  pub max_rest_latency_ms : ℕ
  pub max_private_latency_ms : ℕ
  pub authorization_ttl_ms : ℕ
  pub integration_config_digest : Option Text

-- `ReviewPayload`: the configuration with its decimals as normalized text.
pub record ReviewPayload : Type 0 where
  pub source_commit : Text
  pub cargo_lock_digest : Text
  pub allowed_market : Text
  pub canary_notional_limit : Text
  pub reviewed_max_canary_notional : Text
  pub testnet_key_id : Text
  pub config_revision : Text
  pub config_review : Text
  pub max_health_age_ms : ℤ
  pub max_rest_latency_ms : ℕ
  pub max_private_latency_ms : ℕ
  pub authorization_ttl_ms : ℕ
  pub integration_config_digest : Option Text

-- serde_json and sha2: the payloads' JSON bytes, and their hash.
pub record Digests : Type 0 where
  pub encode_evidence : ℕ → List TestnetSessionEvidence → ReviewedReleaseBundle → Option (List ℕ)
  pub encode_review : ReviewPayload → Option (List ℕ)
  pub sha256 : List ℕ → List ℕ

-- `ids.insert(..)` of the set of identifiers seen so far.
abbrev pub seen : List Text → Text → Bool
seen ids id = any (λ x. text_eq x id) ids

-- The body of the loop over the sessions.
unfoldable pub validate_session : List Text → TestnetSessionEvidence → Result (Unit {0})
validate_session ids s = do
  validate_audit_id s.session_id
  validate_commit s.commit
  fail_if (seen ids s.session_id) release_gate
  fail_if (ltb_ℤ s.started_at_ms (pos 0) || leb_ℤ s.ended_at_ms s.started_at_ms) release_gate
  validate_audit_id s.independent_reviewer
  validate_audit_id s.final_state_check
  fail_if
      (not (s.orphaned_orders == 0)
        || not (s.unmanaged_orders == 0)
        || not (s.unresolved_submissions == 0)
        || not (s.risk_limit_bypasses == 0)
        || not (s.secret_leaks == 0))
      release_gate

unfoldable pub validate_sessions : List Text → List TestnetSessionEvidence → Result (Unit {0})
unfolding validate_session
validate_sessions ids [] = ok tt
validate_sessions ids (s ∷ rest) =
    validate_session ids s >> validate_sessions (s.session_id ∷ ids) rest

unfoldable pub validate_bundle : ReviewedReleaseBundle → Result (Unit {0})
validate_bundle b = do
  validate_exact_commit b.source_commit
  validate_digest b.cargo_lock_digest
  validate_audit_id b.mainnet_transport_artifact
  validate_audit_id b.mainnet_signer_key_id
  validate_digest b.config_digest
  validate_audit_id b.dependency_audit
  validate_audit_id b.execution_security_review
  validate_audit_id b.rollback_test

-- The latest end of a session, `max().unwrap_or_default()`.
unfoldable pub latest_end : List TestnetSessionEvidence → ℤ
latest_end [] = pos 0
latest_end (s ∷ []) = s.ended_at_ms
latest_end (s ∷ t ∷ rest) =
    let later = latest_end (t ∷ rest) in if ltb_ℤ s.ended_at_ms later then later else s.ended_at_ms

-- `MainnetReleaseEvidence::evidence_digest`
unfoldable pub evidence_digest : Digests → MainnetReleaseEvidence → Result Text
evidence_digest g e = do
  encoded ←
      or_fail (g.encode_evidence e.schema_version e.testnet_sessions e.reviewed_bundle) release_gate
  ok (hex (g.sha256 encoded))

-- `MainnetReleaseEvidence::validate`
unfoldable pub validate_evidence : Digests → MainnetReleaseEvidence → Result (Unit {0})
unfolding validate_sessions
validate_evidence g e = do
  fail_if (not (e.schema_version == 2)) release_gate
  fail_if (ltb (length e.testnet_sessions) required_clean_sessions) release_gate
  fail_if (ltb 1000 (length e.testnet_sessions)) release_gate
  validate_sessions [] e.testnet_sessions
  validate_bundle e.reviewed_bundle
  fail_if (not e.release_decision.approved) release_gate
  validate_audit_id e.release_decision.approver
  validate_digest e.release_decision.evidence_digest
  digest ← evidence_digest g e
  fail_if (not (text_eq e.release_decision.evidence_digest digest)) release_gate
  fail_if (leb_ℤ e.release_decision.decided_at_ms (latest_end e.testnet_sessions)) release_gate

abbrev validate_option : Option Text → Result (Unit {0})
validate_option none = ok tt
validate_option (some digest) = validate_digest digest

module _ {Num : Type 0} ⦃d : Decimal Num⦄ where
  -- `MainnetReleaseConfig::validate`
  unfoldable pub validate_config : MainnetReleaseConfig Num → Result (Unit {0})
  unfolding validate_digest
  validate_config c = do
    validate_option c.integration_config_digest
    validate_exact_commit c.source_commit
    validate_digest c.cargo_lock_digest
    fail_if (is_blank c.allowed_market || not (has_char b':' c.allowed_market)) release_gate
    fail_if
        (d.le c.canary_notional_limit d.zero
          || d.le c.reviewed_max_canary_notional d.zero
          || d.lt c.reviewed_max_canary_notional c.canary_notional_limit)
        release_gate
    validate_audit_id c.testnet_key_id
    validate_audit_id c.config_revision
    validate_audit_id c.config_review
    fail_if
        (leb_ℤ c.max_health_age_ms (pos 0)
          || c.max_rest_latency_ms == 0
          || c.max_private_latency_ms == 0
          || c.authorization_ttl_ms == 0
          || ltb 60_000 c.authorization_ttl_ms)
        release_gate

  abbrev pub review_payload : MainnetReleaseConfig Num → ReviewPayload
  review_payload c = record {
    source_commit = c.source_commit;
    cargo_lock_digest = c.cargo_lock_digest;
    allowed_market = c.allowed_market;
    canary_notional_limit = d.display (d.normalize c.canary_notional_limit);
    reviewed_max_canary_notional = d.display (d.normalize c.reviewed_max_canary_notional);
    testnet_key_id = c.testnet_key_id;
    config_revision = c.config_revision;
    config_review = c.config_review;
    max_health_age_ms = c.max_health_age_ms;
    max_rest_latency_ms = c.max_rest_latency_ms;
    max_private_latency_ms = c.max_private_latency_ms;
    authorization_ttl_ms = c.authorization_ttl_ms;
    integration_config_digest = c.integration_config_digest;
  }

  -- `MainnetReleaseConfig::review_digest`
  unfoldable pub review_digest : Digests → MainnetReleaseConfig Num → Result Text
  review_digest g c = do
    encoded ← or_fail (g.encode_review (review_payload c)) release_gate
    ok (hex (g.sha256 encoded))
