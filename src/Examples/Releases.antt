-- ===== src/Examples/Releases.antt =====
-- The mainnet gate of crates/hypercarry-execution/src/mainnet.rs on concrete evidence, with constant
-- payloads and a constant hash in place of JSON and SHA-256.
use hypercarry.Base.{ℕ, ◌≤◌, ◌≡◌, ◌↔◌, refl, true, none, some, List, [], ◌∷◌, ◌++◌, arith}
use hypercarry.Base.Int.{pos, ◌≤ℤ◌, ◌+ℤ◌, ◌-ℤ◌, checked_add, checked_sub}
use hypercarry.Base.Text.{Text, codes, text_eq, byte_len, is_blank, has_char}
use hypercarry.Decimal.Fixed.{Fixed, fixed, cents}
use hypercarry.Execution.Error.{ok}
use hypercarry.Execution.Identity.{hex}
use hypercarry.Execution.Model.{validate_order, validate_correlation_id}
use hypercarry.Execution.Journal.{mainnet_network}
use hypercarry.Execution.Mainnet.{
  enabled, confirmed, Signer, validate_signer, validate_audit_id, validate_commit,
  validate_exact_commit, validate_digest, network_eq,
}
use hypercarry.Execution.Mainnet.Evidence.{
  TestnetSessionEvidence, MainnetReleaseEvidence, MainnetReleaseConfig, Digests, validate_evidence,
  validate_sessions, validate_session, validate_bundle, latest_end, evidence_digest,
  validate_config, review_digest,
}
use hypercarry.Execution.Mainnet.Gate.{
  ready, OperationalHealth, MainnetAuthorization, into_order, MainnetReleaseGate, validate_health,
  validate_bundle_binding, canary_notional, check_submission, authorize,
}
use hypercarry.Execution.Mainnet.Releasable.{IsReleasable, validate_evidence-IsReleasable}
use hypercarry.Execution.Mainnet.Cleared.{IsCleared, check_submission_iff, validate_health_earlier}
use hypercarry.Execution.Mainnet.Expiry.{into_order-authorize}
use hypercarry.Examples.Orders.{sell_order}

abbrev zeros : Text
zeros = codes "0000000000000000000000000000000000000000000000000000000000000000"

abbrev commit_1 : Text
commit_1 = codes "0123456789abcdef0123456789abcdef01234567"

abbrev constant_digests : Digests
constant_digests = record {
  encode_evidence = λ version sessions bundle. some [];
  encode_review = λ payload. some [];
  sha256 = λ bytes. eight ++ (eight ++ (eight ++ eight));
}
  where
    eight : List ℕ
    eight = 0 ∷ 0 ∷ 0 ∷ 0 ∷ 0 ∷ 0 ∷ 0 ∷ 0 ∷ []

abbrev session : Text → TestnetSessionEvidence
session id = record {
  session_id = id;
  commit = commit_1;
  started_at_ms = pos 10;
  ended_at_ms = pos 20;
  independent_reviewer = codes "reviewer";
  final_state_check = codes "check";
  orphaned_orders = 0;
  unmanaged_orders = 0;
  unresolved_submissions = 0;
  risk_limit_bypasses = 0;
  secret_leaks = 0;
}

abbrev evidence_1 : MainnetReleaseEvidence
evidence_1 = record {
  schema_version = 2;
  testnet_sessions = session (codes "one") ∷ session (codes "two") ∷ session (codes "three") ∷ [];
  reviewed_bundle = record {
    source_commit = commit_1;
    cargo_lock_digest = zeros;
    mainnet_transport_artifact = codes "transport";
    mainnet_signer_key_id = codes "mainnet-key";
    config_digest = zeros;
    dependency_audit = codes "audit";
    execution_security_review = codes "review";
    rollback_test = codes "rollback";
  };
  release_decision = record {
    approved = true;
    approver = codes "approver";
    decided_at_ms = pos 30;
    evidence_digest = zeros;
  };
}

abbrev canary_1 : MainnetReleaseConfig Fixed
canary_1 = record {
  source_commit = commit_1;
  cargo_lock_digest = zeros;
  allowed_market = codes "venue:BTC-PERP";
  canary_notional_limit = cents 20000;
  reviewed_max_canary_notional = cents 30000;
  testnet_key_id = codes "testnet-key";
  config_revision = codes "revision";
  config_review = codes "review";
  max_health_age_ms = pos 500;
  max_rest_latency_ms = 100;
  max_private_latency_ms = 100;
  authorization_ttl_ms = 1000;
  integration_config_digest = none;
}

abbrev health_1 : OperationalHealth
health_1 = record {
  observed_at_ms = pos 900;
  startup_reconciliation = ready;
  continuous_reconciliation = ready;
  unmanaged_orders = 0;
  unresolved_submissions = 0;
  rest_latency_ms = 5;
  private_latency_ms = 5;
  private_stream = ready;
  alerts = ready;
  audit_journal = ready;
  rollback = ready;
}

abbrev gate_1 : MainnetReleaseGate Fixed
gate_1 = record {
  config = canary_1;
  evidence = evidence_1;
  health = ok health_1;
  dead_man = λ now. ok true;
}

abbrev signer_1 : Signer
signer_1 = record { network = mainnet_network; key_id = codes "mainnet-key" }

abbrev token_1 : MainnetAuthorization Fixed
token_1 = record {
  order = sell_order;
  market = codes "venue:BTC-PERP";
  max_notional = cents 20000;
  config_revision = codes "revision";
  evidence_digest = zeros;
  authorized_at_ms = pos 1000;
  expires_at_ms = pos 2000;
}

evidence_passes : validate_evidence constant_digests evidence_1 ≡ ok tt
unfolding validate_evidence validate_sessions validate_session validate_bundle validate_audit_id
    validate_commit validate_exact_commit validate_digest evidence_digest latest_end hex text_eq
    byte_len
evidence_passes = refl

authorized :
    authorize constant_digests gate_1 sell_order (ok (pos 1000)) enabled confirmed signer_1
    ≡ ok token_1
unfolding authorize check_submission validate_order validate_correlation_id validate_config
    validate_evidence validate_sessions validate_session validate_bundle validate_audit_id
    validate_commit validate_exact_commit validate_digest evidence_digest latest_end hex text_eq
    byte_len is_blank has_char validate_bundle_binding review_digest validate_signer network_eq
    canary_notional validate_health checked_sub checked_add ◌-ℤ◌ ◌+ℤ◌ fixed
authorized = refl

validate_evidence-IsReleasable_example : IsReleasable constant_digests evidence_1
validate_evidence-IsReleasable_example =
    validate_evidence-IsReleasable constant_digests evidence_1 evidence_passes

check_submission_iff_example :
    (check_submission constant_digests gate_1 sell_order (ok (pos 1000)) signer_1 ≡ ok (pos 1000))
    ↔ IsCleared constant_digests gate_1 sell_order (ok (pos 1000)) signer_1 (pos 1000)
check_submission_iff_example =
    check_submission_iff constant_digests gate_1 sell_order (ok (pos 1000)) signer_1 (pos 1000)

into_order-authorize_example :
    (1000 ≤ 60_000)
    × ((into_order token_1 (pos 1500) ≡ ok sell_order)
        ↔ ((pos 1000 ≤ℤ pos 1500) × (pos 1500 ≤ℤ pos 1000 +ℤ pos 1000)))
into_order-authorize_example =
    into_order-authorize constant_digests gate_1 sell_order (ok (pos 1000)) enabled confirmed
      signer_1 token_1 authorized (pos 1500)

healthy_at_1000 : validate_health canary_1 health_1 (pos 1000) ≡ ok tt
unfolding validate_health checked_sub ◌-ℤ◌
healthy_at_1000 = refl

-- Observed at 900, and taken for fresh at 3.
validate_health_earlier_example : validate_health canary_1 health_1 (pos 3) ≡ ok tt
validate_health_earlier_example =
    validate_health_earlier canary_1 health_1 (pos 1000) (pos 3) (ground arith) (omega arith)
      (omega arith) healthy_at_1000
