-- ===== src/Execution/Mainnet/Gate.antt =====
-- The gate, its health checks, the dead-man switch and the authorization of
-- crates/hypercarry-execution/src/mainnet.rs. The health source, the clock, the dead-man switch and
-- the signer are given by what they answer.
use hypercarry.Base.{
  ℕ, Bool, true, false, not, ◌&&◌, ◌||◌, Option, none, some, ◌∷◌, ◌++◌, ltb, leb, ◌==◌,
}
use hypercarry.Base.Int.{ℤ, pos, ltb_ℤ, leb_ℤ, checked_add, checked_sub, to_i64, to_u64}
use hypercarry.Base.Text.{Text, text_eq}
use hypercarry.Decimal.{Decimal}
use hypercarry.Execution.Error.{Result, ok, err, release_gate, ◌>>=◌, ◌>>◌, fail_if, or_fail}
use hypercarry.Execution.Model.{ValidatedOrder, validate_order}
use hypercarry.Execution.Journal.{mainnet_network}
use hypercarry.Execution.Mainnet.{
  ExplicitMainnetEnable, InteractiveMainnetConfirmation, Signer, validate_signer,
}
use hypercarry.Execution.Mainnet.Evidence.{
  MainnetReleaseEvidence, MainnetReleaseConfig, Digests, evidence_digest, validate_evidence,
  validate_config, review_digest,
}

pub data Readiness : Type 0 where
  ready not_ready : Readiness

abbrev pub is_ready : Readiness → Bool
is_ready ready = true
is_ready not_ready = false

pub record OperationalHealth : Type 0 where
  pub observed_at_ms : ℤ
  pub startup_reconciliation : Readiness
  pub continuous_reconciliation : Readiness
  pub unmanaged_orders : ℕ
  pub unresolved_submissions : ℕ
  pub rest_latency_ms : ℕ
  pub private_latency_ms : ℕ
  pub private_stream : Readiness
  pub alerts : Readiness
  pub audit_journal : Readiness
  pub rollback : Readiness

-- What the file system says of the heartbeat: no file, another error, a time that is unavailable or
-- before the epoch, or the milliseconds since the epoch.
pub data Heartbeat : Type 0 where
  no_file io_failure bad_time : Heartbeat
  modified_at : ℕ → Heartbeat

pub record FileDeadManSwitch : Type 0 where
  pub heartbeat : Heartbeat
  pub timeout_ms : ℕ

-- `FileDeadManSwitch::new`
unfoldable pub new_dead_man : Heartbeat → ℕ → Result FileDeadManSwitch
new_dead_man heartbeat timeout_ms = do
  fail_if (timeout_ms == 0) release_gate
  ok (record { heartbeat = heartbeat; timeout_ms = timeout_ms })

abbrev within_timeout : Option ℕ → ℕ → Bool
within_timeout none timeout = false
within_timeout (some age) timeout = leb age timeout

unfoldable pub heartbeat_fresh : Heartbeat → ℕ → ℤ → Result Bool
heartbeat_fresh no_file timeout now_ms = ok false
heartbeat_fresh io_failure timeout now_ms = err release_gate
heartbeat_fresh bad_time timeout now_ms = err release_gate
heartbeat_fresh (modified_at ms) timeout now_ms = do
  modified_ms ← or_fail (to_i64 ms) release_gate
  age_ms ← or_fail (checked_sub now_ms modified_ms) release_gate
  ok (leb_ℤ (pos 0) age_ms && within_timeout (to_u64 age_ms) timeout)

-- `FileDeadManSwitch::is_armed`
unfoldable pub is_armed : FileDeadManSwitch → ℤ → Result Bool
unfolding heartbeat_fresh
is_armed s now_ms = do
  fail_if (ltb_ℤ now_ms (pos 0)) release_gate
  heartbeat_fresh s.heartbeat s.timeout_ms now_ms

pub record MainnetAuthorization (Num : Type 0) : Type 0 where
  pub order : ValidatedOrder Num
  pub market : Text
  pub max_notional : Num
  pub config_revision : Text
  pub evidence_digest : Text
  pub authorized_at_ms : ℤ
  pub expires_at_ms : ℤ

-- `MainnetAuthorization::into_order`
unfoldable pub into_order :
    {Num : Type 0} → MainnetAuthorization Num → ℤ → Result (ValidatedOrder Num)
into_order t now_ms = do
  fail_if (ltb_ℤ now_ms t.authorized_at_ms || ltb_ℤ t.expires_at_ms now_ms) release_gate
  ok t.order

pub record MainnetReleaseGate (Num : Type 0) : Type 0 where
  pub config : MainnetReleaseConfig Num
  pub evidence : MainnetReleaseEvidence
  pub health : Result OperationalHealth
  pub dead_man : ℤ → Result Bool

unfoldable pub validate_health :
    {Num : Type 0} → MainnetReleaseConfig Num → OperationalHealth → ℤ → Result (Unit {0})
validate_health c h now_ms = do
  fail_if (ltb_ℤ now_ms (pos 0) || ltb_ℤ h.observed_at_ms (pos 0)) release_gate
  age ← or_fail (checked_sub now_ms h.observed_at_ms) release_gate
  fail_if (ltb_ℤ c.max_health_age_ms age) release_gate
  fail_if (not (is_ready h.startup_reconciliation) || not (is_ready h.continuous_reconciliation))
      release_gate
  fail_if (not (h.unmanaged_orders == 0) || not (h.unresolved_submissions == 0)) release_gate
  fail_if
      (ltb c.max_rest_latency_ms h.rest_latency_ms
        || ltb c.max_private_latency_ms h.private_latency_ms)
      release_gate
  fail_if
      (not (is_ready h.private_stream)
        || not (is_ready h.alerts)
        || not (is_ready h.audit_journal)
        || not (is_ready h.rollback))
      release_gate

-- `format!("{}:{}", order.venue, order.market)`
abbrev pub canary_market : {Num : Type 0} → ValidatedOrder Num → Text
canary_market o = o.venue ++ b':' ∷ o.market

module _ {Num : Type 0} ⦃d : Decimal Num⦄ (g : Digests) where
  unfoldable pub validate_bundle_binding :
      MainnetReleaseConfig Num → MainnetReleaseEvidence → Result (Unit {0})
  validate_bundle_binding c e = do
    fail_if
        (not (text_eq e.reviewed_bundle.source_commit c.source_commit)
          || not (text_eq e.reviewed_bundle.cargo_lock_digest c.cargo_lock_digest))
        release_gate
    digest ← review_digest g c
    fail_if (not (text_eq e.reviewed_bundle.config_digest digest)) release_gate

  -- `MainnetReleaseGate::new`
  unfoldable pub new_gate :
      MainnetReleaseConfig Num
      → MainnetReleaseEvidence
      → Result OperationalHealth
      → (ℤ → Result Bool)
      → Result (MainnetReleaseGate Num)
  new_gate config evidence health dead_man = do
    validate_config config
    validate_evidence g evidence
    validate_bundle_binding config evidence
    ok (record { config = config; evidence = evidence; health = health; dead_man = dead_man })

  -- The notional of the order as the gate checks it.
  unfoldable pub canary_notional : ValidatedOrder Num → Result Num
  canary_notional order = do
    product ← or_fail (d.checked_mul order.quantity order.limit_price) release_gate
    ok (d.normalize product)

  unfoldable pub check_submission :
      MainnetReleaseGate Num → ValidatedOrder Num → Result ℤ → Signer → Result ℤ
  check_submission gate order clock signer = do
    validate_order order
    validate_config gate.config
    validate_evidence g gate.evidence
    validate_bundle_binding gate.config gate.evidence
    validate_signer signer mainnet_network
    fail_if (text_eq signer.key_id gate.config.testnet_key_id) release_gate
    fail_if (not (text_eq signer.key_id gate.evidence.reviewed_bundle.mainnet_signer_key_id))
        release_gate
    fail_if (not (text_eq (canary_market order) gate.config.allowed_market)) release_gate
    notional ← canary_notional order
    fail_if (d.lt gate.config.canary_notional_limit notional) release_gate
    health ← gate.health
    now_ms ← clock
    validate_health gate.config health now_ms
    armed ← gate.dead_man now_ms
    fail_if (not armed) release_gate
    ok now_ms

  -- `authorize_with_clock`; `authorize` is this with a clock that answers a given time.
  unfoldable pub authorize :
      MainnetReleaseGate Num
      → ValidatedOrder Num
      → Result ℤ
      → ExplicitMainnetEnable
      → InteractiveMainnetConfirmation
      → Signer
      → Result (MainnetAuthorization Num)
  authorize gate order clock flag phrase signer = do
    now_ms ← check_submission gate order clock signer
    ttl_ms ← or_fail (to_i64 gate.config.authorization_ttl_ms) release_gate
    expires_at_ms ← or_fail (checked_add now_ms ttl_ms) release_gate
    digest ← evidence_digest g gate.evidence
    ok (record {
      order = order;
      market = canary_market order;
      max_notional = gate.config.canary_notional_limit;
      config_revision = gate.config.config_revision;
      evidence_digest = digest;
      authorized_at_ms = now_ms;
      expires_at_ms = expires_at_ms;
    })

  -- `recheck_submission_with_clock`
  unfoldable pub recheck_submission :
      MainnetReleaseGate Num → ValidatedOrder Num → Text → Result ℤ → Signer → Result (Unit {0})
  recheck_submission gate order digest clock signer = do
    current ← evidence_digest g gate.evidence
    fail_if (not (text_eq current digest)) release_gate
    now_ms ← check_submission gate order clock signer
    ok tt
