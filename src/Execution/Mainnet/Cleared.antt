-- ===== src/Execution/Mainnet/Cleared.antt =====
-- When `check_submission` of crates/hypercarry-execution/src/mainnet.rs lets an order pass.
use hypercarry.Base.{
  ◌≤◌, ◌≡◌, ◌≢◌, ◌↔◌, sym, ap, subst, ◌∙◌, inl, inr, Bool-cases, Bool, true, false, not, arith,
}
use hypercarry.Base.Int.{ℤ, pos, ◌≤ℤ◌, ◌-ℤ◌, checked_sub, is_i64, IsI64, int_laws}
use hypercarry.Base.Text.{Text, text_eq, text_eq_sound, text_eq_of_eq}
use hypercarry.Decimal.{Decimal}
use hypercarry.Decimal.Order.{AtMost, lt_false}
use hypercarry.Execution.Error.{Result, ok, release_gate, >>=-eq-ok, fail_if-eq-ok, ok-injective}
use hypercarry.Execution.Model.{ValidatedOrder, validate_order}
use hypercarry.Execution.Journal.{mainnet_network}
use hypercarry.Execution.Mainnet.{Signer, is_alias, network_eq, validate_signer}
use hypercarry.Execution.Mainnet.Evidence.{
  MainnetReleaseConfig, Digests, validate_config, validate_evidence,
}
use hypercarry.Execution.Mainnet.Gate.{
  OperationalHealth, ready, MainnetReleaseGate, validate_health, canary_market,
  validate_bundle_binding, canary_notional, check_submission,
}

-- A snapshot that is not too old at `now`, with every subsystem ready and nothing left over. Its age
-- may be negative.
pub record IsHealthy {Num : Type 0} (c : MainnetReleaseConfig Num) (h : OperationalHealth)
    (now_ms : ℤ) : Type 0 where
  pub after_epoch : pos 0 ≤ℤ now_ms
  pub observed_after_epoch : pos 0 ≤ℤ h.observed_at_ms
  pub age_in_range : is_i64 (now_ms -ℤ h.observed_at_ms) ≡ true
  pub young : (now_ms -ℤ h.observed_at_ms) ≤ℤ c.max_health_age_ms
  pub startup : h.startup_reconciliation ≡ ready
  pub continuous : h.continuous_reconciliation ≡ ready
  pub no_unmanaged : h.unmanaged_orders ≡ 0
  pub no_unresolved : h.unresolved_submissions ≡ 0
  pub rest : h.rest_latency_ms ≤ c.max_rest_latency_ms
  pub private_latency : h.private_latency_ms ≤ c.max_private_latency_ms
  pub private_stream : h.private_stream ≡ ready
  pub alerts : h.alerts ≡ ready
  pub audit_journal : h.audit_journal ≡ ready
  pub rollback : h.rollback ≡ ready

module _ {Num : Type 0} (c : MainnetReleaseConfig Num) (h : OperationalHealth) (now_ms : ℤ) where
  pub IsHealthy-of_ok : validate_health c h now_ms ≡ ok tt → IsHealthy c h now_ms
  unfolding validate_health checked_sub
  IsHealthy-of_ok e = ground arith

  pub validate_health-of_IsHealthy : IsHealthy c h now_ms → validate_health c h now_ms ≡ ok tt
  unfolding validate_health checked_sub
  validate_health-of_IsHealthy v = ground arith

true_ne_false : true ≢ false
true_ne_false h = cc

pub of_not : (b : Bool) → not b ≡ false → b ≡ true
of_not b h = ground arith

text_eq_apart : (s t : Text) → s ≢ t → text_eq s t ≡ false
text_eq_apart s t h = elim (Bool-cases (text_eq s t)) [
  | inl same ↦ absurd (h (text_eq_sound s t same))
  | inr apart ↦ apart
]

difference_in_range :
    (a b c : ℤ)
    → IsI64 b
    → pos 0 ≤ℤ b
    → pos 0 ≤ℤ c
    → c ≤ℤ a
    → is_i64 (a -ℤ b) ≡ true
    → is_i64 (c -ℤ b) ≡ true
unfolding ◌-ℤ◌
difference_in_range a b c rb pb pc le r = ground arith

-- A snapshot, observed at a 64-bit time, that passes at one time passes at every earlier time that is
-- not before the epoch, also where that is before the observation: the age of a snapshot is bounded
-- from above only, and one from the future is taken for fresh.
pub validate_health_earlier :
    {Num : Type 0} (c : MainnetReleaseConfig Num) (h : OperationalHealth) (now_ms earlier_ms : ℤ)
    → IsI64 h.observed_at_ms
    → pos 0 ≤ℤ earlier_ms
    → earlier_ms ≤ℤ now_ms
    → validate_health c h now_ms ≡ ok tt
    → validate_health c h earlier_ms ≡ ok tt
validate_health_earlier c h now_ms earlier_ms r pe le e =
    let v = IsHealthy-of_ok c h now_ms e in
    validate_health-of_IsHealthy c h earlier_ms (record {
      after_epoch = pe;
      observed_after_epoch = v.observed_after_epoch;
      age_in_range =
          difference_in_range now_ms h.observed_at_ms earlier_ms r v.observed_after_epoch pe le
            v.age_in_range;
      young = omega (int_laws, v.young);
      startup = v.startup;
      continuous = v.continuous;
      no_unmanaged = v.no_unmanaged;
      no_unresolved = v.no_unresolved;
      rest = v.rest;
      private_latency = v.private_latency;
      private_stream = v.private_stream;
      alerts = v.alerts;
      audit_journal = v.audit_journal;
      rollback = v.rollback;
    })

module _ {Num : Type 0} ⦃d : Decimal Num⦄ (g : Digests) where
  -- What the gate asks of an order, a signer and a time.
  pub record IsCleared (gate : MainnetReleaseGate Num) (order : ValidatedOrder Num)
      (clock : Result ℤ) (signer : Signer) (now_ms : ℤ) : Type 0 where
    pub health : OperationalHealth
    pub notional : Num
    pub order_valid : validate_order order ≡ ok tt
    pub config_valid : validate_config gate.config ≡ ok tt
    pub evidence_valid : validate_evidence g gate.evidence ≡ ok tt
    pub bundle_bound : validate_bundle_binding g gate.config gate.evidence ≡ ok tt
    pub on_mainnet : signer.network ≡ mainnet_network
    pub key_alias : is_alias signer.key_id ≡ true
    pub separate_key : signer.key_id ≢ gate.config.testnet_key_id
    pub reviewed_key : signer.key_id ≡ gate.evidence.reviewed_bundle.mainnet_signer_key_id
    pub reviewed_market : canary_market order ≡ gate.config.allowed_market
    pub notional_value : canary_notional g order ≡ ok notional
    pub notional_within : AtMost notional gate.config.canary_notional_limit
    pub health_value : gate.health ≡ ok health
    pub time : clock ≡ ok now_ms
    pub healthy : IsHealthy gate.config health now_ms
    pub armed : gate.dead_man now_ms ≡ ok true

  module _ (gate : MainnetReleaseGate Num) (order : ValidatedOrder Num) (clock : Result ℤ)
      (signer : Signer) (now_ms : ℤ) where
    pub IsCleared-of_ok :
        check_submission g gate order clock signer ≡ ok now_ms
        → IsCleared gate order clock signer now_ms
    unfolding check_submission
    IsCleared-of_ok e =
        let (_, vo, e1) = >>=-eq-ok (validate_order order) _ e in
        let (_, vc, e2) = >>=-eq-ok (validate_config gate.config) _ e1 in
        let (_, ve, e3) = >>=-eq-ok (validate_evidence g gate.evidence) _ e2 in
        let (_, vb, e4) = >>=-eq-ok (validate_bundle_binding g gate.config gate.evidence) _ e3 in
        let (_, vs, e5) = >>=-eq-ok (validate_signer signer mainnet_network) _ e4 in
        let (apart, e6) =
          fail_if-eq-ok (text_eq signer.key_id gate.config.testnet_key_id) release_gate _ e5 in
        let (key, e7) =
          fail_if-eq-ok
            (not (text_eq signer.key_id gate.evidence.reviewed_bundle.mainnet_signer_key_id))
            release_gate _ e6 in
        let (market, e8) =
          fail_if-eq-ok (not (text_eq (canary_market order) gate.config.allowed_market))
            release_gate _ e7 in
        let (notional, en, e9) = >>=-eq-ok (canary_notional g order) _ e8 in
        let (small, e10) =
          fail_if-eq-ok (d.lt gate.config.canary_notional_limit notional) release_gate _ e9 in
        let (health, eh, e11) = >>=-eq-ok gate.health _ e10 in
        let (now, ec, e12) = >>=-eq-ok clock _ e11 in
        let (_, vh, e13) = >>=-eq-ok (validate_health gate.config health now) _ e12 in
        let (armed, ea, e14) = >>=-eq-ok (gate.dead_man now) _ e13 in
        let (on, e15) = fail_if-eq-ok (not armed) release_gate _ e14 in
        let same = ok-injective now now_ms e15 in
        record {
          health = health;
          notional = notional;
          order_valid = vo;
          config_valid = vc;
          evidence_valid = ve;
          bundle_bound = vb;
          on_mainnet = unfold validate_signer network_eq in ground (arith, vs);
          key_alias = unfold validate_signer in ground (arith, vs);
          separate_key = λ s. true_ne_false (sym (text_eq_of_eq _ _ s) ∙ apart);
          reviewed_key = text_eq_sound _ _ (of_not _ key);
          reviewed_market = text_eq_sound _ _ (of_not _ market);
          notional_value = en;
          notional_within = lt_false gate.config.canary_notional_limit notional small;
          health_value = eh;
          time = ec ∙ ap ok same;
          healthy =
              subst (λ t. IsHealthy gate.config health t) same
                (IsHealthy-of_ok gate.config health now vh);
          armed = ap gate.dead_man (sym same) ∙ ea ∙ ap ok (of_not _ on);
        }

    ok-of_IsCleared :
        IsCleared gate order clock signer now_ms
        → check_submission g gate order clock signer ≡ ok now_ms
    unfolding check_submission
    ok-of_IsCleared v = ground (
      arith,
      signer_valid v.on_mainnet v.key_alias,
      text_eq_of_eq signer.key_id gate.evidence.reviewed_bundle.mainnet_signer_key_id
          v.reviewed_key,
      text_eq_of_eq (canary_market order) gate.config.allowed_market v.reviewed_market,
      text_eq_apart signer.key_id gate.config.testnet_key_id v.separate_key,
      d.lt_units gate.config.canary_notional_limit v.notional,
      validate_health-of_IsHealthy gate.config v.health now_ms v.healthy,
    )
      where
        signer_valid :
            signer.network ≡ mainnet_network
            → is_alias signer.key_id ≡ true
            → validate_signer signer mainnet_network ≡ ok tt
        signer_valid n a = unfold validate_signer network_eq in ground arith

    -- The gate clears an order at a time exactly where everything it asks for holds: the order, the
    -- canary configuration and the evidence are valid and bound together, the signer is the reviewed
    -- mainnet key and not the testnet key, the market is the reviewed one, the notional is within the
    -- canary limit, the health snapshot is good and the dead-man switch is armed.
    pub check_submission_iff :
        (check_submission g gate order clock signer ≡ ok now_ms)
        ↔ IsCleared gate order clock signer now_ms
    check_submission_iff = (IsCleared-of_ok, ok-of_IsCleared)
