-- ===== src/Execution/Mainnet/Expiry.antt =====
-- The life of an authorization and of a heartbeat in crates/hypercarry-execution/src/mainnet.rs.
use hypercarry.Base.{ℕ, ◌+◌, ◌≤◌, ◌≡◌, ◌↔◌, sym, ap, subst, ◌∙◌, true, some, arith}
use hypercarry.Base.Int.{ℤ, pos, ◌≤ℤ◌, ◌+ℤ◌, ◌-ℤ◌, checked_add, checked_sub, to_i64, IsI64}
use hypercarry.Base.Text.{text_eq_refl}
use hypercarry.Decimal.{Decimal}
use hypercarry.Execution.Error.{Result, ok, release_gate, >>=-eq-ok, or_fail-eq-ok, ok-injective}
use hypercarry.Execution.Model.{ValidatedOrder}
use hypercarry.Execution.Mainnet.{ExplicitMainnetEnable, InteractiveMainnetConfirmation, Signer}
use hypercarry.Execution.Mainnet.Evidence.{Digests, validate_config, evidence_digest}
use hypercarry.Execution.Mainnet.Gate.{
  modified_at, is_armed, heartbeat_fresh, MainnetAuthorization, into_order, MainnetReleaseGate,
  check_submission, authorize, recheck_submission,
}
use hypercarry.Execution.Mainnet.Cleared.{IsCleared-of_ok}

module _ {Num : Type 0} ⦃d : Decimal Num⦄ (g : Digests) (gate : MainnetReleaseGate Num)
    (order : ValidatedOrder Num) (clock : Result ℤ) (flag : ExplicitMainnetEnable)
    (phrase : InteractiveMainnetConfirmation) (signer : Signer) (token : MainnetAuthorization Num)
    (given : authorize g gate order clock flag phrase signer ≡ ok token) where
  -- What an authorization is made of.
  record Issued : Type 0 where
    checked : check_submission g gate order clock signer ≡ ok token.authorized_at_ms
    same_order : token.order ≡ order
    expires : token.expires_at_ms ≡ token.authorized_at_ms +ℤ pos gate.config.authorization_ttl_ms
    digest : evidence_digest g gate.evidence ≡ ok token.evidence_digest

  issued : Issued
  unfolding authorize
  issued =
      let (now, en, e1) = >>=-eq-ok (check_submission g gate order clock signer) _ given in
      let (ttl, et, e2) =
        or_fail-eq-ok (to_i64 gate.config.authorization_ttl_ms) release_gate _ e1 in
      let (until, eu, e3) = or_fail-eq-ok (checked_add now ttl) release_gate _ e2 in
      let (digest, ed, e4) = >>=-eq-ok (evidence_digest g gate.evidence) _ e3 in
      let same = ok-injective _ token e4 in
      record {
        checked = en ∙ ap (λ (t : MainnetAuthorization Num). ok t.authorized_at_ms) same;
        same_order = sym (ap (λ (t : MainnetAuthorization Num). t.order) same);
        expires =
            sym (ap (λ (t : MainnetAuthorization Num). t.expires_at_ms) same)
            ∙ until_is now ttl until et eu
            ∙ ap
                (λ (t : MainnetAuthorization Num).
                  t.authorized_at_ms +ℤ pos gate.config.authorization_ttl_ms)
                same;
        digest = ed ∙ ap (λ (t : MainnetAuthorization Num). ok t.evidence_digest) same;
      }
    where
      until_is :
          (now ttl until : ℤ)
          → to_i64 gate.config.authorization_ttl_ms ≡ some ttl
          → checked_add now ttl ≡ some until
          → until ≡ now +ℤ pos gate.config.authorization_ttl_ms
      until_is now ttl until et eu = unfold checked_add in ground arith

  -- An authorization gives up exactly the order it was issued for, from the time of its issue to the
  -- configured lifetime after it, which is at most 60 seconds, and at no other time.
  pub into_order-authorize :
      (at_ms : ℤ)
      → (gate.config.authorization_ttl_ms ≤ 60_000)
        × ((into_order token at_ms ≡ ok order) ↔ (
            (token.authorized_at_ms ≤ℤ at_ms)
            × (at_ms ≤ℤ token.authorized_at_ms +ℤ pos gate.config.authorization_ttl_ms)))
  into_order-authorize at_ms = (short, (forth, back))
    where
      short : gate.config.authorization_ttl_ms ≤ 60_000
      short =
          unfold validate_config in
          ground (
            arith,
            (IsCleared-of_ok g gate order clock signer token.authorized_at_ms
                issued.checked).config_valid,
          )

      forth :
          into_order token at_ms ≡ ok order
          → (token.authorized_at_ms ≤ℤ at_ms)
            × (at_ms ≤ℤ token.authorized_at_ms +ℤ pos gate.config.authorization_ttl_ms)
      forth h =
          subst (λ t. (token.authorized_at_ms ≤ℤ at_ms) × (at_ms ≤ℤ t)) issued.expires
            (unfold into_order in ground arith)

      back :
          (token.authorized_at_ms ≤ℤ at_ms)
            × (at_ms ≤ℤ token.authorized_at_ms +ℤ pos gate.config.authorization_ttl_ms)
          → into_order token at_ms ≡ ok order
      back (lo, hi) =
          in_time (subst (λ t. at_ms ≤ℤ t) (sym issued.expires) hi) ∙ ap ok issued.same_order
        where
          in_time : at_ms ≤ℤ token.expires_at_ms → into_order token at_ms ≡ ok token.order
          in_time h = unfold into_order in ground arith

  -- Where nothing has changed, the recheck of an order before its submission passes with the digest that
  -- its authorization carries.
  pub recheck_submission-authorize :
      recheck_submission g gate order token.evidence_digest clock signer ≡ ok tt
  unfolding recheck_submission
  recheck_submission-authorize =
      ground (arith, issued.digest, issued.checked, text_eq_refl token.evidence_digest)

-- The heartbeat of a file arms the switch exactly from its time of modification to the timeout after it.
is_armed_iff :
    (ms timeout : ℕ) (now_ms : ℤ)
    → IsI64 (pos ms)
    → IsI64 now_ms
    → pos 0 ≤ℤ now_ms
    → (is_armed (record { heartbeat = modified_at ms; timeout_ms = timeout }) now_ms ≡ ok true)
      ↔ ((pos ms ≤ℤ now_ms) × (now_ms ≤ℤ pos (ms + timeout)))
is_armed_iff ms timeout now_ms rm rn pn = (
  λ h. unfold is_armed heartbeat_fresh checked_sub ◌-ℤ◌ in ground arith,
  λ h. unfold is_armed heartbeat_fresh checked_sub ◌-ℤ◌ in ground arith,
)
