-- ===== src/Execution/Mainnet/Releasable.antt =====
-- The evidence that crates/hypercarry-execution/src/mainnet.rs accepts.
use hypercarry.Base.{
  ◌≤◌, ◌≡◌, sym, ap, ◌∙◌, true, false, not, List, [], ◌∷◌, map, ltb, ◌==◌, length, All, arith,
}
use hypercarry.Base.Int.{ℤ, pos, leb_ℤ, ◌≤ℤ◌, ◌<ℤ◌}
use hypercarry.Base.Text.{Text, text_eq, text_eq_sound}
use hypercarry.Execution.Error.{ok, release_gate, >>=-eq-ok, fail_if-eq-ok}
use hypercarry.Execution.Mainnet.Cleared.{of_not}
use hypercarry.Execution.Mainnet.{required_clean_sessions, validate_audit_id, validate_digest}
use hypercarry.Execution.Mainnet.Evidence.{
  TestnetSessionEvidence, MainnetReleaseEvidence, Digests, seen, validate_session,
  validate_sessions, validate_bundle, latest_end, evidence_digest, validate_evidence,
}

-- A session that ran for some time and left nothing behind.
pub record IsClean (s : TestnetSessionEvidence) : Type 0 where
  pub started : pos 0 ≤ℤ s.started_at_ms
  pub ended : s.started_at_ms <ℤ s.ended_at_ms
  pub no_orphaned : s.orphaned_orders ≡ 0
  pub no_unmanaged : s.unmanaged_orders ≡ 0
  pub no_unresolved : s.unresolved_submissions ≡ 0
  pub no_bypass : s.risk_limit_bypasses ≡ 0
  pub no_leak : s.secret_leaks ≡ 0

validate_session-IsClean :
    (ids : List Text) (s : TestnetSessionEvidence)
    → validate_session ids s ≡ ok tt
    → IsClean s × (seen ids s.session_id ≡ false)
unfolding validate_session
validate_session-IsClean ids s h = ground arith

-- No text of the second list is in the first, and none is twice in it.
abbrev pub Fresh : List Text → List Text → Type 0
Fresh ids [] = Unit {0}
Fresh ids (x ∷ xs) = (seen ids x ≡ false) × Fresh (x ∷ ids) xs

abbrev pub session_ids : List TestnetSessionEvidence → List Text
session_ids ss = map (λ s. s.session_id) ss

validate_sessions-IsClean :
    (ids : List Text) (ss : List TestnetSessionEvidence)
    → validate_sessions ids ss ≡ ok tt
    → All IsClean ss × Fresh ids (session_ids ss)
unfolding validate_sessions
validate_sessions-IsClean ids [] h = (tt, tt)
validate_sessions-IsClean ids (s ∷ rest) h =
    let (u, hs, hr) =
      >>=-eq-ok (validate_session ids s) (λ x. validate_sessions (s.session_id ∷ ids) rest) h in
    let (clean, fresh) = validate_session-IsClean ids s hs in
    let (all_clean, all_fresh) = validate_sessions-IsClean (s.session_id ∷ ids) rest hr in
    ((clean, all_clean), (fresh, all_fresh))

-- The latest end is at or after each.
latest_end_bound :
    (t : ℤ) (ss : List TestnetSessionEvidence)
    → latest_end ss <ℤ t
    → All (λ s. s.ended_at_ms <ℤ t) ss
unfolding latest_end
latest_end_bound t [] h = tt
latest_end_bound t (s ∷ []) h = (h, tt)
latest_end_bound t (s ∷ u ∷ rest) h = (ground (arith), latest_end_bound t (u ∷ rest) (ground arith))

-- Evidence that passes has at least three sessions under different identifiers, all of them clean; an
-- approval that was decided after the end of every one, and that names the digest of the sessions
-- and the bundle.
pub record IsReleasable (g : Digests) (e : MainnetReleaseEvidence) : Type 0 where
  pub enough : 3 ≤ length e.testnet_sessions
  pub clean : All IsClean e.testnet_sessions
  pub distinct : Fresh [] (session_ids e.testnet_sessions)
  pub approved : e.release_decision.approved ≡ true
  pub decided_last : All (λ s. s.ended_at_ms <ℤ e.release_decision.decided_at_ms) e.testnet_sessions
  pub binds : evidence_digest g e ≡ ok e.release_decision.evidence_digest

-- Evidence that `validate` accepts has at least three sessions under different identifiers, all clean; an
-- approval decided after the end of every one, which names the digest of the sessions and the bundle.
pub validate_evidence-IsReleasable :
    (g : Digests) (e : MainnetReleaseEvidence) → validate_evidence g e ≡ ok tt → IsReleasable g e
unfolding validate_evidence
validate_evidence-IsReleasable g e h =
    let (schema, h1) = fail_if-eq-ok (not (e.schema_version == 2)) release_gate _ h in
    let (enough, h2) =
      fail_if-eq-ok (ltb (length e.testnet_sessions) required_clean_sessions) release_gate _ h1 in
    let (few, h3) = fail_if-eq-ok (ltb 1000 (length e.testnet_sessions)) release_gate _ h2 in
    let (_, sessions, h4) = >>=-eq-ok (validate_sessions [] e.testnet_sessions) _ h3 in
    let (_, bundle, h5) = >>=-eq-ok (validate_bundle e.reviewed_bundle) _ h4 in
    let (approved, h6) = fail_if-eq-ok (not e.release_decision.approved) release_gate _ h5 in
    let (_, approver, h7) = >>=-eq-ok (validate_audit_id e.release_decision.approver) _ h6 in
    let (_, shape, h8) = >>=-eq-ok (validate_digest e.release_decision.evidence_digest) _ h7 in
    let (digest, ed, h9) = >>=-eq-ok (evidence_digest g e) _ h8 in
    let (same, h10) =
      fail_if-eq-ok (not (text_eq e.release_decision.evidence_digest digest)) release_gate _ h9 in
    let late : leb_ℤ e.release_decision.decided_at_ms (latest_end e.testnet_sessions) ≡ false =
      ground arith in
    let (clean, distinct) = validate_sessions-IsClean [] e.testnet_sessions sessions in
    record {
      enough = ground arith;
      clean = clean;
      distinct = distinct;
      approved = ground arith;
      decided_last =
          latest_end_bound e.release_decision.decided_at_ms e.testnet_sessions (ground arith);
      binds = ed ∙ ap ok (sym (text_eq_sound _ _ (of_not _ same)));
    }
