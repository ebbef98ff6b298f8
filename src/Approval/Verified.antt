-- ===== src/Approval/Verified.antt =====
-- What Verify has established where it accepts.
use standalone_policy_engine.Base.{
  ℕ, ◌+◌, ◌≤◌, ◌≡◌, ◌≢◌, refl, ap, ◌∙◌, true, false, not, ◌&&◌, some, List, length, ◌==◌, arith,
}
use standalone_policy_engine.Base.Int.{ℤ, pos, negsuc, lt_int}
use standalone_policy_engine.Base.Text.{Text, text_eq, text_eq_iff, text_eq_ne}
use standalone_policy_engine.Dag.{find_entry}
use standalone_policy_engine.Canonical.{Codecs}
use standalone_policy_engine.Approval.{
  not_configured, unsupported_algorithm, unknown_key, payload_mismatch, malformed_signature,
  signature_mismatch, not_active, expired, ApprovalCapability, ApprovalCapabilityEnvelope, Keys,
  Checked, valid, invalid, require, decoded, has_keys, matches_key_id, has_kind, has_separation,
  is_window, approval_capability_algorithm, approval_capability_purpose, canonical_bytes,
  verify_signature, verify,
}
use standalone_policy_engine.Approval.Valid.{
  require-valid, decoded-valid, canonical_bytes-IsCanonical,
}

-- A capability with its envelope, at the clock's reading.
pub record IsVerified (lib : Codecs) (keys : Keys) (now : ℕ) (c : ApprovalCapability)
    (e : ApprovalCapabilityEnvelope) : Type 0 where
  pub secret : Text
  pub known_key : find_entry keys e.key_id ≡ some secret
  pub bound : canonical_bytes lib c ≡ valid e.payload
  pub signed : lib.hmac_sha256 secret e.payload ≡ e.signature
  pub for_purpose : c.purpose ≡ approval_capability_purpose
  pub not_delegator : c.approver_subject ≢ c.delegator_subject
  pub not_creator : c.approver_subject ≢ c.creator_subject
  pub not_agent : c.approver_subject ≢ c.agent_subject
  pub issued : ℕ
  pub expires : ℕ
  pub issued_then : c.issued_at ≡ pos issued
  pub expires_then : c.expires_at ≡ pos expires
  pub active : issued ≤ now + 30
  pub unexpired : now ≤ expires
  pub short_lived : expires ≤ issued + 86400

window_bounds :
    (now : ℕ) (i e : ℤ)
    → is_window i e ≡ true
    → not (lt_int (pos (now + 30)) i) ≡ true
    → not (lt_int e (pos now)) ≡ true
    → (a : ℕ) × (b : ℕ) × (i ≡ pos a) × (e ≡ pos b) × (a ≤ now + 30) × (now ≤ b) × (b ≤ a + 86400)
window_bounds now (pos a) (pos b) h k l =
    (a, b, refl, refl, ground arith, ground arith, ground arith)
window_bounds now (negsuc a) (pos b) h k l = cc
window_bounds now (negsuc a) (negsuc b) h k l = cc
window_bounds now (pos a) (negsuc b) h k l = cc

-- The tests of Verify behind those of the ring and of the envelope.
abbrev with_key :
    Codecs → Keys → ℕ → ApprovalCapability → ApprovalCapabilityEnvelope → Checked (Unit {0})
with_key lib keys now c e =
    decoded (find_entry keys e.key_id) unknown_key
      λ secret. verify_signature lib now secret c e (canonical_bytes lib c)

abbrev after_keys :
    Codecs → Keys → ℕ → ApprovalCapability → ApprovalCapabilityEnvelope → Checked (Unit {0})
after_keys lib keys now c e =
    require (text_eq e.algorithm approval_capability_algorithm && matches_key_id e.key_id)
      unsupported_algorithm (with_key lib keys now c e)

kind-purpose :
    (c : ApprovalCapability)
    → has_kind c ≡ true
    → text_eq c.purpose approval_capability_purpose ≡ true
kind-purpose c h = ground arith

signature-tests :
    (lib : Codecs) (now : ℕ) (secret : Text) (c : ApprovalCapability)
    (e : ApprovalCapabilityEnvelope) (expected : List ℕ)
    → verify_signature lib now secret c e (valid expected) ≡ valid tt
    → (text_eq expected e.payload ≡ true)
      × (text_eq (lib.hmac_sha256 secret e.payload) e.signature ≡ true)
      × (not (lt_int (pos (now + 30)) c.issued_at) ≡ true)
      × (not (lt_int c.expires_at (pos now)) ≡ true)
signature-tests lib now secret c e expected h =
    let (payload, h1) = require-valid (text_eq expected e.payload) payload_mismatch _ tt h in
    let (size, h2) = require-valid (length e.signature == 32) malformed_signature _ tt h1 in
    let (signature, h3) =
      require-valid (text_eq (lib.hmac_sha256 secret e.payload) e.signature) signature_mismatch _ tt
        h2 in
    let (active, h4) =
      require-valid (not (lt_int (pos (now + 30)) c.issued_at)) not_active _ tt h3 in
    let (unexpired, h5) = require-valid (not (lt_int c.expires_at (pos now))) expired _ tt h4 in
    (payload, signature, active, unexpired)

separation-tests :
    (c : ApprovalCapability)
    → has_separation c ≡ true
    → (text_eq c.approver_subject c.delegator_subject ≡ false)
      × (text_eq c.approver_subject c.creator_subject ≡ false)
      × (text_eq c.approver_subject c.agent_subject ≡ false)
separation-tests c h = (ground arith, ground arith, ground arith)

-- Verify accepts only a capability of the one purpose whose canonical bytes are the payload that was
-- signed, under a key of the ring; whose approver is neither the delegator nor the creator nor the
-- agent; that was issued at most 30 seconds after the clock, has not expired, and lives at most a day.
pub verify-IsVerified :
    (lib : Codecs) (keys : Keys) (now : ℕ) (c : ApprovalCapability) (e : ApprovalCapabilityEnvelope)
    → verify lib keys now c e ≡ valid tt
    → IsVerified lib keys now c e
unfolding verify
verify-IsVerified lib keys now c e h0 =
    let (configured, h1) =
      require-valid (has_keys keys) not_configured (after_keys lib keys now c e) tt h0 in
    let (algorithm, h2) =
      require-valid (text_eq e.algorithm approval_capability_algorithm && matches_key_id e.key_id)
        unsupported_algorithm (with_key lib keys now c e) tt h1 in
    let (secret, known, h3) =
      decoded-valid (find_entry keys e.key_id) unknown_key
        (λ secret. verify_signature lib now secret c e (canonical_bytes lib c)) tt h2 in
    go secret known (canonical_bytes lib c) refl h3
  where
    go :
        (secret : Text)
        → find_entry keys e.key_id ≡ some secret
        → (r : Checked (List ℕ)) → canonical_bytes lib c ≡ r
        → verify_signature lib now secret c e r ≡ valid tt
        → IsVerified lib keys now c e
    go secret known (invalid x) k h = cc
    go secret known (valid expected) k h =
        let (payload, signature, active, unexpired) =
          signature-tests lib now secret c e expected h in
        let v = canonical_bytes-IsCanonical lib c expected k in
        let (one, two, three) = separation-tests c v.checked.separation in
        let purpose = kind-purpose c v.checked.kind in
        let (i, x, p, q, r, s, t) =
          window_bounds now c.issued_at c.expires_at v.checked.window active unexpired in
        record {
          secret = secret;
          known_key = known;
          bound = k ∙ ap valid ((text_eq_iff expected e.payload).0 payload);
          signed = (text_eq_iff (lib.hmac_sha256 secret e.payload) e.signature).0 signature;
          for_purpose = (text_eq_iff c.purpose approval_capability_purpose).0 purpose;
          not_delegator = text_eq_ne c.approver_subject c.delegator_subject one;
          not_creator = text_eq_ne c.approver_subject c.creator_subject two;
          not_agent = text_eq_ne c.approver_subject c.agent_subject three;
          issued = i;
          expires = x;
          issued_then = p;
          expires_then = q;
          active = r;
          unexpired = s;
          short_lived = t;
        }
