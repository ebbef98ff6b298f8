-- ===== src/Approval/Binding.antt =====
-- The canonical bytes of a capability determine all of its fields.
use standalone_policy_engine.Base.{
  ℕ, ◌^◌, ◌<◌, ◌≡◌, refl, sym, ap, ◌∙◌, true, List, length, some, arith,
}
use standalone_policy_engine.Base.Int.{IsInt64}
use standalone_policy_engine.Base.Text.{Text, txt, text_eq, text_eq_iff}
use standalone_policy_engine.Canonical.{Codecs}
use standalone_policy_engine.Canonical.Prefixes.{same_length-cancel, string-cancel, int64-cancel}
use standalone_policy_engine.Approval.{
  ApprovalCapability, valid, approval_capability_version, approval_capability_purpose,
  approval_required_permission, approval_capability_domain, write_fields, canonical_bytes,
}
use standalone_policy_engine.Approval.Valid.{
  AreCodecs, IsDigest, opaque-short, text-short, subject-short, IsChecked,
  canonical_bytes-IsCanonical,
}

-- The numbers of a capability are of Go's int64.
pub record HasInt64s (c : ApprovalCapability) : Type 0 where
  pub company_id : IsInt64 c.company_id
  pub delegation_grant_id : IsInt64 c.delegation_grant_id
  pub approver_user_id : IsInt64 c.approver_user_id
  pub issuance_policy_revision : IsInt64 c.issuance_policy_revision
  pub issued_at : IsInt64 c.issued_at
  pub expires_at : IsInt64 c.expires_at

-- Every text of a valid capability is shorter than its length's four bytes can say.
record AreShort (c : ApprovalCapability) : Type 0 where
  capability_version : length c.capability_version < 2 ^ 32
  purpose : length c.purpose < 2 ^ 32
  approval_id : length c.approval_id < 2 ^ 32
  tenant_id : length c.tenant_id < 2 ^ 32
  command_id : length c.command_id < 2 ^ 32
  delegator_subject : length c.delegator_subject < 2 ^ 32
  agent_subject : length c.agent_subject < 2 ^ 32
  creator_subject : length c.creator_subject < 2 ^ 32
  approver_subject : length c.approver_subject < 2 ^ 32
  required_permission : length c.required_permission < 2 ^ 32
  one_time_id : length c.one_time_id < 2 ^ 32

fixed-short : (s t : Text) → text_eq s t ≡ true → length t < 100 → length s < 2 ^ 32
fixed-short s t h l = omega (arith, ap (λ z. length z) ((text_eq_iff s t).0 h), l)

IsChecked-AreShort :
    (lib : Codecs)
    → AreCodecs lib
    → (c : ApprovalCapability) (hash : List ℕ) → IsChecked lib c hash
    → AreShort c
IsChecked-AreShort lib laws c hash v =
    let kind = v.kind in
    let one : text_eq c.capability_version approval_capability_version ≡ true = ground arith in
    let two : text_eq c.purpose approval_capability_purpose ≡ true = ground arith in
    let three : text_eq c.required_permission approval_required_permission ≡ true = ground arith in
    record {
      capability_version =
          fixed-short c.capability_version approval_capability_version one (omega arith);
      purpose = fixed-short c.purpose approval_capability_purpose two (omega arith);
      approval_id = omega (arith, opaque-short lib laws 16 c.approval_id v.approval);
      tenant_id = text-short lib c.tenant_id v.tenant;
      command_id = omega (arith, opaque-short lib laws 32 c.command_id v.command);
      delegator_subject = subject-short lib (txt "user:") c.delegator_subject v.delegator;
      agent_subject = subject-short lib (txt "agent:") c.agent_subject v.agent;
      creator_subject = subject-short lib (txt "user:") c.creator_subject v.creator;
      approver_subject = subject-short lib (txt "user:") c.approver_subject v.approver;
      required_permission =
          fixed-short c.required_permission approval_required_permission three (omega arith);
      one_time_id = omega (arith, opaque-short lib laws 32 c.one_time_id v.one_time);
    }

digest_length :
    (lib : Codecs)
    → AreCodecs lib
    → (s t : Text) (a b : List ℕ) → IsDigest lib s a
    → IsDigest lib t b
    → length a ≡ length b
digest_length lib laws s t a b v w =
    omega (arith, laws.hex_length s a v.bytes, laws.hex_length t b w.bytes, v.size, w.size)

digest_same :
    (lib : Codecs)
    → AreCodecs lib
    → (s t : Text) (a b : List ℕ) → IsDigest lib s a
    → IsDigest lib t b
    → a ≡ b
    → s ≡ t
digest_same lib laws s t a b v w e =
    laws.hex_faithful s t b (v.bytes ∙ ap some e) w.bytes v.lower w.lower

-- Two valid capabilities with the same canonical bytes are the same capability, so that a signature
-- over these bytes binds every field; for base64 and hexadecimal codes as they are documented.
pub canonical_bytes_injective :
    (lib : Codecs)
    → AreCodecs lib
    → (c d : ApprovalCapability) (bytes : List ℕ) → HasInt64s c
    → HasInt64s d
    → canonical_bytes lib c ≡ valid bytes
    → canonical_bytes lib d ≡ valid bytes
    → c ≡ d
unfolding write_fields
canonical_bytes_injective lib laws c d bytes i j h k =
    let v = canonical_bytes-IsCanonical lib c bytes h in
    let w = canonical_bytes-IsCanonical lib d bytes k in
    let s = IsChecked-AreShort lib laws c v.hash v.checked in
    let t = IsChecked-AreShort lib laws d w.hash w.checked in
    let (e, e0) =
      same_length-cancel approval_capability_domain approval_capability_domain _ _ refl
        (v.written ∙ sym w.written) in
    let (capability_version, e1) =
      string-cancel c.capability_version d.capability_version _ _ s.capability_version
        t.capability_version e0 in
    let (purpose, e2) = string-cancel c.purpose d.purpose _ _ s.purpose t.purpose e1 in
    let (approval_id, e3) =
      string-cancel c.approval_id d.approval_id _ _ s.approval_id t.approval_id e2 in
    let (tenant_id, e4) = string-cancel c.tenant_id d.tenant_id _ _ s.tenant_id t.tenant_id e3 in
    let (company_id, e5) =
      int64-cancel c.company_id d.company_id _ _ i.company_id j.company_id e4 in
    let (hash, e6) =
      same_length-cancel v.hash w.hash _ _
        (digest_length lib laws c.intent_hash d.intent_hash v.hash w.hash v.checked.intent
          w.checked.intent)
        e5 in
    let (witness, e7) =
      same_length-cancel v.witness w.witness _ _
        (digest_length lib laws c.state_witness d.state_witness v.witness w.witness v.state w.state)
        e6 in
    let (command_id, e8) =
      string-cancel c.command_id d.command_id _ _ s.command_id t.command_id e7 in
    let (delegation_grant_id, e9) =
      int64-cancel c.delegation_grant_id d.delegation_grant_id _ _ i.delegation_grant_id
        j.delegation_grant_id e8 in
    let (delegator_subject, e10) =
      string-cancel c.delegator_subject d.delegator_subject _ _ s.delegator_subject
        t.delegator_subject e9 in
    let (agent_subject, e11) =
      string-cancel c.agent_subject d.agent_subject _ _ s.agent_subject t.agent_subject e10 in
    let (creator_subject, e12) =
      string-cancel c.creator_subject d.creator_subject _ _ s.creator_subject t.creator_subject
        e11 in
    let (approver_user_id, e13) =
      int64-cancel c.approver_user_id d.approver_user_id _ _ i.approver_user_id j.approver_user_id
        e12 in
    let (approver_subject, e14) =
      string-cancel c.approver_subject d.approver_subject _ _ s.approver_subject t.approver_subject
        e13 in
    let (required_permission, e15) =
      string-cancel c.required_permission d.required_permission _ _ s.required_permission
        t.required_permission e14 in
    let (issuance_policy_revision, e16) =
      int64-cancel c.issuance_policy_revision d.issuance_policy_revision _ _
        i.issuance_policy_revision j.issuance_policy_revision e15 in
    let (issued_at, e17) = int64-cancel c.issued_at d.issued_at _ _ i.issued_at j.issued_at e16 in
    let (expires_at, e18) =
      int64-cancel c.expires_at d.expires_at _ _ i.expires_at j.expires_at e17 in
    let (one_time_id, e19) =
      string-cancel c.one_time_id d.one_time_id _ _ s.one_time_id t.one_time_id e18 in
    let intent_hash =
      digest_same lib laws c.intent_hash d.intent_hash v.hash w.hash v.checked.intent
        w.checked.intent hash in
    let state_witness =
      digest_same lib laws c.state_witness d.state_witness v.witness w.witness v.state w.state
        witness in
    λ x. record {
      capability_version = capability_version x;
      purpose = purpose x;
      approval_id = approval_id x;
      tenant_id = tenant_id x;
      company_id = company_id x;
      intent_hash = intent_hash x;
      state_witness = state_witness x;
      command_id = command_id x;
      delegation_grant_id = delegation_grant_id x;
      delegator_subject = delegator_subject x;
      agent_subject = agent_subject x;
      creator_subject = creator_subject x;
      approver_user_id = approver_user_id x;
      approver_subject = approver_subject x;
      required_permission = required_permission x;
      issuance_policy_revision = issuance_policy_revision x;
      issued_at = issued_at x;
      expires_at = expires_at x;
      one_time_id = one_time_id x;
    }
