-- ===== src/Approval/Manager.antt =====
-- NewApprovalCapabilityManagerWithKeyring and Issue of internal/security/approval_capability.go.
use standalone_policy_engine.Base.{
  ℕ, ◌+◌, ◌*◌, ◌/◌, Bool, true, false, not, ◌&&◌, ◌||◌, Option, none, some, List, [], length,
  if◌then◌else◌, any_of, ltb, leb,
}
use standalone_policy_engine.Base.Int.{ℤ, pos, negsuc, lt_int}
use standalone_policy_engine.Base.Text.{Text}
use standalone_policy_engine.Dag.{find_entry}
use standalone_policy_engine.Canonical.{Codecs}
use standalone_policy_engine.Approval.{
  ApprovalCapability, ApprovalCapabilityEnvelope, Keys, Checked, valid, invalid, require, decoded,
  bad_active_key_id, bad_ttl, bad_key, no_active_key, delegation_expired, no_random,
  approval_capability_version, approval_capability_purpose, approval_required_permission,
  approval_capability_algorithm, max_approval_capability_ttl, matches_key_id, canonical_bytes,
}

-- `ttl` is a duration, in nanoseconds.
pub record ApprovalCapabilityManager : Type 0 where
  pub active_key_id : Text
  pub keys : Keys
  pub ttl : ℕ

abbrev pub nanoseconds : ℕ
nanoseconds = 1000000000

-- A key of the ring that is refused.
abbrev pub is_bad_key : Text × Text → Bool
is_bad_key k = not (matches_key_id k.0) || ltb (length k.1) 32

abbrev pub is_known : Option Text → Bool
is_known none = false
is_known (some s) = true

abbrev pub is_ttl : ℤ → Bool
is_ttl (pos ttl) = ltb 0 ttl && leb ttl (max_approval_capability_ttl * nanoseconds)
is_ttl (negsuc n) = false

abbrev pub duration : ℤ → ℕ
duration (pos n) = n
duration (negsuc n) = 0

unfoldable pub new_approval_capability_manager : Text → Keys → ℤ → Checked ApprovalCapabilityManager
new_approval_capability_manager active keys ttl =
    require (matches_key_id active) bad_active_key_id (
      require (is_ttl ttl) bad_ttl (
        require (not (any_of is_bad_key keys)) bad_key (
          require (is_known (find_entry keys active)) no_active_key
            (valid (record { active_key_id = active; keys = keys; ttl = duration ttl })))))

abbrev pub secret_of : Option Text → Text
secret_of none = []
secret_of (some s) = s

-- The earlier of the end of the time to live and the end of the delegation.
abbrev pub issue_until : ℕ → ℤ → ℤ
issue_until limit until = if lt_int until (pos limit) then until else pos limit

abbrev pub issued_capability : ℕ → ℤ → Text → ApprovalCapability → ApprovalCapability
issued_capability now until one_time c = record c {
  capability_version = approval_capability_version;
  purpose = approval_capability_purpose;
  required_permission = approval_required_permission;
  issued_at = pos now;
  expires_at = until;
  one_time_id = one_time;
}

abbrev pub envelope_of : Codecs → ApprovalCapabilityManager → List ℕ → ApprovalCapabilityEnvelope
envelope_of lib m payload = record {
  algorithm = approval_capability_algorithm;
  key_id = m.active_key_id;
  payload = payload;
  signature = lib.hmac_sha256 (secret_of (find_entry m.keys m.active_key_id)) payload;
}

abbrev pub sealed :
    Codecs
    → ApprovalCapabilityManager
    → ApprovalCapability
    → Checked (List ℕ)
    → Checked (ApprovalCapability × ApprovalCapabilityEnvelope)
sealed lib m c (invalid e) = invalid e
sealed lib m c (valid payload) = valid (c, envelope_of lib m payload)

-- Issue, where the clock reads `now` and the random source gives `random`, or an error.
unfoldable pub issue :
    Codecs
    → ApprovalCapabilityManager
    → ℕ
    → Option (List ℕ)
    → ApprovalCapability
    → ℤ
    → Checked (ApprovalCapability × ApprovalCapabilityEnvelope)
issue lib m now random c delegation_valid_until =
    let until = issue_until (now + m.ttl / nanoseconds) delegation_valid_until in
    require (lt_int (pos now) until) delegation_expired (
      decoded random no_random λ bytes.
        let d = issued_capability now until (lib.base64_encode bytes) c in
        sealed lib m d (canonical_bytes lib d))
