-- ===== src/Approval.antt =====
-- The approval capabilities of internal/security/approval_capability.go: a signed, one-time
-- permission to confirm a purchase order. Times are in Unix seconds. An error is its kind.
pub mod Valid
pub mod Binding
pub mod Verified
pub mod Manager
pub mod Issued
use standalone_policy_engine.Base.{
  ℕ, zero, suc, ◌+◌, ◌-◌, ◌*◌, ◌/◌, Bool, true, false, not, ◌&&◌, ◌||◌, Option, none, some, List,
  [], ◌∷◌, ◌++◌, length, if◌then◌else◌, any_of, ltb, leb, ◌==◌,
}
use standalone_policy_engine.Base.Int.{ℤ, pos, negsuc, lt_int}
use standalone_policy_engine.Base.Text.{Text, txt, text_eq}
use standalone_policy_engine.Dag.{find_entry}
use standalone_policy_engine.Canonical.{
  Codecs, write_canonical_string, write_canonical_int64, decode_canonical_digest,
  validate_canonical_text, validate_canonical_subject, validate_opaque,
}

pub record ApprovalCapability : Type 0 where
  pub capability_version : Text
  pub purpose : Text
  pub approval_id : Text
  pub tenant_id : Text
  pub company_id : ℤ
  pub intent_hash : Text
  pub state_witness : Text
  pub command_id : Text
  pub delegation_grant_id : ℤ
  pub delegator_subject : Text
  pub agent_subject : Text
  pub creator_subject : Text
  pub approver_user_id : ℤ
  pub approver_subject : Text
  pub required_permission : Text
  pub issuance_policy_revision : ℤ
  pub issued_at : ℤ
  pub expires_at : ℤ
  pub one_time_id : Text

pub record ApprovalCapabilityEnvelope : Type 0 where
  pub algorithm : Text
  pub key_id : Text
  pub payload : List ℕ
  pub signature : List ℕ

-- The keys of the ring.
abbrev pub Keys : Type 0
Keys = List (Text × Text)

pub data ApprovalError : Type 0 where
  unsupported_kind bad_approval_id bad_tenant bad_number bad_intent_hash bad_command_id
        bad_delegator bad_agent bad_creator bad_approver same_person bad_window bad_one_time_id
        bad_state_witness :
      ApprovalError
  bad_active_key_id bad_ttl bad_key no_active_key : ApprovalError
  delegation_expired no_random : ApprovalError
  not_configured unsupported_algorithm unknown_key payload_mismatch malformed_signature
        signature_mismatch not_active expired :
      ApprovalError

pub data Checked {ℓ} (A : Type ℓ) : Type ℓ where
  valid : A → Checked A
  invalid : ApprovalError → Checked A

-- `if !b { return error }`
abbrev pub require {ℓ} : {A : Type ℓ} → Bool → ApprovalError → Checked A → Checked A
require true e k = k
require false e k = invalid e

-- What is decoded, or an error.
abbrev pub decoded {ℓ κ} :
    {A : Type ℓ} {B : Type κ} → Option A → ApprovalError → (A → Checked B) → Checked B
decoded none e k = invalid e
decoded (some a) e k = k a

abbrev pub approval_capability_version : Text
approval_capability_version = txt "ac.v1"

abbrev pub approval_capability_purpose : Text
approval_capability_purpose = txt "odoo.purchase_order.confirm"

abbrev pub approval_required_permission : Text
approval_required_permission = txt "approval:purchase_order.confirm"

abbrev pub approval_capability_algorithm : Text
approval_capability_algorithm = txt "HS256"

abbrev pub approval_capability_domain : Text
approval_capability_domain = txt "PDP-APPROVAL-CAPABILITY-V1"

-- 24 hours and 30 seconds, in seconds
abbrev pub max_approval_capability_ttl : ℕ
max_approval_capability_ttl = 86400

abbrev pub approval_capability_clock_skew : ℕ
approval_capability_clock_skew = 30

-- The three fixed fields.
abbrev pub has_kind : ApprovalCapability → Bool
has_kind c =
    text_eq c.capability_version approval_capability_version
    && (text_eq c.purpose approval_capability_purpose
        && text_eq c.required_permission approval_required_permission)

abbrev pub has_numbers : ApprovalCapability → Bool
has_numbers c =
    lt_int (pos 0) c.company_id
    && (lt_int (pos 0) c.delegation_grant_id
        && (lt_int (pos 0) c.approver_user_id && not (lt_int c.issuance_policy_revision (pos 0))))

abbrev pub has_separation : ApprovalCapability → Bool
has_separation c =
    not (text_eq c.approver_subject c.delegator_subject)
    && (not (text_eq c.approver_subject c.creator_subject)
        && not (text_eq c.approver_subject c.agent_subject))

-- issued < expires <= issued + the longest time to live, for a positive time of issue
abbrev pub is_window : ℤ → ℤ → Bool
is_window (pos i) (pos e) = ltb 0 i && (ltb i e && leb (e - i) max_approval_capability_ttl)
is_window i e = false

module _ (lib : Codecs) where
  -- validate: the bytes of the intent's hash.
  unfoldable pub validate : ApprovalCapability → Checked (List ℕ)
  validate c = require (has_kind c) unsupported_kind (
      require (validate_opaque lib 16 c.approval_id) bad_approval_id (
        require (validate_canonical_text lib c.tenant_id) bad_tenant (
          require (has_numbers c) bad_number (
            decoded (decode_canonical_digest lib c.intent_hash) bad_intent_hash λ hash.
              require (validate_opaque lib 32 c.command_id) bad_command_id (
                require (validate_canonical_subject lib (txt "user:") c.delegator_subject)
                  bad_delegator
                  (require (validate_canonical_subject lib (txt "agent:") c.agent_subject) bad_agent
                    (require (validate_canonical_subject lib (txt "user:") c.creator_subject)
                      bad_creator
                      (require (validate_canonical_subject lib (txt "user:") c.approver_subject)
                        bad_approver
                        (require (has_separation c) same_person (
                          require (is_window c.issued_at c.expires_at) bad_window (
                            require (validate_opaque lib 32 c.one_time_id) bad_one_time_id
                              (valid hash))))))))))))

  -- The fields in the order in which they are written.
  unfoldable pub write_fields : ApprovalCapability → List ℕ → List ℕ → List ℕ
  write_fields c hash witness =
      write_canonical_string c.capability_version
      ++ (write_canonical_string c.purpose
          ++ (write_canonical_string c.approval_id
              ++ (write_canonical_string c.tenant_id
                  ++ (write_canonical_int64 c.company_id
                      ++ (hash
                          ++ (witness
                              ++ (write_canonical_string c.command_id
                                  ++ (write_canonical_int64 c.delegation_grant_id
                                      ++ (write_canonical_string c.delegator_subject
                                          ++ (write_canonical_string c.agent_subject
                                              ++ (write_canonical_string c.creator_subject
                                                  ++ (write_canonical_int64 c.approver_user_id
                                                      ++ (write_canonical_string c.approver_subject
                                                          ++ (write_canonical_string
                                                            c.required_permission
                                                            ++ (write_canonical_int64
                                                            c.issuance_policy_revision
                                                            ++ (write_canonical_int64 c.issued_at
                                                            ++ (write_canonical_int64 c.expires_at
                                                            ++ (write_canonical_string c.one_time_id
                                                            ++ []))))))))))))))))))

  unfoldable pub canonical_bytes : ApprovalCapability → Checked (List ℕ)
  canonical_bytes c = elim (validate c) [
    | invalid e ↦ invalid e
    | valid hash ↦
        decoded (decode_canonical_digest lib c.state_witness) bad_state_witness
          λ witness. valid (approval_capability_domain ++ write_fields c hash witness)
  ]

-- ^[A-Za-z0-9_-]{1,64}$
abbrev pub is_key_id_char : ℕ → Bool
is_key_id_char c =
    (leb b'A' c && leb c b'Z')
    || ((leb b'a' c && leb c b'z') || ((leb b'0' c && leb c b'9') || (c == b'_' || c == b'-')))

abbrev pub matches_key_id : Text → Bool
matches_key_id s =
    not (any_of (λ c. not (is_key_id_char c)) s) && (ltb 0 (length s) && leb (length s) 64)

abbrev pub has_keys : Keys → Bool
has_keys [] = false
has_keys (k ∷ ks) = true

-- The tests of Verify on a signature, where the clock reads `now`.
abbrev pub verify_signature :
    Codecs
    → ℕ
    → Text
    → ApprovalCapability
    → ApprovalCapabilityEnvelope
    → Checked (List ℕ)
    → Checked (Unit {0})
verify_signature lib now secret c e (invalid x) = invalid x
verify_signature lib now secret c e (valid expected) =
    require (text_eq expected e.payload) payload_mismatch (
      require (length e.signature == 32) malformed_signature (
        require (text_eq (lib.hmac_sha256 secret e.payload) e.signature) signature_mismatch (
          require (not (lt_int (pos (now + approval_capability_clock_skew)) c.issued_at)) not_active
            (require (not (lt_int c.expires_at (pos now))) expired (valid tt)))))

unfoldable pub verify :
    Codecs → Keys → ℕ → ApprovalCapability → ApprovalCapabilityEnvelope → Checked (Unit {0})
verify lib keys now c e = require (has_keys keys) not_configured (
    require (text_eq e.algorithm approval_capability_algorithm && matches_key_id e.key_id)
      unsupported_algorithm
      (decoded (find_entry keys e.key_id) unknown_key
        λ secret. verify_signature lib now secret c e (canonical_bytes lib c)))
