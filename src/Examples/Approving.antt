-- ===== src/Examples/Approving.antt =====
-- The results on approval capabilities, at one purchase order that a second person approves.
use standalone_policy_engine.Base.{
  ℕ, suc, zero, ◌*◌, ◌≡◌, refl, sym, ap, ◌∙◌, Option, none, some, List, [], ◌∷◌, ◌++◌, length, true,
  inl, inr, Option-cases, arith,
}
use standalone_policy_engine.Base.Int.{pos}
use standalone_policy_engine.Base.Text.{Text, txt, text_eq, has_prefix}
use standalone_policy_engine.Dag.{find_entry}
use standalone_policy_engine.Canonical.{
  Codecs, big_endian, write_canonical_string, write_canonical_int64, decode_canonical_digest,
  validate_canonical_text, validate_canonical_subject, validate_opaque,
}
use standalone_policy_engine.Approval.{
  ApprovalCapability, valid, validate, write_fields, canonical_bytes, verify, Keys,
  approval_capability_domain,
}
use standalone_policy_engine.Approval.Manager.{
  ApprovalCapabilityManager, envelope_of, new_approval_capability_manager, issue, issued_capability,
}
use standalone_policy_engine.Approval.Valid.{AreCodecs}
use standalone_policy_engine.Approval.Binding.{HasInt64s, canonical_bytes_injective}
use standalone_policy_engine.Approval.Verified.{IsVerified, verify-IsVerified}
use standalone_policy_engine.Approval.Issued.{issue-verify}

-- A byte is written as itself in base64, and as a zero and itself in hexadecimal.
abbrev followed : ℕ → Option (List ℕ) → Option (List ℕ)
followed b none = none
followed b (some bs) = some (b ∷ bs)

unfoldable pairs : List ℕ → Option (List ℕ)
pairs [] = some []
pairs (a ∷ []) = none
pairs (zero ∷ b ∷ s) = followed b (pairs s)
pairs (suc a ∷ b ∷ s) = none

abbrev repeated : ℕ → ℕ → List ℕ
repeated zero b = []
repeated (suc n) b = b ∷ repeated n b

abbrev plain : Codecs
plain = record {
  base64_decode = λ s. some s;
  base64_encode = λ bs. bs;
  hex_decode = pairs;
  to_lower = λ s. s;
  trim_space = λ s. s;
  valid_utf8 = λ s. true;
  hmac_sha256 = λ key message. repeated 32 7;
}

-- Hexadecimal digits for given bytes.
unfoldable digits : List ℕ → List ℕ
digits [] = []
digits (b ∷ bs) = 0 ∷ b ∷ digits bs

pairs-digits : (s bs : List ℕ) → pairs s ≡ some bs → s ≡ digits bs
unfolding pairs digits
pairs-digits [] bs h = let e : [] ≡ bs = cc in ap digits e
pairs-digits (a ∷ []) bs h = cc
pairs-digits (suc a ∷ b ∷ s) bs h = cc
pairs-digits (zero ∷ b ∷ s) bs h = elim (Option-cases (pairs s)) [
  | inl q ↦ let k = ap (followed b) q in cc
  | inr (rest, q) ↦
      let e : b ∷ rest ≡ bs = let k = ap (followed b) q in cc in
      ap (λ z. 0 ∷ b ∷ z) (pairs-digits s rest q) ∙ ap digits e
]

length-digits : (bs : List ℕ) → length (digits bs) ≡ 2 * length bs
unfolding digits
length-digits [] = refl
length-digits (b ∷ bs) = omega (arith, length-digits bs)

plain-AreCodecs : AreCodecs plain
plain-AreCodecs = record {
  base64_length = λ bs. omega arith;
  hex_length = λ s bs h. ap (λ z. length z) (pairs-digits s bs h) ∙ length-digits bs;
  hex_faithful = λ s t bs h k x y. pairs-digits s bs h ∙ sym (pairs-digits t bs k);
}

abbrev zeros : Text
zeros = repeated 64 0

abbrev order : ApprovalCapability
order = record {
  capability_version = [];
  purpose = [];
  approval_id = repeated 16 65;
  tenant_id = txt "acme";
  company_id = pos 1;
  intent_hash = zeros;
  state_witness = zeros;
  command_id = repeated 32 66;
  delegation_grant_id = pos 2;
  delegator_subject = txt "user:ann";
  agent_subject = txt "agent:bot";
  creator_subject = txt "user:ann";
  approver_user_id = pos 3;
  approver_subject = txt "user:eve";
  required_permission = [];
  issuance_policy_revision = pos 4;
  issued_at = pos 0;
  expires_at = pos 0;
  one_time_id = [];
}

abbrev ring : Keys
ring = (txt "k1", repeated 32 75) ∷ []

abbrev manager : ApprovalCapabilityManager
manager = record { active_key_id = txt "k1"; keys = ring; ttl = 600 * 1000000000 }

manager_built :
    new_approval_capability_manager (txt "k1") ring (pos (600 * 1000000000)) ≡ valid manager
unfolding new_approval_capability_manager find_entry text_eq
manager_built = refl

abbrev approved : ApprovalCapability
approved = issued_capability 1000 (pos 1600) (repeated 32 67) order

abbrev approved_bytes : List ℕ
approved_bytes =
    approval_capability_domain ++ write_fields plain approved (repeated 32 0) (repeated 32 0)

approved_canonical : canonical_bytes plain approved ≡ valid approved_bytes
unfolding canonical_bytes validate decode_canonical_digest validate_canonical_text
    validate_canonical_subject validate_opaque text_eq has_prefix pairs
approved_canonical = refl

approved_issued :
    issue plain manager 1000 (some (repeated 32 67)) order (pos 5000)
    ≡ valid (approved, envelope_of plain manager approved_bytes)
unfolding issue canonical_bytes validate decode_canonical_digest validate_canonical_text
    validate_canonical_subject validate_opaque text_eq has_prefix pairs
approved_issued = refl

issue-verify_example :
    verify plain manager.keys 1200 approved (envelope_of plain manager approved_bytes) ≡ valid tt
issue-verify_example =
    issue-verify plain (λ key message. refl) (txt "k1") ring (pos (600 * 1000000000)) manager
      manager_built 1000 (some (repeated 32 67)) order (pos 5000) approved
      (envelope_of plain manager approved_bytes) approved_issued 1200 1600 refl (omega arith)
      (omega arith)

approved_verified :
    verify plain manager.keys 1200 approved (envelope_of plain manager approved_bytes) ≡ valid tt
unfolding verify find_entry canonical_bytes validate decode_canonical_digest validate_canonical_text
    validate_canonical_subject validate_opaque text_eq has_prefix pairs write_fields
    write_canonical_string write_canonical_int64 big_endian
approved_verified = refl

verify-IsVerified_example :
    IsVerified plain manager.keys 1200 approved (envelope_of plain manager approved_bytes)
verify-IsVerified_example =
    verify-IsVerified plain manager.keys 1200 approved (envelope_of plain manager approved_bytes)
      approved_verified

approved-HasInt64s : HasInt64s approved
approved-HasInt64s = record {
  company_id = omega arith;
  delegation_grant_id = omega arith;
  approver_user_id = omega arith;
  issuance_policy_revision = omega arith;
  issued_at = omega arith;
  expires_at = omega arith;
}

canonical_bytes_injective_example : approved ≡ approved
canonical_bytes_injective_example =
    canonical_bytes_injective plain plain-AreCodecs approved approved approved_bytes
      approved-HasInt64s approved-HasInt64s approved_canonical approved_canonical
