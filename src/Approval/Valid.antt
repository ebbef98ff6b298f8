-- ===== src/Approval/Valid.antt =====
-- What a capability has whose canonical bytes exist.
use standalone_policy_engine.Base.{
  ℕ, ◌*◌, ◌^◌, ◌<◌, ◌≤◌, ◌≡◌, refl, ap, ◌∙◌, inl, inr, Bool, true, false, ◌&&◌, Option, none, some,
  List, ◌++◌, length, ◌==◌, Bool-cases, Option-cases, arith,
}
use standalone_policy_engine.Base.Text.{Text, txt, text_eq, text_eq_iff}
use standalone_policy_engine.Canonical.{
  Codecs, decode_canonical_digest, validate_canonical_text, validate_canonical_subject,
  validate_opaque,
}
use standalone_policy_engine.Approval.{
  bad_state_witness, ApprovalCapability, ApprovalError, Checked, valid, invalid, require, decoded,
  has_kind, has_separation, is_window, has_numbers, approval_capability_domain, validate,
  write_fields, canonical_bytes,
}

-- What the libraries promise: base64 writes at most two characters for a byte, and the bytes of a
-- hexadecimal text are half its length and determine it where it is in lower case.
pub record AreCodecs (lib : Codecs) : Type 0 where
  pub base64_length : (bs : List ℕ) → length (lib.base64_encode bs) ≤ 2 * length bs
  pub hex_length : (s : Text) (bs : List ℕ) → lib.hex_decode s ≡ some bs → length s ≡ 2 * length bs
  pub hex_faithful :
      (s t : Text) (bs : List ℕ)
      → lib.hex_decode s ≡ some bs
      → lib.hex_decode t ≡ some bs
      → s ≡ lib.to_lower s
      → t ≡ lib.to_lower t
      → s ≡ t

pub require-valid :
    {A : Type 0} (b : Bool) (e : ApprovalError) (k : Checked A) (a : A)
    → require b e k ≡ valid a
    → (b ≡ true) × (k ≡ valid a)
require-valid true e k a h = (refl, h)
require-valid false e k a h = cc

pub decoded-valid :
    {A B : Type 0} (o : Option A) (e : ApprovalError) (k : A → Checked B) (b : B)
    → decoded o e k ≡ valid b
    → (a : A) × (o ≡ some a) × (k a ≡ valid b)
decoded-valid none e k b h = cc
decoded-valid (some a) e k b h = (a, refl, h)

-- A digest that was decoded.
pub record IsDigest (lib : Codecs) (s : Text) (bs : List ℕ) : Type 0 where
  pub lower : s ≡ lib.to_lower s
  pub bytes : lib.hex_decode s ≡ some bs
  pub size : length s ≡ 64

decode_canonical_digest-IsDigest :
    (lib : Codecs) (s : Text) (bs : List ℕ)
    → decode_canonical_digest lib s ≡ some bs
    → IsDigest lib s bs
unfolding decode_canonical_digest
decode_canonical_digest-IsDigest lib s bs h =
    elim (Bool-cases (length s == 64 && text_eq s (lib.to_lower s))) [
      | inl q ↦
          let k = rw (decode_canonical_digest, q) at h in
          let (a, b) : (length s ≡ 64) × (text_eq s (lib.to_lower s) ≡ true) = ground arith in
          record { lower = (text_eq_iff s (lib.to_lower s)).0 b; bytes = k; size = a }
      | inr q ↦ let k = rw (decode_canonical_digest, q) at h in cc
    ]

pub opaque-short :
    (lib : Codecs)
    → AreCodecs lib
    → (n : ℕ) (s : Text) → validate_opaque lib n s ≡ true
    → length s ≤ 2 * n
unfolding validate_opaque
opaque-short lib laws n s h = elim (Option-cases (lib.base64_decode s)) [
  | inl q ↦ let k = rw (validate_opaque, q) at h in cc
  | inr (bs, q) ↦
      let k = rw (validate_opaque, q) at h in
      let (a, b) : (length bs ≡ n) × (text_eq (lib.base64_encode bs) s ≡ true) = ground arith in
      omega (
        arith,
        a,
        ap (λ z. length z) ((text_eq_iff (lib.base64_encode bs) s).0 b),
        laws.base64_length bs,
      )
]

pub text-short :
    (lib : Codecs) (s : Text) → validate_canonical_text lib s ≡ true → length s < 2 ^ 32
unfolding validate_canonical_text
text-short lib s h = ground arith

pub subject-short :
    (lib : Codecs) (p s : Text) → validate_canonical_subject lib p s ≡ true → length s < 2 ^ 32
unfolding validate_canonical_subject
subject-short lib p s h =
    let k : validate_canonical_text lib s ≡ true = ground arith in text-short lib s k

-- What validate has found of a capability.
pub record IsChecked (lib : Codecs) (c : ApprovalCapability) (hash : List ℕ) : Type 0 where
  pub kind : has_kind c ≡ true
  pub approval : validate_opaque lib 16 c.approval_id ≡ true
  pub tenant : validate_canonical_text lib c.tenant_id ≡ true
  pub numbers : has_numbers c ≡ true
  pub intent : IsDigest lib c.intent_hash hash
  pub command : validate_opaque lib 32 c.command_id ≡ true
  pub delegator : validate_canonical_subject lib (txt "user:") c.delegator_subject ≡ true
  pub agent : validate_canonical_subject lib (txt "agent:") c.agent_subject ≡ true
  pub creator : validate_canonical_subject lib (txt "user:") c.creator_subject ≡ true
  pub approver : validate_canonical_subject lib (txt "user:") c.approver_subject ≡ true
  pub separation : has_separation c ≡ true
  pub window : is_window c.issued_at c.expires_at ≡ true
  pub one_time : validate_opaque lib 32 c.one_time_id ≡ true

pub validate-IsChecked :
    (lib : Codecs) (c : ApprovalCapability) (hash : List ℕ)
    → validate lib c ≡ valid hash
    → IsChecked lib c hash
unfolding validate
validate-IsChecked lib c hash h0 =
    let (kind, h1) = require-valid _ _ _ _ h0 in
    let (approval, h2) = require-valid _ _ _ _ h1 in
    let (tenant, h3) = require-valid _ _ _ _ h2 in
    let (numbers, h4) = require-valid _ _ _ _ h3 in
    let (bytes, intent, h5) = decoded-valid _ _ _ _ h4 in
    let (command, h6) = require-valid _ _ _ _ h5 in
    let (delegator, h7) = require-valid _ _ _ _ h6 in
    let (agent, h8) = require-valid _ _ _ _ h7 in
    let (creator, h9) = require-valid _ _ _ _ h8 in
    let (approver, h10) = require-valid _ _ _ _ h9 in
    let (separation, h11) = require-valid _ _ _ _ h10 in
    let (window, h12) = require-valid _ _ _ _ h11 in
    let (one_time, h13) = require-valid _ _ _ _ h12 in
    let same : bytes ≡ hash = cc in
    record {
      kind = kind;
      approval = approval;
      tenant = tenant;
      numbers = numbers;
      intent = decode_canonical_digest-IsDigest lib c.intent_hash hash (intent ∙ ap some same);
      command = command;
      delegator = delegator;
      agent = agent;
      creator = creator;
      approver = approver;
      separation = separation;
      window = window;
      one_time = one_time;
    }

-- The canonical bytes of a capability, taken apart.
pub record IsCanonical (lib : Codecs) (c : ApprovalCapability) (bytes : List ℕ) : Type 0 where
  pub hash : List ℕ
  pub witness : List ℕ
  pub checked : IsChecked lib c hash
  pub state : IsDigest lib c.state_witness witness
  pub written : approval_capability_domain ++ write_fields lib c hash witness ≡ bytes

pub canonical_bytes-IsCanonical :
    (lib : Codecs) (c : ApprovalCapability) (bytes : List ℕ)
    → canonical_bytes lib c ≡ valid bytes
    → IsCanonical lib c bytes
unfolding canonical_bytes
canonical_bytes-IsCanonical lib c bytes h = go (validate lib c) refl h
  where
    go :
        (r : Checked (List ℕ))
        → validate lib c ≡ r
        → (elim r [
          | invalid e ↦ invalid e
          | valid hash ↦
              decoded
                (decode_canonical_digest lib c.state_witness)
                bad_state_witness
                λ witness. valid (approval_capability_domain ++ write_fields lib c hash witness)
        ])
          ≡ valid bytes
        → IsCanonical lib c bytes
    go (invalid e) k h = cc
    go (valid hash) k h =
        let (witness, d, w) = decoded-valid _ _ _ _ h in
        record {
          hash = hash;
          witness = witness;
          checked = validate-IsChecked lib c hash k;
          state = decode_canonical_digest-IsDigest lib c.state_witness witness d;
          written = cc;
        }
