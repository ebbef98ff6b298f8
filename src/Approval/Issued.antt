-- ===== src/Approval/Issued.antt =====
-- A capability that is issued is accepted until it expires.
use mathlib.Core.Path.{subst}
use standalone_policy_engine.Base.{
  ℕ, ◌+◌, ◌/◌, ◌≤◌, ◌≡◌, refl, sym, ap, ◌∙◌, true, false, not, Option, none, some, List, [], ◌∷◌,
  length, ltb, any_of, arith,
}
use standalone_policy_engine.Base.Int.{ℤ, pos, lt_int}
use standalone_policy_engine.Base.Text.{Text, text_eq, text_eq_refl}
use standalone_policy_engine.Dag.{find_entry}
use standalone_policy_engine.Canonical.{Codecs}
use standalone_policy_engine.Approval.{
  ApprovalCapability, ApprovalCapabilityEnvelope, Keys, Checked, valid, invalid, decoded, has_keys,
  matches_key_id, canonical_bytes, verify, delegation_expired, no_random, bad_active_key_id,
  bad_ttl, bad_key, no_active_key,
}
use standalone_policy_engine.Approval.Manager.{
  ApprovalCapabilityManager, issue_until, issued_capability, envelope_of, sealed, issue,
  nanoseconds, is_bad_key, is_known, is_ttl, duration, new_approval_capability_manager,
}
use standalone_policy_engine.Approval.Valid.{require-valid, decoded-valid}

known-has_keys : (keys : Keys) (k s : Text) → find_entry keys k ≡ some s → has_keys keys ≡ true
unfolding find_entry
known-has_keys [] k s h = cc
known-has_keys (x ∷ keys) k s h = refl

-- What was issued: its bytes, its envelope and its time.
record IsIssued (lib : Codecs) (m : ApprovalCapabilityManager) (now : ℕ) (d : ApprovalCapability)
    (e : ApprovalCapabilityEnvelope) : Type 0 where
  payload : List ℕ
  bytes : canonical_bytes lib d ≡ valid payload
  envelope : e ≡ envelope_of lib m payload
  time : d.issued_at ≡ pos now

sealed-IsIssued :
    (lib : Codecs) (m : ApprovalCapabilityManager) (now : ℕ) (c d : ApprovalCapability)
    (e : ApprovalCapabilityEnvelope) (r : Checked (List ℕ))
    → c.issued_at ≡ pos now
    → canonical_bytes lib c ≡ r
    → sealed lib m c r ≡ valid (d, e)
    → IsIssued lib m now d e
sealed-IsIssued lib m now c d e (invalid x) t k h = cc
sealed-IsIssued lib m now c d e (valid payload) t k h =
    let p : c ≡ d = cc in
    let q : envelope_of lib m payload ≡ e = cc in
    record {
      payload = payload;
      bytes = ap (λ z. canonical_bytes lib z) (sym p) ∙ k;
      envelope = sym q;
      time = ap (λ z. z.issued_at) (sym p) ∙ t;
    }

issue-IsIssued :
    (lib : Codecs) (m : ApprovalCapabilityManager) (now : ℕ) (random : Option (List ℕ))
    (c d : ApprovalCapability) (e : ApprovalCapabilityEnvelope) (until : ℤ)
    → issue lib m now random c until ≡ valid (d, e)
    → IsIssued lib m now d e
unfolding issue
issue-IsIssued lib m now random c d e until h =
    let limit = issue_until (now + m.ttl / nanoseconds) until in
    let made = λ (bytes : List ℕ). issued_capability now limit (lib.base64_encode bytes) c in
    let (fresh, h1) =
      require-valid (lt_int (pos now) limit) delegation_expired
        (decoded random no_random
          λ bytes. sealed lib m (made bytes) (canonical_bytes lib (made bytes)))
        (d, e) h in
    let (bytes, drawn, h2) =
      decoded-valid random no_random
        (λ bytes. sealed lib m (made bytes) (canonical_bytes lib (made bytes))) (d, e) h1 in
    sealed-IsIssued lib m now (made bytes) d e (canonical_bytes lib (made bytes)) refl refl h2

in_time : (now later : ℕ) → now ≤ later → ltb (later + 30) now ≡ false
in_time now later h = ground arith

unexpired : (later expires : ℕ) → later ≤ expires → ltb expires later ≡ false
unexpired later expires h = ground arith

issue-accepted :
    (lib : Codecs)
    → ((key : Text) (message : List ℕ) → length (lib.hmac_sha256 key message) ≡ 32)
    → (m : ApprovalCapabilityManager) (secret : Text)
    → find_entry m.keys m.active_key_id ≡ some secret
    → matches_key_id m.active_key_id ≡ true
    → (now : ℕ) (random : Option (List ℕ)) (c : ApprovalCapability) (until : ℤ)
      (d : ApprovalCapability) (e : ApprovalCapabilityEnvelope)
    → issue lib m now random c until ≡ valid (d, e)
    → (later expires : ℕ) → d.expires_at ≡ pos expires
    → now ≤ later
    → later ≤ expires
    → verify lib m.keys later d e ≡ valid tt
unfolding verify text_eq
issue-accepted lib size m secret known named now random c until d e h later expires x a b =
    let i = issue-IsIssued lib m now random c d e until h in
    ap (λ z. verify lib m.keys later d z) i.envelope ∙ accepted i.payload i.bytes i.time
  where
    accepted :
        (payload : List ℕ)
        → canonical_bytes lib d ≡ valid payload
        → d.issued_at ≡ pos now
        → verify lib m.keys later d (envelope_of lib m payload) ≡ valid tt
    accepted payload h t =
        rw
          (
            verify,
            known-has_keys m.keys m.active_key_id secret known,
            named,
            known,
            h,
            t,
            x,
            text_eq_refl payload,
            size secret payload,
            text_eq_refl (lib.hmac_sha256 secret payload),
            in_time now later a,
            unexpired later expires b,
          )
          refl

-- What the constructor has found of the ring.
known_secret : (o : Option Text) → is_known o ≡ true → (secret : Text) × (o ≡ some secret)
known_secret none h = cc
known_secret (some s) h = (s, refl)

record HasActiveKey (m : ApprovalCapabilityManager) : Type 0 where
  secret : Text
  known : find_entry m.keys m.active_key_id ≡ some secret
  named : matches_key_id m.active_key_id ≡ true

manager-HasActiveKey :
    (active : Text) (keys : Keys) (ttl : ℤ) (m : ApprovalCapabilityManager)
    → new_approval_capability_manager active keys ttl ≡ valid m
    → HasActiveKey m
unfolding new_approval_capability_manager
manager-HasActiveKey active keys ttl m h =
    let (named, h1) = require-valid (matches_key_id active) bad_active_key_id _ m h in
    let (span, h2) = require-valid (is_ttl ttl) bad_ttl _ m h1 in
    let (good, h3) = require-valid (not (any_of is_bad_key keys)) bad_key _ m h2 in
    let (found, h4) = require-valid (is_known (find_entry keys active)) no_active_key _ m h3 in
    let (secret, known) = known_secret (find_entry keys active) found in
    let e : record { active_key_id = active; keys = keys; ttl = duration ttl } ≡ m = cc in
    subst HasActiveKey e (record { secret = secret; known = known; named = named })

-- What Issue returns at one time, Verify of the same manager accepts at every later time up to the
-- capability's expiry; for every manager that its constructor built, where the codes of the hash
-- function have 32 bytes.
pub issue-verify :
    (lib : Codecs)
    → ((key : Text) (message : List ℕ) → length (lib.hmac_sha256 key message) ≡ 32)
    → (active : Text) (keys : Keys) (ttl : ℤ) (m : ApprovalCapabilityManager)
    → new_approval_capability_manager active keys ttl ≡ valid m
    → (now : ℕ) (random : Option (List ℕ)) (c : ApprovalCapability) (until : ℤ)
      (d : ApprovalCapability) (e : ApprovalCapabilityEnvelope)
    → issue lib m now random c until ≡ valid (d, e)
    → (later expires : ℕ) → d.expires_at ≡ pos expires
    → now ≤ later
    → later ≤ expires
    → verify lib m.keys later d e ≡ valid tt
issue-verify lib size active keys ttl m built now random c until d e h later expires x a b =
    let k = manager-HasActiveKey active keys ttl m built in
    issue-accepted lib size m k.secret k.known k.named now random c until d e h later expires x a b
