-- ===== src/Redaction/Hidden.antt =====
-- What a redacted context of internal/audit/redaction.go tells of the context.
use standalone_policy_engine.Base.{
  ◌≡◌, refl, sym, ap, ◌∙◌, ◌↔◌, inl, inr, List, [], ◌∷◌, if◌then◌else◌, Bool-cases,
}
use standalone_policy_engine.Base.Text.{Text}
use standalone_policy_engine.Redaction.{
  redacted_audit_value, should_redact_audit_context_key, redact, redacted_audit_context,
}
use standalone_policy_engine.Redaction.Spelled.{IsSensitive, should_redact_iff}

-- Two entries with the same key, and with the same value where the key is not sensitive.
pub record ShowsAlike (x y : Text × Text) : Type 0 where
  pub key : x.0 ≡ y.0
  pub shown : ¬ IsSensitive x.0 → x.1 ≡ y.1

abbrev pub ShowAlike : List (Text × Text) → List (Text × Text) → Type 0
ShowAlike [] [] = Unit {0}
ShowAlike [] (y ∷ t) = ⊥
ShowAlike (x ∷ s) [] = ⊥
ShowAlike (x ∷ s) (y ∷ t) = ShowsAlike x y × ShowAlike s t

redact_alike : (x y : Text × Text) → ShowsAlike x y → redact x ≡ redact y
redact_alike x y a = elim (Bool-cases (should_redact_audit_context_key x.0)) [
  | inl q ↦
      let k = ap should_redact_audit_context_key (sym a.key) ∙ q in
      ap (λ b. (x.0, if b then redacted_audit_value else x.1)) q
      ∙ ap (λ z. (z, redacted_audit_value)) a.key
      ∙ sym (ap (λ b. (y.0, if b then redacted_audit_value else y.1)) k)
  | inr q ↦
      let v = a.shown (λ c. cc ((should_redact_iff x.0).1 c)) in
      let k = ap should_redact_audit_context_key (sym a.key) ∙ q in
      ap (λ b. (x.0, if b then redacted_audit_value else x.1)) q
      ∙ (λ i. (a.key i, v i))
      ∙ sym (ap (λ b. (y.0, if b then redacted_audit_value else y.1)) k)
]

alike_redact : (x y : Text × Text) → redact x ≡ redact y → ShowsAlike x y
alike_redact x y h =
    let e = ap (λ z. z.0) h in
    record {
      key = e;
      shown = λ n. elim (Bool-cases (should_redact_audit_context_key x.0)) [
        | inl q ↦ absurd (n ((should_redact_iff x.0).0 q))
        | inr q ↦
            let k = ap should_redact_audit_context_key (sym e) ∙ q in
            sym (ap (λ b. if b then redacted_audit_value else x.1) q)
            ∙ ap (λ z. z.1) h
            ∙ ap (λ b. if b then redacted_audit_value else y.1) k
      ];
    }

-- Two contexts look the same once they are redacted exactly when they have the same keys in the same
-- order and the same values at the keys that are not sensitive: a redacted context tells nothing of
-- the sensitive values and everything of the others.
pub redacted_audit_context_iff :
    (s t : List (Text × Text))
    → (redacted_audit_context s ≡ redacted_audit_context t) ↔ ShowAlike s t
unfolding redacted_audit_context
redacted_audit_context_iff [] [] = (λ h. tt, λ a. refl)
redacted_audit_context_iff [] (y ∷ t) = (λ h. cc, λ a. absurd a)
redacted_audit_context_iff (x ∷ s) [] = (λ h. cc, λ a. absurd a)
redacted_audit_context_iff (x ∷ s) (y ∷ t) =
    let rest = redacted_audit_context_iff s t in
    (
      λ h.
          let e : redact x ≡ redact y = cc in
          let k : redacted_audit_context s ≡ redacted_audit_context t = cc in
          (alike_redact x y e, rest.0 k),
      λ a. λ i. redact_alike x y a.0 i ∷ rest.1 a.1 i,
    )
