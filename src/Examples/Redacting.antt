-- ===== src/Examples/Redacting.antt =====
-- The results on redaction, at one context of a request.
use standalone_policy_engine.Base.{◌≡◌, ◌↔◌, refl, true, false, List, [], ◌∷◌}
use standalone_policy_engine.Base.Text.{Text, txt}
use standalone_policy_engine.Redaction.{
  matches_fold, any_start, contains_fold_ascii, has_delimited_token_fold_ascii,
  should_redact_audit_context_key, redacted_audit_context,
}
use standalone_policy_engine.Redaction.Spelled.{IsSensitive, should_redact_iff}
use standalone_policy_engine.Redaction.Hidden.{ShowAlike, redacted_audit_context_iff}

dept_kept : should_redact_audit_context_key (txt "recipient") ≡ false
unfolding should_redact_audit_context_key contains_fold_ascii has_delimited_token_fold_ascii
    any_start matches_fold
dept_kept = refl

ip_hidden : should_redact_audit_context_key (txt "client.IP") ≡ true
unfolding should_redact_audit_context_key contains_fold_ascii has_delimited_token_fold_ascii
    any_start matches_fold
ip_hidden = refl

should_redact_iff_example :
    (should_redact_audit_context_key (txt "client.IP") ≡ true) ↔ IsSensitive (txt "client.IP")
should_redact_iff_example = should_redact_iff (txt "client.IP")

abbrev from_home : List (Text × Text)
from_home = (txt "dept", txt "hr") ∷ (txt "client.IP", txt "10.0.0.1") ∷ []

abbrev from_work : List (Text × Text)
from_work = (txt "dept", txt "hr") ∷ (txt "client.IP", txt "192.0.2.7") ∷ []

redacted_audit_context_iff_example :
    (redacted_audit_context from_home ≡ redacted_audit_context from_work)
    ↔ ShowAlike from_home from_work
redacted_audit_context_iff_example = redacted_audit_context_iff from_home from_work
