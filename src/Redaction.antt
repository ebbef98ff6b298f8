-- ===== src/Redaction.antt =====
-- The redaction of audit records, internal/audit/redaction.go.
pub mod Starts
pub mod Letters
pub mod Spelled
pub mod Hidden
use standalone_policy_engine.Base.{
  ℕ, ◌+◌, Bool, true, false, not, ◌&&◌, ◌||◌, Option, none, some, List, [], ◌∷◌, length, drop,
  any_of, if◌then◌else◌, ltb, leb, ◌==◌, map,
}
use standalone_policy_engine.Base.Text.{Text, txt}

abbrev pub redacted_audit_value : Text
redacted_audit_value = txt "[REDACTED]"

abbrev pub sensitive_audit_key_fragments : List Text
sensitive_audit_key_fragments =
    txt "authorization"
    ∷ txt "credential"
    ∷ txt "password"
    ∷ txt "private_key"
    ∷ txt "api_key"
    ∷ txt "apikey"
    ∷ txt "secret"
    ∷ txt "token"
    ∷ txt "proof"
    ∷ txt "cookie"
    ∷ txt "nonce"
    ∷ []

abbrev pub pii_audit_key_tokens : List Text
pii_audit_key_tokens =
    txt "email"
    ∷ txt "phone"
    ∷ txt "address"
    ∷ txt "ip"
    ∷ txt "user_agent"
    ∷ txt "delegation_chain"
    ∷ txt "delegated_by"
    ∷ txt "creator_id"
    ∷ []

abbrev pub lower_ascii : ℕ → ℕ
lower_ascii c = if leb b'A' c && leb c b'Z' then c + 32 else c

abbrev pub is_audit_key_delimiter : ℕ → Bool
is_audit_key_delimiter c = c == b'.' || (c == b'_' || c == b'-')

-- The inner loop at a start: the rest of the value and the text that is looked for. The value is
-- long enough there.
unfoldable pub matches_fold : Text → Text → Bool
matches_fold rest [] = true
matches_fold [] (b ∷ fragment) = false
matches_fold (a ∷ rest) (b ∷ fragment) =
    lower_ascii a == lower_ascii b && matches_fold rest fragment

-- `for start := 0; start <= len(value)-size; start++`: the byte before the start, if there is one,
-- and the rest of the value; until a test holds.
unfoldable pub any_start : ℕ → (Option ℕ → Text → Bool) → Option ℕ → Text → Bool
any_start size found before [] = if ltb 0 size then false else found before []
any_start size found before (c ∷ rest) =
    let later = any_start size found (some c) rest in
    if ltb (length (c ∷ rest)) size then false else if found before (c ∷ rest) then true else later

unfoldable pub contains_fold_ascii : Text → Text → Bool
contains_fold_ascii value fragment =
    if length fragment == 0 || ltb (length value) (length fragment)
    then false
    else any_start (length fragment) (λ before rest. matches_fold rest fragment) none value

-- A neighbour of a token: no byte, or a delimiter.
abbrev pub is_outside : Option ℕ → Bool
is_outside none = true
is_outside (some c) = is_audit_key_delimiter c

abbrev pub next_byte : Text → Option ℕ
next_byte [] = none
next_byte (c ∷ s) = some c

abbrev pub is_token_at : Text → Option ℕ → Text → Bool
is_token_at token before rest =
    is_outside before
    && (is_outside (next_byte (drop (length token) rest)) && matches_fold rest token)

unfoldable pub has_delimited_token_fold_ascii : Text → Text → Bool
has_delimited_token_fold_ascii value token = any_start (length token) (is_token_at token) none value

unfoldable pub should_redact_audit_context_key : Text → Bool
should_redact_audit_context_key key =
    any_of (contains_fold_ascii key) sensitive_audit_key_fragments
    || any_of (has_delimited_token_fold_ascii key) pii_audit_key_tokens

abbrev pub redact : Text × Text → Text × Text
redact e = (e.0, if should_redact_audit_context_key e.0 then redacted_audit_value else e.1)

-- The nil map is the empty one.
unfoldable pub redacted_audit_context : List (Text × Text) → List (Text × Text)
redacted_audit_context source = map redact source
