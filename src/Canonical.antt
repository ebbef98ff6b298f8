-- ===== src/Canonical.antt =====
-- The encoding of signed payloads in internal/security/canonical_encoding.go. The functions of Go's
-- standard library that have no definition here are parameters.
pub mod Prefixes
use standalone_policy_engine.Base.{
  ℕ, zero, suc, ◌+◌, ◌-◌, ◌*◌, ◌/◌, ◌%◌, ◌^◌, Bool, true, false, not, ◌&&◌, ◌||◌, Option, none,
  some, List, [], ◌∷◌, ◌++◌, length, if◌then◌else◌, ltb, leb, ◌==◌,
}
use standalone_policy_engine.Base.Int.{ℤ, pos, negsuc}
use standalone_policy_engine.Base.Text.{Text, txt, text_eq, has_prefix}

pub record Codecs : Type 0 where
  -- base64.RawURLEncoding
  pub base64_decode : Text → Option (List ℕ)
  pub base64_encode : List ℕ → Text
  -- hex.DecodeString
  pub hex_decode : Text → Option (List ℕ)
  -- strings.ToLower, strings.TrimSpace and utf8.ValidString
  pub to_lower : Text → Text
  pub trim_space : Text → Text
  pub valid_utf8 : Text → Bool
  -- the code of hmac.New(sha256.New, key) for a message
  pub hmac_sha256 : Text → List ℕ → List ℕ

-- binary.BigEndian, in `k` bytes
unfoldable pub big_endian : ℕ → ℕ → List ℕ
big_endian zero n = []
big_endian (suc k) n = big_endian k (n / 256) ++ n % 256 ∷ []

-- uint64 of an int64
abbrev pub to_uint64 : ℤ → ℕ
to_uint64 (pos n) = n
to_uint64 (negsuc n) = 2 ^ 64 - 1 - n

unfoldable pub write_canonical_string : Text → List ℕ
write_canonical_string s = big_endian 4 (length s % 2 ^ 32) ++ s

unfoldable pub write_canonical_int64 : ℤ → List ℕ
write_canonical_int64 v = big_endian 8 (to_uint64 v)

abbrev pub is_blank : Text → Bool
is_blank [] = true
is_blank (c ∷ s) = false

module _ (lib : Codecs) where
  unfoldable pub decode_canonical_digest : Text → Option (List ℕ)
  decode_canonical_digest s =
      if length s == 64 && text_eq s (lib.to_lower s) then lib.hex_decode s else none

  -- validateCanonicalText returns nil.
  unfoldable pub validate_canonical_text : Text → Bool
  validate_canonical_text s =
      not (is_blank s)
      && (leb (length s) 4294967295 && (lib.valid_utf8 s && text_eq (lib.trim_space s) s))

  unfoldable pub validate_canonical_subject : Text → Text → Bool
  validate_canonical_subject prefix s =
      validate_canonical_text s && (has_prefix s prefix && not (length s == length prefix))

  -- validateOpaqueBase64URL returns nil, and validateCommandID with 32 bytes.
  unfoldable pub validate_opaque : ℕ → Text → Bool
  validate_opaque size s = elim (lib.base64_decode s) [
    | none ↦ false
    | some bytes ↦ length bytes == size && text_eq (lib.base64_encode bytes) s
  ]
