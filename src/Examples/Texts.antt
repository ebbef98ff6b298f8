-- ===== src/Examples/Texts.antt =====
-- The results on literals, at a time of day and two addresses.
use standalone_policy_engine.Base.{◌≡◌, refl, none, some, [], ◌∷◌, ◌++◌, inl, arith}
use standalone_policy_engine.Base.Text.{txt}
use standalone_policy_engine.Base.Utf8.{
  runes_of, runes_from, decode_rune, first_byte, following, of_runes, encode_rune,
}
use standalone_policy_engine.Platform.{v4_in_v6_prefix}
use standalone_policy_engine.Literals.{parse_ipv4_fast_into}
use standalone_policy_engine.Literals.Address.{write_ipv4, parse_ipv4-write, parse_ipv4-other_byte}
use standalone_policy_engine.Examples.{bare}

parse_ipv4-write_example :
    parse_ipv4_fast_into bare (write_ipv4 192 168 0 1)
    ≡ some (v4_in_v6_prefix ++ (192 ∷ 168 ∷ 0 ∷ 1 ∷ []))
parse_ipv4-write_example =
    parse_ipv4-write bare 192 168 0 1 (omega arith) (omega arith) (omega arith) (omega arith)

parse_ipv4-other_byte_example : parse_ipv4_fast_into bare (txt "::1") ≡ none
parse_ipv4-other_byte_example = parse_ipv4-other_byte bare (txt "::1") b':' (inl refl) refl refl

-- An euro sign, and a byte that starts no rune.
euro_runes : runes_of (226 ∷ 130 ∷ 172 ∷ 255 ∷ []) ≡ 8364 ∷ 65533 ∷ []
unfolding runes_of runes_from decode_rune first_byte following
euro_runes = refl

euro_bytes : of_runes (8364 ∷ 233 ∷ []) ≡ 226 ∷ 130 ∷ 172 ∷ 195 ∷ 169 ∷ []
unfolding of_runes encode_rune
euro_bytes = refl
