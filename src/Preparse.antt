-- ===== src/Preparse.antt =====
-- Literals that the compiler reads ahead, in internal/parser/compiler.go: a string that is an
-- address, a network or a time.

use standalone_policy_engine.Base.{
  ◌+◌, ◌*◌, Bool, true, false, ◌&&◌, ◌||◌, Option, none, some, [], ◌∷◌, if◌then◌else◌, ltb, ◌==◌,
}
use standalone_policy_engine.Base.Int.{ℤ, pos}
use standalone_policy_engine.Base.Text.{Text, txt, has_prefix}
use standalone_policy_engine.Ast.{
  ValueNode, string, ip, ip_net, date_time, Node, value, variable, BinaryOp, eq, is_in,
}
use standalone_policy_engine.Platform.{Platform}

unfoldable pub try_parse_ip_or_cidr : Platform → Text → Option ValueNode
try_parse_ip_or_cidr lib s = elim (lib.parse_ip s) [
  | some a ↦ some (ip a)
  | none ↦ elim (lib.parse_cidr s) [ some n ↦ some (ip_net n) | none ↦ none ]
]

unfoldable pub ends_with_z : Text → Bool
ends_with_z [] = false
ends_with_z (c ∷ []) = c == b'Z'
ends_with_z (c ∷ d ∷ s) = ends_with_z (d ∷ s)

unfoldable pub seconds_of : ℤ → ℤ → ℤ → Option ℤ
seconds_of (pos h) (pos m) (pos s) =
    if ltb h 24 && (ltb m 60 && ltb s 60) then some (pos (h * 3600 + m * 60 + s)) else none
seconds_of h m s = none

unfoldable pub seconds_of_hms : Option (ℤ × ℤ × ℤ) → Option ℤ
seconds_of_hms none = none
seconds_of_hms (some (h, m, s)) = seconds_of h m s

unfoldable pub seconds_of_hm : Option (ℤ × ℤ) → Option ℤ
seconds_of_hm none = none
seconds_of_hm (some (h, m)) = seconds_of h m (pos 0)

-- tryParseDateTimeOrTime of the compiler
unfoldable pub try_parse_date_time : Platform → Text → Option ℤ
try_parse_date_time lib s = elim (lib.parse_rfc3339 s) [
  | some t ↦ some t
  | none ↦ elim (seconds_of_hms (if ends_with_z s then lib.scan_hmsz s else lib.scan_hms s)) [
    | some t ↦ some t
    | none ↦ seconds_of_hm (lib.scan_hm s)
  ]
]

-- A string literal that reads as an address, a network or a time becomes one.
unfoldable pub optimize_value : Platform → ValueNode → ValueNode
optimize_value lib (string s) = elim (try_parse_ip_or_cidr lib s) [
  | some v ↦ v
  | none ↦ elim (try_parse_date_time lib s) [ some t ↦ date_time t | none ↦ string s ]
]
optimize_value lib v = v

-- strings.Contains
unfoldable pub contains_text : Text → Text → Bool
contains_text [] p = has_prefix [] p
contains_text (c ∷ s) p =
    let rest = contains_text s p in if has_prefix (c ∷ s) p then true else rest

abbrev pub is_in_or_eq : BinaryOp → Bool
is_in_or_eq is_in = true
is_in_or_eq eq = true
is_in_or_eq op = false

unfoldable pub preparse_ip : Platform → BinaryOp → Text → Text → ValueNode
preparse_ip lib op field s =
    if is_in_or_eq op && (contains_text field (txt "ip") || contains_text field (txt "addr"))
    then elim (try_parse_ip_or_cidr lib s) [ some v ↦ v | none ↦ string s ]
    else string s

-- preparseIdentifiersAndLiterals: the right side after it. StrVal is kept by the first step, so
-- the second reads the same text.
unfoldable pub preparse : Platform → BinaryOp → Node → Node → Node
preparse lib op (variable scope field) (value (string s)) =
    if contains_text field (txt "time") || contains_text field (txt "date")
    then elim (try_parse_date_time lib s) [
      | some t ↦ value (date_time t)
      | none ↦ value (preparse_ip lib op field s)
    ]
    else value (preparse_ip lib op field s)
preparse lib op left right = right
