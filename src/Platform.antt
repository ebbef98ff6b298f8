-- ===== src/Platform.antt =====
-- Functions of Go's standard library that the source calls for their whole effect on a text: they
-- are parameters of the model, as a record. net.IP's Equal and net.IPNet's Contains, strconv and
-- the functions of strings are modelled.
use Prim.Native.Nat.{bit_and}
use standalone_policy_engine.Base.{
  ℕ, zero, suc, ◌+◌, ◌*◌, ◌-◌, ◌^◌, Bool, true, false, ◌&&◌, ◌||◌, Option, none, some, List, [],
  ◌∷◌, length, take, drop, if◌then◌else◌, ltb, leb, ◌==◌,
}
use standalone_policy_engine.Base.Int.{ℤ, pos, negsuc}
use standalone_policy_engine.Base.Text.{Text, txt, text_eq}
use standalone_policy_engine.Ast.{IpNet}

pub record Platform : Type 0 where
  -- net.ParseIP, nil for none
  pub parse_ip : Text → Option (List ℕ)
  -- the network that net.ParseCIDR returns, none for an error
  pub parse_cidr : Text → Option IpNet
  -- time.Parse(time.RFC3339, s) as Unix nanoseconds, none for an error
  pub parse_rfc3339 : Text → Option ℤ
  -- unicode.IsLetter
  pub is_unicode_letter : ℕ → Bool
  -- strings.TrimSpace
  pub trim_space : Text → Text
  -- fmt.Sscanf(s, "%d:%d:%dZ", …), fmt.Sscanf(s, "%d:%d:%d", …) and fmt.Sscanf(s, "%d:%d", …)
  pub scan_hmsz : Text → Option (ℤ × ℤ × ℤ)
  pub scan_hms : Text → Option (ℤ × ℤ × ℤ)
  pub scan_hm : Text → Option (ℤ × ℤ)

-- The prefix of an IPv4 address in its 16-byte form.
abbrev pub v4_in_v6_prefix : List ℕ
v4_in_v6_prefix = 0 ∷ 0 ∷ 0 ∷ 0 ∷ 0 ∷ 0 ∷ 0 ∷ 0 ∷ 0 ∷ 0 ∷ 255 ∷ 255 ∷ []

-- net.IP.Equal: an IPv4 address equals its 16-byte form.
unfoldable pub ip_equal : List ℕ → List ℕ → Bool
ip_equal a b =
    if length a == length b
    then text_eq a b
    else if length a == 4 && length b == 16
    then text_eq (take 12 b) v4_in_v6_prefix && text_eq a (drop 12 b)
    else if length a == 16 && length b == 4
    then text_eq (take 12 a) v4_in_v6_prefix && text_eq (drop 12 a) b
    else false

-- net.IP.To4
unfoldable pub to4 : List ℕ → Option (List ℕ)
to4 a =
    if length a == 4
    then some a
    else if length a == 16 && text_eq (take 12 a) v4_in_v6_prefix
    then some (drop 12 a)
    else none

-- The number and mask that net.IPNet.Contains compares under; both empty where the network is
-- malformed.
unfoldable pub network_number_and_mask : IpNet → List ℕ × List ℕ
unfolding to4
network_number_and_mask n =
    by_mask (elim (to4 n.ip) [ some a ↦ a | none ↦ if length n.ip == 16 then n.ip else [] ]) n.mask
  where
    by_mask : List ℕ → List ℕ → List ℕ × List ℕ
    by_mask a m =
        if length a == 0
        then ([], [])
        else if length m == 4
        then (if length a == 4 then (a, m) else ([], []))
        else if length m == 16
        then (if length a == 4 then (a, drop 12 m) else (a, m))
        else ([], [])

unfoldable pub masked_eq : List ℕ → List ℕ → List ℕ → Bool
masked_eq [] ms as' = true
masked_eq (n ∷ ns) [] as' = true
masked_eq (n ∷ ns) (m ∷ ms) [] = true
masked_eq (n ∷ ns) (m ∷ ms) (a ∷ as') = bit_and n m == bit_and a m && masked_eq ns ms as'

-- net.IPNet.Contains
unfoldable pub net_contains : IpNet → List ℕ → Bool
unfolding network_number_and_mask to4 masked_eq
net_contains n a =
    let (nn, m) = network_number_and_mask n in
    let x : List ℕ = elim (to4 a) [ some b ↦ b | none ↦ a ] in
    if length x == length nn then masked_eq nn m x else false

-- c >= '0' && c <= '9'
abbrev pub is_digit : ℕ → Bool
is_digit c = leb b'0' c && leb c b'9'

digits_value : ℕ → Text → Option ℕ
digits_value acc [] = some acc
digits_value acc (c ∷ s) =
    let rest = digits_value (acc * 10 + (c - b'0')) s in if is_digit c then rest else none

-- strconv.ParseInt(s, 10, 64): a sign, then digits, within the range of an int64.
unfoldable pub parse_int : Text → Option ℤ
unfolding digits_value
parse_int [] = none
parse_int (c ∷ []) = if is_digit c then some (pos (c - b'0')) else none
parse_int (c ∷ d ∷ s) =
    if c == b'-'
    then negative (digits_value 0 (d ∷ s))
    else if c == b'+'
    then positive (digits_value 0 (d ∷ s))
    else positive (digits_value 0 (c ∷ d ∷ s))
  where
    positive : Option ℕ → Option ℤ
    positive none = none
    positive (some n) = if ltb n (2 ^ 63) then some (pos n) else none

    negative : Option ℕ → Option ℤ
    negative none = none
    negative (some zero) = some (pos 0)
    negative (some (suc n)) = if ltb n (2 ^ 63) then some (negsuc n) else none

one_of : Text → List Text → Bool
one_of s [] = false
one_of s (t ∷ ts) = text_eq s t || one_of s ts

-- strconv.ParseBool
unfoldable pub parse_bool : Text → Option Bool
unfolding one_of
parse_bool s =
    if one_of s (txt "1" ∷ txt "t" ∷ txt "T" ∷ txt "true" ∷ txt "TRUE" ∷ txt "True" ∷ [])
    then some true
    else if one_of s (txt "0" ∷ txt "f" ∷ txt "F" ∷ txt "false" ∷ txt "FALSE" ∷ txt "False" ∷ [])
    then some false
    else none

-- strings.Split(s, ","): never empty.
unfoldable pub split_comma : Text → List Text
split_comma [] = [] ∷ []
split_comma (c ∷ s) = elim (split_comma s) [
  | [] ↦ (c ∷ []) ∷ []
  | p ∷ ps ↦ if c == b',' then [] ∷ p ∷ ps else (c ∷ p) ∷ ps
]
