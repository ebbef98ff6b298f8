-- ===== src/Literals/Address.antt =====
-- parseIPv4FastInto on dotted addresses and on other texts.
use standalone_policy_engine.Base.{
  ℕ, ◌+◌, ◌/◌, ◌%◌, ◌<◌, ◌≡◌, refl, ◌∙◌, inl, inr, false, none, some, List, [], ◌∷◌, ◌++◌, length,
  In, Option-cases, if◌then◌else◌, ltb, ◌==◌, arith,
}
use standalone_policy_engine.Base.Text.{Text}
use standalone_policy_engine.Platform.{Platform, is_digit, v4_in_v6_prefix}
use standalone_policy_engine.Literals.{Octets, octet_step, octet_loop, parse_ipv4_fast_into}

octet_loop-append :
    (s t : Text) (o : Octets)
    → octet_loop (s ++ t) o ≡ elim (octet_loop s o) [ none ↦ none | some p ↦ octet_loop t p ]
unfolding octet_loop
octet_loop-append [] t o = refl
octet_loop-append (c ∷ s) t o = elim (Option-cases (octet_step c o)) [
  | inl e ↦ rw (e, octet_loop)
  | inr (p, e) ↦ rw (e, octet_loop) (octet_loop-append s t p)
]

-- The decimal digits of a byte.
abbrev pub write_octet : ℕ → Text
write_octet n =
    if ltb n 10
    then (48 + n) ∷ []
    else if ltb n 100
    then (48 + n / 10) ∷ (48 + n % 10) ∷ []
    else (48 + n / 100) ∷ (48 + n / 10 % 10) ∷ (48 + n % 10) ∷ []

abbrev pub octet_digits : ℕ → ℕ
octet_digits n = if ltb n 10 then 1 else if ltb n 100 then 2 else 3

octet_loop-write :
    (n : ℕ) (p : List ℕ)
    → n < 256
    → octet_loop (write_octet n) (record { p = p; val = 0; digits = 0 })
      ≡ some (record { p = p; val = n; digits = octet_digits n })
unfolding octet_loop octet_step
octet_loop-write n p h = ground arith

bad_step : (c : ℕ) (o : Octets) → is_digit c ≡ false → (c == 46) ≡ false → octet_step c o ≡ none
unfolding octet_step
bad_step c o d e = ground arith

bad_byte_fails :
    (c : ℕ) (s : Text) (o : Octets)
    → In c s
    → is_digit c ≡ false
    → (c == 46) ≡ false
    → octet_loop s o ≡ none
unfolding octet_loop
bad_byte_fails c [] o m d e = absurd m
bad_byte_fails c (b ∷ s) o (inl q) d e = rw (bad_step b o (rw q at d) (rw q at e), octet_loop)
bad_byte_fails c (b ∷ s) o (inr m) d e = elim (Option-cases (octet_step b o)) [
  | inl f ↦ rw (f, octet_loop)
  | inr (p, f) ↦ rw (f, octet_loop) (bad_byte_fails c s p m d e)
]

octet_part :
    (n : ℕ) (p : List ℕ) (rest : Text)
    → n < 256
    → length p < 3
    → octet_loop (write_octet n ++ (46 ∷ rest)) (record { p = p; val = 0; digits = 0 })
      ≡ octet_loop rest (record { p = p ++ n ∷ []; val = 0; digits = 0 })
octet_part n p rest h k =
    octet_loop-append (write_octet n) (46 ∷ rest) (record { p = p; val = 0; digits = 0 })
    ∙ rw (octet_loop-write n p h) (dot n p rest k)
  where
    dot :
        (n : ℕ) (p : List ℕ) (rest : Text)
        → length p < 3
        → octet_loop (46 ∷ rest) (record { p = p; val = n; digits = octet_digits n })
          ≡ octet_loop rest (record { p = p ++ n ∷ []; val = 0; digits = 0 })
    dot n p rest k = unfold octet_loop octet_step in ground arith

-- a.b.c.d
abbrev pub write_ipv4 : ℕ → ℕ → ℕ → ℕ → Text
write_ipv4 a b c d =
    write_octet a ++ (46 ∷ (write_octet b ++ (46 ∷ (write_octet c ++ (46 ∷ write_octet d)))))

octet_loop-write_ipv4 :
    (a b c d : ℕ)
    → a < 256
    → b < 256
    → c < 256
    → d < 256
    → octet_loop (write_ipv4 a b c d) (record { p = []; val = 0; digits = 0 })
      ≡ some (record { p = a ∷ b ∷ c ∷ []; val = d; digits = octet_digits d })
octet_loop-write_ipv4 a b c d ha hb hc hd =
    octet_part a [] (write_octet b ++ (46 ∷ (write_octet c ++ (46 ∷ write_octet d)))) ha
      (omega arith)
    ∙ octet_part b (a ∷ []) (write_octet c ++ (46 ∷ write_octet d)) hb (omega arith)
    ∙ octet_part c (a ∷ b ∷ []) (write_octet d) hc (omega arith)
    ∙ octet_loop-write d (a ∷ b ∷ c ∷ []) hd

octet_digits-ne-zero : (n : ℕ) → (octet_digits n == 0) ≡ false
octet_digits-ne-zero n = ground arith

-- A dotted IPv4 address is read as its four bytes, in the 16-byte form of net.IP.
pub parse_ipv4-write :
    (lib : Platform) (a b c d : ℕ)
    → a < 256
    → b < 256
    → c < 256
    → d < 256
    → parse_ipv4_fast_into lib (write_ipv4 a b c d) ≡ some (v4_in_v6_prefix ++ (a ∷ b ∷ c ∷ d ∷ []))
unfolding parse_ipv4_fast_into
parse_ipv4-write lib a b c d ha hb hc hd =
    rw (octet_loop-write_ipv4 a b c d ha hb hc hd, parse_ipv4_fast_into, octet_digits-ne-zero d)

-- A text with a byte other than a digit or a dot is not read, whatever net.ParseIP says of it. So
-- no IPv6 address is read, although net.ParseIP stands behind the loop for these.
pub parse_ipv4-other_byte :
    (lib : Platform) (s : Text) (c : ℕ)
    → In c s
    → is_digit c ≡ false
    → (c == b'.') ≡ false
    → parse_ipv4_fast_into lib s ≡ none
unfolding parse_ipv4_fast_into
parse_ipv4-other_byte lib s c m d e =
    rw (bad_byte_fails c s (record { p = []; val = 0; digits = 0 }) m d e, parse_ipv4_fast_into)
