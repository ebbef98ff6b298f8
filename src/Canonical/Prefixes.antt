-- ===== src/Canonical/Prefixes.antt =====
-- A field at the front of a payload is determined by the payload, and so is what follows it.
use standalone_policy_engine.Base.{
  ℕ, zero, suc, ◌/◌, ◌%◌, ◌^◌, ◌<◌, ◌≡◌, refl, sym, ap, ◌∙◌, List, [], ◌∷◌, ◌++◌, length, drop,
  append_assoc, length-append, arith,
}
use standalone_policy_engine.Base.Int.{ℤ, pos, negsuc, IsInt64}
use standalone_policy_engine.Base.Text.{Text}
use standalone_policy_engine.Canonical.{
  big_endian, to_uint64, write_canonical_string, write_canonical_int64,
}

abbrev head_of : List ℕ → ℕ
head_of [] = 0
head_of (x ∷ xs) = x

pub same_length-cancel :
    (s t x y : List ℕ) → length s ≡ length t → s ++ x ≡ t ++ y → (s ≡ t) × (x ≡ y)
same_length-cancel [] [] x y l e = (refl, e)
same_length-cancel [] (b ∷ t) x y l e = absurd (omega (arith, l))
same_length-cancel (a ∷ s) [] x y l e = absurd (omega (arith, l))
same_length-cancel (a ∷ s) (b ∷ t) x y l e =
    let (p, q) = same_length-cancel s t x y (omega (arith, l)) (ap (λ z. drop 1 z) e) in
    let h : a ≡ b = cc in (rw (h, p) refl, q)

big_endian-cancel :
    (k n m : ℕ) (x y : List ℕ)
    → n < 256 ^ k
    → m < 256 ^ k
    → big_endian k n ++ x ≡ big_endian k m ++ y
    → (n ≡ m) × (x ≡ y)
unfolding big_endian
big_endian-cancel zero n m x y h l e = (omega (arith, h, l), e)
big_endian-cancel (suc k) n m x y h l e =
    let f =
      sym (append_assoc (big_endian k (n / 256)) (n % 256 ∷ []) x)
      ∙ e
      ∙ append_assoc (big_endian k (m / 256)) (m % 256 ∷ []) y in
    let (p, q) =
      big_endian-cancel k (n / 256) (m / 256) (n % 256 ∷ x) (m % 256 ∷ y) (omega (arith, h))
        (omega (arith, l)) f in
    (omega (arith, p, ap head_of q), ap (λ z. drop 1 z) q)

big_endian-length : (k n : ℕ) → length (big_endian k n) ≡ k
unfolding big_endian
big_endian-length zero n = refl
big_endian-length (suc k) n =
    omega
      (arith, length-append (big_endian k (n / 256)) (n % 256 ∷ []), big_endian-length k (n / 256))

-- A string is known from its length and its bytes.
pub string-cancel :
    (s t : Text) (x y : List ℕ)
    → length s < 2 ^ 32
    → length t < 2 ^ 32
    → write_canonical_string s ++ x ≡ write_canonical_string t ++ y
    → (s ≡ t) × (x ≡ y)
unfolding write_canonical_string
string-cancel s t x y h l e =
    let a = length s % 2 ^ 32 in
    let b = length t % 2 ^ 32 in
    let f = sym (append_assoc (big_endian 4 a) s x) ∙ e ∙ append_assoc (big_endian 4 b) t y in
    let (p, q) = big_endian-cancel 4 a b (s ++ x) (t ++ y) (omega arith) (omega arith) f in
    same_length-cancel s t x y (omega (arith, p, h, l)) q

to_uint64-injective : (v w : ℤ) → IsInt64 v → IsInt64 w → to_uint64 v ≡ to_uint64 w → v ≡ w
to_uint64-injective (pos n) (pos m) h l e = ap pos e
to_uint64-injective (negsuc n) (negsuc m) h l e =
    let q : n ≡ m = omega (arith, h, l, e) in ap negsuc q
to_uint64-injective (pos n) (negsuc m) h l e = absurd (omega (arith, h, l, e))
to_uint64-injective (negsuc n) (pos m) h l e = absurd (omega (arith, h, l, e))

to_uint64-lt : (v : ℤ) → IsInt64 v → to_uint64 v < 256 ^ 8
to_uint64-lt (pos n) h = omega (arith, h)
to_uint64-lt (negsuc n) h = omega arith

-- A number is known from its eight bytes.
pub int64-cancel :
    (v w : ℤ) (x y : List ℕ)
    → IsInt64 v
    → IsInt64 w
    → write_canonical_int64 v ++ x ≡ write_canonical_int64 w ++ y
    → (v ≡ w) × (x ≡ y)
unfolding write_canonical_int64
int64-cancel v w x y h l e =
    let (p, q) =
      big_endian-cancel 8 (to_uint64 v) (to_uint64 w) x y (to_uint64-lt v h) (to_uint64-lt w l) e in
    (to_uint64-injective v w h l p, q)
