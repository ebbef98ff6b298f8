-- ===== src/Redaction/Spelled.antt =====
-- Which keys are redacted, by their spelling.
use standalone_policy_engine.Base.{
  ◌<◌, ◌≡◌, refl, sym, ap, ◌∙◌, ◌↔◌, ◌⊎◌, inl, inr, Bool, true, false, ◌&&◌, ◌||◌, none, List, [],
  ◌∷◌, ◌++◌, length, drop, any_of, ◌==◌, In, Bool-cases, length-append, arith,
}
use standalone_policy_engine.Base.Text.{Text}
use standalone_policy_engine.Redaction.{
  is_outside, next_byte, matches_fold, any_start, contains_fold_ascii, is_token_at,
  has_delimited_token_fold_ascii, should_redact_audit_context_key, sensitive_audit_key_fragments,
  pii_audit_key_tokens,
}
use standalone_policy_engine.Redaction.Letters.{
  SameWord, IsOutside, lower-SameWord, SameWord-lower, is_outside_iff,
}
use standalone_policy_engine.Redaction.Starts.{
  matches_fold-StartsWith, word-matches_fold, drop-word, last_of, any_start-Starts, start-any_start,
}

-- A text that contains another, whatever the case of its letters.
pub record Contains (value fragment : Text) : Type 0 where
  pub front : Text
  pub word : Text
  pub after : Text
  pub split : value ≡ front ++ (word ++ after)
  pub same : SameWord word fragment

-- A text that contains another between its ends and delimiters.
pub record ContainsToken (value token : Text) : Type 0 where
  pub front : Text
  pub word : Text
  pub after : Text
  pub split : value ≡ front ++ (word ++ after)
  pub same : SameWord word token
  pub begins : IsOutside (last_of none front)
  pub ends : IsOutside (next_byte after)

contains_fold_ascii-Contains :
    (value fragment : Text) → contains_fold_ascii value fragment ≡ true → Contains value fragment
unfolding contains_fold_ascii
contains_fold_ascii-Contains value fragment h =
    let k : any_start (length fragment) (λ before rest. matches_fold rest fragment) none value
        ≡ true =
      ground arith in
    let s =
      any_start-Starts (length fragment) (λ before rest. matches_fold rest fragment) none value k in
    let w = matches_fold-StartsWith s.rest fragment s.holds in
    record {
      front = s.front;
      word = w.word;
      after = w.after;
      split = s.split ∙ ap (λ z. s.front ++ z) w.split;
      same = lower-SameWord w.word fragment w.same;
    }

has_delimited_token_fold_ascii-ContainsToken :
    (value token : Text)
    → has_delimited_token_fold_ascii value token ≡ true
    → ContainsToken value token
unfolding has_delimited_token_fold_ascii
has_delimited_token_fold_ascii-ContainsToken value token h =
    let s = any_start-Starts (length token) (is_token_at token) none value h in
    let held = s.holds in
    let a : is_outside (last_of none s.front) ≡ true = ground arith in
    let b : is_outside (next_byte (drop (length token) s.rest)) ≡ true = ground arith in
    let c : matches_fold s.rest token ≡ true = ground arith in
    let w = matches_fold-StartsWith s.rest token c in
    record {
      front = s.front;
      word = w.word;
      after = w.after;
      split = s.split ∙ ap (λ z. s.front ++ z) w.split;
      same = lower-SameWord w.word token w.same;
      begins = (is_outside_iff (last_of none s.front)).0 a;
      ends =
          (is_outside_iff (next_byte w.after)).0
            (ap (λ z. is_outside (next_byte z)) (sym w.past) ∙ b);
    }

Contains-contains_fold_ascii :
    (value fragment : Text)
    → 0 < length fragment
    → Contains value fragment
    → contains_fold_ascii value fragment ≡ true
unfolding contains_fold_ascii
Contains-contains_fold_ascii value fragment n s =
    let m = word-matches_fold s.word s.after fragment (SameWord-lower s.word fragment s.same) in
    let l = (matches_fold-StartsWith (s.word ++ s.after) fragment m).long in
    let k =
      start-any_start (length fragment) (λ before rest. matches_fold rest fragment) none s.front
        (s.word ++ s.after) l m in
    ap (λ z. contains_fold_ascii z fragment) s.split
    ∙ ground (arith, n, l, k, length-append s.front (s.word ++ s.after))

three-true : (a b c : Bool) → a ≡ true → b ≡ true → c ≡ true → (a && (b && c)) ≡ true
three-true a b c h k l = ground arith

ContainsToken-has_delimited_token_fold_ascii :
    (value token : Text)
    → ContainsToken value token
    → has_delimited_token_fold_ascii value token ≡ true
unfolding has_delimited_token_fold_ascii
ContainsToken-has_delimited_token_fold_ascii value token s =
    let same = SameWord-lower s.word token s.same in
    let m = word-matches_fold s.word s.after token same in
    let l = (matches_fold-StartsWith (s.word ++ s.after) token m).long in
    let d = drop-word s.word s.after token same in
    let e =
      ap
        (λ z.
          is_outside (last_of none s.front)
          && (is_outside (next_byte z) && matches_fold (s.word ++ s.after) token))
        d
      ∙ three-true (is_outside (last_of none s.front)) (is_outside (next_byte s.after))
          (matches_fold (s.word ++ s.after) token)
          ((is_outside_iff (last_of none s.front)).1 s.begins)
          ((is_outside_iff (next_byte s.after)).1 s.ends) m in
    ap (λ z. has_delimited_token_fold_ascii z token) s.split
    ∙ start-any_start (length token) (is_token_at token) none s.front (s.word ++ s.after) l e

any_of-In :
    (p : Text → Bool) (xs : List Text) → any_of p xs ≡ true → (x : Text) × In x xs × (p x ≡ true)
any_of-In p [] h = cc
any_of-In p (x ∷ xs) h = elim (Bool-cases (p x)) [
  | inl q ↦ (x, inl refl, q)
  | inr q ↦
      let k : any_of p xs ≡ true = ground (arith, q) in
      let (y, m, r) = any_of-In p xs k in (y, inr m, r)
]

In-any_of :
    (p : Text → Bool) (x : Text) (xs : List Text) → In x xs → p x ≡ true → any_of p xs ≡ true
In-any_of p x [] m h = absurd m
In-any_of p x (y ∷ xs) (inl e) h = let k : p y ≡ true = ap p (sym e) ∙ h in ground (arith, k)
In-any_of p x (y ∷ xs) (inr m) h = ground (arith, In-any_of p x xs m h)

fragment-long : (f : Text) → In f sensitive_audit_key_fragments → 0 < length f
fragment-long f m = elim (Bool-cases (length f == 0)) [
  | inl q ↦ let k = In-any_of (λ z. length z == 0) f sensitive_audit_key_fragments m q in cc
  | inr q ↦ ground arith
]

or-second : (a b : Bool) → (a || b) ≡ true → a ≡ false → b ≡ true
or-second a b h k = ground arith

or-left : (a b : Bool) → a ≡ true → (a || b) ≡ true
or-left a b h = ground arith

or-right : (a b : Bool) → b ≡ true → (a || b) ≡ true
or-right a b h = ground arith

-- A key that contains a sensitive text, or a personal one between delimiters.
pub IsSensitive : Text → Type 0
IsSensitive key =
    ((f : Text) × In f sensitive_audit_key_fragments × Contains key f)
    ⊎ ((t : Text) × In t pii_audit_key_tokens × ContainsToken key t)

-- A key is redacted exactly when, without regard to the case of its letters, it contains one of the
-- eleven sensitive texts, or one of the eight personal ones between its ends, dots, dashes and
-- underscores.
pub should_redact_iff :
    (key : Text) → (should_redact_audit_context_key key ≡ true) ↔ IsSensitive key
unfolding should_redact_audit_context_key IsSensitive
should_redact_iff key = (
  λ h. elim (Bool-cases (any_of (contains_fold_ascii key) sensitive_audit_key_fragments)) [
    | inl q ↦
        let (f, m, c) = any_of-In (contains_fold_ascii key) sensitive_audit_key_fragments q in
        inl (f, m, contains_fold_ascii-Contains key f c)
    | inr q ↦
        let k : any_of (has_delimited_token_fold_ascii key) pii_audit_key_tokens ≡ true =
          or-second _ _ h q in
        let (t, m, c) = any_of-In (has_delimited_token_fold_ascii key) pii_audit_key_tokens k in
        inr (t, m, has_delimited_token_fold_ascii-ContainsToken key t c)
  ],
  elim [
    | inl (f, m, c) ↦
        let k =
          In-any_of (contains_fold_ascii key) f sensitive_audit_key_fragments m
            (Contains-contains_fold_ascii key f (fragment-long f m) c) in
        or-left _ _ k
    | inr (t, m, c) ↦
        let k =
          In-any_of (has_delimited_token_fold_ascii key) t pii_audit_key_tokens m
            (ContainsToken-has_delimited_token_fold_ascii key t c) in
        or-right _ _ k
  ],
)
