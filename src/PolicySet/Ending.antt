-- ===== src/PolicySet/Ending.antt =====
-- How the compilation of a ruleset ends: the ids of its policies, and its errors.
use standalone_policy_engine.Base.{
  ◌≡◌, ◌≢◌, ◌⊎◌, refl, sym, ap, ap₂, ◌∙◌, List, [], ◌∷◌, map, Bool-cases, Option-cases, inl, inr,
  arith,
}
use standalone_policy_engine.Base.Text.{Text}
use standalone_policy_engine.Base.Utf8.{runes_of}
use standalone_policy_engine.Ast.{PolicyNode}
use standalone_policy_engine.Platform.{Platform}
use standalone_policy_engine.Tokens.{Position}
use standalone_policy_engine.Statements.Total.{parse_total}
use standalone_policy_engine.Compiler.{
  Compiled, compiled, refused, compile, compile_condition, validate_policy_obligations, is_absent,
}
use standalone_policy_engine.PolicySet.{
  PolicySource, SetError, parse_failed, unfinished, SetResult, ok, error, compiled_result,
  compile_nodes, check_parsed, compile_source, with_result, compile_policy_set,
}
use standalone_policy_engine.PolicySet.Atomic.{AreCompiled, no_source, another, set-AreCompiled}

abbrev id_or : Text → Compiled → Text
id_or id (compiled p) = p.id
id_or id (refused e) = id

id_or-condition : (lib : Platform) (n : PolicyNode) → id_or n.id (compile_condition lib n) ≡ n.id
unfolding compile_condition
id_or-condition lib n = ground arith

id_or-compile : (lib : Platform) (n : PolicyNode) → id_or n.id (compile lib n) ≡ n.id
unfolding compile
id_or-compile lib n = elim (Option-cases (validate_policy_obligations n.obligations)) [
  | inr (e, k) ↦ rw (compile, k) refl
  | inl k ↦ elim (Bool-cases (is_absent n.condition)) [
    | inl a ↦ rw (compile, k, a) refl
    | inr a ↦ rw (compile, k, a) (id_or-condition lib n)
  ]
]

compile-id : (lib : Platform) (n p : PolicyNode) → compile lib n ≡ compiled p → p.id ≡ n.id
compile-id lib n p h = sym (ap (id_or n.id) h) ∙ id_or-compile lib n

-- A policy is known by its source's id.
pub AreCompiled-ids :
    (lib : Platform) {ss : List PolicySource} {ps : List PolicyNode}
    → AreCompiled lib ss ps
    → map (λ p. p.id) ps ≡ map (λ s. s.id) ss
AreCompiled-ids lib no_source = refl
AreCompiled-ids lib (another {s = s} {p = p} c cs) =
    ap₂ (λ i is. i ∷ is) (compile-id lib _ p c.accepted) (AreCompiled-ids lib cs)

compile_nodes-finishes :
    (lib : Platform) (id : Text) (ns : List PolicyNode) → compile_nodes lib id ns ≢ error unfinished
compile_nodes-finishes lib id [] h = cc
compile_nodes-finishes lib id (n ∷ []) h = go (compile lib (record n { id = id })) h
  where
    go : (c : Compiled) → compiled_result id c ≢ error unfinished
    go (compiled p) h = cc
    go (refused e) h = cc
compile_nodes-finishes lib id (n ∷ m ∷ ns) h = cc

compile_source-finishes :
    (lib : Platform) (s : PolicySource) → compile_source lib s ≢ error unfinished
unfolding compile_source
compile_source-finishes lib s h =
    let (ns, q, e, end) = parse_total lib (runes_of s.text) in
    by_errors ns q.errors (sym (ap (check_parsed lib s.id) e) ∙ h)
  where
    by_errors :
        (ns : List PolicyNode) (es : List Position)
        → (elim es [ [] ↦ compile_nodes lib s.id ns | x ∷ xs ↦ error (parse_failed s.id) ])
          ≢ error unfinished
    by_errors ns [] h = compile_nodes-finishes lib s.id ns h
    by_errors ns (x ∷ xs) h = cc

set-finishes :
    (lib : Platform) (ss : List PolicySource) → compile_policy_set lib ss ≢ error unfinished
unfolding compile_policy_set
set-finishes lib [] h = cc
set-finishes lib (s ∷ ss) h =
    by_source (set-finishes lib ss) (compile_source lib s) (compile_source-finishes lib s) h
  where
    by_rest :
        (p : PolicyNode) (r : SetResult (List PolicyNode))
        → r ≢ error unfinished
        → with_result r (λ qs. ok (p ∷ qs)) ≢ error unfinished
    by_rest p (ok qs) n h = cc
    by_rest p (error e) n h = n h

    by_source :
        compile_policy_set lib ss ≢ error unfinished
        → (r : SetResult PolicyNode) → r ≢ error unfinished
        → with_result r (λ p. with_result (compile_policy_set lib ss) λ qs. ok (p ∷ qs))
          ≢ error unfinished
    by_source rest (error e) n h = n (let q : e ≡ unfinished = cc in ap error q)
    by_source rest (ok p) n h = by_rest p (compile_policy_set lib ss) rest h

-- CompilePolicySet returns on every list of sources: with policies whose ids are the sources' ids,
-- in their order, or with an error of the parser, of the count of statements or of the compiler.
-- The parser of the model never runs out of fuel in it.
pub compile_policy_set_total :
    (lib : Platform) (ss : List PolicySource)
    → ((ps : List PolicyNode) × (compile_policy_set lib ss ≡ ok ps)
        × (map (λ p. p.id) ps ≡ map (λ s. s.id) ss))
      ⊎ ((e : SetError) × (compile_policy_set lib ss ≡ error e) × (e ≢ unfinished))
compile_policy_set_total lib ss = go (compile_policy_set lib ss) refl
  where
    go :
        (r : SetResult (List PolicyNode))
        → compile_policy_set lib ss ≡ r
        → ((ps : List PolicyNode) × (r ≡ ok ps) × (map (λ p. p.id) ps ≡ map (λ s. s.id) ss))
          ⊎ ((e : SetError) × (r ≡ error e) × (e ≢ unfinished))
    go (ok ps) e = inl (ps, refl, AreCompiled-ids lib (set-AreCompiled lib ss ps e))
    go (error x) e = inr (x, refl, λ u. set-finishes lib ss (e ∙ ap error u))
