-- ===== src/PolicySet/Atomic.antt =====
-- A ruleset is compiled as a whole or not at all.
use standalone_policy_engine.Base.{◌≡◌, ◌↔◌, refl, ap, ◌∙◌, List, [], ◌∷◌}
use standalone_policy_engine.Base.Utf8.{runes_of}
use standalone_policy_engine.Ast.{PolicyNode}
use standalone_policy_engine.Platform.{Platform}
use standalone_policy_engine.Parser.{Parser, Parsed, done, failed, out_of_fuel}
use standalone_policy_engine.Statements.{parse}
use standalone_policy_engine.Compiler.{Compiled, compiled, refused, compile}
use standalone_policy_engine.PolicySet.{
  PolicySource, parse_failed, SetResult, ok, error, compiled_result, compile_nodes, check_parsed,
  compile_source, with_result, compile_policy_set,
}

-- The text of the source is one policy, without a syntax error, and the compiler accepts it under
-- the source's id.
pub record IsCompiled (lib : Platform) (s : PolicySource) (p : PolicyNode) : Type 0 where
  pub node : PolicyNode
  pub at_end : Parser
  pub parses : parse lib (runes_of s.text) ≡ done (node ∷ []) at_end
  pub without_error : at_end.errors ≡ []
  pub accepted : compile lib (record node { id = s.id }) ≡ compiled p

-- One policy for each source, in their order.
pub data AreCompiled (lib : Platform) : List PolicySource → List PolicyNode → Type 0 where
  no_source : AreCompiled lib [] []
  another :
      {s : PolicySource} {p : PolicyNode} {ss : List PolicySource} {ps : List PolicyNode}
      → IsCompiled lib s p
      → AreCompiled lib ss ps
      → AreCompiled lib (s ∷ ss) (p ∷ ps)

compile_source-ok :
    (lib : Platform) (s : PolicySource) (p : PolicyNode)
    → compile_source lib s ≡ ok p
    → IsCompiled lib s p
unfolding compile_source
compile_source-ok lib s p h = go (parse lib (runes_of s.text)) refl h
  where
    by_compiled : (c : Compiled) → compiled_result s.id c ≡ ok p → c ≡ compiled p
    by_compiled (compiled q) e = cc
    by_compiled (refused q) e = cc

    by_nodes :
        (ns : List PolicyNode)
        → compile_nodes lib s.id ns ≡ ok p
        → (n : PolicyNode) × (ns ≡ n ∷ []) × (compile lib (record n { id = s.id }) ≡ compiled p)
    by_nodes [] e = cc
    by_nodes (n ∷ []) e = (n, refl, by_compiled (compile lib (record n { id = s.id })) e)
    by_nodes (n ∷ m ∷ ns) e = cc

    go :
        (o : Parsed (List PolicyNode))
        → parse lib (runes_of s.text) ≡ o
        → check_parsed lib s.id o ≡ ok p
        → IsCompiled lib s p
    go (failed q) e h = cc
    go out_of_fuel e h = cc
    go (done ns q) e h = by_errors q.errors refl h
      where
        by_errors :
            (es : _)
            → q.errors ≡ es
            → (elim es [ [] ↦ compile_nodes lib s.id ns | e ∷ es ↦ error (parse_failed s.id) ])
              ≡ ok p
            → IsCompiled lib s p
        by_errors (x ∷ es) k h = cc
        by_errors [] k h =
            let (n, f, g) = by_nodes ns h in
            record {
              node = n;
              at_end = q;
              parses = e ∙ ap (λ l. done l q) f;
              without_error = k;
              accepted = g;
            }

compile_source-IsCompiled :
    (lib : Platform) (s : PolicySource) (p : PolicyNode)
    → IsCompiled lib s p
    → compile_source lib s ≡ ok p
unfolding compile_source
compile_source-IsCompiled lib s p c =
    rw (compile_source, c.parses, c.without_error, c.accepted) refl

pub set-AreCompiled :
    (lib : Platform) (ss : List PolicySource) (ps : List PolicyNode)
    → compile_policy_set lib ss ≡ ok ps
    → AreCompiled lib ss ps
unfolding compile_policy_set
set-AreCompiled lib [] [] h = no_source
set-AreCompiled lib [] (p ∷ ps) h = cc
set-AreCompiled lib (s ∷ ss) ps h = by_source (set-AreCompiled lib ss) (compile_source lib s) refl h
  where
    by_rest :
        (p : PolicyNode) (r : SetResult (List PolicyNode))
        → with_result r (λ qs. ok (p ∷ qs)) ≡ ok ps
        → (qs : List PolicyNode) × (r ≡ ok qs) × (ps ≡ p ∷ qs)
    by_rest p (error e) h = cc
    by_rest p (ok qs) h = (qs, refl, cc)

    by_source :
        ((qs : List PolicyNode) → compile_policy_set lib ss ≡ ok qs → AreCompiled lib ss qs)
        → (r : SetResult PolicyNode) → compile_source lib s ≡ r
        → with_result r (λ p. with_result (compile_policy_set lib ss) λ qs. ok (p ∷ qs)) ≡ ok ps
        → AreCompiled lib (s ∷ ss) ps
    by_source rest (error e) k h = cc
    by_source rest (ok p) k h =
        let (qs, f, g) = by_rest p (compile_policy_set lib ss) h in
        rw g (another (compile_source-ok lib s p k) (rest qs f))

AreCompiled-set :
    (lib : Platform) {ss : List PolicySource} {ps : List PolicyNode}
    → AreCompiled lib ss ps
    → compile_policy_set lib ss ≡ ok ps
unfolding compile_policy_set
AreCompiled-set lib no_source = refl
AreCompiled-set lib (another c cs) =
    rw (compile_policy_set, compile_source-IsCompiled lib _ _ c, AreCompiled-set lib cs) refl

-- CompilePolicySet returns a list of policies exactly when every source is one policy that the
-- parser and the compiler accept, and it is then the list of these, in the sources' order.
pub compile_policy_set_iff :
    (lib : Platform) (ss : List PolicySource) (ps : List PolicyNode)
    → (compile_policy_set lib ss ≡ ok ps) ↔ AreCompiled lib ss ps
compile_policy_set_iff lib ss ps = (set-AreCompiled lib ss ps, AreCompiled-set lib)
