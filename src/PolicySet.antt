-- ===== src/PolicySet.antt =====
-- The compilation of a whole ruleset in internal/parser/policy_set.go. An error is its kind and the
-- id of the source.
pub mod Atomic
pub mod Ending
use standalone_policy_engine.Base.{Bool, true, false, List, [], ◌∷◌}
use standalone_policy_engine.Base.Text.{Text}
use standalone_policy_engine.Base.Utf8.{runes_of}
use standalone_policy_engine.Ast.{PolicyNode}
use standalone_policy_engine.Platform.{Platform}
use standalone_policy_engine.Parser.{Parser, Parsed, done, failed, out_of_fuel}
use standalone_policy_engine.Statements.{parse}
use standalone_policy_engine.Compiler.{CompileError, Compiled, compiled, refused, compile}

pub record PolicySource : Type 0 where
  pub id : Text
  pub text : Text

pub data SetError : Type 0 where
  parse_failed not_one_statement : Text → SetError
  compile_failed : Text → CompileError → SetError
  -- the model's parser is out of fuel
  unfinished : SetError

pub data SetResult {ℓ} (A : Type ℓ) : Type ℓ where
  ok : A → SetResult A
  error : SetError → SetResult A

abbrev pub compiled_result : Text → Compiled → SetResult PolicyNode
compiled_result id (compiled p) = ok p
compiled_result id (refused e) = error (compile_failed id e)

-- What is done with the policies of a source that was parsed without an error.
abbrev pub compile_nodes : Platform → Text → List PolicyNode → SetResult PolicyNode
compile_nodes lib id (n ∷ []) = compiled_result id (compile lib (record n { id = id }))
compile_nodes lib id nodes = error (not_one_statement id)

abbrev pub check_parsed : Platform → Text → Parsed (List PolicyNode) → SetResult PolicyNode
check_parsed lib id (done nodes p) = elim p.errors [
  | [] ↦ compile_nodes lib id nodes
  | e ∷ es ↦ error (parse_failed id)
]
check_parsed lib id o = error unfinished

-- The body of the loop of CompilePolicySet.
unfoldable pub compile_source : Platform → PolicySource → SetResult PolicyNode
compile_source lib s = check_parsed lib s.id (parse lib (runes_of s.text))

abbrev pub with_result {ℓ κ} :
    {A : Type ℓ} {B : Type κ} → SetResult A → (A → SetResult B) → SetResult B
with_result (ok a) f = f a
with_result (error e) f = error e

unfoldable pub compile_policy_set : Platform → List PolicySource → SetResult (List PolicyNode)
compile_policy_set lib [] = ok []
compile_policy_set lib (s ∷ ss) =
    with_result (compile_source lib s)
      λ p. with_result (compile_policy_set lib ss) λ ps. ok (p ∷ ps)
