-- ===== src/Evaluator/Shape.antt =====
-- What a logical or comparison node can evaluate to.
use Prim.Native.Nat.{Ordering}
use standalone_policy_engine.Base.{Bool, true, false, Option, none, some}
use standalone_policy_engine.Ast.{
  ValueNode, string, bool, ip, ip_net, Node, binary, BinaryOp, and, or, eq, ne, gt, lt, ge, le,
  is_in, contains,
}
use standalone_policy_engine.Platform.{Platform}
use standalone_policy_engine.Evaluator.{
  unsupported_op, Result, ok, err, EvalContext, compare_order, ordered, evaluate_in,
  evaluate_contains, compare_values, compare_results, need_bool, evaluate_and, evaluate_or,
  evaluate_binary, evaluate,
}

-- A truth value, or the error for an operator that does not apply to its operands.
abbrev pub IsVerdict : Result → Type 0
IsVerdict (ok (bool b)) = Unit
IsVerdict (ok v) = ⊥
IsVerdict (err unsupported_op) = Unit
IsVerdict (err e) = ⊥

need_bool-IsVerdict : (r : Result) → IsVerdict (need_bool r)
need_bool-IsVerdict (err e) = tt
need_bool-IsVerdict (ok (bool b)) = tt
need_bool-IsVerdict (ok v) = tt

evaluate_and-IsVerdict : (l r : Result) → IsVerdict (evaluate_and l r)
unfolding evaluate_and
evaluate_and-IsVerdict (err e) r = tt
evaluate_and-IsVerdict (ok (bool false)) r = tt
evaluate_and-IsVerdict (ok (bool true)) r = need_bool-IsVerdict r
evaluate_and-IsVerdict (ok v) r = tt

evaluate_or-IsVerdict : (l r : Result) → IsVerdict (evaluate_or l r)
unfolding evaluate_or
evaluate_or-IsVerdict (ok (bool true)) r = tt
evaluate_or-IsVerdict l r = need_bool-IsVerdict r

ordered-IsVerdict : (test : Ordering → Bool) (o : Option Ordering) → IsVerdict (ordered o test)
ordered-IsVerdict test none = tt
ordered-IsVerdict test (some o) = tt

evaluate_in-IsVerdict : (c : EvalContext) (l r : ValueNode) → IsVerdict (evaluate_in c l r)
unfolding evaluate_in
evaluate_in-IsVerdict c (ip a) (ip_net n) = tt
evaluate_in-IsVerdict c (string a) (string b) = tt
evaluate_in-IsVerdict c _ _ = tt

evaluate_contains-IsVerdict :
    (lib : Platform) (l r : ValueNode) → IsVerdict (evaluate_contains lib l r)
unfolding evaluate_contains
evaluate_contains-IsVerdict lib (string a) (string b) = tt
evaluate_contains-IsVerdict lib _ _ = tt

compare_values-IsVerdict :
    (lib : Platform) (c : EvalContext) (op : BinaryOp) (l r : ValueNode)
    → IsVerdict (compare_values lib c op l r)
unfolding compare_values
compare_values-IsVerdict lib c eq l r = tt
compare_values-IsVerdict lib c ne l r = tt
compare_values-IsVerdict lib c gt l r = ordered-IsVerdict _ (compare_order l r)
compare_values-IsVerdict lib c lt l r = ordered-IsVerdict _ (compare_order l r)
compare_values-IsVerdict lib c ge l r = ordered-IsVerdict _ (compare_order l r)
compare_values-IsVerdict lib c le l r = ordered-IsVerdict _ (compare_order l r)
compare_values-IsVerdict lib c is_in l r = evaluate_in-IsVerdict c l r
compare_values-IsVerdict lib c contains l r = evaluate_contains-IsVerdict lib l r
compare_values-IsVerdict lib c and l r = tt
compare_values-IsVerdict lib c or l r = tt

compare_results-IsVerdict :
    (lib : Platform) (c : EvalContext) (op : BinaryOp) (l r : Result)
    → IsVerdict (compare_results lib c op l r)
unfolding compare_results
compare_results-IsVerdict lib c op (err e) r = tt
compare_results-IsVerdict lib c op (ok l) (err e) = tt
compare_results-IsVerdict lib c op (ok l) (ok r) = compare_values-IsVerdict lib c op l r

-- A node of two operands evaluates to a truth value or to ErrUnsupportedOp: missing attributes and
-- unreadable literals never come out of it as errors.
pub evaluate-binary-IsVerdict :
    (lib : Platform) (c : EvalContext) (op : BinaryOp) (l r : Node)
    → IsVerdict (evaluate lib c (binary op l r))
unfolding evaluate evaluate_binary
evaluate-binary-IsVerdict lib c and l r = evaluate_and-IsVerdict _ _
evaluate-binary-IsVerdict lib c or l r = evaluate_or-IsVerdict _ _
evaluate-binary-IsVerdict lib c op l r = compare_results-IsVerdict lib c _ _ _
