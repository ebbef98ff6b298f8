-- ===== src/Evaluator/Agree.antt =====
-- Evaluation in two contexts that agree on the attributes that a condition reads.
use standalone_policy_engine.Base.{◌≡◌, refl, arith}
use standalone_policy_engine.Base.Text.{Text}
use standalone_policy_engine.Ast.{
  ValueNode, ValueType, string_type, Node, absent, value, variable, unary, binary, BinaryOp, and,
  or, is_in, VarScope, principal, resource, context,
}
use standalone_policy_engine.Platform.{Platform}
use standalone_policy_engine.Evaluator.{
  Result, ok, err, EvalContext, attribute_of, get_attribute, evaluate_in, compare_values,
  expected_type, left_value, compare_results, evaluate_binary, evaluate,
}

-- Two requests of one subject for one resource, under one role hierarchy.
pub record SameRequest (c d : EvalContext) : Type 0 where
  pub subject : c.subject ≡ d.subject
  pub resource_id : c.resource_id ≡ d.resource_id
  pub role_dag : c.role_dag ≡ d.role_dag

-- The requests agree on each attribute that the condition reads.
abbrev pub Agrees : EvalContext → EvalContext → Node → Type 0
Agrees c d absent = Unit
Agrees c d (value v) = Unit
Agrees c d (variable scope field) = attribute_of c scope field ≡ attribute_of d scope field
Agrees c d (unary op child) = Agrees c d child
Agrees c d (binary op left right) = Agrees c d left × Agrees c d right

module _ (lib : Platform) (c d : EvalContext) (same : SameRequest c d) where
  get_attribute-same :
      (scope : VarScope) (field : Text) (t : ValueType)
      → attribute_of c scope field ≡ attribute_of d scope field
      → get_attribute lib c scope field t ≡ get_attribute lib d scope field t
  unfolding get_attribute
  get_attribute-same principal field t e = rw (e, same.subject)
  get_attribute-same resource field t e = rw (e, same.resource_id)
  get_attribute-same context field t e = rw e

  left_value-same :
      (t : ValueType) (node : Node) (r : Result)
      → Agrees c d node
      → left_value lib c t node r ≡ left_value lib d t node r
  unfolding left_value
  left_value-same t (variable scope field) r f = get_attribute-same scope field t f
  left_value-same t _ r f = refl

  evaluate_in-same : (l r : ValueNode) → evaluate_in c l r ≡ evaluate_in d l r
  unfolding evaluate_in
  evaluate_in-same l r = ground (arith, same.role_dag)

  compare_values-same :
      (op : BinaryOp) (l r : ValueNode) → compare_values lib c op l r ≡ compare_values lib d op l r
  unfolding compare_values
  compare_values-same is_in l r = evaluate_in-same l r
  compare_values-same _ l r = refl

  compare_results-same :
      (op : BinaryOp) (l r : Result) → compare_results lib c op l r ≡ compare_results lib d op l r
  unfolding compare_results
  compare_results-same op (err e) r = refl
  compare_results-same op (ok l) (err e) = refl
  compare_results-same op (ok l) (ok r) = compare_values-same op l r

  evaluate_binary-same :
      (op : BinaryOp) (left right : Node) (l r : Result)
      → Agrees c d left
      → evaluate_binary lib c op left right l r ≡ evaluate_binary lib d op left right l r
  unfolding evaluate_binary
  evaluate_binary-same and left right l r f = refl
  evaluate_binary-same or left right l r f = refl
  evaluate_binary-same op left right l r f =
      rw (left_value-same (expected_type _ right) left l f) (compare_results-same _ _ r)

  pub evaluate-same : (n : Node) → Agrees c d n → evaluate lib c n ≡ evaluate lib d n
  unfolding evaluate
  evaluate-same absent f = refl
  evaluate-same (value v) f = refl
  evaluate-same (variable scope field) f = get_attribute-same scope field string_type f
  evaluate-same (unary op child) f = rw (evaluate-same child f)
  evaluate-same (binary op left right) f =
      rw (evaluate-same left f.0, evaluate-same right f.1)
        (evaluate_binary-same op left right _ _ f.0)
