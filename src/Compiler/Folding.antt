-- ===== src/Compiler/Folding.antt =====
-- Constant folding against the evaluator.

use standalone_policy_engine.Base.{
  ◌≡◌, ◌≢◌, refl, ◌∙◌, ◌↔◌, Bool, true, false, some, inl, inr, Bool-cases, Option-cases, arith,
}
use standalone_policy_engine.Base.Int.{ℤ, eq_int_iff}
use standalone_policy_engine.Ast.{
  ValueNode, bool, date_time, Node, value, binary, BinaryOp, and, or, eq, ne, gt, lt, ge, le, is_in,
  contains,
}
use standalone_policy_engine.Platform.{Platform}
use standalone_policy_engine.Evaluator.{
  Result, ok, EvalContext, compare_eq, compare_order, int_order, compare_values, left_value,
  compare_results, evaluate_and, evaluate_or, evaluate_binary, evaluate,
}
use standalone_policy_engine.Compiler.{
  evaluate_eq, evaluate_compare, is_literal_bool, fold_values, short_circuit, fold_literals,
  fold_binary_expr,
}

abbrev IsTrue : Result → Type 0
IsTrue r = r ≡ ok (bool true)

-- The node is no test of equality between two literal times.
abbrev pub IsNoTimeTest : BinaryOp → Node → Node → Type 0
IsNoTimeTest eq (value (date_time a)) (value (date_time b)) = ⊥
IsNoTimeTest ne (value (date_time a)) (value (date_time b)) = ⊥
IsNoTimeTest op left right = Unit

evaluate_compare-eq : (l r : ValueNode) → evaluate_compare l r ≡ compare_order l r
unfolding evaluate_compare compare_order int_order
evaluate_compare-eq l r = ground arith

evaluate_eq-eq :
    (l r : ValueNode) → IsNoTimeTest eq (value l) (value r) → evaluate_eq l r ≡ compare_eq l r
unfolding evaluate_eq compare_eq
evaluate_eq-eq l r h = ground arith

module _ (lib : Platform) (c : EvalContext) where
  -- A test between two literals, as the evaluator makes it.
  evaluate-literals :
      (op : BinaryOp) (l r : ValueNode)
      → op ≢ and
      → op ≢ or
      → evaluate lib c (binary op (value l) (value r)) ≡ compare_values lib c op l r
  unfolding evaluate evaluate_binary left_value compare_results
  evaluate-literals and l r n m = absurd (n refl)
  evaluate-literals or l r n m = absurd (m refl)
  evaluate-literals op l r n m = refl

  fold_values_sound :
      (op : BinaryOp) (l r : ValueNode) (b : Bool)
      → fold_values op l r ≡ some b
      → IsNoTimeTest op (value l) (value r)
      → evaluate lib c (binary op (value l) (value r)) ≡ ok (bool b)
  unfolding fold_values
  fold_values_sound and l r b e h = unfold evaluate evaluate_binary evaluate_and in ground arith
  fold_values_sound or l r b e h = unfold evaluate evaluate_binary evaluate_or in ground arith
  fold_values_sound eq l r b e h =
      evaluate-literals eq l r (λ q. cc) (λ q. cc)
      ∙ (unfold compare_values in ground (arith, evaluate_eq-eq l r h))
  fold_values_sound ne l r b e h =
      evaluate-literals ne l r (λ q. cc) (λ q. cc)
      ∙ (unfold compare_values in ground (arith, evaluate_eq-eq l r h))
  fold_values_sound gt l r b e h =
      evaluate-literals gt l r (λ q. cc) (λ q. cc)
      ∙ (unfold compare_values in ground (arith, evaluate_compare-eq l r))
  fold_values_sound lt l r b e h =
      evaluate-literals lt l r (λ q. cc) (λ q. cc)
      ∙ (unfold compare_values in ground (arith, evaluate_compare-eq l r))
  fold_values_sound ge l r b e h =
      evaluate-literals ge l r (λ q. cc) (λ q. cc)
      ∙ (unfold compare_values in ground (arith, evaluate_compare-eq l r))
  fold_values_sound le l r b e h =
      evaluate-literals le l r (λ q. cc) (λ q. cc)
      ∙ (unfold compare_values in ground (arith, evaluate_compare-eq l r))
  fold_values_sound is_in l r b e h = cc
  fold_values_sound contains l r b e h = cc

literal_is : (b : Bool) (n : Node) → is_literal_bool b n ≡ true → n ≡ value (bool b)
literal_is true (value (bool b)) h = ground arith
literal_is false (value (bool b)) h = ground arith
literal_is true n h = absurd (ground arith)
literal_is false n h = absurd (ground arith)

and-false_right : (r : Result) → ¬ IsTrue (evaluate_and r (ok (bool false)))
unfolding evaluate_and
and-false_right r h = ground arith

or-true_right : (r : Result) → IsTrue (evaluate_or r (ok (bool true)))
unfolding evaluate_or
or-true_right r = ground arith

module _ (lib : Platform) (c : EvalContext) where
  short_circuit_sound :
      (op : BinaryOp) (left right : Node) (b : Bool)
      → short_circuit op left right ≡ some b
      → IsTrue (evaluate lib c (binary op left right)) ↔ (b ≡ true)
  unfolding short_circuit evaluate evaluate_binary
  short_circuit_sound and left right b e = elim (Bool-cases (is_literal_bool false left)) [
    | inl l ↦
        rw (literal_is false left l)
          (let k = rw l at e in (λ t. absurd (unfold evaluate_and in cc), λ t. cc))
    | inr l ↦ elim (Bool-cases (is_literal_bool false right)) [
      | inl r ↦
          rw (literal_is false right r)
            (let k = rw (l, r) at e in (λ t. absurd (and-false_right _ t), λ t. cc))
      | inr r ↦ absurd (let k = rw (l, r) at e in cc)
    ]
  ]
  short_circuit_sound or left right b e = elim (Bool-cases (is_literal_bool true left)) [
    | inl l ↦
        rw (literal_is true left l)
          (let k = rw l at e in (λ t. cc, λ t. unfold evaluate_or in refl))
    | inr l ↦ elim (Bool-cases (is_literal_bool true right)) [
      | inl r ↦
          rw (literal_is true right r) (let k = rw (l, r) at e in (λ t. cc, λ t. or-true_right _))
      | inr r ↦ absurd (let k = rw (l, r) at e in cc)
    ]
  ]
  short_circuit_sound op left right b e = absurd (cc)

  fold_literals_sound :
      (op : BinaryOp) (left right : Node) (b : Bool)
      → fold_literals op left right ≡ some b
      → IsNoTimeTest op left right
      → evaluate lib c (binary op left right) ≡ ok (bool b)
  unfolding fold_literals
  fold_literals_sound op (value l) (value r) b e h = fold_values_sound lib c op l r b e h
  fold_literals_sound op left right b e h = absurd (cc)

value_true :
    (lib : Platform) (c : EvalContext) (b : Bool)
    → IsTrue (evaluate lib c (value (bool b))) ↔ (b ≡ true)
unfolding evaluate
value_true lib c b = ground arith

-- Folding a node never changes whether it evaluates to true, in any context, but where it tests two
-- literal times for equality.
pub fold_binary_expr-true_iff :
    (lib : Platform) (c : EvalContext) (op : BinaryOp) (left right : Node)
    → IsNoTimeTest op left right
    → (evaluate lib c (fold_binary_expr op left right) ≡ ok (bool true))
      ↔ (evaluate lib c (binary op left right) ≡ ok (bool true))
unfolding fold_binary_expr
fold_binary_expr-true_iff lib c op left right h =
    elim (Option-cases (short_circuit op left right)) [
      | inr (b, e) ↦
          rw (e, fold_binary_expr)
            (
              λ t. (short_circuit_sound lib c op left right b e).1 ((value_true lib c b).0 t),
              λ t. (value_true lib c b).1 ((short_circuit_sound lib c op left right b e).0 t),
            )
      | inl e ↦ elim (Option-cases (fold_literals op left right)) [
        | inr (b, f) ↦
            rw (e, f, fold_binary_expr)
              (rw (fold_literals_sound lib c op left right b f h)
                (unfold evaluate in (λ t. t, λ t. t)))
        | inl f ↦ rw (e, f, fold_binary_expr) (λ t. t, λ t. t)
      ]
    ]

-- Two equal literal times: the compiler folds their equality to false and their inequality to true,
-- and the evaluator finds them equal.
pub time_test_diverges :
    (lib : Platform) (c : EvalContext) (t : ℤ)
    → (fold_binary_expr eq (value (date_time t)) (value (date_time t)) ≡ value (bool false))
      × (fold_binary_expr ne (value (date_time t)) (value (date_time t)) ≡ value (bool true))
      × (evaluate lib c (binary eq (value (date_time t)) (value (date_time t))) ≡ ok (bool true))
      × (evaluate lib c (binary ne (value (date_time t)) (value (date_time t))) ≡ ok (bool false))
unfolding fold_binary_expr short_circuit fold_literals fold_values evaluate_eq evaluate
    evaluate_binary left_value compare_results compare_values compare_eq
time_test_diverges lib c t = let e = (eq_int_iff t t).1 refl in (refl, refl, rw e, rw e)
