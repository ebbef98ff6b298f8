-- ===== src/Examples/Conditions.antt =====
-- The results on conditions, at `principal.dept == "hr"`.
use standalone_policy_engine.Base.{◌≡◌, ◌↔◌, if◌then◌else◌, refl, true, false, some}
use standalone_policy_engine.Base.Int.{pos}
use standalone_policy_engine.Base.Text.{txt, text_eq}
use standalone_policy_engine.Ast.{value, binary, and, eq, ne, bool, date_time}
use standalone_policy_engine.Evaluator.{EvalContext, attribute_of, evaluate, ok}
use standalone_policy_engine.Evaluator.Scope.{SameIdentity, evaluate_ignores_context}
use standalone_policy_engine.Compiler.{fold_binary_expr}
use standalone_policy_engine.Compiler.Folding.{fold_binary_expr-true_iff, time_test_diverges}
use standalone_policy_engine.Compiler.Attributes.{required_attributes_suffice}
use standalone_policy_engine.Examples.{bare, in_hr, hr_context}

-- The same request with another value under a key of its context.
abbrev forged : EvalContext
forged = record hr_context {
  attributes = λ key. if text_eq key (txt "dept") then some (txt "it") else some (txt "hr");
}

forged-SameIdentity : SameIdentity hr_context forged
unfolding text_eq
forged-SameIdentity = record {
  request = record { subject = refl; resource_id = refl; role_dag = refl };
  principal_keys = λ f. refl;
  resource_keys = λ f. refl;
}

-- The same request for another action.
abbrev writing : EvalContext
writing = record hr_context { action = txt "write" }

evaluate_ignores_context_example : evaluate bare hr_context in_hr ≡ evaluate bare forged in_hr
evaluate_ignores_context_example =
    evaluate_ignores_context bare hr_context forged in_hr forged-SameIdentity (tt, tt)

fold_binary_expr-true_iff_example :
    (evaluate bare hr_context (fold_binary_expr and in_hr (value (bool true))) ≡ ok (bool true))
    ↔ (evaluate bare hr_context (binary and in_hr (value (bool true))) ≡ ok (bool true))
fold_binary_expr-true_iff_example =
    fold_binary_expr-true_iff bare hr_context and in_hr (value (bool true)) tt

time_test_diverges_example :
    (fold_binary_expr eq (value (date_time (pos 5))) (value (date_time (pos 5)))
      ≡ value (bool false))
    × (fold_binary_expr ne (value (date_time (pos 5))) (value (date_time (pos 5)))
        ≡ value (bool true))
    × (evaluate bare hr_context (binary eq (value (date_time (pos 5))) (value (date_time (pos 5))))
        ≡ ok (bool true))
    × (evaluate bare hr_context (binary ne (value (date_time (pos 5))) (value (date_time (pos 5))))
        ≡ ok (bool false))
time_test_diverges_example = time_test_diverges bare hr_context (pos 5)

required_attributes_suffice_example : evaluate bare hr_context in_hr ≡ evaluate bare writing in_hr
unfolding attribute_of
required_attributes_suffice_example =
    required_attributes_suffice bare hr_context writing in_hr
      (record { subject = refl; resource_id = refl; role_dag = refl }) (λ f scope m. refl)
