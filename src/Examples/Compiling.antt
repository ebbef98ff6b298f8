-- ===== src/Examples/Compiling.antt =====
-- The result on Compile, at a permit for the staff of a department.
use standalone_policy_engine.Base.{◌≡◌, refl, [], ◌∷◌}
use standalone_policy_engine.Base.Text.{txt, text_eq, has_prefix}
use standalone_policy_engine.Ast.{PolicyNode, permit}
use standalone_policy_engine.Dag.{member}
use standalone_policy_engine.Preparse.{
  optimize_value, try_parse_ip_or_cidr, try_parse_date_time, ends_with_z, seconds_of_hms,
  seconds_of_hm, preparse, contains_text, preparse_ip,
}
use standalone_policy_engine.Compiler.{
  compiled, compile, compile_condition, validate_policy_obligations, check_obligations,
  optimize_node, optimize_binary, is_relational_op, types_clash, fold_binary_expr, short_circuit,
  fold_literals, check_depth, extract_required_attributes, collect_fields, sort_strings,
  insert_sorted,
}
use standalone_policy_engine.Compiler.Accepted.{IsAccepted, compile-IsAccepted}
use standalone_policy_engine.Examples.{bare, reading, scope_of}

abbrev for_staff : PolicyNode
for_staff = reading permit (scope_of (txt "role") (txt "staff"))

abbrev for_staff_compiled : PolicyNode
for_staff_compiled = record for_staff { explanation_list = txt "p1" ∷ [] }

compiles : compile bare for_staff ≡ compiled for_staff_compiled
unfolding compile compile_condition validate_policy_obligations check_obligations optimize_node
    optimize_binary optimize_value try_parse_ip_or_cidr try_parse_date_time ends_with_z
    seconds_of_hms seconds_of_hm is_relational_op types_clash preparse preparse_ip contains_text
    has_prefix fold_binary_expr short_circuit fold_literals check_depth extract_required_attributes
    collect_fields sort_strings insert_sorted member text_eq
compiles = refl

compile-IsAccepted_example : IsAccepted for_staff for_staff_compiled
compile-IsAccepted_example = compile-IsAccepted bare for_staff for_staff_compiled compiles
