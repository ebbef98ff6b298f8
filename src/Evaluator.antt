-- ===== src/Evaluator.antt =====
-- The condition evaluator of internal/engine/evaluator.go. The pooled scratch nodes and buffers
-- are values here: a node is not changed once it is returned. The parameter `lib` stands for the
-- library functions of Platform.
pub mod Agree
pub mod Scope
pub mod Shape
use Prim.Native.Nat.{Ordering}
use standalone_policy_engine.Base.{
  ℕ, zero, suc, ◌+◌, Bool, true, false, not, ◌&&◌, ◌||◌, Option, none, some, List, [], ◌∷◌, ◌++◌,
  any_of, if◌then◌else◌, ◌==◌,
}
use standalone_policy_engine.Base.Int.{ℤ, eq_int, lt_int, neg_int64}
use standalone_policy_engine.Base.Text.{Text, txt, text_eq, text_compare, trim_prefix}
use standalone_policy_engine.Ast.{
  IpNet, ValueNode, string, int, bool, ip, ip_net, date_time, val_type, ValueType, string_type,
  int_type, bool_type, ip_type, ip_net_type, date_time_type, Node, absent, value, variable, unary,
  binary, UnaryOp, op_not, op_neg, BinaryOp, and, or, eq, ne, gt, lt, ge, le, is_in, contains,
  VarScope, principal, resource, context,
}
use standalone_policy_engine.Dag.{RoleDag, is_descendant}
use standalone_policy_engine.Platform.{
  Platform, ip_equal, net_contains, parse_int, parse_bool, split_comma,
}
use standalone_policy_engine.Literals.{parse_date_time, parse_ipv4_fast_into}

-- ErrMissingAttribute, ErrUnsupportedOp, the errors of the literal readers, and the error for a
-- node of no known kind.
pub data EvalError : Type 0 where
  missing_attribute unsupported_op invalid_value unsupported_node : EvalError

pub data Result : Type 0 where
  ok : ValueNode → Result
  err : EvalError → Result

pub record EvalContext : Type 0 where
  pub subject : Text
  pub action : Text
  pub resource_id : Text
  -- Context[key], none for a missing key or a nil map
  pub attributes : Text → Option Text
  pub role_dag : Option RoleDag

abbrev pub or_invalid : {A : Type 0} → Option A → (A → ValueNode) → Result
or_invalid none wrap = err invalid_value
or_invalid (some a) wrap = ok (wrap a)

unfoldable pub parse_string_value : Platform → Text → ValueType → Result
parse_string_value lib val string_type = ok (string val)
parse_string_value lib val int_type = or_invalid (parse_int val) int
parse_string_value lib val bool_type = or_invalid (parse_bool val) bool
parse_string_value lib val ip_type = or_invalid (parse_ipv4_fast_into lib val) ip
parse_string_value lib val ip_net_type = or_invalid (lib.parse_cidr val) ip_net
parse_string_value lib val date_time_type = or_invalid (parse_date_time lib val) date_time

abbrev pub read_attribute : Platform → Option Text → ValueType → Result
read_attribute lib none t = err missing_attribute
read_attribute lib (some val) t = parse_string_value lib val t

-- The map entry that a variable reads.
unfoldable pub attribute_of : EvalContext → VarScope → Text → Option Text
attribute_of c principal field = c.attributes (txt "principal." ++ field)
attribute_of c resource field = c.attributes (txt "resource." ++ field)
attribute_of c context field = elim (c.attributes field) [
  | some val ↦ some val
  | none ↦ c.attributes (txt "context." ++ field)
]

unfoldable pub get_attribute : Platform → EvalContext → VarScope → Text → ValueType → Result
get_attribute lib c principal field t =
    if text_eq field (txt "id")
    then ok (string c.subject)
    else read_attribute lib (attribute_of c principal field) t
get_attribute lib c resource field t =
    if text_eq field (txt "id")
    then ok (string c.resource_id)
    else read_attribute lib (attribute_of c resource field) t
get_attribute lib c context field t = read_attribute lib (attribute_of c context field) t

unfoldable pub compare_eq : ValueNode → ValueNode → Bool
compare_eq (string a) (string b) = text_eq a b
compare_eq (int a) (int b) = eq_int a b
compare_eq (date_time a) (date_time b) = eq_int a b
compare_eq (bool true) (bool b) = b
compare_eq (bool false) (bool b) = not b
compare_eq (ip a) (ip b) = ip_equal a b
compare_eq _ _ = false

unfoldable pub int_order : ℤ → ℤ → Ordering
int_order a b = if lt_int b a then Ordering.gt else if lt_int a b then Ordering.lt else Ordering.eq

-- The sign of the first component, with none for `ok` false.
unfoldable pub compare_order : ValueNode → ValueNode → Option Ordering
compare_order (int a) (int b) = some (int_order a b)
compare_order (date_time a) (date_time b) = some (int_order a b)
compare_order (string a) (string b) = some (text_compare a b)
compare_order _ _ = none

abbrev pub ordered : Option Ordering → (Ordering → Bool) → Result
ordered none test = err unsupported_op
ordered (some o) test = ok (bool (test o))

abbrev pub is_gt : Ordering → Bool
is_gt o = elim o [ Ordering.gt ↦ true | _ ↦ false ]

abbrev pub is_lt : Ordering → Bool
is_lt o = elim o [ Ordering.lt ↦ true | _ ↦ false ]

-- `principal in role`: with a DAG by its closure, without one by equality.
unfoldable pub in_role : Option RoleDag → Text → Text → Bool
in_role dag left right =
    let child = trim_prefix right (txt "role:") in
    let parent = trim_prefix left (txt "role:") in
    elim dag [ none ↦ text_eq parent child | some d ↦ is_descendant (some d) parent child ]

unfoldable pub evaluate_in : EvalContext → ValueNode → ValueNode → Result
evaluate_in c (ip a) (ip_net n) = ok (bool (net_contains n a))
evaluate_in c (string a) (string b) = ok (bool (in_role c.role_dag a b))
evaluate_in c _ _ = err unsupported_op

unfoldable pub evaluate_contains : Platform → ValueNode → ValueNode → Result
evaluate_contains lib (string a) (string b) =
    ok (bool (any_of (λ part. text_eq (lib.trim_space part) b) (split_comma a)))
evaluate_contains lib _ _ = err unsupported_op

-- The switch of evaluateComparison over two values. `and` and `or` do not reach it: no case of
-- the switch is theirs, which leaves the result false.
unfoldable pub compare_values : Platform → EvalContext → BinaryOp → ValueNode → ValueNode → Result
compare_values lib c eq l r = ok (bool (compare_eq l r))
compare_values lib c ne l r = ok (bool (not (compare_eq l r)))
compare_values lib c gt l r = ordered (compare_order l r) is_gt
compare_values lib c lt l r = ordered (compare_order l r) is_lt
compare_values lib c ge l r = ordered (compare_order l r) (λ o. not (is_lt o))
compare_values lib c le l r = ordered (compare_order l r) (λ o. not (is_gt o))
compare_values lib c is_in l r = evaluate_in c l r
compare_values lib c contains l r = evaluate_contains lib l r
compare_values lib c and l r = ok (bool false)
compare_values lib c or l r = ok (bool false)

-- The type that the left variable is read at, taken from a literal on the right.
unfoldable pub expected_type : BinaryOp → Node → ValueType
expected_type is_in (value (ip_net n)) = ip_type
expected_type op (value v) = val_type v
expected_type op right = string_type

-- The left side of a comparison: a variable is read at the expected type.
unfoldable pub left_value : Platform → EvalContext → ValueType → Node → Result → Result
left_value lib c t (variable scope field) evaluated = get_attribute lib c scope field t
left_value lib c t node evaluated = evaluated

-- evaluateComparison, from the results for its two sides: an error in either gives false.
unfoldable pub compare_results : Platform → EvalContext → BinaryOp → Result → Result → Result
compare_results lib c op (err e) r = ok (bool false)
compare_results lib c op (ok l) (err e) = ok (bool false)
compare_results lib c op (ok l) (ok r) = compare_values lib c op l r

abbrev pub need_bool : Result → Result
need_bool (err e) = ok (bool false)
need_bool (ok (bool b)) = ok (bool b)
need_bool (ok v) = err unsupported_op

unfoldable pub evaluate_and : Result → Result → Result
evaluate_and (err e) r = ok (bool false)
evaluate_and (ok (bool false)) r = ok (bool false)
evaluate_and (ok (bool true)) r = need_bool r
evaluate_and (ok v) r = err unsupported_op

-- Only a left side that is true ends it early; an error and a value of another type count as false.
unfoldable pub evaluate_or : Result → Result → Result
evaluate_or (ok (bool true)) r = ok (bool true)
evaluate_or _ r = need_bool r

unfoldable pub evaluate_unary : UnaryOp → Result → Result
evaluate_unary op (err e) = err e
evaluate_unary op_not (ok (bool b)) = ok (bool (not b))
evaluate_unary op_neg (ok (int n)) = ok (int (neg_int64 n))
evaluate_unary op (ok v) = err unsupported_op

unfoldable pub evaluate_binary :
    Platform → EvalContext → BinaryOp → Node → Node → Result → Result → Result
evaluate_binary lib c and left right l r = evaluate_and l r
evaluate_binary lib c or left right l r = evaluate_or l r
evaluate_binary lib c op left right l r =
    compare_results lib c op (left_value lib c (expected_type op right) left l) r

unfoldable pub evaluate : Platform → EvalContext → Node → Result
evaluate lib c absent = ok (bool true)
evaluate lib c (value v) = ok v
evaluate lib c (variable scope field) = get_attribute lib c scope field string_type
evaluate lib c (unary op child) = evaluate_unary op (evaluate lib c child)
evaluate lib c (binary op left right) =
    evaluate_binary lib c op left right (evaluate lib c left) (evaluate lib c right)
