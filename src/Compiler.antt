-- ===== src/Compiler.antt =====
-- The policy compiler of internal/parser/compiler.go and the obligation check of obligation.go.
-- Messages are left out: an error is its kind, and the compiler's list of errors is whether it is
-- empty. The tree that the compiler changes in place is not shared, so it is a value here.
pub mod Folding
pub mod Depth
pub mod Attributes
pub mod Accepted
use Prim.Native.Nat.{Ordering}
use standalone_policy_engine.Base.{
  ℕ, zero, suc, ◌+◌, ◌*◌, Bool, true, false, not, ◌&&◌, ◌||◌, Option, none, some, List, [], ◌∷◌,
  ◌++◌, length, if◌then◌else◌, ltb, leb, ◌==◌,
}
use standalone_policy_engine.Base.Int.{ℤ, pos, negsuc, eq_int, lt_int, neg_int64}
use standalone_policy_engine.Base.Text.{Text, txt, text_eq, text_compare, has_prefix}
use standalone_policy_engine.Ast.{
  IpNet, ValueNode, string, int, bool, ip, ip_net, date_time, val_type, ValueType, string_type,
  int_type, bool_type, ip_type, ip_net_type, date_time_type, Node, absent, value, variable, unary,
  binary, UnaryOp, op_not, op_neg, BinaryOp, and, or, eq, ne, gt, lt, ge, le, is_in, contains,
  ObligationNode, PolicyNode,
}
use standalone_policy_engine.Dag.{member}
use standalone_policy_engine.Platform.{Platform, ip_equal}
use standalone_policy_engine.Preparse.{optimize_value, preparse}

pub data CompileError : Type 0 where
  too_many_obligations unsupported_obligation duplicate_obligation message_too_long : CompileError
  too_deep type_error : CompileError

-- The three obligation types that the compiler accepts.
abbrev pub known_obligations : List Text
known_obligations =
    txt "REQUIRE_HUMAN_APPROVAL" ∷ txt "AUDIT_SENSITIVE_TOOL_CALL" ∷ txt "MASK_ATTRIBUTES" ∷ []

-- The loop of validatePolicyObligations, over the types already seen.
unfoldable pub check_obligations : List Text → List ObligationNode → Option CompileError
check_obligations seen [] = none
check_obligations seen (o ∷ os) =
    let rest = check_obligations (o.kind ∷ seen) os in
    if member o.kind known_obligations
    then (if member o.kind seen
        then some duplicate_obligation
        else if ltb 256 (length o.message)
        then some message_too_long
        else rest)
    else some unsupported_obligation

unfoldable pub validate_policy_obligations : List ObligationNode → Option CompileError
validate_policy_obligations os =
    if ltb 4 (length os) then some too_many_obligations else check_obligations [] os

-- checkDepth without its error value: whether the tree stays within 15 levels.
unfoldable pub check_depth : Node → ℕ → Bool
check_depth (binary op left right) depth =
    if ltb 15 depth then false else check_depth left (depth + 1) && check_depth right (depth + 1)
check_depth (unary op child) depth = if ltb 15 depth then false else check_depth child (depth + 1)
check_depth node depth = not (ltb 15 depth)

unfoldable pub is_relational_op : BinaryOp → Bool
is_relational_op gt = true
is_relational_op lt = true
is_relational_op ge = true
is_relational_op le = true
is_relational_op op = false

unfoldable pub type_eq : ValueType → ValueType → Bool
type_eq string_type string_type = true
type_eq int_type int_type = true
type_eq bool_type bool_type = true
type_eq ip_type ip_type = true
type_eq ip_net_type ip_net_type = true
type_eq date_time_type date_time_type = true
type_eq _ _ = false

-- checkTypeCompatibility: whether it adds an error.
unfoldable pub types_clash : Node → Node → Bool
types_clash (value l) (value r) = not (type_eq (val_type l) (val_type r))
types_clash left right = false

unfoldable pub evaluate_eq : ValueNode → ValueNode → Bool
evaluate_eq (bool true) (bool b) = b
evaluate_eq (bool false) (bool b) = not b
evaluate_eq (int a) (int b) = eq_int a b
evaluate_eq (string a) (string b) = text_eq a b
evaluate_eq (ip a) (ip b) = ip_equal a b
evaluate_eq _ _ = false

abbrev pub sign_int : ℤ → ℤ → Ordering
sign_int a b = if lt_int b a then Ordering.gt else if lt_int a b then Ordering.lt else Ordering.eq

unfoldable pub evaluate_compare : ValueNode → ValueNode → Option Ordering
evaluate_compare (int a) (int b) = some (sign_int a b)
evaluate_compare (date_time a) (date_time b) = some (sign_int a b)
evaluate_compare (string a) (string b) = some (text_compare a b)
evaluate_compare _ _ = none

-- The result of one case of the switch; none where the case falls through to `return n`.
unfoldable pub fold_values : BinaryOp → ValueNode → ValueNode → Option Bool
fold_values and (bool a) (bool b) = some (a && b)
fold_values or (bool a) (bool b) = some (a || b)
fold_values eq l r = some (evaluate_eq l r)
fold_values ne l r = some (not (evaluate_eq l r))
fold_values gt l r = elim (evaluate_compare l r) [
  | none ↦ none
  | some o ↦ some (elim o [ Ordering.gt ↦ true | _ ↦ false ])
]
fold_values lt l r = elim (evaluate_compare l r) [
  | none ↦ none
  | some o ↦ some (elim o [ Ordering.lt ↦ true | _ ↦ false ])
]
fold_values ge l r = elim (evaluate_compare l r) [
  | none ↦ none
  | some o ↦ some (elim o [ Ordering.lt ↦ false | _ ↦ true ])
]
fold_values le l r = elim (evaluate_compare l r) [
  | none ↦ none
  | some o ↦ some (elim o [ Ordering.gt ↦ false | _ ↦ true ])
]
fold_values op l r = none

abbrev pub is_literal_bool : Bool → Node → Bool
is_literal_bool true (value (bool b)) = b
is_literal_bool false (value (bool b)) = not b
is_literal_bool b node = false

-- The static short circuits, before both sides are looked at.
unfoldable pub short_circuit : BinaryOp → Node → Node → Option Bool
short_circuit and left right =
    if is_literal_bool false left
    then some false
    else if is_literal_bool false right
    then some false
    else none
short_circuit or left right =
    if is_literal_bool true left
    then some true
    else if is_literal_bool true right
    then some true
    else none
short_circuit op left right = none

unfoldable pub fold_literals : BinaryOp → Node → Node → Option Bool
fold_literals op (value l) (value r) = fold_values op l r
fold_literals op left right = none

unfoldable pub fold_binary_expr : BinaryOp → Node → Node → Node
fold_binary_expr op left right = elim (short_circuit op left right) [
  | some b ↦ value (bool b)
  | none ↦ elim (fold_literals op left right) [
    | some b ↦ value (bool b)
    | none ↦ binary op left right
  ]
]

unfoldable pub fold_unary_expr : UnaryOp → Node → Node
fold_unary_expr op_not (value (bool b)) = value (bool (not b))
fold_unary_expr op_neg (value (int n)) = value (int (neg_int64 n))
fold_unary_expr op child = unary op child

-- The step of optimizeNode at a binary node, from its two optimized children with their errors.
unfoldable pub optimize_binary : Platform → BinaryOp → Node × Bool → Node × Bool → Node × Bool
optimize_binary lib op (left, e1) (right, e2) = (
  fold_binary_expr op left (preparse lib op left right),
  e1 || (e2 || (is_relational_op op && types_clash left right)),
)

unfoldable pub optimize_unary : UnaryOp → Node × Bool → Node × Bool
optimize_unary op (child, e) = (fold_unary_expr op child, e)

-- optimizeNode: the new node, and whether an error was added.
unfoldable pub optimize_node : Platform → Node → Node × Bool
optimize_node lib (binary op left right) =
    optimize_binary lib op (optimize_node lib left) (optimize_node lib right)
optimize_node lib (unary op child) = optimize_unary op (optimize_node lib child)
optimize_node lib (value v) = (value (optimize_value lib v), false)
optimize_node lib node = (node, false)

-- attrMap: the set of fields, as a list without repetition.
unfoldable pub collect_fields : Node → List Text → List Text
collect_fields (variable scope field) seen = if member field seen then seen else field ∷ seen
collect_fields (binary op left right) seen = collect_fields right (collect_fields left seen)
collect_fields (unary op child) seen = collect_fields child seen
collect_fields node seen = seen

-- sort.Strings, as an insertion sort
unfoldable pub insert_sorted : Text → List Text → List Text
insert_sorted a [] = a ∷ []
insert_sorted a (b ∷ bs) =
    let rest = insert_sorted a bs in
    elim (text_compare b a) [ Ordering.lt ↦ b ∷ rest | _ ↦ a ∷ b ∷ bs ]

unfoldable pub sort_strings : List Text → List Text
sort_strings [] = []
sort_strings (a ∷ as') = insert_sorted a (sort_strings as')

unfoldable pub extract_required_attributes : Node → List Text
extract_required_attributes node = sort_strings (collect_fields node [])

pub data Compiled : Type 0 where
  compiled : PolicyNode → Compiled
  refused : CompileError → Compiled

abbrev pub is_absent : Node → Bool
is_absent absent = true
is_absent node = false

unfoldable pub compile_condition : Platform → PolicyNode → Compiled
compile_condition lib p =
    let (n, clash) = optimize_node lib p.condition in
    if check_depth p.condition 1
    then (if clash
        then refused type_error
        else compiled (record p {
          condition = n;
          required_attributes = extract_required_attributes n;
          explanation_list = p.id ∷ [];
        }))
    else refused too_deep

-- Compile, on a policy that is not nil.
unfoldable pub compile : Platform → PolicyNode → Compiled
compile lib p = elim (validate_policy_obligations p.obligations) [
  | some e ↦ refused e
  | none ↦
      if is_absent p.condition
      then compiled (record p { explanation_list = p.id ∷ [] })
      else compile_condition lib p
]
