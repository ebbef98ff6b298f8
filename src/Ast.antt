-- ===== src/Ast.antt =====
-- The policy tree of internal/parser/ast.go.
-- A Go interface or pointer that may be nil: `absent` for a nil Node, `none` for a nil *ScopeNode.
-- Source positions serve error messages only and are left out. A literal's ValueNode, whose fields
-- are read only after a test of ValType, is a sum with one constructor for each ValType.
use standalone_policy_engine.Base.{ℕ, Bool, Option, List}
use standalone_policy_engine.Base.Int.{ℤ}
use standalone_policy_engine.Base.Text.{Text}

pub data Effect : Type 0 where
  permit forbid : Effect

pub data ScopeOp : Type 0 where
  scope_eq scope_in scope_any : ScopeOp

pub record ScopeNode : Type 0 where
  pub operator : ScopeOp
  pub entity_type : Text
  pub entity_id : Text

pub data BinaryOp : Type 0 where
  and or eq ne gt lt ge le is_in contains : BinaryOp

pub data UnaryOp : Type 0 where
  op_not op_neg : UnaryOp

pub data VarScope : Type 0 where
  principal resource context : VarScope

pub data ValueType : Type 0 where
  string_type int_type bool_type ip_type ip_net_type date_time_type : ValueType

-- net.IPNet
pub record IpNet : Type 0 where
  pub ip : List ℕ
  pub mask : List ℕ

pub data ValueNode : Type 0 where
  string : Text → ValueNode
  int : ℤ → ValueNode
  bool : Bool → ValueNode
  ip : List ℕ → ValueNode
  ip_net : IpNet → ValueNode
  date_time : ℤ → ValueNode

-- ValType
abbrev pub val_type : ValueNode → ValueType
val_type (string s) = string_type
val_type (int n) = int_type
val_type (bool b) = bool_type
val_type (ip a) = ip_type
val_type (ip_net n) = ip_net_type
val_type (date_time t) = date_time_type

pub data Node : Type 0 where
  absent : Node
  value : ValueNode → Node
  variable : VarScope → Text → Node
  unary : UnaryOp → Node → Node
  binary : BinaryOp → Node → Node → Node

pub record ObligationNode : Type 0 where
  pub kind : Text
  pub message : Text

pub record PolicyNode : Type 0 where
  pub id : Text
  pub tenant_id : Text
  pub effect : Effect
  pub principal : Option ScopeNode
  pub action : Option ScopeNode
  pub resource : Option ScopeNode
  pub condition : Node
  pub is_unless : Bool
  pub explanation_list : List Text
  pub required_attributes : List Text
  pub obligations : List ObligationNode
