-- ===== src/Examples.antt =====
-- Concrete values at which the results are applied: a platform, policies, edges and requests.
pub mod Access
pub mod Roles
pub mod Updates
pub mod Conditions
pub mod Compiling
pub mod Grounds
pub mod Texts
pub mod Scanning
pub mod Parsing
pub mod Shelf
pub mod Syncing
pub mod Revoking
pub mod Approving
pub mod Redacting
use standalone_policy_engine.Base.{leb, ◌&&◌, ℕ, Option, none, some, List, [], ◌∷◌, false}
use standalone_policy_engine.Base.Text.{Text, txt}
use standalone_policy_engine.Ast.{
  PolicyNode, ScopeNode, scope_eq, Effect, permit, forbid, Node, absent, value, variable, binary,
  eq, principal, string,
}
use standalone_policy_engine.Platform.{Platform}
use standalone_policy_engine.Decision.{Request}
use standalone_policy_engine.Evaluator.{EvalContext}

-- A platform on which no text has a reading but its own, and the letters are a to z.
abbrev pub bare : Platform
bare = record {
  parse_ip = λ s. none;
  parse_cidr = λ s. none;
  parse_rfc3339 = λ s. none;
  is_unicode_letter = λ c. leb b'a' c && leb c b'z';
  trim_space = λ s. s;
  scan_hmsz = λ s. none;
  scan_hms = λ s. none;
  scan_hm = λ s. none;
}

abbrev pub scope_of : Text → Text → Option ScopeNode
scope_of kind id = some (record { operator = scope_eq; entity_type = kind; entity_id = id })

-- principal.dept == "hr"
abbrev pub in_hr : Node
in_hr = binary eq (variable principal (txt "dept")) (value (string (txt "hr")))

-- A policy for reading the resource file:1.
abbrev pub reading : Effect → Option ScopeNode → PolicyNode
reading e who = record {
  id = txt "p1";
  tenant_id = txt "acme";
  effect = e;
  principal = who;
  action = scope_of (txt "action") (txt "read");
  resource = scope_of (txt "file") (txt "1");
  condition = in_hr;
  is_unless = false;
  explanation_list = [];
  required_attributes = txt "dept" ∷ [];
  obligations = [];
}

abbrev pub two_policies : List PolicyNode
two_policies =
    reading permit (scope_of (txt "role") (txt "staff"))
    ∷ reading forbid (scope_of (txt "role") (txt "guest"))
    ∷ []

abbrev pub one_edge : List (Text × Text)
one_edge = (txt "role:manager", txt "role:staff") ∷ []

abbrev pub dept_hr : Text → Option Text
dept_hr key = some (txt "hr")

abbrev pub read_file : Request
read_file = record {
  subject = txt "role:manager";
  action = txt "read";
  resource_id = txt "file:1";
  attributes = dept_hr;
}

abbrev pub hr_context : EvalContext
hr_context = record {
  subject = txt "role:manager";
  action = txt "read";
  resource_id = txt "file:1";
  attributes = dept_hr;
  role_dag = none;
}
