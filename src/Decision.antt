-- ===== src/Decision.antt =====
-- The decision of internal/engine/decision.go. Pooled buffers and contexts are values. `canceled` says that ctx.Err() is not nil.
pub mod Scan
pub mod Verdict
use standalone_policy_engine.Base.{
  ℕ, Bool, true, false, not, Option, none, some, List, [], ◌∷◌, ◌++◌, if◌then◌else◌,
}
use standalone_policy_engine.Base.Text.{Text, txt, has_prefix}
use standalone_policy_engine.Ast.{PolicyNode, ObligationNode, Effect, permit, forbid, bool}
use standalone_policy_engine.Platform.{Platform}
use standalone_policy_engine.Dag.{get_inherited_roles}
use standalone_policy_engine.Trie.{TrieRoot, lookup_policies}
use standalone_policy_engine.Evaluator.{EvalContext, Result, ok, err, evaluate}

pub data Decision : Type 0 where
  deny allow : Decision

-- The texts of Reason. The last is EngineWithGC's own for a tenant that it cannot load.
pub data Reason : Type 0 where
  deny_canceled deny_tenant_not_found deny_no_match deny_forbid allow_permit deny_default : Reason
  deny_tenant_not_loaded : Reason

pub record DecisionResult : Type 0 where
  pub policy_revision : ℕ
  pub decision : Decision
  pub reason : Reason
  pub explanations : List Text
  pub obligations : List ObligationNode

unfoldable pub normalize_action : Text → Text
normalize_action act = if has_prefix act (txt "action:") then act else txt "action:" ++ act

-- isConditionSatisfied
unfoldable pub is_satisfied : Platform → EvalContext → PolicyNode → Bool
is_satisfied lib c p = elim (evaluate lib c p.condition) [
  | ok (bool b) ↦ if p.is_unless then not b else b
  | _ ↦ false
]

-- firstForbidPolicy and firstPermitPolicy.
pub record Firsts : Type 0 where
  pub first_forbid : Option PolicyNode
  pub first_permit : Option PolicyNode

abbrev pub or_first : Option PolicyNode → PolicyNode → Option PolicyNode
or_first none p = some p
or_first (some q) p = some q

-- The loop over the matched policies; a satisfied forbid breaks it.
unfoldable pub scan : Platform → EvalContext → List PolicyNode → Option PolicyNode → Firsts
scan lib c [] first = record { first_forbid = none; first_permit = first }
scan lib c (p ∷ ps) first = elim (is_satisfied lib c p) [
  | true ↦ elim p.effect [
    | forbid ↦ record { first_forbid = some p; first_permit = first }
    | permit ↦ scan lib c ps (or_first first p)
  ]
  | false ↦ scan lib c ps first
]

unfoldable pub explain : PolicyNode → List Text
explain p = elim p.explanation_list [ [] ↦ p.id ∷ [] | x ∷ xs ↦ x ∷ xs ]

abbrev pub deny_with : Reason → DecisionResult
deny_with r = record {
  policy_revision = 0;
  decision = deny;
  reason = r;
  explanations = [];
  obligations = [];
}

-- The truth table of the decision.
unfoldable pub decide_by : Firsts → DecisionResult
unfolding explain
decide_by f = elim f.first_forbid [
  | some p ↦ record {
    policy_revision = 0;
    decision = deny;
    reason = deny_forbid;
    explanations = explain p;
    obligations = p.obligations;
  }
  | none ↦ elim f.first_permit [
    | some p ↦ record {
      policy_revision = 0;
      decision = allow;
      reason = allow_permit;
      explanations = explain p;
      obligations = p.obligations;
    }
    | none ↦ deny_with deny_default
  ]
]

pub record Request : Type 0 where
  pub subject : Text
  pub action : Text
  pub resource_id : Text
  pub attributes : Text → Option Text

unfoldable pub matched_policies : TrieRoot → Request → List PolicyNode
matched_policies t r =
    lookup_policies t (get_inherited_roles (some t.role_dag) r.subject) (r.resource_id ∷ [])
      (normalize_action r.action)

abbrev pub context_of : TrieRoot → Request → EvalContext
context_of t r = record {
  subject = r.subject;
  action = r.action;
  resource_id = r.resource_id;
  attributes = r.attributes;
  role_dag = some t.role_dag;
}

unfoldable pub evaluate_permission : Platform → TrieRoot → Request → DecisionResult
evaluate_permission lib t r = elim (matched_policies t r) [
  | [] ↦ deny_with deny_no_match
  | p ∷ ps ↦ decide_by (scan lib (context_of t r) (p ∷ ps) none)
]

-- The package's CheckPermission; none is a nil trie.
unfoldable pub check_permission : Platform → Bool → Option TrieRoot → Request → DecisionResult
check_permission lib canceled trie r =
    if canceled
    then deny_with deny_canceled
    else elim trie [ none ↦ deny_with deny_tenant_not_found | some t ↦ evaluate_permission lib t r ]
