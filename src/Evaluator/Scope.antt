-- ===== src/Evaluator/Scope.antt =====
-- The namespaces of GetAttribute, in internal/engine/evaluator.go.
use standalone_policy_engine.Base.{◌≡◌, ◌++◌}
use standalone_policy_engine.Base.Text.{Text, txt}
use standalone_policy_engine.Ast.{
  Node, absent, value, variable, unary, binary, principal, resource, context,
}
use standalone_policy_engine.Platform.{Platform}
use standalone_policy_engine.Evaluator.{EvalContext, attribute_of, evaluate}
use standalone_policy_engine.Evaluator.Agree.{SameRequest, Agrees, evaluate-same}

-- The condition reads no `context.` attribute.
abbrev pub IsContextFree : Node → Type 0
IsContextFree absent = Unit
IsContextFree (value v) = Unit
IsContextFree (variable principal field) = Unit
IsContextFree (variable resource field) = Unit
IsContextFree (variable context field) = ⊥
IsContextFree (unary op child) = IsContextFree child
IsContextFree (binary op left right) = IsContextFree left × IsContextFree right

-- Two requests of one subject for one resource that agree on all keys with an explicit namespace
-- of principal or resource. All other keys may differ.
pub record SameIdentity (c d : EvalContext) : Type 0 where
  pub request : SameRequest c d
  pub principal_keys :
      (field : Text)
      → c.attributes (txt "principal." ++ field) ≡ d.attributes (txt "principal." ++ field)
  pub resource_keys :
      (field : Text)
      → c.attributes (txt "resource." ++ field) ≡ d.attributes (txt "resource." ++ field)

IsContextFree-Agrees :
    (c d : EvalContext) (n : Node) → SameIdentity c d → IsContextFree n → Agrees c d n
unfolding attribute_of
IsContextFree-Agrees c d absent s f = tt
IsContextFree-Agrees c d (value v) s f = tt
IsContextFree-Agrees c d (variable principal field) s f = s.principal_keys field
IsContextFree-Agrees c d (variable resource field) s f = s.resource_keys field
IsContextFree-Agrees c d (variable context field) s f = absurd f
IsContextFree-Agrees c d (unary op child) s f = IsContextFree-Agrees c d child s f
IsContextFree-Agrees c d (binary op left right) s f =
    (IsContextFree-Agrees c d left s f.0, IsContextFree-Agrees c d right s f.1)

-- A condition over attributes of principal and resource alone has the same value in two requests
-- that agree on subject, resource, role hierarchy and the keys with an explicit `principal.` or
-- `resource.` namespace: no other key of the request's context can impersonate an attribute.
pub evaluate_ignores_context :
    (lib : Platform) (c d : EvalContext) (n : Node)
    → SameIdentity c d
    → IsContextFree n
    → evaluate lib c n ≡ evaluate lib d n
evaluate_ignores_context lib c d n same f =
    evaluate-same lib c d same.request n (IsContextFree-Agrees c d n same f)
