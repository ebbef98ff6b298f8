-- ===== src/Examples/Access.antt =====
-- The results on decisions, at a request of a manager who inherits the role of the staff.
use standalone_policy_engine.Base.{
  true, ◌≡◌, ◌↔◌, refl, ap, false, Option, none, [], ◌∷◌, In, arith,
}
use standalone_policy_engine.Base.Text.{txt, text_eq, has_prefix}
use standalone_policy_engine.Ast.{PolicyNode, permit, forbid}
use standalone_policy_engine.Dag.{
  RoleDag, added, add_inheritance, has_cycle, search_cycles, visit_roots, keys, add_edge,
  new_role_dag, and_then, dfs, close_node, visit_all, neighbors, paint, roles,
}
use standalone_policy_engine.Dag.Add.{IsValid}
use standalone_policy_engine.Trie.{new_trie_root, is_any, fnv_hash, fnv_loop, any, lookup_policies}
use standalone_policy_engine.Trie.Keys.{index, IsReached, new_trie_root-IsEmpty}
use standalone_policy_engine.Trie.Lookup.{In-lookup_policies}
use standalone_policy_engine.Decision.{
  allow, normalize_action, matched_policies, context_of, evaluate_permission,
}
use standalone_policy_engine.Decision.Scan.{IsJustified}
use standalone_policy_engine.Decision.Verdict.{
  NoCollision, HasEffective, allow_iff, evaluate_permission-IsJustified, scope_action_ignored,
}
use standalone_policy_engine.Engine.{
  Tenants, build_tenant_trie, add_all, UpdateError, update_tenant_policies, engine_check_permission,
}
use standalone_policy_engine.Engine.Updates.{base_trie}
use standalone_policy_engine.Engine.Access.{edges_of, published_decides}
use standalone_policy_engine.Examples.{bare, two_policies, one_edge, read_file, reading, scope_of}

hash_read : fnv_hash (txt "action:read") ≡ 14713360111696515299
unfolding fnv_hash fnv_loop
hash_read = refl

hash_any : fnv_hash any ≡ 16642968967524131789
unfolding fnv_hash fnv_loop
hash_any = refl

no_collision : fnv_hash (txt "action:read") ≡ fnv_hash any → txt "action:read" ≡ any
no_collision e = absurd (omega (arith, e, hash_read, hash_any))

NoCollision-read_file : NoCollision read_file
unfolding normalize_action has_prefix
NoCollision-read_file = no_collision

abbrev loaded : Tenants
loaded = (update_tenant_policies [] (txt "acme") two_policies one_edge).0

no_error : (update_tenant_policies [] (txt "acme") two_policies one_edge).1 ≡ none
unfolding update_tenant_policies build_tenant_trie add_all add_inheritance text_eq has_cycle
    search_cycles visit_roots keys add_edge new_trie_root new_role_dag and_then dfs close_node
    visit_all neighbors paint roles
no_error = refl

loads : update_tenant_policies [] (txt "acme") two_policies one_edge ≡ (loaded, none)
loads = ap (λ (e : Option UpdateError). (loaded, e)) no_error

published_decides_example :
    (g : RoleDag) × (add_all new_role_dag one_edge ≡ added g)
    × IsValid g
    × (g.adj ≡ edges_of [] one_edge)
    × ((engine_check_permission bare false loaded (txt "acme") read_file).decision ≡ allow ↔ (
        HasEffective bare (base_trie (txt "acme") 0 g) two_policies read_file permit
        × (¬ HasEffective bare (base_trie (txt "acme") 0 g) two_policies read_file forbid)))
published_decides_example =
    published_decides bare [] loaded (txt "acme") two_policies one_edge read_file loads
      NoCollision-read_file

allow_iff_example :
    (evaluate_permission bare (index (new_trie_root (txt "acme")) two_policies) read_file).decision
      ≡ allow
    ↔ (HasEffective bare (new_trie_root (txt "acme")) two_policies read_file permit
        × (¬ HasEffective bare (new_trie_root (txt "acme")) two_policies read_file forbid))
allow_iff_example =
    allow_iff bare (new_trie_root (txt "acme")) two_policies read_file
      (new_trie_root-IsEmpty (txt "acme")) NoCollision-read_file

evaluate_permission-IsJustified_example :
    IsJustified bare
      (context_of (index (new_trie_root (txt "acme")) two_policies) read_file)
      (matched_policies (index (new_trie_root (txt "acme")) two_policies) read_file)
      (evaluate_permission bare (index (new_trie_root (txt "acme")) two_policies) read_file)
evaluate_permission-IsJustified_example =
    evaluate_permission-IsJustified bare (index (new_trie_root (txt "acme")) two_policies) read_file

In-lookup_policies_example :
    In (reading permit (scope_of (txt "role") (txt "staff"))) (
      lookup_policies
        (index (new_trie_root (txt "acme")) two_policies)
        (txt "role:manager" ∷ txt "role:staff" ∷ [])
        (txt "file:1" ∷ [])
        (txt "action:read"))
    ↔ (In (reading permit (scope_of (txt "role") (txt "staff"))) two_policies
        × IsReached
            (txt "role:manager" ∷ txt "role:staff" ∷ [])
            (txt "file:1" ∷ [])
            (txt "action:read")
            (reading permit (scope_of (txt "role") (txt "staff"))))
In-lookup_policies_example =
    In-lookup_policies (new_trie_root (txt "acme")) two_policies
      (txt "role:manager" ∷ txt "role:staff" ∷ []) (txt "file:1" ∷ []) (txt "action:read")
      (reading permit (scope_of (txt "role") (txt "staff"))) (new_trie_root-IsEmpty (txt "acme"))
      no_collision

-- A permit for reading, for any principal and any resource.
abbrev reading_for_all : PolicyNode
reading_for_all = record (reading permit none) { resource = none }

wildcard_principal : is_any reading_for_all.principal ≡ true
unfolding is_any
wildcard_principal = refl

scope_action_ignored_example :
    (evaluate_permission bare
        (index (new_trie_root (txt "acme")) (reading_for_all ∷ []))
        read_file).decision
      ≡ allow
    ↔ ((evaluate_permission bare
          (index
            (new_trie_root (txt "acme"))
            (record reading_for_all { action = scope_of (txt "action") (txt "write") } ∷ []))
          read_file).decision
        ≡ allow)
scope_action_ignored_example =
    scope_action_ignored bare (new_trie_root (txt "acme")) [] read_file reading_for_all
      (scope_of (txt "action") (txt "read")) (scope_of (txt "action") (txt "write"))
      (new_trie_root-IsEmpty (txt "acme")) NoCollision-read_file wildcard_principal
      wildcard_principal
