-- ===== src/Examples/Grounds.antt =====
-- The result on answers that allow, at a tenant with one permit for everything.
use standalone_policy_engine.Base.{true, none, [], ◌∷◌}
use standalone_policy_engine.Base.Text.{txt}
use standalone_policy_engine.Ast.{PolicyNode, permit, absent}
use standalone_policy_engine.Trie.{TrieRoot}
use standalone_policy_engine.Gc.{EngineWithGc}
use standalone_policy_engine.Examples.{reading}

abbrev for_all : PolicyNode
for_all = record (reading permit none) { resource = none; condition = absent }

abbrev open_trie : TrieRoot
open_trie = record {
  tenant_id = txt "acme";
  revision = 3;
  required_attributes = [];
  subjects = λ h. [];
  global_policies = for_all ∷ [];
  role_dag = record { adj = []; transitive_closure = []; inherited_roles = [] };
}

abbrev serving : EngineWithGc
serving = record {
  tenants = (txt "acme", open_trie) ∷ [];
  access_records = [];
  gc_enabled = true;
  gc_interval = 100;
  max_idle_time = 500;
}
