-- ===== src/Examples/Updates.antt =====
-- The results on updates and on the collector, at two tenants.
use standalone_policy_engine.Base.{some, ◌≡◌, ◌≢◌, ◌≤◌, refl, true, none, [], ◌∷◌, arith}
use standalone_policy_engine.Base.Text.{Text, txt, text_eq, text_eq_ne}
use standalone_policy_engine.Dag.{find_entry}
use standalone_policy_engine.Trie.{new_trie_root}
use standalone_policy_engine.Engine.{
  Tenants, update_tenant_policies, update_tenant_policies_with_revision, get_tenant_revision,
}
use standalone_policy_engine.Gc.{
  EngineWithGc, run_gc_cycle, gc_update_tenant_policies, gc_update_with_revision,
}
use standalone_policy_engine.Gc.Agree.{updates_agree}
use standalone_policy_engine.Engine.Updates.{update_isolated}
use standalone_policy_engine.Engine.Revisions.{
  IsRevised, start, publish, update_with_revision-IsRevised, revision_monotone,
}
use standalone_policy_engine.Gc.Collector.{IsIdle, run_gc_cycle_lem}
use standalone_policy_engine.Examples.{two_policies, one_edge}

abbrev acme : Text
acme = txt "acme"

abbrev globex : Text
globex = txt "globex"

acme-ne : acme ≢ globex
acme-ne = text_eq_ne acme globex (unfold text_eq in refl)

abbrev two_tenants : Tenants
two_tenants = (acme, new_trie_root acme) ∷ (globex, new_trie_root globex) ∷ []

update_isolated_example :
    (find_entry (update_tenant_policies two_tenants acme two_policies one_edge).0 globex
      ≡ find_entry two_tenants globex)
    × (find_entry
          (update_tenant_policies_with_revision two_tenants acme two_policies one_edge 7).0
          globex
        ≡ find_entry two_tenants globex)
update_isolated_example = update_isolated two_tenants acme globex two_policies one_edge 7 acme-ne

update_with_revision-IsRevised_example :
    IsRevised two_tenants acme two_policies one_edge 7
      (update_tenant_policies_with_revision two_tenants acme two_policies one_edge 7)
update_with_revision-IsRevised_example =
    update_with_revision-IsRevised two_tenants acme two_policies one_edge 7

abbrev after_seven : Tenants
after_seven = (update_tenant_policies_with_revision two_tenants acme two_policies one_edge 7).0

revision_monotone_example :
    get_tenant_revision two_tenants acme
    ≤ get_tenant_revision
        (update_tenant_policies_with_revision after_seven acme two_policies one_edge 5).0
        acme
revision_monotone_example = revision_monotone acme (
    publish acme two_policies one_edge 5 (omega arith)
      (publish acme two_policies one_edge 7 (omega arith) start))

-- acme was used at time 10 and globex at time 900.
abbrev used : EngineWithGc
used = record {
  tenants = two_tenants;
  access_records =
      (acme, record { last_access_nano = 10; policy_count = 2 })
      ∷ (globex, record { last_access_nano = 900; policy_count = 2 })
      ∷ [];
  gc_enabled = true;
  gc_interval = 100;
  max_idle_time = 500;
}

run_gc_cycle_lem_example :
    (IsIdle 1000 used acme → find_entry (run_gc_cycle 1000 used).tenants acme ≡ none)
    × ((¬ IsIdle 1000 used acme)
        → find_entry (run_gc_cycle 1000 used).tenants acme ≡ find_entry used.tenants acme)
run_gc_cycle_lem_example = run_gc_cycle_lem 1000 used acme

updates_agree_example :
    ((
      (gc_update_tenant_policies 1000 used acme two_policies one_edge).0.tenants,
      (gc_update_tenant_policies 1000 used acme two_policies one_edge).1,
    )
      ≡ update_tenant_policies two_tenants acme two_policies one_edge)
    × ((
      (gc_update_with_revision 1000 used acme two_policies one_edge 7).0.tenants,
      (gc_update_with_revision 1000 used acme two_policies one_edge 7).1,
    )
        ≡ update_tenant_policies_with_revision two_tenants acme two_policies one_edge 7)
updates_agree_example = updates_agree 1000 used acme two_policies one_edge 7

acme_loaded : find_entry two_tenants acme ≡ some (new_trie_root acme)
unfolding find_entry text_eq
acme_loaded = refl
