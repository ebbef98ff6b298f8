-- ===== src/Examples/Syncing.antt =====
-- The results on rulesets, snapshots, synchronisation and restore, at one tenant with one policy.
use standalone_policy_engine.Base.{
  ◌<◌, ◌≤◌, none, some, List, [], ◌∷◌, In, map, inl, inr, ◌≡◌, ◌↔◌, refl, false, arith,
}
use standalone_policy_engine.Lexer.{
  peek_char, arrive, read_char, new_lexer, read_while, skip_whitespace, is_letter, text_between,
  read_identifier, read_string, read_groups, read_mask, read_number_or_ip, start_of, count_brace,
  read_other, token_at, next_token,
}
use standalone_policy_engine.Tokens.{lookup_ident}
use standalone_policy_engine.Parser.{advance, new_parser, expect_peek}
use standalone_policy_engine.Expressions.{
  parse_number, parse_ip, parse_variable, parse_negation, parse_group, parse_prefix, parse_infix,
  infix_loop, parse_expression,
}
use standalone_policy_engine.Statements.{
  parse_entity_id, parse_scope_value, parse_scope, parse_message, parse_obligation,
  parse_obligations, parse_braces, parse_condition, parse_next_scope, parse_body, parse_policy,
  parse_loop, parse,
}
use standalone_policy_engine.Compiler.{
  validate_policy_obligations, check_obligations, compile, compile_condition,
}
use standalone_policy_engine.Trie.{TrieRoot, new_trie_root}
use standalone_policy_engine.Base.Utf8.{
  is_utf8, valid_from, of_runes, encode_rune, runes_of, runes_from, decode_rune, first_byte,
  following,
}
use standalone_policy_engine.Base.Text.{Text, txt, text_eq}
use standalone_policy_engine.Ast.{PolicyNode}
use standalone_policy_engine.Dag.{find_entry, member}
use standalone_policy_engine.Engine.{
  get_tenant_revision, add_all, build_tenant_trie, revision_is_stale, revision_is_duplicate,
  state_with_tenant, state_without_tenant, Build, built, failed,
}
use standalone_policy_engine.Gc.{
  EngineWithGc, gc_update_with_revision, touch_tenant, touch_records, stamp,
}
use standalone_policy_engine.PolicySet.{
  PolicySource, SetResult, ok, error, compile_policy_set, compile_source,
}
use standalone_policy_engine.PolicySet.Atomic.{AreCompiled, compile_policy_set_iff}
use standalone_policy_engine.Snapshots.{
  PolicySnapshot, policy_snapshot_key, save_policy_snapshot, validate_policy_snapshot,
  sources_are_valid,
}
use standalone_policy_engine.Snapshots.Saved.{HasUtf8}
use standalone_policy_engine.Sync.{
  TenantPolicyBundle, PolicySyncStorage, Syncer, snapshot_of, new_syncer, sync_tenant_with_revision,
  handle_event, reconcile_loaded_tenants, listening, save_edge_snapshot, PolicyUpdateEvent,
}
use standalone_policy_engine.Sync.Histories.{
  IsNumbered, Steps, start, event, listens, sync_monotone,
}
use standalone_policy_engine.Sync.Catching.{IsServed, reconcile_catches_up}
use standalone_policy_engine.EdgeRestore.{restore_edge_snapshots}
use standalone_policy_engine.EdgeRestore.Installed.{IsInstalled, restore_edge-IsInstalled}
use standalone_policy_engine.EdgeRestore.Republished.{IsDurable, sync_tenant-IsDurable}
use standalone_policy_engine.Examples.Shelf.{
  Shelf, shelf, plain, shelf-IsDatabase, plain-IsEncoding,
}
use standalone_policy_engine.Examples.{bare}

abbrev acme : Text
acme = txt "acme"

abbrev sources : List PolicySource
sources =
    record { id = txt "p1"; text = txt "permit(principal == any, action == any, resource == any);" }
    ∷ []

abbrev policies_of : SetResult (List PolicyNode) → List PolicyNode
policies_of (ok ps) = ps
policies_of (error e) = []

abbrev compiled_policies : List PolicyNode
compiled_policies = policies_of (compile_policy_set bare sources)

compile_policy_set_iff_example :
    (compile_policy_set bare sources ≡ ok compiled_policies)
    ↔ AreCompiled bare sources compiled_policies
compile_policy_set_iff_example = compile_policy_set_iff bare sources compiled_policies

abbrev snapshot : PolicySnapshot
snapshot = record {
  format_version = 1;
  tenant_id = acme;
  policies = sources;
  inheritances = [];
  revision = 2;
  snapshot_at = 5;
}

snapshot-HasUtf8 : HasUtf8 snapshot
unfolding is_utf8 valid_from decode_rune first_byte following
snapshot-HasUtf8 = record {
  tenant = refl;
  sources = λ p m. elim m [ inl e ↦ rw e (refl, refl) | inr x ↦ absurd x ];
  edges = λ e m. absurd m;
}

abbrev bundle : TenantPolicyBundle
bundle = record { policies = sources; inheritances = []; revision = 2 }

abbrev storage : PolicySyncStorage
storage = record { tenant_revision = λ t. some 2; tenant_policy_bundle = λ t. some bundle }

storage-IsNumbered : IsNumbered storage
storage-IsNumbered t b e = let q : bundle ≡ b = cc in rw (← q) (omega arith)

abbrev empty_engine : EngineWithGc
empty_engine = record {
  tenants = [];
  access_records = [];
  gc_enabled = false;
  gc_interval = 1;
  max_idle_time = 1;
}

abbrev edge_syncer : Syncer Shelf
edge_syncer = record (new_syncer empty_engine) { badger_store = some [] }

abbrev notice : PolicyUpdateEvent
notice = record { tenant_id = acme; revision = 2 }

abbrev notified : Syncer Shelf
notified = handle_event bare shelf plain 5 storage notice (listening edge_syncer)

two-Steps : Steps bare shelf plain edge_syncer notified
two-Steps = event 5 storage notice storage-IsNumbered (listens start)

sync_monotone_example :
    get_tenant_revision edge_syncer.engine.tenants acme
    ≤ get_tenant_revision notified.engine.tenants acme
sync_monotone_example = sync_monotone bare shelf plain edge_syncer notified acme two-Steps

low_revision : get_tenant_revision edge_syncer.engine.tenants acme < 2
unfolding get_tenant_revision find_entry
low_revision = omega arith

published_and_saved :
    (sync_tenant_with_revision bare shelf plain 5 storage edge_syncer acme 2).1 ≡ none
unfolding sync_tenant_with_revision save_edge_snapshot gc_update_with_revision build_tenant_trie
    add_all revision_is_stale revision_is_duplicate touch_tenant touch_records stamp
    state_with_tenant state_without_tenant get_tenant_revision find_entry save_policy_snapshot
    validate_policy_snapshot sources_are_valid member compile_policy_set compile_source peek_char
    arrive read_char new_lexer read_while skip_whitespace is_letter text_between read_identifier
    read_string read_groups read_mask read_number_or_ip start_of count_brace read_other token_at
    next_token lookup_ident advance new_parser expect_peek parse_number parse_ip parse_variable
    parse_negation parse_group parse_prefix parse_infix infix_loop parse_expression parse_entity_id
    parse_scope_value parse_scope parse_message parse_obligation parse_obligations parse_braces
    parse_condition parse_next_scope parse_body parse_policy parse_loop parse
    validate_policy_obligations check_obligations compile compile_condition text_eq of_runes
    encode_rune runes_of runes_from decode_rune first_byte following
published_and_saved = refl

bundle-HasUtf8 :
    (b : TenantPolicyBundle)
    → storage.tenant_policy_bundle acme ≡ some b
    → HasUtf8 (snapshot_of 5 acme b)
bundle-HasUtf8 b e =
    let q : bundle ≡ b = cc in
    rw (← q) (record {
      tenant = snapshot-HasUtf8.tenant;
      sources = snapshot-HasUtf8.sources;
      edges = snapshot-HasUtf8.edges;
    })

sync_tenant-IsDurable_example :
    IsDurable bare shelf plain
      (sync_tenant_with_revision bare shelf plain 5 storage edge_syncer acme 2).0
      acme
sync_tenant-IsDurable_example =
    sync_tenant-IsDurable bare shelf plain shelf-IsDatabase plain-IsEncoding 5 storage edge_syncer
      [] acme 2 bundle-HasUtf8 refl low_revision published_and_saved

restore_edge-IsInstalled_example :
    IsInstalled bare shelf plain ((policy_snapshot_key acme, snapshot) ∷ []) empty_engine (
      restore_edge_snapshots bare shelf plain 5 [] empty_engine
        ((policy_snapshot_key acme, snapshot) ∷ []))
restore_edge-IsInstalled_example =
    restore_edge-IsInstalled bare shelf plain 5 [] empty_engine
      ((policy_snapshot_key acme, snapshot) ∷ [])

abbrev loaded_engine : EngineWithGc
loaded_engine = record empty_engine { tenants = (acme, new_trie_root acme) ∷ [] }

abbrev server : Syncer Shelf
server = new_syncer loaded_engine

compiles : compile_policy_set bare sources ≡ ok compiled_policies
unfolding compile_policy_set compile_source peek_char arrive read_char new_lexer read_while
    skip_whitespace is_letter text_between read_identifier read_string read_groups read_mask
    read_number_or_ip start_of count_brace read_other token_at next_token lookup_ident advance
    new_parser expect_peek parse_number parse_ip parse_variable parse_negation parse_group
    parse_prefix parse_infix infix_loop parse_expression parse_entity_id parse_scope_value
    parse_scope parse_message parse_obligation parse_obligations parse_braces parse_condition
    parse_next_scope parse_body parse_policy parse_loop parse validate_policy_obligations
    check_obligations compile compile_condition text_eq of_runes encode_rune runes_of runes_from
    decode_rune first_byte following
compiles = refl

abbrev trie_of : Build → TrieRoot
trie_of (built t) = t
trie_of (failed d) = new_trie_root []

acme_builds :
    build_tenant_trie acme compiled_policies [] 2
    ≡ built (trie_of (build_tenant_trie acme compiled_policies [] 2))
unfolding build_tenant_trie add_all
acme_builds = refl

acme-IsServed : IsServed bare storage acme 2
acme-IsServed = record {
  bundle = bundle;
  policies = compiled_policies;
  trie = trie_of (build_tenant_trie acme compiled_policies [] 2);
  answers_revision = refl;
  answers_bundle = refl;
  same_revision = refl;
  compiles = compiles;
  builds = acme_builds;
}

server-IsServed :
    (t : Text) → In t (map (λ e. e.0) server.engine.tenants) → IsServed bare storage t 2
server-IsServed t (inl e) = rw e acme-IsServed
server-IsServed t (inr x) = absurd x

server-below :
    (t : Text)
    → In t (map (λ e. e.0) server.engine.tenants)
    → get_tenant_revision server.engine.tenants t ≤ 2
unfolding get_tenant_revision find_entry text_eq new_trie_root
server-below t (inl e) = rw e (omega arith)
server-below t (inr x) = absurd x

reconcile_catches_up_example :
    ((t : Text)
      → In t (map (λ e. e.0) server.engine.tenants)
      → get_tenant_revision
          (reconcile_loaded_tenants bare shelf plain 5 storage server).engine.tenants
          t
        ≡ 2)
    × ((reconcile_loaded_tenants bare shelf plain 5 storage server).status ≡ server.status)
reconcile_catches_up_example =
    reconcile_catches_up bare shelf plain 5 storage (λ t. 2) server refl server-IsServed
      server-below
