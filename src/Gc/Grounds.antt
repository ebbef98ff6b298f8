-- ===== src/Gc/Grounds.antt =====
-- What stands behind an answer of EngineWithGC that allows a request.
use standalone_policy_engine.Base.{◌≡◌, some}
use standalone_policy_engine.Base.Text.{Text}
use standalone_policy_engine.Platform.{Platform}
use standalone_policy_engine.Dag.{find_entry}
use standalone_policy_engine.Trie.{TrieRoot}
use standalone_policy_engine.Decision.{DecisionResult, Request, evaluate_permission}
use standalone_policy_engine.Gc.{EngineWithGc, with_revision}

-- The answer comes from a trie of the tenant that is loaded now, and carries its revision.
abbrev pub IsGrounded : Platform → Text → Request → EngineWithGc × DecisionResult → Type 0
IsGrounded lib t r (e, d) =
    (trie : TrieRoot) × (find_entry e.tenants t ≡ some trie)
    × (d ≡ with_revision trie (evaluate_permission lib trie r))
