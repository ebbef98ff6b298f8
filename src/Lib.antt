-- ===== src/Lib.antt =====
-- The policy decision engine of this repository: policies are compiled to trees, indexed for each
-- tenant, and decide access requests over a role hierarchy and the attributes of the request.
--
-- Parts, and how they interact:
--   * Tokens.antt and Lexer.antt: the scanner of internal/parser/lexer.go, on the runes of a policy's
--     text. Lexer/Words, Lexer/Progress, Lexer/Braces and Lexer/Ends hold the proofs.
--   * Ast.antt: the policy tree, internal/parser/ast.go.
--   * Parser.antt, Expressions.antt and Statements.antt: the parser of internal/parser/parser.go and
--     parseObligation of obligation.go. Parser.antt is its state, nextToken and expectPeek over the
--     scanner's tokens; Expressions.antt the Pratt parser of conditions; Statements.antt parseScope,
--     parsePolicy and Parse. Expressions/Grammar describes the language of conditions apart from the
--     parser; Parser/Weight, Expressions/Fuel and Statements/Total hold what is left to read.
--   * PolicySet.antt: CompilePolicySet of internal/parser/policy_set.go, parser and compiler on the
--     sources of a tenant.
--   * Preparse.antt and Compiler.antt: Compile of internal/parser/compiler.go with the obligations of
--     obligation.go: depth limit, pre-parsing of literals, constant folding and attribute extraction.
--     Its policies are what the engine loads. Compiler/Folding, Compiler/Depth, Compiler/Attributes
--     and Compiler/Accepted hold the proofs.
--   * Dag.antt: RoleDAG of internal/engine/dag.go. Dag/Graph defines inheritance as paths. Dag/Coloring
--     and Dag/Cycles compare hasCycle with it, Dag/Coverage and Dag/Closure dfsCollect, Dag/Lookup
--     IsDescendant and GetInheritedRoles, and Dag/Add AddInheritance.
--   * Trie.antt: TrieRoot of internal/engine/trie.go, AddPolicy and LookupPoliciesInto over FNV-1a
--     hashes with their buckets. Trie/Leaves follows one leaf through the additions, Trie/Keys
--     the keys that a lookup tries, and Trie/Lookup compares its result with the policies' scopes.
--   * Literals.antt: parseFastTime and parseIPv4FastInto of internal/engine/evaluator.go.
--   * Evaluator.antt: GetAttribute, Evaluate and evaluateComparison of the same file.
--   * Decision.antt: evaluatePermission and CheckPermission of internal/engine/decision.go. They ask
--     the hierarchy for the subject's roles, the trie for the matching policies, and the evaluator for
--     each condition.
--   * Engine.antt: the tenants' state and its updates, internal/engine/engine.go and state_writer.go.
--   * Gc.antt: EngineWithGC of internal/engine/engine_gc.go with access records, lazy loading and the
--     collector's cycle. Gc/Agree compares it with Engine, and Gc/Grounds is on what it allows.
--   * Snapshots.antt: the local store of policy snapshots, internal/storage/badger.go, over the
--     database and the encoding that it uses, which are parameters. Snapshots/Saved has what these
--     promise, of texts in UTF-8 only, and Snapshots/Refined compares the store with a map.
--   * Sync.antt: internal/engine/sync.go, where events of the policy database and the periodic
--     reconciliation load a tenant's bundle, compile it as a set, publish it in the engine of Gc.antt
--     and save a snapshot of it. Sync/Outcomes, Sync/Histories and Sync/Catching hold the proofs.
--   * EdgeRestore.antt: RestoreEdgeSnapshots of internal/engine/edge_restore.go, which builds the
--     tenants of the local store again. EdgeRestore/Republished compares it with a synchronisation.
--   * Revocations.antt: the revocations of delegated grants, internal/security/delegation.go, beside the
--     engine: the server asks IsRevoked before it decides. Revocations/InForce follows a revocation over
--     the steps of other goroutines, Revocations/Merging compares the orders of arrival, and Revocations/Distant is on expiries beyond
--     the range of UnixNano.
--   * Approval.antt: the approval capabilities of internal/security/approval_capability.go, which the
--     server issues and verifies for purchase orders; Approval/Manager has the constructor and Issue,
--     the other files of Approval the proofs. Canonical.antt has their encoding,
--     internal/security/canonical_encoding.go, and Canonical/Prefixes that its fields can be read back.
--     HMAC, base64 and hexadecimal codes are a record of parameters there.
--   * Redaction.antt: internal/audit/redaction.go, what an audit record keeps of a request's context.
--     Redaction/Starts has its loops over a text, Redaction/Letters and Redaction/Spelled the spelling
--     of the keys.
--   * Platform.antt: functions of Go's standard library that have no source here, net.ParseIP,
--     net.ParseCIDR, time.Parse, strings.TrimSpace, unicode.IsLetter and fmt.Sscanf, as a record of
--     parameters. The few that are written out (strconv.ParseInt and ParseBool, net.IP.Equal, net.IPNet.Contains,
--     Time.UnixNano and text functions) follow their documentation.
--   * Base.antt: lists, tests, integers and texts; Base/Utf8 has Go's conversions between a string and
--     its runes. Examples.antt: concrete values.
--
-- Representation: a string is the list of its bytes, and the scanner reads the list of its runes; a time
-- of a revocation is an integer without bounds, and its UnixNano wraps around; a map is an association list with one entry for
-- a key, or a function where its order is never read; a nil pointer is `none` or a constructor of its
-- own; an error is a constructor; int64 is an integer of its range, and uint64 arithmetic keeps its
-- modulus. Atomic pointers and mutexes: a writer builds its trie first and then reads and replaces the
-- state under one lock, so each critical section is one step and readers see whole states. Iteration
-- over a Go map is in the order of the association list, and since the statements hold for all lists
-- they hold for all orders.
--
-- Fuel: the two depth-first searches of the hierarchy take one more than the number of names that
-- the map mentions: a call is made only for a name that is not yet visited, and it visits that name,
-- so the depth of the calls is at most the number of names. The parser's fuel is one
-- more than the number of runes of the text: every call of parseExpression inside another, every turn
-- of the loops over operators and obligations and every turn of Parse reads a token that is not the end
-- of the text, and such a token has at least one rune. All other functions recur on their arguments.
--
-- Not modelled: SimulateDecision, which shares nodes with the published trie; the tickers, the delays
-- and the start and stop of the goroutines of the collector and of the Syncer, whose steps are
-- modelled; the pools of buffers and contexts; positions in the policy tree and error texts; opening
-- and closing the local store; the SQL behind the interface policySyncStorage (internal/storage); and
-- the packages around the engine (the rest of internal/security and audit, server, config, metrics, pectl, pkg/pdp
-- and cmd), which are transport, storage, cryptography and settings. Generated code,
-- clients and deployments hold no engine logic.
mod Base
pub mod Ast
pub mod Platform
pub mod Dag
pub mod Trie
pub mod Literals
pub mod Evaluator
pub mod Decision
pub mod Engine
pub mod Gc
pub mod Preparse
pub mod Compiler
pub mod Tokens
pub mod Parser
pub mod Expressions
pub mod Statements
pub mod Lexer
mod Examples
pub mod PolicySet
pub mod Snapshots
pub mod EdgeRestore
pub mod Sync
pub mod Revocations
pub mod Canonical
pub mod Approval
pub mod Redaction
