-- ===== src/Lib.antt =====
-- Powerbrain: the policy-guarded knowledge server (mcp-server/) and the chat proxy in front of the
-- language models (pb-proxy/).
--
-- This library models the parts of the Python program that decide who may do what: the limits, the
-- tokens, the gates.
--
-- - RateLimit (mcp-server/server.py, TokenBucket, _get_bucket, RateLimitMiddleware): the state
--   is the table of buckets and the sweep counter. The clock is in microseconds; a token is 60
--   million units, so a rate of n tokens a minute is exactly n units a microsecond. Rounding of
--   floats is not modelled.
--
-- - OAuth (mcp-server/oauth_provider.py): the provider's dicts and its two tables; each method
--   is a function of the state, with the clock, the random texts, the verifier and the
--   database's availability as arguments.
--
-- - Opa (shared/opa_client.py, and check_opa_policy, filter_by_policy, check_opa_vault_access
--   and check_opa_summarization_policy of mcp-server/server.py): the policy engine is an
--   argument, a function from a path and an input to what the HTTP client brings back. The TTL
--   cache of cachetools is a record of its operations with its law as a field.
--
-- - Oversight (mcp-server/server.py, the circuit breaker, the approval queue, the head of
--   _dispatch): the state is the cached breaker and the tables. It takes the replies of the
--   engine from Opa. What a tool does after the gates is not modelled; a call that comes there
--   is `through`.
--
-- - Redact (mcp-server/server.py, redact_fields, _mask_walk, _redact_metadata_pii,
--   _entity_type_in_redact_set, validate_pii_access_token): a text that is cut and joined is the
--   list of its code points.
--
-- - Health (mcp-server/server.py, _check_... and _build_risk_health_payload): the severities;
--   the circuit breaker's comes from Oversight.
--
-- - Tools (pb-proxy/tool_injection.py): the state of a ToolInjector and its methods. The session
--   with an MCP server and the environment's variables are arguments.
--
-- - Pii (pb-proxy/pii_middleware.py): the services /pseudonymize and /vault/resolve are
--   arguments, functions from a text to the answer or to an exception.
--
-- - AgentLoop (pb-proxy/agent_loop.py): the loop is a recursion on the iterations that are left,
--   which max_iterations bounds, so no other fuel is needed. It takes the routing from Tools and
--   the pseudonyms from Pii; the model and the tools are fields of the setup.
--
-- - PiiVerify (shared/pii_verify_provider.py): the verifier that goes over the hits of the
--   scanner, with the reader of the model's answer; what the model answers, json.loads and int
--   are arguments.
--
-- - Store: the collections and the tables that ingestion, the vault's resolution and deletion
--   share. The columns that no modelled code reads are left out; scores of quality are numbers
--   in a unit of their own.
--
-- - Ingest (ingestion/ingestion_api.py): chunk_text (Ingest/Chunks), the loop of
--   ingest_text_chunks over the chunks (Ingest), the embeddings with shared/embedding_cache.py
--   and embed_batch of shared/llm_provider.py (Ingest/Embedding), the points (Ingest/Points),
--   the quality gate and the whole of ingest_text_chunks (Ingest/Publish). The scanner of
--   ingestion/pii_scanner.py, the score of ingestion/quality.py, which are a library's work and
--   floats, the language model, the clock, random salts and ids are arguments. The loop of
--   chunk_text runs on the length of the text plus one as fuel, which is enough while the
--   overlap is below the size of the chunks; the source calls it with 200 and 1000.
--
-- - VaultResolve (mcp-server/server.py, vault_resolve_pseudonyms): it takes the policy from Opa,
--   the redacted types from Redact, the replacement from Pii and the tables from Store. The hash
--   and the order of the rows are arguments.
--
-- - ProxyAuth (pb-proxy/auth.py, pb-proxy/middleware.py): the verifier with its cache, and the
--   middleware over it. The key table is an argument.
--
-- - Erase (mcp-server/server.py, delete_documents): it works on the Store that Ingest writes.
--
-- - Search (mcp-server/server.py, search_knowledge up to the reranked results,
--   shared/rerank_provider.py and reranker/service.py): it takes the policy from Opa; the vector
--   store, the models' scores and the bonus of _apply_heuristic_boosts are arguments.
--
-- Not modelled: the other tools of the knowledge server, the HTTP endpoints, the chat formats, the
-- adapters, the synchronization, the graph and the worker; ingestion/quality.py and
-- _apply_heuristic_boosts, which compute with floats; the vault and the summary of
-- search_knowledge.
--
-- Python's dict is an association list in insertion order (Base/Dict). `strip` and `lower` know
-- the ASCII characters only (Base/Text). The checks that `gather` runs at once are run one after
-- the other (Opa/Filter). Logging, metrics and tracing are left out: they change no state that the
-- program reads.
pub mod Base
pub mod RateLimit
pub mod OAuth
pub mod Opa
pub mod Oversight
pub mod Redact
pub mod Health
pub mod Tools
pub mod Pii
pub mod AgentLoop
pub mod PiiVerify
pub mod Store
pub mod Ingest
pub mod VaultResolve
pub mod ProxyAuth
pub mod Erase
pub mod Search
