-- ===== src/Lib.antt =====
-- The backend of claude-todo, a task manager that people use from a browser and AI agents use
-- over MCP. Its Python code lies in backend/app.
--
-- The files and the code that they are about:
-- - Prelude, Prelude/Tests, Prelude/Lists, Prelude/Dict, Prelude/Totals: names, Boolean tests, lists
--   and dictionaries as the other files use them.
-- - Tasks/Model: backend/app/models/task.py, the task document with `record_change`,
--   `transition_status` and `save_updated` (`touch` and the write).
-- - Tasks/Collection: the MongoDB collection of tasks. The database is no code of the repository,
--   so it is a record of `get`, `find` and `save` with what the services rely on: a query returns
--   the stored documents that it fits, each once, and a write stores its document or raises and
--   changes nothing. Tasks/Memory is a list of documents that fills the record, where writes to
--   chosen ids raise.
-- - Tasks/Graph: the relations that the theorems speak of, `blocks` and parents of live tasks.
-- - Tasks/Search: `has_cycle` of backend/app/services/task_links.py; Tasks/Parents:
--   `has_parent_cycle`; Tasks/Link: `link`, `unlink`, `list_dependents`, `cleanup_dependents`.
--   `link` calls `has_cycle` before it writes, and writes both tasks by `asyncio.gather`.
-- - Tasks/Approval: `cascade_approve_subtasks` of backend/app/services/task_approval.py.
-- - Terminal: backend/app/services/terminal_router.py, the sets of browser WebSockets of each
--   terminal session and the fan-out of an agent's output.
-- - Tools: `delete_task`, `link_tasks` and `unlink_tasks` of backend/app/mcp/tools/tasks.py, which
--   check the caller and call the services above. Tools/Status: the tools that complete, reopen,
--   archive and comment a task; their calls on linked error issues are notices. Tools/Update:
--   `update_task`, with the walk up the parents and the cascade of an approval. Tools/Bulk: the tools
--   that change several tasks at once. Tools/Create: `create_task`.
-- - Url: backend/app/lib/url_contract.py, `parse_url` and `build_url`; Url/Strings and Url/Stdlib are
--   the methods of `str` and the parts of `urllib.parse` that they use. Url/Digits says what an id is. The check of a host that is
--   not plain and the decoding of `%` escapes are parameters.
-- - Agents: the state of `LocalAgentTransport` in backend/app/services/agent_local_transport.py.
--   Agents/Calls: `send_request` as steps between its awaits, which any number of calls take in any
--   order with the other methods; Agents/Steps is the relation of these steps. Agents/Drain: `drain`
--   and `send_raw`, in whose waits such steps come. Agents/Bus:
--   backend/app/services/agent_bus.py, a request to an agent of another worker, and where
--   backend/app/services/agent_manager.py sends a request. Agents/Owners: the registry of
--   agent_bus.py, in which a worker claims the agents that connect to it; its Redis is a parameter.
-- - Oauth: backend/app/mcp/oauth, the tokens that AI agents get for an authorization code, refresh
--   and revoke (`_tokens.py`, with the keys of `_redis.py` and the codes of `_authorization.py`).
--   Redis with its lifetimes and the test for an active user are parameters.
-- - Session: the lock of an event stream in backend/app/mcp/session_state.py, which the workers
--   acquire, refresh and release in Redis. Session/Exclusive lets the single commands of the workers
--   come in any order, so that others stand between the GET of a refresh or a release and what
--   follows it. Session/Refresh is about the refresh loop. Session/State: the session's hash and
--   event stream.
-- - ErrorTracker/Envelope: backend/app/services/error_tracker/envelope.py, the parser of the bodies
--   that Sentry clients send, over lists of bytes; the package orjson is a parameter.
-- - ErrorTracker/RateLimit: backend/app/services/error_tracker/rate_limit.py, a counter for each
--   project and minute; Redis is a parameter, with its counters and failures.
-- - ErrorTracker/Lifecycle: backend/app/services/error_tracker/lifecycle.py.
--
-- A function that changes the database takes the store and returns it beside its result, and a
-- raised exception is a value `err`. The clock is an argument. The loops `while frontier`,
-- `while current is not None` and `while pending` run on fuel: the length of all `blocks` lists of
-- the project and two, the number of live tasks of the project and one, the number of live tasks
-- and two. The theorems on reachability show that it is enough: a search that ran out would answer
-- `None` where a walk exists.
--
-- The loop over the items of an envelope runs on the number of bytes behind the envelope's header,
-- and a theorem says that more rounds give the same.
--
-- A handler of tasks or tokens runs alone: between its reads and its writes no other request is
-- served. Ids are in the form that `str` prints. Not modelled: the search index and the event bus
-- behind Redis, log lines, the other endpoints and services of the backend, the Rust agents, and
-- the user interface.
pub mod Prelude
pub mod Agents
pub mod ErrorTracker
pub mod Oauth
pub mod Session
pub mod Tasks
pub mod Terminal
pub mod Tools
pub mod Url
