-- ===== src/Lib.antt =====
-- coreason_adlc_api: the server and the client of an API that governs the life cycle of agents.
--
-- The parts of the program and how they interact
--   A request reaches a router with the identity of its user. The workbench router
--   (src/coreason_adlc_api/routers/workbench.py) asks auth/identity.py which projects the groups of
--   the user open, and calls workbench/service.py, which reads and writes the table
--   workbench.agent_drafts, with the lock of workbench/locking.py on each draft. The vault router
--   (routers/vault.py) stores the API keys of a project, which vault/service.py encrypts with
--   vault/crypto.py. A request for inference passes the budget of middleware/budget.py, kept in Redis;
--   then middleware/proxy.py reads the key of the project from the vault and calls the model through
--   the breaker of its provider (middleware/circuit_breaker.py). routers/interceptor.py puts these
--   together for POST /chat/completions: it estimates the cost, asks the budget, calls the model, has
--   middleware/pii.py scrub the texts, and hands them to middleware/telemetry.py, which pushes them
--   to a list in Redis. telemetry/worker.py moves them from there to a table. The scrubber also serves
--   POST /validate of the workbench. The client (client.py, client_auth.py) logs in over
--   routers/auth.py, which passes the device flow on to the OIDC provider, sends requests to the
--   server and turns its answers into exceptions.
--
-- Which file models which part (paths of sources from src/coreason_adlc_api/)
--   Prelude, Json, Outcome    numbers, lists and texts; JSON values; results, exceptions, the monad
--                             of a coroutine, in which a raise keeps the state that it finds
--   Breaker                   middleware/circuit_breaker.py: a record of the fields of
--                             AsyncCircuitBreaker, one function for each method
--     Window, Trace, Recovery   the pruned deque; sequences of steps; the half-open trial
--   Identity                  auth/identity.py (map_groups_to_projects) and auth/schemas.py
--     Token, Admission          get_oidc_config and parse_and_validate_token; who is admitted
--   Identity.Upsert           upsert_user of auth/identity.py
--   Identity.DeviceFlow       routers/auth.py
--     Polling, Users            the flow from the provider to the client; the table of users
--   Workbench.Schemas, Table  workbench/schemas.py; the rows of agent_drafts with the statements on
--                             them (the columns are those of the baseline migration under alembic/)
--   Workbench.Locking         workbench/locking.py, whose functions keep their names; Steps, Access
--                             and Lease are the lemmas on them
--   Workbench.Service         workbench/service.py, whose functions keep their names; Effects, Reads,
--                             Workflow, Updates, Listing and Creation are the lemmas on them
--   Workbench.Router          routers/workbench.py, one function for each handler; Requests is a
--                             request as data and a sequence of them
--   Budget                    middleware/budget.py: the Lua script, check_budget_guardrail and
--                             check_budget_status; Interface is Redis; Bounds and Accounts
--   Vault                     vault/crypto.py (load_key, encrypt_secret, decrypt_secret)
--   Vault.Service             vault/service.py and routers/vault.py; Rows and Storage
--   Proxy                     middleware/proxy.py: execute_inference as the two steps around its
--                             await, the choice of provider and key, the estimate of a cost
--     Registry, Keys            requests that interleave; the way of a key from the vault
--   Pii                       middleware/pii.py: scrub_pii_payload, with the splices of _scrub_sync
--     Splice, Redaction, Text   the splices against a description from left to right
--   Pii.Walk                  scrub_pii_recursive, with its containers as cells at addresses
--     Redact, Memory, Visit, Rounds, Recursion   the walk against a recursive redaction
--     Compare, Clean            `!=` of the result with its source, and what it tells
--   Workbench.Validation      POST /validate of routers/workbench.py
--   Telemetry                 middleware/telemetry.py; Interface is JSON, UUIDs, asyncpg
--   Telemetry.Worker          telemetry/worker.py, one step for each thing that happens to the loop;
--                             Delivery and Arrival are the lemmas on it
--   Interceptor               routers/schemas.py and the texts that routers/interceptor.py reads
--   Interceptor.Handler       chat_completions; Order and Audit are the theorems on it, Texts the
--                             lemmas on the texts
--   Client, Client.Errors     exceptions.py and _handle_response of client.py
--   Client.Promotion, Signing   request, the hook on it, promote_draft, validate_draft and
--                             get_model_config_schema of client.py
--   Client.Auth, Login, Token   client_auth.py: login as a loop, get_token
--   Samples, Scenarios, Trials (below the parts)   concrete data and runs
--
-- How code becomes definitions
--   A coroutine that changes a table is a function from the table to a result and a table. A SQL
--   statement, a Redis script and a transaction that holds its row are one step each; what happens
--   between two steps of different requests is a sequence of steps. Every reading of the clock, and
--   every random value, is an argument. Times are whole microseconds (ticks for the breaker),
--   amounts whole 10⁻¹² dollars, both numbers without a bound: Python's integers have none, and the
--   rounding of floats is left out.
--   UUIDs are numbers. The texts of error details are constructors with the values in them.
--
-- What is a parameter
--   Redis is a record of the four commands that the script uses, with what their documentation says
--   of them (Budget.Interface). AES-GCM, base64, hexadecimal and UTF-8 are a record of operations
--   with their round trips (Vault.Codecs). The conversion of JSON for a column of the database is the
--   Codec of Workbench.Service. What litellm says of a model, and how its completion ends, are
--   arguments. The analyzer of Presidio is a function from a text to its results or an error; the
--   engine is one value, since the singleton of PIIAnalyzer keeps it. The validation of a response by
--   pydantic is a function. What json does with the entries of the telemetry, and which values asyncpg
--   takes for a timestamp, is Telemetry.Interface.
--   The HTTP library of the client, the keyring and the decoding of
--   tokens are functions or values that the definitions take.
--
-- Fuel
--   The polling loop of a login runs on fuel; Client.Login proves how much of it is enough. So does
--   the `while` of scrub_pii_recursive; Pii.Recursion proves that as much as there are containers in
--   the value (Pii.Redact.size) is enough. The loop of the telemetry worker has no end of its own and
--   runs along a list of events.
--
-- What is not modelled
--   Lost connections and violated constraints of the database, but for the insert of a secret, the
--   upsert of a user and the insert of the telemetry, where the code handles them. Logging and
--   printing. The static documents of
--   routers/models.py and routers/system.py. What the requests to the OIDC provider hold. In
--   middleware/pii.py a value is a tree: one that holds the same list twice is scrubbed as two, and
--   one that holds itself, with which the code would not end, is left out. Start-up,
--   settings and connection pools are calls into libraries.
pub mod Prelude
pub mod Json
pub mod Outcome
pub mod Breaker
pub mod Identity
pub mod Workbench
pub mod Budget
pub mod Client
pub mod Proxy
pub mod Pii
pub mod Telemetry
pub mod Interceptor
pub mod Vault
