-- ===== src/Lib.antt =====
-- Verification of matrix-runtime, the local runtime that runs MCP servers and model jobs and serves an
-- HTTP API over them.
--
-- The program's parts and the files that model them. Names of definitions are those of the Go code, in
-- snake case; a Go file is named from the repository's root.
--
--   Config, Config/Env     internal/config: the modes, the configuration, and FromEnv, which reads it
--                          from a function of names to values (os.Getenv).
--   Logs/Ring, Logs/Bus    internal/logs: the buffer of the last log bytes, and the event bus of a job.
--                          A method of the bus is one step, since a mutex guards it, and returns none
--                          where Go panics on a closed channel.
--   Security/Limits, Security/Command, Security/Secrets
--                          internal/security: the limits on a job's time to live, the policy on command
--                          lines with its tokenizer, and the refusal of raw secrets.
--   Jobs/Job, Jobs/Registry, Jobs/Manager, Jobs/Manager/Steps, Jobs/Manager/Listing
--                          internal/jobs: a job with its status, session and bus; the registry with
--                          the links of sandboxes; the manager. Each goroutine of a job has a phase and
--                          a context, and what can happen next (a job created, a slot taken, a context
--                          done, an effect of a handler, its return, a cancellation, a timer, the
--                          janitor) is an action. `finish` is a sequence of actions: the session closed,
--                          the directories removed, the context read, the status set, the error set,
--                          the event emitted, the bus closed. Creation is one action, and so is the
--                          taking of a slot with the status that follows it. `perform` is one action,
--                          and `Reach` holds of every manager that a sequence of actions leads to, in any
--                          interleaving, from a new one.
--   Jobs/ModelAttach       internal/jobs/model_attach.go: the handler of model.attach as a function of a
--                          `World`, which says what its sleeps, its random numbers, the disk, the store
--                          and the hub do.
--   Mcp/Client             internal/mcp/stdio_client.go: the calls that wait for replies on the pipes of a
--                          server process, and the reader that hands the replies out. What runs under the
--                          lock is a step, and so is each operation on a channel; the reader sends into
--                          a channel and closes it in steps that follow the locked part of dispatch.
--   Cache                  internal/cache/paths.go and locks.go: the directory of a model and its lock.
--   Api/RateLimit, Api/AuthGate
--                          api/middleware_ratelimit.go and api/middleware_auth.go: the two middlewares
--                          in front of every handler.
--   Auth/Hex, Auth/Password
--                          internal/auth/password.go: PBKDF2 and the stored form of a hash.
--   Auth/Base64, Auth/SecretBox
--                          internal/auth/secret.go: the key of the box of secrets, wherever it comes from,
--                          and the encryption of a secret.
--   Store/Tables, Store/Sessions, Store/Resets
--                          internal/store: users, sessions, password resets and e-mail verifications,
--                          over tables as lists of rows. A statement of the database may fail at any
--                          point (`Faults`). An operation runs on tables that nothing else changes
--                          meanwhile; that of a reset is split into its reading and its writes.
--   Store/Signup           internal/store/store.go: Signup with its transaction and its unique slug.
--   Store/Credentials      internal/store/cloud.go: the encrypted secrets of model providers.
--   Store/Runtimes, Store/Usage
--                          internal/store/cloud.go and audit.go: the runtimes of a workspace with their
--                          heartbeats, metering, and the audit log.
--   Store/Models           internal/store/models.go: model profiles and their installations on runtimes.
--   Store/Cloud, Store/Slugs, Store/Sql
--                          internal/store/cloud.go and store.go: join tokens and their redemption, the
--                          names and slugs of workspaces, and the texts of the statements.
--   Hf, Hf/Metadata        internal/hf: references to models, and what is kept of the hub's answer.
--   Common                 Go's strings as lists of code points, the integers with strconv, maps as
--                          association lists, clean paths, sorted lists, and tests on numbers.
--   Tests                  the results at concrete inputs.
--
-- How they interact: the manager reads the configuration for its slots, limits and retention, asks
-- Security/Limits for a time to live, and publishes on the bus of each job; the authentication gate reads
-- the configuration and asks the store whether a token is that of a session; the store hashes and encrypts
-- with Auth; the handler of model.attach reports on the bus of its job and writes to Store/Models.
--
-- Parameters: the clock, the random source, the digest (SHA-256), the message code (HMAC), the cipher
-- (AES-GCM), strings.ToLower where it meets other than ASCII, json.Marshal and the environment are arguments
-- of the definitions that use them.
--
-- Bounds and fuel: Go's int is an unbounded integer (ℤ) but for strconv and the product of a time to live with
-- the nanoseconds of a second, which keep to 64 bits. Itoa recurses on the number itself, which
-- exceeds its count of digits. The search for a slug has a round for each workspace and one more, which is
-- enough since its candidates differ; the download of a model has eleven rounds, each of which adds nine or
-- more to a progress of six; `finish` has seven steps at most. No other definition needs fuel. The 50 readings
-- of a status in Cancel are a list that is given.
--
-- Not modelled: the processes behind MCP sessions and the other handlers, HTTP clients and routing, JSON, SQL
-- schemas beyond the keys that insertions check, and legacy/matrixhub-ai, a project of its own.
pub mod Common
pub mod Cache
pub mod Config
pub mod Logs
pub mod Mcp
pub mod Security
pub mod Store
pub mod Tests
pub mod Jobs
pub mod Api
pub mod Auth
pub mod Hf
