-- ===== src/Lib.antt =====
-- A verification library for the application: its background jobs, cache, data access, sessions,
-- authentication, access control, files, listings and idempotent requests.
--
-- The program is a FastAPI service. Routes call services that are assembled once
-- (app/services/registry.py). Every service reads and writes through `DataService`, which uses a
-- database behind `DatabaseInterface` and a cache behind `CacheInterface`; middleware wraps the
-- routes, and workers run the jobs that services enqueue. Each file models one of these parts:
--
-- - Base: names that the others share, Boolean tests, lists, and texts with dictionaries.
-- - Store: a collection of the database, as the test suite's in-memory database implements it
--   (tests/conftest.py, `FakeDatabase`): a list of records. Store/Keys is about unique keys.
-- - Cache/Memory: the in-process cache (app/cache/memory.py). Cache/Service: `CacheService`
--   (app/services/cache.py), over any backend, a record of operations each of which returns or
--   raises; Cache/Rate, Cache/Contents and Cache/Circuit have their theorems.
-- - Data: `DataService` (app/services/data/data_service.py) with its cache policies; Data/History
--   compares runs of it with the database alone.
-- - Sessions: session records (app/services/data/sessions_ops.py, app/services/auth/sessions.py).
-- - Users: user records (app/services/data/users_ops.py).
-- - Auth: `AuthService` (app/services/auth/service.py), signing in and the lockout; Auth/Refresh
--   has the rotation of refresh tokens. SignIn: the second step, passkeys and the opened session.
--   Accounts: password change and reset, account state. Registration: new users, the password
--   policy (app/services/auth/users.py, app/services/password_service.py) and the first
--   administrator (app/services/auth/bootstrap.py).
-- - Mfa: authenticator and recovery codes (app/services/auth/mfa.py, app/services/auth/totp.py).
--   Passkeys: their ceremonies (app/services/auth/passkeys.py). ApiTokens: personal access tokens
--   (app/services/auth/api_tokens.py). Tokens: signed tokens (app/services/auth/tokens.py).
-- - Access: `RBACService` (app/services/rbac.py) and temporary grants
--   (app/services/data/temp_permissions_ops.py); Access/Roles has the inheritance of roles.
-- - Files: file records and stored bytes (app/services/data/files_ops.py,
--   app/services/file/streams.py, app/services/file/storage/local.py); Files/Service: `FileService`
--   (app/services/file/file_service.py).
-- - Paging: cursors (app/services/data/cursor.py), with a client that follows them (Paging/Following)
--   while records come in (Paging/Arrivals); Paging/Listings: the listings of audit events
--   and jobs (app/services/audit.py, app/services/jobs.py).
-- - Jobs: `JobService` (app/services/jobs.py): enqueuing, a worker's pass, retries.
-- - Middleware/Idempotency: the `Idempotency-Key` middleware (app/api/middleware/idempotency.py).
-- - Middleware/RateLimit: the rate limiter (app/api/middleware/rate_limiter.py) and the caller's
--   address (app/utils/utils.py, `client_ip`).
-- - Middleware/BodyLimit: the limit on a request's body (app/api/middleware/body_limit.py), with the
--   error handler inside it (app/api/middleware/error_handler.py).
--   Middleware/Csrf: the origin check (app/api/middleware/csrf.py).
-- - Uploads: chunked uploads (app/services/file/chunked_upload.py).
--
-- How code corresponds to definitions. A function keeps its name; an object's state is a record that
-- is passed in and returned. A call that awaits another service is a call of that model. An
-- exception is a value of the result (`none`, or a constructor that names it). Where another request
-- may come in between, the part of the function after that point is a definition of its own
-- (`Auth.attempt`, `Accounts.consume`, `Jobs.Model.claim`), so that it can be run with a copy read
-- earlier. Each reading of a clock is an argument, and so is each random choice. A moment is a
-- number of ticks; an identifier, a hash or a name that is only compared is a number, and a text is a
-- list of code points where the code takes it apart or makes it part of a cache key. A filter is a
-- test on records and an update a function on them. Python's integers are unbounded, so no
-- arithmetic wraps.
--
-- Parameters are what libraries do: password hashing (Argon2), signing and decoding tokens (JWT),
-- WebAuthn verification, HMAC codes, SHA-256, MD5 cache keys, the encoding of a cursor (base64,
-- JSON), and the application behind the middleware. So are the password policy where an
-- account's password is changed, and the program that edits a file.
--
-- Every loop is a recursion on the list or number it runs through, but for two. The inheritance of
-- roles recurs on fuel, one more than the number of defined roles: each step down defines a role not
-- on the path, so it is enough, and the theorem on it says so. A client that follows cursors, which
-- is not part of the program, is given a number of requests, and the theorem says which is enough.
-- The polling loop of the workers is not modelled; one pass is.
--
-- Not modelled: routes, models and settings; the MongoDB, PostgreSQL, Redis and S3 backends, which
-- call drivers; OAuth; thumbnails, spreadsheets and the content types of files; webhooks, mail, logs
-- and telemetry. The normalization of older user records and of datetimes in cached JSON does not
-- arise for typed records. The database does not
-- fail in these models; the cache may. One cache serves all collections in the code, and one per
-- collection here: their keys begin with different prefixes or are digests that name the collection.
pub mod Base
pub mod Store
pub mod Jobs
pub mod Cache
pub mod Middleware
pub mod Data
pub mod Sessions
pub mod Users
pub mod Auth
pub mod Files
pub mod Paging
pub mod Passkeys
pub mod ApiTokens
pub mod Tokens
pub mod SignIn
pub mod Registration
pub mod Mfa
pub mod Access
pub mod Accounts
pub mod Uploads
