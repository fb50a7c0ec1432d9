-- ===== src/Lib.antt =====
-- The control plane of the platform: uploads, artifacts, organizations and their access rules, as
-- implemented in apps/api/src/platform_api.
--
-- How the program works, and which file models which part:
--   A request runs in one transaction (db/session.py). `Exec` is that transaction as a state-passing
--   monad: `World` holds what is durable, what is pending and the state of the object storage;
--   `check` is a query with its checks, `write` a flush, `commit` a commit, `call` a call of the
--   storage, and `serve` the commit or the rollback at the end. `Exec/Rules` carries predicates
--   through a run. `Errors` has the exceptions of common/errors.py.
--   `Db/Models` has a record for each table of db/models.py. The tables are lists in insertion order;
--   `find_by`, `select`, `replace_by`, `order_by` and `limit` of `Prelude` are the queries and
--   writes of SQLAlchemy.
--   `Common/Reliability` models common/reliability.py: idempotent commands, audit and outbox events.
--   `Common/Settings` has the limits of settings.py.
--   `Artifact` models modules/artifact/domain.py, completion.py and the port and the retries of
--   storage.py;
--   `Organization` models modules/organization/domain.py and api/organization_access.py; `Project`
--   models modules/project/domain.py.
--   `Upload` models api/upload_sessions.py, a file for each route (`Create`, `Read`, `Sign`, `Parts`,
--   `Complete` with `Publish`, `Cancel`) and one each for the validators (`Payloads`), the access
--   (`Authorize`) and the rows (`Rows`). Its contract is `Upload/Lifecycle`: a step relation on the
--   table of sessions, with the edges between the states, the admission within the limits, and the
--   reservation of each session. `Lifecycle/Routes` is about the routes' runs, `Requests` and
--   `Requests/Histories` about lists of requests.
--   `ArtifactRoutes` models api/artifacts.py: the pages (`Pages`), the download and the deletion of
--   artifacts, and the states of artifacts (`ArtifactRoutes/Lifecycle`) that the deletion and the
--   maintenance follow.
--   `OrganizationRoutes` models api/organizations.py: `Create`, `Invites`, `Accept` with the checks of
--   `Acceptable`, and `Members`; `Payloads` has the bodies and `Events` the rows and their events.
--   `Requests` is about lists of requests on organizations.
--   `ProjectRoutes` models api/projects.py: `Create`, `Pages` with `Cursors`, `Updates` with the
--   assignments of `Changes`, and `Members`; `Payloads` has the bodies, `Versions` the headers ETag and
--   If-Match, `Access` the guards, `Rows` the flush under the version column, and `Requests` is about
--   lists of requests on projects. A request on a project holds no lock: `commit_project` takes what
--   other requests commit between its query and its flush as a function on databases.
--   `Auth` models auth/bff.py: `Sessions` is the interface of the stores with its contract, `Memory` and
--   `Redis` the two stores, `Service` the login, the refresh and the logout over any store, as steps on
--   the identity provider and the store (`Run`); of auth/verifier.py it has only that every exception
--   of `verify` becomes AUTHENTICATION_REQUIRED.
--   `Maintenance` models modules/artifact/maintenance.py: the passes over sessions, artifacts,
--   missing objects and orphans.
--   `Tests` has sample data and the theorems at it.
--
-- Correspondence and bounds:
--   A UUID and a point in time (microseconds) are numbers. Python's integers are unbounded, so the
--   native ℕ has no wrap-around to write out; the two expressions that go below 0, the exponent of
--   `_backoff` before any attempt and the padding of a cursor, are written out. `safe_detail`, the text
--   of an error, is left out; an exception is its code and its status.
--   A query that reads a row and a later write of its columns are one row in the table: `flushed` is
--   the flush with the version column of SQLAlchemy.
--   All functions of the program are structural recursions. The client that follows the cursors of the
--   pages has fuel, one request more than there are projects.
--   Requests are answered one after the other, as the row locks order them. Two places take what other
--   requests do in between as a function on databases: the checkpoint of `complete_upload_session`,
--   where a handler releases its locks and goes on, and the commit of a project.
--   The storage, the digests of JSON, bytes and texts, `casefold`, `uuid5`, `int`, `PurePath`,
--   `quote`, `lower` of Python and of PostgreSQL, base64, JSON, ISO times and the random tokens are
--   parameters (`ObjectStoragePort`, `Libraries`, `CursorLibraries`, `Redis`, `Codec`, `Provider`,
--   `Context`). What a theorem assumes of them, that they read back what they have written, is among
--   its hypotheses (`ReadsBack`, `IsRedis`, `IsCodec`).
--
-- Not modelled: PostgreSQL's row-level security and `set_tenant_context` (common/tenancy.py), since
-- every modelled query names its organization; foreign keys; the HTTP layer, the checks of tokens, the
-- S3 gateway, the web frontend and the agent, which are I/O or other languages. The security scan of an
-- artifact that the design asks for is no part of the program.
pub mod Prelude
pub mod Errors
pub mod Artifact
pub mod Organization
pub mod Project
pub mod Db
pub mod Exec
pub mod Common
pub mod Upload
pub mod ArtifactRoutes
pub mod OrganizationRoutes
pub mod ProjectRoutes
pub mod Auth
pub mod Maintenance
pub mod Tests
