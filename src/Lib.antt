-- ===== src/Lib.antt =====
-- RideFlow: a model of the ride-hailing backend under backend/app.
--
-- The program. Passengers ask for rides, drivers are found near the pickup, and a ride goes from
-- status to status until it is completed or cancelled. A request runs in a database session that
-- is committed when its handler returns and rolled back when it raises (database.py). The rides
-- router (routers/rides.py) creates rides, shows them and moves them; it goes through the state
-- machine (services/ride_state_machine.py) for each move, through the matching service
-- (services/matching.py) to find and reserve a driver in Redis, and through the idempotency
-- service (services/idempotency.py) for repeated creations. Each move leaves an event in the
-- outbox table in the same transaction. Requests first pass the rate limiter (rate_limit.py),
-- and most carry an access token, from which dependencies.py takes their user; the auth router
-- (routers/auth.py) gives the tokens out. The outbox worker (workers/outbox_worker.py) publishes
-- the events on a Redis channel for each ride, from which the websocket gateway
-- (routers/websocket.py) forwards them to the clients that follow the ride. The tables are made by
-- the migration under backend/alembic.
--
-- The files.
--   Models: backend/app/models.py, with its enums, the transition graph and one record for each
--     table; Schemas: backend/app/schemas.py, with the checks of
--     the fields in Schemas.Validation; Config: backend/app/config.py.
--   Sql and Redis: interfaces. What SQLAlchemy with PostgreSQL and what Redis do is not in the
--     repository, so each is a record of operations with their documented effects as laws, which
--     every definition takes as an instance argument.
--   Database: get_db of backend/app/database.py as `with_session`; the exceptions; the monad of
--     handlers, in which a raised exception is a value and what was written before it stays
--     written until the session rolls back. What Redis was told is never rolled back.
--   StateMachine: `assert_valid_transition` and `apply_transition` under their own names. Graph is
--     about the courses that the graph allows, Apply about the branches of one transition, Sessions
--     and Conflicts about interleaved requests, Logged about the outbox.
--   Matching: the functions of services/matching.py under their own names. Holders is about one
--     command, Reserve about sequences of them, Search about `find_and_reserve_driver`.
--   Fare: `_haversine_km` and `_estimate_fare`; Idempotency: the functions of
--     services/idempotency.py.
--   Rides: `create_ride`, `get_ride`, `list_my_rides`, and in Rides.Transition `transition_ride`,
--     each also as it is served in its session (`serve_create`, `serve_transition`). The children
--     are about what these requests answer and leave behind. Book is the service as its users see
--     it, Refines to Service lead from one transition to sequences of requests against it, Caught
--     and Answers are about errors, Outcomes and Moves about a move that goes through, Typed about
--     the places of the rides.
--   Security: backend/app/security.py, over the JWT library, the password library and SHA-256 as
--     interfaces. Dependencies: `get_current_user` and `require_roles` of
--     backend/app/dependencies.py. Request: what a request draws from outside.
--   Auth: the handlers of backend/app/routers/auth.py. Rotation is about one refresh, Spent
--     and Sequences about refresh tokens over sequences of requests, Access about registration, login
--     and access tokens, Arrival about the first requests of a user, Roles about the role of one.
--   RateLimit: `RateLimitMiddleware.dispatch` of backend/app/rate_limit.py. Counter is about the
--     counter of a window, Window about the requests of one.
--   Drivers: the handlers of backend/app/routers/drivers.py. Pool is about what they do to the pool
--     of the matching, Unlocated about a driver without a location. Saved and Stored are about the
--     table as well, Profiles, Agreement and Runs about the pool against the profiles.
--   Tasks: the periodic jobs of backend/app/workers/tasks.py; Sweeps is about what they leave, Pool
--     about the pool of the matching over sequences of requests and sweeps, Found about what a
--     search finds after them.
--   OutboxWorker: `process_batch` of backend/app/workers/outbox_worker.py, with the messages that it
--     sent as a list; Forever has the loop of `run_forever`. Batch is about the events of a batch,
--     Delivery about a round, Due and Drained about the events that are left, Rows and Accounted
--     about what was marked and sent.
--   Websocket: `ride_updates` of backend/app/routers/websocket.py. Connection is about one
--     connection, Deliveries about the worker and a connection together.
--   App: backend/app/main.py and backend/app/routers/health.py; App.Answers is about
--     the answers to a transition.
--   Migration: backend/alembic/versions/0001_initial_schema.py, its calls as data and its tables in
--     Migration.Tables. Apply is about the upgrade.
--   Tests: instances of the interfaces, test data, runs, and the theorems on the data.
--
-- How the state is modelled. The session's view of the database, the strings of Redis and its set
-- of positions form a `World`, which a handler takes and gives back. An interleaving of requests is
-- a sequence of committed reads and transitions on one database (`Steps`). Identifiers and times are
-- natural numbers, texts are strings, and a double is the number of its bits. A version is a
-- natural number and the expected version of a client an integer. A request draws the time and
-- its new identifiers from `Env`. No definition needs fuel: every loop goes over a list. The two
-- endless loops, of the worker and of a connection, go over a list of what they meet, of any
-- length. A connection and a migration are the calls that they make.
--
-- Not modelled. Logging, the texts of error messages, the paths of the routes and the CORS
-- headers, foreign keys while the program runs, the isolation levels of PostgreSQL, a command
-- between the GET and the DEL of a release, and the parts of the program that only configure a
-- library: logging_config.py, redis_client.py, workers/celery_app.py with the Celery wrappers of the
-- tasks, and backend/alembic/env.py. The calls of the database and of Redis do not raise: an
-- identifier in a path is a UUID, a version and a text fit their columns, and a point is one that
-- Redis takes, up to 85.05112878 degrees of latitude, and gives back as it was stored, where Redis
-- rounds it to its grid.
pub mod Prelude
pub mod Models
pub mod Schemas
pub mod Config
pub mod Sql
pub mod Redis
pub mod Database
pub mod StateMachine
pub mod Matching
pub mod RateLimit
pub mod Fare
pub mod Idempotency
pub mod Request
pub mod Security
pub mod Dependencies
pub mod Rides
pub mod Auth
pub mod Drivers
pub mod Tasks
pub mod OutboxWorker
pub mod Migration
pub mod Websocket
pub mod App
pub mod Tests
