-- ===== src/Rides.antt =====
-- backend/app/routers/rides.py: the handlers of the rides, and the role guard of
-- backend/app/dependencies.py that `create_ride` depends on.
pub mod Transition
pub mod Outbox
pub mod Refusals
pub mod Outcomes
pub mod Moves
pub mod Match
pub mod Create
pub mod Insert
pub mod Account
pub mod Listing
pub mod Acceptance
pub mod Replay
pub mod Book
pub mod Refines
pub mod Refined
pub mod Service
pub mod Typed
pub mod Caught
pub mod Answers
use ride_flow.Prelude.{
  ℕ, Bool, not, ◌&&◌, ◌||◌, ◌==◌, nat_eq, string_eq, option_eq, nat_eqb, if◌then◌else◌, List, [],
  ◌∷◌, Option, none, some, String, any, leb,
}
use ride_flow.Models.{
  UserRole, passenger, driver, role_eq, role_eqb, requested, status_eq, Uuid, DateTime, User, Ride,
  RideOut, IdempotencyRecord,
}
use ride_flow.Schemas.{RideCreateRequest, ride_out}
use ride_flow.Sql.{Sql}
use ride_flow.Redis.{Redis}
use ride_flow.Database.{
  World, Result, with_session, on_db, Db, Action, ok, http_exception, ◌>>=◌, ◌>>◌, pure, raise_if,
  or_raise, modify,
}
use ride_flow.StateMachine.{refresh}
use ride_flow.Fare.{Floats, estimate_fare}
use ride_flow.Request.{Env}
use ride_flow.Dependencies.{require_roles}
use ride_flow.Idempotency.{Hashing, fingerprint, get_cached_response, store_response}

abbrev pub idempotency_scope_create : String
idempotency_scope_create = "create_ride"

-- `if idempotency_key:`, which None and the empty text fail.
abbrev pub given_key : Option String → Option String
given_key none = none
given_key (some k) = if k == "" then none else some k

module _ ⦃sql : Sql⦄ ⦃hashing : Hashing⦄ ⦃fl : Floats⦄ where
  -- The stored response under the key of the request, if there is one.
  unfoldable pub cached_for : Option String → Action Db (Option IdempotencyRecord)
  cached_for none = pure none
  cached_for (some key) = get_cached_response key idempotency_scope_create

  -- The replay of a stored response, or the refusal to.
  unfoldable pub replay : RideCreateRequest → IdempotencyRecord → Action Db RideOut
  replay payload cached = do
    raise_if (not (cached.request_fingerprint == fingerprint payload)) (http_exception 409)
    pure cached.response_body

  -- The row of a new ride, with the defaults of the columns.
  abbrev pub new_ride : Env → RideCreateRequest → Option String → User → Ride
  new_ride env payload idempotency_key user = record {
    id = env.uuid 0;
    passenger_id = user.id;
    driver_id = none;
    status = requested;
    version = 1;
    pickup_lat = payload.pickup_lat;
    pickup_lng = payload.pickup_lng;
    dropoff_lat = payload.dropoff_lat;
    dropoff_lng = payload.dropoff_lng;
    fare_estimate = some (
        estimate_fare payload.pickup_lat payload.pickup_lng payload.dropoff_lat
          payload.dropoff_lng);
    idempotency_key = idempotency_key;
    created_at = env.now;
    updated_at = env.now;
  }

  unfoldable pub store_if_given :
      Env → Option String → RideCreateRequest → RideOut → Action Db (Unit {0})
  store_if_given env none payload out = pure tt
  store_if_given env (some key) payload out =
      store_response env.now (env.uuid 1) key idempotency_scope_create payload 201 out

  unfoldable pub insert_ride : Env → RideCreateRequest → Option String → User → Action Db RideOut
  insert_ride env payload idempotency_key user = do
    modify λ db. record db { rides = sql.add (new_ride env payload idempotency_key user) db.rides }
    ride ← refresh (env.uuid 0)
    store_if_given env (given_key idempotency_key) payload (ride_out ride)
    pure (ride_out ride)

  unfoldable pub replay_or_insert :
      Env → RideCreateRequest → Option String → User → Option IdempotencyRecord → Action Db RideOut
  replay_or_insert env payload idempotency_key user (some cached) = replay payload cached
  replay_or_insert env payload idempotency_key user none =
      insert_ride env payload idempotency_key user

  -- `create_ride`, behind its role guard.
  unfoldable pub create_ride : Env → RideCreateRequest → Option String → User → Action Db RideOut
  create_ride env payload idempotency_key current_user = do
    user ← require_roles (passenger ∷ []) current_user
    cached ← cached_for (given_key idempotency_key)
    replay_or_insert env payload idempotency_key user cached

  -- The request as it is served: the handler in its session.
  unfoldable pub serve_create :
      ⦃redis : Redis⦄
      → Env
      → RideCreateRequest
      → Option String
      → User
      → World
      → Result RideOut × World
  serve_create env payload idempotency_key current_user =
      with_session (on_db (create_ride env payload idempotency_key current_user))

-- The two tests of `get_ride`.
abbrev pub not_your_ride : User → Ride → Bool
not_your_ride user ride =
    user.role == passenger && not (ride.passenger_id == user.id)
    || user.role == driver && not (ride.driver_id == none || ride.driver_id == some user.id)

abbrev pub newest_first : Ride → Ride → Bool
newest_first a b = leb b.created_at a.created_at

module _ ⦃sql : Sql⦄ where
  abbrev pub get_or_404 : Uuid → Action Db Ride
  get_or_404 ride_id db =
      or_raise (sql.get (λ (r : Ride). nat_eqb r.id ride_id) db.rides) (http_exception 404) db

  unfoldable pub get_ride : Uuid → User → Action Db Ride
  get_ride ride_id user = do
    ride ← get_or_404 ride_id
    raise_if (not_your_ride user ride) (http_exception 403)
    pure ride

  -- `order_by(Ride.created_at.desc())`
  unfoldable pub list_my_rides : User → Action Db (List Ride)
  list_my_rides user db =
      let rides =
        if user.role == driver
        then sql.order_by newest_first (λ r. r.driver_id == some user.id) db.rides
        else sql.order_by newest_first (λ r. r.passenger_id == user.id) db.rides in
      (ok rides, db)
