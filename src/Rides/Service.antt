-- ===== src/Rides/Service.antt =====
-- The rides router under any sequence of requests.
use ride_flow.Prelude.{List, [], ◌∷◌, Option, none, String, All, ◌≡◌, refl}
use ride_flow.Models.{Uuid, User, Ride}
use ride_flow.Schemas.{RideTransitionRequest, RideCreateRequest}
use ride_flow.Config.{Settings}
use ride_flow.Sql.{Sql}
use ride_flow.Redis.{Redis}
use ride_flow.Database.{World}
use ride_flow.StateMachine.Update.{ride_of, IsKeyedDb}
use ride_flow.Request.{Env}
use ride_flow.Fare.{Floats}
use ride_flow.Idempotency.{Hashing}
use ride_flow.Rides.{serve_create}
use ride_flow.Rides.Create.{created}
use ride_flow.Rides.Transition.{serve_transition}
use ride_flow.Rides.Book.{Book, Entries, no_entry}
use ride_flow.Rides.Refines.{book, Reached}
use ride_flow.Rides.Refined.{serve_create-Reached, serve_transition-Reached}

-- A request that writes, with what it draws from its surroundings.
pub data RideRequest : Type 0 where
  create_request :
      (env : Env) (payload : RideCreateRequest) (idempotency_key : Option String) (user : User)
      → RideRequest
  transition_request :
      (env : Env) (ride_id : Uuid) (payload : RideTransitionRequest) (user : User) → RideRequest

module _ ⦃sql : Sql⦄ ⦃hashing : Hashing⦄ ⦃fl : Floats⦄ where
  -- What the rides are that a request may create.
  abbrev pub Supplies : (Ride → Type 0) → RideRequest → Type 0
  Supplies New (create_request env payload idempotency_key user) =
      New (created env payload idempotency_key user)
  Supplies New (transition_request env ride_id payload user) = Unit {0}

  -- The row that some request asks for.
  abbrev pub IsAsked : Ride → Type 0
  IsAsked r =
      (env : Env) × (payload : RideCreateRequest) × (idempotency_key : Option String)
      × (user : User) × (r ≡ created env payload idempotency_key user)

module _ ⦃sql : Sql⦄ ⦃redis : Redis⦄ ⦃hashing : Hashing⦄ ⦃fl : Floats⦄ (settings : Settings) where
  unfoldable pub serve_ride : RideRequest → World → World
  serve_ride (create_request env payload idempotency_key user) w =
      (serve_create env payload idempotency_key user w).1
  serve_ride (transition_request env ride_id payload user) w =
      (serve_transition settings env ride_id payload user w).1

  unfoldable pub serve_rides : List RideRequest → World → World
  serve_rides [] w = w
  serve_rides (request ∷ requests) w = serve_rides requests (serve_ride request w)

  abbrev pub DrawsFresh : RideRequest → World → Type 0
  DrawsFresh (create_request env payload idempotency_key user) w = ride_of w.db (env.uuid 0) ≡ none
  DrawsFresh (transition_request env ride_id payload user) w = Unit {0}

  -- Each identifier that is drawn for a new ride is new when it is drawn.
  abbrev pub IsFresh : List RideRequest → World → Type 0
  IsFresh [] w = Unit {0}
  IsFresh (request ∷ requests) w = DrawsFresh request w × IsFresh requests (serve_ride request w)

  module _ (New : Ride → Type 0) (start : Book) where
    serve_ride-Reached :
        (request : RideRequest) (w : World)
        → DrawsFresh request w
        → Supplies New request
        → Reached New start w.db
        → Reached New start (serve_ride request w).db
    unfolding serve_ride
    serve_ride-Reached (create_request env payload idempotency_key user) w fresh asked reached =
        serve_create-Reached New start env payload idempotency_key user asked w fresh reached
    serve_ride-Reached (transition_request env ride_id payload user) w fresh asked reached =
        serve_transition-Reached New start settings env ride_id payload user w reached

    pub serve_rides-Reached :
        (requests : List RideRequest) (w : World)
        → IsFresh requests w
        → All (Supplies New) requests
        → Reached New start w.db
        → Reached New start (serve_rides requests w).db
    unfolding serve_rides
    serve_rides-Reached [] w fresh asked reached = reached
    serve_rides-Reached (request ∷ requests) w fresh asked reached =
        serve_rides-Reached requests (serve_ride request w) fresh.1 asked.1
          (serve_ride-Reached request w fresh.0 asked.0 reached)

  All-IsAsked : (requests : List RideRequest) → All (Supplies IsAsked) requests
  All-IsAsked [] = tt
  All-IsAsked (create_request env payload idempotency_key user ∷ requests) =
      ((env, payload, idempotency_key, user, refl), All-IsAsked requests)
  All-IsAsked (transition_request env ride_id payload user ∷ requests) = (tt, All-IsAsked requests)

  -- The rides router refines the book. From a database in which `id` is the key of the rides, any
  -- sequence of requests to create and to move rides, whoever sends them, however each of them ends
  -- and whatever Redis answers, has changed the rides and the outbox by a sequence of entries of
  -- the book: a ride that a request asks for under a new identifier, or one ride moved along the
  -- graph to the next version with one event that tells of it. The identifiers that are drawn for
  -- rides are new.
  pub serve_rides-refines :
      (requests : List RideRequest) (w : World)
      → IsKeyedDb w.db
      → IsFresh requests w
      → Entries IsAsked (book w.db) (book (serve_rides requests w).db)
  serve_rides-refines requests w keyed fresh =
      let reached : Reached IsAsked (book w.db) w.db = record {
        keyed = keyed;
        entries = no_entry;
      } in
      (serve_rides-Reached IsAsked (book w.db) requests w fresh (All-IsAsked requests)
        reached).entries
