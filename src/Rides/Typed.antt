-- ===== src/Rides/Typed.antt =====
-- The places of the rides, from the bodies of the requests to the table.
use ride_flow.Prelude.{
  nat_eqb, List, [], ◌∷◌, Option, none, some, String, All, ◌≡◌, subst, Bool-cases, inl, inr,
  Option-cases, some_inj,
}
use ride_flow.Models.{Uuid, User, Ride}
use ride_flow.Schemas.Validation.{
  Pydantic, RideCreateBody, RideTransitionBody, validate_ride_create, validate_ride_transition,
}
use ride_flow.Schemas.Ranges.{AreInRange, validate_ride_create-AreInRange}
use ride_flow.Config.{Settings}
use ride_flow.Sql.{Sql}
use ride_flow.Redis.{Redis}
use ride_flow.Database.{World}
use ride_flow.StateMachine.Update.{IsKeyedDb}
use ride_flow.Request.{Env}
use ride_flow.Fare.{Floats}
use ride_flow.Idempotency.{Hashing}
use ride_flow.Rides.Book.{Book, put, SameTrip, Entry, asks, moves, Entries, no_entry, entry}
use ride_flow.Rides.Refines.{book, Reached}
use ride_flow.Rides.Service.{
  RideRequest, create_request, transition_request, serve_rides, IsFresh, Supplies,
  serve_rides-Reached,
}

-- A request as it arrives.
pub data BodyRequest : Type 0 where
  post_ride :
      (env : Env) (body : RideCreateBody) (idempotency_key : Option String) (user : User)
      → BodyRequest
  post_transition :
      (env : Env) (ride_id : Uuid) (body : RideTransitionBody) (user : User) → BodyRequest

module _ ⦃pydantic : Pydantic⦄ where
  -- The request that reaches a handler, if its body passes. One that does not is answered with 422.
  abbrev pub admitted : BodyRequest → Option RideRequest
  admitted (post_ride env body idempotency_key user) = elim (validate_ride_create body) [
    | none ↦ none
    | some payload ↦ some (create_request env payload idempotency_key user)
  ]
  admitted (post_transition env ride_id body user) = elim (validate_ride_transition body) [
    | none ↦ none
    | some payload ↦ some (transition_request env ride_id payload user)
  ]

  abbrev pub all_admitted : List BodyRequest → List RideRequest
  all_admitted [] = []
  all_admitted (b ∷ bs) = elim (admitted b) [
    | none ↦ all_admitted bs
    | some request ↦ request ∷ all_admitted bs
  ]

  abbrev pub IsOnGlobe : Ride → Type 0
  IsOnGlobe r = AreInRange r.pickup_lat r.pickup_lng r.dropoff_lat r.dropoff_lng

  -- Every ride of a book.
  abbrev pub AllOnGlobe : Book → Type 0
  AllOnGlobe b = (j : Uuid) (r : Ride) → b.rides j ≡ some r → IsOnGlobe r

  same_trip : (r r' : Ride) → SameTrip r r' → IsOnGlobe r → IsOnGlobe r'
  same_trip r r' same there = record {
    pickup = rw (same.pickup.0, same.pickup.1) there.pickup;
    dropoff = rw (same.dropoff.0, same.dropoff.1) there.dropoff;
  }

  put_one :
      (b : Book) (r : Ride)
      → IsOnGlobe r
      → AllOnGlobe b
      → (j : Uuid) (q : Ride) → put r b.rides j ≡ some q
      → IsOnGlobe q
  put_one b r there all j q found = elim (Bool-cases (nat_eqb j r.id)) [
    | inl hit ↦ subst IsOnGlobe (some_inj (rw hit at found)) there
    | inr miss ↦ all j q (rw miss at found)
  ]

  Entry-AllOnGlobe : {b c : Book} → Entry IsOnGlobe b c → AllOnGlobe b → AllOnGlobe c
  Entry-AllOnGlobe {b} (asks r there fresh status version driver) all = put_one b r there all
  Entry-AllOnGlobe {b} (moves r r' e found legal up driver same tells) all =
      put_one b r' (same_trip r r' same (all r.id r found)) all

  Entries-AllOnGlobe : {b c : Book} → Entries IsOnGlobe b c → AllOnGlobe b → AllOnGlobe c
  Entries-AllOnGlobe no_entry all = all
  Entries-AllOnGlobe (entry es e) all = Entry-AllOnGlobe e (Entries-AllOnGlobe es all)

  module _ ⦃sql : Sql⦄ ⦃redis : Redis⦄ ⦃hashing : Hashing⦄ ⦃fl : Floats⦄ where
    admitted-Supplies :
        (b : BodyRequest) (rest : List RideRequest)
        → All (Supplies IsOnGlobe) rest
        → All
            (Supplies IsOnGlobe)
            (elim (admitted b) [ none ↦ rest | some request ↦ request ∷ rest ])
    admitted-Supplies (post_ride env body idempotency_key user) rest all =
        elim (Option-cases (validate_ride_create body)) [
          | inl bad ↦ rw bad all
          | inr (payload, good) ↦ rw good (validate_ride_create-AreInRange body good, all)
        ]
    admitted-Supplies (post_transition env ride_id body user) rest all =
        elim (Option-cases (validate_ride_transition body)) [
          | inl bad ↦ rw bad all
          | inr (payload, good) ↦ rw good (tt, all)
        ]

    all_admitted-Supplies : (bs : List BodyRequest) → All (Supplies IsOnGlobe) (all_admitted bs)
    all_admitted-Supplies [] = tt
    all_admitted-Supplies (b ∷ bs) =
        admitted-Supplies b (all_admitted bs) (all_admitted-Supplies bs)

    -- Every ride has its pickup and its dropoff on the globe, with latitudes from -90 to 90 and
    -- longitudes from -180 to 180, if this is so of the rides that are there: whatever bodies are
    -- sent to create and to move rides, those that are admitted leave it so. The identifiers that are
    -- drawn for rides are new, and `id` is the key of the rides.
    pub serve_rides-AllOnGlobe :
        (settings : Settings) (bodies : List BodyRequest) (w : World)
        → IsKeyedDb w.db
        → IsFresh settings (all_admitted bodies) w
        → AllOnGlobe (book w.db)
        → AllOnGlobe (book (serve_rides settings (all_admitted bodies) w).db)
    serve_rides-AllOnGlobe settings bodies w keyed fresh all =
        let start : Reached IsOnGlobe (book w.db) w.db = record {
          keyed = keyed;
          entries = no_entry;
        } in
        let reached =
          serve_rides-Reached settings IsOnGlobe (book w.db) (all_admitted bodies) w fresh
            (all_admitted-Supplies bodies) start in
        Entries-AllOnGlobe reached.entries all
