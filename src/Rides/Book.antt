-- ===== src/Rides/Book.antt =====
-- The service as its users see it: a book that has a ride under each identifier, and a log. It
-- knows nothing of tables, versions that a client sends, sessions or Redis.
use ride_flow.Prelude.{
  ◌+◌, true, false, nat_eqb, if◌then◌else◌, List, [], ◌∷◌, ◌++◌, Option, none, some, ◌≡◌, ◌⊎◌,
}
use ride_flow.Models.{requested, status_value, Uuid, Ride, OutboxEvent}
use ride_flow.StateMachine.{allowed}

pub record Book : Type 0 where
  pub rides : Uuid → Option Ride
  pub log : List OutboxEvent

abbrev pub put : Ride → (Uuid → Option Ride) → Uuid → Option Ride
put r rides j = if nat_eqb j r.id then some r else rides j

-- The same trip: what a transition never changes.
pub record SameTrip (r r' : Ride) : Type 0 where
  pub id : r'.id ≡ r.id
  pub passenger_id : r'.passenger_id ≡ r.passenger_id
  pub pickup : (r'.pickup_lat ≡ r.pickup_lat) × (r'.pickup_lng ≡ r.pickup_lng)
  pub dropoff : (r'.dropoff_lat ≡ r.dropoff_lat) × (r'.dropoff_lng ≡ r.dropoff_lng)
  pub fare_estimate : r'.fare_estimate ≡ r.fare_estimate
  pub idempotency_key : r'.idempotency_key ≡ r.idempotency_key
  pub created_at : r'.created_at ≡ r.created_at

-- The event says which ride has come from which status to which, for whom and with which driver,
-- and is still to be sent.
pub record Tells (r r' : Ride) (e : OutboxEvent) : Type 0 where
  pub about : e.aggregate_id ≡ r'.id
  pub previous_status : e.payload.previous_status ≡ status_value r.status
  pub new_status : e.payload.new_status ≡ status_value r'.status
  pub passenger_id : e.payload.passenger_id ≡ r'.passenger_id
  pub driver_id : e.payload.driver_id ≡ r'.driver_id
  pub to_send : e.published ≡ false

-- One entry, where some rides may be new.
pub data Entry (New : Ride → Type 0) (b : Book) : Book → Type 0 where
  -- a new ride, which nobody drives
  asks :
      (r : Ride)
      → New r
      → b.rides r.id ≡ none
      → r.status ≡ requested
      → r.version ≡ 1
      → r.driver_id ≡ none
      → Entry New b (record { rides = put r b.rides; log = b.log })
  -- a ride that goes on, with what is logged of it
  moves :
      (r r' : Ride) (e : OutboxEvent)
      → b.rides r.id ≡ some r
      → allowed r.status r'.status ≡ true
      → r'.version ≡ r.version + 1
      → (r'.driver_id ≡ r.driver_id) ⊎ ((d : Uuid) × (r'.driver_id ≡ some d))
      → SameTrip r r'
      → Tells r r' e
      → Entry New b (record { rides = put r' b.rides; log = b.log ++ (e ∷ []) })

pub data Entries (New : Ride → Type 0) (b : Book) : Book → Type 0 where
  no_entry : Entries New b b
  entry : {c d : Book} → Entries New b c → Entry New c d → Entries New b d
