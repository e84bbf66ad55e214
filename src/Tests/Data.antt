-- ===== src/Tests/Data.antt =====
-- The data of the tests: two passengers, a driver, three rides, and Redis with two drivers near.
use ride_flow.Prelude.{
  ◌+◌, Bool, [], ◌∷◌, Option, none, some, true, arith, ◌≡◌, refl, String, pos, nat_eqb,
  if◌then◌else◌,
}
use ride_flow.Models.{
  UserRole, passenger, driver, RideStatus, requested, matching, accepted, Uuid, User, Ride,
}
use ride_flow.Schemas.{RideCreateRequest, RideTransitionRequest}
use ride_flow.Redis.{Entry, Key}
use ride_flow.Database.{Db, World, constraints}
use ride_flow.StateMachine.Update.{IsKeyedDb}
use ride_flow.StateMachine.Logged.{Logged}
use ride_flow.Fare.{Floats}
use ride_flow.Idempotency.{Hashing}
use ride_flow.Request.{Env}
use ride_flow.Tests.Tables.{list_sql}
use ride_flow.Tests.Strings.{map_redis}

-- Operations on doubles that keep their first argument.
instance abbrev pub first_floats : Floats
first_floats = record {
  add = λ x y. x;
  sub = λ x y. x;
  mul = λ x y. x;
  div = λ x y. x;
  square = λ x. x;
  radians = λ x. x;
  sin = λ x. x;
  cos = λ x. x;
  asin = λ x. x;
  sqrt = λ x. x;
  round_cents = λ x. x;
}

-- A print of a body that tells apart pickups at latitude 0 and others.
instance abbrev pub short_hashing : Hashing
short_hashing = record {
  dumps = λ payload. if nat_eqb payload.pickup_lat 0 then "zero" else "other";
  sha256_hex = λ text. text;
}

abbrev user_of : Uuid → String → UserRole → User
user_of id email role = record {
  id = id;
  email = email;
  hashed_password = "";
  full_name = "";
  role = role;
  is_active = Bool.true;
  created_at = 0;
}

abbrev pub alice : User
alice = user_of 1 "alice" passenger

abbrev pub bob : User
bob = user_of 2 "bob" passenger

abbrev pub dan : User
dan = user_of 5 "dan" driver

abbrev ride_with : Uuid → RideStatus → Option Uuid → Ride
ride_with id status driver_id = record {
  id = id;
  passenger_id = 1;
  driver_id = driver_id;
  status = status;
  version = 1;
  pickup_lat = 0;
  pickup_lng = 0;
  dropoff_lat = 0;
  dropoff_lng = 0;
  fare_estimate = none;
  idempotency_key = none;
  created_at = id;
  updated_at = id;
}

abbrev pub new_one : Ride
new_one = ride_with 10 requested none

abbrev pub searched : Ride
searched = ride_with 11 matching none

abbrev pub taken : Ride
taken = ride_with 12 accepted (some 6)

abbrev pub db : Db
db = record {
  users = alice ∷ bob ∷ dan ∷ [];
  refresh_tokens = [];
  driver_profiles = [];
  rides = new_one ∷ searched ∷ taken ∷ [];
  outbox_events = [];
  idempotency_records = [];
}

abbrev pub no_strings : Key → Option Entry
no_strings k = none

-- Driver 5 is nearest, then driver 6.
abbrev pub world : World
world = record { db = db; strings = no_strings; geo = (5, 0, 0) ∷ (6, 0, 0) ∷ [] }

abbrev pub env : Env
env = record { now = 100; uuid = λ n. 50 + n; random = λ n. "r1" }

abbrev pub later_env : Env
later_env = record { now = 200; uuid = λ n. 60 + n; random = λ n. "r2" }

abbrev pub body : RideCreateRequest
body = record { pickup_lat = 0; pickup_lng = 0; dropoff_lat = 1; dropoff_lng = 1 }

abbrev pub other_body : RideCreateRequest
other_body = record { pickup_lat = 7; pickup_lng = 0; dropoff_lat = 1; dropoff_lng = 1 }

-- A request for a status, by a client that has read version 1.
abbrev pub move_to : RideStatus → RideTransitionRequest
move_to target = record { target_status = target; expected_version = pos 1 }

pub unique_rides : IsKeyedDb db
unique_rides = (refl, (refl, (refl, tt)))

pub in_order : constraints db ≡ true
unfolding constraints
in_order = refl

pub data-Logged : Logged db
data-Logged = record { keyed = unique_rides; counted = λ j. ground arith }
