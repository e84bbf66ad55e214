-- ===== src/Schemas.antt =====
-- backend/app/schemas.py: the bodies of the requests that the modelled handlers read, and the
-- columns that the responses show.
pub mod Validation
pub mod Ranges
use ride_flow.Prelude.{Bool, ℤ, String, Option}
use ride_flow.Models.{
  Uuid, DateTime, UserRole, RideStatus, Float, Ride, RideOut, User, DriverProfile,
}

pub record RegisterRequest : Type 0 where
  pub email : String
  pub password : String
  pub full_name : String
  pub role : UserRole

pub record LoginRequest : Type 0 where
  pub email : String
  pub password : String

-- `token_type` is always "bearer". The access token is of the type that the JWT library gives.
pub record TokenResponse (Token : Type 0) : Type 0 where
  pub access_token : Token
  pub refresh_token : String

pub record RefreshRequest : Type 0 where
  pub refresh_token : String

pub record HeartbeatRequest : Type 0 where
  pub lat : Float
  pub lng : Float

pub record AvailabilityRequest : Type 0 where
  pub is_available : Bool

pub record RideCreateRequest : Type 0 where
  pub pickup_lat : Float
  pub pickup_lng : Float
  pub dropoff_lat : Float
  pub dropoff_lng : Float

pub record RideTransitionRequest : Type 0 where
  pub target_status : RideStatus
  pub expected_version : ℤ

-- `RideOut.model_validate(ride)`
abbrev pub ride_out : Ride → RideOut
ride_out ride = record {
  id = ride.id;
  passenger_id = ride.passenger_id;
  driver_id = ride.driver_id;
  status = ride.status;
  version = ride.version;
  pickup_lat = ride.pickup_lat;
  pickup_lng = ride.pickup_lng;
  dropoff_lat = ride.dropoff_lat;
  dropoff_lng = ride.dropoff_lng;
  fare_estimate = ride.fare_estimate;
  created_at = ride.created_at;
  updated_at = ride.updated_at;
}

pub record UserOut : Type 0 where
  pub id : Uuid
  pub email : String
  pub full_name : String
  pub role : UserRole
  pub is_active : Bool
  pub created_at : DateTime

-- The user of a response, which leaves the hash of the password out.
abbrev pub user_out : User → UserOut
user_out user = record {
  id = user.id;
  email = user.email;
  full_name = user.full_name;
  role = user.role;
  is_active = user.is_active;
  created_at = user.created_at;
}

pub record DriverOut : Type 0 where
  pub id : Uuid
  pub is_available : Bool
  pub last_lat : Option Float
  pub last_lng : Option Float
  pub rating : Float

abbrev pub driver_out : DriverProfile → DriverOut
driver_out profile = record {
  id = profile.id;
  is_available = profile.is_available;
  last_lat = profile.last_lat;
  last_lng = profile.last_lng;
  rating = profile.rating;
}
