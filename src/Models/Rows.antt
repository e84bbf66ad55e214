-- ===== src/Models/Rows.antt =====
-- backend/app/models.py: one record for each table, with the table's columns.
use ride_flow.Prelude.{ℕ, String, Bool, Option}
use ride_flow.Models.Enums.{UserRole, RideStatus}

abbrev pub Uuid : Type 0
Uuid = ℕ

abbrev pub DateTime : Type 0
DateTime = ℕ

-- The bits of a double.
abbrev pub Float : Type 0
Float = ℕ

pub record User : Type 0 where
  pub id : Uuid
  pub email : String
  pub hashed_password : String
  pub full_name : String
  pub role : UserRole
  pub is_active : Bool
  pub created_at : DateTime

pub record RefreshToken : Type 0 where
  pub id : Uuid
  pub user_id : Uuid
  pub token_hash : String
  pub expires_at : DateTime
  pub revoked : Bool
  pub created_at : DateTime

pub record DriverProfile : Type 0 where
  pub id : Uuid
  pub user_id : Uuid
  pub vehicle_make : String
  pub vehicle_plate : String
  pub is_available : Bool
  pub last_lat : Option Float
  pub last_lng : Option Float
  pub last_heartbeat_at : Option DateTime
  pub rating : Float

pub record Ride : Type 0 where
  pub id : Uuid
  pub passenger_id : Uuid
  pub driver_id : Option Uuid
  pub status : RideStatus
  pub version : ℕ
  pub pickup_lat : Float
  pub pickup_lng : Float
  pub dropoff_lat : Float
  pub dropoff_lng : Float
  pub fare_estimate : Option Float
  pub idempotency_key : Option String
  pub created_at : DateTime
  pub updated_at : DateTime

-- The `payload` of a `ride.status_changed` event.
pub record StatusChanged : Type 0 where
  pub ride_id : Uuid
  pub previous_status : String
  pub new_status : String
  pub driver_id : Option Uuid
  pub passenger_id : Uuid

pub record OutboxEvent : Type 0 where
  pub id : Uuid
  pub aggregate_type : String
  pub aggregate_id : Uuid
  pub event_type : String
  pub payload : StatusChanged
  pub published : Bool
  pub created_at : DateTime
  pub published_at : Option DateTime

-- `RideOut`, the columns of a ride that a response shows.
pub record RideOut : Type 0 where
  pub id : Uuid
  pub passenger_id : Uuid
  pub driver_id : Option Uuid
  pub status : RideStatus
  pub version : ℕ
  pub pickup_lat : Float
  pub pickup_lng : Float
  pub dropoff_lat : Float
  pub dropoff_lng : Float
  pub fare_estimate : Option Float
  pub created_at : DateTime
  pub updated_at : DateTime

pub record IdempotencyRecord : Type 0 where
  pub id : Uuid
  pub key : String
  pub scope : String
  pub request_fingerprint : String
  pub response_body : RideOut
  pub status_code : ℕ
  pub created_at : DateTime
