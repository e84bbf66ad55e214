-- ===== src/Migration/Tables.antt =====
-- backend/alembic/versions/0001_initial_schema.py: the types, tables and indexes of `upgrade`, and
-- the calls of `upgrade` and `downgrade`.
use ride_flow.Prelude.{true, false, List, [], ◌∷◌, String}
use ride_flow.Migration.Columns.{
  uuid, boolean, timestamp_tz, float, integer, json, varchar, EnumType, enum_type, column, required,
  id_column, users_key, with_default,
}
use ride_flow.Migration.{
  Table, Index, Statement, create_enum, create_table, create_index, drop_table, drop_enum,
}

abbrev pub user_role_enum : EnumType
user_role_enum = record { name = "userrole"; labels = "passenger" ∷ "driver" ∷ "admin" ∷ [] }

abbrev pub ride_status_enum : EnumType
ride_status_enum = record {
  name = "ridestatus";
  labels =
      "requested" ∷ "matching" ∷ "accepted" ∷ "driver_arriving" ∷ "in_progress" ∷ "completed"
      ∷ "cancelled" ∷ "no_drivers_found" ∷ [];
}

abbrev pub users : Table
users = record {
  name = "users";
  columns =
      id_column
      ∷ record (required "email" (varchar 255)) { unique = true }
      ∷ required "hashed_password" (varchar 255)
      ∷ required "full_name" (varchar 255)
      ∷ with_default "passenger" (required "role" (enum_type user_role_enum))
      ∷ with_default "true" (required "is_active" boolean)
      ∷ with_default "now()" (column "created_at" timestamp_tz)
      ∷ [];
  unique_together = [];
}

abbrev pub refresh_tokens : Table
refresh_tokens = record {
  name = "refresh_tokens";
  columns =
      id_column
      ∷ record (column "user_id" uuid) { foreign_key = users_key true }
      ∷ record (required "token_hash" (varchar 255)) { unique = true }
      ∷ required "expires_at" timestamp_tz
      ∷ with_default "false" (required "revoked" boolean)
      ∷ with_default "now()" (column "created_at" timestamp_tz)
      ∷ [];
  unique_together = [];
}

abbrev pub driver_profiles : Table
driver_profiles = record {
  name = "driver_profiles";
  columns =
      id_column
      ∷ record (column "user_id" uuid) { foreign_key = users_key true; unique = true }
      ∷ with_default "" (column "vehicle_make" (varchar 100))
      ∷ with_default "" (column "vehicle_plate" (varchar 50))
      ∷ with_default "false" (required "is_available" boolean)
      ∷ column "last_lat" float
      ∷ column "last_lng" float
      ∷ column "last_heartbeat_at" timestamp_tz
      ∷ with_default "5.0" (required "rating" float)
      ∷ [];
  unique_together = [];
}

abbrev pub rides : Table
rides = record {
  name = "rides";
  columns =
      id_column
      ∷ record (column "passenger_id" uuid) { foreign_key = users_key false }
      ∷ record (column "driver_id" uuid) { foreign_key = users_key false }
      ∷ with_default "requested" (required "status" (enum_type ride_status_enum))
      ∷ with_default "1" (required "version" integer)
      ∷ required "pickup_lat" float
      ∷ required "pickup_lng" float
      ∷ required "dropoff_lat" float
      ∷ required "dropoff_lng" float
      ∷ column "fare_estimate" float
      ∷ column "idempotency_key" (varchar 255)
      ∷ with_default "now()" (column "created_at" timestamp_tz)
      ∷ with_default "now()" (column "updated_at" timestamp_tz)
      ∷ [];
  unique_together = [];
}

abbrev pub outbox_events : Table
outbox_events = record {
  name = "outbox_events";
  columns =
      id_column
      ∷ required "aggregate_type" (varchar 50)
      ∷ required "aggregate_id" (varchar 64)
      ∷ required "event_type" (varchar 100)
      ∷ required "payload" json
      ∷ with_default "false" (required "published" boolean)
      ∷ with_default "now()" (column "created_at" timestamp_tz)
      ∷ column "published_at" timestamp_tz
      ∷ [];
  unique_together = [];
}

abbrev pub idempotency_records : Table
idempotency_records = record {
  name = "idempotency_records";
  columns =
      id_column
      ∷ required "key" (varchar 255)
      ∷ required "scope" (varchar 100)
      ∷ required "request_fingerprint" (varchar 64)
      ∷ required "response_body" json
      ∷ required "status_code" integer
      ∷ with_default "now()" (column "created_at" timestamp_tz)
      ∷ [];
  unique_together = ("key" ∷ "scope" ∷ []) ∷ [];
}

abbrev pub index_on : String → String → List String → Index
index_on n t cs = record { name = n; table = t; columns = cs }

unfoldable pub upgrade : List Statement
upgrade =
    create_enum user_role_enum
    ∷ create_enum ride_status_enum
    ∷ create_table users
    ∷ create_index (index_on "ix_users_email" "users" ("email" ∷ []))
    ∷ create_table refresh_tokens
    ∷ create_index (index_on "ix_refresh_tokens_user_id" "refresh_tokens" ("user_id" ∷ []))
    ∷ create_index (index_on "ix_refresh_tokens_token_hash" "refresh_tokens" ("token_hash" ∷ []))
    ∷ create_table driver_profiles
    ∷ create_table rides
    ∷ create_index (index_on "ix_rides_passenger_id" "rides" ("passenger_id" ∷ []))
    ∷ create_index (index_on "ix_rides_driver_id" "rides" ("driver_id" ∷ []))
    ∷ create_index (index_on "ix_rides_status" "rides" ("status" ∷ []))
    ∷ create_index (index_on "ix_rides_idempotency_key" "rides" ("idempotency_key" ∷ []))
    ∷ create_index (index_on "ix_rides_passenger_status" "rides" ("passenger_id" ∷ "status" ∷ []))
    ∷ create_table outbox_events
    ∷ create_index (index_on "ix_outbox_events_aggregate_id" "outbox_events" ("aggregate_id" ∷ []))
    ∷ create_index (index_on "ix_outbox_events_published" "outbox_events" ("published" ∷ []))
    ∷ create_table idempotency_records
    ∷ create_index (index_on "ix_idempotency_records_key" "idempotency_records" ("key" ∷ []))
    ∷ []

unfoldable pub downgrade : List Statement
downgrade =
    drop_table "idempotency_records"
    ∷ drop_table "outbox_events"
    ∷ drop_table "rides"
    ∷ drop_table "driver_profiles"
    ∷ drop_table "refresh_tokens"
    ∷ drop_table "users"
    ∷ drop_enum "ridestatus"
    ∷ drop_enum "userrole"
    ∷ []
