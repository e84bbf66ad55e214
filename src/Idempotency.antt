-- ===== src/Idempotency.antt =====
-- backend/app/services/idempotency.py: the fingerprint of a request body and the stored response.
use ride_flow.Prelude.{ℕ, String, Bool, ◌&&◌, ◌==◌, string_eq, Option}
use ride_flow.Models.{Uuid, DateTime, RideOut, IdempotencyRecord}
use ride_flow.Schemas.{RideCreateRequest}
use ride_flow.Sql.{Sql}
use ride_flow.Database.{Db, Action, scalar_one_or_none, modify}

-- `json.dumps(payload, sort_keys=True, default=str)` of a ride request, and the SHA-256 of a text
-- in hexadecimal digits.
pub record Hashing : Type 0 where
  pub dumps : RideCreateRequest → String
  pub sha256_hex : String → String

abbrev pub has_key : String → String → IdempotencyRecord → Bool
has_key key scope r = r.key == key && r.scope == scope

module _ ⦃hashing : Hashing⦄ where
  unfoldable pub fingerprint : RideCreateRequest → String
  fingerprint payload = hashing.sha256_hex (hashing.dumps payload)

module _ ⦃sql : Sql⦄ where
  unfoldable pub get_cached_response : String → String → Action Db (Option IdempotencyRecord)
  get_cached_response key scope db =
      (scalar_one_or_none (sql.select (has_key key scope) db.idempotency_records), db)

  module _ ⦃hashing : Hashing⦄ where
    unfoldable pub store_response :
        DateTime → Uuid → String → String → RideCreateRequest → ℕ → RideOut → Action Db (Unit {0})
    store_response now id key scope request_payload status_code response_body = modify λ db.
        record db {
          idempotency_records =
              sql.add
                (record {
                  id = id;
                  key = key;
                  scope = scope;
                  request_fingerprint = fingerprint request_payload;
                  response_body = response_body;
                  status_code = status_code;
                  created_at = now;
                })
                db.idempotency_records;
        }
