-- ===== src/Rides/Create.antt =====
-- The creation of a ride: what is inserted, and what the idempotency key guarantees.
use ride_flow.Prelude.{
  nat_eqb, if◌then◌else◌, ◌==◌, string_eq, String, Option, none, some, List, [], ◌∷◌, ◌≡◌, refl,
  ◌∙◌, ap, arith, find_by-add, filterb,
}
use ride_flow.Models.{Uuid, User, Ride, IdempotencyRecord, passenger}
use ride_flow.Models.Sets.{IdempotencyRecord-set}
use ride_flow.Schemas.{RideCreateRequest, ride_out}
use ride_flow.Sql.{Sql}
use ride_flow.Sql.Rows.{select-none, select-one}
use ride_flow.Database.{Db, ok, err, http_exception, ◌>>=◌}
use ride_flow.Fare.{Floats}
use ride_flow.Idempotency.{Hashing, fingerprint, has_key, get_cached_response, store_response}
use ride_flow.StateMachine.{refresh}
use ride_flow.StateMachine.Update.{ride_of}
use ride_flow.StateMachine.Apply.{refresh-found}
use ride_flow.StateMachine.Conflicts.{if_self}
use ride_flow.Request.{Env}
use ride_flow.Dependencies.{require_roles}
use ride_flow.Rides.{
  idempotency_scope_create, given_key, cached_for, replay, store_if_given, insert_ride,
  replay_or_insert, create_ride, new_ride,
}

module _ ⦃sql : Sql⦄ where
  -- The records that were stored for ride creations under a key.
  abbrev pub records_under : String → Db → List IdempotencyRecord
  records_under key db =
      filterb (has_key key idempotency_scope_create) (sql.rows db.idempotency_records)

  -- A new row under a new identifier is found there, and hides no other.
  pub ride_of-add :
      (db : Db) (r : Ride) (j : Uuid)
      → ride_of db r.id ≡ none
      → ride_of (record db { rides = sql.add r db.rides }) j
        ≡ (if nat_eqb j r.id then some r else ride_of db j)
  ride_of-add db r j fresh =
      rw (sql.rows-add r db.rides) (find_by-add (λ (q : Ride). q.id) r j (sql.rows db.rides) fresh)

module _ ⦃sql : Sql⦄ ⦃hashing : Hashing⦄ ⦃fl : Floats⦄ where
  -- What the lookup under a key finds.
  pub cached_for-none :
      (key : String) (db : Db)
      → records_under key db ≡ []
      → cached_for (some key) db ≡ (ok none, db)
  unfolding cached_for get_cached_response
  cached_for-none key db h =
      rw (select-none (has_key key idempotency_scope_create) db.idempotency_records h)

  pub cached_for-one :
      (key : String) (db : Db) (r : IdempotencyRecord)
      → records_under key db ≡ r ∷ []
      → cached_for (some key) db ≡ (ok (some r), db)
  unfolding cached_for get_cached_response
  cached_for-one key db r h = rw (
      select-one (has_key key idempotency_scope_create) db.idempotency_records IdempotencyRecord-set
        r h)

module _ ⦃sql : Sql⦄ ⦃hashing : Hashing⦄ ⦃fl : Floats⦄ (env : Env) (payload : RideCreateRequest)
    (idempotency_key : Option String) (user : User) where
  -- For a passenger the handler is the lookup and what follows.
  pub create_ride-passenger :
      user.role ≡ passenger
      → (db : Db)
      → create_ride env payload idempotency_key user db
        ≡ (cached_for (given_key idempotency_key)
              >>= replay_or_insert env payload idempotency_key user)
            db
  unfolding create_ride require_roles
  create_ride-passenger role db = rw role

  -- A stored response is returned for the body that it was stored for, and refused for another.
  pub create_ride-replays :
      (key : String) (db : Db) (r : IdempotencyRecord)
      → user.role ≡ passenger
      → given_key idempotency_key ≡ some key
      → records_under key db ≡ r ∷ []
      → create_ride env payload idempotency_key user db ≡ (
        if r.request_fingerprint == fingerprint payload
            then ok r.response_body
            else err (http_exception 409),
        db,
      )
  unfolding replay_or_insert replay
  create_ride-replays key db r role given h =
      let cached = ap (λ g. cached_for g db) given ∙ cached_for-one key db r h in
      create_ride-passenger role db ∙ ground arith

  abbrev pub created : Ride
  created = new_ride env payload idempotency_key user

  -- The record that is stored under a key.
  abbrev pub stored : String → IdempotencyRecord
  stored key = record {
    id = env.uuid 1;
    key = key;
    scope = idempotency_scope_create;
    request_fingerprint = fingerprint payload;
    response_body = ride_out created;
    status_code = 201;
    created_at = env.now;
  }

  abbrev pub with_ride : Db → Db
  with_ride db = record db { rides = sql.add created db.rides }

  abbrev pub with_record : Option String → Db → Db
  with_record none db = db
  with_record (some key) db = record db {
    idempotency_records = sql.add (stored key) db.idempotency_records;
  }

  refresh-created :
      (db : Db)
      → ride_of db (env.uuid 0) ≡ none
      → refresh (env.uuid 0) (with_ride db) ≡ (ok created, with_ride db)
  refresh-created db fresh =
      refresh-found (with_ride db) (env.uuid 0) created
        (ride_of-add db created (env.uuid 0) fresh ∙ if_self (env.uuid 0) (some created) _)

  store_if_given-value :
      (g : Option String) (db : Db)
      → store_if_given env g payload (ride_out created) db ≡ (ok tt, with_record g db)
  unfolding store_if_given store_response
  store_if_given-value none db = refl
  store_if_given-value (some key) db = refl

  -- The row of the ride, and the record under the key if one is given.
  pub insert_ride-value :
      (db : Db)
      → ride_of db (env.uuid 0) ≡ none
      → insert_ride env payload idempotency_key user db
        ≡ (ok (ride_out created), with_record (given_key idempotency_key) (with_ride db))
  unfolding insert_ride
  insert_ride-value db fresh =
      let again = refresh-created db fresh in
      let kept = store_if_given-value (given_key idempotency_key) (with_ride db) in ground arith
