-- ===== src/Rides/Insert.antt =====
-- A new ride, as its request leaves it.
use ride_flow.Prelude.{
  true, nat_eqb, if◌then◌else◌, String, Option, none, some, [], ◌≡◌, refl, ◌∙◌, ap, arith, distinct,
  find_by, distinct-add,
}
use ride_flow.Models.{requested, RideOut, Uuid, User, Ride, passenger}
use ride_flow.Schemas.{RideCreateRequest, ride_out}
use ride_flow.Sql.{Sql}
use ride_flow.Redis.{Redis}
use ride_flow.Database.{Db, World, Result, ok, constraints, same_key_scope, on_db}
use ride_flow.Database.Sessions.{with_session-done}
use ride_flow.Fare.{Floats}
use ride_flow.Idempotency.{Hashing}
use ride_flow.StateMachine.Update.{ride_of}
use ride_flow.Request.{Env}
use ride_flow.Rides.{given_key, cached_for, replay_or_insert, create_ride, serve_create}
use ride_flow.Rides.Create.{
  records_under, ride_of-add, create_ride-passenger, cached_for-none, created, stored, with_ride,
  with_record, insert_ride-value,
}

module _ ⦃sql : Sql⦄ ⦃hashing : Hashing⦄ ⦃fl : Floats⦄ where
  -- No response is stored for the request.
  abbrev pub IsNew : Db → Option String → Type 0
  IsNew db none = Unit
  IsNew db (some key) = records_under key db ≡ []

  cached_for-new : (db : Db) (g : Option String) → IsNew db g → cached_for g db ≡ (ok none, db)
  unfolding cached_for
  cached_for-new db none new = refl
  cached_for-new db (some key) new = cached_for-none key db new

module _ ⦃sql : Sql⦄ ⦃hashing : Hashing⦄ ⦃fl : Floats⦄ (env : Env) (payload : RideCreateRequest)
    (idempotency_key : Option String) (user : User) where
  abbrev pub inserted : Db → Db
  inserted db =
      with_record env payload idempotency_key user (given_key idempotency_key)
        (with_ride env payload idempotency_key user db)

  record_rest :
      (g : Option String) (db : Db)
      → let db' = with_record env payload idempotency_key user g db in
        (db'.rides ≡ db.rides) × (db'.outbox_events ≡ db.outbox_events)
  record_rest none db = (refl, refl)
  record_rest (some key) db = (refl, refl)

  pub inserted_rest :
      (db : Db)
      → ((inserted db).rides ≡ (with_ride env payload idempotency_key user db).rides)
        × ((inserted db).outbox_events ≡ db.outbox_events)
  inserted_rest db =
      record_rest (given_key idempotency_key) (with_ride env payload idempotency_key user db)

  pub inserted-ride_of :
      (db : Db) (i : Uuid)
      → ride_of db (env.uuid 0) ≡ none
      → ride_of (inserted db) i ≡ (
          if nat_eqb i (env.uuid 0)
          then some (created env payload idempotency_key user)
          else ride_of db i)
  inserted-ride_of db i fresh =
      ap (λ (t : sql.Table Ride). find_by (λ (r : Ride). r.id) i (sql.rows t)) (inserted_rest db).0
      ∙ ride_of-add db (created env payload idempotency_key user) i fresh

module _ ⦃sql : Sql⦄ ⦃hashing : Hashing⦄ ⦃fl : Floats⦄ (env : Env) (payload : RideCreateRequest)
    (idempotency_key : Option String) (user : User) (role : user.role ≡ passenger) where
  pub create_ride-new :
      (db : Db)
      → ride_of db (env.uuid 0) ≡ none
      → IsNew db (given_key idempotency_key)
      → create_ride env payload idempotency_key user db ≡ (
        ok (ride_out (created env payload idempotency_key user)),
        with_record env payload idempotency_key user
            (given_key idempotency_key)
            (with_ride env payload idempotency_key user db),
      )
  unfolding replay_or_insert
  create_ride-new db fresh new =
      let cached = cached_for-new db (given_key idempotency_key) new in
      let inserted = insert_ride-value env payload idempotency_key user db fresh in
      create_ride-passenger env payload idempotency_key user role db ∙ ground arith

  -- The new rows break no constraint.
  record-constraints :
      (g : Option String) (db : Db)
      → IsNew db g
      → constraints db ≡ true
      → constraints (
          with_record env payload idempotency_key user g
            (with_ride env payload idempotency_key user db))
        ≡ true
  unfolding constraints
  record-constraints none db new fine = fine
  record-constraints (some key) db new fine =
      let row = stored env payload idempotency_key user key in
      let after =
        sql.unique-rows same_key_scope (sql.add row db.idempotency_records)
        ∙ ap (distinct same_key_scope) (sql.rows-add row db.idempotency_records) in
      let before = sql.unique-rows same_key_scope db.idempotency_records in
      let added = distinct-add same_key_scope (sql.rows db.idempotency_records) row in ground arith

  module _ ⦃redis : Redis⦄ (w : World) (fine : constraints w.db ≡ true)
      (fresh : ride_of w.db (env.uuid 0) ≡ none)
      (new : IsNew w.db (given_key idempotency_key)) where
    -- On a database that is in order, a passenger's request under a key that is new, or without
    -- one, for a ride whose identifier is new, answers with the passenger's own ride in status
    -- REQUESTED at version 1 without a driver, and has written that ride and, under a key, the
    -- response for it: afterwards the ride is found under its identifier and every other ride is
    -- as before.
    pub serve_create-inserts :
        (serve_create env payload idempotency_key user w ≡ (
          ok (ride_out (created env payload idempotency_key user)),
          record w { db = inserted env payload idempotency_key user w.db },
        ))
        × ((created env payload idempotency_key user).status ≡ requested)
        × ((created env payload idempotency_key user).version ≡ 1)
        × ((created env payload idempotency_key user).passenger_id ≡ user.id)
        × ((created env payload idempotency_key user).driver_id ≡ none)
        × ((i : Uuid)
            → ride_of (inserted env payload idempotency_key user w.db) i ≡ (
                if nat_eqb i (env.uuid 0)
                then some (created env payload idempotency_key user)
                else ride_of w.db i))
    unfolding serve_create
    serve_create-inserts =
        let value = create_ride-new w.db fresh new in
        let kept = record-constraints (given_key idempotency_key) w.db new fine in
        let step = on_db (create_ride env payload idempotency_key user) in
        let world = ap (λ (x : Result RideOut × Db). on_db (λ _. x) w) value in
        (
          with_session-done step w (ap (λ (x : Result RideOut × World). x.0) world)
                (ap (λ (x : Result RideOut × World). constraints x.1.db) world ∙ kept)
              ∙ world,
          refl,
          refl,
          refl,
          refl,
          λ i. inserted-ride_of env payload idempotency_key user w.db i fresh,
        )
