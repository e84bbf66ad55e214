-- ===== src/Rides/Account.antt =====
-- The account of the outbox against the rides, as the creation of a ride leaves it.
use ride_flow.Prelude.{
  nat_eqb, String, Option, none, some, ◌≡◌, refl, sym, ◌∙◌, ap, arith, inl, inr, Bool-cases,
  nat_eqb_iff, subst, ◌+◌, ◌⊎◌, countb, IsKeyed-add,
}
use ride_flow.Models.{
  UserRole, driver, admin, RideOut, Uuid, User, Ride, IdempotencyRecord, passenger,
}
use ride_flow.Schemas.{RideCreateRequest}
use ride_flow.Sql.{Sql}
use ride_flow.Redis.{Redis}
use ride_flow.Database.{Db, World, Result, on_db}
use ride_flow.Database.Sessions.{bind-at, with_session-keeps}
use ride_flow.Fare.{Floats}
use ride_flow.Idempotency.{Hashing, get_cached_response}
use ride_flow.StateMachine.Update.{ride_of, events}
use ride_flow.StateMachine.Logged.{Logged, Logged-same, about, version_at}
use ride_flow.Request.{Env}
use ride_flow.Dependencies.{require_roles}
use ride_flow.Rides.{given_key, cached_for, replay, replay_or_insert, create_ride, serve_create}
use ride_flow.Rides.Create.{
  ride_of-add, create_ride-passenger, created, with_ride, insert_ride-value,
}
use ride_flow.Rides.Insert.{inserted, inserted_rest}

module _ ⦃sql : Sql⦄ ⦃hashing : Hashing⦄ ⦃fl : Floats⦄ (env : Env) (payload : RideCreateRequest)
    (idempotency_key : Option String) (user : User) where
  -- The new ride is at version 1, and there is no event about it.
  counted_add :
      (db : Db)
      → ride_of db (env.uuid 0) ≡ none
      → Logged db
      → (j : Uuid)
      → countb (about j) (events db) + 1
        ≡ version_at (ride_of (with_ride env payload idempotency_key user db) j)
  counted_add db fresh l j =
      let row = created env payload idempotency_key user in
      elim (Bool-cases (nat_eqb j (env.uuid 0))) [
        | inl hit ↦
            let none_there = ap (ride_of db) ((nat_eqb_iff j (env.uuid 0)).0 hit) ∙ fresh in
            let before : countb (about j) (events db) + 1 ≡ 1 = rw none_there at (l.counted j) in
            rw (ride_of-add db row j fresh, hit) before
        | inr miss ↦ rw (ride_of-add db row j fresh, miss) (l.counted j)
      ]

  with_ride-Logged :
      (db : Db)
      → ride_of db (env.uuid 0) ≡ none
      → Logged db
      → Logged (with_ride env payload idempotency_key user db)
  with_ride-Logged db fresh l = record {
    keyed = rw (sql.rows-add (created env payload idempotency_key user) db.rides) (
        IsKeyed-add (λ (r : Ride). r.id) (created env payload idempotency_key user)
          (sql.rows db.rides) l.keyed fresh);
    counted = counted_add db fresh l;
  }

  inserted-Logged :
      (db : Db)
      → ride_of db (env.uuid 0) ≡ none
      → Logged db
      → Logged (inserted env payload idempotency_key user db)
  inserted-Logged db fresh l =
      Logged-same (with_ride env payload idempotency_key user db)
        (inserted env payload idempotency_key user db)
        (ap sql.rows (inserted_rest env payload idempotency_key user db).0)
        (ap sql.rows (inserted_rest env payload idempotency_key user db).1)
        (with_ride-Logged db fresh l)

  cached_for-reads : (g : Option String) (db : Db) → (cached_for g db).1 ≡ db
  unfolding cached_for get_cached_response
  cached_for-reads none db = refl
  cached_for-reads (some key) db = refl

  abbrev pub Written : Db → Db → Type 0
  Written db db' = (db' ≡ db) ⊎ (db' ≡ inserted env payload idempotency_key user db)

  replay_or_insert-writes :
      (c : Option IdempotencyRecord) (db : Db)
      → ride_of db (env.uuid 0) ≡ none
      → Written db (replay_or_insert env payload idempotency_key user c db).1
  unfolding replay_or_insert replay
  replay_or_insert-writes none db fresh = inr (
      ap (λ (x : Result RideOut × Db). x.1)
        (insert_ride-value env payload idempotency_key user db fresh))
  replay_or_insert-writes (some r) db fresh = inl (ground arith)

  pub create_ride-writes :
      (db : Db)
      → ride_of db (env.uuid 0) ≡ none
      → (role : UserRole) → user.role ≡ role
      → Written db (create_ride env payload idempotency_key user db).1
  unfolding create_ride require_roles
  create_ride-writes db fresh passenger e =
      let reads = cached_for-reads (given_key idempotency_key) db in
      subst (Written db)
        (sym (
          ap (λ (x : Result RideOut × Db). x.1)
            (create_ride-passenger env payload idempotency_key user e db)))
        (bind-at (Written db) (cached_for (given_key idempotency_key))
          (replay_or_insert env payload idempotency_key user) db (inl reads)
          (λ c _. rw reads (replay_or_insert-writes c db fresh)))
  create_ride-writes db fresh driver e = inl (rw e refl)
  create_ride-writes db fresh admin e = inl (rw e refl)

  -- If `id` is the key of the rides and each ride's version is one more than the number of events
  -- about it in the outbox, this is still so after a request for a new ride, whoever asks for it
  -- and however it ends, provided that the identifier drawn for the ride is new.
  pub serve_create-Logged :
      ⦃redis : Redis⦄ (w : World)
      → ride_of w.db (env.uuid 0) ≡ none
      → Logged w.db
      → Logged (serve_create env payload idempotency_key user w).1.db
  unfolding serve_create
  serve_create-Logged w fresh l =
      with_session-keeps Logged (on_db (create_ride env payload idempotency_key user)) w l
        (elim (create_ride-writes w.db fresh user.role refl) [
          | inl same ↦ subst Logged (sym same) l
          | inr new ↦ subst Logged (sym new) (inserted-Logged w.db fresh l)
        ])
