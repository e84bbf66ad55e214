-- ===== src/Rides/Refined.antt =====
-- Every request on rides is in the book, whatever Redis does.
use ride_flow.Prelude.{
  ℤ, pos, nat_eqb, Option, none, some, String, ◌≡◌, refl, sym, ap, ◌∙◌, subst, arith, inl, inr,
  Option-cases, IsKeyed-add,
}
use ride_flow.Models.{Uuid, User, Ride, matching, accepted, no_drivers_found, RideStatus}
use ride_flow.Schemas.{RideTransitionRequest, RideCreateRequest}
use ride_flow.Config.{Settings}
use ride_flow.Sql.{Sql}
use ride_flow.Redis.{Redis}
use ride_flow.Database.{Db, World, on_db, Result-cases}
use ride_flow.Database.Sessions.{with_session-keeps}
use ride_flow.StateMachine.{apply_transition}
use ride_flow.StateMachine.Update.{ride_of, ride_of-id, IsKeyedDb, events}
use ride_flow.Matching.{find_and_reserve_driver}
use ride_flow.Request.{Env}
use ride_flow.Fare.{Floats}
use ride_flow.Idempotency.{Hashing}
use ride_flow.Rides.{create_ride, serve_create}
use ride_flow.Rides.Create.{created}
use ride_flow.Rides.Insert.{inserted, inserted_rest, inserted-ride_of}
use ride_flow.Rides.Account.{create_ride-writes}
use ride_flow.Rides.Transition.{
  reserve_for, settle, match_ride, release_if_cancelled, move_ride, perform_transition, catching,
  transition_ride, serve_transition,
}
use ride_flow.Rides.Book.{Book, put, asks}
use ride_flow.Rides.Refines.{Reached, Reached-entry, Current, apply-Reached}

module _ ⦃sql : Sql⦄ ⦃redis : Redis⦄ (New : Ride → Type 0) (start : Book) (settings : Settings)
    (env : Env) where
  -- The match, after its first transition.
  settle-Reached :
      (ride : Ride) (found : Option Uuid) (w : World)
      → Reached New start w.db
      → Current w.db ride
      → Reached New start (settle env ride found w).1.db
  unfolding settle
  settle-Reached ride none w reached current =
      let (kept, _) =
        apply-Reached New start env.now (env.uuid 1) ride no_drivers_found (pos ride.version) none
          w.db reached current in
      ground arith
  settle-Reached ride (some d) w reached current =
      let (kept, _) =
        apply-Reached New start env.now (env.uuid 1) ride accepted (pos ride.version) (some d) w.db
          reached current in
      ground arith

  match_ride-Reached :
      (ride : Ride) (expected : ℤ) (w : World)
      → Reached New start w.db
      → Current w.db ride
      → Reached New start (match_ride settings env ride expected w).1.db
  unfolding match_ride reserve_for
  match_ride-Reached ride expected w reached current =
      let first = apply_transition env.now (env.uuid 0) ride matching expected none w.db in
      let (kept, current') =
        apply-Reached New start env.now (env.uuid 0) ride matching expected none w.db reached
          current in
      elim (Result-cases first.0) [
        | inr (x, e) ↦ ground arith
        | inl (a, e) ↦
            let search =
              find_and_reserve_driver settings env.now a.ride.pickup_lat a.ride.pickup_lng a.ride.id
                w.geo w.strings in
            let w' : World = record w { db = first.1; strings = search.1 } in
            let settled = settle-Reached a.ride search.0 w' kept (current' a e) in ground arith
      ]

  move_ride-Reached :
      (ride : Ride) (target : RideStatus) (expected : ℤ) (w : World)
      → Reached New start w.db
      → Current w.db ride
      → Reached New start (move_ride env ride target expected w).1.db
  unfolding move_ride release_if_cancelled
  move_ride-Reached ride target expected w reached current =
      let (kept, _) =
        apply-Reached New start env.now (env.uuid 0) ride target expected none w.db reached
          current in
      ground arith

  perform-Reached :
      (payload : RideTransitionRequest) (ride : Ride) (w : World)
      → Reached New start w.db
      → Current w.db ride
      → Reached New start (catching (perform_transition settings env payload ride) w).1.db
  unfolding catching perform_transition
  perform-Reached payload ride w reached current = ground (
    arith,
    match_ride-Reached ride payload.expected_version w reached current,
    move_ride-Reached ride payload.target_status payload.expected_version w reached current,
  )

  transition_ride-Reached :
      (ride_id : Uuid) (payload : RideTransitionRequest) (user : User) (w : World)
      → Reached New start w.db
      → Reached New start (transition_ride settings env ride_id payload user w).1.db
  unfolding transition_ride
  transition_ride-Reached ride_id payload user w reached =
      elim (Option-cases (sql.get (λ (r : Ride). nat_eqb r.id ride_id) w.db.rides)) [
        | inl missing ↦ ground arith
        | inr (ride, found) ↦
            let read : ride_of w.db ride_id ≡ some ride = sym (sql.get-rows _ w.db.rides) ∙ found in
            let current : Current w.db ride =
              ap (ride_of w.db) (ride_of-id w.db ride_id ride read) ∙ read in
            let done = perform-Reached payload ride w reached current in ground arith
      ]

  pub serve_transition-Reached :
      (ride_id : Uuid) (payload : RideTransitionRequest) (user : User) (w : World)
      → Reached New start w.db
      → Reached New start (serve_transition settings env ride_id payload user w).1.db
  unfolding serve_transition
  serve_transition-Reached ride_id payload user w reached =
      with_session-keeps (Reached New start) (transition_ride settings env ride_id payload user) w
        reached (transition_ride-Reached ride_id payload user w reached)

module _ ⦃sql : Sql⦄ ⦃hashing : Hashing⦄ ⦃fl : Floats⦄ (New : Ride → Type 0) (start : Book)
    (env : Env) (payload : RideCreateRequest) (idempotency_key : Option String) (user : User)
    (asked : New (created env payload idempotency_key user)) where
  inserted-Reached :
      (db : Db)
      → ride_of db (env.uuid 0) ≡ none
      → Reached New start db
      → Reached New start (inserted env payload idempotency_key user db)
  inserted-Reached db fresh reached =
      let row = created env payload idempotency_key user in
      let (rides, logged) = inserted_rest env payload idempotency_key user db in
      let keyed : IsKeyedDb (inserted env payload idempotency_key user db) =
        rw (rides, sql.rows-add row db.rides)
          (IsKeyed-add (λ (r : Ride). r.id) row (sql.rows db.rides) reached.keyed fresh) in
      Reached-entry New start db (inserted env payload idempotency_key user db)
        (record { rides = put row (ride_of db); log = events db }) keyed
        (λ j. inserted-ride_of env payload idempotency_key user db j fresh) (ap sql.rows logged)
        (asks row asked fresh refl refl refl) reached

  pub serve_create-Reached :
      ⦃redis : Redis⦄ (w : World)
      → ride_of w.db (env.uuid 0) ≡ none
      → Reached New start w.db
      → Reached New start (serve_create env payload idempotency_key user w).1.db
  unfolding serve_create
  serve_create-Reached w fresh reached =
      with_session-keeps (Reached New start) (on_db (create_ride env payload idempotency_key user))
        w reached
        (elim (create_ride-writes env payload idempotency_key user w.db fresh user.role refl) [
          | inl same ↦ subst (Reached New start) (sym same) reached
          | inr new ↦ subst (Reached New start) (sym new) (inserted-Reached w.db fresh reached)
        ])
