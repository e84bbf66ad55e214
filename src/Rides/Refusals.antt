-- ===== src/Rides/Refusals.antt =====
-- When a request on a ride is refused, and what it leaves behind.
use ride_flow.Prelude.{
  ◌&&◌, true, false, if◌then◌else◌, nat_eqb, ◌==◌, eqb-ne, nat_eq, option_eq, none, some, ◌≡◌, ◌≢◌,
  ◌⊎◌, inl, inr, sym, ◌∙◌, ap, arith, pos, int_eqb-other, Bool-cases, and_left, some_inj,
}
use ride_flow.Models.{
  RideStatus, Uuid, User, Ride, requested, matching, passenger, driver, role_eq, status_eq,
  status_eqb_iff,
}
use ride_flow.Schemas.{RideTransitionRequest}
use ride_flow.Config.{Settings}
use ride_flow.Sql.{Sql}
use ride_flow.Redis.{Redis}
use ride_flow.Database.{Db, World, Handler, ok, err, Exn, http_exception}
use ride_flow.Database.Sessions.{with_session-refused}
use ride_flow.StateMachine.{allowed, apply_transition}
use ride_flow.StateMachine.Update.{ride_of-id, ride_of, IsKeyedDb}
use ride_flow.StateMachine.Apply.{apply-illegal, apply-stale}
use ride_flow.Request.{Env}
use ride_flow.Rides.{get_or_404, get_ride, not_your_ride}
use ride_flow.Rides.Transition.{
  may_transition, as_http, match_ride, move_ride, perform_transition, catching, transition_ride,
  serve_transition,
}

-- A passenger of another ride, or a driver of another ride that has its driver.
abbrev pub IsOutsider : User → Ride → Type 0
IsOutsider user ride =
    ((user.role ≡ passenger) × (ride.passenger_id ≢ user.id))
    ⊎ ((user.role ≡ driver) × (ride.driver_id ≢ none) × (ride.driver_id ≢ some user.id))

outsider-may_transition :
    (user : User) (ride : Ride) (target : RideStatus)
    → IsOutsider user ride
    → may_transition user ride target ≡ false
outsider-may_transition user ride target (inl (role, foreign)) =
    rw (role, eqb-ne ride.passenger_id user.id foreign)
outsider-may_transition user ride target (inr (role, taken, foreign)) =
    rw (role, eqb-ne ride.driver_id (some user.id) foreign, eqb-ne ride.driver_id none taken)

outsider-not_your_ride :
    (user : User) (ride : Ride) → IsOutsider user ride → not_your_ride user ride ≡ true
outsider-not_your_ride user ride (inl (role, foreign)) =
    rw (role, eqb-ne ride.passenger_id user.id foreign)
outsider-not_your_ride user ride (inr (role, taken, foreign)) =
    rw (role, eqb-ne ride.driver_id (some user.id) foreign, eqb-ne ride.driver_id none taken)

module _ ⦃sql : Sql⦄ ⦃redis : Redis⦄ {A : Type 0} (h : Handler A) (w : World) where
  pub catching-raised : {e : Exn} → (h w).0 ≡ err e → catching h w ≡ (err (as_http e), (h w).1)
  unfolding catching
  catching-raised raised = ground arith

  pub catching-done : {a : A} → (h w).0 ≡ ok a → catching h w ≡ h w
  unfolding catching
  catching-done done = ground arith

module _ ⦃sql : Sql⦄ ⦃redis : Redis⦄ (settings : Settings) (env : Env) where
  -- The ride that the handler reads.
  get_or_404-found :
      (db : Db) (id : Uuid) (ride : Ride)
      → ride_of db id ≡ some ride
      → get_or_404 id db ≡ (ok ride, db)
  get_or_404-found db id ride e = rw (sql.get-rows (λ (r : Ride). nat_eqb r.id id) db.rides, e)

  -- Under the test of the role.
  pub transition_ride-forbidden :
      (ride_id : Uuid) (payload : RideTransitionRequest) (user : User) (ride : Ride) (w : World)
      → ride_of w.db ride_id ≡ some ride
      → may_transition user ride payload.target_status ≡ false
      → transition_ride settings env ride_id payload user w ≡ (err (http_exception 403), w)
  unfolding transition_ride
  transition_ride-forbidden ride_id payload user ride w e no_right =
      let read = get_or_404-found w.db ride_id ride e in ground arith

  pub transition_ride-tried :
      (ride_id : Uuid) (payload : RideTransitionRequest) (user : User) (ride : Ride) (w : World)
      → ride_of w.db ride_id ≡ some ride
      → may_transition user ride payload.target_status ≡ true
      → transition_ride settings env ride_id payload user w
        ≡ catching (perform_transition settings env payload ride) w
  unfolding transition_ride
  transition_ride-tried ride_id payload user ride w e right =
      let read = get_or_404-found w.db ride_id ride e in ground arith

  get_ride-forbidden :
      (ride_id : Uuid) (user : User) (ride : Ride) (db : Db)
      → ride_of db ride_id ≡ some ride
      → not_your_ride user ride ≡ true
      → get_ride ride_id user db ≡ (err (http_exception 403), db)
  unfolding get_ride
  get_ride-forbidden ride_id user ride db e foreign =
      let read = get_or_404-found db ride_id ride e in ground arith

  -- The same for the request as it is served.
  pub serve_transition-forbidden :
      (ride_id : Uuid) (payload : RideTransitionRequest) (user : User) (ride : Ride) (w : World)
      → ride_of w.db ride_id ≡ some ride
      → may_transition user ride payload.target_status ≡ false
      → serve_transition settings env ride_id payload user w ≡ (err (http_exception 403), w)
  unfolding serve_transition
  serve_transition-forbidden ride_id payload user ride w e no_right =
      let refused = transition_ride-forbidden ride_id payload user ride w e no_right in
      with_session-refused (transition_ride settings env ride_id payload user) w
        (ap (λ p. p.0) refused) (ap (λ p. p.1.strings) refused) (ap (λ p. p.1.geo) refused)

  -- A passenger cannot see or move the ride of another passenger, nor a driver one that another
  -- driver has: both requests end in 403 and leave everything as it was.
  pub outsider_forbidden :
      (ride_id : Uuid) (payload : RideTransitionRequest) (user : User) (ride : Ride) (w : World)
      → ride_of w.db ride_id ≡ some ride
      → IsOutsider user ride
      → (get_ride ride_id user w.db ≡ (err (http_exception 403), w.db))
        × (serve_transition settings env ride_id payload user w ≡ (err (http_exception 403), w))
  outsider_forbidden ride_id payload user ride w e out = (
    get_ride-forbidden ride_id user ride w.db e (outsider-not_your_ride user ride out),
    serve_transition-forbidden ride_id payload user ride w e
        (outsider-may_transition user ride payload.target_status out),
  )

  -- The first transition of a request, on either path, is the one to the target.
  perform-refused :
      (payload : RideTransitionRequest) (ride : Ride) (w : World) {e : Exn}
      → (apply_transition env.now
          (env.uuid 0)
          ride
          payload.target_status
          payload.expected_version
          none
          w.db).0
        ≡ err e
      → let (result, w') = perform_transition settings env payload ride w in
        (result ≡ err e) × (w'.strings ≡ w.strings) × (w'.geo ≡ w.geo)
  unfolding perform_transition match_ride move_ride
  perform-refused payload ride w raised =
      elim (Bool-cases (payload.target_status == matching && ride.status == requested)) [
        | inl search ↦
            let target =
              (status_eqb_iff payload.target_status matching).0
                (and_left (payload.target_status == matching) (ride.status == requested) search) in
            let raised' = rw target at raised in rw search (ground arith)
        | inr plain ↦ rw plain (ground arith)
      ]

  -- A refusal by the state machine, as the request ends.
  serve-refused :
      (ride_id : Uuid) (payload : RideTransitionRequest) (user : User) (ride : Ride) (w : World)
      {e : Exn}
      → ride_of w.db ride_id ≡ some ride
      → may_transition user ride payload.target_status ≡ true
      → (apply_transition env.now
          (env.uuid 0)
          ride
          payload.target_status
          payload.expected_version
          none
          w.db).0
        ≡ err e
      → serve_transition settings env ride_id payload user w ≡ (err (as_http e), w)
  unfolding serve_transition
  serve-refused ride_id payload user ride w e right raised =
      let (result, strings, geo) = perform-refused payload ride w raised in
      let tried =
        transition_ride-tried ride_id payload user ride w e right
        ∙ catching-raised (perform_transition settings env payload ride) w result in
      with_session-refused (transition_ride settings env ride_id payload user) w
        (ap (λ p. p.0) tried) (ap (λ p. p.1.strings) tried ∙ strings)
        (ap (λ p. p.1.geo) tried ∙ geo)

  pub same_ride :
      (ride_id : Uuid) (ride : Ride) (db : Db)
      → ride_of db ride_id ≡ some ride
      → (r : Ride) → ride_of db ride.id ≡ some r
      → r ≡ ride
  same_ride ride_id ride db e r found =
      some_inj (sym found ∙ ap (ride_of db) (ride_of-id db ride_id ride e) ∙ e)

  -- Where there is one ride under each `id`, for a user with a right to the ride, a target that the
  -- graph does not allow from the ride's status, or a version that is not the ride's, ends in 422
  -- if the target is not allowed and in 409 if it is; either way everything is left as it was,
  -- Redis included.
  pub serve_transition-refused :
      (ride_id : Uuid) (payload : RideTransitionRequest) (user : User) (ride : Ride) (w : World)
      → IsKeyedDb w.db
      → ride_of w.db ride_id ≡ some ride
      → may_transition user ride payload.target_status ≡ true
      → (allowed ride.status payload.target_status ≡ false)
        ⊎ (payload.expected_version ≢ pos ride.version)
      → serve_transition settings env ride_id payload user w
        ≡ (err (http_exception (if allowed ride.status payload.target_status then 409 else 422)), w)
  serve_transition-refused ride_id payload user ride w k e right why =
      elim (Bool-cases (allowed ride.status payload.target_status)) [
        | inr illegal ↦ rw illegal (
            serve-refused ride_id payload user ride w e right (
              ap (λ p. p.0)
                (apply-illegal env.now (env.uuid 0) ride payload.target_status
                  payload.expected_version none w.db illegal)))
        | inl legal ↦ rw legal (
            serve-refused ride_id payload user ride w e right
              (apply-stale env.now (env.uuid 0) ride payload.target_status payload.expected_version
                none w.db k legal
                (λ r found.
                  int_eqb-other r.version payload.expected_version
                    (rw (same_ride ride_id ride w.db e r found) (stale legal why)))).0)
      ]
    where
      stale :
          allowed ride.status payload.target_status ≡ true
          → (allowed ride.status payload.target_status ≡ false)
            ⊎ (payload.expected_version ≢ pos ride.version)
          → payload.expected_version ≢ pos ride.version
      stale legal (inl illegal) = cc (legal, illegal)
      stale legal (inr other) = other
