-- ===== src/Rides/Outcomes.antt =====
-- What a request on a ride does where nothing stands against it.
use ride_flow.Prelude.{
  ◌&&◌, true, false, int_eqb_refl, if◌then◌else◌, ◌==◌, none, some, [], ◌∷◌, ◌++◌, ◌≡◌, refl, subst,
  ◌∙◌, ap, arith, pos,
}
use ride_flow.Models.{RideStatus, Uuid, User, Ride, requested, matching, cancelled, status_eq}
use ride_flow.Schemas.{RideTransitionRequest}
use ride_flow.Config.{Settings}
use ride_flow.Sql.{Sql}
use ride_flow.Redis.{Redis}
use ride_flow.Database.{Db, World, ok, constraints}
use ride_flow.Database.Sessions.{with_session-done}
use ride_flow.StateMachine.{allowed, apply_transition, new_values, status_changed}
use ride_flow.StateMachine.Update.{ride_of, ride_of-id, IsKeyedDb, SameRest, Replaces, events}
use ride_flow.StateMachine.Apply.{apply-done}
use ride_flow.Request.{Env}
use ride_flow.Rides.Transition.{
  may_transition, release_driver_of, release_if_cancelled, move_ride, perform_transition,
  transition_ride, serve_transition,
}
use ride_flow.Rides.Refusals.{transition_ride-tried, catching-done}

module _ ⦃sql : Sql⦄ where
  -- The constraints speak of the other tables.
  pub constraints-same : (db db' : Db) → SameRest db db' → constraints db' ≡ constraints db
  unfolding constraints
  constraints-same db db' (users, tokens, profiles, records) = rw (users, tokens, profiles, records)

module _ ⦃sql : Sql⦄ ⦃redis : Redis⦄ (env : Env) where
  move_ride-done :
      (ride after : Ride) (target : RideStatus) (w : World)
      → (apply_transition env.now (env.uuid 0) ride target (pos ride.version) none w.db).0
        ≡ ok (record { ride = after; previous_status = ride.status })
      → move_ride env ride target (pos ride.version) w ≡ (
        ok after,
        record w {
          db = (apply_transition env.now (env.uuid 0) ride target (pos ride.version) none w.db).1;
          strings =
              if target == cancelled
              then release_driver_of env after.id after.driver_id w.strings
              else w.strings;
        },
      )
  unfolding move_ride release_if_cancelled
  move_ride-done ride after target w done = ground arith

module _ ⦃sql : Sql⦄ ⦃redis : Redis⦄ (settings : Settings) (env : Env) (ride_id : Uuid)
    (payload : RideTransitionRequest) (user : User) (ride : Ride) (w : World) (k : IsKeyedDb w.db)
    (e : ride_of w.db ride_id ≡ some ride)
    (right : may_transition user ride payload.target_status ≡ true) (fine : constraints w.db ≡ true)
    (expects : payload.expected_version ≡ pos ride.version) where
  perform-plain :
      (payload.target_status == matching && ride.status == requested) ≡ false
      → perform_transition settings env payload ride w
        ≡ move_ride env ride payload.target_status payload.expected_version w
  unfolding perform_transition
  perform-plain plain = rw plain

  -- The request as it ends, if its handler returns and leaves the other tables alone.
  pub serve-done :
      (a : Ride) (w' : World)
      → perform_transition settings env payload ride w ≡ (ok a, w')
      → SameRest w.db w'.db
      → serve_transition settings env ride_id payload user w ≡ (ok a, w')
  unfolding serve_transition
  serve-done a w' done rest =
      let h = transition_ride settings env ride_id payload user in
      let tried : h w ≡ (ok a, w') =
        transition_ride-tried settings env ride_id payload user ride w e right
        ∙ catching-done (perform_transition settings env payload ride) w (ap (λ p. p.0) done)
        ∙ done in
      with_session-done h w (ap (λ p. p.0) tried)
        (ap (λ p. constraints p.1.db) tried ∙ constraints-same w.db w'.db rest ∙ fine)
      ∙ tried

  -- On a database that is in order and has one ride under each `id`, a user with a right to the
  -- ride, who expects its version, moves it to any status that the graph allows, but for the match
  -- of a requested ride: the ride has the new status, the next version and the driver that it had,
  -- no other ride changes, and one event is added. A cancellation gives back the reservation of the
  -- ride's driver; nothing else in Redis changes.
  pub serve_transition-done :
      (payload.target_status == matching && ride.status == requested) ≡ false
      → allowed ride.status payload.target_status ≡ true
      → let target = payload.target_status in
        let after = new_values env.now target none ride in
        let (result, w') = serve_transition settings env ride_id payload user w in
        (result ≡ ok after)
        × Replaces w.db w'.db ride_id after
        × (events w'.db
            ≡ events w.db ++ (status_changed env.now (env.uuid 0) after ride.status target ∷ []))
        × (w'.strings ≡ (
            if target == cancelled
            then release_driver_of env ride_id ride.driver_id w.strings
            else w.strings))
        × (w'.geo ≡ w.geo)
  serve_transition-done plain legal =
      let target = payload.target_status in
      let after = new_values env.now target none ride in
      let itself = ride_of-id w.db ride_id ride e in
      let db' =
        (apply_transition env.now (env.uuid 0) ride target (pos ride.version) none w.db).1 in
      let done =
        apply-done env.now (env.uuid 0) ride target (pos ride.version) none w.db ride k legal
          (ap (ride_of w.db) itself ∙ e) (int_eqb_refl ride.version) in
      let w' : World = record w {
        db = db';
        strings =
            if target == cancelled
            then release_driver_of env ride.id ride.driver_id w.strings
            else w.strings;
      } in
      let moved : perform_transition settings env payload ride w ≡ (ok after, w') =
        perform-plain plain
        ∙ ap (λ v. move_ride env ride target v w) expects
        ∙ move_ride-done env ride after target w done.0 in
      let served = serve-done after w' moved done.4 in
      rw served (
        refl,
        subst (λ i. Replaces w.db db' i after) itself done.1,
        done.3,
        ap
            (λ i.
              if target == cancelled
              then release_driver_of env i ride.driver_id w.strings
              else w.strings)
            itself,
        refl,
      )
