-- ===== src/Drivers/Stored.antt =====
-- The profile that a request of a driver answers with, in the table and in the pool.
use ride_flow.Prelude.{
  Bool, true, false, nat_eq, Option-cases, ◌≡◌, refl, sym, ap, ◌∙◌, subst, arith, Bool-cases, inl,
  inr,
}
use ride_flow.Models.{User, DriverProfile}
use ride_flow.Schemas.{HeartbeatRequest, AvailabilityRequest}
use ride_flow.Sql.{Sql}
use ride_flow.Redis.{Redis}
use ride_flow.Database.{World, Result, ok, on_db}
use ride_flow.Database.Sessions.{bind-ok, with_session-ok}
use ride_flow.Request.{Env}
use ride_flow.Drivers.{
  get_or_create_profile, save_profile, seen, switched, locate_if_available, record_heartbeat,
  heartbeat_of, heartbeat, enter_pool, leave_pool, enter_or_leave, switch, set_availability_of,
  set_availability, serve_heartbeat, serve_set_availability,
}
use ride_flow.Drivers.Pool.{
  Switched, Beaten, guarded, enter_or_leave-done, serve_set_availability-Switched,
  serve_heartbeat-Beaten,
}
use ride_flow.Drivers.Saved.{IsStored, get_or_create-IsMade, save-IsStored}

module _ ⦃sql : Sql⦄ ⦃redis : Redis⦄ (env : Env) (user : User) where
  enter_or_leave-db :
      (b : Bool) (q : DriverProfile) (w : World) → (enter_or_leave b user q w).1.db ≡ w.db
  unfolding enter_or_leave leave_pool enter_pool
  enter_or_leave-db true q w = elim (Option-cases q.last_lat) [
    | inl unknown ↦ rw unknown refl
    | inr (lat, known) ↦ elim (Option-cases q.last_lng) [
      | inl unknown ↦ rw (known, unknown) refl
      | inr (lng, also) ↦ rw (known, also) refl
    ]
  ]
  enter_or_leave-db false q w = refl

  located :
      (payload : HeartbeatRequest) (q p : DriverProfile) (w : World)
      → (locate_if_available user payload q w).0 ≡ ok p
      → (p ≡ q) × ((locate_if_available user payload q w).1.db ≡ w.db)
  unfolding locate_if_available
  located payload q p w done = elim (Bool-cases q.is_available) [
    | inl on ↦ (ground arith, rw on refl)
    | inr off ↦ (ground arith, rw off refl)
  ]

  switched-IsStored :
      (payload : AvailabilityRequest) (p : DriverProfile) (w : World)
      → (set_availability_of env payload user w).0 ≡ ok p
      → IsStored user p (set_availability_of env payload user w).1.db
  unfolding set_availability_of switch save_profile
  switched-IsStored payload p w done =
      let start = on_db (get_or_create_profile env user) in
      let (profile, made, rest) = bind-ok start (switch payload user) w done in
      let q = switched payload profile in
      let saved : World = record w {
        db = (save_profile q (get_or_create_profile env user w.db).1).1;
      } in
      let same =
        (enter_or_leave-done user payload.is_available q p saved
          (ap (λ x. x.0) (sym rest) ∙ done)).0 in
      let stored =
        save-IsStored user profile q (get_or_create_profile env user w.db).1
          (get_or_create-IsMade user env w.db profile made) refl refl in
      subst (λ (x : Result DriverProfile × World). IsStored user p x.1.db) (sym rest)
        (subst (IsStored user p) (sym (enter_or_leave-db payload.is_available q saved))
          (subst (λ x. IsStored user x saved.db) (sym same) stored))

  seen-IsStored :
      (payload : HeartbeatRequest) (p : DriverProfile) (w : World)
      → (heartbeat_of env payload user w).0 ≡ ok p
      → IsStored user p (heartbeat_of env payload user w).1.db
  unfolding heartbeat_of record_heartbeat save_profile
  seen-IsStored payload p w done =
      let start = on_db (get_or_create_profile env user) in
      let (profile, made, rest) = bind-ok start (record_heartbeat env payload user) w done in
      let q = seen env payload profile in
      let saved : World = record w {
        db = (save_profile q (get_or_create_profile env user w.db).1).1;
      } in
      let (same, kept) = located payload q p saved (ap (λ x. x.0) (sym rest) ∙ done) in
      let stored =
        save-IsStored user profile q (get_or_create_profile env user w.db).1
          (get_or_create-IsMade user env w.db profile made) refl refl in
      subst (λ (x : Result DriverProfile × World). IsStored user p x.1.db) (sym rest)
        (subst (IsStored user p) (sym kept)
          (subst (λ x. IsStored user x saved.db) (sym same) stored))

  -- A request for availability that is answered with a profile has set it to what was asked for,
  -- and the table has the user's profile as it is answered: a driver who is available is in the
  -- pool exactly at the location of the profile, one who is not is not in the pool, and every other
  -- driver's position is as it was.
  pub serve_set_availability-pool :
      (payload : AvailabilityRequest) (p : DriverProfile) (w : World)
      → (serve_set_availability env payload user w).0 ≡ ok p
      → let w' = (serve_set_availability env payload user w).1 in
        Switched user payload w p w' × IsStored user p w'.db
  unfolding serve_set_availability set_availability
  serve_set_availability-pool payload p w done =
      let (handled, _, committed) = with_session-ok (set_availability env payload user) w done in
      let inner = guarded user (set_availability_of env payload) p w handled in
      (
        serve_set_availability-Switched env user payload p w done,
        subst (λ (x : World). IsStored user p x.db) (sym (committed ∙ ap (λ x. x.1) inner))
            (switched-IsStored payload p w (ap (λ x. x.0) (sym inner) ∙ handled)),
      )

  -- A heartbeat that is answered with a profile has stored the location there, in the table as in
  -- the answer, has put an available driver into the pool at that location, and has moved nobody
  -- else.
  pub serve_heartbeat-pool :
      (payload : HeartbeatRequest) (p : DriverProfile) (w : World)
      → (serve_heartbeat env payload user w).0 ≡ ok p
      → let w' = (serve_heartbeat env payload user w).1 in
        Beaten user payload w p w' × IsStored user p w'.db
  unfolding serve_heartbeat heartbeat
  serve_heartbeat-pool payload p w done =
      let (handled, _, committed) = with_session-ok (heartbeat env payload user) w done in
      let inner = guarded user (heartbeat_of env payload) p w handled in
      (
        serve_heartbeat-Beaten env user payload p w done,
        subst (λ (x : World). IsStored user p x.db) (sym (committed ∙ ap (λ x. x.1) inner))
            (seen-IsStored payload p w (ap (λ x. x.0) (sym inner) ∙ handled)),
      )
