-- ===== src/Drivers/Pool.antt =====
-- What the requests of a driver do to the pool of the matching.
use ride_flow.Prelude.{
  Bool, true, false, ◌==◌, nat_eq, if◌then◌else◌, ◌&&◌, [], ◌∷◌, Option, none, some, ◌≡◌, inl, inr,
  refl, sym, ap, subst, ◌∙◌, arith, Bool-cases,
}
use ride_flow.Models.{Uuid, Float, User, role_eqb, DriverProfile, driver}
use ride_flow.Schemas.{HeartbeatRequest, AvailabilityRequest}
use ride_flow.Sql.{Sql}
use ride_flow.Redis.{Redis}
use ride_flow.Database.{World, Result, ok, Handler, ◌>>=◌, on_db}
use ride_flow.Database.Sessions.{bind-ok, with_session-ok}
use ride_flow.Request.{Env}
use ride_flow.Dependencies.{require_roles}
use ride_flow.Matching.{upsert_driver_location, remove_driver_from_pool}
use ride_flow.Drivers.{
  get_or_create_profile, save_profile, seen, switched, locate_if_available, record_heartbeat,
  heartbeat_of, heartbeat, enter_pool, leave_pool, enter_or_leave, switch, set_availability_of,
  set_availability, serve_heartbeat, serve_set_availability,
}

-- The location of a profile, as Redis has it: longitude first.
abbrev pub place_of : Option Float → Option Float → Option (Float × Float)
place_of (some lat) (some lng) = some (lng, lat)
place_of _ _ = none

module _ ⦃sql : Sql⦄ ⦃redis : Redis⦄ (user : User) where
  -- Every position but the user's is as it was.
  abbrev pub Places : redis.Geo → redis.Geo → Option (Float × Float) → Type 0
  Places geo geo' place =
      (j : Uuid) → redis.position geo' j ≡ (if j == user.id then place else redis.position geo j)

  enter_pool-done :
      (profile p : DriverProfile) (lat lng : Option Float) (w : World)
      → (enter_pool user profile lat lng w).0 ≡ ok p
      → (p ≡ profile) × Places w.geo (enter_pool user profile lat lng w).1.geo (place_of lat lng)
  unfolding enter_pool upsert_driver_location
  enter_pool-done profile p (some lat) (some lng) w done =
      (ground arith, λ j. redis.position-geoadd lng lat user.id w.geo j)
  enter_pool-done profile p none lng w done = cc
  enter_pool-done profile p (some lat) none w done = cc

  pub enter_or_leave-done :
      (b : Bool) (profile p : DriverProfile) (w : World)
      → (enter_or_leave b user profile w).0 ≡ ok p
      → (p ≡ profile)
        × Places w.geo
            (enter_or_leave b user profile w).1.geo
            (if b then place_of profile.last_lat profile.last_lng else none)
  unfolding enter_or_leave leave_pool remove_driver_from_pool
  enter_or_leave-done true profile p w done =
      enter_pool-done profile p profile.last_lat profile.last_lng w done
  enter_or_leave-done false profile p w done =
      (ground arith, λ j. redis.position-zrem user.id w.geo j)

  -- What a request that returned has done: the profile has the availability that was asked for,
  -- and the pool has the driver at the profile's location, or not at all.
  abbrev pub Switched : AvailabilityRequest → World → DriverProfile → World → Type 0
  Switched payload w p w' =
      (p.is_available ≡ payload.is_available)
      × Places w.geo w'.geo (if payload.is_available then place_of p.last_lat p.last_lng else none)

  switch-Switched :
      (payload : AvailabilityRequest) (profile p : DriverProfile) (w : World)
      → (switch payload user profile w).0 ≡ ok p
      → Switched payload w p (switch payload user profile w).1
  unfolding switch save_profile
  switch-Switched payload profile p w done =
      let (same, places) =
        enter_or_leave-done payload.is_available (switched payload profile) p _ done in
      (
        ap (λ (q : DriverProfile). q.is_available) same,
        subst
            (λ (q : DriverProfile).
              Places w.geo (switch payload user profile w).1.geo
                (if payload.is_available then place_of q.last_lat q.last_lng else none))
            (sym same) places,
      )

  set_availability_of-Switched :
      (env : Env) (payload : AvailabilityRequest) (p : DriverProfile) (w : World)
      → (set_availability_of env payload user w).0 ≡ ok p
      → Switched payload w p (set_availability_of env payload user w).1
  unfolding set_availability_of
  set_availability_of-Switched env payload p w done =
      let start = on_db (get_or_create_profile env user) in
      let (profile, e, rest) = bind-ok start (switch payload user) w done in
      subst (λ (x : Result DriverProfile × World). Switched payload w p x.1) (sym rest)
        (switch-Switched payload profile p (start w).1 (ap (λ x. x.0) (sym rest) ∙ done))

  -- What a heartbeat that returned has done: the profile has the location, and so does the pool if
  -- the driver is available.
  abbrev pub Beaten : HeartbeatRequest → World → DriverProfile → World → Type 0
  Beaten payload w p w' =
      (p.last_lat ≡ some payload.lat)
      × (p.last_lng ≡ some payload.lng)
      × ((j : Uuid)
          → redis.position w'.geo j ≡ (
              if j == user.id && p.is_available
              then some (payload.lng, payload.lat)
              else redis.position w.geo j))

  pub locate-Beaten :
      (b : Bool) (payload : HeartbeatRequest) (profile p : DriverProfile) (w : World)
      → profile.is_available ≡ b
      → profile.last_lat ≡ some payload.lat
      → profile.last_lng ≡ some payload.lng
      → (locate_if_available user payload profile w).0 ≡ ok p
      → Beaten payload w p (locate_if_available user payload profile w).1
  unfolding locate_if_available upsert_driver_location
  locate-Beaten true payload profile p w e lat lng done =
      let same : profile ≡ p = ground arith in
      subst
        (λ (q : DriverProfile). Beaten payload w q (locate_if_available user payload profile w).1)
        same
        (
          lat,
          lng,
          λ j. ground (arith, redis.position-geoadd payload.lng payload.lat user.id w.geo j),
        )
  locate-Beaten false payload profile p w e lat lng done =
      let same : profile ≡ p = ground arith in
      subst
        (λ (q : DriverProfile). Beaten payload w q (locate_if_available user payload profile w).1)
        same (lat, lng, λ j. ground arith)

  heartbeat_of-Beaten :
      (env : Env) (payload : HeartbeatRequest) (p : DriverProfile) (w : World)
      → (heartbeat_of env payload user w).0 ≡ ok p
      → Beaten payload w p (heartbeat_of env payload user w).1
  unfolding heartbeat_of record_heartbeat save_profile
  heartbeat_of-Beaten env payload p w done =
      let start = on_db (get_or_create_profile env user) in
      let (profile, e, rest) = bind-ok start (record_heartbeat env payload user) w done in
      subst (λ (x : Result DriverProfile × World). Beaten payload w p x.1) (sym rest)
        (locate-Beaten profile.is_available payload (seen env payload profile) p _ refl refl refl
          (ap (λ x. x.0) (sym rest) ∙ done))

  pub guarded :
      {A : Type 0} (h : User → Handler A) (a : A) (w : World)
      → ((require_roles (driver ∷ []) user >>= h) w).0 ≡ ok a
      → (require_roles (driver ∷ []) user >>= h) w ≡ h user w
  unfolding require_roles
  guarded h a w done = elim (Bool-cases (role_eqb user.role driver)) [
    | inl own ↦ ground arith
    | inr other ↦ ground arith
  ]

module _ ⦃sql : Sql⦄ ⦃redis : Redis⦄ (env : Env) (user : User) where
  pub serve_set_availability-Switched :
      (payload : AvailabilityRequest) (p : DriverProfile) (w : World)
      → (serve_set_availability env payload user w).0 ≡ ok p
      → Switched user payload w p (serve_set_availability env payload user w).1
  unfolding serve_set_availability set_availability
  serve_set_availability-Switched payload p w done =
      let (handled, _, committed) = with_session-ok (set_availability env payload user) w done in
      let inner = guarded user (set_availability_of env payload) p w handled in
      let result =
        set_availability_of-Switched user env payload p w (ap (λ x. x.0) (sym inner) ∙ handled) in
      subst (Switched user payload w p) (sym (committed ∙ ap (λ x. x.1) inner)) result

  pub serve_heartbeat-Beaten :
      (payload : HeartbeatRequest) (p : DriverProfile) (w : World)
      → (serve_heartbeat env payload user w).0 ≡ ok p
      → Beaten user payload w p (serve_heartbeat env payload user w).1
  unfolding serve_heartbeat heartbeat
  serve_heartbeat-Beaten payload p w done =
      let (handled, _, committed) = with_session-ok (heartbeat env payload user) w done in
      let inner = guarded user (heartbeat_of env payload) p w handled in
      let result = heartbeat_of-Beaten user env payload p w (ap (λ x. x.0) (sym inner) ∙ handled) in
      subst (Beaten user payload w p) (sym (committed ∙ ap (λ x. x.1) inner)) result
