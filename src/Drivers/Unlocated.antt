-- ===== src/Drivers/Unlocated.antt =====
-- A driver without a location who asks to be available.
use ride_flow.Prelude.{true, nat_eqb, none, List, [], ◌∷◌, filterb, ◌≡◌, refl, ap, ◌∙◌, arith}
use ride_flow.Models.{Uuid, User, DriverProfile, driver}
use ride_flow.Models.Sets.{DriverProfile-set}
use ride_flow.Schemas.{AvailabilityRequest}
use ride_flow.Sql.{Sql}
use ride_flow.Sql.Rows.{select-one}
use ride_flow.Redis.{Redis}
use ride_flow.Database.{Db, World, ok, err, http_exception}
use ride_flow.Database.Sessions.{with_session-refused}
use ride_flow.Request.{Env}
use ride_flow.Dependencies.{require_roles}
use ride_flow.Drivers.{
  profile_of, keep_or_create, get_or_create_profile, save_profile, enter_pool, enter_or_leave,
  switch, set_availability_of, set_availability, serve_set_availability,
}

module _ ⦃sql : Sql⦄ where
  -- The profiles of a user.
  abbrev pub profiles_of : Uuid → Db → List DriverProfile
  profiles_of id db =
      filterb (λ (p : DriverProfile). nat_eqb p.user_id id) (sql.rows db.driver_profiles)

  found_profile :
      (env : Env) (user : User) (profile : DriverProfile) (db : Db)
      → profiles_of user.id db ≡ profile ∷ []
      → get_or_create_profile env user db ≡ (ok profile, db)
  unfolding get_or_create_profile profile_of keep_or_create
  found_profile env user profile db there =
      let found =
        select-one (λ (p : DriverProfile). nat_eqb p.user_id user.id) db.driver_profiles
          DriverProfile-set profile there in
      ground arith

module _ ⦃sql : Sql⦄ ⦃redis : Redis⦄ (env : Env) (payload : AvailabilityRequest) (user : User)
    (profile : DriverProfile) (w : World) where
  switch-unlocated :
      payload.is_available ≡ true
      → profile.last_lat ≡ none
      → let (result, w') = switch payload user profile w in
        (result ≡ err (http_exception 400)) × (w'.strings ≡ w.strings) × (w'.geo ≡ w.geo)
  unfolding switch save_profile enter_or_leave enter_pool
  switch-unlocated on nowhere = rw (on, nowhere) (refl, refl, refl)

  set_availability-switch :
      user.role ≡ driver
      → profiles_of user.id w.db ≡ profile ∷ []
      → set_availability env payload user w ≡ switch payload user profile w
  unfolding set_availability set_availability_of require_roles
  set_availability-switch role there =
      let found = found_profile env user profile w.db there in ground arith

  -- A driver whose profile has no location cannot become available: the request ends in 400 and
  -- leaves everything as it was, the profile and the pool included.
  pub serve_set_availability-unlocated :
      user.role ≡ driver
      → payload.is_available ≡ true
      → profiles_of user.id w.db ≡ profile ∷ []
      → profile.last_lat ≡ none
      → serve_set_availability env payload user w ≡ (err (http_exception 400), w)
  unfolding serve_set_availability
  serve_set_availability-unlocated role on there nowhere =
      let same = set_availability-switch role there in
      let (refused, strings, geo) = switch-unlocated on nowhere in
      with_session-refused (set_availability env payload user) w (ap (λ x. x.0) same ∙ refused)
        (ap (λ x. x.1.strings) same ∙ strings) (ap (λ x. x.1.geo) same ∙ geo)
