-- ===== src/Drivers/Runs.antt =====
-- The pool agrees with the profiles under any sequence of requests and sweeps.
use ride_flow.Prelude.{
  Bool, true, false, ◌==◌, nat_eq, nat_eqb, nat_eqb_iff, if◌then◌else◌, [], ◌∷◌, Option, none, some,
  find_by, find_meets, ◌≡◌, refl, sym, ap, ◌∙◌, subst, arith, Bool-cases, inl, inr,
}
use ride_flow.Models.{Uuid, Float, User, DriverProfile, driver, role_eqb}
use ride_flow.Schemas.{HeartbeatRequest, AvailabilityRequest, driver_out}
use ride_flow.Sql.{Sql}
use ride_flow.Redis.{Redis}
use ride_flow.Database.{
  World, Handler, Result, ok, err, on_db, ◌>>=◌, pure, with_session, Result-cases,
}
use ride_flow.Database.Sessions.{with_session-done, with_session-raised}
use ride_flow.Request.{Env}
use ride_flow.Dependencies.{require_roles}
use ride_flow.Matching.{upsert_driver_location, remove_driver_from_pool}
use ride_flow.Drivers.{
  get_or_create_profile, save_profile, seen, switched, locate_if_available, record_heartbeat,
  heartbeat_of, heartbeat, enter_pool, leave_pool, enter_or_leave, switch, set_availability_of,
  set_availability, serve_heartbeat, serve_set_availability, get_my_profile, serve_my_profile,
}
use ride_flow.Drivers.Profiles.{id_of}
use ride_flow.Drivers.Agreement.{
  spot, profile_at, Agrees, Works, get_or_create-Agrees, saved-Agrees,
}

module _ ⦃sql : Sql⦄ ⦃redis : Redis⦄ where
  -- How a handler may end: it returns and the pool agrees, or it raises and has not touched it.
  abbrev pub IsFine : {A : Type 0} → World → Result A × World → Type 0
  IsFine w (ok a, w') = Agrees w'
  IsFine w (err e, w') = w'.geo ≡ w.geo

  rolled_back : (w w' : World) → w'.geo ≡ w.geo → Agrees w → Agrees (record w' { db = w.db })
  rolled_back w w' same a = record {
    by_user = a.by_user;
    by_id = a.by_id;
    fine = a.fine;
    placed = λ j. ap (λ g. redis.position g j) same ∙ a.placed j;
  }

  pub session-Agrees :
      {A : Type 0} (h : Handler A) (w : World)
      → Agrees w
      → IsFine w (h w)
      → Agrees (with_session h w).1
  session-Agrees h w a fine = elim (Result-cases (h w).0) [
    | inl (x, done) ↦
        let kept : Agrees (h w).1 = subst (λ r. IsFine w (r, (h w).1)) done fine in
        subst Agrees (sym (ap (λ x. x.1) (with_session-done h w done kept.fine))) kept
    | inr (e, raised) ↦
        let same : (h w).1.geo ≡ w.geo = subst (λ r. IsFine w (r, (h w).1)) raised fine in
        subst Agrees (sym (ap (λ x. x.1) (with_session-raised h w raised)))
          (rolled_back w (h w).1 same a)
  ]

  -- Behind the guard of the role.
  guarded-IsFine :
      {A : Type 0} (h : User → Handler A) (user : User) (w : World)
      → IsFine w (h user w)
      → IsFine w ((require_roles (driver ∷ []) user >>= h) w)
  unfolding require_roles
  guarded-IsFine h user w fine = elim (Bool-cases (role_eqb user.role driver)) [
    | inl own ↦ rw own fine
    | inr other ↦ rw other refl
  ]

  shift :
      {A : Type 0} (w w' : World) (r : Result A × World) → w'.geo ≡ w.geo → IsFine w' r → IsFine w r
  shift w w' (ok x, w'') same fine = fine
  shift w w' (err e, w'') same fine = fine ∙ same

  bind-made :
      {A B : Type 0} (m : Handler A) (rest : A → Handler B) (w w' : World) (x : A)
      → m w ≡ (ok x, w')
      → (m >>= rest) w ≡ rest x w'
  bind-made m rest w w' x made = ground arith

  module _ (env : Env) (user : User) (w : World) (a : Agrees w)
      (fresh : find_by id_of (env.uuid 0) (sql.rows w.db.driver_profiles) ≡ none) where
    -- After the profile is there, the rest.
    with_profile-IsFine :
        (rest : DriverProfile → Handler DriverProfile)
        → ((p : DriverProfile) (w' : World) → Works user w' p → IsFine w' (rest p w'))
        → IsFine w ((on_db (get_or_create_profile env user) >>= rest) w)
    with_profile-IsFine rest k =
        let (p, w', made, geo, works) = get_or_create-Agrees env user w a fresh in
        subst (IsFine w) (sym (bind-made (on_db (get_or_create_profile env user)) rest w w' p made))
          (shift w w' (rest p w') geo (k p w' works))

  shown :
      {A B : Type 0} (f : A → B) (r : Result A) (w w' : World)
      → IsFine w (r, w')
      → IsFine w (
          let out : Result B × World = elim r [ ok a ↦ (ok (f a), w') | err e ↦ (err e, w') ] in
          out)
  shown f (ok a) w w' fine = fine
  shown f (err e) w w' fine = fine

  -- The user of the profile that is found.
  user_of-found :
      (user : User) (w : World) (p : DriverProfile)
      → profile_at w.db user.id ≡ some p
      → p.user_id ≡ user.id
  user_of-found user w p found =
      (nat_eqb_iff p.user_id user.id).0
        (find_meets (λ r. nat_eqb r.user_id user.id) (sql.rows w.db.driver_profiles) p found)

  module _ (user : User) (w : World) (p q : DriverProfile) (works : Works user w p)
      (id : p.id ≡ q.id) (owner : p.user_id ≡ q.user_id) where
    abbrev saved : World
    saved = record w { db = (save_profile q w.db).1 }

    mine : q.user_id ≡ user.id
    mine = sym owner ∙ user_of-found user w p works.1

    held : profile_at w.db q.user_id ≡ some p
    held = ap (profile_at w.db) mine ∙ works.1

    -- The new position of one driver.
    told :
        (geo : redis.Geo) (place : Option (Float × Float))
        → ((j : Uuid)
            → redis.position geo j ≡ (if j == user.id then place else redis.position w.geo j))
        → spot (some q) ≡ place
        → Agrees (record w { db = (save_profile q w.db).1; geo = geo })
    told geo place moved says = saved-Agrees q p w geo works.0 held id (λ j.
        moved j
        ∙ ap (λ u. if nat_eqb j u then place else redis.position w.geo j) (sym mine)
        ∙ ap (λ s. if nat_eqb j q.user_id then s else redis.position w.geo j) (sym says))

    enter_pool-IsFine :
        (lat lng : Option Float)
        → q.is_available ≡ true
        → q.last_lat ≡ lat
        → q.last_lng ≡ lng
        → IsFine w (enter_pool user q lat lng saved)
    unfolding enter_pool upsert_driver_location
    enter_pool-IsFine (some lat) (some lng) on at_lat at_lng =
        told (redis.geoadd lng lat user.id w.geo) (some (lng, lat))
          (λ j. redis.position-geoadd lng lat user.id w.geo j) (rw (on, at_lat, at_lng) refl)
    enter_pool-IsFine none lng on at_lat at_lng = refl
    enter_pool-IsFine (some lat) none on at_lat at_lng = refl

    enter_or_leave-IsFine :
        (b : Bool) → q.is_available ≡ b → IsFine w (enter_or_leave b user q saved)
    unfolding enter_or_leave leave_pool remove_driver_from_pool
    enter_or_leave-IsFine true on = enter_pool-IsFine q.last_lat q.last_lng on refl refl
    enter_or_leave-IsFine false off =
        told (redis.zrem user.id w.geo) none (λ j. redis.position-zrem user.id w.geo j)
          (rw off refl)

    -- A driver who is not available is not in the pool.
    stays :
        p.is_available ≡ false
        → (j : Uuid)
        → redis.position w.geo j ≡ (if j == user.id then none else redis.position w.geo j)
    stays off j = elim (Bool-cases (j == user.id)) [
      | inl hit ↦
          let away : spot (some p) ≡ none = rw off refl in
          let here = (nat_eqb_iff j user.id).0 hit in
          rw hit (ap (redis.position w.geo) here ∙ works.0.placed user.id ∙ ap spot works.1 ∙ away)
      | inr miss ↦ rw miss refl
    ]

    locate-IsFine :
        (b : Bool) (payload : HeartbeatRequest)
        → q.is_available ≡ b
        → p.is_available ≡ b
        → q.last_lat ≡ some payload.lat
        → q.last_lng ≡ some payload.lng
        → IsFine w (locate_if_available user payload q saved)
    unfolding locate_if_available upsert_driver_location
    locate-IsFine true payload on was at_lat at_lng =
        let moved : World = record saved {
          geo = redis.geoadd payload.lng payload.lat user.id w.geo;
        } in
        subst (λ (b : Bool). IsFine w (if b then (ok q, moved) else (ok q, saved))) (sym on)
          (told (redis.geoadd payload.lng payload.lat user.id w.geo)
            (some (payload.lng, payload.lat))
            (λ j. redis.position-geoadd payload.lng payload.lat user.id w.geo j)
            (rw (on, at_lat, at_lng) refl))
    locate-IsFine false payload off was at_lat at_lng =
        let moved : World = record saved {
          geo = redis.geoadd payload.lng payload.lat user.id w.geo;
        } in
        subst (λ (b : Bool). IsFine w (if b then (ok q, moved) else (ok q, saved))) (sym off)
          (told w.geo none (stays was) (rw off refl))

  module _ (env : Env) (user : User) (w : World) (a : Agrees w)
      (fresh : find_by id_of (env.uuid 0) (sql.rows w.db.driver_profiles) ≡ none) where
    pub serve_set_availability-Agrees :
        (payload : AvailabilityRequest) → Agrees (serve_set_availability env payload user w).1
    unfolding serve_set_availability set_availability set_availability_of switch save_profile
    serve_set_availability-Agrees payload = session-Agrees (set_availability env payload user) w a (
        guarded-IsFine (set_availability_of env payload) user w (
          with_profile-IsFine env user w a fresh (switch payload user) (λ p w' works.
            enter_or_leave-IsFine user w' p (switched payload p) works refl refl
              payload.is_available refl)))

    pub serve_heartbeat-Agrees :
        (payload : HeartbeatRequest) → Agrees (serve_heartbeat env payload user w).1
    unfolding serve_heartbeat heartbeat heartbeat_of record_heartbeat save_profile
    serve_heartbeat-Agrees payload = session-Agrees (heartbeat env payload user) w a (
        guarded-IsFine (heartbeat_of env payload) user w (
          with_profile-IsFine env user w a fresh (record_heartbeat env payload user) (λ p w' works.
            locate-IsFine user w' p (seen env payload p) works refl refl p.is_available payload refl
              refl refl refl)))

    pub serve_my_profile-Agrees : Agrees (serve_my_profile env user w).1
    unfolding serve_my_profile get_my_profile
    serve_my_profile-Agrees =
        let (p, w', made, geo, works) = get_or_create-Agrees env user w a fresh in
        let found : IsFine w (on_db (get_or_create_profile env user) w) =
          subst (IsFine w) (sym made) works.0 in
        let (r, v) = get_my_profile env user w in
        session-Agrees (get_my_profile env user >>= λ profile. pure (driver_out profile)) w a (
          shown (λ (p : DriverProfile). driver_out p) r w v
            (guarded-IsFine (λ user. on_db (get_or_create_profile env user)) user w found))
