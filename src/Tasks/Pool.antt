-- ===== src/Tasks/Pool.antt =====
-- The pool agrees with the profiles under any sequence of requests of drivers and sweeps.
use mathlib.Core.List.Perm
use mathlib.Core.List.{Mem, not-mem-nil, eq-or-mem_of_mem-cons}
use mathlib.Core.Logic.Or
use mathlib.Core.Option as Opt
use ride_flow.Prelude.{
  suc, false, nat_eq, nat_eqb, nat_eqb_iff, List, [], ◌∷◌, none, some, find_by, IsKeyed, All,
  All-map, Mem-All, filterb-Mem, ◌≡◌, refl, sym, ap, ◌∙◌, subst, arith, Bool-cases, inl, inr,
  some_inj,
}
use ride_flow.Models.{DateTime, User, DriverProfile}
use ride_flow.Models.Sets.{DriverProfile-set}
use ride_flow.Schemas.{HeartbeatRequest, AvailabilityRequest}
use ride_flow.Config.{Settings}
use ride_flow.Sql.{Sql}
use ride_flow.Redis.{Redis}
use ride_flow.Database.{World, with_session, session_scope, ◌>>=◌, pure, Handler}
use ride_flow.Request.{Env}
use ride_flow.Matching.{remove_driver_from_pool}
use ride_flow.Drivers.{serve_my_profile, serve_heartbeat, serve_set_availability}
use ride_flow.Drivers.Profiles.{id_of, user_of}
use ride_flow.Drivers.Agreement.{profile_at, Agrees, profile_at-saved, saved-Agrees}
use ride_flow.Drivers.Runs.{
  IsFine, session-Agrees, serve_set_availability-Agrees, serve_my_profile-Agrees,
  serve_heartbeat-Agrees,
}
use ride_flow.Tasks.{
  is_stale, evict_driver, evict_each, evict_stale_drivers, run_evict_stale_drivers,
}
use ride_flow.Tasks.Sweeps.{evict_each-counts}

-- A row is found under its user.
found_row :
    (xs : List DriverProfile) (p : DriverProfile)
    → IsKeyed user_of xs
    → Mem p xs
    → find_by user_of p.user_id xs ≡ some p
found_row [] p k m = absurd (not-mem-nil m)
found_row (x ∷ xs) p k m =
    Or.elim (Opt.is_set DriverProfile-set (find_by user_of p.user_id (x ∷ xs)) (some p))
      (eq-or-mem_of_mem-cons m) (λ here. ground arith)
      (λ behind. elim (Bool-cases (nat_eqb x.user_id p.user_id)) [
        | inl hit ↦
            let user = (nat_eqb_iff x.user_id p.user_id).0 hit in
            let twice = sym k.0 ∙ ap (λ u. find_by user_of u xs) user ∙ found_row xs p k.1 behind in
            ground arith
        | inr miss ↦ rw miss (found_row xs p k.1 behind)
      ])

module _ ⦃sql : Sql⦄ ⦃redis : Redis⦄ where
  -- There is a row with the identifier and the user of the profile.
  abbrev IsKnown : World → DriverProfile → Type 0
  IsKnown w p = (r : DriverProfile) × (profile_at w.db p.user_id ≡ some r) × (r.id ≡ p.id)

  evict_driver-Agrees :
      (p : DriverProfile) (w : World) → Agrees w → IsKnown w p → Agrees (evict_driver p w).1
  unfolding evict_driver remove_driver_from_pool
  evict_driver-Agrees p w a (r, found, same) =
      saved-Agrees (record p { is_available = false }) r w (redis.zrem p.user_id w.geo) a found same
        (λ j. redis.position-zrem p.user_id w.geo j)

  evict_driver-IsKnown :
      (p q : DriverProfile) (w : World)
      → Agrees w
      → IsKnown w p
      → IsKnown w q
      → IsKnown (evict_driver p w).1 q
  unfolding evict_driver
  evict_driver-IsKnown p q w a (r, found, same) (s, there, id) =
      let gone : DriverProfile = record p { is_available = false } in
      let now = profile_at-saved gone r w q.user_id a found same in
      elim (Bool-cases (nat_eqb q.user_id p.user_id)) [
        | inl hit ↦
            let user = (nat_eqb_iff q.user_id p.user_id).0 hit in
            let one : r ≡ s = some_inj (sym found ∙ ap (profile_at w.db) (sym user) ∙ there) in
            (gone, now ∙ rw hit refl, sym same ∙ ap (λ (x : DriverProfile). x.id) one ∙ id)
        | inr miss ↦ (s, now ∙ rw miss there, id)
      ]

  -- What is made of the result leaves the world alone.
  after_pure :
      {A B : Type 0} (m : Handler A) (f : A → B) (w : World)
      → ((m >>= λ x. pure (f x)) w).1 ≡ (m w).1
  after_pure m f w = ground arith

  evict_each-Agrees :
      (ps : List DriverProfile) (w : World)
      → Agrees w
      → All (IsKnown w) ps
      → Agrees (evict_each ps w).1
  unfolding evict_each evict_driver
  evict_each-Agrees [] w a known = a
  evict_each-Agrees (p ∷ ps) w a known =
      let first = (evict_driver p w).1 in
      subst Agrees (sym (after_pure (evict_each ps) (λ n. suc n) first)) (
        evict_each-Agrees ps first (evict_driver-Agrees p w a known.0)
          (All-map (λ q k. evict_driver-IsKnown p q w a known.0 k) ps known.1))

  selected-IsKnown :
      (settings : Settings) (now : DateTime) (w : World)
      → Agrees w
      → All (IsKnown w) (sql.select (is_stale settings now) w.db.driver_profiles)
  selected-IsKnown settings now w a =
      let rows = sql.rows w.db.driver_profiles in
      Mem-All (sql.select (is_stale settings now) w.db.driver_profiles) (λ p m.
        let among =
          filterb-Mem (is_stale settings now) rows p
            ((Perm.mem_iff (sql.select-rows (is_stale settings now) w.db.driver_profiles)).0 m) in
        (p, found_row rows p a.by_user among, refl))

  run_evict_stale_drivers-Agrees :
      (settings : Settings) (now : DateTime) (w : World)
      → Agrees w
      → Agrees (run_evict_stale_drivers settings now w).1
  unfolding run_evict_stale_drivers session_scope with_session evict_stale_drivers
  run_evict_stale_drivers-Agrees settings now w a =
      let stale = sql.select (is_stale settings now) w.db.driver_profiles in
      let swept = evict_each-Agrees stale w a (selected-IsKnown settings now w a) in
      session-Agrees (evict_stale_drivers settings now) w a
        (subst (λ r. IsFine w (r, (evict_each stale w).1)) (sym (evict_each-counts stale w)) swept)

-- What drivers and the clock do.
pub data DriverEvent : Type 0 where
  beats : Env → HeartbeatRequest → User → DriverEvent
  switches : Env → AvailabilityRequest → User → DriverEvent
  looks : Env → User → DriverEvent
  sweeps : Settings → DateTime → DriverEvent

module _ ⦃sql : Sql⦄ ⦃redis : Redis⦄ where
  abbrev pub serve_driver : DriverEvent → World → World
  serve_driver (beats env payload user) w = (serve_heartbeat env payload user w).1
  serve_driver (switches env payload user) w = (serve_set_availability env payload user w).1
  serve_driver (looks env user) w = (serve_my_profile env user w).1
  serve_driver (sweeps settings now) w = (run_evict_stale_drivers settings now w).1

  -- The identifier that the event may give to a new profile is not taken.
  abbrev pub IsFresh : DriverEvent → World → Type 0
  IsFresh (beats env payload user) w =
      find_by id_of (env.uuid 0) (sql.rows w.db.driver_profiles) ≡ none
  IsFresh (switches env payload user) w =
      find_by id_of (env.uuid 0) (sql.rows w.db.driver_profiles) ≡ none
  IsFresh (looks env user) w = find_by id_of (env.uuid 0) (sql.rows w.db.driver_profiles) ≡ none
  IsFresh (sweeps settings now) w = Unit

  abbrev pub serve_drivers : List DriverEvent → World → World
  serve_drivers [] w = w
  serve_drivers (e ∷ es) w = serve_drivers es (serve_driver e w)

  abbrev pub AllFresh : List DriverEvent → World → Type 0
  AllFresh [] w = Unit
  AllFresh (e ∷ es) w = IsFresh e w × AllFresh es (serve_driver e w)

  serve_driver-Agrees :
      (e : DriverEvent) (w : World) → Agrees w → IsFresh e w → Agrees (serve_driver e w)
  serve_driver-Agrees (beats env payload user) w a fresh =
      serve_heartbeat-Agrees env user w a fresh payload
  serve_driver-Agrees (switches env payload user) w a fresh =
      serve_set_availability-Agrees env user w a fresh payload
  serve_driver-Agrees (looks env user) w a fresh = serve_my_profile-Agrees env user w a fresh
  serve_driver-Agrees (sweeps settings now) w a fresh =
      run_evict_stale_drivers-Agrees settings now w a

  -- Where every driver is in the pool exactly where their profile says, an available driver at the
  -- position of the profile and no other driver at all, this is so again after any sequence of
  -- heartbeats, switches of availability, looks at a profile and sweeps, whether they succeed or
  -- fail, when the identifiers given to new profiles are not taken.
  pub serve_drivers-Agrees :
      (es : List DriverEvent) (w : World) → Agrees w → AllFresh es w → Agrees (serve_drivers es w)
  serve_drivers-Agrees [] w a fresh = a
  serve_drivers-Agrees (e ∷ es) w a fresh =
      serve_drivers-Agrees es (serve_driver e w) (serve_driver-Agrees e w a fresh.0) fresh.1
