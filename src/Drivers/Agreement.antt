-- ===== src/Drivers/Agreement.antt =====
-- The pool of the matching against the profiles.
use ride_flow.Prelude.{
  true, ◌==◌, nat_eq, nat_eqb, nat_eqb_iff, if◌then◌else◌, Option, none, some, find_by, IsKeyed,
  IsKeyed-add, find_by-add, ◌≡◌, refl, sym, ap, ◌∙◌, arith, Bool-cases, Option-cases, inl, inr,
}
use ride_flow.Models.{Uuid, Float, User, DriverProfile}
use ride_flow.Models.Sets.{DriverProfile-set}
use ride_flow.Sql.{Sql}
use ride_flow.Sql.Rows.{select-none, select-one}
use ride_flow.Redis.{Redis}
use ride_flow.Database.{Db, World, ok, constraints, on_db}
use ride_flow.StateMachine.Conflicts.{if_self}
use ride_flow.Request.{Env}
use ride_flow.Drivers.{new_profile, profile_of, keep_or_create, get_or_create_profile, save_profile}
use ride_flow.Drivers.Pool.{place_of}
use ride_flow.Drivers.Profiles.{
  id_of, user_of, distinct_users, find-set_row, set_row-ids, set_row-users, filter-none, filter-one,
}

-- Where a profile says that its driver is, for the matching.
abbrev pub spot : Option DriverProfile → Option (Float × Float)
spot none = none
spot (some p) = if p.is_available then place_of p.last_lat p.last_lng else none

module _ ⦃sql : Sql⦄ where
  abbrev pub profile_at : Db → Uuid → Option DriverProfile
  profile_at db j = find_by user_of j (sql.rows db.driver_profiles)

  constraints-profiles :
      (db : Db) (t : sql.Table DriverProfile)
      → IsKeyed user_of (sql.rows t)
      → constraints db ≡ true
      → constraints (record db { driver_profiles = t }) ≡ true
  unfolding constraints
  constraints-profiles db t k fine =
      let one =
        sql.unique-rows (λ (a b : DriverProfile). a.user_id == b.user_id) t
        ∙ distinct_users (sql.rows t) k in
      ground arith

  module _ ⦃redis : Redis⦄ where
    -- One profile for a user and one for an identifier, the constraints hold, and a driver is in the
    -- pool exactly where the profile says, if it is available.
    pub record Agrees (w : World) : Type 0 where
      pub by_user : IsKeyed user_of (sql.rows w.db.driver_profiles)
      pub by_id : IsKeyed id_of (sql.rows w.db.driver_profiles)
      pub fine : constraints w.db ≡ true
      pub placed : (j : Uuid) → redis.position w.geo j ≡ spot (profile_at w.db j)

    -- The profile that a handler works on.
    abbrev pub Works : User → World → DriverProfile → Type 0
    Works user w p = Agrees w × (profile_at w.db user.id ≡ some p)

    profile_of-Agrees :
        (u : Uuid) (w : World) → Agrees w → profile_of u w.db ≡ (ok (profile_at w.db u), w.db)
    unfolding profile_of
    profile_of-Agrees u w a = elim (Option-cases (profile_at w.db u)) [
      | inl missing ↦
          rw
            (
              select-none (λ (p : DriverProfile). nat_eqb p.user_id u) w.db.driver_profiles
                  (filter-none u _ missing),
              missing,
            )
            refl
      | inr (p, found) ↦
          rw
            (
              select-one (λ (p : DriverProfile). nat_eqb p.user_id u) w.db.driver_profiles
                  DriverProfile-set p (filter-one u _ p a.by_user found),
              found,
            )
            refl
    ]

    -- A new profile is not available.
    unplaced :
        (env : Env) (user : User) (w : World) (j : Uuid)
        → profile_at w.db user.id ≡ none
        → spot (profile_at w.db j)
          ≡ spot (if nat_eqb j user.id then some (new_profile env user) else profile_at w.db j)
    unplaced env user w j missing = elim (Bool-cases (nat_eqb j user.id)) [
      | inl hit ↦
          rw hit
            (ap (λ i. spot (profile_at w.db i)) ((nat_eqb_iff j user.id).0 hit) ∙ ap spot missing)
      | inr miss ↦ rw miss refl
    ]

    added-Agrees :
        (env : Env) (user : User) (w : World)
        → Agrees w
        → find_by id_of (env.uuid 0) (sql.rows w.db.driver_profiles) ≡ none
        → profile_at w.db user.id ≡ none
        → Works user
            (record w {
              db = record w.db {
                driver_profiles = sql.add (new_profile env user) w.db.driver_profiles;
              };
            })
            (new_profile env user)
    added-Agrees env user w a fresh missing =
        let new = new_profile env user in
        let rows = sql.rows w.db.driver_profiles in
        let t = sql.add new w.db.driver_profiles in
        let extended = sql.rows-add new w.db.driver_profiles in
        let by_user' : IsKeyed user_of (sql.rows t) =
          rw extended (IsKeyed-add user_of new rows a.by_user missing) in
        let found : (j : Uuid)
            → find_by user_of j (sql.rows t)
              ≡ (if nat_eqb j user.id then some new else find_by user_of j rows) =
          λ j. ap (find_by user_of j) extended ∙ find_by-add user_of new j rows missing in
        (
          record {
            by_user = by_user';
            by_id = rw extended (IsKeyed-add id_of new rows a.by_id fresh);
            fine = constraints-profiles w.db t by_user' a.fine;
            placed = λ j. a.placed j ∙ unplaced env user w j missing ∙ ap spot (sym (found j));
          },
          found user.id ∙ if_self user.id (some new) (find_by user_of user.id rows),
        )

    pub get_or_create-Agrees :
        (env : Env) (user : User) (w : World)
        → Agrees w
        → find_by id_of (env.uuid 0) (sql.rows w.db.driver_profiles) ≡ none
        → (p : DriverProfile) × (w' : World) × (on_db (get_or_create_profile env user) w
            ≡ (ok p, w'))
          × (w'.geo ≡ w.geo)
          × Works user w' p
    unfolding get_or_create_profile keep_or_create
    get_or_create-Agrees env user w a fresh =
        let read = profile_of-Agrees user.id w a in
        elim (Option-cases (profile_at w.db user.id)) [
          | inl missing ↦ (
            new_profile env user,
            record w {
              db = record w.db {
                driver_profiles = sql.add (new_profile env user) w.db.driver_profiles;
              };
            },
            ground arith,
            refl,
            added-Agrees env user w a fresh missing,
          )
          | inr (p, found) ↦ (p, w, ground arith, refl, (a, found))
        ]

    spot_if :
        (q : DriverProfile) (w : World) (j : Uuid)
        → Agrees w
        → (if nat_eqb j q.user_id then spot (some q) else redis.position w.geo j)
          ≡ spot (if nat_eqb j q.user_id then some q else profile_at w.db j)
    spot_if q w j a = elim (Bool-cases (nat_eqb j q.user_id)) [
      | inl hit ↦ rw hit refl
      | inr miss ↦ rw miss (a.placed j)
    ]

    -- The profiles with one saved.
    pub profile_at-saved :
        (q r : DriverProfile) (w : World) (j : Uuid)
        → Agrees w
        → profile_at w.db q.user_id ≡ some r
        → r.id ≡ q.id
        → profile_at (save_profile q w.db).1 j
          ≡ (if nat_eqb j q.user_id then some q else profile_at w.db j)
    unfolding save_profile
    profile_at-saved q r w j a found same =
        ap (find_by user_of j)
          (sql.rows-update (λ (p : DriverProfile). nat_eqb p.id q.id) (λ _. q) w.db.driver_profiles)
        ∙ find-set_row q r j (sql.rows w.db.driver_profiles) a.by_id found same

    -- A profile is saved, and the pool is told of it.
    pub saved-Agrees :
        (q r : DriverProfile) (w : World) (geo : redis.Geo)
        → Agrees w
        → profile_at w.db q.user_id ≡ some r
        → r.id ≡ q.id
        → ((j : Uuid)
            → redis.position geo j
              ≡ (if nat_eqb j q.user_id then spot (some q) else redis.position w.geo j))
        → Agrees (record w { db = (save_profile q w.db).1; geo = geo })
    unfolding save_profile
    saved-Agrees q r w geo a found same moved =
        let rows = sql.rows w.db.driver_profiles in
        let t =
          (sql.update (λ (p : DriverProfile). nat_eqb p.id q.id) (λ _. q) w.db.driver_profiles).1 in
        let written =
          sql.rows-update (λ (p : DriverProfile). nat_eqb p.id q.id) (λ _. q)
            w.db.driver_profiles in
        let by_user' : IsKeyed user_of (sql.rows t) =
          rw written (set_row-users q r rows a.by_id a.by_user found same) in
        record {
          by_user = by_user';
          by_id = rw written (set_row-ids q rows a.by_id);
          fine = constraints-profiles w.db t by_user' a.fine;
          placed = λ j.
              moved j
              ∙ spot_if q w j a
              ∙ ap spot (
                  sym
                    (ap (find_by user_of j) written ∙ find-set_row q r j rows a.by_id found same));
        }
