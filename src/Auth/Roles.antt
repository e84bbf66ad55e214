-- ===== src/Auth/Roles.antt =====
-- Which role a registration gives.
use ride_flow.Prelude.{
  [], ◌∷◌, ◌++◌, ◌==◌, filterb, filterb-append, eqb_refl, if◌then◌else◌, true, string_eq, some, ◌≡◌,
  refl, sym, ap, ◌∙◌, some_inj,
}
use ride_flow.Models.{User, Ride, RideStatus, admin}
use ride_flow.Schemas.{RegisterRequest}
use ride_flow.Schemas.Validation.{Pydantic, RegisterBody, role_or_default, validate_register}
use ride_flow.Schemas.Ranges.{validate_register-role}
use ride_flow.Sql.{Sql}
use ride_flow.Database.{Db, World, Result, ok, constraints, on_db}
use ride_flow.Database.Sessions.{with_session-done}
use ride_flow.Config.{Settings}
use ride_flow.Redis.{Redis}
use ride_flow.Idempotency.{Hashing}
use ride_flow.Security.{Passlib, Jose}
use ride_flow.Request.{Env}
use ride_flow.Auth.{register, new_user, serve_register}
use ride_flow.Auth.Access.{users_with, register-free}
use ride_flow.Rides.Transition.{may_transition}

module _ ⦃sql : Sql⦄ ⦃passlib : Passlib⦄ ⦃hashing : Hashing⦄ ⦃jose : Jose⦄ ⦃redis : Redis⦄
    (settings : Settings) where
  -- The role of a registration is the one that its body names. A body that passes its checks with
  -- the role "admin", and with an email address that nobody has, registers an admin: the request
  -- succeeds where its commit breaks no constraint, the new user is in the table with that role,
  -- and has the right to any transition of any ride.
  pub register-admin :
      ⦃pydantic : Pydantic⦄ (env : Env) (body : RegisterBody) (payload : RegisterRequest)
      (w : World)
      → body.role ≡ some "admin"
      → validate_register body ≡ some payload
      → users_with payload.email w.db ≡ []
      → constraints (register env payload w.db).1 ≡ true
      → let (result, w') = serve_register env payload w in
        (user : User) × (result ≡ ok user)
        × (users_with payload.email w'.db ≡ user ∷ [])
        × (user.role ≡ admin)
        × ((ride : Ride) (target : RideStatus) → may_transition user ride target ≡ true)
  unfolding serve_register
  register-admin env body payload w named valid free fine =
      let chosen : some admin ≡ some payload.role =
        sym (ap role_or_default named) ∙ validate_register-role body valid in
      let new = new_user env payload in
      let value = register-free settings env payload w.db free in
      let role : new.role ≡ admin = sym (some_inj chosen) in
      let start =
        with_session-done (on_db (register env payload)) w
          (ap (λ (x : Result User × Db). x.0) value) fine in
      (
        new,
        ap (λ (x : Result User × World). x.0) start ∙ ap (λ (x : Result User × Db). x.0) value,
        ap (λ (x : Result User × World). users_with payload.email x.1.db) start
            ∙ ap (λ (x : Result User × Db). users_with payload.email x.1) value
            ∙ ap (filterb (λ (u : User). u.email == payload.email)) (sql.rows-add new w.db.users)
            ∙ filterb-append (λ (u : User). u.email == payload.email) (sql.rows w.db.users)
                (new ∷ [])
            ∙ ap (λ xs. xs ++ filterb (λ (u : User). u.email == payload.email) (new ∷ [])) free
            ∙ ap (λ b. if b then new ∷ [] else []) (eqb_refl payload.email),
        role,
        λ ride target. rw role refl,
      )
