-- ===== src/Auth/Arrival.antt =====
-- A new user, from the registration to the first request with an access token.
use ride_flow.Prelude.{
  ◌+◌, ◌*◌, ◌≤◌, true, nat_eqb, if◌then◌else◌, nat_eq, eqb_refl, [], ◌∷◌, ◌++◌, ◌≡◌, refl, sym, ap,
  ◌∙◌, subst, arith, filterb, filterb-append,
}
use ride_flow.Models.{role_value, DateTime, User}
use ride_flow.Schemas.{RegisterRequest, LoginRequest, TokenResponse, user_out}
use ride_flow.Config.{Settings}
use ride_flow.Sql.{Sql}
use ride_flow.Redis.{Redis}
use ride_flow.Database.{Db, World, Result, ok, err, http_exception, constraints, on_db, ◌>>=◌, pure}
use ride_flow.Database.Sessions.{with_session-done, with_session-reads}
use ride_flow.Request.{Env}
use ride_flow.Idempotency.{Hashing}
use ride_flow.Dependencies.{get_current_user}
use ride_flow.Security.{Jose, Passlib, create_access_token, generate_refresh_token}
use ride_flow.Auth.{
  new_user, register, login, issue_token_pair, me, serve_register, serve_login, serve_me,
}
use ride_flow.Auth.Access.{
  users_with, users_under, get_current_user-issued, register-free, login-register,
}

-- What the new user logs in with.
abbrev pub credentials_of : RegisterRequest → LoginRequest
credentials_of payload = record { email = payload.email; password = payload.password }

module _ ⦃sql : Sql⦄ ⦃redis : Redis⦄ ⦃hashing : Hashing⦄ ⦃jose : Jose⦄ ⦃passlib : Passlib⦄
    (settings : Settings) where
  -- The access token that a login gave shows its user.
  serve_me-issued :
      (env : Env) (user : User) (now : DateTime) (db : Db) (w : World)
      (out : TokenResponse jose.Token)
      → (issue_token_pair settings env user db).0 ≡ ok out
      → now ≤ env.now + 60 * settings.access_token_expire_minutes
      → users_under user.id w.db ≡ user ∷ []
      → user.is_active ≡ true
      → constraints w.db ≡ true
      → serve_me now out.access_token w ≡ (ok (user_out user), w)
  unfolding serve_me me
  serve_me-issued env user now db w out issued early there active fine =
      let current : get_current_user now out.access_token w.db ≡ (ok user, w.db) =
        get_current_user-issued settings env user user now db w.db out issued early there
        ∙ ap (λ b. ((if b then ok user else err (http_exception 401)), w.db)) active in
      with_session-reads
        (on_db
          (get_current_user now out.access_token >>= λ found. me found >>= λ u. pure (user_out u)))
        w (ok (user_out user)) (ground arith) fine

  module _ (env later_env : Env) (payload : RegisterRequest) (w : World)
      (free : users_with payload.email w.db ≡ []) where
    abbrev arrived : World
    arrived = record w { db = (register env payload w.db).1 }

    user_there :
        users_under (env.uuid 0) w.db ≡ []
        → users_under (env.uuid 0) (register env payload w.db).1 ≡ new_user env payload ∷ []
    user_there fresh =
        let new = new_user env payload in
        let q = λ (u : User). nat_eqb u.id (env.uuid 0) in
        ap (λ (x : Result User × Db). users_under (env.uuid 0) x.1)
          (register-free settings env payload w.db free)
        ∙ ap (filterb q) (sql.rows-add new w.db.users)
        ∙ filterb-append q (sql.rows w.db.users) (new ∷ [])
        ∙ ap (λ xs. xs ++ filterb q (new ∷ [])) fresh
        ∙ ap (λ b. if b then new ∷ [] else []) (eqb_refl (env.uuid 0))

    -- The login, after the registration.
    logged_in :
        login settings later_env (credentials_of payload) arrived.db
        ≡ issue_token_pair settings later_env (new_user env payload) arrived.db
    logged_in =
        login-register settings env later_env payload w.db (new_user env payload)
          (ap (λ (x : Result User × Db). x.0) (register-free settings env payload w.db free)) free

    served :
        constraints (login settings later_env (credentials_of payload) arrived.db).1 ≡ true
        → serve_login settings later_env (credentials_of payload) arrived
          ≡ on_db (issue_token_pair settings later_env (new_user env payload)) arrived
    unfolding serve_login issue_token_pair
    served fine =
        let answer = ap (λ (x : Result (TokenResponse jose.Token) × Db). x.0) logged_in in
        with_session-done (on_db (login settings later_env (credentials_of payload))) arrived answer
          fine
        ∙ ap (λ (x : Result (TokenResponse jose.Token) × Db). (x.0, record arrived { db = x.1 }))
            logged_in

    after_login :
        (now : DateTime)
        → users_under (env.uuid 0) w.db ≡ []
        → constraints (login settings later_env (credentials_of payload) arrived.db).1 ≡ true
        → now ≤ later_env.now + 60 * settings.access_token_expire_minutes
        → let (r, w') = serve_login settings later_env (credentials_of payload) arrived in
          (out : TokenResponse jose.Token) × (r ≡ ok out)
          × (serve_me now out.access_token w' ≡ (ok (user_out (new_user env payload)), w'))
    unfolding issue_token_pair
    after_login now fresh fine early =
        let new = new_user env payload in
        let (r, db') = issue_token_pair settings later_env new arrived.db in
        let fine' : constraints db' ≡ true =
          subst (λ (x : Result (TokenResponse jose.Token) × Db). constraints x.1 ≡ true) logged_in
            fine in
        let out : TokenResponse jose.Token = record {
          access_token = create_access_token settings later_env.now new.id (role_value new.role);
          refresh_token = (generate_refresh_token settings later_env.now (later_env.random 1)).0;
        } in
        subst
          (λ (x : Result (TokenResponse jose.Token) × World).
            (out : TokenResponse jose.Token) × (x.0 ≡ ok out)
            × (serve_me now out.access_token x.1 ≡ (ok (user_out new), x.1)))
          (sym (served fine))
          (
            out,
            refl,
            serve_me-issued later_env new now arrived.db (record arrived { db = db' }) out refl
                early (user_there fresh) refl fine',
          )

  -- Who registers under an email address that nobody has and then logs in with that address and
  -- the password gets an access token that shows the user with the name, the address and the role
  -- that were asked for until it expires: all three requests succeed, where the new identifier is
  -- not taken and the two commits break no constraint.
  pub serve_me-registered :
      (env later_env : Env) (payload : RegisterRequest) (now : DateTime) (w : World)
      → users_with payload.email w.db ≡ []
      → users_under (env.uuid 0) w.db ≡ []
      → constraints (register env payload w.db).1 ≡ true
      → constraints
          (login settings later_env (credentials_of payload) (register env payload w.db).1).1
        ≡ true
      → now ≤ later_env.now + 60 * settings.access_token_expire_minutes
      → let new = new_user env payload in
        let (registered, there) = serve_register env payload w in
        let (logged, later) = serve_login settings later_env (credentials_of payload) there in
        (registered ≡ ok new)
        × ((out : TokenResponse jose.Token) × (logged ≡ ok out)
            × (serve_me now out.access_token later ≡ (ok (user_out new), later)))
  unfolding serve_register
  serve_me-registered env later_env payload now w free fresh fine fine' early =
      let new = new_user env payload in
      let answer =
        ap (λ (x : Result User × Db). x.0) (register-free settings env payload w.db free) in
      let start = with_session-done (on_db (register env payload)) w answer fine in
      (
        ap (λ (x : Result User × World). x.0) start ∙ answer,
        subst
            (λ (v : World).
              let (logged, later) = serve_login settings later_env (credentials_of payload) v in
              (out : TokenResponse jose.Token) × (logged ≡ ok out)
              × (serve_me now out.access_token later ≡ (ok (user_out new), later)))
            (sym (ap (λ (x : Result User × World). x.1) start))
            (after_login env later_env payload w free now fresh fine' early),
      )
