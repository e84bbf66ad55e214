-- ===== src/Auth.antt =====
-- backend/app/routers/auth.py: registration, login, the refresh of tokens and logout.
pub mod Rotation
pub mod Access
pub mod Roles
pub mod Spent
pub mod Sequences
pub mod Arrival
use ride_flow.Prelude.{
  Bool, true, false, not, ◌||◌, ◌==◌, string_eq, nat_eqb, ltb, if◌then◌else◌, Option, none, some,
  String, List, [], ◌∷◌,
}
use ride_flow.Models.{Uuid, DateTime, User, RefreshToken, role_value}
use ride_flow.Schemas.{
  RegisterRequest, LoginRequest, RefreshRequest, TokenResponse, UserOut, user_out,
}
use ride_flow.Config.{Settings}
use ride_flow.Sql.{Sql}
use ride_flow.Redis.{Redis}
use ride_flow.Database.{
  Db, World, Action, Result, ok, err, http_exception, ◌>>=◌, ◌>>◌, pure, raise, raise_if, modify,
  scalar_one_or_none, with_session, on_db,
}
use ride_flow.Request.{Env}
use ride_flow.Idempotency.{Hashing}
use ride_flow.Dependencies.{active_or_401, get_current_user}
use ride_flow.Security.{
  Jose, Passlib, hash_password, verify_password, create_access_token, hash_refresh_token,
  generate_refresh_token,
}

abbrev pub is_some : {A : Type 0} → Option A → Bool
is_some none = false
is_some (some a) = true

module _ ⦃sql : Sql⦄ where
  unfoldable pub user_by_email : String → Action Db (Option User)
  user_by_email email db =
      (scalar_one_or_none (sql.select (λ (u : User). u.email == email) db.users), db)

  unfoldable pub stored_token : String → Action Db (Option RefreshToken)
  stored_token token_hash db = (
    scalar_one_or_none
        (sql.select (λ (t : RefreshToken). t.token_hash == token_hash) db.refresh_tokens),
    db,
  )

  -- `stored.revoked = True`, as it is flushed.
  unfoldable pub revoke : RefreshToken → Action Db (Unit {0})
  revoke stored = modify λ db. record db {
    refresh_tokens =
        (sql.update (λ (t : RefreshToken). nat_eqb t.id stored.id)
          (λ t. record t { revoked = true }) db.refresh_tokens).1;
  }

module _ ⦃sql : Sql⦄ ⦃passlib : Passlib⦄ where
  -- The row of a new user, with the defaults of the columns.
  abbrev pub new_user : Env → RegisterRequest → User
  new_user env payload = record {
    id = env.uuid 0;
    email = payload.email;
    hashed_password = hash_password (env.random 0) payload.password;
    full_name = payload.full_name;
    role = payload.role;
    is_active = true;
    created_at = env.now;
  }

  unfoldable pub register : Env → RegisterRequest → Action Db User
  register env payload = do
    existing ← user_by_email payload.email
    raise_if (is_some existing) (http_exception 409)
    modify λ db. record db { users = sql.add (new_user env payload) db.users }
    pure (new_user env payload)

  -- `user is None or not verify_password(...)`, and then `not user.is_active`
  unfoldable pub check_login : LoginRequest → Option User → Action Db User
  check_login payload none = raise (http_exception 401)
  check_login payload (some user) = do
    raise_if (not (verify_password payload.password user.hashed_password)) (http_exception 401)
    raise_if (not user.is_active) (http_exception 403)
    pure user

module _ ⦃sql : Sql⦄ ⦃hashing : Hashing⦄ ⦃jose : Jose⦄ (settings : Settings) (env : Env) where
  -- The row of a new refresh token.
  abbrev pub new_token : User → RefreshToken
  new_token user =
      let (raw, token_hash, expires_at) = generate_refresh_token settings env.now (env.random 1) in
      record {
        id = env.uuid 1;
        user_id = user.id;
        token_hash = token_hash;
        expires_at = expires_at;
        revoked = false;
        created_at = env.now;
      }

  unfoldable pub issue_token_pair : User → Action Db (TokenResponse jose.Token)
  issue_token_pair user = do
    modify λ db. record db { refresh_tokens = sql.add (new_token user) db.refresh_tokens }
    pure (record {
      access_token = create_access_token settings env.now user.id (role_value user.role);
      refresh_token = (generate_refresh_token settings env.now (env.random 1)).0;
    })

  unfoldable pub login : ⦃passlib : Passlib⦄ → LoginRequest → Action Db (TokenResponse jose.Token)
  login payload = do
    found ← user_by_email payload.email
    user ← check_login payload found
    issue_token_pair user

  -- What a stored token must pass.
  unfoldable pub check_stored : Option RefreshToken → Action Db RefreshToken
  check_stored none = raise (http_exception 401)
  check_stored (some stored) = do
    raise_if stored.revoked (http_exception 401)
    raise_if (ltb stored.expires_at env.now) (http_exception 401)
    pure stored

  unfoldable pub reissue : Option User → Action Db (TokenResponse jose.Token)
  reissue user = do active ← active_or_401 user; issue_token_pair active

  -- The presented token is revoked, and its user gets a new pair.
  unfoldable pub rotate : RefreshToken → Action Db (TokenResponse jose.Token)
  rotate stored = do
    revoke stored
    user ← λ db. (ok (sql.get (λ (u : User). nat_eqb u.id stored.user_id) db.users), db)
    reissue user

  unfoldable pub refresh_stored : Option RefreshToken → Action Db (TokenResponse jose.Token)
  refresh_stored found = do stored ← check_stored found; rotate stored

  unfoldable pub refresh : RefreshRequest → Action Db (TokenResponse jose.Token)
  refresh payload = do
    found ← stored_token (hash_refresh_token payload.refresh_token)
    refresh_stored found

module _ ⦃sql : Sql⦄ ⦃hashing : Hashing⦄ where
  unfoldable pub revoke_found : Option RefreshToken → Action Db (Unit {0})
  revoke_found none = pure tt
  revoke_found (some stored) = revoke stored

  unfoldable pub logout : RefreshRequest → Action Db (Unit {0})
  logout payload = do
    found ← stored_token (hash_refresh_token payload.refresh_token)
    revoke_found found

module _ ⦃sql : Sql⦄ ⦃redis : Redis⦄ ⦃hashing : Hashing⦄ where
  -- The requests as they are served, each in its session.
  unfoldable pub serve_refresh :
      ⦃jose : Jose⦄
      → Settings
      → Env
      → RefreshRequest
      → World
      → Result (TokenResponse jose.Token) × World
  serve_refresh settings env payload = with_session (on_db (refresh settings env payload))

  unfoldable pub serve_register :
      ⦃passlib : Passlib⦄ → Env → RegisterRequest → World → Result User × World
  serve_register env payload = with_session (on_db (register env payload))

  unfoldable pub serve_login :
      ⦃jose : Jose⦄
      → ⦃passlib : Passlib⦄ → Settings
      → Env
      → LoginRequest
      → World
      → Result (TokenResponse jose.Token) × World
  serve_login settings env payload = with_session (on_db (login settings env payload))

  unfoldable pub serve_logout : RefreshRequest → World → Result (Unit {0}) × World
  serve_logout payload = with_session (on_db (logout payload))

module _ ⦃sql : Sql⦄ where
  unfoldable pub me : User → Action Db User
  me user = pure user

  -- With the user that the access token gives, and as the response shows it.
  unfoldable pub serve_me :
      ⦃redis : Redis⦄ → ⦃jose : Jose⦄ → DateTime → jose.Token → World → Result UserOut × World
  unfolding me
  serve_me now token =
      with_session
        (on_db do user ← get_current_user now token; found ← me user; pure (user_out found))
