-- ===== src/Auth/Spent.antt =====
-- A refresh token that is spent stays so under every handler of backend/app/routers/auth.py.
use ride_flow.Prelude.{
  not, ltb, Bool, string_eq, nat_eqb, if◌then◌else◌, Option, none, some, String, [], ◌∷◌, ◌++◌, ◌≡◌,
  ◌≢◌, refl, ap, ◌∙◌, filterb, filterb-append, filterb-map_where, map_where, eqb-ne, Bool-cases,
  inl, inr,
}
use ride_flow.Models.{User, RefreshToken}
use ride_flow.Schemas.{RegisterRequest, LoginRequest, RefreshRequest}
use ride_flow.Config.{Settings}
use ride_flow.Sql.{Sql}
use ride_flow.Database.{Db, Action, Exn, http_exception, raise_if, pure, ◌>>◌}
use ride_flow.Database.Sessions.{Keeps, Keeps-bind}
use ride_flow.Request.{Env}
use ride_flow.Idempotency.{Hashing}
use ride_flow.Dependencies.{active_or_401}
use ride_flow.Security.{Jose, Passlib, hash_refresh_token, generate_refresh_token, verify_password}
use ride_flow.Auth.{
  is_some, user_by_email, stored_token, revoke, register, check_login, new_token, issue_token_pair,
  login, check_stored, reissue, rotate, refresh_stored, refresh, revoke_found, logout,
}
use ride_flow.Auth.Rotation.{under, spend, same_token, tokens_under, IsSpent}

-- A guard keeps what the rest keeps.
Keeps-raise_if :
    {S A : Type 0} (P : S → Type 0) (b : Bool) (e : Exn) (m : Action S A)
    → Keeps P m
    → Keeps P (raise_if b e >> m)
Keeps-raise_if P b e m k = Keeps-bind P (raise_if b e) (λ _. m) (λ s p. p) (λ _. k)

module _ ⦃sql : Sql⦄ (h : String) where
  pub revoked_under :
      (t s : RefreshToken) (db : Db)
      → tokens_under h db ≡ s ∷ []
      → tokens_under h (revoke t db).1 ≡ map_where (same_token t) spend (s ∷ [])
  unfolding revoke
  revoked_under t s db one =
      ap (filterb (under h)) (sql.rows-update (same_token t) spend db.refresh_tokens)
      ∙ filterb-map_where (under h) (same_token t) spend (λ x. refl) (sql.rows db.refresh_tokens)
      ∙ ap (map_where (same_token t) spend) one

  revoke-IsSpent : (t : RefreshToken) → Keeps (IsSpent h) (revoke t)
  revoke-IsSpent t db (s, one, revoked) =
      let left = revoked_under t s db one in
      elim (Bool-cases (same_token t s)) [
        | inl hit ↦ (spend s, left ∙ rw hit refl, refl)
        | inr miss ↦ (s, left ∙ rw miss refl, revoked)
      ]

  revoke_found-IsSpent :
      ⦃hashing : Hashing⦄ → (found : Option RefreshToken) → Keeps (IsSpent h) (revoke_found found)
  unfolding revoke_found
  revoke_found-IsSpent none db spent = spent
  revoke_found-IsSpent (some t) db spent = revoke-IsSpent t db spent

  pub logout-IsSpent :
      ⦃hashing : Hashing⦄ → (payload : RefreshRequest) → Keeps (IsSpent h) (logout payload)
  unfolding logout stored_token
  logout-IsSpent payload =
      Keeps-bind (IsSpent h) (stored_token (hash_refresh_token payload.refresh_token)) revoke_found
        (λ db spent. spent) revoke_found-IsSpent

  pub register-IsSpent :
      ⦃passlib : Passlib⦄
      → (env : Env) (payload : RegisterRequest) → Keeps (IsSpent h) (register env payload)
  unfolding register user_by_email
  register-IsSpent env payload =
      Keeps-bind (IsSpent h) (user_by_email payload.email) _ (λ db spent. spent)
        (λ existing.
          Keeps-raise_if (IsSpent h) (is_some existing) (http_exception 409) _ (λ db spent. spent))

  check_login-IsSpent :
      ⦃passlib : Passlib⦄
      → (payload : LoginRequest) (found : Option User)
      → Keeps (IsSpent h) (check_login payload found)
  unfolding check_login
  check_login-IsSpent payload none = λ db spent. spent
  check_login-IsSpent payload (some user) =
      Keeps-raise_if (IsSpent h) (not (verify_password payload.password user.hashed_password))
        (http_exception 401) _
        (Keeps-raise_if (IsSpent h) (not user.is_active) (http_exception 403) (pure user)
          (λ db spent. spent))

module _ ⦃sql : Sql⦄ ⦃hashing : Hashing⦄ ⦃jose : Jose⦄ (h : String) (settings : Settings)
    (env : Env) (other : (generate_refresh_token settings env.now (env.random 1)).1 ≢ h) where
  issue-IsSpent : (user : User) → Keeps (IsSpent h) (issue_token_pair settings env user)
  unfolding issue_token_pair
  issue-IsSpent user db (s, one, revoked) =
      let row = new_token settings env user in
      let off = eqb-ne row.token_hash h other in
      (
        s,
        ap (filterb (under h)) (sql.rows-add row db.refresh_tokens)
            ∙ filterb-append (under h) (sql.rows db.refresh_tokens) (row ∷ [])
            ∙ ap (λ xs. xs ++ filterb (under h) (row ∷ [])) one
            ∙ ap (λ (b : Bool). s ∷ (if b then row ∷ [] else [])) off,
        revoked,
      )

  pub login-IsSpent :
      ⦃passlib : Passlib⦄
      → (payload : LoginRequest) → Keeps (IsSpent h) (login settings env payload)
  unfolding login user_by_email
  login-IsSpent payload =
      Keeps-bind (IsSpent h) (user_by_email payload.email) _ (λ db spent. spent)
        (λ found.
          Keeps-bind (IsSpent h) (check_login payload found) (issue_token_pair settings env)
            (check_login-IsSpent h payload found) issue-IsSpent)

  active-IsSpent : (user : Option User) → Keeps (IsSpent h) (active_or_401 user)
  active-IsSpent none = λ db spent. spent
  active-IsSpent (some user) =
      Keeps-raise_if (IsSpent h) (not user.is_active) (http_exception 401) (pure user)
        (λ db spent. spent)

  rotate-IsSpent : (t : RefreshToken) → Keeps (IsSpent h) (rotate settings env t)
  unfolding rotate reissue revoke
  rotate-IsSpent t db spent =
      let db' = (revoke t db).1 in
      let user = sql.get (λ (u : User). nat_eqb u.id t.user_id) db'.users in
      Keeps-bind (IsSpent h) (active_or_401 user) (issue_token_pair settings env)
        (active-IsSpent user) issue-IsSpent db' (revoke-IsSpent h t db spent)

  check_stored-IsSpent :
      (found : Option RefreshToken) → Keeps (IsSpent h) (check_stored settings env found)
  unfolding check_stored
  check_stored-IsSpent none = λ db spent. spent
  check_stored-IsSpent (some t) = Keeps-raise_if (IsSpent h) t.revoked (http_exception 401) _ (
      Keeps-raise_if (IsSpent h) (ltb t.expires_at env.now) (http_exception 401) (pure t)
        (λ db spent. spent))

  pub refresh-IsSpent :
      (payload : RefreshRequest) → Keeps (IsSpent h) (refresh settings env payload)
  unfolding refresh refresh_stored stored_token
  refresh-IsSpent payload =
      Keeps-bind (IsSpent h) (stored_token (hash_refresh_token payload.refresh_token))
        (refresh_stored settings env) (λ db spent. spent)
        (λ found.
          Keeps-bind (IsSpent h) (check_stored settings env found) (rotate settings env)
            (check_stored-IsSpent found) rotate-IsSpent)
