-- ===== src/Auth/Sequences.antt =====
-- Refresh tokens that were exchanged or logged out, over sequences of requests of the auth router.
use ride_flow.Prelude.{
  All, string_eq, String, List, [], ◌∷◌, ◌≡◌, ◌≢◌, refl, sym, ◌∙◌, subst, arith,
}
use ride_flow.Models.{RefreshToken}
use ride_flow.Models.Sets.{RefreshToken-set}
use ride_flow.Schemas.{RegisterRequest, LoginRequest, RefreshRequest, TokenResponse}
use ride_flow.Config.{Settings}
use ride_flow.Sql.{Sql}
use ride_flow.Sql.Rows.{select-one}
use ride_flow.Redis.{Redis}
use ride_flow.Database.{Db, World, Result, ok, err, http_exception, on_db}
use ride_flow.Database.Sessions.{with_session-ok, Keeps-with_session}
use ride_flow.Request.{Env}
use ride_flow.Idempotency.{Hashing}
use ride_flow.Security.{Jose, Passlib, hash_refresh_token, generate_refresh_token}
use ride_flow.Auth.{
  stored_token, revoke, register, login, refresh, revoke_found, logout, serve_register, serve_login,
  serve_refresh, serve_logout,
}
use ride_flow.Auth.Rotation.{
  under, spend, spend_own, tokens_under, IsSpent, exchanged, refresh-found, serve_refresh-spent,
}
use ride_flow.Auth.Spent.{
  revoked_under, logout-IsSpent, register-IsSpent, login-IsSpent, refresh-IsSpent,
}

-- The requests of the auth router.
pub data AuthRequest : Type 0 where
  registers : Env → RegisterRequest → AuthRequest
  logs_in : Env → LoginRequest → AuthRequest
  refreshes : Env → RefreshRequest → AuthRequest
  logs_out : RefreshRequest → AuthRequest

module _ ⦃sql : Sql⦄ ⦃redis : Redis⦄ ⦃hashing : Hashing⦄ ⦃jose : Jose⦄ ⦃passlib : Passlib⦄
    (settings : Settings) where
  abbrev pub serve_auth : AuthRequest → World → World
  serve_auth (registers env payload) w = (serve_register env payload w).1
  serve_auth (logs_in env payload) w = (serve_login settings env payload w).1
  serve_auth (refreshes env payload) w = (serve_refresh settings env payload w).1
  serve_auth (logs_out payload) w = (serve_logout payload w).1

  abbrev pub serve_auths : List AuthRequest → World → World
  serve_auths [] w = w
  serve_auths (r ∷ rs) w = serve_auths rs (serve_auth r w)

  -- The random token that the request may hand out has another hash.
  abbrev pub DrawsOther : String → AuthRequest → Type 0
  DrawsOther h (registers env payload) = Unit
  DrawsOther h (logs_in env payload) =
      (generate_refresh_token settings env.now (env.random 1)).1 ≢ h
  DrawsOther h (refreshes env payload) =
      (generate_refresh_token settings env.now (env.random 1)).1 ≢ h
  DrawsOther h (logs_out payload) = Unit

  module _ (h : String) where
    serve_auth-IsSpent :
        (r : AuthRequest)
        → DrawsOther h r
        → (w : World) → IsSpent h w.db
        → IsSpent h (serve_auth r w).db
    unfolding serve_register serve_login serve_refresh serve_logout
    serve_auth-IsSpent (registers env payload) other w =
        Keeps-with_session (IsSpent h) (on_db (register env payload))
          (λ w. register-IsSpent h env payload w.db) w
    serve_auth-IsSpent (logs_in env payload) other w =
        Keeps-with_session (IsSpent h) (on_db (login settings env payload))
          (λ w. login-IsSpent h settings env other payload w.db) w
    serve_auth-IsSpent (refreshes env payload) other w =
        Keeps-with_session (IsSpent h) (on_db (refresh settings env payload))
          (λ w. refresh-IsSpent h settings env other payload w.db) w
    serve_auth-IsSpent (logs_out payload) other w =
        Keeps-with_session (IsSpent h) (on_db (logout payload)) (λ w. logout-IsSpent h payload w.db)
          w

    serve_auths-IsSpent :
        (rs : List AuthRequest) (w : World)
        → All (DrawsOther h) rs
        → IsSpent h w.db
        → IsSpent h (serve_auths rs w).db
    serve_auths-IsSpent [] w others spent = spent
    serve_auths-IsSpent (r ∷ rs) w others spent =
        serve_auths-IsSpent rs (serve_auth r w) others.1 (serve_auth-IsSpent r others.0 w spent)

  -- A refresh token is good once. After a request exchanged it for a new pair and any sequence of
  -- requests of the auth router followed, whether they succeed or fail, a request with the same
  -- token is refused with 401 and changes nothing, where the tokens that were drawn at random have
  -- other hashes.
  pub serve_refresh_for_good :
      (env later_env : Env) (payload : RefreshRequest) (w : World) (out : TokenResponse jose.Token)
      (rs : List AuthRequest)
      → (serve_refresh settings env payload w).0 ≡ ok out
      → All (DrawsOther (hash_refresh_token payload.refresh_token)) (refreshes env payload ∷ rs)
      → let later = serve_auths (refreshes env payload ∷ rs) w in
        serve_refresh settings later_env payload later ≡ (err (http_exception 401), later)
  unfolding serve_refresh
  serve_refresh_for_good env later_env payload w out rs done others =
      let h = hash_refresh_token payload.refresh_token in
      let (handled, _, committed) = with_session-ok (on_db (refresh settings env payload)) w done in
      let (t, there, user, issued) = refresh-found settings env payload w.db out handled in
      let spent : IsSpent h (serve_refresh settings env payload w).1.db =
        subst (λ (x : World). IsSpent h x.db) (sym committed)
          (subst (λ (x : Result (TokenResponse jose.Token) × Db). IsSpent h x.1) (sym issued)
            (exchanged settings env payload t user w.db there others.0)) in
      let later = serve_auths rs (serve_refresh settings env payload w).1 in
      serve_refresh-spent settings later_env payload later
        (serve_auths-IsSpent h rs (serve_refresh settings env payload w).1 others.1 spent)

  -- The logout of a token that is stored.
  logout-spends :
      (payload : RefreshRequest) (db : Db) (t : RefreshToken)
      → tokens_under (hash_refresh_token payload.refresh_token) db ≡ t ∷ []
      → IsSpent (hash_refresh_token payload.refresh_token) (logout payload db).1
  unfolding logout stored_token revoke_found
  logout-spends payload db t there =
      let h = hash_refresh_token payload.refresh_token in
      let found = select-one (under h) db.refresh_tokens RefreshToken-set t there in
      let spent : IsSpent h (revoke t db).1 =
        (spend t, revoked_under h t t db there ∙ spend_own t, refl) in
      let went : logout payload db ≡ revoke t db = ground arith in
      subst (λ (x : Result (Unit {0}) × Db). IsSpent h x.1) (sym went) spent

  -- After a logout with a refresh token that is stored and any sequence of requests of the auth
  -- router, whether they succeed or fail, a refresh with the token is refused with 401 and changes
  -- nothing, where the tokens that were drawn at random have other hashes.
  pub serve_logout_for_good :
      (env : Env) (payload : RefreshRequest) (w : World) (t : RefreshToken) (rs : List AuthRequest)
      → tokens_under (hash_refresh_token payload.refresh_token) w.db ≡ t ∷ []
      → (serve_logout payload w).0 ≡ ok tt
      → All (DrawsOther (hash_refresh_token payload.refresh_token)) rs
      → let later = serve_auths (logs_out payload ∷ rs) w in
        serve_refresh settings env payload later ≡ (err (http_exception 401), later)
  unfolding serve_logout
  serve_logout_for_good env payload w t rs there done others =
      let h = hash_refresh_token payload.refresh_token in
      let (_, _, committed) = with_session-ok (on_db (logout payload)) w done in
      let spent : IsSpent h (serve_logout payload w).1.db =
        subst (λ (x : World). IsSpent h x.db) (sym committed)
          (logout-spends payload w.db t there) in
      let later = serve_auths rs (serve_logout payload w).1 in
      serve_refresh-spent settings env payload later
        (serve_auths-IsSpent h rs (serve_logout payload w).1 others spent)
