-- ===== src/Auth/Rotation.antt =====
-- A refresh token in use, once and again.
use ride_flow.Prelude.{
  Bool, true, ◌==◌, string_eq, nat_eqb, if◌then◌else◌, Option, none, some, String, List, [], ◌∷◌,
  ◌++◌, ◌≡◌, ◌≢◌, refl, sym, ap, ◌∙◌, arith, filterb, filterb-append, filterb-map_where, map_where,
  eqb-ne,
}
use ride_flow.Models.{User, RefreshToken}
use ride_flow.Models.Sets.{RefreshToken-set}
use ride_flow.Schemas.{RefreshRequest, TokenResponse}
use ride_flow.Config.{Settings}
use ride_flow.Sql.{Sql}
use ride_flow.Sql.Rows.{select-one, one-select}
use ride_flow.Redis.{Redis}
use ride_flow.Database.{Db, World, Result, ok, err, http_exception, scalar_one_or_none, on_db}
use ride_flow.Database.Sessions.{bind-ok, with_session-ok, with_session-refused}
use ride_flow.Request.{Env}
use ride_flow.Idempotency.{Hashing}
use ride_flow.Dependencies.{active_or_401}
use ride_flow.Security.{Jose, hash_refresh_token, generate_refresh_token}
use ride_flow.Auth.{
  stored_token, revoke, new_token, issue_token_pair, check_stored, refresh_stored, rotate, reissue,
  refresh, serve_refresh,
}

abbrev pub under : String → RefreshToken → Bool
under hash t = t.token_hash == hash

abbrev pub spend : RefreshToken → RefreshToken
spend t = record t { revoked = true }

abbrev pub same_token : RefreshToken → RefreshToken → Bool
same_token stored t = nat_eqb t.id stored.id

pub spend_own : (t : RefreshToken) → map_where (same_token t) spend (t ∷ []) ≡ spend t ∷ []
spend_own t = ground arith

module _ ⦃sql : Sql⦄ where
  -- The tokens that are stored under a hash.
  abbrev pub tokens_under : String → Db → List RefreshToken
  tokens_under hash db = filterb (under hash) (sql.rows db.refresh_tokens)

  -- There is one token under the hash, and it is revoked.
  abbrev pub IsSpent : String → Db → Type 0
  IsSpent hash db = (t : RefreshToken) × (tokens_under hash db ≡ t ∷ []) × (t.revoked ≡ true)

module _ ⦃sql : Sql⦄ ⦃hashing : Hashing⦄ ⦃jose : Jose⦄ (settings : Settings) (env : Env)
    (payload : RefreshRequest) where
  -- A token that is spent is refused.
  refresh-spent :
      (db : Db)
      → IsSpent (hash_refresh_token payload.refresh_token) db
      → refresh settings env payload db ≡ (err (http_exception 401), db)
  unfolding refresh refresh_stored stored_token check_stored
  refresh-spent db (t, there, revoked) =
      let found =
        select-one (under (hash_refresh_token payload.refresh_token)) db.refresh_tokens
          RefreshToken-set t there in
      ground arith

  checked :
      (found : Option RefreshToken) (db : Db) (t : RefreshToken)
      → (check_stored settings env found db).0 ≡ ok t
      → (found ≡ some t) × ((check_stored settings env found db).1 ≡ db)
  unfolding check_stored
  checked none db t h = cc
  checked (some stored) db t h = (ground arith, ground arith)

  active_user :
      (user : Option User) (db : Db) (u : User)
      → (active_or_401 user db).0 ≡ ok u
      → (active_or_401 user db).1 ≡ db
  active_user none db u h = cc
  active_user (some user) db u h = ground arith

  only_one :
      (xs : List RefreshToken) (t : RefreshToken)
      → scalar_one_or_none xs ≡ ok (some t)
      → xs ≡ t ∷ []
  only_one [] t h = cc
  only_one (x ∷ []) t h = cc
  only_one (x ∷ y ∷ xs) t h = cc

  rotate-issues :
      (t : RefreshToken) (db : Db) (out : TokenResponse jose.Token)
      → (rotate settings env t db).0 ≡ ok out
      → (user : User) × (rotate settings env t db
          ≡ issue_token_pair settings env user (revoke t db).1)
  unfolding rotate reissue revoke
  rotate-issues t db out done =
      let db' = (revoke t db).1 in
      let user = sql.get (λ (u : User). nat_eqb u.id t.user_id) db'.users in
      let start : rotate settings env t db ≡ reissue settings env user db' = refl in
      let (u, e, rest) =
        bind-ok (active_or_401 user) (issue_token_pair settings env) db'
          (ap (λ x. x.0) (sym start) ∙ done) in
      (u, start ∙ rest ∙ ap (issue_token_pair settings env u) (active_user user db' u e))

  -- A refresh that returned had found one token, and went on with it.
  pub refresh-found :
      (db : Db) (out : TokenResponse jose.Token)
      → (refresh settings env payload db).0 ≡ ok out
      → (t : RefreshToken) × (tokens_under (hash_refresh_token payload.refresh_token) db ≡ t ∷ [])
        × (user : User) × (refresh settings env payload db
            ≡ issue_token_pair settings env user (revoke t db).1)
  unfolding refresh refresh_stored stored_token
  refresh-found db out done =
      let h = hash_refresh_token payload.refresh_token in
      let (found, e1, s1) = bind-ok (stored_token h) (refresh_stored settings env) db done in
      let (t, e2, s2) =
        bind-ok (check_stored settings env found) (rotate settings env) db
          (ap (λ x. x.0) (sym s1) ∙ done) in
      let (is, same) = checked found db t e2 in
      let rotated = s1 ∙ s2 ∙ ap (rotate settings env t) same in
      let (user, issued) = rotate-issues t db out (ap (λ x. x.0) (sym rotated) ∙ done) in
      let found_one =
        only_one (sql.select (under h) db.refresh_tokens) t (e1 ∙ ap (λ o. ok o) is) in
      (
        t,
        one-select (under h) db.refresh_tokens RefreshToken-set t found_one,
        user,
        rotated ∙ issued,
      )

  -- What is left of a token that was found and exchanged.
  pub exchanged :
      (t : RefreshToken) (user : User) (db : Db)
      → tokens_under (hash_refresh_token payload.refresh_token) db ≡ t ∷ []
      → (new_token settings env user).token_hash ≢ hash_refresh_token payload.refresh_token
      → IsSpent
          (hash_refresh_token payload.refresh_token)
          (issue_token_pair settings env user (revoke t db).1).1
  unfolding issue_token_pair revoke
  exchanged t user db there fresh =
      let p = under (hash_refresh_token payload.refresh_token) in
      let row = new_token settings env user in
      let table = (sql.update (same_token t) spend db.refresh_tokens).1 in
      let split = filterb-append p (sql.rows table) (row ∷ []) in
      let changed =
        filterb-map_where p (same_token t) spend (λ x. refl) (sql.rows db.refresh_tokens) in
      let off = eqb-ne row.token_hash (hash_refresh_token payload.refresh_token) fresh in
      let kept : filterb p (sql.rows table) ≡ spend t ∷ [] =
        ap (filterb p) (sql.rows-update (same_token t) spend db.refresh_tokens)
        ∙ changed
        ∙ ap (map_where (same_token t) spend) there
        ∙ spend_own t in
      let others : filterb p (row ∷ []) ≡ [] = ap (λ b. if b then row ∷ [] else []) off in
      (
        spend t,
        ap (filterb p) (sql.rows-add row table)
            ∙ split
            ∙ ap (λ xs. xs ++ filterb p (row ∷ [])) kept
            ∙ ap (λ xs. spend t ∷ xs) others,
        refl,
      )

module _ ⦃sql : Sql⦄ ⦃redis : Redis⦄ ⦃hashing : Hashing⦄ ⦃jose : Jose⦄ (settings : Settings) where
  pub serve_refresh-spent :
      (env : Env) (payload : RefreshRequest) (w : World)
      → IsSpent (hash_refresh_token payload.refresh_token) w.db
      → serve_refresh settings env payload w ≡ (err (http_exception 401), w)
  unfolding serve_refresh
  serve_refresh-spent env payload w spent =
      let refused = refresh-spent settings env payload w.db spent in
      with_session-refused (on_db (refresh settings env payload)) w (ap (λ x. x.0) refused) refl
        refl

  -- A refresh token is good once. After a request exchanged it for a new pair of tokens, every
  -- later request with the same token is refused with 401 and changes nothing, in whatever state
  -- the rest of the database is by then, as long as the tokens stored under its hash are as they
  -- were left and the token that was drawn at random has another hash.
  pub serve_refresh_once :
      (env later_env : Env) (payload : RefreshRequest) (w later : World)
      (out : TokenResponse jose.Token)
      → (serve_refresh settings env payload w).0 ≡ ok out
      → (generate_refresh_token settings env.now (env.random 1)).1
        ≢ hash_refresh_token payload.refresh_token
      → tokens_under (hash_refresh_token payload.refresh_token) later.db
        ≡ tokens_under
            (hash_refresh_token payload.refresh_token)
            (serve_refresh settings env payload w).1.db
      → serve_refresh settings later_env payload later ≡ (err (http_exception 401), later)
  unfolding serve_refresh
  serve_refresh_once env later_env payload w later out done fresh same =
      let h = hash_refresh_token payload.refresh_token in
      let (handled, _, committed) = with_session-ok (on_db (refresh settings env payload)) w done in
      let (t, there, user, issued) = refresh-found settings env payload w.db out handled in
      let (spent, one, revoked) = exchanged settings env payload t user w.db there fresh in
      let left =
        same
        ∙ ap (λ (x : World). tokens_under h x.db) committed
        ∙ ap (λ (x : Result (TokenResponse jose.Token) × Db). tokens_under h x.1) issued
        ∙ one in
      serve_refresh-spent later_env payload later (spent, left, revoked)
