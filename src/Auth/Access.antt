-- ===== src/Auth/Access.antt =====
-- From a registration to a login, and from a login to the user of a request.
use ride_flow.Prelude.{
  ◌+◌, ◌*◌, ◌≤◌, true, false, ltb, nat_eqb, if◌then◌else◌, ◌==◌, string_eq, eqb_refl, Option, none,
  some, String, List, [], ◌∷◌, ◌++◌, ◌≡◌, sym, ap, some_inj, ◌∙◌, arith, filterb, filterb-append,
}
use ride_flow.Models.{role_value, Uuid, DateTime, User}
use ride_flow.Models.Sets.{User-set}
use ride_flow.Schemas.{RegisterRequest, LoginRequest, TokenResponse}
use ride_flow.Config.{Settings}
use ride_flow.Sql.{Sql}
use ride_flow.Sql.Rows.{select-one, select-none}
use ride_flow.Database.{Db, Result, ok, err, http_exception}
use ride_flow.Request.{Env}
use ride_flow.Idempotency.{Hashing}
use ride_flow.Dependencies.{subject_of, user_by_id, get_current_user}
use ride_flow.Security.{
  Jose, Claims, Passlib, create_access_token, decode_token, verify_password, hash_password,
}
use ride_flow.Auth.{user_by_email, new_user, register, check_login, issue_token_pair, login}

abbrev access_of : {A : Type 0} → Result (TokenResponse A) → Option A
access_of (ok out) = some out.access_token
access_of (err e) = none

module _ ⦃sql : Sql⦄ where
  -- The users that are stored under an email address.
  abbrev pub users_with : String → Db → List User
  users_with email db = filterb (λ (u : User). u.email == email) (sql.rows db.users)

  -- The users that are stored under an identifier.
  abbrev pub users_under : Uuid → Db → List User
  users_under id db = filterb (λ (u : User). nat_eqb u.id id) (sql.rows db.users)

user_of : {a b : User} → ok a ≡ ok b → a ≡ b
user_of h = cc

module _ ⦃sql : Sql⦄ ⦃hashing : Hashing⦄ ⦃jose : Jose⦄ (settings : Settings) (env : Env) where
  decoded :
      (now : DateTime) (user : User) (role : String)
      → now ≤ env.now + 60 * settings.access_token_expire_minutes
      → subject_of (decode_token now (create_access_token settings env.now user.id role))
        ≡ some user.id
  unfolding create_access_token decode_token subject_of
  decoded now user role early =
      let claims : Claims = record {
        sub = some user.id;
        role = some role;
        token_type = some "access";
        exp = env.now + 60 * settings.access_token_expire_minutes;
      } in
      let live : ltb claims.exp now ≡ false = ground arith in
      ap subject_of (jose.decode-encode now claims ∙ ap (λ b. if b then none else some claims) live)

  -- The access token of a new pair names its user: until it has expired, a request that carries it
  -- is the user's as the database has it by then, and is refused with 401 if the user is not
  -- active any more.
  pub get_current_user-issued :
      (user stored : User) (now : DateTime) (db later : Db) (out : TokenResponse jose.Token)
      → (issue_token_pair settings env user db).0 ≡ ok out
      → now ≤ env.now + 60 * settings.access_token_expire_minutes
      → users_under user.id later ≡ stored ∷ []
      → get_current_user now out.access_token later
        ≡ ((if stored.is_active then ok stored else err (http_exception 401)), later)
  unfolding issue_token_pair get_current_user user_by_id
  get_current_user-issued user stored now db later out issued early there =
      let role = role_value user.role in
      let token : create_access_token settings env.now user.id role ≡ out.access_token =
        some_inj (ap access_of issued) in
      let subject =
        ap (λ t. subject_of (decode_token now t)) (sym token) ∙ decoded now user role early in
      let found =
        select-one (λ (u : User). nat_eqb u.id user.id) later.users User-set stored there in
      ground arith

module _ ⦃sql : Sql⦄ ⦃hashing : Hashing⦄ ⦃jose : Jose⦄ ⦃passlib : Passlib⦄
    (settings : Settings) where
  -- Under a free email address, the handler adds the user.
  pub register-free :
      (env : Env) (payload : RegisterRequest) (db : Db)
      → users_with payload.email db ≡ []
      → register env payload db
        ≡ (ok (new_user env payload), record db { users = sql.add (new_user env payload) db.users })
  unfolding register user_by_email
  register-free env payload db free =
      let nobody = select-none (λ (u : User). u.email == payload.email) db.users free in
      ground arith

  -- Who registers under an email address that nobody has can log in at once with that address and
  -- the password: the login gives a pair of tokens for the new user.
  pub login-register :
      (env later_env : Env) (payload : RegisterRequest) (db : Db) (user : User)
      → (register env payload db).0 ≡ ok user
      → users_with payload.email db ≡ []
      → login settings later_env
          (record { email = payload.email; password = payload.password })
          (register env payload db).1
        ≡ issue_token_pair settings later_env user (register env payload db).1
  unfolding register login user_by_email check_login verify_password hash_password
  login-register env later_env payload db user done free =
      let new = new_user env payload in
      let q = λ (u : User). u.email == payload.email in
      let db' : Db = record db { users = sql.add new db.users } in
      let value = register-free env payload db free in
      let same = user_of (sym (ap (λ (x : Result User × Db). x.0) value) ∙ done) in
      let there : users_with payload.email db' ≡ new ∷ [] =
        ap (filterb q) (sql.rows-add new db.users)
        ∙ filterb-append q (sql.rows db.users) (new ∷ [])
        ∙ ap (λ xs. xs ++ filterb q (new ∷ [])) free
        ∙ ap (λ b. if b then new ∷ [] else []) (eqb_refl payload.email) in
      let found = select-one q db'.users User-set new there in
      let opens : verify_password payload.password new.hashed_password ≡ true =
        passlib.verify-hash (env.random 0) payload.password in
      let credentials : LoginRequest = record {
        email = payload.email;
        password = payload.password;
      } in
      let logged : login settings later_env credentials db'
          ≡ issue_token_pair settings later_env new db' =
        ground arith in
      let left = ap (λ (x : Result User × Db). x.1) value in
      ap (login settings later_env credentials) left
      ∙ logged
      ∙ ap (λ u. issue_token_pair settings later_env u db') same
      ∙ ap (issue_token_pair settings later_env user) (sym left)
