-- ===== src/Dependencies.antt =====
-- backend/app/dependencies.py: the user of a request, and the role guard.
use ride_flow.Prelude.{
  not, ◌==◌, string_eq, option_eq, nat_eqb, if◌then◌else◌, List, Option, none, some, any,
}
use ride_flow.Models.{UserRole, role_eqb, Uuid, DateTime, User}
use ride_flow.Sql.{Sql}
use ride_flow.Database.{
  Db, Action, http_exception, ◌>>=◌, ◌>>◌, pure, raise, raise_if, scalar_one_or_none, or_raise,
}
use ride_flow.Security.{Jose, Claims, decode_token}

-- `require_roles(*roles)`
unfoldable pub require_roles : {S : Type 0} → List UserRole → User → Action S User
require_roles roles user =
    raise_if (not (any (λ r. role_eqb user.role r) roles)) (http_exception 403) >> pure user

-- The subject of an access token, and None for a token that is none.
unfoldable pub subject_of : Option Claims → Option Uuid
subject_of none = none
subject_of (some claims) = if claims.token_type == some "access" then claims.sub else none

-- `user is None or not user.is_active`
abbrev pub active_or_401 : {S : Type 0} → Option User → Action S User
active_or_401 none = raise (http_exception 401)
active_or_401 (some user) = raise_if (not user.is_active) (http_exception 401) >> pure user

module _ ⦃sql : Sql⦄ ⦃jose : Jose⦄ where
  unfoldable pub user_by_id : Uuid → Action Db (Option User)
  user_by_id user_id db =
      (scalar_one_or_none (sql.select (λ (u : User). nat_eqb u.id user_id) db.users), db)

  unfoldable pub get_current_user : DateTime → jose.Token → Action Db User
  get_current_user now token = do
    user_id ← or_raise (subject_of (decode_token now token)) (http_exception 401)
    user ← user_by_id user_id
    active_or_401 user
