-- ===== src/Tests/Tokens.antt =====
-- The theorems on authentication, on the test data, with tokens that are their own claims.
use ride_flow.Prelude.{
  String, eq_iff, true, false, ltb, if◌then◌else◌, ◌==◌, string_eq, eqb_refl, none, some, List, [],
  ◌∷◌, ◌≡◌, ◌≢◌, refl, arith, eq_iff,
}
use ride_flow.Models.{User, RefreshToken, passenger}
use ride_flow.Schemas.{RegisterRequest, RefreshRequest, TokenResponse, user_out}
use ride_flow.Config.{default_settings}
use ride_flow.Database.{World, ok, err, http_exception, with_session, commit, constraints}
use ride_flow.Dependencies.{get_current_user}
use ride_flow.Security.{
  Claims, Jose, Passlib, hash_password, verify_password, create_access_token, hash_refresh_token,
  generate_refresh_token,
}
use ride_flow.Auth.{
  register, login, issue_token_pair, serve_refresh, refresh, refresh_stored, rotate, reissue,
  check_stored, stored_token, revoke, user_by_email, serve_logout, logout, check_login,
  serve_register, serve_login, serve_me, revoke_found,
}
use ride_flow.Auth.Rotation.{tokens_under}
use ride_flow.Auth.Sequences.{
  AuthRequest, logs_in, refreshes, logs_out, serve_auths, serve_refresh_for_good,
  serve_logout_for_good,
}
use ride_flow.Auth.Access.{get_current_user-issued}
use ride_flow.Auth.Arrival.{credentials_of, serve_me-registered}
use ride_flow.Tests.Tables.{list_sql}
use ride_flow.Tests.Strings.{map_redis}
use ride_flow.Tests.Data.{short_hashing, alice, db, world, env, later_env}

instance abbrev pub open_jose : Jose
open_jose = record {
  Token = Claims;
  encode = λ claims. claims;
  decode = λ now claims. if ltb claims.exp now then none else some claims;
  decode-encode = λ now claims. refl;
}

instance abbrev pub plain_passlib : Passlib
plain_passlib = record {
  hash = λ salt password. password;
  verify = λ password hashed. password == hashed;
  verify-hash = λ salt password. eqb_refl password;
}

-- Alice holds the token "old".
abbrev old_token : RefreshToken
old_token = record {
  id = 30;
  user_id = 1;
  token_hash = "old";
  expires_at = 1000;
  revoked = false;
  created_at = 0;
}

abbrev with_token : World
with_token = record world { db = record db { refresh_tokens = old_token ∷ [] } }

abbrev old : RefreshRequest
old = record { refresh_token = "old" }

abbrev new_pair : TokenResponse Claims
new_pair = record {
  access_token = record {
    sub = some 1;
    role = some "passenger";
    token_type = some "access";
    exp = 1000;
  };
  refresh_token = "r1";
}

exchanges : (serve_refresh default_settings env old with_token).0 ≡ ok new_pair
unfolding serve_refresh refresh refresh_stored rotate reissue check_stored stored_token revoke
    issue_token_pair create_access_token generate_refresh_token hash_refresh_token with_session
    commit constraints
exchanges = refl

abbrev fresh_text : String
fresh_text = "r1"

abbrev old_text : String
old_text = "old"

other_hash : (generate_refresh_token default_settings 100 "r1").1 ≢ hash_refresh_token "old"
unfolding generate_refresh_token hash_refresh_token
other_hash e = let same = (eq_iff fresh_text old_text).1 e in ground arith

abbrev later_text : String
later_text = "r2"

later_hash : (generate_refresh_token default_settings 200 "r2").1 ≢ hash_refresh_token "old"
unfolding generate_refresh_token hash_refresh_token
later_hash e = let same = (eq_iff later_text old_text).1 e in ground arith

old_alone : tokens_under (hash_refresh_token "old") with_token.db ≡ old_token ∷ []
unfolding hash_refresh_token
old_alone = refl

-- Alice logs in, tries the old token again and logs out.
abbrev later_requests : List AuthRequest
later_requests =
    logs_in later_env (record { email = "alice"; password = "" })
    ∷ refreshes later_env old
    ∷ logs_out (record { refresh_token = "r1" })
    ∷ []

serve_refresh_for_good_example :
    let later = serve_auths default_settings (refreshes env old ∷ later_requests) with_token in
    serve_refresh default_settings later_env old later ≡ (err (http_exception 401), later)
serve_refresh_for_good_example =
    serve_refresh_for_good default_settings env later_env old with_token new_pair later_requests
      exchanges (other_hash, (later_hash, (later_hash, (tt, tt))))

logged_out : (serve_logout old with_token).0 ≡ ok tt
unfolding serve_logout logout stored_token revoke revoke_found hash_refresh_token with_session
    commit constraints
logged_out = refl

serve_logout_for_good_example :
    let later = serve_auths default_settings (logs_out old ∷ later_requests) with_token in
    serve_refresh default_settings env old later ≡ (err (http_exception 401), later)
serve_logout_for_good_example =
    serve_logout_for_good default_settings env old with_token old_token later_requests old_alone
      logged_out (later_hash, (later_hash, (tt, tt)))

issued : (issue_token_pair default_settings env alice db).0 ≡ ok new_pair
unfolding issue_token_pair create_access_token generate_refresh_token
issued = refl

get_current_user-issued_example :
    get_current_user 500 new_pair.access_token db
    ≡ ((if alice.is_active then ok alice else err (http_exception 401)), db)
get_current_user-issued_example =
    get_current_user-issued default_settings env alice alice 500 db db new_pair issued (omega arith)
      refl

abbrev newcomer : RegisterRequest
newcomer = record { email = "carol"; password = "secret-1"; full_name = "Carol"; role = passenger }

abbrev carol : User
carol = record {
  id = 50;
  email = "carol";
  hashed_password = "secret-1";
  full_name = "Carol";
  role = passenger;
  is_active = true;
  created_at = 100;
}

registers_fine : constraints (register env newcomer world.db).1 ≡ true
unfolding register user_by_email constraints hash_password
registers_fine = refl

logs_in_fine :
    constraints
      (login default_settings later_env
        (credentials_of newcomer)
        (register env newcomer world.db).1).1
    ≡ true
unfolding register user_by_email constraints hash_password login check_login verify_password
    issue_token_pair create_access_token generate_refresh_token
logs_in_fine = refl

serve_me-registered_example :
    let (registered, there) = serve_register env newcomer world in
    let (logged, later) = serve_login default_settings later_env (credentials_of newcomer) there in
    (registered ≡ ok carol)
    × ((out : TokenResponse Claims) × (logged ≡ ok out)
        × (serve_me 1000 out.access_token later ≡ (ok (user_out carol), later)))
unfolding hash_password
serve_me-registered_example =
    serve_me-registered default_settings env later_env newcomer 1000 world refl refl registers_fine
      logs_in_fine (omega arith)
