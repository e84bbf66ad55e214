-- ===== src/Security.antt =====
-- backend/app/security.py: passwords and tokens, over the libraries that it calls.
use ride_flow.Prelude.{◌+◌, ◌*◌, Bool, if◌then◌else◌, ltb, String, Option, none, some, ◌≡◌, true}
use ride_flow.Models.{Uuid, DateTime}
use ride_flow.Config.{Settings}
use ride_flow.Idempotency.{Hashing}

-- The payload of a token. Another token than this code's may lack any of it.
pub record Claims : Type 0 where
  pub sub : Option Uuid
  pub role : Option String
  pub token_type : Option String
  pub exp : DateTime

-- What the code relies on of the JWT library, under the secret key and the algorithm of the
-- settings: a token that was encoded is decoded to its claims until it has expired.
pub record Jose : Type 1 where
  pub Token : Type 0
  pub encode : Claims → Token
  pub decode : DateTime → Token → Option Claims
  pub decode-encode :
      (now : DateTime) (claims : Claims)
      → decode now (encode claims) ≡ (if ltb claims.exp now then none else some claims)

-- What it relies on of the password library: a hash, made with a salt, verifies its password.
pub record Passlib : Type 0 where
  pub hash : String → String → String
  pub verify : String → String → Bool
  pub verify-hash : (salt password : String) → verify password (hash salt password) ≡ true

module _ ⦃passlib : Passlib⦄ where
  unfoldable pub hash_password : String → String → String
  hash_password salt password = passlib.hash salt password

  unfoldable pub verify_password : String → String → Bool
  verify_password plain_password hashed_password = passlib.verify plain_password hashed_password

module _ ⦃jose : Jose⦄ where
  unfoldable pub create_access_token : Settings → DateTime → Uuid → String → jose.Token
  create_access_token settings now subject role =
      let expire = now + 60 * settings.access_token_expire_minutes in
      jose.encode
        (record { sub = some subject; role = some role; token_type = some "access"; exp = expire })

  unfoldable pub decode_token : DateTime → jose.Token → Option Claims
  decode_token now token = jose.decode now token

module _ ⦃hashing : Hashing⦄ where
  unfoldable pub hash_refresh_token : String → String
  hash_refresh_token raw_token = hashing.sha256_hex raw_token

  -- The raw token, which is drawn at random, its hash, and when it expires.
  unfoldable pub generate_refresh_token : Settings → DateTime → String → String × String × DateTime
  generate_refresh_token settings now raw =
      (raw, hashing.sha256_hex raw, now + 60 * settings.refresh_token_expire_minutes)
