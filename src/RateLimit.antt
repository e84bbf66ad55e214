-- ===== src/RateLimit.antt =====
-- backend/app/rate_limit.py: the middleware in front of every request but the health probes.
pub mod Counter
pub mod Window
use Prim.Native.Nat.{◌/◌}
use text.Mathlib.Text.{starts_with}
use ride_flow.Prelude.{
  ℕ, Bool, true, false, if◌then◌else◌, String, Option, none, some, ltb, nat_eqb,
}
use ride_flow.Models.{DateTime}
use ride_flow.Config.{Settings}
use ride_flow.Redis.{Redis, ratelimit}

-- `request.client.host if request.client else "unknown"`
abbrev pub client_ip : Option String → String
client_ip none = "unknown"
client_ip (some host) = host

-- What becomes of a request: it is passed on, or answered with status 429.
pub data Verdict : Type 0 where
  passed limited : Verdict

-- What the middleware reads of a request.
pub record Request : Type 0 where
  pub path : String
  pub client : Option String

module _ ⦃redis : Redis⦄ where
  -- The counter of a client in a window of time, and the verdict on it.
  unfoldable pub count_request :
      Settings → DateTime → String → ℕ → redis.Strings → Verdict × redis.Strings
  count_request settings now ip window strings =
      let (current, counted) = redis.incr now (ratelimit ip window) strings in
      let expiring =
        if nat_eqb current 1 then redis.expire now (ratelimit ip window) 60 counted else counted in
      (if ltb settings.rate_limit_per_minute current then limited else passed, expiring)

  -- `RateLimitMiddleware.dispatch`, with `int(time.time() // 60)` as the window.
  unfoldable pub dispatch : Settings → DateTime → Request → redis.Strings → Verdict × redis.Strings
  dispatch settings now request strings =
      let counted = count_request settings now (client_ip request.client) (now / 60) strings in
      if starts_with request.path "/health" then (passed, strings) else counted
