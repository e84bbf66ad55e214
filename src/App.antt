-- ===== src/App.antt =====
-- backend/app/main.py: what becomes of a request between the server and its handler, and
-- backend/app/routers/health.py. The middleware that was added last is the outermost, so the rate
-- limiter stands before everything else.
pub mod Answers
use ride_flow.Prelude.{ℕ, Bool, true, false, ◌&&◌, if◌then◌else◌, Option, none, some, String}
use ride_flow.Models.{DateTime}
use ride_flow.Config.{Settings}
use ride_flow.Sql.{Sql}
use ride_flow.Redis.{Redis}
use ride_flow.Database.{World, Handler, Result, Exn, ok, err, http_exception, with_session}
use ride_flow.RateLimit.{Request, Verdict, passed, limited, dispatch}

-- The answer to a request, without the texts of errors.
pub record Response (A : Type 0) : Type 0 where
  pub status_code : ℕ
  pub content : Option A

-- `http_exception_handler` for an HTTPException, `unhandled_exception_handler` for the others.
abbrev pub error_status : Exn → ℕ
error_status (http_exception status_code) = status_code
error_status e = 500

-- The answer where the handler of a route with this status code has ended so.
abbrev pub answer : {A : Type 0} → ℕ → Result A → Response A
answer success (ok a) = record { status_code = success; content = some a }
answer success (err e) = record { status_code = error_status e; content = none }

abbrev pub too_many_requests : {A : Type 0} → Response A
too_many_requests = record { status_code = 429; content = none }

module _ ⦃sql : Sql⦄ ⦃redis : Redis⦄ where
  -- The route, if the limiter passes the request on.
  unfoldable pub route : {A : Type 0} → ℕ → Handler A → Verdict → World → Response A × World
  route success handler limited w = (too_many_requests, w)
  route success handler passed w =
      let (result, w') = with_session handler w in (answer success result, w')

  -- A request to the application.
  unfoldable pub serve :
      {A : Type 0} → Settings → DateTime → Request → ℕ → Handler A → World → Response A × World
  serve settings now request success handler w =
      let (verdict, strings) = dispatch settings now request w.strings in
      route success handler verdict (record w { strings = strings })

-- `/health/live`
abbrev pub liveness : Response String
liveness = record { status_code = 200; content = some "alive" }

pub record Checks : Type 0 where
  pub database : Bool
  pub redis : Bool

-- `try: ... except Exception: pass`
abbrev pub check : {A : Type 0} → Result A → Bool
check (ok a) = true
check (err e) = false

-- `/health/ready`, for what the query and the ping give.
unfoldable pub readiness : {A B : Type 0} → Result A → Result B → Response Checks
readiness query ping =
    let checks : Checks = record { database = check query; redis = check ping } in
    record {
      status_code = if checks.database && checks.redis then 200 else 503;
      content = some checks;
    }
