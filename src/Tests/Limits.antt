-- ===== src/Tests/Limits.antt =====
-- The theorem on the rate limiter, on the requests of one minute.
use ride_flow.Prelude.{List, [], ◌∷◌, none, some, countb, ◌≡◌, refl}
use ride_flow.Models.{DateTime}
use ride_flow.Config.{Settings, default_settings}
use ride_flow.RateLimit.{Request}
use ride_flow.RateLimit.Window.{passed_of, counts_for, at_most, passed_of-limit}
use ride_flow.Tests.Strings.{map_redis}
use ride_flow.Tests.Data.{no_strings}

-- One request a minute.
abbrev strict : Settings
strict = record default_settings { rate_limit_per_minute = 1 }

abbrev request_from : DateTime → DateTime × Request
request_from now = (now, record { path = "/api/v1/rides"; client = some "10.0.0.1" })

abbrev minute : List (DateTime × Request)
minute =
    request_from 120
    ∷ (130, record { path = "/health/live"; client = some "10.0.0.1" })
    ∷ (140, record { path = "/api/v1/rides"; client = none })
    ∷ request_from 179
    ∷ []

passed_of-limit_example :
    passed_of strict "10.0.0.1" minute no_strings
    ≡ at_most (countb (counts_for "10.0.0.1") minute) 1
passed_of-limit_example =
    passed_of-limit strict "10.0.0.1" 2 minute no_strings refl (refl, (refl, (refl, (refl, tt))))
