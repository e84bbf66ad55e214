-- ===== src/Tests/Runs.antt =====
-- Runs of the requests on the test data.
use ride_flow.Prelude.{◌≡◌, refl}
use ride_flow.Database.{ok, err, http_exception}
use ride_flow.Rides.{get_ride}
use ride_flow.Tests.Tables.{list_sql}
use ride_flow.Tests.Strings.{map_redis}
use ride_flow.Tests.Data.{alice, bob, new_one, db}

-- Bob cannot see Alice's ride, and Alice can.
hidden : get_ride 10 bob db ≡ (err (http_exception 403), db)
unfolding get_ride
hidden = refl

shown : get_ride 10 alice db ≡ (ok new_one, db)
unfolding get_ride
shown = refl

unknown : get_ride 13 alice db ≡ (err (http_exception 404), db)
unfolding get_ride
unknown = refl
