-- ===== src/Tests/Answered.antt =====
-- The answers to requests on the test data.
use ride_flow.Prelude.{some}
use ride_flow.Models.{matching}
use ride_flow.Config.{default_settings}
use ride_flow.RateLimit.{Request}
use ride_flow.App.{serve}
use ride_flow.App.Answers.{Answered, serve_transition-Answered}
use ride_flow.Rides.Caught.{InOrder}
use ride_flow.Rides.Transition.{transition_ride}
use ride_flow.Tests.Tables.{list_sql}
use ride_flow.Tests.Strings.{map_redis}
use ride_flow.Tests.Data.{alice, world, env, move_to, unique_rides, in_order}

abbrev request : Request
request = record { path = "/api/v1/rides/10"; client = some "10.0.0.1" }

data-InOrder : InOrder world.db
data-InOrder = record { keyed = unique_rides; fine = in_order }

serve_transition-Answered_example : Answered world (
    serve default_settings 100 request 200
      (transition_ride default_settings env 10 (move_to matching) alice)
      world)
serve_transition-Answered_example =
    serve_transition-Answered default_settings env 10 (move_to matching) alice 100 request world
      data-InOrder
