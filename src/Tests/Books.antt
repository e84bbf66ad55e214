-- ===== src/Tests/Books.antt =====
-- A run of the rides router on the test data: a new ride, a match and a refused move.
use ride_flow.Prelude.{[], ◌∷◌, List, none, refl}
use ride_flow.Models.{matching, completed}
use ride_flow.Config.{default_settings}
use ride_flow.Rides.Book.{Entries}
use ride_flow.Rides.Refines.{book}
use ride_flow.Rides.Service.{
  RideRequest, create_request, transition_request, serve_rides, IsAsked, serve_rides-refines,
}
use ride_flow.Tests.Tables.{list_sql}
use ride_flow.Tests.Strings.{map_redis}
use ride_flow.Tests.Data.{
  alice, world, env, later_env, body, move_to, unique_rides, first_floats, short_hashing,
}

abbrev requests : List RideRequest
requests =
    create_request env body none alice
    ∷ transition_request later_env 10 (move_to matching) alice
    ∷ transition_request later_env 11 (move_to completed) alice
    ∷ []

serve_rides-refines_example :
    Entries IsAsked (book world.db) (book (serve_rides default_settings requests world).db)
serve_rides-refines_example =
    serve_rides-refines default_settings requests world unique_rides (refl, (tt, (tt, tt)))
