-- ===== src/Tests/Requests.antt =====
-- The theorems on the requests that move a ride, on the test data.
use ride_flow.Prelude.{
  some, if◌then◌else◌, true, false, if◌then◌else◌, List, [], ◌∷◌, ◌++◌, none, Perm, filterb, ◌==◌,
  nat_eq, ◌≡◌, ◌≢◌, inl, inr, refl, arith,
}
use ride_flow.Models.{
  requested, matching, accepted, driver_arriving, cancelled, completed, ride_transitions, status_eq,
  role_eq, Ride,
}
use ride_flow.Config.{default_settings}
use ride_flow.Database.{World, ok, err, http_exception}
use ride_flow.StateMachine.{allowed, new_values, status_changed}
use ride_flow.StateMachine.Update.{events, Replaces}
use ride_flow.StateMachine.Logged.{Logged}
use ride_flow.Rides.{get_ride, list_my_rides}
use ride_flow.Rides.Transition.{serve_transition}
use ride_flow.Rides.Match.{matched}
use ride_flow.Rides.Moves.{is_reserved, serve_transition-moves}
use ride_flow.Redis.{Key, reservation, key_eqb}
use ride_flow.Rides.Refusals.{serve_transition-refused, outsider_forbidden}
use ride_flow.Rides.Outbox.{serve_transition-Logged}
use ride_flow.Rides.Listing.{AreNewestFirst, list_my_rides-newest}
use ride_flow.Rides.Acceptance.{unassigned_acceptance}
use ride_flow.Tests.Tables.{list_sql}
use ride_flow.Tests.Strings.{map_redis}
use ride_flow.Tests.Data.{
  data-Logged, alice, dan, new_one, searched, taken, db, world, env, later_env, move_to,
  unique_rides, in_order,
}

may_match : allowed requested matching ≡ true
unfolding allowed ride_transitions
may_match = refl

may_cancel : allowed requested cancelled ≡ true
unfolding allowed ride_transitions
may_cancel = refl

may_not_complete : allowed requested completed ≡ false
unfolding allowed ride_transitions
may_not_complete = refl

-- Ride 10 goes to a driver, whichever the search finds.
abbrev resolved : Ride
resolved =
    matched default_settings env 10 (move_to matching) alice new_one world unique_rides refl refl
      in_order refl

-- Ride 12, which holds its driver 6, is cancelled.
abbrev reserved_world : World
reserved_world = record world {
  strings = λ k. if key_eqb k (reservation 6) then some (12, some 110) else none;
}

may_cancel_taken : allowed accepted cancelled ≡ true
unfolding allowed ride_transitions
may_cancel_taken = refl

serve_transition-moves_example :
    let after : Ride = record taken { status = cancelled; version = 2; updated_at = 100 } in
    let (result, w') =
      serve_transition default_settings env 12 (move_to cancelled) alice reserved_world in
    (result ≡ ok after)
    × Replaces db w'.db 12 after
    × (events w'.db ≡ events db ++ (status_changed 100 50 after accepted cancelled ∷ []))
    × ((key : Key)
        → w'.strings key ≡ (
            if is_reserved env 12 (some 6) reserved_world.strings key
            then none
            else reserved_world.strings key))
    × (w'.geo ≡ world.geo)
serve_transition-moves_example =
    serve_transition-moves default_settings env 12 (move_to cancelled) alice taken reserved_world
      unique_rides refl refl in_order refl refl may_cancel_taken

serve_transition-refused_example :
    serve_transition default_settings env 10 (move_to completed) alice world
    ≡ (err (http_exception (if allowed requested completed then 409 else 422)), world)
serve_transition-refused_example =
    serve_transition-refused default_settings env 10 (move_to completed) alice new_one world
      unique_rides refl refl (inl may_not_complete)

serve_transition-Logged_example :
    Logged (serve_transition default_settings env 10 (move_to matching) alice world).1.db
serve_transition-Logged_example =
    serve_transition-Logged default_settings env 10 (move_to matching) alice world data-Logged

-- Bob asks for a ride of Alice's, and driver 5 for one that driver 6 has.
outsider_forbidden_example :
    (get_ride 12 dan db ≡ (err (http_exception 403), db))
    × (serve_transition default_settings env 12 (move_to driver_arriving) dan world
        ≡ (err (http_exception 403), world))
outsider_forbidden_example =
    outsider_forbidden default_settings env 12 (move_to driver_arriving) dan taken world refl
      (inr (refl, λ e. cc, λ e. ground arith))

list_my_rides-newest_example :
    (rides : List Ride) × (list_my_rides alice db ≡ (ok rides, db))
    × Perm rides (filterb (λ r. r.passenger_id == 1) db.rides)
    × AreNewestFirst rides
list_my_rides-newest_example = list_my_rides-newest alice db

not_accepted : driver_arriving ≢ accepted
not_accepted e = cc

unassigned_acceptance_example :
    let after = new_values 100 accepted none searched in
    let (result, w') = serve_transition default_settings env 11 (move_to accepted) dan world in
    (result ≡ ok after)
    × (after.driver_id ≡ none)
    × (serve_transition default_settings later_env 11 (move_to driver_arriving) dan w'
        ≡ (err (http_exception 403), w'))
unassigned_acceptance_example =
    unassigned_acceptance default_settings env later_env 11 (move_to accepted)
      (move_to driver_arriving) dan searched world unique_rides refl in_order refl refl refl refl
      refl not_accepted
