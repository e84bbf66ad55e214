-- ===== src/Tests/Transitions.antt =====
-- The theorems on the state machine, on the test data.
use ride_flow.Prelude.{◌+◌, ◌≤◌, pos, true, false, [], ◌∷◌, none, some, ◌≡◌, refl, arith}
use ride_flow.Models.{
  requested, matching, accepted, driver_arriving, in_progress, completed, cancelled,
  ride_transitions, Ride,
}
use ride_flow.Database.{Db, ok, err, stale_version}
use ride_flow.StateMachine.{
  allowed, apply_transition, new_values, assert_valid_transition, update_ride, first_or_stale,
  refresh, TransitionResult,
}
use ride_flow.StateMachine.Update.{ride_of}
use ride_flow.StateMachine.Graph.{Journey, Journey-accepted}
use ride_flow.StateMachine.Sessions.{
  Course, Steps, start, System, newest, Inv, Steps-Journey, read, transition,
}
use ride_flow.StateMachine.Conflicts.{version_spent, apply-outdated}
use ride_flow.Tests.Tables.{list_sql}
use ride_flow.Tests.Strings.{map_redis}
use ride_flow.Tests.Data.{new_one, db, unique_rides}

-- A request reads the requested ride.
abbrev read_state : System
read_state = record { db = db; seen = new_one ∷ [] }

-- And moves it to `matching`.
abbrev moved_db : Db
moved_db = (apply_transition 100 50 new_one matching (pos 1) none db).1

abbrev moved_state : System
moved_state = record { db = moved_db; seen = new_one ∷ [] }

reads : Steps (start db) read_state
reads = Steps.next Steps.here (read new_one refl)

moves : Steps (start db) moved_state
moves = Steps.next reads (transition 100 50 new_one matching 1 none newest (omega arith))

Steps-Journey_example : Course moved_db 10 new_one
Steps-Journey_example = Steps-Journey db moved_state 10 new_one unique_rides moves refl

read_Inv : Inv read_state
read_Inv = record { keyed = unique_rides; past = ((new_one, refl, omega arith, λ _. refl), tt) }

abbrev first_result : TransitionResult
first_result = record { ride = new_values 100 matching none new_one; previous_status = requested }

went : (apply_transition 100 50 new_one matching (pos 1) none db).0 ≡ ok first_result
unfolding apply_transition assert_valid_transition update_ride first_or_stale refresh allowed
    ride_transitions
went = refl

may_cancel : allowed requested cancelled ≡ true
unfolding allowed ride_transitions
may_cancel = refl

may_match : allowed requested matching ≡ true
unfolding allowed ride_transitions
may_match = refl

-- A passenger who read version 1 cancels too late.
version_spent_example :
    (apply_transition 101 51 new_one cancelled (pos 1) none moved_db).0 ≡ err (stale_version 10)
version_spent_example =
    version_spent read_state moved_state 100 101 50 51 new_one new_one matching cancelled 1 none
      none read_Inv newest (omega arith) went Steps.here refl may_cancel

no_restart : allowed cancelled matching ≡ false
unfolding allowed ride_transitions
no_restart = refl

-- The ride as its row is after a cancellation.
abbrev cancelled_one : Ride
cancelled_one = new_values 100 cancelled none new_one

abbrev cancelled_db : Db
cancelled_db = record db { rides = cancelled_one ∷ [] }

apply-outdated_example :
    let (result, db') = apply_transition 101 51 new_one matching (pos 2) none cancelled_db in
    (after : Ride) × (result ≡ ok (record { ride = after; previous_status = requested }))
    × (ride_of db' 10 ≡ some after)
    × (after.status ≡ matching)
    × (allowed cancelled after.status ≡ false)
apply-outdated_example =
    apply-outdated 101 51 new_one cancelled_one matching none cancelled_db (refl, tt) refl may_match
      no_restart

one : allowed accepted driver_arriving ≡ true
unfolding allowed ride_transitions
one = refl

two : allowed driver_arriving in_progress ≡ true
unfolding allowed ride_transitions
two = refl

three : allowed in_progress completed ≡ true
unfolding allowed ride_transitions
three = refl

found : allowed matching accepted ≡ true
unfolding allowed ride_transitions
found = refl

Journey-accepted_example : (2 + 3 ≤ 5) × (3 ≤ 3)
Journey-accepted_example =
    Journey-accepted (omega arith)
      (Journey.next (Journey.next (Journey.next Journey.here one) two) three)
