-- ===== src/Rides/Outbox.antt =====
-- The account of the outbox against the rides, as the requests leave it.
use ride_flow.Prelude.{nat_eqb, Option-cases, Option, none, some, inl, inr, arith, ℤ, pos}
use ride_flow.Models.{RideStatus, Uuid, User, Ride, matching, no_drivers_found, accepted}
use ride_flow.Schemas.{RideTransitionRequest}
use ride_flow.Config.{Settings}
use ride_flow.Sql.{Sql}
use ride_flow.Redis.{Redis}
use ride_flow.Database.{World, Handler, on_db, Result-cases}
use ride_flow.Matching.{find_and_reserve_driver}
use ride_flow.Database.Sessions.{Keeps, Keeps-with_session}
use ride_flow.StateMachine.{apply_transition}
use ride_flow.StateMachine.Logged.{Logged, apply-Logged}
use ride_flow.Request.{Env}
use ride_flow.Rides.Transition.{
  reserve_for, settle, match_ride, release_if_cancelled, move_ride, perform_transition, catching,
  transition_ride, serve_transition,
}

module _ ⦃sql : Sql⦄ ⦃redis : Redis⦄ (settings : Settings) (env : Env) where
  abbrev KeepsLog : {A : Type 0} → Handler A → Type 0
  KeepsLog h = Keeps (λ (w : World). Logged w.db) h

  apply-KeepsLog :
      (i : Uuid) (ride : Ride) (target : RideStatus) (expected : ℤ) (extra : Option Uuid)
      → KeepsLog (on_db (apply_transition env.now i ride target expected extra))
  apply-KeepsLog i ride target expected extra w l =
      apply-Logged env.now i ride target expected extra w.db l

  settle-KeepsLog : (ride : Ride) (found : Option Uuid) → KeepsLog (settle env ride found)
  unfolding settle
  settle-KeepsLog ride none w l = ground (
    arith,
    apply-Logged env.now (env.uuid 1) ride no_drivers_found (pos ride.version) none w.db l,
  )
  settle-KeepsLog ride (some d) w l =
      ground
        (arith, apply-Logged env.now (env.uuid 1) ride accepted (pos ride.version) (some d) w.db l)

  match_ride-KeepsLog :
      (ride : Ride) (expected : ℤ) → KeepsLog (match_ride settings env ride expected)
  unfolding match_ride reserve_for
  match_ride-KeepsLog ride expected w l =
      let first = apply_transition env.now (env.uuid 0) ride matching expected none w.db in
      let kept = apply-Logged env.now (env.uuid 0) ride matching expected none w.db l in
      elim (Result-cases first.0) [
        | inr (x, e) ↦ ground arith
        | inl (a, e) ↦
            let search =
              find_and_reserve_driver settings env.now a.ride.pickup_lat a.ride.pickup_lng a.ride.id
                w.geo w.strings in
            let w' : World = record w { db = first.1; strings = search.1 } in
            let settled = settle-KeepsLog a.ride search.0 w' kept in ground arith
      ]

  move_ride-KeepsLog :
      (ride : Ride) (target : RideStatus) (expected : ℤ)
      → KeepsLog (move_ride env ride target expected)
  unfolding move_ride release_if_cancelled
  move_ride-KeepsLog ride target expected w l =
      ground (arith, apply-Logged env.now (env.uuid 0) ride target expected none w.db l)

  perform-KeepsLog :
      (payload : RideTransitionRequest) (ride : Ride)
      → KeepsLog (catching (perform_transition settings env payload ride))
  unfolding catching perform_transition
  perform-KeepsLog payload ride w l = ground (
    arith,
    match_ride-KeepsLog ride payload.expected_version w l,
    move_ride-KeepsLog ride payload.target_status payload.expected_version w l,
  )

  transition_ride-KeepsLog :
      (ride_id : Uuid) (payload : RideTransitionRequest) (user : User)
      → KeepsLog (transition_ride settings env ride_id payload user)
  unfolding transition_ride
  transition_ride-KeepsLog ride_id payload user w l =
      elim (Option-cases (sql.get (λ (r : Ride). nat_eqb r.id ride_id) w.db.rides)) [
        | inl missing ↦ ground arith
        | inr (ride, found) ↦ ground (arith, perform-KeepsLog payload ride w l)
      ]

  -- If `id` is the key of the rides and each ride's version is one more than the number of events
  -- about it in the outbox, this is still so after a request for a transition, whoever asks for it
  -- and however it ends: every committed transition has its event and no event is without one.
  pub serve_transition-Logged :
      (ride_id : Uuid) (payload : RideTransitionRequest) (user : User) (w : World)
      → Logged w.db
      → Logged (serve_transition settings env ride_id payload user w).1.db
  unfolding serve_transition
  serve_transition-Logged ride_id payload user =
      Keeps-with_session Logged (transition_ride settings env ride_id payload user)
        (transition_ride-KeepsLog ride_id payload user)
