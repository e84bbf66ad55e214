-- ===== src/Rides/Caught.antt =====
-- The errors that a transition of a ride can end with.
use ride_flow.Prelude.{
  ℤ, pos, true, false, ◌&&◌, ◌==◌, int_eqb, Option, none, some, ◌≡◌, refl, sym, ◌∙◌, subst, inl,
  inr, Bool-cases, Bool,
}
use ride_flow.Models.{
  Uuid, DateTime, Ride, requested, matching, accepted, no_drivers_found, cancelled, driver_arriving,
  in_progress, completed, RideStatus, status_eq,
}
use ride_flow.Schemas.{RideTransitionRequest}
use ride_flow.Config.{Settings}
use ride_flow.Sql.{Sql}
use ride_flow.Redis.{Redis}
use ride_flow.Database.{
  Db, World, Handler, Result, Exn, ok, err, invalid_transition, stale_version, constraints, on_db,
  ◌>>=◌, pure,
}
use ride_flow.StateMachine.{allowed, apply_transition, TransitionResult}
use ride_flow.StateMachine.Update.{IsKeyedDb}
use ride_flow.StateMachine.Apply.{apply-cases, apply-illegal, apply-stale, apply-done}
use ride_flow.Matching.{find_and_reserve_driver}
use ride_flow.Request.{Env}
use ride_flow.Rides.Outcomes.{constraints-same}
use ride_flow.Rides.Book.{no_entry}
use ride_flow.Rides.Refines.{book, Current, apply-Reached}
use ride_flow.Rides.Transition.{
  reserve_for, settle, match_ride, release_if_cancelled, move_ride, perform_transition,
}

-- The errors of the state machine, which `transition_ride` catches.
abbrev pub is_caught : Exn → Bool
is_caught (invalid_transition current target) = true
is_caught (stale_version id) = true
is_caught e = false

-- A computation that ends well, or with an error that is caught.
abbrev pub IsCaught : {A : Type 0} → Result A → Type 0
IsCaught (ok a) = Unit {0}
IsCaught (err e) = is_caught e ≡ true

module _ ⦃sql : Sql⦄ where
  -- A database that is in order.
  pub record InOrder (db : Db) : Type 0 where
    pub keyed : IsKeyedDb db
    pub fine : constraints db ≡ true

  -- A state as a step of the handler may leave it.
  abbrev Ends : {A : Type 0} → Result A × Db → Type 0
  Ends (result, db) = IsCaught result × InOrder db

  module _ (now : DateTime) (event_id : Uuid) (ride : Ride) (target : RideStatus) (expected : ℤ)
      (extra : Option Uuid) (db : Db) where
    apply-InOrder :
        InOrder db → InOrder (apply_transition now event_id ride target expected extra db).1
    apply-InOrder o =
        let db' = (apply_transition now event_id ride target expected extra db).1 in
        elim (apply-cases now event_id ride target expected extra db o.keyed) [
          | inl (_, _, rides, _, rest) ↦ record {
            keyed = rw rides o.keyed;
            fine = constraints-same db db' rest ∙ o.fine;
          }
          | inr (_, _, _, _, _, _, keyed, _, rest) ↦ record {
            keyed = keyed;
            fine = constraints-same db db' rest ∙ o.fine;
          }
        ]

    apply-IsCaught :
        InOrder db
        → Current db ride
        → IsCaught (apply_transition now event_id ride target expected extra db).0
    apply-IsCaught o current = elim (Bool-cases (allowed ride.status target)) [
      | inr illegal ↦
          subst (λ (x : Result TransitionResult × Db). IsCaught x.0)
            (sym (apply-illegal now event_id ride target expected extra db illegal)) refl
      | inl legal ↦ elim (Bool-cases (int_eqb ride.version expected)) [
        | inl v ↦
            let done =
              apply-done now event_id ride target expected extra db ride o.keyed legal current v in
            subst IsCaught (sym done.0) tt
        | inr v ↦
            let stale =
              apply-stale now event_id ride target expected extra db o.keyed legal
                (λ r found. cc (current, found, v)) in
            subst IsCaught (sym stale.0) refl
      ]
    ]

module _ ⦃sql : Sql⦄ ⦃redis : Redis⦄ where
  -- How a handler ends at a state.
  abbrev pub EndsAt : {A : Type 0} → Handler A → World → Type 0
  EndsAt h w = IsCaught (h w).0 × InOrder (h w).1.db

  ended :
      {A B : Type 0} (f : A → Handler B) (r : Result A) (w : World)
      → IsCaught r × InOrder w.db
      → ((a : A) → r ≡ ok a → EndsAt (f a) w)
      → let out : Result B × World = elim r [ ok a ↦ f a w | err x ↦ (err x, w) ] in
        IsCaught out.0 × InOrder out.1.db
  ended f (ok a) w e k = k a refl
  ended f (err x) w e k = e

  EndsAt-bind :
      {A B : Type 0} (m : Handler A) (f : A → Handler B) (w : World)
      → EndsAt m w
      → ((a : A) → (m w).0 ≡ ok a → EndsAt (f a) (m w).1)
      → EndsAt (m >>= f) w
  EndsAt-bind m f w e k = ended f (m w).0 (m w).1 e k

  module _ (now : DateTime) (event_id : Uuid) (ride : Ride) (target : RideStatus) (expected : ℤ)
      (extra : Option Uuid) (w : World) (o : InOrder w.db) (current : Current w.db ride) where
    apply-EndsAt : EndsAt (on_db (apply_transition now event_id ride target expected extra)) w
    apply-EndsAt = (
      apply-IsCaught now event_id ride target expected extra w.db o current,
      apply-InOrder now event_id ride target expected extra w.db o,
    )

    -- The ride that a transition gives back is as its row.
    apply-Current :
        (a : TransitionResult)
        → (apply_transition now event_id ride target expected extra w.db).0 ≡ ok a
        → Current (apply_transition now event_id ride target expected extra w.db).1 a.ride
    apply-Current a done =
        (apply-Reached (λ _. Unit {0}) (book w.db) now event_id ride target expected extra w.db
            (record { keyed = o.keyed; entries = no_entry }) current).1
          a done

  module _ (settings : Settings) (env : Env) where
    settle-EndsAt :
        (ride : Ride) (found : Option Uuid) (w : World)
        → InOrder w.db
        → Current w.db ride
        → EndsAt (settle env ride found) w
    unfolding settle
    settle-EndsAt ride none w o current =
        EndsAt-bind
          (on_db
            (apply_transition env.now (env.uuid 1) ride no_drivers_found (pos ride.version) none))
          (λ final. pure final.ride) w
          (apply-EndsAt env.now (env.uuid 1) ride no_drivers_found (pos ride.version) none w o
            current)
          (λ a _. (
            tt,
            apply-InOrder env.now (env.uuid 1) ride no_drivers_found (pos ride.version) none w.db o,
          ))
    settle-EndsAt ride (some d) w o current =
        EndsAt-bind
          (on_db (apply_transition env.now (env.uuid 1) ride accepted (pos ride.version) (some d)))
          (λ final. pure final.ride) w
          (apply-EndsAt env.now (env.uuid 1) ride accepted (pos ride.version) (some d) w o current)
          (λ a _. (
            tt,
            apply-InOrder env.now (env.uuid 1) ride accepted (pos ride.version) (some d) w.db o,
          ))

    match_ride-EndsAt :
        (ride : Ride) (expected : ℤ) (w : World)
        → InOrder w.db
        → Current w.db ride
        → EndsAt (match_ride settings env ride expected) w
    unfolding match_ride reserve_for
    match_ride-EndsAt ride expected w o current =
        EndsAt-bind (on_db (apply_transition env.now (env.uuid 0) ride matching expected none))
          (λ a. reserve_for settings env a.ride >>= λ found. settle env a.ride found) w
          (apply-EndsAt env.now (env.uuid 0) ride matching expected none w o current)
          (λ a done.
            let first = apply_transition env.now (env.uuid 0) ride matching expected none w.db in
            let search =
              find_and_reserve_driver settings env.now a.ride.pickup_lat a.ride.pickup_lng a.ride.id
                w.geo w.strings in
            settle-EndsAt a.ride search.0 (record w { db = first.1; strings = search.1 })
              (apply-InOrder env.now (env.uuid 0) ride matching expected none w.db o)
              (apply-Current env.now (env.uuid 0) ride matching expected none w o current a done))

    released-EndsAt :
        (target : RideStatus) (ride : Ride) (w : World)
        → InOrder w.db
        → EndsAt (release_if_cancelled env target ride >>= λ _. pure ride) w
    unfolding release_if_cancelled
    released-EndsAt requested ride w o = (tt, o)
    released-EndsAt matching ride w o = (tt, o)
    released-EndsAt accepted ride w o = (tt, o)
    released-EndsAt driver_arriving ride w o = (tt, o)
    released-EndsAt in_progress ride w o = (tt, o)
    released-EndsAt completed ride w o = (tt, o)
    released-EndsAt cancelled ride w o = (tt, o)
    released-EndsAt no_drivers_found ride w o = (tt, o)

    move_ride-EndsAt :
        (ride : Ride) (target : RideStatus) (expected : ℤ) (w : World)
        → InOrder w.db
        → Current w.db ride
        → EndsAt (move_ride env ride target expected) w
    unfolding move_ride
    move_ride-EndsAt ride target expected w o current =
        EndsAt-bind (on_db (apply_transition env.now (env.uuid 0) ride target expected none))
          (λ a. release_if_cancelled env target a.ride >>= λ _. pure a.ride) w
          (apply-EndsAt env.now (env.uuid 0) ride target expected none w o current)
          (λ a done.
            released-EndsAt target a.ride
              (record w {
                db = (apply_transition env.now (env.uuid 0) ride target expected none w.db).1;
              })
              (apply-InOrder env.now (env.uuid 0) ride target expected none w.db o))

    pub perform-EndsAt :
        (payload : RideTransitionRequest) (ride : Ride) (w : World)
        → InOrder w.db
        → Current w.db ride
        → EndsAt (perform_transition settings env payload ride) w
    unfolding perform_transition
    perform-EndsAt payload ride w o current =
        elim (Bool-cases (payload.target_status == matching && ride.status == requested)) [
          | inl search ↦ rw search (match_ride-EndsAt ride payload.expected_version w o current)
          | inr plain ↦
              rw plain
                (move_ride-EndsAt ride payload.target_status payload.expected_version w o current)
        ]
