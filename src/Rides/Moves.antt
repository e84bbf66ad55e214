-- ===== src/Rides/Moves.antt =====
-- What a move of a ride leaves in the table, in the outbox and in Redis, field by field.
use ride_flow.Prelude.{
  ◌+◌, ◌&&◌, true, false, Bool, Bool-cases, if◌then◌else◌, ◌==◌, nat_eq, option_eq, option_eqb_iff,
  none, some, Option, [], ◌∷◌, ◌++◌, ◌≡◌, refl, ◌∙◌, ap, arith, pos, inl, inr,
}
use ride_flow.Models.{Uuid, User, Ride, requested, matching, cancelled, status_eq}
use ride_flow.Schemas.{RideTransitionRequest}
use ride_flow.Config.{Settings}
use ride_flow.Sql.{Sql}
use ride_flow.Redis.{Redis, Key, reservation, key_eqb}
use ride_flow.Matching.Holders.{holder, release-own, release-other}
use ride_flow.Database.{World, ok, constraints}
use ride_flow.StateMachine.{allowed, status_changed}
use ride_flow.StateMachine.Update.{ride_of, IsKeyedDb, Replaces, events}
use ride_flow.Request.{Env}
use ride_flow.Rides.Transition.{may_transition, release_driver_of, serve_transition}
use ride_flow.Rides.Outcomes.{serve_transition-done}

module _ ⦃redis : Redis⦄ (env : Env) (ride_id : Uuid) where
  -- The key is the reservation of this driver, and the ride holds it.
  abbrev pub is_reserved : Option Uuid → redis.Strings → Key → Bool
  is_reserved none s k = false
  is_reserved (some d) s k = key_eqb k (reservation d) && holder s env.now d == some ride_id

module _ ⦃sql : Sql⦄ ⦃redis : Redis⦄ (env : Env) (ride_id : Uuid) where
  released :
      (driver_id : Option Uuid) (s : redis.Strings) (k : Key)
      → redis.entry (release_driver_of env ride_id driver_id s) k
        ≡ (if is_reserved env ride_id driver_id s k then none else redis.entry s k)
  unfolding release_driver_of
  released none s k = refl
  released (some d) s k = elim (Bool-cases (holder s env.now d == some ride_id)) [
    | inl own ↦
        let held = (option_eqb_iff nat_eq (holder s env.now d) (some ride_id)).0 own in
        let gone = (release-own env.now d ride_id s held).1 k in ground arith
    | inr other ↦
        let kept =
          (release-other env.now d ride_id s (λ e.
            let hit = (option_eqb_iff nat_eq (holder s env.now d) (some ride_id)).1 e in
            ground arith)).1 in
        ap (λ t. redis.entry t k) kept ∙ ground arith
  ]

  released_if :
      (b : Bool) (driver_id : Option Uuid) (s : redis.Strings) (k : Key)
      → redis.entry (if b then release_driver_of env ride_id driver_id s else s) k
        ≡ (if b && is_reserved env ride_id driver_id s k then none else redis.entry s k)
  released_if true driver_id s k = released driver_id s k
  released_if false driver_id s k = refl

module _ ⦃sql : Sql⦄ ⦃redis : Redis⦄ (settings : Settings) (env : Env) (ride_id : Uuid)
    (payload : RideTransitionRequest) (user : User) (ride : Ride) (w : World) (k : IsKeyedDb w.db)
    (e : ride_of w.db ride_id ≡ some ride)
    (right : may_transition user ride payload.target_status ≡ true) (fine : constraints w.db ≡ true)
    (expects : payload.expected_version ≡ pos ride.version) where
  -- On a database that is in order and has one ride under each `id`, a user with a right to the
  -- ride, who expects its version, moves it to any status that the graph allows, but for the match
  -- of a requested ride. The ride has the target status, the next version and the time of the
  -- request, and is else as it was, its driver included; no other ride changes, and one event is
  -- added. A cancellation deletes the reservation of the ride's driver if the ride holds it then;
  -- no other key of Redis changes, and no position.
  pub serve_transition-moves :
      (payload.target_status == matching && ride.status == requested) ≡ false
      → allowed ride.status payload.target_status ≡ true
      → let target = payload.target_status in
        let after : Ride = record ride {
          status = target;
          version = ride.version + 1;
          updated_at = env.now;
        } in
        let (result, w') = serve_transition settings env ride_id payload user w in
        (result ≡ ok after)
        × Replaces w.db w'.db ride_id after
        × (events w'.db
            ≡ events w.db ++ (status_changed env.now (env.uuid 0) after ride.status target ∷ []))
        × ((key : Key)
            → redis.entry w'.strings key ≡ (
                if target == cancelled && is_reserved env ride_id ride.driver_id w.strings key
                then none
                else redis.entry w.strings key))
        × (w'.geo ≡ w.geo)
  serve_transition-moves plain legal =
      let (result, table, outbox, strings, geo) =
        serve_transition-done settings env ride_id payload user ride w k e right fine expects plain
          legal in
      (
        result,
        table,
        outbox,
        λ key.
            ap (λ s. redis.entry s key) strings
            ∙ released_if env ride_id (payload.target_status == cancelled) ride.driver_id w.strings
                key,
        geo,
      )
