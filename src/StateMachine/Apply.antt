-- ===== src/StateMachine/Apply.antt =====
-- What `apply_transition` does, on every branch.
use ride_flow.Prelude.{
  ℤ, pos, int_eqb, int_eqb-eq, Bool-cases, ◌⊎◌, true, false, [], ◌∷◌, ◌++◌, Option, some, ◌≡◌, inl,
  inr, refl, ◌∙◌, arith, Option-cases,
}
use ride_flow.Models.{RideStatus, Uuid, DateTime, Ride}
use ride_flow.Sql.{Sql}
use ride_flow.Database.{Db, Result, Exn, ok, err, invalid_transition, stale_version}
use ride_flow.StateMachine.{
  update_ride, refresh, first_or_stale, assert_valid_transition, allowed, apply_transition,
  status_changed, new_values, TransitionResult,
}
use ride_flow.StateMachine.Update.{
  ride_of, IsKeyedDb, events, SameRest, Replaces, update_ride-frame, update_ride-miss,
  update_ride-match,
}

module _ ⦃sql : Sql⦄ where
  pub refresh-found :
      (db : Db) (id : Uuid) (r : Ride) → ride_of db id ≡ some r → refresh id db ≡ (ok r, db)
  unfolding refresh
  refresh-found db id r e = rw (sql.get-rows, e)

  module _ (now : DateTime) (event_id : Uuid) (ride : Ride) (target : RideStatus) (expected : ℤ)
      (extra : Option Uuid) (db : Db) where
    -- A target that the graph does not allow is refused before anything is written.
    pub apply-illegal :
        allowed ride.status target ≡ false
        → apply_transition now event_id ride target expected extra db
          ≡ (err (invalid_transition ride.status target), db)
    unfolding apply_transition assert_valid_transition
    apply-illegal h = ground arith

    pub apply-stale :
        IsKeyedDb db
        → allowed ride.status target ≡ true
        → ((r : Ride) → ride_of db ride.id ≡ some r → int_eqb r.version expected ≡ false)
        → let (r, db') = apply_transition now event_id ride target expected extra db in
          (r ≡ err (stale_version ride.id))
          × (sql.rows db'.rides ≡ sql.rows db.rides)
          × (db'.outbox_events ≡ db.outbox_events)
          × SameRest db db'
    unfolding apply_transition assert_valid_transition first_or_stale
    apply-stale k legal h =
        let (none_back, same) = update_ride-miss now ride.id expected target extra db k h in
        let rest = update_ride-frame now ride.id expected target extra db in ground arith

    apply-value :
        (r : Ride)
        → IsKeyedDb db
        → allowed ride.status target ≡ true
        → ride_of db ride.id ≡ some r
        → int_eqb r.version expected ≡ true
        → let after = new_values now target extra r in
          let db' = (update_ride now ride.id expected target extra db).1 in
          apply_transition now event_id ride target expected extra db ≡ (
            ok (record { ride = after; previous_status = ride.status }),
            record db' {
              outbox_events =
                  sql.add (status_changed now event_id after ride.status target) db'.outbox_events;
            },
          )
    unfolding apply_transition assert_valid_transition first_or_stale
    apply-value r k legal e v =
        let ((x, xs, back), replaced, keyed) =
          update_ride-match now ride.id expected target extra db r k e v in
        let db' = (update_ride now ride.id expected target extra db).1 in
        let after = new_values now target extra r in
        let here : ride_of db' ride.id ≡ some after = ground (arith, replaced ride.id) in
        let fresh = refresh-found db' ride.id after here in ground arith

    -- Otherwise the ride has its new row, the version one higher, and one event says so.
    pub apply-done :
        (r : Ride)
        → IsKeyedDb db
        → allowed ride.status target ≡ true
        → ride_of db ride.id ≡ some r
        → int_eqb r.version expected ≡ true
        → let after = new_values now target extra r in
          let (result, db') = apply_transition now event_id ride target expected extra db in
          (result ≡ ok (record { ride = after; previous_status = ride.status }))
          × Replaces db db' ride.id after
          × IsKeyedDb db'
          × (events db' ≡ events db ++ (status_changed now event_id after ride.status target ∷ []))
          × SameRest db db'
    apply-done r k legal e v =
        let (back, replaced, keyed) =
          update_ride-match now ride.id expected target extra db r k e v in
        let (same_events, rest) = update_ride-frame now ride.id expected target extra db in
        rw (apply-value r k legal e v)
          (refl, replaced, keyed, sql.rows-add _ _ ∙ rw same_events, rest)

    -- The ride and the events are as they were.
    abbrev pub Refused : Result TransitionResult × Db → Type 0
    Refused (result, db') =
        (e : Exn) × (result ≡ err e)
        × (sql.rows db'.rides ≡ sql.rows db.rides)
        × (db'.outbox_events ≡ db.outbox_events)
        × SameRest db db'

    -- The stored ride `r` has the version that was expected, and becomes `new_values ... r`.
    abbrev pub Done : Result TransitionResult × Db → Type 0
    Done (result, db') =
        (r : Ride) × (allowed ride.status target ≡ true)
        × (ride_of db ride.id ≡ some r)
        × (expected ≡ pos r.version)
        × (result
            ≡ ok (record { ride = new_values now target extra r; previous_status = ride.status }))
        × Replaces db db' ride.id (new_values now target extra r)
        × IsKeyedDb db'
        × (events db'
            ≡ events db
              ++ (status_changed now event_id (new_values now target extra r) ride.status target
                  ∷ []))
        × SameRest db db'

    refused :
        IsKeyedDb db
        → allowed ride.status target ≡ true
        → ((r : Ride) → ride_of db ride.id ≡ some r → int_eqb r.version expected ≡ false)
        → Refused (apply_transition now event_id ride target expected extra db)
    refused k legal h = let p = apply-stale k legal h in (stale_version ride.id, p.0, p.1, p.2, p.3)

    done :
        (r : Ride)
        → IsKeyedDb db
        → allowed ride.status target ≡ true
        → ride_of db ride.id ≡ some r
        → int_eqb r.version expected ≡ true
        → Done (apply_transition now event_id ride target expected extra db)
    done r k legal e v =
        let p = apply-done r k legal e v in
        (r, legal, e, int_eqb-eq r.version expected v, p.0, p.1, p.2, p.3, p.4)

    pub apply-cases :
        IsKeyedDb db
        → Refused (apply_transition now event_id ride target expected extra db)
          ⊎ Done (apply_transition now event_id ride target expected extra db)
    apply-cases k = elim (Bool-cases (allowed ride.status target)) [
      | inr illegal ↦
          rw (apply-illegal illegal) (
            inl (invalid_transition ride.status target, refl, refl, refl, (refl, refl, refl, refl)))
      | inl legal ↦ elim (Option-cases (ride_of db ride.id)) [
        | inl missing ↦ inl (refused k legal (λ r e. cc (missing, e)))
        | inr (r, e) ↦ elim (Bool-cases (int_eqb r.version expected)) [
          | inl v ↦ inr (done r k legal e v)
          | inr v ↦ inl (refused k legal (λ r' e'. cc (e, e', v)))
        ]
      ]
    ]
