-- ===== src/StateMachine/Conflicts.antt =====
-- What the version of a ride keeps apart, and what it does not.
use ride_flow.Prelude.{
  ℕ, ◌≤◌, ◌<◌, pos, int_eqb_refl, int_eqb-ne, true, false, Option, some, ◌≡◌, inl, inr, arith,
  nat_eqb, if◌then◌else◌, sym, ◌∙◌, ap, some_inj,
}
use ride_flow.Models.{RideStatus, Uuid, DateTime, Ride}
use ride_flow.Sql.{Sql}
use ride_flow.Database.{Db, ok, err, stale_version}
use ride_flow.StateMachine.{allowed, apply_transition, new_values, TransitionResult}
use ride_flow.StateMachine.Update.{ride_of, IsKeyedDb}
use ride_flow.StateMachine.Apply.{apply-cases, apply-stale, apply-done}
use ride_flow.StateMachine.Sessions.{
  System, Inv, Holds, Steps, transition, Step-Evolves, Steps-Traced,
}

-- What a lookup of the replaced row finds.
pub if_self : {A : Type 0} (i : ℕ) (x y : A) → (if nat_eqb i i then x else y) ≡ x
if_self i x y = ground arith

module _ ⦃sql : Sql⦄ where
  -- The version that a transition leaves behind is above the one that it expected, for good.
  version_above :
      (s t : System) (now : DateTime) (event_id : Uuid) (ride : Ride) (target : RideStatus)
      (expected : ℕ) (extra : Option Uuid) {result : TransitionResult}
      → Inv s
      → Holds ride s.seen
      → expected ≤ ride.version
      → (apply_transition now event_id ride target (pos expected) extra s.db).0 ≡ ok result
      → Steps
          (record s {
            db = (apply_transition now event_id ride target (pos expected) extra s.db).1;
          })
          t
      → IsKeyedDb t.db × ((c : Ride) → ride_of t.db ride.id ≡ some c → expected < c.version)
  version_above s t now event_id ride target expected extra v held old went steps =
      elim (apply-cases now event_id ride target (pos expected) extra s.db v.keyed) [
        | inl (_, e, _, _, _) ↦ cc (e, went)
        | inr (r, _, _, expects, _, replaced, _, _, _) ↦
            let step =
              Step-Evolves (transition now event_id ride target expected extra held old) v in
            let (traced, after) = Steps-Traced step.1 steps in
            let (c, n, e, _, count) =
              traced ride.id (new_values now target extra r)
                (replaced ride.id ∙ if_self ride.id _ _) in
            let version : expected ≡ r.version = cc in
            (after.keyed, λ c' e'. rw (some_inj (sym e' ∙ e)) (omega arith))
      ]

  -- Once a request has gone through with a version of a ride, no newer than that of the ride which
  -- it read, no other goes through with it: whatever steps happen in between, a transition of the
  -- ride that the graph allows and that expects this version again is refused as stale, also by a
  -- request that read the ride before the first one went through.
  pub version_spent :
      (s t : System) (now later : DateTime) (event_id other_id : Uuid) (ride other : Ride)
      (target other_target : RideStatus) (expected : ℕ) (extra other_extra : Option Uuid)
      {result : TransitionResult}
      → Inv s
      → Holds ride s.seen
      → expected ≤ ride.version
      → (apply_transition now event_id ride target (pos expected) extra s.db).0 ≡ ok result
      → Steps
          (record s {
            db = (apply_transition now event_id ride target (pos expected) extra s.db).1;
          })
          t
      → other.id ≡ ride.id
      → allowed other.status other_target ≡ true
      → (apply_transition later other_id other other_target (pos expected) other_extra t.db).0
        ≡ err (stale_version other.id)
  version_spent s t now later event_id other_id ride other target other_target expected extra
        other_extra v held old went steps same legal =
      let (keyed, above) =
        version_above s t now event_id ride target expected extra v held old went steps in
      (apply-stale later other_id other other_target (pos expected) other_extra t.db keyed legal
        (λ r e.
          int_eqb-ne r.version expected
            (let higher = above r (ap (ride_of t.db) (sym same) ∙ e) in omega arith))).0

  -- Legality is tested on the ride that the request read, and the version on the row. So where
  -- the row has moved on since and the client names its new version, a transition goes through and
  -- puts the ride in the target status also if the graph does not allow it from the row's status.
  pub apply-outdated :
      (now : DateTime) (event_id : Uuid) (ride c : Ride) (target : RideStatus) (extra : Option Uuid)
      (db : Db)
      → IsKeyedDb db
      → ride_of db ride.id ≡ some c
      → allowed ride.status target ≡ true
      → allowed c.status target ≡ false
      → let (result, db') = apply_transition now event_id ride target (pos c.version) extra db in
        (after : Ride) × (result ≡ ok (record { ride = after; previous_status = ride.status }))
        × (ride_of db' ride.id ≡ some after)
        × (after.status ≡ target)
        × (allowed c.status after.status ≡ false)
  apply-outdated now event_id ride c target extra db k e legal illegal =
      let done =
        apply-done now event_id ride target (pos c.version) extra db c k legal e
          (int_eqb_refl c.version) in
      (
        new_values now target extra c,
        done.0,
        done.1 ride.id ∙ if_self ride.id _ _,
        λ i. target,
        illegal,
      )
