-- ===== src/StateMachine/Logged.antt =====
-- The outbox against the rides: one event for each transition that a ride has made.
use ride_flow.Prelude.{
  ℕ, ◌+◌, ℤ, Bool, true, false, ◌≡◌, inl, inr, refl, sym, ◌∙◌, ap, arith, nat_eqb, nat_eqb_iff,
  Option, none, some, [], ◌∷◌, ◌++◌, countb, countb-append, eqb-ne, nat_eq, Bool-cases,
}
use ride_flow.Models.{RideStatus, Uuid, DateTime, Ride, OutboxEvent}
use ride_flow.Sql.{Sql}
use ride_flow.Database.{Db}
use ride_flow.Database.Sessions.{Keeps}
use ride_flow.StateMachine.{apply_transition, new_values, status_changed}
use ride_flow.StateMachine.Update.{ride_of-id, ride_of, IsKeyedDb, events, Replaces}
use ride_flow.StateMachine.Apply.{apply-cases}

abbrev pub about : Uuid → OutboxEvent → Bool
about j e = nat_eqb e.aggregate_id j

-- The version of a ride, and the one that a ride starts with where there is none yet.
abbrev pub version_at : Option Ride → ℕ
version_at none = 1
version_at (some r) = r.version

module _ ⦃sql : Sql⦄ where
  pub record Logged (db : Db) : Type 0 where
    pub keyed : IsKeyedDb db
    pub counted : (j : Uuid) → countb (about j) (events db) + 1 ≡ version_at (ride_of db j)

  counted_done :
      (db db' : Db) (r : Ride) (id : Uuid) (after : Ride) (e : OutboxEvent) (j : Uuid)
      → ride_of db id ≡ some r
      → after.version ≡ r.version + 1
      → e.aggregate_id ≡ id
      → Replaces db db' id after
      → events db' ≡ events db ++ (e ∷ [])
      → countb (about j) (events db) + 1 ≡ version_at (ride_of db j)
      → countb (about j) (events db') + 1 ≡ version_at (ride_of db' j)
  counted_done db db' r id after e j found up at replaced logged count =
      let split = countb-append (about j) (events db) (e ∷ []) in
      elim (Bool-cases (nat_eqb j id)) [
        | inl hit ↦
            let same = (nat_eqb_iff j id).0 hit in
            let own : nat_eqb e.aggregate_id j ≡ true =
              (nat_eqb_iff e.aggregate_id j).1 (at ∙ sym same) in
            let there = ap (ride_of db) same ∙ found in
            let before : countb (about j) (events db) + 1 ≡ r.version = rw there at count in
            rw (logged, replaced j, hit, split, own) (omega arith)
        | inr miss ↦
            let other : nat_eqb e.aggregate_id j ≡ false =
              eqb-ne e.aggregate_id j (λ h. cc (miss, (nat_eqb_iff j id).1 (sym h ∙ at))) in
            rw (logged, replaced j, miss, split, other) (omega arith)
      ]

  pub Logged-same :
      (db db' : Db)
      → sql.rows db'.rides ≡ sql.rows db.rides
      → events db' ≡ events db
      → Logged db
      → Logged db'
  Logged-same db db' rides logged l = record {
    keyed = rw rides l.keyed;
    counted = λ j. rw (rides, logged) (l.counted j);
  }

  -- A transition, whether it goes through or not, keeps the account.
  pub apply-Logged :
      (now : DateTime) (event_id : Uuid) (ride : Ride) (target : RideStatus) (expected : ℤ)
      (extra : Option Uuid)
      → Keeps Logged (apply_transition now event_id ride target expected extra)
  apply-Logged now event_id ride target expected extra db l =
      let db' = (apply_transition now event_id ride target expected extra db).1 in
      elim (apply-cases now event_id ride target expected extra db l.keyed) [
        | inl (_, _, rides, same_events, _) ↦ Logged-same db db' rides (ap sql.rows same_events) l
        | inr (r, _, found, _, _, replaced, keyed, logged, _) ↦ record {
          keyed = keyed;
          counted = λ j.
              counted_done db db' r ride.id (new_values now target extra r)
                (status_changed now event_id (new_values now target extra r) ride.status target) j
                found refl (ride_of-id db ride.id r found) replaced logged (l.counted j);
        }
      ]
