-- ===== src/StateMachine/Update.antt =====
-- The rides and the events as a state of the database holds them, and what the conditional UPDATE
-- of `apply_transition` does to them.
use ride_flow.Prelude.{
  ℤ, nat_eqb_iff, find_meets, int_eqb, true, false, nat_eqb, if◌then◌else◌, List, [], ◌∷◌, Option,
  some, ◌≡◌, inl, inr, refl, sym, ◌∙◌, find_by, IsKeyed, match-none, match-one, find_by-update,
  IsKeyed-update, Option-cases, filterb, ap,
}
use mathlib.Core.List.{nil≢cons}
use ride_flow.Models.{RideStatus, Uuid, DateTime, Ride, OutboxEvent}
use ride_flow.Sql.{Sql}
use ride_flow.Sql.Rows.{update-cases}
use ride_flow.Database.{Db, ok}
use ride_flow.StateMachine.{update_ride, is_version, new_values}

module _ ⦃sql : Sql⦄ where
  -- The ride that the table holds under an identifier.
  abbrev pub ride_of : Db → Uuid → Option Ride
  ride_of db i = find_by (λ (r : Ride). r.id) i (sql.rows db.rides)

  -- A ride stands under its own identifier.
  pub ride_of-id : (db : Db) (i : Uuid) (r : Ride) → ride_of db i ≡ some r → r.id ≡ i
  ride_of-id db i r e =
      (nat_eqb_iff r.id i).0 (find_meets (λ q. nat_eqb q.id i) (sql.rows db.rides) r e)

  -- `id` is the primary key of `rides`.
  abbrev pub IsKeyedDb : Db → Type 0
  IsKeyedDb db = IsKeyed (λ (r : Ride). r.id) (sql.rows db.rides)

  abbrev pub events : Db → List OutboxEvent
  events db = sql.rows db.outbox_events

  -- What differs between two states of the database is the rides and the events.
  abbrev pub SameRest : Db → Db → Type 0
  SameRest db db' =
      (db'.users ≡ db.users)
      × (db'.refresh_tokens ≡ db.refresh_tokens)
      × (db'.driver_profiles ≡ db.driver_profiles)
      × (db'.idempotency_records ≡ db.idempotency_records)

  -- The rides of a state, where one ride has a new row.
  abbrev pub Replaces : Db → Db → Uuid → Ride → Type 0
  Replaces db db' i r = (j : Uuid) → ride_of db' j ≡ (if nat_eqb j i then some r else ride_of db j)

  version_unmatched :
      (db : Db) (id : Uuid) (expected : ℤ)
      → IsKeyedDb db
      → ((r : Ride) → ride_of db id ≡ some r → int_eqb r.version expected ≡ false)
      → filterb (is_version id expected) (sql.rows db.rides) ≡ []
  version_unmatched db id expected k h = elim (Option-cases (ride_of db id)) [
    | inl e ↦
        match-none (λ (r : Ride). r.id) (λ r. int_eqb r.version expected) id (sql.rows db.rides) e
    | inr (r, e) ↦
        match-one (λ (r : Ride). r.id) (λ r. int_eqb r.version expected) id (sql.rows db.rides) r k
          e
        ∙ rw (h r e)
  ]

  version_matched :
      (db : Db) (id : Uuid) (expected : ℤ) (r : Ride)
      → IsKeyedDb db
      → ride_of db id ≡ some r
      → int_eqb r.version expected ≡ true
      → filterb (is_version id expected) (sql.rows db.rides) ≡ r ∷ []
  version_matched db id expected r k e v =
      match-one (λ (r : Ride). r.id) (λ r. int_eqb r.version expected) id (sql.rows db.rides) r k e
      ∙ rw v

  module _ (now : DateTime) (id : Uuid) (expected : ℤ) (target : RideStatus) (extra : Option Uuid)
      (db : Db) where
    -- An update of the rides touches no other table.
    pub update_ride-frame :
        let db' = (update_ride now id expected target extra db).1 in
        (db'.outbox_events ≡ db.outbox_events) × SameRest db db'
    unfolding update_ride
    update_ride-frame = (refl, (refl, refl, refl, refl))

    -- The version does not match, or there is no such ride: no row comes back and none changes.
    pub update_ride-miss :
        IsKeyedDb db
        → ((r : Ride) → ride_of db id ≡ some r → int_eqb r.version expected ≡ false)
        → ((update_ride now id expected target extra db).0 ≡ ok [])
          × (sql.rows (update_ride now id expected target extra db).1.rides ≡ sql.rows db.rides)
    unfolding update_ride
    update_ride-miss k h =
        let unmatched = version_unmatched db id expected k h in
        elim (update-cases (is_version id expected) db.rides (new_values now target extra)) [
          | inl (_, e, same) ↦ (ap ok e, same)
          | inr (_, _, _, _, e, _) ↦ absurd (nil≢cons (sym unmatched ∙ e))
        ]

    -- The version matches: a row comes back, and the ride has its new row.
    pub update_ride-match :
        (r : Ride)
        → IsKeyedDb db
        → ride_of db id ≡ some r
        → int_eqb r.version expected ≡ true
        → ((x : Ride) × (xs : List Ride) × ((update_ride now id expected target extra db).0
              ≡ ok (x ∷ xs)))
          × Replaces db
              (update_ride now id expected target extra db).1
              id
              (new_values now target extra r)
          × IsKeyedDb (update_ride now id expected target extra db).1
    unfolding update_ride
    update_ride-match r k e v =
        let matched = version_matched db id expected r k e v in
        let change = new_values now target extra in
        elim (update-cases (is_version id expected) db.rides change) [
          | inl (m, _, _) ↦ absurd (nil≢cons (sym m ∙ matched))
          | inr (_, _, x, xs, _, returned) ↦ (
            (x, xs, ap ok returned),
            λ j. rw (sql.rows-update (is_version id expected) change db.rides) (
                find_by-update (λ (r : Ride). r.id) (λ r. int_eqb r.version expected) change
                  (λ _. refl) id j (sql.rows db.rides)
                ∙ rw (e, v)),
            rw (sql.rows-update (is_version id expected) change db.rides) (
                IsKeyed-update (λ (r : Ride). r.id) (is_version id expected) change (λ _. refl)
                  (sql.rows db.rides) k),
          )
        ]
