-- ===== src/Rides/Refines.antt =====
-- The requests on rides refine the book.
use ride_flow.Prelude.{
  ℤ, true, [], ◌∷◌, ◌++◌, Option, none, some, ◌≡◌, ◌⊎◌, refl, sym, ap, ◌∙◌, subst, inl, inr,
  some_inj, find_by,
}
use ride_flow.Models.{RideStatus, Uuid, DateTime, Ride}
use ride_flow.Sql.{Sql}
use ride_flow.Database.{Db, ok}
use ride_flow.StateMachine.{
  allowed, apply_transition, new_values, extra_driver, status_changed, TransitionResult,
}
use ride_flow.StateMachine.Update.{ride_of, IsKeyedDb, events, Replaces}
use ride_flow.StateMachine.Apply.{apply-cases}
use ride_flow.StateMachine.Conflicts.{if_self}
use ride_flow.Rides.Book.{Book, put, Entry, moves, Entries, entry}

new_driver :
    (extra old : Option Uuid)
    → (extra_driver extra old ≡ old) ⊎ ((d : Uuid) × (extra_driver extra old ≡ some d))
new_driver none old = inl refl
new_driver (some d) old = inr (d, refl)

ok_inj : {A : Type 0} {a b : A} → ok a ≡ ok b → a ≡ b
ok_inj h = cc

-- A transition of a ride, as the book has it.
moved :
    (New : Ride → Type 0) (b : Book) (now : DateTime) (event_id : Uuid) (target : RideStatus)
    (extra : Option Uuid) (r : Ride)
    → b.rides r.id ≡ some r
    → allowed r.status target ≡ true
    → let after = new_values now target extra r in
      Entry New b (record {
        rides = put after b.rides;
        log = b.log ++ (status_changed now event_id after r.status target ∷ []);
      })
moved New b now event_id target extra r found legal =
    moves r (new_values now target extra r)
      (status_changed now event_id (new_values now target extra r) r.status target) found legal refl
      (new_driver extra r.driver_id)
      (record {
        id = refl;
        passenger_id = refl;
        pickup = (refl, refl);
        dropoff = (refl, refl);
        fare_estimate = refl;
        idempotency_key = refl;
        created_at = refl;
      })
      (record {
        about = refl;
        previous_status = refl;
        new_status = refl;
        passenger_id = refl;
        driver_id = refl;
        to_send = refl;
      })

module _ ⦃sql : Sql⦄ where
  -- The book that the tables stand for, whatever their order.
  abbrev pub book : Db → Book
  book db = record { rides = ride_of db; log = events db }

  -- A state that is reached by entries of the book.
  pub record Reached (New : Ride → Type 0) (start : Book) (db : Db) : Type 0 where
    pub keyed : IsKeyedDb db
    pub entries : Entries New start (book db)

  -- The ride is as its row.
  abbrev pub Current : Db → Ride → Type 0
  Current db ride = ride_of db ride.id ≡ some ride

  book-same :
      (db db' : Db)
      → sql.rows db'.rides ≡ sql.rows db.rides
      → events db' ≡ events db
      → book db' ≡ book db
  book-same db db' rides logged =
      λ i. record { rides = λ j. find_by (λ (r : Ride). r.id) j (rides i); log = logged i }

  pub Reached-same :
      (New : Ride → Type 0) (start : Book) (db db' : Db)
      → sql.rows db'.rides ≡ sql.rows db.rides
      → events db' ≡ events db
      → Reached New start db
      → Reached New start db'
  Reached-same New start db db' rides logged reached = record {
    keyed = rw rides reached.keyed;
    entries = subst (Entries New start) (sym (book-same db db' rides logged)) reached.entries;
  }

  -- One more entry.
  pub Reached-entry :
      (New : Ride → Type 0) (start : Book) (db db' : Db) (b : Book)
      → IsKeyedDb db'
      → ((j : Uuid) → ride_of db' j ≡ b.rides j)
      → events db' ≡ b.log
      → Entry New (book db) b
      → Reached New start db
      → Reached New start db'
  Reached-entry New start db db' b keyed rides logged e reached =
      let same : book db' ≡ b = λ i. record { rides = λ j. rides j i; log = logged i } in
      record {
        keyed = keyed;
        entries = subst (Entries New start) (sym same) (entry reached.entries e);
      }

  module _ (New : Ride → Type 0) (start : Book) (now : DateTime) (event_id : Uuid) (ride : Ride)
      (target : RideStatus) (expected : ℤ) (extra : Option Uuid) where
    -- A transition of a ride as its row has it is an entry, or none, and gives the row as it is then.
    pub apply-Reached :
        (db : Db)
        → Reached New start db
        → Current db ride
        → let (result, db') = apply_transition now event_id ride target expected extra db in
          Reached New start db' × ((a : TransitionResult) → result ≡ ok a → Current db' a.ride)
    apply-Reached db reached current =
        let db' = (apply_transition now event_id ride target expected extra db).1 in
        elim (apply-cases now event_id ride target expected extra db reached.keyed) [
          | inl (e, failed, rides, logged, _) ↦ (
            Reached-same New start db db' rides (ap sql.rows logged) reached,
            λ a done. cc (failed, done),
          )
          | inr (r, legal, found, expects, done, replaced, keyed, logged, _) ↦
              let same : r ≡ ride = some_inj (sym found ∙ current) in
              let after = new_values now target extra ride in
              let placed : Replaces db db' ride.id after =
                subst (λ q. Replaces db db' ride.id (new_values now target extra q)) same
                  replaced in
              let told =
                subst
                  (λ q.
                    events db'
                    ≡ events db
                      ++ (status_changed now event_id (new_values now target extra q) ride.status
                            target
                          ∷ []))
                  same logged in
              let gave =
                subst
                  (λ q.
                    (apply_transition now event_id ride target expected extra db).0
                    ≡ ok (record {
                      ride = new_values now target extra q;
                      previous_status = ride.status;
                    }))
                  same done in
              (
                Reached-entry New start db db' _ keyed placed told
                    (moved New (book db) now event_id target extra ride current legal) reached,
                λ a went.
                    let equal : after ≡ a.ride =
                      ap (λ (x : TransitionResult). x.ride) (ok_inj (sym gave ∙ went)) in
                    subst (Current db') equal
                      (placed ride.id ∙ if_self ride.id (some after) (ride_of db ride.id)),
              )
        ]
