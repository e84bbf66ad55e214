-- ===== src/Rides/Listing.antt =====
-- The list of a user's rides.
use ride_flow.Prelude.{
  [], ◌∷◌, ◌≤◌, All, All-map, true, false, if◌then◌else◌, ◌==◌, nat_eq, option_eq, some, List, Perm,
  filterb, ◌≡◌, refl, inl, inr, arith, Bool-cases,
}
use ride_flow.Models.{User, Ride, driver, role_eq}
use ride_flow.Sql.{Sql, IsOrdered}
use ride_flow.Database.{Db, ok}
use ride_flow.Rides.{newest_first, list_my_rides}

-- No ride stands behind one that was created before it.
abbrev pub AreNewestFirst : List Ride → Type 0
AreNewestFirst [] = Unit
AreNewestFirst (x ∷ xs) = All (λ y. y.created_at ≤ x.created_at) xs × AreNewestFirst xs

newest_of : (xs : List Ride) → IsOrdered newest_first xs → AreNewestFirst xs
newest_of [] h = tt
newest_of (x ∷ xs) h = (All-map (λ y before. ground arith) xs h.0, newest_of xs h.1)

newest_first_total : (x y : Ride) → newest_first x y ≡ false → newest_first y x ≡ true
newest_first_total x y h = ground arith

newest_first_trans :
    (x y z : Ride) → newest_first x y ≡ true → newest_first y z ≡ true → newest_first x z ≡ true
newest_first_trans x y z h k = ground arith

module _ ⦃sql : Sql⦄ where
  -- The list has each ride that the user drives, for a driver, or has asked for, for anyone else,
  -- as often as the table, and no other ride; no ride stands behind an older one, and nothing is
  -- written.
  pub list_my_rides-newest :
      (user : User) (db : Db)
      → (rides : List Ride) × (list_my_rides user db ≡ (ok rides, db))
        × Perm rides (
            if user.role == driver
            then filterb (λ r. r.driver_id == some user.id) (sql.rows db.rides)
            else filterb (λ r. r.passenger_id == user.id) (sql.rows db.rides))
        × AreNewestFirst rides
  unfolding list_my_rides
  list_my_rides-newest user db = elim (Bool-cases (user.role == driver)) [
    | inl drives ↦ rw drives (
      sql.order_by newest_first (λ r. r.driver_id == some user.id) db.rides,
      refl,
      sql.order_by-rows _ _ _,
      newest_of _ (sql.order_by-IsOrdered _ _ _ newest_first_total newest_first_trans),
    )
    | inr rides ↦ rw rides (
      sql.order_by newest_first (λ r. r.passenger_id == user.id) db.rides,
      refl,
      sql.order_by-rows _ _ _,
      newest_of _ (sql.order_by-IsOrdered _ _ _ newest_first_total newest_first_trans),
    )
  ]
