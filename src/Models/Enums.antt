-- ===== src/Models/Enums.antt =====
-- backend/app/models.py: `UserRole`, `RideStatus` and `RIDE_TRANSITIONS`.
use ride_flow.Prelude.{ℕ, String, Bool, true, List, [], ◌∷◌, ◌≡◌, ◌↔◌, arith, nat_eqb, Eq}

pub data UserRole : Type 0 where
  passenger driver admin : UserRole

pub data RideStatus : Type 0 where
  requested matching accepted driver_arriving in_progress completed cancelled no_drivers_found :
      RideStatus

abbrev role_number : UserRole → ℕ
role_number passenger = 0
role_number driver = 1
role_number admin = 2

abbrev status_number : RideStatus → ℕ
status_number requested = 0
status_number matching = 1
status_number accepted = 2
status_number driver_arriving = 3
status_number in_progress = 4
status_number completed = 5
status_number cancelled = 6
status_number no_drivers_found = 7

abbrev pub role_eqb : UserRole → UserRole → Bool
role_eqb a b = nat_eqb (role_number a) (role_number b)

abbrev pub status_eqb : RideStatus → RideStatus → Bool
status_eqb a b = nat_eqb (status_number a) (status_number b)

pub role_eqb_iff : (a b : UserRole) → (role_eqb a b ≡ true) ↔ (a ≡ b)
role_eqb_iff a b = ground arith

pub status_eqb_iff : (a b : RideStatus) → (status_eqb a b ≡ true) ↔ (a ≡ b)
status_eqb_iff a b = ground arith

instance abbrev pub role_eq : Eq UserRole
role_eq = record { test = role_eqb; decides = role_eqb_iff }

instance abbrev pub status_eq : Eq RideStatus
status_eq = record { test = status_eqb; decides = status_eqb_iff }

-- `UserRole.value`
abbrev pub role_value : UserRole → String
role_value passenger = "passenger"
role_value driver = "driver"
role_value admin = "admin"

-- `RideStatus.value`
abbrev pub status_value : RideStatus → String
status_value requested = "requested"
status_value matching = "matching"
status_value accepted = "accepted"
status_value driver_arriving = "driver_arriving"
status_value in_progress = "in_progress"
status_value completed = "completed"
status_value cancelled = "cancelled"
status_value no_drivers_found = "no_drivers_found"

-- The set that `RIDE_TRANSITIONS` gives for a status.
unfoldable pub ride_transitions : RideStatus → List RideStatus
ride_transitions requested = matching ∷ cancelled ∷ []
ride_transitions matching = accepted ∷ no_drivers_found ∷ cancelled ∷ []
ride_transitions accepted = driver_arriving ∷ cancelled ∷ []
ride_transitions driver_arriving = in_progress ∷ cancelled ∷ []
ride_transitions in_progress = completed ∷ cancelled ∷ []
ride_transitions completed = []
ride_transitions cancelled = []
ride_transitions no_drivers_found = matching ∷ cancelled ∷ []
