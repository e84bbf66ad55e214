-- ===== src/Schemas/Validation.antt =====
-- backend/app/schemas.py: what the bodies of the requests are checked for before a handler sees
-- them. A body is what the JSON of the request gives for each field; a body that fails is answered
-- with 422.
use ride_flow.Prelude.{
  ℕ, ℤ, Bool, ◌&&◌, ◌==◌, string_eq, leb, if◌then◌else◌, List, [], ◌∷◌, Option, none, some, String,
}
use ride_flow.Models.{
  UserRole, passenger, driver, admin, role_value, RideStatus, requested, matching, accepted,
  driver_arriving, in_progress, completed, cancelled, no_drivers_found, status_value, Float,
}
use ride_flow.Schemas.{RegisterRequest, HeartbeatRequest, RideCreateRequest, RideTransitionRequest}

-- What the code relies on of Pydantic: the order of the doubles, the length of a text in
-- characters, and the check of an email address.
pub record Pydantic : Type 0 where
  pub le : Float → Float → Bool
  pub characters : String → ℕ
  pub is_email : String → Bool

-- -90.0, 90.0, -180.0 and 180.0 as doubles.
abbrev minus_90 : Float
minus_90 = 0xC056800000000000

abbrev plus_90 : Float
plus_90 = 0x4056800000000000

abbrev minus_180 : Float
minus_180 = 0xC066800000000000

abbrev plus_180 : Float
plus_180 = 0x4066800000000000

pub record RegisterBody : Type 0 where
  pub email : Option String
  pub password : Option String
  pub full_name : Option String
  pub role : Option String

pub record RideCreateBody : Type 0 where
  pub pickup_lat : Option Float
  pub pickup_lng : Option Float
  pub dropoff_lat : Option Float
  pub dropoff_lng : Option Float

pub record RideTransitionBody : Type 0 where
  pub target_status : Option String
  pub expected_version : Option ℤ

infixl 5 ◌>>=◌
abbrev pub ◌>>=◌ : {A B : Type 0} → Option A → (A → Option B) → Option B
◌>>=◌ none f = none
◌>>=◌ (some a) f = f a

-- A value that passes its check.
abbrev pub checked : {A : Type 0} → (A → Bool) → Option A → Option A
checked p none = none
checked p (some a) = if p a then some a else none

-- The member of an enumeration with a value.
abbrev pub member : {A : Type 0} → (A → String) → List A → String → Option A
member value [] text = none
member value (a ∷ members) text = if value a == text then some a else member value members text

abbrev pub user_roles : List UserRole
user_roles = passenger ∷ driver ∷ admin ∷ []

abbrev pub ride_statuses : List RideStatus
ride_statuses =
    requested ∷ matching ∷ accepted ∷ driver_arriving ∷ in_progress ∷ completed ∷ cancelled
    ∷ no_drivers_found ∷ []

abbrev pub parse_role : String → Option UserRole
parse_role = member role_value user_roles

abbrev pub parse_status : String → Option RideStatus
parse_status = member status_value ride_statuses

-- `role: UserRole = UserRole.PASSENGER`
abbrev pub role_or_default : Option String → Option UserRole
role_or_default none = some passenger
role_or_default (some text) = parse_role text

module _ ⦃pydantic : Pydantic⦄ where
  -- `Field(ge=..., le=...)`
  abbrev pub in_range : Float → Float → Float → Bool
  in_range low high x = pydantic.le low x && pydantic.le x high

  abbrev pub is_lat : Float → Bool
  is_lat = in_range minus_90 plus_90

  abbrev pub is_lng : Float → Bool
  is_lng = in_range minus_180 plus_180

  -- `Field(min_length=..., max_length=...)`
  abbrev pub has_length : ℕ → ℕ → String → Bool
  has_length min max text = leb min (pydantic.characters text) && leb (pydantic.characters text) max

  unfoldable pub validate_ride_create : RideCreateBody → Option RideCreateRequest
  validate_ride_create body = do
    pickup_lat ← checked is_lat body.pickup_lat
    pickup_lng ← checked is_lng body.pickup_lng
    dropoff_lat ← checked is_lat body.dropoff_lat
    dropoff_lng ← checked is_lng body.dropoff_lng
    some (record {
      pickup_lat = pickup_lat;
      pickup_lng = pickup_lng;
      dropoff_lat = dropoff_lat;
      dropoff_lng = dropoff_lng;
    })

  unfoldable pub validate_heartbeat : Option Float → Option Float → Option HeartbeatRequest
  validate_heartbeat lat lng = do
    lat' ← checked is_lat lat
    lng' ← checked is_lng lng
    some (record { lat = lat'; lng = lng' })

  unfoldable pub validate_register : RegisterBody → Option RegisterRequest
  validate_register body = do
    email ← checked pydantic.is_email body.email
    password ← checked (has_length 8 128) body.password
    full_name ← checked (has_length 1 255) body.full_name
    role ← role_or_default body.role
    some (record { email = email; password = password; full_name = full_name; role = role })

unfoldable pub validate_ride_transition : RideTransitionBody → Option RideTransitionRequest
validate_ride_transition body = do
  text ← body.target_status
  target_status ← parse_status text
  expected_version ← body.expected_version
  some (record { target_status = target_status; expected_version = expected_version })
