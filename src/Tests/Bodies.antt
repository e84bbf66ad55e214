-- ===== src/Tests/Bodies.antt =====
-- The bodies of requests on the test data, under an order of the doubles in which all between the
-- bounds are the few that the data has.
use ride_flow.Prelude.{
  Bool, true, ◌||◌, leb, nat_eqb, none, some, List, [], ◌∷◌, pos, ◌≡◌, refl, find, All, Bool-cases,
  inl, inr, subst, some_inj,
}
use ride_flow.Models.{Float, Ride, RideStatus, User, admin}
use ride_flow.Schemas.{RegisterRequest}
use ride_flow.Schemas.Validation.{
  Pydantic, RegisterBody, validate_register, validate_ride_create, validate_ride_transition,
}
use ride_flow.Schemas.Ranges.{AreInRange}
use ride_flow.Config.{default_settings}
use ride_flow.Database.{ok, constraints}
use ride_flow.Security.{hash_password}
use ride_flow.Auth.{register, user_by_email, serve_register}
use ride_flow.Auth.Access.{users_with}
use ride_flow.Auth.Roles.{register-admin}
use ride_flow.Rides.Transition.{may_transition}
use ride_flow.Rides.Refines.{book}
use ride_flow.Rides.Service.{serve_rides, IsFresh}
use ride_flow.Rides.Typed.{
  BodyRequest, post_ride, post_transition, all_admitted, AllOnGlobe, serve_rides-AllOnGlobe,
  IsOnGlobe,
}
use ride_flow.Tests.Tokens.{open_jose}
use ride_flow.Tests.Tables.{list_sql}
use ride_flow.Tests.Strings.{map_redis}
use ride_flow.Tests.Tokens.{plain_passlib}
use ride_flow.Tests.Data.{
  alice, db, world, env, later_env, unique_rides, first_floats, short_hashing,
}

-- The order of the doubles, for those that are not negative and the two bounds that are.
abbrev order : Float → Float → Bool
order x y = leb 0x8000000000000000 x || leb x y

instance abbrev plain_pydantic : Pydantic
plain_pydantic = record { le = order; characters = λ text. 9; is_email = λ text. true }

-- The second body has a latitude of 180 degrees and the third an unknown status.
abbrev bodies : List BodyRequest
bodies =
    post_ride env
      (record {
        pickup_lat = some 0;
        pickup_lng = some 0;
        dropoff_lat = some 1;
        dropoff_lng = some 1;
      })
      none alice
    ∷ post_ride later_env
        (record {
          pickup_lat = some 0x4066800000000000;
          pickup_lng = some 0;
          dropoff_lat = some 1;
          dropoff_lng = some 1;
        })
        none alice
    ∷ post_transition later_env 10
        (record { target_status = some "parked"; expected_version = some (pos 1) }) alice
    ∷ post_transition later_env 10
        (record { target_status = some "matching"; expected_version = some (pos 1) }) alice
    ∷ []

drawn-IsFresh : IsFresh default_settings (all_admitted bodies) world
unfolding validate_ride_create validate_ride_transition
drawn-IsFresh = (refl, (tt, tt))

All-found :
    (p : Ride → Bool) (xs : List Ride)
    → All IsOnGlobe xs
    → (r : Ride) → find p xs ≡ some r
    → IsOnGlobe r
All-found p [] all r found = cc
All-found p (x ∷ xs) all r found = elim (Bool-cases (p x)) [
  | inl hit ↦ subst IsOnGlobe (some_inj (rw hit at found)) all.0
  | inr miss ↦ All-found p xs all.1 r (rw miss at found)
]

on_globe : AllOnGlobe (book world.db)
on_globe j r found =
    All-found (λ (q : Ride). nat_eqb q.id j) db.rides (there, (there, (there, tt))) r found
  where
    there : AreInRange 0 0 0 0
    there = record { pickup = (refl, refl); dropoff = (refl, refl) }

serve_rides-AllOnGlobe_example :
    AllOnGlobe (book (serve_rides default_settings (all_admitted bodies) world).db)
serve_rides-AllOnGlobe_example =
    serve_rides-AllOnGlobe default_settings bodies world unique_rides drawn-IsFresh on_globe

abbrev mallory_body : RegisterBody
mallory_body = record {
  email = some "mallory";
  password = some "secret-22";
  full_name = some "Mallory M";
  role = some "admin";
}

abbrev mallory_request : RegisterRequest
mallory_request = record {
  email = "mallory";
  password = "secret-22";
  full_name = "Mallory M";
  role = admin;
}

accepted_body : validate_register mallory_body ≡ some mallory_request
unfolding validate_register
accepted_body = refl

enrolls_fine : constraints (register env mallory_request world.db).1 ≡ true
unfolding register user_by_email constraints hash_password
enrolls_fine = refl

register-admin_example :
    let (result, w') = serve_register env mallory_request world in
    (user : User) × (result ≡ ok user)
    × (users_with "mallory" w'.db ≡ user ∷ [])
    × (user.role ≡ admin)
    × ((ride : Ride) (target : RideStatus) → may_transition user ride target ≡ true)
register-admin_example =
    register-admin default_settings env mallory_body mallory_request world refl accepted_body refl
      enrolls_fine
