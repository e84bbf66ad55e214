-- ===== src/Tests/Creations.antt =====
-- The theorems on the creation of rides, on the test data.
use ride_flow.Prelude.{
  ℕ, none, true, nat_eqb, if◌then◌else◌, ◌==◌, string_eq, Option, some, String, ◌≡◌, refl, sym, ap,
  false,
}
use ride_flow.Models.{requested, RideOut, Uuid}
use ride_flow.Schemas.{ride_out}
use ride_flow.Database.{World, ok, err, http_exception, constraints}
use ride_flow.Idempotency.{fingerprint}
use ride_flow.StateMachine.Update.{ride_of}
use ride_flow.StateMachine.Logged.{Logged}
use ride_flow.Rides.{serve_create, new_ride}
use ride_flow.Rides.Create.{records_under}
use ride_flow.Rides.Insert.{inserted, serve_create-inserts}
use ride_flow.Rides.Account.{serve_create-Logged}
use ride_flow.Rides.Replay.{serve_create-idempotent}
use ride_flow.Tests.Tables.{list_sql}
use ride_flow.Tests.Strings.{map_redis}
use ride_flow.Tests.Data.{
  first_floats, short_hashing, alice, bob, db, world, env, later_env, body, other_body, in_order,
  data-Logged,
}

abbrev key : Option String
key = some "k1"

serve_create-inserts_example :
    (serve_create env body key alice world ≡ (
      ok (ride_out (new_ride env body key alice)),
      record world { db = inserted env body key alice db },
    ))
    × (requested ≡ requested)
    × (◌≡◌ {A = ℕ} 1 1)
    × (◌≡◌ {A = ℕ} 1 1)
    × (◌≡◌ {A = Option Uuid} none none)
    × ((i : Uuid)
        → ride_of (inserted env body key alice db) i
          ≡ (if nat_eqb i 50 then some (new_ride env body key alice) else ride_of db i))
serve_create-inserts_example = serve_create-inserts env body key alice refl world in_order refl refl

serve_create-Logged_example : Logged (serve_create env body key alice world).1.db
serve_create-Logged_example = serve_create-Logged env body key alice world refl data-Logged

-- Alice's request, and then Bob's with another body under the same key.
abbrev after_first : World
after_first = record world { db = inserted env body key alice db }

abbrev answer : RideOut
answer = ride_out (new_ride env body key alice)

served : serve_create env body key alice world ≡ (ok answer, after_first)
served = (serve_create-inserts env body key alice refl world in_order refl refl).0

still_in_order : constraints after_first.db ≡ true
unfolding constraints
still_in_order = refl

serve_create-idempotent_example : serve_create later_env other_body key bob after_first ≡ (
  if fingerprint body == fingerprint other_body then ok answer else err (http_exception 409),
  after_first,
)
serve_create-idempotent_example =
    serve_create-idempotent env later_env body other_body key key alice bob "k1" answer world
      after_first refl refl refl refl refl (ap (λ x. x.0) served) still_in_order
      (ap (λ x. records_under "k1" x.1.db) (sym served))

-- The answers to both bodies: the same one is replayed, to Bob as well, and the other refused.
replays : fingerprint body == fingerprint body ≡ true
unfolding fingerprint
replays = refl

refuses : fingerprint body == fingerprint other_body ≡ false
unfolding fingerprint
refuses = refl
