-- ===== src/Tests/Migrations.antt =====
-- The migration on an empty catalog, and its theorems there.
use ride_flow.Prelude.{List, Option, true, false, if◌then◌else◌, [], ◌∷◌, none, some, ◌≡◌, refl}
use ride_flow.Migration.{Statement, create_enum, create_table, View, Postgres, ready, effect, run}
use ride_flow.Migration.Tables.{upgrade, user_role_enum, ride_status_enum, users}
use ride_flow.Migration.Apply.{upgrade-refused}

abbrev play_one : Statement → View → Option View
play_one s v = if ready s v then some (effect s v) else none

play_one-ready : (s : Statement) (v : View) → ready s v ≡ true → play_one s v ≡ some (effect s v)
play_one-ready s v fine = rw fine refl

play_one-refused : (s : Statement) (v : View) → ready s v ≡ false → play_one s v ≡ none
play_one-refused s v stuck = rw stuck refl

-- A catalog that is what one sees of it.
instance abbrev plain_postgres : Postgres
plain_postgres = record {
  Catalog = View;
  view = λ v. v;
  execute = play_one;
  execute-ready = λ s v fine. (effect s v, play_one-ready s v fine, refl);
  execute-refused = play_one-refused;
}

abbrev empty : View
empty = record { enums = []; tables = []; indexes = [] }

upgrade-refused_example :
    (typed : View) × (run (create_enum user_role_enum ∷ create_enum ride_status_enum ∷ []) empty
      ≡ some typed)
    × (play_one (create_table users) typed ≡ none)
    × (run upgrade empty ≡ none)
upgrade-refused_example = upgrade-refused empty

-- Where the types are not created on their own first, the tables would do.
abbrev untyped : List Statement
untyped = create_table users ∷ []

users_alone : run untyped empty ≡ some (effect (create_table users) empty)
unfolding run
users_alone = refl
