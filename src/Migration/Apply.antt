-- ===== src/Migration/Apply.antt =====
-- What PostgreSQL makes of the calls of the migration.
use ride_flow.Prelude.{
  true, false, string_eq, List, [], ◌∷◌, none, some, ◌≡◌, refl, ap, ◌∙◌, inl, inr, Bool-cases,
  arith,
}
use ride_flow.Migration.{
  Statement, create_enum, create_table, View, has_enum, ready, effect, Postgres, run,
}
use ride_flow.Migration.Tables.{user_role_enum, ride_status_enum, users, upgrade}

-- The two types are there after they were created, whichever was there before.
typed : (v : View) → has_enum "userrole" (effect (create_enum user_role_enum) v) ≡ true
typed v = elim (Bool-cases (has_enum "userrole" v)) [
  | inl there ↦ rw there there
  | inr missing ↦ rw missing refl
]

still_typed :
    (v : View)
    → has_enum "userrole" v ≡ true
    → has_enum "userrole" (effect (create_enum ride_status_enum) v) ≡ true
still_typed v h = elim (Bool-cases (has_enum "ridestatus" v)) [
  | inl there ↦ rw there h
  | inr missing ↦ rw missing h
]

-- So the table of the users is not ready to be created.
users_refused : (v : View) → has_enum "userrole" v ≡ true → ready (create_table users) v ≡ false
users_refused v h = rw h refl

module _ ⦃pg : Postgres⦄ where
  run-step :
      (s : Statement) (ss : List Statement) (c c1 : pg.Catalog)
      → pg.execute s c ≡ some c1
      → run (s ∷ ss) c ≡ run ss c1
  unfolding run
  run-step s ss c c1 went = ground arith

  run-nil : (c : pg.Catalog) → run [] c ≡ some c
  unfolding run
  run-nil c = refl

  run-stuck :
      (s : Statement) (ss : List Statement) (c : pg.Catalog)
      → pg.execute s c ≡ none
      → run (s ∷ ss) c ≡ none
  unfolding run
  run-stuck s ss c stuck = ground arith

  -- Both enumerations, then the table of the users, and whatever was to follow.
  refused_behind :
      (ss : List Statement) (c : pg.Catalog)
      → (typed : pg.Catalog) × (run
            (create_enum user_role_enum ∷ create_enum ride_status_enum ∷ [])
            c
          ≡ some typed)
        × (pg.execute (create_table users) typed ≡ none)
        × (run
              (create_enum user_role_enum ∷ create_enum ride_status_enum ∷ create_table users ∷ ss)
              c
            ≡ none)
  refused_behind ss c =
      let role = create_enum user_role_enum in
      let status = create_enum ride_status_enum in
      let (c1, first, seen1) = pg.execute-ready role c refl in
      let (c2, second, seen2) = pg.execute-ready status c1 refl in
      let there : has_enum "userrole" (pg.view c2) ≡ true =
        ap (has_enum "userrole") seen2
        ∙ still_typed (pg.view c1) (ap (has_enum "userrole") seen1 ∙ typed (pg.view c)) in
      let refused = pg.execute-refused (create_table users) c2 (users_refused (pg.view c2) there) in
      (
        c2,
        run-step role (status ∷ []) c c1 first ∙ run-step status [] c1 c2 second ∙ run-nil c2,
        refused,
        run-step role (status ∷ create_table users ∷ ss) c c1 first
            ∙ run-step status (create_table users ∷ ss) c1 c2 second
            ∙ run-stuck (create_table users) ss c2 refused,
      )

  -- On no database does the upgrade go through. It creates the two enumerations, or finds them
  -- there; then the creation of the table of the users creates the type of its roles once more,
  -- which PostgreSQL refuses since the type is there by then.
  pub upgrade-refused :
      (c : pg.Catalog)
      → (typed : pg.Catalog) × (run
            (create_enum user_role_enum ∷ create_enum ride_status_enum ∷ [])
            c
          ≡ some typed)
        × (pg.execute (create_table users) typed ≡ none)
        × (run upgrade c ≡ none)
  unfolding upgrade
  upgrade-refused c = refused_behind _ c
