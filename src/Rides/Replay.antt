-- ===== src/Rides/Replay.antt =====
-- The idempotency of the creation of rides: what a request is answered that repeats a key.
use ride_flow.Prelude.{
  true, if◌then◌else◌, ◌==◌, string_eq, eqb_refl, String, Option, none, some, List, [], ◌∷◌, ◌≡◌,
  refl, sym, ◌∙◌, ap, subst, arith, filterb-append, eq_iff,
}
use ride_flow.Models.{RideOut, User, IdempotencyRecord, passenger}
use ride_flow.Models.Sets.{IdempotencyRecord-set}
use ride_flow.Schemas.{RideCreateRequest, ride_out}
use ride_flow.Sql.{Sql}
use ride_flow.Sql.Rows.{none-select, one-select}
use ride_flow.Redis.{Redis}
use ride_flow.Database.{
  Db, World, Result, Exn, ok, err, http_exception, multiple_results_found, constraints, on_db,
}
use ride_flow.Database.Sessions.{with_session-ok, with_session-reads}
use ride_flow.Fare.{Floats}
use ride_flow.Idempotency.{Hashing, has_key, fingerprint, get_cached_response}
use ride_flow.StateMachine.Update.{ride_of}
use ride_flow.Request.{Env}
use ride_flow.Rides.{idempotency_scope_create, given_key, cached_for, create_ride, serve_create}
use ride_flow.Rides.Create.{
  records_under, create_ride-passenger, create_ride-replays, created, stored, with_ride,
  with_record,
}
use ride_flow.Rides.Insert.{IsNew, create_ride-new}

module _ ⦃sql : Sql⦄ ⦃hashing : Hashing⦄ ⦃fl : Floats⦄ where
  -- The one record under the key holds the response for a body.
  abbrev pub Answered : String → RideCreateRequest → RideOut → Db → Type 0
  Answered key payload out db =
      (r : IdempotencyRecord) × (records_under key db ≡ r ∷ [])
      × (r.request_fingerprint ≡ fingerprint payload)
      × (r.response_body ≡ out)

ok_inj : {a b : RideOut} → ok a ≡ ok b → a ≡ b
ok_inj h = cc

ok_err : {a : RideOut} {e : Exn} → ok a ≡ err e → ⊥
ok_err h = cc

module _ ⦃sql : Sql⦄ ⦃hashing : Hashing⦄ ⦃fl : Floats⦄ (env : Env) (payload : RideCreateRequest)
    (idempotency_key : Option String) (user : User) (role : user.role ≡ passenger) (key : String)
    (given : given_key idempotency_key ≡ some key) (db : Db) where
  records-stored :
      records_under key db ≡ []
      → records_under key (
          with_record env payload idempotency_key user
            (some key)
            (with_ride env payload idempotency_key user db))
        ≡ stored env payload idempotency_key user key ∷ []
  records-stored new =
      let row = stored env payload idempotency_key user key in
      let split =
        filterb-append (has_key key idempotency_scope_create) (sql.rows db.idempotency_records)
          (row ∷ []) in
      let same = eqb_refl key in rw (sql.rows-add row db.idempotency_records, split, new, same) refl

  create_ride-many :
      (r r' : IdempotencyRecord) (rs : List IdempotencyRecord)
      → sql.select (has_key key idempotency_scope_create) db.idempotency_records ≡ r ∷ r' ∷ rs
      → (create_ride env payload idempotency_key user db).0 ≡ err multiple_results_found
  unfolding cached_for get_cached_response
  create_ride-many r r' rs h =
      let handled = create_ride-passenger env payload idempotency_key user role db in
      let many : cached_for (some key) db ≡ (err multiple_results_found, db) = rw h refl in
      let cached = ap (λ g. cached_for g db) given ∙ many in
      ap (λ (x : Result RideOut × Db). x.0) handled ∙ ground arith

  create_ride-Answered :
      (out : RideOut)
      → ride_of db (env.uuid 0) ≡ none
      → (create_ride env payload idempotency_key user db).0 ≡ ok out
      → Answered key payload out (create_ride env payload idempotency_key user db).1
  create_ride-Answered out fresh done =
      go (sql.select (has_key key idempotency_scope_create) db.idempotency_records) refl
    where
      go :
          (xs : List IdempotencyRecord)
          → sql.select (has_key key idempotency_scope_create) db.idempotency_records ≡ xs
          → Answered key payload out (create_ride env payload idempotency_key user db).1
      go [] e =
          let none_there =
            none-select (has_key key idempotency_scope_create) db.idempotency_records e in
          let value =
            create_ride-new env payload idempotency_key user role db fresh
              (subst (IsNew db) (sym given) none_there) in
          let answer : ride_out (created env payload idempotency_key user) ≡ out =
            ok_inj (sym (ap (λ (x : Result RideOut × Db). x.0) value) ∙ done) in
          subst (Answered key payload out) (sym (ap (λ (x : Result RideOut × Db). x.1) value)) (
            stored env payload idempotency_key user key,
            rw given (records-stored none_there),
            refl,
            answer,
          )
      go (r ∷ []) e =
          let one_there =
            one-select (has_key key idempotency_scope_create) db.idempotency_records
              IdempotencyRecord-set r e in
          let value =
            create_ride-replays env payload idempotency_key user key db r role given one_there in
          let same = ap (λ (x : Result RideOut × Db). x.1) value in
          let answer = sym (ap (λ (x : Result RideOut × Db). x.0) value) ∙ done in
          subst (Answered key payload out) (sym same) (
            r,
            one_there,
            (eq_iff r.request_fingerprint (fingerprint payload)).0 (ground arith),
            ground arith,
          )
      go (r ∷ r' ∷ rs) e = absurd (ok_err (sym done ∙ create_ride-many r r' rs e))

module _ ⦃sql : Sql⦄ ⦃redis : Redis⦄ ⦃hashing : Hashing⦄ ⦃fl : Floats⦄ (env : Env)
    (payload : RideCreateRequest) (idempotency_key : Option String) (user : User)
    (role : user.role ≡ passenger) (key : String)
    (given : given_key idempotency_key ≡ some key) where
  -- A request that was answered leaves its answer under its key.
  pub serve_create-Answered :
      (out : RideOut) (w : World)
      → ride_of w.db (env.uuid 0) ≡ none
      → (serve_create env payload idempotency_key user w).0 ≡ ok out
      → Answered key payload out (serve_create env payload idempotency_key user w).1.db
  unfolding serve_create
  serve_create-Answered out w fresh done =
      let (handled, _, same) =
        with_session-ok (on_db (create_ride env payload idempotency_key user)) w done in
      subst (λ (x : World). Answered key payload out x.db) (sym same)
        (create_ride-Answered env payload idempotency_key user role key given w.db out fresh
          handled)

  -- Under a key that holds the response for a body, that body is answered with the response and
  -- another one is refused, and nothing is written.
  serve_create-replays :
      (first : RideCreateRequest) (out : RideOut) (w : World)
      → constraints w.db ≡ true
      → Answered key first out w.db
      → serve_create env payload idempotency_key user w ≡ (
        (if fingerprint first == fingerprint payload then ok out else err (http_exception 409)),
        w,
      )
  unfolding serve_create
  serve_create-replays first out w fine (r, there, printed, answer) =
      let value =
        create_ride-replays env payload idempotency_key user key w.db r role given there in
      with_session-reads (on_db (create_ride env payload idempotency_key user)) w _
        (ap (λ x. on_db (λ _. x) w) (rw (printed, answer) at value)) fine

-- A key is good for one ride. Once a passenger's request under a key, with a new identifier at
-- hand, was answered with a ride, any later request of any passenger under that key is answered
-- with that same ride if its body has the same fingerprint, is refused with 409 if it has not, and
-- writes nothing, in whatever state the rest of the database is by then, as long as it is in order
-- and the records under the key are as they were left.
pub serve_create-idempotent :
    ⦃sql : Sql⦄ ⦃redis : Redis⦄ ⦃hashing : Hashing⦄ ⦃fl : Floats⦄ (env env' : Env)
    (payload payload' : RideCreateRequest) (idempotency_key idempotency_key' : Option String)
    (user user' : User) (key : String) (out : RideOut) (w later : World)
    → user.role ≡ passenger
    → user'.role ≡ passenger
    → given_key idempotency_key ≡ some key
    → given_key idempotency_key' ≡ some key
    → ride_of w.db (env.uuid 0) ≡ none
    → (serve_create env payload idempotency_key user w).0 ≡ ok out
    → constraints later.db ≡ true
    → records_under key later.db
      ≡ records_under key (serve_create env payload idempotency_key user w).1.db
    → serve_create env' payload' idempotency_key' user' later ≡ (
      if fingerprint payload == fingerprint payload' then ok out else err (http_exception 409),
      later,
    )
serve_create-idempotent env env' payload payload' idempotency_key idempotency_key' user user' key
      out w later role role' given given' fresh done fine same =
    let (r, there, printed, answer) =
      serve_create-Answered env payload idempotency_key user role key given out w fresh done in
    serve_create-replays env' payload' idempotency_key' user' role' key given' payload out later
      fine (r, same ∙ there, printed, answer)
