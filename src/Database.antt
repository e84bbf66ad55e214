-- ===== src/Database.antt =====
-- backend/app/database.py: the session of a request, committed at its end or rolled back, and
-- the tables of backend/app/models.py that it works on. A handler runs on the session and the
-- Redis client; what it wrote stays written when it raises, until `get_db` rolls the session back.
-- What Redis was told is never rolled back.
pub mod Sessions
use ride_flow.Prelude.{
  ℕ, Bool, ◌&&◌, ◌==◌, string_eq, nat_eq, if◌then◌else◌, List, [], ◌∷◌, Option, none, some, ◌≡◌,
  ◌⊎◌, inl, inr, refl,
}
use ride_flow.Models.{
  RideStatus, Uuid, User, RefreshToken, DriverProfile, Ride, OutboxEvent, IdempotencyRecord,
}
use ride_flow.Sql.{Sql}
use ride_flow.Redis.{Redis}

-- What ends a handler early. The texts of the messages are left out.
pub data Exn : Type 0 where
  -- an HTTPException with its status code
  http_exception : ℕ → Exn
  invalid_transition : RideStatus → RideStatus → Exn
  stale_version : Uuid → Exn
  -- raised by the session: a broken constraint, more than one row, a row that is gone
  integrity_error multiple_results_found invalid_request_error : Exn

pub data Result (A : Type 0) : Type 0 where
  ok : A → Result A
  err : Exn → Result A

pub Result-cases : {A : Type 0} (r : Result A) → ((a : A) × (r ≡ ok a)) ⊎ ((e : Exn) × (r ≡ err e))
Result-cases (ok a) = inl (a, refl)
Result-cases (err e) = inr (e, refl)

-- A computation on a state that may raise.
abbrev pub Action : Type 0 → Type 0 → Type 0
Action S A = S → Result A × S

module _ {S A : Type 0} where
  abbrev pub pure : A → Action S A
  pure a s = (ok a, s)

  abbrev pub raise : Exn → Action S A
  raise e s = (err e, s)

  abbrev pub lift : Result A → Action S A
  lift r s = (r, s)

  abbrev pub gets : (S → A) → Action S A
  gets f s = (ok (f s), s)

infixl 5 ◌>>=◌ ◌>>◌
abbrev pub ◌>>=◌ : {S A B : Type 0} → Action S A → (A → Action S B) → Action S B
◌>>=◌ m f s = let (r, s') = m s in elim r [ ok a ↦ f a s' | err e ↦ (err e, s') ]

abbrev pub ◌>>◌ : {S A B : Type 0} → Action S A → Action S B → Action S B
m >> k = m >>= λ _. k

abbrev pub modify : {S : Type 0} → (S → S) → Action S (Unit {0})
modify f s = (ok tt, f s)

-- `if test: raise e`
abbrev pub raise_if : {S : Type 0} → Bool → Exn → Action S (Unit {0})
raise_if b e s = (if b then err e else ok tt, s)

-- `if value is None: raise e`
abbrev pub or_raise : {S A : Type 0} → Option A → Exn → Action S A
or_raise none e s = (err e, s)
or_raise (some a) e s = (ok a, s)

-- `Result.scalar_one_or_none` of a query.
abbrev pub scalar_one_or_none : {A : Type 0} → List A → Result (Option A)
scalar_one_or_none [] = ok none
scalar_one_or_none (a ∷ []) = ok (some a)
scalar_one_or_none (a ∷ b ∷ rest) = err multiple_results_found

-- `uq_idempotency_key_scope`
abbrev pub same_key_scope : IdempotencyRecord → IdempotencyRecord → Bool
same_key_scope a b = a.key == b.key && a.scope == b.scope

module _ ⦃sql : Sql⦄ where
  pub record Db : Type 0 where
    pub users : sql.Table User
    pub refresh_tokens : sql.Table RefreshToken
    pub driver_profiles : sql.Table DriverProfile
    pub rides : sql.Table Ride
    pub outbox_events : sql.Table OutboxEvent
    pub idempotency_records : sql.Table IdempotencyRecord

  -- The UNIQUE constraints that the models declare.
  unfoldable pub constraints : Db → Bool
  constraints db =
      sql.unique (λ a b. a.email == b.email) db.users
      && sql.unique (λ a b. a.token_hash == b.token_hash) db.refresh_tokens
      && sql.unique (λ a b. a.user_id == b.user_id) db.driver_profiles
      && sql.unique same_key_scope db.idempotency_records

  module _ ⦃redis : Redis⦄ where
    -- What a handler works on: the session's view of the database, and Redis.
    pub record World : Type 0 where
      pub db : Db
      pub strings : redis.Strings
      pub geo : redis.Geo

    abbrev pub Handler : Type 0 → Type 0
    Handler A = Action World A

    -- A step that touches only the database.
    abbrev pub on_db : {A : Type 0} → Action Db A → Handler A
    on_db m w = let (r, db) = m w.db in (r, record w { db = db })

    -- The commit at the end of the request, refused where it would break a constraint.
    unfoldable pub commit : {A : Type 0} → Db → A → World → Result A × World
    unfolding constraints
    commit before a w =
        if constraints w.db then (ok a, w) else (err integrity_error, record w { db = before })

    -- `get_db` around a handler: commit when it returns, roll back when it raises.
    unfoldable pub with_session : {A : Type 0} → Handler A → World → Result A × World
    unfolding commit
    with_session h w =
        let (r, w') = h w in
        elim r [ ok a ↦ commit w.db a w' | err e ↦ (err e, record w' { db = w.db }) ]

    -- `session_scope`, the same outside of a request.
    unfoldable pub session_scope : {A : Type 0} → Handler A → World → Result A × World
    unfolding commit
    session_scope h w =
        let (r, w') = h w in
        elim r [ ok a ↦ commit w.db a w' | err e ↦ (err e, record w' { db = w.db }) ]
