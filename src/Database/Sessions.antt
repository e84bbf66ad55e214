-- ===== src/Database/Sessions.antt =====
-- What `get_db` makes of any handler.
use ride_flow.Prelude.{true, Bool-cases, refl, ◌≡◌, inl, inr, arith}
use ride_flow.Sql.{Sql}
use ride_flow.Redis.{Redis}
use ride_flow.Database.{
  Db, World, Handler, Result, Exn, ok, err, constraints, commit, with_session, Action, ◌>>=◌,
}

module _ ⦃sql : Sql⦄ ⦃redis : Redis⦄ {A : Type 0} (h : Handler A) (w : World) where
  -- A request that fails, whether its handler raises or the commit breaks a constraint, leaves the
  -- database as it was before the request.
  pub with_session-failed :
      {e : Exn} → (with_session h w).0 ≡ err e → (with_session h w).1.db ≡ w.db
  unfolding with_session commit
  with_session-failed f = ground arith

  -- A request that returns has committed what its handler wrote.
  pub with_session-done :
      {a : A} → (h w).0 ≡ ok a → constraints (h w).1.db ≡ true → with_session h w ≡ h w
  unfolding with_session commit
  with_session-done e c = ground arith

  pub with_session-raised :
      {e : Exn} → (h w).0 ≡ err e → with_session h w ≡ (err e, record (h w).1 { db = w.db })
  unfolding with_session
  with_session-raised e = ground arith

module _ ⦃sql : Sql⦄ ⦃redis : Redis⦄ {A : Type 0} (h : Handler A) (w : World) where
  -- A handler that raises and has told Redis nothing leaves everything as it was.
  pub with_session-refused :
      {e : Exn}
      → (h w).0 ≡ err e
      → (h w).1.strings ≡ w.strings
      → (h w).1.geo ≡ w.geo
      → with_session h w ≡ (err e, w)
  with_session-refused raised strings geo = rw (with_session-raised h w raised) (rw (strings, geo))

  -- A handler that only reads is answered as it ends, on a database that is in order.
  pub with_session-reads :
      (r : Result A) → h w ≡ (r, w) → constraints w.db ≡ true → with_session h w ≡ (r, w)
  unfolding with_session commit
  with_session-reads r read fine = ground arith

  -- A request that returned has committed.
  pub with_session-ok :
      {a : A}
      → (with_session h w).0 ≡ ok a
      → ((h w).0 ≡ ok a) × (constraints (h w).1.db ≡ true) × ((with_session h w).1 ≡ (h w).1)
  unfolding with_session commit
  with_session-ok done = (ground arith, ground arith, ground arith)

-- A property of the database that a computation keeps.
abbrev pub Keeps {ℓ} : {S A : Type 0} → (S → Type ℓ) → Action S A → Type ℓ
Keeps {S} P m = (s : S) → P s → P (m s).1

after-keeps {ℓ} :
    {S A B : Type 0} (P : S → Type ℓ) (f : A → Action S B) (r : Result A) (s : S)
    → ((a : A) → Keeps P (f a))
    → P s
    → let out : Result B × S = elim r [ ok a ↦ f a s | err e ↦ (err e, s) ] in P out.1
after-keeps P f (ok a) s kf p = kf a s p
after-keeps P f (err e) s kf p = p

pub Keeps-bind {ℓ} :
    {S A B : Type 0} (P : S → Type ℓ) (m : Action S A) (f : A → Action S B)
    → Keeps P m
    → ((a : A) → Keeps P (f a))
    → Keeps P (m >>= f)
Keeps-bind P m f km kf s p = after-keeps P f (m s).0 (m s).1 kf (km s p)

-- The same at one state.
bound-at {ℓ} :
    {S A B : Type 0} (P : S → Type ℓ) (f : A → Action S B) (r : Result A) (s : S)
    → P s
    → ((a : A) → r ≡ ok a → P (f a s).1)
    → let out : Result B × S = elim r [ ok a ↦ f a s | err e ↦ (err e, s) ] in P out.1
bound-at P f (ok a) s p k = k a refl
bound-at P f (err e) s p k = p

pub bind-at {ℓ} :
    {S A B : Type 0} (P : S → Type ℓ) (m : Action S A) (f : A → Action S B) (s : S)
    → P (m s).1
    → ((a : A) → (m s).0 ≡ ok a → P (f a (m s).1).1)
    → P ((m >>= f) s).1
bind-at P m f s p k = bound-at P f (m s).0 (m s).1 p k

-- What returned has returned from its first part, and then from the rest.
bound-ok :
    {S A B : Type 0} (f : A → Action S B) (r : Result A) (s : S) {b : B}
    → let out : Result B × S = elim r [ ok a ↦ f a s | err e ↦ (err e, s) ] in
      out.0 ≡ ok b → (a : A) × (r ≡ ok a) × (out ≡ f a s)
bound-ok f (ok a) s h = (a, refl, refl)
bound-ok f (err e) s h = cc

pub bind-ok :
    {S A B : Type 0} (m : Action S A) (f : A → Action S B) (s : S) {b : B}
    → ((m >>= f) s).0 ≡ ok b
    → (a : A) × ((m s).0 ≡ ok a) × ((m >>= f) s ≡ f a (m s).1)
bind-ok m f s h = bound-ok f (m s).0 (m s).1 h

module _ ⦃sql : Sql⦄ ⦃redis : Redis⦄ {A : Type 0} (P : Db → Type 0) where
  commit-keeps :
      (r : Result A) (w w' : World)
      → P w.db
      → P w'.db
      → let out : Result A × World = elim r [
        | ok a ↦ commit w.db a w'
        | err e ↦ (err e, record w' { db = w.db })
      ] in
        P out.1.db
  unfolding commit
  commit-keeps (ok a) w w' p p' = elim (Bool-cases (constraints w'.db)) [
    | inl fine ↦ rw fine p'
    | inr broken ↦ rw broken p
  ]
  commit-keeps (err e) w w' p p' = p

  -- At one state: what the handler keeps there, the request keeps.
  pub with_session-keeps :
      (h : Handler A) (w : World) → P w.db → P (h w).1.db → P (with_session h w).1.db
  unfolding with_session
  with_session-keeps h w p p' = commit-keeps (h w).0 w (h w).1 p p'

  pub Keeps-with_session :
      (h : Handler A) → Keeps (λ w. P w.db) h → Keeps (λ w. P w.db) (with_session h)
  unfolding with_session
  Keeps-with_session h k w p = commit-keeps (h w).0 w (h w).1 p (k w p)
