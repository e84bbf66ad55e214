-- ===== src/App/Answers.antt =====
-- What a request for a transition is answered through the whole application.
use ride_flow.Prelude.{ℕ, true, any, nat_eqb, [], ◌∷◌, ◌≡◌, ◌≢◌, refl, ap, arith, inl, inr}
use ride_flow.Models.{Uuid, DateTime, User, Ride}
use ride_flow.Schemas.{RideTransitionRequest}
use ride_flow.Config.{Settings}
use ride_flow.Sql.{Sql}
use ride_flow.Redis.{Redis}
use ride_flow.Database.{World, Handler, with_session, Result-cases}
use ride_flow.Database.Sessions.{with_session-failed}
use ride_flow.RateLimit.{Request, Verdict, passed, limited, dispatch}
use ride_flow.Request.{Env}
use ride_flow.App.{Response, answer, route, serve}
use ride_flow.Rides.Caught.{InOrder}
use ride_flow.Rides.Transition.{transition_ride, serve_transition}
use ride_flow.Rides.Answers.{meant, serve_transition-IsMeant}

with_limit : (n : ℕ) → any (nat_eqb n) meant ≡ true → any (nat_eqb n) (429 ∷ meant) ≡ true
with_limit n h = ground arith

module _ ⦃sql : Sql⦄ ⦃redis : Redis⦄ where
  -- A request that was not answered with 200 has left the database as it was.
  unwritten :
      {A : Type 0} (handler : Handler A) (w : World)
      → (answer 200 (with_session handler w).0).status_code ≢ 200
      → (with_session handler w).1.db ≡ w.db
  unwritten handler w other = elim (Result-cases (with_session handler w).0) [
    | inl (a, done) ↦ absurd (other (ap (λ r. (answer 200 r).status_code) done))
    | inr (e, failed) ↦ with_session-failed handler w failed
  ]

  -- How the answer and the database are, after a request that found the database so.
  abbrev pub Answered : World → Response Ride × World → Type 0
  Answered w (response, w') =
      (any (nat_eqb response.status_code) (429 ∷ 200 ∷ 403 ∷ 404 ∷ 409 ∷ 422 ∷ []) ≡ true)
      × (response.status_code ≢ 200 → w'.db ≡ w.db)
      × InOrder w'.db

  module _ (settings : Settings) (env : Env) (ride_id : Uuid) (payload : RideTransitionRequest)
      (user : User) where
    routed :
        (verdict : Verdict) (w : World)
        → InOrder w.db
        → Answered w (route 200 (transition_ride settings env ride_id payload user) verdict w)
    unfolding route serve_transition
    routed limited w o = (refl, λ _. refl, o)
    routed passed w o =
        let h = transition_ride settings env ride_id payload user in
        let (known, o') = serve_transition-IsMeant settings env ride_id payload user w o in
        (with_limit (answer 200 (with_session h w).0).status_code known, unwritten h w, o')

    -- On a database that is in order and has one ride under each `id`, a request of a user for a
    -- transition is turned away by the rate limiter with 429 or answered with 200, 403, 404, 409 or
    -- 422; only one that is answered with 200 has changed the database, and the database is in
    -- order after each. This is so where no call of the database or of Redis itself raises: the path
    -- has an identifier that the column takes, the expected version fits its column, Redis takes the
    -- pickup, and whoever its pool names is a user. So no error of the state machine, no result with
    -- several rows and no UNIQUE constraint at the commit ends in a 500.
    pub serve_transition-Answered :
        (now : DateTime) (request : Request) (w : World)
        → InOrder w.db
        → Answered w
            (serve settings now request 200 (transition_ride settings env ride_id payload user) w)
    unfolding serve
    serve_transition-Answered now request w o =
        let (verdict, strings) = dispatch settings now request w.strings in
        routed verdict (record w { strings = strings }) o
