-- ===== src/Rides/Answers.antt =====
-- With which status a request for a transition is answered.
use ride_flow.Prelude.{
  ℕ, true, any, nat_eqb, List, [], ◌∷◌, none, ◌≡◌, refl, sym, ap, ◌∙◌, subst, arith, inl, inr,
  Option-cases, Bool-cases,
}
use ride_flow.Models.{Uuid, User, Ride, status_eq}
use ride_flow.Schemas.{RideTransitionRequest}
use ride_flow.Config.{Settings}
use ride_flow.Sql.{Sql}
use ride_flow.Redis.{Redis}
use ride_flow.Database.{
  World, Result, ok, err, http_exception, invalid_transition, stale_version, integrity_error,
  multiple_results_found, invalid_request_error, Result-cases, with_session, commit,
}
use ride_flow.Database.Sessions.{with_session-done, with_session-raised}
use ride_flow.StateMachine.Update.{ride_of, ride_of-id}
use ride_flow.Request.{Env}
use ride_flow.App.{answer}
use ride_flow.Rides.Refusals.{transition_ride-forbidden, transition_ride-tried}
use ride_flow.Rides.Transition.{
  perform_transition, catching, transition_ride, serve_transition, may_transition, as_http,
}
use ride_flow.Rides.Caught.{IsCaught, InOrder, perform-EndsAt}

-- The statuses that the handler gives on purpose.
abbrev pub meant : List ℕ
meant = 200 ∷ 403 ∷ 404 ∷ 409 ∷ 422 ∷ []

abbrev pub IsMeant : Result Ride → Type 0
IsMeant r = any (nat_eqb (answer 200 r).status_code) meant ≡ true

module _ ⦃sql : Sql⦄ ⦃redis : Redis⦄ where
  module _ (settings : Settings) (env : Env) where
    caught :
        (r : Result Ride) (w : World)
        → IsCaught r × InOrder w.db
        → let out : Result Ride × World = elim r [
          | ok a ↦ (ok a, w)
          | err e ↦ (err (as_http e), w)
        ] in
          IsMeant out.0 × InOrder out.1.db
    caught (ok a) w e = (refl, e.1)
    caught (err (invalid_transition current target)) w e = (refl, e.1)
    caught (err (stale_version id)) w e = (refl, e.1)
    caught (err (http_exception c)) w e = absurd (cc e.0)
    caught (err integrity_error) w e = absurd (cc e.0)
    caught (err multiple_results_found) w e = absurd (cc e.0)
    caught (err invalid_request_error) w e = absurd (cc e.0)

    transition_ride-missing :
        (ride_id : Uuid) (payload : RideTransitionRequest) (user : User) (w : World)
        → ride_of w.db ride_id ≡ none
        → transition_ride settings env ride_id payload user w ≡ (err (http_exception 404), w)
    unfolding transition_ride
    transition_ride-missing ride_id payload user w missing =
        let read = sql.get-rows (λ (r : Ride). nat_eqb r.id ride_id) w.db.rides ∙ missing in
        ground arith

    transition_ride-IsMeant :
        (ride_id : Uuid) (payload : RideTransitionRequest) (user : User) (w : World)
        → InOrder w.db
        → let (result, w') = transition_ride settings env ride_id payload user w in
          IsMeant result × InOrder w'.db
    unfolding catching
    transition_ride-IsMeant ride_id payload user w o = elim (Option-cases (ride_of w.db ride_id)) [
      | inl missing ↦
          subst (λ (x : Result Ride × World). IsMeant x.0 × InOrder x.1.db)
            (sym (transition_ride-missing ride_id payload user w missing)) (refl, o)
      | inr (ride, found) ↦ elim (Bool-cases (may_transition user ride payload.target_status)) [
        | inr no_right ↦
            subst (λ (x : Result Ride × World). IsMeant x.0 × InOrder x.1.db)
              (sym
                (transition_ride-forbidden settings env ride_id payload user ride w found no_right))
              (refl, o)
        | inl right ↦
            let current = ap (ride_of w.db) (ride_of-id w.db ride_id ride found) ∙ found in
            subst (λ (x : Result Ride × World). IsMeant x.0 × InOrder x.1.db)
              (sym (transition_ride-tried settings env ride_id payload user ride w found right))
              (caught (perform_transition settings env payload ride w).0
                (perform_transition settings env payload ride w).1
                (perform-EndsAt settings env payload ride w o current))
      ]
    ]

    -- On a database that is in order and has one ride under each `id`, a request for a transition
    -- that reaches its handler is answered with 200, 403, 404, 409 or 422, and leaves the database
    -- in order, where no call of the database or of Redis itself raises: the path has an identifier
    -- that the column takes, the expected version fits its column, Redis takes the pickup, and
    -- whoever its pool names is a user. So no error of the state machine, no result with several
    -- rows and no UNIQUE constraint at the commit gets past the handler.
    pub serve_transition-IsMeant :
        (ride_id : Uuid) (payload : RideTransitionRequest) (user : User) (w : World)
        → InOrder w.db
        → let (result, w') = serve_transition settings env ride_id payload user w in
          IsMeant result × InOrder w'.db
    unfolding serve_transition with_session commit
    serve_transition-IsMeant ride_id payload user w o =
        let h = transition_ride settings env ride_id payload user in
        let (known, o') = transition_ride-IsMeant ride_id payload user w o in
        elim (Result-cases (h w).0) [
          | inl (a, done) ↦
              subst (λ (x : Result Ride × World). IsMeant x.0 × InOrder x.1.db)
                (sym (with_session-done h w done o'.fine)) (known, o')
          | inr (e, raised) ↦
              subst (λ (x : Result Ride × World). IsMeant x.0 × InOrder x.1.db)
                (sym (with_session-raised h w raised)) (subst IsMeant raised known, o)
        ]
