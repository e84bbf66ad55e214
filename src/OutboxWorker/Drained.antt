-- ===== src/OutboxWorker/Drained.antt =====
-- The loop of the worker empties the outbox.
use ride_flow.Prelude.{
  ℕ, suc, ◌-◌, ◌*◌, ◌≤◌, Bool, true, ◌++◌, List, [], ◌∷◌, Option, none, length, filterb, countb,
  ◌≡◌, refl, sym, ap, ◌∙◌, subst, arith, inl, inr,
}
use ride_flow.Models.{DateTime, OutboxEvent}
use ride_flow.Sql.{Sql}
use ride_flow.Database.{Db, Result, Exn, ok, constraints, Result-cases, pure}
use ride_flow.Database.Sessions.{bind-ok}
use ride_flow.OutboxWorker.{
  Message, event_of, notification_of, Worker, send, set_published, deliver, next_batch,
  deliver_next, process_batch,
}
use ride_flow.OutboxWorker.Delivery.{delivered, deliver-step, committed, process_batch-failed}
use ride_flow.OutboxWorker.Due.{is_due, due_but, mark-due, due-take}
use ride_flow.OutboxWorker.Forever.{Round, run_rounds}

-- How many of the rounds can send whatever they have to send.
pub data Works : ℕ → List Round → Type 0 where
  no_round : Works 0 []
  down : {n : ℕ} {rounds : List Round} (round : Round) → Works n rounds → Works n (round ∷ rounds)
  up :
      {n : ℕ} {rounds : List Round} (round : Round)
      → ((m : Message) → round.fails m ≡ none)
      → Works n rounds
      → Works (suc n) (round ∷ rounds)

due_but-nil : (xs : List OutboxEvent) → countb (due_but []) xs ≡ countb is_due xs
due_but-nil [] = refl
due_but-nil (x ∷ xs) = ground (arith, due_but-nil xs)

none-countb : (p : OutboxEvent → Bool) (xs : List OutboxEvent) → countb p xs ≡ 0 → filterb p xs ≡ []
none-countb p [] h = refl
none-countb p (x ∷ xs) h = ground (arith, none-countb p xs)

append-nil : (xs : List OutboxEvent) → xs ++ [] ≡ xs
append-nil [] = refl
append-nil (x ∷ xs) = ap (λ l. x ∷ l) (append-nil xs)

module _ ⦃sql : Sql⦄ where
  -- How many events are not published.
  abbrev pub due : Worker → ℕ
  due s = countb is_due (sql.rows s.db.outbox_events)

  module _ (fails : Message → Option Exn) (now : DateTime) where
    deliver-due :
        (es ks : List OutboxEvent) (s : Worker)
        → (deliver fails now es s).0 ≡ ok tt
        → countb (due_but ks) (sql.rows (deliver fails now es s).1.db.outbox_events)
          ≡ countb (due_but (es ++ ks)) (sql.rows s.db.outbox_events)
    unfolding deliver set_published
    deliver-due [] ks s done = refl
    deliver-due (e ∷ es) ks s done =
        let next = deliver-step fails now e es s done in
        ap (λ (x : Result (Unit {0}) × Worker). countb (due_but ks) (sql.rows x.1.db.outbox_events))
          next
        ∙ deliver-due es ks (delivered fails now e s) (ap (λ x. x.0) (sym next) ∙ done)
        ∙ ap (countb (due_but (es ++ ks))) (sql.rows-update _ _ s.db.outbox_events)
        ∙ mark-due now e (es ++ ks) (sql.rows s.db.outbox_events)

    -- A round that returns has fifty events less to publish, or none.
    pub done-due :
        (n : ℕ) (s : Worker)
        → (process_batch fails now s).0 ≡ ok n
        → due (process_batch fails now s).1 ≤ due s - 50
    unfolding deliver_next next_batch
    done-due n s done =
        let (went, same) = committed fails now n s done in
        let batch = next_batch s.db in
        let (u, e, rest) = bind-ok (deliver fails now batch) (λ _. pure (length batch)) s went in
        let left : due (process_batch fails now s).1
            ≡ countb (due_but batch) (sql.rows s.db.outbox_events) =
          ap due same
          ∙ ap (λ (x : Result ℕ × Worker). due x.1) rest
          ∙ sym (due_but-nil (sql.rows (deliver fails now batch s).1.db.outbox_events))
          ∙ deliver-due batch [] s e
          ∙ ap (λ l. countb (due_but l) (sql.rows s.db.outbox_events)) (append-nil batch) in
        let few =
          due-take 50 _ (sql.rows s.db.outbox_events) (sql.order_by-rows _ _ s.db.outbox_events) in
        subst (λ (k : ℕ). k ≤ due s - 50) (sym left) few

    -- A round never makes an event due.
    pub round-due : (s : Worker) → due (process_batch fails now s).1 ≤ due s
    round-due s = elim (Result-cases (process_batch fails now s).0) [
      | inl (n, e) ↦ let less = done-due n s e in omega (arith, less)
      | inr (x, e) ↦
          let (same, _) = process_batch-failed fails now s e in
          let equal = ap (λ (d : Db). countb is_due (sql.rows d.outbox_events)) same in
          omega (arith, equal)
    ]

    deliver-works :
        ((m : Message) → fails m ≡ none)
        → (es : List OutboxEvent) (s : Worker)
        → ((deliver fails now es s).0 ≡ ok tt)
          × (constraints (deliver fails now es s).1.db ≡ constraints s.db)
    unfolding deliver send set_published constraints
    deliver-works works [] s = (refl, refl)
    deliver-works works (e ∷ es) s =
        let first = works (event_of e) in
        let second = works (notification_of e) in
        let next : deliver fails now (e ∷ es) s ≡ deliver fails now es (delivered fails now e s) =
          ground arith in
        subst
          (λ (x : Result (Unit {0}) × Worker).
            (x.0 ≡ ok tt) × (constraints x.1.db ≡ constraints s.db))
          (sym next) (deliver-works works es (delivered fails now e s))

    -- A round that can send everything returns, where the constraints hold.
    pub round-works :
        ((m : Message) → fails m ≡ none)
        → (s : Worker) → constraints s.db ≡ true
        → (n : ℕ) × ((process_batch fails now s).0 ≡ ok n)
    unfolding process_batch deliver_next
    round-works works s valid =
        let (went, same) = deliver-works works (next_batch s.db) s in
        (length (next_batch s.db), ground arith)

    round-valid :
        (s : Worker) → constraints s.db ≡ true → constraints (process_batch fails now s).1.db ≡ true
    unfolding process_batch
    round-valid s valid = ground arith

  -- As long as the loop of the worker runs, each round in which nothing fails takes fifty events
  -- off those that are due. Whatever the other rounds meet, once there have been enough such rounds
  -- no event is left unpublished. The constraints of the database hold at the start.
  pub run_rounds-drains :
      {n : ℕ} (rounds : List Round) (s : Worker)
      → Works n rounds
      → constraints s.db ≡ true
      → due s ≤ 50 * n
      → filterb is_due (sql.rows (run_rounds rounds s).1.db.outbox_events) ≡ []
  unfolding run_rounds
  run_rounds-drains [] s no_round valid few =
      none-countb is_due (sql.rows s.db.outbox_events) (omega (arith, few))
  run_rounds-drains (r ∷ rounds) s (down _ works) valid few =
      let less = round-due r.fails r.now s in
      run_rounds-drains rounds (process_batch r.fails r.now s).1 works
        (round-valid r.fails r.now s valid) (omega (arith, less, few))
  run_rounds-drains (r ∷ rounds) s (up _ sends works) valid few =
      let (k, done) = round-works r.fails r.now sends s valid in
      let less = done-due r.fails r.now k s done in
      run_rounds-drains rounds (process_batch r.fails r.now s).1 works
        (round-valid r.fails r.now s valid) (omega (arith, less, few))
