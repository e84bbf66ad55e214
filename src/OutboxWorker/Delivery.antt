-- ===== src/OutboxWorker/Delivery.antt =====
-- What one round of the worker delivers.
use ride_flow.Prelude.{
  take, Perm, filterb, All-map, refl, ℕ, ◌≤◌, not, ◌++◌, List, [], ◌∷◌, Option, All, length, ◌≡◌,
  sym, subst, ap, ◌∙◌, arith, Option-cases, inl, inr,
}
use ride_flow.Models.{Uuid, DateTime, OutboxEvent}
use ride_flow.Sql.{Sql, IsOrdered}
use ride_flow.Database.{Db, Result, Exn, ok, err, pure}
use ride_flow.Database.Sessions.{bind-ok}
use ride_flow.OutboxWorker.{
  Message, event_of, notification_of, oldest_first, Worker, send, set_published, deliver,
  next_batch, deliver_next, process_batch,
}
use ride_flow.OutboxWorker.Batch.{
  messages_of, unmarked, marks, marks_keep, append-nil, append_assoc, count_inj, length-take,
  oldest_first_total, oldest_first_trans,
}

-- No event stands behind one that was created after it.
abbrev pub AreOldestFirst : List OutboxEvent → Type 0
AreOldestFirst [] = Unit
AreOldestFirst (x ∷ xs) = All (λ y. x.created_at ≤ y.created_at) xs × AreOldestFirst xs

oldest_of : (xs : List OutboxEvent) → IsOrdered oldest_first xs → AreOldestFirst xs
oldest_of [] h = tt
oldest_of (x ∷ xs) h = (All-map (λ y behind. ground arith) xs h.0, oldest_of xs h.1)

module _ ⦃sql : Sql⦄ (fails : Message → Option Exn) (now : DateTime) where
  abbrev pub events_in : Worker → List OutboxEvent
  events_in s = sql.rows s.db.outbox_events

  -- One event, sent twice and marked.
  abbrev pub delivered : OutboxEvent → Worker → Worker
  delivered e s =
      (set_published now e
        (record s { sent = (s.sent ++ (event_of e ∷ [])) ++ (notification_of e ∷ []) })).1

  pub deliver-step :
      (e : OutboxEvent) (es : List OutboxEvent) (s : Worker)
      → (deliver fails now (e ∷ es) s).0 ≡ ok tt
      → deliver fails now (e ∷ es) s ≡ deliver fails now es (delivered e s)
  unfolding deliver send set_published
  deliver-step e es s done = elim (Option-cases (fails (event_of e))) [
    | inr (x, bad) ↦ ground arith
    | inl fine ↦ elim (Option-cases (fails (notification_of e))) [
      | inr (x, bad) ↦ ground arith
      | inl good ↦ ground arith
    ]
  ]

  deliver-sent :
      (es : List OutboxEvent) (s : Worker)
      → (deliver fails now es s).0 ≡ ok tt
      → (deliver fails now es s).1.sent ≡ s.sent ++ messages_of es
  unfolding deliver set_published
  deliver-sent [] s done = sym (append-nil s.sent)
  deliver-sent (e ∷ es) s done =
      let step = deliver-step e es s done in
      let rest = deliver-sent es (delivered e s) (ap (λ x. x.0) (sym step) ∙ done) in
      ap (λ x. x.1.sent) step
      ∙ rest
      ∙ append_assoc (s.sent ++ (event_of e ∷ [])) (notification_of e ∷ []) (messages_of es)
      ∙ append_assoc s.sent (event_of e ∷ []) (notification_of e ∷ messages_of es)

  deliver-keeps :
      (i : Uuid) (es : List OutboxEvent) (s : Worker)
      → (deliver fails now es s).0 ≡ ok tt
      → unmarked i (events_in s) ≡ []
      → unmarked i (events_in (deliver fails now es s).1) ≡ []
  unfolding deliver set_published
  deliver-keeps i [] s done h = h
  deliver-keeps i (e ∷ es) s done h =
      let step = deliver-step e es s done in
      ap (λ (x : Result (Unit {0}) × Worker). unmarked i (events_in x.1)) step
      ∙ deliver-keeps i es (delivered e s) (ap (λ x. x.0) (sym step) ∙ done) (
          ap (unmarked i) (sql.rows-update _ _ s.db.outbox_events)
          ∙ marks_keep now i e.id (events_in s) h)

  deliver-marks :
      (es : List OutboxEvent) (s : Worker)
      → (deliver fails now es s).0 ≡ ok tt
      → All (λ (e : OutboxEvent). unmarked e.id (events_in (deliver fails now es s).1) ≡ []) es
  unfolding deliver set_published
  deliver-marks [] s done = tt
  deliver-marks (e ∷ es) s done =
      let step = deliver-step e es s done in
      let done' = ap (λ x. x.0) (sym step) ∙ done in
      subst
        (λ (x : Result (Unit {0}) × Worker).
          All (λ (q : OutboxEvent). unmarked q.id (events_in x.1) ≡ []) (e ∷ es))
        (sym step)
        (
          deliver-keeps e.id es (delivered e s) done' (
              ap (unmarked e.id) (sql.rows-update _ _ s.db.outbox_events)
              ∙ marks now e.id (events_in s)),
          deliver-marks es (delivered e s) done',
        )

  abbrev Delivered : ℕ → Worker → List OutboxEvent → Worker → Type 0
  Delivered n s batch s' =
      (n ≡ length batch)
      × (s'.sent ≡ s.sent ++ messages_of batch)
      × All (λ (e : OutboxEvent). unmarked e.id (sql.rows s'.db.outbox_events) ≡ []) batch

  -- What a successful round leaves.
  deliver_next-done :
      (n : ℕ) (s : Worker)
      → (deliver_next fails now s).0 ≡ ok n
      → let batch = next_batch s.db in
        let s' = (deliver_next fails now s).1 in
        (n ≡ length batch)
        × (s'.sent ≡ s.sent ++ messages_of batch)
        × All (λ (e : OutboxEvent). unmarked e.id (events_in s') ≡ []) batch
  unfolding deliver_next
  deliver_next-done n s done =
      let (u, e, rest) =
        bind-ok (deliver fails now (next_batch s.db)) (λ _. pure (length (next_batch s.db))) s
          done in
      let batch = next_batch s.db in
      let s' = (deliver fails now batch s).1 in
      subst
        (λ (x : Result ℕ × Worker).
          (n ≡ length batch)
          × (x.1.sent ≡ s.sent ++ messages_of batch)
          × All (λ (q : OutboxEvent). unmarked q.id (events_in x.1) ≡ []) batch)
        (sym rest)
        (count_inj (sym done ∙ ap (λ x. x.0) rest), deliver-sent batch s e, deliver-marks batch s e)

  pub committed :
      (n : ℕ) (s : Worker)
      → (process_batch fails now s).0 ≡ ok n
      → ((deliver_next fails now s).0 ≡ ok n)
        × ((process_batch fails now s).1 ≡ (deliver_next fails now s).1)
  unfolding process_batch
  committed n s done = (ground arith, ground arith)

  -- The first fifty of what is due, in the order in which it was written.
  pub next_batch-oldest :
      (db : Db)
      → (due : List OutboxEvent) × Perm due
          (filterb (λ (e : OutboxEvent). not e.published) (sql.rows db.outbox_events))
        × AreOldestFirst due
        × (next_batch db ≡ take 50 due)
  unfolding next_batch
  next_batch-oldest db = (
    sql.order_by oldest_first (λ (e : OutboxEvent). not e.published) db.outbox_events,
    sql.order_by-rows oldest_first (λ (e : OutboxEvent). not e.published) db.outbox_events,
    oldest_of _ (
        sql.order_by-IsOrdered oldest_first (λ (e : OutboxEvent). not e.published) db.outbox_events
          oldest_first_total oldest_first_trans),
    refl,
  )

  -- A round that returns has taken the oldest fifty of the events that were not published, or all
  -- of them if they are fewer. It has sent for each of them, oldest first, the message to the
  -- channel of its ride and the notification, and nothing else, has left each of them marked as
  -- published, and gives their number.
  pub process_batch-delivers :
      (n : ℕ) (s : Worker)
      → (process_batch fails now s).0 ≡ ok n
      → let s' = (process_batch fails now s).1 in
        (due : List OutboxEvent) × Perm due
          (filterb (λ (e : OutboxEvent). not e.published) (sql.rows s.db.outbox_events))
        × AreOldestFirst due
        × (n ≡ length (take 50 due))
        × (n ≤ 50)
        × (s'.sent ≡ s.sent ++ messages_of (take 50 due))
        × All (λ (e : OutboxEvent). unmarked e.id (sql.rows s'.db.outbox_events) ≡ []) (take 50 due)
  process_batch-delivers n s done =
      let (went, same) = committed n s done in
      let (due, listed, ordered, batch) = next_batch-oldest s.db in
      let there =
        subst (λ (x : Worker). Delivered n s (next_batch s.db) x) (sym same)
          (deliver_next-done n s went) in
      let (count, sent, marked) =
        subst (λ es. Delivered n s es (process_batch fails now s).1) batch there in
      let small = length-take 50 due in (due, listed, ordered, count, omega arith, sent, marked)

  -- A round that fails, at whichever message or at the commit, leaves the database as it was, so
  -- that every event of the batch is due again, whatever was sent of it.
  pub process_batch-failed :
      {e : Exn} (s : Worker)
      → (process_batch fails now s).0 ≡ err e
      → ((process_batch fails now s).1.db ≡ s.db)
        × (next_batch (process_batch fails now s).1.db ≡ next_batch s.db)
  unfolding process_batch
  process_batch-failed s failed =
      let same : (process_batch fails now s).1.db ≡ s.db = ground arith in
      (same, ap next_batch same)
