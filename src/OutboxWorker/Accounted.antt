-- ===== src/OutboxWorker/Accounted.antt =====
-- What the loop of the worker has marked, it has sent.
use mathlib.Core.List.Perm
use mathlib.Core.List.{Mem}
use ride_flow.Prelude.{
  All-map, Mem-All, take-Mem, filterb-Mem, mem-left, mem-last, ℕ, true, ◌++◌, nat_eqb, nat_eqb_iff,
  List, [], ◌∷◌, Option, none, some, All, length, map_where, IsKeyed, ◌≡◌, refl, sym, ap, ◌∙◌,
  subst, arith, inl, inr, Bool-cases, IsKeyed-update,
}
use ride_flow.Models.{DateTime, OutboxEvent}
use ride_flow.Sql.{Sql}
use ride_flow.Database.{Result, Exn, ok, err, Result-cases, pure, ◌>>◌}
use ride_flow.Database.Sessions.{bind-ok, Keeps, Keeps-bind}
use ride_flow.OutboxWorker.{
  Message, oldest_first, batch_size, event_of, notification_of, Worker, mark_published, send,
  set_published, deliver, next_batch, deliver_next, process_batch,
}
use ride_flow.OutboxWorker.Delivery.{delivered, deliver-step, committed, process_batch-failed}
use ride_flow.OutboxWorker.Due.{is_due}
use ride_flow.OutboxWorker.Forever.{Round, run_rounds}
use ride_flow.OutboxWorker.Rows.{StandsFor, stands}

-- A published event has been sent.
abbrev pub Sent : List Message → OutboxEvent → Type 0
Sent sent x = x.published ≡ true → Mem (event_of x) sent × Mem (notification_of x) sent

-- More has been sent.
abbrev pub More : List Message → List Message → Type 0
More old new = (m : Message) → Mem m old → Mem m new

-- The two messages of an event, after those that were sent before.
abbrev sent_both : List Message → OutboxEvent → List Message
sent_both old e = (old ++ (event_of e ∷ [])) ++ (notification_of e ∷ [])

both-More : (old : List Message) (e : OutboxEvent) → More old (sent_both old e)
both-More old e m h =
    mem-left (old ++ (event_of e ∷ [])) (notification_of e ∷ []) (mem-left old (event_of e ∷ []) h)

Sent-More : (old new : List Message) → More old new → (x : OutboxEvent) → Sent old x → Sent new x
Sent-More old new more x sent p =
    (more (event_of x) (sent p).0, more (notification_of x) (sent p).1)

mark-Sent :
    (now : DateTime) (e : OutboxEvent) (old : List Message) (xs : List OutboxEvent)
    → All (StandsFor e) xs
    → All (Sent old) xs
    → All
        (Sent (sent_both old e))
        (map_where (λ (x : OutboxEvent). nat_eqb x.id e.id) (mark_published now) xs)
mark-Sent now e old [] stand sent = tt
mark-Sent now e old (x ∷ xs) stand sent = elim (Bool-cases (nat_eqb x.id e.id)) [
  | inl hit ↦
      let (event, note) = stand.0 ((nat_eqb_iff x.id e.id).0 hit) in
      rw hit (
        λ p. (
          subst (λ m. Mem m (sent_both old e)) (sym event)
              (mem-left (old ++ (event_of e ∷ [])) (notification_of e ∷ []) (mem-last old)),
          subst (λ m. Mem m (sent_both old e)) (sym note) (mem-last (old ++ (event_of e ∷ []))),
        ),
        mark-Sent now e old xs stand.1 sent.1,
      )
  | inr miss ↦ rw miss (
    Sent-More old (sent_both old e) (both-More old e) x sent.0,
    mark-Sent now e old xs stand.1 sent.1,
  )
]

mark-StandsFor :
    (now : DateTime) (e d : OutboxEvent) (xs : List OutboxEvent)
    → All (StandsFor e) xs
    → All (StandsFor e) (map_where (λ (x : OutboxEvent). nat_eqb x.id d.id) (mark_published now) xs)
mark-StandsFor now e d [] h = tt
mark-StandsFor now e d (x ∷ xs) h = elim (Bool-cases (nat_eqb x.id d.id)) [
  | inl hit ↦ rw hit (h.0, mark-StandsFor now e d xs h.1)
  | inr miss ↦ rw miss (h.0, mark-StandsFor now e d xs h.1)
]

module _ ⦃sql : Sql⦄ where
  -- `id` is the key of the events, and those that are published have been sent.
  pub record Accounted (s : Worker) : Type 0 where
    pub keyed : IsKeyed (λ (e : OutboxEvent). e.id) (sql.rows s.db.outbox_events)
    pub sent_all : All (Sent s.sent) (sql.rows s.db.outbox_events)

  module _ (fails : Message → Option Exn) (now : DateTime) where
    delivered-Accounted :
        (e : OutboxEvent) (s : Worker)
        → All (StandsFor e) (sql.rows s.db.outbox_events)
        → Accounted s
        → Accounted (delivered fails now e s)
    unfolding set_published
    delivered-Accounted e s stand a = record {
      keyed =
          rw sql.rows-update (IsKeyed-update (λ (x : OutboxEvent). x.id) _ _ (λ x. refl) _ a.keyed);
      sent_all = rw sql.rows-update (mark-Sent now e s.sent _ stand a.sent_all);
    }

    delivered-StandsFor :
        (e d : OutboxEvent) (s : Worker)
        → All (StandsFor e) (sql.rows s.db.outbox_events)
        → All (StandsFor e) (sql.rows (delivered fails now d s).db.outbox_events)
    unfolding set_published
    delivered-StandsFor e d s stand = rw sql.rows-update (mark-StandsFor now e d _ stand)

    deliver-Accounted :
        (es : List OutboxEvent) (s : Worker)
        → (deliver fails now es s).0 ≡ ok tt
        → All (λ e. All (StandsFor e) (sql.rows s.db.outbox_events)) es
        → Accounted s
        → Accounted (deliver fails now es s).1
    unfolding deliver
    deliver-Accounted [] s done stand a = a
    deliver-Accounted (e ∷ es) s done stand a =
        let next = deliver-step fails now e es s done in
        subst (λ (x : Result (Unit {0}) × Worker). Accounted x.1) (sym next)
          (deliver-Accounted es (delivered fails now e s) (ap (λ x. x.0) (sym next) ∙ done)
            (All-map (λ d. delivered-StandsFor d e s) es stand.1)
            (delivered-Accounted e s stand.0 a))

    send-Keeps : (k m : Message) → Keeps (λ (s : Worker). Mem k s.sent) (send fails m)
    unfolding send
    send-Keeps k m s h =
        elim (fails m)
          as (λ o.
            Mem k
              (let out : Result (Unit {0}) × Worker = elim o [
                | none ↦ (ok tt, record s { sent = s.sent ++ (m ∷ []) })
                | some e ↦ (err e, s)
              ] in
                out).1.sent) [ none ↦ mem-left s.sent (m ∷ []) h | some e ↦ h ]

    -- What was sent stays sent, also when the loop over the batch is broken off.
    deliver-Keeps :
        (k : Message) (es : List OutboxEvent)
        → Keeps (λ (s : Worker). Mem k s.sent) (deliver fails now es)
    unfolding deliver set_published
    deliver-Keeps k [] s h = h
    deliver-Keeps k (e ∷ es) s h =
        let P : Worker → Type 0 = λ s. Mem k s.sent in
        let rest = deliver fails now es in
        let marking = set_published now e >> rest in
        let second = send fails (notification_of e) >> marking in
        let marking_keeps : Keeps P marking =
          Keeps-bind P (set_published now e) (λ _. rest) (λ q p. p) (λ _. deliver-Keeps k es) in
        let second_keeps : Keeps P second =
          Keeps-bind P (send fails (notification_of e)) (λ _. marking)
            (send-Keeps k (notification_of e)) (λ _. marking_keeps) in
        Keeps-bind P (send fails (event_of e)) (λ _. second) (send-Keeps k (event_of e))
          (λ _. second_keeps) s h

    round-More : (s : Worker) → More s.sent (process_batch fails now s).1.sent
    unfolding process_batch deliver_next
    round-More s k h =
        let kept = deliver-Keeps k (next_batch s.db) s h in
        let same : (process_batch fails now s).1.sent
            ≡ (deliver fails now (next_batch s.db) s).1.sent =
          ground arith in
        subst (Mem k) (sym same) kept

    next_batch-StandsFor :
        (s : Worker)
        → Accounted s
        → All (λ e. All (StandsFor e) (sql.rows s.db.outbox_events)) (next_batch s.db)
    unfolding next_batch
    next_batch-StandsFor s a =
        let rows = sql.rows s.db.outbox_events in
        Mem-All (next_batch s.db) (λ e m. stands rows e a.keyed (
          filterb-Mem is_due rows e (
            (Perm.mem_iff (sql.order_by-rows oldest_first is_due s.db.outbox_events)).0
              (take-Mem batch_size _ e m))))

    failed-Accounted :
        {x : Exn} (s : Worker)
        → (process_batch fails now s).0 ≡ err x
        → Accounted s
        → Accounted (process_batch fails now s).1
    failed-Accounted s failed a =
        let (same, _) = process_batch-failed fails now s failed in
        let s' = (process_batch fails now s).1 in
        record {
          keyed = rw same a.keyed;
          sent_all = rw same (All-map (Sent-More s.sent s'.sent (round-More s)) _ a.sent_all);
        }

    done-Accounted :
        (n : ℕ) (s : Worker)
        → (process_batch fails now s).0 ≡ ok n
        → Accounted s
        → Accounted (process_batch fails now s).1
    unfolding deliver_next
    done-Accounted n s done a =
        let (went, same) = committed fails now n s done in
        let batch = next_batch s.db in
        let (u, e, rest) = bind-ok (deliver fails now batch) (λ _. pure (length batch)) s went in
        subst Accounted (sym (same ∙ ap (λ x. x.1) rest))
          (deliver-Accounted batch s e (next_batch-StandsFor s a) a)

    pub process_batch-Accounted :
        (s : Worker) → Accounted s → Accounted (process_batch fails now s).1
    process_batch-Accounted s a = elim (Result-cases (process_batch fails now s).0) [
      | inl (n, done) ↦ done-Accounted n s done a
      | inr (x, failed) ↦ failed-Accounted s failed a
    ]

  -- Whatever the rounds of the worker meet, and wherever they fail: if `id` is the key of the events
  -- and each published event has been sent, to the channel of its ride and as a notification, this
  -- is so after the rounds. No event is marked without having been sent.
  pub run_rounds-Accounted :
      (rounds : List Round) (s : Worker) → Accounted s → Accounted (run_rounds rounds s).1
  unfolding run_rounds
  run_rounds-Accounted [] s a = a
  run_rounds-Accounted (r ∷ rounds) s a =
      run_rounds-Accounted rounds (process_batch r.fails r.now s).1
        (process_batch-Accounted r.fails r.now s a)
