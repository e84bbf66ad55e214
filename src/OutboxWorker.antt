-- ===== src/OutboxWorker.antt =====
-- backend/app/workers/outbox_worker.py: one round of the worker that delivers the outbox. What was
-- sent to Redis and to the queue of notifications stays sent when the session rolls back.
pub mod Batch
pub mod Delivery
pub mod Forever
pub mod Due
pub mod Drained
pub mod Rows
pub mod Accounted
use ride_flow.Prelude.{
  ℕ, Bool, true, false, not, ◌++◌, nat_eqb, leb, if◌then◌else◌, List, [], ◌∷◌, Option, none, some,
  String, take, length,
}
use ride_flow.Models.{Uuid, DateTime, OutboxEvent, StatusChanged}
use ride_flow.Sql.{Sql}
use ride_flow.Database.{
  Db, Action, Result, Exn, ok, err, http_exception, integrity_error, constraints, ◌>>=◌, ◌>>◌, pure,
  modify,
}

-- A message on the channel `ride:{aggregate_id}:events`, with the parts of its JSON body, and a
-- notification for the queue.
pub data Message : Type 0 where
  event_message :
      (aggregate_id : Uuid) (event_type : String) (payload : StatusChanged) (created_at : DateTime)
      → Message
  notification : (ride_id : Uuid) (event_type : String) (payload : StatusChanged) → Message

abbrev pub event_of : OutboxEvent → Message
event_of e = event_message e.aggregate_id e.event_type e.payload e.created_at

abbrev pub notification_of : OutboxEvent → Message
notification_of e = notification e.aggregate_id e.event_type e.payload

abbrev pub batch_size : ℕ
batch_size = 50

abbrev pub oldest_first : OutboxEvent → OutboxEvent → Bool
oldest_first a b = leb a.created_at b.created_at

abbrev pub mark_published : DateTime → OutboxEvent → OutboxEvent
mark_published now e = record e { published = true; published_at = some now }

module _ ⦃sql : Sql⦄ where
  pub record Worker : Type 0 where
    pub db : Db
    pub sent : List Message

  -- `redis.publish` and `send_ride_notification.delay`, either of which may raise.
  unfoldable pub send : (Message → Option Exn) → Message → Action Worker (Unit {0})
  send fails message s = elim (fails message) [
    | none ↦ (ok tt, record s { sent = s.sent ++ (message ∷ []) })
    | some e ↦ (err e, s)
  ]

  unfoldable pub set_published : DateTime → OutboxEvent → Action Worker (Unit {0})
  set_published now event = modify λ s. record s {
    db = record s.db {
      outbox_events =
          (sql.update (λ (e : OutboxEvent). nat_eqb e.id event.id) (mark_published now)
            s.db.outbox_events).1;
    };
  }

  -- The loop over the batch.
  unfoldable pub deliver :
      (Message → Option Exn) → DateTime → List OutboxEvent → Action Worker (Unit {0})
  deliver fails now [] = pure tt
  deliver fails now (event ∷ rest) = do
    send fails (event_of event)
    send fails (notification_of event)
    set_published now event
    deliver fails now rest

  -- `ORDER BY created_at LIMIT 50` of the unpublished events.
  unfoldable pub next_batch : Db → List OutboxEvent
  next_batch db =
      take batch_size
        (sql.order_by oldest_first (λ (e : OutboxEvent). not e.published) db.outbox_events)

  unfoldable pub deliver_next : (Message → Option Exn) → DateTime → Action Worker ℕ
  deliver_next fails now s =
      (deliver fails now (next_batch s.db) >> pure (length (next_batch s.db))) s

  -- `process_batch`: the loop in `session_scope`.
  unfoldable pub process_batch : (Message → Option Exn) → DateTime → Action Worker ℕ
  process_batch fails now s =
      let (result, s') = deliver_next fails now s in
      elim result [
        | ok n ↦
            if constraints s'.db then (ok n, s') else (err integrity_error, record s' { db = s.db })
        | err e ↦ (err e, record s' { db = s.db })
      ]
