-- ===== src/Tests/Deliveries.antt =====
-- The theorems on the outbox worker, on the test data.
use ride_flow.Prelude.{
  List, take, Perm, filterb, not, ◌≤◌, [], ◌∷◌, Option, none, some, All, length, ◌≡◌, refl,
}
use ride_flow.Models.{OutboxEvent, requested, matching}
use ride_flow.Database.{Exn, ok, err, http_exception, constraints}
use ride_flow.StateMachine.{status_changed}
use ride_flow.OutboxWorker.{
  Message, event_message, notification, Worker, send, set_published, deliver, next_batch,
  deliver_next, process_batch,
}
use ride_flow.OutboxWorker.Batch.{messages_of, unmarked}
use ride_flow.OutboxWorker.Delivery.{AreOldestFirst, process_batch-delivers}
use ride_flow.Tests.Tables.{list_sql}
use ride_flow.Tests.Data.{db, new_one, taken}

-- Two events are due, the later one first in the table.
abbrev pub due : Worker
due = record {
  db = record db {
    outbox_events =
        status_changed 30 70 taken requested matching
        ∷ status_changed 20 71 new_one requested matching
        ∷ [];
  };
  sent = [];
}

abbrev pub works : Message → Option Exn
works m = none

-- The queue of notifications is down.
abbrev pub queue_down : Message → Option Exn
queue_down (event_message i t p c) = none
queue_down (notification i t p) = some (http_exception 500)

pub both : (process_batch works 40 due).0 ≡ ok 2
unfolding process_batch deliver_next deliver send set_published next_batch constraints
both = refl

process_batch-delivers_example :
    let s' = (process_batch works 40 due).1 in
    (queue : List OutboxEvent) × Perm queue
      (filterb (λ (e : OutboxEvent). not e.published) due.db.outbox_events)
    × AreOldestFirst queue
    × (2 ≡ length (take 50 queue))
    × (2 ≤ 50)
    × (s'.sent ≡ messages_of (take 50 queue))
    × All (λ (e : OutboxEvent). unmarked e.id s'.db.outbox_events ≡ []) (take 50 queue)
process_batch-delivers_example = process_batch-delivers works 40 2 due both

fails_once : (process_batch queue_down 40 due).0 ≡ err (http_exception 500)
unfolding process_batch deliver_next deliver send set_published next_batch
fails_once = refl
