-- ===== src/Tests/Sockets.antt =====
-- A client who follows ride 12 of the test data, and one whose forwarding fails.
use ride_flow.Prelude.{
  take, Perm, not, String, none, some, List, [], ◌∷◌, ◌++◌, map, filterb, ◌≡◌, refl,
}
use ride_flow.Security.{Claims, decode_token}
use ride_flow.OutboxWorker.{Message, event_message, notification, event_of, process_batch}
use ride_flow.Models.{OutboxEvent}
use ride_flow.OutboxWorker.Delivery.{AreOldestFirst}
use ride_flow.Websocket.{
  ride_channel, Frame, from_channel, forward_error, from_client, disconnect, accept, subscribe,
  send_text, returned, cancel_forward, unsubscribe, close_pubsub, ride_updates,
}
use ride_flow.Websocket.Connection.{connection, ride_updates-connection}
use ride_flow.Websocket.Deliveries.{PubSub, is_on, events_about, ride_updates-process_batch}
use ride_flow.Tests.Tables.{list_sql}
use ride_flow.Tests.Tokens.{open_jose}
use ride_flow.Tests.Deliveries.{due, works, both}

-- A text that tells the two kinds of message apart.
abbrev name_of : Message → String
name_of (event_message i t p c) = "event"
name_of (notification i t p) = "notification"

instance abbrev plain_pubsub : PubSub
plain_pubsub = record {
  dumps = name_of;
  listen = λ channel published.
      from_channel "subscribe" "1"
      ∷ map (λ m. from_channel "message" (name_of m)) (filterb (is_on channel) published);
  listen-published = λ channel published. refl;
}

abbrev token : Claims
token = record { sub = some 1; role = none; token_type = some "access"; exp = 100 }

opens : decode_token 50 token ≡ some token
unfolding decode_token
opens = refl

abbrev frames : List Frame
frames =
    from_channel "message" "first"
    ∷ forward_error
    ∷ from_channel "message" "second"
    ∷ from_client "ping"
    ∷ disconnect
    ∷ []

ride_updates-connection_example :
    ride_updates 50 12 token frames ≡ connection 12 (decode_token 50 token) frames
ride_updates-connection_example = ride_updates-connection 50 12 token frames

ride_updates-process_batch_example :
    (queue : List OutboxEvent) × Perm queue
      (filterb (λ (e : OutboxEvent). not e.published) due.db.outbox_events)
    × AreOldestFirst queue
    × (new : List Message) × ((process_batch works 40 due).1.sent ≡ due.sent ++ new)
    × (ride_updates 50 12 token (plain_pubsub.listen (ride_channel 12) new ++ (disconnect ∷ [])) ≡ (
      accept
          ∷ subscribe (ride_channel 12)
          ∷ (map (λ e. send_text (name_of (event_of e))) (events_about 12 (take 50 queue))
              ++ (cancel_forward ∷ unsubscribe (ride_channel 12) ∷ close_pubsub ∷ [])),
      returned,
    ))
ride_updates-process_batch_example =
    ride_updates-process_batch works 40 50 2 due 12 token token both opens
