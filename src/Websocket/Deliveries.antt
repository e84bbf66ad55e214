-- ===== src/Websocket/Deliveries.antt =====
-- From the outbox to the socket: what a client who follows a ride is sent by a round of the worker.
use ride_flow.Prelude.{
  take, Perm, not, ℕ, Bool, false, nat_eqb, List, [], ◌∷◌, ◌++◌, Option, some, String, map, filterb,
  ◌≡◌, refl, ap, ◌∙◌, arith,
}
use ride_flow.Models.{Uuid, DateTime, OutboxEvent}
use ride_flow.Sql.{Sql}
use ride_flow.Database.{Exn, ok}
use ride_flow.Security.{Jose, Claims, decode_token}
use ride_flow.OutboxWorker.{Message, event_message, notification, event_of, Worker, process_batch}
use ride_flow.OutboxWorker.Batch.{messages_of}
use ride_flow.OutboxWorker.Delivery.{AreOldestFirst, process_batch-delivers}
use ride_flow.Websocket.{
  Channel, ride_channel, Frame, from_channel, disconnect, accept, subscribe, send_text, returned,
  cancel_forward, unsubscribe, close_pubsub, ride_updates,
}
use ride_flow.Websocket.Connection.{heard, ending_of, closing, connection, ride_updates-connection}

-- The message is published on the channel. A notification goes to the queue.
abbrev pub is_on : Channel → Message → Bool
is_on (ride_channel ride_id) (event_message aggregate_id event_type payload created_at) =
    nat_eqb aggregate_id ride_id
is_on channel (notification ride_id event_type payload) = false

-- What the code relies on of `json.dumps` and of Redis: a subscription gives a message that
-- confirms it, and then each message that is published on its channel, in order.
pub record PubSub : Type 0 where
  pub dumps : Message → String
  pub listen : Channel → List Message → List Frame
  pub listen-published :
      (channel : Channel) (published : List Message)
      → listen channel published
        ≡ from_channel "subscribe" "1"
          ∷ map (λ m. from_channel "message" (dumps m)) (filterb (is_on channel) published)

module _ ⦃pubsub : PubSub⦄ where
  abbrev frames_of : List Message → List Frame
  frames_of = map (λ m. from_channel "message" (pubsub.dumps m))

  heard_all :
      (ms : List Message)
      → (heard (frames_of ms ++ (disconnect ∷ [])) ≡ map pubsub.dumps ms)
        × (ending_of (frames_of ms ++ (disconnect ∷ [])) ≡ returned)
  heard_all [] = (refl, refl)
  heard_all (m ∷ ms) = let rest = heard_all ms in (ap (λ l. pubsub.dumps m ∷ l) rest.0, rest.1)

  -- The ride's own events.
  abbrev pub events_about : Uuid → List OutboxEvent → List OutboxEvent
  events_about ride_id = filterb (λ (e : OutboxEvent). nat_eqb e.aggregate_id ride_id)

  on_channel :
      (ride_id : Uuid) (es : List OutboxEvent)
      → filterb (is_on (ride_channel ride_id)) (messages_of es)
        ≡ map event_of (events_about ride_id es)
  on_channel ride_id [] = refl
  on_channel ride_id (e ∷ es) = let rest = on_channel ride_id es in ground arith

  texts_of :
      (es : List OutboxEvent)
      → map send_text (map pubsub.dumps (map event_of es))
        ≡ map (λ e. send_text (pubsub.dumps (event_of e))) es
  texts_of [] = refl
  texts_of (e ∷ es) = ap (λ l. send_text (pubsub.dumps (event_of e)) ∷ l) (texts_of es)

  module _ ⦃sql : Sql⦄ ⦃jose : Jose⦄ where
    -- A client with a token that is decoded, who follows a ride while a round of the worker
    -- returns, and then leaves, is sent the JSON text of each event about the ride among the oldest
    -- fifty that were not published, oldest first, and nothing else; then the forwarding is
    -- stopped, and the subscription is given up and closed.
    pub ride_updates-process_batch :
        (fails : Message → Option Exn) (now later : DateTime) (n : ℕ) (s : Worker) (ride_id : Uuid)
        (token : jose.Token) (claims : Claims)
        → (process_batch fails now s).0 ≡ ok n
        → decode_token later token ≡ some claims
        → (due : List OutboxEvent) × Perm due
            (filterb (λ (e : OutboxEvent). not e.published) (sql.rows s.db.outbox_events))
          × AreOldestFirst due
          × (new : List Message) × ((process_batch fails now s).1.sent ≡ s.sent ++ new)
          × (ride_updates later ride_id token
                (pubsub.listen (ride_channel ride_id) new ++ (disconnect ∷ []))
              ≡ (
                accept
                    ∷ subscribe (ride_channel ride_id)
                    ∷ (map
                          (λ e. send_text (pubsub.dumps (event_of e)))
                          (events_about ride_id (take 50 due))
                        ++ (cancel_forward
                            ∷ unsubscribe (ride_channel ride_id)
                            ∷ close_pubsub
                            ∷ [])),
                returned,
              ))
    ride_updates-process_batch fails now later n s ride_id token claims done valid =
        let (due, listed, ordered, _, _, sent, _) = process_batch-delivers fails now n s done in
        let batch = take 50 due in
        let new = messages_of batch in
        let frames = pubsub.listen (ride_channel ride_id) new ++ (disconnect ∷ []) in
        let published =
          pubsub.listen-published (ride_channel ride_id) new
          ∙ ap (λ ms. from_channel "subscribe" "1" ∷ frames_of ms) (on_channel ride_id batch) in
        let (texts, at_end) = heard_all (map event_of (events_about ride_id batch)) in
        let served =
          ride_updates-connection later ride_id token frames
          ∙ ap (λ c. connection ride_id c frames) valid
          ∙ ap (λ fs. connection ride_id (some claims) (fs ++ (disconnect ∷ []))) published in
        let c = ride_channel ride_id in
        let ended : connection ride_id (some claims) (
              from_channel "subscribe" "1" ∷ frames_of (map event_of (events_about ride_id batch))
              ++ (disconnect ∷ []))
            ≡ (
              accept
                  ∷ subscribe c
                  ∷ (map send_text (map pubsub.dumps (map event_of (events_about ride_id batch)))
                      ++ closing c returned),
              returned,
            ) =
          λ i.
            (accept ∷ subscribe c ∷ (map send_text (texts i) ++ closing c (at_end i)), at_end i) in
        let shown =
          ap (λ calls. (accept ∷ subscribe c ∷ (calls ++ closing c returned), returned))
            (texts_of (events_about ride_id batch)) in
        (due, listed, ordered, new, sent, served ∙ ended ∙ shown)
