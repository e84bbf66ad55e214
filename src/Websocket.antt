-- ===== src/Websocket.antt =====
-- backend/app/routers/websocket.py: one connection, as the calls that it makes of the socket and of
-- the subscription, for what it meets on them.
pub mod Connection
pub mod Deliveries
use ride_flow.Prelude.{
  ℕ, Bool, true, false, ◌==◌, string_eq, if◌then◌else◌, List, [], ◌∷◌, ◌++◌, Option, none, some,
  String,
}
use ride_flow.Models.{Uuid, DateTime}
use ride_flow.Security.{Jose, Claims, decode_token}

-- The text `ride:{ride_id}:events`.
pub data Channel : Type 0 where
  ride_channel : (ride_id : Uuid) → Channel

-- What the two loops of a connection meet, in the order in which they do.
pub data Frame : Type 0 where
  -- `pubsub.listen()` gives a message
  from_channel : (type body : String) → Frame
  -- it raises, or `send_text` does, which ends the task that forwards
  forward_error : Frame
  -- `websocket.receive_text()` gives a text, raises WebSocketDisconnect, or raises anything else
  from_client : (text : String) → Frame
  disconnect receive_error : Frame

pub data Call : Type 0 where
  close_socket : (code : ℕ) → Call
  accept cancel_forward close_pubsub : Call
  subscribe unsubscribe : Channel → Call
  send_text : (body : String) → Call

pub data Ending : Type 0 where
  still_open returned raised : Ending

-- `forward_messages`, for one message.
abbrev pub forward : String → String → List Call
forward type body = if type == "message" then send_text body ∷ [] else []

-- `finally:`
abbrev pub clean_up : Channel → List Call
clean_up channel = cancel_forward ∷ unsubscribe channel ∷ close_pubsub ∷ []

-- The loop that receives, and the task that forwards as long as it runs.
unfoldable pub serve_frames : Channel → Bool → List Frame → List Call × Ending
serve_frames channel forwarding [] = ([], still_open)
serve_frames channel true (from_channel type body ∷ frames) =
    let (calls, ending) = serve_frames channel true frames in (forward type body ++ calls, ending)
serve_frames channel false (from_channel type body ∷ frames) = serve_frames channel false frames
serve_frames channel forwarding (forward_error ∷ frames) = serve_frames channel false frames
serve_frames channel forwarding (from_client text ∷ frames) = serve_frames channel forwarding frames
serve_frames channel forwarding (disconnect ∷ frames) = (clean_up channel, returned)
serve_frames channel forwarding (receive_error ∷ frames) = (clean_up channel, raised)

-- Behind the handshake.
unfoldable pub open_connection : Uuid → Option Claims → List Frame → List Call × Ending
open_connection ride_id none frames = (close_socket 4401 ∷ [], returned)
open_connection ride_id (some claims) frames =
    let (calls, ending) = serve_frames (ride_channel ride_id) true frames in
    (accept ∷ subscribe (ride_channel ride_id) ∷ calls, ending)

module _ ⦃jose : Jose⦄ where
  unfoldable pub ride_updates : DateTime → Uuid → jose.Token → List Frame → List Call × Ending
  ride_updates now ride_id token frames = open_connection ride_id (decode_token now token) frames
