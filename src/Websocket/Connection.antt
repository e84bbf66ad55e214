-- ===== src/Websocket/Connection.antt =====
-- What a connection sends, and that it leaves no subscription behind.
use ride_flow.Prelude.{
  ◌==◌, string_eq, if◌then◌else◌, List, [], ◌∷◌, ◌++◌, Option, none, some, String, map, ◌≡◌, refl,
  ap, arith, true, false,
}
use ride_flow.Models.{Uuid, DateTime}
use ride_flow.Security.{Jose, Claims, decode_token}
use ride_flow.Websocket.{
  Channel, ride_channel, Frame, from_channel, forward_error, from_client, disconnect, receive_error,
  Call, close_socket, accept, subscribe, unsubscribe, cancel_forward, close_pubsub, send_text,
  Ending, still_open, returned, raised, serve_frames, open_connection, ride_updates,
}

-- How it ends.
abbrev pub ending_of : List Frame → Ending
ending_of [] = still_open
ending_of (from_channel type body ∷ frames) = ending_of frames
ending_of (forward_error ∷ frames) = ending_of frames
ending_of (from_client text ∷ frames) = ending_of frames
ending_of (disconnect ∷ frames) = returned
ending_of (receive_error ∷ frames) = raised

-- The messages of the channel until the connection ends or the forwarding fails.
abbrev pub heard : List Frame → List String
heard [] = []
heard (from_channel type body ∷ frames) =
    if type == "message" then body ∷ heard frames else heard frames
heard (forward_error ∷ frames) = []
heard (from_client text ∷ frames) = heard frames
heard (disconnect ∷ frames) = []
heard (receive_error ∷ frames) = []

abbrev pub closing : Channel → Ending → List Call
closing channel still_open = []
closing channel returned = cancel_forward ∷ unsubscribe channel ∷ close_pubsub ∷ []
closing channel raised = cancel_forward ∷ unsubscribe channel ∷ close_pubsub ∷ []

silent :
    (c : Channel) (frames : List Frame)
    → serve_frames c false frames ≡ (closing c (ending_of frames), ending_of frames)
unfolding serve_frames
silent c [] = refl
silent c (from_channel type body ∷ frames) = silent c frames
silent c (forward_error ∷ frames) = silent c frames
silent c (from_client text ∷ frames) = silent c frames
silent c (disconnect ∷ frames) = refl
silent c (receive_error ∷ frames) = refl

serve_frames-heard :
    (c : Channel) (frames : List Frame)
    → serve_frames c true frames
      ≡ (map send_text (heard frames) ++ closing c (ending_of frames), ending_of frames)
unfolding serve_frames
serve_frames-heard c [] = refl
serve_frames-heard c (from_channel type body ∷ frames) =
    let rest = serve_frames-heard c frames in ground arith
serve_frames-heard c (forward_error ∷ frames) = silent c frames
serve_frames-heard c (from_client text ∷ frames) = serve_frames-heard c frames
serve_frames-heard c (disconnect ∷ frames) = refl
serve_frames-heard c (receive_error ∷ frames) = refl

module _ ⦃jose : Jose⦄ where
  -- What a connection does for its token and what it meets.
  abbrev pub connection : Uuid → Option Claims → List Frame → List Call × Ending
  connection ride_id none frames = (close_socket 4401 ∷ [], returned)
  connection ride_id (some claims) frames = (
    accept
        ∷ subscribe (ride_channel ride_id)
        ∷ (map send_text (heard frames) ++ closing (ride_channel ride_id) (ending_of frames)),
    ending_of frames,
  )

  opened :
      (ride_id : Uuid) (claims : Option Claims) (frames : List Frame)
      → open_connection ride_id claims frames ≡ connection ride_id claims frames
  unfolding open_connection
  opened ride_id none frames = refl
  opened ride_id (some claims) frames =
      ap (λ (x : List Call × Ending). (accept ∷ subscribe (ride_channel ride_id) ∷ x.0, x.1))
        (serve_frames-heard (ride_channel ride_id) frames)

  -- A connection whose token is not decoded is closed with 4401 and nothing else happens. Any other
  -- is accepted and subscribes to the channel of its ride; it sends the messages of the channel,
  -- in order and nothing else, until it ends or the forwarding fails; and if it ends, whichever way
  -- and even if the forwarding had failed, it stops the forwarding, gives up the
  -- subscription and closes it.
  pub ride_updates-connection :
      (now : DateTime) (ride_id : Uuid) (token : jose.Token) (frames : List Frame)
      → ride_updates now ride_id token frames ≡ connection ride_id (decode_token now token) frames
  unfolding ride_updates
  ride_updates-connection now ride_id token frames = opened ride_id (decode_token now token) frames
