-- ===== src/Transport/Ws.antt =====
-- crates/cherenkov-transport-ws/src/lib.rs. The loop takes what its `select!` yields as a list of
-- events; the sockets of `axum` and the task that writes to one are not modelled.
use cherenkov.Prelude.{
  ℕ, if◌then◌else◌, Bool, true, false, Result, ok, err, none, some, List, [], ◌∷◌,
}
use cherenkov.Protocol.{Bytes, ClientFrame, ServerFrame, ErrorCode, code_number, DecodeError}
use cherenkov.Protocol.Codec.{Prost, decode_client}
use cherenkov.Core.Types.{HubError}
use cherenkov.Core.Session.{SessionId, get_session}
use cherenkov.Core.Traits.{Platform}
use cherenkov.Core.Hub.{Hub}
use cherenkov.Core.Hub.World.{World}
use cherenkov.Core.Hub.Handlers.{
  open_session, handle_connect, handle_subscribe, handle_unsubscribe, handle_publish, close_session,
}
use cherenkov.Transport.{Display}

pub data Message : Type 0 where
  binary : Bytes → Message
  text ping pong close : Message

-- What `select!` yields: the writer ended, the session was kicked, the stream of messages ended or
-- failed, or there is a message.
pub data Event : Type 0 where
  writer_ended kicked ended read_failed : Event
  message : Message → Event

unfoldable pub error_code_for : HubError → ErrorCode
error_code_for (HubError.schema e) = ErrorCode.validation_failed
error_code_for (HubError.auth e) = ErrorCode.invalid_token
error_code_for (HubError.acl e) = ErrorCode.acl_denied
error_code_for (HubError.not_connected id) = ErrorCode.not_connected
error_code_for (HubError.session_gone id) = ErrorCode.internal
error_code_for (HubError.unknown_channel c) = ErrorCode.internal
error_code_for (HubError.already_subscribed id c) = ErrorCode.internal
error_code_for (HubError.not_subscribed id c) = ErrorCode.internal
error_code_for (HubError.channel e) = ErrorCode.internal
error_code_for (HubError.broker e) = ErrorCode.internal
error_code_for (HubError.already_connected id) = ErrorCode.internal

module _ {P : Platform} where
  -- A session that is gone, or whose outbox is closed, gets nothing.
  unfoldable pub deliver : SessionId → ServerFrame → World P → World P
  deliver id frame w = elim (get_session id w.registry) [
    | none ↦ w
    | some session ↦ elim (P.mpsc.send (w.store session).outbox frame w.mpsc) [
      | none ↦ w
      | some mpsc ↦ record w { mpsc = mpsc }
    ]
  ]

module _ {E : Type 0} (display : Display E) where
  unfoldable pub error_frame : ℕ → HubError → ServerFrame
  error_frame request_id e = ServerFrame.error (record {
    request_id = request_id;
    code = code_number (error_code_for e);
    message = display.hub_error e;
  })

  unfoldable pub invalid_frame : DecodeError E → ServerFrame
  invalid_frame e = ServerFrame.error (record {
    request_id = 0;
    code = code_number ErrorCode.invalid_frame;
    message = display.invalid_frame e;
  })

  -- The frame that answers a request, where `accepted` is the frame for a success.
  unfoldable pub reply : {A : Type 0} → (A → ServerFrame) → ℕ → Result HubError A → ServerFrame
  unfolding error_frame
  reply accepted request_id (ok a) = accepted a
  reply accepted request_id (err e) = error_frame request_id e

module _ {P : Platform} {E : Type 0} (display : Display E) (hub : Hub P) where
  -- A publication that succeeds has no reply.
  unfoldable pub handle_frame : ClientFrame → SessionId → World P → World P
  handle_frame (ClientFrame.subscribe s) id w =
      let (r, w') = handle_subscribe hub id s.request_id s.channel s.since_offset w in
      deliver id (reply display ServerFrame.subscribe_ok s.request_id r) w'
  handle_frame (ClientFrame.unsubscribe u) id w =
      let (r, w') = handle_unsubscribe hub id u.request_id u.channel w in
      deliver id (reply display ServerFrame.unsubscribe_ok u.request_id r) w'
  handle_frame (ClientFrame.publish p) id w =
      let (r, w') = handle_publish hub id p.channel p.payload w in
      elim r [ ok publication ↦ w' | err e ↦ deliver id (error_frame display p.request_id e) w' ]
  handle_frame (ClientFrame.connect c) id w =
      let (r, w') = handle_connect hub id c.request_id c.token w in
      deliver id (reply display ServerFrame.connect_ok c.request_id r) w'

module _ {P : Platform} {E : Type 0} (prost : Prost E) (display : Display E) (hub : Hub P) where
  -- Whether the socket stays open, and the world after the message
  unfoldable pub dispatch : Message → SessionId → World P → Bool × World P
  dispatch (Message.binary bytes) id w = elim (decode_client prost bytes) [
    | ok frame ↦ (true, handle_frame display hub frame id w)
    | err e ↦ (false, deliver id (invalid_frame display e) w)
  ]
  dispatch Message.text id w = (true, w)
  dispatch Message.ping id w = (true, w)
  dispatch Message.pong id w = (true, w)
  dispatch Message.close id w = (false, w)

  -- The loop of `handle_socket`. Where the list ends the connection still waits.
  unfoldable pub serve : List Event → SessionId → World P → Bool × World P
  unfolding dispatch
  serve [] id w = (true, w)
  serve (Event.writer_ended ∷ events) id w = (false, w)
  serve (Event.kicked ∷ events) id w = (false, w)
  serve (Event.ended ∷ events) id w = (false, w)
  serve (Event.read_failed ∷ events) id w = (false, w)
  serve (Event.message m ∷ events) id w =
      let (stays, w') = dispatch m id w in
      let rest = serve events id w' in if stays then rest else (false, w')

  -- `handle_socket`: open a session, serve it, close it once the loop is left.
  unfoldable pub handle_socket : P.mpsc.Sender → List Event → World P → World P
  unfolding serve
  handle_socket tx events w =
      let (opened, w') = open_session hub tx w in
      let (waits, w'') = serve events opened.0 w' in
      if waits then w'' else close_session opened.0 w''
