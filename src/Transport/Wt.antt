-- ===== src/Transport/Wt.antt =====
-- crates/cherenkov-transport-wt/src/lib.rs: WebTransport, with frames that follow their length. The
-- loop takes what its `select!` yields as a list of events; the streams of `wtransport` and the task
-- that writes to one are not modelled.
pub mod Framing
use cherenkov.Prelude.{
  ℕ, Bool, true, false, Result, ok, err, none, some, List, [], ◌∷◌, if◌then◌else◌,
}
use cherenkov.Protocol.{Bytes, ClientFrame, ServerFrame, ErrorCode, code_number, DecodeError}
use cherenkov.Protocol.Codec.{Prost, decode_client}
use cherenkov.Core.Types.{HubError}
use cherenkov.Core.Session.{SessionId, get_session}
use cherenkov.Core.Traits.{Platform}
use cherenkov.Core.Hub.{Hub}
use cherenkov.Core.Hub.World.{World}
use cherenkov.Core.Hub.Handlers.{
  open_session, handle_connect, handle_subscribe, handle_unsubscribe, handle_publish, close_session,
}
use cherenkov.Transport.{Display}

-- What `select!` yields: the session was kicked, a read failed or gave too long a length, or there
-- is a whole frame in the buffer.
pub data Event : Type 0 where
  kicked read_failed : Event
  whole_frame : Bytes → Event

-- The `match` in `deliver_error`
unfoldable pub code_for : HubError → ErrorCode
code_for (HubError.schema x) = ErrorCode.validation_failed
code_for (HubError.auth x) = ErrorCode.invalid_token
code_for (HubError.acl x) = ErrorCode.acl_denied
code_for (HubError.not_connected x) = ErrorCode.not_connected
code_for _ = ErrorCode.internal

module _ {P : Platform} where
  unfoldable pub deliver : SessionId → ServerFrame → World P → World P
  deliver id frame w = elim (get_session id w.registry) [
    | none ↦ w
    | some session ↦ elim (P.mpsc.send (w.store session).outbox frame w.mpsc) [
      | none ↦ w
      | some mpsc ↦ record w { mpsc = mpsc }
    ]
  ]

module _ {P : Platform} {E : Type 0} (display : Display E) where
  unfoldable pub deliver_error : SessionId → ℕ → HubError → World P → World P
  unfolding deliver code_for
  deliver_error id request_id e w =
      deliver id
        (ServerFrame.error (record {
          request_id = request_id;
          code = code_number (code_for e);
          message = display.hub_error e;
        }))
        w

module _ {P : Platform} {E : Type 0} (display : Display E) (hub : Hub P) where
  unfoldable pub dispatch : ClientFrame → SessionId → World P → World P
  dispatch (ClientFrame.connect c) id w =
      let (r, w') = handle_connect hub id c.request_id c.token w in
      elim r [
        | ok a ↦ deliver id (ServerFrame.connect_ok a) w'
        | err e ↦ deliver_error display id c.request_id e w'
      ]
  dispatch (ClientFrame.subscribe s) id w =
      let (r, w') = handle_subscribe hub id s.request_id s.channel s.since_offset w in
      elim r [
        | ok a ↦ deliver id (ServerFrame.subscribe_ok a) w'
        | err e ↦ deliver_error display id s.request_id e w'
      ]
  dispatch (ClientFrame.unsubscribe u) id w =
      let (r, w') = handle_unsubscribe hub id u.request_id u.channel w in
      elim r [
        | ok a ↦ deliver id (ServerFrame.unsubscribe_ok a) w'
        | err e ↦ deliver_error display id u.request_id e w'
      ]
  dispatch (ClientFrame.publish p) id w =
      let (r, w') = handle_publish hub id p.channel p.payload w in
      elim r [ ok publication ↦ w' | err e ↦ deliver_error display id p.request_id e w' ]

module _ {P : Platform} {E : Type 0} (prost : Prost E) (display : Display E) (hub : Hub P) where
  -- The loop of `handle_incoming`. Where the list ends the connection still waits.
  unfoldable pub serve : List Event → SessionId → World P → Bool × World P
  serve [] id w = (true, w)
  serve (Event.kicked ∷ events) id w = (false, w)
  serve (Event.read_failed ∷ events) id w = (false, w)
  serve (Event.whole_frame bytes ∷ events) id w = elim (decode_client prost bytes) [
    | ok f ↦ serve events id (dispatch display hub f id w)
    | err e ↦ (
      false,
      deliver id
          (ServerFrame.error (record {
            request_id = 0;
            code = code_number ErrorCode.invalid_frame;
            message = display.invalid_frame e;
          }))
          w,
    )
  ]

  -- `handle_incoming` once the streams are there
  unfoldable pub handle_incoming : P.mpsc.Sender → List Event → World P → World P
  unfolding serve
  handle_incoming tx events w =
      let (opened, w') = open_session hub tx w in
      let (waits, w'') = serve events opened.0 w' in
      if waits then w'' else close_session opened.0 w''
