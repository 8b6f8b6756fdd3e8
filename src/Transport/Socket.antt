-- ===== src/Transport/Socket.antt =====
-- A whole connection of crates/cherenkov-transport-ws/src/lib.rs: `handle_socket` from the opening of
-- the session to its end.
use cherenkov.Prelude.{
  ℕ, suc, ◌^◌, ◌<◌, ◌≡◌, Bool, false, none, Result, ok, err, inl, inr, Result-cases, Option-cases,
  List, [], ◌∷◌, String, Bool-cases, nat_eq, string_eq,
}
use cherenkov.Protocol.{ClientFrame, ServerFrame}
use cherenkov.Protocol.Codec.{Prost, decode_client}
use cherenkov.Core.Types.{HubError}
use cherenkov.Core.Session.{SessionId, get_session}
use cherenkov.Core.Session.Index.{listed}
use cherenkov.Core.Traits.{Platform}
use cherenkov.Core.Hub.{Hub}
use cherenkov.Core.Hub.World.{World}
use cherenkov.Core.Hub.Closing.{close_session-IsClosed}
use cherenkov.Core.Hub.Handlers.{open_session}
use cherenkov.Core.Hub.Invariant.{IsConsistent}
use cherenkov.Core.Hub.Preserves.{
  IsConsistent-open_session, Keeps-handle_connect, Keeps-handle_subscribe, Keeps-handle_unsubscribe,
  Keeps-handle_publish,
}
use cherenkov.Transport.{Display}
use cherenkov.Transport.Ws.{
  Message, Event, deliver, error_frame, handle_frame, invalid_frame, dispatch, serve, handle_socket,
}

module _ {P : Platform} where
  IsConsistent-deliver :
      (id : SessionId) (frame : ServerFrame) (w : World P)
      → IsConsistent w
      → IsConsistent (deliver id frame w)
  unfolding deliver
  IsConsistent-deliver id frame w h = elim (Option-cases (get_session id w.registry)) [
    | inl e ↦ rw (e, deliver) h
    | inr (r, e) ↦ elim (Option-cases (P.mpsc.send (w.store r).outbox frame w.mpsc)) [
      | inl k ↦ rw (e, deliver) (rw k h)
      | inr (m, k) ↦ rw (e, deliver) (rw k h)
    ]
  ]

module _ {P : Platform} {E : Type 0} (display : Display E) (hub : Hub P) where
  IsConsistent-refused :
      {A : Type 0} (id : SessionId) (request_id : ℕ) (r : Result HubError A) (w : World P)
      → IsConsistent w
      → IsConsistent (elim r as (λ r. World P) [
        | ok a ↦ w
        | err e ↦ deliver id (error_frame display request_id e) w
      ])
  IsConsistent-refused id request_id (ok a) w h = h
  IsConsistent-refused id request_id (err e) w h =
      IsConsistent-deliver id (error_frame display request_id e) w h

  IsConsistent-handle_frame :
      (f : ClientFrame) (id : SessionId) (w : World P)
      → IsConsistent w
      → IsConsistent (handle_frame display hub f id w)
  unfolding handle_frame
  IsConsistent-handle_frame (ClientFrame.subscribe s) id w h =
      IsConsistent-deliver id _ _
        ((Keeps-handle_subscribe hub id s.request_id s.channel s.since_offset).at w h)
  IsConsistent-handle_frame (ClientFrame.unsubscribe u) id w h =
      IsConsistent-deliver id _ _ ((Keeps-handle_unsubscribe hub id u.request_id u.channel).at w h)
  IsConsistent-handle_frame (ClientFrame.publish p) id w h =
      IsConsistent-refused id p.request_id _ _
        ((Keeps-handle_publish hub id p.channel p.payload).at w h)
  IsConsistent-handle_frame (ClientFrame.connect c) id w h =
      IsConsistent-deliver id _ _ ((Keeps-handle_connect hub id c.request_id c.token).at w h)

module _ {P : Platform} {E : Type 0} (prost : Prost E) (display : Display E) (hub : Hub P) where
  IsConsistent-dispatch :
      (m : Message) (id : SessionId) (w : World P)
      → IsConsistent w
      → IsConsistent (dispatch prost display hub m id w).1
  unfolding dispatch
  IsConsistent-dispatch (Message.binary bytes) id w h =
      elim (Result-cases (decode_client prost bytes)) [
        | inl (f, e) ↦ rw (e, dispatch) (IsConsistent-handle_frame display hub f id w h)
        | inr (x, e) ↦ rw (e, dispatch) (IsConsistent-deliver id (invalid_frame display x) w h)
      ]
  IsConsistent-dispatch Message.text id w h = h
  IsConsistent-dispatch Message.ping id w h = h
  IsConsistent-dispatch Message.pong id w h = h
  IsConsistent-dispatch Message.close id w h = h

  IsConsistent-serve :
      (events : List Event) (id : SessionId) (w : World P)
      → IsConsistent w
      → IsConsistent (serve prost display hub events id w).1
  unfolding serve
  IsConsistent-serve [] id w h = h
  IsConsistent-serve (Event.writer_ended ∷ events) id w h = h
  IsConsistent-serve (Event.kicked ∷ events) id w h = h
  IsConsistent-serve (Event.ended ∷ events) id w h = h
  IsConsistent-serve (Event.read_failed ∷ events) id w h = h
  IsConsistent-serve (Event.message m ∷ events) id w h =
      elim (Bool-cases (dispatch prost display hub m id w).0) [
        | inl stays ↦ rw stays (IsConsistent-serve events id _ (IsConsistent-dispatch m id w h))
        | inr leaves ↦ rw leaves (IsConsistent-dispatch m id w h)
      ]

  abbrev pub id_of : P.mpsc.Sender → World P → SessionId
  id_of tx w = (open_session hub tx w).0.0

  -- Whether the loop still waits after these events
  abbrev pub waits : P.mpsc.Sender → List Event → World P → Bool
  waits tx events w = (serve prost display hub events (id_of tx w) (open_session hub tx w).1).0

  IsConsistent-served :
      (tx : P.mpsc.Sender) (events : List Event) (w : World P)
      → suc w.registry.next_id < 2 ^ 64
      → IsConsistent w
      → IsConsistent (serve prost display hub events (id_of tx w) (open_session hub tx w).1).1
  IsConsistent-served tx events w room h =
      IsConsistent-serve events _ _ (IsConsistent-open_session hub tx w room h)

  -- Once the loop of a connection is left, whatever the client sent, the connection's session is not
  -- registered, no channel lists its id, and the registry's indices are consistent. They were
  -- consistent before the connection, and an id was left to allocate.
  pub handle_socket-closed :
      (tx : P.mpsc.Sender) (events : List Event) (w : World P)
      → suc w.registry.next_id < 2 ^ 64
      → IsConsistent w
      → waits tx events w ≡ false
      → (get_session (id_of tx w) (handle_socket prost display hub tx events w).registry ≡ none)
        × ((channel : String)
            → listed (id_of tx w) channel (handle_socket prost display hub tx events w).registry
              ≡ 0)
        × IsConsistent (handle_socket prost display hub tx events w)
  unfolding handle_socket
  handle_socket-closed tx events w room h left =
      rw left (close_session-IsClosed (id_of tx w) _ (IsConsistent-served tx events w room h))
