-- ===== src/Examples/Connections.antt =====
-- A WebSocket connection, and instances of the theorems on transports.
use cherenkov.Prelude.{
  some, ltb, if◌then◌else◌, String, ◌≡◌, refl, false, none, List, [], ◌∷◌, ◌++◌, arith, nat_eq,
  string_eq,
}
use cherenkov.Protocol.{ClientFrame}
use cherenkov.Core.Session.{get_session}
use cherenkov.Core.Session.Index.{listed}
use cherenkov.Core.Hub.Invariant.{IsConsistent}
use cherenkov.Core.Hub.Reach.{here, Reach-IsConsistent}
use cherenkov.Transport.{Display}
use cherenkov.Transport.Ws
use cherenkov.Transport.Wt
use cherenkov.Transport.Ws.{Message, Event, dispatch, serve, handle_socket}
use cherenkov.Transport.Replies.{dispatch-eq-handle_frame}
use cherenkov.Transport.Wt.Framing.{read_frame, write_frame, read_frame-write_frame}
use cherenkov.Transport.Socket.{id_of, waits, handle_socket-closed}
use cherenkov.Examples.Hubs.{hub, empty_world, one_session}
use cherenkov.Examples.Protocols.{plain}

abbrev plain_display : Display (Unit {0})
plain_display = record { hub_error = λ e. "refused"; invalid_frame = λ e. "invalid frame" }

abbrev subscribe : ClientFrame
subscribe = ClientFrame.subscribe (record { request_id = 1; channel = "rooms.a"; since_offset = 0 })

dispatch-eq-handle_frame_example :
    Wt.dispatch plain_display hub subscribe 0 one_session
    ≡ Ws.handle_frame plain_display hub subscribe 0 one_session
dispatch-eq-handle_frame_example =
    dispatch-eq-handle_frame plain_display hub subscribe 0 one_session

-- A ping, and a close message
abbrev events : List Event
events = Event.message Message.ping ∷ Event.message Message.close ∷ []

consistent : IsConsistent empty_world
consistent = Reach-IsConsistent {hub = hub} {v = empty_world} here refl

left : waits plain plain_display hub 7 events empty_world ≡ false
unfolding Ws.serve Ws.dispatch
left = refl

handle_socket-closed_example :
    (get_session
        (id_of plain plain_display hub 7 empty_world)
        (handle_socket plain plain_display hub 7 events empty_world).registry
      ≡ none)
    × ((channel : String)
        → listed
            (id_of plain plain_display hub 7 empty_world)
            channel
            (handle_socket plain plain_display hub 7 events empty_world).registry
          ≡ 0)
    × IsConsistent (handle_socket plain plain_display hub 7 events empty_world)
handle_socket-closed_example =
    handle_socket-closed plain plain_display hub 7 events empty_world (omega arith) consistent left

read_frame-write_frame_example :
    read_frame (write_frame (7 ∷ 8 ∷ []) ++ 9 ∷ [])
    ≡ (if ltb 16777216 2 then none else some (7 ∷ 8 ∷ [], 9 ∷ []))
read_frame-write_frame_example = read_frame-write_frame (7 ∷ 8 ∷ []) (9 ∷ []) (omega arith)
