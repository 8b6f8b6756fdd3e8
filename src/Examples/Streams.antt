-- ===== src/Examples/Streams.antt =====
-- Requests to the SSE transport, and instances of the theorems on it.
use cherenkov.Prelude.{
  String, ◌≡◌, ◌≢◌, ◌↔◌, refl, some, none, ok, err, List, [], ◌∷◌, ◌++◌, arith, string_eq, nat_eq,
  list_eq,
}
use cherenkov.Prelude.Utf8
use cherenkov.Prelude.Format
use cherenkov.Prelude.Dict
use cherenkov.Protocol.{Bytes, Publication, ServerFrame}
use cherenkov.Core.Session
use cherenkov.Core.Session.{new_registry}
use cherenkov.Core.Hub
use cherenkov.Core.Hub.World
use cherenkov.Core.Hub.World.{World}
use cherenkov.Core.Hub.Handlers
use cherenkov.Core.Hub.Handlers.{open_session, handle_publish}
use cherenkov.Core.Hub.Closing.{IsClosed}
use cherenkov.Core.Hub.Invariant.{IsConsistent}
use cherenkov.Core.Hub.Reach.{here, Reach-IsConsistent}
use cherenkov.Core.Namespace
use cherenkov.PubSub
use cherenkov.MemoryBroker
use cherenkov.Transport.Sse
use cherenkov.Transport.Sse.{
  Texts, Response, Event, read, admit, subscribe_handler, publish_handler,
}
use cherenkov.Transport.Sse.Query
use cherenkov.Transport.Sse.Query.{channels_from_raw_query, token_from_headers}
use cherenkov.Transport.Sse.Query.RoundTrip.{query, channels_from_raw_query-query}
use cherenkov.Transport.Sse.Closing.{subscribe_handler-IsClosed, publish_handler-IsClosed}
use cherenkov.Transport.Sse.Serving.{InTurn, subscribe_handler-InTurn}
use cherenkov.Transport.Sse.Answers.{publish_handler-ok}
use cherenkov.Examples.Toy.{toy}
use cherenkov.Examples.Hubs.{hub, empty_world}

abbrev plain_texts : Texts
plain_texts = record { hub_error = λ e. "refused"; json_string = λ s. s; base64 = λ bytes. "bytes" }

named : ◌≢◌ {A = String} "a&b" ""
named h = ground (arith, (string_eq.beq_iff "a&b" "").1 h)

channels_from_raw_query-query_example :
    channels_from_raw_query (some (query ("a&b" ∷ "a&b" ∷ []))) ≡ "a&b" ∷ "a&b" ∷ []
channels_from_raw_query-query_example =
    channels_from_raw_query-query ("a&b" ∷ "a&b" ∷ []) (named, (named, tt))

-- `channel=a`, and the same channel twice
abbrev once : Bytes
once = b'c' ∷ b'h' ∷ b'a' ∷ b'n' ∷ b'n' ∷ b'e' ∷ b'l' ∷ b'=' ∷ b'a' ∷ []

abbrev twice : Bytes
twice = once ++ b'&' ∷ once

abbrev refused : Response
refused = record { status = 500; body = "refused" }

abbrev served_world : World toy
served_world = (subscribe_handler plain_texts hub 7 (some once) none empty_world).1

runs :
    ((subscribe_handler plain_texts hub 7 (some twice) none empty_world).0 ≡ err refused)
    × (subscribe_handler plain_texts hub 7 (some once) none empty_world ≡ (ok 0, served_world))
    × (channels_from_raw_query (some (b'c' ∷ b'=' ∷ b'%' ∷ [])) ≡ [])
    × (token_from_headers (some "Bearer abc-123") ≡ some "abc-123")
    × (token_from_headers (some "Basic abc-123") ≡ none)
unfolding Sse.subscribe_handler Sse.subscribe_all Sse.admit Sse.subscribe_each Sse.or_close
    Sse.into_response Sse.status_of Query.channels_from_raw_query Query.token_from_headers
    Handlers.requires_connect Handlers.handle_subscribe Handlers.open_session Handlers.close_session
    Dict.get World.find_session Session.get_session Session.register Dict.put Session.allocate_id
    Dict.empty Handlers.require_claims Session.set_claims Handlers.enforce_acl Handlers.refuse_twice
    Session.has_subscription Session.new_session Handlers.subscribe_session World.on_kinds
    PubSub.on_subscribe Handlers.or_unwind Handlers.attach Handlers.decide Handlers.or_drop
    Handlers.replay Handlers.send_all Handlers.unwind World.abort World.drop_stream World.on_broker
    World.send_or World.spawn Hub.kind_for Namespace.namespace_of Namespace.split_once_dot
    Session.add_subscription Session.deregister Session.insert_subscription Dict.remove Dict.retain
    PubSub.cursor PubSub.cursor_locked PubSub.with_bounds MemoryBroker.subscribe
    MemoryBroker.sender_for MemoryBroker.subscribe_on MemoryBroker.with_capacity Format.strip_prefix
    Utf8.from_utf8
runs = (refl, refl, refl, refl, refl)

consistent : IsConsistent empty_world
consistent = Reach-IsConsistent {hub = hub} {v = empty_world} here refl

subscribe_handler-IsClosed_example :
    IsClosed 0 (subscribe_handler plain_texts hub 7 (some twice) none empty_world).1
subscribe_handler-IsClosed_example =
    subscribe_handler-IsClosed plain_texts hub 7 empty_world (omega arith) consistent (some twice)
      none refused runs.0

publish_handler-IsClosed_example :
    IsClosed 0 (publish_handler plain_texts hub 7 "rooms.a" none (read (1 ∷ [])) empty_world).1
publish_handler-IsClosed_example =
    publish_handler-IsClosed plain_texts hub 7 empty_world (omega arith) consistent "rooms.a" none
      (read (1 ∷ []))

subscribe_handler-InTurn_example :
    (0 ≡ (open_session hub 7 empty_world).0.0)
    × ((u : World toy) × (admit plain_texts hub
            (open_session hub 7 empty_world).0.0
            (token_from_headers none)
            (open_session hub 7 empty_world).1
          ≡ (ok tt, u))
        × InTurn hub
            (open_session hub 7 empty_world).0.0
            0
            (channels_from_raw_query (some once))
            u
            served_world)
subscribe_handler-InTurn_example =
    subscribe_handler-InTurn plain_texts hub 7 (some once) none 0 empty_world served_world runs.1

abbrev frames : List ServerFrame
frames = ServerFrame.publication (record { channel = "rooms.a"; offset = 0; payload = 1 ∷ [] }) ∷ []

abbrev stream_world : World toy
stream_world = (subscribe_handler plain_texts hub 7 (some once) none empty_world).1

-- A publication while the stream is open
abbrev later_world : World toy
later_world = (handle_publish hub 0 "rooms.a" (1 ∷ []) stream_world).1

publish_handler-ok_example :
    ((publish_handler plain_texts hub 7 "rooms.a" none (read (1 ∷ [])) empty_world).0.status ≡ 200)
    ↔ ((u : World toy) × (p : Publication) × (admit plain_texts hub
            (open_session hub 7 empty_world).0.0
            (token_from_headers none)
            (open_session hub 7 empty_world).1
          ≡ (ok tt, u))
        × ((handle_publish hub (open_session hub 7 empty_world).0.0 "rooms.a" (1 ∷ []) u).0 ≡ ok p))
publish_handler-ok_example =
    publish_handler-ok plain_texts hub 7 "rooms.a" none (1 ∷ []) empty_world
