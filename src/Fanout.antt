-- ===== src/Fanout.antt =====
-- A subscription and a publication through crates/cherenkov-core/src/hub.rs over the broker of
-- crates/cherenkov-broker/src/lib.rs.
use cherenkov.Prelude.{
  ok_inj, ℕ, ◌<◌, String, ◌≡◌, ap, ◌∙◌, sym, subst, some, ok, [], ◌∷◌, ◌++◌, nat_eq, string_eq,
  length,
}
use cherenkov.Prelude.Dict
use cherenkov.Protocol.{Publication, Bytes, SubscribeOk}
use cherenkov.Core.Session.{SessionId, Ref, JoinHandle, get_session}
use cherenkov.Core.Traits.{ChannelKind, Mpsc, Platform}
use cherenkov.Core.Hub.{Hub}
use cherenkov.Core.Hub.World.{World}
use cherenkov.Core.Hub.Handlers.{handle_subscribe, handle_publish}
use cherenkov.Core.Hub.Subscribing.{handle_subscribe-Accepted}
use cherenkov.Core.Hub.Publishing.{handle_publish-broker}
use cherenkov.MemoryBroker.{Broadcast, MemoryBroker, Stream, Address, memory_broker, subscribe}
use cherenkov.MemoryBroker.Delivery.{
  Listens, received, stream_of, subscribe-Listens, publish-received,
}

-- A server with the in-process broker, and any channel kinds and outboxes
abbrev pub over_memory : ChannelKind → Broadcast → Mpsc → Platform
over_memory K B M = record { kinds = K; broker = memory_broker B; mpsc = M }

module _ {B : Broadcast} where
  -- The stream that a call of `subscribe` returned
  subscribed-Listens :
      (topic : String) (s : Stream B) (m v : MemoryBroker B)
      → (subscribe topic m).0 ≡ ok s
      → v ≡ (subscribe topic m).1
      → Listens topic s v × (received s v ≡ [])
  subscribed-Listens topic s m v e same =
      let (returned, listens, nothing) = subscribe-Listens topic m in
      subst (λ x. Listens topic s x × (received s x ≡ [])) (sym same)
        (subst
          (λ x. Listens topic x (subscribe topic m).1 × (received x (subscribe topic m).1 ≡ []))
          (ok_inj (stream_of topic m) s (sym returned ∙ e)) (listens, nothing))

module _ {K : ChannelKind} {B : Broadcast} {M : Mpsc} (hub : Hub (over_memory K B M)) where
  -- A session subscribes to a channel, and then a publication on the channel succeeds: a forwarder
  -- runs for the subscription, from a stream whose only unread publication is that one, to the outbox
  -- of the session. The topic's broadcast channel has room for one publication at least.
  pub handle_publish-received :
      (id publisher : SessionId) (q : ℕ) (channel : String) (since : ℕ) (reply : SubscribeOk)
      (payload : Bytes) (p : Publication) (w v u : World (over_memory K B M))
      → handle_subscribe hub id q channel since w ≡ (ok reply, v)
      → handle_publish hub publisher channel payload v ≡ (ok p, u)
      → ((a : Address)
          → Dict.get v.broker.topics channel ≡ some a
          → 0 < B.capacity (v.broker.channels a))
      → (r : Ref) × (get_session id w.registry ≡ some r)
        × ((task : JoinHandle) × (Dict.get (v.store r).subscriptions channel ≡ some task)
            × ((stream : Stream B) × (Dict.get u.tasks task
                  ≡ some
                      (record { channel = channel; stream = stream; outbox = (w.store r).outbox }))
                × (received stream u.broker ≡ p ∷ [])))
  handle_publish-received id publisher q channel since reply payload p w v u subscribes publishes
        room =
      let accepted = handle_subscribe-Accepted hub id q channel since reply w v subscribes in
      let done = accepted.done in
      let (broker, tasks) = handle_publish-broker hub publisher channel payload v u p publishes in
      let (listens, nothing) =
        subscribed-Listens channel done.stream w.broker v.broker done.streamed done.broker in
      let (sent, arrived, current) = publish-received channel p done.stream v.broker listens (
        subst (λ l. length l < B.capacity (v.broker.channels done.stream.channel)) (sym nothing)
          (room done.stream.channel listens.current)) in
      (
        accepted.session,
        accepted.found,
        (
          done.task,
          done.entry,
          (
            done.stream,
            ap (λ d. Dict.get d done.task) tasks ∙ done.forwards,
            ap (λ b. received done.stream b) broker ∙ arrived ∙ ap (λ l. l ++ p ∷ []) nothing,
          ),
        ),
      )
