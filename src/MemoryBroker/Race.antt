-- ===== src/MemoryBroker/Race.antt =====
-- Two calls of crates/cherenkov-broker/src/lib.rs that overlap: `subscribe` clones the topic's sender
-- and makes a receiver from it in two steps, between which another thread may publish.
use cherenkov.Prelude.{String, ◌≡◌, refl, ◌∙◌, ap, none, ok, arith, string_eq, beq_refl}
use cherenkov.Prelude.Dict
use cherenkov.Prelude.Dict.{get-remove}
use cherenkov.Protocol.{Publication}
use cherenkov.MemoryBroker.{
  Address, Broadcast, MemoryBroker, Stream, sender_for, subscribe_on, publish,
}
use cherenkov.MemoryBroker.Delivery.{Listens, get-sender_for, publish-reaped}

module _ {B : Broadcast} where
  -- `subscribe` with a `publish` on the same topic between its two steps
  unfoldable pub subscribe_around :
      String → Publication → MemoryBroker B → Stream B × MemoryBroker B
  subscribe_around topic p m =
      let (sender, m') = sender_for topic m in subscribe_on sender (publish topic p m').1

  topics-subscribe_on : (a : Address) (m : MemoryBroker B) → (subscribe_on a m).1.topics ≡ m.topics
  unfolding subscribe_on
  topics-subscribe_on a m = refl

  reaped :
      (topic : String) (p : Publication) (m : MemoryBroker B)
      → B.receiver_count ((sender_for topic m).1.channels (sender_for topic m).0) ≡ 0
      → Dict.get (subscribe_around topic p m).1.topics topic ≡ none
  unfolding subscribe_around
  reaped topic p m idle =
      ap (λ d. Dict.get d topic) (topics-subscribe_on _ _)
      ∙ ap (λ r. Dict.get r.1.topics topic)
          (publish-reaped topic p _ _ (get-sender_for topic m) idle)
      ∙ ground (arith, get-remove (sender_for topic m).1.topics topic topic, beq_refl topic)

  without_topic :
      (topic : String) (q : Publication) (m : MemoryBroker B)
      → Dict.get m.topics topic ≡ none
      → publish topic q m ≡ (ok tt, m)
  unfolding publish
  without_topic topic q m e = rw (e, publish)

  -- Where nobody received on the topic, a publication that falls between the two steps of `subscribe`
  -- leaves the new subscriber deaf: the topic is gone, so the stream is not on its current channel,
  -- and a later publication on the topic succeeds and changes nothing.
  pub subscribe_around-deaf :
      (topic : String) (p : Publication) (m : MemoryBroker B)
      → B.receiver_count ((sender_for topic m).1.channels (sender_for topic m).0) ≡ 0
      → (¬ Listens topic (subscribe_around topic p m).0 (subscribe_around topic p m).1)
        × ((q : Publication)
            → publish topic q (subscribe_around topic p m).1
              ≡ (ok tt, (subscribe_around topic p m).1))
  subscribe_around-deaf topic p m idle = (
    λ listens. cc (listens.current, reaped topic p m idle),
    λ q. without_topic topic q _ (reaped topic p m idle),
  )
