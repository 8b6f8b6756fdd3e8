-- ===== src/MemoryBroker/Delivery.antt =====
-- What a subscriber of crates/cherenkov-broker/src/lib.rs receives, and when a topic goes.
use cherenkov.Prelude.{
  ℕ, ◌<◌, String, ◌≡◌, ◌≢◌, refl, ◌∙◌, sym, ap, none, some, ok, List, [], ◌∷◌, ◌++◌, arith, ◌==◌,
  nat_eq, string_eq, eq_iff, length, Option-cases, inl, inr, subst, if◌then◌else◌, beq_refl,
}
use native.Mathlib.Decide.{dec_lt}
use cherenkov.Prelude.Dict
use cherenkov.Prelude.Dict.{get-put, get-remove}
use cherenkov.Protocol.{Publication}
use cherenkov.MemoryBroker.{
  Address, Broadcast, MemoryBroker, Stream, sender_for, subscribe_on, subscribe, publish,
  publish_on, reap, set_channel,
}

module _ {B : Broadcast} where
  -- The stream is on the current channel of `topic`, and its receiver is active.
  pub record Listens (topic : String) (s : Stream B) (m : MemoryBroker B) : Type 0 where
    pub current : Dict.get m.topics topic ≡ some s.channel
    pub active : B.IsActive s.receiver (m.channels s.channel)

  abbrev pub received : Stream B → MemoryBroker B → List Publication
  received s m = B.pending s.receiver (m.channels s.channel)

  abbrev pub stream_of : String → MemoryBroker B → Stream B
  stream_of topic m = (subscribe_on (sender_for topic m).0 (sender_for topic m).1).0

  pub get-sender_for :
      (topic : String) (m : MemoryBroker B)
      → Dict.get (sender_for topic m).1.topics topic ≡ some (sender_for topic m).0
  unfolding sender_for
  get-sender_for topic m = elim (Option-cases (Dict.get m.topics topic)) [
    | inl e ↦
        rw (e, sender_for)
          (ground (arith, get-put m.topics topic topic m.next_channel, beq_refl topic))
    | inr (a, e) ↦ rw (e, sender_for) e
  ]

  -- A new receiver stands on the channel that it was made from.
  subscribe_on-new :
      (a : Address) (m : MemoryBroker B)
      → ((subscribe_on a m).0.channel ≡ a)
        × ((subscribe_on a m).1.topics ≡ m.topics)
        × B.IsActive (subscribe_on a m).0.receiver ((subscribe_on a m).1.channels a)
        × (B.pending (subscribe_on a m).0.receiver ((subscribe_on a m).1.channels a) ≡ [])
  unfolding subscribe_on
  subscribe_on-new a m = (
    refl,
    refl,
    rw (beq_refl a) (B.IsActive-subscribe (m.channels a)),
    rw (beq_refl a) (B.pending-subscribe (m.channels a)),
  )

  -- Subscribing succeeds with a stream that listens to the topic and has nothing to read yet.
  pub subscribe-Listens :
      (topic : String) (m : MemoryBroker B)
      → ((subscribe topic m).0 ≡ ok (stream_of topic m))
        × Listens topic (stream_of topic m) (subscribe topic m).1
        × (received (stream_of topic m) (subscribe topic m).1 ≡ [])
  unfolding subscribe
  subscribe-Listens topic m =
      let (same, topics, active, nothing) =
        subscribe_on-new (sender_for topic m).0 (sender_for topic m).1 in
      (
        refl,
        record {
          current = ap (λ d. Dict.get d topic) topics ∙ get-sender_for topic m ∙ ap some (sym same);
          active =
              subst
                (λ a. B.IsActive (stream_of topic m).receiver ((subscribe topic m).1.channels a))
                (sym same) active;
        },
        subst (λ a. B.pending (stream_of topic m).receiver ((subscribe topic m).1.channels a) ≡ [])
            (sym same) nothing,
      )

  publish-sent :
      (topic : String) (p : Publication) (sender : Address) (m : MemoryBroker B) (c : B.Channel)
      → Dict.get m.topics topic ≡ some sender
      → B.send p (m.channels sender) ≡ some c
      → publish topic p m ≡ (ok tt, set_channel sender c m)
  unfolding publish publish_on
  publish-sent topic p sender m c there e = rw (there, publish) (rw (e, publish_on))

  pub publish-reaped :
      (topic : String) (p : Publication) (sender : Address) (m : MemoryBroker B)
      → Dict.get m.topics topic ≡ some sender
      → B.receiver_count (m.channels sender) ≡ 0
      → publish topic p m ≡ (ok tt, record m { topics = Dict.remove m.topics topic })
  unfolding publish publish_on reap
  publish-reaped topic p sender m there nobody =
      rw (there, publish)
        (rw (B.send-eq_none p (m.channels sender) nobody, publish_on)
          (rw (there, reap) (rw nobody)))

  channels-set_channel :
      (a : Address) (c : B.Channel) (m : MemoryBroker B) → (set_channel a c m).channels a ≡ c
  channels-set_channel a c m = rw (beq_refl a)

  -- A publication on a topic reaches, after what it had to read before, every stream that listens to
  -- the topic and is less than the capacity behind.
  pub publish-received :
      (topic : String) (p : Publication) (s : Stream B) (m : MemoryBroker B)
      → Listens topic s m
      → length (received s m) < B.capacity (m.channels s.channel)
      → ((publish topic p m).0 ≡ ok tt)
        × (received s (publish topic p m).1 ≡ received s m ++ p ∷ [])
        × (Dict.get (publish topic p m).1.topics topic ≡ some s.channel)
  publish-received topic p s m h room =
      let (channel, sent) =
        B.send_some p (m.channels s.channel) (B.IsActive-pos s.receiver _ h.active) in
      let after = publish-sent topic p s.channel m channel h.current sent in
      (
        ap (λ r. r.0) after,
        ap (λ r. received s r.1) after
            ∙ ap (B.pending s.receiver) (channels-set_channel s.channel channel m)
            ∙ B.pending-send p _ channel s.receiver h.active room sent,
        ap (λ r. Dict.get r.1.topics topic) after ∙ h.current,
      )

  -- Publishing on a topic that exists removes it exactly when nobody receives on it, and leaves every
  -- other topic as it was.
  pub publish-topics :
      (topic : String) (p : Publication) (m : MemoryBroker B) (sender : ℕ)
      → Dict.get m.topics topic ≡ some sender
      → (Dict.get (publish topic p m).1.topics topic
          ≡ (if B.receiver_count (m.channels sender) == 0 then none else some sender))
        × ((other : String)
            → other ≢ topic
            → Dict.get (publish topic p m).1.topics other ≡ Dict.get m.topics other)
  publish-topics topic p m sender e = elim (dec_lt 0 (B.receiver_count (m.channels sender))) [
    | yes some_one ↦
        let (channel, sent) = B.send_some p (m.channels sender) some_one in
        let after = publish-sent topic p sender m channel e sent in
        (
          ap (λ r. Dict.get r.1.topics topic) after ∙ e ∙ ground arith,
          λ other ne. ap (λ r. Dict.get r.1.topics other) after,
        )
    | no nobody ↦
        let after = publish-reaped topic p sender m e (omega arith) in
        (
          ap (λ r. Dict.get r.1.topics topic) after
              ∙ ground (arith, get-remove m.topics topic topic, beq_refl topic),
          λ other ne.
              ap (λ r. Dict.get r.1.topics other) after
              ∙ ground (arith, get-remove m.topics topic other, eq_iff topic other, ne),
        )
  ]
