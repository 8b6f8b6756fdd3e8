-- ===== src/MemoryBroker.antt =====
-- crates/cherenkov-broker/src/lib.rs: the in-process broker. `tokio::sync::broadcast` is a parameter.
-- A `broadcast::Sender` is shared by its clones: the map of topics holds the address of its channel.
pub mod Delivery
pub mod Race
use cherenkov.Prelude.{
  ℕ, zero, suc, ◌<◌, max, String, ◌≡◌, ◌≢◌, Option, none, some, Result, ok, List, [], ◌∷◌, ◌++◌,
  Exec, ◌==◌, nat_eq, string_eq, if◌then◌else◌, length,
}
use cherenkov.Prelude.Dict
use cherenkov.Prelude.Dict.{Dict}
use cherenkov.Protocol.{Publication}
use cherenkov.Core.Types.{BrokerError}
use cherenkov.Core.Traits.{Broker}

-- One broadcast channel with its receivers, as `tokio` documents it: `send` fails exactly when there
-- is no receiver, a new receiver sees what is sent from then on, and a receiver that is not more than
-- the capacity behind has in `pending` everything that was sent since, in order.
pub record Broadcast : Type 1 where
  pub Channel : Type 0
  pub Receiver : Type 0
  pub create : ℕ → Channel
  pub subscribe : Channel → Receiver × Channel
  pub send : Publication → Channel → Option Channel
  pub receiver_count : Channel → ℕ
  pub drop_receiver : Receiver → Channel → Channel
  pub IsActive : Receiver → Channel → Type 0
  pub pending : Receiver → Channel → List Publication
  pub capacity : Channel → ℕ
  pub receiver_count-create : (n : ℕ) → receiver_count (create n) ≡ 0
  pub receiver_count-subscribe :
      (c : Channel) → receiver_count (subscribe c).1 ≡ suc (receiver_count c)
  pub send-eq_none : (p : Publication) (c : Channel) → receiver_count c ≡ 0 → send p c ≡ none
  pub send_some :
      (p : Publication) (c : Channel) → 0 < receiver_count c → (d : Channel) × (send p c ≡ some d)
  pub IsActive-subscribe : (c : Channel) → IsActive (subscribe c).0 (subscribe c).1
  pub pending-subscribe : (c : Channel) → pending (subscribe c).0 (subscribe c).1 ≡ []
  pub IsActive-pos : (r : Receiver) (c : Channel) → IsActive r c → 0 < receiver_count c
  pub pending-send :
      (p : Publication) (c d : Channel) (r : Receiver)
      → IsActive r c
      → length (pending r c) < capacity c
      → send p c ≡ some d
      → pending r d ≡ pending r c ++ p ∷ []

abbrev pub Address : Type 0
Address = ℕ

-- `MemoryBroker`: `topics` and `capacity` of `Inner`, and the channels behind the senders.
pub record MemoryBroker (B : Broadcast) : Type 0 where
  pub topics : Dict String Address
  pub capacity : ℕ
  pub channels : Address → B.Channel
  pub next_channel : Address

-- A `BrokerStream`: a receiver, and the channel that it is on.
pub record Stream (B : Broadcast) : Type 0 where
  pub channel : Address
  pub receiver : B.Receiver

module _ {B : Broadcast} where
  abbrev pub set_channel : Address → B.Channel → MemoryBroker B → MemoryBroker B
  set_channel a c m = record m { channels = λ b. if a == b then c else m.channels b }

  unfoldable pub with_capacity : ℕ → B.Channel → MemoryBroker B
  with_capacity capacity unused = record {
    topics = Dict.empty;
    capacity = max capacity 1;
    channels = λ _. unused;
    next_channel = 0;
  }

  unfoldable pub topic_count : MemoryBroker B → ℕ
  topic_count m = Dict.size m.topics

  -- A clone of the topic's sender, which is created if there is none.
  unfoldable pub sender_for : String → MemoryBroker B → Address × MemoryBroker B
  sender_for topic m = elim (Dict.get m.topics topic) [
    | some sender ↦ (sender, m)
    | none ↦ (
      m.next_channel,
      record (set_channel m.next_channel (B.create m.capacity) m) {
        topics = Dict.put m.topics topic m.next_channel;
        next_channel = suc m.next_channel;
      },
    )
  ]

  -- `sender.subscribe()`, once `sender_for` has returned
  unfoldable pub subscribe_on : Address → MemoryBroker B → Stream B × MemoryBroker B
  subscribe_on sender m =
      let (receiver, channel) = B.subscribe (m.channels sender) in
      (record { channel = sender; receiver = receiver }, set_channel sender channel m)

  unfoldable pub subscribe : String → Exec (MemoryBroker B) BrokerError (Stream B)
  subscribe topic m =
      let (sender, m') = sender_for topic m in
      let (stream, m'') = subscribe_on sender m' in (ok stream, m'')

  -- `remove_if(topic, |_, s| s.receiver_count() == 0)`
  unfoldable pub reap : String → MemoryBroker B → MemoryBroker B
  reap topic m = elim (Dict.get m.topics topic) [
    | none ↦ m
    | some sender ↦
        if B.receiver_count (m.channels sender) == 0
        then record m { topics = Dict.remove m.topics topic }
        else m
  ]

  -- `send` on the sender that was found, and `reap` where nobody receives
  unfoldable pub publish_on : String → Address → Publication → MemoryBroker B → MemoryBroker B
  unfolding reap
  publish_on topic sender p m = elim (B.send p (m.channels sender)) [
    | some channel ↦ set_channel sender channel m
    | none ↦ reap topic m
  ]

  unfoldable pub publish : String → Publication → Exec (MemoryBroker B) BrokerError (Unit {0})
  publish topic p m = elim (Dict.get m.topics topic) [
    | none ↦ (ok tt, m)
    | some sender ↦ (ok tt, publish_on topic sender p m)
  ]

  -- The `Drop` of a stream
  unfoldable pub drop_stream : Stream B → MemoryBroker B → MemoryBroker B
  drop_stream s m = set_channel s.channel (B.drop_receiver s.receiver (m.channels s.channel)) m

-- `impl Broker for MemoryBroker`
abbrev pub memory_broker : Broadcast → Broker
memory_broker B = record {
  Stream = Stream B;
  State = MemoryBroker B;
  subscribe = subscribe;
  publish = publish;
  drop_stream = drop_stream;
}
