-- ===== src/NatsBroker.antt =====
-- crates/cherenkov-broker-nats/src/lib.rs: the broker over NATS subjects. Logs are left out.
use cherenkov.Prelude.{String, ok, err, map_err, List, [], ◌∷◌, Exec}
use cherenkov.Prelude.Format.{concat}
use cherenkov.Protocol.{Bytes, Publication}
use cherenkov.Protocol.Codec.{Prost, encode_publication, decode_publication}
use cherenkov.Core.Types.{BrokerError}
use cherenkov.Core.Traits.{Broker}

-- The crate `async_nats`, a parameter: a subscriber gets the payloads of one subject.
pub record AsyncNats : Type 1 where
  pub State : Type 0
  pub Subscriber : Type 0
  pub connect : String → Exec State String (Unit {0})
  pub subscribe : String → Exec State String Subscriber
  pub drop_subscriber : Subscriber → State → State
  pub publish : String → Bytes → Exec State String (Unit {0})

module _ {S A : Type 0} where
  -- `map_err(|e| BrokerError::Other(format!("nats …: {e}")))?`
  abbrev pub or_other : String → Exec S String A → Exec S BrokerError A
  or_other what m s =
      let (r, t) = m s in
      (map_err (λ e. BrokerError.other (concat ("nats " ∷ what ∷ ": " ∷ e ∷ []))) r, t)

module _ {E : Type 0} (prost : Prost E) where
  -- What the stream of `filter_map` yields for the payloads that come in
  unfoldable pub yielded : List Bytes → List Publication
  yielded [] = []
  yielded (payload ∷ payloads) = elim (decode_publication prost payload) [
    | ok p ↦ p ∷ yielded payloads
    | err e ↦ yielded payloads
  ]

  module _ (N : AsyncNats) where
    unfoldable pub connect : String → Exec N.State BrokerError (Unit {0})
    connect url = or_other "connect" (N.connect url)

    unfoldable pub subscribe : String → Exec N.State BrokerError N.Subscriber
    subscribe topic = or_other "SUB" (N.subscribe topic)

    unfoldable pub publish : String → Publication → Exec N.State BrokerError (Unit {0})
    publish topic p = or_other "PUB" (N.publish topic (encode_publication prost p))

    -- `impl Broker for NatsBroker`
    abbrev pub nats_broker : Broker
    nats_broker = record {
      Stream = N.Subscriber;
      State = N.State;
      subscribe = subscribe;
      publish = publish;
      drop_stream = N.drop_subscriber;
    }
