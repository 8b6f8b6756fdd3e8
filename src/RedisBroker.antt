-- ===== src/RedisBroker.antt =====
-- crates/cherenkov-broker-redis/src/lib.rs: the broker over Redis pub/sub. Logs are left out.
pub mod Delivery
use cherenkov.Prelude.{
  ℕ, String, Bool, Option, none, some, Result, ok, err, map_err, List, [], ◌∷◌, Exec, pure, ◌>>=◌,
  ◌>>◌, ◌==◌, string_eq, if◌then◌else◌,
}
use cherenkov.Prelude.Format.{concat}
use cherenkov.Prelude.Utf8.{as_bytes}
use cherenkov.Protocol.{Bytes, Publication}
use cherenkov.Protocol.Codec.{Prost, encode_publication, decode_publication}
use cherenkov.Core.Types.{BrokerError}
use cherenkov.Core.Traits.{Broker}

-- `fred::types::Value`, as far as it is looked at
pub data FredValue : Type 0 where
  bytes : Bytes → FredValue
  string : String → FredValue
  other : FredValue

-- What a receiver of all messages gives: a message, or an error where it lagged behind
pub data Incoming : Type 0 where
  message : String → FredValue → Incoming
  lagged : Incoming

-- The crate `fred`, a parameter: `State` is the state of both clients, and the `String` of an error is
-- what its `Display` writes.
pub record Fred : Type 1 where
  pub Config : Type 0
  pub State : Type 0
  pub Receiver : Type 0
  pub from_url : String → Result String Config
  pub build_publisher : Config → Result String (Unit {0})
  pub init_publisher : Exec State String (Unit {0})
  pub build_subscriber : Config → Result String (Unit {0})
  pub init_subscriber : Exec State String (Unit {0})
  pub subscribe : String → Exec State String (Unit {0})
  pub message_rx : State → Receiver × State
  pub drop_receiver : Receiver → State → State
  pub publish : String → Bytes → Exec State String ℕ

-- The stream that `subscribe` returns: a receiver of all messages, and the topic that it lets through
pub record RedisStream (F : Fred) : Type 0 where
  pub topic : String
  pub receiver : F.Receiver

abbrev pub other_error : String → String → BrokerError
other_error what e = BrokerError.other (concat ("redis " ∷ what ∷ ": " ∷ e ∷ []))

module _ {S A : Type 0} where
  -- `map_err(|e| BrokerError::Other(format!("redis …: {e}")))?`
  abbrev pub or_other : String → Exec S String A → Exec S BrokerError A
  or_other what m s = let (r, t) = m s in (map_err (other_error what) r, t)

module _ {E : Type 0} (prost : Prost E) where
  abbrev decoded : Bytes → Option Publication
  decoded payload = elim (decode_publication prost payload) [ ok p ↦ some p | err e ↦ none ]

  abbrev decode_value : FredValue → Option Publication
  decode_value (bytes b) = decoded b
  decode_value (string s) = decoded (as_bytes s)
  decode_value other = none

  -- The closure of `filter_map`
  unfoldable pub accept : String → Incoming → Option Publication
  accept topic lagged = none
  accept topic (message channel value) = if channel == topic then decode_value value else none

  -- What the stream yields for the messages that come in
  unfoldable pub yielded : String → List Incoming → List Publication
  unfolding accept
  yielded topic [] = []
  yielded topic (m ∷ ms) = elim (accept topic m) [
    | none ↦ yielded topic ms
    | some p ↦ p ∷ yielded topic ms
  ]

  module _ (F : Fred) where
    unfoldable pub connect : String → Exec F.State BrokerError (Unit {0})
    connect url = do
      config ← λ s. (map_err (other_error "url") (F.from_url url), s)
      λ s. (map_err (other_error "publisher build") (F.build_publisher config), s)
      or_other "publisher init" F.init_publisher
      λ s. (map_err (other_error "subscriber build") (F.build_subscriber config), s)
      or_other "subscriber init" F.init_subscriber

    abbrev listen : String → Exec F.State BrokerError (RedisStream F)
    listen topic s =
        let (receiver, t) = F.message_rx s in
        (ok (record { topic = topic; receiver = receiver }), t)

    unfoldable pub subscribe : String → Exec F.State BrokerError (RedisStream F)
    subscribe topic = do or_other "SUBSCRIBE" (F.subscribe topic); listen topic

    unfoldable pub publish : String → Publication → Exec F.State BrokerError (Unit {0})
    publish topic p = do or_other "PUBLISH" (F.publish topic (encode_publication prost p)); pure tt

    -- `impl Broker for RedisBroker`; dropping a stream drops its receiver and nothing more.
    abbrev pub redis_broker : Broker
    redis_broker = record {
      Stream = RedisStream F;
      State = F.State;
      subscribe = subscribe;
      publish = publish;
      drop_stream = λ stream. F.drop_receiver stream.receiver;
    }
