-- ===== src/Server/Config.antt =====
-- crates/cherenkov-server/src/config.rs: the settings of a server and their defaults. An address is
-- the text that `SocketAddr` is parsed from; a `BTreeMap` is the list of its entries in the order of
-- the keys; `V` is `serde_json::Value`.
use cherenkov.Prelude.{ℕ, String, Bool, false, Option, none, some, Result, ok, err, List, []}

pub data SchemaKind : Type 0 where
  json_schema : SchemaKind

pub data LogFormat : Type 0 where
  json pretty : LogFormat

pub data ChannelKindName : Type 0 where
  pubsub crdt_yjs crdt_automerge : ChannelKindName

pub data BrokerBackend : Type 0 where
  memory redis nats : BrokerBackend

pub data AclEffectConfig : Type 0 where
  allow deny : AclEffectConfig

pub data AclActionConfig : Type 0 where
  subscribe publish any : AclActionConfig

pub record LogConfig : Type 0 where
  pub level : String
  pub format : LogFormat

pub record AclRuleConfig : Type 0 where
  pub effect : AclEffectConfig
  pub channel : String
  pub subject : Option String
  pub action : AclActionConfig

pub record AclConfig : Type 0 where
  pub rules : List AclRuleConfig
  pub default_allow : Bool

pub record AuthConfig : Type 0 where
  pub hmac_secret : String
  pub audiences : List String
  pub issuer : Option String

pub record NamespaceConfig (V : Type 0) : Type 0 where
  pub kind : SchemaKind
  pub schema : Option V
  pub schema_path : Option String

abbrev pub NamespacesConfig : Type 0 → Type 0
NamespacesConfig V = List (String × NamespaceConfig V)

abbrev pub ChannelKindsConfig : Type 0
ChannelKindsConfig = List (String × ChannelKindName)

pub record ChannelPubSubConfig : Type 0 where
  pub history_size : ℕ
  pub history_ttl_seconds : ℕ

pub record AdminConfig : Type 0 where
  pub listen : String
  pub enabled : Bool
  pub auth_token : Option String

pub record BrokerConfig : Type 0 where
  pub backend : BrokerBackend
  pub capacity : ℕ
  pub redis_url : Option String
  pub nats_url : Option String

pub record WsConfig : Type 0 where
  pub listen : String
  pub path : String
  pub outbox_capacity : ℕ

pub record SseConfig : Type 0 where
  pub listen : String
  pub path_prefix : String

pub record TransportConfig : Type 0 where
  pub ws : WsConfig
  pub sse : Option SseConfig

pub record ServerConfig (V : Type 0) : Type 0 where
  pub transport : TransportConfig
  pub broker : BrokerConfig
  pub channel_pubsub : ChannelPubSubConfig
  pub namespaces : NamespacesConfig V
  pub auth : Option AuthConfig
  pub acl : Option AclConfig
  pub channel_kinds : ChannelKindsConfig
  pub admin : AdminConfig
  pub log : LogConfig

abbrev pub default_sse : SseConfig
default_sse = record { listen = "127.0.0.1:7100"; path_prefix = "/sse/v1" }

abbrev pub default_ws : WsConfig
default_ws = record { listen = "127.0.0.1:7000"; path = "/connect/v1"; outbox_capacity = 1024 }

abbrev pub default_broker : BrokerConfig
default_broker = record {
  backend = BrokerBackend.memory;
  capacity = 1024;
  redis_url = none;
  nats_url = none;
}

abbrev pub default_admin : AdminConfig
default_admin = record { listen = "127.0.0.1:7200"; enabled = false; auth_token = none }

abbrev pub default_channel_pubsub : ChannelPubSubConfig
default_channel_pubsub = record { history_size = 256; history_ttl_seconds = 300 }

abbrev pub default_log : LogConfig
default_log = record { level = "info"; format = LogFormat.pretty }

-- `ServerConfig::default`
abbrev pub default_config : {V : Type 0} → ServerConfig V
default_config = record {
  transport = record { ws = default_ws; sse = none };
  broker = default_broker;
  channel_pubsub = default_channel_pubsub;
  namespaces = [];
  auth = none;
  acl = none;
  channel_kinds = [];
  admin = default_admin;
  log = default_log;
}

-- A `Duration` is a number of seconds, as the time units of the histories are.
unfoldable pub history_ttl : ChannelPubSubConfig → ℕ
history_ttl c = c.history_ttl_seconds

unfoldable pub validate_schema_source : {V : Type 0} → NamespaceConfig V → Result String (Unit {0})
validate_schema_source c = elim c.schema [
  | none ↦ elim c.schema_path [
    | none ↦ err "one of `schema` or `schema_path` must be set"
    | some path ↦ ok tt
  ]
  | some schema ↦ elim c.schema_path [
    | none ↦ ok tt
    | some path ↦ err "`schema` and `schema_path` are mutually exclusive"
  ]
]
