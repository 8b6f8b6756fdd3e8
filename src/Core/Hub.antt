-- ===== src/Core/Hub.antt =====
-- crates/cherenkov-core/src/hub.rs: the builder, and the world that the hub's handlers change.
pub mod World
pub mod Handlers
pub mod Preserves
pub mod Reach
pub mod Invariant
pub mod Consistent
pub mod Gate
pub mod Closing
pub mod Forwarding
pub mod Building
pub mod Publishing
pub mod Replaying
pub mod Outcomes
pub mod Unsubscribing
pub mod Attaching
pub mod Subscribing
use cherenkov.Prelude.{
  String, Option, none, some, Result, ok, err, ◌==◌, string_eq, List, [], ◌∷◌, ◌++◌,
}
use cherenkov.Prelude.Dict
use cherenkov.Prelude.Dict.{Dict}
use cherenkov.Core.Namespace.{namespace_of}
use cherenkov.Core.Traits.{
  Platform, SchemaValidator, Authenticator, AclChecker, allow_all_validator,
  allow_all_authenticator, allow_all_acl,
}

-- The fields of `Hub` that never change. A `Handle` is `Arc<dyn ChannelKind>`; the broker and the
-- registry are part of the world.
pub record Hub (P : Platform) : Type 0 where
  pub kind : P.kinds.Handle
  pub namespace_kinds : Dict String P.kinds.Handle
  pub validator : SchemaValidator
  pub authenticator : Authenticator
  pub acl : AclChecker

-- `B` is `Arc<dyn Broker>`, `T` is `Box<dyn Transport>`.
pub record HubBuilder (P : Platform) (B T : Type 0) : Type 0 where
  pub kind : Option P.kinds.Handle
  pub namespace_kinds : Dict String P.kinds.Handle
  pub broker : Option B
  pub validator : Option SchemaValidator
  pub authenticator : Option Authenticator
  pub acl : Option AclChecker
  pub transports : List T

pub record HubBuilt (P : Platform) (B T : Type 0) : Type 0 where
  pub hub : Hub P
  pub broker : B
  pub transports : List T

abbrev pub unwrap_or : {A : Type 0} → Option A → A → A
unwrap_or none a = a
unwrap_or (some b) a = b

module _ {P : Platform} where
  -- The kind of the channel's namespace, or the default kind.
  unfoldable pub kind_for : Hub P → String → P.kinds.Handle
  kind_for hub channel = unwrap_or (Dict.get hub.namespace_kinds (namespace_of channel)) hub.kind

module _ {P : Platform} {B T : Type 0} where
  abbrev pub new_builder : HubBuilder P B T
  new_builder = record {
    kind = none;
    namespace_kinds = Dict.empty;
    broker = none;
    validator = none;
    authenticator = none;
    acl = none;
    transports = [];
  }

  unfoldable pub with_channel_kind : P.kinds.Handle → HubBuilder P B T → HubBuilder P B T
  with_channel_kind kind b = record b { kind = some kind }

  unfoldable pub with_channel_kind_for :
      String → P.kinds.Handle → HubBuilder P B T → HubBuilder P B T
  with_channel_kind_for namespace kind b = record b {
    namespace_kinds = Dict.put b.namespace_kinds namespace kind;
  }

  unfoldable pub with_broker : B → HubBuilder P B T → HubBuilder P B T
  with_broker broker b = record b { broker = some broker }

  unfoldable pub with_schema_validator : SchemaValidator → HubBuilder P B T → HubBuilder P B T
  with_schema_validator validator b = record b { validator = some validator }

  unfoldable pub with_authenticator : Authenticator → HubBuilder P B T → HubBuilder P B T
  with_authenticator authenticator b = record b { authenticator = some authenticator }

  unfoldable pub with_acl_checker : AclChecker → HubBuilder P B T → HubBuilder P B T
  with_acl_checker acl b = record b { acl = some acl }

  unfoldable pub with_transport : T → HubBuilder P B T → HubBuilder P B T
  with_transport transport b = record b { transports = b.transports ++ transport ∷ [] }

  assemble : HubBuilder P B T → P.kinds.Handle → B → HubBuilt P B T
  assemble b kind broker = record {
    hub = record {
      kind = kind;
      namespace_kinds = b.namespace_kinds;
      validator = unwrap_or b.validator allow_all_validator;
      authenticator = unwrap_or b.authenticator allow_all_authenticator;
      acl = unwrap_or b.acl allow_all_acl;
    };
    broker = broker;
    transports = b.transports;
  }

  unfoldable pub build : HubBuilder P B T → Result String (HubBuilt P B T)
  unfolding assemble
  build b = elim b.kind [
    | none ↦ err "no channel kind registered"
    | some kind ↦ elim b.broker [
      | none ↦ err "no broker registered"
      | some broker ↦ ok (assemble b kind broker)
    ]
  ]
