-- ===== src/Server/Build.antt =====
-- crates/cherenkov-server/src/app.rs: `build_hub`. Logs are left out.
pub mod Failing
pub mod Access
pub mod Tokens
pub mod Schemas
pub mod Meaning
use cherenkov.Prelude.{
  ℕ, suc, String, Bool, true, false, Option, none, some, Result, ok, err, map_err, and_then_ok,
  List, [], ◌∷◌, ◌==◌, string_eq, if◌then◌else◌,
}
use cherenkov.Prelude.Utf8.{as_bytes}
use cherenkov.Prelude.Format.{concat}
use cherenkov.Protocol.{Bytes}
use cherenkov.Core.Traits.{
  ChannelKind, Broker, Mpsc, Platform, Authenticator, AclChecker, allow_all_authenticator,
  allow_all_acl,
}
use cherenkov.Core.Hub
use cherenkov.Core.Hub.{
  Hub, HubBuilder, HubBuilt, new_builder, with_channel_kind, with_channel_kind_for, with_broker,
  with_schema_validator, with_authenticator, with_acl_checker,
}
use cherenkov.PubSub.{with_bounds, default_channel}
use cherenkov.MemoryBroker.{Broadcast, MemoryBroker, with_capacity}
use cherenkov.Schema
use cherenkov.Schema.{
  JsonSchema, RegistryError, invalid_schema, JsonSchemaRegistry, JsonSchemaRegistryBuilder,
  schema_validator,
}
use cherenkov.Acl
use cherenkov.Acl.{Globset, AclRule, AclMatch, NamespaceAclBuilder, namespace_checker}
use cherenkov.Jwt
use cherenkov.Jwt.{Jsonwebtoken, JwtAuthBuilder, jwt_authenticator}
use cherenkov.Crdt.Yjs.{Yrs}
use cherenkov.Crdt.Automerge.{AutoCommit}
use cherenkov.Server.Config.{
  AclActionConfig, AclEffectConfig, AclRuleConfig, AclConfig, AuthConfig, NamespaceConfig,
  NamespacesConfig, ChannelKindName, ChannelKindsConfig, BrokerBackend, BrokerConfig, ServerConfig,
  validate_schema_source, history_ttl,
}
use cherenkov.Server.Kinds.{KindHandle, server_kinds}
use cherenkov.Server.Parts.{
  ServerError, hub, Failure, failed, panicked, Outside, BrokerHandle, build_broker,
  build_schema_registry, build_authenticator, build_namespace_kinds, build_acl,
}

module _ (O : Outside) where
  -- The platform of a server: its kinds, with any broker and `mpsc`
  abbrev pub server_platform : Broker → Mpsc → Platform
  server_platform B M = record { kinds = server_kinds O.yrs O.automerge; broker = B; mpsc = M }

  module _ (B : Broker) (M : Mpsc) where
    -- `T` is `Box<dyn Transport>`, of which `build_hub` registers none.
    abbrev pub Builder : Type 0
    Builder = HubBuilder (server_platform B M) (BrokerHandle O) (Unit {0})

    unfoldable pub with_kinds : List (String × KindHandle) → Builder → Builder
    with_kinds [] b = b
    with_kinds ((namespace, kind) ∷ kinds) b =
        with_kinds kinds (with_channel_kind_for {P = server_platform B M} namespace kind b)

    -- The chain of calls on `HubBuilder::new()`, before the loop over the namespaces' kinds
    unfoldable pub configured :
        ServerConfig O.json.Value
        → BrokerHandle O
        → JsonSchemaRegistry O.json
        → Authenticator
        → AclChecker
        → Builder
    configured c handle registry authenticator checker = with_acl_checker checker (
        with_authenticator authenticator (
          with_schema_validator (schema_validator registry) (
            with_broker handle (
              with_channel_kind
                (KindHandle.pubsub 0
                  (with_bounds c.channel_pubsub.history_size (history_ttl c.channel_pubsub)))
                new_builder))))

    unfoldable pub finish :
        ServerConfig O.json.Value → Builder → Result Failure (Hub (server_platform B M))
    unfolding with_kinds build_namespace_kinds
    finish c b =
        and_then_ok
          (map_err (λ e. failed (hub e))
            (Hub.build (with_kinds (build_namespace_kinds 1 c.channel_kinds) b)))
          λ built. ok built.hub

    unfoldable pub build_hub :
        ServerConfig O.json.Value → Result Failure (Hub (server_platform B M))
    unfolding build_broker build_schema_registry build_authenticator build_acl configured finish
    build_hub c = and_then_ok (build_broker O c.broker) λ handle.
        and_then_ok (build_schema_registry O c.namespaces) λ registry.
          and_then_ok (build_authenticator O c.auth) λ authenticator.
            and_then_ok (build_acl O c.acl)
              λ checker. finish c (configured c handle registry authenticator checker)
