-- ===== src/Server/Parts.antt =====
-- crates/cherenkov-server/src/app.rs: the parts that `build_hub` builds. Logs are left out.
use cherenkov.Prelude.{
  ℕ, suc, String, Option, none, some, Result, ok, err, map_err, and_then_ok, List, [], ◌∷◌, ◌==◌,
  string_eq, if◌then◌else◌,
}
use cherenkov.Prelude.Utf8.{as_bytes}
use cherenkov.Prelude.Format.{concat}
use cherenkov.Protocol.{Bytes}
use cherenkov.Core.Traits.{Authenticator, AclChecker, allow_all_authenticator, allow_all_acl}
use cherenkov.PubSub.{default_channel}
use cherenkov.MemoryBroker.{Broadcast, MemoryBroker, with_capacity}
use cherenkov.Schema
use cherenkov.Schema.{
  JsonSchema, RegistryError, invalid_schema, JsonSchemaRegistry, JsonSchemaRegistryBuilder,
  schema_validator,
}
use cherenkov.Acl
use cherenkov.Acl.{Globset, AclRule, AclMatch, NamespaceAclBuilder, namespace_checker}
use cherenkov.Jwt
use cherenkov.Jwt.{Jsonwebtoken, JwtAuthBuilder, jwt_authenticator}
use cherenkov.Crdt.Yjs.{Yrs}
use cherenkov.Crdt.Automerge.{AutoCommit}
use cherenkov.Server.Config.{
  AclActionConfig, AclEffectConfig, AclRuleConfig, AclConfig, AuthConfig, NamespaceConfig,
  NamespacesConfig, ChannelKindName, ChannelKindsConfig, BrokerBackend, BrokerConfig,
  validate_schema_source,
}
use cherenkov.Server.Kinds.{KindHandle}

pub data ServerError : Type 0 where
  hub transport task schema auth acl broker : String → ServerError

-- How the building can end without a hub: with an error, or with a panic.
pub data Failure : Type 0 where
  failed : ServerError → Failure
  panicked : Failure

-- What a server gets from outside the repository: the engines of documents, glob patterns, JSON
-- schemas, tokens, `tokio`'s broadcast channel, the clients of other brokers with their `connect`, and
-- the file system. The `String` of an error is what its `Display` writes.
pub record Outside : Type 1 where
  pub yrs : Yrs
  pub automerge : AutoCommit
  pub globset : Globset
  pub glob_error : globset.Error → String
  pub json : JsonSchema
  pub tokens : Jsonwebtoken
  pub broadcast : Broadcast
  pub unused : broadcast.Channel
  pub Redis : Type 0
  pub connect_redis : String → Result String Redis
  pub Nats : Type 0
  pub connect_nats : String → Result String Nats
  pub read_file : String → Result String Bytes

-- The names' kinds; the objects are numbered from `i` on.
unfoldable pub kind_of : ℕ → ChannelKindName → KindHandle
kind_of i ChannelKindName.pubsub = KindHandle.pubsub i default_channel
kind_of i ChannelKindName.crdt_yjs = KindHandle.yjs i
kind_of i ChannelKindName.crdt_automerge = KindHandle.automerge i

unfoldable pub build_namespace_kinds : ℕ → ChannelKindsConfig → List (String × KindHandle)
unfolding kind_of
build_namespace_kinds i [] = []
build_namespace_kinds i ((namespace, name) ∷ rest) =
    (namespace, kind_of i name) ∷ build_namespace_kinds (suc i) rest

module _ (O : Outside) where
  -- An `Arc<dyn Broker>`
  pub data BrokerHandle : Type 0 where
    memory : MemoryBroker O.broadcast → BrokerHandle
    redis : O.Redis → BrokerHandle
    nats : O.Nats → BrokerHandle

  -- `ok_or_else` of a missing URL, and `connect`
  abbrev pub connected :
      {A : Type 0} → String → (String → Result String A) → Option String → Result Failure A
  connected missing connect none = err (failed (broker missing))
  connected missing connect (some url) = map_err (λ e. failed (broker e)) (connect url)

  -- The arms of the `match` on the backend
  unfoldable pub connect_backend : BrokerBackend → BrokerConfig → Result Failure BrokerHandle
  connect_backend BrokerBackend.memory c = ok (memory (with_capacity c.capacity O.unused))
  connect_backend BrokerBackend.redis c =
      and_then_ok
        (connected "broker.backend = redis requires broker.redis_url" O.connect_redis c.redis_url)
        λ client. ok (redis client)
  connect_backend BrokerBackend.nats c =
      and_then_ok
        (connected "broker.backend = nats requires broker.nats_url" O.connect_nats c.nats_url)
        λ client. ok (nats client)

  unfoldable pub build_broker : BrokerConfig → Result Failure BrokerHandle
  unfolding connect_backend
  build_broker c = connect_backend c.backend c

  abbrev in_namespace : String → List String → ServerError
  in_namespace namespace parts = schema (concat ("namespace `" ∷ namespace ∷ "`: " ∷ parts))

  unfoldable pub read_schema : String → String → Result Failure O.json.Value
  read_schema namespace path =
      and_then_ok
        (map_err
          (λ e. failed (in_namespace namespace ("cannot read schema file " ∷ path ∷ ": " ∷ e ∷ [])))
          (O.read_file path))
        λ bytes.
          map_err
            (λ e.
              failed
                (in_namespace namespace ("schema file " ∷ path ∷ " is not valid JSON: " ∷ e ∷ [])))
            (O.json.from_slice bytes)

  -- The `match` on both sources; its last arm is `unreachable!`.
  unfoldable pub schema_value :
      String → Option O.json.Value → Option String → Result Failure O.json.Value
  unfolding read_schema
  schema_value namespace (some value) none = ok value
  schema_value namespace none (some path) = read_schema namespace path
  schema_value namespace none none = err panicked
  schema_value namespace (some value) (some path) = err panicked

  abbrev registry_error : RegistryError → String
  registry_error (invalid_schema namespace reason) =
      concat ("schema for namespace `" ∷ namespace ∷ "` is invalid: " ∷ reason ∷ [])

  -- The body of the loop over the namespaces
  unfoldable pub add_namespace :
      String
      → NamespaceConfig O.json.Value
      → JsonSchemaRegistryBuilder O.json
      → Result Failure (JsonSchemaRegistryBuilder O.json)
  unfolding schema_value
  add_namespace namespace c b =
      and_then_ok
        (map_err (λ reason. failed (in_namespace namespace (reason ∷ [])))
          (validate_schema_source c))
        λ _. and_then_ok (schema_value namespace c.schema c.schema_path) λ value.
          map_err (λ e. failed (schema (registry_error e)))
            (Schema.with_namespace namespace value b)

  unfoldable pub add_namespaces :
      NamespacesConfig O.json.Value
      → JsonSchemaRegistryBuilder O.json
      → Result Failure (JsonSchemaRegistryBuilder O.json)
  unfolding add_namespace
  add_namespaces [] b = ok b
  add_namespaces ((namespace, c) ∷ namespaces) b =
      and_then_ok (add_namespace namespace c b) (add_namespaces namespaces)

  unfoldable pub build_schema_registry :
      NamespacesConfig O.json.Value → Result Failure (JsonSchemaRegistry O.json)
  unfolding add_namespaces
  build_schema_registry namespaces =
      and_then_ok (add_namespaces namespaces Schema.new_builder) λ b. ok (Schema.build b)

  abbrev pub with_audiences : List String → JwtAuthBuilder → JwtAuthBuilder
  with_audiences [] b = b
  with_audiences (audience ∷ audiences) b = with_audiences audiences (Jwt.with_audience audience b)

  abbrev pub with_issuer_of : Option String → JwtAuthBuilder → JwtAuthBuilder
  with_issuer_of none b = b
  with_issuer_of (some issuer) b = Jwt.with_issuer issuer b

  unfoldable pub build_authenticator : Option AuthConfig → Result Failure Authenticator
  build_authenticator none = ok allow_all_authenticator
  build_authenticator (some c) =
      if c.hmac_secret == ""
      then err (failed (auth "auth.hmac_secret must not be empty"))
      else elim (Jwt.build O.tokens (
          with_issuer_of c.issuer (
            with_audiences c.audiences
              (Jwt.with_hmac_secret (as_bytes c.hmac_secret) Jwt.new_builder)))) [
                | none ↦ err panicked
                | some a ↦ ok (jwt_authenticator O.tokens a)
              ]

  abbrev pub match_of : AclActionConfig → AclMatch
  match_of AclActionConfig.subscribe = AclMatch.subscribe
  match_of AclActionConfig.publish = AclMatch.publish
  match_of AclActionConfig.any = AclMatch.any

  abbrev pub try_effect :
      AclEffectConfig → String → AclMatch → Result O.globset.Error (AclRule O.globset)
  try_effect AclEffectConfig.allow = Acl.try_allow
  try_effect AclEffectConfig.deny = Acl.try_deny

  abbrev pub with_subject_of :
      Option String → AclRule O.globset → Result Failure (AclRule O.globset)
  with_subject_of none rule = ok rule
  with_subject_of (some subject) rule =
      map_err
        (λ e.
          failed (acl (concat ("invalid subject glob `" ∷ subject ∷ "`: " ∷ O.glob_error e ∷ []))))
        (Acl.with_subject subject rule)

  -- The body of the loop over the rules
  unfoldable pub compile_rule : AclRuleConfig → Result Failure (AclRule O.globset)
  compile_rule rule =
      and_then_ok
        (map_err
          (λ e.
            failed (
              acl (concat ("invalid channel glob `" ∷ rule.channel ∷ "`: " ∷ O.glob_error e ∷ []))))
          (try_effect rule.effect rule.channel (match_of rule.action)))
        (with_subject_of rule.subject)

  unfoldable pub add_rules :
      List AclRuleConfig
      → NamespaceAclBuilder O.globset
      → Result Failure (NamespaceAclBuilder O.globset)
  unfolding compile_rule
  add_rules [] b = ok b
  add_rules (rule ∷ rules) b =
      and_then_ok (compile_rule rule) λ compiled. add_rules rules (Acl.with_rule compiled b)

  unfoldable pub build_acl : Option AclConfig → Result Failure AclChecker
  unfolding add_rules
  build_acl none = ok allow_all_acl
  build_acl (some c) =
      and_then_ok (add_rules c.rules (Acl.default_allow c.default_allow Acl.new_builder))
        λ b. ok (namespace_checker (Acl.build b))
