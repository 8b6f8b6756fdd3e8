-- ===== src/Server/Build/Failing.antt =====
-- How `build_hub` of crates/cherenkov-server/src/app.rs can fail.
use cherenkov.Prelude.{
  String, ◌≡◌, refl, Option, none, some, Result, ok, err, map_err, Fails, Fails-and_then_ok,
  Fails-map_err, Fails-err, map_err-eq_ok, ◌∙◌, List, [], ◌∷◌, ◌==◌, string_eq, arith, Bool-cases,
  inl, inr,
}
use cherenkov.Core.Traits.{Broker, Mpsc}
use cherenkov.Core.Hub
use cherenkov.Core.Hub.{
  Hub, HubBuilder, with_channel_kind, with_channel_kind_for, with_broker, with_schema_validator,
  with_authenticator, with_acl_checker,
}
use cherenkov.Schema
use cherenkov.Prelude.Utf8.{as_bytes}
use cherenkov.Protocol.{Bytes}
use cherenkov.Schema.{JsonSchemaRegistryBuilder}
use cherenkov.Acl.{with_subject, AclRule, NamespaceAclBuilder}
use cherenkov.Jwt
use cherenkov.Jwt.{Jsonwebtoken, JwtAuthBuilder}
use cherenkov.Server.Config.{
  AclRuleConfig, AclConfig, AuthConfig, NamespaceConfig, NamespacesConfig, BrokerBackend,
  BrokerConfig, ServerConfig, validate_schema_source,
}
use cherenkov.Server.Kinds.{KindHandle}
use cherenkov.Server.Parts.{
  ServerError, Failure, failed, panicked, Outside, BrokerHandle, build_broker, read_schema,
  schema_value, add_namespace, add_namespaces, build_schema_registry, build_authenticator,
  build_namespace_kinds, with_audiences, with_issuer_of, compile_rule, add_rules, build_acl,
  with_subject_of, connected, connect_backend, try_effect, match_of,
}
use cherenkov.Server.Build.{server_platform, Builder, with_kinds, configured, finish, build_hub}

-- The settings' own errors: neither a panic nor an error of the hub's builder
abbrev pub IsSetting : Failure → Type 0
IsSetting panicked = ⊥
IsSetting (failed (ServerError.schema e)) = Unit
IsSetting (failed (ServerError.auth e)) = Unit
IsSetting (failed (ServerError.acl e)) = Unit
IsSetting (failed (ServerError.broker e)) = Unit
IsSetting (failed (ServerError.hub e)) = ⊥
IsSetting (failed (ServerError.transport e)) = ⊥
IsSetting (failed (ServerError.task e)) = ⊥

module _ (O : Outside) where
  Fails-connected :
      {A : Type 0} (missing : String) (connect : String → Result String A) (url : Option String)
      → Fails IsSetting (connected O missing connect url)
  Fails-connected missing connect none = tt
  Fails-connected missing connect (some url) = Fails-map_err IsSetting _ (connect url) (λ _. tt)

  Fails-connect_backend :
      (b : BrokerBackend) (c : BrokerConfig) → Fails IsSetting (connect_backend O b c)
  unfolding connect_backend
  Fails-connect_backend BrokerBackend.memory c = tt
  Fails-connect_backend BrokerBackend.redis c =
      Fails-and_then_ok IsSetting _ _ (Fails-connected _ O.connect_redis c.redis_url) (λ _ _. tt)
  Fails-connect_backend BrokerBackend.nats c =
      Fails-and_then_ok IsSetting _ _ (Fails-connected _ O.connect_nats c.nats_url) (λ _ _. tt)

  Fails-build_broker : (c : BrokerConfig) → Fails IsSetting (build_broker O c)
  unfolding build_broker
  Fails-build_broker c = Fails-connect_backend c.backend c

  Fails-read_schema : (namespace path : String) → Fails IsSetting (read_schema O namespace path)
  unfolding read_schema
  Fails-read_schema namespace path =
      Fails-and_then_ok IsSetting _ _ (Fails-map_err IsSetting _ (O.read_file path) (λ _. tt))
        λ bytes _. Fails-map_err IsSetting _ (O.json.from_slice bytes) (λ _. tt)

  -- Where `validate_schema_source` succeeds, `unreachable!` is not reached.
  Fails-schema_value :
      (namespace : String) (schema : Option O.json.Value) (path : Option String)
      (c : NamespaceConfig O.json.Value)
      → validate_schema_source (record c { schema = schema; schema_path = path }) ≡ ok tt
      → Fails IsSetting (schema_value O namespace schema path)
  unfolding schema_value validate_schema_source
  Fails-schema_value namespace (some value) none c h = tt
  Fails-schema_value namespace none (some path) c h = Fails-read_schema namespace path
  Fails-schema_value namespace none none c h = absurd (ground (arith, h))
  Fails-schema_value namespace (some value) (some path) c h = absurd (ground (arith, h))

  Fails-add_namespace :
      (namespace : String) (c : NamespaceConfig O.json.Value) (b : JsonSchemaRegistryBuilder O.json)
      → Fails IsSetting (add_namespace O namespace c b)
  unfolding add_namespace
  Fails-add_namespace namespace c b =
      Fails-and_then_ok IsSetting _ _
        (Fails-map_err IsSetting _ (validate_schema_source c) (λ _. tt))
        λ _ valid.
          Fails-and_then_ok IsSetting _ _
            (Fails-schema_value namespace c.schema c.schema_path c
              (map_err-eq_ok _ (validate_schema_source c) tt valid))
            λ value _. Fails-map_err IsSetting _ (Schema.with_namespace namespace value b) (λ _. tt)

  Fails-add_namespaces :
      (namespaces : NamespacesConfig O.json.Value) (b : JsonSchemaRegistryBuilder O.json)
      → Fails IsSetting (add_namespaces O namespaces b)
  unfolding add_namespaces
  Fails-add_namespaces [] b = tt
  Fails-add_namespaces ((namespace, c) ∷ namespaces) b =
      Fails-and_then_ok IsSetting _ _ (Fails-add_namespace namespace c b)
        (λ b _. Fails-add_namespaces namespaces b)

  Fails-build_schema_registry :
      (namespaces : NamespacesConfig O.json.Value)
      → Fails IsSetting (build_schema_registry O namespaces)
  unfolding build_schema_registry
  Fails-build_schema_registry namespaces =
      Fails-and_then_ok IsSetting _ _ (Fails-add_namespaces namespaces _) (λ _ _. tt)

  secret-with_audiences :
      (audiences : List String) (b : JwtAuthBuilder)
      → (with_audiences O audiences b).secret ≡ b.secret
  unfolding Jwt.with_audience
  secret-with_audiences [] b = refl
  secret-with_audiences (a ∷ audiences) b = secret-with_audiences audiences (Jwt.with_audience a b)

  secret-with_issuer_of :
      (issuer : Option String) (b : JwtAuthBuilder) → (with_issuer_of O issuer b).secret ≡ b.secret
  unfolding Jwt.with_issuer
  secret-with_issuer_of none b = refl
  secret-with_issuer_of (some issuer) b = refl

  build-secret :
      (b : JwtAuthBuilder) (secret : Bytes)
      → b.secret ≡ some secret
      → (a : Jwt.JwtAuthenticator O.tokens) × (Jwt.build O.tokens b ≡ some a)
  unfolding Jwt.build
  build-secret b secret e = (
    record {
      key = O.tokens.from_secret secret;
      validation = Jwt.check_issuer O.tokens b.issuer (
          Jwt.check_audience O.tokens b.audiences
            (O.tokens.new_validation (Jwt.to_algorithm b.algorithm)));
    },
    rw (e, Jwt.build) refl,
  )

  -- The builder has a secret, so `expect` does not panic.
  build-configured :
      (c : AuthConfig)
      → (a : Jwt.JwtAuthenticator O.tokens) × (Jwt.build O.tokens (
            with_issuer_of O c.issuer (
              with_audiences O c.audiences
                (Jwt.with_hmac_secret (as_bytes c.hmac_secret) Jwt.new_builder)))
          ≡ some a)
  unfolding Jwt.with_hmac_secret
  build-configured c =
      build-secret _ (as_bytes c.hmac_secret)
        (secret-with_issuer_of c.issuer _ ∙ secret-with_audiences c.audiences _)

  Fails-build_authenticator : (c : Option AuthConfig) → Fails IsSetting (build_authenticator O c)
  unfolding build_authenticator
  Fails-build_authenticator none = tt
  Fails-build_authenticator (some c) = elim (Bool-cases (c.hmac_secret == "")) [
    | inl e ↦ rw (e, build_authenticator) tt
    | inr e ↦ rw (e, build_authenticator) (let (a, built) = build-configured c in rw built tt)
  ]

  Fails-with_subject_of :
      (subject : Option String) (compiled : AclRule O.globset)
      → Fails IsSetting (with_subject_of O subject compiled)
  Fails-with_subject_of none compiled = tt
  Fails-with_subject_of (some subject) compiled =
      Fails-map_err IsSetting _ (with_subject subject compiled) (λ _. tt)

  Fails-compile_rule : (rule : AclRuleConfig) → Fails IsSetting (compile_rule O rule)
  unfolding compile_rule
  Fails-compile_rule rule =
      Fails-and_then_ok IsSetting _ _
        (Fails-map_err IsSetting _ (try_effect O rule.effect rule.channel (match_of O rule.action))
          (λ _. tt))
        (λ compiled _. Fails-with_subject_of rule.subject compiled)

  Fails-add_rules :
      (rules : List AclRuleConfig) (b : NamespaceAclBuilder O.globset)
      → Fails IsSetting (add_rules O rules b)
  unfolding add_rules
  Fails-add_rules [] b = tt
  Fails-add_rules (rule ∷ rules) b =
      Fails-and_then_ok IsSetting _ _ (Fails-compile_rule rule)
        (λ compiled _. Fails-add_rules rules _)

  Fails-build_acl : (c : Option AclConfig) → Fails IsSetting (build_acl O c)
  unfolding build_acl
  Fails-build_acl none = tt
  Fails-build_acl (some c) = Fails-and_then_ok IsSetting _ _ (Fails-add_rules c.rules _) (λ b _. tt)

module _ (O : Outside) (B : Broker) (M : Mpsc) where
  kind-with_kinds :
      (kinds : List (String × KindHandle)) (b : Builder O B M)
      → ((with_kinds O B M kinds b).kind ≡ b.kind) × ((with_kinds O B M kinds b).broker ≡ b.broker)
  unfolding with_kinds with_channel_kind_for
  kind-with_kinds [] b = (refl, refl)
  kind-with_kinds ((namespace, kind) ∷ kinds) b =
      kind-with_kinds kinds (with_channel_kind_for {P = server_platform O B M} namespace kind b)

  -- The builder has a kind and a broker, so that it builds.
  Fails-build :
      (b : Builder O B M) (kind : KindHandle) (handle : BrokerHandle O)
      → b.kind ≡ some kind
      → b.broker ≡ some handle
      → Fails IsSetting (map_err (λ e. failed (ServerError.hub e)) (Hub.build b))
  unfolding Hub.build
  Fails-build b kind handle k h = ground (arith, k, h)

  Fails-finish :
      (c : ServerConfig O.json.Value) (b : Builder O B M) (kind : KindHandle)
      (handle : BrokerHandle O)
      → b.kind ≡ some kind
      → b.broker ≡ some handle
      → Fails IsSetting (finish O B M c b)
  unfolding finish
  Fails-finish c b kind handle k h =
      let (same_kind, same_broker) = kind-with_kinds (build_namespace_kinds 1 c.channel_kinds) b in
      Fails-and_then_ok IsSetting _ _
        (Fails-build (with_kinds O B M (build_namespace_kinds 1 c.channel_kinds) b) kind handle
          (same_kind ∙ k) (same_broker ∙ h))
        (λ _ _. tt)

  Fails-build_hub : (c : ServerConfig O.json.Value) → Fails IsSetting (build_hub O B M c)
  unfolding build_hub configured with_channel_kind with_broker with_schema_validator
      with_authenticator with_acl_checker
  Fails-build_hub c = Fails-and_then_ok IsSetting _ _ (Fails-build_broker O c.broker) λ handle _.
      Fails-and_then_ok IsSetting _ _ (Fails-build_schema_registry O c.namespaces) λ registry _.
        Fails-and_then_ok IsSetting _ _ (Fails-build_authenticator O c.auth) λ authenticator _.
          Fails-and_then_ok IsSetting _ _ (Fails-build_acl O c.acl) λ checker _.
            Fails-finish c (configured O B M c handle registry authenticator checker) _ handle refl
              refl

  -- Building the hub from settings never panics, and never fails in the hub's own builder: an error is
  -- one of the schema, authentication, access-rule or broker settings.
  pub build_hub-IsSetting :
      (c : ServerConfig O.json.Value) (e : Failure) → build_hub O B M c ≡ err e → IsSetting e
  build_hub-IsSetting c e h = Fails-err IsSetting (build_hub O B M c) e (Fails-build_hub c) h
