-- ===== src/Examples/Servers.antt =====
-- Settings, what a small server gets from outside, and instances of the theorems on building a hub
-- and on the admin API.
use cherenkov.Prelude.{
  ℕ, false, String, ◌≡◌, refl, some, none, ok, err, [], ◌∷◌, ◌==◌, string_eq, arith, true,
  if◌then◌else◌,
}
use cherenkov.Prelude.Dict
use cherenkov.Prelude.Utf8
use cherenkov.Protocol.{Bytes}
use cherenkov.Core.Hub
use cherenkov.Core.Hub.{Hub}
use cherenkov.Core.Hub.Reach.{Reach, Reach-IsConsistent, here, next, opened}
use cherenkov.MemoryBroker.{memory_broker}
use cherenkov.Schema
use cherenkov.Schema.{JsonSchema}
use cherenkov.Jwt
use cherenkov.Jwt.{Jsonwebtoken, Algorithm, jwt_authenticator}
use cherenkov.PubSub.{with_bounds}
use cherenkov.Server.Config
use cherenkov.Server.Config.{ServerConfig, ChannelKindName, default_config}
use cherenkov.Server.Kinds.{KindHandle}
use cherenkov.Server.Parts
use cherenkov.Server.Parts.{ServerError, Failure, failed, Outside}
use cherenkov.Server.Build
use cherenkov.Server.Build.{server_platform, build_hub}
use cherenkov.Server.Build.Failing.{IsSetting, build_hub-IsSetting}
use cherenkov.Server.Build.Meaning.{Obeys, build_hub-Obeys}
use cherenkov.Admin.{AdminResources, Request, disconnect_route, require_token}
use cherenkov.Admin.Guard.{Changed, require_token-Changed}
use cherenkov.Examples.Toy.{toy, tapes, no_tape, outboxes}
use cherenkov.Acl
use cherenkov.Acl.{Effect, AclMatch, namespace_checker}
use cherenkov.Examples.Rules.{globs}
use cherenkov.Examples.Schemas.{bounds}
use cherenkov.Examples.Documents.{updates, loads}
use cherenkov.Examples.Hubs.{hub, empty_world, one_session}

-- The only token is "alice".
abbrev tokens : Jsonwebtoken
tokens = record {
  DecodingKey = Bytes;
  Validation = Unit {0};
  from_secret = λ secret. secret;
  new_validation = λ algorithm. tt;
  set_audience = λ audiences validation. validation;
  skip_audience = λ validation. validation;
  set_issuer = λ issuers validation. validation;
  decode = λ token key validation.
      if token == "alice"
      then ok (record { sub = "alice"; permissions = none; exp = none })
      else err "unknown";
}

abbrev pub outside : Outside
outside = record {
  yrs = updates;
  automerge = loads;
  globset = globs;
  glob_error = λ e. "bad glob";
  json = bounds;
  tokens = tokens;
  broadcast = tapes;
  unused = no_tape;
  Redis = Unit {0};
  connect_redis = λ url. err "unreachable";
  Nats = Unit {0};
  connect_nats = λ url. err "unreachable";
  read_file = λ path. err "missing";
}

-- Tokens are asked for, "alice" may publish everywhere, orders have a bound, and documents have a kind
-- of their own.
abbrev pub config : String → ServerConfig ℕ
config secret = record default_config {
  auth = some (record { hmac_secret = secret; audiences = []; issuer = none });
  acl = some (record {
    rules =
        record {
          effect = Config.AclEffectConfig.allow;
          channel = "*";
          subject = some "alice";
          action = Config.AclActionConfig.publish;
        }
        ∷ [];
    default_allow = false;
  });
  namespaces =
      (
        "orders",
        record { kind = Config.SchemaKind.json_schema; schema = some 5; schema_path = none },
      )
      ∷ [];
  channel_kinds = ("docs", ChannelKindName.crdt_yjs) ∷ [];
}

abbrev pub small_hub : Hub (server_platform outside (memory_broker tapes) outboxes)
small_hub = record {
  kind = KindHandle.pubsub 0 (with_bounds 256 300);
  namespace_kinds = Dict.put Dict.empty "docs" (KindHandle.yjs 1);
  validator =
      Schema.schema_validator {J = bounds} (record { schemas = Dict.put Dict.empty "orders" 5 });
  authenticator = jwt_authenticator tokens (record { key = b's' ∷ []; validation = tt });
  acl = namespace_checker {G = globs} (record {
    rules =
        record {
          effect = Effect.allow;
          channel = "*";
          subject = some "alice";
          action = AclMatch.publish;
        }
        ∷ [];
    default_allow = false;
  });
}

runs :
    (build_hub outside (memory_broker tapes) outboxes (config "s") ≡ ok small_hub)
    × (build_hub outside (memory_broker tapes) outboxes (config "")
        ≡ err (failed (ServerError.auth "auth.hmac_secret must not be empty")))
unfolding Build.build_hub Build.configured Build.finish Build.with_kinds Parts.build_broker
    Parts.build_schema_registry Parts.add_namespaces Parts.build_authenticator
    Parts.build_namespace_kinds Parts.kind_of Parts.build_acl Jwt.build Jwt.with_hmac_secret
    Jwt.check_audience Jwt.check_issuer Config.history_ttl Schema.build Hub.build
    Hub.with_channel_kind Hub.with_channel_kind_for Hub.with_broker Hub.with_schema_validator
    Hub.with_authenticator Hub.with_acl_checker Utf8.as_bytes Utf8.encode_char Parts.add_namespace
    Parts.schema_value Parts.compile_rule Parts.add_rules Schema.with_namespace
    Config.validate_schema_source Acl.with_subject Acl.with_rule Acl.new_rule Acl.try_allow
    Acl.try_deny Acl.build Acl.default_allow
runs = (refl, refl)

build_hub-IsSetting_example :
    IsSetting (failed (ServerError.auth "auth.hmac_secret must not be empty"))
build_hub-IsSetting_example =
    build_hub-IsSetting outside (memory_broker tapes) outboxes (config "")
      (failed (ServerError.auth "auth.hmac_secret must not be empty")) runs.1

build_hub-Obeys_example : Obeys outside (memory_broker tapes) outboxes (config "s") small_hub
build_hub-Obeys_example =
    build_hub-Obeys outside (memory_broker tapes) outboxes (config "s") small_hub runs.0

abbrev guarded : AdminResources toy (Unit {0})
guarded = record { sessions = true; hub = some hub; metrics = none; auth_token = some "secret" }

abbrev disconnect : Request
disconnect = record { route = disconnect_route 0; authorization = some "Bearer secret" }

path : Reach hub empty_world one_session
path = next here (opened 7 empty_world (omega arith))

require_token-Changed_example :
    Changed
      (λ metrics. "")
      guarded
      disconnect
      one_session
      (require_token (λ metrics. "") guarded disconnect one_session).1
require_token-Changed_example =
    require_token-Changed (λ metrics. "") guarded disconnect one_session
      (Reach-IsConsistent path refl)
