-- ===== src/Examples/Startups.antt =====
-- A network whose addresses are texts, a server that starts on it, and one whose SSE listener has no
-- address left.
use cherenkov.Prelude.{
  ℕ, String, ◌≡◌, refl, none, some, ok, err, List, [], ◌∷◌, true, ◌==◌, string_eq, nat_eq,
  if◌then◌else◌, Bool, false,
}
use cherenkov.Prelude.Dict
use cherenkov.MemoryBroker.{memory_broker}
use cherenkov.Core.Hub.{Hub}
use cherenkov.Server.Config.{ServerConfig}
use cherenkov.Server.Parts.{ServerError, Failure, failed}
use cherenkov.Server.Build.{server_platform, build_hub}
use cherenkov.Server.Startup
use cherenkov.Server.Startup.{
  new_task, Net, Runtime, Service, ServerRunHandle, Outcome, returned, ws, run, listen_on, shutdown,
  wait,
}
use cherenkov.Server.Startup.Tasks.{Stopped, task_of}
use cherenkov.Server.Startup.Stopping.{run-Stopped, run-serves}
use cherenkov.Examples.Toy.{tapes, outboxes}
use cherenkov.Prelude.Utf8
use cherenkov.Prelude.Format
use cherenkov.Core.Hub
use cherenkov.Schema
use cherenkov.Acl
use cherenkov.Jwt
use cherenkov.Server.Config
use cherenkov.Server.Parts
use cherenkov.Server.Build
use cherenkov.Examples.Servers.{outside, config, small_hub}

abbrev taken : String → List String → Bool
taken address [] = false
taken address (a ∷ bound) = if a == address then true else taken address bound

-- An address is bound at most once.
abbrev net : Net
net = record {
  State = List String;
  Listener = String;
  bind = λ address bound.
      if taken address bound then (err "in use", bound) else (ok address, address ∷ bound);
  local_addr = λ address. ok address;
  drop_listener = λ address bound. bound;
}

abbrev ServerHub : Type 0
ServerHub = Hub (server_platform outside (memory_broker tapes) outboxes)

abbrev idle : Runtime net ServerHub
idle = record { net = []; tasks = Dict.empty; next_task = 0 }

-- SSE and WebSocket at two addresses
abbrev with_sse : String → ServerConfig ℕ
with_sse address = record (config "s") {
  transport = record {
    ws = record { listen = "a"; path = "/ws"; outbox_capacity = 8 };
    sse = some (record { listen = address; path_prefix = "" });
  };
}

abbrev handle : ServerRunHandle
handle = record { ws_addr = "a"; sse_addr = some "b"; admin_addr = none; joins = 0 ∷ 1 ∷ [] }

runs :
    ((run outside (memory_broker tapes) outboxes net (with_sse "b") idle).0 ≡ ok handle)
    × ((run outside (memory_broker tapes) outboxes net (with_sse "a") idle).0
        ≡ err (failed (ServerError.transport "sse bind: in use")))
    × (build_hub outside (memory_broker tapes) outboxes (with_sse "a") ≡ ok small_hub)
    × ((listen_on {N = net} {H = ServerHub} "ws" "a" idle).0 ≡ ok ("a", "a"))
unfolding Build.build_hub Build.configured Build.finish Build.with_kinds Parts.build_broker
    Parts.build_schema_registry Parts.add_namespaces Parts.build_authenticator
    Parts.build_namespace_kinds Parts.kind_of Parts.build_acl Jwt.build Jwt.with_hmac_secret
    Jwt.check_audience Jwt.check_issuer Config.history_ttl Schema.build Hub.build
    Hub.with_channel_kind Hub.with_channel_kind_for Hub.with_broker Hub.with_schema_validator
    Hub.with_authenticator Hub.with_acl_checker Utf8.as_bytes Utf8.encode_char Startup.run
    Startup.start_all Startup.start_sse Startup.start_admin Startup.listen_on Startup.spawn_service
    Format.concat Parts.add_namespace Parts.schema_value Parts.compile_rule Parts.add_rules
    Schema.with_namespace Config.validate_schema_source Acl.with_subject Acl.with_rule Acl.new_rule
    Acl.try_allow Acl.try_deny Acl.build Acl.default_allow
runs = (refl, refl, refl, refl)

abbrev started : Runtime net ServerHub
started = (run outside (memory_broker tapes) outboxes net (with_sse "b") idle).1

run-Stopped_example :
    Stopped (0 ∷ 1 ∷ []) idle (shutdown (0 ∷ 1 ∷ []) started)
    × ((first : ℕ) (outcome : Outcome)
        → Stopped (0 ∷ 1 ∷ []) idle (wait (0 ∷ 1 ∷ []) first outcome started).1)
run-Stopped_example =
    run-Stopped outside (memory_broker tapes) outboxes net (with_sse "b") idle handle runs.0

run-serves_example :
    task_of 0 (run outside (memory_broker tapes) outboxes net (with_sse "a") idle).1
    ≡ some (new_task (ws "a" "/ws" 8) small_hub)
run-serves_example =
    run-serves outside (memory_broker tapes) outboxes net (with_sse "a") idle small_hub "a" "a"
      runs.2 runs.3
