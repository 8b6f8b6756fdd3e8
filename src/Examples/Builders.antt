-- ===== src/Examples/Builders.antt =====
-- A builder with a default kind, and an instance of the theorem on namespaces.
use cherenkov.Prelude.{ℕ, ◌≡◌, refl, some, ok, [], ◌==◌, string_eq, if◌then◌else◌}
use cherenkov.Prelude.Dict
use cherenkov.Core.Namespace.{namespace_of}
use cherenkov.Core.Hub
use cherenkov.Core.Hub.{
  HubBuilder, HubBuilt, new_builder, with_channel_kind, with_broker, with_channel_kind_for, build,
  kind_for,
}
use cherenkov.Core.Hub.Building.{kind_for-with_channel_kind_for}
use cherenkov.PubSub.{PubSubChannel}
use cherenkov.Examples.Toy.{toy}
use cherenkov.Examples.Hubs.{hub}

-- A broker and a transport are numbers here.
abbrev builder : HubBuilder toy ℕ ℕ
builder = record new_builder { kind = some hub.kind; broker = some 1 }

abbrev rooms_kind : PubSubChannel
rooms_kind = record { epoch = 1; history_size = 8; history_ttl = 60 }

abbrev before : HubBuilt toy ℕ ℕ
before = record { hub = hub; broker = 1; transports = [] }

abbrev after : HubBuilt toy ℕ ℕ
after = record before {
  hub = record hub { namespace_kinds = Dict.put Dict.empty "rooms" rooms_kind };
}

builds :
    (build builder ≡ ok before)
    × (build (with_channel_kind_for "rooms" rooms_kind builder) ≡ ok after)
    × (with_broker 1 (with_channel_kind hub.kind new_builder) ≡ builder)
unfolding Hub.build Hub.with_channel_kind_for Hub.with_broker Hub.with_channel_kind
builds = (refl, refl, refl)

kind_for-with_channel_kind_for_example :
    kind_for after.hub "rooms.a"
    ≡ (if "rooms" == namespace_of "rooms.a" then rooms_kind else kind_for before.hub "rooms.a")
kind_for-with_channel_kind_for_example =
    kind_for-with_channel_kind_for "rooms" rooms_kind builder before after builds.0 builds.1
      "rooms.a"
