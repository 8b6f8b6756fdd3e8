-- ===== src/Server/Build/Meaning.antt =====
-- What the hub that `build_hub` of crates/cherenkov-server/src/app.rs builds does with the settings.
use cherenkov.Prelude.{
  Bool, true, false, ℕ, suc, String, ◌≡◌, refl, ap, sym, ◌∙◌, Option, none, some, ok,
  and_then_ok-eq_ok, ok_inj, List, [], ◌∷◌, ◌==◌, string_eq, if◌then◌else◌, subst,
}
use cherenkov.Prelude.Dict
use cherenkov.Prelude.Dict.{Dict, get-put, get-empty}
use cherenkov.Core.Namespace.{namespace_of}
use cherenkov.Core.Traits.{Broker, Mpsc, Authenticator, AclChecker}
use cherenkov.Core.Hub
use cherenkov.Core.Hub.{
  Hub, HubBuilder, kind_for, unwrap_or, with_channel_kind, with_channel_kind_for, with_broker,
  with_schema_validator, with_authenticator, with_acl_checker,
}
use cherenkov.Core.Hub.Handlers.{requires_connect}
use cherenkov.PubSub.{with_bounds, default_channel}
use cherenkov.Schema.{JsonSchemaRegistry, schema_validator}
use cherenkov.Server.Config.{ServerConfig, ChannelKindName, history_ttl}
use cherenkov.Server.Kinds.{KindHandle}
use cherenkov.Server.Parts.{
  Outside, BrokerHandle, build_broker, build_schema_registry, build_authenticator,
  build_namespace_kinds, kind_of, build_acl,
}
use cherenkov.Core.Types.{SessionClaims, AclAction}
use cherenkov.Protocol.{Bytes}
use cherenkov.Server.Build.Access.{access, build_acl-access}
use cherenkov.Server.Build.Schemas.{judged, schema_for, build_schema_registry-judged}
use cherenkov.Server.Build.Tokens.{needs_token, identified, build_authenticator-identified}
use cherenkov.Server.Build.{server_platform, Builder, with_kinds, configured, finish, build_hub}

-- The last entry for a key, or what was there before
abbrev pub last_entry : {A : Type 0} → List (String × A) → String → Option A → Option A
last_entry [] k before = before
last_entry ((j, a) ∷ rest) k before = last_entry rest k (if j == k then some a else before)

abbrev put_all : {A : Type 0} → List (String × A) → Dict String A → Dict String A
put_all [] d = d
put_all ((k, a) ∷ rest) d = put_all rest (Dict.put d k a)

get-put_all :
    {A : Type 0} (entries : List (String × A)) (d : Dict String A) (k : String)
    → Dict.get (put_all entries d) k ≡ last_entry entries k (Dict.get d k)
get-put_all [] d k = refl
get-put_all ((j, a) ∷ rest) d k =
    get-put_all rest (Dict.put d j a) k ∙ ap (last_entry rest k) (get-put d j k a)

abbrev pub name_of : KindHandle → ChannelKindName
name_of (KindHandle.pubsub i k) = ChannelKindName.pubsub
name_of (KindHandle.yjs i) = ChannelKindName.crdt_yjs
name_of (KindHandle.automerge i) = ChannelKindName.crdt_automerge

-- The object is of the named kind; a pub/sub object has the built-in bounds.
abbrev pub IsNamed : ChannelKindName → KindHandle → Type 0
IsNamed ChannelKindName.pubsub (KindHandle.pubsub i k) = k ≡ default_channel
IsNamed ChannelKindName.pubsub (KindHandle.yjs i) = ⊥
IsNamed ChannelKindName.pubsub (KindHandle.automerge i) = ⊥
IsNamed ChannelKindName.crdt_yjs h = name_of h ≡ ChannelKindName.crdt_yjs
IsNamed ChannelKindName.crdt_automerge h = name_of h ≡ ChannelKindName.crdt_automerge

IsNamed-kind_of : (i : ℕ) (name : ChannelKindName) → IsNamed name (kind_of i name)
unfolding kind_of
IsNamed-kind_of i ChannelKindName.pubsub = refl
IsNamed-kind_of i ChannelKindName.crdt_yjs = refl
IsNamed-kind_of i ChannelKindName.crdt_automerge = refl

-- What serves a channel: the kind that is named for it, or else the default
abbrev pub Serves : Option ChannelKindName → KindHandle → KindHandle → Type 0
Serves none by_default h = h ≡ by_default
Serves (some name) by_default h = IsNamed name h

abbrev SameKind : Option ChannelKindName → Option KindHandle → Type 0
SameKind none none = Unit
SameKind none (some h) = ⊥
SameKind (some name) none = ⊥
SameKind (some name) (some h) = IsNamed name h

SameKind-if :
    (b : Bool) (name before : Option ChannelKindName) (o was : Option KindHandle)
    → SameKind name o
    → SameKind before was
    → SameKind (if b then name else before) (if b then o else was)
SameKind-if true name before o was h k = h
SameKind-if false name before o was h k = k

SameKind-last_entry :
    (i : ℕ) (kinds : List (String × ChannelKindName)) (namespace : String)
    (before : Option ChannelKindName) (was : Option KindHandle)
    → SameKind before was
    → SameKind
        (last_entry kinds namespace before)
        (last_entry (build_namespace_kinds i kinds) namespace was)
unfolding build_namespace_kinds
SameKind-last_entry i [] namespace before was h = h
SameKind-last_entry i ((declared, name) ∷ kinds) namespace before was h =
    SameKind-last_entry (suc i) kinds namespace _ _ (
      SameKind-if (declared == namespace) (some name) before (some (kind_of i name)) was
        (IsNamed-kind_of i name) h)

Serves-unwrap_or :
    (name : Option ChannelKindName) (o : Option KindHandle) (by_default : KindHandle)
    → SameKind name o
    → Serves name by_default (unwrap_or o by_default)
Serves-unwrap_or none none by_default h = refl
Serves-unwrap_or none (some k) by_default h = absurd h
Serves-unwrap_or (some name) none by_default h = absurd h
Serves-unwrap_or (some name) (some k) by_default h = h

module _ (O : Outside) (B : Broker) (M : Mpsc) where
  with_kinds_lem :
      (kinds : List (String × KindHandle)) (b : Builder O B M)
      → with_kinds O B M kinds b ≡ record b { namespace_kinds = put_all kinds b.namespace_kinds }
  unfolding with_kinds with_channel_kind_for
  with_kinds_lem [] b = refl
  with_kinds_lem ((namespace, kind) ∷ kinds) b =
      with_kinds_lem kinds (with_channel_kind_for {P = server_platform O B M} namespace kind b)

  -- The pub/sub kind with the configured bounds
  abbrev pub default_kind : ServerConfig O.json.Value → KindHandle
  default_kind c =
      KindHandle.pubsub 0 (with_bounds c.channel_pubsub.history_size (history_ttl c.channel_pubsub))

  module _ (c : ServerConfig O.json.Value) (registry : JsonSchemaRegistry O.json)
      (authenticator : Authenticator) (checker : AclChecker) where
    abbrev hub_of : Hub (server_platform O B M)
    hub_of = record {
      kind = default_kind c;
      namespace_kinds = put_all (build_namespace_kinds 1 c.channel_kinds) Dict.empty;
      validator = schema_validator registry;
      authenticator = authenticator;
      acl = checker;
    }

    finish-configured :
        (handle : BrokerHandle O)
        → finish O B M c (configured O B M c handle registry authenticator checker) ≡ ok hub_of
    unfolding finish configured Hub.build with_channel_kind with_broker with_schema_validator
        with_authenticator with_acl_checker
    finish-configured handle =
        rw
          (with_kinds_lem (build_namespace_kinds 1 c.channel_kinds)
            (configured O B M c handle registry authenticator checker))
          refl

  -- What a hub does of what the settings say
  pub record Obeys (c : ServerConfig O.json.Value) (h : Hub (server_platform O B M)) : Type 0 where
    pub asks : requires_connect h ≡ needs_token O c.auth
    pub authenticates :
        (token : String) → h.authenticator.authenticate token ≡ identified O c.auth token
    pub allows :
        (claims : SessionClaims) (action : AclAction) (channel : String)
        → h.acl.check claims action channel ≡ ok (access O c.acl claims.subject action channel)
    pub validates :
        (channel : String) (payload : Bytes)
        → h.validator.validate channel payload
          ≡ judged O (schema_for O c.namespaces (namespace_of channel) none) channel payload
    pub serves :
        (channel : String)
        → Serves
            (last_entry c.channel_kinds (namespace_of channel) none)
            (default_kind c)
            (kind_for h channel)

  kind_for-hub_of :
      (c : ServerConfig O.json.Value) (registry : JsonSchemaRegistry O.json)
      (authenticator : Authenticator) (checker : AclChecker) (channel : String)
      → kind_for (hub_of c registry authenticator checker) channel
        ≡ unwrap_or
            (last_entry (build_namespace_kinds 1 c.channel_kinds) (namespace_of channel) none)
            (default_kind c)
  unfolding kind_for
  kind_for-hub_of c registry authenticator checker channel =
      ap (λ o. unwrap_or o (default_kind c))
        (get-put_all (build_namespace_kinds 1 c.channel_kinds) Dict.empty (namespace_of channel)
          ∙ ap (last_entry (build_namespace_kinds 1 c.channel_kinds) (namespace_of channel))
              (get-empty (namespace_of channel)))

  hub_of-Obeys :
      (c : ServerConfig O.json.Value) (registry : JsonSchemaRegistry O.json)
      (authenticator : Authenticator) (checker : AclChecker)
      → build_schema_registry O c.namespaces ≡ ok registry
      → build_authenticator O c.auth ≡ ok authenticator
      → build_acl O c.acl ≡ ok checker
      → Obeys c (hub_of c registry authenticator checker)
  unfolding requires_connect
  hub_of-Obeys c registry authenticator checker r a k =
      let (asks, authenticates) = build_authenticator-identified O c.auth authenticator a in
      record {
        asks = asks;
        authenticates = authenticates;
        allows = build_acl-access O c.acl checker k;
        validates = build_schema_registry-judged O c.namespaces registry r;
        serves = λ channel.
            subst (Serves (last_entry c.channel_kinds (namespace_of channel) none) (default_kind c))
              (sym (kind_for-hub_of c registry authenticator checker channel))
              (Serves-unwrap_or _ _ (default_kind c)
                (SameKind-last_entry 1 c.channel_kinds (namespace_of channel) none none tt));
      }

  -- What a hub that was built from settings does. It asks for a token exactly where the settings have
  -- an `auth` section, and takes a token where it decodes with the section's secret, audiences and
  -- issuer, for the claims in its body; without the section it takes every token, as naming nobody. It
  -- decides access by the first of the rules that concerns the action and whose patterns match the
  -- subject and the channel, and else by the rules' default; without an `acl` section it allows
  -- everything. It judges a payload by the schema that the settings
  -- name last for the channel's namespace, written there or in a file, and takes every payload where
  -- there is none. It serves a channel with the kind that the settings name last for its namespace, a
  -- pub/sub kind having the built-in bounds then, and else with the pub/sub kind of the configured
  -- bounds. What broker the settings choose is no part of this.
  pub build_hub-Obeys :
      (c : ServerConfig O.json.Value) (h : Hub (server_platform O B M))
      → build_hub O B M c ≡ ok h
      → Obeys c h
  unfolding build_hub
  build_hub-Obeys c h e =
      let (handle, _, e1) = and_then_ok-eq_ok (build_broker O c.broker) _ h e in
      let (registry, r, e2) = and_then_ok-eq_ok (build_schema_registry O c.namespaces) _ h e1 in
      let (authenticator, a, e3) = and_then_ok-eq_ok (build_authenticator O c.auth) _ h e2 in
      let (checker, k, e4) = and_then_ok-eq_ok (build_acl O c.acl) _ h e3 in
      subst (Obeys c)
        (ok_inj (hub_of c registry authenticator checker) h
          (sym (finish-configured c registry authenticator checker handle) ∙ e4))
        (hub_of-Obeys c registry authenticator checker r a k)
