-- ===== src/Lib.antt =====
-- Cherenkov, a real-time messaging server: clients open sessions over a transport, subscribe to
-- channels and publish to them. The hub checks each request, asks the channel's kind for offsets and
-- history, and hands publications to a broker, from which a forwarder task per subscription carries
-- them to the session's outbox.
--
-- Protocol (Wire, IntoWire, FromWire, Codec) models crates/cherenkov-protocol/src/frame.rs. `Wire` is
-- what the build generates from proto/v1.proto. The fields `data` of the source are `payload` here.
-- `prost` is the parameter `Prost`: decoding an encoded message returns it, within the ranges of the
-- scalar types.
--
-- Core models crates/cherenkov-core/src. Types and Traits have the errors and traits; Session has
-- session.rs, where the registry's maps are `Dict`s with unique keys and a session is behind an
-- address in a store, as it is behind an `Arc`. Hub has hub.rs: Hub itself the builder and the
-- choice of a kind, World the state that the handlers share (registry, store, forwarder tasks,
-- outboxes, kinds, broker), Handlers one function per entry point, composed of the parts of that
-- entry point in their order, each from a world to a result and a world. Consistent is the
-- registry's invariant, Invariant and Preserves carry it through the handlers, Reach is the step
-- relation of a server whose entry points and forwarders run one at a time; Forwarding has the loop
-- of a forwarder. Gate has the checks before a request is served, Publishing the publications;
-- Building is about the builder. Replaying, Outcomes, Attaching and Subscribing lead to what a
-- subscription has done, Unsubscribing to what is gone after it.
--
-- PubSub models crates/cherenkov-channel-pubsub/src/lib.rs, with a clock in the state in place of
-- `Instant::now`. History, Replay and Bounds relate it to the log of all publications of a channel.
-- MemoryBroker models crates/cherenkov-broker/src/lib.rs; `tokio::sync::broadcast` is the parameter
-- `Broadcast`, whose laws cover receivers that are less than the capacity behind. Race is two of its
-- calls that overlap. PubSub and MemoryBroker fill the interfaces `ChannelKind` and `Broker` that the
-- hub is written for; Fanout puts the hub over this broker. RedisBroker and NatsBroker model
-- crates/cherenkov-broker-redis/src/lib.rs and crates/cherenkov-broker-nats/src/lib.rs, with the crates
-- `fred` and `async_nats` as parameters; RedisBroker.Delivery is about what a stream yields.
--
-- Acl models crates/cherenkov-auth/src/namespace_acl.rs, with `globset` as the parameter `Globset`,
-- and fills the interface `AclChecker`. Schema models crates/cherenkov-schema/src/registry.rs, with
-- `jsonschema` and `serde_json` as the parameter `JsonSchema`, and fills `SchemaValidator`.
--
-- Transport.Ws models crates/cherenkov-transport-ws/src/lib.rs and Transport.Wt the session loop of
-- crates/cherenkov-transport-wt/src/lib.rs, Transport.Wt.Framing its length prefix; the events that a
-- loop waits for are a list. What `thiserror` derives for an error's text is the parameter `Display`.
-- Replies compares the two, Socket follows a connection from its opening to its end. Transport.Sse models
-- crates/cherenkov-transport-sse/src/lib.rs: Sse the two handlers, the answers and the stream of a
-- subscription, Query the parsers of the query and of the header on bytes and texts; JSON texts and
-- base64 are the parameter `Texts`. Closing and Serving are about what the handlers and the stream leave behind,
-- Answers about the status of an answer.
--
-- Crdt models crates/cherenkov-channel-crdt/src, with `yrs` and `automerge` as the parameters `Yrs` and
-- `AutoCommit`; Numbering is the numbering of publications as an interface that Offsets fills for
-- both kinds. Jwt models crates/cherenkov-auth/src/jwt.rs, with `jsonwebtoken` as a parameter, and fills
-- `Authenticator`. Admin models crates/cherenkov-admin/src/lib.rs: the routes over the hub's world,
-- behind the check of the token, which Guard is about.
--
-- Server models crates/cherenkov-server/src: Config the settings of config.rs, Kinds the channel
-- kinds of one server behind one interface, Parts and Build how app.rs makes a hub of the settings.
-- A panic is a result of its own there; Failing says when there is a hub, Meaning what it does of
-- what the settings say, from Access, Schemas and Tokens, each of which reads a section of the
-- settings by itself. Startup is `run` and `run_with_listener`, over the parameter `Net` for
-- `tokio::net` and the tasks that it spawns, which go on after an abort until the runtime gets to
-- them, and the handle with `shutdown` and `wait`; Startup.Tasks and Startup.Stopping are about the
-- tasks that are left.
--
-- Prelude has the shared types, tests and lemmas, with UTF-8 (Utf8) and `format!` (Format) as the
-- standard library has them. Examples has a small server with concrete functions
-- for all parameters, and runs of the definitions on it.
--
-- Numbers are natural; where a machine width matters it is written out (ids wrap at 2^64, offsets
-- stop at 2^64 - 1). No definition needs fuel: each loop of the source is a recursion on a list.
--
-- Not modelled: metrics and logs; sockets, the loops that accept connections and the tasks that write
-- to them; interleavings of two entry points inside the hub, and the time between the abort of a
-- forwarder and its end; the dropping of an SSE stream whose client went away; reconnects of a
-- broker's client; the loading of settings from files; the SDK generator.
pub mod Prelude
pub mod Protocol
pub mod Core
pub mod PubSub
pub mod MemoryBroker
pub mod RedisBroker
pub mod NatsBroker
pub mod Acl
pub mod Schema
pub mod Transport
pub mod Crdt
pub mod Jwt
pub mod Server
pub mod Admin
pub mod Fanout
pub mod Examples
