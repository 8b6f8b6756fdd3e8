-- ===== src/Core/Hub/World.antt =====
-- What the handlers of crates/cherenkov-core/src/hub.rs read and change: the registry, the store of
-- the sessions behind their `Arc`s, the spawned forwarder tasks, and the states of the outboxes, of
-- the channel kinds and of the broker.
use cherenkov.Prelude.{suc, String, none, some, ok, err, map_err, Exec, ◌==◌, nat_eq, if◌then◌else◌}
use cherenkov.Prelude.Dict
use cherenkov.Prelude.Dict.{Dict}
use cherenkov.Protocol.{ServerFrame}
use cherenkov.Core.Types.{HubError, ChannelError, BrokerError}
use cherenkov.Core.Session.{Session, SessionRegistry, Ref, SessionId, JoinHandle, get_session}
use cherenkov.Core.Traits.{Platform}

-- A forwarder that was spawned and has neither ended nor been aborted: what it owns.
pub record Forwarder (Stream Sender : Type 0) : Type 0 where
  pub channel : String
  pub stream : Stream
  pub outbox : Sender

module _ (P : Platform) where
  pub record World : Type 0 where
    pub registry : SessionRegistry
    pub store : Ref → Session P.mpsc.Sender
    pub next_ref : Ref
    pub tasks : Dict JoinHandle (Forwarder P.broker.Stream P.mpsc.Sender)
    pub next_task : JoinHandle
    pub mpsc : P.mpsc.State
    pub kinds : P.kinds.State
    pub broker : P.broker.State

  -- An action of the hub.
  abbrev pub Action : Type 0 → Type 0
  Action A = Exec World HubError A

abbrev pub update {ℓ} : {A : Type ℓ} → (Ref → A) → Ref → A → Ref → A
update f r a q = if r == q then a else f q

module _ {P : Platform} where
  -- `self.sessions.get(&id).ok_or(HubError::SessionGone { … })`
  unfoldable pub find_session : SessionId → Action P Ref
  find_session id w = elim (get_session id w.registry) [
    | none ↦ (err (HubError.session_gone id), w)
    | some session ↦ (ok session, w)
  ]

  abbrev pub modify_session :
      Ref → (Session P.mpsc.Sender → Session P.mpsc.Sender) → World P → World P
  modify_session r f w = record w { store = update w.store r (f (w.store r)) }

  -- Calls of the channel kinds and the broker; `?` converts their errors.
  unfoldable pub on_kinds : {A : Type 0} → Exec P.kinds.State ChannelError A → Action P A
  on_kinds m w =
      let (r, kinds) = m w.kinds in (map_err HubError.channel r, record w { kinds = kinds })

  unfoldable pub on_broker : {A : Type 0} → Exec P.broker.State BrokerError A → Action P A
  on_broker m w =
      let (r, broker) = m w.broker in (map_err HubError.broker r, record w { broker = broker })

  -- `outbox.send(frame).await`, with `session_gone` for a closed outbox
  unfoldable pub send_or : HubError → P.mpsc.Sender → ServerFrame → Action P (Unit {0})
  send_or gone to frame w = elim (P.mpsc.send to frame w.mpsc) [
    | none ↦ (err gone, w)
    | some mpsc ↦ (ok tt, record w { mpsc = mpsc })
  ]

  -- `tokio::spawn` of a forwarder
  unfoldable pub spawn : String → P.broker.Stream → P.mpsc.Sender → Action P JoinHandle
  spawn channel stream outbox w = (
    ok w.next_task,
    record w { tasks = Dict.put w.tasks w.next_task forwarder; next_task = suc w.next_task },
  )
    where
      forwarder : Forwarder P.broker.Stream P.mpsc.Sender
      forwarder = record { channel = channel; stream = stream; outbox = outbox }

  unfoldable pub drop_stream : P.broker.Stream → World P → World P
  drop_stream stream w = record w { broker = P.broker.drop_stream stream w.broker }

  -- `JoinHandle::abort`: a task that still runs goes, and its stream is dropped.
  unfoldable pub abort : JoinHandle → World P → World P
  unfolding drop_stream
  abort task w = elim (Dict.get w.tasks task) [
    | none ↦ w
    | some forwarder ↦ drop_stream forwarder.stream (record w { tasks = Dict.remove w.tasks task })
  ]
