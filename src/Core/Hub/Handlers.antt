-- ===== src/Core/Hub/Handlers.antt =====
-- crates/cherenkov-core/src/hub.rs: the entry points of `Hub`, each taken as one step that is not
-- interrupted. Metrics and logs are left out.
use cherenkov.Prelude.{
  ℕ, suc, String, Bool, true, false, not, ◌&&◌, Option, none, some, Result, ok, err, map_err, List,
  [], ◌∷◌, pure, lift, ◌>>=◌, ◌>>◌, ltb, string_eq, if◌then◌else◌,
}
use cherenkov.Prelude.Dict
use cherenkov.Protocol.{Bytes, Publication, ServerFrame, ConnectOk, SubscribeOk, UnsubscribeOk}
use cherenkov.Core.Types.{
  HubError, AclError, SessionClaims, anonymous, AclAction, as_str, AclDecision, allow, deny,
}
use cherenkov.Core.Session.{
  Ref, SessionId, JoinHandle, new_session, set_claims, has_subscription, insert_subscription,
  take_subscription, signal_shutdown, clear_subscriptions, allocate_id, register, get_session,
  deregister, add_subscription, remove_subscription,
}
use cherenkov.Core.Traits.{Platform}
use cherenkov.Core.Hub.{Hub, kind_for}
use cherenkov.Core.Hub.World.{
  World, Action, update, modify_session, find_session, on_kinds, on_broker, send_or, spawn, abort,
  drop_stream,
}

abbrev is_some : {A : Type 0} → Option A → Bool
is_some none = false
is_some (some a) = true

module _ {P : Platform} (hub : Hub P) where
  unfoldable pub requires_connect : Bool
  requires_connect = not hub.authenticator.allow_anonymous

  unfoldable pub decide :
      SessionClaims → AclAction → String → AclDecision → Result HubError (Unit {0})
  decide claims action channel allow = ok tt
  decide claims action channel deny =
      err (HubError.acl (AclError.denied claims.subject (as_str action) channel "policy denied"))

  unfoldable pub enforce_acl : SessionClaims → AclAction → String → Result HubError (Unit {0})
  unfolding decide
  enforce_acl claims action channel = elim (hub.acl.check claims action channel) [
    | ok decision ↦ decide claims action channel decision
    | err e ↦ err (HubError.acl e)
  ]

module _ {P : Platform} (hub : Hub P) where
  open P use {kinds, broker, mpsc}

  -- `set_claims(anonymous)` where the authenticator allows it, then `register`.
  unfoldable pub open_session : mpsc.Sender → World P → (SessionId × Ref) × World P
  open_session outbox w =
      let (id, registry) = allocate_id w.registry in
      let fresh = new_session id outbox in
      let session =
        if hub.authenticator.allow_anonymous then set_claims anonymous fresh else fresh in
      (
        (id, w.next_ref),
        record w {
          registry = register id w.next_ref registry;
          store = update w.store w.next_ref session;
          next_ref = suc w.next_ref;
        },
      )

  -- `session.set_claims(Arc::new(claims))`, and the reply
  unfoldable pub accept : Ref → ℕ → SessionClaims → Action P ConnectOk
  accept session request_id claims w = (
    ok (record {
      request_id = request_id;
      subject = claims.subject;
      expires_at = claims.expires_at;
    }),
    modify_session session (set_claims claims) w,
  )

  unfoldable pub connect_session : SessionId → ℕ → String → Ref → Action P ConnectOk
  unfolding accept
  connect_session id request_id token session w =
      if is_some (w.store session).claims && not hub.authenticator.allow_anonymous
      then (err (HubError.already_connected id), w)
      else (lift (map_err HubError.auth (hub.authenticator.authenticate token))
            >>= accept session request_id)
          w

  unfoldable pub handle_connect : SessionId → ℕ → String → Action P ConnectOk
  unfolding connect_session find_session
  handle_connect id request_id token = do
    session ← find_session id
    connect_session id request_id token session

  unfoldable pub require_claims : Ref → Action P SessionClaims
  require_claims session w = elim (w.store session).claims [
    | some claims ↦ (ok claims, w)
    | none ↦
        if hub.authenticator.allow_anonymous
        then (ok anonymous, modify_session session (set_claims anonymous) w)
        else (err (HubError.not_connected (w.store session).id), w)
  ]

  -- The closure `unwind`: an error of `on_unsubscribe` is logged and dropped.
  unfoldable pub unwind : String → World P → World P
  unfolding on_kinds
  unwind channel w = (on_kinds {P = P} (kinds.on_unsubscribe (kind_for hub channel) channel) w).1

  -- `match m.await { Ok(v) => v, Err(err) => { unwind(…).await; return Err(err.into()) } }`
  unfoldable pub or_unwind : {A : Type 0} → String → Action P A → Action P A
  or_unwind channel m w =
      let (r, w') = m w in elim r [ ok a ↦ (ok a, w') | err e ↦ (err e, unwind channel w') ]

  -- An early return drops the stream that is not handed to a forwarder yet.
  unfoldable pub or_drop : {A : Type 0} → broker.Stream → Action P A → Action P A
  or_drop stream m w =
      let (r, w') = m w in elim r [ ok a ↦ (ok a, w') | err e ↦ (err e, drop_stream stream w') ]

  -- The loop over the replayed publications.
  unfoldable pub send_all : HubError → mpsc.Sender → List Publication → Action P (Unit {0})
  send_all gone to [] = pure tt
  send_all gone to (p ∷ ps) = do send_or gone to (ServerFrame.publication p); send_all gone to ps

  -- `if since_offset > 0 { … }`; each error is followed by `unwind`.
  unfoldable pub replay : SessionId → String → ℕ → mpsc.Sender → Action P (Unit {0})
  unfolding send_all
  replay id channel since_offset to =
      if ltb 0 since_offset
      then (do
        replayed ← on_kinds {P = P} (kinds.replay_since (kind_for hub channel) channel since_offset)
        send_all (HubError.session_gone id) to replayed)
      else pure tt

  -- `insert_subscription`, with the stray forwarder aborted where the entry is occupied, and
  -- `add_subscription`.
  unfoldable pub attach : SessionId → String → Ref → JoinHandle → Action P (Unit {0})
  attach id channel session forwarder w =
      elim (insert_subscription channel forwarder (w.store session)) [
        | none ↦ (err (HubError.already_subscribed id channel), abort forwarder w)
        | some changed ↦ (
          ok tt,
          record w {
            store = update w.store session changed;
            registry = add_subscription id channel w.registry;
          },
        )
      ]

  -- `handle_subscribe` once the session may subscribe and is not subscribed yet.
  unfoldable pub subscribe_session : SessionId → ℕ → String → ℕ → Ref → Action P SubscribeOk
  subscribe_session id request_id channel since_offset session = do
    cursor ← on_kinds {P = P} (kinds.on_subscribe (kind_for hub channel) channel)
    stream ← or_unwind channel (on_broker {P = P} (broker.subscribe channel))
    outbox ← λ w. (ok (w.store session).outbox, w)
    or_drop stream (or_unwind channel (replay id channel since_offset outbox))
    forwarder ← spawn channel stream outbox
    or_unwind channel (attach id channel session forwarder)
    pure (record {
      request_id = request_id;
      channel = channel;
      epoch = cursor.epoch;
      offset = cursor.offset;
    })

  -- `session.has_subscription(channel)`
  unfoldable pub refuse_twice : SessionId → String → Ref → Action P (Unit {0})
  refuse_twice id channel session w =
      if has_subscription channel (w.store session)
      then (err (HubError.already_subscribed id channel), w)
      else (ok tt, w)

  unfoldable pub handle_subscribe : SessionId → ℕ → String → ℕ → Action P SubscribeOk
  handle_subscribe id request_id channel since_offset = do
    session ← find_session id
    claims ← require_claims session
    lift (enforce_acl hub claims AclAction.subscribe channel)
    refuse_twice id channel session
    subscribe_session id request_id channel since_offset session

  -- `remove_subscription` on the session, `abort`, and `remove_subscription` on the registry.
  unfoldable pub detach : SessionId → String → Ref → Action P (Unit {0})
  detach id channel session w =
      let (removed, changed) = take_subscription channel (w.store session) in
      elim removed [
        | none ↦ (err (HubError.not_subscribed id channel), w)
        | some forwarder ↦ (
          ok tt,
          record (abort forwarder w) {
            store = update w.store session changed;
            registry = remove_subscription id channel w.registry;
          },
        )
      ]

  unfoldable pub handle_unsubscribe : SessionId → ℕ → String → Action P UnsubscribeOk
  handle_unsubscribe id request_id channel = do
    session ← find_session id
    detach id channel session
    on_kinds {P = P} (kinds.on_unsubscribe (kind_for hub channel) channel)
    pure (record { request_id = request_id; channel = channel })

  unfoldable pub handle_publish : SessionId → String → Bytes → Action P Publication
  handle_publish id channel payload = do
    session ← find_session id
    claims ← require_claims session
    lift (enforce_acl hub claims AclAction.publish channel)
    lift (map_err HubError.schema (hub.validator.validate channel payload))
    publication ← on_kinds {P = P} (kinds.on_publish (kind_for hub channel) channel payload)
    on_broker {P = P} (broker.publish channel publication)
    pure publication

module _ {P : Platform} where
  unfoldable pub close_session : SessionId → World P → World P
  close_session id w = record w { registry = (deregister id w.registry).1 }

  -- `signal_shutdown`, then `deregister`; whether the session was there.
  unfoldable pub kick_session : SessionId → World P → Bool × World P
  kick_session id w = elim (get_session id w.registry) [
    | none ↦ (false, w)
    | some session ↦
        let signalled = modify_session session signal_shutdown w in
        let (removed, registry) = deregister id signalled.registry in
        (is_some removed, record signalled { registry = registry })
  ]

  unfoldable pub abort_each : List JoinHandle → World P → World P
  abort_each [] w = w
  abort_each (task ∷ tasks) w = abort_each tasks (abort task w)

  -- `abort_all` in the `Drop` of a `Session`, once its last `Arc` is gone
  unfoldable pub drop_session : Ref → World P → World P
  unfolding abort_each
  drop_session session w =
      abort_each (Dict.values (w.store session).subscriptions)
        (modify_session session clear_subscriptions w)
