-- ===== src/Core/Hub/Subscribing.antt =====
-- `handle_subscribe` of crates/cherenkov-core/src/hub.rs: what a subscription that succeeds has done.
use cherenkov.Prelude.{
  ℕ, String, ◌≡◌, refl, ap, ◌∙◌, subst, some, ok, arith, inl, inr, Bool-cases, lift, ◌>>=◌, ◌>>◌,
  bind-eq_ok, map, ◌++◌,
}
use cherenkov.Protocol.{Publication, ServerFrame, SubscribeOk}
use cherenkov.Core.Types.{SessionClaims, AclAction, AclDecision}
use cherenkov.Core.Session.{SessionId, Ref, get_session, has_subscription}
use cherenkov.Core.Traits.{Platform}
use cherenkov.Core.Hub.{Hub, kind_for}
use cherenkov.Core.Hub.World.{World, Action, find_session}
use cherenkov.Core.Hub.Handlers.{
  require_claims, enforce_acl, refuse_twice, subscribe_session, handle_subscribe,
}
use cherenkov.Core.Hub.Gate.{
  Untouched, claims_of, find_session-eq_ok, require_claims-Untouched, require_claims-ok,
  enforce_acl-ok,
}
use cherenkov.Core.Hub.Replaying.{Replayed}
use cherenkov.Core.Hub.Attaching.{Subscribed, subscribe_session-ok}

module _ {P : Platform} (hub : Hub P) (id : SessionId) (q : ℕ) (channel : String) (since : ℕ) where
  -- What held before a subscription that succeeded, and what it did.
  pub record Accepted (reply : SubscribeOk) (w w' : World P) : Type 0 where
    pub session : Ref
    pub found : get_session id w.registry ≡ some session
    pub claims : SessionClaims
    pub claimed : claims_of hub (w.store session).claims ≡ some claims
    pub allowed : hub.acl.check claims AclAction.subscribe channel ≡ ok AclDecision.allow
    pub done : Subscribed hub id q channel since session reply w w'

  refuse_twice-ok :
      (r : Ref) (w : World P)
      → (refuse_twice hub id channel r w).0 ≡ ok tt
      → refuse_twice hub id channel r w ≡ (ok tt, w)
  unfolding refuse_twice
  refuse_twice-ok r w h = elim (Bool-cases (has_subscription channel (w.store r))) [
    | inl twice ↦ absurd (ground (arith, twice, h))
    | inr once ↦ rw once refl
  ]

  -- The claims that were asked for changed nothing that the subscription is about.
  Subscribed-before :
      (r : Ref) (reply : SubscribeOk) (w v w' : World P)
      → Untouched w v
      → Subscribed hub id q channel since r reply v w'
      → Subscribed hub id q channel since r reply w w'
  Subscribed-before r reply w v w' same h = record {
    cursor = h.cursor;
    accepted =
        subst (λ s. (P.kinds.on_subscribe (kind_for hub channel) channel s).0 ≡ ok h.cursor)
          same.kinds h.accepted;
    answered = h.answered;
    stream = h.stream;
    streamed = subst (λ s. (P.broker.subscribe channel s).0 ≡ ok h.stream) same.broker h.streamed;
    broker = h.broker ∙ ap (λ s. (P.broker.subscribe channel s).1) same.broker;
    replayed = h.replayed;
    history =
        subst
          (λ s.
            Replayed hub channel since (P.kinds.on_subscribe (kind_for hub channel) channel s).1
              h.replayed)
          same.kinds h.history;
    sent =
        h.sent
        ∙ ap (λ m. P.mpsc.sent m ++ map (to_frame (v.store r).outbox) h.replayed) same.mpsc
        ∙ ap (λ o. P.mpsc.sent w.mpsc ++ map (to_frame o) h.replayed) (same.outbox r);
    task = h.task;
    entry = h.entry;
    forwards =
        h.forwards
        ∙ ap (λ o. some (record { channel = channel; stream = h.stream; outbox = o }))
            (same.outbox r);
  }
    where
      to_frame : P.mpsc.Sender → Publication → P.mpsc.Sender × ServerFrame
      to_frame o p = (o, ServerFrame.publication p)

  -- The steps of `handle_subscribe` once the session has claims
  subscribe_as : Ref → SessionClaims → Action P SubscribeOk
  subscribe_as r claims = do
    lift (enforce_acl hub claims AclAction.subscribe channel)
    refuse_twice hub id channel r
    subscribe_session hub id q channel since r

  subscribe_as-ok :
      (r : Ref) (claims : SessionClaims) (reply : SubscribeOk) (v w' : World P)
      → subscribe_as r claims v ≡ (ok reply, w')
      → (hub.acl.check claims AclAction.subscribe channel ≡ ok AclDecision.allow)
        × Subscribed hub id q channel since r reply v w'
  unfolding subscribe_as
  subscribe_as-ok r claims reply v w' h =
      let (u, enforced, rest) =
        bind-eq_ok (lift (enforce_acl hub claims AclAction.subscribe channel)) _ v w' reply h in
      let (u', once, rest') = bind-eq_ok (refuse_twice hub id channel r) _ v w' reply rest in
      (
        (enforce_acl-ok hub claims AclAction.subscribe channel).0 enforced,
        subscribe_session-ok hub id q channel since r reply v w' (
            subst (λ x. subscribe_session hub id q channel since r x ≡ (ok reply, w'))
              (ap (λ x. x.1) (refuse_twice-ok r v once)) rest'),
      )

  found_session-ok :
      (r : Ref) (reply : SubscribeOk) (w w' : World P)
      → get_session id w.registry ≡ some r
      → (require_claims hub r >>= subscribe_as r) w ≡ (ok reply, w')
      → Accepted reply w w'
  found_session-ok r reply w w' found h =
      let (claims, claimed, rest) =
        bind-eq_ok (require_claims hub r) (subscribe_as r) w w' reply h in
      let (allowed, done) = subscribe_as-ok r claims reply _ w' rest in
      record {
        session = r;
        found = found;
        claims = claims;
        claimed = (require_claims-ok hub claims r w).0 claimed;
        allowed = allowed;
        done = Subscribed-before r reply w _ w' (require_claims-Untouched hub r w) done;
      }

  -- A subscription that succeeds was asked for by a registered session with claims, and the access
  -- rules allowed it. The reply has the cursor of the channel's kind. Exactly the publications that
  -- the kind replays are sent, in their order, to the session's own outbox: none where the client
  -- asked for no offset. The session's subscription to the channel then is a running forwarder from
  -- the broker's stream for the channel to that outbox.
  pub handle_subscribe-Accepted :
      (reply : SubscribeOk) (w w' : World P)
      → handle_subscribe hub id q channel since w ≡ (ok reply, w')
      → Accepted reply w w'
  unfolding handle_subscribe subscribe_as
  handle_subscribe-Accepted reply w w' h =
      let (r, there, rest) = bind-eq_ok (find_session id) _ w w' reply h in
      let (found, same) = find_session-eq_ok id w r there in
      found_session-ok r reply w w' found (
        subst (λ x. (require_claims hub r >>= subscribe_as r) x ≡ (ok reply, w'))
          (ap (λ x. x.1) same) rest)
