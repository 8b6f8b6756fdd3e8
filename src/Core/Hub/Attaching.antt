-- ===== src/Core/Hub/Attaching.antt =====
-- `subscribe_session`, the part of `handle_subscribe` in crates/cherenkov-core/src/hub.rs after the
-- checks: what it has done where it succeeds.
use cherenkov.Prelude.{
  ℕ, String, ◌≡◌, refl, ap, ◌∙◌, sym, subst, some, ok, arith, pure, ◌>>=◌, ◌>>◌, bind-eq_ok, List,
  ◌++◌, map, nat_eq, string_eq, beq_refl,
}
use cherenkov.Prelude.Dict
use cherenkov.Prelude.Dict.{get-put}
use cherenkov.Protocol.{Publication, ServerFrame, SubscribeOk}
use cherenkov.Core.Types.{ChannelCursor}
use cherenkov.Core.Session.{SessionId, Ref, JoinHandle}
use cherenkov.Core.Traits.{Platform}
use cherenkov.Core.Hub.{Hub, kind_for}
use cherenkov.Core.Hub.World.{World, Action, on_kinds, on_broker, spawn}
use cherenkov.Core.Hub.Handlers.{or_unwind, or_drop, replay, attach, subscribe_session}
use cherenkov.Core.Hub.Replaying.{Replayed, on_kinds-ok, replay-ok}
use cherenkov.Core.Hub.Outcomes.{or_unwind-ok, or_drop-ok, on_broker-ok, attach-ok}

module _ {P : Platform} (hub : Hub P) where
  -- What a subscription that succeeded has done between the worlds `w` and `w'`.
  pub record Subscribed (id : SessionId) (q : ℕ) (channel : String) (since : ℕ) (r : Ref)
      (reply : SubscribeOk) (w w' : World P) : Type 0 where
    pub cursor : ChannelCursor
    pub accepted : (P.kinds.on_subscribe (kind_for hub channel) channel w.kinds).0 ≡ ok cursor
    pub answered :
        reply
        ≡ record { request_id = q; channel = channel; epoch = cursor.epoch; offset = cursor.offset }
    pub stream : P.broker.Stream
    pub streamed : (P.broker.subscribe channel w.broker).0 ≡ ok stream
    pub broker : w'.broker ≡ (P.broker.subscribe channel w.broker).1
    pub replayed : List Publication
    pub history :
        Replayed hub channel since
          (P.kinds.on_subscribe (kind_for hub channel) channel w.kinds).1
          replayed
    pub sent :
        P.mpsc.sent w'.mpsc
        ≡ P.mpsc.sent w.mpsc ++ map (λ p. ((w.store r).outbox, ServerFrame.publication p)) replayed
    pub task : JoinHandle
    pub entry : Dict.get (w'.store r).subscriptions channel ≡ some task
    pub forwards :
        Dict.get w'.tasks task
        ≡ some (record { channel = channel; stream = stream; outbox = (w.store r).outbox })

  module _ (id : SessionId) (q : ℕ) (channel : String) (since : ℕ) (r : Ref) where
    abbrev answer : ChannelCursor → SubscribeOk
    answer cursor = record {
      request_id = q;
      channel = channel;
      epoch = cursor.epoch;
      offset = cursor.offset;
    }

    -- The last steps of `subscribe_session`, from the last one on
    finish : ChannelCursor → JoinHandle → Action P SubscribeOk
    finish cursor task = do
      or_unwind hub channel (attach hub id channel r task)
      pure (answer cursor)

    start : ChannelCursor → P.broker.Stream → P.mpsc.Sender → Action P SubscribeOk
    start cursor stream to = do task ← spawn channel stream to; finish cursor task

    catch_up : ChannelCursor → P.broker.Stream → P.mpsc.Sender → Action P SubscribeOk
    catch_up cursor stream to = do
      or_drop hub stream (or_unwind hub channel (replay hub id channel since to))
      start cursor stream to

    -- The session has the subscription, and its forwarder runs.
    record Attached (stream : P.broker.Stream) (to : P.mpsc.Sender) (v w : World P) : Type 0 where
      task : JoinHandle
      entry : Dict.get (w.store r).subscriptions channel ≡ some task
      forwards :
          Dict.get w.tasks task ≡ some (record { channel = channel; stream = stream; outbox = to })
      mpsc : w.mpsc ≡ v.mpsc
      broker : w.broker ≡ v.broker

    finish-ok :
        (cursor : ChannelCursor) (task : JoinHandle) (reply : SubscribeOk) (v w : World P)
        → finish cursor task v ≡ (ok reply, w)
        → (reply ≡ answer cursor)
          × ((attach hub id channel r task v).0 ≡ ok tt)
          × (w ≡ (attach hub id channel r task v).1)
    unfolding finish
    finish-ok cursor task reply v w h =
        let (u, attached, rest) =
          bind-eq_ok (or_unwind hub channel (attach hub id channel r task)) _ v w reply h in
        let (ran, same) = or_unwind-ok hub channel (attach hub id channel r task) v tt attached in
        (ground (arith, ap (λ x. x.0) rest), ran, sym (ap (λ x. x.1) rest) ∙ ap (λ x. x.1) same)

    start-ok :
        (cursor : ChannelCursor) (stream : P.broker.Stream) (to : P.mpsc.Sender)
        (reply : SubscribeOk) (v w : World P)
        → start cursor stream to v ≡ (ok reply, w)
        → (reply ≡ answer cursor) × Attached stream to v w
    unfolding start spawn
    start-ok cursor stream to reply v w h =
        let (same, ran, after) = finish-ok cursor v.next_task reply _ w h in
        let (entry, tasks, mpsc, broker) = attach-ok hub id channel r v.next_task _ ran in
        (
          same,
          record {
            task = v.next_task;
            entry = ap (λ x. Dict.get (x.store r).subscriptions channel) after ∙ entry;
            forwards =
                ap (λ x. Dict.get x.tasks v.next_task) after
                ∙ ap (λ d. Dict.get d v.next_task) tasks
                ∙ ground (
                  arith,
                  get-put v.tasks v.next_task v.next_task
                      (record { channel = channel; stream = stream; outbox = to }),
                  beq_refl v.next_task,
                );
            mpsc = ap (λ x. x.mpsc) after ∙ mpsc;
            broker = ap (λ x. x.broker) after ∙ broker;
          },
        )

    catch_up-ok :
        (cursor : ChannelCursor) (stream : P.broker.Stream) (to : P.mpsc.Sender)
        (reply : SubscribeOk) (v w : World P)
        → catch_up cursor stream to v ≡ (ok reply, w)
        → (reply ≡ answer cursor)
          × ((ps : List Publication) × Replayed hub channel since v.kinds ps
              × (P.mpsc.sent w.mpsc
                  ≡ P.mpsc.sent v.mpsc ++ map (λ p. (to, ServerFrame.publication p)) ps)
              × (w.broker ≡ v.broker))
          × ((u : World P) × Attached stream to u w)
    unfolding catch_up
    catch_up-ok cursor stream to reply v w h =
        let (u, dropped, rest) =
          bind-eq_ok (or_drop hub stream (or_unwind hub channel (replay hub id channel since to))) _
            v w reply h in
        let (unwound, same1) =
          or_drop-ok hub stream (or_unwind hub channel (replay hub id channel since to)) v tt
            dropped in
        let (ran, same2) = or_unwind-ok hub channel (replay hub id channel since to) v tt unwound in
        let (ps, history, sent) = replay-ok hub id channel since to v ran in
        let (answered, attached) = start-ok cursor stream to reply _ w rest in
        (
          answered,
          (
            ps,
            history,
            ap P.mpsc.sent (attached.mpsc ∙ ap (λ x. x.1.mpsc) (same1 ∙ same2)) ∙ sent.log,
            attached.broker ∙ ap (λ x. x.1.broker) (same1 ∙ same2) ∙ sent.broker,
          ),
          (_, attached),
        )

    listen : ChannelCursor → Action P SubscribeOk
    listen cursor = do
      stream ← or_unwind hub channel (on_broker {P = P} (P.broker.subscribe channel))
      outbox ← λ w. (ok (w.store r).outbox, w)
      catch_up cursor stream outbox

    listen-ok :
        (cursor : ChannelCursor) (reply : SubscribeOk) (v w : World P)
        → listen cursor v ≡ (ok reply, w)
        → (stream : P.broker.Stream) × ((P.broker.subscribe channel v.broker).0 ≡ ok stream)
          × ((u : World P) × (u.kinds ≡ v.kinds)
              × (u.mpsc ≡ v.mpsc)
              × (u.broker ≡ (P.broker.subscribe channel v.broker).1)
              × (catch_up cursor stream (v.store r).outbox u ≡ (ok reply, w)))
    unfolding listen on_broker
    listen-ok cursor reply v w h =
        let (stream, unwound, rest) =
          bind-eq_ok (or_unwind hub channel (on_broker {P = P} (P.broker.subscribe channel))) _ v w
            reply h in
        let (ran, same) =
          or_unwind-ok hub channel (on_broker {P = P} (P.broker.subscribe channel)) v stream
            unwound in
        (
          stream,
          on_broker-ok hub (P.broker.subscribe channel) v stream ran,
          (
            (on_broker {P = P} (P.broker.subscribe channel) v).1,
            refl,
            refl,
            refl,
            subst (λ x. catch_up cursor stream (x.store r).outbox x ≡ (ok reply, w))
                (ap (λ x. x.1) same) rest,
          ),
        )

    pub subscribe_session-ok :
        (reply : SubscribeOk) (w w' : World P)
        → subscribe_session hub id q channel since r w ≡ (ok reply, w')
        → Subscribed id q channel since r reply w w'
    unfolding subscribe_session on_kinds listen catch_up start finish
    subscribe_session-ok reply w w' h =
        let (cursor, accepted, rest) =
          bind-eq_ok (on_kinds {P = P} (P.kinds.on_subscribe (kind_for hub channel) channel)) _ w w'
            reply h in
        let (stream, streamed, (u, same_kinds, same_mpsc, same_broker, rest')) =
          listen-ok cursor reply _ w' rest in
        let (answered, (ps, history, log, kept), (v, attached)) =
          catch_up-ok cursor stream (w.store r).outbox reply u w' rest' in
        record {
          cursor = cursor;
          accepted =
              on_kinds-ok hub (P.kinds.on_subscribe (kind_for hub channel) channel) w cursor
                accepted;
          answered = answered;
          stream = stream;
          streamed = streamed;
          broker = kept ∙ same_broker;
          replayed = ps;
          history = subst (λ kinds. Replayed hub channel since kinds ps) same_kinds history;
          sent =
              log
              ∙ ap
                  (λ m.
                    P.mpsc.sent m ++ map (λ p. ((w.store r).outbox, ServerFrame.publication p)) ps)
                  same_mpsc;
          task = attached.task;
          entry = attached.entry;
          forwards = attached.forwards;
        }
