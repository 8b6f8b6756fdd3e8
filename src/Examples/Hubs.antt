-- ===== src/Examples/Hubs.antt =====
-- A server with a session to run the hub on, and instances of the hub's theorems.
use cherenkov.Prelude.{
  ◌<◌, none, Option, subst, sym, ◌∙◌, ℕ, some, ◌≡◌, refl, ◌↔◌, ok, [], ◌∷◌, arith, nat_eq,
  string_eq,
}
use cherenkov.Prelude.Dict
use cherenkov.Protocol.{Publication, ServerFrame, SubscribeOk, UnsubscribeOk}
use cherenkov.Core.Types.{AclDecision, AclAction}
use cherenkov.Core.Session.{new_registry, new_session, subscribers_of, get_session}
use cherenkov.Core.Traits.{allow_all_validator, allow_all_authenticator, allow_all_acl}
use cherenkov.Core.Hub.{Hub}
use cherenkov.Core.Hub.World.{World}
use cherenkov.Core.Hub.World
use cherenkov.Core.Hub.Handlers
use cherenkov.Core.Hub
use cherenkov.Core.Session
use cherenkov.Core.Namespace
use cherenkov.PubSub
use cherenkov.MemoryBroker
use cherenkov.Core.Hub.Handlers.{
  open_session, handle_subscribe, handle_unsubscribe, handle_publish, close_session,
}
use cherenkov.Core.Hub.Invariant.{IsConsistent}
use cherenkov.Core.Hub.Reach.{Reach, opened, subscribed, closed, here, next, Reach-IsConsistent}
use cherenkov.Core.Hub.Publishing.{
  Admitted, HandedOn, Refused, handle_publish-eq_ok, handle_publish-Refused,
}
use cherenkov.Core.Hub.Subscribing.{Accepted, handle_subscribe-Accepted}
use cherenkov.Core.Hub.Unsubscribing.{Detached, handle_unsubscribe-Detached}
use cherenkov.Core.Hub.Forwarding.{Forwarded, forward_each, forward_each-Forwarded}
use cherenkov.Fanout.{handle_publish-received}
use cherenkov.MemoryBroker.{Stream}
use cherenkov.MemoryBroker.Delivery.{received, stream_of}
use cherenkov.PubSub.{with_bounds}
use cherenkov.MemoryBroker.{with_capacity}
use cherenkov.Examples.Toy.{tapes, toy, no_tape}

abbrev pub hub : Hub toy
hub = record {
  kind = with_bounds 2 10;
  namespace_kinds = Dict.empty;
  validator = allow_all_validator;
  authenticator = allow_all_authenticator;
  acl = allow_all_acl;
}

-- No publication is allowed.
abbrev pub read_only_hub : Hub toy
read_only_hub = record hub {
  acl = record {
    check = λ claims action channel. elim action [
      | AclAction.subscribe ↦ ok AclDecision.allow
      | AclAction.publish ↦ ok AclDecision.deny
    ];
  };
}

abbrev pub empty_world : World toy
empty_world = record {
  registry = new_registry;
  store = λ _. new_session 0 0;
  next_ref = 0;
  tasks = Dict.empty;
  next_task = 0;
  mpsc = [];
  kinds = record { state = Dict.empty; clock = 5 };
  broker = with_capacity 4 no_tape;
}

-- Session 0 with outbox 7
abbrev pub one_session : World toy
one_session = (open_session hub 7 empty_world).1

abbrev pub subscribed_world : World toy
subscribed_world = (handle_subscribe hub 0 1 "rooms.a" 0 one_session).1

abbrev pub closed_world : World toy
closed_world = close_session 0 subscribed_world

path : Reach hub empty_world closed_world
path =
    next
      (next (next here (opened 7 empty_world (omega arith)))
        (subscribed 0 1 "rooms.a" 0 one_session))
      (closed 0 subscribed_world)

abbrev publish_once : World toy → World toy
publish_once w = (handle_publish hub 0 "rooms.a" (1 ∷ []) w).1

-- Three publications, of which the last two are kept
abbrev published_world : World toy
published_world = publish_once (publish_once (publish_once one_session))

abbrev caught_up_world : World toy
caught_up_world = (handle_subscribe hub 0 5 "rooms.a" 1 published_world).1

abbrev subscribe_reply : SubscribeOk
subscribe_reply = record { request_id = 5; channel = "rooms.a"; epoch = 1; offset = 2 }

abbrev left_world : World toy
left_world = (handle_unsubscribe hub 0 6 "rooms.a" caught_up_world).1

abbrev unsubscribe_reply : UnsubscribeOk
unsubscribe_reply = record { request_id = 6; channel = "rooms.a" }

abbrev last_publication : Publication
last_publication = record { channel = "rooms.a"; offset = 3; payload = 4 ∷ [] }

abbrev fanned_out_world : World toy
fanned_out_world = (handle_publish hub 0 "rooms.a" (4 ∷ []) caught_up_world).1

-- The forwarder of the subscription, task 0
abbrev forwarder : World.Forwarder (Stream tapes) ℕ
forwarder = record {
  channel = "rooms.a";
  stream = stream_of "rooms.a" (with_capacity 4 no_tape);
  outbox = 7;
}

-- What the server does, computed
runs :
    (handle_subscribe hub 0 5 "rooms.a" 1 published_world ≡ (ok subscribe_reply, caught_up_world))
    × (handle_publish hub 0 "rooms.a" (4 ∷ []) caught_up_world
        ≡ (ok last_publication, fanned_out_world))
    × (handle_unsubscribe hub 0 6 "rooms.a" caught_up_world ≡ (ok unsubscribe_reply, left_world))
    × (caught_up_world.mpsc
        ≡ (
          7,
          ServerFrame.publication (record { channel = "rooms.a"; offset = 2; payload = 1 ∷ [] }),
        )
          ∷ [])
    × (subscribers_of "rooms.a" subscribed_world.registry ≡ 0 ∷ [])
    × (subscribers_of "rooms.a" closed_world.registry ≡ [])
    × (Dict.get caught_up_world.broker.topics "rooms.a" ≡ some 0)
    × (tapes.capacity (caught_up_world.broker.channels 0) ≡ 4)
    × (Dict.get subscribed_world.tasks 0 ≡ some forwarder)
unfolding Handlers.handle_publish Handlers.handle_subscribe Handlers.open_session
    Handlers.close_session Session.subscribers_of Dict.get World.find_session Session.get_session
    Session.register Dict.put Session.allocate_id Dict.empty Handlers.require_claims
    Session.set_claims Handlers.enforce_acl Handlers.refuse_twice Session.has_subscription
    Session.new_session Handlers.subscribe_session World.on_kinds PubSub.on_subscribe
    Handlers.or_unwind Handlers.attach Handlers.decide Handlers.or_drop Handlers.replay
    Handlers.send_all Handlers.unwind World.abort World.drop_stream World.on_broker World.send_or
    World.spawn Hub.kind_for Namespace.namespace_of Namespace.split_once_dot
    Session.add_subscription Session.deregister Session.insert_subscription Dict.remove Dict.retain
    PubSub.cursor PubSub.cursor_locked PubSub.with_bounds PubSub.on_publish PubSub.append
    PubSub.evict_expired PubSub.evict PubSub.trim MemoryBroker.subscribe MemoryBroker.sender_for
    MemoryBroker.subscribe_on MemoryBroker.publish MemoryBroker.publish_on MemoryBroker.reap
    MemoryBroker.with_capacity PubSub.replay_since Handlers.handle_unsubscribe Handlers.detach
    Session.take_subscription Session.remove_subscription PubSub.on_unsubscribe
runs = (refl, refl, refl, refl, refl, refl, refl, refl, refl)

has_room :
    (a : ℕ)
    → Dict.get caught_up_world.broker.topics "rooms.a" ≡ some a
    → 0 < tapes.capacity (caught_up_world.broker.channels a)
has_room a e =
    let (first, second, third, fourth, fifth, sixth, topic, room, running) = runs in
    subst (λ b. 0 < tapes.capacity (caught_up_world.broker.channels b)) (some_inj (sym topic ∙ e))
      (omega (arith, room))
  where
    some_inj : ◌≡◌ {A = Option ℕ} (some 0) (some a) → 0 ≡ a
    some_inj h = ground (arith, h)

Reach-IsConsistent_example : IsConsistent closed_world
Reach-IsConsistent_example = Reach-IsConsistent path refl

abbrev first_publication : Publication
first_publication = record { channel = "rooms.a"; offset = 0; payload = 1 ∷ 2 ∷ [] }

handle_publish-eq_ok_example :
    ((handle_publish hub 0 "rooms.a" (1 ∷ 2 ∷ []) subscribed_world).0 ≡ ok first_publication) ↔ (
      Admitted hub 0 "rooms.a" (1 ∷ 2 ∷ []) subscribed_world
      × HandedOn hub 0 "rooms.a" (1 ∷ 2 ∷ []) subscribed_world first_publication)
handle_publish-eq_ok_example =
    handle_publish-eq_ok hub 0 "rooms.a" (1 ∷ 2 ∷ []) subscribed_world first_publication

handle_subscribe-Accepted_example :
    Accepted hub 0 5 "rooms.a" 1 subscribe_reply published_world caught_up_world
handle_subscribe-Accepted_example =
    handle_subscribe-Accepted hub 0 5 "rooms.a" 1 subscribe_reply published_world caught_up_world
      runs.0

handle_unsubscribe-Detached_example :
    (unsubscribe_reply ≡ record { request_id = 6; channel = "rooms.a" })
    × ((r : ℕ) × (get_session 0 caught_up_world.registry ≡ some r)
        × Detached "rooms.a" r caught_up_world left_world)
handle_unsubscribe-Detached_example =
    handle_unsubscribe-Detached hub 0 6 "rooms.a" unsubscribe_reply caught_up_world left_world
      runs.2

handle_publish-received_example :
    (r : ℕ) × (get_session 0 published_world.registry ≡ some r)
    × ((task : ℕ) × (Dict.get (caught_up_world.store r).subscriptions "rooms.a" ≡ some task)
        × ((stream : Stream tapes) × (Dict.get fanned_out_world.tasks task
              ≡ some (record {
                channel = "rooms.a";
                stream = stream;
                outbox = (published_world.store r).outbox;
              }))
            × (received stream fanned_out_world.broker ≡ last_publication ∷ [])))
handle_publish-received_example =
    handle_publish-received hub 0 0 5 "rooms.a" 1 subscribe_reply (4 ∷ []) last_publication
      published_world caught_up_world fanned_out_world runs.0 runs.1 has_room

refused_here : ¬ Admitted read_only_hub 0 "rooms.a" (1 ∷ []) subscribed_world
refused_here h = ground (arith, h.allowed)

handle_publish-Refused_example : Refused read_only_hub 0 "rooms.a" (1 ∷ []) subscribed_world
handle_publish-Refused_example =
    handle_publish-Refused read_only_hub 0 "rooms.a" (1 ∷ []) subscribed_world refused_here

forward_each-Forwarded_example :
    Forwarded 0 forwarder
      (some first_publication ∷ some last_publication ∷ none ∷ [])
      subscribed_world
      (forward_each 0 (some first_publication ∷ some last_publication ∷ none ∷ []) subscribed_world)
forward_each-Forwarded_example =
    forward_each-Forwarded 0 forwarder (some first_publication ∷ some last_publication ∷ none ∷ [])
      subscribed_world runs.8
