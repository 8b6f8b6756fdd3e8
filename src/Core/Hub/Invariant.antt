-- ===== src/Core/Hub/Invariant.antt =====
-- The parts of `handle_subscribe` in crates/cherenkov-core/src/hub.rs keep the registry's two indices
-- consistent.
use cherenkov.Prelude.{
  ℕ, String, ◌≡◌, refl, Option, none, some, List, [], ◌∷◌, Result, ok, err, inl, inr, Exec, Keeps,
  keeps_rules, Keeps-bind, Keeps-pure, ◌∙◌, Option-cases, nat_eq,
}
use cherenkov.Prelude.Dict
use cherenkov.Protocol.{Publication, ServerFrame}
use cherenkov.Core.Types.{HubError, ChannelError, BrokerError}
use cherenkov.Core.Session.{SessionId, Ref, get_session, insert_subscription}
use cherenkov.Core.Session.Lookup.{get_session-add_subscription}
use cherenkov.Core.Traits.{Platform}
use cherenkov.Core.Hub.{Hub}
use cherenkov.Core.Hub.World.{
  World, Action, on_kinds, on_broker, send_or, spawn, abort, drop_stream,
}
use cherenkov.Core.Hub.Handlers.{
  unwind, or_unwind, or_drop, send_all, replay, attach, subscribe_session,
}
use cherenkov.Core.Hub.Consistent.{Consistent, attach-Consistent}

-- The indices of the registry agree with each other and with the sessions.
abbrev pub IsConsistent : {P : Platform} → World P → Type 0
IsConsistent w = Consistent w.registry w.store w.next_ref

-- The world is consistent, and the session of `id` is registered.
pub record Holds {P : Platform} (id : SessionId) (r : Ref) (w : World P) : Type 0 where
  pub consistent : IsConsistent w
  pub found : get_session id w.registry ≡ some r

module _ {P : Platform} {id : SessionId} {r : Ref} where
  pub Keeps-on_kinds :
      {A : Type 0} (m : Exec P.kinds.State ChannelError A) → Keeps (Holds {P = P} id r) (on_kinds m)
  unfolding on_kinds
  Keeps-on_kinds m = record { at = λ w h. record { consistent = h.consistent; found = h.found } }

  pub Keeps-on_broker :
      {A : Type 0} (m : Exec P.broker.State BrokerError A)
      → Keeps (Holds {P = P} id r) (on_broker m)
  unfolding on_broker
  Keeps-on_broker m = record { at = λ w h. record { consistent = h.consistent; found = h.found } }

  Holds-send_or :
      (gone : HubError) (to : P.mpsc.Sender) (frame : ServerFrame) (w : World P)
      → Holds id r w
      → (o : Option P.mpsc.State) → P.mpsc.send to frame w.mpsc ≡ o
      → Holds id r (send_or gone to frame w).1
  unfolding send_or
  Holds-send_or gone to frame w h none e = rw (e, send_or) h
  Holds-send_or gone to frame w h (some m) e =
      rw (e, send_or) (record { consistent = h.consistent; found = h.found })

  Keeps-send_or :
      (gone : HubError) (to : P.mpsc.Sender) (frame : ServerFrame)
      → Keeps (Holds {P = P} id r) (send_or gone to frame)
  Keeps-send_or gone to frame = record {
    at = λ w h. Holds-send_or gone to frame w h (P.mpsc.send to frame w.mpsc) refl;
  }

  Keeps-spawn :
      (c : String) (s : P.broker.Stream) (o : P.mpsc.Sender)
      → Keeps (Holds {P = P} id r) (spawn c s o)
  unfolding spawn
  Keeps-spawn c s o = record { at = λ w h. record { consistent = h.consistent; found = h.found } }

  Keeps-read :
      {A : Type 0} (f : World P → A)
      → Keeps {E = HubError} (Holds {P = P} id r) (λ w. (ok (f w), w))
  Keeps-read f = record { at = λ w h. h }

  Holds-drop_stream :
      (s : P.broker.Stream) (w : World P) → Holds id r w → Holds id r (drop_stream s w)
  unfolding drop_stream
  Holds-drop_stream s w h = record { consistent = h.consistent; found = h.found }

  pub Holds-abort : (task : ℕ) (w : World P) → Holds id r w → Holds id r (abort task w)
  unfolding abort
  Holds-abort task w h = elim (Option-cases (Dict.get w.tasks task)) [
    | inl e ↦ rw (e, abort) h
    | inr (f, e) ↦ rw (e, abort) (record { consistent = h.consistent; found = h.found })
  ]

module _ {P : Platform} (hub : Hub P) {id : SessionId} {r : Ref} where
  Holds-unwind : (c : String) (w : World P) → Holds id r w → Holds id r (unwind hub c w)
  unfolding unwind
  Holds-unwind c w h = record { consistent = h.consistent; found = h.found }

  -- The two ways in which an early return cleans up.
  module _ {A : Type 0} (m : Action P A) (km : Keeps (Holds {P = P} id r) m) where
    Keeps-or_unwind : (c : String) → Keeps (Holds {P = P} id r) (or_unwind hub c m)
    unfolding or_unwind
    Keeps-or_unwind c = record { at = λ w h. go (m w).0 (m w).1 (km.at w h) }
      where
        go :
            (x : Result HubError A) (v : World P)
            → Holds id r v
            → Holds id r
                (elim x as (λ x. Result HubError A × World P) [
                  | ok a ↦ (ok a, v)
                  | err e ↦ (err e, unwind hub c v)
                ]).1
        go (ok a) v h = h
        go (err e) v h = Holds-unwind c v h

    Keeps-or_drop : (s : P.broker.Stream) → Keeps (Holds {P = P} id r) (or_drop hub s m)
    unfolding or_drop
    Keeps-or_drop s = record { at = λ w h. go (m w).0 (m w).1 (km.at w h) }
      where
        go :
            (x : Result HubError A) (v : World P)
            → Holds id r v
            → Holds id r
                (elim x as (λ x. Result HubError A × World P) [
                  | ok a ↦ (ok a, v)
                  | err e ↦ (err e, drop_stream s v)
                ]).1
        go (ok a) v h = h
        go (err e) v h = Holds-drop_stream s v h

  Keeps-send_all :
      (gone : HubError) (to : P.mpsc.Sender) (ps : List Publication)
      → Keeps (Holds {P = P} id r) (send_all hub gone to ps)
  unfolding send_all
  Keeps-send_all gone to [] = Keeps-pure tt
  Keeps-send_all gone to (p ∷ ps) =
      Keeps-bind _ _ (Keeps-send_or gone to (ServerFrame.publication p))
        (λ _. Keeps-send_all gone to ps)

  Keeps-replay :
      (c : String) (since : ℕ) (to : P.mpsc.Sender)
      → Keeps (Holds {P = P} id r) (replay hub id c since to)
  unfolding replay
  Keeps-replay c since to = search (keeps_rules, Keeps-on_kinds, Keeps-send_all)

  Keeps-attach : (c : String) (task : ℕ) → Keeps (Holds {P = P} id r) (attach hub id c r task)
  unfolding attach
  Keeps-attach c task = record {
    at = λ w h. elim (Option-cases (insert_subscription c task (w.store r))) [
      | inl e ↦ rw (e, attach) (Holds-abort task w h)
      | inr (s, e) ↦
          rw (e, attach)
            (record {
              consistent =
                  attach-Consistent w.registry w.store w.next_ref id c r task s h.found e
                    h.consistent;
              found = get_session-add_subscription id w.registry c id ∙ h.found;
            })
    ];
  }

  pub Keeps-subscribe_session :
      (request_id : ℕ) (c : String) (since : ℕ)
      → Keeps (Holds {P = P} id r) (subscribe_session hub id request_id c since r)
  unfolding subscribe_session
  Keeps-subscribe_session request_id c since =
      search
        (
          keeps_rules, Keeps-on_kinds, Keeps-on_broker, Keeps-or_unwind, Keeps-or_drop,
          Keeps-replay, Keeps-spawn, Keeps-read, Keeps-attach,
        )
        depth 20
