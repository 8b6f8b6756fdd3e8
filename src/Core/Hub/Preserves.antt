-- ===== src/Core/Hub/Preserves.antt =====
-- Each entry point of crates/cherenkov-core/src/hub.rs keeps the registry's two indices consistent.
use cherenkov.Prelude.{
  ℕ, suc, ◌^◌, ◌<◌, String, ◌≡◌, ◌≢◌, refl, ◌∙◌, some, List, inl, inr, arith, Result-cases, Keeps,
  keeps_rules, ◌>>=◌, Option-cases, nat_eq, string_eq, [], ◌∷◌,
}
use cherenkov.Prelude.Dict
use cherenkov.Protocol.{Bytes}
use cherenkov.Core.Types.{anonymous}
use cherenkov.Core.Session.{
  Session, SessionId, Ref, get_session, new_session, set_claims, signal_shutdown, allocate_id,
  take_subscription, remove_subscription,
}
use cherenkov.Core.Session.Lookup.{get_session-remove_subscription}
use cherenkov.Core.Traits.{Platform}
use cherenkov.Core.Hub.{Hub}
use cherenkov.Core.Hub.World.{World, Action, abort, find_session, modify_session, update}
use cherenkov.Core.Hub.Handlers.{
  open_session, handle_connect, connect_session, require_claims, refuse_twice, handle_subscribe,
  detach, handle_unsubscribe, handle_publish, close_session, kick_session, drop_session, abort_each,
}
use cherenkov.Core.Hub.Consistent.{
  Consistent, update-Consistent, detach-Consistent, deregister-Consistent, unregistered-Consistent,
  register-Consistent,
}
use cherenkov.Core.Hub.Invariant.{
  IsConsistent, Holds, Keeps-on_kinds, Keeps-on_broker, Keeps-subscribe_session,
}

module _ {P : Platform} {id : SessionId} where
  Keeps-found :
      {A : Type 0} (f : Ref → Action P A)
      → ((r : Ref) → Keeps (Holds id r) (f r))
      → Keeps IsConsistent (find_session id >>= f)
  unfolding find_session
  Keeps-found f kf = record {
    at = λ w h. elim (Option-cases (get_session id w.registry)) [
      | inl e ↦ rw (e, find_session) h
      | inr (r, e) ↦
          rw (e, find_session) ((kf r).at w (record { consistent = h; found = e })).consistent
    ];
  }

  Holds-modify_session :
      (r : Ref) (f : Session P.mpsc.Sender → Session P.mpsc.Sender)
      → ((s : Session P.mpsc.Sender) → (f s).id ≡ s.id)
      → ((s : Session P.mpsc.Sender) → (f s).subscriptions ≡ s.subscriptions)
      → (w : World P) → Holds id r w
      → Holds id r (modify_session r f w)
  Holds-modify_session r f same_id same_subs w h = record {
    consistent =
        update-Consistent w.registry w.store w.next_ref r (f (w.store r)) (same_id (w.store r))
          (same_subs (w.store r)) h.consistent;
    found = h.found;
  }

module _ {P : Platform} where
  next_ref-abort : (task : ℕ) (w : World P) → (abort task w).next_ref ≡ w.next_ref
  unfolding abort
  next_ref-abort task w = ground arith

  IsConsistent-abort : (task : ℕ) (w : World P) → IsConsistent w → IsConsistent (abort task w)
  unfolding abort
  IsConsistent-abort task w h = elim (Option-cases (Dict.get w.tasks task)) [
    | inl e ↦ rw (e, abort) h
    | inr (f, e) ↦ rw (e, abort) h
  ]

  IsConsistent-abort_each :
      (tasks : List ℕ) (w : World P) → IsConsistent w → IsConsistent (abort_each tasks w)
  unfolding abort_each
  IsConsistent-abort_each [] w h = h
  IsConsistent-abort_each (task ∷ tasks) w h =
      IsConsistent-abort_each tasks (abort task w) (IsConsistent-abort task w h)

module _ {P : Platform} (hub : Hub P) {id : SessionId} {r : Ref} where
  Keeps-require_claims : Keeps (Holds id r) (require_claims hub r)
  unfolding require_claims set_claims
  Keeps-require_claims = record {
    at = λ w h.
        ground
          (arith, h, Holds-modify_session r (set_claims anonymous) (λ s. refl) (λ s. refl) w h);
  }

  Keeps-refuse_twice : (c : String) → Keeps (Holds id r) (refuse_twice hub id c r)
  unfolding refuse_twice
  Keeps-refuse_twice c = record { at = λ w h. ground (arith, h) }

  Keeps-connect_session :
      (request_id : ℕ) (token : String)
      → Keeps (Holds id r) (connect_session hub id request_id token r)
  unfolding connect_session set_claims
  Keeps-connect_session request_id token = record {
    at = λ w h. elim (Result-cases (hub.authenticator.authenticate token)) [
      | inl (claims, e) ↦
          rw (e, connect_session)
            (ground
              (arith, h, Holds-modify_session r (set_claims claims) (λ s. refl) (λ s. refl) w h))
      | inr (x, e) ↦ rw (e, connect_session) (ground (arith, h))
    ];
  }

  Keeps-detach : (c : String) → Keeps (Holds id r) (detach hub id c r)
  unfolding detach
  Keeps-detach c = record {
    at = λ w h. elim (Option-cases (take_subscription c (w.store r)).0) [
      | inl e ↦ rw (e, detach) h
      | inr (task, e) ↦
          rw (e, detach)
            (record {
              consistent = detached w task h;
              found = get_session-remove_subscription id w.registry c id ∙ h.found;
            })
    ];
  }
    where
      detached :
          (w : World P) (task : ℕ)
          → Holds id r w
          → Consistent
              (remove_subscription id c w.registry)
              (update w.store r (take_subscription c (w.store r)).1)
              (abort task w).next_ref
      detached w task h =
          rw next_ref-abort
            (detach-Consistent w.registry w.store w.next_ref id c r h.found h.consistent)

module _ {P : Platform} (hub : Hub P) where
  pub IsConsistent-open_session :
      (to : P.mpsc.Sender) (w : World P)
      → suc w.registry.next_id < 2 ^ 64
      → IsConsistent w
      → IsConsistent (open_session hub to w).1
  unfolding open_session new_session allocate_id set_claims
  IsConsistent-open_session to w room h =
      register-Consistent w.registry w.store w.next_ref _ (ground arith) (ground arith) room h

  pub Keeps-handle_connect :
      (id : SessionId) (request_id : ℕ) (token : String)
      → Keeps IsConsistent (handle_connect hub id request_id token)
  unfolding handle_connect
  Keeps-handle_connect id request_id token =
      Keeps-found _ (λ r. Keeps-connect_session hub request_id token)

  pub Keeps-handle_subscribe :
      (id : SessionId) (request_id : ℕ) (c : String) (since : ℕ)
      → Keeps IsConsistent (handle_subscribe hub id request_id c since)
  unfolding handle_subscribe
  Keeps-handle_subscribe id request_id c since =
      Keeps-found _
        λ r. search (keeps_rules, Keeps-require_claims, Keeps-refuse_twice, Keeps-subscribe_session)

  pub Keeps-handle_unsubscribe :
      (id : SessionId) (request_id : ℕ) (c : String)
      → Keeps IsConsistent (handle_unsubscribe hub id request_id c)
  unfolding handle_unsubscribe
  Keeps-handle_unsubscribe id request_id c =
      Keeps-found _ λ r. search (keeps_rules, Keeps-detach, Keeps-on_kinds)

  pub Keeps-handle_publish :
      (id : SessionId) (c : String) (payload : Bytes)
      → Keeps IsConsistent (handle_publish hub id c payload)
  unfolding handle_publish
  Keeps-handle_publish id c payload =
      Keeps-found _
        λ r. search (keeps_rules, Keeps-require_claims, Keeps-on_kinds, Keeps-on_broker) depth 12

module _ {P : Platform} where
  pub IsConsistent-close_session :
      (id : SessionId) (w : World P) → IsConsistent w → IsConsistent (close_session id w)
  unfolding close_session
  IsConsistent-close_session id w h = deregister-Consistent w.registry w.store w.next_ref id h

  pub IsConsistent-kick_session :
      (id : SessionId) (w : World P) → IsConsistent w → IsConsistent (kick_session id w).1
  unfolding kick_session signal_shutdown
  IsConsistent-kick_session id w h = elim (Option-cases (get_session id w.registry)) [
    | inl e ↦ rw (e, kick_session) h
    | inr (r, e) ↦
        rw (e, kick_session)
          (deregister-Consistent w.registry _ w.next_ref id
            (Holds-modify_session r signal_shutdown (λ s. refl) (λ s. refl) w
              (record { consistent = h; found = e })).consistent)
  ]

  pub IsConsistent-drop_session :
      (r : Ref) (w : World P)
      → ((id : SessionId) → get_session id w.registry ≢ some r)
      → IsConsistent w
      → IsConsistent (drop_session r w)
  unfolding drop_session
  IsConsistent-drop_session r w gone h =
      IsConsistent-abort_each (Dict.values (w.store r).subscriptions) _
        (unregistered-Consistent w.registry w.store w.next_ref r _ gone h)
