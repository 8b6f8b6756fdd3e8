-- ===== src/Core/Hub/Unsubscribing.antt =====
-- `handle_unsubscribe` of crates/cherenkov-core/src/hub.rs: what has gone once it succeeds.
use cherenkov.Prelude.{
  ℕ, String, ◌≡◌, ◌≢◌, ap, subst, some, none, ok, arith, inl, inr, Option-cases, ◌>>◌, bind-eq_ok,
  nat_eq, string_eq, beq_refl, eq_iff, pure,
}
use cherenkov.Prelude.Dict
use cherenkov.Prelude.Dict.{get-remove}
use cherenkov.Protocol.{UnsubscribeOk}
use cherenkov.Core.Session.{SessionId, Ref, JoinHandle, get_session, take_subscription}
use cherenkov.Core.Traits.{Platform}
use cherenkov.Core.Hub.{Hub, kind_for}
use cherenkov.Core.Hub.World.{World, Action, find_session, abort, on_kinds}
use cherenkov.Core.Hub.Handlers.{detach, handle_unsubscribe}
use cherenkov.Core.Hub.Gate.{find_session-eq_ok}

module _ {P : Platform} where
  tasks-abort : (task : JoinHandle) (w : World P) → Dict.get (abort task w).tasks task ≡ none
  unfolding abort
  tasks-abort task w = elim (Option-cases (Dict.get w.tasks task)) [
    | inl e ↦ rw (e, abort) e
    | inr (f, e) ↦ rw (e, abort) (ground (arith, get-remove w.tasks task task, beq_refl task))
  ]

  -- The session was subscribed to the channel. It is not any more, its other subscriptions are as
  -- before, and the forwarder does not run.
  pub record Detached (channel : String) (r : Ref) (w v : World P) : Type 0 where
    pub task : JoinHandle
    pub was : Dict.get (w.store r).subscriptions channel ≡ some task
    pub gone : Dict.get (v.store r).subscriptions channel ≡ none
    pub others :
        (other : String)
        → other ≢ channel
        → Dict.get (v.store r).subscriptions other ≡ Dict.get (w.store r).subscriptions other
    pub stopped : Dict.get v.tasks task ≡ none

  module _ (hub : Hub P) where
    detach-ok :
        (id : SessionId) (channel : String) (r : Ref) (w : World P)
        → (detach hub id channel r w).0 ≡ ok tt
        → Detached channel r w (detach hub id channel r w).1
    unfolding detach take_subscription
    detach-ok id channel r w h = elim (Option-cases (Dict.get (w.store r).subscriptions channel)) [
      | inl e ↦ absurd (ground (arith, e, h))
      | inr (task, e) ↦
          rw (e, detach)
            (record {
              task = task;
              was = e;
              gone = ground (
                arith,
                beq_refl r,
                beq_refl channel,
                get-remove (w.store r).subscriptions channel channel,
              );
              others = λ other ne. ground (
                arith,
                beq_refl r,
                eq_iff channel other,
                ne,
                get-remove (w.store r).subscriptions channel other,
              );
              stopped = tasks-abort task w;
            })
    ]

    Detached-on_kinds :
        (channel : String) (r : Ref) (w v : World P) (kinds : P.kinds.State)
        → Detached channel r w v
        → Detached channel r w (record v { kinds = kinds })
    Detached-on_kinds channel r w v kinds h = record {
      task = h.task;
      was = h.was;
      gone = h.gone;
      others = h.others;
      stopped = h.stopped;
    }

    -- The steps of `handle_unsubscribe` once the session is found
    leave : SessionId → ℕ → String → Ref → Action P UnsubscribeOk
    leave id q channel r = do
      detach hub id channel r
      on_kinds {P = P} (P.kinds.on_unsubscribe (kind_for hub channel) channel)
      pure (record { request_id = q; channel = channel })

    leave-ok :
        (id : SessionId) (q : ℕ) (channel : String) (r : Ref) (reply : UnsubscribeOk)
        (w w' : World P)
        → leave id q channel r w ≡ (ok reply, w')
        → (reply ≡ record { request_id = q; channel = channel }) × Detached channel r w w'
    unfolding leave on_kinds
    leave-ok id q channel r reply w w' h =
        let (u, detached, rest) = bind-eq_ok (detach hub id channel r) _ w w' reply h in
        let (v, told, rest') =
          bind-eq_ok (on_kinds {P = P} (P.kinds.on_unsubscribe (kind_for hub channel) channel)) _ _
            w' reply rest in
        (
          ground (arith, ap (λ x. x.0) rest'),
          subst (Detached channel r w) (ap (λ x. x.1) rest')
              (Detached-on_kinds channel r w _ _ (detach-ok id channel r w detached)),
        )

    -- Where unsubscribing succeeds, the session is registered and was subscribed to the channel; its
    -- entry is gone, its other subscriptions are as before, the forwarder does not run any more, and
    -- the reply repeats the request.
    pub handle_unsubscribe-Detached :
        (id : SessionId) (q : ℕ) (channel : String) (reply : UnsubscribeOk) (w w' : World P)
        → handle_unsubscribe hub id q channel w ≡ (ok reply, w')
        → (reply ≡ record { request_id = q; channel = channel })
          × ((r : Ref) × (get_session id w.registry ≡ some r) × Detached channel r w w')
    unfolding handle_unsubscribe leave
    handle_unsubscribe-Detached id q channel reply w w' h =
        let (r, there, rest) = bind-eq_ok (find_session id) _ w w' reply h in
        let (found, same) = find_session-eq_ok id w r there in
        let (answered, done) =
          leave-ok id q channel r reply w w'
            (subst (λ x. leave id q channel r x ≡ (ok reply, w')) (ap (λ x. x.1) same) rest) in
        (answered, (r, found, done))
