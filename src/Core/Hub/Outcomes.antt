-- ===== src/Core/Hub/Outcomes.antt =====
-- What the parts of `handle_subscribe` in crates/cherenkov-core/src/hub.rs have done where they
-- succeed.
use cherenkov.Prelude.{
  String, ◌≡◌, refl, some, ok, inl, inr, arith, Result-cases, Option-cases, Exec, nat_eq, string_eq,
  beq_refl,
}
use cherenkov.Prelude.Dict
use cherenkov.Prelude.Dict.{get-put}
use cherenkov.Core.Types.{BrokerError}
use cherenkov.Core.Session.{SessionId, Ref, JoinHandle, insert_subscription}
use cherenkov.Core.Traits.{Platform}
use cherenkov.Core.Hub.{Hub}
use cherenkov.Core.Hub.World.{World, Action, on_broker}
use cherenkov.Core.Hub.Handlers.{or_unwind, or_drop, attach}

module _ {P : Platform} (hub : Hub P) where
  pub or_unwind-ok :
      {A : Type 0} (channel : String) (m : Action P A) (w : World P) (a : A)
      → (or_unwind hub channel m w).0 ≡ ok a
      → ((m w).0 ≡ ok a) × (or_unwind hub channel m w ≡ m w)
  unfolding or_unwind
  or_unwind-ok channel m w a h = elim (Result-cases (m w).0) [
    | inl (b, e) ↦ (ground (arith, e, h), rw (e, or_unwind) refl)
    | inr (x, e) ↦ absurd (ground (arith, e, h))
  ]

  pub or_drop-ok :
      {A : Type 0} (stream : P.broker.Stream) (m : Action P A) (w : World P) (a : A)
      → (or_drop hub stream m w).0 ≡ ok a
      → ((m w).0 ≡ ok a) × (or_drop hub stream m w ≡ m w)
  unfolding or_drop
  or_drop-ok stream m w a h = elim (Result-cases (m w).0) [
    | inl (b, e) ↦ (ground (arith, e, h), rw (e, or_drop) refl)
    | inr (x, e) ↦ absurd (ground (arith, e, h))
  ]

  pub on_broker-ok :
      {A : Type 0} (m : Exec P.broker.State BrokerError A) (w : World P) (a : A)
      → (on_broker {P = P} m w).0 ≡ ok a
      → (m w.broker).0 ≡ ok a
  unfolding on_broker
  on_broker-ok m w a h = elim (Result-cases (m w.broker).0) [
    | inl (b, e) ↦ ground (arith, e, h)
    | inr (x, e) ↦ absurd (ground (arith, e, h))
  ]

  pub attach-ok :
      (id : SessionId) (channel : String) (r : Ref) (task : JoinHandle) (w : World P)
      → (attach hub id channel r task w).0 ≡ ok tt
      → (Dict.get ((attach hub id channel r task w).1.store r).subscriptions channel ≡ some task)
        × ((attach hub id channel r task w).1.tasks ≡ w.tasks)
        × ((attach hub id channel r task w).1.mpsc ≡ w.mpsc)
        × ((attach hub id channel r task w).1.broker ≡ w.broker)
  unfolding attach insert_subscription
  attach-ok id channel r task w h =
      elim (Option-cases (Dict.get (w.store r).subscriptions channel)) [
        | inr (old, e) ↦ absurd (ground (arith, e, h))
        | inl e ↦
            rw (e, attach)
              (
                ground (
                  arith,
                  beq_refl r,
                  beq_refl channel,
                  get-put (w.store r).subscriptions channel channel task,
                ),
                refl,
                refl,
                refl,
              )
      ]
