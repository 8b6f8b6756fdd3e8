-- ===== src/Core/Hub/Consistent.antt =====
-- The invariant of crates/cherenkov-core/src/session.rs: the two indices of the registry agree with
-- each other and with the sessions.
use cherenkov.Prelude.{
  ℕ, suc, ◌^◌, ◌<◌, String, ◌≡◌, ◌≢◌, sym, ap, ◌∙◌, Option, none, some, arith, ◌==◌, nat_eq,
  string_eq, if◌then◌else◌, eq_iff,
}
use cherenkov.Prelude.Dict
use cherenkov.Prelude.Dict.{get-put, get-remove, get-empty}
use cherenkov.Core.Session.{
  Session, SessionRegistry, SessionId, Ref, JoinHandle, has_subscription, insert_subscription,
  take_subscription, get_session, register, allocate_id, deregister, add_subscription,
  remove_subscription,
}
use cherenkov.Core.Session.Index.{
  listed, listed-add_subscription, listed-remove_subscription, listed-deregister, listed-register,
  listed-allocate_id,
}
use cherenkov.Core.Session.Lookup.{
  get_session-add_subscription, next_id-add_subscription, get_session-remove_subscription,
  next_id-remove_subscription, get_session-deregister, next_id-deregister, get_session-register,
  next_id-allocate_id, next_id-register, get_session-allocate_id,
}
use cherenkov.Core.Session.Subscriptions.{
  has_subscription-insert_subscription, has_subscription-take_subscription, id-take_subscription,
}
use cherenkov.Core.Hub.World.{update}

-- The address that was found, or any.
abbrev ref_of : Option Ref → Ref
ref_of none = 0
ref_of (some r) = r

module _ {S : Type 0} where
  -- 1 if `id` is registered and its session is subscribed to `channel`, else 0.
  unfoldable pub subscribed : SessionId → String → SessionRegistry → (Ref → Session S) → ℕ
  subscribed id channel registry store = elim (get_session id registry) [
    | none ↦ 0
    | some session ↦ if has_subscription channel (store session) then 1 else 0
  ]

  -- A registered session stands under its own id, below the counters; the reverse index lists an id
  -- once for each channel that its session is subscribed to, and lists nothing else.
  pub record Consistent (registry : SessionRegistry) (store : Ref → Session S) (next : Ref)
      : Type 0 where
    pub named : (id : SessionId) (r : Ref) → get_session id registry ≡ some r → (store r).id ≡ id
    pub used : (id : SessionId) (r : Ref) → get_session id registry ≡ some r → id < registry.next_id
    pub allocated : (id : SessionId) (r : Ref) → get_session id registry ≡ some r → r < next
    pub indexed :
        (id : SessionId) (channel : String)
        → listed id channel registry ≡ subscribed id channel registry store

  module _ (registry : SessionRegistry) (store : Ref → Session S) (next_ref : ℕ) where
    -- Two ids never share a session.
    Ref-unique :
        (id j : SessionId) (r : Ref)
        → Consistent registry store next_ref
        → get_session id registry ≡ some r
        → get_session j registry ≡ some r
        → id ≡ j
    Ref-unique id j r h p q = sym (h.named id r p) ∙ h.named j r q

    -- A change of a session that keeps its id and its subscriptions.
    pub update-Consistent :
        (r : Ref) (s : Session S)
        → s.id ≡ (store r).id
        → s.subscriptions ≡ (store r).subscriptions
        → Consistent registry store next_ref
        → Consistent registry (update store r s) next_ref
    unfolding subscribed has_subscription
    update-Consistent r s same_id same_subs h = record {
      named = λ id q p. ground (arith, h.named id q p);
      used = h.used;
      allocated = h.allocated;
      indexed = λ id channel. ground (arith, h.indexed id channel);
    }

    -- A session that no id stands for may change in any way.
    pub unregistered-Consistent :
        (r : Ref) (s : Session S)
        → ((id : SessionId) → get_session id registry ≢ some r)
        → Consistent registry store next_ref
        → Consistent registry (update store r s) next_ref
    unfolding subscribed
    unregistered-Consistent r s gone h = record {
      named = λ id q p. ground (arith, h.named id q p, gone id);
      used = h.used;
      allocated = h.allocated;
      indexed = λ id channel. ground (arith, h.indexed id channel, gone id);
    }

    pub attach-Consistent :
        (id : SessionId) (channel : String) (r : Ref) (task : JoinHandle) (s : Session S)
        → get_session id registry ≡ some r
        → insert_subscription channel task (store r) ≡ some s
        → Consistent registry store next_ref
        → Consistent (add_subscription id channel registry) (update store r s) next_ref
    unfolding subscribed
    attach-Consistent id channel r task s found inserted h =
        let (vacant, same_id, has) =
          has_subscription-insert_subscription channel (store r) task s inserted in
        record {
          named = λ j q p.
              ground
                (arith, h.named j q, same_id, get_session-add_subscription id registry channel j);
          used = λ j q p. ground (
            arith,
            h.used j q,
            get_session-add_subscription id registry channel j,
            next_id-add_subscription id registry channel,
          );
          allocated = λ j q p.
              ground (arith, h.allocated j q, get_session-add_subscription id registry channel j);
          indexed = λ j d. ground (
            arith,
            has d,
            vacant,
            eq_iff channel d,
            h.indexed j d,
            Ref-unique id j r h found,
            get_session-add_subscription id registry channel j,
            listed-add_subscription id j channel d registry,
          );
        }

    pub detach-Consistent :
        (id : SessionId) (channel : String) (r : Ref)
        → get_session id registry ≡ some r
        → Consistent registry store next_ref
        → Consistent
            (remove_subscription id channel registry)
            (update store r (take_subscription channel (store r)).1)
            next_ref
    unfolding subscribed
    detach-Consistent id channel r found h = record {
      named = λ j q p. ground (
        arith,
        h.named j q,
        id-take_subscription channel (store r),
        get_session-remove_subscription id registry channel j,
      );
      used = λ j q p. ground (
        arith,
        h.used j q,
        get_session-remove_subscription id registry channel j,
        next_id-remove_subscription id registry channel,
      );
      allocated = λ j q p.
          ground (arith, h.allocated j q, get_session-remove_subscription id registry channel j);
      indexed = λ j d. ground (
        arith,
        has_subscription-take_subscription channel (store r) d,
        eq_iff channel d,
        h.indexed j d,
        Ref-unique id j r h found,
        get_session-remove_subscription id registry channel j,
        listed-remove_subscription id j channel d registry,
      );
    }

    pub deregister-Consistent :
        (id : SessionId)
        → Consistent registry store next_ref
        → Consistent (deregister id registry).1 store next_ref
    unfolding subscribed get_session
    deregister-Consistent id h = record {
      named = λ j q p. ground (arith, h.named j q, get_session-deregister id registry j);
      used = λ j q p.
          ground (
            arith,
            h.used j q,
            get_session-deregister id registry j,
            next_id-deregister id registry,
          );
      allocated = λ j q p. ground (arith, h.allocated j q, get_session-deregister id registry j);
      indexed = λ j d. ground (
        arith,
        h.indexed j d,
        get_session-deregister id registry j,
        listed-deregister id j d d registry,
      );
    }

    pub register-Consistent :
        (s : Session S)
        → s.id ≡ registry.next_id
        → s.subscriptions ≡ Dict.empty
        → suc registry.next_id < 2 ^ 64
        → Consistent registry store next_ref
        → Consistent
            (register registry.next_id next_ref (allocate_id registry).1)
            (update store next_ref s)
            (suc next_ref)
    unfolding subscribed has_subscription
    register-Consistent s is_named fresh room h = record {
      named = λ j q p. ground (arith, here j, h.named j q, h.allocated j q);
      used = λ j q p. ground (arith, here j, h.used j q, counted);
      allocated = λ j q p. ground (arith, here j, h.allocated j q);
      indexed = λ j d. ground (
        arith,
        here j,
        empty_at d,
        h.indexed j d,
        h.used j (ref_of (get_session j registry)),
        h.allocated j (ref_of (get_session j registry)),
        listed-register registry.next_id next_ref j d (allocate_id registry).1,
        listed-allocate_id j d registry,
      );
    }
      where
        counted :
            (register registry.next_id next_ref (allocate_id registry).1).next_id
            ≡ suc registry.next_id
        counted =
            next_id-register registry.next_id (allocate_id registry).1 next_ref
            ∙ next_id-allocate_id registry room

        here :
            (j : SessionId)
            → get_session j (register registry.next_id next_ref (allocate_id registry).1)
              ≡ (if registry.next_id == j then some next_ref else get_session j registry)
        here j =
            get_session-register registry.next_id (allocate_id registry).1 next_ref j
            ∙ ap (λ o. if registry.next_id == j then some next_ref else o)
                (get_session-allocate_id j registry)

        empty_at : (d : String) → Dict.get s.subscriptions d ≡ none
        empty_at d = ap (λ m. Dict.get m d) fresh ∙ get-empty d
