-- ===== src/Core/Session/Lookup.antt =====
-- What the operations of crates/cherenkov-core/src/session.rs on the registry do to the primary
-- index and to the id counter.
use cherenkov.Prelude.{
  suc, ◌^◌, ◌<◌, String, ◌≡◌, refl, none, some, arith, ◌==◌, nat_eq, if◌then◌else◌, nat_beq_iff,
}
use cherenkov.Prelude.Dict.{get-put, get-remove}
use cherenkov.Core.Session.{
  SessionRegistry, SessionId, Ref, get_session, register, allocate_id, deregister, add_subscription,
  remove_subscription,
}

module _ (id : SessionId) (registry : SessionRegistry) where
  pub get_session-add_subscription :
      (c : String) (j : SessionId)
      → get_session j (add_subscription id c registry) ≡ get_session j registry
  unfolding get_session add_subscription
  get_session-add_subscription c j = refl

  pub next_id-add_subscription :
      (c : String) → (add_subscription id c registry).next_id ≡ registry.next_id
  unfolding add_subscription
  next_id-add_subscription c = refl

  pub get_session-remove_subscription :
      (c : String) (j : SessionId)
      → get_session j (remove_subscription id c registry) ≡ get_session j registry
  unfolding get_session remove_subscription
  get_session-remove_subscription c j = ground arith

  pub next_id-remove_subscription :
      (c : String) → (remove_subscription id c registry).next_id ≡ registry.next_id
  unfolding remove_subscription
  next_id-remove_subscription c = ground arith

  pub get_session-deregister :
      (j : SessionId)
      → get_session j (deregister id registry).1
        ≡ (if id == j then none else get_session j registry)
  unfolding get_session deregister
  get_session-deregister j = ground (arith, get-remove registry.sessions id j, nat_beq_iff id j)

  pub next_id-deregister : (deregister id registry).1.next_id ≡ registry.next_id
  unfolding deregister
  next_id-deregister = ground arith

  pub get_session-register :
      (r : Ref) (j : SessionId)
      → get_session j (register id r registry)
        ≡ (if id == j then some r else get_session j registry)
  unfolding get_session register
  get_session-register r j = get-put registry.sessions id j r

  pub next_id-register : (r : Ref) → (register id r registry).next_id ≡ registry.next_id
  unfolding register
  next_id-register r = refl

pub get_session-allocate_id :
    (j : SessionId) (registry : SessionRegistry)
    → get_session j (allocate_id registry).1 ≡ get_session j registry
unfolding get_session allocate_id
get_session-allocate_id j registry = refl

-- Below the last id, the counter does not wrap.
pub next_id-allocate_id :
    (registry : SessionRegistry)
    → suc registry.next_id < 2 ^ 64
    → (allocate_id registry).1.next_id ≡ suc registry.next_id
unfolding allocate_id
next_id-allocate_id registry room = omega arith
