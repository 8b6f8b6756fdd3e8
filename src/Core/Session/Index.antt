-- ===== src/Core/Session/Index.antt =====
-- The reverse index of crates/cherenkov-core/src/session.rs, operation by operation: how often an
-- id stands among the subscribers of a channel.
use cherenkov.Prelude.{
  ℕ, ◌+◌, String, ◌≡◌, refl, ◌&&◌, none, some, List, [], ◌∷◌, ◌++◌, arith, ◌==◌, nat_eq, string_eq,
  if◌then◌else◌, count, count-append, count-filter_ne, is_empty, eq_iff, Option-cases, inl, inr,
}
use cherenkov.Prelude.Dict
use cherenkov.Prelude.Dict.{get-put, get-remove, get-retain}
use cherenkov.Core.Session.{
  SessionRegistry, SessionId, subscribers_of, add_subscription, remove_subscription, deregister,
  without_id, scrub, or_default, register, allocate_id,
}

-- How often `id` stands in the entry of `channel`.
abbrev pub listed : SessionId → String → SessionRegistry → ℕ
listed id channel r = count id (subscribers_of channel r)

-- An entry that is dropped for being empty reads as the empty entry.
or_default_unless_empty :
    (ids : List SessionId) → or_default (if is_empty ids then none else some ids) ≡ ids
or_default_unless_empty [] = refl
or_default_unless_empty (x ∷ ids) = refl

count-scrub :
    (id j : SessionId) (ids : List SessionId)
    → count j (or_default (scrub id ids)) ≡ (if j == id then 0 else count j ids)
count-scrub id j ids = rw or_default_unless_empty (count-filter_ne j id ids)

module _ (id j : SessionId) (c d : String) (r : SessionRegistry) where
  pub listed-add_subscription :
      listed j d (add_subscription id c r) ≡ listed j d r + (if c == d && j == id then 1 else 0)
  unfolding subscribers_of add_subscription
  listed-add_subscription = ground (
    arith,
    get-put r.channels c d (or_default (Dict.get r.channels c) ++ id ∷ []),
    count-append j (or_default (Dict.get r.channels c)) (id ∷ []),
    eq_iff c d,
  )

  pub listed-remove_subscription :
      listed j d (remove_subscription id c r) ≡ (if c == d && j == id then 0 else listed j d r)
  unfolding subscribers_of remove_subscription
  listed-remove_subscription = elim (Option-cases (Dict.get r.channels c)) [
    | inl e ↦ ground (arith, eq_iff c d)
    | inr (ids, e) ↦ ground (
      arith,
      eq_iff c d,
      get-put r.channels c d (without_id id ids),
      get-remove (Dict.put r.channels c (without_id id ids)) c d,
      count-scrub id j ids,
    )
  ]

  pub listed-deregister : listed j d (deregister id r).1 ≡ (elim (Dict.get r.sessions id) [
    | none ↦ listed j d r
    | some session ↦ if j == id then 0 else listed j d r
  ])
  unfolding subscribers_of deregister
  listed-deregister = ground (
    arith,
    get-retain (λ _ ids. scrub id ids) r.channels d,
    count-scrub id j (or_default (Dict.get r.channels d)),
  )

pub listed-register :
    (id r : ℕ) (j : SessionId) (d : String) (registry : SessionRegistry)
    → listed j d (register id r registry) ≡ listed j d registry
unfolding subscribers_of register
listed-register id r j d registry = refl

pub listed-allocate_id :
    (j : SessionId) (d : String) (registry : SessionRegistry)
    → listed j d (allocate_id registry).1 ≡ listed j d registry
unfolding subscribers_of allocate_id
listed-allocate_id j d registry = refl
