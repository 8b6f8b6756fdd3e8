-- ===== src/Core/Hub/Closing.antt =====
-- `close_session` of crates/cherenkov-core/src/hub.rs, as the transports end a session with it.
use cherenkov.Prelude.{String, ◌≡◌, refl, ◌∙◌, none, arith, nat_eq}
use cherenkov.Core.Session.{SessionId, get_session}
use cherenkov.Core.Session.Lookup.{get_session-deregister}
use cherenkov.Core.Session.Index.{listed}
use cherenkov.Core.Traits.{Platform}
use cherenkov.Core.Hub.World.{World}
use cherenkov.Core.Hub.Handlers.{close_session}
use cherenkov.Core.Hub.Invariant.{IsConsistent}
use cherenkov.Core.Hub.Consistent
use cherenkov.Core.Hub.Consistent.{Consistent}
use cherenkov.Core.Hub.Preserves.{IsConsistent-close_session}

-- The session is not registered, no channel lists it, and the indices are consistent.
abbrev pub IsClosed : {P : Platform} → SessionId → World P → Type 0
IsClosed id w =
    (get_session id w.registry ≡ none)
    × ((channel : String) → listed id channel w.registry ≡ 0)
    × IsConsistent w

module _ {P : Platform} (id : SessionId) (w : World P) where
  -- In a consistent world, an id that is not registered is listed nowhere.
  pub unregistered-IsClosed : get_session id w.registry ≡ none → IsConsistent w → IsClosed id w
  unfolding Consistent.subscribed
  unregistered-IsClosed gone h =
      (gone, λ c. h.indexed id c ∙ rw (gone, Consistent.subscribed) refl, h)

  gone_after : get_session id (close_session id w).registry ≡ none
  unfolding close_session
  gone_after = ground (arith, get_session-deregister id w.registry id, nat_eq.beq_iff id id)

module _ {P : Platform} (id : SessionId) (w : World P) where
  pub close_session-IsClosed : IsConsistent w → IsClosed id (close_session id w)
  close_session-IsClosed h =
      unregistered-IsClosed id (close_session id w) (gone_after id w)
        (IsConsistent-close_session id w h)
