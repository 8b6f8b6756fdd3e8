-- ===== src/Core/Hub/Gate.antt =====
-- The checks that crates/cherenkov-core/src/hub.rs makes before a session may publish or subscribe.
use cherenkov.Prelude.{
  String, ◌≡◌, ◌↔◌, refl, ap, Option, none, some, ok, err, inl, inr, arith, Option-cases,
  Result-cases, Bool-cases, if◌then◌else◌, string_eq, nat_eq,
}
use cherenkov.Core.Types.{HubError, SessionClaims, anonymous, AclAction, AclDecision}
use cherenkov.Core.Session.{SessionId, Ref, get_session, set_claims}
use cherenkov.Core.Traits.{Platform}
use cherenkov.Core.Hub.{Hub}
use cherenkov.Core.Hub.World.{World, find_session, modify_session}
use cherenkov.Core.Hub.Handlers.{require_claims, enforce_acl, decide}

-- A session may change its claims; the rest of the world is the same.
pub record Untouched {P : Platform} (v w : World P) : Type 0 where
  pub registry : w.registry ≡ v.registry
  pub kinds : w.kinds ≡ v.kinds
  pub broker : w.broker ≡ v.broker
  pub mpsc : w.mpsc ≡ v.mpsc
  pub tasks : w.tasks ≡ v.tasks
  pub subscriptions : (r : Ref) → (w.store r).subscriptions ≡ (v.store r).subscriptions
  pub outbox : (r : Ref) → (w.store r).outbox ≡ (v.store r).outbox

module _ {P : Platform} where
  pub Untouched-refl : (w : World P) → Untouched w w
  Untouched-refl w = record {
    registry = refl;
    kinds = refl;
    broker = refl;
    mpsc = refl;
    tasks = refl;
    subscriptions = λ r. refl;
    outbox = λ r. refl;
  }

  pub found-find_session :
      (id : SessionId) (w : World P) (r : Ref)
      → get_session id w.registry ≡ some r
      → find_session id w ≡ (ok r, w)
  unfolding find_session
  found-find_session id w r e = rw (e, find_session)

  pub unfound-find_session :
      (id : SessionId) (w : World P)
      → get_session id w.registry ≡ none
      → find_session id w ≡ (err (HubError.session_gone id), w)
  unfolding find_session
  unfound-find_session id w e = rw (e, find_session)

  pub find_session-eq_ok :
      (id : SessionId) (w : World P) (r : Ref)
      → (find_session id w).0 ≡ ok r
      → (get_session id w.registry ≡ some r) × (find_session id w ≡ (ok r, w))
  unfolding find_session
  find_session-eq_ok id w r h = elim (Option-cases (get_session id w.registry)) [
    | inl e ↦ absurd (gone e)
    | inr (q, e) ↦ (there q e, found-find_session id w r (there q e))
  ]
    where
      gone : get_session id w.registry ≡ none → ⊥
      gone e = ground (arith, h, ap (λ p. p.0) (unfound-find_session id w e))

      there : (q : Ref) → get_session id w.registry ≡ some q → get_session id w.registry ≡ some r
      there q e = ground (arith, e, h, ap (λ p. p.0) (found-find_session id w q e))

module _ {P : Platform} (hub : Hub P) where
  -- The claims that a session acts with: its own, or those of the anonymous client if these are
  -- allowed.
  abbrev pub claims_of : Option SessionClaims → Option SessionClaims
  claims_of (some claims) = some claims
  claims_of none = if hub.authenticator.allow_anonymous then some anonymous else none

  Untouched-set_claims :
      (claims : SessionClaims) (r : Ref) (w : World P)
      → Untouched w (modify_session r (set_claims claims) w)
  unfolding set_claims
  Untouched-set_claims claims r w = record {
    registry = refl;
    kinds = refl;
    broker = refl;
    mpsc = refl;
    tasks = refl;
    subscriptions = λ q. ground (arith, nat_eq.beq_iff r q, ap w.store);
    outbox = λ q. ground (arith, nat_eq.beq_iff r q);
  }

  pub require_claims-Untouched : (r : Ref) (w : World P) → Untouched w (require_claims hub r w).1
  unfolding require_claims
  require_claims-Untouched r w = elim (Option-cases (w.store r).claims) [
    | inr (claims, e) ↦ rw (e, require_claims) (Untouched-refl w)
    | inl e ↦ elim (Bool-cases hub.authenticator.allow_anonymous) [
      | inl open_to_all ↦
          rw (e, require_claims) (rw open_to_all (Untouched-set_claims anonymous r w))
      | inr strict ↦ rw (e, require_claims) (rw strict (Untouched-refl w))
    ]
  ]

  pub require_claims-ok :
      (claims : SessionClaims) (r : Ref) (w : World P)
      → ((require_claims hub r w).0 ≡ ok claims) ↔ (claims_of (w.store r).claims ≡ some claims)
  unfolding require_claims
  require_claims-ok claims r w = elim (Option-cases (w.store r).claims) [
    | inr (own, e) ↦ rw (e, require_claims) (ground arith)
    | inl e ↦ elim (Bool-cases hub.authenticator.allow_anonymous) [
      | inl open_to_all ↦ rw (e, require_claims) (rw open_to_all (ground arith))
      | inr strict ↦ rw (e, require_claims) (rw strict (ground arith))
    ]
  ]

  pub require_claims-not_connected :
      (r : Ref) (w : World P)
      → claims_of (w.store r).claims ≡ none
      → require_claims hub r w ≡ (err (HubError.not_connected (w.store r).id), w)
  unfolding require_claims
  require_claims-not_connected r w h = elim (Option-cases (w.store r).claims) [
    | inr (own, e) ↦ absurd (ground (arith, h, ap claims_of e))
    | inl e ↦ elim (Bool-cases hub.authenticator.allow_anonymous) [
      | inl open_to_all ↦ absurd (ground (arith, h, ap claims_of e))
      | inr strict ↦ rw (e, require_claims) (rw strict refl)
    ]
  ]

  pub enforce_acl-ok :
      (claims : SessionClaims) (action : AclAction) (channel : String)
      → (enforce_acl hub claims action channel ≡ ok tt)
        ↔ (hub.acl.check claims action channel ≡ ok AclDecision.allow)
  unfolding enforce_acl decide
  enforce_acl-ok claims action channel = elim (Result-cases (hub.acl.check claims action channel)) [
    | inl (AclDecision.allow, e) ↦ rw (e, enforce_acl) (ground arith)
    | inl (AclDecision.deny, e) ↦ rw (e, enforce_acl) (ground arith)
    | inr (x, e) ↦ rw (e, enforce_acl) (ground arith)
  ]
