-- ===== src/Admin/Guard.antt =====
-- What a request to the admin API of crates/cherenkov-admin/src/lib.rs can change.
use Prim.Native.String as Text
use cherenkov.Prelude.{
  String, ◌≡◌, refl, sym, ◌⊎◌, inl, inr, ap, ◌∙◌, true, Option, none, some, Bool-cases,
  Option-cases, arith, eq_of_beq, string_eq, nat_eq,
}
use cherenkov.Prelude.Format.{strip_prefix, strip_prefix-append}
use cherenkov.Core.Session.{SessionId, get_session}
use cherenkov.Core.Session.Lookup.{get_session-deregister}
use cherenkov.Core.Traits.{Platform}
use cherenkov.Core.Hub.World.{World}
use cherenkov.Core.Hub.Handlers.{kick_session}
use cherenkov.Core.Hub.Invariant.{IsConsistent}
use cherenkov.Core.Hub.Preserves.{IsConsistent-kick_session}
use cherenkov.Core.Hub.Closing.{IsClosed, unregistered-IsClosed}
use cherenkov.Admin.{
  AdminResources, Route, disconnect_route, health_route, sessions_route, metrics_route,
  session_route, subscribers_route, Request, disconnect_session, run, admits, require_token,
  same_token,
}

module _ {P : Platform} (id : SessionId) (w : World P) where
  kicked_gone : get_session id (kick_session id w).1.registry ≡ none
  unfolding kick_session
  kicked_gone = elim (Option-cases (get_session id w.registry)) [
    | inl e ↦ rw (e, kick_session) e
    | inr (r, e) ↦
        rw (e, kick_session)
          (ground (arith, get_session-deregister id w.registry id, nat_eq.beq_iff id id))
  ]

module _ {P : Platform} (id : SessionId) (w : World P) where
  -- After a kick the session is closed.
  pub kick_session-IsClosed : IsConsistent w → IsClosed id (kick_session id w).1
  kick_session-IsClosed h =
      unregistered-IsClosed id (kick_session id w).1 (kicked_gone id w)
        (IsConsistent-kick_session id w h)

-- The request may pass: no token is configured, or the header is `Bearer` and the token.
abbrev pub MayPass : Option String → Option String → Type 0
MayPass auth_token authorization =
    (auth_token ≡ none)
    ⊎ ((token : String) × (auth_token ≡ some token)
        × (authorization ≡ some (Text.◌++◌ "Bearer " token)))

module _ {P : Platform} {Metrics : Type 0} (render : Metrics → String)
    (state : AdminResources P Metrics) where
  admits-MayPass :
      (auth_token authorization : Option String)
      → admits render state auth_token authorization ≡ true
      → MayPass auth_token authorization
  unfolding admits
  admits-MayPass none authorization h = inl refl
  admits-MayPass (some expected) none h = absurd (ground (arith, h))
  admits-MayPass (some expected) (some value) h =
      elim (Option-cases (strip_prefix "Bearer " value)) [
        | inl e ↦ absurd (ground (arith, e, h))
        | inr (token, e) ↦ inr (
          expected,
          refl,
          ap some (
              strip_prefix-append "Bearer " value token e
              ∙ ap (Text.◌++◌ "Bearer ")
                  (eq_of_beq token expected (ap (same_token render state expected) (sym e) ∙ h))),
        )
      ]

  -- What a request did: nothing, or one session was disconnected.
  abbrev pub Changed : Request → World P → World P → Type 0
  Changed request w v =
      (v ≡ w)
      ⊎ ((id : SessionId) × (request.route ≡ disconnect_route id)
          × MayPass state.auth_token request.authorization
          × IsClosed id v)

  Changed-run :
      (request : Request) (route : Route) (w : World P)
      → request.route ≡ route
      → MayPass state.auth_token request.authorization
      → IsConsistent w
      → Changed request w (run render state route w).1
  unfolding run disconnect_session
  Changed-run request health_route w e m h = inl refl
  Changed-run request sessions_route w e m h = inl refl
  Changed-run request metrics_route w e m h = inl refl
  Changed-run request (session_route id) w e m h = inl refl
  Changed-run request (subscribers_route channel) w e m h = inl refl
  Changed-run request (disconnect_route id) w e m h = elim (Option-cases state.hub) [
    | inl k ↦ inl (rw (k, disconnect_session) refl)
    | inr (hub, k) ↦ inr (id, e, m, rw (k, disconnect_session) (kick_session-IsClosed id w h))
  ]

  -- A request to the admin API changes nothing, unless it asks to disconnect a session and may pass:
  -- no token is configured, or its header is `Bearer` and that token. Then the session is not
  -- registered any more, no channel lists it, and the registry's indices are consistent, as they
  -- were before.
  pub require_token-Changed :
      (request : Request) (w : World P)
      → IsConsistent w
      → Changed request w (require_token render state request w).1
  unfolding require_token
  require_token-Changed request w h =
      elim (Bool-cases (admits render state state.auth_token request.authorization)) [
        | inl e ↦
            rw (e, require_token)
              (Changed-run request request.route w refl
                (admits-MayPass state.auth_token request.authorization e) h)
        | inr e ↦ rw (e, require_token) (inl refl)
      ]
