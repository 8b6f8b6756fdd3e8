-- ===== src/Core/Hub/Publishing.antt =====
-- `handle_publish` of crates/cherenkov-core/src/hub.rs: what has to hold for a publication to reach
-- the channel kind and the broker.
use cherenkov.Prelude.{
  bind-eq_ok, ok_inj, String, ◌≡◌, ◌↔◌, ◌⊎◌, refl, ap, ◌∙◌, sym, subst, some, none, ok, err,
  map_err, inl, inr, arith, Result-cases, Option-cases, lift, pure, ◌>>=◌, ◌>>◌, bind-ok, bind-err,
}
use cherenkov.Protocol.{Bytes, Publication}
use cherenkov.Core.Types.{HubError, SchemaError, SessionClaims, AclAction, AclDecision}
use cherenkov.Core.Session.{SessionId, Ref, get_session}
use cherenkov.Core.Traits.{Platform}
use cherenkov.Core.Hub.{Hub, kind_for}
use cherenkov.Core.Hub.World.{World, Action, find_session, on_kinds, on_broker}
use cherenkov.Core.Hub.Handlers.{require_claims, enforce_acl, handle_publish}
use cherenkov.Core.Hub.Gate.{
  Untouched, Untouched-refl, found-find_session, unfound-find_session, claims_of,
  require_claims-Untouched, require_claims-ok, enforce_acl-ok,
}

module _ {P : Platform} (hub : Hub P) (id : SessionId) (channel : String) (payload : Bytes) where
  -- The session is registered, it has claims, the access rules let it publish, and the payload is
  -- valid.
  pub record Admitted (w : World P) : Type 0 where
    pub session : Ref
    pub found : get_session id w.registry ≡ some session
    pub claims : SessionClaims
    pub claimed : claims_of hub (w.store session).claims ≡ some claims
    pub allowed : hub.acl.check claims AclAction.publish channel ≡ ok AclDecision.allow
    pub valid : hub.validator.validate channel payload ≡ ok tt

  -- The steps of `handle_publish` after the gate.
  hand_on : Action P Publication
  hand_on = do
    publication ← on_kinds {P = P} (P.kinds.on_publish (kind_for hub channel) channel payload)
    on_broker {P = P} (P.broker.publish channel publication)
    pure publication

  -- The steps of `handle_publish` once the session has claims.
  checked : SessionClaims → Action P Publication
  checked claims = do
    lift (enforce_acl hub claims AclAction.publish channel)
    lift (map_err HubError.schema (hub.validator.validate channel payload))
    hand_on

  -- The world after the session was asked for its claims.
  abbrev claimed_world : Ref → World P → World P
  claimed_world r w = (require_claims hub r w).1

  to_claims :
      (w : World P) (r : Ref)
      → get_session id w.registry ≡ some r
      → handle_publish hub id channel payload w ≡ (require_claims hub r >>= checked) w
  unfolding handle_publish checked hand_on
  to_claims w r e = bind-ok (find_session id) _ w w r (found-find_session id w r e)

  to_checks :
      (w : World P) (r : Ref) (claims : SessionClaims)
      → get_session id w.registry ≡ some r
      → (require_claims hub r w).0 ≡ ok claims
      → handle_publish hub id channel payload w ≡ checked claims (claimed_world r w)
  to_checks w r claims e h =
      to_claims w r e
      ∙ bind-ok (require_claims hub r) checked w (claimed_world r w) claims
          (ap (λ x. (x, claimed_world r w)) h)

  checked-passes :
      (claims : SessionClaims) (v : World P)
      → hub.acl.check claims AclAction.publish channel ≡ ok AclDecision.allow
      → hub.validator.validate channel payload ≡ ok tt
      → checked claims v ≡ hand_on v
  unfolding checked
  checked-passes claims v allowed valid =
      rw ((enforce_acl-ok hub claims AclAction.publish channel).1 allowed) (rw valid refl)

  checked-stops :
      (claims : SessionClaims) (v : World P) (e : HubError)
      → enforce_acl hub claims AclAction.publish channel ≡ err e
      → checked claims v ≡ (err e, v)
  unfolding checked
  checked-stops claims v e h = rw h refl

  checked-invalid :
      (claims : SessionClaims) (v : World P) (e : SchemaError)
      → enforce_acl hub claims AclAction.publish channel ≡ ok tt
      → hub.validator.validate channel payload ≡ err e
      → checked claims v ≡ (err (HubError.schema e), v)
  unfolding checked
  checked-invalid claims v e h k = rw h (rw k refl)

  -- What the channel kind and the broker answer to the publication `p`.
  abbrev pub HandedOn : World P → Publication → Type 0
  HandedOn w p =
      ((P.kinds.on_publish (kind_for hub channel) channel payload w.kinds).0 ≡ ok p)
      × ((P.broker.publish channel p w.broker).0 ≡ ok tt)

  hand_on-ok : (v : World P) (p : Publication) → ((hand_on v).0 ≡ ok p) ↔ HandedOn v p
  unfolding hand_on on_kinds on_broker
  hand_on-ok v p =
      elim (Result-cases (P.kinds.on_publish (kind_for hub channel) channel payload v.kinds).0) [
        | inr (e, h) ↦ rw h (ground arith)
        | inl (q, h) ↦ rw h (elim (Result-cases (P.broker.publish channel q v.broker).0) [
          | inr (e, k) ↦ rw k (ground (arith, k))
          | inl (u, k) ↦ rw k (ground (arith, k))
        ])
      ]

  passes :
      (w : World P) (h : Admitted w)
      → handle_publish hub id channel payload w ≡ hand_on (claimed_world h.session w)
  passes w h =
      to_checks w h.session h.claims h.found
        ((require_claims-ok hub h.claims h.session w).1 h.claimed)
      ∙ checked-passes h.claims (claimed_world h.session w) h.allowed h.valid

  HandedOn-claimed :
      (w : World P) (r : Ref) (p : Publication) → HandedOn (claimed_world r w) p ↔ HandedOn w p
  HandedOn-claimed w r p =
      let same = require_claims-Untouched hub r w in rw (same.kinds, same.broker) (λ h. h, λ h. h)

  -- The call failed, and the channel kinds, the broker, the outboxes, the forwarders, the registry
  -- and the subscriptions are as before.
  pub record Refused (w : World P) : Type 0 where
    pub error : HubError
    pub failed : (handle_publish hub id channel payload w).0 ≡ err error
    pub untouched : Untouched w (handle_publish hub id channel payload w).1

  refused :
      (w v : World P) (e : HubError)
      → handle_publish hub id channel payload w ≡ (err e, v)
      → Untouched w v
      → Refused w
  refused w v e h same = record {
    error = e;
    failed = ap (λ x. x.0) h;
    untouched = subst (λ x. Untouched w x.1) (sym h) same;
  }

  gate_of_claims :
      (w : World P) (r : Ref) (claims : SessionClaims)
      → get_session id w.registry ≡ some r
      → (require_claims hub r w).0 ≡ ok claims
      → Refused w ⊎ Admitted w
  gate_of_claims w r claims found h =
      elim (Result-cases (enforce_acl hub claims AclAction.publish channel)) [
        | inr (e, k) ↦ inl (refused w _ e (reached ∙ checked-stops claims _ e k) same)
        | inl (u, k) ↦ elim (Result-cases (hub.validator.validate channel payload)) [
          | inr (e, l) ↦ inl (refused w _ _ (reached ∙ checked-invalid claims _ e k l) same)
          | inl (u, l) ↦ inr (record {
            session = r;
            found = found;
            claims = claims;
            claimed = (require_claims-ok hub claims r w).0 h;
            allowed = (enforce_acl-ok hub claims AclAction.publish channel).0 k;
            valid = l;
          })
        ]
      ]
    where
      same : Untouched w (claimed_world r w)
      same = require_claims-Untouched hub r w

      reached : handle_publish hub id channel payload w ≡ checked claims (claimed_world r w)
      reached = to_checks w r claims found h

  gate : (w : World P) → Refused w ⊎ Admitted w
  unfolding handle_publish
  gate w = elim (Option-cases (get_session id w.registry)) [
    | inl e ↦ inl (refused w w (HubError.session_gone id) (gone e) (Untouched-refl w))
    | inr (r, e) ↦ elim (Result-cases (require_claims hub r w).0) [
      | inl (claims, h) ↦ gate_of_claims w r claims e h
      | inr (x, h) ↦ inl (
          refused w (claimed_world r w) x
            (to_claims w r e
              ∙ bind-err (require_claims hub r) checked w (claimed_world r w) x
                  (ap (λ y. (y, claimed_world r w)) h))
            (require_claims-Untouched hub r w))
    ]
  ]
    where
      gone :
          get_session id w.registry ≡ none
          → handle_publish hub id channel payload w ≡ (err (HubError.session_gone id), w)
      gone e = bind-err (find_session id) _ w w _ (unfound-find_session id w e)

  -- A publication succeeds with `p` exactly when the session is registered and has claims, the access
  -- rules allow it, the payload is valid, the channel's kind accepts it as `p`, and the broker takes
  -- `p`.
  pub handle_publish-eq_ok :
      (w : World P) (p : Publication)
      → ((handle_publish hub id channel payload w).0 ≡ ok p) ↔ (Admitted w × HandedOn w p)
  handle_publish-eq_ok w p = (forward, backward)
    where
      backward : Admitted w × HandedOn w p → (handle_publish hub id channel payload w).0 ≡ ok p
      backward (h, k) =
          ap (λ x. x.0) (passes w h)
          ∙ (hand_on-ok (claimed_world h.session w) p).1 ((HandedOn-claimed w h.session p).1 k)

      forward : (handle_publish hub id channel payload w).0 ≡ ok p → Admitted w × HandedOn w p
      forward e = elim (gate w) [
        | inl r ↦ absurd (ground (arith, r.failed, e))
        | inr h ↦ (
          h,
          (HandedOn-claimed w h.session p).0
              ((hand_on-ok (claimed_world h.session w) p).0 (sym (ap (λ x. x.0) (passes w h)) ∙ e)),
        )
      ]

  -- A publication that is not admitted fails, and leaves the channel kinds, the broker, the outboxes,
  -- the forwarders, the registry and all subscriptions as they were.
  pub handle_publish-Refused : (w : World P) → ¬ Admitted w → Refused w
  handle_publish-Refused w closed = elim (gate w) [ inl h ↦ h | inr h ↦ absurd (closed h) ]

  hand_on-broker :
      (v w' : World P) (p : Publication)
      → hand_on v ≡ (ok p, w')
      → (w'.broker ≡ (P.broker.publish channel p v.broker).1) × (w'.tasks ≡ v.tasks)
  unfolding hand_on on_kinds on_broker
  hand_on-broker v w' p h =
      let (q, taken, rest) =
        bind-eq_ok (on_kinds {P = P} (P.kinds.on_publish (kind_for hub channel) channel payload)) _
          v w' p h in
      let (u, sent, rest') =
        bind-eq_ok (on_broker {P = P} (P.broker.publish channel q)) _ _ w' p rest in
      (
        ap (λ x. x.1.broker) (sym rest')
            ∙ ap (λ a. (P.broker.publish channel a v.broker).1) (ok_inj q p (ap (λ x. x.0) rest')),
        ap (λ x. x.1.tasks) (sym rest'),
      )

  -- A publication that succeeds went to the broker, and no forwarder has changed.
  pub handle_publish-broker :
      (w w' : World P) (p : Publication)
      → handle_publish hub id channel payload w ≡ (ok p, w')
      → (w'.broker ≡ (P.broker.publish channel p w.broker).1) × (w'.tasks ≡ w.tasks)
  handle_publish-broker w w' p e = elim (gate w) [
    | inl r ↦ absurd (ground (arith, r.failed, ap (λ x. x.0) e))
    | inr h ↦
        let (broker, tasks) = hand_on-broker _ w' p (sym (passes w h) ∙ e) in
        let same = require_claims-Untouched hub h.session w in
        (broker ∙ ap (λ s. (P.broker.publish channel p s).1) same.broker, tasks ∙ same.tasks)
  ]
