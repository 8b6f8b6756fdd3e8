-- ===== src/Transport/Sse/Answers.antt =====
-- What `publish_handler` of crates/cherenkov-transport-sse/src/lib.rs answers.
use cherenkov.Prelude.{
  ◌≡◌, ◌≢◌, ◌↔◌, refl, ap, ◌∙◌, String, Option, none, some, Result, ok, err, map_err, arith, inl,
  inr, Result-cases, Bool-cases, Exec, pure, continue, bind-eq_ok, bind-ok, ok_inj,
}
use cherenkov.Protocol.{Bytes, Publication}
use cherenkov.Core.Types.{HubError}
use cherenkov.Core.Session.{SessionId}
use cherenkov.Core.Traits.{Platform}
use cherenkov.Core.Hub.{Hub}
use cherenkov.Core.Hub.World.{World}
use cherenkov.Core.Hub.Handlers.{open_session, handle_connect, handle_publish, requires_connect}
use cherenkov.Transport.Sse.{
  Texts, Response, read, status_of, into_response, or_close, admit, publish_admitted,
  publish_answer, publish_all, publish_handler,
}
use cherenkov.Transport.Sse.Query.{token_from_headers}

status_of-ne_ok : (e : HubError) → status_of e ≢ 200
unfolding status_of
status_of-ne_ok e = ground arith

-- An answer to a request that was refused
abbrev IsRefusal : {A : Type 0} → Result Response A → Type 0
IsRefusal (ok a) = Unit
IsRefusal (err r) = r.status ≢ 200

IsRefusal-continue :
    {S A B : Type 0} (r : Result Response A) (f : A → Exec S Response B) (s : S)
    → ((a : A) (t : S) → IsRefusal (f a t).0)
    → IsRefusal r
    → IsRefusal (continue r f s).0
IsRefusal-continue (ok a) f s k h = k a s
IsRefusal-continue (err e) f s k h = h

IsRefusal-map_err :
    {A : Type 0} (texts : Texts) (r : Result HubError A)
    → IsRefusal (map_err (into_response texts) r)
unfolding into_response
IsRefusal-map_err texts (ok a) = tt
IsRefusal-map_err texts (err e) = status_of-ne_ok e

module _ {P : Platform} (texts : Texts) (hub : Hub P) (id : SessionId) where
  IsRefusal-or_close :
      {A : Type 0} (m : Exec (World P) HubError A) (w : World P)
      → IsRefusal (or_close texts hub id m w).0
  unfolding or_close into_response
  IsRefusal-or_close m w = elim (Result-cases (m w).0) [
    | inl (a, e) ↦ rw (e, or_close) tt
    | inr (x, e) ↦ rw (e, or_close) (status_of-ne_ok x)
  ]

  IsRefusal-admit : (token : Option String) (w : World P) → IsRefusal (admit texts hub id token w).0
  unfolding admit
  IsRefusal-admit (some token) w =
      IsRefusal-continue (or_close texts hub id (handle_connect hub id 0 token) w).0 (λ _. pure tt)
        (or_close texts hub id (handle_connect hub id 0 token) w).1 (λ _ _. tt)
        (IsRefusal-or_close (handle_connect hub id 0 token) w)
  IsRefusal-admit none w = elim (Bool-cases (requires_connect hub)) [
    | inl e ↦ rw (e, admit) (omega arith)
    | inr e ↦ rw (e, admit) tt
  ]

  publish_admitted-ok :
      (channel : String) (payload : Bytes) (w : World P) (p : Publication)
      → ((publish_admitted texts hub id channel payload w).0 ≡ ok p)
        ↔ ((handle_publish hub id channel payload w).0 ≡ ok p)
  unfolding publish_admitted
  publish_admitted-ok channel payload w p =
      elim (Result-cases (handle_publish hub id channel payload w).0) [
        | inl (q, e) ↦
            rw (e, publish_admitted) (λ h. ap ok (ok_inj q p h), λ h. ap ok (ok_inj q p h))
        | inr (x, e) ↦
            rw (e, publish_admitted)
              (λ h. absurd (ground (arith, h)), λ h. absurd (ground (arith, h)))
      ]

  publish_all-ok :
      (token : Option String) (channel : String) (payload : Bytes) (w : World P) (p : Publication)
      → ((publish_all texts hub id token channel payload w).0 ≡ ok p) ↔ (
          (u : World P) × (admit texts hub id token w ≡ (ok tt, u))
          × ((handle_publish hub id channel payload u).0 ≡ ok p))
  unfolding publish_all
  publish_all-ok token channel payload w p = (
    λ h.
        let (_, admitted, rest) =
          bind-eq_ok (admit texts hub id token) (λ _. publish_admitted texts hub id channel payload)
            w _ p (λ i. (h i, (publish_all texts hub id token channel payload w).1)) in
        (
          (admit texts hub id token w).1,
          λ i. (admitted i, (admit texts hub id token w).1),
          (publish_admitted-ok channel payload _ p).0 (ap (λ x. x.0) rest),
        ),
    λ (u, admitted, published).
        ap (λ x. x.0)
          (bind-ok (admit texts hub id token) (λ _. publish_admitted texts hub id channel payload) w
            u tt admitted)
        ∙ (publish_admitted-ok channel payload u p).1 published,
  )

  IsRefusal-publish_all :
      (token : Option String) (channel : String) (payload : Bytes) (w : World P)
      → IsRefusal (publish_all texts hub id token channel payload w).0
  unfolding publish_all publish_admitted
  IsRefusal-publish_all token channel payload w =
      IsRefusal-continue (admit texts hub id token w).0
        (λ _. publish_admitted texts hub id channel payload) (admit texts hub id token w).1
        (λ _ v. IsRefusal-map_err texts (handle_publish hub id channel payload v).0)
        (IsRefusal-admit token w)

  answer-ok :
      (r : Result Response Publication)
      → IsRefusal r
      → ((publish_answer texts hub r).status ≡ 200) ↔ ((p : Publication) × (r ≡ ok p))
  unfolding publish_answer
  answer-ok (ok p) h = (λ _. (p, refl), λ _. refl)
  answer-ok (err e) h = (λ k. absurd (h k), λ (p, k). absurd (ground (arith, k)))

  status-ok :
      (token : Option String) (channel : String) (payload : Bytes) (w : World P)
      → ((publish_answer texts hub (publish_all texts hub id token channel payload w).0).status
          ≡ 200)
        ↔ ((u : World P) × (p : Publication) × (admit texts hub id token w ≡ (ok tt, u))
            × ((handle_publish hub id channel payload u).0 ≡ ok p))
  status-ok token channel payload w =
      let (there, back) =
        answer-ok (publish_all texts hub id token channel payload w).0
          (IsRefusal-publish_all token channel payload w) in
      (
        λ h.
            let (p, e) = there h in
            let (u, admitted, published) = (publish_all-ok token channel payload w p).0 e in
            (u, p, admitted, published),
        λ (u, p, admitted, published).
            back (p, (publish_all-ok token channel payload w p).1 (u, admitted, published)),
      )

module _ {P : Platform} (texts : Texts) (hub : Hub P) (tx : P.mpsc.Sender) where
  -- `publish_handler` answers a message whose body was read with status 200 exactly when the session
  -- that it opened was admitted with the header's token and the hub then accepted the publication.
  pub publish_handler-ok :
      (channel : String) (authorization : Option String) (payload : Bytes) (w : World P)
      → ((publish_handler texts hub tx channel authorization (read payload) w).0.status ≡ 200) ↔ (
          (u : World P) × (p : Publication) × (admit texts hub
              (open_session hub tx w).0.0
              (token_from_headers authorization)
              (open_session hub tx w).1
            ≡ (ok tt, u))
          × ((handle_publish hub (open_session hub tx w).0.0 channel payload u).0 ≡ ok p))
  unfolding publish_handler
  publish_handler-ok channel authorization payload w =
      status-ok texts hub (open_session hub tx w).0.0 (token_from_headers authorization) channel
        payload (open_session hub tx w).1
