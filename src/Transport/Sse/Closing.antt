-- ===== src/Transport/Sse/Closing.antt =====
-- How crates/cherenkov-transport-sse/src/lib.rs ends the sessions that its handlers open.
use cherenkov.Prelude.{
  ℕ, suc, ◌^◌, ◌<◌, ◌≡◌, String, Option, none, some, Result, ok, err, arith, inl, inr, Result-cases,
  Option-cases, Bool-cases, List, [], ◌∷◌, Exec, continue, ◌>>=◌, pure, Keeps, is_empty,
}
use cherenkov.Protocol.{Bytes}
use cherenkov.Core.Types.{HubError}
use cherenkov.Core.Session.{SessionId, get_session, allocate_id}
use cherenkov.Core.Traits.{Platform}
use cherenkov.Core.Hub.{Hub}
use cherenkov.Core.Hub.World.{World}
use cherenkov.Core.Hub.Handlers.{open_session, requires_connect}
use cherenkov.Core.Hub.Invariant.{IsConsistent}
use cherenkov.Core.Hub.Closing.{IsClosed, close_session-IsClosed, unregistered-IsClosed}
use cherenkov.Core.Hub.Preserves.{
  IsConsistent-open_session, Keeps-handle_connect, Keeps-handle_subscribe, Keeps-handle_publish,
}
use cherenkov.Core.Hub.Reach.{Reach}
use cherenkov.Transport.Sse.{
  Event, Texts, Response, Body, read, unreadable, or_close, admit, subscribe_each, subscribe_all,
  subscribe_handler, publish_admitted, publish_all, publish_handler,
}
use cherenkov.Transport.Sse.Query.{channels_from_raw_query, token_from_headers}

-- The world is consistent; where the result is an error, the session is closed as well.
abbrev Ends : {P : Platform} {A : Type 0} → SessionId → Result Response A → World P → Type 0
Ends id (ok a) w = IsConsistent w
Ends id (err e) w = IsClosed id w

-- An action that closes the session where it fails.
record Tidy {P : Platform} {A : Type 0} (id : SessionId) (m : Exec (World P) Response A)
    : Type 0 where
  at : (w : World P) → IsConsistent w → Ends id (m w).0 (m w).1

Tidy-pure : {P : Platform} {id : SessionId} {A : Type 0} (a : A) → Tidy {P = P} id (pure a)
Tidy-pure a = record { at = λ w h. h }

module _ {P : Platform} {id : SessionId} {A B : Type 0} where
  Ends-continue :
      (r : Result Response A) (f : A → Exec (World P) Response B) (w : World P)
      → ((a : A) → Tidy id (f a))
      → Ends id r w
      → Ends id (continue r f w).0 (continue r f w).1
  Ends-continue (ok a) f w tf h = (tf a).at w h
  Ends-continue (err e) f w tf h = h

  Tidy-bind :
      (m : Exec (World P) Response A) (f : A → Exec (World P) Response B)
      → Tidy id m
      → ((a : A) → Tidy id (f a))
      → Tidy id (m >>= f)
  Tidy-bind m f tm tf = record { at = λ w h. Ends-continue (m w).0 f (m w).1 tf (tm.at w h) }

Ends-err :
    {P : Platform} (id : SessionId) {A : Type 0} (r : Result Response A) (w : World P)
    (x : Response)
    → Ends id r w
    → r ≡ err x
    → IsClosed id w
Ends-err id (ok a) w x h e = absurd (ground (arith, e))
Ends-err id (err y) w x h e = h

module _ {P : Platform} (texts : Texts) (hub : Hub P) {id : SessionId} where
  Tidy-or_close :
      {A : Type 0} (m : Exec (World P) HubError A)
      → Keeps IsConsistent m
      → Tidy id (or_close texts hub id m)
  unfolding or_close
  Tidy-or_close m km = record {
    at = λ w h. elim (Result-cases (m w).0) [
      | inl (a, e) ↦ rw (e, or_close) (km.at w h)
      | inr (x, e) ↦ rw (e, or_close) (close_session-IsClosed id (m w).1 (km.at w h))
    ];
  }

  Tidy-admit : (token : Option String) → Tidy id (admit texts hub id token)
  unfolding admit
  Tidy-admit (some token) =
      Tidy-bind _ _ (Tidy-or_close _ (Keeps-handle_connect hub id 0 token)) (λ _. Tidy-pure tt)
  Tidy-admit none = record {
    at = λ w h. elim (Bool-cases (requires_connect hub)) [
      | inl e ↦ rw (e, admit) (close_session-IsClosed id w h)
      | inr e ↦ rw (e, admit) h
    ];
  }

  Tidy-subscribe_each :
      (i : ℕ) (channels : List String) → Tidy id (subscribe_each texts hub id i channels)
  unfolding subscribe_each
  Tidy-subscribe_each i [] = Tidy-pure tt
  Tidy-subscribe_each i (c ∷ channels) =
      Tidy-bind _ _ (Tidy-or_close _ (Keeps-handle_subscribe hub id i c 0))
        (λ _. Tidy-subscribe_each (suc i) channels)

  Tidy-subscribe_all :
      (token : Option String) (channels : List String)
      → Tidy id (subscribe_all texts hub id token channels)
  unfolding subscribe_all
  Tidy-subscribe_all token channels =
      Tidy-bind _ _ (Tidy-admit token) (λ _. Tidy-subscribe_each 0 channels)

  Tidy-started :
      (token : Option String) (channels : List String)
      → Tidy id (subscribe_all texts hub id token channels >>= λ _. pure id)
  Tidy-started token channels =
      Tidy-bind _ _ (Tidy-subscribe_all token channels) (λ _. Tidy-pure id)

module _ {P : Platform} (texts : Texts) (hub : Hub P) (id : SessionId) where
  publish_admitted-IsClosed :
      (channel : String) (payload : Bytes) (w : World P)
      → IsConsistent w
      → IsClosed id (publish_admitted texts hub id channel payload w).1
  unfolding publish_admitted
  publish_admitted-IsClosed channel payload w h =
      close_session-IsClosed id _ ((Keeps-handle_publish hub id channel payload).at w h)

  continue-IsClosed :
      {A B : Type 0} (r : Result Response A) (f : A → Exec (World P) Response B) (w : World P)
      → ((a : A) (v : World P) → IsConsistent v → IsClosed id (f a v).1)
      → Ends id r w
      → IsClosed id (continue r f w).1
  continue-IsClosed (ok a) f w k h = k a w h
  continue-IsClosed (err e) f w k h = h

  publish_all-IsClosed :
      (token : Option String) (channel : String) (payload : Bytes) (w : World P)
      → IsConsistent w
      → IsClosed id (publish_all texts hub id token channel payload w).1
  unfolding publish_all
  publish_all-IsClosed token channel payload w h =
      continue-IsClosed (admit texts hub id token w).0
        (λ _. publish_admitted texts hub id channel payload) (admit texts hub id token w).1
        (λ _. publish_admitted-IsClosed channel payload) ((Tidy-admit texts hub token).at w h)

abbrev pub close_event : Event
close_event = record { event = "close"; payload = none }

module _ {P : Platform} (texts : Texts) (hub : Hub P) (tx : P.mpsc.Sender) (w : World P)
    (room : suc w.registry.next_id < 2 ^ 64) (h : IsConsistent w) where
  next_unregistered : IsClosed w.registry.next_id w
  next_unregistered =
      unregistered-IsClosed w.registry.next_id w
        (elim (Option-cases (get_session w.registry.next_id w.registry)) [
          | inl e ↦ e
          | inr (r, e) ↦ absurd (omega (arith, h.used w.registry.next_id r e))
        ])
        h

  opened-IsConsistent : IsConsistent (open_session hub tx w).1
  opened-IsConsistent = IsConsistent-open_session hub tx w room h

  -- Where `subscribe_handler` refuses, for whatever reason, the session that it opened is not
  -- registered any more, no channel lists it, and the registry's indices are consistent. They were
  -- consistent before, and an id was left to allocate.
  pub subscribe_handler-IsClosed :
      (query : Option Bytes) (authorization : Option String) (response : Response)
      → (subscribe_handler texts hub tx query authorization w).0 ≡ err response
      → IsClosed w.registry.next_id (subscribe_handler texts hub tx query authorization w).1
  unfolding subscribe_handler open_session allocate_id
  subscribe_handler-IsClosed query authorization response e =
      elim (Bool-cases (is_empty (channels_from_raw_query query))) [
        | inl none_asked ↦ rw (none_asked, subscribe_handler) next_unregistered
        | inr asked ↦
            rw (asked, subscribe_handler)
              (Ends-err _ _ _ response
                ((Tidy-started texts hub (token_from_headers authorization)
                    (channels_from_raw_query query)).at
                  _ opened-IsConsistent)
                (rw (asked, subscribe_handler) at e))
      ]

  -- Whatever `publish_handler` answers, the session that it opened is not registered any more, no
  -- channel lists it, and the registry's indices are consistent. They were consistent before, and an
  -- id was left to allocate.
  pub publish_handler-IsClosed :
      (channel : String) (authorization : Option String) (body : Body)
      → IsClosed w.registry.next_id (publish_handler texts hub tx channel authorization body w).1
  unfolding publish_handler open_session allocate_id
  publish_handler-IsClosed channel authorization (unreadable e) = next_unregistered
  publish_handler-IsClosed channel authorization (read payload) =
      publish_all-IsClosed texts hub _ (token_from_headers authorization) channel payload _
        opened-IsConsistent
