-- ===== src/Transport/Sse/Serving.antt =====
-- What `subscribe_handler` of crates/cherenkov-transport-sse/src/lib.rs has done where it answers
-- with a stream.
use cherenkov.Prelude.{
  ℕ, suc, ◌≡◌, ap, sym, String, Option, ok, arith, inl, inr, Result-cases, Bool-cases, List, [],
  ◌∷◌, Exec, ◌>>=◌, pure, is_empty, bind-eq_ok, ok_inj,
}
use cherenkov.Protocol.{Bytes, SubscribeOk}
use cherenkov.Core.Types.{HubError}
use cherenkov.Core.Session.{SessionId}
use cherenkov.Core.Traits.{Platform}
use cherenkov.Core.Hub.{Hub}
use cherenkov.Core.Hub.World.{World}
use cherenkov.Core.Hub.Handlers.{open_session, handle_subscribe}
use cherenkov.Core.Hub.Subscribing.{Accepted, handle_subscribe-Accepted}
use cherenkov.Transport.Sse.{
  Texts, or_close, admit, subscribe_each, subscribe_all, subscribe_handler,
}
use cherenkov.Transport.Sse.Query.{channels_from_raw_query, token_from_headers}

-- The channels are subscribed to one after the other, each from the world that the one before left;
-- their numbers, from `i` on, are the ids of the requests.
abbrev pub InTurn :
    {P : Platform} → Hub P → SessionId → ℕ → List String → World P → World P → Type 0
InTurn hub id i [] w v = w ≡ v
InTurn {P} hub id i (channel ∷ channels) w v =
    (reply : SubscribeOk) × (u : World P) × Accepted hub id i channel 0 reply w u
    × InTurn hub id (suc i) channels u v

module _ {P : Platform} (texts : Texts) (hub : Hub P) (id : SessionId) where
  or_close-ok :
      {A : Type 0} (m : Exec (World P) HubError A) (w : World P) (a : A)
      → (or_close texts hub id m w).0 ≡ ok a
      → m w ≡ (ok a, (or_close texts hub id m w).1)
  unfolding or_close
  or_close-ok m w a h = elim (Result-cases (m w).0) [
    | inl (b, e) ↦ rw (e, or_close) (ap (λ x. (ok x, (m w).1)) (ok_inj b a (rw (e, or_close) at h)))
    | inr (x, e) ↦ absurd (ground (arith, e, h))
  ]

  subscribe_each-InTurn :
      (i : ℕ) (channels : List String) (w v : World P)
      → subscribe_each texts hub id i channels w ≡ (ok tt, v)
      → InTurn hub id i channels w v
  unfolding subscribe_each
  subscribe_each-InTurn i [] w v h = ap (λ p. p.1) h
  subscribe_each-InTurn i (c ∷ channels) w v h =
      let (reply, accepted, rest) =
        bind-eq_ok (or_close texts hub id (handle_subscribe hub id i c 0)) _ w v tt h in
      (
        reply,
        (or_close texts hub id (handle_subscribe hub id i c 0) w).1,
        handle_subscribe-Accepted hub id i c 0 reply w _
            (or_close-ok (handle_subscribe hub id i c 0) w reply accepted),
        subscribe_each-InTurn (suc i) channels _ v rest,
      )

  subscribe_all-InTurn :
      (token : Option String) (channels : List String) (w v : World P)
      → subscribe_all texts hub id token channels w ≡ (ok tt, v)
      → (u : World P) × (admit texts hub id token w ≡ (ok tt, u)) × InTurn hub id 0 channels u v
  unfolding subscribe_all
  subscribe_all-InTurn token channels w v h =
      let (_, admitted, rest) =
        bind-eq_ok (admit texts hub id token) (λ _. subscribe_each texts hub id 0 channels) w v tt
          h in
      (
        (admit texts hub id token w).1,
        λ i. (admitted i, (admit texts hub id token w).1),
        subscribe_each-InTurn 0 channels _ v rest,
      )

  started :
      (token : Option String) (channels : List String) (j : SessionId) (w v : World P)
      → (subscribe_all texts hub id token channels >>= λ _. pure id) w ≡ (ok j, v)
      → (j ≡ id)
        × ((u : World P) × (admit texts hub id token w ≡ (ok tt, u)) × InTurn hub id 0 channels u v)
  started token channels j w v h =
      let (_, subscribed, same) =
        bind-eq_ok (subscribe_all texts hub id token channels) (λ _. pure id) w v j h in
      (
        ok_inj j id (sym (ap (λ p. p.0) same)),
        subscribe_all-InTurn token channels w v λ i. (subscribed i, (same i).1),
      )

module _ {P : Platform} (texts : Texts) (hub : Hub P) (tx : P.mpsc.Sender) where
  -- Where `subscribe_handler` answers with a stream, it is the stream of the session that it opened;
  -- the session was admitted with the header's token, and then subscribed to all channels that the
  -- query names, one after the other in their order, without a replay.
  pub subscribe_handler-InTurn :
      (query : Option Bytes) (authorization : Option String) (id : SessionId) (w v : World P)
      → subscribe_handler texts hub tx query authorization w ≡ (ok id, v)
      → (id ≡ (open_session hub tx w).0.0)
        × ((u : World P) × (admit texts hub
                (open_session hub tx w).0.0
                (token_from_headers authorization)
                (open_session hub tx w).1
              ≡ (ok tt, u))
            × InTurn hub (open_session hub tx w).0.0 0 (channels_from_raw_query query) u v)
  unfolding subscribe_handler
  subscribe_handler-InTurn query authorization id w v h =
      elim (Bool-cases (is_empty (channels_from_raw_query query))) [
        | inl none_asked ↦
            absurd (ground (arith, ap (λ p. p.0) (rw (none_asked, subscribe_handler) at h)))
        | inr asked ↦
            started texts hub _ (token_from_headers authorization) (channels_from_raw_query query)
              id _ v (rw (asked, subscribe_handler) at h)
      ]
