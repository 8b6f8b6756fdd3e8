-- ===== src/Core/Hub/Replaying.antt =====
-- The replay in `handle_subscribe` of crates/cherenkov-core/src/hub.rs: what is sent, and in what
-- order.
use cherenkov.Prelude.{
  ℕ, ◌<◌, String, true, ◌≡◌, refl, ap, ◌∙◌, sym, subst, none, ok, err, inl, inr, arith,
  Result-cases, Option-cases, Bool-cases, ◌>>=◌, bind-eq_ok, List, [], ◌∷◌, ◌++◌, map, Exec, ltb,
  nat_eq, string_eq,
}
use mathlib.Core.List.{append-nil, append_assoc}
use cherenkov.Protocol.{Publication, ServerFrame}
use cherenkov.Core.Types.{HubError, ChannelError}
use cherenkov.Core.Session.{SessionId}
use cherenkov.Core.Traits.{Platform}
use cherenkov.Core.Hub.{Hub, kind_for}
use cherenkov.Core.Hub.World.{World, Action, on_kinds, send_or}
use cherenkov.Core.Hub.Handlers.{send_all, replay}

module _ {P : Platform} where
  -- Frames were sent, and channel kinds may have changed; the rest of the world is the same.
  pub record Sent (to : P.mpsc.Sender) (ps : List Publication) (v w : World P) : Type 0 where
    pub log :
        P.mpsc.sent w.mpsc ≡ P.mpsc.sent v.mpsc ++ map (λ p. (to, ServerFrame.publication p)) ps
    pub registry : w.registry ≡ v.registry
    pub store : w.store ≡ v.store
    pub tasks : w.tasks ≡ v.tasks
    pub next_task : w.next_task ≡ v.next_task
    pub broker : w.broker ≡ v.broker

  Sent-nothing : (to : P.mpsc.Sender) (w : World P) → Sent to [] w w
  Sent-nothing to w = record {
    log = sym (append-nil (P.mpsc.sent w.mpsc));
    registry = refl;
    store = refl;
    tasks = refl;
    next_task = refl;
    broker = refl;
  }

  -- A send that succeeds
  send_or-ok :
      (gone : HubError) (to : P.mpsc.Sender) (frame : ServerFrame) (w : World P)
      → (send_or gone to frame w).0 ≡ ok tt
      → (mpsc : P.mpsc.State) × (P.mpsc.sent mpsc ≡ P.mpsc.sent w.mpsc ++ (to, frame) ∷ [])
        × ((send_or gone to frame w).1 ≡ record w { mpsc = mpsc })
  unfolding send_or
  send_or-ok gone to frame w h = elim (Option-cases (P.mpsc.send to frame w.mpsc)) [
    | inl e ↦ absurd (ground (arith, h, failed e))
    | inr (mpsc, e) ↦ (mpsc, P.mpsc.sent-send to frame w.mpsc mpsc e, rw (e, send_or) refl)
  ]
    where
      failed : P.mpsc.send to frame w.mpsc ≡ none → (send_or gone to frame w).0 ≡ err gone
      failed e = rw (e, send_or) refl

  Sent-cons :
      (to : P.mpsc.Sender) (p : Publication) (ps : List Publication) (w : World P)
      (mpsc : P.mpsc.State) (u v : World P)
      → P.mpsc.sent mpsc ≡ P.mpsc.sent w.mpsc ++ (to, ServerFrame.publication p) ∷ []
      → u ≡ record w { mpsc = mpsc }
      → Sent to ps u v
      → Sent to (p ∷ ps) w v
  Sent-cons to p ps w mpsc u v log e sent = record {
    log =
        h.log
        ∙ ap (λ l. l ++ map (λ q. (to, ServerFrame.publication q)) ps) log
        ∙ append_assoc (P.mpsc.sent w.mpsc) _ _;
    registry = h.registry;
    store = h.store;
    tasks = h.tasks;
    next_task = h.next_task;
    broker = h.broker;
  }
    where
      h : Sent to ps (record w { mpsc = mpsc }) v
      h = subst (λ x. Sent to ps x v) e sent

  module _ (hub : Hub P) where
    send_all-ok :
        (gone : HubError) (to : P.mpsc.Sender) (ps : List Publication) (w : World P)
        → (send_all hub gone to ps w).0 ≡ ok tt
        → Sent to ps w (send_all hub gone to ps w).1
    unfolding send_all
    send_all-ok gone to [] w h = Sent-nothing to w
    send_all-ok gone to (p ∷ ps) w h =
        let (u, sent, rest) =
          bind-eq_ok (send_or gone to (ServerFrame.publication p)) (λ _. send_all hub gone to ps) w
            _ tt (ap (λ x. (x, (send_all hub gone to (p ∷ ps) w).1)) h) in
        let (mpsc, log, after) = send_or-ok gone to (ServerFrame.publication p) w sent in
        subst (Sent to (p ∷ ps) w) (ap (λ x. x.1) rest)
          (Sent-cons to p ps w mpsc _ _ log after (send_all-ok gone to ps _ (ap (λ x. x.0) rest)))

    -- What the channel kind replays to a client that asks for it
    abbrev pub Replayed : String → ℕ → P.kinds.State → List Publication → Type 0
    Replayed channel since_offset kinds ps =
        (0 < since_offset
          → (P.kinds.replay_since (kind_for hub channel) channel since_offset kinds).0 ≡ ok ps)
        × (since_offset ≡ 0 → ps ≡ [])

    pub on_kinds-ok :
        {A : Type 0} (m : Exec P.kinds.State ChannelError A) (w : World P) (a : A)
        → (on_kinds {P = P} m w).0 ≡ ok a
        → (m w.kinds).0 ≡ ok a
    unfolding on_kinds
    on_kinds-ok m w a h = elim (Result-cases (m w.kinds).0) [
      | inl (b, e) ↦ ground (arith, e, h)
      | inr (x, e) ↦ absurd (ground (arith, e, h))
    ]

    Sent-on_kinds :
        {A : Type 0} (m : Exec P.kinds.State ChannelError A) (to : P.mpsc.Sender)
        (ps : List Publication) (w v : World P)
        → Sent to ps (on_kinds {P = P} m w).1 v
        → Sent to ps w v
    unfolding on_kinds
    Sent-on_kinds m to ps w v h = record {
      log = h.log;
      registry = h.registry;
      store = h.store;
      tasks = h.tasks;
      next_task = h.next_task;
      broker = h.broker;
    }

    module _ (id : SessionId) (channel : String) (since : ℕ) (to : P.mpsc.Sender)
        (w : World P) where
      -- The branch of `replay` that asks the channel kind
      replay_now : Action P (Unit {0})
      replay_now = do
        replayed ← on_kinds {P = P} (P.kinds.replay_since (kind_for hub channel) channel since)
        send_all hub (HubError.session_gone id) to replayed

      replay_now-ok :
          (replay_now w).0 ≡ ok tt
          → (ps : List Publication) × ((P.kinds.replay_since
                (kind_for hub channel)
                channel
                since
                w.kinds).0
              ≡ ok ps)
            × Sent to ps w (replay_now w).1
      unfolding replay_now
      replay_now-ok h =
          let (ps, answer, rest) =
            bind-eq_ok
              (on_kinds {P = P} (P.kinds.replay_since (kind_for hub channel) channel since))
              (send_all hub (HubError.session_gone id) to) w _ tt
              (ap (λ x. (x, (replay_now w).1)) h) in
          (
            ps,
            on_kinds-ok _ w ps answer,
            Sent-on_kinds _ to ps w _ (
                subst (Sent to ps _) (ap (λ x. x.1) rest)
                  (send_all-ok (HubError.session_gone id) to ps _ (ap (λ x. x.0) rest))),
          )

      pub replay-ok :
          (replay hub id channel since to w).0 ≡ ok tt
          → (ps : List Publication) × Replayed channel since w.kinds ps
            × Sent to ps w (replay hub id channel since to w).1
      unfolding replay replay_now
      replay-ok h = elim (Bool-cases (ltb 0 since)) [
        | inr never ↦ (
          [],
          (λ asked. absurd (ground (arith, never, asked)), λ e. refl),
          rw never (Sent-nothing to w),
        )
        | inl always ↦
            let (ps, answer, sent) = replay_now-ok (ap (λ x. x.0) (sym (runs always)) ∙ h) in
            (
              ps,
              (λ _. answer, λ e. absurd (ground (arith, e, always))),
              subst (λ x. Sent to ps w x.1) (sym (runs always)) sent,
            )
      ]
        where
          runs : ltb 0 since ≡ true → replay hub id channel since to w ≡ replay_now w
          runs always = rw always refl
