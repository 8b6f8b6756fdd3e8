-- ===== src/Server/Startup/Stopping.antt =====
-- What `run` of crates/cherenkov-server/src/app.rs leaves, and what stopping its handle leaves of it.
use cherenkov.Prelude.{
  ℕ, ◌<◌, String, ◌≡◌, refl, ap, subst, sym, ◌∙◌, Option, none, some, Result, ok, err, List, [],
  ◌∷◌, ◌++◌, nat_eq, Bool-cases, Result-cases, inl, inr, arith, beq_refl,
}
use cherenkov.Prelude.Dict.{get-put}
use cherenkov.Core.Traits.{Broker, Mpsc}
use cherenkov.Core.Hub.{Hub}
use cherenkov.Server.Build.{server_platform, build_hub}
use cherenkov.Server.Config.{SseConfig, AdminConfig, WsConfig, ServerConfig}
use cherenkov.Server.Parts.{Failure, Outside}
use cherenkov.Server.Startup.Tasks.{
  shutdown-Stopped, wait-Stopped, Stopped, Grown-Stopped, Grown, Grown-same, Grown-append,
  Grown-spawn_service, Grown-kept, task_of,
}
use cherenkov.Server.Startup.{
  Net, TaskId, Runtime, Service, Outcome, Started, ServerRunHandle, new_task, ws, listen_on,
  spawn_service, start, start_sse, start_admin, start_all, some_started, run, sse, admin, shutdown,
  wait,
}

abbrev joins_of : Result Failure ServerRunHandle → List TaskId
joins_of (ok handle) = handle.joins
joins_of (err e) = []

abbrev started_one : Result Failure (String × TaskId) → List TaskId
started_one (ok (a, task)) = task ∷ []
started_one (err e) = []

abbrev started : Result Failure Started → List TaskId
started (ok (a, tasks)) = tasks
started (err e) = []

module _ {N : Net} {H : Type 0} where
  Grown-listen_on :
      (what address : String) (w : Runtime N H) → Grown [] w (listen_on what address w).1
  unfolding listen_on
  Grown-listen_on what address w = elim (Result-cases (N.bind address w.net).0) [
    | inr (e, f) ↦ rw (f, listen_on) (Grown-same w _ refl refl)
    | inl (l, f) ↦ elim (Result-cases (N.local_addr l)) [
      | inl (a, g) ↦ rw (f, g, listen_on) (Grown-same w _ refl refl)
      | inr (e, g) ↦ rw (f, g, listen_on) (Grown-same w _ refl refl)
    ]
  ]

  Grown-start :
      (what address : String) (service : N.Listener → Service N.Listener) (hub : H)
      (w : Runtime N H)
      → Grown
          (started_one (start what address service hub w).0)
          w
          (start what address service hub w).1
  unfolding spawn_service
  Grown-start what address service hub w = elim (Result-cases (listen_on what address w).0) [
    | inr (e, f) ↦ rw f (Grown-listen_on what address w)
    | inl ((l, a), f) ↦ rw f (
        Grown-append [] _ w _ _ (Grown-listen_on what address w)
          (Grown-spawn_service (service l) hub (listen_on what address w).1))
  ]

  -- `start` as `start_sse` and `start_admin` go on from it
  Grown-some_started :
      (what address : String) (service : N.Listener → Service N.Listener) (hub : H)
      (w : Runtime N H)
      → Grown
          (started (some_started what address service hub w).0)
          w
          (some_started what address service hub w).1
  Grown-some_started what address service hub w =
      elim (Result-cases (start what address service hub w).0) [
        | inr (e, f) ↦ rw f (
            subst (λ r. Grown (started_one r) w (start what address service hub w).1) f
              (Grown-start what address service hub w))
        | inl ((a, t), f) ↦ rw f (
            subst (λ r. Grown (started_one r) w (start what address service hub w).1) f
              (Grown-start what address service hub w))
      ]

  Grown-start_sse :
      (c : Option SseConfig) (hub : H) (w : Runtime N H)
      → Grown (started (start_sse c hub w).0) w (start_sse c hub w).1
  unfolding start_sse
  Grown-start_sse none hub w = Grown-same w w refl refl
  Grown-start_sse (some c) hub w =
      Grown-some_started "sse" c.listen (λ l. sse l c.path_prefix) hub w

  Grown-start_admin :
      (c : AdminConfig) (hub : H) (w : Runtime N H)
      → Grown (started (start_admin c hub w).0) w (start_admin c hub w).1
  unfolding start_admin
  Grown-start_admin c hub w = elim (Bool-cases c.enabled) [
    | inl e ↦ rw e (Grown-some_started "admin" c.listen (λ l. admin l c.auth_token) hub w)
    | inr e ↦ rw e (Grown-same w w refl refl)
  ]

  -- What `start_all` leaves: new tasks, which are those of its handle where it succeeds
  record Left (r : Result Failure ServerRunHandle) (w v : Runtime N H) : Type 0 where
    ids : List TaskId
    grown : Grown ids w v
    joined : (handle : ServerRunHandle) → r ≡ ok handle → handle.joins ≡ ids

  Left-err :
      (ids : List TaskId) (e : Failure) (w v : Runtime N H) → Grown ids w v → Left (err e) w v
  Left-err ids e w v g = record { ids = ids; grown = g; joined = λ handle h. ground (arith, h) }

  Left-ok :
      {ks js is : List TaskId} (handle : ServerRunHandle) (w w1 w2 v : Runtime N H)
      → Grown ks w w1
      → Grown js w1 w2
      → Grown is w2 v
      → handle.joins ≡ (ks ++ js) ++ is
      → Left (ok handle) w v
  Left-ok handle w w1 w2 v g1 g2 g3 e = record {
    ids = _;
    grown = Grown-append _ _ w w2 v (Grown-append _ _ w w1 w2 g1 g2) g3;
    joined = λ other h. ap joins_of (sym h) ∙ e;
  }

  module _ (c : WsConfig) (s : Option SseConfig) (a : AdminConfig) where
    Left-start_all :
        (built : Result Failure H) (w : Runtime N H)
        → Left (start_all built c s a w).0 w (start_all built c s a w).1
    unfolding start_all
    Left-start_all (err e) w = Left-err [] e w w (Grown-same w w refl refl)
    Left-start_all (ok hub) w =
        let service : N.Listener → Service N.Listener = λ l. ws l c.path c.outbox_capacity in
        let w1 = (start "ws" c.listen service hub w).1 in
        let w2 = (start_sse s hub w1).1 in
        let g1 = Grown-start "ws" c.listen service hub w in
        let g2 = Grown-start_sse s hub w1 in
        let g3 = Grown-start_admin a hub w2 in
        elim (Result-cases (start "ws" c.listen service hub w).0) [
          | inr (e, f) ↦ rw f (Left-err _ e w _ g1)
          | inl ((ws_addr, task), f) ↦ elim (Result-cases (start_sse s hub w1).0) [
            | inr (e, k) ↦ rw (f, k) (Left-err _ e w _ (Grown-append _ _ w w1 w2 g1 g2))
            | inl ((sse_addr, sse_tasks), k) ↦ elim (Result-cases (start_admin a hub w2).0) [
              | inr (e, m) ↦
                  rw (f, k, m)
                    (Left-err _ e w _ (Grown-append _ _ w w2 _ (Grown-append _ _ w w1 w2 g1 g2) g3))
              | inl ((admin_addr, admin_tasks), m) ↦
                  rw (f, k, m)
                    (Left-ok _ w w1 w2 _ (subst (λ r. Grown (started_one r) w w1) f g1)
                      (subst (λ r. Grown (started r) w1 w2) k g2)
                      (subst (λ r. Grown (started r) w2 (start_admin a hub w2).1) m g3) refl)
            ]
          ]
        ]

  module _ (what address local : String) (service : N.Listener → Service N.Listener) (hub : H)
      (l : N.Listener) where
    start-ok :
        (w : Runtime N H)
        → (listen_on what address w).0 ≡ ok (l, local)
        → ((start what address service hub w).0
            ≡ ok (local, (listen_on what address w).1.next_task))
          × ((start what address service hub w).1
              ≡ (spawn_service (service l) hub (listen_on what address w).1).1)
    unfolding spawn_service
    start-ok w f = rw f (refl, refl)

    next_task-listen_on : (w : Runtime N H) → (listen_on what address w).1.next_task ≡ w.next_task
    unfolding listen_on
    next_task-listen_on w = elim (Result-cases (N.bind address w.net).0) [
      | inr (e, f) ↦ rw (f, listen_on) refl
      | inl (k, f) ↦ elim (Result-cases (N.local_addr k)) [
        | inl (a, g) ↦ rw (f, g, listen_on) refl
        | inr (e, g) ↦ rw (f, g, listen_on) refl
      ]
    ]

    task_of-start :
        (w : Runtime N H)
        → (listen_on what address w).0 ≡ ok (l, local)
        → (task_of w.next_task (start what address service hub w).1
            ≡ some (new_task (service l) hub))
          × (w.next_task < (start what address service hub w).1.next_task)
    unfolding spawn_service
    task_of-start w f =
        let v = (listen_on what address w).1 in
        rw f (
          ground (
            arith,
            get-put v.tasks v.next_task w.next_task (new_task (service l) hub),
            next_task-listen_on w,
            beq_refl w.next_task,
          ),
          omega (arith, next_task-listen_on w),
        )

  task_of-start_all :
      (c : WsConfig) (s : Option SseConfig) (a : AdminConfig) (hub : H) (w : Runtime N H)
      (l : N.Listener) (local : String)
      → (listen_on "ws" c.listen w).0 ≡ ok (l, local)
      → task_of w.next_task (start_all (ok hub) c s a w).1
        ≡ some (new_task (ws l c.path c.outbox_capacity) hub)
  unfolding start_all
  task_of-start_all c s a hub w l local f =
      let service : N.Listener → Service N.Listener = λ l. ws l c.path c.outbox_capacity in
      let (first, _) = start-ok "ws" c.listen local service hub l w f in
      let (runs, less) = task_of-start "ws" c.listen local service hub l w f in
      let w1 = (start "ws" c.listen service hub w).1 in
      let w2 = (start_sse s hub w1).1 in
      let g2 = Grown-start_sse s hub w1 in
      let g3 = Grown-start_admin a hub w2 in
      let kept = Grown-kept _ w1 w2 w.next_task g2 less ∙ runs in
      let last = Grown-kept _ w2 _ w.next_task g3 (omega (arith, less, g2.next)) ∙ kept in
      elim (Result-cases (start_sse s hub w1).0) [
        | inr (e, k) ↦ rw (first, k) kept
        | inl ((sse_addr, sse_tasks), k) ↦ elim (Result-cases (start_admin a hub w2).0) [
          | inr (e, m) ↦ rw (first, k, m) last
          | inl ((admin_addr, admin_tasks), m) ↦ rw (first, k, m) last
        ]
      ]

module _ (O : Outside) (B : Broker) (M : Mpsc) (N : Net) (c : ServerConfig O.json.Value) where
  -- When a server that was started is shut down, or is waited for until one of its tasks has ended,
  -- each task of its handle is gone or was told to stop, and is gone when the runtime has got to it;
  -- every other task is as it was before the start.
  pub run-Stopped :
      (w : Runtime N (Hub (server_platform O B M))) (handle : ServerRunHandle)
      → (run O B M N c w).0 ≡ ok handle
      → Stopped handle.joins w (shutdown handle.joins (run O B M N c w).1)
        × ((first : ℕ) (outcome : Outcome)
            → Stopped handle.joins w (wait handle.joins first outcome (run O B M N c w).1).1)
  unfolding run
  run-Stopped w handle e =
      let left = Left-start_all c.transport.ws c.transport.sse c.admin (build_hub O B M c) w in
      let v = (run O B M N c w).1 in
      let g : Grown handle.joins w v =
        subst (λ ks. Grown ks w v) (sym (left.joined handle e)) left.grown in
      (
        Grown-Stopped handle.joins w v _ g (shutdown-Stopped handle.joins v),
        λ first outcome.
            Grown-Stopped handle.joins w v _ g (wait-Stopped handle.joins first outcome v),
      )

  -- Once the listener for WebSocket is bound and has an address, its task runs when `run` returns, and
  -- was not told to stop, whether `run` returns a handle or an error.
  pub run-serves :
      (w : Runtime N (Hub (server_platform O B M))) (hub : Hub (server_platform O B M))
      (listener : N.Listener) (address : String)
      → build_hub O B M c ≡ ok hub
      → (listen_on "ws" c.transport.ws.listen w).0 ≡ ok (listener, address)
      → task_of w.next_task (run O B M N c w).1
        ≡ some (new_task (ws listener c.transport.ws.path c.transport.ws.outbox_capacity) hub)
  unfolding run
  run-serves w hub listener address e f =
      rw e (task_of-start_all c.transport.ws c.transport.sse c.admin hub w listener address f)
