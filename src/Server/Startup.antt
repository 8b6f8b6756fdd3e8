-- ===== src/Server/Startup.antt =====
-- crates/cherenkov-server/src/app.rs: `run`, and the handle of a server that runs. Logs and the
-- recorder of the metrics are left out.
pub mod Tasks
pub mod Stopping
use cherenkov.Prelude.{
  ℕ, zero, suc, String, Bool, true, false, Option, none, some, Result, ok, err, map_err, List, [],
  ◌∷◌, ◌++◌, Exec, pure, lift, ◌>>=◌, ◌>>◌, if◌then◌else◌, nat_eq,
}
use cherenkov.Prelude.Dict
use cherenkov.Prelude.Dict.{Dict}
use cherenkov.Prelude.Format.{concat}
use cherenkov.Core.Traits.{Broker, Mpsc}
use cherenkov.Core.Hub.{Hub}
use cherenkov.Server.Config.{ServerConfig, WsConfig, SseConfig, AdminConfig}
use cherenkov.Server.Parts.{ServerError, Failure, failed, Outside}
use cherenkov.Server.Build.{server_platform, build_hub}

-- `tokio::net`, a parameter: addresses are texts, as the `String` of an error is what its `Display`
-- writes.
pub record Net : Type 1 where
  pub State : Type 0
  pub Listener : Type 0
  pub bind : String → Exec State String Listener
  pub local_addr : Listener → Result String String
  pub drop_listener : Listener → State → State

abbrev pub TaskId : Type 0
TaskId = ℕ

-- What a task serves, with what its future owns
pub data Service (Listener : Type 0) : Type 0 where
  ws : Listener → String → ℕ → Service Listener
  sse : Listener → String → Service Listener
  admin : Listener → Option String → Service Listener

abbrev pub listener_of : {L : Type 0} → Service L → L
listener_of (ws l path capacity) = l
listener_of (sse l prefix) = l
listener_of (admin l token) = l

-- `ServerRunHandle`; `joins` has the `JoinHandle`s.
pub record ServerRunHandle : Type 0 where
  pub ws_addr : String
  pub sse_addr : Option String
  pub admin_addr : Option String
  pub joins : List TaskId

-- What `run_with_listener` gives; its `shutdown` aborts `join`.
pub record ServerHandle : Type 0 where
  pub local_addr : String
  pub join : TaskId

-- A spawned task that has not ended. One that was told to abort goes on until the runtime gets to it.
pub record Task (Listener H : Type 0) : Type 0 where
  pub service : Service Listener
  pub hub : H
  pub aborted : Bool

abbrev pub new_task : {L H : Type 0} → Service L → H → Task L H
new_task service hub = record { service = service; hub = hub; aborted = false }

abbrev pub told : {L H : Type 0} → Task L H → Task L H
told task = record task { aborted = true }

-- The network, and the tasks
pub record Runtime (N : Net) (H : Type 0) : Type 0 where
  pub net : N.State
  pub tasks : Dict TaskId (Task N.Listener H)
  pub next_task : TaskId

-- How a task ends: with the result of its future, or with what a panic says
pub data Outcome : Type 0 where
  returned : Result Failure (Unit {0}) → Outcome
  panicked_with : String → Outcome

abbrev transport_error : List String → Failure
transport_error parts = failed (ServerError.transport (concat parts))

abbrev result_of : Outcome → Result Failure (Unit {0})
result_of (returned r) = r
result_of (panicked_with e) = err (failed (ServerError.task e))

-- Where a service listens, if it is configured, and its task
abbrev pub Started : Type 0
Started = Option String × List TaskId

-- The element at an index, and the others; an index past the end does not occur.
unfoldable pub taken : ℕ → TaskId → List TaskId → TaskId × List TaskId
taken first task [] = (task, [])
taken zero task (next ∷ tasks) = (task, next ∷ tasks)
taken (suc first) task (next ∷ tasks) =
    let (done, rest) = taken first next tasks in (done, task ∷ rest)

module _ {N : Net} {H : Type 0} where
  -- `TcpListener::bind`, then `local_addr`; a listener without an address is dropped.
  unfoldable pub listen_on : String → String → Exec (Runtime N H) Failure (N.Listener × String)
  listen_on what address w =
      let (bound, net) = N.bind address w.net in
      elim bound [
        | err e ↦ (err (transport_error (what ∷ " bind: " ∷ e ∷ [])), record w { net = net })
        | ok listener ↦ elim (N.local_addr listener) [
          | ok local ↦ (ok (listener, local), record w { net = net })
          | err e ↦
              (err (transport_error (e ∷ [])), record w { net = N.drop_listener listener net })
        ]
      ]

  unfoldable pub spawn_service : Service N.Listener → H → Exec (Runtime N H) Failure TaskId
  spawn_service service hub w = (
    ok w.next_task,
    record w {
      tasks = Dict.put w.tasks w.next_task (new_task service hub);
      next_task = suc w.next_task;
    },
  )

  -- `JoinHandle::abort` tells a task to stop; one that has ended stays as it is.
  unfoldable pub abort_service : TaskId → Runtime N H → Runtime N H
  abort_service task w = elim (Dict.get w.tasks task) [
    | none ↦ w
    | some t ↦ record w { tasks = Dict.put w.tasks task (told t) }
  ]

  -- A task ends, and its listener is dropped with its future.
  unfoldable pub end_service : TaskId → Runtime N H → Runtime N H
  end_service task w = elim (Dict.get w.tasks task) [
    | none ↦ w
    | some t ↦ record w {
      net = N.drop_listener (listener_of t.service) w.net;
      tasks = Dict.remove w.tasks task;
    }
  ]

  -- The runtime gets to a task: it ends if it was told to stop.
  unfoldable pub wind_down : TaskId → Runtime N H → Runtime N H
  unfolding end_service
  wind_down task w = elim (Dict.get w.tasks task) [
    | none ↦ w
    | some t ↦ if t.aborted then end_service task w else w
  ]

  -- A service: where it listens, and its task
  abbrev pub start :
      String
      → String
      → (N.Listener → Service N.Listener)
      → H
      → Exec (Runtime N H) Failure (String × TaskId)
  start what address service hub = do
    (listener, local) ← listen_on what address
    task ← spawn_service (service listener) hub
    pure (local, task)

  abbrev pub some_started :
      String → String → (N.Listener → Service N.Listener) → H → Exec (Runtime N H) Failure Started
  some_started what address service hub = do
    (local, task) ← start what address service hub
    pure (some local, task ∷ [])

  unfoldable pub start_sse : Option SseConfig → H → Exec (Runtime N H) Failure Started
  start_sse none = λ hub. pure (none, [])
  start_sse (some c) = some_started "sse" c.listen λ l. sse l c.path_prefix

  unfoldable pub start_admin : AdminConfig → H → Exec (Runtime N H) Failure Started
  start_admin c hub w =
      if c.enabled
      then some_started "admin" c.listen (λ l. admin l c.auth_token) hub w
      else (ok (none, []), w)

  unfoldable pub start_all :
      Result Failure H
      → WsConfig
      → Option SseConfig
      → AdminConfig
      → Exec (Runtime N H) Failure ServerRunHandle
  unfolding start_sse start_admin
  start_all built c sse_config admin_config = do
    hub ← lift built
    (ws_addr, ws_task) ← start "ws" c.listen (λ l. ws l c.path c.outbox_capacity) hub
    (sse_addr, sse_tasks) ← start_sse sse_config hub
    (admin_addr, admin_tasks) ← start_admin admin_config hub
    pure (record {
      ws_addr = ws_addr;
      sse_addr = sse_addr;
      admin_addr = admin_addr;
      joins = (ws_task ∷ sse_tasks) ++ admin_tasks;
    })

  unfoldable pub shutdown : List TaskId → Runtime N H → Runtime N H
  unfolding abort_service
  shutdown [] w = w
  shutdown (task ∷ tasks) w = shutdown tasks (abort_service task w)

  -- `wait`: the task at index `first` of `joins` ends before the others, with its outcome.
  -- `select_all` gives the others back, which are then aborted.
  unfoldable pub wait : List TaskId → ℕ → Outcome → Exec (Runtime N H) Failure (Unit {0})
  unfolding shutdown taken end_service
  wait [] first outcome w = (ok tt, w)
  wait (task ∷ tasks) first outcome w =
      let (done, rest) = taken first task tasks in
      (result_of outcome, shutdown rest (end_service done w))

  -- `run_with_listener` on a hub that was built or not; without a server the listener is dropped.
  unfoldable pub serve_with :
      Result Failure H → WsConfig → N.Listener → Exec (Runtime N H) Failure ServerHandle
  serve_with built c listener w =
      let dropped = record w { net = N.drop_listener listener w.net } in
      elim (N.local_addr listener) [
        | err e ↦ (err (transport_error (e ∷ [])), dropped)
        | ok local ↦ elim built [
          | err e ↦ (err e, dropped)
          | ok hub ↦
              (do
                task ← spawn_service (ws listener c.path c.outbox_capacity) hub
                pure (record { local_addr = local; join = task }))
                w
        ]
      ]

module _ (O : Outside) (B : Broker) (M : Mpsc) (N : Net) where
  unfoldable pub run :
      ServerConfig O.json.Value
      → Exec (Runtime N (Hub (server_platform O B M))) Failure ServerRunHandle
  unfolding start_all
  run c = start_all (build_hub O B M c) c.transport.ws c.transport.sse c.admin

  unfoldable pub run_with_listener :
      ServerConfig O.json.Value
      → N.Listener
      → Exec (Runtime N (Hub (server_platform O B M))) Failure ServerHandle
  unfolding serve_with
  run_with_listener c listener = serve_with (build_hub O B M c) c.transport.ws listener
