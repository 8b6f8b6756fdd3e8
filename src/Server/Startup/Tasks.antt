-- ===== src/Server/Startup/Tasks.antt =====
-- The tasks of the runtime that `run` of crates/cherenkov-server/src/app.rs spawns and stops.
use cherenkov.Prelude.{
  ◌⊎◌, subst, sym, some, beq_refl, Result, ok, err, Result-cases, ℕ, ◌≤◌, ◌<◌, zero, suc, ◌≡◌, refl,
  ap, ◌∙◌, Bool, true, false, Option, none, List, [], ◌∷◌, ◌++◌, ◌==◌, nat_eq, if◌then◌else◌,
  Bool-cases, Option-cases, inl, inr, arith,
}
use cherenkov.Prelude.Dict
use cherenkov.Prelude.Dict.{get-put, get-remove}
use cherenkov.Server.Parts.{Failure}
use cherenkov.Server.Config.{WsConfig}
use cherenkov.Server.Startup.{
  ServerHandle, serve_with, ws, Net, TaskId, Runtime, Service, Outcome, spawn_service, Task, told,
  new_task, end_service, wind_down, abort_service, shutdown, taken, wait,
}

abbrev pub elem : TaskId → List TaskId → Bool
elem t [] = false
elem t (k ∷ ks) = if k == t then true else elem t ks

elem-taken :
    (n : ℕ) (t k : TaskId) (ks : List TaskId)
    → elem t ((taken n k ks).0 ∷ (taken n k ks).1) ≡ elem t (k ∷ ks)
unfolding taken
elem-taken n t k [] = refl
elem-taken zero t k (j ∷ ks) = refl
elem-taken (suc n) t k (j ∷ ks) = ground (arith, elem-taken n t j ks)

elem-append :
    (t : TaskId) (ks js : List TaskId) → elem t (ks ++ js) ≡ (if elem t ks then true else elem t js)
elem-append t [] js = refl
elem-append t (k ∷ ks) js = ground (arith, elem-append t ks js)

module _ {L H : Type 0} where
  abbrev told_of : Option (Task L H) → Option (Task L H)
  told_of none = none
  told_of (some t) = some (told t)

  told_of-told_of : (o : Option (Task L H)) → told_of (told_of o) ≡ told_of o
  told_of-told_of none = refl
  told_of-told_of (some t) = refl

  -- The task is gone, or was told to stop.
  abbrev pub IsStopping : Option (Task L H) → Type 0
  IsStopping none = Unit
  IsStopping (some t) = t.aborted ≡ true

  IsStopping-told_of : (o : Option (Task L H)) → IsStopping (told_of o)
  IsStopping-told_of none = tt
  IsStopping-told_of (some t) = refl

module _ {N : Net} {H : Type 0} where
  abbrev pub task_of : TaskId → Runtime N H → Option (Task N.Listener H)
  task_of t w = Dict.get w.tasks t

  task_of-abort_service :
      (k t : TaskId) (w : Runtime N H)
      → task_of t (abort_service k w) ≡ (if k == t then told_of (task_of t w) else task_of t w)
  unfolding abort_service
  task_of-abort_service k t w = elim (Option-cases (Dict.get w.tasks k)) [
    | inl e ↦ rw (e, abort_service) (ground (arith, e, nat_eq.beq_iff k t))
    | inr (s, e) ↦
        rw (e, abort_service) (ground (arith, e, get-put w.tasks k t (told s), nat_eq.beq_iff k t))
  ]

  task_of-end_service :
      (k t : TaskId) (w : Runtime N H)
      → task_of t (end_service k w) ≡ (if k == t then none else task_of t w)
  unfolding end_service
  task_of-end_service k t w = elim (Option-cases (Dict.get w.tasks k)) [
    | inl e ↦ rw (e, end_service) (ground (arith, e, nat_eq.beq_iff k t))
    | inr (s, e) ↦ rw (e, end_service) (get-remove w.tasks k t)
  ]

  task_of-shutdown :
      (ks : List TaskId) (t : TaskId) (w : Runtime N H)
      → task_of t (shutdown ks w) ≡ (if elem t ks then told_of (task_of t w) else task_of t w)
  unfolding shutdown
  task_of-shutdown [] t w = refl
  task_of-shutdown (k ∷ ks) t w = ground (
    arith,
    task_of-shutdown ks t (abort_service k w),
    task_of-abort_service k t w,
    told_of-told_of (task_of t w),
  )

  task_of-wind_down :
      (t : TaskId) (w : Runtime N H) → IsStopping (task_of t w) → task_of t (wind_down t w) ≡ none
  unfolding wind_down
  task_of-wind_down t w h = elim (Option-cases (Dict.get w.tasks t)) [
    | inl e ↦ rw (e, wind_down) e
    | inr (s, e) ↦
        rw (e, wind_down)
          (rw (subst IsStopping e h) (task_of-end_service t t w ∙ ground (arith, beq_refl t)))
  ]

  -- The tasks `ks` of `v` stop, and every other task is as in `w`.
  pub record Stopped (ks : List TaskId) (w v : Runtime N H) : Type 0 where
    pub stopping : (t : TaskId) → elem t ks ≡ true → IsStopping (task_of t v)
    pub wound_down : (t : TaskId) → elem t ks ≡ true → task_of t (wind_down t v) ≡ none
    pub others : (t : TaskId) → elem t ks ≡ false → task_of t v ≡ task_of t w

  pub shutdown-Stopped : (ks : List TaskId) (w : Runtime N H) → Stopped ks w (shutdown ks w)
  shutdown-Stopped ks w = record {
    stopping = stops;
    wound_down = λ t e. task_of-wind_down t (shutdown ks w) (stops t e);
    others = λ t e. ground (arith, task_of-shutdown ks t w, e);
  }
    where
      stops : (t : TaskId) → elem t ks ≡ true → IsStopping (task_of t (shutdown ks w))
      stops t e =
          subst IsStopping (sym (task_of-shutdown ks t w)) (rw e (IsStopping-told_of (task_of t w)))

  task_of-wait :
      (k : TaskId) (ks : List TaskId) (n : ℕ) (outcome : Outcome) (t : TaskId) (w : Runtime N H)
      → task_of t (wait (k ∷ ks) n outcome w).1 ≡ (
          if (taken n k ks).0 == t
          then none
          else (if elem t (k ∷ ks) then told_of (task_of t w) else task_of t w))
  unfolding wait
  task_of-wait k ks n outcome t w =
      let (done, rest) = taken n k ks in
      ground (
        arith,
        task_of-shutdown rest t (end_service done w),
        task_of-end_service done t w,
        elem-taken n t k ks,
      )

  wait-nil : (n : ℕ) (outcome : Outcome) (w : Runtime N H) → (wait [] n outcome w).1 ≡ w
  unfolding wait
  wait-nil n outcome w = refl

  pub wait-Stopped :
      (ks : List TaskId) (n : ℕ) (outcome : Outcome) (w : Runtime N H)
      → Stopped ks w (wait ks n outcome w).1
  wait-Stopped [] n outcome w = record {
    stopping = λ t e. ground (arith, e);
    wound_down = λ t e. ground (arith, e);
    others = λ t e. ap (task_of t) (wait-nil n outcome w);
  }
  wait-Stopped (k ∷ ks) n outcome w = record {
    stopping = λ t e. stops t e (Bool-cases ((taken n k ks).0 == t));
    wound_down = λ t e.
        task_of-wind_down t (wait (k ∷ ks) n outcome w).1
          (stops t e (Bool-cases ((taken n k ks).0 == t)));
    others = λ t e. ground (arith, task_of-wait k ks n outcome t w, elem-taken n t k ks, e);
  }
    where
      stops :
          (t : TaskId)
          → elem t (k ∷ ks) ≡ true
          → ((taken n k ks).0 == t ≡ true) ⊎ ((taken n k ks).0 == t ≡ false)
          → IsStopping (task_of t (wait (k ∷ ks) n outcome w).1)
      stops t e (inl d) = subst IsStopping (sym (task_of-wait k ks n outcome t w)) (rw d tt)
      stops t e (inr d) =
          subst IsStopping (sym (task_of-wait k ks n outcome t w))
            (rw d (rw e (IsStopping-told_of (task_of t w))))

  -- `v` has the tasks of `w`, and new ones with the ids `ks`.
  pub record Grown (ks : List TaskId) (w v : Runtime N H) : Type 0 where
    pub old : (t : TaskId) → elem t ks ≡ false → task_of t v ≡ task_of t w
    pub new : (t : TaskId) → elem t ks ≡ true → w.next_task ≤ t
    pub next : w.next_task ≤ v.next_task

  pub Grown-same :
      (w v : Runtime N H) → v.tasks ≡ w.tasks → v.next_task ≡ w.next_task → Grown [] w v
  Grown-same w v e f = record {
    old = λ t h. ap (λ d. Dict.get d t) e;
    new = λ t h. ground (arith, h);
    next = omega (arith, f);
  }

  pub Grown-append :
      (ks js : List TaskId) (w v u : Runtime N H)
      → Grown ks w v
      → Grown js v u
      → Grown (ks ++ js) w u
  Grown-append ks js w v u g h = record {
    old = λ t e. ground (arith, elem-append t ks js, g.old t, h.old t, e);
    new = λ t e. ground (arith, elem-append t ks js, g.new t, h.new t, g.next, e);
    next = omega (arith, g.next, h.next);
  }

  pub Grown-spawn_service :
      (service : Service N.Listener) (hub : H) (w : Runtime N H)
      → Grown (w.next_task ∷ []) w (spawn_service service hub w).1
  unfolding spawn_service
  Grown-spawn_service service hub w = record {
    old = λ t e. ground (arith, get-put w.tasks w.next_task t (new_task service hub), e);
    new = λ t e. ground (arith, e, nat_eq.beq_iff w.next_task t);
    next = omega arith;
  }

  pub Grown-kept :
      (ks : List TaskId) (w v : Runtime N H) (t : TaskId)
      → Grown ks w v
      → t < w.next_task
      → task_of t v ≡ task_of t w
  Grown-kept ks w v t g e = elim (Bool-cases (elem t ks)) [
    | inl k ↦ ground (arith, g.new t k, e)
    | inr k ↦ g.old t k
  ]

  pub Grown-Stopped :
      (ks : List TaskId) (w v u : Runtime N H) → Grown ks w v → Stopped ks v u → Stopped ks w u
  Grown-Stopped ks w v u g h = record {
    stopping = h.stopping;
    wound_down = h.wound_down;
    others = λ t e. h.others t e ∙ g.old t e;
  }

  abbrev Shut : TaskId → Runtime N H → Result Failure ServerHandle → Runtime N H → Type 0
  Shut t w (err e) v = task_of t v ≡ task_of t w
  Shut t w (ok handle) v =
      task_of t (abort_service handle.join v)
      ≡ (if handle.join == t then told_of (task_of t v) else task_of t w)

  -- Where `run_with_listener` fails, no task is new; where it succeeds, stopping the task of its handle
  -- leaves no other new one.
  task_of-serve_with :
      (built : Result Failure H) (c : WsConfig) (l : N.Listener) (w : Runtime N H) (t : TaskId)
      → Shut t w (serve_with built c l w).0 (serve_with built c l w).1
  unfolding serve_with spawn_service
  task_of-serve_with built c l w t = elim (Result-cases (N.local_addr l)) [
    | inr (e, f) ↦ rw (f, serve_with) refl
    | inl (a, f) ↦ elim (Result-cases built) [
      | inr (e, g) ↦ rw (f, g, serve_with) refl
      | inl (hub, g) ↦
          rw (f, g, serve_with)
            (ground (
              arith,
              task_of-abort_service w.next_task t
                  (spawn_service (ws l c.path c.outbox_capacity) hub w).1,
              get-put w.tasks w.next_task t (new_task (ws l c.path c.outbox_capacity) hub),
            ))
    ]
  ]
