-- ===== src/Worker/App/Ends.antt =====
-- When the loops of src/worker/worker_app.cpp over one task and over the tasks of a tick come to an end.
use distributed_computing.Prelude.{
  codes, ℕ, ◌-◌, ◌≤◌, ◌<◌, ◌≡◌, refl, ap, inl, inr, Option, none, some, List, [], ◌∷◌, Bytes, pos,
  All, ltb, pos_part, arith, Bool-cases,
}
use distributed_computing.Json.{JsonLib}
use distributed_computing.Worker.Client.{
  Call, HttpClient, DispatchedTask, get_task_state, send_heartbeat, post_task_status,
}
use distributed_computing.Worker.Config.{WorkerConfig}
use distributed_computing.Worker.Executor.{Machine, TaskExecutionResult, nanoseconds}
use distributed_computing.Worker.Executor.Loop.{IsPosix, KeepsTime, rounds, run_task-Ends}
use distributed_computing.Worker.App.{WorkerApp, busy, is_canceled, do_heartbeat}
use distributed_computing.Worker.App.Tick.{
  start_task, handle_task, handle_tasks, is_mismatched, finished,
}

-- A call of the HTTP library does not turn the steady clock back.
abbrev pub IsTimely : {S : Type 0} → Machine S → HttpClient S → Type 0
IsTimely {S} machine http =
    (call : Call) (s : S) → machine.steady_now s ≤ machine.steady_now (http call s).1

-- The task has a time limit, which the fuel covers.
abbrev pub IsLimited : {j : JsonLib} → ℕ → DispatchedTask j → Type 0
IsLimited fuel task = (n : ℕ) × (0 < n) × (task.timeout_sec ≡ some (pos n)) × (rounds n ≤ fuel)

module _ {S : Type 0} (machine : Machine S) (j : JsonLib) (http : HttpClient S)
    (config : WorkerConfig) where
  callbacks-KeepsTime :
      IsTimely machine http
      → (task_id : Bytes)
      → KeepsTime machine
          (is_canceled machine j http config task_id)
          (do_heartbeat machine j http config busy)
  unfolding is_canceled do_heartbeat get_task_state send_heartbeat
  callbacks-KeepsTime timely task_id = (
    λ last s.
        elim (Bool-cases (
          ltb (machine.steady_now s - last)
            (nanoseconds (pos_part config.cancel_check_interval_sec)))) [
              | inl early ↦ rw (early, is_canceled) (omega arith)
              | inr due ↦ rw (due, is_canceled) (timely _ s)
            ],
    λ s. timely _ s,
  )

  start_task-Ends :
      IsPosix machine
      → IsTimely machine http
      → (fuel : ℕ) (task : DispatchedTask j) (s : S) → IsLimited fuel task
      → (s' : S) × (start_task machine j http config fuel task s ≡ some s')
  unfolding start_task
  start_task-Ends laws timely fuel task s (n, positive, limit, enough) =
      let s1 =
        (post_task_status j http task.task_id (codes "running") none (some (machine.utc_now s)) none
          none s).1 in
      let (r, e) =
        run_task-Ends machine (is_canceled machine j http config task.task_id)
          (do_heartbeat machine j http config busy) laws (callbacks-KeepsTime timely task.task_id) j
          config.log_dir n fuel task (machine.steady_now s1) s1 positive limit enough in
      go (machine.utc_now s) r e
    where
      go :
          (started : Bytes) {o : Option (TaskExecutionResult × (ℕ × S))}
          (r : TaskExecutionResult × (ℕ × S))
          → o ≡ some r
          → (s' : S) × (finished machine j http config task.task_id started o ≡ some s')
      go started (exec, (k, s2)) e = (_, ap (finished machine j http config task.task_id started) e)

  handle_task-Ends :
      IsPosix machine
      → IsTimely machine http
      → (fuel : ℕ) (task : DispatchedTask j) (app : WorkerApp S) → IsLimited fuel task
      → (app' : WorkerApp S) × (handle_task machine j http config fuel task app ≡ some app')
  unfolding handle_task
  handle_task-Ends laws timely fuel task app limited =
      elim (Bool-cases (is_mismatched machine j http config task)) [
        | inl mismatched ↦ rw (mismatched, handle_task) (_, refl)
        | inr fitting ↦
            let (s', e) = start_task-Ends laws timely fuel task app.outside limited in
            rw (fitting, handle_task) (rw (e, handle_task) (_, refl))
      ]

  -- On a machine whose calls behave as POSIX says, and over HTTP calls that do not turn the clock
  -- back, a worker that was given tasks with time limits alone is done with all of them on fuel that
  -- covers each limit, whatever their commands, the files and the master do.
  pub handle_tasks-Ends :
      IsPosix machine
      → IsTimely machine http
      → (fuel : ℕ) (tasks : List (DispatchedTask j)) (app : WorkerApp S)
      → All (IsLimited fuel) tasks
      → (app' : WorkerApp S) × (handle_tasks machine j http config fuel tasks app ≡ some app')
  unfolding handle_tasks
  handle_tasks-Ends laws timely fuel [] app limited = (app, refl)
  handle_tasks-Ends laws timely fuel (task ∷ tasks) app limited =
      let (app1, e) = handle_task-Ends laws timely fuel task app limited.0 in
      rw (e, handle_tasks) (handle_tasks-Ends laws timely fuel tasks app1 limited.1)
