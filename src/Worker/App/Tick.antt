-- ===== src/Worker/App/Tick.antt =====
-- The loops of `WorkerApp::TickOnce` and `WorkerApp::Run` in src/worker/worker_app.cpp. A tick that holds
-- a task without a time limit may not end; each task's executor runs on the same fuel.
use distributed_computing.Prelude.{
  ◌*◌, ℕ, zero, suc, Bool, false, not, Option, none, some, List, [], ◌∷◌, Bytes, codes, pos,
  pos_part, str_eq, if◌then◌else◌,
}
use distributed_computing.Json.{JsonLib}
use distributed_computing.Master.Mappers.Parse.{accepted, refused, field_with}
use distributed_computing.Worker.Client.{HttpClient, DispatchedTask, poll_tasks, post_task_status}
use distributed_computing.Worker.Config.{WorkerConfig}
use distributed_computing.Worker.Executor.{Machine, TaskExecutionResult, run_task}
use distributed_computing.Worker.App.{
  idle, busy, WorkerApp, register, is_canceled, do_heartbeat, finish_task,
}

module _ {S : Type 0} (machine : Machine S) where
  open machine use {utc_now, steady_now}

  module _ (j : JsonLib) (http : HttpClient S) (config : WorkerConfig) where
    open j use {Json, is_string, get_string}

    -- The task's own constraint on the operating system, where it is not the worker's.
    unfoldable pub is_mismatched : DispatchedTask j → Bool
    is_mismatched task = elim (field_with j is_string task.constraints (codes "os")) [
      | none ↦ false
      | some os ↦ not (str_eq (get_string os) config.os)
    ]

    abbrev pub finished : Bytes → Bytes → Option (TaskExecutionResult × (ℕ × S)) → Option S
    finished task_id started_at none = none
    finished task_id started_at (some (exec, (last_check, s))) =
        some (finish_task machine j http config task_id started_at exec s)

    -- A task that is not refused: the report that it runs, its executor, and what follows.
    unfoldable pub start_task : ℕ → DispatchedTask j → S → Option S
    unfolding is_canceled do_heartbeat finish_task
    start_task fuel task s =
        let started_at = utc_now s in
        let s' =
          (post_task_status j http task.task_id (codes "running") none (some started_at) none none
            s).1 in
        finished task.task_id started_at (
          run_task machine (is_canceled machine j http config task.task_id)
            (do_heartbeat machine j http config busy) j config.log_dir fuel task (steady_now s') s')

    unfoldable pub refuse_task : DispatchedTask j → S → S
    refuse_task task s =
        (post_task_status j http task.task_id (codes "failed") (some (pos 1)) none
          (some (utc_now s)) (some (codes "OS constraint mismatchpp")) s).1

    -- One turn of the loop over the tasks. Nothing where the fuel runs out.
    unfoldable pub handle_task : ℕ → DispatchedTask j → WorkerApp S → Option (WorkerApp S)
    unfolding is_mismatched start_task refuse_task
    handle_task fuel task app =
        if is_mismatched task
        then some (record app { outside = refuse_task task app.outside })
        else elim (start_task fuel task app.outside) [
          | none ↦ none
          | some s ↦ some (record app { worker_state = busy; outside = s })
        ]

    unfoldable pub handle_tasks : ℕ → List (DispatchedTask j) → WorkerApp S → Option (WorkerApp S)
    unfolding handle_task
    handle_tasks fuel [] app = some app
    handle_tasks fuel (task ∷ tasks) app = elim (handle_task fuel task app) [
      | none ↦ none
      | some app' ↦ handle_tasks fuel tasks app'
    ]

    unfoldable pub tick_once : ℕ → WorkerApp S → Option (WorkerApp S)
    unfolding do_heartbeat handle_tasks
    tick_once fuel app =
        let s = do_heartbeat machine j http config idle app.outside in
        let (polled, s') = poll_tasks j http config.agent_id config.slots s in
        let app' = record app { worker_state = idle; outside = s' } in
        elim polled [ refused message ↦ some app' | accepted tasks ↦ handle_tasks fuel tasks app' ]

    -- The first `ticks` ticks of the endless loop.
    unfoldable pub run_ticks : ℕ → ℕ → WorkerApp S → Option (WorkerApp S)
    unfolding tick_once
    run_ticks fuel zero app = some app
    run_ticks fuel (suc ticks) app = elim (tick_once fuel app) [
      | none ↦ none
      | some app' ↦ run_ticks fuel ticks (record app' {
        outside = machine.sleep_for (pos_part app'.heartbeat_interval_sec * 1000) app'.outside;
      })
    ]

    -- `Run`: the exit code, if it returns, and the state it leaves, after `ticks` ticks of a loop that
    -- does not return.
    unfoldable pub run_app : ℕ → ℕ → Bool → WorkerApp S → Option (Option ℕ × WorkerApp S)
    unfolding register tick_once run_ticks
    run_app fuel ticks run_once app =
        let (registered, app') = register machine j http config app in
        if not registered
        then some (some 1, app')
        else if run_once
        then elim (tick_once fuel app') [ none ↦ none | some done ↦ some (some 0, done) ]
        else elim (run_ticks fuel ticks app') [ none ↦ none | some left ↦ some (none, left) ]
