-- ===== src/Worker/App/Protocol.antt =====
-- The calls that src/worker/worker_app.cpp makes for one task, in their order, over any network and any
-- system calls.
use mathlib.Core.Path.{subst}
use mathlib.Core.Option.{some-injective}
use distributed_computing.Prelude.{
  ℕ, ◌≡◌, refl, inl, inr, ◌⊎◌, true, false, Option, none, some, List, [], ◌∷◌, ◌++◌, Bytes, codes,
  pos, Bool-cases,
}
use distributed_computing.Json.{JsonLib}
use distributed_computing.Worker.Client.{
  Call, HttpClient, DispatchedTask, status_call, post_task_status,
}
use distributed_computing.Worker.Config.{WorkerConfig}
use distributed_computing.Worker.Executor.{Machine, TaskExecutionResult, run_task}
use distributed_computing.Worker.App.{WorkerApp, busy, is_canceled, do_heartbeat}
use distributed_computing.Worker.App.Tick.{
  is_mismatched, start_task, refuse_task, handle_task, finished,
}
use distributed_computing.Worker.App.Recorded.{Recorded, recording, silent, Grew, IsWatch}
use distributed_computing.Worker.App.Watching.{run_task-Grew}
use distributed_computing.Worker.Executor.Withdrawn.{IsExplained, run_task-IsExplained}
use distributed_computing.Worker.App.Withdrawn.{IsWithdrawn, EndsWithdrawn-IsWithdrawn}
use distributed_computing.Worker.App.Ending.{IsFinish, finish_task-IsFinish}

module _ {S : Type 0} (machine : Machine S) (j : JsonLib) (http : HttpClient S)
    (config : WorkerConfig) where
  abbrev pub running_call : Bytes → Bytes → Call
  running_call task_id started_at =
      status_call j task_id (codes "running") none (some started_at) none none

  abbrev pub mismatch_call : Bytes → Bytes → Call
  mismatch_call task_id now =
      status_call j task_id (codes "failed") (some (pos 1)) none (some now)
        (some (codes "OS constraint mismatchpp"))

  -- The executor's run for a task, from the moment at which the worker took it: the report that it
  -- runs is made, and the cancellation checks and heartbeats are the worker's own.
  abbrev pub executed :
      ℕ → DispatchedTask j → Recorded S → Option (TaskExecutionResult × (ℕ × Recorded S))
  executed fuel task (s, log) =
      let call = running_call task.task_id (machine.utc_now s) in
      let s1 = (http call s).1 in
      run_task (silent machine)
        (is_canceled (silent machine) j (recording http) config task.task_id)
        (do_heartbeat (silent machine) j (recording http) config busy) j config.log_dir fuel task
        (machine.steady_now s1) (s1, log ++ call ∷ [])

  -- The calls for a task that is not refused: the report that it runs; while the command runs, checks
  -- and heartbeats; then uploads and the last report, both for the result that the executor gave.
  abbrev pub IsRun : ℕ → DispatchedTask j → Recorded S → List Call → Type 0
  IsRun fuel task w after =
      (exec : TaskExecutionResult) × (last_check : ℕ) × (left : Recorded S) × (executed fuel task w
        ≡ some (exec, (last_check, left)))
      × Grew (IsWatch j config task.task_id)
          (w.1 ++ running_call task.task_id (machine.utc_now w.0) ∷ []) left.1
      × (exec.canceled ≡ true → IsWithdrawn machine j http config task.task_id left.1)
      × IsFinish machine j http config task.task_id (machine.utc_now w.0) exec left.1 after

  start_task-IsRun :
      (fuel : ℕ) (task : DispatchedTask j) (w w' : Recorded S)
      → start_task (silent machine) j (recording http) config fuel task w ≡ some w'
      → IsRun fuel task w w'.1
  unfolding start_task post_task_status
  start_task-IsRun fuel task (s, log) w' h =
      let call = running_call task.task_id (machine.utc_now s) in
      let s1 = (http call s).1 in
      go (executed fuel task (s, log)) refl
        (λ r.
          run_task-Grew machine j http config task.task_id fuel task (machine.steady_now s1)
            (s1, log ++ call ∷ []) r)
        (λ r.
          run_task-IsExplained (silent machine)
            (is_canceled (silent machine) j (recording http) config task.task_id)
            (do_heartbeat (silent machine) j (recording http) config busy) j config.log_dir fuel
            task (machine.steady_now s1) (s1, log ++ call ∷ []) r)
        h
    where
      go :
          (o : Option (TaskExecutionResult × (ℕ × Recorded S)))
          → executed fuel task (s, log) ≡ o
          → ((r : TaskExecutionResult × (ℕ × Recorded S))
              → executed fuel task (s, log) ≡ some r
              → Grew
                  (IsWatch j config task.task_id)
                  (log ++ running_call task.task_id (machine.utc_now s) ∷ [])
                  r.1.1.1)
          → ((r : TaskExecutionResult × (ℕ × Recorded S))
              → executed fuel task (s, log) ≡ some r
              → IsExplained
                  (silent machine)
                  (is_canceled (silent machine) j (recording http) config task.task_id)
                  (do_heartbeat (silent machine) j (recording http) config busy)
                  r)
          → finished (silent machine) j (recording http) config task.task_id (machine.utc_now s) o
            ≡ some w'
          → IsRun fuel task (s, log) w'.1
      go none e grown explained f = absurd (cc f)
      go (some (exec, (k, w))) e grown explained f = (
        exec,
        k,
        w,
        e,
        grown (exec, (k, w)) e,
        (λ c.
            EndsWithdrawn-IsWithdrawn machine j http config task.task_id w
              (explained (exec, (k, w)) e c)),
        subst (λ q. IsFinish machine j http config task.task_id (machine.utc_now s) exec w.1 q.1)
            (some-injective _ _ f)
            (finish_task-IsFinish machine j http config task.task_id (machine.utc_now s) exec w),
      )

  refused_log :
      (task : DispatchedTask j) (w : Recorded S)
      → (refuse_task (silent machine) j (recording http) config task w).1
        ≡ w.1 ++ mismatch_call task.task_id (machine.utc_now w.0) ∷ []
  unfolding refuse_task post_task_status
  refused_log task (s, log) = refl

  -- What one task adds to the calls: for a task whose own constraint names another operating system,
  -- one report; for any other task, the calls of its run.
  abbrev pub IsProtocol : ℕ → DispatchedTask j → Recorded S → Recorded S → Type 0
  IsProtocol fuel task w w' =
      ((is_mismatched (silent machine) j (recording http) config task ≡ true)
        × (w'.1 ≡ w.1 ++ mismatch_call task.task_id (machine.utc_now w.0) ∷ []))
      ⊎ ((is_mismatched (silent machine) j (recording http) config task ≡ false)
          × IsRun fuel task w w'.1)

  -- The calls for a task that the worker is done with are these and no others: a task whose own
  -- constraint names another operating system gets one report, that it failed; for any other task the
  -- executor ran to a result, and the calls are the report that the task runs, then only cancellation
  -- checks and heartbeats, then only uploads, and last one final report with the state, the exit code
  -- and the message of that result, which is left out exactly when the result says canceled; it says so
  -- only if the last call before the uploads was a cancellation check that the master answered with
  -- canceled or queued.
  pub handle_task-IsProtocol :
      (fuel : ℕ) (task : DispatchedTask j) (app app' : WorkerApp (Recorded S))
      → handle_task (silent machine) j (recording http) config fuel task app ≡ some app'
      → IsProtocol fuel task app.outside app'.outside
  unfolding handle_task
  handle_task-IsProtocol fuel task app app' h =
      elim (Bool-cases (is_mismatched (silent machine) j (recording http) config task)) [
        | inl mismatched ↦
            let e = some-injective _ _ (rw (mismatched, handle_task) at h) in
            inl (
              mismatched,
              subst
                  (λ q.
                    q.outside.1
                    ≡ app.outside.1
                      ++ mismatch_call task.task_id (machine.utc_now app.outside.0) ∷ [])
                  e (refused_log task app.outside),
            )
        | inr fitting ↦ inr (
          fitting,
          go (start_task (silent machine) j (recording http) config fuel task app.outside)
              (λ w'. start_task-IsRun fuel task app.outside w') (rw (fitting, handle_task) at h),
        )
      ]
    where
      go :
          (o : Option (Recorded S))
          → ((w' : Recorded S) → o ≡ some w' → IsRun fuel task app.outside w'.1)
          → elim o [ none ↦ none | some s ↦ some (record app { worker_state = busy; outside = s }) ]
            ≡ some app'
          → IsRun fuel task app.outside app'.outside.1
      go none run e = absurd (cc e)
      go (some w) run e =
          subst (λ q. IsRun fuel task app.outside q.outside.1) (some-injective _ _ e) (run w refl)
