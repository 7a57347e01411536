-- ===== src/Worker/Executor/Verdict.antt =====
-- The results of `TaskExecutor::Run` in src/worker/task_executor.cpp.
use mathlib.Core.Path.{subst}
use distributed_computing.Prelude.{
  codes, ℕ, ◌≡◌, ◌≢◌, ◌⊎◌, inl, inr, refl, Bool, true, false, ◌&&◌, Option, none, some, [], Bytes,
  negsuc,
}
use distributed_computing.Json.{JsonLib}
use distributed_computing.Common.Paths.{path_join}
use distributed_computing.Worker.Client.{DispatchedTask}
use distributed_computing.Worker.Executor.{
  Machine, Ending, ended, was_canceled, expired, wait_failed, TaskExecutionResult, fresh_result,
  closed_result, child_of, timeout_of, close, forked, run_task,
}

-- A task that could not be started or waited for, with nothing but a message.
abbrev pub IsFailure : TaskExecutionResult → Type 0
IsFailure r =
    (r.failed_to_start ≡ true)
    × (r.timed_out ≡ false)
    × (r.canceled ≡ false)
    × (r.exit_code ≡ negsuc 0)
    × (r.error_message ≢ [])
    × (r.finished_at ≡ [])

-- A task that was seen to its end, which was not both a cancellation and a timeout.
abbrev pub IsEnd : TaskExecutionResult → Type 0
IsEnd r =
    (r.failed_to_start ≡ false) × ((r.timed_out && r.canceled) ≡ false) × (r.error_message ≡ [])

abbrev pub IsVerdict : TaskExecutionResult → Type 0
IsVerdict r = IsFailure r ⊎ IsEnd r

closed-IsVerdict :
    (e : Ending) (now started_at log_dir : Bytes)
    → IsVerdict (closed_result e now (fresh_result started_at log_dir))
unfolding closed_result fresh_result
closed-IsVerdict (ended status) now started_at log_dir = inr (refl, refl, refl)
closed-IsVerdict (was_canceled status) now started_at log_dir = inr (refl, refl, refl)
closed-IsVerdict (expired status) now started_at log_dir = inr (refl, refl, refl)
closed-IsVerdict wait_failed now started_at log_dir =
    inl (refl, refl, refl, refl, (λ h. cc h), refl)

module _ {S K : Type 0} (machine : Machine S) where
  module _ (is_canceled : K → S → Bool × (K × S)) (do_heartbeat : S → S) where
    closing :
        (started_at log_dir : Bytes) (o : Option (Ending × (K × S))) (r : TaskExecutionResult)
        (state : K × S)
        → close machine is_canceled do_heartbeat (fresh_result started_at log_dir) o
          ≡ some (r, state)
        → IsVerdict r
    closing started_at log_dir none r state h = absurd (cc h)
    closing started_at log_dir (some (e, (k, s))) r state h =
        let same : closed_result e (machine.utc_now s) (fresh_result started_at log_dir) ≡ r =
          cc h in
        subst IsVerdict same (closed-IsVerdict e (machine.utc_now s) started_at log_dir)

    fork_failure-IsVerdict :
        (started_at log_dir : Bytes)
        → IsVerdict (record (fresh_result started_at log_dir) {
          failed_to_start = true;
          error_message = codes "fork failed";
        })
    unfolding fresh_result
    fork_failure-IsVerdict started_at log_dir = inl (refl, refl, refl, refl, (λ h. cc h), refl)

    -- Whatever the calls answer, a result is either a failure, which has a message, no exit code and
    -- no end, or an end, which has no message and is not both timed out and canceled.
    pub run_task-IsVerdict :
        (j : JsonLib) (log_root : Bytes) (fuel : ℕ) (task : DispatchedTask j) (k : K) (s : S)
        (r : TaskExecutionResult) (state : K × S)
        → run_task machine is_canceled do_heartbeat j log_root fuel task k s ≡ some (r, state)
        → IsVerdict r
    unfolding run_task
    run_task-IsVerdict j log_root fuel task k s r state h =
        let log_dir = path_join log_root task.task_id in
        let result = fresh_result (machine.utc_now s) log_dir in
        go (machine.utc_now s) log_dir
          (machine.fork (child_of j task result) (machine.create_directories log_dir s)) h
      where
        go :
            (started_at log_dir : Bytes) (f : Bool × S)
            → forked machine is_canceled do_heartbeat fuel
                (timeout_of task.timeout_sec)
                (fresh_result started_at log_dir)
                k
                f
              ≡ some (r, state)
            → IsVerdict r
        go started_at log_dir (false, s1) e =
            let failure = record (fresh_result started_at log_dir) {
              failed_to_start = true;
              error_message = codes "fork failed";
            } in
            let same : failure ≡ r = cc e in
            subst IsVerdict same (fork_failure-IsVerdict started_at log_dir)
        go started_at log_dir (true, s1) e = closing started_at log_dir _ r state e
