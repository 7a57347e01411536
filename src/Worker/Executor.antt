-- ===== src/Worker/Executor.antt =====
-- src/worker/task_executor.cpp, its POSIX path. The system calls are a parameter, a value of `Machine`
-- over the state of the outside world; what the child does before `execvp` is described by `Child`.
-- Failures to create the log directory are only logged. The loop runs on fuel.
pub mod Loop
pub mod Verdict
pub mod Withdrawn
use distributed_computing.Prelude.{
  ℕ, zero, suc, ◌-◌, ◌+◌, ◌*◌, Bool, true, false, ◌&&◌, Option, none, some, List, [], ◌∷◌, Bytes,
  codes, ℤ, pos, negsuc, leb, ltb, if◌then◌else◌,
}
use distributed_computing.Json.{JsonLib}
use distributed_computing.Common.Paths.{path_join}
use distributed_computing.Master.Mappers.Parse.{Parsed}
use distributed_computing.Worker.Client.{DispatchedTask}

-- What WIFEXITED, WEXITSTATUS, WIFSIGNALED and WTERMSIG say of a status.
pub data ExitStatus : Type 0 where
  exited signaled : ℕ → ExitStatus
  other : ExitStatus

-- What `waitpid` with WNOHANG answers.
pub data Wait : Type 0 where
  done : ExitStatus → Wait
  not_yet interrupted wait_error : Wait

-- The process that `fork` starts: the files that its output goes to, the variables that it sets, and
-- what it executes.
pub record Child : Type 0 where
  pub stdout_path : Bytes
  pub stderr_path : Bytes
  pub variables : List (Bytes × Bytes)
  pub file : Bytes
  pub argv : List Bytes

pub record Machine (S : Type 0) : Type 0 where
  -- `NowUtcIso8601`.
  pub utc_now : S → Bytes
  -- `steady_clock::now`, in nanoseconds.
  pub steady_now : S → ℕ
  pub create_directories : Bytes → S → S
  -- False where `fork` fails.
  pub fork : Child → S → Bool × S
  pub waitpid : S → Wait × S
  -- `kill` with SIGKILL and the `waitpid` behind it, with the status that it leaves.
  pub kill : S → ExitStatus × S
  -- In milliseconds.
  pub sleep_for : ℕ → S → S
  -- `file_size`, or the message of its error.
  pub file_size : Bytes → S → Parsed ℕ
  -- A file's bytes, if it opens.
  pub read_file : Bytes → S → Option Bytes

abbrev pub nanoseconds : ℕ → ℕ
nanoseconds seconds = seconds * 1000000000

pub record TaskExecutionResult : Type 0 where
  pub exit_code : ℤ
  pub timed_out : Bool
  pub failed_to_start : Bool
  pub canceled : Bool
  pub error_message : Bytes
  pub started_at : Bytes
  pub finished_at : Bytes
  pub stdout_path : Bytes
  pub stderr_path : Bytes

-- How the loop is left.
pub data Ending : Type 0 where
  ended was_canceled expired : ExitStatus → Ending
  wait_failed : Ending

unfoldable pub exit_code_of : ExitStatus → ℤ
exit_code_of (exited code) = pos code
exit_code_of (signaled signal) = pos (128 + signal)
exit_code_of other = negsuc 0

-- The result with which `Run` starts.
unfoldable pub fresh_result : Bytes → Bytes → TaskExecutionResult
fresh_result started_at log_dir = record {
  exit_code = negsuc 0;
  timed_out = false;
  failed_to_start = false;
  canceled = false;
  error_message = [];
  started_at = started_at;
  finished_at = [];
  stdout_path = path_join log_dir (codes "stdout.log");
  stderr_path = path_join log_dir (codes "stderr.log");
}

-- What is returned once the loop is left, at the time `now`.
unfoldable pub closed_result : Ending → Bytes → TaskExecutionResult → TaskExecutionResult
unfolding exit_code_of
closed_result (ended status) now result = record result {
  exit_code = exit_code_of status;
  finished_at = now;
}
closed_result (was_canceled status) now result = record result {
  exit_code = exit_code_of status;
  canceled = true;
  finished_at = now;
}
closed_result (expired status) now result = record result {
  exit_code = exit_code_of status;
  timed_out = true;
  finished_at = now;
}
closed_result wait_failed now result = record result {
  failed_to_start = true;
  error_message = codes "waitpid failed";
}

-- `task.timeout_sec.value_or(0)`, and nothing where that is not positive.
unfoldable pub timeout_of : Option ℤ → Option ℕ
timeout_of none = none
timeout_of (some (negsuc n)) = none
timeout_of (some (pos zero)) = none
timeout_of (some (pos (suc n))) = some (suc n)

module _ (j : JsonLib) where
  open j use {Json, entries, is_string, get_string}

  -- The loop over `task.env`, which is always an object: values that are no strings are passed over.
  unfoldable pub string_variables : List (Bytes × Json) → List (Bytes × Bytes)
  string_variables [] = []
  string_variables ((key, value) ∷ rest) =
      let more = string_variables rest in
      if is_string value then (key, get_string value) ∷ more else more

  unfoldable pub child_of : DispatchedTask j → TaskExecutionResult → Child
  unfolding string_variables
  child_of task result = record {
    stdout_path = result.stdout_path;
    stderr_path = result.stderr_path;
    variables = string_variables (entries task.env);
    file = task.command;
    argv = task.command ∷ task.args;
  }

module _ {S K : Type 0} (machine : Machine S) where
  open machine use {utc_now, steady_now, create_directories, fork, waitpid, kill, sleep_for}

  module _ (is_canceled : K → S → Bool × (K × S)) (do_heartbeat : S → S) where
    -- `has_timeout`, and the time since `start` is past it.
    abbrev pub is_expired : Option ℕ → ℕ → S → Bool
    is_expired none start s = false
    is_expired (some timeout) start s = leb (nanoseconds timeout) (steady_now s - start)

    -- The rest of a turn behind the cancellation check.
    abbrev pub watch : Option ℕ → ℕ → Bool × (K × S) → Option Ending × (K × S)
    watch timeout start (true, (k, s)) = (some (was_canceled (kill s).0), (k, (kill s).1))
    watch timeout start (false, (k, s)) =
        if is_expired timeout start s
        then (some (expired (kill s).0), (k, (kill s).1))
        else (none, (k, sleep_for 50 (do_heartbeat s)))

    -- The rest of a turn behind `waitpid`.
    abbrev pub waited : Option ℕ → ℕ → K → Wait × S → Option Ending × (K × S)
    waited timeout start k (done status, s) = (some (ended status), (k, s))
    waited timeout start k (wait_error, s) = (some wait_failed, (k, s))
    waited timeout start k (interrupted, s) = (none, (k, s))
    waited timeout start k (not_yet, s) = watch timeout start (is_canceled k s)

    -- One turn of the loop; nothing where it goes on.
    unfoldable pub turn : Option ℕ → ℕ → K → S → Option Ending × (K × S)
    turn timeout start k s = waited timeout start k (waitpid s)

    abbrev pub proceed :
        (K × S → Option (Ending × (K × S))) → Option Ending × (K × S) → Option (Ending × (K × S))
    proceed again (some e, state) = some (e, state)
    proceed again (none, state) = again state

    -- Nothing where the fuel runs out.
    unfoldable pub wait_loop : ℕ → Option ℕ → ℕ → K × S → Option (Ending × (K × S))
    unfolding turn
    wait_loop zero timeout start state = none
    wait_loop (suc fuel) timeout start (k, s) =
        proceed (wait_loop fuel timeout start) (turn timeout start k s)

    abbrev pub close :
        TaskExecutionResult → Option (Ending × (K × S)) → Option (TaskExecutionResult × (K × S))
    close result none = none
    close result (some (e, (k, s))) = some (closed_result e (utc_now s) result, (k, s))

    -- What follows `fork` in the parent.
    abbrev pub forked :
        ℕ → Option ℕ → TaskExecutionResult → K → Bool × S → Option (TaskExecutionResult × (K × S))
    forked fuel timeout result k (true, s) =
        close result (wait_loop fuel timeout (steady_now s) (k, s))
    forked fuel timeout result k (false, s) =
        some (record result { failed_to_start = true; error_message = codes "fork failed" }, (k, s))

    -- Nothing where the fuel runs out.
    unfoldable pub run_task :
        (j : JsonLib)
        → Bytes
        → ℕ
        → DispatchedTask j
        → K
        → S
        → Option (TaskExecutionResult × (K × S))
    unfolding timeout_of fresh_result child_of
    run_task j log_root fuel task k s =
        let log_dir = path_join log_root task.task_id in
        let result = fresh_result (utc_now s) log_dir in
        forked fuel (timeout_of task.timeout_sec) result k
          (fork (child_of j task result) (create_directories log_dir s))
