-- ===== src/Worker/App.antt =====
-- The main loop of src/worker/worker_app.cpp, over the system calls and the HTTP client. Logging is left out.
pub mod Tick
pub mod Ends
pub mod Final
pub mod Recorded
pub mod Watching
pub mod Withdrawn
pub mod Ending
pub mod Protocol
use distributed_computing.Prelude.{
  ◌*◌, ℕ, zero, suc, ◌+◌, ◌-◌, ◌++◌, Bool, true, false, not, ◌&&◌, ◌||◌, Option, none, some, List,
  [], ◌∷◌, Bytes, codes, ℤ, pos, negsuc, leb, ltb, leb_ℤ, pos_part, str_eq, if◌then◌else◌,
}
use distributed_computing.Json.{JsonLib}
use distributed_computing.Common.Numbers.{to_string}
use distributed_computing.Master.Mappers.Parse.{Parsed, accepted, refused, field_with}
use distributed_computing.Worker.Client.{
  HttpClient, AgentRegistration, DispatchedTask, register_agent, send_heartbeat, poll_tasks,
  post_task_status, upload_task_log, get_task_state,
}
use distributed_computing.Worker.Config.{WorkerConfig}
use distributed_computing.Worker.Executor.{Machine, TaskExecutionResult, run_task, nanoseconds}

pub data WorkerState : Type 0 where
  offline idle busy : WorkerState

unfoldable pub translate_worker_state : WorkerState → Bytes
translate_worker_state offline = codes "offline"
translate_worker_state idle = codes "idle"
translate_worker_state busy = codes "busy"

-- The fields of `WorkerApp` that change, and the outside world.
pub record WorkerApp (S : Type 0) : Type 0 where
  pub worker_state : WorkerState
  pub heartbeat_interval_sec : ℤ
  pub outside : S

unfoldable pub optional_non_empty : Bytes → Option Bytes
optional_non_empty value = if str_eq value [] then none else some value

-- `operator==` of `int` with 0.
abbrev pub is_zero : ℤ → Bool
is_zero n = leb_ℤ n (pos 0) && leb_ℤ (pos 0) n

-- The state that is reported for a result, and the error message.
unfoldable pub final_state : TaskExecutionResult → Bytes × Bytes
final_state exec =
    if exec.failed_to_start
    then (
      codes "failed",
      if str_eq exec.error_message [] then codes "Failed to start task" else exec.error_message,
    )
    else if exec.timed_out
    then (codes "failed", codes "Task timed out")
    else if exec.canceled
    then (codes "canceled", codes "Canceled by master")
    else if is_zero exec.exit_code
    then (codes "succeeded", [])
    else (codes "failed", [])

-- `error_message` with what went wrong with the logs behind it.
unfoldable pub with_upload_error : Bytes → Bytes → Bytes
with_upload_error error_message up_err =
    if str_eq up_err []
    then error_message
    else if str_eq error_message []
    then up_err
    else error_message ++ codes "; " ++ up_err

module _ {S : Type 0} (machine : Machine S) where
  open machine use {utc_now, steady_now, file_size, read_file}

  unfoldable pub read_file_with_limit : Bytes → ℕ → S → Parsed Bytes
  read_file_with_limit path max_bytes s = elim (file_size path s) [
    | refused message ↦ refused (codes "stat failed for " ++ path ++ codes ": " ++ message)
    | accepted size ↦
        if ltb max_bytes size
        then refused (codes "log too large (" ++ to_string size ++ codes " bytes)")
        else elim (read_file path s) [
          | none ↦ refused (codes "open failed for " ++ path)
          | some data_ ↦ accepted data_
        ]
  ]

  module _ (j : JsonLib) (http : HttpClient S) (config : WorkerConfig) where
    open j use {Json, is_string, get_string}

    unfoldable pub register : WorkerApp S → Bool × WorkerApp S
    register app =
        let (answer, outside) =
          register_agent j http
            (record {
              agent_id = config.agent_id;
              os = config.os;
              version = config.version;
              cpu_cores = config.cpu_cores;
              ram_mb = config.ram_mb;
              slots = config.slots;
            })
            app.outside in
        elim answer [
          | refused message ↦ (false, record app { outside = outside })
          | accepted interval ↦ (
            true,
            record app {
              outside = outside;
              heartbeat_interval_sec =
                  if leb_ℤ interval (pos 0) then app.heartbeat_interval_sec else interval;
            },
          )
        ]

    -- The verdict of a cancellation check on what the master answers.
    abbrev pub is_withdrawn : Parsed Bytes → Bool
    is_withdrawn (refused message) = false
    is_withdrawn (accepted state) = str_eq state (codes "canceled") || str_eq state (codes "queued")

    -- The lambda `is_canceled`; its state is `last_cancel_check`.
    unfoldable pub is_canceled : Bytes → ℕ → S → Bool × (ℕ × S)
    is_canceled task_id last_cancel_check s =
        if ltb (steady_now s - last_cancel_check)
          (nanoseconds (pos_part config.cancel_check_interval_sec))
        then (false, (last_cancel_check, s))
        else let (answer, s') = get_task_state j http task_id s in
          (is_withdrawn answer, (steady_now s, s'))

    -- The lambda `doHeartbeat`.
    unfoldable pub do_heartbeat : WorkerState → S → S
    do_heartbeat state s =
        (send_heartbeat j http config.agent_id (translate_worker_state state) s).1

    abbrev pub uploaded : Bytes → Parsed Unit × S → Bytes × S
    uploaded stream (refused message, s) =
        (codes "upload " ++ stream ++ codes " log failed: " ++ message, s)
    uploaded stream (accepted done, s) = ([], s)

    abbrev pub send_stream : Bytes → Bytes → S → Parsed Bytes → Bytes × S
    send_stream task_id stream s (refused message) =
        (codes "read " ++ stream ++ codes " log failed: " ++ message, s)
    send_stream task_id stream s (accepted data_) =
        uploaded stream (upload_task_log j http task_id stream data_ s)

    -- The lambda `upload_stream`: its message is empty where all went well.
    unfoldable pub upload_stream : Bytes → Bytes → Bytes → S → Bytes × S
    unfolding read_file_with_limit
    upload_stream task_id stream path s =
        send_stream task_id stream s (read_file_with_limit path config.max_upload_bytes s)

    -- The second stream, where the first went well.
    abbrev pub upload_stderr : Bytes → TaskExecutionResult → Bytes × S → Bytes × S
    upload_stderr task_id exec (up_err, s) =
        if str_eq up_err []
        then upload_stream task_id (codes "stderr") exec.stderr_path s
        else (up_err, s)

    unfoldable pub upload_streams : Bytes → TaskExecutionResult → S → Bytes × S
    unfolding upload_stream
    upload_streams task_id exec s =
        if config.upload_logs
        then upload_stderr task_id exec (upload_stream task_id (codes "stdout") exec.stdout_path s)
        else ([], s)

    -- The last report, behind the uploads.
    abbrev pub report_end : Bytes → Bytes → TaskExecutionResult → Bytes × S → S
    report_end task_id started_at exec (up_err, s) =
        if not exec.canceled
        then (post_task_status j http task_id (final_state exec).0 (some exec.exit_code)
            (optional_non_empty started_at) (optional_non_empty exec.finished_at)
            (optional_non_empty (with_upload_error (final_state exec).1 up_err)) s).1
        else s

    -- What follows the executor.
    unfoldable pub finish_task : Bytes → Bytes → TaskExecutionResult → S → S
    unfolding final_state with_upload_error upload_streams optional_non_empty
    finish_task task_id started_at exec s =
        report_end task_id started_at exec (upload_streams task_id exec s)
