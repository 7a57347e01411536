-- ===== src/Worker/App/Ending.antt =====
-- The calls of src/worker/worker_app.cpp once a task's command has ended.
use mathlib.Core.Path.{subst}
use mathlib.Core.List.{append-nil}
use distributed_computing.Prelude.{
  ◌≡◌, refl, sym, inl, inr, not, some, List, [], ◌∷◌, ◌++◌, Bytes, codes, Bool-cases, if◌then◌else◌,
  str_eq,
}
use distributed_computing.Json.{JsonLib}
use distributed_computing.Worker.Client.{
  Call, HttpClient, status_call, post_task_status, upload_task_log,
}
use distributed_computing.Worker.Config.{WorkerConfig}
use distributed_computing.Worker.Executor.{Machine, TaskExecutionResult}
use distributed_computing.Worker.App.{
  send_stream, uploaded, upload_stderr, report_end, read_file_with_limit, upload_stream,
  upload_streams, finish_task, final_state, with_upload_error, optional_non_empty,
}
use distributed_computing.Worker.App.Recorded.{
  Recorded, recording, silent, Grew, Grew-nothing, Grew-call, Grew-Grew, IsLogUpload,
}
use distributed_computing.Master.Mappers.Parse.{Parsed, accepted, refused}

module _ {S : Type 0} (machine : Machine S) (j : JsonLib) (http : HttpClient S)
    (config : WorkerConfig) where
  -- The last report, unless the master withdrew the task.
  abbrev pub last_calls : Bytes → Bytes → TaskExecutionResult → Bytes → List Call
  last_calls task_id started_at exec up_err =
      if not exec.canceled
      then status_call j task_id (final_state exec).0 (some exec.exit_code)
          (optional_non_empty started_at) (optional_non_empty exec.finished_at)
          (optional_non_empty (with_upload_error (final_state exec).1 up_err))
        ∷ []
      else []

  -- The calls that follow the executor: uploads, and the last report.
  abbrev pub IsFinish : Bytes → Bytes → TaskExecutionResult → List Call → List Call → Type 0
  IsFinish task_id started_at exec before after =
      (middle : List Call) × (up_err : Bytes) × Grew (IsLogUpload j config task_id) before middle
      × (after ≡ middle ++ last_calls task_id started_at exec up_err)

  abbrev streaming : Bytes → Bytes → Bytes → Recorded S → Bytes × Recorded S
  streaming = upload_stream (silent machine) j (recording http) config

  upload_stream-Grew :
      (task_id stream path : Bytes) (w : Recorded S)
      → Grew (IsLogUpload j config task_id) w.1 (streaming task_id stream path w).1.1
  unfolding upload_stream upload_task_log
  upload_stream-Grew task_id stream path (s, log) =
      go (read_file_with_limit (silent machine) path config.max_upload_bytes (s, log))
    where
      uploaded-log :
          (data_ : Bytes) (answer : Parsed Unit) (w : Recorded S)
          → (uploaded (silent machine) j (recording http) config stream (answer, w)).1.1 ≡ w.1
      uploaded-log data_ (refused message) w = refl
      uploaded-log data_ (accepted done) w = refl

      go :
          (read : Parsed Bytes)
          → Grew
              (IsLogUpload j config task_id)
              log
              (send_stream
                (silent machine)
                j
                (recording http)
                config
                task_id
                stream
                (s, log)
                read).1.1
      go (refused message) = Grew-nothing (IsLogUpload j config task_id) log
      go (accepted data_) =
          let r = upload_task_log j (recording http) task_id stream data_ (s, log) in
          subst (λ l. Grew (IsLogUpload j config task_id) log l) (sym (uploaded-log data_ r.0 r.1))
            (Grew-call (IsLogUpload j config task_id) log _ (stream, data_, refl))

  upload_streams-Grew :
      (task_id : Bytes) (exec : TaskExecutionResult) (w : Recorded S)
      → Grew
          (IsLogUpload j config task_id)
          w.1
          (upload_streams (silent machine) j (recording http) config task_id exec w).1.1
  unfolding upload_streams
  upload_streams-Grew task_id exec w = elim (Bool-cases config.upload_logs) [
    | inr off ↦ rw (off, upload_streams) (Grew-nothing (IsLogUpload j config task_id) w.1)
    | inl on ↦
        rw (on, upload_streams)
          (second (streaming task_id (codes "stdout") exec.stdout_path w)
            (upload_stream-Grew task_id (codes "stdout") exec.stdout_path w))
  ]
    where
      second :
          (first : Bytes × Recorded S)
          → Grew (IsLogUpload j config task_id) w.1 first.1.1
          → Grew
              (IsLogUpload j config task_id)
              w.1
              (upload_stderr (silent machine) j (recording http) config task_id exec first).1.1
      second (up_err, w') grown = elim (Bool-cases (str_eq up_err [])) [
        | inl well ↦ rw well (
            Grew-Grew (IsLogUpload j config task_id) w.1 w'.1 _ grown
              (upload_stream-Grew task_id (codes "stderr") exec.stderr_path w'))
        | inr bad ↦ rw bad grown
      ]

  pub finish_task-IsFinish :
      (task_id started_at : Bytes) (exec : TaskExecutionResult) (w : Recorded S)
      → IsFinish task_id started_at exec w.1
          (finish_task (silent machine) j (recording http) config task_id started_at exec w).1
  unfolding finish_task post_task_status
  finish_task-IsFinish task_id started_at exec w =
      go (upload_streams (silent machine) j (recording http) config task_id exec w)
        (upload_streams-Grew task_id exec w)
    where
      go :
          (up : Bytes × Recorded S)
          → Grew (IsLogUpload j config task_id) w.1 up.1.1
          → IsFinish task_id started_at exec w.1
              (report_end (silent machine) j (recording http) config task_id started_at exec up).1
      go (up_err, (s, log)) grown = (
        log,
        up_err,
        grown,
        elim (Bool-cases exec.canceled) [
          | inl withdrawn ↦ rw withdrawn (sym (append-nil log))
          | inr kept ↦ rw kept refl
        ],
      )
