-- ===== src/Broker/Postgres/Status.antt =====
-- `UpdateTaskStatus` and `CancelTask` of src/broker/pg_broker.cpp.
use distributed_computing.Prelude.{
  ℕ, Option, none, some, Bool, true, false, ◌&&◌, Bytes, codes, keep, length, ◌==◌, if◌then◌else◌,
}
use distributed_computing.Broker.Status.{
  TaskState, TaskState.queued, TaskState.running, TaskState.succeeded, TaskState.failed,
  TaskState.canceled, same_state,
}
use distributed_computing.Broker.Types.{
  StatusReport, CancelTaskResult, CancelTaskResult.ok, CancelTaskResult.not_found,
  CancelTaskResult.invalid_state,
}
use distributed_computing.Broker.Retry.{Outcome, returned, threw}
use distributed_computing.Broker.Postgres.Schema.{
  TaskRow, AssignmentRow, Db, PgLib, update_where, coalesce, find_task,
}
use distributed_computing.Broker.Postgres.Tasks.{read_task_state}

-- `state == Succeeded || state == Failed || state == Canceled`
abbrev pub is_terminal : TaskState → Bool
is_terminal queued = false
is_terminal running = false
is_terminal succeeded = true
is_terminal failed = true
is_terminal canceled = true

abbrev pub is_none {ℓ} : {A : Type ℓ} → Option A → Bool
is_none none = true
is_none (some a) = false

-- `task_id = $1 AND unassigned_at IS NULL`
abbrev pub is_open_for : ℕ → AssignmentRow → Bool
is_open_for task_id r = (r.task_id == task_id) && is_none r.unassigned_at

-- `CASE WHEN given IS NOT NULL THEN given WHEN set_now THEN NOW() ELSE old END`
abbrev pub given_or_now : Option ℕ → Bool → ℕ → Option ℕ → Option ℕ
given_or_now (some t) set_now now old = some t
given_or_now none set_now now old = if set_now then some now else old

-- A nullable text parameter under a cast: no value, a value, or an error.
abbrev pub cast_param : (Bytes → Option ℕ) → Option Bytes → Option (Option ℕ)
cast_param cast none = some none
cast_param cast (some text) = elim (cast text) [ none ↦ none | some t ↦ some (some t) ]

abbrev pub close_reason : TaskState → Bytes
close_reason canceled = codes "canceled"
close_reason _ = codes "completed"

-- The SET clause, from the times that the casts gave.
abbrev pub reported : StatusReport → Option ℕ → Option ℕ → ℕ → TaskRow → TaskRow
reported u started finished now t = record t {
  state = u.state;
  exit_code = coalesce u.exit_code t.exit_code;
  started_at =
      given_or_now started (is_none u.started_at && same_state u.state running) now t.started_at;
  finished_at =
      given_or_now finished (is_none u.finished_at && is_terminal u.state) now t.finished_at;
  error_message = coalesce u.error_message t.error_message;
}

-- The assignment's SET clause of a final report.
abbrev pub unassigned : StatusReport → Option ℕ → ℕ → AssignmentRow → AssignmentRow
unassigned u finished now r = record r {
  unassigned_at =
      given_or_now finished (is_none u.finished_at && is_terminal u.state) now r.unassigned_at;
  reason = some (close_reason u.state);
}

-- `WHERE task_id = $1`
abbrev pub is_task : ℕ → TaskRow → Bool
is_task task_id t = t.task_id == task_id

unfoldable pub update_task_status : PgLib → ℕ → StatusReport → ℕ → Db → Outcome Bool × Db
update_task_status pg task_id u now db = elim (cast_param pg.timestamptz u.started_at) [
  | none ↦ (threw pg.sql_error, db)
  | some started ↦ elim (cast_param pg.timestamptz u.finished_at) [
    | none ↦ (threw pg.sql_error, db)
    | some finished ↦
        if length (keep (is_task task_id) db.tasks) == 0 then (returned false, db) else (
          returned true,
          record db {
            tasks = update_where (is_task task_id) (reported u started finished now) db.tasks;
            assignments =
                if is_terminal u.state
                then update_where (is_open_for task_id) (unassigned u finished now) db.assignments
                else db.assignments;
          },
        )
  ]
]

-- The SET clauses of a cancellation.
abbrev pub canceled_task : ℕ → TaskRow → TaskRow
canceled_task now t = record t {
  state = canceled;
  finished_at = some now;
  error_message = coalesce t.error_message (some (codes "canceled_by_user"));
}

abbrev pub closed : ℕ → Bytes → AssignmentRow → AssignmentRow
closed now reason r = record r { unassigned_at = some now; reason = some reason }

unfoldable pub cancel_task : ℕ → ℕ → Db → Outcome CancelTaskResult × Db
cancel_task task_id now db = elim (find_task task_id db.tasks) [
  | none ↦ (returned not_found, db)
  | some row ↦ if is_terminal (read_task_state row.state) then (returned invalid_state, db) else (
    returned ok,
    record db {
      tasks = update_where (is_task task_id) (canceled_task now) db.tasks;
      assignments =
          update_where (is_open_for task_id) (closed now (codes "canceled_by_user")) db.assignments;
    },
  )
]
