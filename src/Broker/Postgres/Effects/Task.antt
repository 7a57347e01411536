-- ===== src/Broker/Postgres/Effects/Task.antt =====
-- The outcomes of `CancelTask` of src/broker/pg_broker.cpp.
use distributed_computing.Prelude.{
  ℕ, ◌≡◌, ◌≢◌, refl, true, false, none, some, List, [], ◌∷◌, All, codes, arith, Bool-cases,
  Option-cases, inl, inr, ◌⊎◌, Bytes,
}
use distributed_computing.Broker.Status.{
  TaskState, TaskState.queued, TaskState.running, TaskState.succeeded, TaskState.failed,
  TaskState.canceled,
}
use distributed_computing.Broker.Types.{
  CancelTaskResult, CancelTaskResult.ok, CancelTaskResult.not_found, CancelTaskResult.invalid_state,
  CancelTaskResult.error,
}
use distributed_computing.Broker.Retry.{Outcome, returned, threw}
use distributed_computing.Broker.Postgres.Schema.{
  TaskRow, AssignmentRow, Db, update_where, find_task,
}
use distributed_computing.Broker.Postgres.Status.{
  is_terminal, is_open_for, is_task, closed, canceled_task, cancel_task,
}
use distributed_computing.Broker.Postgres.History.{find_task-update_where, find_task-id}
use distributed_computing.Broker.Postgres.Keeps.Cancelling.{read_task_state_lem}

-- The other tasks are found as before.
abbrev pub OthersSame : ℕ → List TaskRow → List TaskRow → Type 0
OthersSame id rows rows' = (other : ℕ) → other ≢ id → find_task other rows' ≡ find_task other rows

pub OthersSame-update_where :
    (id : ℕ) (f : TaskRow → TaskRow) (keeps : (t : TaskRow) → (f t).task_id ≡ t.task_id)
    (rows : List TaskRow)
    → OthersSame id rows (update_where (is_task id) f rows)
OthersSame-update_where id f keeps rows other away = elim (Option-cases (find_task other rows)) [
  | inl gone ↦ rw (find_task-update_where (is_task id) f keeps other rows, gone) refl
  | inr (t, found) ↦
      let miss : is_task id t ≡ false = ground (arith, find_task-id other rows t found) in
      rw (find_task-update_where (is_task id) f keeps other rows, found, miss) refl
]

-- No assignment of the task is open.
abbrev pub IsClosed : ℕ → AssignmentRow → Type 0
IsClosed id r = is_open_for id r ≡ false

-- The states that no task leaves, and the others.
abbrev pub IsFinished : TaskState → Type 0
IsFinished s = (s ≡ succeeded) ⊎ (s ≡ failed) ⊎ (s ≡ canceled)

abbrev pub IsUnfinished : TaskState → Type 0
IsUnfinished s = (s ≡ queued) ⊎ (s ≡ running)

pub is_terminal-IsFinished : (s : TaskState) → is_terminal s ≡ true → IsFinished s
is_terminal-IsFinished queued h = absurd (cc h)
is_terminal-IsFinished running h = absurd (cc h)
is_terminal-IsFinished succeeded h = inl refl
is_terminal-IsFinished failed h = inr (inl refl)
is_terminal-IsFinished canceled h = inr (inr refl)

pub is_terminal-IsUnfinished : (s : TaskState) → is_terminal s ≡ false → IsUnfinished s
is_terminal-IsUnfinished queued h = inl refl
is_terminal-IsUnfinished running h = inr refl
is_terminal-IsUnfinished succeeded h = absurd (cc h)
is_terminal-IsUnfinished failed h = absurd (cc h)
is_terminal-IsUnfinished canceled h = absurd (cc h)

-- The columns that only the creation and the dispatch of a task write.
abbrev pub IsSameTask : TaskRow → TaskRow → Type 0
IsSameTask t t' =
    (t'.task_id ≡ t.task_id)
    × (t'.command ≡ t.command)
    × (t'.args ≡ t.args)
    × (t'.env ≡ t.env)
    × (t'.constraints ≡ t.constraints)
    × (t'.timeout_sec ≡ t.timeout_sec)
    × (t'.assigned_agent ≡ t.assigned_agent)
    × (t'.created_at ≡ t.created_at)

-- The row of a canceled task, column by column: an error message that is there already stays.
abbrev pub IsCanceledRow : ℕ → TaskRow → TaskRow → Type 0
IsCanceledRow now t t' =
    (t'.state ≡ canceled)
    × (t'.finished_at ≡ some now)
    × (t.error_message ≡ none → t'.error_message ≡ some (codes "canceled_by_user"))
    × ((m : Bytes) → t.error_message ≡ some m → t'.error_message ≡ some m)
    × (t'.started_at ≡ t.started_at)
    × (t'.exit_code ≡ t.exit_code)
    × IsSameTask t t'

canceled_task-IsCanceledRow : (now : ℕ) (t : TaskRow) → IsCanceledRow now t (canceled_task now t)
canceled_task-IsCanceledRow now t = (
  refl,
  refl,
  (λ e. rw e refl),
  (λ m e. rw e refl),
  refl,
  refl,
  (refl, refl, refl, refl, refl, refl, refl, refl),
)

module _ (id now : ℕ) (db : Db) where
  -- What each answer to a cancellation means.
  abbrev pub CancelResult : Outcome CancelTaskResult × Db → Type 0
  CancelResult (threw message, after) = ⊥
  CancelResult (returned not_found, after) = (find_task id db.tasks ≡ none) × (after ≡ db)
  CancelResult (returned invalid_state, after) =
      ((t : TaskRow) × (find_task id db.tasks ≡ some t) × IsFinished t.state) × (after ≡ db)
  CancelResult (returned error, after) = ⊥
  CancelResult (returned ok, after) =
      ((t : TaskRow) × (t' : TaskRow) × (find_task id db.tasks ≡ some t)
        × IsUnfinished t.state
        × (find_task id after.tasks ≡ some t')
        × IsCanceledRow now t t')
      × OthersSame id db.tasks after.tasks
      × All (IsClosed id) after.assignments

  closes :
      (rows : List AssignmentRow)
      → All
          (IsClosed id)
          (update_where (is_open_for id) (closed now (codes "canceled_by_user")) rows)
  closes [] = tt
  closes (r ∷ rows) = elim (Bool-cases (is_open_for id r)) [
    | inl live ↦ rw live (ground arith, closes rows)
    | inr other ↦ rw other (other, closes rows)
  ]

  -- A cancellation never throws. It finds no task, or a finished one, and changes nothing; or the task
  -- was queued or running and is now canceled, finished at this time, with the message
  -- "canceled_by_user" if it had none, and unchanged in its other columns; the other tasks are as they
  -- were, and no assignment of the task is open.
  pub cancel_task-CancelResult : CancelResult (cancel_task id now db)
  unfolding cancel_task
  cancel_task-CancelResult = elim (Option-cases (find_task id db.tasks)) [
    | inl gone ↦ rw (gone, cancel_task) (gone, refl)
    | inr (t, found) ↦ elim (Bool-cases (is_terminal t.state)) [
      | inl done ↦
          rw (found, read_task_state_lem t.state, done, cancel_task)
            ((t, found, is_terminal-IsFinished t.state done), refl)
      | inr live ↦
          let chosen : is_task id t ≡ true = ground (arith, find_task-id id db.tasks t found) in
          rw (found, read_task_state_lem t.state, live, cancel_task)
            (
              (
                t,
                canceled_task now t,
                found,
                is_terminal-IsUnfinished t.state live,
                rw
                    (
                      find_task-update_where (is_task id) (canceled_task now) (λ x. refl) id
                          db.tasks,
                      found,
                      chosen,
                    )
                    refl,
                canceled_task-IsCanceledRow now t,
              ),
              OthersSame-update_where id (canceled_task now) (λ x. refl) db.tasks,
              closes db.assignments,
            )
    ]
  ]
