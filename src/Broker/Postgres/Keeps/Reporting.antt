-- ===== src/Broker/Postgres/Keeps/Reporting.antt =====
-- `UpdateTaskStatus` of src/broker/pg_broker.cpp and the invariant of the tables.
use distributed_computing.Prelude.{
  ◌⊎◌, keep, length, All-both, All-weaken, ℕ, ◌≡◌, ◌≢◌, refl, true, false, Option, none, some, All,
  ◌==◌, if◌then◌else◌, arith, Bool-cases, inl, inr,
}
use distributed_computing.Broker.Status.{TaskState, TaskState.queued, TaskState.running}
use distributed_computing.Broker.Types.{StatusReport}
use distributed_computing.Broker.Postgres.Schema.{
  TaskRow, AssignmentRow, Db, PgLib, update_where, find_task,
}
use distributed_computing.Broker.Postgres.Status.{
  unassigned, is_task, is_terminal, is_open_for, cast_param, reported, update_task_status,
}
use distributed_computing.Broker.Postgres.Sql.{All-update_where}
use distributed_computing.Broker.Postgres.History.{
  Continues, Follows, Follows-refl, Follows-update_where, find_task-id,
}
use distributed_computing.Broker.Postgres.Ids.{Ids-found, Ids-update_where}
use distributed_computing.Broker.Postgres.Invariant.{
  Inv, IsFree, IsBacked, IsBacked-update_where, All-IsBacked,
}
use distributed_computing.Broker.Postgres.Keeps.Cancelling.{not_chosen}

-- What a report may do to a task: a finished one keeps its state, and none goes back to the queue.
abbrev pub IsAllowed : TaskState → TaskState → Type 0
IsAllowed from to = (is_terminal from ≡ true → to ≡ from) × (to ≡ queued → from ≡ queued)

-- The caller's check of the transition, on the row that is there.
abbrev pub IsGuarded : ℕ → StatusReport → Db → Type 0
IsGuarded id u db = (t : TaskRow) → find_task id db.tasks ≡ some t → IsAllowed t.state u.state

pub closes_final :
    (pg : PgLib) (u : StatusReport) (finished : Option ℕ) (now : ℕ) (r : AssignmentRow)
    → cast_param pg.timestamptz u.finished_at ≡ some finished
    → is_terminal u.state ≡ true
    → (unassigned u finished now r).unassigned_at ≢ none
closes_final pg u finished now r e final h = ground arith

module _ (pg : PgLib) (id : ℕ) (u : StatusReport) (started finished : Option ℕ) (now : ℕ) (db : Db)
    (guarded : IsGuarded id u db) where
  reported-IsFree :
      Inv db → All IsFree (update_where (is_task id) (reported u started finished now) db.tasks)
  reported-IsFree v =
      All-update_where (λ t. IsFree t × (find_task t.task_id db.tasks ≡ some t)) IsFree (is_task id)
        (reported u started finished now)
        (λ t h chosen to_queue. h.0 ((guarded t (ground (arith, h.1))).1 to_queue))
        (λ t h other. h.0) db.tasks
        (All-both IsFree (λ t. find_task t.task_id db.tasks ≡ some t) db.tasks v.free
          (Ids-found 1 db.next_task_id db.tasks v.ids))

  reported-Continues :
      (other : ℕ) (t : TaskRow)
      → find_task other db.tasks ≡ some t
      → is_task id t ≡ true
      → Continues t (reported u started finished now t)
  reported-Continues other t h chosen = record {
    task_id = refl;
    command = refl;
    args = refl;
    env = refl;
    constraints = refl;
    timeout_sec = refl;
    created_at = refl;
    finished = (guarded t (ground (arith, h, find_task-id other db.tasks t h))).0;
  }

  reported-running :
      (other : ℕ) (t : TaskRow)
      → find_task other db.tasks ≡ some t
      → is_task id t ≡ true
      → t.state ≡ running
      → is_terminal u.state ≡ false
      → u.state ≡ running
  reported-running other t h chosen runs live =
      ground (arith, (guarded t (ground (arith, h, find_task-id other db.tasks t h))).1)

  final-Inv :
      cast_param pg.timestamptz u.finished_at ≡ some finished
      → is_terminal u.state ≡ true
      → Inv db
      → Inv (record db {
        tasks = update_where (is_task id) (reported u started finished now) db.tasks;
        assignments = update_where (is_open_for id) (unassigned u finished now) db.assignments;
      })
  final-Inv e final v = record {
    ids =
        Ids-update_where (is_task id) (reported u started finished now) (λ t. refl) 1
          db.next_task_id db.tasks v.ids;
    free = reported-IsFree v;
    backed =
        All-IsBacked db.tasks (is_task id) (reported u started finished now) (λ t. refl)
          (is_open_for id) (unassigned u finished now) db.assignments
          (λ r. closes_final pg u finished now r e final)
          (λ r t other live found runs held chosen.
            absurd (not_chosen id r db.tasks t other live found chosen))
          v.backed;
  }

  open-Inv :
      is_terminal u.state ≡ false
      → Inv db
      → Inv (record db {
        tasks = update_where (is_task id) (reported u started finished now) db.tasks;
      })
  open-Inv live v = record {
    ids =
        Ids-update_where (is_task id) (reported u started finished now) (λ t. refl) 1
          db.next_task_id db.tasks v.ids;
    free = reported-IsFree v;
    backed =
        All-weaken (IsBacked db.tasks)
          (IsBacked (update_where (is_task id) (reported u started finished now) db.tasks))
          (λ r.
            IsBacked-update_where db.tasks (is_task id) (reported u started finished now)
              (λ t. refl) r
              (λ t opened found runs held chosen.
                (reported-running r.task_id t found chosen runs live, held)))
          db.assignments v.backed;
  }

-- The tables after a report whose times were cast.
abbrev pub written : ℕ → StatusReport → Option ℕ → Option ℕ → ℕ → Db → Db
written id u started finished now db = record db {
  tasks = update_where (is_task id) (reported u started finished now) db.tasks;
  assignments =
      if is_terminal u.state
      then update_where (is_open_for id) (unassigned u finished now) db.assignments
      else db.assignments;
}

-- A report leaves the tables alone, or writes once.
pub report_cases {ℓ} :
    (P : Db → Type ℓ) (pg : PgLib) (id : ℕ) (u : StatusReport) (now : ℕ) (db : Db)
    → P db
    → ((started finished : Option ℕ)
        → cast_param pg.timestamptz u.finished_at ≡ some finished
        → P (written id u started finished now db))
    → P (update_task_status pg id u now db).1
unfolding update_task_status
report_cases P pg id u now db same changed =
    by_started (cast_param pg.timestamptz u.started_at) refl
      (cast_param pg.timestamptz u.finished_at) refl
      (Bool-cases (length (keep (is_task id) db.tasks) == 0))
  where
    by_started :
        (a : Option (Option ℕ))
        → cast_param pg.timestamptz u.started_at ≡ a
        → (b : Option (Option ℕ)) → cast_param pg.timestamptz u.finished_at ≡ b
        → ((length (keep (is_task id) db.tasks) == 0) ≡ true)
          ⊎ ((length (keep (is_task id) db.tasks) == 0) ≡ false)
        → P (update_task_status pg id u now db).1
    by_started none e b f c = rw (e, update_task_status) same
    by_started (some started) e none f c = rw (e, f, update_task_status) same
    by_started (some started) e (some finished) f (inl c) = rw (e, f, c, update_task_status) same
    by_started (some started) e (some finished) f (inr c) =
        rw (e, f, c, update_task_status) (changed started finished f)

-- A report that passes the caller's check keeps the invariant.
pub update_task_status-Inv :
    (pg : PgLib) (id : ℕ) (u : StatusReport) (now : ℕ) (db : Db)
    → IsGuarded id u db
    → Inv db
    → Inv (update_task_status pg id u now db).1
update_task_status-Inv pg id u now db guarded v =
    report_cases Inv pg id u now db v λ started finished f.
      elim (Bool-cases (is_terminal u.state)) [
        | inl final ↦ rw final (final-Inv pg id u started finished now db guarded f final v)
        | inr live ↦ rw live (open-Inv pg id u started finished now db guarded live v)
      ]

pub update_task_status-Follows :
    (pg : PgLib) (id : ℕ) (u : StatusReport) (now : ℕ) (db : Db)
    → IsGuarded id u db
    → Follows db.tasks (update_task_status pg id u now db).1.tasks
update_task_status-Follows pg id u now db guarded =
    report_cases (λ d. Follows db.tasks d.tasks) pg id u now db (Follows-refl db.tasks)
      λ started finished f.
        Follows-update_where (is_task id) (reported u started finished now) (λ t. refl) db.tasks
          (reported-Continues pg id u started finished now db guarded)
