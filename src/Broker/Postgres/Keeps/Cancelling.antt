-- ===== src/Broker/Postgres/Keeps/Cancelling.antt =====
-- `CancelTask` of src/broker/pg_broker.cpp and the invariant of the tables.
use distributed_computing.Prelude.{
  codes, ℕ, ◌≡◌, refl, Bool, true, false, none, some, List, Bytes, All, arith, Bool-cases,
  Option-cases, inl, inr,
}
use distributed_computing.Broker.Status.{TaskState}
use distributed_computing.Broker.Postgres.Schema.{
  TaskRow, AssignmentRow, Db, update_where, find_task,
}
use distributed_computing.Broker.Postgres.Tasks.{read_task_state}
use distributed_computing.Broker.Postgres.Status.{
  closed, canceled_task, is_task, is_terminal, is_open_for, cancel_task,
}
use distributed_computing.Broker.Postgres.Sql.{All-update_where}
use distributed_computing.Broker.Postgres.History.{
  Continues, Follows, Follows-refl, Follows-update_where, find_task-id,
}
use distributed_computing.Broker.Postgres.Ids.{Ids-update_where}
use distributed_computing.Broker.Postgres.Invariant.{Inv, IsFree, All-IsBacked}
use distributed_computing.Broker.Status.Spelling.{task_state_round_trip}

pub read_task_state_lem : (s : TaskState) → read_task_state s ≡ s
read_task_state_lem s = rw ((task_state_round_trip s).0, read_task_state)

-- An open assignment that is not closed with a task is of another task.
pub not_chosen :
    (id : ℕ) (r : AssignmentRow) (tasks : List TaskRow) (t : TaskRow)
    → is_open_for id r ≡ false
    → r.unassigned_at ≡ none
    → find_task r.task_id tasks ≡ some t
    → is_task id t ≡ true
    → ⊥
not_chosen id r tasks t other live found chosen =
    ground (arith, find_task-id r.task_id tasks t found)

IsFree-update_where :
    (p : TaskRow → Bool) (f : TaskRow → TaskRow) (rows : List TaskRow)
    → ((t : TaskRow) → IsFree t → IsFree (f t))
    → All IsFree rows
    → All IsFree (update_where p f rows)
IsFree-update_where p f rows step =
    All-update_where IsFree IsFree p f (λ t h _. step t h) (λ t h _. h) rows

cancel-Inv :
    (id now : ℕ) (reason : Bytes) (db : Db)
    → Inv db
    → Inv (record db {
      tasks = update_where (is_task id) (canceled_task now) db.tasks;
      assignments = update_where (is_open_for id) (closed now reason) db.assignments;
    })
cancel-Inv id now reason db v = record {
  ids =
      Ids-update_where (is_task id) (canceled_task now) (λ t. refl) 1 db.next_task_id db.tasks
        v.ids;
  free =
      IsFree-update_where (is_task id) (canceled_task now) db.tasks (λ t h e. absurd (cc e)) v.free;
  backed =
      All-IsBacked db.tasks (is_task id) (canceled_task now) (λ t. refl) (is_open_for id)
        (closed now reason) db.assignments (λ r e. cc e)
        (λ r t other live found runs held chosen.
          absurd (not_chosen id r db.tasks t other live found chosen))
        v.backed;
}

pub cancel_task-Inv : (id now : ℕ) (db : Db) → Inv db → Inv (cancel_task id now db).1
unfolding cancel_task
cancel_task-Inv id now db v = elim (Option-cases (find_task id db.tasks)) [
  | inl gone ↦ rw (gone, cancel_task) v
  | inr (row, found) ↦ elim (Bool-cases (is_terminal (read_task_state row.state))) [
    | inl done ↦ rw (found, done, cancel_task) v
    | inr live ↦ rw (found, live, cancel_task) (cancel-Inv id now (codes "canceled_by_user") db v)
  ]
]

cancel-Continues :
    (id now : ℕ) (db : Db) (row : TaskRow)
    → find_task id db.tasks ≡ some row
    → is_terminal (read_task_state row.state) ≡ false
    → (other : ℕ) (t : TaskRow) → find_task other db.tasks ≡ some t
    → is_task id t ≡ true
    → Continues t (canceled_task now t)
cancel-Continues id now db row found live other t h chosen = record {
  task_id = refl;
  command = refl;
  args = refl;
  env = refl;
  constraints = refl;
  timeout_sec = refl;
  created_at = refl;
  finished = λ done. ground (arith, read_task_state_lem row.state, find_task-id other db.tasks t h);
}

pub cancel_task-Follows : (id now : ℕ) (db : Db) → Follows db.tasks (cancel_task id now db).1.tasks
unfolding cancel_task
cancel_task-Follows id now db = elim (Option-cases (find_task id db.tasks)) [
  | inl gone ↦ rw (gone, cancel_task) (Follows-refl db.tasks)
  | inr (row, found) ↦ elim (Bool-cases (is_terminal (read_task_state row.state))) [
    | inl done ↦ rw (found, done, cancel_task) (Follows-refl db.tasks)
    | inr live ↦
        rw (found, live, cancel_task)
          (Follows-update_where (is_task id) (canceled_task now) (λ t. refl) db.tasks
            (cancel-Continues id now db row found live))
  ]
]
