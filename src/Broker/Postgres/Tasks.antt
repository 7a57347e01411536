-- ===== src/Broker/Postgres/Tasks.antt =====
-- `CreateTask`, `GetTask` and `ListTasks` of src/broker/pg_broker.cpp.
use distributed_computing.Prelude.{
  ℕ, ◌+◌, Option, none, some, true, false, ◌&&◌, List, [], ◌∷◌, ◌++◌, map, Bytes, codes, ℤ, keep,
  leb, if◌then◌else◌, str_eq,
}
use distributed_computing.Json.{JsonLib}
use distributed_computing.Broker.Status.{
  TaskState, TaskState.queued, task_state_from_api, task_state_to_db, same_state,
}
use distributed_computing.Broker.Types.{TaskInput, TaskRecord, TaskSummary}
use distributed_computing.Broker.Constraints.{parse_json_or_default, normalize_constraints}
use distributed_computing.Broker.Retry.{Outcome, returned, threw}
use distributed_computing.Broker.Postgres.Schema.{
  TaskRow, Db, PgLib, order_by, limit_offset, find_task,
}

-- `TaskStateFromApi(row["state"].c_str()).value_or(TaskState::Queued)`
abbrev pub read_task_state : TaskState → TaskState
read_task_state s = elim (task_state_from_api (task_state_to_db s)) [ none ↦ queued | some t ↦ t ]

unfoldable pub list_tasks :
    PgLib → Option TaskState → Option Bytes → ℤ → ℤ → ℕ → Db → Outcome (List TaskSummary) × Db
list_tasks pg state agent_id limit offset now db =
    let chosen = λ (r : TaskRow).
      (elim state [ none ↦ true | some s ↦ same_state r.state s ]) && (elim agent_id [
        | none ↦ true
        | some a ↦ elim r.assigned_agent [ none ↦ false | some b ↦ str_eq b a ]
      ]) in
    let rows = order_by (λ a b. leb b.created_at a.created_at) (keep chosen db.tasks) in
    elim (limit_offset limit offset rows) [
      | none ↦ (threw pg.sql_error, db)
      | some page ↦ (
        returned (map (λ r. record { task_id = r.task_id; state = read_task_state r.state }) page),
        db,
      )
    ]

module _ (j : JsonLib) (pg : PgLib) where
  open j use {Json, dump, is_null, empty_object, array}

  -- The row of a new task, from the three JSON texts.
  abbrev pub new_task : TaskInput j → Bytes → Bytes → Bytes → ℕ → ℕ → TaskRow
  new_task task args env constraints id now = record {
    task_id = id;
    state = queued;
    command = task.command;
    args = args;
    env = env;
    constraints = constraints;
    timeout_sec = task.timeout_sec;
    assigned_agent = none;
    created_at = now;
    started_at = none;
    finished_at = none;
    exit_code = none;
    error_message = none;
  }

  unfoldable pub create_task : TaskInput j → ℕ → Db → Outcome ℕ × Db
  create_task task now db =
      let args_json = if is_null task.args then codes "[]" else dump task.args in
      let env_json = if is_null task.env then codes "{}" else dump task.env in
      let constraints_json = dump (normalize_constraints j task.constraints) in
      elim (pg.jsonb args_json) [
        | none ↦ (threw pg.sql_error, db)
        | some args ↦ elim (pg.jsonb env_json) [
          | none ↦ (threw pg.sql_error, db)
          | some env ↦ elim (pg.jsonb constraints_json) [
            | none ↦ (threw pg.sql_error, db)
            | some constraints ↦ (
              returned db.next_task_id,
              record db {
                tasks = db.tasks ++ new_task task args env constraints db.next_task_id now ∷ [];
                next_task_id = db.next_task_id + 1;
              },
            )
          ]
        ]
      ]

  unfoldable pub task_record : TaskRow → TaskRecord j
  task_record r = record {
    task_id = r.task_id;
    state = read_task_state r.state;
    command = r.command;
    args = parse_json_or_default j r.args (array []);
    env = parse_json_or_default j r.env empty_object;
    timeout_sec = r.timeout_sec;
    assigned_agent = r.assigned_agent;
    created_at = pg.to_char r.created_at;
    started_at = elim r.started_at [ none ↦ none | some t ↦ some (pg.to_char t) ];
    finished_at = elim r.finished_at [ none ↦ none | some t ↦ some (pg.to_char t) ];
    exit_code = r.exit_code;
    error_message = r.error_message;
    constraints = normalize_constraints j (parse_json_or_default j r.constraints empty_object);
  }

  unfoldable pub get_task : ℕ → ℕ → Db → Outcome (Option (TaskRecord j)) × Db
  unfolding task_record
  get_task task_id now db = (
    returned (elim (find_task task_id db.tasks) [ none ↦ none | some r ↦ some (task_record r) ]),
    db,
  )
