-- ===== src/Broker/Postgres/Poll.antt =====
-- `PollTasksForAgent` of src/broker/pg_broker.cpp.
use distributed_computing.Prelude.{
  ℕ, Option, none, some, Bool, true, false, ◌&&◌, List, [], ◌∷◌, ◌++◌, map, Bytes, codes, ℤ, pos,
  pos_part, take, leb, leb_ℤ, ◌==◌, if◌then◌else◌, str_eq,
}
use distributed_computing.Json.{JsonLib}
use distributed_computing.Broker.Status.{
  AgentStatus, AgentStatus.idle, AgentStatus.busy, TaskState.queued, TaskState.running, same_state,
}
use distributed_computing.Broker.Types.{TaskDispatch}
use distributed_computing.Broker.Constraints.{parse_json_or_default, normalize_constraints}
use distributed_computing.Broker.Retry.{Outcome, returned, threw}
use distributed_computing.Broker.Postgres.Schema.{
  AgentRow, TaskRow, Db, PgLib, update_where, order_by, select_where, find_agent,
}

-- `t.state = 'Queued' AND t.assigned_agent IS NULL`
abbrev pub is_waiting : TaskRow → Bool
is_waiting t = same_state t.state queued && (elim t.assigned_agent [ none ↦ true | some a ↦ false ])

module _ (pg : PgLib) where
  open pg use {text_field, int_cast, sql_error}

  -- `t.constraints->>'key' IS NULL OR (t.constraints->>'key')::int <= limit`
  unfoldable pub fits_int : Bytes → Bytes → ℤ → Option Bool
  fits_int constraints key limit = elim (text_field constraints key) [
    | none ↦ some true
    | some text ↦ elim (int_cast text) [ none ↦ none | some n ↦ some (leb_ℤ n limit) ]
  ]

  unfoldable pub fits_os : Bytes → Bytes → Bool
  fits_os constraints agent_os = elim (text_field constraints (codes "os")) [
    | none ↦ true
    | some os ↦ str_eq os agent_os
  ]

  -- `AND` between tests that may raise, from left to right.
  abbrev pub and_then : Option Bool → Option Bool → Option Bool
  and_then none b = none
  and_then (some false) b = some false
  and_then (some true) b = b

  -- The WHERE clause of the candidate query.
  unfoldable pub eligible : AgentRow → TaskRow → Option Bool
  eligible agent t = and_then (some (is_waiting t)) (
      and_then (some (fits_os t.constraints agent.os)) (
        and_then (fits_int t.constraints (codes "cpu_cores") agent.resources_cpu_cores)
          (fits_int t.constraints (codes "ram_mb") agent.resources_ram_mb)))

  -- The candidates in order of creation, at most `free_slots` of them.
  unfoldable pub candidates : AgentRow → ℤ → List TaskRow → Option (List TaskRow)
  candidates agent free_slots tasks = elim (select_where (eligible agent) tasks) [
    | none ↦ none
    | some rows ↦
        some (take (pos_part free_slots) (order_by (λ a b. leb a.created_at b.created_at) rows))
  ]

-- `UPDATE tasks ...` and `INSERT INTO task_assignments ...` for one dispatched task.
unfoldable pub assign : Bytes → ℕ → ℕ → Db → Db
assign agent_id now task_id db = record db {
  tasks =
      update_where (λ t. t.task_id == task_id)
        (λ t. record t { state = running; assigned_agent = some agent_id; started_at = some now })
        db.tasks;
  assignments =
      db.assignments
      ++ record {
        task_id = task_id;
        agent_id = agent_id;
        assigned_at = now;
        unassigned_at = none;
        reason = none;
      }
        ∷ [];
}

-- The loop over the dispatches.
unfoldable pub assign_all : Bytes → ℕ → List TaskRow → Db → Db
assign_all agent_id now [] db = db
assign_all agent_id now (t ∷ rows) db =
    assign_all agent_id now rows (assign agent_id now t.task_id db)

-- `UPDATE agents SET ... WHERE agent_id = $1`
abbrev pub set_agent : Bytes → (AgentRow → AgentRow) → Db → Db
set_agent agent_id f db = record db {
  agents = update_where (λ r. str_eq r.agent_id agent_id) f db.agents;
}

module _ (j : JsonLib) (pg : PgLib) where
  open j use {empty_object, array}

  unfoldable pub task_dispatch : TaskRow → TaskDispatch j
  task_dispatch r = record {
    task_id = r.task_id;
    command = r.command;
    args = parse_json_or_default j r.args (array []);
    env = parse_json_or_default j r.env empty_object;
    timeout_sec = r.timeout_sec;
    constraints = normalize_constraints j (parse_json_or_default j r.constraints empty_object);
  }

  -- The status that the agent gets: busy when it was given tasks.
  abbrev pub polled_status : List TaskRow → AgentStatus
  polled_status [] = idle
  polled_status (t ∷ rows) = busy

  unfoldable pub poll_tasks_for_agent :
      Bytes → ℤ → ℕ → Db → Outcome (Option (List (TaskDispatch j))) × Db
  poll_tasks_for_agent agent_id free_slots now db = elim (find_agent agent_id db.agents) [
    | none ↦ (returned none, db)
    | some agent ↦
        let seen = set_agent agent_id (λ r. record r { last_heartbeat = now }) db in
        if leb_ℤ free_slots (pos 0)
        then (returned (some []), seen)
        else elim (candidates pg agent free_slots db.tasks) [
          | none ↦ (threw pg.sql_error, db)
          | some rows ↦ (
            returned (some (map task_dispatch rows)),
            set_agent agent_id (λ r. record r { status = polled_status rows })
                (assign_all agent_id now rows seen),
          )
        ]
  ]
