-- ===== src/Master/Service/Run/Transactions.antt =====
-- The transactions behind the handlers of src/master/control_service.cpp.
use mathlib.Core.Option.{some-injective}
use distributed_computing.Json.{JsonLib}
use distributed_computing.Prelude.{
  keep, length, ℤ, negsuc, ◌==◌, ℕ, Option, none, some, true, ◌≡◌, refl, List, Bytes, arith,
  Bool-cases, Option-cases, inl, inr, ◌∙◌, sym, ap, if◌then◌else◌, pos,
}
use distributed_computing.Broker.Types.{AgentInput, AgentHeartbeat, StatusReport, TaskRecord}
use distributed_computing.Broker.Status.{
  TaskState, TaskState.queued, TaskState.running, TaskState.succeeded, TaskState.failed,
  TaskState.canceled, AgentStatus,
}
use distributed_computing.Broker.Retry.{returned}
use distributed_computing.Broker.Postgres.Schema.{
  update_where, AgentRow, TaskRow, Db, PgLib, find_task,
}
use distributed_computing.Broker.Postgres.Agents.{upsert_agent, update_heartbeat, list_agents}
use distributed_computing.Broker.Postgres.Tasks.{get_task, list_tasks, task_record}
use distributed_computing.Broker.Postgres.Status.{update_task_status, is_task, reported}
use distributed_computing.Broker.Postgres.History.{
  Follows, Follows-trans, find_task-update_where, find_task-id,
}
use distributed_computing.Broker.Postgres.Invariant.{Inv}
use distributed_computing.Broker.Postgres.Keeps.Cancelling.{read_task_state_lem}
use distributed_computing.Broker.Postgres.Keeps.Reporting.{IsAllowed, IsGuarded, report_cases}
use distributed_computing.Master.Mappers.{is_valid_task_state_transition}
use distributed_computing.Master.Service.{str_eq}

-- The check of the handler is the one that the transaction relies on.
pub is_valid_task_state_transition-IsAllowed :
    (from to : TaskState) → is_valid_task_state_transition from to ≡ true → IsAllowed from to
unfolding is_valid_task_state_transition
is_valid_task_state_transition-IsAllowed queued to h = ((λ e. absurd (cc e)), λ e. refl)
is_valid_task_state_transition-IsAllowed running to h = ((λ e. absurd (cc e)), λ e. ground arith)
is_valid_task_state_transition-IsAllowed succeeded to h = ((λ e. ground arith), λ e. ground arith)
is_valid_task_state_transition-IsAllowed failed to h = ((λ e. ground arith), λ e. ground arith)
is_valid_task_state_transition-IsAllowed canceled to h = ((λ e. ground arith), λ e. ground arith)

module _ (j : JsonLib) (pg : PgLib) (base : List TaskRow) where
  -- The tables are sound, and continue the earlier ones.
  abbrev pub Good : Db → Type 0
  Good db = Inv db × Follows base db.tasks

  -- A read leaves the tables alone.
  pub list_tasks_same :
      (state : Option TaskState) (agent : Option Bytes) (limit offset : ℤ) (now : ℕ) (db : Db)
      → (list_tasks pg state agent limit offset now db).1 ≡ db
  unfolding list_tasks
  list_tasks_same state agent (pos n) (pos m) now db = refl
  list_tasks_same state agent (pos n) (negsuc m) now db = refl
  list_tasks_same state agent (negsuc n) offset now db = refl

  pub list_agents_same :
      (status : Option AgentStatus) (limit offset : ℤ) (now : ℕ) (db : Db)
      → (list_agents pg status limit offset now db).1 ≡ db
  unfolding list_agents
  list_agents_same status (pos n) (pos m) now db = refl
  list_agents_same status (pos n) (negsuc m) now db = refl
  list_agents_same status (negsuc n) offset now db = refl

  -- The tables of the tasks are not the agents'.
  pub agents_only :
      (db : Db) (agents : List AgentRow) → Good db → Good (record db { agents = agents })
  agents_only db agents (v, f) = (record { ids = v.ids; free = v.free; backed = v.backed }, f)

  pub update_heartbeat-Good :
      (h : AgentHeartbeat) (now : ℕ) (db : Db) → Good db → Good (update_heartbeat h now db).1
  unfolding update_heartbeat
  update_heartbeat-Good h now db v =
      elim (Bool-cases
        (length (keep (λ (r : AgentRow). str_eq r.agent_id h.agent_id) db.agents) == 0)) [
          | inl unknown ↦ rw unknown v
          | inr known ↦ rw known (agents_only db _ v)
        ]

  pub upsert_agent-Good :
      (agent : AgentInput) (now : ℕ) (db : Db) → Good db → Good (upsert_agent agent now db).1
  unfolding upsert_agent
  upsert_agent-Good agent now db v = agents_only db _ v

  -- A transaction that keeps the invariant and continues the tasks.
  pub continued : (db after : Db) → Inv after → Follows db.tasks after.tasks → Good db → Good after
  continued db after v f (_, g) = (v, Follows-trans base db.tasks after.tasks g f)

  module _ (id : ℕ) where
    -- What the handler has read of the task, on the tables that are left.
    abbrev pub IsCurrent : Option (TaskRecord j) → Db → Type 0
    IsCurrent current db =
        (t : TaskRow) → find_task id db.tasks ≡ some t → current ≡ some (task_record j pg t)

    pub get_task-IsCurrent :
        (now : ℕ) (db : Db) (current : Option (TaskRecord j))
        → (get_task j pg id now db).0 ≡ returned current
        → IsCurrent current (get_task j pg id now db).1
    unfolding get_task
    get_task-IsCurrent now db current e t found = cc (rw found at e)

    pub read-IsGuarded :
        (task : TaskRecord j) (u : StatusReport) (db : Db)
        → IsCurrent (some task) db
        → is_valid_task_state_transition task.state u.state ≡ true
        → IsGuarded id u db
    unfolding task_record
    read-IsGuarded task u db current allowed t found =
        let same = some-injective task (task_record j pg t) (current t found) in
        let states : task.state ≡ t.state =
          ap (λ (x : TaskRecord j). x.state) same ∙ read_task_state_lem t.state in
        is_valid_task_state_transition-IsAllowed t.state u.state
          (ap (λ s. is_valid_task_state_transition s u.state) (sym states) ∙ allowed)

    pub update_task_status-IsGuarded :
        (u : StatusReport) (now : ℕ) (db : Db)
        → IsGuarded id u db
        → IsGuarded id u (update_task_status pg id u now db).1
    update_task_status-IsGuarded u now db h =
        report_cases (IsGuarded id u) pg id u now db h λ started finished _ t found.
          elim (Option-cases (find_task id db.tasks)) [
            | inl gone ↦ absurd (cc (rw (updated started finished db, gone) at found))
            | inr (r, there) ↦
                let chosen : is_task id r ≡ true =
                  ground (arith, find_task-id id db.tasks r there) in
                let same : u.state ≡ t.state =
                  ap (λ (x : TaskRow). x.state)
                    (some-injective (reported u started finished now r) t
                      (rw (updated started finished db, there, chosen) at found)) in
                ((λ final. same), λ to_queue. sym same ∙ to_queue)
          ]
      where
        updated :
            (started finished : Option ℕ) (db : Db)
            → find_task id (update_where (is_task id) (reported u started finished now) db.tasks)
              ≡ (elim (find_task id db.tasks) [
                | none ↦ none
                | some r ↦ some (if is_task id r then reported u started finished now r else r)
              ])
        updated started finished db =
            find_task-update_where (is_task id) (reported u started finished now) (λ x. refl) id
              db.tasks
