-- ===== src/Broker/Postgres/Maintenance.antt =====
-- `MarkOfflineAgentsAndRequeue` of src/broker/pg_broker.cpp.
use distributed_computing.Prelude.{
  ◌==◌, ℕ, ◌+◌, ◌*◌, none, some, Bool, false, not, ◌&&◌, ◌||◌, List, [], ◌∷◌, Bytes, codes, ℤ,
  pos_part, neg_part, keep, length, ltb, if◌then◌else◌, str_eq,
}
use distributed_computing.Broker.Status.{
  AgentStatus.offline, TaskState.queued, TaskState.running, same_state, same_status,
}
use distributed_computing.Broker.Retry.{Outcome, returned, second}
use distributed_computing.Broker.Postgres.Schema.{
  AgentRow, TaskRow, AssignmentRow, Db, update_where, coalesce,
}
use distributed_computing.Broker.Postgres.Status.{is_none, closed}

-- `status <> 'Offline' AND last_heartbeat < NOW() - offline_after_sec * interval '1 second'`
abbrev pub is_stale : ℤ → ℕ → AgentRow → Bool
is_stale offline_after_sec now r =
    not (same_status r.status offline)
    && ltb (r.last_heartbeat + pos_part offline_after_sec * second)
        (now + neg_part offline_after_sec * second)

-- `assigned_agent = $1 AND state IN ('Running', 'Queued')`
abbrev pub is_held_by : Bytes → TaskRow → Bool
is_held_by agent_id t =
    (elim t.assigned_agent [ none ↦ false | some a ↦ str_eq a agent_id ])
    && (same_state t.state running || same_state t.state queued)

abbrev pub requeued : TaskRow → TaskRow
requeued t = record t {
  state = queued;
  assigned_agent = none;
  started_at = none;
  error_message = coalesce t.error_message (some (codes "agent_offline_requeued"));
}

abbrev pub is_open_of : Bytes → AssignmentRow → Bool
is_open_of agent_id r = str_eq r.agent_id agent_id && is_none r.unassigned_at

-- The three statements for one offline agent.
unfoldable pub mark_offline : ℕ → Bytes → Db → Db
mark_offline now agent_id db = record db {
  agents =
      update_where (λ r. str_eq r.agent_id agent_id) (λ r. record r { status = offline }) db.agents;
  assignments =
      update_where (is_open_of agent_id) (closed now (codes "agent_offline")) db.assignments;
  tasks = update_where (is_held_by agent_id) requeued db.tasks;
}

unfoldable pub mark_all_offline : ℕ → List AgentRow → Db → Db
mark_all_offline now [] db = db
mark_all_offline now (r ∷ rows) db = mark_all_offline now rows (mark_offline now r.agent_id db)

unfoldable pub mark_offline_agents_and_requeue : ℤ → ℕ → Db → Outcome ℕ × Db
mark_offline_agents_and_requeue offline_after_sec now db =
    let stale = keep (is_stale offline_after_sec now) db.agents in
    if length stale == 0
    then (returned 0, db)
    else (returned (length stale), mark_all_offline now stale db)
