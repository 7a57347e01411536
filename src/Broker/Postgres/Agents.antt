-- ===== src/Broker/Postgres/Agents.antt =====
-- The agent methods of src/broker/pg_broker.cpp.
use distributed_computing.Prelude.{
  ℕ, Option, none, some, Bool, true, false, List, [], ◌∷◌, map, Bytes, ℤ, keep, length,
  if◌then◌else◌, str_eq, ◌==◌,
}
use distributed_computing.Broker.Status.{
  AgentStatus, AgentStatus.idle, agent_status_from_api, agent_status_to_db, same_status,
}
use distributed_computing.Broker.Types.{AgentInput, AgentHeartbeat, AgentRecord}
use distributed_computing.Broker.Retry.{Outcome, returned, threw}
use distributed_computing.Broker.Postgres.Schema.{
  AgentRow, Db, PgLib, update_where, order_by, limit_offset, find_agent,
}

-- The row that INSERT writes, and that ON CONFLICT writes over.
abbrev pub agent_row : AgentInput → ℕ → AgentRow
agent_row agent now = record {
  agent_id = agent.agent_id;
  os = agent.os;
  version = agent.version;
  resources_cpu_cores = agent.cpu_cores;
  resources_ram_mb = agent.ram_mb;
  resources_slots = agent.slots;
  status = idle;
  last_heartbeat = now;
}

unfoldable pub upsert_row : AgentRow → List AgentRow → List AgentRow
upsert_row new [] = new ∷ []
upsert_row new (r ∷ rows) =
    if str_eq r.agent_id new.agent_id then new ∷ rows else r ∷ upsert_row new rows

unfoldable pub upsert_agent : AgentInput → ℕ → Db → Outcome Bool × Db
upsert_agent agent now db =
    (returned true, record db { agents = upsert_row (agent_row agent now) db.agents })

unfoldable pub update_heartbeat : AgentHeartbeat → ℕ → Db → Outcome Bool × Db
update_heartbeat heartbeat now db =
    let chosen = λ (r : AgentRow). str_eq r.agent_id heartbeat.agent_id in
    if length (keep chosen db.agents) == 0 then (returned false, db) else (
      returned true,
      record db {
        agents =
            update_where chosen (λ r. record r { status = heartbeat.status; last_heartbeat = now })
              db.agents;
      },
    )

-- `AgentStatusFromApi(row["status"].c_str()).value_or(AgentStatus::Idle)`
abbrev pub read_agent_status : AgentStatus → AgentStatus
read_agent_status s = elim (agent_status_from_api (agent_status_to_db s)) [
  | none ↦ idle
  | some t ↦ t
]

module _ (pg : PgLib) where
  unfoldable pub agent_record : AgentRow → AgentRecord
  agent_record r = record {
    agent_id = r.agent_id;
    os = r.os;
    version = r.version;
    cpu_cores = r.resources_cpu_cores;
    ram_mb = r.resources_ram_mb;
    slots = r.resources_slots;
    status = read_agent_status r.status;
    last_heartbeat = pg.to_char r.last_heartbeat;
  }

  unfoldable pub get_agent : Bytes → ℕ → Db → Outcome (Option AgentRecord) × Db
  unfolding agent_record find_agent
  get_agent agent_id now db = (
    returned
        (elim (find_agent agent_id db.agents) [ none ↦ none | some r ↦ some (agent_record r) ]),
    db,
  )

  unfoldable pub list_agents : Option AgentStatus → ℤ → ℤ → ℕ → Db → Outcome (List AgentRecord) × Db
  unfolding agent_record
  list_agents status limit offset now db =
      let chosen : AgentRow → Bool =
        λ r. elim status [ none ↦ true | some s ↦ same_status r.status s ] in
      let rows = order_by (λ a b. pg.collate_le a.agent_id b.agent_id) (keep chosen db.agents) in
      elim (limit_offset limit offset rows) [
        | none ↦ (threw pg.sql_error, db)
        | some page ↦ (returned (map agent_record page), db)
      ]
