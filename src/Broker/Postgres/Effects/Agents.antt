-- ===== src/Broker/Postgres/Effects/Agents.antt =====
-- `UpsertAgent` of src/broker/pg_broker.cpp, read back by `GetAgent`.
use distributed_computing.Prelude.{
  ◌⊎◌, ℕ, ◌≡◌, refl, sym, true, false, none, some, List, [], ◌∷◌, Bytes, str_eq, str_eq_self,
  str_eq_iff, if◌then◌else◌, arith, Bool-cases, inl, inr, ap, ◌∙◌,
}
use distributed_computing.Broker.Status.Spelling.{agent_status_round_trip}
use distributed_computing.Broker.Types.{AgentInput, AgentRecord}
use distributed_computing.Broker.Status.{AgentStatus.idle}
use distributed_computing.Broker.Retry.{returned}
use distributed_computing.Broker.Postgres.Schema.{AgentRow, Db, PgLib, find_agent}
use distributed_computing.Broker.Postgres.Agents.{
  agent_row, upsert_row, upsert_agent, get_agent, agent_record,
}

find_agent-upsert_row :
    (new : AgentRow) (id : Bytes) (rows : List AgentRow)
    → find_agent id (upsert_row new rows)
      ≡ (if str_eq new.agent_id id then some new else find_agent id rows)
unfolding find_agent upsert_row
find_agent-upsert_row new id [] = refl
find_agent-upsert_row new id (r ∷ rows) = elim (Bool-cases (str_eq r.agent_id new.agent_id)) [
  | inl same ↦ rw (same, (str_eq_iff r.agent_id new.agent_id).0 same) (ground arith)
  | inr other ↦
      rw other
        (behind (Bool-cases (str_eq r.agent_id id)) other (find_agent-upsert_row new id rows))
]
  where
    behind :
        (str_eq r.agent_id id ≡ true) ⊎ (str_eq r.agent_id id ≡ false)
        → str_eq r.agent_id new.agent_id ≡ false
        → find_agent id (upsert_row new rows)
          ≡ (if str_eq new.agent_id id then some new else find_agent id rows)
        → (if str_eq r.agent_id id then some r else find_agent id (upsert_row new rows)) ≡ (
            if str_eq new.agent_id id
            then some new
            else if str_eq r.agent_id id
            then some r
            else find_agent id rows)
    behind (inl hit) other later =
        let apart : str_eq id new.agent_id ≡ false =
          rw ((str_eq_iff r.agent_id id).0 hit) at other in
        elim (Bool-cases (str_eq new.agent_id id)) [
          | inl same ↦
              absurd (cc (sym (rw ((str_eq_iff new.agent_id id).0 same) at apart) ∙ str_eq_self id))
          | inr differ ↦ rw (hit, differ) refl
        ]
    behind (inr miss) other later = rw (miss, later) refl

module _ (pg : PgLib) where
  -- What an agent that has just registered looks like.
  abbrev pub registered : AgentInput → ℕ → AgentRecord
  registered agent now = record {
    agent_id = agent.agent_id;
    os = agent.os;
    version = agent.version;
    cpu_cores = agent.cpu_cores;
    ram_mb = agent.ram_mb;
    slots = agent.slots;
    status = idle;
    last_heartbeat = pg.to_char now;
  }

  agent_record-agent_row :
      (agent : AgentInput) (now : ℕ) → agent_record pg (agent_row agent now) ≡ registered agent now
  unfolding agent_record
  agent_record-agent_row agent now =
      ap
        (λ s. record {
          agent_id = agent.agent_id;
          os = agent.os;
          version = agent.version;
          cpu_cores = agent.cpu_cores;
          ram_mb = agent.ram_mb;
          slots = agent.slots;
          status = elim s [ none ↦ idle | some t ↦ t ];
          last_heartbeat = pg.to_char now;
        })
        (agent_status_round_trip idle).0

  -- A registration succeeds; the agent is then read back idle with what it sent, whether it was known
  -- or not, and every other agent is read as before.
  pub get_agent-upsert_agent :
      (agent : AgentInput) (now later : ℕ) (db : Db) (id : Bytes)
      → ((upsert_agent agent now db).0 ≡ returned true)
        × ((get_agent pg id later (upsert_agent agent now db).1).0 ≡ (
            if str_eq agent.agent_id id
            then returned (some (registered agent now))
            else (get_agent pg id later db).0))
  unfolding upsert_agent get_agent agent_record
  get_agent-upsert_agent agent now later db id = (
    refl,
    elim (Bool-cases (str_eq agent.agent_id id)) [
      | inl same ↦
          rw (find_agent-upsert_row (agent_row agent now) id db.agents, same)
            (ap (λ r. returned (some r)) (agent_record-agent_row agent now))
      | inr other ↦ rw (find_agent-upsert_row (agent_row agent now) id db.agents, other) refl
    ],
  )
