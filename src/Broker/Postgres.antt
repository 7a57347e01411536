-- ===== src/Broker/Postgres.antt =====
-- src/broker/pg_broker.cpp over the tables of migrations_broker_pg. Each method is a transaction, a function
-- of the time at which it starts and of the tables, under `execute_with_retry`. Transactions are
-- serial: what row locks and `SKIP LOCKED` do among concurrent ones is not modelled.
pub mod Schema
pub mod Agents
pub mod Tasks
pub mod Poll
pub mod Status
pub mod Maintenance
pub mod Sql
pub mod Connection
pub mod History
pub mod Ids
pub mod Invariant
pub mod Keeps
pub mod Effects
use distributed_computing.Prelude.{ℤ}
use distributed_computing.Json.{JsonLib}
use distributed_computing.Broker.Interface.{Broker}
use distributed_computing.Broker.Retry.{execute_with_retry}
use Schema.{Db, PgLib}

-- `PgBroker`: each method under the retry loop.
module _ (j : JsonLib) (pg : PgLib) (reconnect_attempts reconnect_cooldown_sec : ℤ) where
  abbrev pub pg_broker : Broker j Db
  pg_broker = record {
    upsert_agent = λ agent.
        execute_with_retry reconnect_attempts reconnect_cooldown_sec (Agents.upsert_agent agent);
    update_heartbeat = λ h.
        execute_with_retry reconnect_attempts reconnect_cooldown_sec (Agents.update_heartbeat h);
    get_agent =
        λ id. execute_with_retry reconnect_attempts reconnect_cooldown_sec (Agents.get_agent pg id);
    list_agents = λ status limit offset.
        execute_with_retry reconnect_attempts reconnect_cooldown_sec
          (Agents.list_agents pg status limit offset);
    create_task = λ task.
        execute_with_retry reconnect_attempts reconnect_cooldown_sec (Tasks.create_task j pg task);
    get_task =
        λ id. execute_with_retry reconnect_attempts reconnect_cooldown_sec (Tasks.get_task j pg id);
    list_tasks = λ state agent limit offset.
        execute_with_retry reconnect_attempts reconnect_cooldown_sec
          (Tasks.list_tasks pg state agent limit offset);
    poll_tasks_for_agent = λ id slots.
        execute_with_retry reconnect_attempts reconnect_cooldown_sec
          (Poll.poll_tasks_for_agent j pg id slots);
    update_task_status = λ id u.
        execute_with_retry reconnect_attempts reconnect_cooldown_sec
          (Status.update_task_status pg id u);
    cancel_task =
        λ id. execute_with_retry reconnect_attempts reconnect_cooldown_sec (Status.cancel_task id);
    mark_offline_agents_and_requeue = λ after.
        execute_with_retry reconnect_attempts reconnect_cooldown_sec
          (Maintenance.mark_offline_agents_and_requeue after);
  }
