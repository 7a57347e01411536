-- ===== src/Broker/Interface.antt =====
-- The abstract class `Broker` of src/broker/broker.hpp: what the control service calls, over a store `S`.
use distributed_computing.Prelude.{ℕ, Option, Bool, List, Bytes, ℤ}
use distributed_computing.Json.{JsonLib}
use distributed_computing.Broker.Status.{AgentStatus, TaskState}
use distributed_computing.Broker.Types.{
  AgentInput, AgentHeartbeat, AgentRecord, TaskInput, TaskRecord, TaskSummary, TaskDispatch,
  StatusReport, CancelTaskResult,
}
use distributed_computing.Broker.Retry.{Outcome, World}

abbrev pub Call : Type 0 → Type 0 → Type 0
Call S A = World S → Outcome A × World S

pub record Broker (j : JsonLib) (S : Type 0) : Type 0 where
  pub upsert_agent : AgentInput → Call S Bool
  pub update_heartbeat : AgentHeartbeat → Call S Bool
  pub get_agent : Bytes → Call S (Option AgentRecord)
  pub list_agents : Option AgentStatus → ℤ → ℤ → Call S (List AgentRecord)
  pub create_task : TaskInput j → Call S ℕ
  pub get_task : ℕ → Call S (Option (TaskRecord j))
  pub list_tasks : Option TaskState → Option Bytes → ℤ → ℤ → Call S (List TaskSummary)
  pub poll_tasks_for_agent : Bytes → ℤ → Call S (Option (List (TaskDispatch j)))
  pub update_task_status : ℕ → StatusReport → Call S Bool
  pub cancel_task : ℕ → Call S CancelTaskResult
  pub mark_offline_agents_and_requeue : ℤ → Call S ℕ
