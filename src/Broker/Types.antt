-- ===== src/Broker/Types.antt =====
-- src/broker/broker.hpp: the records that cross the broker's interface. `int` fields are integers whose
-- width is not modelled; task identifiers are positive.
use distributed_computing.Prelude.{ℕ, Option, Bytes, ℤ}
use distributed_computing.Json.{JsonLib}
use distributed_computing.Broker.Status.{AgentStatus, TaskState}

pub record AgentInput : Type 0 where
  pub agent_id : Bytes
  pub os : Bytes
  pub version : Bytes
  pub cpu_cores : ℤ
  pub ram_mb : ℤ
  pub slots : ℤ

pub record AgentHeartbeat : Type 0 where
  pub agent_id : Bytes
  pub status : AgentStatus

pub record AgentRecord : Type 0 where
  pub agent_id : Bytes
  pub os : Bytes
  pub version : Bytes
  pub cpu_cores : ℤ
  pub ram_mb : ℤ
  pub slots : ℤ
  pub status : AgentStatus
  pub last_heartbeat : Bytes

pub record TaskSummary : Type 0 where
  pub task_id : ℕ
  pub state : TaskState

-- `TaskStatusUpdate` of master/api_mappers.hpp.
pub record StatusReport : Type 0 where
  pub state : TaskState
  pub exit_code : Option ℤ
  pub started_at : Option Bytes
  pub finished_at : Option Bytes
  pub error_message : Option Bytes

pub data CancelTaskResult : Type 0 where
  ok not_found invalid_state error : CancelTaskResult

module _ (j : JsonLib) where
  open j use {Json}

  pub record TaskInput : Type 0 where
    pub command : Bytes
    pub args : Json
    pub env : Json
    pub timeout_sec : Option ℤ
    pub constraints : Json

  pub record TaskRecord : Type 0 where
    pub task_id : ℕ
    pub state : TaskState
    pub command : Bytes
    pub args : Json
    pub env : Json
    pub timeout_sec : Option ℤ
    pub assigned_agent : Option Bytes
    pub created_at : Bytes
    pub started_at : Option Bytes
    pub finished_at : Option Bytes
    pub exit_code : Option ℤ
    pub error_message : Option Bytes
    pub constraints : Json

  pub record TaskDispatch : Type 0 where
    pub task_id : ℕ
    pub command : Bytes
    pub args : Json
    pub env : Json
    pub timeout_sec : Option ℤ
    pub constraints : Json
