-- ===== src/Broker/Status.antt =====
-- src/broker/status.hpp: agent and task states, and their spellings in the API and in the database.
pub mod Spelling
use distributed_computing.Prelude.{
  Option, none, some, [], Bytes, codes, str_eq, Bool, true, false, if◌then◌else◌,
}
use distributed_computing.Common.StringUtils.{to_lower_copy}

pub data AgentStatus : Type 0 where
  idle busy offline : AgentStatus

pub data TaskState : Type 0 where
  queued running succeeded failed canceled : TaskState

unfoldable pub agent_status_from_api : Bytes → Option AgentStatus
agent_status_from_api value =
    if str_eq value []
    then none
    else let lower = to_lower_copy value in
      if str_eq lower (codes "idle")
      then some idle
      else if str_eq lower (codes "busy")
      then some busy
      else if str_eq lower (codes "offline")
      then some offline
      else none

unfoldable pub task_state_from_api : Bytes → Option TaskState
task_state_from_api value =
    if str_eq value []
    then none
    else let lower = to_lower_copy value in
      if str_eq lower (codes "queued")
      then some queued
      else if str_eq lower (codes "running")
      then some running
      else if str_eq lower (codes "succeeded")
      then some succeeded
      else if str_eq lower (codes "failed")
      then some failed
      else if str_eq lower (codes "canceled")
      then some canceled
      else none

unfoldable pub agent_status_to_db : AgentStatus → Bytes
agent_status_to_db idle = codes "Idle"
agent_status_to_db busy = codes "Busy"
agent_status_to_db offline = codes "Offline"

unfoldable pub task_state_to_db : TaskState → Bytes
task_state_to_db queued = codes "Queued"
task_state_to_db running = codes "Running"
task_state_to_db succeeded = codes "Succeeded"
task_state_to_db failed = codes "Failed"
task_state_to_db canceled = codes "Canceled"

unfoldable pub agent_status_to_api : AgentStatus → Bytes
agent_status_to_api idle = codes "idle"
agent_status_to_api busy = codes "busy"
agent_status_to_api offline = codes "offline"

unfoldable pub task_state_to_api : TaskState → Bytes
task_state_to_api queued = codes "queued"
task_state_to_api running = codes "running"
task_state_to_api succeeded = codes "succeeded"
task_state_to_api failed = codes "failed"
task_state_to_api canceled = codes "canceled"

-- `a == b` on the enumerations.
abbrev pub same_state : TaskState → TaskState → Bool
same_state queued queued = true
same_state running running = true
same_state succeeded succeeded = true
same_state failed failed = true
same_state canceled canceled = true
same_state _ _ = false

abbrev pub same_status : AgentStatus → AgentStatus → Bool
same_status idle idle = true
same_status busy busy = true
same_status offline offline = true
same_status _ _ = false
