-- ===== src/Master/Mappers/Print.antt =====
-- The printers of src/master/api_mappers.cpp.
use distributed_computing.Prelude.{
  Option, none, some, List, [], ◌∷◌, Bytes, codes, pos, if◌then◌else◌,
}
use distributed_computing.Json.{JsonLib}
use distributed_computing.Broker.Status.{agent_status_to_api, task_state_to_api}
use distributed_computing.Broker.Types.{AgentRecord, TaskRecord, TaskSummary, TaskDispatch}

module _ (j : JsonLib) where
  open j use {Json, set_field, is_null, empty_object, string, number}

  -- An object from its fields, assigned in order.
  unfoldable pub object : List (Bytes × Json) → Json → Json
  object [] payload = payload
  object ((key, value) ∷ fields) payload = object fields (set_field payload key value)

  -- `if (value) payload[key] = *value;`
  abbrev pub if_some {ℓ} : {A : Type ℓ} → (A → Json) → Bytes → Option A → Json → Json
  if_some to_json key none payload = payload
  if_some to_json key (some a) payload = set_field payload key (to_json a)

  unfoldable pub agent_record_to_json : AgentRecord → Json
  unfolding object
  agent_record_to_json agent =
      object
        ((codes "agent_id", string agent.agent_id)
          ∷ (codes "os", string agent.os)
          ∷ (codes "version", string agent.version)
          ∷ (
            codes "resources",
            object
                ((codes "cpu_cores", number agent.cpu_cores)
                  ∷ (codes "ram_mb", number agent.ram_mb)
                  ∷ (codes "slots", number agent.slots)
                  ∷ [])
                empty_object,
          )
          ∷ (codes "status", string (agent_status_to_api agent.status))
          ∷ (codes "last_heartbeat", string agent.last_heartbeat)
          ∷ [])
        empty_object

  unfoldable pub agent_summary_to_json : AgentRecord → Json
  unfolding object
  agent_summary_to_json agent =
      object
        ((codes "agent_id", string agent.agent_id)
          ∷ (codes "status", string (agent_status_to_api agent.status))
          ∷ [])
        empty_object

  unfoldable pub task_record_to_json : TaskRecord j → Json
  unfolding object
  task_record_to_json task =
      let head =
        object
          ((codes "task_id", number (pos task.task_id))
            ∷ (codes "state", string (task_state_to_api task.state))
            ∷ (codes "command", string task.command)
            ∷ (codes "args", task.args)
            ∷ (codes "env", task.env)
            ∷ [])
          empty_object in
      let assigned =
        if_some string (codes "assigned_agent") task.assigned_agent
          (if_some number (codes "timeout_sec") task.timeout_sec head) in
      let created = set_field assigned (codes "created_at") (string task.created_at) in
      let times =
        if_some string (codes "finished_at") task.finished_at
          (if_some string (codes "started_at") task.started_at created) in
      let ending =
        if_some string (codes "error_message") task.error_message
          (if_some number (codes "exit_code") task.exit_code times) in
      set_field ending (codes "constraints") task.constraints

  unfoldable pub task_summary_to_json : TaskSummary → Json
  unfolding object
  task_summary_to_json task =
      object
        ((codes "task_id", number (pos task.task_id))
          ∷ (codes "state", string (task_state_to_api task.state))
          ∷ [])
        empty_object

  unfoldable pub task_dispatch_to_json : TaskDispatch j → Json
  unfolding object
  task_dispatch_to_json task =
      let payload = if_some number (codes "timeout_sec") task.timeout_sec (
        object
          ((codes "task_id", number (pos task.task_id))
            ∷ (codes "command", string task.command)
            ∷ (codes "args", task.args)
            ∷ (codes "env", task.env)
            ∷ [])
          empty_object) in
      if is_null task.constraints
      then payload
      else set_field payload (codes "constraints") task.constraints
