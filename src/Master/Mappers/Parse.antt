-- ===== src/Master/Mappers/Parse.antt =====
-- The readers of request bodies in src/master/api_mappers.cpp.
use distributed_computing.Prelude.{
  Bool, Option, none, some, [], Bytes, codes, ℤ, keep, if◌then◌else◌, str_eq,
}
use distributed_computing.Json.{JsonLib}
use distributed_computing.Broker.Status.{agent_status_from_api, task_state_from_api}
use distributed_computing.Broker.Types.{AgentInput, AgentHeartbeat, TaskInput, StatusReport}

-- The result of a reader: a value, or what `*error` says.
pub data Parsed (A : Type 0) : Type 0 where
  accepted : A → Parsed A
  refused : Bytes → Parsed A

infixl 5 ◌>>=◌
abbrev pub ◌>>=◌ : {A B : Type 0} → Parsed A → (A → Parsed B) → Parsed B
accepted a >>= f = f a
refused m >>= f = refused m

module _ (j : JsonLib) where
  open j use {
    Json, field, is_object, is_array, is_string, is_number_integer, get_string, get_int, items,
    array, empty_object,
  }

  -- `body.contains(key) && test(body[key])`, with the value.
  unfoldable pub field_with : (Json → Bool) → Json → Bytes → Option Json
  field_with test body key = elim (field body key) [
    | none ↦ none
    | some v ↦ if test v then some v else none
  ]

  -- The same as a condition for going on.
  abbrev pub need : (Json → Bool) → Json → Bytes → Bytes → Parsed Json
  need test body key message = elim (field_with test body key) [
    | none ↦ refused message
    | some v ↦ accepted v
  ]

  unfoldable pub optional_non_empty_string_field : Json → Bytes → Option Bytes
  unfolding field_with
  optional_non_empty_string_field body key = elim (field_with is_string body key) [
    | none ↦ none
    | some v ↦ if str_eq (get_string v) [] then none else some (get_string v)
  ]

  unfoldable pub sanitize_string_array : Json → Json
  sanitize_string_array value =
      if is_array value then array (keep is_string (items value)) else array []

  unfoldable pub parse_agent_input : Bytes → Json → Parsed AgentInput
  unfolding field_with
  parse_agent_input agent_id body = do
    os ← need is_string body (codes "os") (codes "Missing required fields")
    version ← need is_string body (codes "version") (codes "Missing required fields")
    resources ← need is_object body (codes "resources") (codes "Missing required fields")
    cpu_cores ←
        need is_number_integer resources (codes "cpu_cores") (codes "Invalid resources payload")
    ram_mb ← need is_number_integer resources (codes "ram_mb") (codes "Invalid resources payload")
    slots ← need is_number_integer resources (codes "slots") (codes "Invalid resources payload")
    accepted (record {
      agent_id = agent_id;
      os = get_string os;
      version = get_string version;
      cpu_cores = get_int cpu_cores;
      ram_mb = get_int ram_mb;
      slots = get_int slots;
    })

  unfoldable pub parse_agent_heartbeat : Bytes → Json → Parsed AgentHeartbeat
  unfolding field_with
  parse_agent_heartbeat agent_id body = do
    status ← need is_string body (codes "status") (codes "Missing status")
    elim (agent_status_from_api (get_string status)) [
      | none ↦ refused (codes "Invalid agent status")
      | some parsed ↦ accepted (record { agent_id = agent_id; status = parsed })
    ]

  -- An optional integer: present and an integer, or nothing.
  abbrev pub optional_int : Json → Bytes → Option ℤ
  optional_int body key = elim (field_with is_number_integer body key) [
    | none ↦ none
    | some v ↦ some (get_int v)
  ]

  -- An optional object: present and an object, or the empty one.
  abbrev pub object_or_empty : Json → Bytes → Json
  object_or_empty body key = elim (field_with is_object body key) [
    | none ↦ empty_object
    | some v ↦ v
  ]

  unfoldable pub parse_task_create : Json → Parsed (TaskInput j)
  unfolding field_with sanitize_string_array
  parse_task_create body = do
    command ← need is_string body (codes "command") (codes "Missing command")
    accepted (record {
      command = get_string command;
      args = elim (field body (codes "args")) [
        | none ↦ array []
        | some v ↦ sanitize_string_array v
      ];
      env = object_or_empty body (codes "env");
      timeout_sec = optional_int body (codes "timeout_sec");
      constraints = object_or_empty body (codes "constraints");
    })

  unfoldable pub parse_task_status_update : Json → Parsed StatusReport
  unfolding field_with optional_non_empty_string_field
  parse_task_status_update body = do
    state ← need is_string body (codes "state") (codes "Missing state")
    elim (task_state_from_api (get_string state)) [
      | none ↦ refused (codes "Invalid task state")
      | some parsed ↦ accepted (record {
        state = parsed;
        exit_code = optional_int body (codes "exit_code");
        started_at = optional_non_empty_string_field body (codes "started_at");
        finished_at = optional_non_empty_string_field body (codes "finished_at");
        error_message = optional_non_empty_string_field body (codes "error_message");
      })
    ]
