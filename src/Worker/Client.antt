-- ===== src/Worker/Client.antt =====
-- src/worker/agent_client.cpp. The HTTP library is a parameter: what it answers to a call, if anything.
-- The headers and the timeouts are its business. The null tests on output pointers are left out: every
-- caller passes the address of a variable.
pub mod Reports
pub mod Dispatches
pub mod Delivery
use distributed_computing.Prelude.{
  ℕ, Bool, true, false, ◌&&◌, Option, none, some, List, [], ◌∷◌, ◌++◌, map, Bytes, codes, ℤ, pos,
  keep, leb, ltb, if◌then◌else◌,
}
use distributed_computing.Json.{JsonLib}
use distributed_computing.Common.Numbers.{to_string, to_string_long}
use distributed_computing.Common.StringUtils.{sanitize_utf8_lossy}
use distributed_computing.Master.Mappers.Parse.{
  Parsed, accepted, refused, ◌>>=◌, field_with, optional_int, object_or_empty,
}
use distributed_computing.Master.Mappers.Print.{object, if_some}

pub data Method : Type 0 where
  get put post : Method

pub record Call : Type 0 where
  pub method : Method
  pub path : Bytes
  pub body : Bytes

pub record Reply : Type 0 where
  pub status : ℕ
  pub body : Bytes

-- `httplib::Client`: nothing where the request fails.
abbrev pub HttpClient : Type 0 → Type 0
HttpClient S = Call → S → Option Reply × S

pub record AgentRegistration : Type 0 where
  pub agent_id : Bytes
  pub os : Bytes
  pub version : Bytes
  pub cpu_cores : ℤ
  pub ram_mb : ℤ
  pub slots : ℤ

unfoldable pub build_agent_path : Bytes → Bytes → Bytes
build_agent_path agent_id suffix = codes "/api/v1/agents/" ++ agent_id ++ suffix

unfoldable pub build_task_path : Bytes → Bytes → Bytes
build_task_path task_id suffix = codes "/api/v1/tasks/" ++ task_id ++ suffix

unfoldable pub is_success : Option Reply → Parsed Reply
is_success none = refused (codes "Request failed")
is_success (some res) =
    if leb 200 res.status && ltb res.status 300
    then accepted res
    else refused (codes "Unexpected status: " ++ to_string res.status ++ codes " body=" ++ res.body)

-- A call whose reply is read by `reader` when it is a success.
abbrev pub ask : {S A : Type 0} → HttpClient S → Call → (Reply → Parsed A) → S → Parsed A × S
ask http call reader s = let r = http call s in (is_success r.0 >>= reader, r.1)

abbrev pub sent : Reply → Parsed Unit
sent res = accepted tt

module _ (j : JsonLib) where
  open j use {
    Json, parse, parse_error, dump, field, items, is_object, is_array, is_string, is_number_integer,
    get_string, get_int, get_int64, type_error, empty_object, string, number,
  }

  pub record DispatchedTask : Type 0 where
    pub task_id : Bytes
    pub command : Bytes
    pub args : List Bytes
    pub env : Json
    pub timeout_sec : Option ℤ
    pub constraints : Json

  -- The body of a reply, or the message of the failed parse behind `prefix`.
  abbrev pub parsed_body : Bytes → Reply → Parsed Json
  parsed_body prefix res = elim (parse res.body) [
    | none ↦ refused (prefix ++ parse_error res.body)
    | some body ↦ accepted body
  ]

  -- `value.get<std::string>()`, inside the `try` whose message starts with `prefix`.
  abbrev pub need_string : Bytes → Json → Parsed Bytes
  need_string prefix value =
      if is_string value then accepted (get_string value) else refused (prefix ++ type_error value)

  unfoldable pub registration_payload : AgentRegistration → Json
  unfolding object
  registration_payload reg =
      object j
        ((codes "os", string reg.os)
          ∷ (codes "version", string reg.version)
          ∷ (
            codes "resources",
            object j
                ((codes "cpu_cores", number reg.cpu_cores)
                  ∷ (codes "ram_mb", number reg.ram_mb)
                  ∷ (codes "slots", number reg.slots)
                  ∷ [])
                empty_object,
          )
          ∷ [])
        empty_object

  -- The interval that the master asks for, 0 if it names none.
  unfoldable pub read_heartbeat_interval : Reply → Parsed ℤ
  unfolding field_with
  read_heartbeat_interval res = do
    body ← parsed_body (codes "Failed to parse register response: ") res
    elim (optional_int j body (codes "heartbeat_interval_sec")) [
      | none ↦ accepted (pos 0)
      | some interval ↦ accepted interval
    ]

  -- One turn of the loop over the tasks; nothing for an item that is passed over.
  unfoldable pub read_item : Json → Parsed (Option DispatchedTask)
  unfolding field_with
  read_item item = elim (field item (codes "task_id")) [
    | none ↦ accepted none
    | some task_id ↦ elim (field item (codes "command")) [
      | none ↦ accepted none
      | some command ↦
          if is_number_integer task_id
          then (need_string (codes "Failed to parse tasks: ") command >>= λ text. accepted (
              some (record {
                task_id = to_string_long (get_int64 task_id);
                command = text;
                args = elim (field_with j is_array item (codes "args")) [
                  | none ↦ []
                  | some args ↦ map get_string (keep is_string (items args))
                ];
                env = object_or_empty j item (codes "env");
                timeout_sec = optional_int j item (codes "timeout_sec");
                constraints = object_or_empty j item (codes "constraints");
              })))
          else accepted none
    ]
  ]

  -- `tasks->push_back`, if there is a task.
  abbrev pub push_found : Option DispatchedTask → List DispatchedTask → List DispatchedTask
  push_found none tasks = tasks
  push_found (some task) tasks = task ∷ tasks

  unfoldable pub read_items : List Json → Parsed (List DispatchedTask)
  unfolding read_item
  read_items [] = accepted []
  read_items (item ∷ rest) = do
    found ← read_item item
    tasks ← read_items rest
    accepted (push_found found tasks)

  unfoldable pub read_tasks : Reply → Parsed (List DispatchedTask)
  unfolding field_with read_items
  read_tasks res = do
    body ← parsed_body (codes "Failed to parse tasks: ") res
    elim (field_with j is_array body (codes "tasks")) [
      | none ↦ refused (codes "Invalid response: tasks array missing")
      | some tasks ↦ read_items (items tasks)
    ]

  unfoldable pub status_payload :
      Bytes → Option ℤ → Option Bytes → Option Bytes → Option Bytes → Json
  unfolding object
  status_payload state exit_code started_at finished_at error_message =
      if_some j (λ text. string (sanitize_utf8_lossy text)) (codes "error_message") error_message
        (if_some j string (codes "finished_at") finished_at (
          if_some j string (codes "started_at") started_at (
            if_some j number (codes "exit_code") exit_code
              (object j ((codes "state", string state) ∷ []) empty_object))))

  unfoldable pub log_payload : Bytes → Bytes → Json
  unfolding object
  log_payload stream data_ =
      object j
        ((codes "stream", string stream) ∷ (codes "data", string (sanitize_utf8_lossy data_)) ∷ [])
        empty_object

  unfoldable pub read_state : Reply → Parsed Bytes
  unfolding field_with
  read_state res = do
    body ← parsed_body (codes "Failed to parse task state: ") res
    elim (field_with j is_object body (codes "task")) [
      | none ↦ refused (codes "Invalid task state response")
      | some task ↦ elim (field task (codes "state")) [
        | none ↦ refused (codes "Invalid task state response")
        | some state ↦ need_string (codes "Failed to parse task state: ") state
      ]
    ]

  -- `Post` of a payload.
  abbrev pub posting : Bytes → Json → Call
  posting path payload = record { method = post; path = path; body = dump payload }

  abbrev pub heartbeat_call : Bytes → Bytes → Call
  heartbeat_call agent_id status =
      posting (build_agent_path agent_id (codes "/heartbeat"))
        (object j ((codes "status", string status) ∷ []) empty_object)

  abbrev pub status_call :
      Bytes → Bytes → Option ℤ → Option Bytes → Option Bytes → Option Bytes → Call
  status_call task_id state exit_code started_at finished_at error_message =
      posting (build_task_path task_id (codes "/status"))
        (status_payload state exit_code started_at finished_at error_message)

  abbrev pub log_call : Bytes → Bytes → Bytes → Call
  log_call task_id stream data_ =
      posting (build_task_path task_id (codes "/logs:upload")) (log_payload stream data_)

  abbrev pub state_call : Bytes → Call
  state_call task_id = record { method = get; path = build_task_path task_id []; body = [] }

  module _ {S : Type 0} (http : HttpClient S) where
    unfoldable pub register_agent : AgentRegistration → S → Parsed ℤ × S
    register_agent reg =
        ask http
          (record {
            method = put;
            path = build_agent_path reg.agent_id [];
            body = dump (registration_payload reg);
          })
          read_heartbeat_interval

    unfoldable pub send_heartbeat : Bytes → Bytes → S → Parsed Unit × S
    send_heartbeat agent_id status = ask http (heartbeat_call agent_id status) sent

    unfoldable pub poll_tasks : Bytes → ℤ → S → Parsed (List DispatchedTask) × S
    poll_tasks agent_id free_slots =
        ask http
          (posting (build_agent_path agent_id (codes "/tasks:poll"))
            (object j ((codes "free_slots", number free_slots) ∷ []) empty_object))
          read_tasks

    unfoldable pub post_task_status :
        Bytes → Bytes → Option ℤ → Option Bytes → Option Bytes → Option Bytes → S → Parsed Unit × S
    post_task_status task_id state exit_code started_at finished_at error_message =
        ask http (status_call task_id state exit_code started_at finished_at error_message) sent

    unfoldable pub upload_task_log : Bytes → Bytes → Bytes → S → Parsed Unit × S
    upload_task_log task_id stream data_ = ask http (log_call task_id stream data_) sent

    unfoldable pub get_task_state : Bytes → S → Parsed Bytes × S
    get_task_state task_id = ask http (state_call task_id) read_state
