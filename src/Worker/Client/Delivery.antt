-- ===== src/Worker/Client/Delivery.antt =====
-- The calls of src/worker/agent_client.cpp, delivered to the handlers of
-- src/master/control_service.cpp. The wire is the JSON library's text of each payload.
use distributed_computing.Prelude.{
  ℕ, ◌≤◌, ◌<◌, ◌≡◌, refl, ap, ◌∙◌, inl, inr, Bool, true, Option, none, some, List, [], ◌∷◌, map,
  Bytes, codes, ℤ, str_eq, str_eq_iff, All, Bool-cases,
}
use distributed_computing.Json.{JsonLib, IsJsonValues}
use distributed_computing.Json.Fields.{mapped}
use distributed_computing.Common.Numbers.{IsInt, to_string, int64_max}
use distributed_computing.Common.StringUtils.{sanitize_utf8_lossy}
use distributed_computing.Broker.Retry.{World, returned}
use distributed_computing.Broker.Status.{TaskState, task_state_to_api}
use distributed_computing.Broker.Types.{TaskDispatch, StatusReport}
use distributed_computing.Broker.Interface.{Broker}
use distributed_computing.Master.Mappers.Ids.{parse_task_id-to_string}
use distributed_computing.Master.Mappers.Parse.{accepted, ◌>>=◌, field_with}
use distributed_computing.Master.Mappers.Print.{object, task_dispatch_to_json}
use distributed_computing.Master.Service.{Request, Response, Handler, parse_json_body}
use distributed_computing.Master.Service.Agents.{handle_poll_tasks}
use distributed_computing.Master.Service.Tasks.{handle_update_task_status, checked_report}
use distributed_computing.Worker.Client.{
  Reply, HttpClient, status_payload, post_task_status, poll_tasks, is_success, read_tasks, sent,
}
use distributed_computing.Worker.Client.Reports.{IsIntIfAny, non_empty, parse-status_payload}
use distributed_computing.Worker.Client.Dispatches.{
  FitsWire, as_dispatched, read_items-task_dispatch_to_json,
}

module _ (j : JsonLib) where
  open j use {Json, parse, dump, string, number, empty_object, array}

  abbrev pub reply_of : Response j → Reply
  reply_of res = record { status = res.status; body = dump res.body }

  -- What the report says, as the broker gets it.
  abbrev pub as_report :
      TaskState → Option ℤ → Option Bytes → Option Bytes → Option Bytes → StatusReport
  as_report s code started finished message = record {
    state = s;
    exit_code = code;
    started_at = non_empty started;
    finished_at = non_empty finished;
    error_message = non_empty (mapped sanitize_utf8_lossy message);
  }

  pub parse_json_body-dump :
      (v : Json)
      → parse [] ≡ none
      → parse (dump v) ≡ some v
      → parse_json_body j (dump v) ≡ accepted v
  unfolding parse_json_body
  parse_json_body-dump v empty h = elim (Bool-cases (str_eq (dump v) [])) [
    | inl nil ↦
        let e : parse (dump v) ≡ none = ap parse ((str_eq_iff (dump v) []).0 nil) ∙ empty in
        absurd (cc (e, h))
    | inr other ↦ rw other (rw (h, parse_json_body) refl)
  ]

  module _ {S : Type 0} where
    -- A network that brings every call to one handler, with the capture of its route.
    abbrev pub deliver : (Request → Handler j S) → Bytes → HttpClient (World S)
    deliver handler id call w =
        let r = handler (record { id = id; params = []; body = call.body }) w in
        (some (reply_of r.0), r.1)

  abbrev pub slots_payload : ℤ → Json
  slots_payload slots = object j ((codes "free_slots", number slots) ∷ []) empty_object

  abbrev pub tasks_body : List (TaskDispatch j) → Json
  tasks_body ds =
      object j ((codes "tasks", array (map (task_dispatch_to_json j) ds)) ∷ []) empty_object

  one_field :
      (laws : IsJsonValues j) (test : Json → Bool) (key : Bytes) (v : Json)
      → test v ≡ true
      → field_with j test (object j ((key, v) ∷ []) empty_object) key ≡ some v
  unfolding field_with object
  one_field laws test key v h =
      rw (laws.field-set_field empty_object v key laws.is_object-empty_object, field_with, h) refl

  module _ {S : Type 0} (laws : IsJsonValues j) (broker : Broker j S) where
    handled_report :
        (n : ℕ) (s : TaskState) (code : Option ℤ) (started finished message : Option Bytes)
        (w : World S)
        → 0 < n
        → n ≤ int64_max
        → IsIntIfAny code
        → parse [] ≡ none
        → parse (dump (status_payload j (task_state_to_api s) code started finished message))
          ≡ some (status_payload j (task_state_to_api s) code started finished message)
        → handle_update_task_status j broker
            (record {
              id = to_string n;
              params = [];
              body = dump (status_payload j (task_state_to_api s) code started finished message);
            })
            w
          ≡ checked_report j broker n (as_report s code started finished message) w
    unfolding handle_update_task_status
    handled_report n s code started finished message w positive fits code_fits empty parsed =
        rw (parse_task_id-to_string n positive fits, handle_update_task_status)
          (rw (parse_json_body-dump _ empty parsed)
            (rw (parse-status_payload j laws s code started finished message code_fits) refl))

    -- For a JSON library that keeps its laws and gives the payload back, a report that the worker
    -- posts on a task number that is positive and fits 63 bits, with an exit code that fits an
    -- `int`, changes the master's world as the checked report of that content does, and the worker
    -- is told whether that succeeded.
    pub post_task_status-checked_report :
        (n : ℕ) (s : TaskState) (code : Option ℤ) (started finished message : Option Bytes)
        (w : World S)
        → 0 < n
        → n ≤ int64_max
        → IsIntIfAny code
        → parse [] ≡ none
        → parse (dump (status_payload j (task_state_to_api s) code started finished message))
          ≡ some (status_payload j (task_state_to_api s) code started finished message)
        → post_task_status j
            (deliver (handle_update_task_status j broker) (to_string n))
            (to_string n)
            (task_state_to_api s)
            code
            started
            finished
            message
            w
          ≡ (
            is_success (
                  some (
                    reply_of
                      (checked_report j broker n (as_report s code started finished message) w).0))
                >>= sent,
            (checked_report j broker n (as_report s code started finished message) w).1,
          )
    unfolding post_task_status
    post_task_status-checked_report n s code started finished message w positive fits code_fits
          empty parsed =
        ap (λ r. (is_success (some (reply_of r.0)) >>= sent, r.1))
          (handled_report n s code started finished message w positive fits code_fits empty parsed)

    handled_poll :
        (agent_id : Bytes) (slots : ℤ) (w w' : World S) (ds : List (TaskDispatch j))
        → IsInt slots
        → parse [] ≡ none
        → parse (dump (slots_payload slots)) ≡ some (slots_payload slots)
        → broker.poll_tasks_for_agent agent_id slots w ≡ (returned (some ds), w')
        → handle_poll_tasks j broker
            (record { id = agent_id; params = []; body = dump (slots_payload slots) })
            w
          ≡ (record { status = 200; body = tasks_body ds }, w')
    unfolding handle_poll_tasks
    handled_poll agent_id slots w w' ds fits empty parsed polled =
        rw (parse_json_body-dump _ empty parsed, handle_poll_tasks)
          (rw
            (one_field laws j.is_number_integer (codes "free_slots") (number slots)
              (laws.is_number_integer-number slots))
            (rw (laws.get_int-number slots fits) (rw polled refl)))

    read_tasks-tasks_body :
        (ds : List (TaskDispatch j))
        → All (FitsWire j) ds
        → parse (dump (tasks_body ds)) ≡ some (tasks_body ds)
        → read_tasks j (reply_of (record { status = 200; body = tasks_body ds }))
          ≡ accepted (map (as_dispatched j) ds)
    unfolding read_tasks
    read_tasks-tasks_body ds fits parsed =
        rw (parsed, read_tasks, ◌>>=◌)
          (rw
            (one_field laws j.is_array (codes "tasks") (array (map (task_dispatch_to_json j) ds))
              (laws.is_array-array (map (task_dispatch_to_json j) ds)))
            (rw (laws.items-array (map (task_dispatch_to_json j) ds))
              (read_items-task_dispatch_to_json j laws ds fits)))

    -- For a JSON library that keeps its laws and gives both payloads back, a poll that the worker
    -- posts gets the tasks that the broker gave, in their order, where their numbers fit their
    -- types.
    pub poll_tasks-as_dispatched :
        (agent_id : Bytes) (slots : ℤ) (w w' : World S) (ds : List (TaskDispatch j))
        → IsInt slots
        → All (FitsWire j) ds
        → parse [] ≡ none
        → parse (dump (slots_payload slots)) ≡ some (slots_payload slots)
        → parse (dump (tasks_body ds)) ≡ some (tasks_body ds)
        → broker.poll_tasks_for_agent agent_id slots w ≡ (returned (some ds), w')
        → poll_tasks j (deliver (handle_poll_tasks j broker) agent_id) agent_id slots w
          ≡ (accepted (map (as_dispatched j) ds), w')
    unfolding poll_tasks is_success
    poll_tasks-as_dispatched agent_id slots w w' ds slots_fit fits empty asked answered polled =
        ap (λ r. (is_success (some (reply_of r.0)) >>= read_tasks j, r.1))
          (handled_poll agent_id slots w w' ds slots_fit empty asked polled)
        ∙ ap (λ r. (r, w')) (read_tasks-tasks_body ds fits answered)
