-- ===== src/Master/Service/Tasks.antt =====
-- The task handlers of src/master/control_service.cpp.
use distributed_computing.Prelude.{
  ℕ, Option, none, some, [], ◌∷◌, map, codes, pos, ◌==◌, if◌then◌else◌,
}
use distributed_computing.Json.{JsonLib}
use distributed_computing.Broker.Status.{TaskState, task_state_from_api, task_state_to_api}
use distributed_computing.Broker.Types.{
  StatusReport, CancelTaskResult, CancelTaskResult.ok, CancelTaskResult.not_found,
  CancelTaskResult.invalid_state, CancelTaskResult.error,
}
use distributed_computing.Broker.Interface.{Broker}
use distributed_computing.Master.Mappers.{parse_task_id, is_valid_task_state_transition}
use distributed_computing.Master.Mappers.Parse.{parse_task_create, parse_task_status_update}
use distributed_computing.Master.Mappers.Print.{object, task_record_to_json, task_summary_to_json}
use distributed_computing.Master.Service.{
  Request, Response, fail, bad_request, parse_json_body, get_query_param, get_query_param_int,
  Handler, answer, catch_db, with_parsed, with_json, with_some,
}
use distributed_computing.Master.Service.Agents.{status_ok}

module _ (j : JsonLib) {S : Type 0} (broker : Broker j S) where
  open j use {Json, empty_object, array, string, number}

  abbrev pub about_task : ℕ → Json
  about_task task_id = object j ((codes "task_id", number (pos task_id)) ∷ []) empty_object

  abbrev pub task_not_found : ℕ → Response j
  task_not_found task_id =
      fail j 404 (codes "TASK_NOT_FOUND") (codes "Task not found") (about_task task_id)

  unfoldable pub handle_create_task : Request → Handler j S
  handle_create_task req = with_json j (parse_json_body j req.body) λ body.
      with_parsed j (parse_task_create j body) λ task w.
        catch_db j (broker.create_task task w) λ created_task_id. answer j (
          if created_task_id == 0
          then fail j 500 (codes "DB_ERROR") (codes "Failed to create task") empty_object
          else record { status = 201; body = about_task created_task_id })

  unfoldable pub handle_get_task : Request → Handler j S
  handle_get_task req =
      with_some j (parse_task_id req.id) (bad_request j (codes "Invalid task_id")) λ task_id w.
        catch_db j (broker.get_task task_id w) λ task.
          with_some j task (task_not_found task_id) λ found. answer j (record {
            status = 200;
            body = object j ((codes "task", task_record_to_json j found) ∷ []) empty_object;
          })

  abbrev pub list_tasks_of : Request → Option TaskState → Handler j S
  list_tasks_of req state w =
      catch_db j
        (broker.list_tasks state (get_query_param req.params (codes "agent_id"))
          (get_query_param_int req.params (codes "limit") (pos 50))
          (get_query_param_int req.params (codes "offset") (pos 0)) w)
        λ tasks. answer j (record {
          status = 200;
          body =
              object j ((codes "tasks", array (map (task_summary_to_json j) tasks)) ∷ [])
                empty_object;
        })

  unfoldable pub handle_list_tasks : Request → Handler j S
  handle_list_tasks req = elim (get_query_param req.params (codes "state")) [
    | none ↦ list_tasks_of req none
    | some text ↦
        with_some j (task_state_from_api text) (bad_request j (codes "Invalid task state"))
          λ parsed. list_tasks_of req (some parsed)
  ]

  -- The handler behind the parsing: the task is read, the transition checked, the report written.
  abbrev pub checked_report : ℕ → StatusReport → Handler j S
  checked_report task_id update w = catch_db j (broker.get_task task_id w) λ current.
      with_some j current (task_not_found task_id) λ task w'.
        if is_valid_task_state_transition task.state update.state
        then (catch_db j (broker.update_task_status task_id update w')
            λ found. answer j (if found then status_ok j broker else task_not_found task_id))
        else answer j
            (fail j 409 (codes "INVALID_STATE_TRANSITION") (codes "Invalid task state transition") (
              object j
                ((codes "from", string (task_state_to_api task.state))
                  ∷ (codes "to", string (task_state_to_api update.state))
                  ∷ [])
                empty_object))
            w'

  unfoldable pub handle_update_task_status : Request → Handler j S
  handle_update_task_status req =
      with_some j (parse_task_id req.id) (bad_request j (codes "Invalid task_id")) λ task_id.
        with_json j (parse_json_body j req.body)
          λ body. with_parsed j (parse_task_status_update j body) (checked_report task_id)

  abbrev pub cancel_response : ℕ → CancelTaskResult → Response j
  cancel_response task_id ok = status_ok j broker
  cancel_response task_id not_found = task_not_found task_id
  cancel_response task_id invalid_state =
      fail j 409 (codes "TASK_INVALID_STATE") (codes "Task already finished; cannot cancel")
        (about_task task_id)
  cancel_response task_id error =
      fail j 500 (codes "DB_ERROR") (codes "Failed to cancel task") empty_object

  unfoldable pub handle_cancel_task : Request → Handler j S
  handle_cancel_task req =
      with_some j (parse_task_id req.id) (bad_request j (codes "Invalid task_id")) λ task_id w.
        catch_db j (broker.cancel_task task_id w)
          λ result. answer j (cancel_response task_id result)
