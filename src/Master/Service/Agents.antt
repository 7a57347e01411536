-- ===== src/Master/Service/Agents.antt =====
-- The agent handlers of src/master/control_service.cpp.
use distributed_computing.Prelude.{
  Option, none, some, [], ◌∷◌, map, Bytes, codes, ℤ, pos, if◌then◌else◌,
}
use distributed_computing.Json.{JsonLib}
use distributed_computing.Broker.Status.{AgentStatus, agent_status_from_api}
use distributed_computing.Broker.Interface.{Broker}
use distributed_computing.Master.Mappers.Parse.{
  parse_agent_input, parse_agent_heartbeat, field_with,
}
use distributed_computing.Master.Mappers.Print.{
  object, agent_record_to_json, agent_summary_to_json, task_dispatch_to_json,
}
use distributed_computing.Master.Service.{
  Request, Response, fail, bad_request, parse_json_body, get_query_param, get_query_param_int,
  Handler, answer, catch_db, with_parsed, with_json, with_some,
}

module _ (j : JsonLib) {S : Type 0} (broker : Broker j S) where
  open j use {Json, is_number_integer, get_int, empty_object, array, string, number}

  abbrev pub agent_not_found : Bytes → Response j
  agent_not_found agent_id =
      fail j 404 (codes "AGENT_NOT_FOUND") (codes "Agent not found")
        (object j ((codes "agent_id", string agent_id) ∷ []) empty_object)

  abbrev pub status_ok : Response j
  status_ok = record {
    status = 200;
    body = object j ((codes "status", string (codes "ok")) ∷ []) empty_object;
  }

  unfoldable pub handle_upsert_agent : ℤ → Request → Handler j S
  handle_upsert_agent heartbeat_interval_sec req = with_json j (parse_json_body j req.body) λ body.
      with_parsed j (parse_agent_input j req.id body) λ agent w.
        catch_db j (broker.upsert_agent agent w) λ _. answer j (record {
          status = 200;
          body =
              object j
                ((codes "status", string (codes "ok"))
                  ∷ (codes "heartbeat_interval_sec", number heartbeat_interval_sec)
                  ∷ [])
                empty_object;
        })

  unfoldable pub handle_agent_heartbeat : Request → Handler j S
  handle_agent_heartbeat req = with_json j (parse_json_body j req.body) λ body.
      with_parsed j (parse_agent_heartbeat j req.id body) λ heartbeat w.
        catch_db j (broker.update_heartbeat heartbeat w)
          λ found. answer j (if found then status_ok else agent_not_found req.id)

  unfoldable pub handle_poll_tasks : Request → Handler j S
  handle_poll_tasks req = with_json j (parse_json_body j req.body) λ body.
      with_some j (field_with j is_number_integer body (codes "free_slots"))
        (bad_request j (codes "Missing free_slots"))
        λ free_slots w.
          catch_db j (broker.poll_tasks_for_agent req.id (get_int free_slots) w) λ dispatches.
            with_some j dispatches (agent_not_found req.id) λ tasks. answer j (record {
              status = 200;
              body =
                  object j ((codes "tasks", array (map (task_dispatch_to_json j) tasks)) ∷ [])
                    empty_object;
            })

  unfoldable pub handle_get_agent : Request → Handler j S
  handle_get_agent req w = catch_db j (broker.get_agent req.id w) λ agent.
      with_some j agent (agent_not_found req.id) λ found. answer j (record {
        status = 200;
        body = object j ((codes "agent", agent_record_to_json j found) ∷ []) empty_object;
      })

  abbrev pub list_agents_of : Request → Option AgentStatus → Handler j S
  list_agents_of req status w =
      catch_db j
        (broker.list_agents status (get_query_param_int req.params (codes "limit") (pos 50))
          (get_query_param_int req.params (codes "offset") (pos 0)) w)
        λ agents. answer j (record {
          status = 200;
          body =
              object j ((codes "agents", array (map (agent_summary_to_json j) agents)) ∷ [])
                empty_object;
        })

  unfoldable pub handle_list_agents : Request → Handler j S
  handle_list_agents req = elim (get_query_param req.params (codes "status")) [
    | none ↦ list_agents_of req none
    | some text ↦
        with_some j (agent_status_from_api text) (bad_request j (codes "Invalid agent status"))
          λ parsed. list_agents_of req (some parsed)
  ]
