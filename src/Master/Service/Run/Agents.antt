-- ===== src/Master/Service/Run/Agents.antt =====
-- The agent handlers of src/master/control_service.cpp over PostgreSQL.
use distributed_computing.Json.{JsonLib}
use distributed_computing.Prelude.{ℤ, ℕ, Option, none, some, List, pos, codes}
use distributed_computing.Broker.Status.{AgentStatus, agent_status_from_api}
use distributed_computing.Broker.Retry.{execute_with_retry, Outcome, World}
use distributed_computing.Broker.Retry.Laws.{execute_with_retry_keeps}
use distributed_computing.Broker.Postgres.{pg_broker}
use distributed_computing.Broker.Postgres.Schema.{TaskRow, Db, PgLib}
use distributed_computing.Broker.Postgres.Poll.{poll_tasks_for_agent}
use distributed_computing.Broker.Postgres.Agents.{
  upsert_agent, update_heartbeat, get_agent, list_agents,
}
use distributed_computing.Broker.Postgres.Keeps.Dispatch.{
  poll_tasks_for_agent-Inv, poll_tasks_for_agent-Follows,
}
use distributed_computing.Master.Mappers.Parse.{
  parse_agent_input, parse_agent_heartbeat, field_with,
}
use distributed_computing.Master.Service.{
  Request, Handler, catch_db, parse_json_body, get_query_param, get_query_param_int, bad_request,
}
use distributed_computing.Master.Service.Agents.{
  handle_upsert_agent, handle_agent_heartbeat, handle_poll_tasks, handle_get_agent,
  handle_list_agents, list_agents_of, agent_not_found,
}
use distributed_computing.Master.Service.Run.{Broker}
use distributed_computing.Master.Service.Run.Keeps.{
  by_option-Keeps, Keeps, catch_db-Keeps, with_parsed-Keeps, with_json-Keeps, with_some-Keeps,
}
use distributed_computing.Master.Service.Run.Transactions.{
  continued, list_agents_same, update_heartbeat-Good, Good, upsert_agent-Good,
}

module _ (j : JsonLib) (pg : PgLib) (attempts cooldown : ℤ) (base : List TaskRow) where
  abbrev pub Sound : World Db → Type 0
  Sound w = Good j pg base w.store

  abbrev pub broker : Broker j Db
  broker = pg_broker j pg attempts cooldown

  -- A call whose transaction keeps the tables sound, before an answer.
  pub call-Keeps :
      {A : Type 0} (fn : ℕ → Db → Outcome A × Db) (continue : A → Handler j Db) (w : World Db)
      → ((now : ℕ) (db : Db) → Good j pg base db → Good j pg base (fn now db).1)
      → ((a : A) → Keeps j Sound (continue a))
      → Sound w
      → Sound (catch_db j (execute_with_retry attempts cooldown fn w) continue).1
  call-Keeps fn continue w kept next h =
      catch_db-Keeps j Sound (execute_with_retry attempts cooldown fn w) continue
        (execute_with_retry_keeps fn (Good j pg base) kept attempts cooldown w h)
        λ a e.
          next a (execute_with_retry attempts cooldown fn w).1
            (execute_with_retry_keeps fn (Good j pg base) kept attempts cooldown w h)

  pub upsert-Keeps :
      (interval : ℤ) (req : Request) → Keeps j Sound (handle_upsert_agent j broker interval req)
  unfolding handle_upsert_agent
  upsert-Keeps interval req = with_json-Keeps j Sound (parse_json_body j req.body) _ λ body.
      with_parsed-Keeps j Sound (parse_agent_input j req.id body) _ λ agent w h.
        call-Keeps (upsert_agent agent) _ w (upsert_agent-Good j pg base agent) (λ a w k. k) h

  pub heartbeat-Keeps : (req : Request) → Keeps j Sound (handle_agent_heartbeat j broker req)
  unfolding handle_agent_heartbeat
  heartbeat-Keeps req = with_json-Keeps j Sound (parse_json_body j req.body) _ λ body.
      with_parsed-Keeps j Sound (parse_agent_heartbeat j req.id body) _ λ heartbeat w h.
        call-Keeps (update_heartbeat heartbeat) _ w (update_heartbeat-Good j pg base heartbeat)
          (λ a w k. k) h

  pub poll-Keeps : (req : Request) → Keeps j Sound (handle_poll_tasks j broker req)
  unfolding handle_poll_tasks
  poll-Keeps req = with_json-Keeps j Sound (parse_json_body j req.body) _ λ body w h.
      with_some-Keeps j Sound (field_with j j.is_number_integer body (codes "free_slots"))
        (bad_request j (codes "Missing free_slots")) _ w h
        λ free_slots _.
          call-Keeps (poll_tasks_for_agent j pg req.id (j.get_int free_slots)) _ w
            (λ now db v.
              continued j pg base db
                (poll_tasks_for_agent j pg req.id (j.get_int free_slots) now db).1
                (poll_tasks_for_agent-Inv j pg req.id (j.get_int free_slots) now db v.0)
                (poll_tasks_for_agent-Follows j pg req.id (j.get_int free_slots) now db v.0) v)
            (λ dispatches w k.
              with_some-Keeps j Sound dispatches (agent_not_found j broker req.id) _ w k λ x e. k)
            h

  pub get_agent-Keeps : (req : Request) → Keeps j Sound (handle_get_agent j broker req)
  unfolding handle_get_agent get_agent
  get_agent-Keeps req w h =
      call-Keeps (get_agent pg req.id) _ w (λ now db v. v)
        (λ a w k. with_some-Keeps j Sound a (agent_not_found j broker req.id) _ w k λ x e. k) h

  pub list_agents_of-Keeps :
      (req : Request) (status : Option AgentStatus)
      → Keeps j Sound (list_agents_of j broker req status)
  list_agents_of-Keeps req status w h =
      call-Keeps
        (list_agents pg status (get_query_param_int req.params (codes "limit") (pos 50))
          (get_query_param_int req.params (codes "offset") (pos 0)))
        _ w (λ now db v. rw (list_agents_same j pg base status _ _ now db) v) (λ a w k. k) h

  pub list_agents-Keeps : (req : Request) → Keeps j Sound (handle_list_agents j broker req)
  unfolding handle_list_agents
  list_agents-Keeps req =
      by_option-Keeps j Sound (get_query_param req.params (codes "status"))
        (list_agents_of j broker req none) _ (list_agents_of-Keeps req none)
        λ text w h.
          with_some-Keeps j Sound (agent_status_from_api text)
            (bad_request j (codes "Invalid agent status")) _ w h
            λ parsed _. list_agents_of-Keeps req (some parsed) w h
