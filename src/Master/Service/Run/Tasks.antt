-- ===== src/Master/Service/Run/Tasks.antt =====
-- The task handlers of src/master/control_service.cpp over PostgreSQL.
use distributed_computing.Json.{JsonLib}
use distributed_computing.Prelude.{
  ℤ, ℕ, Option, none, some, Bool, List, Bool-cases, inl, inr, pos, codes,
}
use distributed_computing.Broker.Types.{StatusReport}
use distributed_computing.Broker.Status.{TaskState, task_state_from_api}
use distributed_computing.Broker.Retry.{execute_with_retry, World}
use distributed_computing.Broker.Retry.Laws.{execute_with_retry_keeps, execute_with_retry_returned}
use distributed_computing.Broker.Postgres.{pg_broker}
use distributed_computing.Broker.Postgres.Schema.{TaskRow, Db, PgLib}
use distributed_computing.Broker.Postgres.Tasks.{create_task, get_task, list_tasks}
use distributed_computing.Broker.Postgres.Status.{update_task_status, cancel_task}
use distributed_computing.Broker.Postgres.Keeps.Cancelling.{cancel_task-Inv, cancel_task-Follows}
use distributed_computing.Broker.Postgres.Keeps.Reporting.{
  IsGuarded, update_task_status-Inv, update_task_status-Follows,
}
use distributed_computing.Broker.Postgres.Keeps.Creation.{create_task-Inv, create_task-Follows}
use distributed_computing.Master.Mappers.{is_valid_task_state_transition, parse_task_id}
use distributed_computing.Master.Mappers.Parse.{parse_task_create, parse_task_status_update}
use distributed_computing.Master.Service.{
  Request, Handler, catch_db, parse_json_body, get_query_param, get_query_param_int, bad_request,
}
use distributed_computing.Master.Service.Tasks.{
  handle_create_task, handle_get_task, handle_list_tasks, list_tasks_of, handle_update_task_status,
  checked_report, handle_cancel_task, task_not_found,
}
use distributed_computing.Master.Service.Run.Keeps.{
  by_option-Keeps, Keeps, catch_db-Keeps, with_parsed-Keeps, with_json-Keeps, with_some-Keeps,
}
use distributed_computing.Master.Service.Run.Transactions.{
  get_task-IsCurrent, IsCurrent, read-IsGuarded, update_task_status-IsGuarded, list_tasks_same,
  continued, Good,
}
use distributed_computing.Master.Service.Run.Agents.{Sound, call-Keeps}

module _ (j : JsonLib) (pg : PgLib) (attempts cooldown : ℤ) (base : List TaskRow) where
  pub create-Keeps :
      (req : Request)
      → Keeps j
          (Sound j pg attempts cooldown base)
          (handle_create_task j (pg_broker j pg attempts cooldown) req)
  unfolding handle_create_task
  create-Keeps req =
      with_json-Keeps j (Sound j pg attempts cooldown base) (parse_json_body j req.body) _ λ body.
        with_parsed-Keeps j (Sound j pg attempts cooldown base) (parse_task_create j body) _
          λ task w h.
            (call-Keeps j pg attempts cooldown base) (create_task j pg task) _ w
              (λ now db v.
                continued j pg base db (create_task j pg task now db).1
                  (create_task-Inv j pg task now db v.0) (create_task-Follows j pg task now db) v)
              (λ a w k. k) h

  pub get_task-Keeps :
      (req : Request)
      → Keeps j
          (Sound j pg attempts cooldown base)
          (handle_get_task j (pg_broker j pg attempts cooldown) req)
  unfolding handle_get_task get_task
  get_task-Keeps req w h =
      with_some-Keeps j (Sound j pg attempts cooldown base) (parse_task_id req.id)
        (bad_request j (codes "Invalid task_id")) _ w h
        λ task_id _.
          (call-Keeps j pg attempts cooldown base) (get_task j pg task_id) _ w (λ now db v. v)
            (λ a w k.
              with_some-Keeps j (Sound j pg attempts cooldown base) a
                (task_not_found j (pg_broker j pg attempts cooldown) task_id) _ w k λ x e. k)
            h

  pub list_tasks_of-Keeps :
      (req : Request) (state : Option TaskState)
      → Keeps j
          (Sound j pg attempts cooldown base)
          (list_tasks_of j (pg_broker j pg attempts cooldown) req state)
  list_tasks_of-Keeps req state w h =
      (call-Keeps j pg attempts cooldown base)
        (list_tasks pg state (get_query_param req.params (codes "agent_id"))
          (get_query_param_int req.params (codes "limit") (pos 50))
          (get_query_param_int req.params (codes "offset") (pos 0)))
        _ w (λ now db v. rw (list_tasks_same j pg base state _ _ _ now db) v) (λ a w k. k) h

  pub list_tasks-Keeps :
      (req : Request)
      → Keeps j
          (Sound j pg attempts cooldown base)
          (handle_list_tasks j (pg_broker j pg attempts cooldown) req)
  unfolding handle_list_tasks
  list_tasks-Keeps req =
      by_option-Keeps j (Sound j pg attempts cooldown base)
        (get_query_param req.params (codes "state"))
        (list_tasks_of j (pg_broker j pg attempts cooldown) req none) _
        (list_tasks_of-Keeps req none)
        λ text w h.
          with_some-Keeps j (Sound j pg attempts cooldown base) (task_state_from_api text)
            (bad_request j (codes "Invalid task state")) _ w h
            λ parsed _. list_tasks_of-Keeps req (some parsed) w h

  pub cancel-Keeps :
      (req : Request)
      → Keeps j
          (Sound j pg attempts cooldown base)
          (handle_cancel_task j (pg_broker j pg attempts cooldown) req)
  unfolding handle_cancel_task
  cancel-Keeps req w h =
      with_some-Keeps j (Sound j pg attempts cooldown base) (parse_task_id req.id)
        (bad_request j (codes "Invalid task_id")) _ w h
        λ task_id _.
          (call-Keeps j pg attempts cooldown base) (cancel_task task_id) _ w
            (λ now db v.
              continued j pg base db (cancel_task task_id now db).1
                (cancel_task-Inv task_id now db v.0) (cancel_task-Follows task_id now db) v)
            (λ a w k. k) h

  -- A report that passed the check, on the tables that the check read.
  pub report-Keeps :
      (id : ℕ) (u : StatusReport) (continue : Bool → Handler j Db) (w : World Db)
      → IsGuarded id u w.store
      → ((a : Bool) → Keeps j (Sound j pg attempts cooldown base) (continue a))
      → (Sound j pg attempts cooldown base) w
      → (Sound j pg attempts cooldown base)
          (catch_db j
            (execute_with_retry attempts cooldown (update_task_status pg id u) w)
            continue).1
  report-Keeps id u continue w guarded next h =
      let kept =
        execute_with_retry_keeps (update_task_status pg id u)
          (λ db. Good j pg base db × IsGuarded id u db)
          (λ now db v. (
            continued j pg base db (update_task_status pg id u now db).1
                (update_task_status-Inv pg id u now db v.1 v.0.0)
                (update_task_status-Follows pg id u now db v.1) v.0,
            update_task_status-IsGuarded j pg base id u now db v.1,
          ))
          attempts cooldown w (h, guarded) in
      catch_db-Keeps j (Sound j pg attempts cooldown base)
        (execute_with_retry attempts cooldown (update_task_status pg id u) w) continue kept.0
        λ a e. next a _ kept.0

  pub get_task-Good :
      (id now : ℕ) (db : Db) → Good j pg base db → Good j pg base (get_task j pg id now db).1
  unfolding get_task
  get_task-Good id now db v = v

  pub checked-Keeps :
      (id : ℕ) (update : StatusReport)
      → Keeps j
          (Sound j pg attempts cooldown base)
          (checked_report j (pg_broker j pg attempts cooldown) id update)
  checked-Keeps id update w h =
      let read = execute_with_retry attempts cooldown (get_task j pg id) w in
      let kept : (Sound j pg attempts cooldown base) read.1 =
        execute_with_retry_keeps (get_task j pg id) (Good j pg base) (get_task-Good id) attempts
          cooldown w h in
      catch_db-Keeps j (Sound j pg attempts cooldown base) read _ kept λ current e.
        let fresh : IsCurrent j pg base id current read.1.store =
          execute_with_retry_returned (get_task j pg id) (Good j pg base) (get_task-Good id)
            (IsCurrent j pg base id) (λ now db c v. get_task-IsCurrent j pg base id now db c)
            attempts cooldown w current h e in
        with_some-Keeps j (Sound j pg attempts cooldown base) current
          (task_not_found j (pg_broker j pg attempts cooldown) id) _ read.1 kept
          λ task f. elim (Bool-cases (is_valid_task_state_transition task.state update.state)) [
            | inl allowed ↦ rw allowed (
                report-Keeps id update _ read.1
                  (read-IsGuarded j pg base id task update read.1.store (rw f at fresh) allowed)
                  (λ a w k. k) kept)
            | inr refused ↦ rw refused kept
          ]

  pub status-Keeps :
      (req : Request)
      → Keeps j
          (Sound j pg attempts cooldown base)
          (handle_update_task_status j (pg_broker j pg attempts cooldown) req)
  unfolding handle_update_task_status
  status-Keeps req w0 h0 =
      with_some-Keeps j (Sound j pg attempts cooldown base) (parse_task_id req.id)
        (bad_request j (codes "Invalid task_id")) _ w0 h0
        λ id _.
          with_json-Keeps j (Sound j pg attempts cooldown base) (parse_json_body j req.body) _
            (λ body.
              with_parsed-Keeps j (Sound j pg attempts cooldown base)
                (parse_task_status_update j body) _ (checked-Keeps id))
            w0 h0
