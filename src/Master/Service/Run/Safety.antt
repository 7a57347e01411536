-- ===== src/Master/Service/Run/Safety.antt =====
-- Histories of src/master/control_service.cpp over PostgreSQL.
use distributed_computing.Json.{JsonLib}
use distributed_computing.Prelude.{ℤ, List, [], ◌∷◌}
use distributed_computing.Broker.Retry.{World}
use distributed_computing.Broker.Retry.Laws.{execute_with_retry_keeps}
use distributed_computing.Broker.Postgres.{pg_broker}
use distributed_computing.Broker.Postgres.Schema.{TaskRow, Db, PgLib}
use distributed_computing.Broker.Postgres.History.{Follows, Follows-refl}
use distributed_computing.Broker.Postgres.Invariant.{Inv}
use distributed_computing.Broker.Postgres.Keeps.Sweeping.{
  mark_offline_agents_and_requeue-Inv, mark_offline_agents_and_requeue-Follows,
}
use distributed_computing.Master.Service.{Request}
use distributed_computing.Broker.Postgres.Maintenance.{mark_offline_agents_and_requeue}
use distributed_computing.Master.Service.Run.{
  put_agent, post_heartbeat, post_poll, agents_get, agent_get, post_task, tasks_get, task_get,
  post_status, post_cancel, request, maintenance, wait, Route, Event, Config, serve, step, run,
}
use distributed_computing.Master.Service.Run.Keeps.{Keeps}
use distributed_computing.Master.Service.Run.Transactions.{continued, Good}
use distributed_computing.Master.Service.Run.Agents.{
  Sound, upsert-Keeps, heartbeat-Keeps, poll-Keeps, get_agent-Keeps, list_agents-Keeps,
}
use distributed_computing.Master.Service.Run.Tasks.{
  create-Keeps, get_task-Keeps, list_tasks-Keeps, cancel-Keeps, status-Keeps,
}

module _ (j : JsonLib) (pg : PgLib) (attempts cooldown : ℤ) (base : List TaskRow) where
  serve-Keeps :
      (config : Config) (route : Route) (req : Request)
      → Keeps j
          (Sound j pg attempts cooldown base)
          (serve j (pg_broker j pg attempts cooldown) config route req)
  unfolding serve
  serve-Keeps config put_agent req =
      (upsert-Keeps j pg attempts cooldown base) config.heartbeat_interval_sec req
  serve-Keeps config post_heartbeat req = (heartbeat-Keeps j pg attempts cooldown base) req
  serve-Keeps config post_poll req = (poll-Keeps j pg attempts cooldown base) req
  serve-Keeps config agent_get req = (get_agent-Keeps j pg attempts cooldown base) req
  serve-Keeps config agents_get req = (list_agents-Keeps j pg attempts cooldown base) req
  serve-Keeps config post_task req = (create-Keeps j pg attempts cooldown base) req
  serve-Keeps config task_get req = (get_task-Keeps j pg attempts cooldown base) req
  serve-Keeps config tasks_get req = (list_tasks-Keeps j pg attempts cooldown base) req
  serve-Keeps config post_status req = (status-Keeps j pg attempts cooldown base) req
  serve-Keeps config post_cancel req = (cancel-Keeps j pg attempts cooldown base) req

  step-Sound :
      (config : Config) (e : Event) (w : World Db)
      → (Sound j pg attempts cooldown base) w
      → (Sound j pg attempts cooldown base) (step j (pg_broker j pg attempts cooldown) config e w)
  unfolding step
  step-Sound config (request route req) w h = serve-Keeps config route req w h
  step-Sound config maintenance w h =
      execute_with_retry_keeps (mark_offline_agents_and_requeue config.offline_after_sec)
        (Good j pg base)
        (λ now db v.
          continued j pg base db (mark_offline_agents_and_requeue config.offline_after_sec now db).1
            (mark_offline_agents_and_requeue-Inv config.offline_after_sec now db v.0)
            (mark_offline_agents_and_requeue-Follows config.offline_after_sec now db) v)
        attempts cooldown w h
  step-Sound config (wait n) w h = h

  pub run-Sound :
      (config : Config) (events : List Event) (w : World Db)
      → (Sound j pg attempts cooldown base) w
      → (Sound j pg attempts cooldown base)
          (run j (pg_broker j pg attempts cooldown) config events w)
  unfolding run
  run-Sound config [] w h = h
  run-Sound config (e ∷ events) w h =
      run-Sound config events (step j (pg_broker j pg attempts cooldown) config e w)
        (step-Sound config e w h)

-- The master over PostgreSQL, over any history of requests, maintenance rounds and waits, with
-- connections that fail in any way: sound tables stay sound, and each task is still there, as it was
-- submitted, and in the same state if it was finished.
pub run-Inv-Follows :
    (j : JsonLib) (pg : PgLib) (attempts cooldown : ℤ) (config : Config) (events : List Event)
    (w : World Db)
    → Inv w.store
    → Inv (run j (pg_broker j pg attempts cooldown) config events w).store
      × Follows w.store.tasks (run j (pg_broker j pg attempts cooldown) config events w).store.tasks
run-Inv-Follows j pg attempts cooldown config events w v =
    run-Sound j pg attempts cooldown w.store.tasks config events w (v, Follows-refl w.store.tasks)
