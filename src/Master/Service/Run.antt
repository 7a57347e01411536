-- ===== src/Master/Service/Run.antt =====
-- `ControlService` as a whole: `RegisterRoutes`, the maintenance thread and `Run` of
-- src/master/control_service.cpp, as a history of events that are served one after another.
pub mod Keeps
pub mod Transactions
pub mod Agents
pub mod Tasks
pub mod Safety
pub mod Stray
use distributed_computing.Prelude.{ℕ, ◌+◌, List, [], ◌∷◌, Bytes, codes, ℤ}
use distributed_computing.Json.{JsonLib}
use distributed_computing.Broker.Interface.{Broker}
use distributed_computing.Broker.Retry.{World}
use distributed_computing.Master.Service.{Request, Response, Handler}
use distributed_computing.Master.Service.Agents.{
  handle_upsert_agent, handle_agent_heartbeat, handle_poll_tasks, handle_get_agent,
  handle_list_agents,
}
use distributed_computing.Master.Service.Tasks.{
  handle_create_task, handle_get_task, handle_list_tasks, handle_update_task_status,
  handle_cancel_task,
}

-- The routes, by their handlers; those of the logs, and the health check, are left out.
pub data Route : Type 0 where
  put_agent post_heartbeat post_poll agent_get agents_get : Route
  post_task task_get tasks_get post_status post_cancel : Route

-- A request, a round of the maintenance thread, or time that passes.
pub data Event : Type 0 where
  request : Route → Request → Event
  maintenance : Event
  wait : ℕ → Event

-- The two fields of `MasterConfig` that are used.
pub record Config : Type 0 where
  pub heartbeat_interval_sec : ℤ
  pub offline_after_sec : ℤ

module _ (j : JsonLib) {S : Type 0} (broker : Broker j S) (config : Config) where
  unfoldable pub serve : Route → Request → Handler j S
  serve put_agent = handle_upsert_agent j broker config.heartbeat_interval_sec
  serve post_heartbeat = handle_agent_heartbeat j broker
  serve post_poll = handle_poll_tasks j broker
  serve agent_get = handle_get_agent j broker
  serve agents_get = handle_list_agents j broker
  serve post_task = handle_create_task j broker
  serve task_get = handle_get_task j broker
  serve tasks_get = handle_list_tasks j broker
  serve post_status = handle_update_task_status j broker
  serve post_cancel = handle_cancel_task j broker

  -- One round of the maintenance thread: the count and an error are only logged.
  abbrev pub maintain : World S → World S
  maintain w = (broker.mark_offline_agents_and_requeue config.offline_after_sec w).1

  unfoldable pub step : Event → World S → World S
  step (request route req) w = (serve route req w).1
  step maintenance w = maintain w
  step (wait microseconds) w = record w { clock = w.clock + microseconds }

  unfoldable pub run : List Event → World S → World S
  run [] w = w
  run (e ∷ events) w = run events (step e w)
