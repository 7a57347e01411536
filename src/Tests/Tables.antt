-- ===== src/Tests/Tables.antt =====
-- The transactions on the tables of the tests.
use distributed_computing.Prelude.{str_eq, ◌≡◌, refl, true, none, some, codes, pos, arith}
use distributed_computing.Broker.Status.{TaskState.queued, TaskState.running, TaskState.succeeded}
use distributed_computing.Broker.Types.{StatusReport, AgentInput}
use distributed_computing.Broker.Retry.{returned}
use distributed_computing.Broker.Postgres.Schema.{PgLib, TaskRow, find_task}
use distributed_computing.Broker.Postgres.Agents.{upsert_agent, get_agent}
use distributed_computing.Broker.Postgres.Status.{update_task_status, cancel_task}
use distributed_computing.Broker.Postgres.Maintenance.{mark_offline_agents_and_requeue}
use distributed_computing.Broker.Postgres.Invariant.{Inv}
use distributed_computing.Broker.Postgres.Effects.Sweep.{
  SweepResult, mark_offline_agents_and_requeue-SweepResult,
}
use distributed_computing.Broker.Postgres.Effects.Again.{mark_offline_agents_and_requeue_again}
use distributed_computing.Broker.Postgres.Effects.Task.{CancelResult, cancel_task-CancelResult}
use distributed_computing.Broker.Postgres.Effects.Report.{
  IsReportedRow, ReportResult, update_task_status-ReportResult,
}
use distributed_computing.Broker.Postgres.Effects.Agents.{registered, get_agent-upsert_agent}
use distributed_computing.Broker.Postgres.Effects.Stray.{IsStray}
use distributed_computing.Master.Mappers.{is_valid_task_state_transition}
use distributed_computing.Master.Service.Run.Stray.{update_task_status-IsStray}
use distributed_computing.Tests.{tables, server, waiting}

pub tables-Inv : Inv tables
unfolding find_task
tables-Inv = record {
  ids = (omega arith, (omega arith, (omega arith, (omega arith, omega arith))));
  free = ((λ e. cc e), ((λ e. cc e), ((λ e. refl), ((λ e. refl), tt))));
  backed = ((λ e. (_, refl, refl, refl)), tt);
}

abbrev pub success : StatusReport
success = record {
  state = succeeded;
  exit_code = some (pos 0);
  started_at = none;
  finished_at = none;
  error_message = none;
}

abbrev pub started : StatusReport
started = record success { state = running; exit_code = none }

abbrev gamma : AgentInput
gamma = record {
  agent_id = codes "gamma";
  os = codes "linux";
  version = codes "1.1";
  cpu_cores = pos 8;
  ram_mb = pos 4096;
  slots = pos 4;
}

mark_offline_agents_and_requeue-SweepResult_example :
    SweepResult
      (pos 60)
      900000000
      tables
      (mark_offline_agents_and_requeue (pos 60) 900000000 tables).0
      (mark_offline_agents_and_requeue (pos 60) 900000000 tables).1
mark_offline_agents_and_requeue-SweepResult_example =
    mark_offline_agents_and_requeue-SweepResult (pos 60) 900000000 tables

update_task_status-ReportResult_example :
    ReportResult server 1 success 900000000 tables
      (update_task_status server 1 success 900000000 tables)
update_task_status-ReportResult_example =
    update_task_status-ReportResult server 1 success 900000000 tables

cancel_task-CancelResult_example : CancelResult 1 900000000 tables (cancel_task 1 900000000 tables)
cancel_task-CancelResult_example = cancel_task-CancelResult 1 900000000 tables

get_agent-upsert_agent_example :
    ((upsert_agent gamma 7 tables).0 ≡ returned true)
    × ((get_agent server (codes "gamma") 8 (upsert_agent gamma 7 tables).1).0
        ≡ returned (some (registered server gamma 7)))
unfolding str_eq
get_agent-upsert_agent_example = get_agent-upsert_agent server gamma 7 8 tables (codes "gamma")

-- A server that casts every time, and a report as the worker posts it.
abbrev lenient : PgLib
lenient = record server { timestamptz = λ text. some 7 }

abbrev started_at_7 : StatusReport
started_at_7 = record started { started_at = some (codes "1970-01-01T00:00:07Z") }

update_task_status-IsStray_example :
    (is_valid_task_state_transition queued running ≡ true)
    × ((update_task_status lenient 3 started_at_7 9 tables).0 ≡ returned true)
    × ((t' : TaskRow) × IsReportedRow started_at_7 (some 7) none 9 (waiting 3) t'
        × IsStray 3 t' (update_task_status lenient 3 started_at_7 9 tables).1)
unfolding find_task
update_task_status-IsStray_example =
    update_task_status-IsStray lenient 3 started_at_7 (waiting 3) (some 7) none 9 tables refl refl
      refl refl refl refl

mark_offline_agents_and_requeue_again_example :
    mark_offline_agents_and_requeue
      (pos 60)
      900000000
      (mark_offline_agents_and_requeue (pos 60) 900000000 tables).1
    ≡ (returned 0, (mark_offline_agents_and_requeue (pos 60) 900000000 tables).1)
mark_offline_agents_and_requeue_again_example =
    mark_offline_agents_and_requeue_again (pos 60) 900000000 tables
