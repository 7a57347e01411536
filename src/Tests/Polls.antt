-- ===== src/Tests/Polls.antt =====
-- Polls on the tables of the tests.
use distributed_computing.Prelude.{str_eq, ◌≡◌, refl, some, [], ◌∷◌, pos, arith}
use distributed_computing.Broker.Status.{TaskState.running}
use distributed_computing.Broker.Retry.{returned}
use distributed_computing.Broker.Postgres.Schema.{find_agent, Db, TaskRow, find_task}
use distributed_computing.Broker.Postgres.Poll.{
  assign, assign_all, fits_int, fits_os, eligible, candidates, task_dispatch, poll_tasks_for_agent,
}
use distributed_computing.Broker.Postgres.Maintenance.{mark_offline_agents_and_requeue}
use distributed_computing.Broker.Postgres.Keeps.Dispatch.{
  PollResult, poll_tasks_for_agent-PollResult,
}
use distributed_computing.Broker.Postgres.Keeps.Once.{IsDisjoint, poll_tasks_for_agent-IsDisjoint}
use distributed_computing.Broker.Postgres.Effects.Stray.{IsStray, poll_tasks_for_agent-IsStray}
use distributed_computing.Broker.Postgres.Invariant.{Inv}
use distributed_computing.Tests.{trees, server, tables, alpha, beta, waiting}
use distributed_computing.Tests.Tables.{tables-Inv}

poll_tasks_for_agent-PollResult_example :
    PollResult trees server alpha
      (pos 1)
      10
      tables
      (poll_tasks_for_agent trees server alpha (pos 1) 10 tables)
poll_tasks_for_agent-PollResult_example =
    poll_tasks_for_agent-PollResult trees server alpha (pos 1) 10 tables tables-Inv

-- Task 3 is the older of the two that wait, and task 4 is what the next poll finds.
first_poll :
    (poll_tasks_for_agent trees server alpha (pos 1) 10 tables).0
    ≡ returned (some (task_dispatch trees server (waiting 3) ∷ []))
unfolding poll_tasks_for_agent find_agent str_eq candidates eligible fits_os fits_int
first_poll = refl

second_poll :
    (poll_tasks_for_agent trees server beta
      (pos 1)
      11
      (poll_tasks_for_agent trees server alpha (pos 1) 10 tables).1).0
    ≡ returned (some (task_dispatch trees server (waiting 4) ∷ []))
unfolding poll_tasks_for_agent find_agent str_eq candidates eligible fits_os fits_int assign_all
    assign
second_poll = refl

poll_tasks_for_agent-IsDisjoint_example :
    IsDisjoint trees
      (task_dispatch trees server (waiting 3) ∷ [])
      (task_dispatch trees server (waiting 4) ∷ [])
poll_tasks_for_agent-IsDisjoint_example =
    poll_tasks_for_agent-IsDisjoint trees server alpha beta (pos 1) (pos 1) 10 11 tables
      (task_dispatch trees server (waiting 3) ∷ []) (task_dispatch trees server (waiting 4) ∷ [])
      tables-Inv first_poll second_poll

-- Task 3 runs and no agent has it.
abbrev stray : TaskRow
stray = record (waiting 3) { state = running }

abbrev stray_tables : Db
stray_tables = record tables { tasks = stray ∷ []; assignments = []; next_task_id = 4 }

stray_tables-Inv : Inv stray_tables
stray_tables-Inv = record {
  ids = (omega arith, omega arith);
  free = ((λ e. cc e), tt);
  backed = tt;
}

stray_tables-IsStray : IsStray 3 stray stray_tables
unfolding find_task
stray_tables-IsStray = (refl, refl, refl)

poll_tasks_for_agent-IsStray_example :
    IsStray 3 stray (poll_tasks_for_agent trees server alpha (pos 5) 900000000 stray_tables).1
    × IsStray 3 stray (mark_offline_agents_and_requeue (pos 60) 900000000 stray_tables).1
poll_tasks_for_agent-IsStray_example =
    poll_tasks_for_agent-IsStray trees server 3 stray 900000000 stray_tables alpha (pos 5) (pos 60)
      stray_tables-Inv stray_tables-IsStray
