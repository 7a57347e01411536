-- ===== src/Tests/Histories.antt =====
-- Creation, and a history of the master.
use mathlib.Core.Option.{some-injective}
use distributed_computing.Prelude.{ap, ◌≡◌, refl, some, [], ◌∷◌, codes, pos, List, Bytes, sym}
use distributed_computing.Broker.Status.{TaskState.queued}
use distributed_computing.Broker.Types.{TaskInput}
use distributed_computing.Broker.Retry.{fine, lost, in_doubt, World, returned}
use distributed_computing.Broker.Postgres.{pg_broker}
use distributed_computing.Broker.Postgres.Schema.{Db}
use distributed_computing.Broker.Postgres.Tasks.{create_task, get_task}
use distributed_computing.Broker.Postgres.History.{Follows}
use distributed_computing.Broker.Postgres.Invariant.{Inv}
use distributed_computing.Broker.Postgres.Effects.Create.{
  CreateResult, create_task-CreateResult, get_task-create_task, submitted,
}
use distributed_computing.Master.Service.{Request}
use distributed_computing.Master.Service.Run.{
  Event, Config, request, maintenance, wait, run, post_poll, post_task, post_status, post_cancel,
}
use distributed_computing.Master.Service.Run.Safety.{run-Inv-Follows}
use distributed_computing.Broker.Constraints.Kept.{IsNormalized}
use distributed_computing.Tests.Texts.{texts, texts-IsJsonLib, texts-IsJsonValues}
use distributed_computing.Tests.{trees, server, tables, beta}
use distributed_computing.Tests.Tables.{tables-Inv}

abbrev echo : TaskInput texts
echo = record {
  command = codes "echo";
  args = (b'[', codes "1]");
  env = (b'n', codes "ull");
  timeout_sec = some (pos 30);
  constraints =
      texts.set_field
        (texts.set_field texts.empty_object (codes "os") (texts.string (codes "linux")))
        (codes "ram_mb") (texts.string (codes "many"));
}

create_task-CreateResult_example :
    CreateResult texts server echo 9 tables (create_task texts server echo 9 tables)
create_task-CreateResult_example = create_task-CreateResult texts server echo 9 tables tables-Inv

created_5 : (create_task texts server echo 9 tables).0 ≡ returned 5
unfolding create_task
created_5 = refl

get_task-create_task_example :
    (constraints : texts.Json) × ((get_task texts server 5 10
        (create_task texts server echo 9 tables).1).0
      ≡ returned (some (submitted texts server echo 5 9 queued constraints)))
    × IsNormalized texts echo.constraints constraints
get_task-create_task_example =
    get_task-create_task texts texts-IsJsonLib texts-IsJsonValues server
      (λ a b h. ap texts.parse (sym (some-injective a b h))) echo 9 10 tables 5 tables-Inv created_5

abbrev about : Bytes → Bytes → Request
about id body = record { id = id; params = []; body = body }

-- A task is created, polled, reported, swept back into the queue and canceled, over a link that breaks.
abbrev history : List Event
history =
    request post_task (about [] (codes "{\"command\":\"true\"}"))
    ∷ request post_poll (about beta (codes "{\"free_slots\":1}"))
    ∷ request post_status (about (codes "4") (codes "{\"state\":\"Running\"}"))
    ∷ wait 900000000
    ∷ maintenance
    ∷ request post_cancel (about (codes "1") [])
    ∷ []

abbrev start : World Db
start = record {
  store = tables;
  clock = 900000000;
  faults = lost (codes "refused") ∷ fine ∷ in_doubt (codes "reset") ∷ [];
}

abbrev config : Config
config = record { heartbeat_interval_sec = pos 10; offline_after_sec = pos 60 }

run-Inv-Follows_example :
    Inv (run trees (pg_broker trees server (pos 3) (pos 1)) config history start).store
    × Follows start.store.tasks
        (run trees (pg_broker trees server (pos 3) (pos 1)) config history start).store.tasks
run-Inv-Follows_example =
    run-Inv-Follows trees server (pos 3) (pos 1) config history start tables-Inv
