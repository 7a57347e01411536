-- ===== src/Tests/Workers.antt =====
-- A worker on small machines.
use distributed_computing.Prelude.{
  ℕ, ◌+◌, ◌*◌, ◌≡◌, ◌↔◌, refl, true, false, Option, none, some, List, [], ◌∷◌, Bytes, codes, pos,
  arith, str_eq,
}
use distributed_computing.Common.Env.{get_env_or_default, get_env_int_or_default}
use distributed_computing.Broker.Status.{
  TaskState, TaskState.running, TaskState.succeeded, task_state_to_api,
}
use distributed_computing.Master.Mappers.{is_valid_task_state_transition}
use distributed_computing.Master.Mappers.Parse.{accepted}
use distributed_computing.Worker.Client.{HttpClient, DispatchedTask}
use distributed_computing.Worker.Config.{WorkerConfig, validate_worker_config}
use distributed_computing.Worker.Config.Validation.{IsUsable, validate_worker_config_iff}
use distributed_computing.Worker.Executor.{
  Machine, Wait, done, not_yet, exited, signaled, TaskExecutionResult, run_task,
}
use distributed_computing.Worker.Executor.{wait_loop}
use distributed_computing.Common.EnvFile.{load_env_file_to_env}
use distributed_computing.Worker.Config.{load_worker_config_from_env}
use distributed_computing.Master.Mappers.Parse.{field_with}
use distributed_computing.Worker.Executor.Loop.{IsPosix, run_task-Ends}
use distributed_computing.Worker.Executor.Verdict.{IsVerdict, run_task-IsVerdict}
use distributed_computing.Worker.App.{WorkerApp, idle, final_state}
use distributed_computing.Worker.App.Tick.{handle_task, handle_tasks}
use distributed_computing.Worker.App.Final.{IsSuccess, final_state-IsFinal}
use distributed_computing.Worker.App.Ends.{handle_tasks-Ends}
use distributed_computing.Worker.App.Recorded.{Recorded, recording, silent}
use distributed_computing.Worker.App.Protocol.{IsProtocol, handle_task-IsProtocol}
use distributed_computing.Worker.Main.{Host, worker_main, runs, returns}
use distributed_computing.Worker.Main.Agent.{IsStartedBy, worker_main-IsStarted}
use distributed_computing.Tests.{object_nil, trees, alpha}

-- The state is the steady clock; a child behaves as `child` says.
abbrev clock_machine : Wait → Machine ℕ
clock_machine child = record {
  utc_now = λ s. codes "now";
  steady_now = λ s. s;
  create_directories = λ dir s. s;
  fork = λ c s. (true, s);
  waitpid = λ s. (child, s);
  kill = λ s. (signaled 9, s);
  sleep_for = λ ms s. s + ms * 1000000;
  file_size = λ path s. accepted 2;
  read_file = λ path s. some (codes "ok");
}

-- A child that never ends, and one that has ended.
abbrev endless : Machine ℕ
endless = clock_machine not_yet

abbrev prompt : Machine ℕ
prompt = clock_machine (done (exited 0))

endless-IsPosix : IsPosix endless
endless-IsPosix = record {
  steady_now-waitpid = λ s. omega arith;
  steady_now-sleep_for = λ ms s. omega arith;
  waitpid-uninterrupted = λ s h. cc h;
}

abbrev quiet_network : HttpClient ℕ
quiet_network call s = (some (record { status = 200; body = codes "{}" }), s)

abbrev worker_config : WorkerConfig
worker_config = record {
  master_url = codes "http://m";
  agent_id = alpha;
  os = codes "linux";
  version = codes "dev";
  cpu_cores = pos 4;
  ram_mb = pos 0;
  slots = pos 1;
  http_timeout_ms = pos 5000;
  log_dir = codes "logs";
  cancel_check_interval_sec = pos 1;
  upload_logs = true;
  max_upload_bytes = 100;
}

abbrev limited : DispatchedTask trees
limited = record {
  task_id = codes "7";
  command = codes "sleep";
  args = codes "9" ∷ [];
  env = object_nil;
  timeout_sec = some (pos 2);
  constraints = object_nil;
}

abbrev fresh : {S : Type 0} → S → WorkerApp S
fresh s = record { worker_state = idle; heartbeat_interval_sec = pos 10; outside = s }

run_task-Ends_example :
    (r : TaskExecutionResult × (ℕ × ℕ)) × (run_task endless
        (λ k s. (false, (k, s)))
        (λ s. s)
        trees
        (codes "logs")
        41
        limited
        0
        5
      ≡ some r)
run_task-Ends_example =
    run_task-Ends endless (λ k s. (false, (k, s))) (λ s. s) endless-IsPosix
      (λ k s. omega arith, λ s. omega arith) trees (codes "logs") 2 41 limited 0 5 (omega arith)
      refl (omega arith)

handle_tasks-Ends_example :
    (app' : WorkerApp ℕ) × (handle_tasks endless trees quiet_network worker_config 41
        (limited ∷ limited ∷ [])
        (fresh 0)
      ≡ some app')
handle_tasks-Ends_example =
    handle_tasks-Ends endless trees quiet_network worker_config endless-IsPosix
      (λ call s. omega arith) 41 (limited ∷ limited ∷ []) (fresh 0)
      ((2, omega arith, refl, omega arith), ((2, omega arith, refl, omega arith), tt))

abbrev result_of : {A : Type 0} → A → Option A → A
result_of otherwise none = otherwise
result_of otherwise (some a) = a

abbrev start_of_log : WorkerApp (Recorded ℕ)
start_of_log = fresh (0, [])

abbrev handled_7 : WorkerApp (Recorded ℕ)
handled_7 = result_of start_of_log (
    handle_task (silent prompt) trees (recording quiet_network) worker_config 1 limited
      start_of_log)

done_7 :
    handle_task (silent prompt) trees (recording quiet_network) worker_config 1 limited start_of_log
    ≡ some handled_7
unfolding handle_task field_with run_task wait_loop
done_7 = refl

handle_task-IsProtocol_example :
    IsProtocol prompt trees quiet_network worker_config 1 limited (0, []) handled_7.outside
handle_task-IsProtocol_example =
    handle_task-IsProtocol prompt trees quiet_network worker_config 1 limited start_of_log handled_7
      done_7

abbrev success_result : TaskExecutionResult
success_result = record {
  exit_code = pos 0;
  timed_out = false;
  failed_to_start = false;
  canceled = false;
  error_message = [];
  started_at = codes "a";
  finished_at = codes "b";
  stdout_path = codes "o";
  stderr_path = codes "e";
}

final_state-IsFinal_example :
    (s : TaskState) × ((final_state success_result).0 ≡ task_state_to_api s)
    × (is_valid_task_state_transition running s ≡ true)
    × ((s ≡ succeeded) ↔ IsSuccess success_result)
final_state-IsFinal_example = final_state-IsFinal success_result

abbrev prompt_result : TaskExecutionResult × (ℕ × ℕ)
prompt_result =
    result_of (success_result, (0, 0))
      (run_task prompt (λ k s. (false, (k, s))) (λ s. s) trees (codes "logs") 1 limited 0 5)

prompt_run :
    run_task prompt (λ k s. (false, (k, s))) (λ s. s) trees (codes "logs") 1 limited 0 5
    ≡ some (prompt_result.0, prompt_result.1)
unfolding run_task wait_loop
prompt_run = refl

run_task-IsVerdict_example : IsVerdict prompt_result.0
run_task-IsVerdict_example =
    run_task-IsVerdict prompt (λ k s. (false, (k, s))) (λ s. s) trees (codes "logs") 1 limited 0 5
      prompt_result.0 prompt_result.1 prompt_run

validate_worker_config_iff_example :
    (validate_worker_config worker_config ≡ accepted worker_config) ↔ IsUsable worker_config
validate_worker_config_iff_example = validate_worker_config_iff worker_config

abbrev desk : Host
desk = record {
  read_file = λ path. some (codes "SLOTS = 2\n# x\n");
  can_make = λ dir. true;
  cores = 4;
}

abbrev words : List Bytes
words = codes "--once" ∷ codes "-e" ∷ codes ".env" ∷ codes "--agent-id=beta" ∷ []

abbrev started : Option WorkerConfig
started = elim (worker_main desk words []) [
  | returns code message ↦ none
  | runs config once ↦ some config
]

abbrev started_config : WorkerConfig
started_config = result_of worker_config started

desk_runs : worker_main desk words [] ≡ runs started_config true
unfolding worker_main str_eq load_env_file_to_env validate_worker_config load_worker_config_from_env
    get_env_or_default get_env_int_or_default
desk_runs = refl

worker_main-IsStarted_example : IsStartedBy words started_config true
worker_main-IsStarted_example = worker_main-IsStarted desk words [] started_config true desk_runs
