-- ===== src/Worker/Main.antt =====
-- src/worker/main.cpp: the arguments, the environment, and the start of the worker. The files and the
-- directory for the logs are parameters. What is printed on the standard output is left out.
pub mod Arguments
pub mod Agent
use distributed_computing.Prelude.{
  ℕ, ◌++◌, Bool, true, false, ◌&&◌, Option, none, some, List, [], ◌∷◌, Bytes, codes, ◌==◌, str_eq,
  if◌then◌else◌,
}
use distributed_computing.Common.Env.{Environment}
use distributed_computing.Common.EnvFile.{
  Loaded, loaded, failed, set_env, c_str, load_env_file_to_env,
}
use distributed_computing.Master.Mappers.Parse.{Parsed, accepted, refused}
use distributed_computing.Worker.Config.{
  WorkerConfig, load_worker_config_from_env, validate_worker_config,
}

pub record WorkerArgs : Type 0 where
  pub run_once : Bool
  pub env_file : Option Bytes
  pub agent_id : Option Bytes

-- `arg.rfind(prefix, 0) == 0` with `arg.substr(prefix.size())`.
unfoldable pub after_prefix : Bytes → Bytes → Option Bytes
after_prefix [] arg = some arg
after_prefix (c ∷ prefix) [] = none
after_prefix (c ∷ prefix) (d ∷ arg) =
    let more = after_prefix prefix arg in if c == d then more else none

-- What `ParseArgs` leaves: the arguments, or false with what `*error` says, which is empty for `--help`.
pub data ParsedArgs : Type 0 where
  parsed : WorkerArgs → ParsedArgs
  stopped : Bytes → ParsedArgs

-- The options, in the order of the tests.
pub data Word : Type 0 where
  once help env_file_next agent_id_next unknown : Word
  env_file_is agent_id_is : Bytes → Word

abbrev pub is_either : Bytes → Bytes → Bytes → Bool
is_either arg long short = if str_eq arg long then true else str_eq arg short

unfoldable pub word_of : Bytes → Word
unfolding after_prefix
word_of arg =
    if str_eq arg (codes "--once")
    then once
    else if is_either arg (codes "--help") (codes "-h")
    then help
    else if is_either arg (codes "--env-file") (codes "-e")
    then env_file_next
    else elim (after_prefix (codes "--env-file=") arg) [
      | some path ↦ env_file_is path
      | none ↦
          if is_either arg (codes "--agent-id") (codes "-a")
          then agent_id_next
          else elim (after_prefix (codes "--agent-id=") arg) [
            | some id ↦ agent_id_is id
            | none ↦ unknown
          ]
    ]

-- The loop over the words behind the program's name.
unfoldable pub parse_args : WorkerArgs → List Bytes → ParsedArgs
unfolding word_of
parse_args args [] = parsed args
parse_args args (arg ∷ []) = elim (word_of arg) [
  | once ↦ parsed (record args { run_once = true })
  | help ↦ stopped []
  | env_file_next ↦ stopped (codes "Missing value for --env-file")
  | env_file_is path ↦ parsed (record args { env_file = some path })
  | agent_id_next ↦ stopped (codes "Missing value for --agent-id")
  | agent_id_is id ↦ parsed (record args { agent_id = some id })
  | unknown ↦ stopped (codes "Unknown option: " ++ arg)
]
parse_args args (arg ∷ value ∷ rest) = elim (word_of arg) [
  | once ↦ parse_args (record args { run_once = true }) (value ∷ rest)
  | help ↦ stopped []
  | env_file_next ↦ parse_args (record args { env_file = some value }) rest
  | env_file_is path ↦ parse_args (record args { env_file = some path }) (value ∷ rest)
  | agent_id_next ↦ parse_args (record args { agent_id = some value }) rest
  | agent_id_is id ↦ parse_args (record args { agent_id = some id }) (value ∷ rest)
  | unknown ↦ stopped (codes "Unknown option: " ++ arg)
]

abbrev pub no_args : WorkerArgs
no_args = record { run_once = false; env_file = none; agent_id = none }

-- The world that the start reads: a file's bytes if it opens, whether a directory can be made, and the
-- number of processors.
pub record Host : Type 0 where
  pub read_file : Bytes → Option Bytes
  pub can_make : Bytes → Bool
  pub cores : ℕ

unfoldable pub create_worker_app_from_env : Host → Environment → Parsed WorkerConfig
create_worker_app_from_env host env =
    let config = load_worker_config_from_env host.cores env in
    elim (validate_worker_config config) [
      | refused error ↦ refused (codes "Invalid configuration: " ++ error)
      | accepted valid ↦
          if host.can_make config.log_dir
          then accepted config
          else refused (codes "Failed to create log dir: " ++ config.log_dir)
    ]

-- How `main` goes on: it returns, having printed a message, or it runs the worker, once or for ever.
pub data Start : Type 0 where
  returns : ℕ → Bytes → Start
  runs : WorkerConfig → Bool → Start

-- The environment behind `--env-file`.
abbrev pub with_env_file : Host → WorkerArgs → Environment → Loaded
with_env_file host args env = elim args.env_file [
  | none ↦ loaded env
  | some path ↦ load_env_file_to_env path (host.read_file path) env
]

-- The environment behind `--agent-id`.
abbrev pub with_agent_id : WorkerArgs → Environment → Environment
with_agent_id args env = elim args.agent_id [
  | none ↦ env
  | some id ↦ set_env env (codes "AGENT_ID") (c_str id)
]

abbrev pub start_app : Bool → Parsed WorkerConfig → Start
start_app run_once (accepted config) = runs config run_once
start_app run_once (refused error) = returns 2 error

abbrev pub start_with : Host → WorkerArgs → Loaded → Start
start_with host args (failed error) = returns 2 error
start_with host args (loaded env) =
    start_app args.run_once (create_worker_app_from_env host (with_agent_id args env))

unfoldable pub worker_main : Host → List Bytes → Environment → Start
unfolding parse_args create_worker_app_from_env
worker_main host words env = elim (parse_args no_args words) [
  | stopped error ↦ if str_eq error [] then returns 0 [] else returns 2 error
  | parsed args ↦ start_with host args (with_env_file host args env)
]
