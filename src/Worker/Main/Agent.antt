-- ===== src/Worker/Main/Agent.antt =====
-- What the words of the command line of src/worker/main.cpp give to src/worker/worker_app.cpp.
use mathlib.Core.Path.{subst}
use distributed_computing.Prelude.{
  false, if◌then◌else◌, look-put, ℕ, arith, ◌≡◌, refl, sym, ap, ◌∙◌, Bool, none, some, inl, inr,
  str_eq, Bool-cases, List, [], ◌++◌, Bytes, codes,
}
use distributed_computing.Common.Env.{Environment, get_env, get_env_or_default}
use distributed_computing.Common.EnvFile.{Loaded, loaded, failed, set_env, c_str}
use distributed_computing.Master.Mappers.Parse.{Parsed, accepted, refused}
use distributed_computing.Worker.Config.{
  WorkerConfig, load_worker_config_from_env, validate_worker_config,
}
use distributed_computing.Worker.Config.Validation.{IsUsable, validate_worker_config_iff}
use distributed_computing.Worker.Main.{
  WorkerArgs, ParsedArgs, parsed, stopped, returns, parse_args, no_args, Host,
  create_worker_app_from_env, runs, with_agent_id, start_app, start_with, with_env_file,
  worker_main,
}
use distributed_computing.Worker.Main.Arguments.{Says, parse_args-Says}

validated :
    (config valid : WorkerConfig) → validate_worker_config config ≡ accepted valid → config ≡ valid
unfolding validate_worker_config
validated config valid h = ground (arith, h)

created-accepted :
    (host : Host) (env : Environment) (config : WorkerConfig)
    → create_worker_app_from_env host env ≡ accepted config
    → (load_worker_config_from_env host.cores env ≡ config) × IsUsable config
unfolding create_worker_app_from_env
created-accepted host env config h =
    go (load_worker_config_from_env host.cores env)
      (validate_worker_config (load_worker_config_from_env host.cores env)) refl h
  where
    go :
        (read : WorkerConfig) (p : Parsed WorkerConfig)
        → validate_worker_config read ≡ p
        → elim p [
          | refused error ↦ refused (codes "Invalid configuration: " ++ error)
          | accepted valid ↦
              if host.can_make read.log_dir
              then accepted read
              else refused (codes "Failed to create log dir: " ++ read.log_dir)
        ]
          ≡ accepted config
        → (read ≡ config) × IsUsable config
    go read (refused error) e h' = absurd (cc h')
    go read (accepted valid) e h' =
        let same : read ≡ config = ground (arith, h') in
        let usable : IsUsable read =
          (validate_worker_config_iff read).0 (e ∙ ap accepted (sym (validated read valid e))) in
        (same, subst IsUsable same usable)

agent_id-loaded :
    (cores : ℕ) (env : Environment) (id : Bytes)
    → (load_worker_config_from_env cores (set_env env (codes "AGENT_ID") id)).agent_id ≡ id
unfolding load_worker_config_from_env get_env_or_default get_env set_env
agent_id-loaded cores env id =
    rw (look-put env (codes "AGENT_ID") id, get_env_or_default, get_env) refl

-- What holds of a worker that runs.
abbrev pub IsStarted : WorkerArgs → WorkerConfig → Bool → Type 0
IsStarted args config run_once =
    IsUsable config
    × (run_once ≡ args.run_once)
    × ((id : Bytes) → args.agent_id ≡ some id → config.agent_id ≡ c_str id)

started :
    (host : Host) (args : WorkerArgs) (l : Loaded) (config : WorkerConfig) (run_once : Bool)
    → start_with host args l ≡ runs config run_once
    → IsStarted args config run_once
started host args (failed error) config run_once h = absurd (cc h)
started host args (loaded env) config run_once h =
    go (create_worker_app_from_env host (with_agent_id args env)) refl h
  where
    go :
        (p : Parsed WorkerConfig)
        → create_worker_app_from_env host (with_agent_id args env) ≡ p
        → start_app args.run_once p ≡ runs config run_once
        → IsStarted args config run_once
    go (refused error) e h' = absurd (cc h')
    go (accepted made) e h' =
        let same : made ≡ config = cc h' in
        let (read, usable) = created-accepted host (with_agent_id args env) made e in
        (
          subst IsUsable same usable,
          cc h',
          λ id given.
              ap (λ c. c.agent_id) (sym (read ∙ same))
              ∙ (rw given (agent_id-loaded host.cores env (c_str id))),
        )

-- The words and what they gave.
abbrev pub IsStartedBy : List Bytes → WorkerConfig → Bool → Type 0
IsStartedBy words config run_once =
    (args : WorkerArgs) × Says words (record { run_once = false; env_file = none; agent_id = none })
      args
    × IsStarted args config run_once

-- A worker that runs, whatever its env file and its environment, was started by words of the command
-- line's grammar, and its configuration is one that the validation accepts; by what the words say, it
-- runs once if and only if `--once` is among their options, and if they give an agent identifier, the
-- worker's identifier is the last one that they give, up to its first NUL byte.
pub worker_main-IsStarted :
    (host : Host) (words : List Bytes) (env : Environment) (config : WorkerConfig) (run_once : Bool)
    → worker_main host words env ≡ runs config run_once
    → IsStartedBy words config run_once
unfolding worker_main
worker_main-IsStarted host words env config run_once h = go (parse_args no_args words) refl h
  where
    go :
        (p : ParsedArgs)
        → parse_args no_args words ≡ p
        → elim p [
          | stopped error ↦ if str_eq error [] then returns 0 [] else returns 2 error
          | parsed args ↦ start_with host args (with_env_file host args env)
        ]
          ≡ runs config run_once
        → IsStartedBy words config run_once
    go (stopped error) e h' = elim (Bool-cases (str_eq error [])) [
      | inl no_error ↦ absurd (cc (rw no_error at h'))
      | inr an_error ↦ absurd (cc (rw an_error at h'))
    ]
    go (parsed args) e h' = (
      args,
      parse_args-Says words no_args args e,
      started host args (with_env_file host args env) config run_once h',
    )
