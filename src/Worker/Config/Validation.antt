-- ===== src/Worker/Config/Validation.antt =====
-- `ValidateWorkerConfig` of src/worker/worker_app.cpp.
use distributed_computing.Prelude.{◌≡◌, ◌≢◌, ◌↔◌, [], pos, ◌≤ℤ◌, str_eq_iff, arith}
use distributed_computing.Master.Mappers.Parse.{accepted}
use distributed_computing.Worker.Config.{WorkerConfig, validate_worker_config}

abbrev pub IsUsable : WorkerConfig → Type 0
IsUsable config =
    (config.master_url ≢ [])
    × (config.agent_id ≢ [])
    × (pos 1 ≤ℤ config.cpu_cores)
    × (pos 1 ≤ℤ config.slots)
    × (pos 1 ≤ℤ config.cancel_check_interval_sec)

-- A configuration is accepted exactly when it names a master and an agent, and its processors, its
-- slots and its cancellation interval are positive.
pub validate_worker_config_iff :
    (config : WorkerConfig) → (validate_worker_config config ≡ accepted config) ↔ IsUsable config
unfolding validate_worker_config
validate_worker_config_iff config = (
  λ h. ground (arith, str_eq_iff config.master_url [], str_eq_iff config.agent_id []),
  λ h. ground (arith, str_eq_iff config.master_url [], str_eq_iff config.agent_id []),
)
