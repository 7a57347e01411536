-- ===== src/Worker/Config.antt =====
-- The configuration of src/worker/worker_app.cpp. The number of processors is a parameter.
pub mod Validation
use distributed_computing.Prelude.{
  ℕ, ◌-◌, ◌%◌, ◌^◌, ◌||◌, Bool, true, false, Bytes, codes, ℤ, pos, negsuc, [], leb_ℤ, str_eq,
  if◌then◌else◌, ltb,
}
use distributed_computing.Common.StringUtils.{to_lower_copy}
use distributed_computing.Common.Env.{
  Environment, get_env_or_default, get_env_int_or_default, from_bits,
}
use distributed_computing.Master.Mappers.Parse.{Parsed, accepted, refused}

pub record WorkerConfig : Type 0 where
  pub master_url : Bytes
  pub agent_id : Bytes
  pub os : Bytes
  pub version : Bytes
  pub cpu_cores : ℤ
  pub ram_mb : ℤ
  pub slots : ℤ
  pub http_timeout_ms : ℤ
  pub log_dir : Bytes
  pub cancel_check_interval_sec : ℤ
  pub upload_logs : Bool
  pub max_upload_bytes : ℕ

-- `hardware_concurrency` gives an `unsigned int`.
unfoldable pub default_cpu_cores : ℕ → ℤ
default_cpu_cores cores = if ltb 0 cores then from_bits cores else pos 1

unfoldable pub parse_bool_env : Bytes → Bool → Bool
parse_bool_env value fallback =
    if str_eq value []
    then fallback
    else let lower = to_lower_copy value in
      str_eq lower (codes "1")
      || str_eq lower (codes "true")
      || str_eq lower (codes "yes")
      || str_eq lower (codes "on")

-- `static_cast<std::size_t>` of an `int`.
unfoldable pub to_size_t : ℤ → ℕ
to_size_t (pos n) = n
to_size_t (negsuc n) = 2 ^ 64 - 1 - n

unfoldable pub load_worker_config_from_env : ℕ → Environment → WorkerConfig
unfolding parse_bool_env to_size_t default_cpu_cores
load_worker_config_from_env cores env = record {
  master_url = get_env_or_default env (codes "MASTER_URL") (codes "http://localhost:8080");
  agent_id = get_env_or_default env (codes "AGENT_ID") [];
  os = get_env_or_default env (codes "AGENT_OS") (codes "linux");
  version = get_env_or_default env (codes "AGENT_VERSION") (codes "dev");
  cpu_cores = get_env_int_or_default env (codes "CPU_CORES") (default_cpu_cores cores);
  ram_mb = get_env_int_or_default env (codes "RAM_MB") (pos 0);
  slots = get_env_int_or_default env (codes "SLOTS") (pos 1);
  http_timeout_ms = get_env_int_or_default env (codes "WORKER_HTTP_TIMEOUT_MS") (pos 5000);
  log_dir = get_env_or_default env (codes "WORKER_LOG_DIR") (codes "logs/worker");
  cancel_check_interval_sec = get_env_int_or_default env (codes "CANCEL_CHECK_SEC") (pos 1);
  upload_logs = parse_bool_env (get_env_or_default env (codes "UPLOAD_LOGS") (codes "true")) true;
  max_upload_bytes =
      to_size_t (get_env_int_or_default env (codes "MAX_UPLOAD_BYTES") (pos 10485760));
}

unfoldable pub validate_worker_config : WorkerConfig → Parsed WorkerConfig
validate_worker_config config =
    if str_eq config.master_url []
    then refused (codes "MASTER_URL is required")
    else if str_eq config.agent_id []
    then refused (codes "AGENT_ID is required")
    else if leb_ℤ config.cpu_cores (pos 0)
    then refused (codes "CPU_CORES must be positive")
    else if leb_ℤ config.slots (pos 0)
    then refused (codes "SLOTS must be positive")
    else if leb_ℤ config.cancel_check_interval_sec (pos 0)
    then refused (codes "CANCEL_CHECK_SEC must be positive")
    else accepted config
