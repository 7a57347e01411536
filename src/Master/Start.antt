-- ===== src/Master/Start.antt =====
-- The start of src/master/main.cpp up to the construction of the broker: arguments, env file, settings,
-- credentials and migrations. Files, directories and `std::system` are a parameter; messages and the
-- set-up of the log are left out.
pub mod Ready
use distributed_computing.Prelude.{
  ℕ, ◌++◌, Bool, true, false, not, ◌&&◌, ◌||◌, Option, none, some, List, [], ◌∷◌, Bytes, codes, ℤ,
  pos, str_eq, leb_ℤ, if◌then◌else◌,
}
use distributed_computing.Common.StringUtils.{to_lower_copy}
use distributed_computing.Common.Env.{Environment, get_env_or_default, get_env_int_or_default}
use distributed_computing.Common.EnvFile.{
  Loaded, loaded, failed, trim_whitespace, load_env_file_to_env,
}
use distributed_computing.Broker.Postgres.Connection.{
  AuthentificationMethod, AuthentificationMethod.password, AuthentificationMethod.ssl,
  SslCertificates, DbConfig,
}
use distributed_computing.Master.Mappers.Parse.{Parsed, accepted, refused}
use distributed_computing.Master.Config.{parse_validated_env_int}
use distributed_computing.Worker.Config.{to_size_t}
use distributed_computing.Worker.Main.{after_prefix}

-- What `std::system` returns: an exit status as WIFEXITED and WEXITSTATUS read it, or another code.
pub data SystemCode : Type 0 where
  exit_status : ℕ → SystemCode
  raw : ℤ → SystemCode

pub record MasterHost : Type 0 where
  pub read_file : Bytes → Option Bytes
  pub can_make : Bytes → Bool
  pub system : Bytes → SystemCode

-- A step of `main`: it goes on with a value, or `main` returns a code.
pub data Stage (A : Type 0) : Type 0 where
  proceeds : A → Stage A
  halts : ℤ → Stage A

infixl 5 ◌>>=◌
abbrev pub ◌>>=◌ : {A B : Type 0} → Stage A → (A → Stage B) → Stage B
proceeds a >>= f = f a
halts code >>= f = halts code

-- The code that most failures return.
abbrev pub failure : {A : Type 0} → Stage A
failure = halts (pos 2)

-- `ParseArgs`: the env file, or an end with the code of `main`, 0 for `--help`.
unfoldable pub parse_master_args : Option Bytes → List Bytes → Stage (Option Bytes)
unfolding after_prefix
parse_master_args env_file [] = proceeds env_file
parse_master_args env_file (arg ∷ []) =
    if str_eq arg (codes "--help") || str_eq arg (codes "-h")
    then halts (pos 0)
    else if str_eq arg (codes "--env-file") || str_eq arg (codes "-e")
    then failure
    else elim (after_prefix (codes "--env-file=") arg) [
      | some path ↦ proceeds (some path)
      | none ↦ failure
    ]
parse_master_args env_file (arg ∷ value ∷ rest) =
    let next = parse_master_args (some value) rest in
    if str_eq arg (codes "--help") || str_eq arg (codes "-h")
    then halts (pos 0)
    else if str_eq arg (codes "--env-file") || str_eq arg (codes "-e")
    then next
    else elim (after_prefix (codes "--env-file=") arg) [
      | some path ↦ parse_master_args (some path) (value ∷ rest)
      | none ↦ failure
    ]

unfoldable pub parse_bool_env_value : Bytes → Bool
unfolding trim_whitespace to_lower_copy
parse_bool_env_value value =
    let lower = to_lower_copy (trim_whitespace value) in
    str_eq lower (codes "1")
    || str_eq lower (codes "true")
    || str_eq lower (codes "yes")
    || str_eq lower (codes "on")

unfoldable pub normalize_exit_code : SystemCode → ℤ
normalize_exit_code (exit_status code) = pos code
normalize_exit_code (raw code) = code

abbrev pub same_int : ℤ → ℤ → Bool
same_int a b = leb_ℤ a b && leb_ℤ b a

unfoldable pub is_command_not_found : ℤ → Bool
is_command_not_found code = same_int code (pos 127) || same_int code (pos 9009)

unfoldable pub migration_command : Environment → Bytes → Bytes
migration_command env python_cmd =
    let config_path = get_env_or_default env (codes "DB_CONFIG") [] in
    let script = get_env_or_default env (codes "INIT_DB_SCRIPT") (codes "scripts/init_pg.py") in
    let command = python_cmd ++ codes " \"" ++ script ++ codes "\"" in
    if str_eq config_path []
    then command
    else command ++ codes " --config \"" ++ config_path ++ codes "\""

-- The code of one candidate.
abbrev pub migrate : MasterHost → Environment → Bytes → ℤ
migrate host env python_cmd = normalize_exit_code (host.system (migration_command env python_cmd))

unfoldable pub run_init_db_script : MasterHost → Environment → ℤ
unfolding migration_command normalize_exit_code is_command_not_found
run_init_db_script host env =
    let preferred = get_env_or_default env (codes "INIT_DB_PYTHON") [] in
    if not (str_eq preferred [])
    then migrate host env preferred
    else if not (is_command_not_found (migrate host env (codes "python3")))
    then migrate host env (codes "python3")
    else if not (is_command_not_found (migrate host env (codes "python")))
    then migrate host env (codes "python")
    else pos 127

pub record MasterConfig : Type 0 where
  pub host : Bytes
  pub port : ℤ
  pub heartbeat_interval_sec : ℤ
  pub offline_after_sec : ℤ
  pub log_dir : Bytes
  pub max_log_upload_bytes : ℕ

unfoldable pub load_master_config : Environment → MasterConfig
load_master_config env = record {
  host = get_env_or_default env (codes "MASTER_HOST") (codes "0.0.0.0");
  port = get_env_int_or_default env (codes "MASTER_PORT") (pos 8080);
  heartbeat_interval_sec = get_env_int_or_default env (codes "HEARTBEAT_SEC") (pos 30);
  offline_after_sec = get_env_int_or_default env (codes "OFFLINE_SEC") (pos 120);
  log_dir = get_env_or_default env (codes "LOG_DIR") (codes "logs");
  max_log_upload_bytes =
      to_size_t (get_env_int_or_default env (codes "MAX_LOG_UPLOAD_BYTES") (pos 10485760));
}

pub data Backend : Type 0 where
  postgres mongo : Backend

unfoldable pub backend_of : Environment → Stage Backend
backend_of env =
    let backend = to_lower_copy (get_env_or_default env (codes "DB_BACKEND") (codes "postgres")) in
    if str_eq backend (codes "postgres")
    then proceeds postgres
    else if str_eq backend (codes "mongo")
    then proceeds mongo
    else failure

-- Nothing where it throws.
unfoldable pub get_auth_method : Bytes → Option AuthentificationMethod
get_auth_method method =
    if str_eq method (codes "password")
    then some password
    else if str_eq method (codes "ssl")
    then some ssl
    else none

-- The database's settings before the credentials.
unfoldable pub base_db : Environment → Backend → AuthentificationMethod → DbConfig
base_db env backend method = record {
  host = get_env_or_default env (codes "DB_HOST") (codes "localhost");
  port =
      get_env_or_default env (codes "DB_PORT")
        (elim backend [ mongo ↦ codes "27017" | postgres ↦ codes "5432" ]);
  user = [];
  password = [];
  dbname = get_env_or_default env (codes "DB_NAME") [];
  mongo_auth_source = get_env_or_default env (codes "DB_MONGO_AUTH_SOURCE") (codes "admin");
  auth_method = method;
  ssl = record { rootcert = []; cert = []; key = [] };
}

-- The `switch` over the method.
unfoldable pub with_credentials : Environment → DbConfig → Stage DbConfig
with_credentials env db = elim db.auth_method [
  | password ↦
      let user = get_env_or_default env (codes "DB_USER") [] in
      let secret = get_env_or_default env (codes "DB_PASSWORD") [] in
      if str_eq user [] || str_eq secret []
      then failure
      else proceeds (record db { user = user; password = secret })
  | ssl ↦
      let rootcert = get_env_or_default env (codes "DB_SSL_ROOTCERT") [] in
      let cert = get_env_or_default env (codes "DB_SSL_CERT") [] in
      let key = get_env_or_default env (codes "DB_SSL_KEY") [] in
      if str_eq rootcert [] || str_eq cert [] || str_eq key []
      then failure
      else proceeds (record db { ssl = record { rootcert = rootcert; cert = cert; key = key } })
]

abbrev pub from_setting : Parsed ℤ → Stage ℤ
from_setting (accepted n) = proceeds n
from_setting (refused message) = failure

abbrev pub from_option : {A : Type 0} → Option A → Stage A
from_option none = failure
from_option (some a) = proceeds a

-- The migrations, unless they are skipped.
unfoldable pub migrations : MasterHost → Environment → Stage Unit
unfolding parse_bool_env_value run_init_db_script
migrations host env =
    let skip = parse_bool_env_value (
      get_env_or_default env (codes "MASTER_SKIP_DB_MIGRATION")
        (get_env_or_default env (codes "SKIP_DB_MIGRATION") (codes "false"))) in
    let code = run_init_db_script host env in
    if skip then proceeds tt else if same_int code (pos 0) then proceeds tt else halts code

-- What the broker and the service are made from.
pub record Setup : Type 0 where
  pub config : MasterConfig
  pub db : DbConfig
  pub reconnect_attempts : ℤ
  pub reconnect_cooldown_sec : ℤ
  pub backend : Backend

abbrev pub directory_made : MasterHost → Bytes → Stage Unit
directory_made host log_dir = if host.can_make log_dir then proceeds tt else failure

unfoldable pub set_up : MasterHost → Environment → Stage Setup
unfolding load_master_config backend_of get_auth_method base_db with_credentials migrations
set_up host env = do
  attempts ←
      from_setting (parse_validated_env_int env (codes "BROKER_RECONNECT_ATTEMPTS") (pos 5) (pos 1))
  cooldown ←
      from_setting
        (parse_validated_env_int env (codes "BROKER_RECONNECT_COOLDOWN_SEC") (pos 2) (pos 0))
  backend ← backend_of env
  method ←
      from_option
        (get_auth_method (get_env_or_default env (codes "DB_AUTHMODE") (codes "password")))
  db ← with_credentials env (base_db env backend method)
  made ← directory_made host (load_master_config env).log_dir
  migrated ← migrations host env
  proceeds (record {
    config = load_master_config env;
    db = db;
    reconnect_attempts = attempts;
    reconnect_cooldown_sec = cooldown;
    backend = backend;
  })

abbrev pub from_loaded : Loaded → Stage Environment
from_loaded (loaded env) = proceeds env
from_loaded (failed error) = failure

-- The environment behind `--env-file`.
abbrev pub master_env : MasterHost → Option Bytes → Environment → Stage Environment
master_env host none env = proceeds env
master_env host (some path) env = from_loaded (load_env_file_to_env path (host.read_file path) env)

unfoldable pub master_main : MasterHost → List Bytes → Environment → Stage Setup
unfolding parse_master_args set_up
master_main host words env = do
  env_file ← parse_master_args none words
  env' ← master_env host env_file env
  set_up host env'
