-- ===== src/Tests/Starts.antt =====
-- A master that starts.
use distributed_computing.Prelude.{◌≡◌, refl, true, some, List, [], ◌∷◌, Bytes, codes, pos, str_eq}
use distributed_computing.Common.Env.{
  get_env, strtol, to_int, get_env_or_default, get_env_int_or_default,
}
use distributed_computing.Common.EnvFile.{load_env_file_to_env}
use distributed_computing.Broker.Postgres.Connection.{AuthentificationMethod.password}
use distributed_computing.Worker.Config.{to_size_t}
use distributed_computing.Master.Config.{parse_validated_env_int}
use distributed_computing.Master.Start.{
  MasterHost, proceeds, exit_status, Backend.postgres, Setup, master_main,
}
use distributed_computing.Master.Start.Ready.{IsReady, master_main-IsReady}

abbrev host : MasterHost
host = record {
  read_file = λ path. some (codes "DB_USER=dc\nDB_PASSWORD = pw\nBROKER_RECONNECT_ATTEMPTS=3\n");
  can_make = λ dir. true;
  system = λ command. exit_status 0;
}

abbrev words : List Bytes
words = codes "--env-file=.env" ∷ []

abbrev setup : Setup
setup = record {
  config = record {
    host = codes "0.0.0.0";
    port = pos 8080;
    heartbeat_interval_sec = pos 30;
    offline_after_sec = pos 120;
    log_dir = codes "logs";
    max_log_upload_bytes = 10485760;
  };
  db = record {
    host = codes "localhost";
    port = codes "5432";
    user = codes "dc";
    password = codes "pw";
    dbname = [];
    mongo_auth_source = codes "admin";
    auth_method = password;
    ssl = record { rootcert = []; cert = []; key = [] };
  };
  reconnect_attempts = pos 3;
  reconnect_cooldown_sec = pos 2;
  backend = postgres;
}

host_starts : master_main host words [] ≡ proceeds setup
unfolding master_main str_eq load_env_file_to_env parse_validated_env_int get_env strtol
    get_env_or_default get_env_int_or_default to_size_t to_int
host_starts = refl

master_main-IsReady_example : IsReady setup
master_main-IsReady_example = master_main-IsReady host words [] setup host_starts
