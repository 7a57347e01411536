-- ===== src/Tests/Text.antt =====
-- Texts, statuses and identifiers.
use distributed_computing.Prelude.{
  negsuc, pos, str_eq, ◌≡◌, ◌≢◌, ◌↔◌, ◌≤◌, ◌<◌, refl, true, some, [], ◌∷◌, codes, arith,
}
use distributed_computing.Common.StringUtils.{to_lower_copy, is_valid_utf8, sanitize_utf8_lossy}
use distributed_computing.Common.StringUtils.Utf8.{
  is_valid_utf8-sanitize_utf8_lossy, sanitize_utf8_lossy_fixed,
}
use distributed_computing.Common.Numbers.{to_string_long, numeral, stoll, to_string, int64_max}
use distributed_computing.Common.Env.{Environment, get_env, get_env_int_or_default, strtol, to_int}
use distributed_computing.Common.Env.Printed.{get_env_int_or_default-to_string_long}
use distributed_computing.Broker.Status.{
  TaskState.succeeded, AgentStatus.offline, task_state_from_api, task_state_to_db,
  task_state_to_api, agent_status_from_api, agent_status_to_db, agent_status_to_api,
}
use distributed_computing.Broker.Status.Spelling.{
  task_state_from_api_iff, task_state_round_trip, agent_status_round_trip,
}
use distributed_computing.Master.Mappers.Parse.{accepted}
use distributed_computing.Master.Config.{parse_validated_env_int}
use distributed_computing.Master.Config.Range.{IsSetting, parse_validated_env_int-IsSetting}
use distributed_computing.Master.Mappers.{all_digits, parse_task_id}
use distributed_computing.Master.Mappers.Ids.{parse_task_id-to_string, parse_task_id-bounds}

-- A two-byte sequence that is cut off.
is_valid_utf8-sanitize_utf8_lossy_example :
    is_valid_utf8 (sanitize_utf8_lossy (104 ∷ 0xC3 ∷ [])) ≡ true
is_valid_utf8-sanitize_utf8_lossy_example = is_valid_utf8-sanitize_utf8_lossy (104 ∷ 0xC3 ∷ [])

sanitize_utf8_lossy_fixed_example :
    ((sanitize_utf8_lossy (0xC3 ∷ 0xA9 ∷ []) ≡ 0xC3 ∷ 0xA9 ∷ [])
      ↔ (is_valid_utf8 (0xC3 ∷ 0xA9 ∷ []) ≡ true))
    × (sanitize_utf8_lossy (sanitize_utf8_lossy (0xC3 ∷ 0xA9 ∷ []))
        ≡ sanitize_utf8_lossy (0xC3 ∷ 0xA9 ∷ []))
sanitize_utf8_lossy_fixed_example = sanitize_utf8_lossy_fixed (0xC3 ∷ 0xA9 ∷ [])

task_state_from_api_iff_example :
    (task_state_from_api (codes "SUCCeeded") ≡ some succeeded)
    ↔ (to_lower_copy (codes "SUCCeeded") ≡ task_state_to_api succeeded)
task_state_from_api_iff_example = task_state_from_api_iff (codes "SUCCeeded") succeeded

task_state_round_trip_example :
    (task_state_from_api (task_state_to_db succeeded) ≡ some succeeded)
    × (task_state_from_api (task_state_to_api succeeded) ≡ some succeeded)
task_state_round_trip_example = task_state_round_trip succeeded

agent_status_round_trip_example :
    (agent_status_from_api (agent_status_to_db offline) ≡ some offline)
    × (agent_status_from_api (agent_status_to_api offline) ≡ some offline)
agent_status_round_trip_example = agent_status_round_trip offline

parse_task_id-to_string_example : parse_task_id (to_string 42) ≡ some 42
parse_task_id-to_string_example = parse_task_id-to_string 42 (omega arith) (omega arith)

-- The conversion computes.
parse_42 : parse_task_id (codes "42") ≡ some 42
unfolding parse_task_id str_eq stoll
parse_42 = refl

parse_task_id-bounds_example :
    (all_digits (codes "42") ≡ true) × (codes "42" ≢ []) × (0 < 42) × (42 ≤ int64_max)
parse_task_id-bounds_example = parse_task_id-bounds (codes "42") 42 parse_42

abbrev variables : Environment
variables = (codes "HOST", codes "db") ∷ (codes "PORT", codes "5432") ∷ []

abbrev offsets : Environment
offsets = (codes "OFFSET", codes "-12") ∷ []

offset_text : get_env offsets (codes "OFFSET") ≡ some (to_string_long (negsuc 11))
unfolding get_env str_eq to_string_long to_string
offset_text = refl

get_env_int_or_default-to_string_long_example :
    get_env_int_or_default offsets (codes "OFFSET") (pos 1) ≡ negsuc 11
get_env_int_or_default-to_string_long_example =
    get_env_int_or_default-to_string_long offsets (codes "OFFSET") (pos 1) (negsuc 11) (omega arith)
      offset_text

-- A variable that is set to nothing is read as zero, not as the default.
empty_port : get_env_int_or_default ((codes "PORT", []) ∷ []) (codes "PORT") (pos 1) ≡ pos 0
unfolding get_env_int_or_default get_env strtol to_int str_eq numeral
empty_port = refl

parse_validated_env_int-IsSetting_example :
    IsSetting variables
      (codes "PORT")
      (pos 8080)
      (pos 1)
      (parse_validated_env_int variables (codes "PORT") (pos 8080) (pos 1))
parse_validated_env_int-IsSetting_example =
    parse_validated_env_int-IsSetting variables (codes "PORT") (pos 8080) (pos 1) refl

-- The port is accepted.
port_setting :
    parse_validated_env_int variables (codes "PORT") (pos 8080) (pos 1) ≡ accepted (pos 5432)
unfolding parse_validated_env_int get_env strtol to_int str_eq numeral
port_setting = refl
