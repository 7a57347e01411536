-- ===== src/Cli/Options.antt =====
-- The global options of src/cli/main.cpp and the address that it makes of them.
pub mod Sane
use distributed_computing.Prelude.{
  ℕ, ◌++◌, Bool, true, false, ◌||◌, Option, none, some, List, [], ◌∷◌, Bytes, codes, ℤ, pos, ◌==◌,
  leb_ℤ, str_eq, if◌then◌else◌,
}
use distributed_computing.Common.StringUtils.{to_lower_copy}
use distributed_computing.Common.Numbers.{to_string_long}
use distributed_computing.Common.Env.{
  Environment, get_env_or_default, get_env_int_or_default, strtol, to_int,
}
use distributed_computing.Master.Mappers.Parse.{Parsed, accepted, refused}
use distributed_computing.Worker.Main.{after_prefix}

pub record GlobalOptions : Type 0 where
  pub base_url : Bytes
  pub host : Bytes
  pub port : ℤ
  pub timeout_ms : ℤ
  pub retries : ℤ
  pub retries_timeout : ℤ
  pub json_output : Bool
  pub verbose : Bool
  pub help : Bool

unfoldable pub parse_int : Bytes → Option ℤ
parse_int value =
    if str_eq value []
    then none
    else if str_eq (strtol value).1 []
    then some (to_int (strtol value).0)
    else none

unfoldable pub default_global_options : Environment → GlobalOptions
default_global_options env = record {
  base_url = [];
  host = get_env_or_default env (codes "MASTER_HOST") (codes "127.0.0.1");
  port = get_env_int_or_default env (codes "MASTER_PORT") (pos 8080);
  timeout_ms = pos 5000;
  retries = pos 10;
  retries_timeout = pos 5;
  json_output = false;
  verbose = false;
  help = false;
}

unfoldable pub starts_with : Bytes → Bytes → Bool
unfolding after_prefix
starts_with value prefix = elim (after_prefix prefix value) [ none ↦ false | some rest ↦ true ]

unfoldable pub ensure_scheme : Bytes → Bytes
unfolding starts_with
ensure_scheme base_url =
    if starts_with base_url (codes "http://") || starts_with base_url (codes "https://")
    then base_url
    else codes "http://" ++ base_url

unfoldable pub build_base_url : GlobalOptions → Bytes
unfolding ensure_scheme
build_base_url options =
    if str_eq options.base_url []
    then codes "http://"
      ++ (if str_eq options.host [] then codes "127.0.0.1" else options.host)
      ++ codes ":"
      ++ to_string_long (if leb_ℤ options.port (pos 0) then pos 8080 else options.port)
    else ensure_scheme options.base_url

pub data Setting : Type 0 where
  set_base_url set_host set_port set_retries set_retries_timeout set_timeout_ms : Setting

pub data Flag : Type 0 where
  set_json set_verbose : Flag

-- What a word is, by the tests of the loop in their order.
pub data OptionWord : Type 0 where
  ask_help unknown positional : OptionWord
  next_value : Setting → OptionWord
  inline_value : Setting → Bytes → OptionWord
  flag : Flag → Bool → OptionWord
  bad_flag : Bytes → OptionWord

-- `ConsumeOptionValue`, up to the taking of the next word.
abbrev pub consume_option_value : Setting → Bytes → Bytes → OptionWord → OptionWord
consume_option_value setting name arg otherwise =
    if str_eq arg name then next_value setting else elim (after_prefix (name ++ codes "=") arg) [
      | none ↦ otherwise
      | some value ↦ inline_value setting value
    ]

abbrev pub consume_bool_flag : Flag → Bytes → Bytes → OptionWord → OptionWord
consume_bool_flag which name arg otherwise =
    if str_eq arg name then flag which true else elim (after_prefix (name ++ codes "=") arg) [
      | none ↦ otherwise
      | some value ↦
          let lower = to_lower_copy value in
          if str_eq lower (codes "true") || str_eq lower (codes "1")
          then flag which true
          else if str_eq lower (codes "false") || str_eq lower (codes "0")
          then flag which false
          else bad_flag (codes "Invalid boolean value for " ++ name)
    ]

abbrev pub starts_with_dash : Bytes → Bool
starts_with_dash [] = false
starts_with_dash (c ∷ rest) = c == b'-'

unfoldable pub option_word : Bytes → OptionWord
option_word arg =
    if str_eq arg (codes "-h") || str_eq arg (codes "--help")
    then ask_help
    else consume_option_value set_base_url (codes "--base-url") arg (
        consume_option_value set_host (codes "--host") arg (
          consume_option_value set_port (codes "--port") arg (
            consume_option_value set_retries (codes "--retries") arg (
              consume_option_value set_retries_timeout (codes "--retries-timeout") arg (
                consume_option_value set_timeout_ms (codes "--timeout-ms") arg (
                  consume_bool_flag set_json (codes "--json") arg (
                    consume_bool_flag set_verbose (codes "--verbose") arg
                      (if starts_with_dash arg then unknown else positional))))))))

unfoldable pub name_of : Setting → Bytes
name_of set_base_url = codes "--base-url"
name_of set_host = codes "--host"
name_of set_port = codes "--port"
name_of set_retries = codes "--retries"
name_of set_retries_timeout = codes "--retries-timeout"
name_of set_timeout_ms = codes "--timeout-ms"

-- The test of the settings that are counts.
unfoldable pub positive : Bytes → Bytes → Parsed ℤ
unfolding parse_int
positive what value = elim (parse_int value) [
  | none ↦ refused (codes "Invalid " ++ what ++ codes ": " ++ value)
  | some n ↦
      if leb_ℤ n (pos 0)
      then refused (codes "Invalid " ++ what ++ codes ": " ++ value)
      else accepted n
]

abbrev pub updated : (ℤ → GlobalOptions) → Parsed ℤ → Parsed GlobalOptions
updated set (accepted n) = accepted (set n)
updated set (refused message) = refused message

unfoldable pub apply_setting : Setting → Bytes → GlobalOptions → Parsed GlobalOptions
unfolding positive parse_int
apply_setting set_base_url value o = accepted (record o { base_url = value })
apply_setting set_host value o = accepted (record o { host = value })
apply_setting set_port value o = elim (parse_int value) [
  | none ↦ refused (codes "Invalid port: " ++ value)
  | some n ↦ accepted (record o { port = n })
]
apply_setting set_retries value o =
    updated (λ n. record o { retries = n }) (positive (codes "retries") value)
apply_setting set_retries_timeout value o =
    updated (λ n. record o { retries_timeout = n }) (positive (codes "retries-timeout") value)
apply_setting set_timeout_ms value o =
    updated (λ n. record o { timeout_ms = n }) (positive (codes "timeout-ms") value)

abbrev pub apply_flag : Flag → Bool → GlobalOptions → GlobalOptions
apply_flag set_json b o = record o { json_output = b }
apply_flag set_verbose b o = record o { verbose = b }

abbrev pub Options : Type 0
Options = Parsed (GlobalOptions × List Bytes)

abbrev pub and_parse : Parsed GlobalOptions → (GlobalOptions → Options) → Options
and_parse (accepted o) next = next o
and_parse (refused message) next = refused message

-- The loop: the options, and the words from the first that is none.
unfoldable pub parse_options : GlobalOptions → List Bytes → Options
unfolding option_word apply_setting name_of
parse_options o [] = accepted (o, [])
parse_options o (arg ∷ []) = elim (option_word arg) [
  | ask_help ↦ accepted (record o { help = true }, [])
  | unknown ↦ refused (codes "Unknown option: " ++ arg)
  | positional ↦ accepted (o, arg ∷ [])
  | next_value setting ↦ refused (codes "Missing value for " ++ name_of setting)
  | inline_value setting value ↦ and_parse (apply_setting setting value o) (λ o'. accepted (o', []))
  | flag which b ↦ accepted (apply_flag which b o, [])
  | bad_flag message ↦ refused message
]
parse_options o (arg ∷ next ∷ rest) = elim (option_word arg) [
  | ask_help ↦ parse_options (record o { help = true }) (next ∷ rest)
  | unknown ↦ refused (codes "Unknown option: " ++ arg)
  | positional ↦ accepted (o, arg ∷ next ∷ rest)
  | next_value setting ↦ and_parse (apply_setting setting next o) (λ o'. parse_options o' rest)
  | inline_value setting value ↦
      and_parse (apply_setting setting value o) (λ o'. parse_options o' (next ∷ rest))
  | flag which b ↦ parse_options (apply_flag which b o) (next ∷ rest)
  | bad_flag message ↦ refused message
]

unfoldable pub parse_global_options : Environment → List Bytes → Options
unfolding default_global_options parse_options
parse_global_options env args = parse_options (default_global_options env) args
