-- ===== src/Master/Config.antt =====
-- The reading of settings in src/master/main.cpp. The null test on the output pointer is left out:
-- every caller passes the address of a variable.
pub mod Range
use distributed_computing.Prelude.{
  ℕ, ◌+◌, Bool, ◌||◌, Option, none, some, List, [], ◌∷◌, ◌++◌, Bytes, codes, ℤ, pos, negsuc, leb_ℤ,
  not, ◌==◌, if◌then◌else◌, str_eq,
}
use distributed_computing.Common.StringUtils.{to_lower_copy}
use distributed_computing.Common.Numbers.{to_string_long, int_max}
use distributed_computing.Common.Env.{Environment, get_env, strtol, to_int}
use distributed_computing.Master.Mappers.Parse.{Parsed, accepted, refused}

unfoldable pub parse_validated_env_int : Environment → Bytes → ℤ → ℤ → Parsed ℤ
parse_validated_env_int env key default_value min_value = elim (get_env env key) [
  | none ↦ accepted default_value
  | some value ↦
      if str_eq value []
      then refused (codes "Invalid " ++ key ++ codes ": value cannot be empty")
      else if not (str_eq (strtol value).1 [])
      then refused
          (codes "Invalid " ++ key ++ codes ": expected integer, got '" ++ value ++ codes "'")
      else if not (leb_ℤ min_value (strtol value).0)
      then refused (
          codes "Invalid "
          ++ key
          ++ codes ": must be >= "
          ++ to_string_long min_value
          ++ codes ", got "
          ++ to_string_long (strtol value).0)
      else if not (leb_ℤ (strtol value).0 (pos int_max))
      then refused (codes "Invalid " ++ key ++ codes ": value is too large")
      else accepted (to_int (strtol value).0)
]
