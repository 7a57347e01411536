-- ===== src/Broker/Constraints.antt =====
-- The JSON helpers that src/broker/pg_broker.cpp and src/broker/mongo_broker.cpp both define.
pub mod Kept
use distributed_computing.Prelude.{none, some, [], Bool, Bytes, codes, str_eq, if◌then◌else◌}
use distributed_computing.Json.{JsonLib}

module _ (j : JsonLib) where
  open j use {
    Json, parse, field, set_field, is_object, is_array, is_string, is_number_integer, empty_object,
  }

  unfoldable pub parse_json_or_default : Bytes → Json → Json
  parse_json_or_default raw fallback =
      if str_eq raw [] then fallback else elim (parse raw) [ none ↦ fallback | some v ↦ v ]

  -- `if (input.contains(key) && test(input[key])) constraints[key] = input[key]`
  unfoldable pub copy_field : Json → Bytes → (Json → Bool) → Json → Json
  copy_field input key test constraints = elim (field input key) [
    | none ↦ constraints
    | some v ↦ if test v then set_field constraints key v else constraints
  ]

  unfoldable pub normalize_constraints : Json → Json
  unfolding copy_field
  normalize_constraints input =
      if is_object input
      then copy_field input (codes "labels") is_array (
          copy_field input (codes "ram_mb") is_number_integer (
            copy_field input (codes "cpu_cores") is_number_integer
              (copy_field input (codes "os") is_string empty_object)))
      else empty_object
