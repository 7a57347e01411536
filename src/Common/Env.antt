-- ===== src/Common/Env.antt =====
-- src/common/env.cpp, over the environment as a list of variables. The null test on a key is left out:
-- every caller passes a literal.
pub mod Printed
use distributed_computing.Prelude.{
  ℕ, Bool, ◌-◌, ◌%◌, ◌^◌, Option, none, some, List, [], ◌∷◌, Bytes, ℤ, pos, negsuc, ltb, leb, ◌==◌,
  if◌then◌else◌, str_eq, look,
}
use distributed_computing.Common.Numbers.{Numeral, numeral, int64_max}

abbrev pub Environment : Type 0
Environment = List (Bytes × Bytes)

unfoldable pub get_env : Environment → Bytes → Option Bytes
unfolding look
get_env env key = look env key

unfoldable pub get_env_or_default : Environment → Bytes → Bytes → Bytes
unfolding get_env
get_env_or_default env key default_value = elim (get_env env key) [
  | none ↦ default_value
  | some value ↦ value
]

-- The value of a `long`, at its limits if the number is past them.
unfoldable pub saturated : Numeral → ℤ
saturated n =
    if n.negative
    then (if n.magnitude == 0
        then pos 0
        else if leb n.magnitude int64_max
        then negsuc (n.magnitude - 1)
        else negsuc int64_max)
    else if leb n.magnitude int64_max
    then pos n.magnitude
    else pos int64_max

-- `std::strtol(s, &end, 10)`: the value, and the text at `end`.
unfoldable pub strtol : Bytes → ℤ × Bytes
unfolding numeral saturated
strtol s = elim (numeral s) [ none ↦ (pos 0, s) | some n ↦ (saturated n, n.rest) ]

-- An `int` from its 32 bits.
unfoldable pub from_bits : ℕ → ℤ
from_bits m = if ltb m (2 ^ 31) then pos m else negsuc (2 ^ 32 - 1 - m)

-- `static_cast<int>` of a `long`.
unfoldable pub to_int : ℤ → ℤ
unfolding from_bits
to_int (pos n) = from_bits (n % 2 ^ 32)
to_int (negsuc n) = from_bits (2 ^ 32 - 1 - n % 2 ^ 32)

unfoldable pub get_env_int_or_default : Environment → Bytes → ℤ → ℤ
unfolding get_env strtol to_int
get_env_int_or_default env key default_value = elim (get_env env key) [
  | none ↦ default_value
  | some value ↦ if str_eq (strtol value).1 [] then to_int (strtol value).0 else default_value
]
