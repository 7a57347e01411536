-- ===== src/Common/Env/Printed.antt =====
-- `GetEnvIntOrDefault` of src/common/env.cpp on a printed number.
use distributed_computing.Prelude.{
  ℕ, ◌≤◌, ◌≡◌, refl, true, some, [], Bytes, ℤ, pos, negsuc, ◌+◌, ◌-◌, ◌==◌, false, leb, ltb, ◌%◌,
  ◌^◌, arith, str_eq,
}
use distributed_computing.Common.Numbers.{IsInt, to_string_long, int_max, int64_max}
use distributed_computing.Common.Numbers.RoundTrip.{numeral-to_string_minus, numeral-to_string}
use distributed_computing.Common.Env.{
  Environment, get_env, get_env_int_or_default, strtol, to_int, saturated, from_bits,
}

strtol-to_string_long : (n : ℤ) → IsInt n → strtol (to_string_long n) ≡ (n, [])
unfolding strtol saturated to_string_long
strtol-to_string_long (pos n) h =
    let fits : leb n int64_max ≡ true = ground (arith, h) in
    rw (numeral-to_string n, fits, strtol) refl
strtol-to_string_long (negsuc n) h =
    let fits : leb (n + 1) int64_max ≡ true = ground (arith, h) in
    let not_zero : (n + 1 == 0) ≡ false = ground arith in
    let back : n + 1 - 1 ≡ n = omega arith in
    rw (numeral-to_string_minus (n + 1), strtol, not_zero, fits, back) refl

pub to_int-pos : (n : ℕ) → n ≤ int_max → to_int (pos n) ≡ pos n
unfolding to_int from_bits
to_int-pos n h =
    let small : n % 2 ^ 32 ≡ n = omega (arith, h) in
    let fits : ltb n (2 ^ 31) ≡ true = ground (arith, h) in rw (small, fits) refl

to_int_lem : (n : ℤ) → IsInt n → to_int n ≡ n
unfolding to_int from_bits
to_int_lem (pos n) h = to_int-pos n h
to_int_lem (negsuc n) h =
    let small : n % 2 ^ 32 ≡ n = omega (arith, h) in
    let wrapped : ltb (2 ^ 32 - 1 - n) (2 ^ 31) ≡ false = ground (arith, h) in
    let back : 2 ^ 32 - 1 - (2 ^ 32 - 1 - n) ≡ n = omega (arith, h) in
    rw (small, wrapped, back) refl

-- A variable that holds a printed number that fits an `int`, negative or not, is read as that number,
-- whatever the default.
pub get_env_int_or_default-to_string_long :
    (env : Environment) (key : Bytes) (default_value n : ℤ)
    → IsInt n
    → get_env env key ≡ some (to_string_long n)
    → get_env_int_or_default env key default_value ≡ n
unfolding get_env_int_or_default str_eq
get_env_int_or_default-to_string_long env key default_value n h e =
    rw (e, strtol-to_string_long n h, get_env_int_or_default) (to_int_lem n h)
