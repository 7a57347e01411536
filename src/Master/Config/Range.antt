-- ===== src/Master/Config/Range.antt =====
-- `ParseValidatedEnvInt` of src/master/main.cpp.
use distributed_computing.Prelude.{
  str_eq_iff, ◌≡◌, ◌≢◌, refl, sym, ap, ◌∙◌, true, false, none, some, Option-cases, Bool-cases, ◌⊎◌,
  inl, inr, [], Bytes, ℤ, pos, leb_ℤ, negsuc, str_eq, arith,
}
use distributed_computing.Common.Numbers.{int_max}
use distributed_computing.Common.Env.{Environment, get_env, strtol, to_int}
use distributed_computing.Common.Env.Printed.{to_int-pos}
use distributed_computing.Master.Mappers.Parse.{Parsed, accepted, refused}
use distributed_computing.Master.Config.{parse_validated_env_int}

to_int_same :
    (min_value x : ℤ)
    → leb_ℤ (pos 0) min_value ≡ true
    → leb_ℤ min_value x ≡ true
    → leb_ℤ x (pos int_max) ≡ true
    → to_int x ≡ x
to_int_same min_value (pos n) low h k = to_int-pos n (ground (arith, k))
to_int_same (pos m) (negsuc n) low h k = absurd (ground (arith, h))
to_int_same (negsuc m) (negsuc n) low h k = absurd (ground (arith, low))

-- The text is a number from the minimum to the largest `int`, and nothing else.
abbrev pub IsNumber : ℤ → Bytes → ℤ → Type 0
IsNumber min_value value n =
    (value ≢ [])
    × (strtol value ≡ (n, []))
    × (leb_ℤ min_value n ≡ true)
    × (leb_ℤ n (pos int_max) ≡ true)

-- What is accepted: the default where the variable is missing, and else the number that the whole text
-- is. What is refused: a text that is no such number.
abbrev pub IsSetting : Environment → Bytes → ℤ → ℤ → Parsed ℤ → Type 0
IsSetting env key default_value min_value (refused message) =
    (value : Bytes) × (get_env env key ≡ some value) × ((n : ℤ) → ¬ IsNumber min_value value n)
IsSetting env key default_value min_value (accepted v) =
    ((get_env env key ≡ none) × (v ≡ default_value))
    ⊎ ((value : Bytes) × (get_env env key ≡ some value) × IsNumber min_value value v)

read_pair : (value rest : Bytes) → (strtol value).1 ≡ rest → strtol value ≡ ((strtol value).0, rest)
read_pair value rest e = ap (λ r. ((strtol value).0, r)) e

-- For a minimum that is not negative: a missing variable gives the default; a variable that is set is
-- accepted exactly when its text is not empty and is, as a whole, a number from the minimum to the
-- largest `int`, and then that number is the setting.
pub parse_validated_env_int-IsSetting :
    (env : Environment) (key : Bytes) (default_value min_value : ℤ)
    → leb_ℤ (pos 0) min_value ≡ true
    → IsSetting env key default_value min_value
        (parse_validated_env_int env key default_value min_value)
unfolding parse_validated_env_int
parse_validated_env_int-IsSetting env key default_value min_value low_min =
    elim (Option-cases (get_env env key)) [
      | inl missing ↦ rw (missing, parse_validated_env_int) (inl (missing, refl))
      | inr (value, e) ↦ elim (Bool-cases (str_eq value [])) [
        | inl empty ↦
            rw (e, empty, parse_validated_env_int)
              (value, e, λ n (h : IsNumber min_value value n). h.0 ((str_eq_iff value []).0 empty))
        | inr given ↦ elim (Bool-cases (str_eq (strtol value).1 [])) [
          | inr trailing ↦
              rw (e, given, trailing, parse_validated_env_int)
                (value, e, λ n (h : IsNumber min_value value n). not_whole value n trailing h.1)
          | inl whole ↦ elim (Bool-cases (leb_ℤ min_value (strtol value).0)) [
            | inr low ↦
                rw (e, given, whole, low, parse_validated_env_int)
                  (value, e, λ n (h : IsNumber min_value value n). too_low value n low h)
            | inl high_enough ↦ elim (Bool-cases (leb_ℤ (strtol value).0 (pos int_max))) [
              | inr high ↦
                  rw (e, given, whole, high_enough, high, parse_validated_env_int)
                    (value, e, λ n (h : IsNumber min_value value n). too_high value n high h)
              | inl fits ↦
                  rw (e, given, whole, high_enough, fits, parse_validated_env_int)
                    (rw (to_int_same min_value (strtol value).0 low_min high_enough fits) (
                      inr (
                        value,
                        e,
                        (
                          (λ empty. absurd (cc (sym given ∙ (str_eq_iff value []).1 empty))),
                          read_pair value [] ((str_eq_iff (strtol value).1 []).0 whole),
                          high_enough,
                          fits,
                        ),
                      )))
            ]
          ]
        ]
      ]
    ]
  where
    not_whole :
        (value : Bytes) (n : ℤ) → str_eq (strtol value).1 [] ≡ false → ¬ (strtol value ≡ (n, []))
    not_whole value n trailing h =
        absurd (cc (sym trailing ∙ (str_eq_iff (strtol value).1 []).1 (ap (λ p. p.1) h)))

    too_low :
        (value : Bytes) (n : ℤ)
        → leb_ℤ min_value (strtol value).0 ≡ false
        → ¬ IsNumber min_value value n
    too_low value n low (given, read, high_enough, fits) =
        absurd (cc (sym low ∙ ap (λ p. leb_ℤ min_value p.0) read ∙ high_enough))

    too_high :
        (value : Bytes) (n : ℤ)
        → leb_ℤ (strtol value).0 (pos int_max) ≡ false
        → ¬ IsNumber min_value value n
    too_high value n high (given, read, high_enough, fits) =
        absurd (cc (sym high ∙ ap (λ p. leb_ℤ p.0 (pos int_max)) read ∙ fits))
