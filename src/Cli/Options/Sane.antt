-- ===== src/Cli/Options/Sane.antt =====
-- The options that src/cli/main.cpp accepts.
use distributed_computing.Worker.Main.{after_prefix}
use distributed_computing.Prelude.{
  ◌≡◌, refl, inl, inr, Bool, true, false, str_eq, ◌||◌, List, [], ◌∷◌, Bytes, codes, ℤ, pos, leb_ℤ,
  Bool-cases, Option-cases,
}
use mathlib.Core.Path.{subst}
use distributed_computing.Common.Env.{Environment}
use distributed_computing.Master.Mappers.Parse.{Parsed, accepted, refused}
use distributed_computing.Cli.Options.{
  starts_with, ensure_scheme, build_base_url, GlobalOptions, parse_int, default_global_options,
  Setting, set_base_url, set_host, set_port, set_retries, set_retries_timeout, set_timeout_ms, Flag,
  set_json, set_verbose, OptionWord, ask_help, unknown, positional, next_value, inline_value, flag,
  bad_flag, option_word, positive, updated, apply_setting, apply_flag, and_parse, Options,
  parse_options, parse_global_options,
}

abbrev pub IsPositive : ℤ → Type 0
IsPositive n = leb_ℤ n (pos 0) ≡ false

-- The counts are positive.
abbrev pub IsSane : GlobalOptions → Type 0
IsSane o = IsPositive o.timeout_ms × IsPositive o.retries × IsPositive o.retries_timeout

-- The address names one of the two protocols.
abbrev pub HasScheme : Bytes → Type 0
HasScheme url = (starts_with url (codes "http://") || starts_with url (codes "https://")) ≡ true

-- The words left over start with one that is no option.
abbrev pub IsCommand : List Bytes → Type 0
IsCommand [] = Unit
IsCommand (word ∷ rest) = option_word word ≡ positional

abbrev pub IsParsed : Options → Type 0
IsParsed (refused message) = Unit
IsParsed (accepted (o, rest)) = IsSane o × IsCommand rest × HasScheme (build_base_url o)

ensure_scheme-HasScheme : (url : Bytes) → HasScheme (ensure_scheme url)
unfolding ensure_scheme starts_with after_prefix str_eq
ensure_scheme-HasScheme url =
    elim (Bool-cases (starts_with url (codes "http://") || starts_with url (codes "https://"))) [
      | inl has ↦ rw (has, ensure_scheme) has
      | inr lacks ↦ rw (lacks, ensure_scheme) refl
    ]

build_base_url-HasScheme : (o : GlobalOptions) → HasScheme (build_base_url o)
unfolding build_base_url starts_with after_prefix
build_base_url-HasScheme o = elim (Bool-cases (str_eq o.base_url [])) [
  | inl none_given ↦ rw (none_given, build_base_url) refl
  | inr given ↦ rw (given, build_base_url) (ensure_scheme-HasScheme o.base_url)
]

positive-IsPositive : (what value : Bytes) (n : ℤ) → positive what value ≡ accepted n → IsPositive n
unfolding positive
positive-IsPositive what value n h = elim (Option-cases (parse_int value)) [
  | inl none_read ↦ absurd (cc (rw (none_read, positive) at h))
  | inr (m, e) ↦ elim (Bool-cases (leb_ℤ m (pos 0))) [
    | inl low ↦ absurd (cc (rw (e, positive, low) at h))
    | inr high ↦ let same : m ≡ n = cc (rw (e, positive, high) at h) in subst IsPositive same high
  ]
]

updated-IsSane :
    (set : ℤ → GlobalOptions) (p : Parsed ℤ) (o' : GlobalOptions)
    → ((n : ℤ) → p ≡ accepted n → IsSane (set n))
    → updated set p ≡ accepted o'
    → IsSane o'
updated-IsSane set (accepted n) o' sane h =
    let same : set n ≡ o' = cc h in subst IsSane same (sane n refl)
updated-IsSane set (refused message) o' sane h = absurd (cc h)

apply_setting-IsSane :
    (s : Setting) (value : Bytes) (o o' : GlobalOptions)
    → IsSane o
    → apply_setting s value o ≡ accepted o'
    → IsSane o'
unfolding apply_setting
apply_setting-IsSane set_base_url value o o' (t, r, w) h =
    let same : record o { base_url = value } ≡ o' = cc h in subst IsSane same (t, r, w)
apply_setting-IsSane set_host value o o' (t, r, w) h =
    let same : record o { host = value } ≡ o' = cc h in subst IsSane same (t, r, w)
apply_setting-IsSane set_port value o o' (t, r, w) h = elim (Option-cases (parse_int value)) [
  | inl none_read ↦ absurd (cc (rw (none_read, apply_setting) at h))
  | inr (n, e) ↦
      let same : record o { port = n } ≡ o' = cc (rw (e, apply_setting) at h) in
      subst IsSane same (t, r, w)
]
apply_setting-IsSane set_retries value o o' (t, r, w) h =
    updated-IsSane (λ n. record o { retries = n }) (positive (codes "retries") value) o'
      (λ n e. (t, positive-IsPositive (codes "retries") value n e, w)) h
apply_setting-IsSane set_retries_timeout value o o' (t, r, w) h =
    updated-IsSane (λ n. record o { retries_timeout = n })
      (positive (codes "retries-timeout") value) o'
      (λ n e. (t, r, positive-IsPositive (codes "retries-timeout") value n e)) h
apply_setting-IsSane set_timeout_ms value o o' (t, r, w) h =
    updated-IsSane (λ n. record o { timeout_ms = n }) (positive (codes "timeout-ms") value) o'
      (λ n e. (positive-IsPositive (codes "timeout-ms") value n e, r, w)) h

apply_flag-IsSane : (f : Flag) (b : Bool) (o : GlobalOptions) → IsSane o → IsSane (apply_flag f b o)
apply_flag-IsSane set_json b o sane = sane
apply_flag-IsSane set_verbose b o sane = sane

-- What follows an accepted setting is parsed from options that are sane.
and_parse-IsParsed :
    (p : Parsed GlobalOptions) (next : GlobalOptions → Options)
    → ((o' : GlobalOptions) → p ≡ accepted o' → IsParsed (next o'))
    → IsParsed (and_parse p next)
and_parse-IsParsed (accepted o) next goes_on = goes_on o refl
and_parse-IsParsed (refused message) next goes_on = tt

-- By what the first of the words is, as the last word and with another after it.
last_word-IsParsed :
    (o : GlobalOptions) (arg : Bytes) (w : OptionWord)
    → option_word arg ≡ w
    → IsSane o
    → IsParsed (parse_options o (arg ∷ []))
unfolding parse_options
last_word-IsParsed o arg ask_help e sane =
    rw (e, parse_options) (sane, tt, build_base_url-HasScheme _)
last_word-IsParsed o arg unknown e sane = rw (e, parse_options) tt
last_word-IsParsed o arg positional e sane =
    rw (e, parse_options) (sane, e, build_base_url-HasScheme _)
last_word-IsParsed o arg (next_value setting) e sane = rw (e, parse_options) tt
last_word-IsParsed o arg (inline_value setting value) e sane =
    rw (e, parse_options)
      (and_parse-IsParsed (apply_setting setting value o) _
        (λ o' h. (apply_setting-IsSane setting value o o' sane h, tt, build_base_url-HasScheme o')))
last_word-IsParsed o arg (flag which b) e sane =
    rw (e, parse_options) (apply_flag-IsSane which b o sane, tt, build_base_url-HasScheme _)
last_word-IsParsed o arg (bad_flag message) e sane = rw (e, parse_options) tt

word-IsParsed :
    (o : GlobalOptions) (arg next : Bytes) (rest : List Bytes) (w : OptionWord)
    → option_word arg ≡ w
    → ((o' : GlobalOptions) → IsSane o' → IsParsed (parse_options o' (next ∷ rest)))
    → ((o' : GlobalOptions) → IsSane o' → IsParsed (parse_options o' rest))
    → IsSane o
    → IsParsed (parse_options o (arg ∷ next ∷ rest))
unfolding parse_options
word-IsParsed o arg next rest ask_help e after skipped sane = rw (e, parse_options) (after _ sane)
word-IsParsed o arg next rest unknown e after skipped sane = rw (e, parse_options) tt
word-IsParsed o arg next rest positional e after skipped sane =
    rw (e, parse_options) (sane, e, build_base_url-HasScheme _)
word-IsParsed o arg next rest (next_value setting) e after skipped sane =
    rw (e, parse_options)
      (and_parse-IsParsed (apply_setting setting next o) _
        (λ o' h. skipped o' (apply_setting-IsSane setting next o o' sane h)))
word-IsParsed o arg next rest (inline_value setting value) e after skipped sane =
    rw (e, parse_options)
      (and_parse-IsParsed (apply_setting setting value o) _
        (λ o' h. after o' (apply_setting-IsSane setting value o o' sane h)))
word-IsParsed o arg next rest (flag which b) e after skipped sane =
    rw (e, parse_options) (after _ (apply_flag-IsSane which b o sane))
word-IsParsed o arg next rest (bad_flag message) e after skipped sane = rw (e, parse_options) tt

parse_options-IsParsed :
    (args : List Bytes) (o : GlobalOptions) → IsSane o → IsParsed (parse_options o args)
unfolding parse_options
parse_options-IsParsed [] o sane = (sane, tt, build_base_url-HasScheme _)
parse_options-IsParsed (arg ∷ []) o sane = last_word-IsParsed o arg _ refl sane
parse_options-IsParsed (arg ∷ next ∷ rest) o sane =
    word-IsParsed o arg next rest _ refl (parse_options-IsParsed (next ∷ rest))
      (parse_options-IsParsed rest) sane

-- For every environment and words: when `parse_global_options` accepts them,
-- its timeout, its number of tries and the wait between them are positive, the
-- words it leaves over are none or start with one that is no option, and the
-- address that `build_base_url` makes of the options starts with "http://" or
-- "https://".
pub parse_global_options-IsParsed :
    (env : Environment) (args : List Bytes) → IsParsed (parse_global_options env args)
unfolding parse_global_options default_global_options
parse_global_options-IsParsed env args = parse_options-IsParsed args _ (refl, refl, refl)
