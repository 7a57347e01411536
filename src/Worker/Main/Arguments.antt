-- ===== src/Worker/Main/Arguments.antt =====
-- `ParseArgs` of src/worker/main.cpp.
use distributed_computing.Prelude.{
  ◌≡◌, refl, ◌⊎◌, inl, inr, true, Option, none, some, ◌++◌, List, [], ◌∷◌, Bytes, codes, str_eq,
  str_eq_iff, ◌==◌, if◌then◌else◌, Bool-cases, arith,
}
use mathlib.Core.Option.{some-injective}
use mathlib.Core.Path.{subst}
use distributed_computing.Worker.Main.{
  WorkerArgs, parsed, Word, once, help, env_file_next, agent_id_next, unknown, env_file_is,
  agent_id_is, is_either, parse_args, word_of, after_prefix,
}

-- The grammar of the command line: what words say, with the settings before and after them.
pub data Says : List Bytes → WorkerArgs → WorkerArgs → Type 0 where
  nothing : {a : WorkerArgs} → Says [] a a
  once_word :
      {rest : List Bytes} {a b : WorkerArgs}
      → Says rest (record a { run_once = true }) b
      → Says (codes "--once" ∷ rest) a b
  env_file_long :
      {path : Bytes} {rest : List Bytes} {a b : WorkerArgs}
      → Says rest (record a { env_file = some path }) b
      → Says (codes "--env-file" ∷ path ∷ rest) a b
  env_file_short :
      {path : Bytes} {rest : List Bytes} {a b : WorkerArgs}
      → Says rest (record a { env_file = some path }) b
      → Says (codes "-e" ∷ path ∷ rest) a b
  env_file_inline :
      {path : Bytes} {rest : List Bytes} {a b : WorkerArgs}
      → Says rest (record a { env_file = some path }) b
      → Says ((codes "--env-file=" ++ path) ∷ rest) a b
  agent_id_long :
      {id : Bytes} {rest : List Bytes} {a b : WorkerArgs}
      → Says rest (record a { agent_id = some id }) b
      → Says (codes "--agent-id" ∷ id ∷ rest) a b
  agent_id_short :
      {id : Bytes} {rest : List Bytes} {a b : WorkerArgs}
      → Says rest (record a { agent_id = some id }) b
      → Says (codes "-a" ∷ id ∷ rest) a b
  agent_id_inline :
      {id : Bytes} {rest : List Bytes} {a b : WorkerArgs}
      → Says rest (record a { agent_id = some id }) b
      → Says ((codes "--agent-id=" ++ id) ∷ rest) a b

after_prefix-some :
    (prefix arg rest : Bytes) → after_prefix prefix arg ≡ some rest → arg ≡ prefix ++ rest
unfolding after_prefix
after_prefix-some [] arg rest h = some-injective _ _ h
after_prefix-some (c ∷ prefix) [] rest h = absurd (cc h)
after_prefix-some (c ∷ prefix) (d ∷ arg) rest h = elim (Bool-cases (c == d)) [
  | inl same ↦
      let tail : arg ≡ prefix ++ rest = after_prefix-some prefix arg rest (rw same at h) in
      let head : d ≡ c = ground (arith, same) in cc
  | inr other ↦ absurd (cc (rw other at h))
]

-- The spelling of a word, by what it is.
abbrev IsSpelt : Bytes → Word → Type 0
IsSpelt arg once = arg ≡ codes "--once"
IsSpelt arg help = Unit
IsSpelt arg env_file_next = (arg ≡ codes "--env-file") ⊎ (arg ≡ codes "-e")
IsSpelt arg (env_file_is path) = arg ≡ codes "--env-file=" ++ path
IsSpelt arg agent_id_next = (arg ≡ codes "--agent-id") ⊎ (arg ≡ codes "-a")
IsSpelt arg (agent_id_is id) = arg ≡ codes "--agent-id=" ++ id
IsSpelt arg unknown = Unit

either_of :
    (arg long short : Bytes) → is_either arg long short ≡ true → (arg ≡ long) ⊎ (arg ≡ short)
either_of arg long short h = elim (Bool-cases (str_eq arg long)) [
  | inl same ↦ inl ((str_eq_iff arg long).0 same)
  | inr other ↦ inr ((str_eq_iff arg short).0 (rw other at h))
]

abbrev agent_word : Bytes → Option Bytes → Word
agent_word arg o =
    if is_either arg (codes "--agent-id") (codes "-a")
    then agent_id_next
    else elim o [ some id ↦ agent_id_is id | none ↦ unknown ]

agent_word-IsSpelt :
    (arg : Bytes) (o : Option Bytes)
    → after_prefix (codes "--agent-id=") arg ≡ o
    → IsSpelt arg (agent_word arg o)
agent_word-IsSpelt arg o e = elim (Bool-cases (is_either arg (codes "--agent-id") (codes "-a"))) [
  | inl hit ↦ rw hit (either_of arg (codes "--agent-id") (codes "-a") hit)
  | inr miss ↦ rw miss (go o e)
]
  where
    go :
        (o : Option Bytes)
        → after_prefix (codes "--agent-id=") arg ≡ o
        → IsSpelt arg (elim o [ some id ↦ agent_id_is id | none ↦ unknown ])
    go none e = tt
    go (some id) e = after_prefix-some (codes "--agent-id=") arg id e

word_of-IsSpelt : (arg : Bytes) → IsSpelt arg (word_of arg)
unfolding word_of
word_of-IsSpelt arg = elim (Bool-cases (str_eq arg (codes "--once"))) [
  | inl hit ↦ rw (hit, word_of) ((str_eq_iff arg (codes "--once")).0 hit)
  | inr m1 ↦ elim (Bool-cases (is_either arg (codes "--help") (codes "-h"))) [
    | inl hit ↦ rw (m1, hit, word_of) tt
    | inr m2 ↦ elim (Bool-cases (is_either arg (codes "--env-file") (codes "-e"))) [
      | inl hit ↦ rw (m1, m2, hit, word_of) (either_of arg (codes "--env-file") (codes "-e") hit)
      | inr m3 ↦ rw (m1, m2, m3, word_of) (go (after_prefix (codes "--env-file=") arg) refl)
    ]
  ]
]
  where
    go :
        (o : Option Bytes)
        → after_prefix (codes "--env-file=") arg ≡ o
        → IsSpelt arg (elim o [
          | some path ↦ env_file_is path
          | none ↦ agent_word arg (after_prefix (codes "--agent-id=") arg)
        ])
    go none e = agent_word-IsSpelt arg (after_prefix (codes "--agent-id=") arg) refl
    go (some path) e = after_prefix-some (codes "--env-file=") arg path e

-- By what the first of the words is, as the last word and with another behind it.
last_word-Says :
    (a b : WorkerArgs) (arg : Bytes) (w : Word)
    → word_of arg ≡ w
    → IsSpelt arg w
    → parse_args a (arg ∷ []) ≡ parsed b
    → Says (arg ∷ []) a b
unfolding parse_args
last_word-Says a b arg once e spelt h =
    let same : record a { run_once = true } ≡ b = cc (rw (e, parse_args) at h) in
    rw spelt (once_word (subst (λ c. Says [] (record a { run_once = true }) c) same nothing))
last_word-Says a b arg help e spelt h = absurd (cc (rw (e, parse_args) at h))
last_word-Says a b arg env_file_next e spelt h = absurd (cc (rw (e, parse_args) at h))
last_word-Says a b arg agent_id_next e spelt h = absurd (cc (rw (e, parse_args) at h))
last_word-Says a b arg unknown e spelt h = absurd (cc (rw (e, parse_args) at h))
last_word-Says a b arg (env_file_is path) e spelt h =
    let same : record a { env_file = some path } ≡ b = cc (rw (e, parse_args) at h) in
    rw spelt
      (env_file_inline (subst (λ c. Says [] (record a { env_file = some path }) c) same nothing))
last_word-Says a b arg (agent_id_is id) e spelt h =
    let same : record a { agent_id = some id } ≡ b = cc (rw (e, parse_args) at h) in
    rw spelt
      (agent_id_inline (subst (λ c. Says [] (record a { agent_id = some id }) c) same nothing))

-- What is read of words is what they say.
abbrev IsRead : List Bytes → Type 0
IsRead words = (a b : WorkerArgs) → parse_args a words ≡ parsed b → Says words a b

word-Says :
    (a b : WorkerArgs) (arg value : Bytes) (rest : List Bytes) (w : Word)
    → word_of arg ≡ w
    → IsSpelt arg w
    → IsRead (value ∷ rest)
    → IsRead rest
    → parse_args a (arg ∷ value ∷ rest) ≡ parsed b
    → Says (arg ∷ value ∷ rest) a b
unfolding parse_args
word-Says a b arg value rest once e spelt after skipped h =
    rw spelt (once_word (after _ b (rw (e, parse_args) at h)))
word-Says a b arg value rest help e spelt after skipped h = absurd (cc (rw (e, parse_args) at h))
word-Says a b arg value rest unknown e spelt after skipped h = absurd (cc (rw (e, parse_args) at h))
word-Says a b arg value rest env_file_next e (inl spelt) after skipped h =
    rw spelt (env_file_long (skipped _ b (rw (e, parse_args) at h)))
word-Says a b arg value rest env_file_next e (inr spelt) after skipped h =
    rw spelt (env_file_short (skipped _ b (rw (e, parse_args) at h)))
word-Says a b arg value rest agent_id_next e (inl spelt) after skipped h =
    rw spelt (agent_id_long (skipped _ b (rw (e, parse_args) at h)))
word-Says a b arg value rest agent_id_next e (inr spelt) after skipped h =
    rw spelt (agent_id_short (skipped _ b (rw (e, parse_args) at h)))
word-Says a b arg value rest (env_file_is path) e spelt after skipped h =
    rw spelt (env_file_inline (after _ b (rw (e, parse_args) at h)))
word-Says a b arg value rest (agent_id_is id) e spelt after skipped h =
    rw spelt (agent_id_inline (after _ b (rw (e, parse_args) at h)))

pub parse_args-Says : (words : List Bytes) → IsRead words
unfolding parse_args
parse_args-Says [] a b h = let same : a ≡ b = cc h in subst (λ c. Says [] a c) same nothing
parse_args-Says (arg ∷ []) a b h = last_word-Says a b arg (word_of arg) refl (word_of-IsSpelt arg) h
parse_args-Says (arg ∷ value ∷ rest) a b h =
    word-Says a b arg value rest (word_of arg) refl (word_of-IsSpelt arg)
      (parse_args-Says (value ∷ rest)) (parse_args-Says rest) h

-- A value that stands behind its option as a word of its own, or behind the option's short name, means
-- what it means written into the option's word.
parse_args_spellings :
    (args : WorkerArgs) (value : Bytes) (rest : List Bytes)
    → (parse_args args (codes "--env-file" ∷ value ∷ rest)
        ≡ parse_args args ((codes "--env-file=" ++ value) ∷ rest))
      × (parse_args args (codes "-e" ∷ value ∷ rest)
          ≡ parse_args args ((codes "--env-file=" ++ value) ∷ rest))
      × (parse_args args (codes "--agent-id" ∷ value ∷ rest)
          ≡ parse_args args ((codes "--agent-id=" ++ value) ∷ rest))
      × (parse_args args (codes "-a" ∷ value ∷ rest)
          ≡ parse_args args ((codes "--agent-id=" ++ value) ∷ rest))
unfolding parse_args word_of after_prefix str_eq
parse_args_spellings args value [] = (refl, refl, refl, refl)
parse_args_spellings args value (next ∷ rest) = (refl, refl, refl, refl)
