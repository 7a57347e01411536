-- ===== src/Common/EnvFile.antt =====
-- The reading of an env file in src/worker/main.cpp and src/master/main.cpp, which hold the same code.
-- `setenv` fails on an empty name; that memory runs out is left aside.
use distributed_computing.Prelude.{
  ℕ, ◌+◌, ◌++◌, Bool, true, false, ◌&&◌, ◌||◌, Option, none, some, List, [], ◌∷◌, Bytes, codes,
  ◌==◌, str_eq, if◌then◌else◌, put,
}
use distributed_computing.Common.Numbers.{to_string}
use distributed_computing.Common.Env.{Environment}

unfoldable pub is_whitespace : ℕ → Bool
is_whitespace c = (c == 32) || (c == 9) || (c == 13) || (c == 10)

abbrev pub is_empty : Bytes → Bool
is_empty [] = true
is_empty (c ∷ rest) = false

unfoldable pub trim_end : Bytes → Bytes
unfolding is_whitespace
trim_end [] = []
trim_end (c ∷ rest) =
    let more = trim_end rest in if is_whitespace c && is_empty more then [] else c ∷ more

unfoldable pub trim_whitespace : Bytes → Bytes
unfolding is_whitespace trim_end
trim_whitespace [] = []
trim_whitespace (c ∷ rest) =
    let more = trim_whitespace rest in if is_whitespace c then more else trim_end (c ∷ rest)

-- The bytes up to the first NUL.
unfoldable pub c_str : Bytes → Bytes
c_str [] = []
c_str (c ∷ rest) = let more = c_str rest in if c == 0 then [] else c ∷ more

-- `setenv` with overwriting.
unfoldable pub set_env : Environment → Bytes → Bytes → Environment
unfolding put
set_env env key value = put env key value

-- Nothing where it fails.
unfoldable pub set_env_var : Environment → Bytes → Bytes → Option Environment
unfolding c_str set_env
set_env_var env key value =
    if str_eq (c_str key) [] then none else some (set_env env (c_str key) (c_str value))

-- What stands before and behind the first `=`.
unfoldable pub split_at_equals : Bytes → Option (Bytes × Bytes)
split_at_equals [] = none
split_at_equals (c ∷ rest) =
    let more = split_at_equals rest in
    if c == b'='
    then some ([], rest)
    else elim more [ none ↦ none | some (key, value) ↦ some (c ∷ key, value) ]

-- `trimmed.empty() || trimmed[0] == '#'`
unfoldable pub is_skipped : Bytes → Bool
is_skipped [] = true
is_skipped (c ∷ rest) = c == b'#'

pub data Loaded : Type 0 where
  loaded : Environment → Loaded
  failed : Bytes → Loaded

abbrev pub set_pair : ℕ → Environment → Bytes → Bytes → Loaded
set_pair line_no env key value =
    if str_eq key []
    then failed (codes "Invalid env line " ++ to_string line_no ++ codes ": empty key")
    else elim (set_env_var env key value) [
      | none ↦
          failed
            (codes "Failed to set env var from line " ++ to_string line_no ++ codes ": " ++ key)
      | some env' ↦ loaded env'
    ]

-- One turn of the loop over the lines, on the trimmed line.
unfoldable pub load_line : ℕ → Bytes → Environment → Loaded
unfolding is_skipped split_at_equals trim_whitespace set_env_var
load_line line_no trimmed env =
    if is_skipped trimmed then loaded env else elim (split_at_equals trimmed) [
      | none ↦ failed (codes "Invalid env line " ++ to_string line_no ++ codes ": missing '='")
      | some (key, value) ↦ set_pair line_no env (trim_whitespace key) (trim_whitespace value)
    ]

-- `line_no` lines are read already.
unfoldable pub load_lines : ℕ → List Bytes → Environment → Loaded
unfolding load_line trim_whitespace
load_lines line_no [] env = loaded env
load_lines line_no (line ∷ lines) env = elim (load_line (line_no + 1) (trim_whitespace line) env) [
  | failed error ↦ failed error
  | loaded env' ↦ load_lines (line_no + 1) lines env'
]

-- What `std::getline` reads one after the other; the first argument is the line so far.
unfoldable pub lines_of : Bytes → Bytes → List Bytes
lines_of [] [] = []
lines_of (c ∷ line) [] = (c ∷ line) ∷ []
lines_of line (c ∷ rest) =
    let ends = lines_of [] rest in
    let goes_on = lines_of (line ++ c ∷ []) rest in if c == 10 then line ∷ ends else goes_on

-- `file` is what the path holds, if it opens.
unfoldable pub load_env_file_to_env : Bytes → Option Bytes → Environment → Loaded
unfolding lines_of load_lines
load_env_file_to_env path none env = failed (codes "Failed to open env file: " ++ path)
load_env_file_to_env path (some file) env = load_lines 0 (lines_of [] file) env
