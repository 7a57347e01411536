-- ===== src/Master/Mappers.antt =====
-- src/master/api_mappers.cpp: task identifiers and state transitions here, bodies and printing below.
-- The null tests on output pointers are left out: every caller passes the address of a variable.
pub mod Parse
pub mod Print
pub mod Ids
use distributed_computing.Prelude.{
  ℕ, Bool, true, false, not, ◌&&◌, ◌||◌, Option, none, some, List, [], ◌∷◌, Bytes, ℤ, pos, negsuc,
  leb, ◌==◌, if◌then◌else◌, str_eq,
}
use distributed_computing.Common.Numbers.{is_digit, stoll, int64_max}
use distributed_computing.Broker.Status.{
  TaskState, TaskState.queued, TaskState.running, TaskState.succeeded, TaskState.failed,
  TaskState.canceled, same_state,
}

-- The loop of `ParseTaskId`.
unfoldable pub all_digits : Bytes → Bool
unfolding is_digit
all_digits [] = true
all_digits (c ∷ rest) = is_digit c && all_digits rest

unfoldable pub parse_task_id : Bytes → Option ℕ
unfolding all_digits
parse_task_id task_id =
    if str_eq task_id []
    then none
    else if not (all_digits task_id)
    then none
    else elim (stoll task_id) [
      | none ↦ none
      | some (negsuc n) ↦ none
      | some (pos n) ↦ if n == 0 then none else if leb n int64_max then some n else none
    ]

unfoldable pub is_valid_task_state_transition : TaskState → TaskState → Bool
is_valid_task_state_transition from to = if same_state from to then true else elim from [
  | queued ↦ same_state to running || same_state to canceled
  | running ↦ same_state to succeeded || same_state to failed || same_state to canceled
  | _ ↦ false
]
