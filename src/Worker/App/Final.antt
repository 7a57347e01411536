-- ===== src/Worker/App/Final.antt =====
-- The final report of a task in src/worker/worker_app.cpp, against the state machine of
-- src/master/api_mappers.cpp.
use mathlib.Core.Path.{subst}
use distributed_computing.Prelude.{
  sym, ap, ◌≡◌, ◌↔◌, refl, true, false, ℤ, pos, negsuc, arith, Bool-cases, inl, inr,
}
use distributed_computing.Broker.Status.{
  TaskState, TaskState.running, TaskState.succeeded, TaskState.failed, TaskState.canceled,
  task_state_to_api,
}
use distributed_computing.Master.Mappers.{is_valid_task_state_transition}
use distributed_computing.Worker.Executor.{TaskExecutionResult}
use distributed_computing.Worker.App.{is_zero, final_state}

-- The command ran to its end with exit code 0.
abbrev pub IsSuccess : TaskExecutionResult → Type 0
IsSuccess exec =
    (exec.failed_to_start ≡ false)
    × (exec.timed_out ≡ false)
    × (exec.canceled ≡ false)
    × (exec.exit_code ≡ pos 0)

is_zero_iff : (n : ℤ) → (is_zero n ≡ true) ↔ (n ≡ pos 0)
is_zero_iff (pos n) =
    (λ h. ap pos (ground (arith, h)), λ h. subst (λ z. is_zero z ≡ true) (sym h) refl)
is_zero_iff (negsuc n) = (λ h. ground (arith, h), λ h. cc h)

-- The state reported for a result is the spelling of one that a running task can move to, and it is
-- `succeeded` exactly when the command ran to its end with exit code 0.
pub final_state-IsFinal :
    (exec : TaskExecutionResult)
    → (s : TaskState) × ((final_state exec).0 ≡ task_state_to_api s)
      × (is_valid_task_state_transition running s ≡ true)
      × ((s ≡ succeeded) ↔ IsSuccess exec)
unfolding final_state task_state_to_api is_valid_task_state_transition
final_state-IsFinal exec = elim (Bool-cases exec.failed_to_start) [
  | inl failure ↦ rw failure (failed, refl, refl, (λ h. cc h, λ h. cc h.0))
  | inr started ↦ elim (Bool-cases exec.timed_out) [
    | inl late ↦ rw (started, late) (failed, refl, refl, (λ h. cc h, λ h. cc h.1))
    | inr timely ↦ elim (Bool-cases exec.canceled) [
      | inl withdrawn ↦
          rw (started, timely, withdrawn) (canceled, refl, refl, (λ h. cc h, λ h. cc h.2))
      | inr kept ↦ elim (Bool-cases (is_zero exec.exit_code)) [
        | inl zero_code ↦
            rw (started, timely, kept, zero_code)
              (
                succeeded,
                refl,
                refl,
                (λ h. (refl, refl, refl, (is_zero_iff exec.exit_code).0 zero_code), λ h. refl),
              )
        | inr code ↦
            rw (started, timely, kept, code)
              (failed, refl, refl, (λ h. cc h, λ h. cc (code, (is_zero_iff exec.exit_code).1 h.3)))
      ]
    ]
  ]
]
