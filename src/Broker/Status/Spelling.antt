-- ===== src/Broker/Status/Spelling.antt =====
-- The spellings of src/broker/status.hpp.
use distributed_computing.Prelude.{
  ◌∷◌, codes, ◌≡◌, refl, ◌↔◌, some, [], Bytes, str_eq, str_eq_iff, arith,
}
use distributed_computing.Common.StringUtils.{to_lower_copy}
use distributed_computing.Broker.Status.{
  AgentStatus, TaskState, AgentStatus.idle, AgentStatus.busy, AgentStatus.offline, TaskState.queued,
  TaskState.running, TaskState.succeeded, TaskState.failed, TaskState.canceled,
  agent_status_from_api, task_state_from_api, agent_status_to_db, agent_status_to_api,
  task_state_to_db, task_state_to_api,
}

to_lower_copy-nil : to_lower_copy [] ≡ []
unfolding to_lower_copy
to_lower_copy-nil = refl

api_spelling :
    (value : Bytes) (s : TaskState)
    → task_state_from_api value ≡ some s
    → to_lower_copy value ≡ task_state_to_api s
unfolding task_state_from_api task_state_to_api
api_spelling value s h = ground (
  arith,
  str_eq_iff (to_lower_copy value) (codes "queued"),
  str_eq_iff (to_lower_copy value) (codes "running"),
  str_eq_iff (to_lower_copy value) (codes "succeeded"),
  str_eq_iff (to_lower_copy value) (codes "failed"),
  str_eq_iff (to_lower_copy value) (codes "canceled"),
)

read_spelling :
    (value : Bytes) (s : TaskState)
    → to_lower_copy value ≡ task_state_to_api s
    → task_state_from_api value ≡ some s
unfolding task_state_from_api task_state_to_api str_eq
read_spelling [] s h = elim (empty_lower s h) [ ]
  where
    empty_lower : (s : TaskState) → to_lower_copy [] ≡ task_state_to_api s → ⊥
    empty_lower queued e = cc to_lower_copy-nil
    empty_lower running e = cc to_lower_copy-nil
    empty_lower succeeded e = cc to_lower_copy-nil
    empty_lower failed e = cc to_lower_copy-nil
    empty_lower canceled e = cc to_lower_copy-nil
read_spelling (c ∷ cs) queued h = rw h
read_spelling (c ∷ cs) running h = rw h
read_spelling (c ∷ cs) succeeded h = rw h
read_spelling (c ∷ cs) failed h = rw h
read_spelling (c ∷ cs) canceled h = rw h

-- A text is read as a state exactly when its lower-case form is the state's API spelling.
pub task_state_from_api_iff :
    (value : Bytes) (s : TaskState)
    → (task_state_from_api value ≡ some s) ↔ (to_lower_copy value ≡ task_state_to_api s)
task_state_from_api_iff value s = (api_spelling value s, read_spelling value s)

-- What the database stores for a state, and what the API prints for it, both read back as it.
pub task_state_round_trip :
    (s : TaskState)
    → (task_state_from_api (task_state_to_db s) ≡ some s)
      × (task_state_from_api (task_state_to_api s) ≡ some s)
unfolding to_lower_copy task_state_from_api task_state_to_db task_state_to_api str_eq
task_state_round_trip queued = (refl, refl)
task_state_round_trip running = (refl, refl)
task_state_round_trip succeeded = (refl, refl)
task_state_round_trip failed = (refl, refl)
task_state_round_trip canceled = (refl, refl)

-- What the database stores for an agent's status, and what the API prints for it, both read back as
-- it.
pub agent_status_round_trip :
    (s : AgentStatus)
    → (agent_status_from_api (agent_status_to_db s) ≡ some s)
      × (agent_status_from_api (agent_status_to_api s) ≡ some s)
unfolding to_lower_copy agent_status_from_api agent_status_to_db agent_status_to_api str_eq
agent_status_round_trip idle = (refl, refl)
agent_status_round_trip busy = (refl, refl)
agent_status_round_trip offline = (refl, refl)
