-- ===== src/Broker/Postgres/Keeps/Polling.antt =====
-- The UPDATE and the INSERT of `PollTasksForAgent` of src/broker/pg_broker.cpp, for one task.
use distributed_computing.Prelude.{
  ℕ, ◌≡◌, refl, ◌⊎◌, Bool, true, none, some, List, Bytes, All-append, All-weaken, ◌==◌, arith,
  Bool-cases, inl, inr,
}
use distributed_computing.Broker.Status.{TaskState.running}
use distributed_computing.Broker.Postgres.Schema.{TaskRow, Db, update_where, find_task}
use distributed_computing.Broker.Postgres.Poll.{is_waiting, assign}
use distributed_computing.Broker.Postgres.Sql.{All-update_where}
use distributed_computing.Broker.Postgres.History.{
  Continues, Follows, Follows-update_where, find_task-update_where, find_task-id,
}
use distributed_computing.Broker.Postgres.Ids.{Ids-update_where}
use distributed_computing.Broker.Postgres.Invariant.{Inv, IsFree, IsBacked, IsBacked-update_where}

-- A task that may be given to the agent: it waits, or the agent has it already.
abbrev pub IsOpenTo : Bytes → List TaskRow → ℕ → Type 0
IsOpenTo agent_id tasks id =
    (t : TaskRow) × (find_task id tasks ≡ some t)
    × ((is_waiting t ≡ true) ⊎ ((t.state ≡ running) × (t.assigned_agent ≡ some agent_id)))

-- The task is the agent's, and started at the time of the poll.
abbrev pub IsGiven : Bytes → ℕ → List TaskRow → ℕ → Type 0
IsGiven agent_id now tasks id =
    (t : TaskRow) × (find_task id tasks ≡ some t)
    × (t.state ≡ running)
    × (t.assigned_agent ≡ some agent_id)
    × (t.started_at ≡ some now)

abbrev pub given : Bytes → ℕ → TaskRow → TaskRow
given agent_id now t = record t {
  state = running;
  assigned_agent = some agent_id;
  started_at = some now;
}

module _ (agent_id : Bytes) (now id : ℕ) (db : Db) (open_to : IsOpenTo agent_id db.tasks id) where
  abbrev pub chosen_row : TaskRow → Bool
  chosen_row t = t.task_id == id

  -- The row that a lookup finds under the identifier is the one that may be given.
  same_row :
      (other : ℕ) (t : TaskRow)
      → find_task other db.tasks ≡ some t
      → chosen_row t ≡ true
      → t ≡ open_to.0
  same_row other t found chosen = ground (arith, open_to.1, find_task-id other db.tasks t found)

  assign-Continues :
      (other : ℕ) (t : TaskRow)
      → find_task other db.tasks ≡ some t
      → chosen_row t ≡ true
      → Continues t (given agent_id now t)
  assign-Continues other t found chosen = record {
    task_id = refl;
    command = refl;
    args = refl;
    env = refl;
    constraints = refl;
    timeout_sec = refl;
    created_at = refl;
    finished = λ done. ground (arith, same_row other t found chosen, open_to.2);
  }

  pub assign-Follows : Follows db.tasks (assign agent_id now id db).tasks
  unfolding assign
  assign-Follows =
      Follows-update_where chosen_row (given agent_id now) (λ t. refl) db.tasks assign-Continues

  assigned_row : IsBacked (assign agent_id now id db).tasks (record {
    task_id = id;
    agent_id = agent_id;
    assigned_at = now;
    unassigned_at = none;
    reason = none;
  })
  unfolding assign
  assigned_row live = (
    given agent_id now open_to.0,
    ground (
      arith,
      find_task-update_where chosen_row (given agent_id now) (λ t. refl) id db.tasks,
      open_to.1,
      find_task-id id db.tasks open_to.0 open_to.1,
    ),
    refl,
    refl,
  )

  pub assign-Inv : Inv db → Inv (assign agent_id now id db)
  unfolding assign
  assign-Inv v = record {
    ids =
        Ids-update_where chosen_row (given agent_id now) (λ t. refl) 1 db.next_task_id db.tasks
          v.ids;
    free =
        All-update_where IsFree IsFree chosen_row (given agent_id now)
          (λ t h chosen e. absurd (cc e)) (λ t h other. h) db.tasks v.free;
    backed =
        All-append (IsBacked (update_where chosen_row (given agent_id now) db.tasks)) db.assignments
          _
          (All-weaken (IsBacked db.tasks)
            (IsBacked (update_where chosen_row (given agent_id now) db.tasks))
            (λ r.
              IsBacked-update_where db.tasks chosen_row (given agent_id now) (λ t. refl) r
                (λ t live found runs held chosen.
                  (refl, ground (arith, same_row r.task_id t found chosen, open_to.2))))
            db.assignments v.backed)
          (assigned_row, tt);
  }

  pub assign-IsOpenTo :
      (other : ℕ)
      → IsOpenTo agent_id db.tasks other
      → IsOpenTo agent_id (assign agent_id now id db).tasks other
  unfolding assign
  assign-IsOpenTo other (t, found, h) = elim (Bool-cases (chosen_row t)) [
    | inl chosen ↦ (
      given agent_id now t,
      rw (
        find_task-update_where chosen_row (given agent_id now) (λ u. refl) other db.tasks,
        found,
        chosen,
      ),
      inr (refl, refl),
    )
    | inr not_it ↦ (
      t,
      rw (
        find_task-update_where chosen_row (given agent_id now) (λ u. refl) other db.tasks,
        found,
        not_it,
      ),
      h,
    )
  ]

  -- A task that was given stays given.
  pub assign-IsGiven :
      (other : ℕ)
      → IsGiven agent_id now db.tasks other
      → IsGiven agent_id now (assign agent_id now id db).tasks other
  unfolding assign
  assign-IsGiven other (t, found, runs, held, started) = elim (Bool-cases (chosen_row t)) [
    | inl chosen ↦ (
      given agent_id now t,
      rw (
        find_task-update_where chosen_row (given agent_id now) (λ u. refl) other db.tasks,
        found,
        chosen,
      ),
      refl,
      refl,
      refl,
    )
    | inr not_it ↦ (
      t,
      rw (
        find_task-update_where chosen_row (given agent_id now) (λ u. refl) other db.tasks,
        found,
        not_it,
      ),
      runs,
      held,
      started,
    )
  ]

  pub assign-IsGiven_self : IsGiven agent_id now (assign agent_id now id db).tasks id
  unfolding assign
  assign-IsGiven_self = (
    given agent_id now open_to.0,
    ground (
      arith,
      find_task-update_where chosen_row (given agent_id now) (λ t. refl) id db.tasks,
      open_to.1,
      find_task-id id db.tasks open_to.0 open_to.1,
    ),
    refl,
    refl,
    refl,
  )
