-- ===== src/Broker/Postgres/Effects/Stray.antt =====
-- `PollTasksForAgent` and `MarkOfflineAgentsAndRequeue` of src/broker/pg_broker.cpp, on a task that runs
-- in nobody's hands.
use distributed_computing.Prelude.{
  ℕ, ◌≡◌, refl, sym, false, none, some, List, [], ◌∷◌, Bytes, All, ℤ, ◌==◌, arith, Bool-cases, inl,
  inr, ap, ◌∙◌,
}
use mathlib.Core.Option.{some-injective}
use mathlib.Core.Path.{subst}
use distributed_computing.Json.{JsonLib}
use distributed_computing.Broker.Status.{TaskState.running}
use distributed_computing.Broker.Postgres.Schema.{AgentRow, TaskRow, Db, PgLib, find_task}
use distributed_computing.Broker.Postgres.Poll.{
  poll_tasks_for_agent, assign, assign_all, is_waiting,
}
use distributed_computing.Broker.Postgres.Maintenance.{is_held_by, mark_offline_agents_and_requeue}
use distributed_computing.Broker.Postgres.Invariant.{Inv}
use distributed_computing.Broker.Postgres.History.{find_task-update_where, find_task-id}
use distributed_computing.Broker.Postgres.Keeps.Candidates.{
  IsCandidate, candidates-IsCandidate, eligible-is_waiting,
}
use distributed_computing.Broker.Postgres.Keeps.Dispatch.{poll_cases}
use distributed_computing.Broker.Postgres.Effects.Sweep.{
  mark_offline_agents_and_requeue-SweepResult, stale,
}

-- The task is found, and neither waits nor is in an agent's hands.
abbrev pub IsStray : ℕ → TaskRow → Db → Type 0
IsStray id t db = (find_task id db.tasks ≡ some t) × (t.state ≡ running) × (t.assigned_agent ≡ none)

nobody :
    (t : TaskRow)
    → t.assigned_agent ≡ none
    → (rows : List AgentRow) → All (λ r. is_held_by r.agent_id t ≡ false) rows
nobody t free [] = tt
nobody t free (r ∷ rows) = (rw free refl, nobody t free rows)

assign_all_untouched :
    (pg : PgLib) (agent : AgentRow) (tasks : List TaskRow) (agent_id : Bytes) (now id : ℕ)
    (t : TaskRow) (rows : List TaskRow) (db : Db)
    → find_task id tasks ≡ some t
    → is_waiting t ≡ false
    → All (IsCandidate pg agent tasks) rows
    → find_task id db.tasks ≡ some t
    → find_task id (assign_all agent_id now rows db).tasks ≡ some t
unfolding assign_all assign
assign_all_untouched pg agent tasks agent_id now id t [] db was held h found = found
assign_all_untouched pg agent tasks agent_id now id t (c ∷ rows) db was held h found =
    assign_all_untouched pg agent tasks agent_id now id t rows (assign agent_id now c.task_id db)
      was held h.1 one
  where
    other : (t.task_id == c.task_id) ≡ false
    other = elim (Bool-cases (t.task_id == c.task_id)) [
      | inl same ↦
          let e : c.task_id ≡ id = ground (arith, same, find_task-id id tasks t was) in
          let both =
            some-injective t c (sym was ∙ subst (λ i. find_task i tasks ≡ some c) e h.0.0) in
          absurd (cc (sym held ∙ ap is_waiting both ∙ eligible-is_waiting pg agent c h.0.1))
      | inr differ ↦ differ
    ]

    one : find_task id (assign agent_id now c.task_id db).tasks ≡ some t
    one =
        rw
          (
            find_task-update_where (λ x. x.task_id == c.task_id)
                (λ (x : TaskRow). record x {
                  state = running;
                  assigned_agent = some agent_id;
                  started_at = some now;
                })
                (λ x. refl) id db.tasks,
            found,
            other,
          )
          refl

module _ (j : JsonLib) (pg : PgLib) (id : ℕ) (t : TaskRow) (now : ℕ) (db : Db) where
  poll_stray :
      (agent_id : Bytes) (free_slots : ℤ)
      → Inv db
      → IsStray id t db
      → find_task id (poll_tasks_for_agent j pg agent_id free_slots now db).1.tasks ≡ some t
  poll_stray agent_id free_slots v (found, runs, free) =
      poll_cases j pg agent_id free_slots now db (λ o. find_task id o.1.tasks ≡ some t) (λ e. found)
        (λ e. found) found
        λ agent rows e f.
          assign_all_untouched pg agent db.tasks agent_id now id t rows _ found (rw runs refl)
            (candidates-IsCandidate pg agent free_slots db rows v f) found

  -- No poll and no sweep ever touches a task that runs in nobody's hands.
  pub poll_tasks_for_agent-IsStray :
      (agent_id : Bytes) (free_slots offline_after_sec : ℤ)
      → Inv db
      → IsStray id t db
      → IsStray id t (poll_tasks_for_agent j pg agent_id free_slots now db).1
        × IsStray id t (mark_offline_agents_and_requeue offline_after_sec now db).1
  poll_tasks_for_agent-IsStray agent_id free_slots offline_after_sec v (found, runs, free) =
      let swept = mark_offline_agents_and_requeue-SweepResult offline_after_sec now db in
      (
        (poll_stray agent_id free_slots v (found, runs, free), runs, free),
        (swept.untouched id t found (nobody t free (stale offline_after_sec now db)), runs, free),
      )
