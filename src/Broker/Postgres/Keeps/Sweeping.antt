-- ===== src/Broker/Postgres/Keeps/Sweeping.antt =====
-- `MarkOfflineAgentsAndRequeue` of src/broker/pg_broker.cpp and the invariant of the tables.
use distributed_computing.Prelude.{
  ℕ, ◌≡◌, refl, true, List, [], ◌∷◌, Bytes, codes, ℤ, length, keep, ◌==◌, arith, Bool-cases, inl,
  inr,
}
use distributed_computing.Broker.Postgres.Schema.{AgentRow, TaskRow, Db}
use distributed_computing.Broker.Postgres.Status.{closed}
use distributed_computing.Broker.Postgres.Maintenance.{
  is_stale, is_held_by, is_open_of, requeued, mark_offline, mark_all_offline,
  mark_offline_agents_and_requeue,
}
use distributed_computing.Broker.Postgres.Sql.{All-update_where}
use distributed_computing.Broker.Postgres.History.{
  Continues, Follows, Follows-refl, Follows-trans, Follows-update_where,
}
use distributed_computing.Broker.Postgres.Ids.{Ids-update_where}
use distributed_computing.Broker.Postgres.Invariant.{Inv, IsFree, All-IsBacked}

mark_offline-Inv :
    (now : ℕ) (agent_id : Bytes) (db : Db) → Inv db → Inv (mark_offline now agent_id db)
unfolding mark_offline
mark_offline-Inv now agent_id db v = record {
  ids =
      Ids-update_where (is_held_by agent_id) requeued (λ t. refl) 1 db.next_task_id db.tasks v.ids;
  free =
      All-update_where IsFree IsFree (is_held_by agent_id) requeued (λ t h chosen e. refl)
        (λ t h other. h) db.tasks v.free;
  backed =
      All-IsBacked db.tasks (is_held_by agent_id) requeued (λ t. refl) (is_open_of agent_id)
        (closed now (codes "agent_offline")) db.assignments (λ r e. cc e)
        (λ r t other live found runs held chosen. absurd (ground arith)) v.backed;
}

requeued-Continues :
    (agent_id : Bytes) (t : TaskRow) → is_held_by agent_id t ≡ true → Continues t (requeued t)
requeued-Continues agent_id t held = record {
  task_id = refl;
  command = refl;
  args = refl;
  env = refl;
  constraints = refl;
  timeout_sec = refl;
  created_at = refl;
  finished = λ done. ground arith;
}

mark_offline-Follows :
    (now : ℕ) (agent_id : Bytes) (db : Db) → Follows db.tasks (mark_offline now agent_id db).tasks
unfolding mark_offline
mark_offline-Follows now agent_id db =
    Follows-update_where (is_held_by agent_id) requeued (λ t. refl) db.tasks
      (λ id t found held. requeued-Continues agent_id t held)

mark_all_offline-Inv :
    (now : ℕ) (rows : List AgentRow) (db : Db) → Inv db → Inv (mark_all_offline now rows db)
unfolding mark_all_offline
mark_all_offline-Inv now [] db v = v
mark_all_offline-Inv now (r ∷ rows) db v =
    mark_all_offline-Inv now rows (mark_offline now r.agent_id db)
      (mark_offline-Inv now r.agent_id db v)

mark_all_offline-Follows :
    (now : ℕ) (rows : List AgentRow) (db : Db)
    → Follows db.tasks (mark_all_offline now rows db).tasks
unfolding mark_all_offline
mark_all_offline-Follows now [] db = Follows-refl db.tasks
mark_all_offline-Follows now (r ∷ rows) db =
    let next = mark_offline now r.agent_id db in
    Follows-trans db.tasks next.tasks (mark_all_offline now rows next).tasks
      (mark_offline-Follows now r.agent_id db) (mark_all_offline-Follows now rows next)

sweep_cases {ℓ} :
    (P : Db → Type ℓ) (after : ℤ) (now : ℕ) (db : Db)
    → P db
    → P (mark_all_offline now (keep (is_stale after now) db.agents) db)
    → P (mark_offline_agents_and_requeue after now db).1
unfolding mark_offline_agents_and_requeue
sweep_cases P after now db same changed =
    elim (Bool-cases (length (keep (is_stale after now) db.agents) == 0)) [
      | inl quiet ↦ rw quiet same
      | inr some_stale ↦ rw some_stale changed
    ]

pub mark_offline_agents_and_requeue-Inv :
    (after : ℤ) (now : ℕ) (db : Db) → Inv db → Inv (mark_offline_agents_and_requeue after now db).1
mark_offline_agents_and_requeue-Inv after now db v =
    sweep_cases Inv after now db v (mark_all_offline-Inv now _ db v)

pub mark_offline_agents_and_requeue-Follows :
    (after : ℤ) (now : ℕ) (db : Db)
    → Follows db.tasks (mark_offline_agents_and_requeue after now db).1.tasks
mark_offline_agents_and_requeue-Follows after now db =
    sweep_cases (λ d. Follows db.tasks d.tasks) after now db (Follows-refl db.tasks)
      (mark_all_offline-Follows now _ db)
