-- ===== src/Broker/Postgres/Effects/Sweep.antt =====
-- The outcomes of `MarkOfflineAgentsAndRequeue` of src/broker/pg_broker.cpp.
use distributed_computing.Prelude.{
  ℕ, ◌≡◌, refl, sym, true, false, some, List, [], ◌∷◌, Bytes, All, ℤ, length, keep, ◌==◌, arith,
  Bool-cases, inl, inr, str_eq, ap, ◌∙◌,
}
use distributed_computing.Broker.Status.{AgentStatus.offline}
use distributed_computing.Broker.Retry.{Outcome, returned}
use distributed_computing.Broker.Postgres.Schema.{AgentRow, TaskRow, Db, find_task}
use distributed_computing.Broker.Postgres.Maintenance.{
  is_stale, is_held_by, requeued, mark_offline, mark_all_offline, mark_offline_agents_and_requeue,
}
use distributed_computing.Broker.Postgres.Sql.{All-update_where}
use distributed_computing.Broker.Postgres.History.{find_task-update_where}

-- No task waits or runs under the agent's name, and the agent is offline.
abbrev pub IsReleased : Bytes → Db → Type 0
IsReleased agent_id db =
    All (λ t. is_held_by agent_id t ≡ false) db.tasks
    × All (λ r. str_eq r.agent_id agent_id ≡ true → r.status ≡ offline) db.agents

all_rows {ℓ} : {A : Type ℓ} (rows : List A) → All (λ r. r ≡ r) rows
all_rows [] = tt
all_rows (r ∷ rows) = (refl, all_rows rows)

mark_offline-IsReleased_self :
    (now : ℕ) (agent_id : Bytes) (db : Db) → IsReleased agent_id (mark_offline now agent_id db)
unfolding mark_offline
mark_offline-IsReleased_self now agent_id db = (
  All-update_where (λ t. t ≡ t) (λ t. is_held_by agent_id t ≡ false) (is_held_by agent_id) requeued
      (λ t _ held. refl) (λ t _ other. other) db.tasks (all_rows db.tasks),
  All-update_where (λ r. r ≡ r) (λ r. str_eq r.agent_id agent_id ≡ true → r.status ≡ offline)
      (λ r. str_eq r.agent_id agent_id) (λ r. record r { status = offline }) (λ r _ chosen e. refl)
      (λ r _ other e. absurd (cc (sym other ∙ e))) db.agents (all_rows db.agents),
)

mark_offline-IsReleased :
    (now : ℕ) (agent_id other_id : Bytes) (db : Db)
    → IsReleased agent_id db
    → IsReleased agent_id (mark_offline now other_id db)
unfolding mark_offline
mark_offline-IsReleased now agent_id other_id db h = (
  All-update_where (λ t. is_held_by agent_id t ≡ false) (λ t. is_held_by agent_id t ≡ false)
      (is_held_by other_id) requeued (λ t free held. refl) (λ t free other. free) db.tasks h.0,
  All-update_where (λ r. str_eq r.agent_id agent_id ≡ true → r.status ≡ offline)
      (λ r. str_eq r.agent_id agent_id ≡ true → r.status ≡ offline)
      (λ r. str_eq r.agent_id other_id) (λ r. record r { status = offline }) (λ r k chosen e. refl)
      (λ r k other. k) db.agents h.1,
)

mark_all_offline-IsReleased :
    (now : ℕ) (agent_id : Bytes) (rows : List AgentRow) (db : Db)
    → IsReleased agent_id db
    → IsReleased agent_id (mark_all_offline now rows db)
unfolding mark_all_offline
mark_all_offline-IsReleased now agent_id [] db h = h
mark_all_offline-IsReleased now agent_id (r ∷ rows) db h =
    mark_all_offline-IsReleased now agent_id rows (mark_offline now r.agent_id db)
      (mark_offline-IsReleased now agent_id r.agent_id db h)

mark_all_offline-IsReleased_each :
    (now : ℕ) (rows : List AgentRow) (db : Db)
    → All (λ r. IsReleased r.agent_id (mark_all_offline now rows db)) rows
unfolding mark_all_offline
mark_all_offline-IsReleased_each now [] db = tt
mark_all_offline-IsReleased_each now (r ∷ rows) db =
    let next = mark_offline now r.agent_id db in
    (
      mark_all_offline-IsReleased now r.agent_id rows next
          (mark_offline-IsReleased_self now r.agent_id db),
      mark_all_offline-IsReleased_each now rows next,
    )

pub mark_all_offline_untouched :
    (now : ℕ) (id : ℕ) (t : TaskRow) (rows : List AgentRow) (db : Db)
    → All (λ r. is_held_by r.agent_id t ≡ false) rows
    → find_task id db.tasks ≡ some t
    → find_task id (mark_all_offline now rows db).tasks ≡ some t
unfolding mark_all_offline mark_offline
mark_all_offline_untouched now id t [] db h found = found
mark_all_offline_untouched now id t (r ∷ rows) db h found =
    mark_all_offline_untouched now id t rows (mark_offline now r.agent_id db) h.1 one
  where
    one : find_task id (mark_offline now r.agent_id db).tasks ≡ some t
    one =
        rw
          (
            mark_offline,
            find_task-update_where (is_held_by r.agent_id) requeued (λ x. refl) id db.tasks,
            found,
            h.0,
          )
          refl

module _ (offline_after_sec : ℤ) (now : ℕ) (db : Db) where
  abbrev pub stale : List AgentRow
  stale = keep (is_stale offline_after_sec now) db.agents

  pub record SweepResult (outcome : Outcome ℕ) (after : Db) : Type 0 where
    pub counted : outcome ≡ returned (length stale)
    pub released : All (λ r. IsReleased r.agent_id after) stale
    pub untouched :
        (id : ℕ) (t : TaskRow)
        → find_task id db.tasks ≡ some t
        → All (λ r. is_held_by r.agent_id t ≡ false) stale
        → find_task id after.tasks ≡ some t

  no_rows {ℓ κ} :
      {A : Type ℓ} (P : A → Type κ) (rows : List A) → (length rows == 0) ≡ true → All P rows
  no_rows P [] e = tt
  no_rows P (r ∷ rows) e = absurd (ground arith)

  -- A sweep counts the agents that are not offline and whose last heartbeat is too old; each of them is
  -- then offline with no task waiting or running under its name, and a task that none of them held is
  -- as it was.
  pub mark_offline_agents_and_requeue-SweepResult :
      SweepResult
        (mark_offline_agents_and_requeue offline_after_sec now db).0
        (mark_offline_agents_and_requeue offline_after_sec now db).1
  unfolding mark_offline_agents_and_requeue
  mark_offline_agents_and_requeue-SweepResult = elim (Bool-cases (length stale == 0)) [
    | inl quiet ↦
        rw (quiet, mark_offline_agents_and_requeue)
          (record {
            counted = ap (λ n. returned n) (ground (arith, quiet));
            released = no_rows (λ r. IsReleased r.agent_id db) stale quiet;
            untouched = λ id t found h. found;
          })
    | inr busy ↦
        rw (busy, mark_offline_agents_and_requeue)
          (record {
            counted = refl;
            released = mark_all_offline-IsReleased_each now stale db;
            untouched = λ id t found h. mark_all_offline_untouched now id t stale db h found;
          })
  ]
