-- ===== src/Broker/Postgres/Keeps/Dispatch.antt =====
-- `PollTasksForAgent` of src/broker/pg_broker.cpp as a whole.
use mathlib.Core.List.{Perm}
use distributed_computing.Prelude.{
  take-append-drop, ℕ, ◌≤◌, ◌≡◌, refl, ◌⊎◌, true, Option, none, some, List, [], ◌++◌, map, Bytes,
  All, All-weaken, ℤ, pos, pos_part, leb_ℤ, drop, length, length-take-le, Bool-cases, Option-cases,
  inl, inr,
}
use distributed_computing.Json.{JsonLib}
use distributed_computing.Broker.Types.{TaskDispatch}
use distributed_computing.Broker.Retry.{Outcome, returned, threw}
use distributed_computing.Broker.Postgres.Schema.{
  AgentRow, TaskRow, Db, PgLib, find_agent, select_where, order_by,
}
use distributed_computing.Broker.Postgres.Poll.{
  eligible, candidates, assign_all, set_agent, task_dispatch, polled_status, poll_tasks_for_agent,
}
use distributed_computing.Broker.Postgres.Sql.{order_by-perm, Ordered-order_by, take_before_drop}
use distributed_computing.Broker.Postgres.History.{Follows, Follows-refl}
use distributed_computing.Broker.Postgres.Invariant.{Inv}
use distributed_computing.Broker.Postgres.Keeps.Polling.{IsOpenTo, IsGiven}
use distributed_computing.Broker.Postgres.Keeps.Candidates.{
  IsCandidate, by_creation, candidates-split, candidates-IsCandidate, IsCandidate-IsOpenTo, AllOpen,
  assign_all-Inv, assign_all-Follows, assign_all_given,
}

-- The agent's heartbeat is written first.
abbrev pub seen : Bytes → ℕ → Db → Db
seen agent_id now db = set_agent agent_id (λ r. record r { last_heartbeat = now }) db

module _ (j : JsonLib) (pg : PgLib) (agent_id : Bytes) (free_slots : ℤ) (now : ℕ) (db : Db) where
  -- The tables of a poll that hands out `rows`.
  abbrev pub dealt : List TaskRow → Db
  dealt rows =
      set_agent agent_id (λ r. record r { status = polled_status j pg rows })
        (assign_all agent_id now rows (seen agent_id now db))

  -- The four ways through a poll.
  pub poll_cases {ℓ} :
      (P : Outcome (Option (List (TaskDispatch j))) × Db → Type ℓ)
      → (find_agent agent_id db.agents ≡ none → P (returned none, db))
      → (leb_ℤ free_slots (pos 0) ≡ true → P (returned (some []), seen agent_id now db))
      → P (threw pg.sql_error, db)
      → ((agent : AgentRow) (rows : List TaskRow)
          → find_agent agent_id db.agents ≡ some agent
          → candidates pg agent free_slots db.tasks ≡ some rows
          → P (returned (some (map (task_dispatch j pg) rows)), dealt rows))
      → P (poll_tasks_for_agent j pg agent_id free_slots now db)
  unfolding poll_tasks_for_agent
  poll_cases P unknown full raised given = elim (Option-cases (find_agent agent_id db.agents)) [
    | inl e ↦ rw (e, poll_tasks_for_agent) (unknown e)
    | inr (agent, e) ↦ elim (Bool-cases (leb_ℤ free_slots (pos 0))) [
      | inl no_room ↦ rw (e, no_room, poll_tasks_for_agent) (full no_room)
      | inr room ↦ elim (Option-cases (candidates pg agent free_slots db.tasks)) [
        | inl bad ↦ rw (e, room, bad, poll_tasks_for_agent) raised
        | inr (rows, f) ↦ rw (e, room, f, poll_tasks_for_agent) (given agent rows e f)
      ]
    ]
  ]

  open_rows :
      (agent : AgentRow) (rows : List TaskRow)
      → Inv db
      → candidates pg agent free_slots db.tasks ≡ some rows
      → AllOpen agent_id db.tasks rows
  open_rows agent rows v f =
      All-weaken (IsCandidate pg agent db.tasks) (λ c. IsOpenTo agent_id db.tasks c.task_id)
        (IsCandidate-IsOpenTo pg agent agent_id db.tasks) rows
        (candidates-IsCandidate pg agent free_slots db rows v f)

  dealt-Inv :
      (agent : AgentRow) (rows : List TaskRow)
      → Inv db
      → candidates pg agent free_slots db.tasks ≡ some rows
      → Inv (dealt rows)
  dealt-Inv agent rows v f =
      let kept =
        assign_all-Inv agent_id now rows (seen agent_id now db) (open_rows agent rows v f)
          (record { ids = v.ids; free = v.free; backed = v.backed }) in
      record { ids = kept.ids; free = kept.free; backed = kept.backed }

  pub poll_tasks_for_agent-Inv :
      Inv db → Inv (poll_tasks_for_agent j pg agent_id free_slots now db).1
  poll_tasks_for_agent-Inv v =
      poll_cases (λ o. Inv o.1) (λ e. v)
        (λ e. record { ids = v.ids; free = v.free; backed = v.backed }) v
        (λ agent rows e f. dealt-Inv agent rows v f)

  pub poll_tasks_for_agent-Follows :
      Inv db → Follows db.tasks (poll_tasks_for_agent j pg agent_id free_slots now db).1.tasks
  poll_tasks_for_agent-Follows v =
      poll_cases (λ o. Follows db.tasks o.1.tasks) (λ e. Follows-refl db.tasks)
        (λ e. Follows-refl db.tasks) (Follows-refl db.tasks)
        (λ agent rows e f.
          assign_all-Follows agent_id now rows (seen agent_id now db) (open_rows agent rows v f))

  -- The rows that are handed out, against the table before and after.
  pub record IsFairShare (agent : AgentRow) (rows : List TaskRow) (after : List TaskRow)
      : Type 0 where
    pub few : length rows ≤ pos_part free_slots
    pub suited : All (IsCandidate pg agent db.tasks) rows
    pub given : All (λ c. IsGiven agent_id now after c.task_id) rows
    pub picked : List TaskRow
    pub left : List TaskRow
    pub passing : select_where (eligible pg agent) db.tasks ≡ some picked
    pub divided : Perm (rows ++ left) picked
    pub oldest_first : All (λ c. All (λ t. c.created_at ≤ t.created_at) left) rows

  dealt-IsFairShare :
      (agent : AgentRow) (rows : List TaskRow)
      → Inv db
      → candidates pg agent free_slots db.tasks ≡ some rows
      → IsFairShare agent rows (dealt rows).tasks
  dealt-IsFairShare agent rows v f =
      let (picked, e, split) = candidates-split pg agent free_slots db.tasks rows f in
      let sorted = order_by by_creation picked in
      record {
        few = rw split (length-take-le (pos_part free_slots) sorted);
        suited = candidates-IsCandidate pg agent free_slots db rows v f;
        given =
            assign_all_given agent_id now rows (seen agent_id now db) (open_rows agent rows v f);
        picked = picked;
        left = drop (pos_part free_slots) sorted;
        passing = e;
        divided =
            rw (split, take-append-drop (pos_part free_slots) sorted)
              (order_by-perm by_creation picked);
        oldest_first = rw split (
            take_before_drop (λ (t : TaskRow). t.created_at) (pos_part free_slots) sorted
              (Ordered-order_by (λ (t : TaskRow). t.created_at) picked));
      }

  -- What each outcome of a poll means.
  abbrev pub PollResult : Outcome (Option (List (TaskDispatch j))) × Db → Type 0
  PollResult (returned none, after) = (find_agent agent_id db.agents ≡ none) × (after ≡ db)
  PollResult (threw message, after) = after ≡ db
  PollResult (returned (some dispatches), after) =
      ((leb_ℤ free_slots (pos 0) ≡ true) × (dispatches ≡ []) × (after.tasks ≡ db.tasks))
      ⊎ ((agent : AgentRow) × (rows : List TaskRow) × (find_agent agent_id db.agents ≡ some agent)
          × (dispatches ≡ map (task_dispatch j pg) rows)
          × IsFairShare agent rows after.tasks)

  -- An unknown agent and a failed query change nothing. Else, with no free slot the agent gets nothing;
  -- with free slots it gets at most that many tasks, each waiting and fit for it, none younger than a
  -- fit task that is left, and each of them is then running in its hands.
  pub poll_tasks_for_agent-PollResult :
      Inv db → PollResult (poll_tasks_for_agent j pg agent_id free_slots now db)
  poll_tasks_for_agent-PollResult v =
      poll_cases PollResult (λ e. (e, refl)) (λ e. inl (e, refl, refl)) refl
        (λ agent rows e f. inr (agent, rows, e, refl, dealt-IsFairShare agent rows v f))
