-- ===== src/Broker/Postgres/Keeps/Candidates.antt =====
-- The candidate query of `PollTasksForAgent` of src/broker/pg_broker.cpp, and the loop over its rows.
use mathlib.Core.Option.{some-injective}
use distributed_computing.Prelude.{
  ℕ, ◌≡◌, sym, Bool, true, false, none, some, List, [], ◌∷◌, Bytes, All, All-weaken, All-take, ℤ,
  pos_part, leb, take, Bool-cases, Option-cases, inl, inr,
}
use distributed_computing.Broker.Postgres.Schema.{
  AgentRow, TaskRow, Db, PgLib, find_task, select_where, order_by,
}
use distributed_computing.Broker.Postgres.Poll.{
  is_waiting, eligible, candidates, assign, assign_all,
}
use distributed_computing.Broker.Postgres.Sql.{All-select_where, All-order_by}
use distributed_computing.Broker.Postgres.History.{Follows, Follows-refl, Follows-trans}
use distributed_computing.Broker.Postgres.Ids.{Ids-found}
use distributed_computing.Broker.Postgres.Invariant.{Inv}
use distributed_computing.Broker.Postgres.Keeps.Polling.{
  IsOpenTo, assign-Follows, assign-Inv, assign-IsOpenTo, IsGiven, assign-IsGiven,
  assign-IsGiven_self,
}

-- A row of the table, found by its identifier, that passes the query's conditions.
abbrev pub IsCandidate : PgLib → AgentRow → List TaskRow → TaskRow → Type 0
IsCandidate pg agent tasks c =
    (find_task c.task_id tasks ≡ some c) × (eligible pg agent c ≡ some true)

abbrev pub by_creation : TaskRow → TaskRow → Bool
by_creation a b = leb a.created_at b.created_at

-- The query's result is the front of the rows that pass, in order of creation.
pub candidates-split :
    (pg : PgLib) (agent : AgentRow) (free_slots : ℤ) (tasks rows : List TaskRow)
    → candidates pg agent free_slots tasks ≡ some rows
    → (picked : List TaskRow) × (select_where (eligible pg agent) tasks ≡ some picked)
      × (rows ≡ take (pos_part free_slots) (order_by by_creation picked))
unfolding candidates
candidates-split pg agent free_slots tasks rows h =
    elim (Option-cases (select_where (eligible pg agent) tasks)) [
      | inl bad ↦ absurd (none_some (rw (bad, candidates) at h))
      | inr (picked, e) ↦ (picked, e, sym (some-injective _ rows (rw (e, candidates) at h)))
    ]
  where
    none_some : none ≡ some rows → ⊥
    none_some e = cc

pub candidates-IsCandidate :
    (pg : PgLib) (agent : AgentRow) (free_slots : ℤ) (db : Db) (rows : List TaskRow)
    → Inv db
    → candidates pg agent free_slots db.tasks ≡ some rows
    → All (IsCandidate pg agent db.tasks) rows
candidates-IsCandidate pg agent free_slots db rows v h =
    let (picked, e, split) = candidates-split pg agent free_slots db.tasks rows h in
    rw split (
      All-take (IsCandidate pg agent db.tasks) (pos_part free_slots) (order_by by_creation picked) (
        All-order_by (IsCandidate pg agent db.tasks) by_creation picked (
          All-select_where (λ c. find_task c.task_id db.tasks ≡ some c)
            (IsCandidate pg agent db.tasks) (eligible pg agent) (λ c found passes. (found, passes))
            db.tasks picked (Ids-found 1 db.next_task_id db.tasks v.ids) e)))

pub eligible-is_waiting :
    (pg : PgLib) (agent : AgentRow) (c : TaskRow)
    → eligible pg agent c ≡ some true
    → is_waiting c ≡ true
unfolding eligible
eligible-is_waiting pg agent c h = elim (Bool-cases (is_waiting c)) [
  | inl waits ↦ waits
  | inr other ↦ absurd (false_true (rw (other, eligible) at h))
]
  where
    false_true : some false ≡ some true → ⊥
    false_true e = cc

pub IsCandidate-IsOpenTo :
    (pg : PgLib) (agent : AgentRow) (agent_id : Bytes) (tasks : List TaskRow) (c : TaskRow)
    → IsCandidate pg agent tasks c
    → IsOpenTo agent_id tasks c.task_id
IsCandidate-IsOpenTo pg agent agent_id tasks c h =
    (c, h.0, inl (eligible-is_waiting pg agent c h.1))

abbrev pub AllOpen : Bytes → List TaskRow → List TaskRow → Type 0
AllOpen agent_id tasks rows = All (λ c. IsOpenTo agent_id tasks c.task_id) rows

still_open :
    (agent_id : Bytes) (now : ℕ) (c : TaskRow) (rows : List TaskRow) (db : Db)
    → IsOpenTo agent_id db.tasks c.task_id
    → AllOpen agent_id db.tasks rows
    → AllOpen agent_id (assign agent_id now c.task_id db).tasks rows
still_open agent_id now c rows db open_to =
    All-weaken (λ r. IsOpenTo agent_id db.tasks r.task_id)
      (λ r. IsOpenTo agent_id (assign agent_id now c.task_id db).tasks r.task_id)
      (λ r. assign-IsOpenTo agent_id now c.task_id db open_to r.task_id) rows

pub assign_all-Inv :
    (agent_id : Bytes) (now : ℕ) (rows : List TaskRow) (db : Db)
    → AllOpen agent_id db.tasks rows
    → Inv db
    → Inv (assign_all agent_id now rows db)
unfolding assign_all
assign_all-Inv agent_id now [] db h v = v
assign_all-Inv agent_id now (c ∷ rows) db h v =
    assign_all-Inv agent_id now rows (assign agent_id now c.task_id db)
      (still_open agent_id now c rows db h.0 h.1) (assign-Inv agent_id now c.task_id db h.0 v)

pub assign_all-Follows :
    (agent_id : Bytes) (now : ℕ) (rows : List TaskRow) (db : Db)
    → AllOpen agent_id db.tasks rows
    → Follows db.tasks (assign_all agent_id now rows db).tasks
unfolding assign_all
assign_all-Follows agent_id now [] db h = Follows-refl db.tasks
assign_all-Follows agent_id now (c ∷ rows) db h =
    let next = assign agent_id now c.task_id db in
    Follows-trans db.tasks next.tasks (assign_all agent_id now rows next).tasks
      (assign-Follows agent_id now c.task_id db h.0)
      (assign_all-Follows agent_id now rows next (still_open agent_id now c rows db h.0 h.1))

assign_all-IsGiven :
    (agent_id : Bytes) (now : ℕ) (rows : List TaskRow) (db : Db)
    → AllOpen agent_id db.tasks rows
    → (other : ℕ) → IsGiven agent_id now db.tasks other
    → IsGiven agent_id now (assign_all agent_id now rows db).tasks other
unfolding assign_all
assign_all-IsGiven agent_id now [] db h other g = g
assign_all-IsGiven agent_id now (c ∷ rows) db h other g =
    assign_all-IsGiven agent_id now rows (assign agent_id now c.task_id db)
      (still_open agent_id now c rows db h.0 h.1) other
      (assign-IsGiven agent_id now c.task_id db h.0 other g)

-- The loop gives the agent every row.
pub assign_all_given :
    (agent_id : Bytes) (now : ℕ) (rows : List TaskRow) (db : Db)
    → AllOpen agent_id db.tasks rows
    → All (λ c. IsGiven agent_id now (assign_all agent_id now rows db).tasks c.task_id) rows
unfolding assign_all
assign_all_given agent_id now [] db h = tt
assign_all_given agent_id now (c ∷ rows) db h =
    let next = assign agent_id now c.task_id db in
    let behind = still_open agent_id now c rows db h.0 h.1 in
    (
      assign_all-IsGiven agent_id now rows next behind c.task_id
          (assign-IsGiven_self agent_id now c.task_id db h.0),
      assign_all_given agent_id now rows next behind,
    )
