-- ===== src/Broker/Postgres/Invariant.antt =====
-- The invariant of the tables, and the lemmas by which a pair of updates keeps it.
use mathlib.Core.Option.{some-injective}
use mathlib.Core.Path.{subst}
use distributed_computing.Prelude.{
  ◌==◌, ℕ, ◌≡◌, ◌≢◌, Bool, true, false, none, some, List, [], ◌∷◌, ◌++◌, All, Bool-cases, inl, inr,
}
use distributed_computing.Broker.Status.{TaskState.queued, TaskState.running}
use distributed_computing.Broker.Postgres.Schema.{
  TaskRow, AssignmentRow, Db, update_where, find_task,
}
use distributed_computing.Broker.Postgres.Sql.{All-update_where}
use distributed_computing.Broker.Postgres.History.{find_task-update_where, find_task-append}
use distributed_computing.Broker.Postgres.Ids.{Ids}

-- A queued task is in nobody's hands.
abbrev pub IsFree : TaskRow → Type 0
IsFree t = t.state ≡ queued → t.assigned_agent ≡ none

-- An open assignment is of a task that runs, in the hands of the assignment's agent.
abbrev pub IsBacked : List TaskRow → AssignmentRow → Type 0
IsBacked tasks r =
    r.unassigned_at ≡ none
    → (t : TaskRow) × (find_task r.task_id tasks ≡ some t)
      × (t.state ≡ running)
      × (t.assigned_agent ≡ some r.agent_id)

pub record Inv (db : Db) : Type 0 where
  pub ids : Ids 1 db.next_task_id db.tasks
  pub free : All IsFree db.tasks
  pub backed : All (IsBacked db.tasks) db.assignments

-- A row that is found has what all rows have.
pub All-find_task {ℓ} :
    (P : TaskRow → Type ℓ) (id : ℕ) (rows : List TaskRow) (t : TaskRow)
    → All P rows
    → find_task id rows ≡ some t
    → P t
unfolding find_task
All-find_task P id [] t h e = absurd (cc)
All-find_task P id (r ∷ rows) t h e = elim (Bool-cases (r.task_id == id)) [
  | inl hit ↦ subst P (some-injective r t (rw hit at e)) h.0
  | inr miss ↦ All-find_task P id rows t h.1 (rw miss at e)
]

-- An update of the tasks keeps an assignment backed if it keeps the task that backs it.
pub IsBacked-update_where :
    (tasks : List TaskRow) (p : TaskRow → Bool) (f : TaskRow → TaskRow)
    (keeps : (t : TaskRow) → (f t).task_id ≡ t.task_id) (r : AssignmentRow)
    → ((t : TaskRow)
        → r.unassigned_at ≡ none
        → find_task r.task_id tasks ≡ some t
        → t.state ≡ running
        → t.assigned_agent ≡ some r.agent_id
        → p t ≡ true
        → ((f t).state ≡ running) × ((f t).assigned_agent ≡ some r.agent_id))
    → IsBacked tasks r
    → IsBacked (update_where p f tasks) r
IsBacked-update_where tasks p f keeps r step h live =
    let (t, found, runs, held) = h live in
    elim (Bool-cases (p t)) [
      | inl chosen ↦
          let (runs', held') = step t live found runs held chosen in
          (f t, rw (find_task-update_where p f keeps r.task_id tasks, found, chosen), runs', held')
      | inr other ↦
          (t, rw (find_task-update_where p f keeps r.task_id tasks, found, other), runs, held)
    ]

pub IsBacked-append :
    (tasks more : List TaskRow) (r : AssignmentRow) → IsBacked tasks r → IsBacked (tasks ++ more) r
IsBacked-append tasks more r h live =
    let (t, found, runs, held) = h live in
    (t, find_task-append r.task_id tasks more t found, runs, held)

-- Both tables are updated, and the assignments that are chosen are closed.
pub All-IsBacked :
    (tasks : List TaskRow) (p : TaskRow → Bool) (f : TaskRow → TaskRow)
    (keeps : (t : TaskRow) → (f t).task_id ≡ t.task_id) (q : AssignmentRow → Bool)
    (g : AssignmentRow → AssignmentRow) (rows : List AssignmentRow)
    → ((r : AssignmentRow) → (g r).unassigned_at ≢ none)
    → ((r : AssignmentRow) (t : TaskRow)
        → q r ≡ false
        → r.unassigned_at ≡ none
        → find_task r.task_id tasks ≡ some t
        → t.state ≡ running
        → t.assigned_agent ≡ some r.agent_id
        → p t ≡ true
        → ((f t).state ≡ running) × ((f t).assigned_agent ≡ some r.agent_id))
    → All (IsBacked tasks) rows
    → All (IsBacked (update_where p f tasks)) (update_where q g rows)
All-IsBacked tasks p f keeps q g rows closes step =
    All-update_where (IsBacked tasks) (IsBacked (update_where p f tasks)) q g
      (λ r h chosen live. absurd (closes r live))
      (λ r h other. IsBacked-update_where tasks p f keeps r (λ t. step r t other) h) rows
