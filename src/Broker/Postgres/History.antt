-- ===== src/Broker/Postgres/History.antt =====
-- How a task's row may change: what a later row keeps of an earlier one.
use distributed_computing.Prelude.{
  ℕ, ◌≡◌, refl, ◌∙◌, Bool, true, none, some, List, [], ◌∷◌, ◌++◌, if◌then◌else◌, arith, Bool-cases,
  inl, inr, ap,
}
use distributed_computing.Broker.Postgres.Schema.{TaskRow, update_where, find_task}
use distributed_computing.Broker.Postgres.Status.{is_terminal}

-- What was submitted never changes, and a finished task keeps its state.
pub record Continues (t u : TaskRow) : Type 0 where
  pub task_id : u.task_id ≡ t.task_id
  pub command : u.command ≡ t.command
  pub args : u.args ≡ t.args
  pub env : u.env ≡ t.env
  pub constraints : u.constraints ≡ t.constraints
  pub timeout_sec : u.timeout_sec ≡ t.timeout_sec
  pub created_at : u.created_at ≡ t.created_at
  pub finished : is_terminal t.state ≡ true → u.state ≡ t.state

pub Continues-refl : (t : TaskRow) → Continues t t
Continues-refl t = record {
  task_id = refl;
  command = refl;
  args = refl;
  env = refl;
  constraints = refl;
  timeout_sec = refl;
  created_at = refl;
  finished = λ h. refl;
}

pub Continues-trans : (t u v : TaskRow) → Continues t u → Continues u v → Continues t v
Continues-trans t u v h k = record {
  task_id = k.task_id ∙ h.task_id;
  command = k.command ∙ h.command;
  args = k.args ∙ h.args;
  env = k.env ∙ h.env;
  constraints = k.constraints ∙ h.constraints;
  timeout_sec = k.timeout_sec ∙ h.timeout_sec;
  created_at = k.created_at ∙ h.created_at;
  finished = λ e. k.finished (ap is_terminal (h.finished e) ∙ e) ∙ h.finished e;
}

-- Every task of the earlier table is in the later one.
abbrev pub Follows : List TaskRow → List TaskRow → Type 0
Follows rows rows' =
    (id : ℕ) (t : TaskRow)
    → find_task id rows ≡ some t
    → (u : TaskRow) × (find_task id rows' ≡ some u) × Continues t u

pub Follows-refl : (rows : List TaskRow) → Follows rows rows
Follows-refl rows id t h = (t, h, Continues-refl t)

pub Follows-trans : (a b c : List TaskRow) → Follows a b → Follows b c → Follows a c
Follows-trans a b c h k id t e =
    let (u, f, p) = h id t e in let (v, g, q) = k id u f in (v, g, Continues-trans t u v p q)

-- A row that is found, after an update of the rows that `p` chooses.
pub find_task-update_where :
    (p : TaskRow → Bool) (f : TaskRow → TaskRow) (keeps : (t : TaskRow) → (f t).task_id ≡ t.task_id)
    (id : ℕ) (rows : List TaskRow)
    → find_task id (update_where p f rows)
      ≡ (elim (find_task id rows) [ none ↦ none | some t ↦ some (if p t then f t else t) ])
unfolding find_task
find_task-update_where p f keeps id [] = refl
find_task-update_where p f keeps id (r ∷ rows) =
    ground (arith, keeps r, find_task-update_where p f keeps id rows)

pub Follows-update_where :
    (p : TaskRow → Bool) (f : TaskRow → TaskRow) (keeps : (t : TaskRow) → (f t).task_id ≡ t.task_id)
    (rows : List TaskRow)
    → ((id : ℕ) (t : TaskRow) → find_task id rows ≡ some t → p t ≡ true → Continues t (f t))
    → Follows rows (update_where p f rows)
Follows-update_where p f keeps rows step id t h = elim (Bool-cases (p t)) [
  | inl chosen ↦ (f t, rw (find_task-update_where p f keeps id rows, h, chosen), step id t h chosen)
  | inr other ↦ (t, rw (find_task-update_where p f keeps id rows, h, other), Continues-refl t)
]

pub find_task-append :
    (id : ℕ) (rows more : List TaskRow) (t : TaskRow)
    → find_task id rows ≡ some t
    → find_task id (rows ++ more) ≡ some t
unfolding find_task
find_task-append id [] more t h = cc
find_task-append id (r ∷ rows) more t h = ground (arith, find_task-append id rows more t)

pub Follows-append : (rows more : List TaskRow) → Follows rows (rows ++ more)
Follows-append rows more id t h = (t, find_task-append id rows more t h, Continues-refl t)

-- A row that is found has the identifier that was asked for.
pub find_task-id :
    (id : ℕ) (rows : List TaskRow) (t : TaskRow) → find_task id rows ≡ some t → t.task_id ≡ id
unfolding find_task
find_task-id id [] t h = cc
find_task-id id (r ∷ rows) t h = ground (arith, find_task-id id rows t)
