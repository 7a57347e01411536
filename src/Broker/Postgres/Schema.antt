-- ===== src/Broker/Postgres/Schema.antt =====
-- The tables of migrations_broker_pg, and the SQL that the statements of src/broker/pg_broker.cpp share.
-- Times are microseconds; JSON columns hold their text.
use distributed_computing.Prelude.{
  ◌==◌, ℕ, Option, none, some, Bool, true, false, List, [], ◌∷◌, Bytes, ℤ, pos, negsuc, take, drop,
  if◌then◌else◌, str_eq,
}
use distributed_computing.Broker.Status.{AgentStatus, TaskState}

pub record AgentRow : Type 0 where
  pub agent_id : Bytes
  pub os : Bytes
  pub version : Bytes
  pub resources_cpu_cores : ℤ
  pub resources_ram_mb : ℤ
  pub resources_slots : ℤ
  pub status : AgentStatus
  pub last_heartbeat : ℕ

pub record TaskRow : Type 0 where
  pub task_id : ℕ
  pub state : TaskState
  pub command : Bytes
  pub args : Bytes
  pub env : Bytes
  pub constraints : Bytes
  pub timeout_sec : Option ℤ
  pub assigned_agent : Option Bytes
  pub created_at : ℕ
  pub started_at : Option ℕ
  pub finished_at : Option ℕ
  pub exit_code : Option ℤ
  pub error_message : Option Bytes

pub record AssignmentRow : Type 0 where
  pub task_id : ℕ
  pub agent_id : Bytes
  pub assigned_at : ℕ
  pub unassigned_at : Option ℕ
  pub reason : Option Bytes

-- `next_task_id` is the sequence of the BIGSERIAL column. A transaction that rolls back gives its
-- number back here, where the server leaves a gap.
pub record Db : Type 0 where
  pub agents : List AgentRow
  pub tasks : List TaskRow
  pub assignments : List AssignmentRow
  pub next_task_id : ℕ

-- What the server computes that is not SQL's own logic.
pub record PgLib : Type 0 where
  -- `$1::jsonb`, read back as text; `none` where the cast raises.
  pub jsonb : Bytes → Option Bytes
  -- `column->>'key'`
  pub text_field : Bytes → Bytes → Option Bytes
  -- `::int` and `::timestamptz`; `none` where they raise.
  pub int_cast : Bytes → Option ℤ
  pub timestamptz : Bytes → Option ℕ
  -- `to_char(t at time zone 'UTC', ...)`
  pub to_char : ℕ → Bytes
  -- `a <= b` in the database's collation.
  pub collate_le : Bytes → Bytes → Bool
  -- What a raised error says.
  pub sql_error : Bytes

-- `UPDATE ... SET f WHERE p`
abbrev pub update_where {ℓ} : {A : Type ℓ} → (A → Bool) → (A → A) → List A → List A
update_where p f [] = []
update_where p f (r ∷ rows) = (if p r then f r else r) ∷ update_where p f rows

abbrev pub insert_by {ℓ} : {A : Type ℓ} → (A → A → Bool) → A → List A → List A
insert_by le r [] = r ∷ []
insert_by le r (x ∷ rows) =
    let later = x ∷ insert_by le r rows in if le r x then r ∷ x ∷ rows else later

-- `ORDER BY`; ties keep the order of insertion.
abbrev pub order_by {ℓ} : {A : Type ℓ} → (A → A → Bool) → List A → List A
order_by le [] = []
order_by le (r ∷ rows) = insert_by le r (order_by le rows)

-- `LIMIT n OFFSET m`, which raises on a negative number.
abbrev pub limit_offset {ℓ} : {A : Type ℓ} → ℤ → ℤ → List A → Option (List A)
limit_offset (pos n) (pos m) rows = some (take n (drop m rows))
limit_offset (pos n) (negsuc m) rows = none
limit_offset (negsuc n) offset rows = none

-- `WHERE` with a test that may raise: one row in front of the rows that are found behind it.
abbrev pub select_step {ℓ} : {A : Type ℓ} → A → Option Bool → Option (List A) → Option (List A)
select_step r none rest = none
select_step r (some false) rest = rest
select_step r (some true) none = none
select_step r (some true) (some found) = some (r ∷ found)

abbrev pub select_where {ℓ} : {A : Type ℓ} → (A → Option Bool) → List A → Option (List A)
select_where p [] = some []
select_where p (r ∷ rows) = select_step r (p r) (select_where p rows)

-- `COALESCE`
abbrev pub coalesce {ℓ} : {A : Type ℓ} → Option A → Option A → Option A
coalesce none b = b
coalesce (some a) b = some a

unfoldable pub find_agent : Bytes → List AgentRow → Option AgentRow
find_agent id [] = none
find_agent id (r ∷ rows) = if str_eq r.agent_id id then some r else find_agent id rows

unfoldable pub find_task : ℕ → List TaskRow → Option TaskRow
find_task id [] = none
find_task id (r ∷ rows) = if r.task_id == id then some r else find_task id rows
