-- ===== src/Broker/Postgres/Effects/Create.antt =====
-- `CreateTask` of src/broker/pg_broker.cpp, and what `GetTask` reads of the new row.
use distributed_computing.Prelude.{
  str_eq, ◌⊎◌, ℕ, ◌≡◌, refl, sym, none, some, List, [], ◌∷◌, ◌++◌, Bytes, codes, ◌==◌,
  if◌then◌else◌, arith, Bool-cases, Option-cases, inl, inr, ap, ◌∙◌,
}
use distributed_computing.Json.{JsonLib, IsJsonLib, IsJsonValues}
use distributed_computing.Broker.Status.{TaskState, TaskState.queued}
use distributed_computing.Broker.Postgres.Keeps.Cancelling.{read_task_state_lem}
use distributed_computing.Broker.Types.{TaskInput, TaskRecord}
use distributed_computing.Broker.Constraints.{parse_json_or_default, normalize_constraints}
use distributed_computing.Broker.Constraints.Kept.{IsNormalized, IsNormalized-twice}
use distributed_computing.Broker.Retry.{Outcome, returned, threw}
use distributed_computing.Broker.Postgres.Schema.{TaskRow, Db, PgLib, find_task}
use distributed_computing.Broker.Postgres.Tasks.{create_task, get_task, task_record, new_task}
use distributed_computing.Broker.Postgres.Ids.{Ids-unused}
use distributed_computing.Broker.Postgres.Invariant.{Inv}

find_task-last :
    (id : ℕ) (rows : List TaskRow) (t : TaskRow)
    → find_task id rows ≡ none
    → t.task_id ≡ id
    → find_task id (rows ++ t ∷ []) ≡ some t
unfolding find_task
find_task-last id [] t h e = ground (arith, e)
find_task-last id (r ∷ rows) t h e = elim (Bool-cases (r.task_id == id)) [
  | inl hit ↦ absurd (cc (rw hit at h))
  | inr miss ↦ rw miss (find_task-last id rows t (rw miss at h) e)
]

module _ (j : JsonLib) (pg : PgLib) (task : TaskInput j) (now : ℕ) (db : Db) where
  -- The three JSON texts that are inserted.
  abbrev pub args_text : Bytes
  args_text = if j.is_null task.args then codes "[]" else j.dump task.args

  abbrev pub env_text : Bytes
  env_text = if j.is_null task.env then codes "{}" else j.dump task.env

  abbrev pub constraints_text : Bytes
  constraints_text = j.dump (normalize_constraints j task.constraints)

  -- The row of a new task, column by column: queued and in nobody's hands.
  abbrev pub IsNewRow : Bytes → Bytes → Bytes → TaskRow → Type 0
  IsNewRow args env constraints row =
      (row.task_id ≡ db.next_task_id)
      × (row.state ≡ queued)
      × (row.command ≡ task.command)
      × (row.args ≡ args)
      × (row.env ≡ env)
      × (row.constraints ≡ constraints)
      × (row.timeout_sec ≡ task.timeout_sec)
      × (row.assigned_agent ≡ none)
      × (row.created_at ≡ now)
      × (row.started_at ≡ none)
      × (row.finished_at ≡ none)
      × (row.exit_code ≡ none)
      × (row.error_message ≡ none)

  -- The columns that the casts gave, and the row.
  pub record IsCreated (outcome : Outcome ℕ) (after : Db) : Type 0 where
    pub args : Bytes
    pub env : Bytes
    pub constraints : Bytes
    pub row : TaskRow
    pub args_cast : pg.jsonb args_text ≡ some args
    pub env_cast : pg.jsonb env_text ≡ some env
    pub constraints_cast : pg.jsonb constraints_text ≡ some constraints
    pub identifier : outcome ≡ returned db.next_task_id
    pub columns : IsNewRow args env constraints row
    pub appended : after.tasks ≡ db.tasks ++ row ∷ []
    pub found : find_task db.next_task_id after.tasks ≡ some row
    pub fresh : find_task db.next_task_id db.tasks ≡ none

  -- What each outcome of a creation means.
  abbrev pub CreateResult : Outcome ℕ × Db → Type 0
  CreateResult (threw message, after) =
      ((pg.jsonb args_text ≡ none)
        ⊎ (pg.jsonb env_text ≡ none)
        ⊎ (pg.jsonb constraints_text ≡ none))
      × (after ≡ db)
  CreateResult (returned id, after) = IsCreated (returned id) after

  -- A creation throws only if a JSON column does not cast, and then changes nothing. Else it returns a
  -- number that no task had, and appends one row, which is then found under it: a queued task in
  -- nobody's hands, created at this time, neither started nor finished, with the submitted command
  -- and time limit and the three texts as the casts gave them.
  pub create_task-CreateResult : Inv db → CreateResult (create_task j pg task now db)
  unfolding create_task
  create_task-CreateResult v = elim (Option-cases (pg.jsonb args_text)) [
    | inl bad ↦ rw (bad, create_task) (inl bad, refl)
    | inr (args, e) ↦ elim (Option-cases (pg.jsonb env_text)) [
      | inl bad ↦ rw (e, bad, create_task) (inr (inl bad), refl)
      | inr (env, f) ↦ elim (Option-cases (pg.jsonb constraints_text)) [
        | inl bad ↦ rw (e, f, bad, create_task) (inr (inr bad), refl)
        | inr (constraints, g) ↦
            rw (e, f, g, create_task)
              (record {
                args = args;
                env = env;
                constraints = constraints;
                row = new_task j pg task args env constraints db.next_task_id now;
                columns =
                    (refl, refl, refl, refl, refl, refl, refl, refl, refl, refl, refl, refl, refl);
                args_cast = e;
                env_cast = f;
                constraints_cast = g;
                identifier = refl;
                appended = refl;
                found = find_task-last db.next_task_id db.tasks _ unused refl;
                fresh = unused;
              })
      ]
    ]
  ]
    where
      unused : find_task db.next_task_id db.tasks ≡ none
      unused = Ids-unused 1 db.next_task_id db.tasks v.ids db.next_task_id (omega arith)

-- A value that is given, or what stands for `null`.
abbrev pub given_json : (j : JsonLib) → j.Json → j.Json → j.Json
given_json j fallback v = if j.is_null v then fallback else v

module _ (j : JsonLib) (pg : PgLib) where
  -- A task as it was submitted.
  abbrev pub submitted : TaskInput j → ℕ → ℕ → TaskState → j.Json → TaskRecord j
  submitted task id now state constraints = record {
    task_id = id;
    state = state;
    command = task.command;
    args = given_json j (j.array []) task.args;
    env = given_json j j.empty_object task.env;
    timeout_sec = task.timeout_sec;
    assigned_agent = none;
    created_at = pg.to_char now;
    started_at = none;
    finished_at = none;
    exit_code = none;
    error_message = none;
    constraints = constraints;
  }

module _ (j : JsonLib) (laws : IsJsonLib j) (values : IsJsonValues j) (pg : PgLib)
    (same_value : (a b : Bytes) → pg.jsonb a ≡ some b → j.parse b ≡ j.parse a) where
  parse_json_or_default_lem :
      (v fallback : j.Json) (a text : Bytes)
      → pg.jsonb text ≡ some a
      → j.parse text ≡ some v
      → parse_json_or_default j a fallback ≡ v
  unfolding parse_json_or_default str_eq
  parse_json_or_default_lem v fallback [] text h e =
      absurd (cc (sym laws.parse-empty ∙ same_value text [] h ∙ e))
  parse_json_or_default_lem v fallback (c ∷ a) text h e =
      rw (same_value text (c ∷ a) h ∙ e, parse_json_or_default) refl

  -- An argument that is null is inserted as the text of its default.
  given_json_lem :
      (v fallback : j.Json) (a brackets : Bytes)
      → pg.jsonb (if j.is_null v then brackets else j.dump v) ≡ some a
      → j.parse brackets ≡ some fallback
      → parse_json_or_default j a fallback ≡ given_json j fallback v
  given_json_lem v fallback a brackets h e = elim (Bool-cases (j.is_null v)) [
    | inl absent ↦
        rw absent (parse_json_or_default_lem fallback fallback a brackets (rw absent at h) e)
    | inr present ↦
        rw present
          (parse_json_or_default_lem v fallback a (j.dump v) (rw present at h) (laws.parse-dump v))
  ]

  created :
      (task : TaskInput j) (now : ℕ) (db : Db) (id : ℕ) (p : Outcome ℕ × Db)
      → CreateResult j pg task now db p
      → p.0 ≡ returned id
      → IsCreated j pg task now db p.0 p.1
  created task now db id (threw m, after) c e = absurd (cc e)
  created task now db id (returned n, after) c e = c

  -- The record that is read of a row, from what its columns are.
  task_record_lem :
      (task : TaskInput j) (now : ℕ) (db : Db) (args env constraints : Bytes) (r : TaskRow)
      → IsNewRow j pg task now db args env constraints r
      → parse_json_or_default j args (j.array []) ≡ given_json j (j.array []) task.args
      → parse_json_or_default j env j.empty_object ≡ given_json j j.empty_object task.env
      → parse_json_or_default j constraints j.empty_object
        ≡ normalize_constraints j task.constraints
      → task_record j pg r
        ≡ submitted j pg task db.next_task_id now queued
            (normalize_constraints j (normalize_constraints j task.constraints))
  unfolding task_record
  task_record_lem task now db args env constraints r
        (e0, e1, e2, e3, e4, e5, e6, e7, e8, e9, ea, eb, ec) ha he hc =
      cc (read_task_state_lem queued)

  -- A task that was created is read back queued, in nobody's hands, neither started nor finished, with
  -- the command and the time limit that were submitted, the submitted arguments and environment, or
  -- `[]` and `{}` where these were null, and of the submitted constraints the four known ones whose
  -- values have the right type, unchanged, and no others. This is so for a database whose JSON columns
  -- keep the value of the text.
  pub get_task-create_task :
      (task : TaskInput j) (now later : ℕ) (db : Db) (id : ℕ)
      → Inv db
      → (create_task j pg task now db).0 ≡ returned id
      → (constraints : j.Json) × ((get_task j pg id later (create_task j pg task now db).1).0
          ≡ returned (some (submitted j pg task id now queued constraints)))
        × IsNormalized j task.constraints constraints
  unfolding get_task
  get_task-create_task task now later db id v h =
      let c =
        created task now db id (create_task j pg task now db)
          (create_task-CreateResult j pg task now db v) h in
      let same : db.next_task_id ≡ id = cc (sym c.identifier ∙ h) in
      let read =
        task_record_lem task now db c.args c.env c.constraints c.row c.columns
          (given_json_lem task.args (j.array []) c.args (codes "[]") c.args_cast laws.parse-array)
          (given_json_lem task.env j.empty_object c.env (codes "{}") c.env_cast laws.parse-object)
          (parse_json_or_default_lem (normalize_constraints j task.constraints) j.empty_object
            c.constraints _ c.constraints_cast (laws.parse-dump _)) in
      (
        normalize_constraints j (normalize_constraints j task.constraints),
        rw (sym same, c.found) (ap (λ x. returned (some x)) read),
        IsNormalized-twice j values task.constraints,
      )
