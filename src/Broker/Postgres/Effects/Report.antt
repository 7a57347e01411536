-- ===== src/Broker/Postgres/Effects/Report.antt =====
-- The outcomes of `UpdateTaskStatus` of src/broker/pg_broker.cpp.
use mathlib.Core.Option.{some-injective}
use distributed_computing.Prelude.{
  ap, ◌∙◌, Bytes, ℕ, ◌≡◌, ◌≢◌, refl, Bool, true, false, Option, none, some, List, [], ◌∷◌, All,
  length, keep, ◌==◌, arith, Bool-cases, Option-cases, inl, inr, ◌⊎◌,
}
use distributed_computing.Broker.Status.{
  TaskState, TaskState.queued, TaskState.running, TaskState.succeeded, TaskState.failed,
  TaskState.canceled, same_state,
}
use distributed_computing.Broker.Types.{StatusReport}
use distributed_computing.Broker.Retry.{Outcome, returned, threw}
use distributed_computing.Broker.Postgres.Schema.{
  coalesce, TaskRow, AssignmentRow, Db, PgLib, update_where, find_task,
}
use distributed_computing.Broker.Postgres.Status.{
  given_or_now, is_terminal, is_none, is_open_for, is_task, cast_param, reported, unassigned,
  update_task_status,
}
use distributed_computing.Broker.Postgres.History.{find_task-update_where, find_task-id}
use distributed_computing.Broker.Postgres.Keeps.Reporting.{closes_final, written}
use distributed_computing.Broker.Postgres.Effects.Task.{
  IsFinished, IsSameTask, OthersSame, OthersSame-update_where, IsClosed,
}

-- The number of rows that an UPDATE of one task counts.
keep-find_task :
    (id : ℕ) (rows : List TaskRow)
    → (length (keep (is_task id) rows) == 0) ≡ is_none (find_task id rows)
unfolding find_task
keep-find_task id [] = refl
keep-find_task id (r ∷ rows) = ground (arith, keep-find_task id rows)

-- A value that a report may give: the one that is given, else the one that was there.
abbrev pub IsUpdate {ℓ} : {A : Type ℓ} → Option A → Option A → Option A → Type ℓ
IsUpdate given old new = ((x : _) → given ≡ some x → new ≡ some x) × (given ≡ none → new ≡ old)

-- A time that a report may give: the one that is given, else this time if the state calls for it.
abbrev pub IsStamp : Option ℕ → Type 0 → ℕ → Option ℕ → Option ℕ → Type 0
IsStamp given Now now old new =
    ((x : ℕ) → given ≡ some x → new ≡ some x)
    × (given ≡ none → Now → new ≡ some now)
    × (given ≡ none → ¬ Now → new ≡ old)

-- The row of a task behind a report, column by column.
abbrev pub IsReportedRow : StatusReport → Option ℕ → Option ℕ → ℕ → TaskRow → TaskRow → Type 0
IsReportedRow u started finished now t t' =
    (t'.state ≡ u.state)
    × IsUpdate u.exit_code t.exit_code t'.exit_code
    × IsUpdate u.error_message t.error_message t'.error_message
    × IsStamp started (u.state ≡ running) now t.started_at t'.started_at
    × IsStamp finished (IsFinished u.state) now t.finished_at t'.finished_at
    × IsSameTask t t'

coalesce-IsUpdate {ℓ} :
    {A : Type ℓ} (given old : Option A) → IsUpdate given old (coalesce given old)
coalesce-IsUpdate none old = ((λ x e. absurd (cc e)), λ e. refl)
coalesce-IsUpdate (some a) old = ((λ x e. e), λ e. absurd (cc e))

given_or_now-IsStamp :
    (given : Option ℕ) (b : Bool) (Now : Type 0) (now : ℕ) (old : Option ℕ)
    → (given ≡ none → Now → b ≡ true)
    → (given ≡ none → ¬ Now → b ≡ false)
    → IsStamp given Now now old (given_or_now given b now old)
given_or_now-IsStamp none b Now now old yes_now not_now =
    ((λ x e. absurd (cc e)), (λ e h. rw (yes_now e h) refl), λ e h. rw (not_now e h) refl)
given_or_now-IsStamp (some t) b Now now old yes_now not_now =
    ((λ x e. e), (λ e h. absurd (cc e)), λ e h. absurd (cc e))

cast_param-none :
    (cast : Bytes → Option ℕ) (p : Option Bytes) → cast_param cast p ≡ some none → is_none p ≡ true
cast_param-none cast none e = refl
cast_param-none cast (some text) e = elim (Option-cases (cast text)) [
  | inl bad ↦ absurd (cc (rw (bad, cast_param) at e))
  | inr (t, good) ↦ absurd (cc (some-injective _ _ (rw (good, cast_param) at e)))
]

same_state-running : (s : TaskState) → s ≡ running → same_state s running ≡ true
same_state-running s e = rw e refl

same_state-other : (s : TaskState) → ¬ (s ≡ running) → same_state s running ≡ false
same_state-other queued h = refl
same_state-other running h = absurd (h refl)
same_state-other succeeded h = refl
same_state-other failed h = refl
same_state-other canceled h = refl

is_terminal-true : (s : TaskState) → IsFinished s → is_terminal s ≡ true
is_terminal-true s (inl e) = rw e refl
is_terminal-true s (inr (inl e)) = rw e refl
is_terminal-true s (inr (inr e)) = rw e refl

is_terminal-false : (s : TaskState) → ¬ IsFinished s → is_terminal s ≡ false
is_terminal-false queued h = refl
is_terminal-false running h = refl
is_terminal-false succeeded h = absurd (h (inl refl))
is_terminal-false failed h = absurd (h (inr (inl refl)))
is_terminal-false canceled h = absurd (h (inr (inr refl)))

reported-IsReportedRow :
    (pg : PgLib) (u : StatusReport) (started finished : Option ℕ) (now : ℕ) (t : TaskRow)
    → cast_param pg.timestamptz u.started_at ≡ some started
    → cast_param pg.timestamptz u.finished_at ≡ some finished
    → IsReportedRow u started finished now t (reported u started finished now t)
reported-IsReportedRow pg u started finished now t e f = (
  refl,
  coalesce-IsUpdate u.exit_code t.exit_code,
  coalesce-IsUpdate u.error_message t.error_message,
  given_or_now-IsStamp started _ (u.state ≡ running) now t.started_at
      (λ g h.
        let absent : is_none u.started_at ≡ true =
          cast_param-none pg.timestamptz _ (e ∙ ap some g) in
        rw absent (same_state-running u.state h))
      (λ g h.
        let absent : is_none u.started_at ≡ true =
          cast_param-none pg.timestamptz _ (e ∙ ap some g) in
        rw absent (same_state-other u.state h)),
  given_or_now-IsStamp finished _ (IsFinished u.state) now t.finished_at
      (λ g h.
        let absent : is_none u.finished_at ≡ true =
          cast_param-none pg.timestamptz _ (f ∙ ap some g) in
        rw absent (is_terminal-true u.state h))
      (λ g h.
        let absent : is_none u.finished_at ≡ true =
          cast_param-none pg.timestamptz _ (f ∙ ap some g) in
        rw absent (is_terminal-false u.state h)),
  (refl, refl, refl, refl, refl, refl, refl, refl),
)

module _ (pg : PgLib) (id : ℕ) (u : StatusReport) (now : ℕ) (db : Db) where
  -- What each outcome of a report means.
  abbrev pub ReportResult : Outcome Bool × Db → Type 0
  ReportResult (threw message, after) =
      ((cast_param pg.timestamptz u.started_at ≡ none)
        ⊎ (cast_param pg.timestamptz u.finished_at ≡ none))
      × (after ≡ db)
  ReportResult (returned false, after) = (find_task id db.tasks ≡ none) × (after ≡ db)
  ReportResult (returned true, after) =
      ((t : TaskRow) × (t' : TaskRow) × (started : Option ℕ) × (finished : Option ℕ) × (find_task id
            db.tasks
          ≡ some t)
        × (cast_param pg.timestamptz u.started_at ≡ some started)
        × (cast_param pg.timestamptz u.finished_at ≡ some finished)
        × (find_task id after.tasks ≡ some t')
        × IsReportedRow u started finished now t t')
      × OthersSame id db.tasks after.tasks
      × (IsFinished u.state → All (IsClosed id) after.assignments)
      × (¬ IsFinished u.state → after.assignments ≡ db.assignments)

  closes :
      (finished : Option ℕ)
      → cast_param pg.timestamptz u.finished_at ≡ some finished
      → is_terminal u.state ≡ true
      → (rows : List AssignmentRow)
      → All (IsClosed id) (update_where (is_open_for id) (unassigned u finished now) rows)
  closes finished e final [] = tt
  closes finished e final (r ∷ rows) = elim (Bool-cases (is_open_for id r)) [
    | inl live ↦ rw live (
      shut (unassigned u finished now r) (closes_final pg u finished now r e final),
      closes finished e final rows,
    )
    | inr other ↦ rw other (other, closes finished e final rows)
  ]
    where
      shut : (x : AssignmentRow) → x.unassigned_at ≢ none → is_open_for id x ≡ false
      shut x h = elim (Option-cases x.unassigned_at) [
        | inl e ↦ absurd (h e)
        | inr (t, e) ↦ ground (arith, e)
      ]

  written_result :
      (t : TaskRow) (started finished : Option ℕ)
      → find_task id db.tasks ≡ some t
      → cast_param pg.timestamptz u.started_at ≡ some started
      → cast_param pg.timestamptz u.finished_at ≡ some finished
      → ReportResult (returned true, written id u started finished now db)
  written_result t started finished found e f =
      let chosen : is_task id t ≡ true = ground (arith, find_task-id id db.tasks t found) in
      (
        (
          t,
          reported u started finished now t,
          started,
          finished,
          found,
          e,
          f,
          rw
              (
                find_task-update_where (is_task id) (reported u started finished now) (λ x. refl) id
                    db.tasks,
                found,
                chosen,
              )
              refl,
          reported-IsReportedRow pg u started finished now t e f,
        ),
        OthersSame-update_where id (reported u started finished now) (λ x. refl) db.tasks,
        (λ h.
            let final : is_terminal u.state ≡ true = is_terminal-true u.state h in
            rw final (closes finished f final db.assignments)),
        (λ h. let live : is_terminal u.state ≡ false = is_terminal-false u.state h in rw live refl),
      )

  -- A report throws only for a time that does not parse, and finds no task only if there is none; both
  -- change nothing. Else it writes that task's row and no other: the state is the reported one, the exit
  -- code and the error message are the reported ones or, where none is given, as they were, the start
  -- and the end are the reported times or, where none is given, this time for a task that runs and one
  -- that is finished, and as they were for any other; the other columns stay. It closes every
  -- assignment of the task if its state is final, and leaves the assignments alone if it is not.
  pub update_task_status-ReportResult : ReportResult (update_task_status pg id u now db)
  unfolding update_task_status
  update_task_status-ReportResult = elim (Option-cases (cast_param pg.timestamptz u.started_at)) [
    | inl bad ↦ rw (bad, update_task_status) (inl bad, refl)
    | inr (started, e) ↦ elim (Option-cases (cast_param pg.timestamptz u.finished_at)) [
      | inl bad ↦ rw (e, bad, update_task_status) (inr bad, refl)
      | inr (finished, f) ↦ elim (Option-cases (find_task id db.tasks)) [
        | inl gone ↦ rw (e, f, keep-find_task id db.tasks, gone, update_task_status) (gone, refl)
        | inr (t, found) ↦
            rw (e, f, keep-find_task id db.tasks, found, update_task_status)
              (written_result t started finished found e f)
      ]
    ]
  ]
