-- ===== src/Master/Service/Run/Stray.antt =====
-- The state machine of src/master/api_mappers.cpp and `UpdateTaskStatus`, on a queued task.
use mathlib.Core.Option.{some-injective}
use distributed_computing.Prelude.{
  ℕ, ◌≡◌, refl, sym, ◌∙◌, Bool, Option, true, false, none, some, inl, inr,
}
use distributed_computing.Broker.Status.{TaskState.queued, TaskState.running}
use distributed_computing.Broker.Types.{StatusReport}
use distributed_computing.Broker.Retry.{Outcome, returned, threw}
use distributed_computing.Broker.Postgres.Schema.{TaskRow, Db, PgLib, find_task}
use distributed_computing.Broker.Postgres.Status.{update_task_status, cast_param}
use distributed_computing.Broker.Postgres.Effects.Stray.{IsStray}
use distributed_computing.Broker.Postgres.Effects.Report.{
  IsReportedRow, ReportResult, update_task_status-ReportResult,
}
use distributed_computing.Master.Mappers.{is_valid_task_state_transition}

-- A report `running` on a queued task in nobody's hands, with no times or with any that the database
-- can cast, passes the state machine, is written, and leaves the task stray.
pub update_task_status-IsStray :
    (pg : PgLib) (id : ℕ) (u : StatusReport) (t : TaskRow) (started finished : Option ℕ) (now : ℕ)
    (db : Db)
    → find_task id db.tasks ≡ some t
    → t.state ≡ queued
    → t.assigned_agent ≡ none
    → u.state ≡ running
    → cast_param pg.timestamptz u.started_at ≡ some started
    → cast_param pg.timestamptz u.finished_at ≡ some finished
    → (is_valid_task_state_transition t.state u.state ≡ true)
      × ((update_task_status pg id u now db).0 ≡ returned true)
      × ((t' : TaskRow) × IsReportedRow u started finished now t t'
          × IsStray id t' (update_task_status pg id u now db).1)
unfolding is_valid_task_state_transition
update_task_status-IsStray pg id u t started finished now db found waits free runs e f =
    let written =
      go (update_task_status pg id u now db) (update_task_status-ReportResult pg id u now db) in
    (rw (waits, runs) refl, written.0, written.1)
  where
    go :
        (p : Outcome Bool × Db)
        → ReportResult pg id u now db p
        → (p.0 ≡ returned true)
          × ((t' : TaskRow) × IsReportedRow u started finished now t t' × IsStray id t' p.1)
    go (threw m, after) (inl bad, same) = absurd (cc (sym e ∙ bad))
    go (threw m, after) (inr bad, same) = absurd (cc (sym f ∙ bad))
    go (returned false, after) (gone, same) = absurd (cc (sym found ∙ gone))
    go (returned true, after)
          ((t0, t', started', finished', there, e', f', here, row), others, shut, kept) =
        let same : t0 ≡ t = some-injective t0 t (sym there ∙ found) in
        let same_start : started' ≡ started = some-injective _ _ (sym e' ∙ e) in
        let same_end : finished' ≡ finished = some-injective _ _ (sym f' ∙ f) in
        let row' : IsReportedRow u started finished now t t' =
          rw (same, same_start, same_end) at row in
        let (state, code, message, start, end, same_task) = row' in
        let (num, command, args, env, constraints, limit, agent, at) = same_task in
        (refl, (t', row', (here, state ∙ runs, agent ∙ free)))
