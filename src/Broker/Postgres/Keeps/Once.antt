-- ===== src/Broker/Postgres/Keeps/Once.antt =====
-- `PollTasksForAgent` of src/broker/pg_broker.cpp, run twice.
use mathlib.Core.Option.{some-injective}
use distributed_computing.Prelude.{
  ℕ, ◌≡◌, ◌≢◌, sym, ◌∙◌, ap, Option, none, some, List, [], ◌∷◌, map, Bytes, All, ℤ, arith, inl, inr,
}
use distributed_computing.Json.{JsonLib}
use distributed_computing.Broker.Types.{TaskDispatch}
use distributed_computing.Broker.Retry.{Outcome, returned, threw}
use distributed_computing.Broker.Postgres.Schema.{AgentRow, TaskRow, Db, PgLib, find_task}
use distributed_computing.Broker.Postgres.Poll.{is_waiting, task_dispatch, poll_tasks_for_agent}
use distributed_computing.Broker.Postgres.Invariant.{Inv}
use distributed_computing.Broker.Postgres.Keeps.Polling.{IsGiven}
use distributed_computing.Broker.Postgres.Keeps.Candidates.{IsCandidate, eligible-is_waiting}
use distributed_computing.Broker.Postgres.Keeps.Dispatch.{
  PollResult, poll_tasks_for_agent-PollResult, poll_tasks_for_agent-Inv,
}

-- No task is in both lists.
abbrev pub IsDisjoint : (j : JsonLib) → List (TaskDispatch j) → List (TaskDispatch j) → Type 0
IsDisjoint j ds es = All (λ d. All (λ e. e.task_id ≢ d.task_id) es) ds

-- A task that runs is no candidate.
given_apart :
    (pg : PgLib) (agent : AgentRow) (agent_id : Bytes) (now : ℕ) (tasks : List TaskRow) (id : ℕ)
    (c : TaskRow)
    → IsGiven agent_id now tasks id
    → IsCandidate pg agent tasks c
    → c.task_id ≢ id
given_apart pg agent agent_id now tasks id c (t, found, runs, held, started) (there, passes) e =
    let same : c ≡ t = some-injective c t (sym there ∙ ap (λ i. find_task i tasks) e ∙ found) in
    let waits = eligible-is_waiting pg agent c passes in
    ground (arith, ap is_waiting same, waits, runs)

module _ (j : JsonLib) (pg : PgLib) where
  apart_rows :
      (agent : AgentRow) (agent_id : Bytes) (now : ℕ) (tasks : List TaskRow)
      (rows more : List TaskRow)
      → All (λ c. IsGiven agent_id now tasks c.task_id) rows
      → All (IsCandidate pg agent tasks) more
      → IsDisjoint j (map (task_dispatch j pg) rows) (map (task_dispatch j pg) more)
  unfolding task_dispatch
  apart_rows agent agent_id now tasks [] more g h = tt
  apart_rows agent agent_id now tasks (r ∷ rows) more g h =
      (from_one more h, apart_rows agent agent_id now tasks rows more g.1 h)
    where
      from_one :
          (more : List TaskRow)
          → All (IsCandidate pg agent tasks) more
          → All (λ (e : TaskDispatch j). e.task_id ≢ r.task_id) (map (task_dispatch j pg) more)
      from_one [] h = tt
      from_one (c ∷ more) h =
          (given_apart pg agent agent_id now tasks r.task_id c g.0 h.0, from_one more h.1)

  module _ (a b : Bytes) (slots more_slots : ℤ) (now later : ℕ) (db : Db) where
    -- Two polls in a row, by whichever agents, never hand out the same task.
    pub poll_tasks_for_agent-IsDisjoint :
        (ds es : List (TaskDispatch j))
        → Inv db
        → (poll_tasks_for_agent j pg a slots now db).0 ≡ returned (some ds)
        → (poll_tasks_for_agent j pg b more_slots later
            (poll_tasks_for_agent j pg a slots now db).1).0
          ≡ returned (some es)
        → IsDisjoint j ds es
    poll_tasks_for_agent-IsDisjoint ds es v first second =
        go (poll_tasks_for_agent j pg a slots now db)
          (poll_tasks_for_agent-PollResult j pg a slots now db v) first
          (poll_tasks_for_agent-Inv j pg a slots now db v) second
      where
        none_of : (ds : List (TaskDispatch j)) → IsDisjoint j ds []
        none_of [] = tt
        none_of (d ∷ ds) = (tt, none_of ds)

        next :
            (tasks_of : Db) (rows : List TaskRow)
            (q : Outcome (Option (List (TaskDispatch j))) × Db)
            → All (λ c. IsGiven a now tasks_of.tasks c.task_id) rows
            → PollResult j pg b more_slots later tasks_of q
            → q.0 ≡ returned (some es)
            → IsDisjoint j (map (task_dispatch j pg) rows) es
        next db' rows (threw m, x) g r e = absurd (cc e)
        next db' rows (returned none, x) g r e = absurd (cc e)
        next db' rows (returned (some fs), x) g (inl (_, empty, _)) e =
            let nothing : es ≡ [] = cc (sym e ∙ ap (λ l. returned (some l)) empty) in
            rw nothing (none_of _)
        next db' rows (returned (some fs), x) g (inr (agent, more, _, are, fair)) e =
            let these : es ≡ map (task_dispatch j pg) more =
              cc (sym e ∙ ap (λ l. returned (some l)) are) in
            rw these (apart_rows agent a now db'.tasks rows more g fair.suited)

        go :
            (p : Outcome (Option (List (TaskDispatch j))) × Db)
            → PollResult j pg a slots now db p
            → p.0 ≡ returned (some ds)
            → Inv p.1
            → (poll_tasks_for_agent j pg b more_slots later p.1).0 ≡ returned (some es)
            → IsDisjoint j ds es
        go (threw m, x) r e w f = absurd (cc e)
        go (returned none, x) r e w f = absurd (cc e)
        go (returned (some fs), x) (inl (_, empty, _)) e w f =
            let nothing : ds ≡ [] = cc (sym e ∙ ap (λ l. returned (some l)) empty) in rw nothing tt
        go (returned (some fs), x) (inr (agent, rows, _, are, fair)) e w f =
            let these : ds ≡ map (task_dispatch j pg) rows =
              cc (sym e ∙ ap (λ l. returned (some l)) are) in
            rw these (
              next x rows (poll_tasks_for_agent j pg b more_slots later x) fair.given
                (poll_tasks_for_agent-PollResult j pg b more_slots later x w) f)
