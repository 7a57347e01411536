-- ===== src/Worker/App/Watching.antt =====
-- The calls that src/worker/worker_app.cpp makes while a task's command runs.
use mathlib.Core.Path.{subst}
use distributed_computing.Prelude.{
  pos_part, ◌-◌, ltb, ℕ, zero, suc, ◌≡◌, refl, inl, inr, Bool, true, false, Option, none, some,
  List, Bytes, Bool-cases,
}
use distributed_computing.Json.{JsonLib}
use distributed_computing.Worker.Client.{
  Call, HttpClient, DispatchedTask, send_heartbeat, get_task_state,
}
use distributed_computing.Worker.Config.{WorkerConfig}
use distributed_computing.Worker.Executor.{
  child_of, fresh_result, timeout_of, is_expired, Machine, TaskExecutionResult, Wait, done, not_yet,
  interrupted, wait_error, Ending, watch, waited, turn, proceed, wait_loop, forked, close, run_task,
}
use distributed_computing.Worker.App.{nanoseconds, busy, is_canceled, do_heartbeat}
use distributed_computing.Worker.App.Recorded.{
  Recorded, recording, silent, Grew, Grew-nothing, Grew-call, Grew-Grew, IsWatch,
}
use mathlib.Core.Option.{some-injective}
use distributed_computing.Common.Paths.{path_join}

module _ {S : Type 0} (machine : Machine S) (j : JsonLib) (http : HttpClient S)
    (config : WorkerConfig) where
  module _ (task_id : Bytes) where
    abbrev watching : ℕ → Recorded S → Bool × (ℕ × Recorded S)
    watching = is_canceled (silent machine) j (recording http) config task_id

    abbrev beating : Recorded S → Recorded S
    beating = do_heartbeat (silent machine) j (recording http) config busy

    checked :
        (last : ℕ) (w : Recorded S) → Grew (IsWatch j config task_id) w.1 (watching last w).1.1.1
    unfolding is_canceled get_task_state
    checked last (s, log) =
        elim (Bool-cases (
          ltb (machine.steady_now s - last)
            (nanoseconds (pos_part config.cancel_check_interval_sec)))) [
              | inl early ↦ rw (early, is_canceled) (Grew-nothing (IsWatch j config task_id) log)
              | inr due ↦
                  rw (due, is_canceled) (Grew-call (IsWatch j config task_id) log _ (inl refl))
            ]

    beaten : (w : Recorded S) → Grew (IsWatch j config task_id) w.1 (beating w).1
    unfolding do_heartbeat send_heartbeat
    beaten (s, log) = Grew-call (IsWatch j config task_id) log _ (inr refl)

    module _ (timeout : Option ℕ) (start : ℕ) where
      watched :
          (c : Bool × (ℕ × Recorded S))
          → Grew
              (IsWatch j config task_id)
              c.1.1.1
              (watch (silent machine) watching beating timeout start c).1.1.1
      watched (true, (k, w)) = Grew-nothing (IsWatch j config task_id) w.1
      watched (false, (k, w)) =
          elim (Bool-cases (is_expired (silent machine) watching beating timeout start w)) [
            | inl late ↦ rw late (Grew-nothing (IsWatch j config task_id) w.1)
            | inr early ↦ rw early (beaten w)
          ]

      waited-Grew :
          (k : ℕ) (a : Wait × Recorded S)
          → Grew
              (IsWatch j config task_id)
              a.1.1
              (waited (silent machine) watching beating timeout start k a).1.1.1
      waited-Grew k (done status, w) = Grew-nothing (IsWatch j config task_id) w.1
      waited-Grew k (wait_error, w) = Grew-nothing (IsWatch j config task_id) w.1
      waited-Grew k (interrupted, w) = Grew-nothing (IsWatch j config task_id) w.1
      waited-Grew k (not_yet, w) =
          Grew-Grew (IsWatch j config task_id) w.1 _ _ (checked k w) (watched (watching k w))

      turn-Grew :
          (k : ℕ) (w : Recorded S)
          → Grew
              (IsWatch j config task_id)
              w.1
              (turn (silent machine) watching beating timeout start k w).1.1.1
      unfolding turn
      turn-Grew k (s, log) = waited-Grew k ((silent machine).waitpid (s, log))

      wait_loop-Grew :
          (fuel k : ℕ) (w : Recorded S) (r : Ending × (ℕ × Recorded S))
          → wait_loop (silent machine) watching beating fuel timeout start (k, w) ≡ some r
          → Grew (IsWatch j config task_id) w.1 r.1.1.1
      unfolding wait_loop
      wait_loop-Grew zero k w r h = absurd (cc h)
      wait_loop-Grew (suc fuel) k w r h =
          go (turn (silent machine) watching beating timeout start k w) (turn-Grew k w)
            (λ k' w'. wait_loop-Grew fuel k' w' r) h
        where
          go :
              (t : Option Ending × (ℕ × Recorded S))
              → Grew (IsWatch j config task_id) w.1 t.1.1.1
              → ((k' : ℕ) (w' : Recorded S)
                  → wait_loop (silent machine) watching beating fuel timeout start (k', w') ≡ some r
                  → Grew (IsWatch j config task_id) w'.1 r.1.1.1)
              → proceed
                  (silent machine)
                  watching
                  beating
                  (wait_loop (silent machine) watching beating fuel timeout start)
                  t
                ≡ some r
              → Grew (IsWatch j config task_id) w.1 r.1.1.1
          go (some e, (k', w')) grown rest e' =
              subst (λ q. Grew (IsWatch j config task_id) w.1 q.1.1.1) (some-injective _ _ e') grown
          go (none, (k', w')) grown rest e' =
              Grew-Grew (IsWatch j config task_id) w.1 w'.1 r.1.1.1 grown (rest k' w' e')

    pub run_task-Grew :
        (fuel : ℕ) (task : DispatchedTask j) (k : ℕ) (w : Recorded S)
        (r : TaskExecutionResult × (ℕ × Recorded S))
        → run_task (silent machine) watching beating j config.log_dir fuel task k w ≡ some r
        → Grew (IsWatch j config task_id) w.1 r.1.1.1
    unfolding run_task
    run_task-Grew fuel task k (s, log) r h =
        let log_dir = path_join config.log_dir task.task_id in
        let result = fresh_result (machine.utc_now s) log_dir in
        go result
          ((silent machine).fork (child_of j task result)
            ((machine.create_directories log_dir s), log))
          (Grew-nothing (IsWatch j config task_id) log) h
      where
        closing :
            (result : TaskExecutionResult) (before : List Call)
            (o : Option (Ending × (ℕ × Recorded S)))
            → ((q : Ending × (ℕ × Recorded S))
                → o ≡ some q
                → Grew (IsWatch j config task_id) before q.1.1.1)
            → close (silent machine) watching beating result o ≡ some r
            → Grew (IsWatch j config task_id) before r.1.1.1
        closing result before none grown e = absurd (cc e)
        closing result before (some (e0, (k', w'))) grown e =
            subst (λ q. Grew (IsWatch j config task_id) before q.1.1.1) (some-injective _ _ e)
              (grown (e0, (k', w')) refl)

        go :
            (result : TaskExecutionResult) (f : Bool × Recorded S)
            → Grew (IsWatch j config task_id) log f.1.1
            → forked (silent machine) watching beating fuel (timeout_of task.timeout_sec) result k f
              ≡ some r
            → Grew (IsWatch j config task_id) log r.1.1.1
        go result (false, w') grown e =
            subst (λ q. Grew (IsWatch j config task_id) log q.1.1.1) (some-injective _ _ e) grown
        go result (true, w') grown e = Grew-Grew (IsWatch j config task_id) log w'.1 _ grown (
            closing result w'.1 _
              (wait_loop-Grew (timeout_of task.timeout_sec) (machine.steady_now w'.0) fuel k w') e)
