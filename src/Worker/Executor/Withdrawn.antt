-- ===== src/Worker/Executor/Withdrawn.antt =====
-- When `TaskExecutor::Run` of src/worker/task_executor.cpp says that a task was canceled.
use mathlib.Core.Path.{subst}
use distributed_computing.Prelude.{
  ℕ, zero, suc, ◌≡◌, refl, sym, ap, ◌∙◌, Bool, true, false, Option, none, some, Bytes, codes,
  Bool-cases, inl, inr,
}
use distributed_computing.Json.{JsonLib}
use distributed_computing.Common.Paths.{path_join}
use distributed_computing.Worker.Client.{DispatchedTask}
use distributed_computing.Worker.Executor.{
  Machine, Wait, done, wait_error, interrupted, not_yet, Ending, ended, was_canceled, expired,
  wait_failed, TaskExecutionResult, fresh_result, closed_result, child_of, timeout_of, is_expired,
  watch, waited, turn, proceed, wait_loop, close, forked, run_task,
}

module _ {S K : Type 0} (machine : Machine S) (is_canceled : K → S → Bool × (K × S))
    (do_heartbeat : S → S) where
  -- The run ended with a cancellation check that answered yes, and the kill behind it.
  abbrev pub EndsWithdrawn : S → Type 0
  EndsWithdrawn s' =
      (k : K) × (s : S) × ((is_canceled k s).0 ≡ true)
      × (s' ≡ (machine.kill (is_canceled k s).1.1).1)

  -- What an ending says of the state that it leaves.
  abbrev IsSeen : Ending × (K × S) → Type 0
  IsSeen (ended status, (k, s)) = Unit
  IsSeen (was_canceled status, (k, s)) = EndsWithdrawn s
  IsSeen (expired status, (k, s)) = Unit
  IsSeen (wait_failed, (k, s)) = Unit

  abbrev IsTurn : Option Ending × (K × S) → Type 0
  IsTurn (none, state) = Unit
  IsTurn (some e, state) = IsSeen (e, state)

  watch-IsTurn :
      (timeout : Option ℕ) (start : ℕ) (k : K) (s : S) (c : Bool × (K × S))
      → is_canceled k s ≡ c
      → IsTurn (watch machine is_canceled do_heartbeat timeout start c)
  watch-IsTurn timeout start k s (true, (k', s')) e =
      (k, s, ap (λ c. c.0) e, ap (λ c. (machine.kill c.1.1).1) (sym e))
  watch-IsTurn timeout start k s (false, (k', s')) e =
      elim (Bool-cases (is_expired machine is_canceled do_heartbeat timeout start s')) [
        | inl late ↦ rw late tt
        | inr early ↦ rw early tt
      ]

  waited-IsTurn :
      (timeout : Option ℕ) (start : ℕ) (k : K) (a : Wait × S)
      → IsTurn (waited machine is_canceled do_heartbeat timeout start k a)
  waited-IsTurn timeout start k (done status, s) = tt
  waited-IsTurn timeout start k (wait_error, s) = tt
  waited-IsTurn timeout start k (interrupted, s) = tt
  waited-IsTurn timeout start k (not_yet, s) = watch-IsTurn timeout start k s (is_canceled k s) refl

  wait_loop-IsSeen :
      (fuel : ℕ) (timeout : Option ℕ) (start : ℕ) (state : K × S) (r : Ending × (K × S))
      → wait_loop machine is_canceled do_heartbeat fuel timeout start state ≡ some r
      → IsSeen r
  unfolding wait_loop turn
  wait_loop-IsSeen zero timeout start state r h = absurd (cc h)
  wait_loop-IsSeen (suc fuel) timeout start (k, s) r h =
      go (turn machine is_canceled do_heartbeat timeout start k s)
        (waited-IsTurn timeout start k (machine.waitpid s))
        (λ state'. wait_loop-IsSeen fuel timeout start state' r) h
    where
      go :
          (t : Option Ending × (K × S))
          → IsTurn t
          → ((state' : K × S)
              → wait_loop machine is_canceled do_heartbeat fuel timeout start state' ≡ some r
              → IsSeen r)
          → proceed machine is_canceled do_heartbeat
              (wait_loop machine is_canceled do_heartbeat fuel timeout start)
              t
            ≡ some r
          → IsSeen r
      go (some e, state') seen rest h' =
          let same : (e, state') ≡ r = cc h' in subst IsSeen same seen
      go (none, state') seen rest h' = rest state' h'

  -- A result that says canceled comes of a run that ended with a cancellation check that said yes.
  abbrev pub IsExplained : TaskExecutionResult × (K × S) → Type 0
  IsExplained r = r.0.canceled ≡ true → EndsWithdrawn r.1.1

  closed-IsExplained :
      (e : Ending) (now started_at log_dir : Bytes) (state : K × S)
      → IsSeen (e, state)
      → IsExplained (closed_result e now (fresh_result started_at log_dir), state)
  unfolding closed_result fresh_result
  closed-IsExplained (ended status) now started_at log_dir (k, s) seen c = absurd (cc c)
  closed-IsExplained (was_canceled status) now started_at log_dir (k, s) seen c = seen
  closed-IsExplained (expired status) now started_at log_dir (k, s) seen c = absurd (cc c)
  closed-IsExplained wait_failed now started_at log_dir (k, s) seen c = absurd (cc c)

  pub run_task-IsExplained :
      (j : JsonLib) (log_root : Bytes) (fuel : ℕ) (task : DispatchedTask j) (k : K) (s : S)
      (r : TaskExecutionResult × (K × S))
      → run_task machine is_canceled do_heartbeat j log_root fuel task k s ≡ some r
      → IsExplained r
  unfolding run_task fresh_result
  run_task-IsExplained j log_root fuel task k s r h =
      let log_dir = path_join log_root task.task_id in
      let result = fresh_result (machine.utc_now s) log_dir in
      go (machine.utc_now s) log_dir
        (machine.fork (child_of j task result) (machine.create_directories log_dir s)) h
    where
      closing :
          (started_at log_dir : Bytes) (o : Option (Ending × (K × S)))
          → ((q : Ending × (K × S)) → o ≡ some q → IsSeen q)
          → close machine is_canceled do_heartbeat (fresh_result started_at log_dir) o ≡ some r
          → IsExplained r
      closing started_at log_dir none seen e = absurd (cc e)
      closing started_at log_dir (some (e0, (k', s'))) seen e =
          let same : (
            closed_result e0 (machine.utc_now s') (fresh_result started_at log_dir),
            (k', s'),
          )
              ≡ r =
            cc e in
          subst IsExplained same (
            closed-IsExplained e0 (machine.utc_now s') started_at log_dir (k', s')
              (seen (e0, (k', s')) refl))

      go :
          (started_at log_dir : Bytes) (f : Bool × S)
          → forked machine is_canceled do_heartbeat fuel
              (timeout_of task.timeout_sec)
              (fresh_result started_at log_dir)
              k
              f
            ≡ some r
          → IsExplained r
      go started_at log_dir (false, s1) e c =
          let failure = record (fresh_result started_at log_dir) {
            failed_to_start = true;
            error_message = codes "fork failed";
          } in
          let same : failure ≡ r.0 = ap (λ q. q.0) (let p : (failure, (k, s1)) ≡ r = cc e in p) in
          let kept : false ≡ true = ap (λ q. q.canceled) same ∙ c in absurd (cc kept)
      go started_at log_dir (true, s1) e c =
          closing started_at log_dir _
            (wait_loop-IsSeen fuel (timeout_of task.timeout_sec) (machine.steady_now s1) (k, s1)) e
            c
