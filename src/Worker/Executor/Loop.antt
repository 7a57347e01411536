-- ===== src/Worker/Executor/Loop.antt =====
-- The waiting loop of `TaskExecutor::Run` in src/worker/task_executor.cpp: when it is left.
use distributed_computing.Prelude.{
  ℕ, zero, suc, ◌+◌, ◌*◌, ◌-◌, ◌≤◌, ◌<◌, ◌≡◌, ◌≢◌, refl, inl, inr, ap, Bool, true, false, Option,
  none, some, pos, Bytes, leb, arith, Bool-cases,
}
use distributed_computing.Json.{JsonLib}
use distributed_computing.Worker.Client.{DispatchedTask}
use distributed_computing.Worker.Executor.{
  close, child_of, fresh_result, path_join, forked, waited, proceed, watch, Machine, Wait, done,
  not_yet, interrupted, wait_error, Ending, turn, wait_loop, run_task, nanoseconds, timeout_of,
  TaskExecutionResult,
}

-- A turn for every 50 milliseconds, and one more.
abbrev pub rounds : ℕ → ℕ
rounds timeout = 20 * timeout + 1

-- What POSIX says of the calls: the steady clock does not run backwards, a sleep lasts at least as
-- long as it was asked to, and `waitpid` with WNOHANG is not interrupted.
pub record IsPosix {S : Type 0} (machine : Machine S) : Type 0 where
  pub steady_now-waitpid : (s : S) → machine.steady_now s ≤ machine.steady_now (machine.waitpid s).1
  pub steady_now-sleep_for :
      (ms : ℕ) (s : S)
      → machine.steady_now s + ms * 1000000 ≤ machine.steady_now (machine.sleep_for ms s)
  pub waitpid-uninterrupted : (s : S) → (machine.waitpid s).0 ≢ interrupted

module _ {S K : Type 0} (machine : Machine S) where
  open machine use {steady_now, waitpid}

  module _ (is_canceled : K → S → Bool × (K × S)) (do_heartbeat : S → S) where
    timeout_of-pos : (n : ℕ) → 0 < n → timeout_of (some (pos n)) ≡ some n
    unfolding timeout_of
    timeout_of-pos zero h = absurd (omega (arith, h))
    timeout_of-pos (suc n) h = refl

    -- More fuel gives the same result.
    pub wait_loop_more :
        (fuel fuel' : ℕ) (timeout : Option ℕ) (start : ℕ) (state : K × S) (r : Ending × (K × S))
        → fuel ≤ fuel'
        → wait_loop machine is_canceled do_heartbeat fuel timeout start state ≡ some r
        → wait_loop machine is_canceled do_heartbeat fuel' timeout start state ≡ some r
    unfolding wait_loop
    wait_loop_more zero fuel' timeout start state r le h = absurd (cc h)
    wait_loop_more (suc fuel) zero timeout start state r le h = absurd (omega (arith, le))
    wait_loop_more (suc fuel) (suc fuel') timeout start (k, s) r le h =
        go (turn machine is_canceled do_heartbeat timeout start k s)
          (λ state. wait_loop_more fuel fuel' timeout start state r (omega (arith, le))) h
      where
        go :
            (t : Option Ending × (K × S))
            → ((state : K × S)
                → wait_loop machine is_canceled do_heartbeat fuel timeout start state ≡ some r
                → wait_loop machine is_canceled do_heartbeat fuel' timeout start state ≡ some r)
            → proceed machine is_canceled do_heartbeat
                (wait_loop machine is_canceled do_heartbeat fuel timeout start)
                t
              ≡ some r
            → proceed machine is_canceled do_heartbeat
                (wait_loop machine is_canceled do_heartbeat fuel' timeout start)
                t
              ≡ some r
        go (some e, state) rest e' = e'
        go (none, state) rest e' = rest state e'

    -- The calls of the loop's callbacks do not turn the clock back.
    abbrev pub KeepsTime : Type 0
    KeepsTime =
        ((k : K) (s : S) → steady_now s ≤ steady_now (is_canceled k s).1.1)
        × ((s : S) → steady_now s ≤ steady_now (do_heartbeat s))

    -- A turn that does not end the loop starts before the time is up, and takes 50 milliseconds.
    turn_goes_on :
        (laws : IsPosix machine) (kept : KeepsTime) (timeout start : ℕ) (k : K) (s : S)
        → (turn machine is_canceled do_heartbeat (some timeout) start k s).0 ≡ none
        → (steady_now s - start < nanoseconds timeout)
          × (steady_now s + 50000000
              ≤ steady_now (turn machine is_canceled do_heartbeat (some timeout) start k s).1.1)
    unfolding turn
    turn_goes_on laws kept timeout start k s h =
        go (waitpid s) (laws.steady_now-waitpid s) (laws.waitpid-uninterrupted s) h
      where
        watched :
            (s1 : S) (c : Bool × (K × S))
            → steady_now s ≤ steady_now s1
            → steady_now s1 ≤ steady_now c.1.1
            → (watch machine is_canceled do_heartbeat (some timeout) start c).0 ≡ none
            → (steady_now s - start < nanoseconds timeout)
              × (steady_now s + 50000000
                  ≤ steady_now (watch machine is_canceled do_heartbeat (some timeout) start c).1.1)
        watched s1 (true, (k2, s2)) le le' e = absurd (cc e)
        watched s1 (false, (k2, s2)) le le' e =
            elim (Bool-cases (leb (nanoseconds timeout) (steady_now s2 - start))) [
              | inl late ↦ absurd (cc (rw late at e))
              | inr early ↦ rw early (
                ground (arith, early, le, le'),
                omega (arith, le, le', kept.1 s2, laws.steady_now-sleep_for 50 (do_heartbeat s2)),
              )
            ]

        go :
            (w : Wait × S)
            → steady_now s ≤ steady_now w.1
            → w.0 ≢ interrupted
            → (waited machine is_canceled do_heartbeat (some timeout) start k w).0 ≡ none
            → (steady_now s - start < nanoseconds timeout)
              × (steady_now s + 50000000
                  ≤ steady_now
                      (waited machine is_canceled do_heartbeat (some timeout) start k w).1.1)
        go (done status, s1) le free e = absurd (cc e)
        go (wait_error, s1) le free e = absurd (cc e)
        go (interrupted, s1) le free e = absurd (free refl)
        go (not_yet, s1) le free e = watched s1 (is_canceled k s1) le (kept.0 k s1) e

    ends :
        (again : K × S → Option (Ending × (K × S))) (t : Option Ending × (K × S))
        → (t.0 ≡ none → (r : Ending × (K × S)) × (again t.1 ≡ some r))
        → (r : Ending × (K × S)) × (proceed machine is_canceled do_heartbeat again t ≡ some r)
    ends again (some e, state) rest = ((e, state), refl)
    ends again (none, state) rest = rest refl

    -- With a time limit the loop ends once the fuel covers the time that is left, 50 milliseconds a
    -- turn.
    wait_loop-Ends :
        (laws : IsPosix machine) (kept : KeepsTime) (fuel timeout start : ℕ) (state : K × S)
        → nanoseconds timeout ≤ steady_now state.1 - start + fuel * 50000000
        → start ≤ steady_now state.1
        → (r : Ending × (K × S)) × (wait_loop machine is_canceled do_heartbeat
              (suc fuel)
              (some timeout)
              start
              state
            ≡ some r)
    unfolding wait_loop
    wait_loop-Ends laws kept zero timeout start (k, s) enough begun =
        ends (wait_loop machine is_canceled do_heartbeat zero (some timeout) start)
          (turn machine is_canceled do_heartbeat (some timeout) start k s)
          (λ h.
            let up = turn_goes_on laws kept timeout start k s h in
            absurd (omega (arith, up.0, enough)))
    wait_loop-Ends laws kept (suc fuel) timeout start (k, s) enough begun =
        ends (wait_loop machine is_canceled do_heartbeat (suc fuel) (some timeout) start)
          (turn machine is_canceled do_heartbeat (some timeout) start k s)
          (λ h.
            let up = turn_goes_on laws kept timeout start k s h in
            wait_loop-Ends laws kept fuel timeout start
              (turn machine is_canceled do_heartbeat (some timeout) start k s).1
              (omega (arith, up.1, enough, begun)) (omega (arith, up.1, begun)))

    -- On a machine whose calls behave as POSIX says, and with callbacks that do not turn the clock
    -- back, a task with a time limit of `n` seconds is left by its executor within `20 * n + 1`
    -- turns, whatever the child does.
    pub run_task-Ends :
        (laws : IsPosix machine) (kept : KeepsTime) (j : JsonLib) (log_root : Bytes) (n fuel : ℕ)
        (task : DispatchedTask j) (k : K) (s : S)
        → 0 < n
        → task.timeout_sec ≡ some (pos n)
        → rounds n ≤ fuel
        → (r : TaskExecutionResult × (K × S)) × (run_task machine is_canceled do_heartbeat j
              log_root fuel task k s
            ≡ some r)
    unfolding run_task
    run_task-Ends laws kept j log_root n fuel task k s positive limit enough =
        let log_dir = path_join log_root task.task_id in
        let result = fresh_result (machine.utc_now s) log_dir in
        rw (limit, run_task)
          (rw (timeout_of-pos n positive) (
            go result
              (machine.fork (child_of j task result) (machine.create_directories log_dir s))))
      where
        closes :
            (result : TaskExecutionResult) {o : Option (Ending × (K × S))} (r : Ending × (K × S))
            → o ≡ some r
            → (q : TaskExecutionResult × (K × S)) × (close machine is_canceled do_heartbeat result o
                ≡ some q)
        closes result (e, (k', s')) h = (_, ap (close machine is_canceled do_heartbeat result) h)

        go :
            (result : TaskExecutionResult) (f : Bool × S)
            → (r : TaskExecutionResult × (K × S)) × (forked machine is_canceled do_heartbeat fuel
                  (some n)
                  result
                  k
                  f
                ≡ some r)
        go result (false, s1) = (_, refl)
        go result (true, s1) =
            let (r, e) =
              wait_loop-Ends laws kept (20 * n) n (steady_now s1) (k, s1) (omega arith)
                (omega arith) in
            let e' : wait_loop machine is_canceled do_heartbeat fuel (some n) (steady_now s1)
                  (k, s1)
                ≡ some r =
              wait_loop_more (suc (20 * n)) fuel (some n) (steady_now s1) (k, s1) r (omega arith)
                e in
            closes result r e'
