-- ===== src/Worker/App/Withdrawn.antt =====
-- What the master answered where a cancellation check of src/worker/worker_app.cpp says yes.
use distributed_computing.Prelude.{
  ◌-◌, ltb, ℕ, ◌≡◌, refl, ap, inl, inr, ◌⊎◌, true, List, [], ◌∷◌, ◌++◌, Bytes, codes, pos_part,
  Bool-cases, str_eq, str_eq_iff,
}
use distributed_computing.Json.{JsonLib}
use distributed_computing.Master.Mappers.Parse.{Parsed, accepted, refused}
use distributed_computing.Worker.Client.{Call, HttpClient, state_call, get_task_state}
use distributed_computing.Worker.Config.{WorkerConfig}
use distributed_computing.Worker.Executor.{Machine, nanoseconds}
use distributed_computing.Worker.App.{busy, is_canceled, is_withdrawn, do_heartbeat}
use distributed_computing.Worker.App.Recorded.{Recorded, recording, silent}
use distributed_computing.Worker.Executor.Withdrawn.{EndsWithdrawn}

module _ {S : Type 0} (machine : Machine S) (j : JsonLib) (http : HttpClient S)
    (config : WorkerConfig) (task_id : Bytes) where
  -- The last call asked for the task's state, and the master answered that it is canceled or queued.
  abbrev pub IsWithdrawn : List Call → Type 0
  IsWithdrawn log =
      (s : S) × (before : List Call) × (state : Bytes) × (log ≡ before ++ state_call j task_id ∷ [])
      × ((get_task_state j http task_id s).0 ≡ accepted state)
      × ((state ≡ codes "canceled") ⊎ (state ≡ codes "queued"))

  answer-IsWithdrawn :
      (answer : Parsed Bytes)
      → is_withdrawn (silent machine) j (recording http) config answer ≡ true
      → (state : Bytes) × (answer ≡ accepted state)
        × ((state ≡ codes "canceled") ⊎ (state ≡ codes "queued"))
  answer-IsWithdrawn (refused message) h = absurd (cc h)
  answer-IsWithdrawn (accepted state) h = elim (Bool-cases (str_eq state (codes "canceled"))) [
    | inl same ↦ (state, refl, inl ((str_eq_iff state (codes "canceled")).0 same))
    | inr other ↦ (state, refl, inr ((str_eq_iff state (codes "queued")).0 (rw other at h)))
  ]

  check-IsWithdrawn :
      (last : ℕ) (w : Recorded S)
      → (is_canceled (silent machine) j (recording http) config task_id last w).0 ≡ true
      → IsWithdrawn (is_canceled (silent machine) j (recording http) config task_id last w).1.1.1
  unfolding is_canceled get_task_state
  check-IsWithdrawn last (s, log) h =
      elim (Bool-cases (
        ltb (machine.steady_now s - last)
          (nanoseconds (pos_part config.cancel_check_interval_sec)))) [
            | inl early ↦ absurd (cc (rw (early, is_canceled) at h))
            | inr due ↦
                let (state, e, which) =
                  answer-IsWithdrawn (get_task_state j http task_id s).0
                    (rw (due, is_canceled) at h) in
                rw (due, is_canceled) (s, log, state, refl, e, which)
          ]

  pub EndsWithdrawn-IsWithdrawn :
      (w : Recorded S)
      → EndsWithdrawn
          (silent machine)
          (is_canceled (silent machine) j (recording http) config task_id)
          (do_heartbeat (silent machine) j (recording http) config busy)
          w
      → IsWithdrawn w.1
  EndsWithdrawn-IsWithdrawn w (last, w0, hit, left) =
      let log = (is_canceled (silent machine) j (recording http) config task_id last w0).1.1.1 in
      let same : w.1 ≡ log = ap (λ q. q.1) left in rw same (check-IsWithdrawn last w0 hit)
