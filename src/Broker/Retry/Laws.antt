-- ===== src/Broker/Retry/Laws.antt =====
-- `Broker::ExecuteWithRetry` of src/broker/broker.hpp, under schedules of connection faults.
use distributed_computing.Prelude.{
  ◌≤◌, ℕ, zero, pos, inl, inr, suc, ◌+◌, ◌*◌, ◌<◌, ◌≡◌, ◌∙◌, refl, List, [], ◌∷◌, ◌++◌, map, Bytes,
  ℤ, pos_part, length, arith,
}
use distributed_computing.Broker.Retry.{
  Outcome-cases, Fault, fine, lost, in_doubt, Outcome, returned, threw, World, second, attempt,
  sleep, retry, execute_with_retry,
}

module _ {S A : Type 0} (fn : ℕ → S → Outcome A × S) where
  module _ (P : S → Type 0) (step : (now : ℕ) (s : S) → P s → P (fn now s).1) where
    attempt_keeps :
        (w : World S) (faults : List Fault)
        → w.faults ≡ faults
        → P w.store
        → P (attempt fn w).1.store
    unfolding attempt
    attempt_keeps w [] e h = rw (e, attempt) (step w.clock w.store h)
    attempt_keeps w (fine ∷ rest) e h = rw (e, attempt) (step w.clock w.store h)
    attempt_keeps w (lost m ∷ rest) e h = rw (e, attempt) h
    attempt_keeps w (in_doubt m ∷ rest) e h = rw (e, attempt) (step w.clock w.store h)

    retry_keeps :
        (left : ℕ) (cooldown : ℤ) (w : World S) → P w.store → P (retry left cooldown fn w).1.store
    unfolding retry sleep
    retry_keeps zero cooldown w h = h
    retry_keeps (suc zero) cooldown w h = attempt_keeps w w.faults refl h
    retry_keeps (suc (suc left)) cooldown w h =
        let kept = attempt_keeps w w.faults refl h in
        elim (Outcome-cases (attempt fn w).0) [
          | inl (a, e) ↦ rw (e, retry) kept
          | inr (m, e) ↦
              rw (e, retry) (retry_keeps (suc left) cooldown (sleep cooldown (attempt fn w).1) kept)
        ]

    -- Whatever the connection does, an invariant that each transaction keeps holds afterwards.
    pub execute_with_retry_keeps :
        (attempts cooldown : ℤ) (w : World S)
        → P w.store
        → P (execute_with_retry attempts cooldown fn w).1.store
    unfolding execute_with_retry
    execute_with_retry_keeps attempts cooldown w h = retry_keeps (pos_part attempts) cooldown w h

    -- A result that is returned is that of a transaction, and holds of the store that it left.
    module _ (R : A → S → Type 0)
        (done : (now : ℕ) (s : S) (a : A)
          → P s
          → (fn now s).0 ≡ returned a
          → R a (fn now s).1) where
      attempt_returned :
          (w : World S) (faults : List Fault) (a : A)
          → w.faults ≡ faults
          → P w.store
          → (attempt fn w).0 ≡ returned a
          → R a (attempt fn w).1.store
      unfolding attempt
      attempt_returned w [] a e h r =
          rw (e, attempt) (done w.clock w.store a h (rw (e, attempt) at r))
      attempt_returned w (fine ∷ rest) a e h r =
          rw (e, attempt) (done w.clock w.store a h (rw (e, attempt) at r))
      attempt_returned w (lost m ∷ rest) a e h r = absurd (cc (rw (e, attempt) at r))
      attempt_returned w (in_doubt m ∷ rest) a e h r = absurd (cc (rw (e, attempt) at r))

      retry_returned :
          (left : ℕ) (cooldown : ℤ) (w : World S) (a : A)
          → P w.store
          → (retry left cooldown fn w).0 ≡ returned a
          → R a (retry left cooldown fn w).1.store
      unfolding retry sleep
      retry_returned zero cooldown w a h r = absurd (cc r)
      retry_returned (suc zero) cooldown w a h r = attempt_returned w w.faults a refl h r
      retry_returned (suc (suc left)) cooldown w a h r =
          let kept = attempt_keeps w w.faults refl h in
          elim (Outcome-cases (attempt fn w).0) [
            | inl (b, e) ↦
                rw (e, retry) (attempt_returned w w.faults a refl h (e ∙ (rw (e, retry) at r)))
            | inr (m, e) ↦
                rw (e, retry)
                  (retry_returned (suc left) cooldown (sleep cooldown (attempt fn w).1) a kept
                    (rw (e, retry) at r))
          ]

      pub execute_with_retry_returned :
          (attempts cooldown : ℤ) (w : World S) (a : A)
          → P w.store
          → (execute_with_retry attempts cooldown fn w).0 ≡ returned a
          → R a (execute_with_retry attempts cooldown fn w).1.store
      unfolding execute_with_retry
      execute_with_retry_returned attempts cooldown w a h r =
          retry_returned (pos_part attempts) cooldown w a h r

  retry_recovers :
      (messages : List Bytes) (rest : List Fault) (left : ℕ) (cooldown : ℤ) (s : S) (now later : ℕ)
      (a : A) (s' : S)
      → length messages < left
      → later ≡ now + length messages * (pos_part cooldown * second)
      → fn later s ≡ (returned a, s')
      → retry left cooldown fn
          (record { store = s; clock = now; faults = map lost messages ++ fine ∷ rest })
        ≡ (returned a, record { store = s'; clock = later; faults = rest })
  unfolding retry attempt sleep
  retry_recovers messages rest zero cooldown s now later a s' h t e = elim h [ ]
  retry_recovers [] rest (suc zero) cooldown s now later a s' h t e =
      let same : now ≡ later = omega arith in ground arith
  retry_recovers [] rest (suc (suc left)) cooldown s now later a s' h t e =
      let same : now ≡ later = omega arith in ground arith
  retry_recovers (m ∷ messages) rest (suc zero) cooldown s now later a s' h t e =
      absurd (omega arith)
  retry_recovers (m ∷ messages) rest (suc (suc left)) cooldown s now later a s' h t e =
      retry_recovers messages rest (suc left) cooldown s (now + pos_part cooldown * second) later a
        s' (omega arith) (omega arith) e

  retry_gives_up :
      (m : Bytes) (messages : List Bytes) (rest : List Fault) (cooldown : ℤ) (s : S) (now later : ℕ)
      → later ≡ now + length messages * (pos_part cooldown * second)
      → retry
          (suc (length messages))
          cooldown
          fn
          (record { store = s; clock = now; faults = map lost messages ++ lost m ∷ rest })
        ≡ (threw m, record { store = s; clock = later; faults = rest })
  unfolding retry attempt sleep
  retry_gives_up m [] rest cooldown s now later t = let same : now ≡ later = omega arith in rw same
  retry_gives_up m (x ∷ messages) rest cooldown s now later t =
      retry_gives_up m messages rest cooldown s (now + pos_part cooldown * second) later
        (omega arith)

  -- Connections that are lost fewer times than there are attempts are ridden out: the operation runs
  -- exactly once, at the time after as many cooldowns, and its result is returned.
  pub execute_with_retry_recovers :
      (messages : List Bytes) (rest : List Fault) (attempts : ℕ) (cooldown : ℤ) (s : S)
      (now later : ℕ) (a : A) (s' : S)
      → length messages < attempts
      → later ≡ now + length messages * (pos_part cooldown * second)
      → fn later s ≡ (returned a, s')
      → execute_with_retry
          (pos attempts)
          cooldown
          fn
          (record { store = s; clock = now; faults = map lost messages ++ fine ∷ rest })
        ≡ (returned a, record { store = s'; clock = later; faults = rest })
  unfolding execute_with_retry
  execute_with_retry_recovers messages rest attempts = retry_recovers messages rest attempts

  -- When every attempt loses its connection, the last error is thrown, the store is as it was, and the
  -- loop has slept once fewer than it tried.
  pub execute_with_retry_gives_up :
      (m : Bytes) (messages : List Bytes) (rest : List Fault) (cooldown : ℤ) (s : S) (now later : ℕ)
      → later ≡ now + length messages * (pos_part cooldown * second)
      → execute_with_retry
          (pos (suc (length messages)))
          cooldown
          fn
          (record { store = s; clock = now; faults = map lost messages ++ lost m ∷ rest })
        ≡ (threw m, record { store = s; clock = later; faults = rest })
  unfolding execute_with_retry
  execute_with_retry_gives_up m messages rest = retry_gives_up m messages rest

  -- A connection that breaks behind the commit makes the loop run the transaction twice: the second
  -- run sees the store of the first, and its result is the one that is returned.
  pub execute_with_retry_repeats :
      (m : Bytes) (rest : List Fault) (attempts : ℕ) (cooldown : ℤ) (s : S) (now later : ℕ) (a : A)
      (s' : S)
      → 2 ≤ attempts
      → later ≡ now + pos_part cooldown * second
      → fn later (fn now s).1 ≡ (returned a, s')
      → execute_with_retry
          (pos attempts)
          cooldown
          fn
          (record { store = s; clock = now; faults = in_doubt m ∷ fine ∷ rest })
        ≡ (returned a, record { store = s'; clock = later; faults = rest })
  unfolding execute_with_retry retry attempt sleep
  execute_with_retry_repeats m rest zero cooldown s now later a s' h t e = absurd (omega arith)
  execute_with_retry_repeats m rest (suc zero) cooldown s now later a s' h t e =
      absurd (omega arith)
  execute_with_retry_repeats m rest (suc (suc n)) cooldown s now later a s' h t e =
      retry_recovers [] rest (suc n) cooldown (fn now s).1 (now + pos_part cooldown * second) later
        a s' (omega arith) (omega arith) e
