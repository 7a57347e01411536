-- ===== src/Broker/Retry/Bounds.antt =====
-- How often `Broker::ExecuteWithRetry` of src/broker/broker.hpp tries, and for how long it sleeps.
use distributed_computing.Prelude.{
  ◌≤◌, ℕ, zero, pos, inl, inr, suc, drop, ap, ◌-◌, ◌+◌, ◌*◌, ◌≡◌, ◌∙◌, refl, List, [], ◌∷◌, Bytes,
  ℤ, pos_part, arith,
}
use distributed_computing.Broker.Retry.{
  Outcome-cases, Fault, fine, lost, in_doubt, Outcome, threw, World, second, attempt, sleep, retry,
  execute_with_retry,
}

slept_once :
    (now before tries pause : ℕ)
    → now ≡ before
    → 1 ≤ tries
    → now + pause + (tries - 1) * pause ≡ before + (suc tries - 1) * pause
slept_once now before zero pause e h = absurd (omega arith)
slept_once now before (suc n) pause e h =
    let one_less : suc n - 1 ≡ n = omega arith in
    let same : suc (suc n) - 1 ≡ suc n = omega arith in rw (e, one_less, same) (omega arith)

-- How many attempts were made, and what they took: one fault each, and one cooldown between two; an
-- error is thrown only by the last attempt that is allowed.
abbrev pub IsRetried : {S A : Type 0} → ℕ → ℤ → World S → Outcome A × World S → Type 0
IsRetried attempts cooldown w p =
    (tries : ℕ) × (1 ≤ tries)
    × (tries ≤ attempts)
    × (p.1.clock ≡ w.clock + (tries - 1) * (pos_part cooldown * second))
    × (p.1.faults ≡ drop tries w.faults)
    × ((m : Bytes) → p.0 ≡ threw m → tries ≡ attempts)

module _ {S A : Type 0} (fn : ℕ → S → Outcome A × S) where
  attempt_takes :
      (w : World S) (faults : List Fault)
      → w.faults ≡ faults
      → ((attempt fn w).1.clock ≡ w.clock) × ((attempt fn w).1.faults ≡ drop 1 w.faults)
  unfolding attempt
  attempt_takes w [] e = rw (e, attempt) (refl, e)
  attempt_takes w (fine ∷ rest) e = rw (e, attempt) (refl, refl)
  attempt_takes w (lost m ∷ rest) e = rw (e, attempt) (refl, refl)
  attempt_takes w (in_doubt m ∷ rest) e = rw (e, attempt) (refl, refl)

  drop-drop_1 : (n : ℕ) (l : List Fault) → drop n (drop 1 l) ≡ drop (suc n) l
  drop-drop_1 zero [] = refl
  drop-drop_1 (suc n) [] = refl
  drop-drop_1 n (x ∷ l) = refl

  retry-IsRetried :
      (left : ℕ) (cooldown : ℤ) (w : World S)
      → IsRetried (suc left) cooldown w (retry (suc left) cooldown fn w)
  unfolding retry sleep
  retry-IsRetried zero cooldown w =
      let took = attempt_takes w w.faults refl in
      (1, omega arith, omega arith, took.0 ∙ omega arith, took.1, λ m h. refl)
  retry-IsRetried (suc left) cooldown w =
      let took = attempt_takes w w.faults refl in
      elim (Outcome-cases (attempt fn w).0) [
        | inl (a, e) ↦
            rw (e, retry)
              (1, omega arith, omega arith, took.0 ∙ omega arith, took.1, λ m h. absurd (cc h))
        | inr (m, e) ↦
            let w' = sleep cooldown (attempt fn w).1 in
            rw (e, retry)
              (one_more took.0 took.1 (retry (suc left) cooldown fn w')
                (retry-IsRetried left cooldown w'))
      ]
    where
      one_more :
          (attempt fn w).1.clock ≡ w.clock
          → (attempt fn w).1.faults ≡ drop 1 w.faults
          → (p : Outcome A × World S)
          → IsRetried (suc left) cooldown (sleep cooldown (attempt fn w).1) p
          → IsRetried (suc (suc left)) cooldown w p
      one_more at_clock at_faults (outcome, w') (tries, low, high, clock, faults, last) = (
        suc tries,
        omega arith,
        omega (arith, high),
        clock
            ∙ slept_once (attempt fn w).1.clock w.clock tries (pos_part cooldown * second) at_clock
                low,
        faults ∙ ap (drop tries) at_faults ∙ drop-drop_1 tries w.faults,
        λ m h. ap suc (last m h),
      )

  -- Whatever the connection does: from 1 attempt to as many as are allowed are made; each takes the
  -- next fault, and the loop sleeps for one cooldown between two attempts and at no other time; and an
  -- error is thrown only when all the attempts that are allowed were made.
  pub execute_with_retry-IsRetried :
      (attempts : ℕ) (cooldown : ℤ) (w : World S)
      → 1 ≤ attempts
      → IsRetried attempts cooldown w (execute_with_retry (pos attempts) cooldown fn w)
  unfolding execute_with_retry
  execute_with_retry-IsRetried zero cooldown w h = absurd (omega arith)
  execute_with_retry-IsRetried (suc left) cooldown w h = retry-IsRetried left cooldown w
