-- ===== src/Broker/Retry.antt =====
-- `Broker::ExecuteWithRetry` of src/broker/broker.hpp, over any store. The connection is the environment:
-- each attempt takes the next fault of a schedule. A lost attempt has no effect; an attempt that is in
-- doubt commits and then throws, as when the link breaks behind the commit.
pub mod Laws
pub mod Bounds
use distributed_computing.Prelude.{
  ℕ, zero, ◌≡◌, refl, ◌⊎◌, inl, inr, suc, ◌+◌, ◌*◌, Option, none, some, List, [], ◌∷◌, Bytes, codes,
  ℤ, pos_part,
}

pub data Fault : Type 0 where
  fine : Fault
  lost in_doubt : Bytes → Fault

pub data Outcome (A : Type 0) : Type 0 where
  returned : A → Outcome A
  threw : Bytes → Outcome A

-- The store, the time in microseconds, and what the next connections will do.
pub record World (S : Type 0) : Type 0 where
  pub store : S
  pub clock : ℕ
  pub faults : List Fault

abbrev pub second : ℕ
second = 1000000

-- `sleep_for`, where the cooldown is positive.
unfoldable pub sleep : {S : Type 0} → ℤ → World S → World S
sleep cooldown_sec w = record w { clock = w.clock + pos_part cooldown_sec * second }

Outcome-cases :
    {A : Type 0} (o : Outcome A) → ((a : A) × (o ≡ returned a)) ⊎ ((m : Bytes) × (o ≡ threw m))
Outcome-cases (returned a) = inl (a, refl)
Outcome-cases (threw m) = inr (m, refl)

module _ {S A : Type 0} where
  -- One call of `fn`, at the time at which its transaction starts.
  unfoldable pub attempt : (ℕ → S → Outcome A × S) → World S → Outcome A × World S
  attempt fn w = elim w.faults [
    | [] ↦ ((fn w.clock w.store).0, record w { store = (fn w.clock w.store).1 })
    | fine ∷ rest ↦
        ((fn w.clock w.store).0, record w { store = (fn w.clock w.store).1; faults = rest })
    | lost message ∷ rest ↦ (threw message, record w { faults = rest })
    | in_doubt message ∷ rest ↦
        (threw message, record w { store = (fn w.clock w.store).1; faults = rest })
  ]

  -- The loop, with the attempts that are left.
  unfoldable pub retry : ℕ → ℤ → (ℕ → S → Outcome A × S) → World S → Outcome A × World S
  retry zero cooldown_sec fn w = (threw (codes "Retry loop exhausted unexpectedly"), w)
  retry (suc zero) cooldown_sec fn w = attempt fn w
  retry (suc (suc left)) cooldown_sec fn w =
      let (outcome, w') = attempt fn w in
      elim outcome [
        | returned a ↦ (returned a, w')
        | threw message ↦ retry (suc left) cooldown_sec fn (sleep cooldown_sec w')
      ]

  unfoldable pub execute_with_retry :
      ℤ → ℤ → (ℕ → S → Outcome A × S) → World S → Outcome A × World S
  execute_with_retry reconnect_attempts reconnect_cooldown_sec fn w =
      retry (pos_part reconnect_attempts) reconnect_cooldown_sec fn w
