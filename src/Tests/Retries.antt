-- ===== src/Tests/Retries.antt =====
-- The retry loop on a counter that each transaction raises and returns.
use distributed_computing.Prelude.{ℕ, ◌+◌, ◌≡◌, refl, [], ◌∷◌, ◌++◌, map, codes, pos, arith, Bytes}
use distributed_computing.Broker.Retry.{
  fine, lost, in_doubt, Outcome, returned, threw, World, execute_with_retry,
}
use distributed_computing.Broker.Retry.Bounds.{IsRetried, execute_with_retry-IsRetried}
use distributed_computing.Broker.Retry.Laws.{
  execute_with_retry_recovers, execute_with_retry_gives_up, execute_with_retry_repeats,
}

abbrev raise : ℕ → ℕ → Outcome ℕ × ℕ
raise now n = (returned n, n + 1)

abbrev link_down : Bytes
link_down = codes "server closed the connection"

abbrev flaky : World ℕ
flaky = record { store = 7; clock = 0; faults = in_doubt link_down ∷ lost link_down ∷ [] }

execute_with_retry-IsRetried_example :
    IsRetried 3 (pos 1) flaky (execute_with_retry (pos 3) (pos 1) raise flaky)
execute_with_retry-IsRetried_example =
    execute_with_retry-IsRetried raise 3 (pos 1) flaky (omega arith)

execute_with_retry_recovers_example :
    execute_with_retry
      (pos 3)
      (pos 2)
      raise
      (record { store = 7; clock = 0; faults = map lost (link_down ∷ link_down ∷ []) ++ fine ∷ [] })
    ≡ (returned 7, record { store = 8; clock = 4000000; faults = [] })
execute_with_retry_recovers_example =
    execute_with_retry_recovers raise (link_down ∷ link_down ∷ []) [] 3 (pos 2) 7 0 4000000 7 8
      (omega arith) refl refl

execute_with_retry_gives_up_example :
    execute_with_retry (pos 2) (pos 2) raise (record {
      store = 7;
      clock = 0;
      faults = map lost (link_down ∷ []) ++ lost (codes "refused") ∷ [];
    })
    ≡ (threw (codes "refused"), record { store = 7; clock = 2000000; faults = [] })
execute_with_retry_gives_up_example =
    execute_with_retry_gives_up raise (codes "refused") (link_down ∷ []) [] (pos 2) 7 0 2000000 refl

execute_with_retry_repeats_example :
    execute_with_retry
      (pos 3)
      (pos 2)
      raise
      (record { store = 7; clock = 0; faults = in_doubt link_down ∷ fine ∷ [] })
    ≡ (returned 8, record { store = 9; clock = 2000000; faults = [] })
execute_with_retry_repeats_example =
    execute_with_retry_repeats raise link_down [] 3 (pos 2) 7 0 2000000 8 9 (omega arith) refl refl
