-- ===== src/Broker/Postgres/Effects/Again.antt =====
-- `MarkOfflineAgentsAndRequeue` of src/broker/pg_broker.cpp, run twice.
use mathlib.Core.Path.{subst}
use distributed_computing.Prelude.{
  ℕ, ◌≡◌, refl, sym, Bool, true, false, ◌||◌, List, [], ◌∷◌, Bytes, All, All-weaken, ℤ, length,
  keep, ◌==◌, arith, Bool-cases, inl, inr, str_eq, str_eq_self, ◌∙◌,
}
use distributed_computing.Broker.Status.{AgentStatus.offline}
use distributed_computing.Broker.Retry.{returned}
use distributed_computing.Broker.Postgres.Schema.{AgentRow, Db}
use distributed_computing.Broker.Postgres.Maintenance.{
  is_stale, mark_offline, mark_all_offline, mark_offline_agents_and_requeue,
}
use distributed_computing.Broker.Postgres.Sql.{All-update_where}

-- The identifier is one of the rows'.
listed : Bytes → List AgentRow → Bool
listed id [] = false
listed id (r ∷ rows) = str_eq id r.agent_id || listed id rows

module _ (after : ℤ) (now : ℕ) where
  -- A stale agent is among the rows.
  abbrev IsListed : List AgentRow → AgentRow → Type 0
  IsListed rows r = is_stale after now r ≡ true → listed r.agent_id rows ≡ true

  abbrev IsFresh : AgentRow → Type 0
  IsFresh r = is_stale after now r ≡ false

  IsListed-keep : (rows : List AgentRow) → All (IsListed (keep (is_stale after now) rows)) rows
  unfolding listed
  IsListed-keep [] = tt
  IsListed-keep (r ∷ rows) = elim (Bool-cases (is_stale after now r)) [
    | inl old ↦
        let front : r ∷ keep (is_stale after now) rows ≡ keep (is_stale after now) (r ∷ rows) =
          rw old refl in
        subst (λ kept. All (IsListed kept) (r ∷ rows)) front
          (
            (λ e. rw (str_eq_self r.agent_id) refl),
            All-weaken (IsListed (keep (is_stale after now) rows))
                (IsListed (r ∷ keep (is_stale after now) rows)) (λ x h e. ground (arith, h e)) rows
                (IsListed-keep rows),
          )
    | inr fresh ↦
        let front : keep (is_stale after now) rows ≡ keep (is_stale after now) (r ∷ rows) =
          rw fresh refl in
        subst (λ kept. All (IsListed kept) (r ∷ rows)) front
          ((λ e. absurd (cc (sym fresh ∙ e))), IsListed-keep rows)
  ]

  IsFresh-listed : (rows : List AgentRow) → All (IsListed []) rows → All IsFresh rows
  unfolding listed
  IsFresh-listed [] h = tt
  IsFresh-listed (r ∷ rows) h = (
    elim (Bool-cases (is_stale after now r)) [
      | inl old ↦ absurd (cc (h.0 old))
      | inr fresh ↦ fresh
    ],
    IsFresh-listed rows h.1,
  )

  mark_all_offline-IsFresh :
      (rows : List AgentRow) (db : Db)
      → All (IsListed rows) db.agents
      → All IsFresh (mark_all_offline now rows db).agents
  unfolding mark_all_offline mark_offline listed
  mark_all_offline-IsFresh [] db h = IsFresh-listed db.agents h
  mark_all_offline-IsFresh (r ∷ rows) db h =
      mark_all_offline-IsFresh rows (mark_offline now r.agent_id db) (
        All-update_where (IsListed (r ∷ rows)) (IsListed rows) (λ x. str_eq x.agent_id r.agent_id)
          (λ x. record x { status = offline }) (λ x k chosen e. absurd (cc e))
          (λ x k other e. (rw other at (k e))) db.agents h)

  none_stale : (rows : List AgentRow) → All IsFresh rows → keep (is_stale after now) rows ≡ []
  none_stale [] h = refl
  none_stale (r ∷ rows) h = rw h.0 (none_stale rows h.1)

  -- A second sweep at the same time finds no stale agent and changes nothing.
  pub mark_offline_agents_and_requeue_again :
      (db : Db)
      → mark_offline_agents_and_requeue after now (mark_offline_agents_and_requeue after now db).1
        ≡ (returned 0, (mark_offline_agents_and_requeue after now db).1)
  unfolding mark_offline_agents_and_requeue
  mark_offline_agents_and_requeue_again db =
      elim (Bool-cases (length (keep (is_stale after now) db.agents) == 0)) [
        | inl quiet ↦
            rw (quiet, mark_offline_agents_and_requeue)
              (rw (quiet, mark_offline_agents_and_requeue) refl)
        | inr busy ↦
            rw (busy, mark_offline_agents_and_requeue)
              (rw
                (
                  none_stale (mark_all_offline now (keep (is_stale after now) db.agents) db).agents
                      (mark_all_offline-IsFresh (keep (is_stale after now) db.agents) db
                        (IsListed-keep db.agents)),
                  mark_offline_agents_and_requeue,
                )
                refl)
      ]
