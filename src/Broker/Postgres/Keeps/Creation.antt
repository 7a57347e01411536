-- ===== src/Broker/Postgres/Keeps/Creation.antt =====
-- `CreateTask` of src/broker/pg_broker.cpp and the invariant of the tables.
use distributed_computing.Prelude.{
  ℕ, ◌≡◌, refl, Option, none, some, [], ◌∷◌, ◌++◌, Bytes, All-append, All-weaken, codes,
  if◌then◌else◌, ◌+◌,
}
use distributed_computing.Json.{JsonLib}
use distributed_computing.Broker.Types.{TaskInput}
use distributed_computing.Broker.Constraints.{normalize_constraints}
use distributed_computing.Broker.Postgres.Schema.{Db, PgLib}
use distributed_computing.Broker.Postgres.Tasks.{create_task, new_task}
use distributed_computing.Broker.Postgres.History.{Follows, Follows-refl, Follows-append}
use distributed_computing.Broker.Postgres.Ids.{Ids-append}
use distributed_computing.Broker.Postgres.Invariant.{Inv, IsFree, IsBacked, IsBacked-append}

module _ (j : JsonLib) (pg : PgLib) (task : TaskInput j) (now : ℕ) where
  abbrev added : Bytes → Bytes → Bytes → Db → Db
  added args env constraints db = record db {
    tasks = db.tasks ++ new_task j pg task args env constraints db.next_task_id now ∷ [];
    next_task_id = db.next_task_id + 1;
  }

  -- The tables stay, or get one row more.
  create_cases {ℓ} :
      (P : Db → Type ℓ) (db : Db)
      → P db
      → ((args env constraints : Bytes) → P (added args env constraints db))
      → P (create_task j pg task now db).1
  unfolding create_task
  create_cases P db same changed =
      by_casts (pg.jsonb (if j.is_null task.args then codes "[]" else j.dump task.args)) refl
        (pg.jsonb (if j.is_null task.env then codes "{}" else j.dump task.env)) refl
        (pg.jsonb (j.dump (normalize_constraints j task.constraints))) refl
    where
      by_casts :
          (a : Option Bytes)
          → pg.jsonb (if j.is_null task.args then codes "[]" else j.dump task.args) ≡ a
          → (b : Option Bytes)
          → pg.jsonb (if j.is_null task.env then codes "{}" else j.dump task.env) ≡ b
          → (c : Option Bytes) → pg.jsonb (j.dump (normalize_constraints j task.constraints)) ≡ c
          → P (create_task j pg task now db).1
      by_casts none e b f c g = rw (e, create_task) same
      by_casts (some args) e none f c g = rw (e, f, create_task) same
      by_casts (some args) e (some env) f none g = rw (e, f, g, create_task) same
      by_casts (some args) e (some env) f (some constraints) g =
          rw (e, f, g, create_task) (changed args env constraints)

  pub create_task-Inv : (db : Db) → Inv db → Inv (create_task j pg task now db).1
  create_task-Inv db v = create_cases Inv db v λ args env constraints.
      let row = new_task j pg task args env constraints db.next_task_id now in
      record {
        ids = Ids-append 1 db.next_task_id db.tasks row v.ids refl;
        free = All-append IsFree db.tasks (row ∷ []) v.free ((λ e. refl), tt);
        backed =
            All-weaken (IsBacked db.tasks) (IsBacked (db.tasks ++ row ∷ []))
              (IsBacked-append db.tasks (row ∷ [])) db.assignments v.backed;
      }

  pub create_task-Follows : (db : Db) → Follows db.tasks (create_task j pg task now db).1.tasks
  create_task-Follows db =
      create_cases (λ d. Follows db.tasks d.tasks) db (Follows-refl db.tasks)
        λ args env constraints.
          Follows-append db.tasks (new_task j pg task args env constraints db.next_task_id now ∷ [])
