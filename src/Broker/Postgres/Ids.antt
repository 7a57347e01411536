-- ===== src/Broker/Postgres/Ids.antt =====
-- Task identifiers: ascending in the order of creation, and below the sequence.
use distributed_computing.Prelude.{
  ℕ, suc, ◌+◌, ◌≤◌, ◌≡◌, refl, Bool, none, some, List, [], ◌∷◌, ◌++◌, All, arith,
}
use distributed_computing.Broker.Postgres.Schema.{TaskRow, update_where, find_task}

abbrev pub Ids : ℕ → ℕ → List TaskRow → Type 0
Ids low next [] = low ≤ next
Ids low next (t ∷ rows) = (low ≤ t.task_id) × Ids (suc t.task_id) next rows

pub Ids-update_where :
    (p : TaskRow → Bool) (f : TaskRow → TaskRow) (keeps : (t : TaskRow) → (f t).task_id ≡ t.task_id)
    (low next : ℕ) (rows : List TaskRow)
    → Ids low next rows
    → Ids low next (update_where p f rows)
Ids-update_where p f keeps low next [] h = h
Ids-update_where p f keeps low next (t ∷ rows) h =
    ground (arith, keeps t, Ids-update_where p f keeps (suc t.task_id) next rows h.1)

pub Ids-append :
    (low next : ℕ) (rows : List TaskRow) (t : TaskRow)
    → Ids low next rows
    → t.task_id ≡ next
    → Ids low (next + 1) (rows ++ t ∷ [])
Ids-append low next [] t h e = omega arith
Ids-append low next (r ∷ rows) t h e = (h.0, Ids-append (suc r.task_id) next rows t h.1 e)

-- The rows from some point on have larger identifiers.
Ids-above :
    (low next : ℕ) (rows : List TaskRow) → Ids low next rows → All (λ t. low ≤ t.task_id) rows
Ids-above low next [] h = tt
Ids-above low next (t ∷ rows) h = (h.0, weaken rows (Ids-above (suc t.task_id) next rows h.1))
  where
    weaken :
        (rows : List TaskRow)
        → All (λ u. suc t.task_id ≤ u.task_id) rows
        → All (λ u. low ≤ u.task_id) rows
    weaken [] k = tt
    weaken (u ∷ us) k = (omega arith, weaken us k.1)

abbrev IsFound : List TaskRow → TaskRow → Type 0
IsFound rows t = find_task t.task_id rows ≡ some t

IsFound-behind :
    (r : TaskRow) (rows some_rows : List TaskRow)
    → All (λ t. suc r.task_id ≤ t.task_id) some_rows
    → All (IsFound rows) some_rows
    → All (IsFound (r ∷ rows)) some_rows
unfolding find_task
IsFound-behind r rows [] above h = tt
IsFound-behind r rows (t ∷ ts) above h =
    (ground (arith, above.0, h.0), IsFound-behind r rows ts above.1 h.1)

-- A lookup by its identifier finds every row of the table.
pub Ids-found :
    (low next : ℕ) (rows : List TaskRow)
    → Ids low next rows
    → All (λ t. find_task t.task_id rows ≡ some t) rows
unfolding find_task
Ids-found low next [] h = tt
Ids-found low next (r ∷ rows) h = (
  ground arith,
  IsFound-behind r rows rows (Ids-above (suc r.task_id) next rows h.1)
      (Ids-found (suc r.task_id) next rows h.1),
)

-- The sequence's next number is new.
pub Ids-unused :
    (low next : ℕ) (rows : List TaskRow)
    → Ids low next rows
    → (id : ℕ) → next ≤ id
    → find_task id rows ≡ none
unfolding find_task
Ids-unused low next [] h id k = refl
Ids-unused low next (r ∷ rows) h id k =
    ground
      (arith, Ids-unused (suc r.task_id) next rows h.1 id k, Ids-low (suc r.task_id) next rows h.1)
  where
    Ids-low : (low next : ℕ) (rows : List TaskRow) → Ids low next rows → low ≤ next
    Ids-low low next [] h = h
    Ids-low low next (t ∷ ts) h = omega (arith, Ids-low (suc t.task_id) next ts h.1)
