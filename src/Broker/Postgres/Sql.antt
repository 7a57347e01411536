-- ===== src/Broker/Postgres/Sql.antt =====
-- What the SQL helpers of Schema do to a predicate on rows, and to the order of rows.
use mathlib.Core.List.{Perm}
use mathlib.Core.List.Perm
use mathlib.Core.Option.{some-injective}
use mathlib.Core.Path.{subst}
use distributed_computing.Prelude.{
  leb→le, ℕ, zero, suc, ◌≤◌, ◌≡◌, refl, Bool, true, false, Option, none, some, List, [], ◌∷◌, All,
  take, drop, leb, arith, Bool-cases, inl, inr,
}
use distributed_computing.Broker.Postgres.Schema.{
  update_where, insert_by, order_by, select_step, select_where,
}

module _ {ℓ κ ι} {A : Type ℓ} (P : A → Type κ) (Q : A → Type ι) where
  pub All-update_where :
      (p : A → Bool) (f : A → A)
      → ((r : A) → P r → p r ≡ true → Q (f r))
      → ((r : A) → P r → p r ≡ false → Q r)
      → (rows : List A) → All P rows
      → All Q (update_where p f rows)
  All-update_where p f hit miss [] h = tt
  All-update_where p f hit miss (r ∷ rows) h = elim (Bool-cases (p r)) [
    | inl chosen ↦ rw chosen (hit r h.0 chosen, All-update_where p f hit miss rows h.1)
    | inr other ↦ rw other (miss r h.0 other, All-update_where p f hit miss rows h.1)
  ]

  -- A row that is selected satisfied the condition.
  pub All-select_where :
      (p : A → Option Bool)
      → ((r : A) → P r → p r ≡ some true → Q r)
      → (rows found : List A) → All P rows
      → select_where p rows ≡ some found
      → All Q found
  All-select_where p step [] [] h e = tt
  All-select_where p step [] (x ∷ found) h e = elim (distinct e) [ ]
    where
      distinct : some [] ≡ some (x ∷ found) → ⊥
      distinct e = cc
  All-select_where p step (r ∷ rows) found all e =
      behind (p r) (select_where p rows) found refl (λ f. All-select_where p step rows f all.1) e
    where
      behind :
          (b : Option Bool) (rest : Option (List A)) (found : List A)
          → p r ≡ b
          → ((f : List A) → rest ≡ some f → All Q f)
          → select_step r b rest ≡ some found
          → All Q found
      behind none rest found e h k = cc
      behind (some false) rest found e h k = h found k
      behind (some true) none found e h k = cc
      behind (some true) (some f) found e h k =
          subst (All Q) (some-injective (r ∷ f) found k) (step r all.0 e, h f refl)

module _ {ℓ κ} {A : Type ℓ} (P : A → Type κ) (le : A → A → Bool) where
  All-insert_by : (r : A) (rows : List A) → P r → All P rows → All P (insert_by le r rows)
  All-insert_by r [] h k = (h, tt)
  All-insert_by r (x ∷ rows) h k = elim (Bool-cases (le r x)) [
    | inl first ↦ rw first (h, k)
    | inr later ↦ rw later (k.0, All-insert_by r rows h k.1)
  ]

  pub All-order_by : (rows : List A) → All P rows → All P (order_by le rows)
  All-order_by [] h = tt
  All-order_by (r ∷ rows) h = All-insert_by r (order_by le rows) h.0 (All-order_by rows h.1)

module _ {ℓ} {A : Type ℓ} (le : A → A → Bool) where
  insert_by-perm : (r : A) (rows : List A) → Perm (insert_by le r rows) (r ∷ rows)
  insert_by-perm r [] = Perm.refl (r ∷ [])
  insert_by-perm r (x ∷ rows) = elim (Bool-cases (le r x)) [
    | inl first ↦ rw first (Perm.refl (r ∷ x ∷ rows))
    | inr later ↦ rw later (Perm.trans (Perm.cons x (insert_by-perm r rows)) (Perm.swap r x rows))
  ]

  pub order_by-perm : (rows : List A) → Perm (order_by le rows) rows
  order_by-perm [] = Perm.refl []
  order_by-perm (r ∷ rows) =
      Perm.trans (insert_by-perm r (order_by le rows)) (Perm.cons r (order_by-perm rows))

module _ {ℓ} {A : Type ℓ} (key : A → ℕ) where
  abbrev pub by_key : A → A → Bool
  by_key a b = leb (key a) (key b)

  -- Each row's key is at most those of the rows behind it.
  abbrev pub Ordered : List A → Type 0
  Ordered [] = Unit
  Ordered (r ∷ rows) = All (λ x. key r ≤ key x) rows × Ordered rows

  below : (k l : ℕ) (rows : List A) → k ≤ l → All (λ x. l ≤ key x) rows → All (λ x. k ≤ key x) rows
  below k l [] h all = tt
  below k l (x ∷ rows) h all = (omega arith, below k l rows h all.1)

  Ordered-insert_by : (r : A) (rows : List A) → Ordered rows → Ordered (insert_by by_key r rows)
  Ordered-insert_by r [] h = (tt, tt)
  Ordered-insert_by r (x ∷ rows) h = elim (Bool-cases (by_key r x)) [
    | inl first ↦
        rw first ((leb→le _ _ first, below (key r) (key x) rows (leb→le _ _ first) h.0), h)
    | inr later ↦ rw later (
      All-insert_by (λ y. key x ≤ key y) by_key r rows (ground arith) h.0,
      Ordered-insert_by r rows h.1,
    )
  ]

  pub Ordered-order_by : (rows : List A) → Ordered (order_by by_key rows)
  Ordered-order_by [] = tt
  Ordered-order_by (r ∷ rows) = Ordered-insert_by r (order_by by_key rows) (Ordered-order_by rows)

  All-drop :
      (k n : ℕ) (rows : List A) → All (λ x. k ≤ key x) rows → All (λ x. k ≤ key x) (drop n rows)
  All-drop k zero rows h = h
  All-drop k (suc n) [] h = tt
  All-drop k (suc n) (x ∷ rows) h = All-drop k n rows h.1

  -- What is taken from the front comes before all that is left.
  pub take_before_drop :
      (n : ℕ) (rows : List A)
      → Ordered rows
      → All (λ c. All (λ t. key c ≤ key t) (drop n rows)) (take n rows)
  take_before_drop zero rows h = tt
  take_before_drop (suc n) [] h = tt
  take_before_drop (suc n) (r ∷ rows) h = (All-drop (key r) n rows h.0, take_before_drop n rows h.1)
