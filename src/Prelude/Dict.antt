-- ===== src/Prelude/Dict.antt =====
-- Association lists with text keys: the first entry of a key counts, and a write replaces it in place.
use mathlib.Core.Path.{◌≡◌, refl, sym, subst}
use mathlib.Core.Logic.{inl, inr}
use mathlib.Core.Bool.{false}
use mathlib.Core.Option.{Option, none, some}
use mathlib.Core.List.{List, [], ◌∷◌}
use distributed_computing.Prelude.Tests.{if◌then◌else◌, Bool-cases}
use distributed_computing.Prelude.Text.{Bytes, str_eq, str_eq_iff, str_eq_self}

module _ {ℓ} {A : Type ℓ} where
  unfoldable pub look : List (Bytes × A) → Bytes → Option A
  look [] key = none
  look ((name, value) ∷ rest) key = if str_eq name key then some value else look rest key

  unfoldable pub put : List (Bytes × A) → Bytes → A → List (Bytes × A)
  put [] key value = (key, value) ∷ []
  put ((name, old) ∷ rest) key value =
      let more = put rest key value in
      if str_eq name key then (name, value) ∷ rest else (name, old) ∷ more

  pub look-put :
      (d : List (Bytes × A)) (key : Bytes) (value : A) → look (put d key value) key ≡ some value
  unfolding look put
  look-put [] key value = rw (str_eq_self key) refl
  look-put ((name, old) ∷ rest) key value = elim (Bool-cases (str_eq name key)) [
    | inl same ↦ rw (same, put) (rw (same, look) refl)
    | inr other ↦ rw (other, put) (rw (other, look) (look-put rest key value))
  ]

  pub look-put_other :
      (d : List (Bytes × A)) (key other : Bytes) (value : A)
      → str_eq key other ≡ false
      → look (put d key value) other ≡ look d other
  unfolding look put
  look-put_other [] key other value h = rw h refl
  look-put_other ((name, old) ∷ rest) key other value h = elim (Bool-cases (str_eq name key)) [
    | inl same ↦
        let e : name ≡ key = (str_eq_iff name key).0 same in
        let missed : str_eq name other ≡ false = subst (λ k. str_eq k other ≡ false) (sym e) h in
        rw (same, put) (rw (missed, look) refl)
    | inr differs ↦
        rw (differs, put)
          (elim (Bool-cases (str_eq name other)) [
            | inl found ↦ rw (found, look) refl
            | inr missed ↦ rw (missed, look) (look-put_other rest key other value h)
          ])
  ]
