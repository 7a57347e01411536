-- ===== src/Broker/Constraints/Kept.antt =====
-- What `NormalizeConstraints` of src/broker/pg_broker.cpp keeps of an object.
use distributed_computing.Prelude.{
  ◌≡◌, refl, ◌∙◌, Bool, true, false, Option, none, some, List, [], ◌∷◌, Bytes, codes, str_eq,
  if◌then◌else◌, Bool-cases, Option-cases, inl, inr,
}
use distributed_computing.Json.{JsonLib, IsJsonValues}
use distributed_computing.Json.Fields.{or_none, layers, field-layers_new, is_object-layers}
use distributed_computing.Broker.Constraints.{normalize_constraints, copy_field}

abbrev pub sieve {ℓ} : {A : Type ℓ} → (A → Bool) → Option A → Option A
sieve test none = none
sieve test (some v) = if test v then some v else none

sieve-sieve {ℓ} :
    {A : Type ℓ} (test : A → Bool) (o : Option A) → sieve test (sieve test o) ≡ sieve test o
sieve-sieve test none = refl
sieve-sieve test (some v) = elim (Bool-cases (test v)) [
  | inl kept ↦ rw kept (rw kept refl)
  | inr dropped ↦ rw dropped refl
]

module _ (j : JsonLib) where
  open j use {Json, field, is_object, is_array, is_string, is_number_integer, empty_object}

  -- A field of an object, if its value passes the test.
  abbrev pub picked : (Json → Bool) → Json → Bytes → Option Json
  picked test input key = if is_object input then sieve test (field input key) else none

  -- The four constraints that the brokers know, each with its type, and no other field.
  abbrev pub IsNormalized : Json → Json → Type 0
  IsNormalized input c =
      (is_object c ≡ true)
      × (field c (codes "os") ≡ picked is_string input (codes "os"))
      × (field c (codes "cpu_cores") ≡ picked is_number_integer input (codes "cpu_cores"))
      × (field c (codes "ram_mb") ≡ picked is_number_integer input (codes "ram_mb"))
      × (field c (codes "labels") ≡ picked is_array input (codes "labels"))
      × ((key : Bytes)
          → str_eq (codes "os") key ≡ false
          → str_eq (codes "cpu_cores") key ≡ false
          → str_eq (codes "ram_mb") key ≡ false
          → str_eq (codes "labels") key ≡ false
          → field c key ≡ none)

  copy_field-layers :
      (input : Json) (key : Bytes) (test : Json → Bool) (v : Json)
      → copy_field j input key test v ≡ layers j ((key, sieve test (field input key)) ∷ []) v
  unfolding copy_field
  copy_field-layers input key test v = elim (Option-cases (field input key)) [
    | inl absent ↦ rw (absent, copy_field) refl
    | inr (x, e) ↦ elim (Bool-cases (test x)) [
      | inl kept ↦ rw (e, copy_field, kept) refl
      | inr dropped ↦ rw (e, copy_field, dropped) refl
    ]
  ]

  -- The assignments, in their order.
  abbrev assigned : Json → List (Bytes × Option Json)
  assigned input =
      (codes "os", sieve is_string (field input (codes "os")))
      ∷ (codes "cpu_cores", sieve is_number_integer (field input (codes "cpu_cores")))
      ∷ (codes "ram_mb", sieve is_number_integer (field input (codes "ram_mb")))
      ∷ (codes "labels", sieve is_array (field input (codes "labels")))
      ∷ []

  normalize_constraints-layers :
      (input : Json)
      → is_object input ≡ true
      → normalize_constraints j input ≡ layers j (assigned input) empty_object
  unfolding normalize_constraints
  normalize_constraints-layers input h =
      rw (h, normalize_constraints)
        (rw
          (
            copy_field-layers input (codes "os") is_string empty_object,
            copy_field-layers input (codes "cpu_cores") is_number_integer,
            copy_field-layers input (codes "ram_mb") is_number_integer,
            copy_field-layers input (codes "labels") is_array,
          )
          refl)

  module _ (values : IsJsonValues j) where
    pub normalize_constraints-IsNormalized :
        (input : Json) → IsNormalized input (normalize_constraints j input)
    unfolding normalize_constraints str_eq
    normalize_constraints-IsNormalized input = elim (Bool-cases (is_object input)) [
      | inr other ↦
          rw (other, normalize_constraints)
            (
              values.is_object-empty_object,
              values.field-empty_object (codes "os"),
              values.field-empty_object (codes "cpu_cores"),
              values.field-empty_object (codes "ram_mb"),
              values.field-empty_object (codes "labels"),
              (λ key a b c d. values.field-empty_object key),
            )
      | inl given ↦
          rw (normalize_constraints-layers input given, given)
            (
              is_object-layers j values (assigned input) empty_object values.is_object-empty_object,
              field-layers_new j values (assigned input) (codes "os") ∙ or_none _,
              field-layers_new j values (assigned input) (codes "cpu_cores") ∙ or_none _,
              field-layers_new j values (assigned input) (codes "ram_mb") ∙ or_none _,
              field-layers_new j values (assigned input) (codes "labels") ∙ or_none _,
              (λ key a b c d.
                  field-layers_new j values (assigned input) key ∙ (rw (a, b, c, d) refl)),
            )
    ]

    IsNormalized-IsNormalized :
        (input c c' : Json) → IsNormalized input c → IsNormalized c c' → IsNormalized input c'
    IsNormalized-IsNormalized input c c' (o, e1, e2, e3, e4, e5) (o', f1, f2, f3, f4, f5) = (
      o',
      (rw (o, e1) at f1) ∙ again is_string (codes "os"),
      (rw (o, e2) at f2) ∙ again is_number_integer (codes "cpu_cores"),
      (rw (o, e3) at f3) ∙ again is_number_integer (codes "ram_mb"),
      (rw (o, e4) at f4) ∙ again is_array (codes "labels"),
      f5,
    )
      where
        again :
            (test : Json → Bool) (key : Bytes)
            → sieve test (picked test input key) ≡ picked test input key
        again test key = elim (Bool-cases (is_object input)) [
          | inl given ↦ rw given (sieve-sieve test (field input key))
          | inr other ↦ rw other refl
        ]

    -- The brokers normalise once when they write and once when they read.
    pub IsNormalized-twice :
        (input : Json)
        → IsNormalized input (normalize_constraints j (normalize_constraints j input))
    IsNormalized-twice input =
        IsNormalized-IsNormalized input (normalize_constraints j input) _
          (normalize_constraints-IsNormalized input)
          (normalize_constraints-IsNormalized (normalize_constraints j input))
