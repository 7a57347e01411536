-- ===== src/Json/Fields.antt =====
-- Objects built field by field, as src/master/api_mappers.cpp and src/worker/agent_client.cpp build
-- them with the JSON library.
use mathlib.Core.Path.{subst}
use distributed_computing.Prelude.{
  true, Option, none, some, List, [], ◌∷◌, ◌≡◌, refl, inl, inr, ◌∙◌, Bytes, str_eq, str_eq_iff,
  if◌then◌else◌, Bool-cases, ap,
}
use distributed_computing.Json.{JsonLib, IsJsonValues}
use distributed_computing.Master.Mappers.Print.{if_some}

abbrev pub or_else {ℓ} : {A : Type ℓ} → Option A → Option A → Option A
or_else none b = b
or_else (some a) b = some a

pub or_none {ℓ} : {A : Type ℓ} (o : Option A) → or_else o none ≡ o
or_none none = refl
or_none (some a) = refl

abbrev pub mapped {ℓ κ} : {A : Type ℓ} {B : Type κ} → (A → B) → Option A → Option B
mapped f none = none
mapped f (some a) = some (f a)

module _ (j : JsonLib) where
  open j use {Json, field, set_field, is_object, empty_object}

  abbrev pub layer : Bytes → Option Json → Json → Json
  layer key none v = v
  layer key (some x) v = set_field v key x

  -- Assignments in order, those without a value left out.
  abbrev pub layers : List (Bytes × Option Json) → Json → Json
  layers [] v = v
  layers ((key, value) ∷ rest) v = layers rest (layer key value v)

  abbrev pub last_of : List (Bytes × Option Json) → Bytes → Option Json → Option Json
  last_of [] l found = found
  last_of ((key, value) ∷ rest) l found =
      last_of rest l (if str_eq key l then or_else value found else found)

  pub if_some-layer {ℓ} :
      {A : Type ℓ} (to_json : A → Json) (key : Bytes) (o : Option A) (v : Json)
      → if_some j to_json key o v ≡ layer key (mapped to_json o) v
  if_some-layer to_json key none v = refl
  if_some-layer to_json key (some a) v = refl

  module _ (laws : IsJsonValues j) where
    is_object-layer :
        (key : Bytes) (o : Option Json) (v : Json)
        → is_object v ≡ true
        → is_object (layer key o v) ≡ true
    is_object-layer key none v h = h
    is_object-layer key (some x) v h = laws.is_object-set_field v x key h

    field-layer :
        (key l : Bytes) (o : Option Json) (v : Json)
        → is_object v ≡ true
        → field (layer key o v) l ≡ (if str_eq key l then or_else o (field v l) else field v l)
    field-layer key l none v h = elim (Bool-cases (str_eq key l)) [
      | inl same ↦ rw same refl
      | inr other ↦ rw other refl
    ]
    field-layer key l (some x) v h = elim (Bool-cases (str_eq key l)) [
      | inl same ↦ rw same (
          subst (λ k. field (set_field v key x) k ≡ some x) ((str_eq_iff key l).0 same)
            (laws.field-set_field v x key h))
      | inr other ↦ rw other (laws.field-set_field_other v x key l h other)
    ]

    -- A field of an object built in order holds what was assigned last.
    pub field-layers :
        (ls : List (Bytes × Option Json)) (l : Bytes) (v : Json)
        → is_object v ≡ true
        → field (layers ls v) l ≡ last_of ls l (field v l)
    field-layers [] l v h = refl
    field-layers ((key, value) ∷ rest) l v h =
        field-layers rest l (layer key value v) (is_object-layer key value v h)
        ∙ ap (last_of rest l) (field-layer key l value v h)

    pub field-layers_new :
        (ls : List (Bytes × Option Json)) (l : Bytes)
        → field (layers ls empty_object) l ≡ last_of ls l none
    field-layers_new ls l =
        field-layers ls l empty_object laws.is_object-empty_object
        ∙ ap (last_of ls l) (laws.field-empty_object l)

    pub is_object-layers :
        (ls : List (Bytes × Option Json)) (v : Json)
        → is_object v ≡ true
        → is_object (layers ls v) ≡ true
    is_object-layers [] v h = h
    is_object-layers ((key, value) ∷ rest) v h =
        is_object-layers rest (layer key value v) (is_object-layer key value v h)
