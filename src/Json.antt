-- ===== src/Json.antt =====
-- The calls that the program makes of its JSON library (third_party/nlohmann, not modelled). A value
-- of `JsonLib` is that library; the laws are the documented behaviour that the proofs use.
pub mod Fields
use distributed_computing.Prelude.{
  ℕ, ◌≤◌, ◌≡◌, Bool, true, false, Option, none, some, List, [], Bytes, codes, ℤ, pos, str_eq,
}
use distributed_computing.Common.Numbers.{IsInt, int64_max}

pub record JsonLib : Type 1 where
  pub Json : Type 0
  -- `json::parse`; `none` where it throws.
  pub parse : Bytes → Option Json
  -- What the exception of a failed parse says.
  pub parse_error : Bytes → Bytes
  pub dump : Json → Bytes
  -- `dump(2)`.
  pub dump_indented : Json → Bytes
  -- `contains(key)` with `operator[]`: `none` where the key is missing or the value is no object.
  pub field : Json → Bytes → Option Json
  -- `payload[key] = value` on an object.
  pub set_field : Json → Bytes → Json → Json
  pub items : Json → List Json
  -- The members of an object, in the order of its iterators.
  pub entries : Json → List (Bytes × Json)
  pub is_null : Json → Bool
  pub is_object : Json → Bool
  pub is_array : Json → Bool
  pub is_string : Json → Bool
  pub is_number_integer : Json → Bool
  -- `get<std::string>()` and `get<int>()` on a value of that type.
  pub get_string : Json → Bytes
  pub get_int : Json → ℤ
  -- `get<std::int64_t>()`.
  pub get_int64 : Json → ℤ
  -- What the exception of `get<std::string>()` on a value of another type says.
  pub type_error : Json → Bytes
  pub empty_object : Json
  pub array : List Json → Json
  pub string : Bytes → Json
  pub number : ℤ → Json
  pub boolean : Bool → Json

-- What the library documents of these calls.
pub record IsJsonLib (j : JsonLib) : Type 0 where
  pub parse-dump : (v : j.Json) → j.parse (j.dump v) ≡ some v
  pub parse-empty : j.parse [] ≡ none
  pub parse-array : j.parse (codes "[]") ≡ some (j.array [])
  pub parse-object : j.parse (codes "{}") ≡ some j.empty_object

-- What it documents of the values that the program builds and reads.
pub record IsJsonValues (j : JsonLib) : Type 0 where
  pub field-empty_object : (k : Bytes) → j.field j.empty_object k ≡ none
  pub field-set_field :
      (v x : j.Json) (k : Bytes) → j.is_object v ≡ true → j.field (j.set_field v k x) k ≡ some x
  pub field-set_field_other :
      (v x : j.Json) (k l : Bytes)
      → j.is_object v ≡ true
      → str_eq k l ≡ false
      → j.field (j.set_field v k x) l ≡ j.field v l
  pub is_object-empty_object : j.is_object j.empty_object ≡ true
  pub is_object-set_field :
      (v x : j.Json) (k : Bytes) → j.is_object v ≡ true → j.is_object (j.set_field v k x) ≡ true
  pub is_array-array : (l : List j.Json) → j.is_array (j.array l) ≡ true
  pub items-array : (l : List j.Json) → j.items (j.array l) ≡ l
  pub is_string-string : (s : Bytes) → j.is_string (j.string s) ≡ true
  pub get_string-string : (s : Bytes) → j.get_string (j.string s) ≡ s
  pub is_number_integer-number : (n : ℤ) → j.is_number_integer (j.number n) ≡ true
  pub get_int-number : (n : ℤ) → IsInt n → j.get_int (j.number n) ≡ n
  pub get_int64-number : (n : ℕ) → n ≤ int64_max → j.get_int64 (j.number (pos n)) ≡ pos n
