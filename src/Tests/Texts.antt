-- ===== src/Tests/Texts.antt =====
-- A JSON library whose values are their own text: each is a mark and what follows it. An object or an
-- array holds the number of its entries, past the one with which it starts, and the entries, each with
-- the lengths of its parts.
use distributed_computing.Prelude.{
  ◌≡◌, refl, ap, ◌∙◌, ℕ, zero, suc, true, false, ◌||◌, Option, none, some, List, [], ◌∷◌, ◌++◌,
  Bytes, codes, ℤ, pos, negsuc, length, take, drop, ◌==◌, str_eq, str_eq_self, if◌then◌else◌,
}
use distributed_computing.Json.{JsonLib, IsJsonLib, IsJsonValues}

abbrev Text : Type 0
Text = ℕ × Bytes

take-append : (s rest : Bytes) → take (length s) (s ++ rest) ≡ s
take-append [] rest = refl
take-append (c ∷ s) rest = ap (λ t. c ∷ t) (take-append s rest)

drop-append : (s rest : Bytes) → drop (length s) (s ++ rest) ≡ rest
drop-append [] rest = refl
drop-append (c ∷ s) rest = drop-append s rest

-- A value, and a key with its value, in front of other entries.
abbrev put_value : Text → Bytes → Bytes
put_value (c, s) rest = length s ∷ c ∷ s ++ rest

abbrev put_entry : Bytes → Text → Bytes → Bytes
put_entry k x rest = length k ∷ k ++ put_value x rest

abbrev looked_up : (Bytes → Option Text) → Bytes → Bytes → Bytes → Option Text
looked_up more k key [] = none
looked_up more k key (m ∷ []) = none
looked_up more k key (m ∷ c ∷ rest) =
    if str_eq key k then some (c, take m rest) else more (drop m rest)

abbrev look_up : ℕ → Bytes → Bytes → Option Text
look_up zero k body = none
look_up (suc n) k [] = none
look_up (suc n) k (m ∷ rest) = looked_up (look_up n k) k (take m rest) (drop m rest)

abbrev field_in : Text → Bytes → Option Text
field_in (c, []) k = none
field_in (c, n ∷ body) k = look_up n k body

abbrev with_field : Text → Bytes → Text → Text
with_field (c, []) k x = (c, 1 ∷ put_entry k x [])
with_field (c, n ∷ body) k x = (c, suc n ∷ put_entry k x body)

abbrev read_items : ℕ → Bytes → List Text
read_items zero body = []
read_items (suc n) [] = []
read_items (suc n) (m ∷ []) = []
read_items (suc n) (m ∷ c ∷ rest) = (c, take m rest) ∷ read_items n (drop m rest)

abbrev items_in : Text → List Text
items_in (c, []) = []
items_in (c, n ∷ body) = read_items n body

abbrev count_of : List Text → ℕ
count_of [] = b']'
count_of (x ∷ l) = suc (count_of l)

abbrev all_values : List Text → Bytes
all_values [] = []
all_values (x ∷ l) = put_value x (all_values l)

abbrev number_text : ℤ → Text
number_text (pos n) = (b'0', n ∷ [])
number_text (negsuc n) = (b'-', n ∷ [])

abbrev number_in : Text → ℤ
number_in (c, []) = pos 0
number_in (c, n ∷ rest) = if c == b'-' then negsuc n else pos n

abbrev pub texts : JsonLib
texts = record {
  Json = Text;
  parse = λ s. elim s [ [] ↦ none | c ∷ rest ↦ some (c, rest) ];
  parse_error = λ s. codes "parse error";
  dump = λ v. v.0 ∷ v.1;
  dump_indented = λ v. v.0 ∷ v.1;
  field = field_in;
  set_field = with_field;
  items = items_in;
  entries = λ v. [];
  is_null = λ v. str_eq (v.0 ∷ v.1) (codes "null");
  is_object = λ v. v.0 == b'{';
  is_array = λ v. v.0 == b'[';
  is_string = λ v. v.0 == b'"';
  is_number_integer = λ v. (v.0 == b'0') || (v.0 == b'-');
  get_string = λ v. v.1;
  get_int = number_in;
  get_int64 = number_in;
  type_error = λ v. codes "type must be string";
  empty_object = (b'{', b'}' ∷ []);
  array = λ l. (b'[', count_of l ∷ all_values l);
  string = λ s. (b'"', s);
  number = number_text;
  boolean = λ b. (b't', []);
}

pub texts-IsJsonLib : IsJsonLib texts
texts-IsJsonLib = record {
  parse-dump = λ v. refl;
  parse-empty = refl;
  parse-array = refl;
  parse-object = refl;
}

look_up-put_entry :
    (n : ℕ) (k : Bytes) (x : Text) (body : Bytes) → look_up (suc n) k (put_entry k x body) ≡ some x
look_up-put_entry n k (c, s) body =
    rw (take-append k (put_value (c, s) body), drop-append k (put_value (c, s) body))
      (rw (str_eq_self k, take-append s body) refl)

look_up-other :
    (n : ℕ) (k l : Bytes) (x : Text) (body : Bytes)
    → str_eq k l ≡ false
    → look_up (suc n) l (put_entry k x body) ≡ look_up n l body
look_up-other n k l (c, s) body other =
    rw (take-append k (put_value (c, s) body), drop-append k (put_value (c, s) body))
      (rw (other, drop-append s body) refl)

field-with_field : (v x : Text) (k : Bytes) → field_in (with_field v k x) k ≡ some x
field-with_field (c, []) x k = look_up-put_entry 0 k x []
field-with_field (c, n ∷ body) x k = look_up-put_entry n k x body

field-with_field_other :
    (v x : Text) (k l : Bytes) → str_eq k l ≡ false → field_in (with_field v k x) l ≡ field_in v l
field-with_field_other (c, []) x k l other = look_up-other 0 k l x [] other
field-with_field_other (c, n ∷ body) x k l other = look_up-other n k l x body other

mark-with_field : (v x : Text) (k : Bytes) → (with_field v k x).0 ≡ v.0
mark-with_field (c, []) x k = refl
mark-with_field (c, n ∷ body) x k = refl

read_items-all_values : (l : List Text) → read_items (count_of l) (all_values l) ≡ l
read_items-all_values [] = refl
read_items-all_values ((c, s) ∷ l) =
    rw (take-append s (all_values l), drop-append s (all_values l))
      (ap (λ r. (c, s) ∷ r) (read_items-all_values l))

is_number-number_text : (n : ℤ) → texts.is_number_integer (number_text n) ≡ true
is_number-number_text (pos n) = refl
is_number-number_text (negsuc n) = refl

number_in-number_text : (n : ℤ) → number_in (number_text n) ≡ n
number_in-number_text (pos n) = refl
number_in-number_text (negsuc n) = refl

pub texts-IsJsonValues : IsJsonValues texts
texts-IsJsonValues = record {
  field-empty_object = λ k. refl;
  field-set_field = λ v x k h. field-with_field v x k;
  field-set_field_other = λ v x k l h other. field-with_field_other v x k l other;
  is_object-empty_object = refl;
  is_object-set_field = λ v x k h. ap (λ c. c == b'{') (mark-with_field v x k) ∙ h;
  is_array-array = λ l. refl;
  items-array = read_items-all_values;
  is_string-string = λ s. refl;
  get_string-string = λ s. refl;
  is_number_integer-number = is_number-number_text;
  get_int-number = λ n h. number_in-number_text n;
  get_int64-number = λ n h. refl;
}
