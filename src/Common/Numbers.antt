-- ===== src/Common/Numbers.antt =====
-- The number conversions of the standard library that the program calls: `std::to_string`,
-- `std::stoll`, `std::stoi`, `std::stoull` and `std::strtol`.
pub mod RoundTrip
use distributed_computing.Prelude.{
  ℕ, ◌≤◌, zero, suc, ◌+◌, ◌-◌, ◌*◌, ◌/◌, ◌%◌, ◌^◌, Bool, true, false, ◌&&◌, ◌||◌, Option, none,
  some, List, [], ◌∷◌, ◌++◌, Bytes, ℤ, pos, negsuc, length, ltb, leb, ◌==◌, if◌then◌else◌,
}

unfoldable pub is_digit : ℕ → Bool
is_digit c = leb b'0' c && leb c b'9'

unfoldable pub is_space : ℕ → Bool
is_space c = (c == 32) || (leb 9 c && leb c 13)

-- `std::to_string` of a natural number, on fuel.
unfoldable pub to_string_loop : ℕ → ℕ → Bytes
to_string_loop zero n = []
to_string_loop (suc fuel) n =
    let high = to_string_loop fuel (n / 10) in
    if ltb n 10 then (b'0' + n) ∷ [] else high ++ (b'0' + n % 10) ∷ []

unfoldable pub to_string : ℕ → Bytes
unfolding to_string_loop
to_string n = to_string_loop (n + 1) n

-- `std::to_string` of a `long`.
unfoldable pub to_string_long : ℤ → Bytes
to_string_long (pos n) = to_string n
to_string_long (negsuc n) = b'-' ∷ to_string (n + 1)

-- The value of a run of digits, and what follows it.
unfoldable pub digits : ℕ → Bytes → ℕ × Bytes
unfolding is_digit
digits acc [] = (acc, [])
digits acc (c ∷ rest) =
    let more = digits (acc * 10 + (c - b'0')) rest in if is_digit c then more else (acc, c ∷ rest)

unfoldable pub skip_spaces : Bytes → Bytes
unfolding is_space
skip_spaces [] = []
skip_spaces (c ∷ rest) = let more = skip_spaces rest in if is_space c then more else c ∷ rest

-- A number as the C functions read it: its sign, its value and what follows. `none` where no digit
-- stands there.
pub record Numeral : Type 0 where
  pub negative : Bool
  pub magnitude : ℕ
  pub rest : Bytes

unfoldable pub unsigned_numeral : Bool → Bytes → Option Numeral
unfolding digits is_digit
unsigned_numeral negative [] = none
unsigned_numeral negative (c ∷ rest) =
    if is_digit c
    then some (record {
      negative = negative;
      magnitude = (digits 0 (c ∷ rest)).0;
      rest = (digits 0 (c ∷ rest)).1;
    })
    else none

unfoldable pub signed_numeral : Bytes → Option Numeral
unfolding unsigned_numeral
signed_numeral [] = none
signed_numeral (c ∷ rest) =
    if c == b'-'
    then unsigned_numeral true rest
    else if c == b'+'
    then unsigned_numeral false rest
    else unsigned_numeral false (c ∷ rest)

unfoldable pub numeral : Bytes → Option Numeral
unfolding skip_spaces signed_numeral
numeral s = signed_numeral (skip_spaces s)

abbrev pub int_max : ℕ
int_max = 2 ^ 31 - 1

-- The number fits an `int`.
abbrev pub IsInt : ℤ → Type 0
IsInt (pos n) = n ≤ int_max
IsInt (negsuc n) = n ≤ int_max

abbrev pub int64_max : ℕ
int64_max = 2 ^ 63 - 1

abbrev pub uint64_mod : ℕ
uint64_mod = 2 ^ 64

-- The integer with the given sign, or nothing if it is past `max` (`-max - 1` below zero).
unfoldable pub in_range : ℕ → Numeral → Option ℤ
in_range max n =
    if n.negative
    then (if n.magnitude == 0
        then some (pos 0)
        else if leb n.magnitude (max + 1)
        then some (negsuc (n.magnitude - 1))
        else none)
    else if leb n.magnitude max
    then some (pos n.magnitude)
    else none

-- `std::stoi`, `std::stoll`; `none` where they throw.
unfoldable pub stoi : Bytes → Option ℤ
unfolding numeral in_range
stoi s = elim (numeral s) [ none ↦ none | some n ↦ in_range int_max n ]

unfoldable pub stoll : Bytes → Option ℤ
unfolding numeral in_range
stoll s = elim (numeral s) [ none ↦ none | some n ↦ in_range int64_max n ]

-- `std::stoull`, which wraps a negative number around.
unfoldable pub stoull : Bytes → Option ℕ
unfolding numeral
stoull s = elim (numeral s) [
  | none ↦ none
  | some n ↦
      if leb uint64_mod n.magnitude
      then none
      else if n.negative
      then some ((uint64_mod - n.magnitude) % uint64_mod)
      else some n.magnitude
]
