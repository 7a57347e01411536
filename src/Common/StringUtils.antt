-- ===== src/Common/StringUtils.antt =====
-- src/common/string_utils.hpp: lower-casing, and the validation and lossy repair of UTF-8.
pub mod Utf8
use Prim.Native.Nat.{bit_and, bit_or}
use distributed_computing.Prelude.{
  ℕ, zero, suc, ◌+◌, ◌*◌, ◌%◌, ◌^◌, Bool, true, false, ◌&&◌, ◌||◌, Option, none, some, List, [],
  ◌∷◌, map, Bytes, length, ltb, leb, ◌==◌, if◌then◌else◌,
}

-- `std::tolower` in the C locale.
unfoldable pub tolower : ℕ → ℕ
tolower c = if leb b'A' c && leb c b'Z' then c + 32 else c

unfoldable pub to_lower_copy : Bytes → Bytes
unfolding tolower
to_lower_copy value = map tolower value

-- The lead byte: how many bytes follow, and its bits of the code point.
unfoldable pub lead : ℕ → Option (ℕ × ℕ)
lead c =
    if bit_and c 0xE0 == 0xC0
    then (if ltb (bit_and c 0x1F) 0x02 then none else some (1, bit_and c 0x1F))
    else if bit_and c 0xF0 == 0xE0
    then some (2, bit_and c 0x0F)
    else if bit_and c 0xF8 == 0xF0
    then (if ltb 0x04 (bit_and c 0x07) then none else some (3, bit_and c 0x07))
    else none

-- The loop over the `need` continuation bytes; `codepoint` is a 32-bit unsigned integer.
unfoldable pub continuation : ℕ → ℕ → Bytes → Option ℕ
continuation zero codepoint rest = some codepoint
continuation (suc k) codepoint [] = none
continuation (suc k) codepoint (cc ∷ rest) =
    let more = continuation k (bit_or (codepoint * 64 % 2 ^ 32) (bit_and cc 0x3F)) rest in
    if bit_and cc 0xC0 == 0x80 then more else none

-- The checks on a whole code point: overlong forms, surrogates, range.
unfoldable pub scalar : ℕ → ℕ → Bool
scalar need codepoint =
    if (need == 2 && ltb codepoint 0x800) || (need == 3 && ltb codepoint 0x10000)
    then false
    else if leb 0xD800 codepoint && leb codepoint 0xDFFF
    then false
    else if ltb 0x10FFFF codepoint
    then false
    else true

-- The multi-byte sequence that starts with a lead byte; `i + need >= input.size()` is the first test.
unfoldable pub sequence : ℕ → ℕ → Bytes → Option ℕ
unfolding continuation scalar
sequence need codepoint rest =
    if leb (1 + length rest) need then none else elim (continuation need codepoint rest) [
      | none ↦ none
      | some whole ↦ if scalar need whole then some need else none
    ]

-- One turn of either loop: how many bytes after `c` belong to its character, if it is valid.
unfoldable pub width : ℕ → Bytes → Option ℕ
unfolding lead sequence
width c rest =
    if bit_and c 0x80 == 0
    then some 0
    else elim (lead c) [ none ↦ none | some (need, codepoint) ↦ sequence need codepoint rest ]

-- `skip` is how many bytes the index has still to pass: `i += need + 1`.
unfoldable pub valid_loop : ℕ → Bytes → Bool
unfolding width
valid_loop skip [] = true
valid_loop (suc skip) (c ∷ rest) = valid_loop skip rest
valid_loop zero (c ∷ rest) = elim (width c rest) [ none ↦ false | some need ↦ valid_loop need rest ]

unfoldable pub is_valid_utf8 : Bytes → Bool
unfolding valid_loop
is_valid_utf8 input = valid_loop 0 input

unfoldable pub sanitize_loop : ℕ → Bytes → Bytes
unfolding width
sanitize_loop skip [] = []
sanitize_loop (suc skip) (c ∷ rest) = c ∷ sanitize_loop skip rest
sanitize_loop zero (c ∷ rest) = elim (width c rest) [
  | none ↦ 0xEF ∷ 0xBF ∷ 0xBD ∷ sanitize_loop 0 rest
  | some need ↦ c ∷ sanitize_loop need rest
]

unfoldable pub sanitize_utf8_lossy : Bytes → Bytes
unfolding is_valid_utf8 sanitize_loop
sanitize_utf8_lossy input = if is_valid_utf8 input then input else sanitize_loop 0 input
