-- ===== src/Common/Numbers/RoundTrip.antt =====
-- Printing a number and reading it again.
use distributed_computing.Prelude.{
  ℕ, zero, suc, ◌+◌, ◌-◌, ◌*◌, ◌/◌, ◌%◌, ◌<◌, ◌≤◌, ◌≡◌, refl, Bool, true, false, none, some, [],
  ◌∷◌, ◌++◌, All, All-append, Bytes, pos, leb, ltb, ◌==◌, if◌then◌else◌, arith, Bool-cases, inl,
  inr, ◌∙◌, ap,
}
use distributed_computing.Common.Numbers.{
  is_digit, is_space, to_string_loop, to_string, digits, skip_spaces, unsigned_numeral,
  signed_numeral, numeral, in_range, stoll, int64_max,
}

abbrev pub IsDigits : Bytes → Type 0
IsDigits s = All (λ c. is_digit c ≡ true) s

digits-append :
    (acc c : ℕ) (s : Bytes)
    → IsDigits s
    → is_digit c ≡ true
    → digits acc (s ++ c ∷ []) ≡ ((digits acc s).0 * 10 + (c - b'0'), [])
unfolding digits
digits-append acc c [] h d = rw d refl
digits-append acc c (x ∷ s) h d = rw h.0 (digits-append (acc * 10 + (x - b'0')) c s h.1 d)

digit_of : (n : ℕ) → n < 10 → is_digit (b'0' + n) ≡ true
unfolding is_digit
digit_of n h = ground arith

to_string_loop-IsDigits : (fuel n : ℕ) → IsDigits (to_string_loop fuel n)
unfolding to_string_loop
to_string_loop-IsDigits zero n = tt
to_string_loop-IsDigits (suc fuel) n = elim (Bool-cases (ltb n 10)) [
  | inl small ↦ rw small (digit_of n (ground (arith, small)), tt)
  | inr large ↦ rw large (
      All-append (λ c. is_digit c ≡ true) (to_string_loop fuel (n / 10)) ((b'0' + n % 10) ∷ [])
        (to_string_loop-IsDigits fuel (n / 10)) (digit_of (n % 10) (omega arith), tt))
]

one_digit : (n : ℕ) → n < 10 → digits 0 ((b'0' + n) ∷ []) ≡ (n, [])
unfolding digits
one_digit n h = rw (digit_of n h, digits) (ap (λ v. (v, [])) (omega arith))

digits-to_string_loop : (fuel n : ℕ) → n < fuel → digits 0 (to_string_loop fuel n) ≡ (n, [])
unfolding to_string_loop
digits-to_string_loop zero n h = absurd (omega arith)
digits-to_string_loop (suc fuel) n h = elim (Bool-cases (ltb n 10)) [
  | inl small ↦ rw small (one_digit n (ground (arith, small)))
  | inr large ↦ rw large (
      digits-append 0 (b'0' + n % 10) (to_string_loop fuel (n / 10))
        (to_string_loop-IsDigits fuel (n / 10)) (digit_of (n % 10) (omega arith))
      ∙ ap (λ v. (v * 10 + (b'0' + n % 10 - b'0'), []))
          (ap (λ p. p.0) (digits-to_string_loop fuel (n / 10) (ground (arith, large))))
      ∙ ap (λ v. (v, [])) (omega arith))
]

digit_kinds :
    (c : ℕ)
    → is_digit c ≡ true
    → (is_space c ≡ false) × ((c == b'-') ≡ false) × ((c == b'+') ≡ false)
unfolding is_digit is_space
digit_kinds c d = (ground (arith, d), ground (arith, d), ground (arith, d))

numeral-digit :
    (c : ℕ) (rest : Bytes)
    → is_digit c ≡ true
    → numeral (c ∷ rest)
      ≡ some (record {
        negative = false;
        magnitude = (digits 0 (c ∷ rest)).0;
        rest = (digits 0 (c ∷ rest)).1;
      })
unfolding numeral skip_spaces signed_numeral unsigned_numeral
numeral-digit c rest d =
    let (no_space, no_minus, no_plus) = digit_kinds c d in rw (no_space, no_minus, no_plus, d) refl

-- A string that starts with a digit is read as the digits that it starts with.
stoll-digit :
    (c : ℕ) (rest : Bytes)
    → is_digit c ≡ true
    → stoll (c ∷ rest)
      ≡ (if leb (digits 0 (c ∷ rest)).0 int64_max then some (pos (digits 0 (c ∷ rest)).0) else none)
unfolding stoll in_range
stoll-digit c rest d = rw (numeral-digit c rest d, stoll) refl

pub to_string-digits : (n : ℕ) → (digits 0 (to_string n)).0 ≡ n
unfolding to_string
to_string-digits n = ap (λ p. p.0) (digits-to_string_loop (n + 1) n (omega arith))

pub to_string-IsDigits : (n : ℕ) → IsDigits (to_string n)
unfolding to_string
to_string-IsDigits n = to_string_loop-IsDigits (n + 1) n

-- A string with a byte behind it is not empty.
append-starts : (s : Bytes) (c : ℕ) → (d : ℕ) × (rest : Bytes) × (s ++ c ∷ [] ≡ d ∷ rest)
append-starts [] c = (c, [], refl)
append-starts (d ∷ s) c = (d, s ++ c ∷ [], refl)

to_string_loop-starts :
    (fuel n : ℕ) → (c : ℕ) × (rest : Bytes) × (to_string_loop (suc fuel) n ≡ c ∷ rest)
unfolding to_string_loop
to_string_loop-starts fuel n = elim (Bool-cases (ltb n 10)) [
  | inl small ↦ (b'0' + n, [], rw small refl)
  | inr large ↦
      let (c, rest, e) = append-starts (to_string_loop fuel (n / 10)) (b'0' + n % 10) in
      (c, rest, rw large e)
]

-- A printed number starts with a digit.
pub to_string-starts : (n : ℕ) → (c : ℕ) × (rest : Bytes) × (to_string n ≡ c ∷ rest)
unfolding to_string
to_string-starts n =
    let (c, rest, e) = to_string_loop-starts n n in
    let more : n + 1 ≡ suc n = omega arith in (c, rest, ap (λ fuel. to_string_loop fuel n) more ∙ e)

-- A number that fits is read back.
pub stoll-to_string : (n : ℕ) → n ≤ int64_max → stoll (to_string n) ≡ some (pos n)
stoll-to_string n h =
    let (c, rest, e) = to_string-starts n in
    let all_of : IsDigits (c ∷ rest) = rw e at (to_string-IsDigits n) in
    let value : (digits 0 (c ∷ rest)).0 ≡ n = rw e at (to_string-digits n) in
    let fits : leb n int64_max ≡ true = ground (arith, h) in
    rw e (stoll-digit c rest all_of.0 ∙ (rw (value, fits) refl))

-- A printed number is read whole.
pub numeral-to_string :
    (n : ℕ) → numeral (to_string n) ≡ some (record { negative = false; magnitude = n; rest = [] })
unfolding to_string
numeral-to_string n =
    let (c, rest, e) = to_string-starts n in
    let all_of : IsDigits (c ∷ rest) = rw e at (to_string-IsDigits n) in
    let value : digits 0 (c ∷ rest) ≡ (n, []) =
      rw e at (digits-to_string_loop (n + 1) n (omega arith)) in
    rw e (numeral-digit c rest all_of.0 ∙ (rw value refl))

unsigned_numeral-digit :
    (negative : Bool) (c : ℕ) (rest : Bytes)
    → is_digit c ≡ true
    → unsigned_numeral negative (c ∷ rest)
      ≡ some (record {
        negative = negative;
        magnitude = (digits 0 (c ∷ rest)).0;
        rest = (digits 0 (c ∷ rest)).1;
      })
unfolding unsigned_numeral
unsigned_numeral-digit negative c rest d = rw d refl

-- A printed number behind a minus sign is read whole, with its sign.
pub numeral-to_string_minus :
    (n : ℕ)
    → numeral (b'-' ∷ to_string n) ≡ some (record { negative = true; magnitude = n; rest = [] })
unfolding numeral skip_spaces is_space signed_numeral to_string
numeral-to_string_minus n =
    let (c, rest, e) = to_string-starts n in
    let all_of : IsDigits (c ∷ rest) = rw e at (to_string-IsDigits n) in
    let value : digits 0 (c ∷ rest) ≡ (n, []) =
      rw e at (digits-to_string_loop (n + 1) n (omega arith)) in
    rw e (unsigned_numeral-digit true c rest all_of.0 ∙ (rw value refl))
