-- ===== src/Master/Mappers/Ids.antt =====
-- `ParseTaskId` of src/master/api_mappers.cpp.
use distributed_computing.Prelude.{
  ℕ, ◌<◌, ◌≤◌, ◌≡◌, ◌≢◌, refl, true, false, Option, none, some, [], ◌∷◌, Bytes, arith, Bool-cases,
  inl, inr, str_eq, leb, ◌==◌, pos, negsuc, ℤ,
}
use distributed_computing.Common.Numbers.{to_string, stoll, int64_max}
use distributed_computing.Common.Numbers.RoundTrip.{
  to_string-IsDigits, to_string-starts, stoll-to_string, IsDigits,
}
use distributed_computing.Master.Mappers.{all_digits, parse_task_id}

all_digits-IsDigits : (s : Bytes) → IsDigits s → all_digits s ≡ true
unfolding all_digits
all_digits-IsDigits [] h = refl
all_digits-IsDigits (c ∷ s) h = rw (h.0, all_digits-IsDigits s h.1) refl

-- A printed identifier is parsed back if it is positive and fits 63 bits.
pub parse_task_id-to_string : (n : ℕ) → 0 < n → n ≤ int64_max → parse_task_id (to_string n) ≡ some n
unfolding parse_task_id str_eq
parse_task_id-to_string n low high =
    let (c, rest, e) = to_string-starts n in
    let positive : (n == 0) ≡ false = ground (arith, low) in
    let fits : leb n int64_max ≡ true = ground (arith, high) in
    let all_of : all_digits (c ∷ rest) ≡ true =
      all_digits-IsDigits (c ∷ rest) (rw e at (to_string-IsDigits n)) in
    let read : stoll (c ∷ rest) ≡ some (pos n) = rw e at (stoll-to_string n high) in
    rw (e, all_of, read, positive, fits) refl

-- What is accepted is all digits, and is positive and fits 63 bits.
pub parse_task_id-bounds :
    (s : Bytes) (n : ℕ)
    → parse_task_id s ≡ some n
    → (all_digits s ≡ true) × (s ≢ []) × (0 < n) × (n ≤ int64_max)
unfolding parse_task_id str_eq
parse_task_id-bounds [] n h = absurd (cc h)
parse_task_id-bounds (c ∷ s) n h = elim (Bool-cases (all_digits (c ∷ s))) [
  | inl good ↦ let range = read (stoll (c ∷ s)) refl good in (good, (λ e. cc e), range.0, range.1)
  | inr bad ↦ absurd (cc (rw bad at h))
]
  where
    read :
        (o : Option ℤ) → stoll (c ∷ s) ≡ o → all_digits (c ∷ s) ≡ true → (0 < n) × (n ≤ int64_max)
    read none e good = absurd (cc (rw (good, e) at h))
    read (some (negsuc m)) e good = absurd (cc (rw (good, e) at h))
    read (some (pos m)) e good = ground (arith, (rw (good, e) at h))
