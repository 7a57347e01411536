-- ===== src/Common/StringUtils/Utf8.antt =====
-- `IsValidUtf8` and `SanitizeUtf8Lossy` of src/common/string_utils.hpp.
use Prim.Native.Nat.{bit_and, bit_or}
use mathlib.Core.Path.{subst}
use distributed_computing.Prelude.{
  ◌↔◌, ◌*◌, ◌%◌, ◌^◌, ◌==◌, sym, ℕ, zero, suc, ◌≤◌, ◌≡◌, refl, ap, ◌∙◌, true, inl, inr, Option,
  none, some, [], ◌∷◌, Bytes, length, arith, Bool-cases, Option-cases,
}
use distributed_computing.Common.StringUtils.{
  width, lead, sequence, continuation, valid_loop, is_valid_utf8, sanitize_loop,
  sanitize_utf8_lossy,
}

length-sanitize_loop : (n : ℕ) (s : Bytes) → length s ≤ length (sanitize_loop n s)
unfolding sanitize_loop
length-sanitize_loop n [] = omega arith
length-sanitize_loop (suc n) (c ∷ s) = omega (arith, length-sanitize_loop n s)
length-sanitize_loop zero (c ∷ s) = elim (Option-cases (width c s)) [
  | inl bad ↦ rw (bad, sanitize_loop) (omega (arith, length-sanitize_loop 0 s))
  | inr (n, good) ↦ rw (good, sanitize_loop) (omega (arith, length-sanitize_loop n s))
]

-- The bytes that the repair skips over are copied.
continuation-sanitize_loop :
    (n cp : ℕ) (s : Bytes) → continuation n cp (sanitize_loop n s) ≡ continuation n cp s
unfolding continuation sanitize_loop
continuation-sanitize_loop zero cp s = refl
continuation-sanitize_loop (suc n) cp [] = refl
continuation-sanitize_loop (suc n) cp (c ∷ s) =
    rw (continuation-sanitize_loop n (bit_or (cp * 64 % 2 ^ 32) (bit_and c 0x3F)) s)

sequence_need : (need cp n : ℕ) (s : Bytes) → sequence need cp s ≡ some n → need ≡ n
unfolding sequence
sequence_need need cp n s h = ground arith

sequence-sanitize_loop :
    (need cp : ℕ) (s : Bytes)
    → sequence need cp s ≡ some need
    → sequence need cp (sanitize_loop need s) ≡ some need
unfolding sequence
sequence-sanitize_loop need cp s h =
    ground (arith, continuation-sanitize_loop need cp s, length-sanitize_loop need s)

sequence_copied :
    (need cp n : ℕ) (s : Bytes)
    → sequence need cp s ≡ some n
    → sequence need cp (sanitize_loop n s) ≡ some n
sequence_copied need cp n s h =
    let e : need ≡ n = sequence_need need cp n s h in
    subst (λ k. sequence need cp (sanitize_loop k s) ≡ some k) e
      (sequence-sanitize_loop need cp s (h ∙ ap some (sym e)))

-- A character that is valid in the input is valid in the repaired text.
width-sanitize_loop :
    (c n : ℕ) (s : Bytes) → width c s ≡ some n → width c (sanitize_loop n s) ≡ some n
unfolding width
width-sanitize_loop c n s h = elim (Bool-cases (bit_and c 0x80 == 0)) [
  | inl ascii ↦ rw ascii (rw ascii at h)
  | inr long ↦ rw long (lead_copied (lead c) (rw long at h))
]
  where
    lead_copied :
        (l : Option (ℕ × ℕ))
        → (elim l [ none ↦ none | some (need, cp) ↦ sequence need cp s ]) ≡ some n
        → (elim l [ none ↦ none | some (need, cp) ↦ sequence need cp (sanitize_loop n s) ]) ≡ some n
    lead_copied none e = cc
    lead_copied (some (need, cp)) e = sequence_copied need cp n s e

valid_replacement : (s : Bytes) → valid_loop 0 (0xEF ∷ 0xBF ∷ 0xBD ∷ s) ≡ valid_loop 0 s
unfolding valid_loop
valid_replacement s = ground arith

valid-sanitize_loop : (n : ℕ) (s : Bytes) → valid_loop n (sanitize_loop n s) ≡ true
unfolding sanitize_loop valid_loop
valid-sanitize_loop n [] = refl
valid-sanitize_loop (suc n) (c ∷ s) = valid-sanitize_loop n s
valid-sanitize_loop zero (c ∷ s) = elim (Option-cases (width c s)) [
  | inl bad ↦
      rw (bad, sanitize_loop) (valid_replacement (sanitize_loop 0 s) ∙ valid-sanitize_loop 0 s)
  | inr (n, good) ↦
      rw (good, sanitize_loop)
        (rw (width-sanitize_loop c n s good, valid_loop) (valid-sanitize_loop n s))
]

-- Whatever the input bytes, the repaired text passes the validation.
pub is_valid_utf8-sanitize_utf8_lossy :
    (input : Bytes) → is_valid_utf8 (sanitize_utf8_lossy input) ≡ true
unfolding sanitize_utf8_lossy is_valid_utf8
is_valid_utf8-sanitize_utf8_lossy input = ground (arith, valid-sanitize_loop 0 input)

sanitize_utf8_lossy-valid :
    (input : Bytes) → is_valid_utf8 input ≡ true → sanitize_utf8_lossy input ≡ input
unfolding sanitize_utf8_lossy
sanitize_utf8_lossy-valid input h = rw h

-- The repair leaves a text as it is exactly when the text is valid, so a second repair changes
-- nothing.
pub sanitize_utf8_lossy_fixed :
    (input : Bytes)
    → ((sanitize_utf8_lossy input ≡ input) ↔ (is_valid_utf8 input ≡ true))
      × (sanitize_utf8_lossy (sanitize_utf8_lossy input) ≡ sanitize_utf8_lossy input)
sanitize_utf8_lossy_fixed input = (
  (
    λ e. subst (λ s. is_valid_utf8 s ≡ true) e (is_valid_utf8-sanitize_utf8_lossy input),
    sanitize_utf8_lossy-valid input,
  ),
  sanitize_utf8_lossy-valid _ (is_valid_utf8-sanitize_utf8_lossy input),
)
