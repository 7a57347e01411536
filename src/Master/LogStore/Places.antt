-- ===== src/Master/LogStore/Places.antt =====
-- The paths of src/master/log_store.cpp for numbered tasks.
use mathlib.Core.List.{append_assoc}
use distributed_computing.Prelude.{
  All-weaken, ℕ, ◌≡◌, ◌≢◌, refl, sym, ap, ◌∙◌, inl, inr, ◌==◌, true, false, [], ◌∷◌, ◌++◌, Bytes,
  codes, All, arith, str_eq, str_eq_iff, Bool-cases, if◌then◌else◌,
}
use distributed_computing.Common.Numbers.{is_digit, to_string, digits}
use distributed_computing.Common.Numbers.RoundTrip.{
  to_string-IsDigits, to_string-starts, to_string-digits,
}
use distributed_computing.Common.Paths.{path_join, ends_with_slash}
use distributed_computing.Master.LogStore.{paths_for_task}

-- What stands before a relative name that is joined to a directory.
abbrev pub stem : Bytes → Bytes
stem a = if str_eq a [] then [] else if ends_with_slash a then a else a ++ codes "/"

-- The path of a file of a task.
abbrev pub place : Bytes → ℕ → Bytes → Bytes
place root_dir n name = stem root_dir ++ (to_string n ++ b'/' ∷ name)

join-stem :
    (a : Bytes) (c : ℕ) (b : Bytes) → (c == b'/') ≡ false → path_join a (c ∷ b) ≡ stem a ++ c ∷ b
unfolding path_join
join-stem a c b h = elim (Bool-cases (str_eq a [])) [
  | inl empty ↦ rw (h, path_join, empty) refl
  | inr other ↦ elim (Bool-cases (ends_with_slash a)) [
    | inl slash ↦ rw (h, path_join, other, slash) refl
    | inr bare ↦ rw (h, path_join, other, bare) refl
  ]
]

abbrev pub IsPlain : Bytes → Type 0
IsPlain s = All (λ c. (c == b'/') ≡ false) s

plain-ends :
    (s : Bytes) (c : ℕ) (d : Bytes) → IsPlain (c ∷ d) → ends_with_slash (s ++ c ∷ d) ≡ false
unfolding ends_with_slash
plain-ends [] c [] h = h.0
plain-ends [] c (e ∷ d) h = plain-ends [] e d h.1
plain-ends (a ∷ []) c d h = plain-ends [] c d h
plain-ends (a ∷ b ∷ s) c d h = plain-ends (b ∷ s) c d h

split_at_slash :
    (d e a b : Bytes) → IsPlain d → IsPlain e → d ++ b'/' ∷ a ≡ e ++ b'/' ∷ b → (d ≡ e) × (a ≡ b)
split_at_slash [] [] a b h k same = (refl, cc same)
split_at_slash [] (x ∷ e) a b h k same =
    let slash : 47 ≡ x = cc same in absurd (ground (arith, k.0, slash))
split_at_slash (x ∷ d) [] a b h k same =
    let slash : x ≡ 47 = cc same in absurd (ground (arith, h.0, slash))
split_at_slash (x ∷ d) (y ∷ e) a b h k same =
    let rest = split_at_slash d e a b h.1 k.1 (cc same) in (cc (same, rest.0), rest.1)

append-injective : (s x y : Bytes) → s ++ x ≡ s ++ y → x ≡ y
append-injective [] x y h = h
append-injective (c ∷ s) x y h = append-injective s x y (cc h)

to_string-injective : (n m : ℕ) → to_string n ≡ to_string m → n ≡ m
to_string-injective n m h =
    sym (to_string-digits n) ∙ ap (λ s. (digits 0 s).0) h ∙ to_string-digits m

digit_plain : (c : ℕ) → is_digit c ≡ true → (c == b'/') ≡ false
unfolding is_digit
digit_plain c h = ground (arith, h)

to_string-IsPlain : (n : ℕ) → IsPlain (to_string n)
to_string-IsPlain n =
    All-weaken (λ c. is_digit c ≡ true) (λ c. (c == b'/') ≡ false) (λ c h. digit_plain c h)
      (to_string n) (to_string-IsDigits n)

pub place-injective :
    (root_dir : Bytes) (n m : ℕ) (a b : Bytes)
    → place root_dir n a ≡ place root_dir m b
    → (n ≡ m) × (a ≡ b)
place-injective root_dir n m a b h =
    let split =
      split_at_slash (to_string n) (to_string m) a b (to_string-IsPlain n) (to_string-IsPlain m)
        (append-injective (stem root_dir) (to_string n ++ b'/' ∷ a) (to_string m ++ b'/' ∷ b) h) in
    (to_string-injective n m split.0, split.1)

pub place_other :
    (root_dir : Bytes) (n m : ℕ) (a b : Bytes)
    → ((n ≡ m) → (a ≡ b) → ⊥)
    → str_eq (place root_dir n a) (place root_dir m b) ≡ false
place_other root_dir n m a b differ =
    elim (Bool-cases (str_eq (place root_dir n a) (place root_dir m b))) [
      | inl same ↦
          let both = place-injective root_dir n m a b ((str_eq_iff _ _).0 same) in
          absurd (differ both.0 both.1)
      | inr other ↦ other
    ]

append-nonempty : (s : Bytes) (c : ℕ) (d : Bytes) → s ++ c ∷ d ≢ []
append-nonempty [] c d h = cc h
append-nonempty (a ∷ s) c d h = cc h

stem-plain :
    (s : Bytes) (c : ℕ) (d : Bytes)
    → IsPlain (c ∷ d)
    → stem (s ++ c ∷ d) ≡ (s ++ c ∷ d) ++ codes "/"
stem-plain s c d h = elim (Bool-cases (str_eq (s ++ c ∷ d) [])) [
  | inl empty ↦ absurd (append-nonempty s c d ((str_eq_iff _ []).0 empty))
  | inr full ↦ rw (full, plain-ends s c d h) refl
]

joined :
    (root_dir : Bytes) (n c : ℕ) (b : Bytes)
    → (c == b'/') ≡ false
    → path_join (path_join root_dir (to_string n)) (c ∷ b) ≡ place root_dir n (c ∷ b)
joined root_dir n c b h = go (to_string n) (to_string-IsPlain n) (to_string-starts n)
  where
    go :
        (d : Bytes)
        → IsPlain d
        → ((x : ℕ) × (rest : Bytes) × (d ≡ x ∷ rest))
        → path_join (path_join root_dir d) (c ∷ b) ≡ stem root_dir ++ (d ++ b'/' ∷ c ∷ b)
    go [] plain (x, rest, e) = absurd (cc e)
    go (y ∷ d) plain starts =
        ap (λ a. path_join a (c ∷ b)) (join-stem root_dir y d plain.0)
        ∙ join-stem (stem root_dir ++ y ∷ d) c b h
        ∙ ap (λ a. a ++ c ∷ b) (stem-plain (stem root_dir) y d plain)
        ∙ append_assoc (stem root_dir ++ y ∷ d) (codes "/") (c ∷ b)
        ∙ append_assoc (stem root_dir) (y ∷ d) (b'/' ∷ c ∷ b)

-- The paths of a numbered task are places of its number.
pub stdout_path-place :
    (root_dir : Bytes) (n : ℕ)
    → (paths_for_task root_dir (to_string n)).stdout_path ≡ place root_dir n (codes "stdout.log")
unfolding paths_for_task
stdout_path-place root_dir n = joined root_dir n b's' (codes "tdout.log") refl

pub stderr_path-place :
    (root_dir : Bytes) (n : ℕ)
    → (paths_for_task root_dir (to_string n)).stderr_path ≡ place root_dir n (codes "stderr.log")
unfolding paths_for_task
stderr_path-place root_dir n = joined root_dir n b's' (codes "tderr.log") refl

pub meta_path-place :
    (root_dir : Bytes) (n : ℕ)
    → (paths_for_task root_dir (to_string n)).meta_path ≡ place root_dir n (codes "meta.json")
unfolding paths_for_task
meta_path-place root_dir n = joined root_dir n b'm' (codes "eta.json") refl
