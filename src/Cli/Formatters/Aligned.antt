-- ===== src/Cli/Formatters/Aligned.antt =====
-- The lines that src/cli/formatters.cpp prints.
use distributed_computing.Prelude.{
  ℕ, zero, suc, ◌+◌, ◌-◌, ◌≤◌, ◌≡◌, refl, ap, ◌∙◌, List, [], ◌∷◌, ◌++◌, Bytes, codes, length,
  length-append, arith, All,
}
use distributed_computing.Cli.Formatters.{
  widen, widen_all, lengths, compute_widths, repeated, padded, first, others, print_cells,
  print_dashes, print_row, print_separator, print_rows, print_table,
}

-- No cell of the row is longer than its column is wide.
abbrev pub Fits : List Bytes → List ℕ → Type 0
Fits row [] = Unit
Fits [] (w ∷ widths) = Unit
Fits (cell ∷ row) (w ∷ widths) = (length cell ≤ w) × Fits row widths

Fits-lengths : (row : List Bytes) → Fits row (lengths row)
Fits-lengths [] = tt
Fits-lengths (cell ∷ row) = (omega arith, Fits-lengths row)

Fits-widen_self : (row : List Bytes) (widths : List ℕ) → Fits row (widen widths row)
unfolding widen
Fits-widen_self row [] = tt
Fits-widen_self [] (w ∷ widths) = tt
Fits-widen_self (cell ∷ row) (w ∷ widths) = (ground arith, Fits-widen_self row widths)

Fits-widen :
    (row new : List Bytes) (widths : List ℕ) → Fits row widths → Fits row (widen widths new)
unfolding widen
Fits-widen row new [] h = tt
Fits-widen row [] (w ∷ widths) h = h
Fits-widen [] (cell ∷ new) (w ∷ widths) h = tt
Fits-widen (c ∷ row) (cell ∷ new) (w ∷ widths) h =
    (ground (arith, h.0), Fits-widen row new widths h.1)

Fits-widen_all :
    (row : List Bytes) (rows : List (List Bytes)) (widths : List ℕ)
    → Fits row widths
    → Fits row (widen_all widths rows)
unfolding widen_all
Fits-widen_all row [] widths h = h
Fits-widen_all row (new ∷ rows) widths h =
    Fits-widen_all row rows (widen widths new) (Fits-widen row new widths h)

rows_fit :
    (rows : List (List Bytes)) (widths : List ℕ)
    → All (λ row. Fits row (widen_all widths rows)) rows
unfolding widen_all
rows_fit [] widths = tt
rows_fit (row ∷ rows) widths = (
  Fits-widen_all row rows (widen widths row) (Fits-widen_self row widths),
  rows_fit rows (widen widths row),
)

-- The length of a line: its columns, with two spaces between them, and its end.
abbrev pub columns : List ℕ → ℕ
columns [] = 0
columns (w ∷ []) = w
columns (w ∷ v ∷ widths) = w + (2 + columns (v ∷ widths))

length-repeated : (n c : ℕ) → length (repeated n c) ≡ n
unfolding repeated
length-repeated zero c = refl
length-repeated (suc n) c = ap suc (length-repeated n c)

length-padded : (w : ℕ) (s : Bytes) → length s ≤ w → length (padded w s) ≡ w
unfolding padded
length-padded w s h =
    omega
      (arith, h, length-append s (repeated (w - length s) 32), length-repeated (w - length s) 32)

first-Fits :
    (row : List Bytes) (w : ℕ) (widths : List ℕ) → Fits row (w ∷ widths) → length (first row) ≤ w
first-Fits [] w widths h = omega arith
first-Fits (cell ∷ row) w widths h = h.0

others-Fits :
    (row : List Bytes) (w : ℕ) (widths : List ℕ) → Fits row (w ∷ widths) → Fits (others row) widths
others-Fits [] w [] h = tt
others-Fits [] w (v ∷ widths) h = tt
others-Fits (cell ∷ row) w widths h = h.1

length-print_cells :
    (row : List Bytes) (widths : List ℕ)
    → Fits row widths
    → length (print_cells row widths) ≡ columns widths
unfolding print_cells
length-print_cells row [] h = refl
length-print_cells row (w ∷ []) h = length-padded w (first row) (first-Fits row w [] h)
length-print_cells row (w ∷ v ∷ widths) h =
    length-append (padded w (first row)) (codes "  " ++ print_cells (others row) (v ∷ widths))
    ∙ omega (
      arith,
      length-padded w (first row) (first-Fits row w (v ∷ widths) h),
      length-print_cells (others row) (v ∷ widths) (others-Fits row w (v ∷ widths) h),
    )

length-print_dashes : (widths : List ℕ) → length (print_dashes widths) ≡ columns widths
unfolding print_dashes
length-print_dashes [] = refl
length-print_dashes (w ∷ []) = length-repeated w b'-'
length-print_dashes (w ∷ v ∷ widths) =
    length-append (repeated w b'-') (codes "  " ++ print_dashes (v ∷ widths))
    ∙ omega (arith, length-repeated w b'-', length-print_dashes (v ∷ widths))

-- A line of the table's width.
abbrev pub IsLine : List ℕ → Bytes → Type 0
IsLine widths line = length line ≡ columns widths + 1

print_row-IsLine :
    (row : List Bytes) (widths : List ℕ) → Fits row widths → IsLine widths (print_row row widths)
unfolding print_row
print_row-IsLine row widths h =
    length-append (print_cells row widths) (codes "\n")
    ∙ ap (λ n. n + 1) (length-print_cells row widths h)

print_separator-IsLine : (widths : List ℕ) → IsLine widths (print_separator widths)
unfolding print_separator
print_separator-IsLine widths =
    length-append (print_dashes widths) (codes "\n") ∙ ap (λ n. n + 1) (length-print_dashes widths)

print_rows-IsLine :
    (rows : List (List Bytes)) (widths : List ℕ)
    → All (λ row. Fits row widths) rows
    → All (IsLine widths) (print_rows rows widths)
print_rows-IsLine [] widths h = tt
print_rows-IsLine (row ∷ rows) widths h =
    (print_row-IsLine row widths h.0, print_rows-IsLine rows widths h.1)

-- Every line of a printed table, the headers and the separator included, has the same length: that of
-- the columns, with two spaces between them, and the end of the line.
pub print_table-IsLine :
    (headers : List Bytes) (rows : List (List Bytes))
    → All (IsLine (compute_widths headers rows)) (print_table headers rows)
unfolding print_table compute_widths
print_table-IsLine [] rows = tt
print_table-IsLine (header ∷ headers) rows =
    let widths = compute_widths (header ∷ headers) rows in
    (
      print_row-IsLine (header ∷ headers) widths (
          Fits-widen_all (header ∷ headers) rows (lengths (header ∷ headers))
            (Fits-lengths (header ∷ headers))),
      (
        print_separator-IsLine widths,
        print_rows-IsLine rows widths (rows_fit rows (lengths (header ∷ headers))),
      ),
    )
