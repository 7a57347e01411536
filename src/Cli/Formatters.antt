-- ===== src/Cli/Formatters.antt =====
-- src/cli/formatters.cpp. What is written to the stream is the text. Widths are below the limit of the
-- `int` that `std::setw` takes.
pub mod Aligned
use distributed_computing.Prelude.{
  ℕ, zero, suc, ◌-◌, List, [], ◌∷◌, ◌++◌, map, Bytes, codes, length, leb, if◌then◌else◌,
}

abbrev pub max : ℕ → ℕ → ℕ
max a b = if leb a b then b else a

-- The inner loop of `ComputeWidths` over one row.
unfoldable pub widen : List ℕ → List Bytes → List ℕ
widen [] row = []
widen (w ∷ widths) [] = w ∷ widths
widen (w ∷ widths) (cell ∷ row) = max w (length cell) ∷ widen widths row

-- The loop over the rows.
unfoldable pub widen_all : List ℕ → List (List Bytes) → List ℕ
unfolding widen
widen_all widths [] = widths
widen_all widths (row ∷ rows) = widen_all (widen widths row) rows

abbrev pub lengths : List Bytes → List ℕ
lengths [] = []
lengths (header ∷ headers) = length header ∷ lengths headers

unfoldable pub compute_widths : List Bytes → List (List Bytes) → List ℕ
unfolding widen_all
compute_widths headers rows = widen_all (lengths headers) rows

-- `std::string(n, c)`
unfoldable pub repeated : ℕ → ℕ → Bytes
repeated zero c = []
repeated (suc n) c = c ∷ repeated n c

-- `std::left << std::setw(width) << value`
unfoldable pub padded : ℕ → Bytes → Bytes
unfolding repeated
padded width value = value ++ repeated (width - length value) 32

abbrev pub first : List Bytes → Bytes
first [] = []
first (cell ∷ row) = cell

abbrev pub others : List Bytes → List Bytes
others [] = []
others (cell ∷ row) = row

-- The loops of `PrintRow` and of `PrintSeparator`: a cell for each width, two spaces between them.
unfoldable pub print_cells : List Bytes → List ℕ → Bytes
unfolding padded
print_cells row [] = []
print_cells row (w ∷ []) = padded w (first row)
print_cells row (w ∷ v ∷ widths) =
    padded w (first row) ++ (codes "  " ++ print_cells (others row) (v ∷ widths))

unfoldable pub print_dashes : List ℕ → Bytes
unfolding repeated
print_dashes [] = []
print_dashes (w ∷ []) = repeated w b'-'
print_dashes (w ∷ v ∷ widths) = repeated w b'-' ++ (codes "  " ++ print_dashes (v ∷ widths))

unfoldable pub print_row : List Bytes → List ℕ → Bytes
unfolding print_cells
print_row row widths = print_cells row widths ++ codes "\n"

unfoldable pub print_separator : List ℕ → Bytes
unfolding print_dashes
print_separator widths = print_dashes widths ++ codes "\n"

abbrev pub print_rows : List (List Bytes) → List ℕ → List Bytes
print_rows [] widths = []
print_rows (row ∷ rows) widths = print_row row widths ∷ print_rows rows widths

-- The lines of a table.
unfoldable pub print_table : List Bytes → List (List Bytes) → List Bytes
unfolding compute_widths print_row print_separator
print_table [] rows = []
print_table (header ∷ headers) rows =
    let widths = compute_widths (header ∷ headers) rows in
    print_row (header ∷ headers) widths ∷ print_separator widths ∷ print_rows rows widths

abbrev pub entry_rows : List (Bytes × Bytes) → List (List Bytes)
entry_rows [] = []
entry_rows ((field, value) ∷ rows) = (field ∷ value ∷ []) ∷ entry_rows rows

unfoldable pub print_key_value_table : List (Bytes × Bytes) → List Bytes
unfolding print_table
print_key_value_table rows = print_table (codes "Field" ∷ codes "Value" ∷ []) (entry_rows rows)
