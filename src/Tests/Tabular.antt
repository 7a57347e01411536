-- ===== src/Tests/Tabular.antt =====
-- A table with rows of different lengths, and the words of a command.
use distributed_computing.Prelude.{List, [], ◌∷◌, Bytes, codes, All}
use distributed_computing.Cli.Options.{parse_global_options}
use distributed_computing.Cli.Options.Sane.{IsParsed, parse_global_options-IsParsed}
use distributed_computing.Cli.Formatters.{compute_widths, print_table}
use distributed_computing.Cli.Formatters.Aligned.{IsLine, print_table-IsLine}

abbrev headers : List Bytes
headers = codes "ID" ∷ codes "State" ∷ []

abbrev rows : List (List Bytes)
rows = (codes "10000" ∷ codes "Queued" ∷ []) ∷ (codes "7" ∷ []) ∷ []

print_table-IsLine_example : All (IsLine (compute_widths headers rows)) (print_table headers rows)
print_table-IsLine_example = print_table-IsLine headers rows

-- tasks list, after three options.
abbrev words : List Bytes
words =
    codes "--retries"
    ∷ codes "3"
    ∷ codes "--timeout-ms=250"
    ∷ codes "--json"
    ∷ codes "tasks"
    ∷ codes "list"
    ∷ []

parse_global_options-IsParsed_example : IsParsed (parse_global_options [] words)
parse_global_options-IsParsed_example = parse_global_options-IsParsed [] words
