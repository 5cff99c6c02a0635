-- ===== src/Export/Reader.antt =====
-- A reader of comma-separated files after RFC 4180, with LF or CRLF at the end of a line.
use deedlit_dev.Base.{ℕ, Option, none, some, List, [], ◌∷◌, ◌++◌, ◌==◌, if◌then◌else◌, Text}
use deedlit_dev.Export.{quote, comma}

-- Before a cell, in a bare cell, between quotes, behind a quote that may close.
pub data Mode : Type 0 where
  before bare between behind : Mode

-- `cell`, `row` and `rows` are what was read so far.
pub record Reading : Type 0 where
  pub mode : Mode
  pub cell : Text
  pub row : List Text
  pub rows : List (List Text)

unfoldable pub chomp : Text → Text
chomp [] = []
chomp (c ∷ []) = if c == 13 then [] else c ∷ []
chomp (c ∷ d ∷ s) = c ∷ chomp (d ∷ s)

abbrev pub next_cell : Reading → Reading
next_cell r = record { mode = before; cell = []; row = r.row ++ r.cell ∷ []; rows = r.rows }

abbrev pub next_row : Reading → Text → Reading
next_row r cell = record {
  mode = before;
  cell = [];
  row = [];
  rows = r.rows ++ (r.row ++ cell ∷ []) ∷ [];
}

abbrev pub keep : Reading → Mode → ℕ → Reading
keep r mode c = record r { mode = mode; cell = r.cell ++ c ∷ [] }

unfoldable pub read_unit : Mode → Reading → ℕ → Option Reading
read_unit before r c =
    if c == quote
    then some (record r { mode = between })
    else if c == comma
    then some (next_cell r)
    else if c == 10
    then some (next_row r (chomp r.cell))
    else some (keep r bare c)
read_unit bare r c =
    if c == quote
    then none
    else if c == comma
    then some (next_cell r)
    else if c == 10
    then some (next_row r (chomp r.cell))
    else some (keep r bare c)
read_unit between r c =
    if c == quote then some (record r { mode = behind }) else some (keep r between c)
read_unit behind r c =
    if c == quote
    then some (keep r between c)
    else if c == comma
    then some (next_cell r)
    else if c == 10
    then some (next_row r r.cell)
    else if c == 13
    then some r
    else none

unfoldable pub read_from : Reading → Text → Option Reading
read_from r [] = some r
read_from r (c ∷ s) = elim (read_unit r.mode r c) [ none ↦ none | some r' ↦ read_from r' s ]

-- At the end a row that was begun counts.
unfoldable pub finish : Reading → Option (List (List Text))
finish r = elim r.mode [
  | before ↦ elim r.row [ [] ↦ some r.rows | c ∷ cs ↦ some (r.rows ++ (r.row ++ [] ∷ []) ∷ []) ]
  | between ↦ none
  | _ ↦ some (r.rows ++ (r.row ++ r.cell ∷ []) ∷ [])
]

abbrev pub blank : Reading
blank = record { mode = before; cell = []; row = []; rows = [] }

unfoldable pub read_csv : Text → Option (List (List Text))
read_csv s = elim (read_from blank s) [ none ↦ none | some r ↦ finish r ]
