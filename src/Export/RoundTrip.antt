-- ===== src/Export/RoundTrip.antt =====
-- The file that `downloadCsv` offers, read back.
use deedlit_dev.Base.{
  ℕ, ◌≡◌, refl, sym, ap, ◌∙◌, ◌≢◌, inl, inr, Bool, true, false, ◌||◌, some, List, [], ◌∷◌, ◌++◌,
  map, append_assoc, append-nil, arith, ◌==◌, Bool-cases, any, All, Text, join,
}
use deedlit_dev.Json.{Fields}
use deedlit_dev.Export.{
  quote, comma, is_special, double_quotes, quoted, keys, cells_of, line_of, row_line, join_lines,
  csv_text,
}
use deedlit_dev.Export.Reader.{
  Mode, before, bare, between, behind, Reading, chomp, read_unit, read_from, finish, blank,
  read_csv,
}

abbrev at : Mode → Text → List Text → List (List Text) → Reading
at mode cell row rows = record { mode = mode; cell = cell; row = row; rows = rows }

-- No special code unit, no carriage return.
abbrev pub IsBare : Text → Type 0
IsBare s = any is_special s ≡ false

abbrev pub HasNoReturn : Text → Type 0
HasNoReturn s = any (λ c. c == 13) s ≡ false

chomp-HasNoReturn : (s : Text) → HasNoReturn s → chomp s ≡ s
unfolding chomp
chomp-HasNoReturn [] h = refl
chomp-HasNoReturn (c ∷ []) h = ground arith
chomp-HasNoReturn (c ∷ d ∷ s) h = ground (arith, chomp-HasNoReturn (d ∷ s))

-- One code unit read.
read_from-step :
    (r r' : Reading) (c : ℕ) (s : Text)
    → read_unit r.mode r c ≡ some r'
    → read_from r (c ∷ s) ≡ read_from r' s
unfolding read_from
read_from-step r r' c s e = rw (e, read_from) refl

read_unit-bare :
    (c : ℕ) (cell : Text) (row : List Text) (rows : List (List Text))
    → is_special c ≡ false
    → read_unit bare (at bare cell row rows) c ≡ some (at bare (cell ++ c ∷ []) row rows)
unfolding read_unit
read_unit-bare c cell row rows h = ground arith

read_unit-before :
    (c : ℕ) (row : List Text) (rows : List (List Text))
    → is_special c ≡ false
    → read_unit before (at before [] row rows) c ≡ some (at bare (c ∷ []) row rows)
unfolding read_unit
read_unit-before c row rows h = ground arith

read_unit_between :
    (c : ℕ) (cell : Text) (row : List Text) (rows : List (List Text))
    → (c == quote) ≡ false
    → read_unit between (at between cell row rows) c ≡ some (at between (cell ++ c ∷ []) row rows)
unfolding read_unit
read_unit_between c cell row rows h = ground arith

read_unit_open :
    (row : List Text) (rows : List (List Text))
    → read_unit before (at before [] row rows) quote ≡ some (at between [] row rows)
unfolding read_unit
read_unit_open row rows = refl

read_unit_doubled :
    (c : ℕ) (cell : Text) (row : List Text) (rows : List (List Text))
    → (c == quote) ≡ true
    → read_unit between (at between cell row rows) c ≡ some (at behind cell row rows)
unfolding read_unit
read_unit_doubled c cell row rows h = ground arith

read_unit-behind :
    (c : ℕ) (cell : Text) (row : List Text) (rows : List (List Text))
    → (c == quote) ≡ true
    → read_unit behind (at behind cell row rows) c ≡ some (at between (cell ++ c ∷ []) row rows)
unfolding read_unit
read_unit-behind c cell row rows h = ground arith

or_false : (a b : Bool) → (a || b) ≡ false → (a ≡ false) × (b ≡ false)
or_false a b h = ground arith

read_bare :
    (s t cell : Text) (row : List Text) (rows : List (List Text))
    → IsBare s
    → read_from (at bare cell row rows) (s ++ t) ≡ read_from (at bare (cell ++ s) row rows) t
read_bare [] t cell row rows h = rw append-nil refl
read_bare (c ∷ s) t cell row rows h =
    let (here, later) = or_false (is_special c) (any is_special s) h in
    read_from-step _ _ c (s ++ t) (read_unit-bare c cell row rows here)
    ∙ read_bare s t (cell ++ c ∷ []) row rows later
    ∙ ap (λ x. read_from (at bare x row rows) t) (append_assoc cell (c ∷ []) s)

read_between :
    (s t cell : Text) (row : List Text) (rows : List (List Text))
    → read_from (at between cell row rows) (double_quotes s ++ quote ∷ t)
      ≡ read_from (at behind (cell ++ s) row rows) t
unfolding double_quotes
read_between [] t cell row rows = unfold read_from read_unit in rw append-nil refl
read_between (c ∷ s) t cell row rows =
    let more =
      read_between s t (cell ++ c ∷ []) row rows
      ∙ ap (λ x. read_from (at behind x row rows) t) (append_assoc cell (c ∷ []) s) in
    elim (Bool-cases (c == quote)) [
      | inl y ↦ rw y (
          read_from-step _ _ c (c ∷ (double_quotes s ++ quote ∷ t))
            (read_unit_doubled c cell row rows y)
          ∙ read_from-step _ _ c (double_quotes s ++ quote ∷ t) (read_unit-behind c cell row rows y)
          ∙ more)
      | inr n ↦ rw n (
          read_from-step _ _ c (double_quotes s ++ quote ∷ t) (read_unit_between c cell row rows n)
          ∙ more)
    ]

read_bare_cell :
    (s t : Text) (d : ℕ) (row : List Text) (rows : List (List Text)) (r : Reading)
    → IsBare s
    → (s ≡ [] → read_unit before (at before [] row rows) d ≡ some r)
    → read_unit bare (at bare s row rows) d ≡ some r
    → read_from (at before [] row rows) (s ++ d ∷ t) ≡ read_from r t
read_bare_cell [] t d row rows r h at_once in_bare = read_from-step _ r d t (at_once refl)
read_bare_cell (c ∷ s) t d row rows r h at_once in_bare =
    let (here, later) = or_false (is_special c) (any is_special s) h in
    read_from-step _ _ c (s ++ d ∷ t) (read_unit-before c row rows here)
    ∙ read_bare s (d ∷ t) (c ∷ []) row rows later
    ∙ read_from-step _ r d t in_bare

-- A cell and the code unit behind it, where every mode that the cell may end in takes that unit to
-- the same state.
read_cell :
    (s t : Text) (d : ℕ) (row : List Text) (rows : List (List Text)) (r : Reading)
    → (s ≡ [] → read_unit before (at before [] row rows) d ≡ some r)
    → read_unit bare (at bare s row rows) d ≡ some r
    → read_unit behind (at behind s row rows) d ≡ some r
    → read_from (at before [] row rows) (quoted s ++ d ∷ t) ≡ read_from r t
unfolding quoted
read_cell s t d row rows r at_once in_bare in_behind = elim (Bool-cases (any is_special s)) [
  | inl y ↦
      rw (y, append_assoc (double_quotes s) (quote ∷ []) (d ∷ t))
        (read_from-step _ (at between [] row rows) quote (double_quotes s ++ quote ∷ (d ∷ t))
            (read_unit_open row rows)
          ∙ read_between s (d ∷ t) [] row rows
          ∙ read_from-step _ r d t in_behind)
  | inr n ↦ rw n (read_bare_cell s t d row rows r n at_once in_bare)
]

read_comma :
    (s t : Text) (row : List Text) (rows : List (List Text))
    → read_from (at before [] row rows) (quoted s ++ comma ∷ t)
      ≡ read_from (at before [] (row ++ s ∷ []) rows) t
unfolding read_unit
read_comma s t row rows =
    read_cell s t comma row rows (at before [] (row ++ s ∷ []) rows) (λ e. rw e refl) refl refl

read_newline :
    (s t : Text) (row : List Text) (rows : List (List Text))
    → HasNoReturn s
    → read_from (at before [] row rows) (quoted s ++ 10 ∷ t)
      ≡ read_from (at before [] [] (rows ++ (row ++ s ∷ []) ∷ [])) t
unfolding read_unit
read_newline s t row rows h =
    let e = chomp-HasNoReturn s h in
    read_cell s t 10 row rows (at before [] [] (rows ++ (row ++ s ∷ []) ∷ []))
      (λ n. rw n (unfold chomp in refl)) (rw e refl) refl

-- A line of cells, then the end of the line.
read_line :
    (cell : Text) (cells : List Text) (t : Text) (row : List Text) (rows : List (List Text))
    → All HasNoReturn (cell ∷ cells)
    → read_from (at before [] row rows) (line_of (map quoted (cell ∷ cells)) ++ 10 ∷ t)
      ≡ read_from (at before [] [] (rows ++ (row ++ (cell ∷ cells)) ∷ [])) t
unfolding line_of join
read_line cell [] t row rows (h, _) = read_newline cell t row rows h
read_line cell (next ∷ cells) t row rows (h, hs) = rw append_assoc (
    read_comma cell (line_of (map quoted (next ∷ cells)) ++ 10 ∷ t) row rows
    ∙ read_line next cells t (row ++ cell ∷ []) rows hs
    ∙ ap (λ x. read_from (at before [] [] (rows ++ x ∷ [])) t)
        (append_assoc row (cell ∷ []) (next ∷ cells)))

-- A row that can be told from no row, and whose cells hold no carriage return.
abbrev pub IsPlainRow : List Text → Type 0
IsPlainRow row = (row ≢ []) × All HasNoReturn row

quoted_line : List Text → Text
quoted_line row = line_of (map quoted row)

read_row :
    (row : List Text) (t : Text) (rows : List (List Text))
    → IsPlainRow row
    → read_from (at before [] [] rows) (quoted_line row ++ 10 ∷ t)
      ≡ read_from (at before [] [] (rows ++ row ∷ [])) t
unfolding quoted_line
read_row [] t rows (h, _) = absurd (h refl)
read_row (cell ∷ cells) t rows (_, h) = read_line cell cells t [] rows h

read_rows :
    (row : List Text) (more done : List (List Text))
    → All IsPlainRow (row ∷ more)
    → read_from (at before [] [] done) (join_lines (map quoted_line (row ∷ more)))
      ≡ some (at before [] [] (done ++ (row ∷ more)))
unfolding join_lines join
read_rows row [] done (h, _) = read_row row [] done h ∙ (unfold read_from in refl)
read_rows row (next ∷ more) done (h, hs) = rw append_assoc (
    read_row row (join_lines (map quoted_line (next ∷ more))) done h
    ∙ read_rows next more (done ++ row ∷ []) hs
    ∙ ap (λ x. some (at before [] [] x)) (append_assoc done (row ∷ []) (next ∷ more)))

quoted_bare : (hs : List Text) → All IsBare hs → map quoted hs ≡ hs
unfolding quoted
quoted_bare [] h = refl
quoted_bare (x ∷ xs) (h, hs) = rw h (ap (◌∷◌ x) (quoted_bare xs hs))

row_lines :
    (headers : List Text) (rows : List Fields)
    → map (row_line headers) rows ≡ map quoted_line (map (cells_of headers) rows)
unfolding row_line quoted_line
row_lines headers [] = refl
row_lines headers (r ∷ rs) = ap (◌∷◌ (row_line headers r)) (row_lines headers rs)

read_csv_all :
    (s : Text) (rows : List (List Text))
    → read_from blank s ≡ some (at before [] [] rows)
    → read_csv s ≡ some rows
unfolding read_csv finish
read_csv_all s rows e = rw (e, read_csv) refl

-- The header line and the lines of cells of a download, as a reader of RFC 4180 sees them: where the
-- first row has a column, the column names hold no quote, comma, line feed or carriage return and no
-- cell holds a carriage return, the file reads back as the names and the text of each cell.
pub read_csv-csv_text :
    (row : Fields) (rows : List Fields)
    → All IsBare (keys row)
    → All IsPlainRow (keys row ∷ map (cells_of (keys row)) (row ∷ rows))
    → read_csv (csv_text (row ∷ rows)) ≡ some (keys row ∷ map (cells_of (keys row)) (row ∷ rows))
unfolding csv_text
read_csv-csv_text row rows bare_names plain =
    let headers = keys row in
    let names : line_of headers ≡ quoted_line headers =
      unfold quoted_line in ap line_of (sym (quoted_bare headers bare_names)) in
    let text : join_lines (line_of headers ∷ map (row_line headers) (row ∷ rows))
        ≡ join_lines (map quoted_line (headers ∷ map (cells_of headers) (row ∷ rows))) =
      rw (names, row_lines headers (row ∷ rows)) refl in
    rw text (
      read_csv_all (join_lines (map quoted_line (headers ∷ map (cells_of headers) (row ∷ rows)))) _
        (read_rows headers (map (cells_of headers) (row ∷ rows)) [] plain))
