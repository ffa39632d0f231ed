-- ===== src/Ai/Reading.antt =====
-- The tools of src/modules/ai/ai.service.ts that only read: `get_sheet_cells`,
-- `get_sheet_statistics`, `find_formula_errors` and `find_data_anomalies`. A result is the object
-- whose JSON text the model is given.
use Prim.Native.String.{◌++◌ as append}
use onsheet_backend.Base.{
  ℕ, ◌+◌, ◌-◌, ◌*◌, ◌^◌, String, Bool, true, false, ◌&&◌, not, Option, none, some, List, [], ◌∷◌,
  ◌++◌, ◌==◌, string_eq, nat_eq, take, length, leb, ltb, if◌then◌else◌, filter, map, any,
}
use onsheet_backend.Base.Decimal.{decimal}
use onsheet_backend.Base.Dict.{Dict, lookup, insert}
use onsheet_backend.Base.Text.{starts_with, includes}
use onsheet_backend.Prisma.{Prisma, Db, Cell, asc}
use onsheet_backend.Ai.Numeric.{is_numeric}

-- `{ gte: first, lte: last ?? most }`, if there is a first
abbrev pub is_in_range : Option ℕ → Option ℕ → ℕ → ℕ → Bool
is_in_range none last most n = true
is_in_range (some first) none most n = leb first n && leb n most
is_in_range (some first) (some last) most n = leb first n && leb n last

-- `orderBy: [{ row: "asc" }, { col: "asc" }]`: the columns are 32-bit
abbrev row_then_col : Cell → ℕ
row_then_col c = c.row * 2 ^ 32 + c.col

-- `rawValue: { startsWith: "=" }`
abbrev pub is_formula : Option String → Bool
is_formula none = false
is_formula (some v) = starts_with "=" v

abbrev pub is_null : Option String → Bool
is_null none = true
is_null (some v) = false

-- the columns that `get_sheet_cells` selects
pub record CellView : Type 0 where
  pub row : ℕ
  pub col : ℕ
  pub raw_value : Option String
  pub computed : Option String
  pub version : ℕ

abbrev cell_view : Cell → CellView
cell_view c = record {
  row = c.row;
  col = c.col;
  raw_value = c.raw_value;
  computed = c.computed;
  version = c.version;
}

pub record Statistics : Type 0 where
  pub total_cells : ℕ
  pub formula_cells : ℕ
  pub data_cells : ℕ
  pub empty_cells : ℕ
  pub grid_rows : ℕ
  pub grid_cols : ℕ

abbrev pub larger : ℕ → Option ℕ → Option ℕ
larger n none = some n
larger n (some m) = some (if leb n m then m else n)

-- `_max`: none of no rows
abbrev pub max_of : (Cell → ℕ) → List Cell → Option ℕ
max_of f [] = none
max_of f (c ∷ cells) = larger (f c) (max_of f cells)

-- `(max ?? -1) + 1`
abbrev pub one_past : Option ℕ → ℕ
one_past none = 0
one_past (some m) = m + 1

pub record FormulaError : Type 0 where
  pub row : ℕ
  pub col : ℕ
  pub formula : Option String
  pub error : Option String

pub record FormulaErrors : Type 0 where
  pub total_formulas : ℕ
  pub error_count : ℕ
  pub errors : List FormulaError

abbrev pub error_markers : List String
error_markers = "#VALUE!" ∷ "#REF!" ∷ "#NAME?" ∷ "#DIV/0!" ∷ "#NUM!" ∷ "#N/A" ∷ "#NULL!" ∷ []

-- `c.computed && errorMarkers.some(…)`: the empty text is falsy, and has no marker
abbrev pub is_error : Option String → Bool
is_error none = false
is_error (some v) = any (λ m. includes m v) error_markers

abbrev formula_error : Cell → FormulaError
formula_error c = record { row = c.row; col = c.col; formula = c.raw_value; error = c.computed }

pub data Anomaly : Type 0 where
  duplicate_value mixed_types : String → Anomaly

pub record Anomalies : Type 0 where
  pub anomalies_found : ℕ
  pub anomalies : List Anomaly

-- `c.rawValue ?? ""`
abbrev text_or_empty : Option String → String
text_or_empty none = ""
text_or_empty (some v) = v

abbrev pub values_or_none : Option (List String) → List String
values_or_none none = []
values_or_none (some l) = l

abbrev pub count_or_zero : Option ℕ → ℕ
count_or_zero none = 0
count_or_zero (some n) = n

-- the loop that fills `byCol`
abbrev pub by_col : Dict ℕ (List String) → List Cell → Dict ℕ (List String)
by_col d [] = d
by_col d (c ∷ cells) =
    by_col (insert c.col (values_or_none (lookup c.col d) ++ text_or_empty c.raw_value ∷ []) d)
      cells

-- the loop that fills `counts`
abbrev pub counts : Dict String ℕ → List String → Dict String ℕ
counts d [] = d
counts d (v ∷ vals) = counts (insert v (count_or_zero (lookup v d) + 1) d) vals

abbrev pub duplicate : ℕ → String → ℕ → Anomaly
duplicate col val count = duplicate_value (
    append "Column " (
      append (decimal col)
        (append ": \"" (append val (append "\" appears " (append (decimal count) " times"))))))

abbrev pub is_duplicate : String → ℕ → Bool
is_duplicate val count = ltb 1 count && not (starts_with "=" val)

abbrev pub duplicates : ℕ → Dict String ℕ → List Anomaly
duplicates col [] = []
duplicates col ((val, count) ∷ d) =
    let rest = duplicates col d in
    if is_duplicate val count then duplicate col val count ∷ rest else rest

abbrev pub is_mixed : List String → Bool
is_mixed vals =
    let non_formulas = filter (λ v. not (starts_with "=" v)) vals in
    any is_numeric non_formulas
    && (any (λ v. not (is_numeric v)) non_formulas && ltb 2 (length non_formulas))

abbrev pub mixed : ℕ → List String → List Anomaly
mixed col vals =
    if is_mixed vals
    then mixed_types (append "Column " (append (decimal col) " mixes numeric and text values")) ∷ []
    else []

abbrev pub column_anomalies : Dict ℕ (List String) → List Anomaly
column_anomalies [] = []
column_anomalies ((col, vals) ∷ d) =
    duplicates col (counts [] vals) ++ (mixed col vals ++ column_anomalies d)

module _ ⦃p : Prisma⦄ where
  abbrev pub in_sheet : Db p → String → (Cell → Bool) → List Cell
  in_sheet db sheet_id test = p.cells.find_many db.cells (λ c. c.sheet_id == sheet_id && test c)

  abbrev pub all_cells : Db p → String → List Cell
  all_cells db sheet_id = p.cells.find_many db.cells (λ c. c.sheet_id == sheet_id)

  unfoldable pub get_sheet_cells :
      Db p → String → Option ℕ → Option ℕ → Option ℕ → Option ℕ → List CellView
  get_sheet_cells db sheet_id row_start row_end col_start col_end = map cell_view (
      take 500 (
        p.cells.order_by asc row_then_col (
          in_sheet db sheet_id (λ c.
            is_in_range row_start row_end 9999 c.row && is_in_range col_start col_end 702 c.col))))

  -- `count` is the number of rows that `findMany` lists.
  unfoldable pub get_sheet_statistics : Db p → String → Statistics
  get_sheet_statistics db sheet_id =
      let total = length (all_cells db sheet_id) in
      let empty_count = length (in_sheet db sheet_id (λ c. is_null c.raw_value)) in
      record {
        total_cells = total;
        formula_cells = length (in_sheet db sheet_id (λ c. is_formula c.raw_value));
        data_cells = total - empty_count;
        empty_cells = empty_count;
        grid_rows = one_past (max_of (λ c. c.row) (all_cells db sheet_id));
        grid_cols = one_past (max_of (λ c. c.col) (all_cells db sheet_id));
      }

  unfoldable pub find_formula_errors : Db p → String → FormulaErrors
  find_formula_errors db sheet_id =
      let formulas = in_sheet db sheet_id (λ c. is_formula c.raw_value) in
      let errors = map formula_error (filter (λ c. is_error c.computed) formulas) in
      record { total_formulas = length formulas; error_count = length errors; errors = errors }

  unfoldable pub find_data_anomalies : Db p → String → Anomalies
  find_data_anomalies db sheet_id =
      let cells = take 2000 (in_sheet db sheet_id (λ c. not (is_null c.raw_value))) in
      let anomalies = column_anomalies (by_col [] cells) in
      record { anomalies_found = length anomalies; anomalies = take 20 anomalies }
