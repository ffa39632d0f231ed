-- ===== src/Cells/Bulk/Placeholders.antt =====
-- The placeholders of a batch select, for each cell, its own parameters.
use mathlib.Core.Path.{ap₂}
use mathlib.Core.List.{append-nil, append_assoc}
use onsheet_backend.Base.{
  ℕ, suc, ◌+◌, String, some, List, [], ◌∷◌, ◌++◌, ◌≡◌, refl, arith, ap, ◌∙◌, sym, length,
  length-append, map,
}
use onsheet_backend.Prisma.{SqlParam, InsertRow}
use onsheet_backend.Prisma.Insert.{param_at, all_params, row_of, add_row, decode_rows}
use onsheet_backend.Cells.Service.{UpdateCellDto}
use onsheet_backend.Cells.Bulk.{cell_params, clause_at, build_statement}
use onsheet_backend.Sheets.Service.{default_to}

-- The row that a cell of the request stands for.
abbrev pub requested_row : String → UpdateCellDto → InsertRow
requested_row sheet_id c = record {
  sheet_id = sheet_id;
  row = c.row;
  col = c.col;
  raw_value = c.raw_value;
  computed = c.computed;
  formatted = c.formatted;
  style = default_to c.style "{}";
}

param_at_at : (xs : List SqlParam) (j k : ℕ) → j ≡ k → param_at xs j ≡ param_at xs k
param_at_at xs j k e = ap (param_at xs) e

param_at-append :
    (xs ys : List SqlParam) (k : ℕ) → param_at (xs ++ ys) (length xs + suc k) ≡ param_at ys (suc k)
param_at-append [] ys k = param_at_at ys (0 + suc k) (suc k) (omega arith)
param_at-append (x ∷ xs) ys k =
    param_at_at (x ∷ (xs ++ ys)) (suc (length xs) + suc k) (suc (suc (length xs + k))) (omega arith)
    ∙ param_at_at (xs ++ ys) (suc (length xs + k)) (length xs + suc k) (omega arith)
    ∙ param_at-append xs ys k

-- The parameters that the loop pushes for the rest of a batch, and its clauses.
abbrev pub rest_params : String → List UpdateCellDto → List SqlParam
rest_params sheet_id [] = []
rest_params sheet_id (c ∷ cs) = cell_params sheet_id c ++ rest_params sheet_id cs

abbrev pub clauses_from : ℕ → List UpdateCellDto → List (List ℕ)
clauses_from off [] = []
clauses_from off (c ∷ cs) = clause_at off ∷ clauses_from (off + 7) cs

pub build_statement-eq :
    (sheet_id : String) (clauses : List (List ℕ)) (params : List SqlParam)
    (batch : List UpdateCellDto)
    → build_statement sheet_id clauses params batch
      ≡ (clauses ++ clauses_from (length params) batch, params ++ rest_params sheet_id batch)
unfolding build_statement
build_statement-eq sheet_id clauses params [] = simp append-nil
build_statement-eq sheet_id clauses params (c ∷ batch) =
    build_statement-eq sheet_id (clauses ++ clause_at (length params) ∷ [])
      (params ++ cell_params sheet_id c) batch
    ∙ simp (append_assoc, length-append)

-- One clause decodes to the row of its cell, wherever its parameters stand.
row_of-clause :
    (sheet_id : String) (before after : List SqlParam) (c : UpdateCellDto)
    → row_of (all_params (before ++ (cell_params sheet_id c ++ after)) (clause_at (length before)))
      ≡ some (requested_row sheet_id c)
row_of-clause sheet_id before after c = ground (
  arith,
  param_at-append before (cell_params sheet_id c ++ after) 0,
  param_at-append before (cell_params sheet_id c ++ after) 1,
  param_at-append before (cell_params sheet_id c ++ after) 2,
  param_at-append before (cell_params sheet_id c ++ after) 3,
  param_at-append before (cell_params sheet_id c ++ after) 4,
  param_at-append before (cell_params sheet_id c ++ after) 5,
  param_at-append before (cell_params sheet_id c ++ after) 6,
)

decode-clauses_from :
    (sheet_id : String) (before : List SqlParam) (batch : List UpdateCellDto)
    → decode_rows (clauses_from (length before) batch) (before ++ rest_params sheet_id batch)
      ≡ some (map (requested_row sheet_id) batch)
decode-clauses_from sheet_id before [] = refl
decode-clauses_from sheet_id before (c ∷ batch) =
    let own = cell_params sheet_id c in
    ap₂ add_row (row_of-clause sheet_id before (rest_params sheet_id batch) c) (
      ap₂ (λ n ps. decode_rows (clauses_from n batch) ps) (sym (length-append before own))
        (sym (append_assoc before own (rest_params sheet_id batch)))
      ∙ decode-clauses_from sheet_id (before ++ own) batch)

-- The statement that the loop builds for a batch carries exactly the rows of the batch, in order:
-- each clause's seven placeholders pick the seven parameters of its own cell.
pub decode-build_statement :
    (sheet_id : String) (batch : List UpdateCellDto)
    → let (clauses, params) = build_statement sheet_id [] [] batch in
      decode_rows clauses params ≡ some (map (requested_row sheet_id) batch)
decode-build_statement sheet_id batch =
    ap (λ (s : List (List ℕ) × List SqlParam). decode_rows s.0 s.1)
      (build_statement-eq sheet_id [] [] batch)
    ∙ decode-clauses_from sheet_id [] batch
