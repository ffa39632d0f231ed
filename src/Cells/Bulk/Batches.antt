-- ===== src/Cells/Bulk/Batches.antt =====
-- Batches of statements against one statement for all cells, and the bounds on a statement.
use onsheet_backend.Base.{
  ◌*◌, ◌≤◌, String, List, [], ◌∷◌, ◌++◌, ◌≡◌, refl, arith, ap, ◌∙◌, length, length-map,
  length-append, map, take, length-take, if◌then◌else◌, cell_key_eq,
}
use onsheet_backend.Prisma.{Prisma, Db, InsertRow}
use onsheet_backend.Prisma.Insert.{keys_distinct, insert_rows, insert_row}
use onsheet_backend.Http.{ok, err, known_request}
use onsheet_backend.Cells.Service.{UpdateCellDto}
use onsheet_backend.Cells.Bulk.{batch_size, cell_params, build_statement, execute_batch}
use onsheet_backend.Cells.Bulk.Placeholders.{
  requested_row, rest_params, build_statement-eq, decode-build_statement,
}

abbrev pub rows : String → List UpdateCellDto → List InsertRow
rows sheet_id = map (requested_row sheet_id)

length-rest_params :
    (sheet_id : String) (batch : List UpdateCellDto)
    → length (rest_params sheet_id batch) ≡ 7 * length batch
length-rest_params sheet_id [] = refl
length-rest_params sheet_id (c ∷ batch) = omega (
  arith,
  length-append {0} (cell_params sheet_id c) (rest_params sheet_id batch),
  length-rest_params sheet_id batch,
)

-- A statement has seven parameters for each cell of its batch, and never more than 21 000, below
-- the 65 535 that PostgreSQL accepts.
pub length-params :
    (sheet_id : String) (cells : List UpdateCellDto)
    → let params = (build_statement sheet_id [] [] (take batch_size cells)).1 in
      (length params ≡ 7 * length (take batch_size cells)) × (length params ≤ 21000)
length-params sheet_id cells =
    let batch = take batch_size cells in
    let count : length (build_statement sheet_id [] [] batch).1 ≡ 7 * length batch =
      ap (λ s. length s.1) (build_statement-eq sheet_id [] [] batch)
      ∙ length-rest_params sheet_id batch in
    (count, omega (arith, count, length-take {0} batch_size cells))

module _ ⦃p : Prisma⦄ where
  pub insert_rows-append :
      (s : p.cells.T) (xs ys : List InsertRow)
      → insert_rows p.cells s (xs ++ ys) ≡ insert_rows p.cells (insert_rows p.cells s xs) ys
  insert_rows-append s [] ys = refl
  insert_rows-append s (x ∷ xs) ys = insert_rows-append (insert_row p.cells s x) xs ys

  -- One batch: all its rows are written in order, or, where two of them name one cell, none is and
  -- the database's error is thrown.
  pub execute_batch_lem :
      (sheet_id : String) (batch : List UpdateCellDto) (db : Db p)
      → execute_batch sheet_id batch db ≡ (
          if keys_distinct (rows sheet_id batch)
          then (
            ok (length batch),
            record db { cells = insert_rows p.cells db.cells (rows sheet_id batch) },
          )
          else (err known_request, db))
  unfolding execute_batch
  execute_batch_lem sheet_id batch db = ground (
    arith,
    p.insert_cells_lem db.cells (build_statement sheet_id [] [] batch).0
        (build_statement sheet_id [] [] batch).1,
    decode-build_statement sheet_id batch,
    length-map (requested_row sheet_id) batch,
  )
