-- ===== src/Cells/Bulk.antt =====
-- `bulkUpsert` of src/modules/cells/cells.service.ts: batches of one raw statement each.
pub mod Placeholders
pub mod Batches
pub mod Stopping
use onsheet_backend.Base.{
  ℕ, zero, suc, ◌+◌, String, Bool, Option, none, some, List, [], ◌∷◌, ◌++◌, length, is_empty, take,
  drop,
}
use onsheet_backend.Prisma.{Prisma, Db, SqlParam, int, text}
use onsheet_backend.Http.{Result, ok, err, known_request}
use onsheet_backend.Http.Actions.{Action, pure, check, ◌>>=◌, ◌>>◌}
use onsheet_backend.Sheets.Service.{assert_editor_access, default_to}
use onsheet_backend.Cells.Service.{UpdateCellDto}

-- `const BATCH = 3000`
abbrev pub batch_size : ℕ
batch_size = 3000

-- the parameters that one cell pushes
abbrev pub cell_params : String → UpdateCellDto → List SqlParam
cell_params sheet_id c =
    text (some sheet_id)
    ∷ int c.row
    ∷ int c.col
    ∷ text c.raw_value
    ∷ text c.computed
    ∷ text c.formatted
    ∷ text (some (default_to c.style "{}"))
    ∷ []

-- `$${off + 1}` to `$${off + 7}`
abbrev pub clause_at : ℕ → List ℕ
clause_at off =
    (off + 1) ∷ (off + 2) ∷ (off + 3) ∷ (off + 4) ∷ (off + 5) ∷ (off + 6) ∷ (off + 7) ∷ []

-- the loop over a batch: the clauses and the parameters pushed so far
unfoldable pub build_statement :
    String → List (List ℕ) → List SqlParam → List UpdateCellDto → List (List ℕ) × List SqlParam
build_statement sheet_id clauses params [] = (clauses, params)
build_statement sheet_id clauses params (c ∷ batch) =
    build_statement sheet_id (clauses ++ clause_at (length params) ∷ [])
      (params ++ cell_params sheet_id c) batch

module _ ⦃p : Prisma⦄ where
  -- `$executeRawUnsafe(sql, ...params)`: the number of rows
  unfoldable pub execute_batch : String → List UpdateCellDto → Action (Db p) ℕ
  execute_batch sheet_id batch db =
      let statement = build_statement sheet_id [] [] batch in
      executed (p.insert_cells db.cells statement.0 statement.1) db
    where
      executed : Option (p.cells.T × ℕ) → Action (Db p) ℕ
      executed none db = (err known_request, db)
      executed (some (t, affected)) db = (ok affected, record db { cells = t })

  -- `for (let i = 0; i < cells.length; i += BATCH)`, over the cells from `i` on. Each round takes at
  -- least one cell, so their number is fuel enough.
  unfoldable pub batch_loop : ℕ → String → ℕ → List UpdateCellDto → Action (Db p) ℕ
  unfolding execute_batch
  batch_loop zero sheet_id total cells db = (ok total, db)
  batch_loop (suc fuel) sheet_id total [] db = (ok total, db)
  batch_loop (suc fuel) sheet_id total (c ∷ cells) db =
      (execute_batch sheet_id (take batch_size (c ∷ cells)) >>= λ affected.
      batch_loop fuel sheet_id (total + affected) (drop batch_size (c ∷ cells)))
        db

  unfoldable pub bulk_upsert : String → String → List UpdateCellDto → Action (Db p) ℕ
  unfolding batch_loop
  bulk_upsert sheet_id user_id cells = do
    check (λ db. assert_editor_access db sheet_id user_id)
    batch_loop (length cells) sheet_id 0 cells
