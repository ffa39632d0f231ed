-- ===== src/Cells/Versions.antt =====
-- Versioned writes: what `upsert` stores, and when it conflicts.
use onsheet_backend.Base.{
  ℕ, ◌+◌, String, true, false, Option, none, some, ◌==◌, ◌≡◌, refl, nat_eq, string_eq, cell_key_eq,
  if◌then◌else◌, arith, ap, ◌∙◌,
}
use onsheet_backend.Prisma.{Prisma, Db, Cell, CellOperation}
use onsheet_backend.Prisma.Table.Laws.{upserted, upsert_free, find-upsert_free}
use onsheet_backend.Http.{Result, ok, err, conflict}
use onsheet_backend.Http.Actions.{commit}
use onsheet_backend.Workbooks.Access.{assert_editor}
use onsheet_backend.Sheets.Service.{assert_editor_access}
use onsheet_backend.OperationLog.{RecordOpInput, record_op, create_op}
use onsheet_backend.Cells.Service.{
  UpdateCellDto, Source, find_cell, upsert, is_stale, version_of, raw_value_of, created_cell,
  updated_cell, update_input, log_op, conflict_message, set_nullable,
}

module _ ⦃p : Prisma⦄ where
  -- A write to the log changes the log alone.
  log_op_frame :
      (i : RecordOpInput) (db : Db p)
      → (log_op i db).1 ≡ record db { cell_ops = (log_op i db).1.cell_ops }
  unfolding record_op
  log_op_frame i db = log_lem (create_op db i)
    where
      log_lem :
          (o : Option (p.cell_ops.T × CellOperation))
          → (commit (λ t. record db { cell_ops = t }) o db).1
            ≡ record db { cell_ops = (commit (λ t. record db { cell_ops = t }) o db).1.cell_ops }
      log_lem none = refl
      log_lem (some (t, r)) = refl

  pub cells-log_op : (i : RecordOpInput) (db : Db p) → (log_op i db).1.cells ≡ db.cells
  cells-log_op i db = ap (λ (d : Db p). d.cells) (log_op_frame i db)

  pub access-log_op :
      (i : RecordOpInput) (db : Db p) (sheet_id user_id : String)
      → assert_editor_access (log_op i db).1 sheet_id user_id
        ≡ assert_editor_access db sheet_id user_id
  unfolding assert_editor_access assert_editor
  access-log_op i db sheet_id user_id =
      ap (λ (d : Db p). assert_editor_access d sheet_id user_id) (log_op_frame i db)

module _ ⦃p : Prisma⦄ (sheet_id user_id : String) (dto : UpdateCellDto) (source : Source)
    (db : Db p) where
  abbrev pub existing : Option Cell
  existing = find_cell db sheet_id dto.row dto.col

  -- The row that a write stores: a new cell, or the old one with the fields that the DTO gives.
  abbrev pub saved : Cell
  saved =
      upserted existing
        (created_cell sheet_id dto (version_of existing + 1) (p.cells.stamp db.cells))
        (updated_cell dto (version_of existing + 1))

  abbrev pub written : Db p
  written = record db { cells = p.cells.write db.cells saved }

  module _ (access : assert_editor_access db sheet_id user_id ≡ ok tt) where
    -- A write that is not stale stores its row, and then only the log is touched.
    pub upsert_eq :
        is_stale dto.base_version existing ≡ false
        → upsert sheet_id user_id dto source db
          ≡ (ok saved, (log_op (update_input sheet_id user_id dto source existing saved) written).1)
    unfolding upsert
    upsert_eq fresh = ground (
      arith,
      access,
      fresh,
      upsert_free p.cells p.cells-IsLawful (λ r x. refl) db.cells (sheet_id, dto.row, dto.col)
          (created_cell sheet_id dto (version_of existing + 1))
          (updated_cell dto (version_of existing + 1)) (λ z. refl) (λ r. refl),
    )

    pub upsert-stale :
        is_stale dto.base_version existing ≡ true
        → upsert sheet_id user_id dto source db ≡ (err (conflict conflict_message existing), db)
    unfolding upsert
    upsert-stale stale = ground (arith, access, stale)

    -- A write by an editor that is not stale returns the saved cell: the next version, the fields
    -- that the DTO gives and the old value of a `rawValue` that it leaves out. Every other cell of
    -- the database stays as it is.
    pub upsert_saves :
        is_stale dto.base_version existing ≡ false
        → ((upsert sheet_id user_id dto source db).0 ≡ ok saved)
          × (saved.version ≡ version_of existing + 1)
          × (saved.raw_value ≡ set_nullable dto.raw_value (raw_value_of existing))
          × ((k : String × ℕ × ℕ)
              → p.cells.find_unique (upsert sheet_id user_id dto source db).1.cells k ≡ (
                  if (sheet_id, dto.row, dto.col) == k
                  then some saved
                  else p.cells.find_unique db.cells k))
    upsert_saves fresh = (
      ap (λ (x : Result Cell × Db p). x.0) (upsert_eq fresh),
      ground arith,
      ground arith,
      λ k.
          ap (λ (x : Result Cell × Db p). p.cells.find_unique x.1.cells k) (upsert_eq fresh)
          ∙ ap (λ (t : p.cells.T). p.cells.find_unique t k)
              (cells-log_op (update_input sheet_id user_id dto source existing saved) written)
          ∙ find-upsert_free p.cells p.cells-IsLawful (λ r x. refl) db.cells
              (sheet_id, dto.row, dto.col) (created_cell sheet_id dto (version_of existing + 1))
              (updated_cell dto (version_of existing + 1)) (λ z. refl) (λ r. refl) k,
    )

    access-upsert :
        is_stale dto.base_version existing ≡ false
        → (user : String)
        → assert_editor_access (upsert sheet_id user_id dto source db).1 sheet_id user
          ≡ assert_editor_access db sheet_id user
    unfolding assert_editor_access assert_editor
    access-upsert fresh user =
        ap (λ (x : Result Cell × Db p). assert_editor_access x.1 sheet_id user) (upsert_eq fresh)
        ∙ access-log_op (update_input sheet_id user_id dto source existing saved) written sheet_id
            user
