-- ===== src/Cells/Guarding.antt =====
-- Who may not edit a sheet writes nothing to it.
use onsheet_backend.Base.{ℕ, String, Option, List, ◌≡◌, arith}
use onsheet_backend.Prisma.{Prisma, Db}
use onsheet_backend.Http.{Exception, err}
use onsheet_backend.Sheets.Service.{
  assert_editor_access, update, remove, create_snapshot, restore_snapshot,
}
use onsheet_backend.Cells.Service.{UpdateCellDto, Source, upsert, clear}
use onsheet_backend.Cells.Bulk.{bulk_upsert}

module _ ⦃p : Prisma⦄ where
  -- Where `assertEditorAccess` throws, every operation of the two services that writes to the sheet,
  -- to its cells or to its snapshots throws the same exception and leaves the database as it is.
  pub writes_denied :
      (db : Db p) (sheet_id user_id : String) (e : Exception) (dto : UpdateCellDto)
      (source : Source) (cells : List UpdateCellDto) (row col : ℕ) (name : Option String)
      (index : Option ℕ) (snapshot_id : String)
      → assert_editor_access db sheet_id user_id ≡ err e
      → (upsert sheet_id user_id dto source db ≡ (err e, db))
        × (bulk_upsert sheet_id user_id cells db ≡ (err e, db))
        × (clear sheet_id row col user_id db ≡ (err e, db))
        × (update sheet_id user_id name index db ≡ (err e, db))
        × (remove sheet_id user_id db ≡ (err e, db))
        × (create_snapshot sheet_id user_id name db ≡ (err e, db))
        × (restore_snapshot sheet_id snapshot_id user_id db ≡ (err e, db))
  unfolding upsert bulk_upsert clear update remove create_snapshot restore_snapshot
  writes_denied db sheet_id user_id e dto source cells row col name index snapshot_id denied = (
    ground (arith, denied),
    ground (arith, denied),
    ground (arith, denied),
    ground (arith, denied),
    ground (arith, denied),
    ground (arith, denied),
    ground (arith, denied),
  )
