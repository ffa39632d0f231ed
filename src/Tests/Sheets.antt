-- ===== src/Tests/Sheets.antt =====
-- Runs of the guards of a sheet, and of a sheet that cannot be added.
use onsheet_backend.Base.{ℕ, ◌≡◌, refl, some, none, [], ◌∷◌}
use onsheet_backend.Prisma.{Db, SheetSnapshot}
use onsheet_backend.Prisma.Example.{in_memory}
use onsheet_backend.Http.{ok, err, forbidden, known_request}
use onsheet_backend.Workbooks.Access.{assert_editor}
use onsheet_backend.Sheets.Service.{
  assert_editor_access, create, update, remove, create_snapshot, restore_snapshot,
}
use onsheet_backend.Sheets.Snapshots.{restore_snapshot-create_snapshot}
use onsheet_backend.Sheets.Snapshots.Filling.{content_of}
use onsheet_backend.Sheets.Indices.{create_collides}
use onsheet_backend.Cells.Service.{upsert, clear, ws, find_cell}
use onsheet_backend.Cells.Bulk.{bulk_upsert}
use onsheet_backend.Cells.Guarding.{writes_denied}
use onsheet_backend.Tests.Office.{office, first_cell, rows_of, write_of}

-- the workbook after the removal of its first sheet
abbrev gap : Db in_memory
gap = record office {
  sheets = rows_of (record { id = "s"; workbook_id = "w"; name = "Sheet2"; index = 1 } ∷ []) "s2";
}

create_collides_example : create ⦃p = in_memory⦄ "w" "cid" none gap ≡ (err known_request, gap)
unfolding assert_editor
create_collides_example =
    create_collides ⦃p = in_memory⦄ gap "w" "cid" "s" none
      (record { id = "s"; workbook_id = "w"; name = "Sheet2"; index = 1 }) refl refl refl refl refl

writes_denied_example :
    let e = forbidden "Editor access required" in
    (upsert ⦃p = in_memory⦄ "s" "bob" (write_of 2 3 (some "x") none) ws office ≡ (err e, office))
    × (bulk_upsert ⦃p = in_memory⦄ "s" "bob" (write_of 2 3 (some "x") none ∷ []) office
        ≡ (err e, office))
    × (clear ⦃p = in_memory⦄ "s" 2 3 "bob" office ≡ (err e, office))
    × (update ⦃p = in_memory⦄ "s" "bob" (some "mine") none office ≡ (err e, office))
    × (remove ⦃p = in_memory⦄ "s" "bob" office ≡ (err e, office))
    × (create_snapshot ⦃p = in_memory⦄ "s" "bob" (some "mine") office ≡ (err e, office))
    × (restore_snapshot ⦃p = in_memory⦄ "s" "n" "bob" office ≡ (err e, office))
unfolding assert_editor_access assert_editor
writes_denied_example =
    writes_denied ⦃p = in_memory⦄ office "s" "bob" (forbidden "Editor access required")
      (write_of 2 3 (some "x") none) ws (write_of 2 3 (some "x") none ∷ []) 2 3 (some "mine") none
      "n" refl

-- the snapshot of the sheet of `office`
abbrev saved : SheetSnapshot
saved = record {
  id = "n";
  sheet_id = "s";
  name = "Autosave";
  cells = first_cell ∷ [];
  created_at = 100;
  created_by = "ann";
}

-- after the snapshot its only cell is cleared
abbrev cleared : Db in_memory
cleared = record office { snapshots = rows_of (saved ∷ []) "n2"; cells = rows_of [] "c2" }

restore_snapshot-create_snapshot_example :
    ((restore_snapshot ⦃p = in_memory⦄ "s" "n" "cid" cleared).0 ≡ ok "n")
    × ((row col : ℕ)
        → content_of (
            find_cell ⦃p = in_memory⦄
              (restore_snapshot ⦃p = in_memory⦄ "s" "n" "cid" cleared).1
              "s"
              row
              col)
          ≡ content_of (find_cell ⦃p = in_memory⦄ office "s" row col))
unfolding create_snapshot assert_editor_access assert_editor
restore_snapshot-create_snapshot_example =
    restore_snapshot-create_snapshot ⦃p = in_memory⦄ "s" office cleared "ann" "cid" none saved refl
      refl refl
