-- ===== src/Sheets/Service.antt =====
-- The operations of src/modules/sheets/sheets.service.ts.
use Prim.Native.String.{◌++◌ as append}
use onsheet_backend.Base.{
  ℕ, ◌+◌, String, Option, none, some, List, [], ◌∷◌, ◌==◌, string_eq, map, length, keep,
}
use onsheet_backend.Base.Decimal.{decimal}
use onsheet_backend.Prisma.{Prisma, Db, Stamp, Sheet, Cell, SheetSnapshot, desc, User}
use onsheet_backend.Prisma.Cascade.{cascade_sheets, delete_cells}
use onsheet_backend.Http.{Result, ok, err, not_found, known_request, require}
use onsheet_backend.Http.Checks
use onsheet_backend.Http.Actions.{Action, pure, check, commit, ◌>>=◌, ◌>>◌}
use onsheet_backend.Workbooks.Access
use onsheet_backend.Workbooks.Access.{assert_editor, WorkbookView}
use onsheet_backend.Workbooks.Service.{set_defined}

abbrev pub default_to : Option String → String → String
default_to none d = d
default_to (some s) d = s

pub record SheetRemoved : Type 0 where
  pub sheet_id : String
  pub workbook_id : Option String

-- `restoreSnapshot`'s rows: the saved contents at version 1, under new ids
abbrev pub restored_cell : String → Cell → Stamp → Cell
restored_cell sheet_id c z = record c { id = z.id; sheet_id = sheet_id; version = 1 }

module _ ⦃p : Prisma⦄ where
  abbrev pub find_sheet : Db p → String → Option Sheet
  find_sheet db id = p.sheets.find_unique db.sheets id

  unfoldable pub find_all : Db p → String → String → Result (List Sheet)
  find_all db workbook_id user_id =
      Checks.◌>>=◌ (Access.find_one db workbook_id user_id)
        (λ _. ok (Access.sheets_of db workbook_id))

  unfoldable pub find_one : Db p → String → String → Result Sheet
  find_one db id user_id =
      Checks.◌>>=◌ (require (not_found "Sheet not found") (find_sheet db id))
        (λ sheet. Checks.◌>>=◌ (Access.find_one db sheet.workbook_id user_id) (λ _. ok sheet))

  unfoldable pub assert_editor_access : Db p → String → String → Result (Unit {0})
  assert_editor_access db sheet_id user_id =
      Checks.◌>>=◌ (require (not_found "Sheet not found") (find_sheet db sheet_id))
        (λ sheet. assert_editor db sheet.workbook_id user_id)

  -- `sheet.count({ where: { workbookId } })`
  abbrev pub count_sheets : Db p → String → ℕ
  count_sheets db workbook_id =
      length (p.sheets.find_many db.sheets (λ s. s.workbook_id == workbook_id))

  abbrev pub new_sheet : String → Option String → ℕ → Stamp → Sheet
  new_sheet workbook_id name count z = record {
    id = z.id;
    workbook_id = workbook_id;
    name = default_to name (append "Sheet" (decimal (count + 1)));
    index = count;
  }

  unfoldable pub create : String → String → Option String → Action (Db p) Sheet
  create workbook_id user_id name = do
    check (λ db. assert_editor db workbook_id user_id)
    db ← (λ db. (ok db, db))
    commit (λ t. record db { sheets = t })
        (p.sheets.create db.sheets (new_sheet workbook_id name (count_sheets db workbook_id)))

  unfoldable pub update : String → String → Option String → Option ℕ → Action (Db p) Sheet
  update id user_id name index = do
    check (λ db. assert_editor_access db id user_id)
    db ← (λ db. (ok db, db))
    commit (λ t. record db { sheets = t })
        (p.sheets.update db.sheets id
          (λ s. record s { name = set_defined name s.name; index = set_defined index s.index }))

  abbrev workbook_of : Option Sheet → Option String
  workbook_of none = none
  workbook_of (some s) = some s.workbook_id

  unfoldable pub remove : String → String → Action (Db p) SheetRemoved
  remove id user_id = do
    check (λ db. assert_editor_access db id user_id)
    db ← (λ db. (ok db, db))
    gone ← commit (λ t. record db { sheets = t }) (p.sheets.delete db.sheets id)
    cascade ← (λ after. (ok tt, cascade_sheets (gone ∷ []) after))
    pure (record { sheet_id = id; workbook_id = workbook_of (find_sheet db id) })

  abbrev pub cells_of : Db p → String → List Cell
  cells_of db sheet_id = p.cells.find_many db.cells (λ c. c.sheet_id == sheet_id)

  unfoldable pub create_snapshot : String → String → Option String → Action (Db p) SheetSnapshot
  create_snapshot sheet_id user_id name = do
    check (λ db. assert_editor_access db sheet_id user_id)
    db ← (λ db. (ok db, db))
    commit (λ t. record db { snapshots = t })
        (p.snapshots.create db.snapshots (λ z. record {
          id = z.id;
          sheet_id = sheet_id;
          name = default_to name "Autosave";
          cells = cells_of db sheet_id;
          created_at = z.now;
          created_by = user_id;
        }))

  -- `include: { user }`: a snapshot with its author's row
  unfoldable pub list_snapshots :
      Db p → String → String → Result (List (SheetSnapshot × Option User))
  list_snapshots db sheet_id user_id = Checks.◌>>=◌ (find_one db sheet_id user_id) (λ _. ok (
      map (λ x. (x, p.users.find_unique db.users x.created_by))
        (p.snapshots.order_by desc (λ x. x.created_at)
          (p.snapshots.find_many db.snapshots (λ x. x.sheet_id == sheet_id)))))

  -- `findFirst({ where: { id, sheetId } })`
  abbrev pub find_snapshot : Db p → String → String → Option SheetSnapshot
  find_snapshot db sheet_id id =
      keep (λ x. x.sheet_id == sheet_id) (p.snapshots.find_unique db.snapshots id)

  -- `$transaction`: if the insertion fails the deletion is undone
  abbrev pub wipe_and_fill : String → SheetSnapshot → Action (Db p) (Unit {0})
  wipe_and_fill sheet_id snapshot db =
      let wiped = delete_cells (λ c. c.sheet_id == sheet_id) db in
      filled wiped (p.cells.create_many wiped.cells (map (restored_cell sheet_id) snapshot.cells))
        db
    where
      filled : Db p → Option p.cells.T → Action (Db p) (Unit {0})
      filled wiped none db = (err known_request, db)
      filled wiped (some t) db = (ok tt, record wiped { cells = t })

  unfoldable pub restore_snapshot : String → String → String → Action (Db p) String
  restore_snapshot sheet_id snapshot_id user_id = do
    check (λ db. assert_editor_access db sheet_id user_id)
    snapshot ←
        check
          (λ db. require (not_found "Snapshot not found") (find_snapshot db sheet_id snapshot_id))
    wipe_and_fill sheet_id snapshot
    pure snapshot_id
