-- ===== src/Api/Editing.antt =====
-- Who can change the cells of a sheet through the HTTP interface.
pub mod Routes
pub mod SheetRows
use onsheet_backend.Base.{
  ℕ, String, Bool, true, false, Option, none, some, List, [], ◌∷◌, ◌==◌, string_eq, ◌≡◌, ◌≢◌, refl,
  arith, ap, sym, subst, ◌∙◌, eq_iff, Bool-cases, inl, inr, if◌then◌else◌,
}
use onsheet_backend.Prisma.{Prisma, Db, Workbook, Sheet}
use onsheet_backend.Http.{Exception, Result, ok, err}
use onsheet_backend.Http.Actions.{commit}
use onsheet_backend.Auth.{SafeUser}
use onsheet_backend.Users
use onsheet_backend.Users.{cascade_user}
use onsheet_backend.Workbooks.Access.{find_workbook, assert_editor, assert_owner}
use onsheet_backend.Workbooks.Service
use onsheet_backend.Sheets.Service.{find_sheet, assert_editor_access, remove, restore_snapshot}
use onsheet_backend.Cells.Service.{find_cell, UpdateCellDto, http, upsert, clear}
use onsheet_backend.Cells.Bulk.{bulk_upsert}
use onsheet_backend.Cells.Guarding.{writes_denied}
use onsheet_backend.Cells.Elsewhere.{
  find_cell-upsert_elsewhere, find_cell-bulk_upsert_elsewhere, find_cell-clear_elsewhere,
  find_cell-restore_elsewhere, find_cell-remove_elsewhere,
}
use onsheet_backend.Api.Ownership.Cascades.{find_cell-cascade_user, find_cell-cascade_workbook}
use onsheet_backend.Api.Controllers.Accounts.{
  Server, Draws, AuthRoute, UsersRoute, delete_me, auth_controller, users_controller,
}
use onsheet_backend.Api.Controllers.Workbooks
use onsheet_backend.Api.Controllers.Workbooks.{
  WorkbooksRoute, PermissionsRoute, workbooks_controller, permissions_controller,
}
use onsheet_backend.Api.Controllers.Sheets
use onsheet_backend.Api.Controllers.Sheets.{SheetsRoute, sheets_controller}
use onsheet_backend.Api.Controllers.Cells
use onsheet_backend.Api.Controllers.Cells.{CellsRoute, cells_controller, public_cells_controller}

module _ ⦃p : Prisma⦄ (db : Db p) (sid : String) (sh : Sheet) (wb : Workbook)
    (stored : find_sheet db sid ≡ some sh) (found : find_workbook db sh.workbook_id ≡ some wb)
    (id : String) (e : Exception) (denied : assert_editor db sh.workbook_id id ≡ err e)
    (row col : ℕ) where
  -- the request of no operation
  abbrev dummy : UpdateCellDto
  dummy = record {
    row = 0;
    col = 0;
    raw_value = none;
    computed = none;
    formatted = none;
    style = none;
    base_version = none;
  }

  -- the cell is as it was
  abbrev pub Same : Db p → Type 0
  Same after = find_cell after sid row col ≡ find_cell db sid row col

  pub denied_sheet : assert_editor_access db sid id ≡ err e
  unfolding assert_editor_access
  denied_sheet = ground (arith, stored, denied)

  pub not_owner : wb.owner_id ≢ id
  unfolding assert_editor
  not_owner same = ground (arith, found, denied, eq_iff wb.owner_id id)

  pub users_controller-Same :
      (s : Server) (d : Draws) (route : UsersRoute) → Same (users_controller s d route id db).1
  unfolding users_controller Users.remove
  users_controller-Same s d delete_me =
      elim (p.users.delete db.users id)
        as (λ o. Same (commit (λ t. cascade_user id (record db { users = t })) o db).1) [
          | none ↦ refl
          | some (t, u) ↦
              find_cell-cascade_user id sh.workbook_id wb (record db { users = t }) found not_owner
                sid sh row col stored refl
        ]
  users_controller-Same s d route = ground arith

  pub workbooks_controller-Same :
      (route : WorkbooksRoute) (uuid : String) → Same (workbooks_controller route id uuid db).1
  unfolding workbooks_controller Service.create Service.update Service.remove
      Service.set_public_access assert_owner
  workbooks_controller-Same (Workbooks.remove wid) uuid =
      elim (Bool-cases (wid == sh.workbook_id)) [
        | inl same ↦
            ground (arith, eq_iff wid sh.workbook_id, eq_iff wb.owner_id id, not_owner, found)
        | inr apart ↦ ground (
          arith,
          find_cell-cascade_workbook wid sh.workbook_id
              (λ x. ground (arith, (eq_iff wid sh.workbook_id).1 x)) db sid sh stored refl row col,
        )
      ]
  workbooks_controller-Same route uuid = ground arith

  pub permissions_controller-Same :
      (route : PermissionsRoute) → Same (permissions_controller route id db).1
  unfolding permissions_controller
  permissions_controller-Same route = ground arith

  -- An operation on the sheet itself is refused, and one on another leaves the cells of this one.
  pub here_or_elsewhere :
      (j : String) (after : Db p)
      → (assert_editor_access db j id ≡ err e → after ≡ db)
      → ((j == sid) ≡ false → Same after)
      → Same after
  here_or_elsewhere j after refused elsewhere = elim (Bool-cases (j == sid)) [
    | inl same ↦
        ap (λ x. find_cell x sid row col)
          (refused (ap (λ x. assert_editor_access db x id) ((eq_iff j sid).0 same) ∙ denied_sheet))
    | inr apart ↦ elsewhere apart
  ]

  pub sheets_controller-Same : (route : SheetsRoute) → Same (sheets_controller route id db).1
  unfolding sheets_controller
  sheets_controller-Same (Sheets.remove j) = ground (
    arith,
    here_or_elsewhere j (remove j id db).1
        (λ h. ap (λ x. x.1) (writes_denied db j id e dummy http [] row col none none "" h).4)
        (λ apart. find_cell-remove_elsewhere j sid apart row col id db),
  )
  sheets_controller-Same (Sheets.restore_snapshot j snapshot_id) =
      here_or_elsewhere j (restore_snapshot j snapshot_id id db).1
        (λ h.
          ap (λ x. x.1) (writes_denied db j id e dummy http [] row col none none snapshot_id h).6)
        (λ apart. find_cell-restore_elsewhere j sid apart row col snapshot_id id db)
  sheets_controller-Same route = ground arith

  pub cells_controller-Same :
      (route : CellsRoute) (j : String) → Same (cells_controller route j id db).1
  unfolding cells_controller
  cells_controller-Same (Cells.upsert dto) j =
      here_or_elsewhere j (upsert j id dto http db).1
        (λ h. ap (λ x. x.1) (writes_denied db j id e dto http [] row col none none "" h).0)
        (λ apart. find_cell-upsert_elsewhere j sid apart row col id dto http db)
  cells_controller-Same (Cells.bulk_upsert cells) j =
      here_or_elsewhere j (bulk_upsert j id cells db).1
        (λ h. ap (λ x. x.1) (writes_denied db j id e dummy http cells row col none none "" h).1)
        (λ apart. find_cell-bulk_upsert_elsewhere j sid apart row col id cells db)
  cells_controller-Same (Cells.clear r c) j =
      here_or_elsewhere j (clear j r c id db).1
        (λ h. ap (λ x. x.1) (writes_denied db j id e dummy http [] r c none none "" h).2)
        (λ apart. find_cell-clear_elsewhere j sid apart row col r c id db)
  cells_controller-Same route j = ground arith
