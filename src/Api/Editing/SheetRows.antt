-- ===== src/Api/Editing/SheetRows.antt =====
-- Who can change the row of a sheet through the HTTP interface.
use onsheet_backend.Base.{
  String, false, Option, none, some, ◌==◌, string_eq, ◌≡◌, ◌≢◌, refl, arith, ap, eq_iff, Bool-cases,
  inl, inr,
}
use onsheet_backend.Prisma.{Prisma, Db, Workbook, Sheet}
use onsheet_backend.Prisma.Table.Keeping.{find-create_kept, find-update_apart, find-delete_apart}
use onsheet_backend.Http.{Exception, err}
use onsheet_backend.Http.Actions.{commit}
use onsheet_backend.Users
use onsheet_backend.Users.{cascade_user}
use onsheet_backend.Workbooks.Access.{find_workbook, assert_editor, assert_owner}
use onsheet_backend.Workbooks.Service
use onsheet_backend.Workbooks.Service.{set_defined}
use onsheet_backend.Sheets.Service as Sheeting
use onsheet_backend.Sheets.Service.{find_sheet, assert_editor_access, new_sheet, count_sheets}
use onsheet_backend.Api.Ownership.Cascades.{find_sheet-cascade_user, find_sheet-cascade_workbook}
use onsheet_backend.Api.Controllers.Accounts.{
  Server, Draws, UsersRoute, delete_me, users_controller,
}
use onsheet_backend.Api.Controllers.Workbooks
use onsheet_backend.Api.Controllers.Workbooks.{WorkbooksRoute, workbooks_controller}
use onsheet_backend.Api.Controllers.Sheets
use onsheet_backend.Api.Controllers.Sheets.{SheetsRoute, sheets_controller}
use onsheet_backend.Api.Editing.{denied_sheet, not_owner}

module _ ⦃p : Prisma⦄ (db : Db p) (sid : String) (sh : Sheet) (wb : Workbook)
    (stored : find_sheet db sid ≡ some sh) (found : find_workbook db sh.workbook_id ≡ some wb)
    (id : String) (e : Exception) (denied : assert_editor db sh.workbook_id id ≡ err e) where
  -- the sheet's row is as it was
  abbrev Stays : Db p → Type 0
  Stays after = find_sheet after sid ≡ some sh

  apart_owner : wb.owner_id ≢ id
  apart_owner = not_owner db sid sh wb stored found id e denied 0 0

  refused : assert_editor_access db sid id ≡ err e
  refused = denied_sheet db sid sh wb stored found id e denied 0 0

  pub users_controller-Stays :
      (s : Server) (d : Draws) (route : UsersRoute) → Stays (users_controller s d route id db).1
  unfolding users_controller Users.remove
  users_controller-Stays s d delete_me =
      elim (p.users.delete db.users id)
        as (λ o. Stays (commit (λ t. cascade_user id (record db { users = t })) o db).1) [
          | none ↦ stored
          | some (t, u) ↦
              find_sheet-cascade_user id sh.workbook_id wb (record db { users = t }) found
                apart_owner sid sh stored refl
        ]
  users_controller-Stays s d route = ground (arith, stored)

  pub workbooks_controller-Stays :
      (route : WorkbooksRoute) (uuid : String) → Stays (workbooks_controller route id uuid db).1
  unfolding workbooks_controller Service.create Service.update Service.remove
      Service.set_public_access assert_owner
  workbooks_controller-Stays (Workbooks.create name) uuid =
      created
        (p.workbooks.create db.workbooks (λ z. record {
          id = z.id;
          name = name;
          owner_id = id;
          share_token = some z.token;
          public_access = false;
          created_at = z.now;
        }))
        refl
    where
      created :
          (o : Option (p.workbooks.T × Workbook))
          → p.workbooks.create db.workbooks (λ z. record {
            id = z.id;
            name = name;
            owner_id = id;
            share_token = some z.token;
            public_access = false;
            created_at = z.now;
          })
            ≡ o
          → Stays (workbooks_controller (Workbooks.create name) id uuid db).1
      created none h = ground (arith, stored, h)
      created (some (t, w)) h = ground (
        arith,
        stored,
        h,
        find-create_kept p.sheets p.sheets-IsLawful db.sheets
            (λ z. record { id = z.id; workbook_id = w.id; name = "Sheet1"; index = 0 }) sid sh
            stored,
      )
  workbooks_controller-Stays (Workbooks.remove wid) uuid =
      elim (Bool-cases (wid == sh.workbook_id)) [
        | inl same ↦
            ground
              (arith, stored, eq_iff wid sh.workbook_id, eq_iff wb.owner_id id, apart_owner, found)
        | inr apart ↦ ground (
          arith,
          stored,
          find_sheet-cascade_workbook wid sh.workbook_id
              (λ x. ground (arith, (eq_iff wid sh.workbook_id).1 x)) db sid sh stored refl,
        )
      ]
  workbooks_controller-Stays route uuid = ground (arith, stored)

  pub sheets_controller-Stays : (route : SheetsRoute) → Stays (sheets_controller route id db).1
  unfolding sheets_controller Sheeting.update Sheeting.create Sheeting.remove
  sheets_controller-Stays (Sheets.create wid name) = ground (
    arith,
    stored,
    find-create_kept p.sheets p.sheets-IsLawful db.sheets (new_sheet wid name (count_sheets db wid))
        sid sh stored,
  )
  sheets_controller-Stays (Sheets.update j name index) = elim (Bool-cases (j == sid)) [
    | inl same ↦
        ground
          (arith, stored, refused, ap (λ x. assert_editor_access db x id) ((eq_iff j sid).0 same))
    | inr apart ↦ ground (
      arith,
      stored,
      find-update_apart p.sheets p.sheets-IsLawful db.sheets j sid apart
          (λ s. record s { name = set_defined name s.name; index = set_defined index s.index })
          (λ r. refl),
    )
  ]
  sheets_controller-Stays (Sheets.remove j) = elim (Bool-cases (j == sid)) [
    | inl same ↦
        ground
          (arith, stored, refused, ap (λ x. assert_editor_access db x id) ((eq_iff j sid).0 same))
    | inr apart ↦
        ground (arith, stored, find-delete_apart p.sheets p.sheets-IsLawful db.sheets j sid apart)
  ]
  sheets_controller-Stays route = ground (arith, stored)
