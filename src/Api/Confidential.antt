-- ===== src/Api/Confidential.antt =====
-- Who reads a sheet through the HTTP interface: who may open its workbook, or anybody where the
-- workbook is public.
use onsheet_backend.Base.{
  String, Bool, true, false, Option, none, some, ◌==◌, string_eq, ◌≡◌, arith, eq_iff, if◌then◌else◌,
}
use onsheet_backend.Prisma.{Prisma, Db, Sheet, Workbook}
use onsheet_backend.Http.{Exception, ok, err, forbidden, not_found}
use onsheet_backend.Auth.{SafeUser}
use onsheet_backend.Permissions
use onsheet_backend.Workbooks.Access
use onsheet_backend.Workbooks.Access.{find_workbook}
use onsheet_backend.Workbooks.Service as WorkbooksService
use onsheet_backend.Sheets.Service
use onsheet_backend.Sheets.Service.{find_sheet}
use onsheet_backend.Cells.Service as CellsService
use onsheet_backend.Api.Answers.{filter_exception}
use onsheet_backend.Api.Controllers.Accounts.{Server, Draws}
use onsheet_backend.Api.Controllers.Workbooks
use onsheet_backend.Api.Controllers.Workbooks.{workbooks_controller, permissions_controller}
use onsheet_backend.Api.Controllers.Sheets
use onsheet_backend.Api.Controllers.Sheets.{sheets_controller}
use onsheet_backend.Api.Controllers.Cells
use onsheet_backend.Api.Controllers.Cells.{cells_controller, public_cells_controller}
use onsheet_backend.Api.Validation.{
  Validator, valid_cells, valid_sheets, valid_workbooks, valid_permissions,
}
use onsheet_backend.Api.{
  sheets, cells, workbooks, permissions, public_cells, Route, call, Request, user_of, some_user,
  own_guard, can_activate, handle, serve, is_valid, is_public,
}

abbrev refused_if : Bool → Exception → Option Exception
refused_if names e = if names then some e else none

-- The answer to a request for what is in a sheet or in its workbook, from a user without access to
-- the workbook, which is not public; `none` for every route that does not name one of the two in
-- order to read it.
abbrev pub refusal : String → String → Route → Option Exception
refusal sid wid (sheets (Sheets.find_one id)) = refused_if (id == sid) (forbidden "Access denied")
refusal sid wid (sheets (Sheets.list_snapshots id)) =
    refused_if (id == sid) (forbidden "Access denied")
refusal sid wid (sheets (Sheets.find_all id)) = refused_if (id == wid) (forbidden "Access denied")
refusal sid wid (cells id Cells.find_all) = refused_if (id == sid) (forbidden "Access denied")
refusal sid wid (cells id Cells.list_comments) = refused_if (id == sid) (forbidden "Access denied")
refusal sid wid (public_cells token id) =
    refused_if (id == sid) (not_found "Sheet not found or not public")
refusal sid wid (workbooks (Workbooks.find_one id)) =
    refused_if (id == wid) (forbidden "Access denied")
refusal sid wid (workbooks (Workbooks.get_share_info id)) =
    refused_if (id == wid) (forbidden "Access denied")
refusal sid wid (permissions (Workbooks.list_permissions id)) =
    refused_if (id == wid) (forbidden "Only the owner can manage permissions")
refusal sid wid _ = none

module _ (s : Server) (v : Validator) (d : Draws) ⦃p : Prisma⦄ (db : Db p) (sid : String)
    (sh : Sheet) (wb : Workbook) (stored : find_sheet db sid ≡ some sh)
    (found : find_workbook db sh.workbook_id ≡ some wb) (closed : wb.public_access ≡ false)
    (u : SafeUser)
    (denied : Access.find_one db sh.workbook_id u.id ≡ err (forbidden "Access denied")) where
  denied_sheet :
      (id : String)
      → (id == sid) ≡ true
      → Service.find_one db id u.id ≡ err (forbidden "Access denied")
  unfolding Service.find_one
  denied_sheet id same = ground (arith, stored, denied, eq_iff id sid, same)

  denied_workbook :
      (id : String)
      → (id == sh.workbook_id) ≡ true
      → Access.find_one db id u.id ≡ err (forbidden "Access denied")
  denied_workbook id same = ground (arith, denied, eq_iff id sh.workbook_id, same)

  -- the user whom the guards find, who is nobody on a public route
  abbrev guarded_user : Route → Option SafeUser
  guarded_user route = if is_public route then none else some u

  call-denied :
      (route : Route) (e : Exception)
      → refusal sid sh.workbook_id route ≡ some e
      → call s v d route (guarded_user route) db ≡ (err e, db)
  unfolding call sheets_controller cells_controller workbooks_controller permissions_controller
      public_cells_controller Service.list_snapshots Service.find_all CellsService.find_all
      CellsService.list_comments CellsService.find_public_cells WorkbooksService.get_share_info
      Access.assert_access Access.find_one Permissions.find_all Access.assert_owner
  call-denied (sheets (Sheets.find_one id)) e h = ground (arith, h, denied_sheet id)
  call-denied (sheets (Sheets.list_snapshots id)) e h = ground (arith, h, denied_sheet id)
  call-denied (sheets (Sheets.find_all id)) e h = ground (arith, h, denied_workbook id)
  call-denied (cells id Cells.find_all) e h = ground (arith, h, denied_sheet id)
  call-denied (cells id Cells.list_comments) e h = ground (arith, h, denied_sheet id)
  call-denied (workbooks (Workbooks.find_one id)) e h = ground (arith, h, denied_workbook id)
  call-denied (workbooks (Workbooks.get_share_info id)) e h =
      ground (arith, h, found, denied, eq_iff id sh.workbook_id)
  call-denied (permissions (Workbooks.list_permissions id)) e h =
      ground (arith, h, found, denied, eq_iff id sh.workbook_id)
  call-denied (public_cells token id) e h = ground (arith, h, stored, found, closed, eq_iff id sid)
  call-denied route e h = ground (arith, h)

  valid_read :
      (route : Route) (e : Exception)
      → refusal sid sh.workbook_id route ≡ some e
      → is_valid v route ≡ true
  unfolding is_valid valid_sheets valid_cells valid_workbooks valid_permissions
  valid_read route e h = ground (arith, h)

  guards_lem :
      (r : Request) (route : Route) (e : Exception)
      → user_of s v d r db ≡ ok u
      → refusal sid sh.workbook_id route ≡ some e
      → (if is_public route
          then own_guard s v d r route db
          else some_user s v d (user_of s v d r db))
        ≡ ok (guarded_user route)
  guards_lem r route e sent h = ground (arith, sent, h)

  -- A user whom `findOne` of the workbooks service turns away from a workbook that is not public,
  -- and who asks for one of its sheets, the sheet's cells, comments or snapshots, or for the
  -- workbook, its sheets, its share token or its collaborators, by any of the nine GET routes that
  -- name the sheet or the workbook, the anonymous one with any share token included, is answered
  -- with an exception, as the filter shows it: `NotFoundException` on the anonymous route, and else
  -- `ForbiddenException`. Nothing changes.
  pub serve-reads :
      (r : Request) (e : Exception)
      → user_of s v d r db ≡ ok u
      → refusal sid sh.workbook_id r.route ≡ some e
      → serve s v d r db ≡ (filter_exception d.now r.url e, db)
  unfolding serve handle can_activate
  serve-reads r e sent h =
      ground (arith, guards_lem r r.route e sent h, valid_read r.route e h, call-denied r.route e h)
