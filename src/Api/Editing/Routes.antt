-- ===== src/Api/Editing/Routes.antt =====
-- What a request does to the cells of a sheet that its sender may not edit.
use onsheet_backend.Base.{
  ℕ, String, true, Option, some, ◌≡◌, refl, arith, subst, sym, Bool-cases, inl, inr,
}
use onsheet_backend.Prisma.{Prisma, Db, Workbook, Sheet}
use onsheet_backend.Http.{Exception, ok, err}
use onsheet_backend.Auth.{SafeUser}
use onsheet_backend.Workbooks.Access.{find_workbook, assert_editor}
use onsheet_backend.Sheets.Service.{find_sheet}
use onsheet_backend.Cells.Service.{find_cell}
use onsheet_backend.Api.Controllers.Accounts.{Server, Draws, auth_controller}
use onsheet_backend.Api.Controllers.Workbooks.{workbooks_controller}
use onsheet_backend.Api.Controllers.Cells.{public_cells_controller}
use onsheet_backend.Api.Validation.{Validator}
use onsheet_backend.Api.Editing.{
  users_controller-Same, workbooks_controller-Same, permissions_controller-Same,
  sheets_controller-Same, cells_controller-Same,
}
use onsheet_backend.Api.Guarding.{serve-holds, can_activate-user}
use onsheet_backend.Api.{
  auth, users, workbooks, permissions, sheets, cells, public_cells, health, Route, call, Request,
  user_of, can_activate, serve, is_public,
}

module _ (s : Server) (v : Validator) (d : Draws) ⦃p : Prisma⦄ (db : Db p) (sid : String)
    (sh : Sheet) (wb : Workbook) (stored : find_sheet db sid ≡ some sh)
    (found : find_workbook db sh.workbook_id ≡ some wb) (row col : ℕ) where
  abbrev IsSame : Db p → Type 0
  IsSame after = find_cell after sid row col ≡ find_cell db sid row col

  call-IsSame :
      (route : Route) (u : SafeUser) (e : Exception)
      → assert_editor db sh.workbook_id u.id ≡ err e
      → IsSame (call s v d route (some u) db).1
  unfolding call auth_controller workbooks_controller public_cells_controller
  call-IsSame (auth route) u e denied = ground arith
  call-IsSame (users route) u e denied =
      users_controller-Same db sid sh wb stored found u.id e denied row col s d route
  call-IsSame (workbooks route) u e denied = ground (
    arith,
    workbooks_controller-Same db sid sh wb stored found u.id e denied row col route d.uuid,
  )
  call-IsSame (permissions route) u e denied =
      permissions_controller-Same db sid sh wb stored found u.id e denied row col route
  call-IsSame (sheets route) u e denied =
      sheets_controller-Same db sid sh wb stored found u.id e denied row col route
  call-IsSame (cells j route) u e denied =
      cells_controller-Same db sid sh wb stored found u.id e denied row col route j
  call-IsSame (public_cells token j) u e denied = ground arith
  call-IsSame health u e denied = refl

  call-IsSame_public :
      (route : Route) (user : Option SafeUser)
      → is_public route ≡ true
      → IsSame (call s v d route user db).1
  unfolding call auth_controller workbooks_controller public_cells_controller
  call-IsSame_public route user is_open = ground arith

  module _ (r : Request)
      (denied : (u : SafeUser)
        → user_of s v d r db ≡ ok u
        → (e : Exception) × (assert_editor db sh.workbook_id u.id ≡ err e)) where
    called_lem :
        (user : Option SafeUser)
        → can_activate s v d r db ≡ ok user
        → IsSame (call s v d r.route user db).1
    called_lem user h = elim (Bool-cases (is_public r.route)) [
      | inl is_open ↦ call-IsSame_public r.route user is_open
      | inr closed ↦
          let (u, is_user, sent) = can_activate-user s v d db r user closed h in
          let (e, refused) = denied u sent in
          subst (λ x. IsSame (call s v d r.route x db).1) (sym is_user)
            (call-IsSame r.route u e refused)
    ]

    -- No request to a route of `Route`, which the agent's are not among, changes a cell of a sheet
    -- if `assertEditor` refuses, for the sheet's workbook, the user that the request's access token
    -- names, if any: whatever the route, its parameters and the answer are.
    pub serve-find_cell : find_cell (serve s v d r db).1 sid row col ≡ find_cell db sid row col
    serve-find_cell = serve-holds s v d db r IsSame refl called_lem
