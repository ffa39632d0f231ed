-- ===== src/Api/Outsiders.antt =====
-- What the requests of users who may not edit a workbook do to one of its sheets.
use onsheet_backend.Base.{
  ℕ, String, true, Option, some, ◌≡◌, ◌≢◌, arith, ap, subst, sym, ◌∙◌, ◌==◌, string_eq, eq_iff,
  Bool-cases, inl, inr, ◌↔◌,
}
use onsheet_backend.Prisma.{Prisma, Db, Workbook, Sheet, Cell}
use onsheet_backend.Http.{Exception, ok, err, forbidden}
use onsheet_backend.Auth.{SafeUser}
use onsheet_backend.Workbooks.Access.{find_workbook, assert_editor}
use onsheet_backend.Workbooks.Roles.{checks_by_standing, standing}
use onsheet_backend.Sheets.Service.{find_sheet}
use onsheet_backend.Cells.Service.{find_cell}
use onsheet_backend.Api.Controllers.Accounts.{
  Server, Draws, UsersRoute, auth_controller, users_controller,
}
use onsheet_backend.Api.Controllers.Workbooks.{
  WorkbooksRoute, find_public, workbooks_controller, permissions_controller,
}
use onsheet_backend.Api.Controllers.Cells.{cells_controller, public_cells_controller}
use onsheet_backend.Api.Validation.{Validator}
use onsheet_backend.Api.Ownership.Rows.{
  KeepsTables, auth_controller-KeepsTables, sheets_controller-KeepsGrants,
  cells_controller-KeepsTables, find_workbook-users_controller, find_workbook-workbooks_controller,
}
use onsheet_backend.Api.Ownership.Grants.{
  find_permission, lacks_editor_role, find_permission-users_controller,
  find_permission-users_controller_self, find_permission-workbooks_controller,
  find_permission-permissions_controller,
}
use onsheet_backend.Api.Editing.{
  users_controller-Same, workbooks_controller-Same, sheets_controller-Same, cells_controller-Same,
}
use onsheet_backend.Api.Editing.SheetRows.{
  users_controller-Stays, workbooks_controller-Stays, sheets_controller-Stays,
}
use onsheet_backend.Api.Guarding.{serve-holds, can_activate-user}
use onsheet_backend.Api.{
  permissions_controller, auth, users, workbooks, permissions, sheets, cells, public_cells, health,
  Route, call, Request, user_of, can_activate, serve, is_public,
}

-- what `assertEditor` throws
abbrev pub turned_away : Exception
turned_away = forbidden "Editor access required"

-- `assertEditor` turns away exactly those who neither own the workbook nor have a grant of EDITOR.
pub denied_iff :
    ⦃p : Prisma⦄ (db : Db p) (wid x : String) (wb : Workbook)
    → find_workbook db wid ≡ some wb
    → (assert_editor db wid x ≡ err turned_away)
      ↔ ((wb.owner_id ≢ x) × (lacks_editor_role (find_permission db wid x) ≡ true))
unfolding standing
denied_iff db wid x wb found =
    let verdict = (checks_by_standing "" db wid x).1 in
    (
      λ denied. (
        λ same. ground (arith, verdict, found, denied, (eq_iff wb.owner_id x).1 same),
        ground (arith, verdict, found, denied),
      ),
      λ shut. ground (arith, verdict, found, shut.0, shut.1, (eq_iff wb.owner_id x).0),
    )

-- A sheet of a workbook, and users who may not edit it.
module _ ⦃p : Prisma⦄ (sid : String) (sh : Sheet) (wb : Workbook) (IsOutside : String → Type 0)
    (outside : (x : String) → IsOutside x → wb.owner_id ≢ x) (row col : ℕ)
    (cell : Option Cell) where
  -- The rows of the sheet and its workbook, and one of its cells, are the given ones, and no
  -- outsider has a grant of EDITOR.
  pub record IsShut (db : Db p) : Type 0 where
    pub workbook_kept : find_workbook db sh.workbook_id ≡ some wb
    pub sheet_kept : find_sheet db sid ≡ some sh
    pub cell_kept : find_cell db sid row col ≡ cell
    pub grants_lack :
        (x : String) → IsOutside x → lacks_editor_role (find_permission db sh.workbook_id x) ≡ true

  pub denied_of_outside :
      (db : Db p)
      → IsShut db
      → (x : String) → IsOutside x
      → assert_editor db sh.workbook_id x ≡ err turned_away
  denied_of_outside db h x o =
      (denied_iff db sh.workbook_id x wb h.workbook_kept).1 (outside x o, h.grants_lack x o)

  -- What leaves the three tables alone, and the cell.
  pub IsShut-KeepsTables :
      (db after : Db p)
      → IsShut db
      → KeepsTables db after
      → find_cell after sid row col ≡ find_cell db sid row col
      → IsShut after
  IsShut-KeepsTables db after h k same = record {
    workbook_kept = ground (arith, h.workbook_kept, k.workbooks_kept);
    sheet_kept = ground (arith, h.sheet_kept, k.sheets_kept);
    cell_kept = same ∙ h.cell_kept;
    grants_lack = λ x o.
        ap (λ t. lacks_editor_role (p.permissions.find_unique t (sh.workbook_id, x)))
          k.permissions_kept
        ∙ h.grants_lack x o;
  }

  module _ (s : Server) (v : Validator) (d : Draws) (db : Db p) (h : IsShut db) where
    -- The checks are those before the call, so each controller's lemma is given the refusal.
    module _ (u : SafeUser) (o : IsOutside u.id) where
      abbrev denied : assert_editor db sh.workbook_id u.id ≡ err turned_away
      denied = denied_of_outside db h u.id o

      users_controller-IsShut : (route : UsersRoute) → IsShut (users_controller s d route u.id db).1
      users_controller-IsShut route = record {
        workbook_kept =
            find_workbook-users_controller s d route u.id db sh.workbook_id wb h.workbook_kept
              (outside u.id o);
        sheet_kept =
            users_controller-Stays db sid sh wb h.sheet_kept h.workbook_kept u.id turned_away denied
              s d route;
        cell_kept =
            users_controller-Same db sid sh wb h.sheet_kept h.workbook_kept u.id turned_away denied
              row col s d route
            ∙ h.cell_kept;
        grants_lack = users_lack;
      }
        where
          users_lack :
              (x : String)
              → IsOutside x
              → lacks_editor_role
                  (find_permission (users_controller s d route u.id db).1 sh.workbook_id x)
                ≡ true
          users_lack x ox = elim (Bool-cases (x == u.id)) [
            | inl same ↦
                subst
                  (λ y.
                    lacks_editor_role
                      (find_permission (users_controller s d route u.id db).1 sh.workbook_id y)
                    ≡ true)
                  (sym ((eq_iff x u.id).0 same))
                  (find_permission-users_controller_self u.id sh.workbook_id x wb db h.workbook_kept
                    (outside u.id o) s d route (h.grants_lack u.id o))
            | inr apart ↦
                ap lacks_editor_role (
                  find_permission-users_controller u.id sh.workbook_id x wb db h.workbook_kept
                    (outside u.id o) (λ e. ground (arith, apart, (eq_iff x u.id).1 e)) s d route)
                ∙ h.grants_lack x ox
          ]

      workbooks_controller-IsShut :
          (route : WorkbooksRoute) → IsShut (workbooks_controller route u.id d.uuid db).1
      workbooks_controller-IsShut route = record {
        workbook_kept =
            find_workbook-workbooks_controller route u.id d.uuid db sh.workbook_id wb
              h.workbook_kept (outside u.id o);
        sheet_kept =
            workbooks_controller-Stays db sid sh wb h.sheet_kept h.workbook_kept u.id turned_away
              denied route d.uuid;
        cell_kept =
            workbooks_controller-Same db sid sh wb h.sheet_kept h.workbook_kept u.id turned_away
              denied row col route d.uuid
            ∙ h.cell_kept;
        grants_lack = λ x ox.
            ap lacks_editor_role (
              find_permission-workbooks_controller u.id sh.workbook_id x wb db h.workbook_kept
                (outside u.id o) route d.uuid)
            ∙ h.grants_lack x ox;
      }

      call-IsShut : (route : Route) → IsShut (call s v d route (some u) db).1
      unfolding call auth_controller permissions_controller public_cells_controller
          workbooks_controller
      call-IsShut (auth route) =
          IsShut-KeepsTables db (auth_controller s d route (some u) db).1 h
            (auth_controller-KeepsTables s d route (some u) db) (ground arith)
      call-IsShut (users route) = users_controller-IsShut route
      call-IsShut (workbooks (find_public token)) = h
      call-IsShut (workbooks route) = workbooks_controller-IsShut route
      call-IsShut (permissions route) = record {
        workbook_kept = ground (arith, h.workbook_kept);
        sheet_kept = ground (arith, h.sheet_kept);
        cell_kept = ground (arith, h.cell_kept);
        grants_lack = λ x ox.
            ap lacks_editor_role (
              find_permission-permissions_controller u.id sh.workbook_id x wb db h.workbook_kept
                (outside u.id o) route)
            ∙ h.grants_lack x ox;
      }
      call-IsShut (sheets route) = record {
        workbook_kept =
            ground (
              arith,
              h.workbook_kept,
              (sheets_controller-KeepsGrants route u.id db).workbooks_kept,
            );
        sheet_kept =
            sheets_controller-Stays db sid sh wb h.sheet_kept h.workbook_kept u.id turned_away
              denied route;
        cell_kept =
            sheets_controller-Same db sid sh wb h.sheet_kept h.workbook_kept u.id turned_away denied
              row col route
            ∙ h.cell_kept;
        grants_lack = λ x ox.
            ap (λ t. lacks_editor_role (p.permissions.find_unique t (sh.workbook_id, x)))
              (sheets_controller-KeepsGrants route u.id db).permissions_kept
            ∙ h.grants_lack x ox;
      }
      call-IsShut (cells j route) =
          IsShut-KeepsTables db (cells_controller route j u.id db).1 h
            (cells_controller-KeepsTables route j u.id db)
            (cells_controller-Same db sid sh wb h.sheet_kept h.workbook_kept u.id turned_away denied
              row col route j)
      call-IsShut (public_cells token j) = h
      call-IsShut health = h

    call-IsShut_public :
        (route : Route) (user : Option SafeUser)
        → is_public route ≡ true
        → IsShut (call s v d route user db).1
    unfolding call auth_controller workbooks_controller public_cells_controller
    call-IsShut_public (auth route) user is_open =
        IsShut-KeepsTables db (call s v d (auth route) user db).1 h
          (auth_controller-KeepsTables s d route user db) (ground arith)
    call-IsShut_public (workbooks (find_public token)) user is_open = h
    call-IsShut_public (public_cells token j) user is_open = h
    call-IsShut_public health user is_open = h
    call-IsShut_public route user is_open = absurd (ground arith)

    -- A request that names an outsider, or nobody, leaves it all as it is.
    pub serve-IsShut :
        (r : Request)
        → ((u : SafeUser) → user_of s v d r db ≡ ok u → IsOutside u.id)
        → IsShut (serve s v d r db).1
    serve-IsShut r sender = serve-holds s v d db r IsShut h called_lem
      where
        called_lem :
            (user : Option SafeUser)
            → can_activate s v d r db ≡ ok user
            → IsShut (call s v d r.route user db).1
        called_lem user e = elim (Bool-cases (is_public r.route)) [
          | inl is_open ↦ call-IsShut_public r.route user is_open
          | inr closed ↦
              let (u, is_user, sent) = can_activate-user s v d db r user closed e in
              subst (λ x. IsShut (call s v d r.route x db).1) (sym is_user)
                (call-IsShut u (sender u sent) r.route)
        ]
