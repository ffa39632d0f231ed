-- ===== src/Api/Ownership/Routes.antt =====
-- What a request does to a workbook of another user.
use onsheet_backend.Base.{
  String, true, Option, some, ◌≡◌, ◌≢◌, refl, arith, ap, subst, sym, Bool-cases, inl, inr, ◌∙◌,
}
use onsheet_backend.Prisma.{Prisma, Db, Workbook}
use onsheet_backend.Http.{ok}
use onsheet_backend.Auth.{SafeUser}
use onsheet_backend.Workbooks.Access.{find_workbook}
use onsheet_backend.Workbooks.Roles.{standing, standing_of}
use onsheet_backend.Api.Ownership.Rows.{
  KeepsGrants, grants_kept, auth_controller-KeepsTables, sheets_controller-KeepsGrants,
  cells_controller-KeepsTables, find_workbook-users_controller, find_workbook-workbooks_controller,
}
use onsheet_backend.Api.Ownership.Grants.{
  find_permission, find_permission-users_controller, find_permission-workbooks_controller,
  find_permission-permissions_controller,
}
use onsheet_backend.Api.Controllers.Accounts.{Server, Draws}
use onsheet_backend.Api.Controllers.Workbooks.{workbooks_controller}
use onsheet_backend.Api.Controllers.Cells.{public_cells_controller}
use onsheet_backend.Api.Validation.{Validator}
use onsheet_backend.Api.Guarding.{serve-holds, can_activate-user}
use onsheet_backend.Api.{
  auth, users, workbooks, permissions, sheets, cells, public_cells, health, Route, call, Request,
  user_of, can_activate, serve, is_public,
}

module _ (s : Server) (v : Validator) (d : Draws) ⦃p : Prisma⦄ (db : Db p) (wid : String)
    (wb : Workbook) (found : find_workbook db wid ≡ some wb) where
  -- The row of the workbook, and the grant of `user` on it, are as they were.
  pub record Spared (user : String) (after : Db p) : Type 0 where
    pub workbook_kept : find_workbook after wid ≡ some wb
    pub grant_kept : find_permission after wid user ≡ find_permission db wid user

  Spared-KeepsGrants : (user : String) (after : Db p) → KeepsGrants db after → Spared user after
  Spared-KeepsGrants user after h = ground (arith, h, found)

  Spared-refl : (user : String) → Spared user db
  Spared-refl user = record { workbook_kept = found; grant_kept = refl }

  call-Spared :
      (route : Route) (u : SafeUser) (user : String)
      → wb.owner_id ≢ u.id
      → user ≢ u.id
      → Spared user (call s v d route (some u) db).1
  unfolding call workbooks_controller public_cells_controller
  call-Spared (auth route) u user other stays =
      Spared-KeepsGrants user (call s v d (auth route) (some u) db).1 (
        grants_kept db (call s v d (auth route) (some u) db).1
          (auth_controller-KeepsTables s d route (some u) db))
  call-Spared (users route) u user other stays = record {
    workbook_kept = find_workbook-users_controller s d route u.id db wid wb found other;
    grant_kept = find_permission-users_controller u.id wid user wb db found other stays s d route;
  }
  call-Spared (workbooks route) u user other stays = record {
    workbook_kept =
        ground (
          arith,
          found,
          find_workbook-workbooks_controller route u.id d.uuid db wid wb found other,
        );
    grant_kept =
        ground (
          arith,
          find_permission-workbooks_controller u.id wid user wb db found other route d.uuid,
        );
  }
  call-Spared (permissions route) u user other stays = record {
    workbook_kept = ground (arith, found);
    grant_kept = find_permission-permissions_controller u.id wid user wb db found other route;
  }
  call-Spared (sheets route) u user other stays =
      Spared-KeepsGrants user (call s v d (sheets route) (some u) db).1
        (sheets_controller-KeepsGrants route u.id db)
  call-Spared (cells sheet_id route) u user other stays =
      Spared-KeepsGrants user (call s v d (cells sheet_id route) (some u) db).1 (
        grants_kept db (call s v d (cells sheet_id route) (some u) db).1
          (cells_controller-KeepsTables route sheet_id u.id db))
  call-Spared (public_cells token sheet_id) u user other stays = ground (arith, found)
  call-Spared health u user other stays = Spared-refl user

  call-Spared_public :
      (route : Route) (user : Option SafeUser) (other : String)
      → is_public route ≡ true
      → Spared other (call s v d route user db).1
  unfolding call workbooks_controller public_cells_controller
  call-Spared_public (auth route) user other is_open =
      Spared-KeepsGrants other (call s v d (auth route) user db).1 (
        grants_kept db (call s v d (auth route) user db).1
          (auth_controller-KeepsTables s d route user db))
  call-Spared_public route user other is_open = ground (arith, found)

  called_lem :
      (r : Request) (other : String)
      → ((u : SafeUser) → user_of s v d r db ≡ ok u → (wb.owner_id ≢ u.id) × (other ≢ u.id))
      → (user : Option SafeUser) → can_activate s v d r db ≡ ok user
      → Spared other (call s v d r.route user db).1
  called_lem r other others user h = elim (Bool-cases (is_public r.route)) [
    | inl is_open ↦ call-Spared_public r.route user other is_open
    | inr closed ↦
        let (u, is_user, sent) = can_activate-user s v d db r user closed h in
        subst (λ x. Spared other (call s v d r.route x db).1) (sym is_user)
          (call-Spared r.route u other (others u sent).0 (others u sent).1)
  ]

  -- Whatever a request to a route of `Route` asks for and whatever its answer is: if the user that
  -- its access token names, if any, is neither the owner of a workbook nor `other`, then the
  -- workbook's row is as it was, and `other` stands to it as before.
  pub serve-standing :
      (r : Request) (other : String)
      → ((u : SafeUser) → user_of s v d r db ≡ ok u → (wb.owner_id ≢ u.id) × (other ≢ u.id))
      → (find_workbook (serve s v d r db).1 wid ≡ some wb)
        × (standing (serve s v d r db).1 wid other ≡ standing db wid other)
  unfolding standing
  serve-standing r other others =
      let h =
        serve-holds s v d db r (Spared other) (Spared-refl other) (called_lem r other others) in
      (
        h.workbook_kept,
        ap (λ o. standing_of o (find_permission (serve s v d r db).1 wid other) other)
              (h.workbook_kept ∙ sym found)
            ∙ ap (λ g. standing_of (find_workbook db wid) g other) h.grant_kept,
      )
