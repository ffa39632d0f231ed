-- ===== src/Api/Ownership/Grants.antt =====
-- What each controller does to the grants on a workbook.
use onsheet_backend.Base.{
  String, Bool, true, false, not, ap, Option, none, some, ◌≡◌, ◌≢◌, refl, arith, ◌==◌, string_eq,
  pair_eq, eq_iff, Bool-cases, inl, inr,
}
use onsheet_backend.Prisma.{Prisma, Db, User, Workbook, Permission}
use onsheet_backend.Prisma.Table.Keeping.{find-upsert_apart, find-delete_apart}
use onsheet_backend.Http.Actions.{commit}
use onsheet_backend.Users
use onsheet_backend.Users.{cascade_user}
use onsheet_backend.Permissions
use onsheet_backend.Permissions.{find_by_email}
use onsheet_backend.Workbooks.Access.{find_workbook, assert_owner, is_editor}
use onsheet_backend.Workbooks.Service
use onsheet_backend.Api.Ownership.Cascades.{
  permission-cascade_user_self, permission-cascade_user, permission-cascade_workbook,
}
use onsheet_backend.Api.Controllers.Accounts.{
  delete_me, Server, Draws, UsersRoute, users_controller,
}
use onsheet_backend.Api.Controllers.Workbooks.{
  remove, share, revoke, list_permissions, WorkbooksRoute, PermissionsRoute, workbooks_controller,
  permissions_controller,
}

-- `!perm || perm.role !== PermissionRole.EDITOR`
abbrev pub lacks_editor_role : Option Permission → Bool
lacks_editor_role none = true
lacks_editor_role (some r) = not (is_editor r.role)

module _ ⦃p : Prisma⦄ where
  abbrev pub find_permission : Db p → String → String → Option Permission
  find_permission db wid user = p.permissions.find_unique db.permissions (wid, user)

  module _ (id wid user : String) (wb : Workbook) (db : Db p)
      (found : find_workbook db wid ≡ some wb) (other : wb.owner_id ≢ id) where
    pub find_permission-users_controller :
        user ≢ id
        → (s : Server) (d : Draws) (route : UsersRoute)
        → find_permission (users_controller s d route id db).1 wid user
          ≡ find_permission db wid user
    unfolding users_controller Users.remove
    find_permission-users_controller stays s d delete_me =
        elim (p.users.delete db.users id)
          as (λ o.
            find_permission (commit (λ t. cascade_user id (record db { users = t })) o db).1 wid
              user
            ≡ find_permission db wid user) [
              | none ↦ refl
              | some (t, u) ↦
                  permission-cascade_user id wid wb (record db { users = t }) found other user stays
            ]
    find_permission-users_controller stays s d route = ground arith

    -- Who deletes the own account loses the own grants.
    pub find_permission-users_controller_self :
        (s : Server) (d : Draws) (route : UsersRoute)
        → lacks_editor_role (find_permission db wid id) ≡ true
        → lacks_editor_role (find_permission (users_controller s d route id db).1 wid id) ≡ true
    unfolding users_controller Users.remove
    find_permission-users_controller_self s d delete_me lacks =
        elim (p.users.delete db.users id)
          as (λ o.
            lacks_editor_role (
              find_permission (commit (λ t. cascade_user id (record db { users = t })) o db).1 wid
                id)
            ≡ true) [
              | none ↦ lacks
              | some (t, u) ↦
                  ap lacks_editor_role
                    (permission-cascade_user_self id wid wb (record db { users = t }) found other)
            ]
    find_permission-users_controller_self s d route lacks = ground (arith, lacks)

    pub find_permission-workbooks_controller :
        (route : WorkbooksRoute) (uuid : String)
        → find_permission (workbooks_controller route id uuid db).1 wid user
          ≡ find_permission db wid user
    unfolding workbooks_controller Service.create Service.update Service.remove
        Service.set_public_access assert_owner
    find_permission-workbooks_controller (remove wid') uuid = elim (Bool-cases (wid' == wid)) [
      | inl same ↦ ground (arith, eq_iff wid' wid, eq_iff wb.owner_id id)
      | inr apart ↦ ground (
        arith,
        permission-cascade_workbook wid' wid (λ e. ground (arith, (eq_iff wid' wid).1 e)) db user,
      )
    ]
    find_permission-workbooks_controller route uuid = ground arith

    pub find_permission-permissions_controller :
        (route : PermissionsRoute)
        → find_permission (permissions_controller route id db).1 wid user
          ≡ find_permission db wid user
    unfolding permissions_controller Permissions.share Permissions.revoke assert_owner
    find_permission-permissions_controller (share wid' email role) =
        elim (Bool-cases (wid' == wid)) [
          | inl same ↦ ground (arith, eq_iff wid' wid, eq_iff wb.owner_id id)
          | inr apart ↦ go apart (find_by_email db email) refl
        ]
      where
        go :
            (wid' == wid) ≡ false
            → (o : Option User) → find_by_email db email ≡ o
            → find_permission (permissions_controller (share wid' email role) id db).1 wid user
              ≡ find_permission db wid user
        go apart none h = ground arith
        go apart (some u) h = ground (
          arith,
          find-upsert_apart p.permissions p.permissions-IsLawful db.permissions (wid', u.id)
              (wid, user) (ground (arith, apart))
              (λ _. record { workbook_id = wid'; user_id = u.id; role = role })
              (λ r. record r { role = role }) (λ z. refl) (λ r. refl),
        )
    find_permission-permissions_controller (revoke wid' target) = elim (Bool-cases (wid' == wid)) [
      | inl same ↦ ground (arith, eq_iff wid' wid, eq_iff wb.owner_id id)
      | inr apart ↦ ground (
        arith,
        find-delete_apart p.permissions p.permissions-IsLawful db.permissions (wid', target)
            (wid, user) (ground (arith, apart)),
      )
    ]
    find_permission-permissions_controller (list_permissions wid') = ground arith
