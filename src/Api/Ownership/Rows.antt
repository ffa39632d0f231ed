-- ===== src/Api/Ownership/Rows.antt =====
-- What each controller does to the rows of the workbooks and of the permissions.
use onsheet_backend.Base.{
  ℕ, String, false, Option, none, some, List, [], ◌∷◌, ◌≡◌, ◌≢◌, refl, arith, ◌==◌, string_eq,
  pair_eq, eq_iff, inl, inr, Bool-cases,
}
use onsheet_backend.Prisma.{Prisma, Db, Workbook}
use onsheet_backend.Prisma.Table.Keeping.{find-create_kept, find-update_apart, find-delete_apart}
use onsheet_backend.Http.{ok, err}
use onsheet_backend.Auth.{SafeUser}
use onsheet_backend.Users
use onsheet_backend.Users.{cascade_workbooks, cascade_user}
use onsheet_backend.Workbooks.Access.{find_workbook, assert_owner}
use onsheet_backend.Workbooks.Service
use onsheet_backend.Workbooks.Service.{publish, set_defined}
use onsheet_backend.Api.Ownership.Cascades.{find_workbook-cascade_user}
use onsheet_backend.Api.Controllers.Accounts.{
  delete_me, Server, Draws, AuthRoute, UsersRoute, auth_controller, users_controller,
}
use onsheet_backend.Api.Controllers.Workbooks.{
  set_public_access, create, update, remove, WorkbooksRoute, workbooks_controller,
}
use onsheet_backend.Api.Controllers.Sheets.{SheetsRoute, sheets_controller}
use onsheet_backend.Cells.Service.{UpdateCellDto}
use onsheet_backend.Cells.Bulk.{batch_loop, execute_batch, batch_size}
use onsheet_backend.Base.{zero, suc, length, take, drop, ◌+◌}
use onsheet_backend.Http.Actions.{Action, ◌>>=◌, continue, commit}
use onsheet_backend.Api.Controllers.Cells.{bulk_upsert, CellsRoute, cells_controller}

module _ ⦃p : Prisma⦄ where
  -- The workbooks and the permissions are as they were, and in the second case the sheets.
  pub record KeepsGrants (before after : Db p) : Type 0 where
    pub workbooks_kept : after.workbooks ≡ before.workbooks
    pub permissions_kept : after.permissions ≡ before.permissions

  pub record KeepsTables (before after : Db p) : Type 0 where
    pub workbooks_kept : after.workbooks ≡ before.workbooks
    pub permissions_kept : after.permissions ≡ before.permissions
    pub sheets_kept : after.sheets ≡ before.sheets

  pub grants_kept : (before after : Db p) → KeepsTables before after → KeepsGrants before after
  grants_kept before after h = record {
    workbooks_kept = h.workbooks_kept;
    permissions_kept = h.permissions_kept;
  }

  pub auth_controller-KeepsTables :
      (s : Server) (d : Draws) (route : AuthRoute) (user : Option SafeUser) (db : Db p)
      → KeepsTables db (auth_controller s d route user db).1
  unfolding auth_controller
  auth_controller-KeepsTables s d route user db = ground arith

  pub sheets_controller-KeepsGrants :
      (route : SheetsRoute) (id : String) (db : Db p)
      → KeepsGrants db (sheets_controller route id db).1
  unfolding sheets_controller
  sheets_controller-KeepsGrants route id db = ground arith

  KeepsTables-trans : (a b c : Db p) → KeepsTables a b → KeepsTables b c → KeepsTables a c
  KeepsTables-trans a b c h k = ground arith

  bind-KeepsTables :
      {A B : Type 0} (m : Action (Db p) A) (f : A → Action (Db p) B) (db : Db p)
      → KeepsTables db (m db).1
      → ((a : A) → KeepsTables (m db).1 (f a (m db).1).1)
      → KeepsTables db ((m >>= f) db).1
  bind-KeepsTables m f db h k = elim (m db).0 as (λ r. KeepsTables db (continue r f (m db).1).1) [
    | ok a ↦ KeepsTables-trans db (m db).1 (f a (m db).1).1 h (k a)
    | err e ↦ h
  ]

  execute_batch-KeepsTables :
      (sheet_id : String) (batch : List UpdateCellDto) (db : Db p)
      → KeepsTables db (execute_batch sheet_id batch db).1
  unfolding execute_batch
  execute_batch-KeepsTables sheet_id batch db = ground arith

  batch_loop-KeepsTables :
      (fuel : ℕ) (sheet_id : String) (total : ℕ) (cells : List UpdateCellDto) (db : Db p)
      → KeepsTables db (batch_loop fuel sheet_id total cells db).1
  unfolding batch_loop
  batch_loop-KeepsTables zero sheet_id total cells db = ground arith
  batch_loop-KeepsTables (suc fuel) sheet_id total [] db = ground arith
  batch_loop-KeepsTables (suc fuel) sheet_id total (c ∷ cells) db =
      bind-KeepsTables (execute_batch sheet_id (take batch_size (c ∷ cells)))
        (λ affected. batch_loop fuel sheet_id (total + affected) (drop batch_size (c ∷ cells))) db
        (execute_batch-KeepsTables sheet_id (take batch_size (c ∷ cells)) db)
        (λ affected.
          batch_loop-KeepsTables fuel sheet_id (total + affected) (drop batch_size (c ∷ cells))
            (execute_batch sheet_id (take batch_size (c ∷ cells)) db).1)

  pub cells_controller-KeepsTables :
      (route : CellsRoute) (sheet_id id : String) (db : Db p)
      → KeepsTables db (cells_controller route sheet_id id db).1
  unfolding cells_controller
  cells_controller-KeepsTables (bulk_upsert cells) sheet_id id db =
      ground (arith, batch_loop-KeepsTables (length cells) sheet_id 0 cells db)
  cells_controller-KeepsTables route sheet_id id db = ground arith

  pub find_workbook-users_controller :
      (s : Server) (d : Draws) (route : UsersRoute) (id : String) (db : Db p) (wid : String)
      (wb : Workbook)
      → find_workbook db wid ≡ some wb
      → wb.owner_id ≢ id
      → find_workbook (users_controller s d route id db).1 wid ≡ some wb
  unfolding users_controller Users.remove
  find_workbook-users_controller s d delete_me id db wid wb found other =
      elim (p.users.delete db.users id)
        as (λ o.
          find_workbook (commit (λ t. cascade_user id (record db { users = t })) o db).1 wid
          ≡ some wb) [
            | none ↦ found
            | some (t, u) ↦
                find_workbook-cascade_user id wid wb (record db { users = t }) found other
          ]
  find_workbook-users_controller s d route id db wid wb found other = ground (arith, found)

  pub find_workbook-workbooks_controller :
      (route : WorkbooksRoute) (id uuid : String) (db : Db p) (wid : String) (wb : Workbook)
      → find_workbook db wid ≡ some wb
      → wb.owner_id ≢ id
      → find_workbook (workbooks_controller route id uuid db).1 wid ≡ some wb
  unfolding workbooks_controller Service.create Service.update Service.remove
      Service.set_public_access assert_owner
  find_workbook-workbooks_controller (set_public_access wid' b) id uuid db wid wb found other =
      elim (Bool-cases (wid' == wid)) [
        | inl same ↦ ground (arith, eq_iff wid' wid, eq_iff wb.owner_id id)
        | inr apart ↦ ground (
          arith,
          find-update_apart p.workbooks p.workbooks-IsLawful db.workbooks wid' wid apart
              (publish b uuid) (λ r. refl),
        )
      ]
  find_workbook-workbooks_controller (create name) id uuid db wid wb found other = ground (
    arith,
    find-create_kept p.workbooks p.workbooks-IsLawful db.workbooks
        (λ z. record {
          id = z.id;
          name = name;
          owner_id = id;
          share_token = some z.token;
          public_access = false;
          created_at = z.now;
        })
        wid wb found,
  )
  find_workbook-workbooks_controller (update wid' name) id uuid db wid wb found other =
      elim (Bool-cases (wid' == wid)) [
        | inl same ↦ ground (arith, eq_iff wid' wid, eq_iff wb.owner_id id)
        | inr apart ↦ ground (
          arith,
          find-update_apart p.workbooks p.workbooks-IsLawful db.workbooks wid' wid apart
              (λ r. record r { name = set_defined name r.name }) (λ r. refl),
        )
      ]
  find_workbook-workbooks_controller (remove wid') id uuid db wid wb found other =
      elim (Bool-cases (wid' == wid)) [
        | inl same ↦ ground (arith, eq_iff wid' wid, eq_iff wb.owner_id id)
        | inr apart ↦
            ground (
              arith,
              find-delete_apart p.workbooks p.workbooks-IsLawful db.workbooks wid' wid apart,
            )
      ]
  find_workbook-workbooks_controller route id uuid db wid wb found other = ground (arith, found)
