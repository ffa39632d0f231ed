-- ===== src/Workbooks/Access.antt =====
-- The access checks of src/modules/workbooks/workbooks.service.ts, and the reads that they guard.
-- A check is a function of the database; it throws by `err`.
use onsheet_backend.Base.{
  String, Bool, true, false, not, ◌&&◌, ◌||◌, Option, List, [], ◌∷◌, ◌==◌, string_eq, pair_eq,
  is_empty, if◌then◌else◌,
}
use onsheet_backend.Prisma.{
  Prisma, Db, Workbook, Sheet, Permission, PermissionRole, owner, editor, permission_key, asc,
}
use onsheet_backend.Http.{Result, ok, err, not_found, forbidden, type_error, require, refuse}
use onsheet_backend.Http.Checks.{◌>>=◌, ◌>>◌}

-- `include: { sheets, permissions: { where: { userId } } }` gives the workbook with its sheets, and
-- `myRole`.
pub record WorkbookView : Type 0 where
  pub workbook : Workbook
  pub sheets : List Sheet
  pub my_role : PermissionRole

-- `perm.role !== PermissionRole.EDITOR`
abbrev pub is_editor : PermissionRole → Bool
is_editor editor = true
is_editor _ = false

-- `wb.permissions[0].role`: reading a field of `undefined` throws
abbrev pub first_role : List Permission → Result PermissionRole
first_role [] = err type_error
first_role (r ∷ rs) = ok r.role

-- `!perm || perm.role !== PermissionRole.EDITOR`
abbrev pub lacks_editor : List Permission → Bool
lacks_editor [] = true
lacks_editor (r ∷ rs) = not (is_editor r.role)

-- the tests of `assertEditor`, once the workbook is found
abbrev pub editor_or_owner : Workbook → String → List Permission → Result (Unit {0})
editor_or_owner wb user_id rows =
    if wb.owner_id == user_id
    then ok tt
    else refuse (forbidden "Editor access required") (lacks_editor rows)

module _ ⦃p : Prisma⦄ where
  abbrev pub find_workbook : Db p → String → Option Workbook
  find_workbook db id = p.workbooks.find_unique db.workbooks id

  -- `permissions: { where: { userId } }` of one workbook
  abbrev pub permissions_of : Db p → String → String → List Permission
  permissions_of db id user_id =
      p.permissions.find_many db.permissions (λ r. permission_key r == (id, user_id))

  -- `sheets: { orderBy: { index: "asc" } }`
  abbrev pub sheets_of : Db p → String → List Sheet
  sheets_of db id =
      p.sheets.order_by asc (λ s. s.index) (p.sheets.find_many db.sheets (λ s. s.workbook_id == id))

  unfoldable pub find_one : Db p → String → String → Result WorkbookView
  find_one db id user_id = do
    wb ← require (not_found "Workbook not found") (find_workbook db id)
    let rows = permissions_of db id user_id
    refuse (forbidden "Access denied") (not (wb.owner_id == user_id) && is_empty rows)
    role ← if wb.owner_id == user_id then ok owner else first_role rows
    ok (record { workbook = wb; sheets = sheets_of db id; my_role = role })

  unfoldable pub assert_access : Db p → String → String → Result (Unit {0})
  assert_access db workbook_id user_id = do
    wb ← require (not_found "Not Found") (find_workbook db workbook_id)
    refuse (forbidden "Access denied")
        (not (wb.owner_id == user_id || not (is_empty (permissions_of db workbook_id user_id))))

  unfoldable pub assert_editor : Db p → String → String → Result (Unit {0})
  assert_editor db workbook_id user_id = do
    wb ← require (not_found "Workbook not found") (find_workbook db workbook_id)
    editor_or_owner wb user_id (permissions_of db workbook_id user_id)

  -- The message is the one of the caller: "Only the owner can perform this action" here, "Only the
  -- owner can manage permissions" in the permissions service, which has the same check.
  unfoldable pub assert_owner : String → Db p → String → String → Result (Unit {0})
  assert_owner message db workbook_id user_id = do
    wb ← require (not_found "Not Found") (find_workbook db workbook_id)
    refuse (forbidden message) (not (wb.owner_id == user_id))
