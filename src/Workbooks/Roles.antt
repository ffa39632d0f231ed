-- ===== src/Workbooks/Roles.antt =====
-- Who passes which check: the checks of the workbooks service against the two facts that decide
-- them, the owner of the workbook and the role that the permission table grants.
use onsheet_backend.Base.{
  String, Option, none, some, ◌==◌, string_eq, pair_eq, if◌then◌else◌, ◌≡◌, ◌≢◌, arith, eq_iff,
  head?, ap,
}
use onsheet_backend.Prisma.{Prisma, Db, Workbook, Permission, PermissionRole, owner, editor}
use onsheet_backend.Prisma.Table.Laws.{head-find_many}
use onsheet_backend.Http.{Result, ok, err, not_found, forbidden}
use onsheet_backend.Workbooks.Access.{
  find_workbook, permissions_of, find_one, assert_access, assert_editor, assert_owner, WorkbookView,
}

-- How a user stands to a workbook.
pub data Standing : Type 0 where
  missing owns stranger : Standing
  granted : PermissionRole → Standing

abbrev grant_of : Option Permission → Standing
grant_of none = stranger
grant_of (some r) = granted r.role

abbrev pub standing_of : Option Workbook → Option Permission → String → Standing
standing_of none r user = missing
standing_of (some wb) r user = if wb.owner_id == user then owns else grant_of r

-- The intended verdicts, one row for each standing.
abbrev pub owner_verdict : String → Standing → Result (Unit {0})
owner_verdict message missing = err (not_found "Not Found")
owner_verdict message owns = ok tt
owner_verdict message _ = err (forbidden message)

abbrev pub editor_verdict : Standing → Result (Unit {0})
editor_verdict missing = err (not_found "Workbook not found")
editor_verdict owns = ok tt
editor_verdict (granted editor) = ok tt
editor_verdict _ = err (forbidden "Editor access required")

abbrev pub access_verdict : Standing → Result (Unit {0})
access_verdict missing = err (not_found "Not Found")
access_verdict stranger = err (forbidden "Access denied")
access_verdict _ = ok tt

abbrev pub role_verdict : Standing → Result PermissionRole
role_verdict missing = err (not_found "Workbook not found")
role_verdict owns = ok owner
role_verdict (granted r) = ok r
role_verdict stranger = err (forbidden "Access denied")

abbrev pub my_role_of : Result WorkbookView → Result PermissionRole
my_role_of (ok v) = ok v.my_role
my_role_of (err e) = err e

owner_unique_lem :
    (o : Option Workbook) (g h : Option Permission) (user other : String)
    → standing_of o g user ≡ owns
    → other ≢ user
    → (standing_of o h other ≢ missing) × (standing_of o h other ≢ owns)
owner_unique_lem none g h user other own ne = ground arith
owner_unique_lem (some wb) g h user other own ne =
    ground (arith, eq_iff wb.owner_id user, eq_iff wb.owner_id other)

module _ ⦃p : Prisma⦄ where
  -- By the owner's column and by the one permission row of the pair.
  unfoldable pub standing : Db p → String → String → Standing
  standing db id user =
      standing_of (find_workbook db id) (p.permissions.find_unique db.permissions (id, user)) user

  grant-permissions_of :
      (db : Db p) (id user : String)
      → grant_of (head? (permissions_of db id user))
        ≡ grant_of (p.permissions.find_unique db.permissions (id, user))
  grant-permissions_of db id user =
      ap grant_of (head-find_many p.permissions p.permissions-IsLawful db.permissions (id, user))

  -- Each of the four checks of the service gives, on every branch, the verdict of the user's
  -- standing: who owns the workbook passes all, a grant of EDITOR passes `assertEditor`, any grant
  -- passes `assertAccess` and `findOne`, and `findOne` reports as `myRole` the role of the
  -- standing. The failing branches throw the exceptions of the table.
  pub checks_by_standing :
      (message : String) (db : Db p) (id user : String)
      → (assert_owner message db id user ≡ owner_verdict message (standing db id user))
        × (assert_editor db id user ≡ editor_verdict (standing db id user))
        × (assert_access db id user ≡ access_verdict (standing db id user))
        × (my_role_of (find_one db id user) ≡ role_verdict (standing db id user))
  unfolding assert_owner assert_editor assert_access find_one standing
  checks_by_standing message db id user =
      let h = head-find_many p.permissions p.permissions-IsLawful db.permissions (id, user) in
      (ground arith, ground (arith, h), ground (arith, h), ground (arith, h))

  -- A workbook that one user owns is not missing, and no other user owns it.
  pub owner_unique :
      (db : Db p) (id user other : String)
      → standing db id user ≡ owns
      → other ≢ user
      → (standing db id other ≢ missing) × (standing db id other ≢ owns)
  unfolding standing
  owner_unique db id user other own ne =
      owner_unique_lem (find_workbook db id) (p.permissions.find_unique db.permissions (id, user))
        (p.permissions.find_unique db.permissions (id, other)) user other own ne
