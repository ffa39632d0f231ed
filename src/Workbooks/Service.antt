-- ===== src/Workbooks/Service.antt =====
-- The operations of src/modules/workbooks/workbooks.service.ts.
use onsheet_backend.Base.{
  ℕ, String, Bool, true, false, not, ◌&&◌, Option, none, some, List, [], ◌∷◌, ◌==◌, string_eq,
  if◌then◌else◌, map, head?, ◌++◌,
}
use onsheet_backend.Prisma.{
  Prisma, Db, User, Workbook, Sheet, Permission, PermissionRole, owner, editor, viewer, commenter,
  desc, same_token,
}
use onsheet_backend.Prisma.Cascade.{cascade_workbook}
use onsheet_backend.Http.{Result, ok, err, not_found, known_request, require}
use onsheet_backend.Http.Checks
use onsheet_backend.Http.Actions.{Action, pure, check, commit, ◌>>=◌, ◌>>◌}
use onsheet_backend.Workbooks.Access.{find_workbook, sheets_of, assert_access, assert_owner}

abbrev pub owner_only : String
owner_only = "Only the owner can perform this action"

-- A field that a DTO leaves out is `undefined`, and Prisma leaves that column as it is.
abbrev pub set_defined {ℓ} : {A : Type ℓ} → Option A → A → A
set_defined none old = old
set_defined (some a) old = a

-- `select: { shareToken: true, publicAccess: true }`
pub record ShareInfo : Type 0 where
  pub share_token : Option String
  pub public_access : Bool

abbrev pub share_info : Workbook → ShareInfo
share_info wb = record { share_token = wb.share_token; public_access = wb.public_access }

pub record SharedWorkbook : Type 0 where
  pub workbook : Workbook
  pub sheets : List Sheet
  pub owner_row : Option User
  pub my_role : String

-- `role.toLowerCase()`
abbrev pub lower_role : PermissionRole → String
lower_role viewer = "viewer"
lower_role commenter = "commenter"
lower_role editor = "editor"
lower_role owner = "owner"

-- `...(publicAccess && !current?.shareToken ? { shareToken: randomUUID() } : {})`; an empty token is
-- falsy too
abbrev pub lacks_token : Option String → Bool
lacks_token none = true
lacks_token (some t) = t == ""

abbrev pub publish : Bool → String → Workbook → Workbook
publish public_access uuid wb = record wb {
  public_access = public_access;
  share_token = if public_access && lacks_token wb.share_token then some uuid else wb.share_token;
}

-- `workbook: { ownerId: { not: userId } }`
abbrev pub owned_by_other : String → Option Workbook → Bool
owned_by_other user_id none = false
owned_by_other user_id (some wb) = not (wb.owner_id == user_id)

abbrev pub created_time : Option Workbook → ℕ
created_time none = 0
created_time (some wb) = wb.created_at

module _ ⦃p : Prisma⦄ where
  pub find_all_for_user : Db p → String → List (Workbook × List Sheet)
  find_all_for_user db user_id =
      map (λ wb. (wb, p.sheets.find_many db.sheets (λ s. s.workbook_id == wb.id)))
        (p.workbooks.order_by desc (λ wb. wb.created_at)
          (p.workbooks.find_many db.workbooks (λ wb. wb.owner_id == user_id)))

  abbrev first_sheet : Db p → p.workbooks.T → Workbook → Action (Db p) (Workbook × List Sheet)
  first_sheet before t wb = insert (
      p.sheets.create before.sheets
        (λ z. record { id = z.id; workbook_id = wb.id; name = "Sheet1"; index = 0 }))
    where
      insert : Option (p.sheets.T × Sheet) → Action (Db p) (Workbook × List Sheet)
      insert none db = (err known_request, db)
      insert (some (u, sheet)) db = (ok (wb, sheet ∷ []), record db { workbooks = t; sheets = u })

  -- The nested `create` is one transaction: the workbook is not written without its sheet.
  unfoldable pub create : String → String → Action (Db p) (Workbook × List Sheet)
  create user_id name db = go (
      p.workbooks.create db.workbooks (λ z. record {
        id = z.id;
        name = name;
        owner_id = user_id;
        share_token = some z.token;
        public_access = false;
        created_at = z.now;
      }))
    where
      go : Option (p.workbooks.T × Workbook) → Result (Workbook × List Sheet) × Db p
      go none = (err known_request, db)
      go (some (t, wb)) = first_sheet db t wb db

  unfoldable pub update : String → String → Option String → Action (Db p) Workbook
  update id user_id name = do
    check (λ db. assert_owner owner_only db id user_id)
    db ← (λ db. (ok db, db))
    commit (λ t. record db { workbooks = t })
        (p.workbooks.update db.workbooks id (λ wb. record wb { name = set_defined name wb.name }))

  unfoldable pub remove : String → String → Action (Db p) Workbook
  remove id user_id = do
    check (λ db. assert_owner owner_only db id user_id)
    db ← (λ db. (ok db, db))
    commit (λ t. cascade_workbook id (record db { workbooks = t }))
        (p.workbooks.delete db.workbooks id)

  -- `findUnique({ where: { shareToken } })`: the row of a second unique column
  abbrev pub find_by_token : Db p → String → Option Workbook
  find_by_token db share_token =
      head?
        (p.workbooks.find_many db.workbooks (λ wb. same_token wb.share_token (some share_token)))

  abbrev if_public : Option Workbook → Option Workbook
  if_public none = none
  if_public (some wb) = if wb.public_access then some wb else none

  unfoldable pub find_by_share_token : Db p → String → Result (Workbook × List Sheet)
  find_by_share_token db share_token =
      Checks.◌>>=◌
        (require (not_found "Sheet not found or not public")
          (if_public (find_by_token db share_token)))
        (λ wb. ok (wb, sheets_of db wb.id))

  unfoldable pub set_public_access : String → String → Bool → String → Action (Db p) ShareInfo
  set_public_access id user_id public_access uuid = do
    check (λ db. assert_owner owner_only db id user_id)
    db ← (λ db. (ok db, db))
    wb ←
        commit (λ t. record db { workbooks = t })
          (p.workbooks.update db.workbooks id (publish public_access uuid))
    pure (share_info wb)

  unfoldable pub get_share_info : Db p → String → String → Result ShareInfo
  get_share_info db id user_id = Checks.◌>>=◌ (assert_access db id user_id) (λ _.
      Checks.◌>>=◌ (require (not_found "Not Found") (find_workbook db id))
        (λ wb. ok (share_info wb)))

  abbrev shared_row : Db p → Permission → List SharedWorkbook
  shared_row db r = elim (find_workbook db r.workbook_id) [
    | none ↦ []
    | some wb ↦
        record {
          workbook = wb;
          sheets = p.sheets.find_many db.sheets (λ s. s.workbook_id == wb.id);
          owner_row = p.users.find_unique db.users wb.owner_id;
          my_role = lower_role r.role;
        }
        ∷ []
  ]

  abbrev shared_rows : Db p → List Permission → List SharedWorkbook
  shared_rows db [] = []
  shared_rows db (r ∷ rs) = shared_row db r ++ shared_rows db rs

  unfoldable pub shared_with_me : Db p → String → List SharedWorkbook
  shared_with_me db user_id = shared_rows db (
      p.permissions.order_by desc (λ r. created_time (find_workbook db r.workbook_id))
        (p.permissions.find_many db.permissions
          (λ r. r.user_id == user_id && owned_by_other user_id (find_workbook db r.workbook_id))))
