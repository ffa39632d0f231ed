-- ===== src/Permissions.antt =====
-- src/modules/permissions/permissions.service.ts: who may open a workbook that another user owns.
pub mod Laws
use Prim.Native.String.{◌++◌ as append}
use onsheet_backend.Base.{
  String, Bool, Option, none, some, List, [], ◌∷◌, ◌++◌, ◌==◌, string_eq, pair_eq, head?,
}
use onsheet_backend.Prisma.{Prisma, Db, User, Permission, PermissionRole}
use onsheet_backend.Http.{Result, ok, err, not_found, require}
use onsheet_backend.Http.Checks
use onsheet_backend.Http.Actions.{Action, pure, check, commit, ◌>>=◌, ◌>>◌}
use onsheet_backend.Workbooks.Access.{assert_owner}
use onsheet_backend.Workbooks.Service.{lower_role}

abbrev pub managers_only : String
managers_only = "Only the owner can manage permissions"

-- The shape that the frontend consumes.
pub record Collaborator : Type 0 where
  pub user_id : String
  pub email : String
  pub name : String
  pub avatar_url : Option String
  pub role : String

-- `displayName` is never null by the schema, so `?? email` is not taken.
abbrev pub collaborator : Permission → User → Collaborator
collaborator r u = record {
  user_id = r.user_id;
  email = u.email;
  name = u.display_name;
  avatar_url = u.avatar_url;
  role = lower_role r.role;
}

abbrev pub no_account : String → String
no_account email =
    append "No OnSheet account found for " (append email ". They need to sign up first.")

module _ ⦃p : Prisma⦄ where
  -- `user.findUnique({ where: { email } })`
  abbrev pub find_by_email : Db p → String → Option User
  find_by_email db email = head? (p.users.find_many db.users (λ u. u.email == email))

  abbrev rows_with_users : Db p → List Permission → List Collaborator
  rows_with_users db [] = []
  rows_with_users db (r ∷ rs) =
      let rest = rows_with_users db rs in
      elim (p.users.find_unique db.users r.user_id) [
        | none ↦ rest
        | some u ↦ collaborator r u ∷ rest
      ]

  unfoldable pub find_all : Db p → String → String → Result (List Collaborator)
  find_all db workbook_id user_id =
      Checks.◌>>=◌ (assert_owner managers_only db workbook_id user_id) (λ _. ok (
        rows_with_users db
          (p.permissions.find_many db.permissions (λ r. r.workbook_id == workbook_id))))

  unfoldable pub share : String → String → String → PermissionRole → Action (Db p) Collaborator
  share workbook_id requester_id email role = do
    check (λ db. assert_owner managers_only db workbook_id requester_id)
    target ← check (λ db. require (not_found (no_account email)) (find_by_email db email))
    db ← (λ db. (ok db, db))
    perm ←
        commit (λ t. record db { permissions = t })
          (p.permissions.upsert db.permissions (workbook_id, target.id)
            (λ _. record { workbook_id = workbook_id; user_id = target.id; role = role })
            (λ r. record r { role = role }))
    pure (collaborator perm target)

  unfoldable pub revoke : String → String → String → Action (Db p) Permission
  revoke workbook_id target_user_id requester_id = do
    check (λ db. assert_owner managers_only db workbook_id requester_id)
    db ← (λ db. (ok db, db))
    commit (λ t. record db { permissions = t })
        (p.permissions.delete db.permissions (workbook_id, target_user_id))
