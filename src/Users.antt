-- ===== src/Users.antt =====
-- src/modules/users/users.service.ts: accounts, and the check of a password. The package bcrypt is a
-- parameter; a hash also takes the salt that it draws.
pub mod Emails
pub mod Passwords
use onsheet_backend.Base.{
  ℕ, String, Bool, true, Option, none, some, List, [], ◌∷◌, ◌==◌, ◌≡◌, string_eq, not,
}
use onsheet_backend.Prisma.{Prisma, Db, User, Workbook}
use onsheet_backend.Prisma.Cascade.{cascade_workbook}
use onsheet_backend.Http.{Result, ok, err, bad_request, require, refuse}
use onsheet_backend.Http.Actions.{Action, pure, check, commit, ◌>>=◌, ◌>>◌}
use onsheet_backend.Workbooks.Service.{set_defined}
use onsheet_backend.Cells.Service.{set_nullable}

-- `bcrypt.hash` and `bcrypt.compare`. By the package's documentation only the first 72 bytes of a
-- text are used, which `prefix` takes; a comparison is right up to that, and collisions of the
-- hash are left out.
pub record Bcrypt : Type 0 where
  pub prefix : String → String
  pub hash : String → ℕ → String → String
  pub compare : String → String → Bool
  pub compare-hash :
      (salt : String) (rounds : ℕ) (s t : String)
      → compare s (hash salt rounds t) ≡ (prefix s == prefix t)
  -- a hash has 60 characters
  pub hash-not_empty :
      (salt : String) (rounds : ℕ) (s : String) → (hash salt rounds s == "") ≡ Bool.false

abbrev pub new_user : String → String → String → String → User
new_user id email display_name password_hash = record {
  id = id;
  email = email;
  display_name = display_name;
  password_hash = password_hash;
  avatar_url = none;
  refresh_token = none;
}

abbrev pub with_password : String → User → User
with_password password_hash u = record u { password_hash = password_hash }

abbrev pub with_refresh_token : Option String → User → User
with_refresh_token token u = record u { refresh_token = token }

module _ ⦃p : Prisma⦄ where
  abbrev pub find_by_id : Db p → String → Option User
  find_by_id db id = p.users.find_unique db.users id

  -- `cascade_user`: what hangs on a deleted user goes with the row (`onDelete: Cascade`)
  abbrev pub cascade_workbooks : List Workbook → Db p → Db p
  cascade_workbooks [] db = db
  cascade_workbooks (wb ∷ wbs) db = cascade_workbooks wbs (cascade_workbook wb.id db)

  abbrev pub cascade_user : String → Db p → Db p
  cascade_user id db =
      cascade_workbooks (p.workbooks.find_many db.workbooks (λ wb. wb.owner_id == id)) (record db {
        workbooks = (p.workbooks.delete_many db.workbooks (λ wb. wb.owner_id == id)).0;
        permissions = (p.permissions.delete_many db.permissions (λ r. r.user_id == id)).0;
        cell_ops = (p.cell_ops.delete_many db.cell_ops (λ o. o.user_id == id)).0;
        snapshots = (p.snapshots.delete_many db.snapshots (λ x. x.created_by == id)).0;
        comments = (p.comments.delete_many db.comments (λ x. x.created_by == id)).0;
      })

  unfoldable pub create : String → String → String → Action (Db p) User
  create email display_name password_hash db =
      commit (λ t. record db { users = t })
        (p.users.create db.users (λ z. new_user z.id email display_name password_hash)) db

  -- `update` with the fields of `UpdateUserDto`
  unfoldable pub update : String → Option String → Option String → Action (Db p) User
  update id display_name avatar_url db =
      commit (λ t. record db { users = t })
        (p.users.update db.users id (λ u. record u {
          display_name = set_defined display_name u.display_name;
          avatar_url = set_nullable avatar_url u.avatar_url;
        }))
        db

  unfoldable pub update_refresh_token : String → Option String → Action (Db p) User
  update_refresh_token id token db =
      commit (λ t. record db { users = t }) (p.users.update db.users id (with_refresh_token token))
        db

  unfoldable pub clear_refresh_token : String → Action (Db p) User
  clear_refresh_token id = update_refresh_token id none

  unfoldable pub remove : String → Action (Db p) User
  remove id db =
      commit (λ t. cascade_user id (record db { users = t })) (p.users.delete db.users id) db

  unfoldable pub change_password :
      Bcrypt → String → String → String → String → Action (Db p) (Unit {0})
  change_password bcrypt salt id current_password new_password = do
    user ← check (λ db. require (bad_request "User not found") (find_by_id db id))
    check (λ _.
        refuse (bad_request "Current password is incorrect")
          (not (bcrypt.compare current_password user.password_hash)))
    db ← check ok
    saved ←
        commit (λ t. record db { users = t })
          (p.users.update db.users id (with_password (bcrypt.hash salt 12 new_password)))
    pure tt
