-- ===== src/Users/Passwords.antt =====
-- Which passwords are accepted, and what a change of password does.
use onsheet_backend.Base.{
  ◌&&◌, eq_iff, String, some, ◌==◌, ◌≡◌, refl, string_eq, arith, if◌then◌else◌,
}
use onsheet_backend.Prisma.{Prisma, Db, User}
use onsheet_backend.Http.{ok, err, bad_request}
use onsheet_backend.Users.{Bcrypt, find_by_id, change_password, with_password}
use onsheet_backend.Users.Emails.{HasUniqueEmails, clashes_same_email}

module _ ⦃p : Prisma⦄ (bcrypt : Bcrypt) (db : Db p) (id : String) (u : User) where
  -- A change of password by a user who exists succeeds exactly where the current password compares
  -- with the stored hash. The user's row then has the hash of the new password and all other rows
  -- are as before; otherwise nothing changes.
  pub find_by_id-change_password :
      (salt current_password new_password other : String)
      → HasUniqueEmails db.users
      → find_by_id db id ≡ some u
      → let hash = bcrypt.hash salt 12 new_password in
        let (result, after) = change_password bcrypt salt id current_password new_password db in
        (result ≡ (
          if bcrypt.compare current_password u.password_hash
          then ok tt
          else err (bad_request "Current password is incorrect")))
        × (find_by_id after other ≡ (
            if bcrypt.compare current_password u.password_hash && id == other
            then some (with_password hash u)
            else find_by_id db other))
  unfolding change_password
  find_by_id-change_password salt current_password new_password other unique found =
      let hash = bcrypt.hash salt 12 new_password in
      ground (
        arith,
        found,
        p.users-IsLawful.find_key db.users id u found,
        p.users-IsLawful.update_lem db.users id (with_password hash) (λ r. refl),
        clashes_same_email db.users u (with_password hash u) unique,
        p.users-IsLawful.find-write db.users (with_password hash u) other,
        eq_iff u.id other,
      )
