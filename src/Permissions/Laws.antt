-- ===== src/Permissions/Laws.antt =====
-- What sharing and revoking do to every user's standing.
use onsheet_backend.Base.{
  String, some, ◌≡◌, ◌≢◌, refl, ◌&&◌, ◌==◌, string_eq, pair_eq, arith, eq_iff, if◌then◌else◌,
}
use onsheet_backend.Prisma.{Prisma, Db, User, Permission, PermissionRole, owner}
use onsheet_backend.Prisma.Table.Laws.{upsert_free, find-upsert_free}
use onsheet_backend.Http.{Result, ok, err, forbidden, type_error}
use onsheet_backend.Workbooks.Access.{assert_editor, find_one}
use onsheet_backend.Workbooks.Roles.{
  owner_verdict, my_role_of, owner_unique, Standing, missing, owns, stranger, granted, standing,
  checks_by_standing,
}
use onsheet_backend.Permissions.{share, revoke, find_by_email, managers_only}

-- The standing after a grant of `role`, by the standing before.
abbrev pub with_grant : PermissionRole → Standing → Standing
with_grant role missing = missing
with_grant role owns = owns
with_grant role _ = granted role

abbrev pub without_grant : Standing → Standing
without_grant (granted r) = stranger
without_grant s = s

-- the same exception, whatever the value would have been
abbrev pub failure : {A : Type 0} → Result (Unit {0}) → Result A
failure (ok _) = err type_error
failure (err e) = err e

module _ ⦃p : Prisma⦄ (db : Db p) (id requester : String) where
  abbrev granted_row : String → PermissionRole → Permission
  granted_row user role = record { workbook_id = id; user_id = user; role = role }

  -- An owner who shares with a known account gives that user the role, and changes nobody else's
  -- standing to any workbook.
  pub share-standing :
      (email : String) (role : PermissionRole) (target : User)
      → standing db id requester ≡ owns
      → find_by_email db email ≡ some target
      → (j user : String)
      → standing (share id requester email role db).1 j user ≡ (
          if id == j && target.id == user
          then with_grant role (standing db j user)
          else standing db j user)
  unfolding share standing
  share-standing email role target own known j user = ground (
    arith,
    known,
    checks_by_standing managers_only db id requester,
    upsert_free p.permissions p.permissions-IsLawful (λ r x. refl) db.permissions (id, target.id)
        (λ _. granted_row target.id role) (λ r. record r { role = role }) (λ z. refl) (λ r. refl),
    find-upsert_free p.permissions p.permissions-IsLawful (λ r x. refl) db.permissions
        (id, target.id) (λ _. granted_row target.id role) (λ r. record r { role = role })
        (λ z. refl) (λ r. refl) (j, user),
    eq_iff id j,
    eq_iff target.id user,
  )

  -- Revoking by the owner takes a grant away from that user of that workbook, and changes nobody
  -- else's standing; where there is no grant, it changes nothing.
  pub revoke-standing :
      (target j user : String)
      → standing db id requester ≡ owns
      → standing (revoke id target requester db).1 j user ≡ (
          if id == j && target == user
          then without_grant (standing db j user)
          else standing db j user)
  unfolding revoke standing
  revoke-standing target j user own = ground (
    arith,
    checks_by_standing managers_only db id requester,
    p.permissions-IsLawful.delete_lem db.permissions (id, target),
    p.permissions-IsLawful.find-erase db.permissions (id, target) (j, user),
    eq_iff id j,
    eq_iff target user,
  )

  -- Who does not own the workbook can neither share nor revoke: both throw the exception of
  -- `assertOwner`, and the database stays as it is.
  pub manage_denied :
      (email target : String) (role : PermissionRole)
      → standing db id requester ≢ owns
      → (share id requester email role db
          ≡ (failure (owner_verdict managers_only (standing db id requester)), db))
        × (revoke id target requester db
            ≡ (failure (owner_verdict managers_only (standing db id requester)), db))
  unfolding share revoke
  manage_denied email target role other =
      ground (arith, checks_by_standing managers_only db id requester)

  -- Sharing with the role OWNER, which the DTO accepts, gives a user whom `findOne` calls "OWNER"
  -- and whom `assertEditor` turns away.
  pub share_owner-cannot_edit :
      (email : String) (target : User)
      → standing db id requester ≡ owns
      → find_by_email db email ≡ some target
      → target.id ≢ requester
      → (my_role_of (find_one (share id requester email owner db).1 id target.id) ≡ ok owner)
        × (assert_editor (share id requester email owner db).1 id target.id
            ≡ err (forbidden "Editor access required"))
  share_owner-cannot_edit email target own known other =
      let after = (share id requester email owner db).1 in
      ground (
        arith,
        checks_by_standing managers_only after id target.id,
        share-standing email owner target own known id target.id,
        owner_unique db id requester target.id,
        eq_iff id id,
        eq_iff target.id target.id,
      )
