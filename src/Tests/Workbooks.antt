-- ===== src/Tests/Workbooks.antt =====
-- Runs of the access checks, of sharing and of revoking.
use onsheet_backend.Base.{eq_iff, string_eq, arith, arith, ◌≡◌, refl}
use onsheet_backend.Prisma.{editor, owner, viewer}
use onsheet_backend.Prisma.Example.{in_memory}
use onsheet_backend.Http.{ok, err, forbidden}
use onsheet_backend.Workbooks.Access.{assert_owner, assert_editor, assert_access, find_one}
use onsheet_backend.Permissions.{share, revoke}
use onsheet_backend.Workbooks.Roles.{standing, checks_by_standing, granted, my_role_of, stranger}
use onsheet_backend.Permissions.Laws.{share-standing, revoke-standing, share_owner-cannot_edit}
use onsheet_backend.Tests.Office.{office, dan}

checks_by_standing_example :
    (assert_owner ⦃p = in_memory⦄ "no" office "w" "bob" ≡ err (forbidden "no"))
    × (assert_editor ⦃p = in_memory⦄ office "w" "bob" ≡ err (forbidden "Editor access required"))
    × (assert_access ⦃p = in_memory⦄ office "w" "bob" ≡ ok tt)
    × (my_role_of (find_one ⦃p = in_memory⦄ office "w" "bob") ≡ ok viewer)
unfolding standing
checks_by_standing_example = checks_by_standing ⦃p = in_memory⦄ "no" office "w" "bob"

share-standing_example :
    standing ⦃p = in_memory⦄ (share ⦃p = in_memory⦄ "w" "ann" "dan" editor office).1 "w" "dan"
    ≡ granted editor
unfolding standing
share-standing_example =
    share-standing ⦃p = in_memory⦄ office "w" "ann" "dan" editor dan refl refl "w" "dan"

revoke-standing_example :
    standing ⦃p = in_memory⦄ (revoke ⦃p = in_memory⦄ "w" "cid" "ann" office).1 "w" "cid" ≡ stranger
unfolding standing
revoke-standing_example = revoke-standing ⦃p = in_memory⦄ office "w" "ann" "cid" "w" "cid" refl

share_owner-cannot_edit_example :
    (my_role_of
        (find_one ⦃p = in_memory⦄ (share ⦃p = in_memory⦄ "w" "ann" "dan" owner office).1 "w" "dan")
      ≡ ok owner)
    × (assert_editor ⦃p = in_memory⦄
          (share ⦃p = in_memory⦄ "w" "ann" "dan" owner office).1
          "w"
          "dan"
        ≡ err (forbidden "Editor access required"))
unfolding standing
share_owner-cannot_edit_example =
    share_owner-cannot_edit ⦃p = in_memory⦄ office "w" "ann" "dan" dan refl refl
      (λ e. ground (arith, (eq_iff "dan" "ann").1 e))
