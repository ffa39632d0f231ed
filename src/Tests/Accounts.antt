-- ===== src/Tests/Accounts.antt =====
-- Runs of the users and the auth service.
use onsheet_backend.Base.{◌≡◌, refl, some, none}
use onsheet_backend.Prisma.Example.{in_memory}
use onsheet_backend.Http.{ok, err, unauthorized}
use onsheet_backend.Users.{find_by_id, change_password, with_password}
use onsheet_backend.Users.Passwords.{find_by_id-change_password}
use onsheet_backend.Users.Emails.{HasUniqueEmails}
use onsheet_backend.Auth.Registering.{validate_user-register}
use onsheet_backend.Auth.{
  SafeUser, register, validate_user, refresh_tokens, logout, validate_refresh, generate_tokens,
  safe, Payload,
}
use onsheet_backend.Auth.Sessions.{validate_refresh-refresh_tokens, logout-denies}
use onsheet_backend.Tests.Packages.{plain, spelled, settings, lone, dan', lone-HasUniqueEmails}

find_by_id-change_password_example :
    ((change_password ⦃p = in_memory⦄ plain "salt" "dan" "secret" "better" lone).0 ≡ ok tt)
    × (find_by_id ⦃p = in_memory⦄
          (change_password ⦃p = in_memory⦄ plain "salt" "dan" "secret" "better" lone).1
          "dan"
        ≡ some (with_password "hbetter" dan'))
find_by_id-change_password_example =
    find_by_id-change_password ⦃p = in_memory⦄ plain lone "dan" dan' "salt" "secret" "better" "dan"
      lone-HasUniqueEmails refl

abbrev claims : Payload
claims = record { sub = "dan"; email = "dan" }

validate_refresh-refresh_tokens_example :
    validate_refresh plain spelled settings ⦃p = in_memory⦄
      (refresh_tokens plain spelled settings ⦃p = in_memory⦄ 5 "salt" (safe dan') lone).1
      (some "token")
      none
      claims
    ≡ err (unauthorized "Unauthorized")
unfolding generate_tokens
validate_refresh-refresh_tokens_example =
    validate_refresh-refresh_tokens plain spelled settings ⦃p = in_memory⦄ lone dan' 5 "salt"
      "token" "htoken" none claims lone-HasUniqueEmails refl refl refl refl refl

logout-denies_example :
    (validate_refresh plain spelled settings ⦃p = in_memory⦄
        (logout plain spelled settings ⦃p = in_memory⦄ "dan" lone).1
        (some "token")
        none
        claims
      ≡ err (unauthorized "Unauthorized"))
    × (refresh_tokens plain spelled settings ⦃p = in_memory⦄ 5 "salt"
          (safe dan')
          (logout plain spelled settings ⦃p = in_memory⦄ "dan" lone).1
        ≡ (
          err (unauthorized "Unauthorized"),
          (logout plain spelled settings ⦃p = in_memory⦄ "dan" lone).1,
        ))
logout-denies_example =
    logout-denies plain spelled settings ⦃p = in_memory⦄ lone dan' 5 "salt" (some "token") none
      claims lone-HasUniqueEmails refl refl

abbrev eve : SafeUser
eve = record { id = "u"; email = "eve"; display_name = "Eve"; avatar_url = none }

validate_user-register_example :
    let (answer, after) =
      register plain spelled settings ⦃p = in_memory⦄ 5 "salt" "pepper" "eve" "Eve" "longer" lone in
    (answer ≡ ok (generate_tokens plain spelled settings 5 "u" "eve", eve))
    × (validate_user plain spelled settings ⦃p = in_memory⦄ after "eve" "longer" ≡ ok eve)
    × HasUniqueEmails ⦃p = in_memory⦄ after.users
unfolding validate_user
validate_user-register_example =
    validate_user-register plain spelled settings ⦃p = in_memory⦄ lone 5 "salt" "pepper" "eve" "Eve"
      "longer" "eve" "longer" lone-HasUniqueEmails refl
