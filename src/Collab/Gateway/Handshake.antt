-- ===== src/Collab/Gateway/Handshake.antt =====
-- Which handshakes an old refresh cookie opens.
use onsheet_backend.Base.{
  ℕ, String, false, Option, none, some, ◌==◌, ◌≡◌, string_eq, arith, ap, ◌∙◌, sym, subst, eq_iff,
}
use onsheet_backend.Base.Dict.{lookup}
use onsheet_backend.Prisma.{Prisma, Db, User}
use onsheet_backend.Users.{Bcrypt, find_by_id, with_refresh_token, clear_refresh_token}
use onsheet_backend.Users.Emails.{HasUniqueEmails, write-HasUniqueEmails}
use onsheet_backend.Auth.{Jwt, JwtConfig, Payload, safe, login, logout}
use onsheet_backend.Auth.Sessions.{update_refresh_token_lem, after-login, issued}
use onsheet_backend.Auth.Cookies.{access_cookie, refresh_cookie}
use onsheet_backend.Collab.Cookies.{parse_cookies}
use onsheet_backend.Collab.Gateway.{authenticate, user, guest}

module _ (bcrypt : Bcrypt) (jwt : Jwt) (config : JwtConfig) ⦃p : Prisma⦄ (db : Db p) (u : User)
    (unique : HasUniqueEmails db.users) (found : find_by_id db u.id ≡ some u) where
  abbrev logged_out : Db p
  logged_out = (logout bcrypt jwt config u.id db).1

  abbrev outside : User
  outside = with_refresh_token none u

  logged_out_lem : logged_out ≡ record db { users = p.users.write db.users outside }
  unfolding logout clear_refresh_token
  logged_out_lem =
      ground (arith, (update_refresh_token_lem bcrypt jwt config db u none u.id unique found).0)

  found-logged_out : find_by_id logged_out u.id ≡ some outside
  found-logged_out =
      ap (λ (d : Db p). find_by_id d u.id) logged_out_lem
      ∙ p.users-IsLawful.find-write db.users outside u.id
      ∙ ground (arith, eq_iff u.id u.id)

  unique-logged_out : HasUniqueEmails logged_out.users
  unique-logged_out =
      subst (λ (d : Db p). HasUniqueEmails d.users) (sym logged_out_lem)
        (write-HasUniqueEmails db.users outside unique
          (λ i x f same. unique.unique_lem i u.id x u f found same))

  -- the user's row after the next login
  abbrev inside : ℕ → String → User
  inside now salt =
      with_refresh_token
        (some (bcrypt.hash salt 10 (issued bcrypt jwt config logged_out outside now))) u

  found-login :
      (now : ℕ) (salt : String)
      → find_by_id (login bcrypt jwt config now salt (safe u) logged_out).1 u.id
        ≡ some (inside now salt)
  found-login now salt =
      ap (λ (d : Db p). find_by_id d u.id)
        (after-login bcrypt jwt config logged_out outside now salt unique-logged_out
          found-logged_out)
      ∙ (update_refresh_token_lem bcrypt jwt config logged_out outside
          (some (bcrypt.hash salt 10 (issued bcrypt jwt config logged_out outside now))) u.id
          unique-logged_out found-logged_out).1
      ∙ ground (arith, eq_iff u.id u.id)

  -- A logout does not put an end to a session for the gateway. A handshake without a token of its
  -- own and without an access cookie, whose refresh cookie still verifies for the user, is a
  -- guest's after the user's logout. But once the user has logged in again, from anywhere, the same
  -- old cookie is taken for the user, whatever the token that the login issued.
  pub authenticate-login :
      (now now' : ℕ) (salt cookie guest_id : String) (header : Option String) (claims : Payload)
      → lookup access_cookie (parse_cookies header) ≡ none
      → lookup refresh_cookie (parse_cookies header) ≡ some cookie
      → (cookie == "") ≡ false
      → jwt.verify_async now' cookie config.refresh_secret ≡ some claims
      → claims.sub ≡ u.id
      → let out = (logout bcrypt jwt config u.id db).1 in
        let back = (login bcrypt jwt config now salt (safe u) out).1 in
        (authenticate jwt config now' out none header guest_id ≡ guest guest_id)
        × (authenticate jwt config now' back none header guest_id ≡ user (safe u))
  unfolding authenticate
  authenticate-login now now' salt cookie guest_id header claims no_access held full verified same =
      (
        ground (
          arith,
          no_access,
          held,
          full,
          verified,
          ap (find_by_id logged_out) same ∙ found-logged_out,
        ),
        ground (
          arith,
          no_access,
          held,
          full,
          verified,
          ap (find_by_id (login bcrypt jwt config now salt (safe u) logged_out).1) same
              ∙ found-login now salt,
          bcrypt.hash-not_empty salt 10 (issued bcrypt jwt config logged_out outside now),
        ),
      )
