-- ===== src/Auth/Sessions.antt =====
-- Which refresh tokens are accepted after a login, a refresh and a logout.
use onsheet_backend.Auth.{store_refresh_token, JwtConfig, Jwt}
use onsheet_backend.Base.{
  sym, ℕ, String, false, Option, none, some, ◌==◌, ◌≡◌, refl, string_eq, arith, eq_iff,
  if◌then◌else◌, ap, ◌∙◌,
}
use onsheet_backend.Prisma.{Prisma, Db, User}
use onsheet_backend.Http.{ok, err, unauthorized}
use onsheet_backend.Users.{
  Bcrypt, find_by_id, with_refresh_token, update_refresh_token, clear_refresh_token,
}
use onsheet_backend.Users.Emails.{HasUniqueEmails, clashes_same_email}
use onsheet_backend.Auth.{
  Jwt, JwtConfig, Payload, safe, generate_tokens, login, refresh_tokens, logout, validate_refresh,
}

module _ (bcrypt : Bcrypt) (jwt : Jwt) (config : JwtConfig) ⦃p : Prisma⦄ (db : Db p)
    (u : User) where
  -- A stored token is the new token of its user alone.
  pub update_refresh_token_lem :
      (token : Option String) (other : String)
      → HasUniqueEmails db.users
      → find_by_id db u.id ≡ some u
      → (update_refresh_token u.id token db ≡ (
        ok (with_refresh_token token u),
        record db { users = p.users.write db.users (with_refresh_token token u) },
      ))
        × (find_by_id (update_refresh_token u.id token db).1 other
            ≡ (if u.id == other then some (with_refresh_token token u) else find_by_id db other))
  unfolding update_refresh_token
  update_refresh_token_lem token other unique found = ground (
    arith,
    found,
    p.users-IsLawful.update_lem db.users u.id (with_refresh_token token) (λ r. refl),
    clashes_same_email db.users u (with_refresh_token token u) unique,
    p.users-IsLawful.find-write db.users (with_refresh_token token u) other,
  )

  -- the refresh token that a login or a refresh issues
  abbrev pub issued : ℕ → String
  issued now = (generate_tokens bcrypt jwt config now u.id u.email).refresh_token

  -- What the refresh strategy says once `token` is stored for the user.
  verdict_stored :
      (salt token t : String) (body : Option String) (payload : Payload)
      → HasUniqueEmails db.users
      → find_by_id db u.id ≡ some u
      → payload.sub ≡ u.id
      → (t == "") ≡ false
      → validate_refresh bcrypt jwt config
          (update_refresh_token u.id (some (bcrypt.hash salt 10 token)) db).1
          (some t)
          body
          payload
        ≡ (if bcrypt.prefix t == bcrypt.prefix token
            then ok (safe u)
            else err (unauthorized "Unauthorized"))
  unfolding validate_refresh
  verdict_stored salt token t body payload unique found claims present = ground (
    arith,
    present,
    (update_refresh_token_lem (some (bcrypt.hash salt 10 token)) payload.sub unique found).1,
    (eq_iff u.id payload.sub).1 (sym claims),
    bcrypt.hash-not_empty salt 10 token,
    bcrypt.compare-hash salt 10 t token,
  )

  pub after-login :
      (now : ℕ) (salt : String)
      → HasUniqueEmails db.users
      → find_by_id db u.id ≡ some u
      → (login bcrypt jwt config now salt (safe u) db).1
        ≡ (update_refresh_token u.id (some (bcrypt.hash salt 10 (issued now))) db).1
  unfolding login store_refresh_token
  after-login now salt unique found = ground (
    arith,
    (update_refresh_token_lem (some (bcrypt.hash salt 10 (issued now))) u.id unique found).0,
  )

  after-refresh_tokens :
      (now : ℕ) (salt hash : String)
      → HasUniqueEmails db.users
      → find_by_id db u.id ≡ some u
      → u.refresh_token ≡ some hash
      → (hash == "") ≡ false
      → (refresh_tokens bcrypt jwt config now salt (safe u) db).1
        ≡ (update_refresh_token u.id (some (bcrypt.hash salt 10 (issued now))) db).1
  unfolding refresh_tokens store_refresh_token
  after-refresh_tokens now salt hash unique found stored full = ground (
    arith,
    found,
    stored,
    full,
    (update_refresh_token_lem (some (bcrypt.hash salt 10 (issued now))) u.id unique found).0,
  )

  -- A login stores its refresh token: afterwards the refresh strategy accepts a token with the
  -- user's claims, if it is not empty, exactly where its first 72 bytes are those of the issued
  -- token.
  pub validate_refresh-login :
      (now : ℕ) (salt t : String) (body : Option String) (payload : Payload)
      → HasUniqueEmails db.users
      → find_by_id db u.id ≡ some u
      → payload.sub ≡ u.id
      → (t == "") ≡ false
      → validate_refresh bcrypt jwt config
          (login bcrypt jwt config now salt (safe u) db).1
          (some t)
          body
          payload
        ≡ (if bcrypt.prefix t == bcrypt.prefix (issued now)
            then ok (safe u)
            else err (unauthorized "Unauthorized"))
  unfolding login
  validate_refresh-login now salt t body payload unique found claims present =
      ap (λ d. validate_refresh bcrypt jwt config d (some t) body payload)
        (after-login now salt unique found)
      ∙ verdict_stored salt (issued now) t body payload unique found claims present

  -- A refresh replaces the stored token: afterwards the refresh strategy accepts a token with the
  -- user's claims, if it is not empty, exactly where its first 72 bytes are those of the new token,
  -- so also an earlier token that begins with the same 72 bytes.
  pub validate_refresh-refresh_tokens :
      (now : ℕ) (salt t hash : String) (body : Option String) (payload : Payload)
      → HasUniqueEmails db.users
      → find_by_id db u.id ≡ some u
      → u.refresh_token ≡ some hash
      → (hash == "") ≡ false
      → payload.sub ≡ u.id
      → (t == "") ≡ false
      → validate_refresh bcrypt jwt config
          (refresh_tokens bcrypt jwt config now salt (safe u) db).1
          (some t)
          body
          payload
        ≡ (if bcrypt.prefix t == bcrypt.prefix (issued now)
            then ok (safe u)
            else err (unauthorized "Unauthorized"))
  unfolding refresh_tokens
  validate_refresh-refresh_tokens now salt t hash body payload unique found stored full claims
        present =
      ap (λ d. validate_refresh bcrypt jwt config d (some t) body payload)
        (after-refresh_tokens now salt hash unique found stored full)
      ∙ verdict_stored salt (issued now) t body payload unique found claims present

  -- After a logout no refresh token of the user is accepted, from a cookie or from the body, and a
  -- refresh throws `UnauthorizedException` and changes nothing.
  pub logout-denies :
      (now : ℕ) (salt : String) (cookie body : Option String) (payload : Payload)
      → HasUniqueEmails db.users
      → find_by_id db u.id ≡ some u
      → payload.sub ≡ u.id
      → let after = (logout bcrypt jwt config u.id db).1 in
        (validate_refresh bcrypt jwt config after cookie body payload
          ≡ err (unauthorized "Unauthorized"))
        × (refresh_tokens bcrypt jwt config now salt (safe u) after
            ≡ (err (unauthorized "Unauthorized"), after))
  unfolding logout refresh_tokens validate_refresh clear_refresh_token
  logout-denies now salt cookie body payload unique found claims = ground (
    arith,
    (update_refresh_token_lem none payload.sub unique found).1,
    (update_refresh_token_lem none u.id unique found).1,
    (update_refresh_token_lem none u.id unique found).0,
    (eq_iff u.id payload.sub).1 (sym claims),
    (eq_iff u.id u.id).1 refl,
  )
