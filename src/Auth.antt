-- ===== src/Auth.antt =====
-- src/modules/auth: registering, logging in, refreshing and logging out (auth.service.ts), and what
-- the passport strategies accept (strategies/*.ts). The package @nestjs/jwt is a parameter. A call
-- that draws salts or reads the clock takes them as arguments.
pub mod Cookies
pub mod Registering
pub mod Sessions
use onsheet_backend.Base.{
  if◌then◌else◌, ℕ, String, Bool, true, Option, none, some, List, [], ◌∷◌, ◌==◌, ◌≡◌, string_eq,
  not, is_some,
}
use onsheet_backend.Prisma.{Prisma, Db, User}
use onsheet_backend.Http.{Result, ok, err, unauthorized, conflict, require, refuse}
use onsheet_backend.Http.Checks
use onsheet_backend.Http.Actions.{Action, pure, check, ◌>>=◌, ◌>>◌}
use onsheet_backend.Permissions.{find_by_email}
use onsheet_backend.Users.{Bcrypt, find_by_id, create, update_refresh_token, clear_refresh_token}

-- the claims `{ sub, email }`
pub record Payload : Type 0 where
  pub sub : String
  pub email : String

-- `signAsync` with a secret and a lifetime, `verifyAsync` with a secret, each at a time; a token
-- verifies with the secret that signed it at the time of signing.
pub record Jwt : Type 0 where
  pub sign_async : ℕ → Payload → String → String → String
  pub verify_async : ℕ → String → String → Option Payload
  pub verify-sign :
      (now : ℕ) (claims : Payload) (secret expires_in : String)
      → verify_async now (sign_async now claims secret expires_in) secret ≡ some claims

-- the settings `jwt.*` of the configuration
pub record JwtConfig : Type 0 where
  pub access_secret : String
  pub access_expires_in : String
  pub refresh_secret : String
  pub refresh_expires_in : String

pub record Tokens : Type 0 where
  pub access_token : String
  pub refresh_token : String

-- A user without `passwordHash` and `refreshToken`.
pub record SafeUser : Type 0 where
  pub id : String
  pub email : String
  pub display_name : String
  pub avatar_url : Option String

abbrev pub safe : User → SafeUser
safe u = record {
  id = u.id;
  email = u.email;
  display_name = u.display_name;
  avatar_url = u.avatar_url;
}

abbrev pub stored_token : Option User → Option String
stored_token none = none
stored_token (some u) = u.refresh_token

-- `!user?.refreshToken`: there is no user, or the token is null or empty
abbrev pub token_missing : Option User → Bool
token_missing none = true
token_missing (some u) = elim u.refresh_token [ none ↦ true | some t ↦ t == "" ]

module _ (bcrypt : Bcrypt) (jwt : Jwt) (config : JwtConfig) where
  unfoldable pub generate_tokens : ℕ → String → String → Tokens
  generate_tokens now user_id email = record {
    access_token =
        jwt.sign_async now (record { sub = user_id; email = email }) config.access_secret
          config.access_expires_in;
    refresh_token =
        jwt.sign_async now (record { sub = user_id; email = email }) config.refresh_secret
          config.refresh_expires_in;
  }

  module _ ⦃p : Prisma⦄ where
    unfoldable pub store_refresh_token : String → String → String → Action (Db p) User
    unfolding update_refresh_token
    store_refresh_token salt user_id token =
        update_refresh_token user_id (some (bcrypt.hash salt 10 token))

    unfoldable pub register :
        ℕ → String → String → String → String → String → Action (Db p) (Tokens × SafeUser)
    unfolding create store_refresh_token generate_tokens
    register now salt token_salt email name password = do
      check (λ db. refuse (conflict "Email already in use" none) (is_some (find_by_email db email)))
      user ← create email name (bcrypt.hash salt 12 password)
      let tokens = generate_tokens now user.id user.email
      store_refresh_token token_salt user.id tokens.refresh_token
      pure (tokens, safe user)

    -- also `LocalStrategy.validate`
    unfoldable pub validate_user : Db p → String → String → Result SafeUser
    validate_user db email password =
        Checks.◌>>=◌ (require (unauthorized "Invalid credentials") (find_by_email db email))
          (λ user.
            Checks.◌>>◌
              (refuse (unauthorized "Invalid credentials")
                (not (bcrypt.compare password user.password_hash)))
              (ok (safe user)))

    unfoldable pub login : ℕ → String → SafeUser → Action (Db p) (Tokens × SafeUser)
    unfolding store_refresh_token generate_tokens
    login now salt user = do
      let tokens = generate_tokens now user.id user.email
      store_refresh_token salt user.id tokens.refresh_token
      pure (tokens, user)

    unfoldable pub refresh_tokens : ℕ → String → SafeUser → Action (Db p) Tokens
    unfolding store_refresh_token generate_tokens
    refresh_tokens now salt user = do
      check (λ db. refuse (unauthorized "Unauthorized") (token_missing (find_by_id db user.id)))
      let tokens = generate_tokens now user.id user.email
      store_refresh_token salt user.id tokens.refresh_token
      pure tokens

    unfoldable pub logout : String → Action (Db p) (Unit {0})
    unfolding clear_refresh_token
    logout user_id = do clear_refresh_token user_id; pure tt

    -- `JwtStrategy.validate`
    unfoldable pub validate_access : Db p → Payload → Result SafeUser
    validate_access db payload =
        Checks.◌>>=◌ (require (unauthorized "Unauthorized") (find_by_id db payload.sub))
          (λ user. ok (safe user))

    -- `await bcrypt.compare(refreshToken, user.refreshToken)`
    abbrev token_matches : String → Option User → Bool
    token_matches token none = Bool.false
    token_matches token (some u) = elim u.refresh_token [
      | none ↦ Bool.false
      | some hash ↦ bcrypt.compare token hash
    ]

    -- `!user?.refreshToken || !refreshToken`
    abbrev refresh_missing : Option User → Option String → Bool
    refresh_missing user none = true
    refresh_missing user (some token) = if token == "" then true else token_missing user

    abbrev given : Option String → String
    given none = ""
    given (some token) = token

    -- `req.cookies?.[REFRESH_COOKIE] ?? req.body?.refreshToken`
    abbrev pub presented : Option String → Option String → Option String
    presented none body = body
    presented (some cookie) body = some cookie

    -- `JwtRefreshStrategy.validate`, with the token of the cookie and of the body
    unfoldable pub validate_refresh :
        Db p → Option String → Option String → Payload → Result SafeUser
    validate_refresh db cookie body payload =
        let token = presented cookie body in
        Checks.◌>>◌
          (refuse (unauthorized "Unauthorized") (refresh_missing (find_by_id db payload.sub) token))
          (Checks.◌>>◌
            (refuse (unauthorized "Unauthorized")
              (not (token_matches (given token) (find_by_id db payload.sub))))
            (Checks.◌>>=◌ (require (unauthorized "Unauthorized") (find_by_id db payload.sub))
              (λ user. ok (safe user))))
