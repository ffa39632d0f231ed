-- ===== src/Api/Controllers/Accounts.antt =====
-- src/modules/auth/auth.controller.ts and src/modules/users/users.controller.ts.
use onsheet_backend.Base.{ℕ, String, Option, none, some, List, []}
use onsheet_backend.Prisma.{Prisma, Db, User}
use onsheet_backend.Http.{Result, ok, unauthorized, type_error, require}
use onsheet_backend.Http.Actions.{Action, pure, check, ◌>>=◌}
use onsheet_backend.Users
use onsheet_backend.Users.{Bcrypt, find_by_id}
use onsheet_backend.Auth
use onsheet_backend.Auth.{Jwt, JwtConfig, SafeUser, Tokens, safe}
use onsheet_backend.Auth.Cookies.{CookieCommand, attach_cookies, clear_cookies}
use onsheet_backend.Api.Answers.{Value, nothing, user_value, Answer, returning, reading}

-- `@Controller("auth")`; a login has been checked by its guard, and its password is read there
pub data AuthRoute : Type 0 where
  register : String → String → String → AuthRoute
  login : String → String → AuthRoute
  refresh : Option String → AuthRoute
  logout : AuthRoute
  me : AuthRoute

-- `@Controller("users")`
pub data UsersRoute : Type 0 where
  get_me : UsersRoute
  update_me : Option String → Option String → UsersRoute
  change_password : String → String → UsersRoute
  delete_me : UsersRoute

-- What a request draws: the time, the salts of its hashes, and a UUID.
pub record Draws : Type 0 where
  pub now : ℕ
  pub salt : String
  pub token_salt : String
  pub uuid : String

-- The packages and the settings.
pub record Server : Type 0 where
  pub bcrypt : Bcrypt
  pub jwt : Jwt
  pub config : JwtConfig
  pub node_env : String

abbrev answer_with : Value → List CookieCommand → Answer
answer_with v cookies = record { value = v; cookies = cookies; broadcasts = [] }

-- `@CurrentUser()` of a route that the guard opens to users alone, so that there is one
abbrev signed_in : Option SafeUser → Result SafeUser
signed_in = require type_error

abbrev maybe_user : Option User → Value
maybe_user none = nothing
maybe_user (some u) = user_value (safe u)

module _ (s : Server) (d : Draws) ⦃p : Prisma⦄ where
  -- the methods of `AuthController`, with `req.user`
  unfoldable pub auth_controller : AuthRoute → Option SafeUser → Action (Db p) Answer
  unfolding Auth.register Auth.login Auth.refresh_tokens Auth.logout attach_cookies clear_cookies
  auth_controller (register email name password) user =
      Auth.register s.bcrypt s.jwt s.config d.now d.salt d.token_salt email name password >>= λ x.
      pure (answer_with (user_value x.1) (attach_cookies s.node_env x.0))
  auth_controller (login email password) user =
      check (λ _. require (unauthorized "Unauthorized") user) >>= λ u.
      Auth.login s.bcrypt s.jwt s.config d.now d.token_salt u >>= λ x.
      pure (answer_with (user_value x.1) (attach_cookies s.node_env x.0))
  auth_controller (refresh token) user =
      check (λ _. require (unauthorized "Unauthorized") user) >>= λ u.
      Auth.refresh_tokens s.bcrypt s.jwt s.config d.now d.token_salt u >>= λ tokens.
      pure (answer_with nothing (attach_cookies s.node_env tokens))
  auth_controller logout user = check (λ _. signed_in user) >>= λ u.
      Auth.logout s.bcrypt s.jwt s.config u.id >>= λ _.
      pure (answer_with nothing (clear_cookies s.node_env))
  auth_controller me user =
      check (λ _. signed_in user) >>= λ u. pure (answer_with (user_value u) [])

  -- the methods of `UsersController`
  unfoldable pub users_controller : UsersRoute → String → Action (Db p) Answer
  unfolding Users.update Users.change_password Users.remove
  users_controller get_me user_id = reading maybe_user (λ db. ok (find_by_id db user_id))
  users_controller (update_me display_name avatar_url) user_id =
      returning (λ u. user_value (safe u)) (Users.update user_id display_name avatar_url)
  users_controller (change_password current_password new_password) user_id =
      returning (λ _. nothing)
        (Users.change_password s.bcrypt d.salt user_id current_password new_password)
  users_controller delete_me user_id = returning (λ _. nothing) (Users.remove user_id)
