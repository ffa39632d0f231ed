-- ===== src/Api.antt =====
-- The HTTP interface: a request goes through the guards (src/modules/auth/guards,
-- src/modules/auth/strategies), the validation of its body, its controller, and the filter and the
-- interceptor of src/common. The routes of src/modules/ai are in Api/Agent, and the rate limits stand
-- by themselves in Api/Limits. NestJS finds the route, and sends 201 for a POST and 200
-- otherwise where a route names no status.
pub mod Answers
pub mod Controllers
pub mod Validation
pub mod Guarding
pub mod Ownership
pub mod Editing
pub mod Limits
pub mod Confidential
pub mod Outsiders
pub mod Saving
pub mod Agent
use onsheet_backend.Base.{
  ℕ, String, Bool, true, false, Option, none, some, List, [], ◌∷◌, ◌==◌, string_eq, if◌then◌else◌,
  not,
}
use onsheet_backend.Prisma.{Prisma, Db}
use onsheet_backend.Http.{
  Result, ok, err, Exception, bad_request, unauthorized, type_error, require, refuse,
}
use onsheet_backend.Http.Checks
use onsheet_backend.Http.Actions.{Action, pure, raise, check, ◌>>=◌, ◌>>◌}
use onsheet_backend.Auth.{Payload, SafeUser, validate_access, validate_user, validate_refresh}
use onsheet_backend.Api.Answers.{
  Answer, plain_answer, health_value, Reply, filter_exception, transform,
}
use onsheet_backend.Api.Controllers.Accounts
use onsheet_backend.Api.Controllers.Accounts.{
  AuthRoute, UsersRoute, Draws, Server, auth_controller, users_controller,
}
use onsheet_backend.Api.Controllers.Workbooks
use onsheet_backend.Api.Controllers.Workbooks.{
  WorkbooksRoute, PermissionsRoute, workbooks_controller, permissions_controller,
}
use onsheet_backend.Api.Controllers.Sheets
use onsheet_backend.Api.Controllers.Sheets.{SheetsRoute, sheets_controller}
use onsheet_backend.Api.Controllers.Cells
use onsheet_backend.Api.Controllers.Cells.{CellsRoute, cells_controller, public_cells_controller}
use onsheet_backend.Api.Validation.{
  Validator, valid_auth, valid_users, valid_workbooks, valid_permissions, valid_sheets, valid_cells,
}

pub data Route : Type 0 where
  auth : AuthRoute → Route
  users : UsersRoute → Route
  workbooks : WorkbooksRoute → Route
  permissions : PermissionsRoute → Route
  sheets : SheetsRoute → Route
  -- `sheets/:sheetId/cells`
  cells : String → CellsRoute → Route
  -- `public/sheets/:shareToken/:sheetId/cells`
  public_cells : String → String → Route
  health : Route

-- The `@Public()` decorators: what `getAllAndOverride` finds on the method or on its class.
abbrev pub is_public : Route → Bool
is_public (auth (Accounts.register email name password)) = true
is_public (auth (Accounts.login email password)) = true
is_public (auth (Accounts.refresh token)) = true
is_public (workbooks (Workbooks.find_public token)) = true
is_public (public_cells token sheet_id) = true
is_public health = true
is_public _ = false

pub data Method : Type 0 where
  get post put patch delete : Method

-- The decorators `@Get`, `@Post`, `@Put`, `@Patch` and `@Delete`.
abbrev pub method : Route → Method
method (auth Accounts.me) = get
method (auth _) = post
method (users Accounts.get_me) = get
method (users (Accounts.update_me display_name avatar_url)) = patch
method (users (Accounts.change_password current_password new_password)) = patch
method (users Accounts.delete_me) = delete
method (workbooks (Workbooks.set_public_access id public_access)) = patch
method (workbooks (Workbooks.create name)) = post
method (workbooks (Workbooks.update id name)) = patch
method (workbooks (Workbooks.remove id)) = delete
method (workbooks _) = get
method (permissions (Workbooks.list_permissions id)) = get
method (permissions (Workbooks.share id email role)) = post
method (permissions (Workbooks.revoke id target)) = delete
method (sheets (Sheets.create id name)) = post
method (sheets (Sheets.update id name index)) = patch
method (sheets (Sheets.remove id)) = delete
method (sheets (Sheets.create_snapshot id name)) = post
method (sheets (Sheets.restore_snapshot id snapshot_id)) = post
method (sheets _) = get
method (cells sheet_id (Cells.upsert dto)) = put
method (cells sheet_id (Cells.bulk_upsert dtos)) = put
method (cells sheet_id (Cells.clear row col)) = delete
method (cells sheet_id (Cells.add_comment row col content)) = post
method (cells sheet_id (Cells.delete_comment comment_id)) = delete
method (cells sheet_id _) = get
method (public_cells token sheet_id) = get
method health = get

-- what NestJS sends where no `@HttpCode` stands
abbrev default_status : Method → ℕ
default_status post = 201
default_status _ = 200

-- The decorators `@HttpCode`.
abbrev pub status_code : Route → ℕ
status_code (auth (Accounts.login email password)) = 200
status_code (auth (Accounts.refresh token)) = 200
status_code (auth Accounts.logout) = 204
status_code (users (Accounts.change_password current_password new_password)) = 204
status_code (users Accounts.delete_me) = 204
status_code route = default_status (method route)

-- the `ValidationPipe` of src/main.ts on the DTO of the route
unfoldable pub is_valid : Validator → Route → Bool
unfolding valid_auth valid_users valid_workbooks valid_permissions valid_sheets valid_cells
is_valid v (auth route) = valid_auth v route
is_valid v (users route) = valid_users v route
is_valid v (workbooks route) = valid_workbooks v route
is_valid v (permissions route) = valid_permissions v route
is_valid v (sheets route) = valid_sheets v route
is_valid v (cells sheet_id route) = valid_cells v route
is_valid v _ = true

-- A request, with its cookies and its `Authorization: Bearer` header.
pub record Request : Type 0 where
  pub route : Route
  pub url : String
  pub access_cookie : Option String
  pub bearer : Option String
  pub refresh_cookie : Option String

-- `req?.cookies?.[COOKIE]`, if it is not empty, and else what the extractor finds
abbrev pub token_of : Option String → Option String → Option String
token_of none other = other
token_of (some cookie) other = if cookie == "" then other else some cookie

module _ (s : Server) (v : Validator) (d : Draws) ⦃p : Prisma⦄ where
  -- passport-jwt: a token that is missing or does not verify is refused as `validate` refuses
  abbrev pub claims_of : String → Option String → Result Payload
  claims_of secret none = err (unauthorized "Unauthorized")
  claims_of secret (some token) =
      require (unauthorized "Unauthorized") (s.jwt.verify_async d.now token secret)

  -- `AuthGuard("jwt")` with `JwtStrategy`, by the cookie and the header
  abbrev pub user_by : Option String → Option String → Db p → Result SafeUser
  user_by access_cookie bearer db =
      Checks.◌>>=◌ (claims_of s.config.access_secret (token_of access_cookie bearer))
        (λ claims. validate_access s.bcrypt s.jwt s.config db claims)

  abbrev pub user_of : Request → Db p → Result SafeUser
  user_of r db = user_by r.access_cookie r.bearer db

  abbrev pub some_user : Result SafeUser → Result (Option SafeUser)
  some_user (ok u) = ok (some u)
  some_user (err e) = err e

  -- `AuthGuard("jwt-refresh")` with `JwtRefreshStrategy`
  abbrev refreshing_user : Request → Option String → Db p → Result SafeUser
  refreshing_user r body db =
      Checks.◌>>=◌ (claims_of s.config.refresh_secret (token_of r.refresh_cookie body))
        (λ claims. validate_refresh s.bcrypt s.jwt s.config db r.refresh_cookie body claims)

  -- `@UseGuards(LocalAuthGuard)` and `@UseGuards(JwtRefreshGuard)`; no other route has guards of
  -- its own
  abbrev pub own_guard : Request → Route → Db p → Result (Option SafeUser)
  own_guard r (auth (Accounts.login email password)) db =
      some_user (validate_user s.bcrypt s.jwt s.config db email password)
  own_guard r (auth (Accounts.refresh token)) db = some_user (refreshing_user r token db)
  own_guard r _ db = ok none

  -- `JwtAuthGuard.canActivate`, then the guards of the route: `req.user`
  unfoldable pub can_activate : Request → Db p → Result (Option SafeUser)
  can_activate r db = if is_public r.route then own_guard r r.route db else some_user (user_of r db)

  -- `@CurrentUser("id")` of a route that the guard opens to users alone, so that there is one
  abbrev with_id : Option SafeUser → (String → Action (Db p) Answer) → Action (Db p) Answer
  with_id none f = raise type_error
  with_id (some u) f = f u.id

  unfoldable pub call : Route → Option SafeUser → Action (Db p) Answer
  unfolding auth_controller users_controller workbooks_controller permissions_controller
      sheets_controller cells_controller public_cells_controller
  call (auth route) user = auth_controller s d route user
  call (users route) user = with_id user (users_controller s d route)
  call (workbooks (Workbooks.find_public token)) user =
      workbooks_controller (Workbooks.find_public token) "" d.uuid
  call (workbooks route) user = with_id user (λ id. workbooks_controller route id d.uuid)
  call (permissions route) user = with_id user (permissions_controller route)
  call (sheets route) user = with_id user (sheets_controller route)
  call (cells sheet_id route) user = with_id user (cells_controller route sheet_id)
  call (public_cells token sheet_id) user = public_cells_controller token sheet_id
  call health user = pure (plain_answer (health_value d.now))

  -- guards, pipes, handler
  unfoldable pub handle : Request → Action (Db p) Answer
  unfolding can_activate call is_valid
  handle r = do
    user ← check (λ db. can_activate r db)
    check (λ _. refuse (bad_request "Bad Request") (not (is_valid v r.route)))
    call r.route user

  abbrev pub replied : Request → Result Answer × Db p → Reply × Db p
  replied r (ok a, db) = (transform (status_code r.route) a, db)
  replied r (err e, db) = (filter_exception d.now r.url e, db)

  unfoldable pub serve : Request → Db p → Reply × Db p
  unfolding handle transform filter_exception
  serve r db = replied r (handle r db)
