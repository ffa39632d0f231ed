-- ===== src/Api/Validation.antt =====
-- The DTOs of src/modules/*/dto, and of the controllers, by their decorators. The checks themselves
-- are those of class-validator, a package. What the type of a field says already (a string, a
-- Boolean, a role, a whole number that is not negative) holds of the model's values. The array of
-- the bulk route is checked by nothing: a pipe does not see the type of its items.
use onsheet_backend.Base.{ℕ, String, Bool, true, ◌&&◌, not, ◌==◌, string_eq, Option, none, some}
use onsheet_backend.Prisma.{PermissionRole}
use onsheet_backend.Ai.Service
use onsheet_backend.Ai.Service.{AiRoute}
use onsheet_backend.Api.Controllers.Accounts
use onsheet_backend.Api.Controllers.Accounts.{AuthRoute, UsersRoute}
use onsheet_backend.Api.Controllers.Workbooks
use onsheet_backend.Api.Controllers.Workbooks.{WorkbooksRoute, PermissionsRoute}
use onsheet_backend.Api.Controllers.Sheets
use onsheet_backend.Api.Controllers.Sheets.{SheetsRoute}
use onsheet_backend.Api.Controllers.Cells
use onsheet_backend.Api.Controllers.Cells.{CellsRoute}

-- `@IsEmail`, `@IsUrl`, `@MinLength` and `@MaxLength`
pub record Validator : Type 0 where
  pub is_email : String → Bool
  pub is_url : String → Bool
  pub min_length : ℕ → String → Bool
  pub max_length : ℕ → String → Bool

-- `@IsOptional()`
abbrev optional : (String → Bool) → Option String → Bool
optional f none = true
optional f (some s) = f s

module _ (v : Validator) where
  abbrev between : ℕ → ℕ → String → Bool
  between least most s = v.min_length least s && v.max_length most s

  -- what `RegisterDto` and its fellows accept, for the fields that they have
  unfoldable pub register_dto : String → String → String → Bool
  register_dto email name password =
      v.is_email email && (between 2 80 name && between 8 128 password)

  unfoldable pub update_user_dto : Option String → Option String → Bool
  update_user_dto display_name avatar_url =
      optional (v.max_length 80) display_name && optional v.is_url avatar_url

  unfoldable pub change_password_dto : String → String → Bool
  change_password_dto current_password new_password = between 8 128 new_password

  unfoldable pub create_workbook_dto : String → Bool
  create_workbook_dto name = between 1 255 name

  -- `PartialType(CreateWorkbookDto)`
  unfoldable pub update_workbook_dto : Option String → Bool
  update_workbook_dto name = optional create_workbook_dto name

  unfoldable pub share_dto : String → PermissionRole → Bool
  share_dto email role = v.is_email email

  unfoldable pub create_sheet_dto : Option String → Bool
  create_sheet_dto name = optional (v.max_length 100) name

  unfoldable pub update_sheet_dto : Option String → Option ℕ → Bool
  update_sheet_dto name index = optional (v.max_length 100) name

  unfoldable pub create_snapshot_dto : Option String → Bool
  create_snapshot_dto name = optional (v.max_length 200) name

  unfoldable pub add_comment_dto : ℕ → ℕ → String → Bool
  add_comment_dto row col content = not (content == "") && v.max_length 2000 content

  unfoldable pub agent_query_dto : String → String → Option String → Bool
  agent_query_dto query sheet_id session_id =
      between 1 2000 query && optional (v.max_length 128) session_id

  unfoldable pub ai_query_dto : String → Option String → Bool
  ai_query_dto prompt context = between 1 2000 prompt && optional (v.max_length 10000) context

  -- The body of each route. What passport-local reads for a login is checked by no DTO.
  unfoldable pub valid_auth : AuthRoute → Bool
  unfolding register_dto
  valid_auth (Accounts.register email name password) = register_dto email name password
  valid_auth _ = true

  unfoldable pub valid_users : UsersRoute → Bool
  unfolding update_user_dto change_password_dto
  valid_users (Accounts.update_me display_name avatar_url) = update_user_dto display_name avatar_url
  valid_users (Accounts.change_password current_password new_password) =
      change_password_dto current_password new_password
  valid_users _ = true

  unfoldable pub valid_workbooks : WorkbooksRoute → Bool
  unfolding create_workbook_dto update_workbook_dto
  valid_workbooks (Workbooks.create name) = create_workbook_dto name
  valid_workbooks (Workbooks.update id name) = update_workbook_dto name
  valid_workbooks _ = true

  unfoldable pub valid_permissions : PermissionsRoute → Bool
  unfolding share_dto
  valid_permissions (Workbooks.share id email role) = share_dto email role
  valid_permissions _ = true

  unfoldable pub valid_sheets : SheetsRoute → Bool
  unfolding create_sheet_dto update_sheet_dto create_snapshot_dto
  valid_sheets (Sheets.create id name) = create_sheet_dto name
  valid_sheets (Sheets.update id name index) = update_sheet_dto name index
  valid_sheets (Sheets.create_snapshot id name) = create_snapshot_dto name
  valid_sheets _ = true

  unfoldable pub valid_cells : CellsRoute → Bool
  unfolding add_comment_dto
  valid_cells (Cells.add_comment row col content) = add_comment_dto row col content
  valid_cells _ = true

  unfoldable pub valid_ai : AiRoute → Bool
  unfolding agent_query_dto ai_query_dto
  valid_ai (Service.agent sheet_id session_id query) = agent_query_dto query sheet_id session_id
  valid_ai (Service.formula dto) = ai_query_dto dto.prompt dto.context
  valid_ai (Service.analyze dto) = ai_query_dto dto.prompt dto.context
