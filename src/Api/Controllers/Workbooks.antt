-- ===== src/Api/Controllers/Workbooks.antt =====
-- src/modules/workbooks/workbooks.controller.ts and
-- src/modules/permissions/permissions.controller.ts.
use onsheet_backend.Base.{String, Bool, Option}
use onsheet_backend.Prisma.{Prisma, Db, PermissionRole}
use onsheet_backend.Http.{ok}
use onsheet_backend.Http.Actions.{Action}
use onsheet_backend.Workbooks.Access
use onsheet_backend.Workbooks.Service
use onsheet_backend.Permissions
use onsheet_backend.Api.Answers.{
  Answer, returning, reading, workbook_value, workbook_with_sheets, workbook_view_value,
  workbooks_value, shared_value, share_info_value, collaborator_value, collaborators_value,
  permission_value,
}

-- `@Controller("workbooks")`, with the route's parameters and the DTO's fields
pub data WorkbooksRoute : Type 0 where
  find_public : String → WorkbooksRoute
  shared_with_me : WorkbooksRoute
  get_share_info : String → WorkbooksRoute
  set_public_access : String → Bool → WorkbooksRoute
  find_all : WorkbooksRoute
  find_one : String → WorkbooksRoute
  create : String → WorkbooksRoute
  update : String → Option String → WorkbooksRoute
  remove : String → WorkbooksRoute

-- `@Controller("workbooks/:workbookId/permissions")`
pub data PermissionsRoute : Type 0 where
  list_permissions : String → PermissionsRoute
  share : String → String → PermissionRole → PermissionsRoute
  revoke : String → String → PermissionsRoute

module _ ⦃p : Prisma⦄ where
  -- the methods of `WorkbooksController`, with the id of the current user and a UUID for `create`
  -- of a share token
  unfoldable pub workbooks_controller : WorkbooksRoute → String → String → Action (Db p) Answer
  unfolding Service.create Service.update Service.remove Service.set_public_access
  workbooks_controller (find_public share_token) user_id uuid =
      reading (λ x. workbook_with_sheets x.0 x.1) (λ db. Service.find_by_share_token db share_token)
  workbooks_controller shared_with_me user_id uuid =
      reading shared_value (λ db. ok (Service.shared_with_me db user_id))
  workbooks_controller (get_share_info id) user_id uuid =
      reading share_info_value (λ db. Service.get_share_info db id user_id)
  workbooks_controller (set_public_access id public_access) user_id uuid =
      returning share_info_value (Service.set_public_access id user_id public_access uuid)
  workbooks_controller find_all user_id uuid =
      reading workbooks_value (λ db. ok (Service.find_all_for_user db user_id))
  workbooks_controller (find_one id) user_id uuid =
      reading workbook_view_value (λ db. Access.find_one db id user_id)
  workbooks_controller (create name) user_id uuid =
      returning (λ x. workbook_with_sheets x.0 x.1) (Service.create user_id name)
  workbooks_controller (update id name) user_id uuid =
      returning workbook_value (Service.update id user_id name)
  workbooks_controller (remove id) user_id uuid =
      returning workbook_value (Service.remove id user_id)

  -- the methods of `PermissionsController`
  unfoldable pub permissions_controller : PermissionsRoute → String → Action (Db p) Answer
  unfolding Permissions.share Permissions.revoke
  permissions_controller (list_permissions workbook_id) user_id =
      reading collaborators_value (λ db. Permissions.find_all db workbook_id user_id)
  permissions_controller (share workbook_id email role) user_id =
      returning collaborator_value (Permissions.share workbook_id user_id email role)
  permissions_controller (revoke workbook_id target) user_id =
      returning permission_value (Permissions.revoke workbook_id target user_id)
