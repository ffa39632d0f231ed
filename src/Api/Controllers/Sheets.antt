-- ===== src/Api/Controllers/Sheets.antt =====
-- src/modules/sheets/sheets.controller.ts.
use Prim.Native.String.{◌++◌ as append}
use onsheet_backend.Base.{
  ℕ, String, Option, none, some, List, [], ◌∷◌, ◌==◌, string_eq, if◌then◌else◌,
}
use onsheet_backend.Prisma.{Prisma, Db, Sheet}
use onsheet_backend.Http.Actions.{Action, pure, ◌>>=◌}
use onsheet_backend.Sheets.Service
use onsheet_backend.Sheets.Service.{SheetRemoved}
use onsheet_backend.Api.Answers.{
  Answer, Broadcast, sheet_created, sheet_deleted, returning, reading, sheet_value, sheets_value,
  sheet_removed_value, snapshot_value, snapshots_value, restored_value,
}

-- `@Controller("workbooks/:workbookId/sheets")`; a method that does not read `:workbookId` has no
-- such parameter
pub data SheetsRoute : Type 0 where
  find_all : String → SheetsRoute
  find_one : String → SheetsRoute
  create : String → Option String → SheetsRoute
  update : String → Option String → Option ℕ → SheetsRoute
  remove : String → SheetsRoute
  list_snapshots : String → SheetsRoute
  create_snapshot : String → Option String → SheetsRoute
  restore_snapshot : String → String → SheetsRoute

-- `workbook:${workbookId}`
abbrev workbook_room : String → String
workbook_room id = append "workbook:" id

-- `if (result.workbookId)`
abbrev deleted_in : Option String → String → List Broadcast
deleted_in none sheet_id = []
deleted_in (some id) sheet_id =
    if id == "" then [] else sheet_deleted (workbook_room id) sheet_id ∷ []

abbrev created_answer : String → Sheet → Answer
created_answer workbook_id sheet = record {
  value = sheet_value sheet;
  cookies = [];
  broadcasts = sheet_created (workbook_room workbook_id) sheet ∷ [];
}

abbrev removed_answer : SheetRemoved → Answer
removed_answer result = record {
  value = sheet_removed_value result;
  cookies = [];
  broadcasts = deleted_in result.workbook_id result.sheet_id;
}

module _ ⦃p : Prisma⦄ where
  -- the methods of `SheetsController`
  unfoldable pub sheets_controller : SheetsRoute → String → Action (Db p) Answer
  unfolding Service.create Service.update Service.remove Service.create_snapshot
      Service.restore_snapshot
  sheets_controller (find_all workbook_id) user_id =
      reading sheets_value (λ db. Service.find_all db workbook_id user_id)
  sheets_controller (find_one id) user_id =
      reading sheet_value (λ db. Service.find_one db id user_id)
  sheets_controller (create workbook_id name) user_id =
      Service.create workbook_id user_id name >>= λ sheet. pure (created_answer workbook_id sheet)
  sheets_controller (update id name index) user_id =
      returning sheet_value (Service.update id user_id name index)
  sheets_controller (remove id) user_id =
      Service.remove id user_id >>= λ result. pure (removed_answer result)
  sheets_controller (list_snapshots id) user_id =
      reading snapshots_value (λ db. Service.list_snapshots db id user_id)
  sheets_controller (create_snapshot id name) user_id =
      returning snapshot_value (Service.create_snapshot id user_id name)
  sheets_controller (restore_snapshot id snapshot_id) user_id =
      returning restored_value (Service.restore_snapshot id snapshot_id user_id)
