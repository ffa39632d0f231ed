-- ===== src/Api/Answers.antt =====
-- What a route answers: src/common/interceptors/transform.interceptor.ts wraps a value, and
-- src/common/filters/http-exception.filter.ts turns an exception into a body of its own.
use onsheet_backend.Base.{ℕ, String, Option, none, some, List, []}
use onsheet_backend.Prisma.{User, Workbook, Sheet, Cell, Permission, SheetSnapshot, CellComment}
use onsheet_backend.Http.{
  Exception, bad_request, unauthorized, forbidden, not_found, conflict, known_request, type_error,
  other_error, Result, ok, err,
}
use onsheet_backend.Http.Actions.{Action}
use onsheet_backend.Auth.{SafeUser}
use onsheet_backend.Auth.Cookies.{CookieCommand}
use onsheet_backend.Workbooks.Access.{WorkbookView}
use onsheet_backend.Workbooks.Service.{ShareInfo, SharedWorkbook}
use onsheet_backend.Permissions.{Collaborator}
use onsheet_backend.Sheets.Service.{SheetRemoved}

-- The values that the controllers return.
pub data Value : Type 0 where
  nothing : Value
  health_value : ℕ → Value
  user_value : SafeUser → Value
  workbook_value : Workbook → Value
  workbook_with_sheets : Workbook → List Sheet → Value
  workbook_view_value : WorkbookView → Value
  workbooks_value : List (Workbook × List Sheet) → Value
  shared_value : List SharedWorkbook → Value
  share_info_value : ShareInfo → Value
  collaborator_value : Collaborator → Value
  collaborators_value : List Collaborator → Value
  permission_value : Permission → Value
  sheet_value : Sheet → Value
  sheets_value : List Sheet → Value
  sheet_removed_value : SheetRemoved → Value
  snapshot_value : SheetSnapshot → Value
  snapshots_value : List (SheetSnapshot × Option User) → Value
  restored_value : String → Value
  cell_value : Cell → Value
  cells_value : List Cell → Value
  count_value : ℕ → Value
  comment_value : CellComment → Value
  comments_value : List (CellComment × Option User) → Value

-- `this.collab.server.to(room).emit(…)` of the sheets controller
pub data Broadcast : Type 0 where
  sheet_created : String → Sheet → Broadcast
  sheet_deleted : String → String → Broadcast

-- What a controller's method gives: its value, and what it told Express and Socket.IO.
pub record Answer : Type 0 where
  pub value : Value
  pub cookies : List CookieCommand
  pub broadcasts : List Broadcast

abbrev pub plain_answer : Value → Answer
plain_answer v = record { value = v; cookies = []; broadcasts = [] }

abbrev map_result : {A B : Type 0} → (A → B) → Result A → Result B
map_result f (ok a) = ok (f a)
map_result f (err e) = err e

-- `return this.service.method(…)`, for a method that writes and for one that reads
abbrev pub returning : {S A : Type 0} → (A → Value) → Action S A → Action S Answer
returning f m s = let (result, after) = m s in (map_result (λ a. plain_answer (f a)) result, after)

abbrev pub reading : {S A : Type 0} → (A → Value) → (S → Result A) → Action S Answer
reading f m s = (map_result (λ a. plain_answer (f a)) (m s), s)

-- The JSON bodies: `{ success: true, data }`, the one of the filter, and the one of NestJS for an
-- exception that is no HttpException, which the filter does not catch.
pub record Failure : Type 0 where
  pub status_code : ℕ
  pub timestamp : ℕ
  pub path : String
  pub message : String

pub data Reply : Type 0 where
  succeeded : ℕ → Answer → Reply
  failed : Failure → Reply
  crashed : Reply

-- `exception.getStatus()` and the `message` of `exception.getResponse()`; `none` for an exception
-- that is no HttpException. The other fields of the response, as `serverCell`, are not sent.
abbrev pub status_of : Exception → Option (ℕ × String)
status_of (bad_request m) = some (400, m)
status_of (unauthorized m) = some (401, m)
status_of (forbidden m) = some (403, m)
status_of (not_found m) = some (404, m)
status_of (conflict m c) = some (409, m)
status_of known_request = none
status_of type_error = none
status_of other_error = none

abbrev failed_with : ℕ → String → Option (ℕ × String) → Reply
failed_with now url none = crashed
failed_with now url (some (status, m)) =
    failed (record { status_code = status; timestamp = now; path = url; message = m })

-- `catch`
unfoldable pub filter_exception : ℕ → String → Exception → Reply
filter_exception now url e = failed_with now url (status_of e)

-- `intercept`, with the status that NestJS sends for the method of the route
unfoldable pub transform : ℕ → Answer → Reply
transform status answer = succeeded status answer

-- The status line.
abbrev pub reply_status : Reply → ℕ
reply_status (succeeded status answer) = status
reply_status (failed f) = f.status_code
reply_status crashed = 500
