-- ===== src/Ai/Tools.antt =====
-- The tools that `createSheetTools` of src/modules/ai/ai.service.ts binds to a user, with their
-- schemas (where a schema asks for a number, the model has a natural one).
use onsheet_backend.Base.{
  ℕ, String, Bool, true, ◌&&◌, Option, none, some, List, length, leb, if◌then◌else◌,
}
use onsheet_backend.Base.Text.{utf16_length}
use onsheet_backend.Prisma.{Prisma, Db}
use onsheet_backend.Http.{ok, type_error, other_error}
use onsheet_backend.Http.Actions.{Action, pure, raise, check, ◌>>=◌}
use onsheet_backend.Ai
use onsheet_backend.Ai.{
  CellValue, ToolResult, AgentAction, OperationView, cell_history, delete_range, comment_on,
}
use onsheet_backend.Ai.Reading
use onsheet_backend.Ai.Reading.{CellView, Statistics, FormulaErrors, Anomalies}

pub data ToolCall : Type 0 where
  get_sheet_cells : String → Option ℕ → Option ℕ → Option ℕ → Option ℕ → ToolCall
  get_sheet_statistics : String → ToolCall
  find_formula_errors : String → ToolCall
  get_cell_history : String → ℕ → ℕ → Option ℕ → ToolCall
  find_data_anomalies : String → ToolCall
  set_cells : String → List CellValue → ToolCall
  delete_cells : String → ℕ → ℕ → ℕ → ℕ → ToolCall
  add_comment : String → ℕ → ℕ → String → ToolCall
  -- a name that is none of these, or arguments of other types
  unknown : String → ToolCall

abbrev pub name_of : ToolCall → String
name_of (get_sheet_cells sheet_id row_start row_end col_start col_end) = "get_sheet_cells"
name_of (get_sheet_statistics sheet_id) = "get_sheet_statistics"
name_of (find_formula_errors sheet_id) = "find_formula_errors"
name_of (get_cell_history sheet_id row col limit) = "get_cell_history"
name_of (find_data_anomalies sheet_id) = "find_data_anomalies"
name_of (set_cells sheet_id cells) = "set_cells"
name_of (delete_cells sheet_id row_start row_end col_start col_end) = "delete_cells"
name_of (add_comment sheet_id row col content) = "add_comment"
name_of (unknown name) = name

-- the object that a tool turns into JSON text
pub data ToolOutput : Type 0 where
  cells_output : List CellView → ToolOutput
  statistics_output : Statistics → ToolOutput
  errors_output : FormulaErrors → ToolOutput
  history_output : List OperationView → ToolOutput
  anomalies_output : Anomalies → ToolOutput
  cells_written cells_deleted : ToolResult → ToolOutput
  comment_added : AgentAction → ToolOutput

-- `z.number().int().min(1).max(100).optional()`
abbrev limit_schema : Option ℕ → Bool
limit_schema none = true
limit_schema (some limit) = leb 1 limit && leb limit 100

-- `z.array(…).min(1).max(200)`
abbrev pub entries_schema : List CellValue → Bool
entries_schema cells = leb 1 (length cells) && leb (length cells) 200

-- `z.string().min(1).max(2000)`
abbrev content_schema : String → Bool
content_schema content = leb 1 (utf16_length content) && leb (utf16_length content) 2000

-- the `schema` of each tool
abbrev pub matches_schema : ToolCall → Bool
matches_schema (get_cell_history sheet_id row col limit) = limit_schema limit
matches_schema (set_cells sheet_id cells) = entries_schema cells
matches_schema (add_comment sheet_id row col content) = content_schema content
matches_schema _ = true

abbrev giving : {S A B : Type 0} → (A → B) → Action S A → Action S B
giving f m = m >>= λ a. pure (f a)

module _ ⦃p : Prisma⦄ where
  unfoldable pub run_tool : String → ToolCall → Action (Db p) ToolOutput
  unfolding Ai.set_cells delete_range comment_on
  run_tool user_id (get_sheet_cells sheet_id row_start row_end col_start col_end) = check (λ db.
      ok (cells_output (Reading.get_sheet_cells db sheet_id row_start row_end col_start col_end)))
  run_tool user_id (get_sheet_statistics sheet_id) =
      check (λ db. ok (statistics_output (Reading.get_sheet_statistics db sheet_id)))
  run_tool user_id (find_formula_errors sheet_id) =
      check (λ db. ok (errors_output (Reading.find_formula_errors db sheet_id)))
  run_tool user_id (get_cell_history sheet_id row col limit) =
      check (λ db. ok (history_output (cell_history db sheet_id row col limit)))
  run_tool user_id (find_data_anomalies sheet_id) =
      check (λ db. ok (anomalies_output (Reading.find_data_anomalies db sheet_id)))
  run_tool user_id (set_cells sheet_id cells) = giving cells_written (Ai.set_cells sheet_id cells)
  run_tool user_id (delete_cells sheet_id row_start row_end col_start col_end) =
      giving cells_deleted (delete_range sheet_id row_start row_end col_start col_end)
  run_tool user_id (add_comment sheet_id row col content) =
      giving comment_added (comment_on user_id sheet_id row col content)
  run_tool user_id (unknown name) = raise type_error

  -- `tool`: LangChain throws where the schema refuses the arguments
  unfoldable pub call_tool : String → ToolCall → Action (Db p) ToolOutput
  unfolding run_tool
  call_tool user_id call = if matches_schema call then run_tool user_id call else raise other_error
