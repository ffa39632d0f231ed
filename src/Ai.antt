-- ===== src/Ai.antt =====
-- src/modules/ai/ai.service.ts: the tools that the agent may call on a sheet. A tool's result is the
-- object whose JSON text the model is given, less what only describes it (`summary`, `range`). The
-- language model and its graph are packages.
pub mod Letters
pub mod Writing
pub mod Clearing
pub mod Context
pub mod Numeric
pub mod Reading
pub mod Tools
pub mod Calls
pub mod Messages
pub mod Prompts
pub mod Graph
pub mod Runs
pub mod Service
pub mod Caller
pub mod Acting
pub mod Keeping
pub mod Statistics
use onsheet_backend.Base.{
  ℕ, ◌+◌, ◌-◌, String, Bool, true, ◌&&◌, ◌||◌, not, Option, none, some, List, [], ◌∷◌, ◌==◌, ◌≡◌,
  nat_eq, string_eq, cell_key_eq, is_some, take, length, leb, if◌then◌else◌, filter, zero, suc,
  ◌++◌, map,
}
use onsheet_backend.Base.Dict.{Dict, insert}
use onsheet_backend.Prisma.{Prisma, Db, Cell, Stamp, CellComment, CellOperation, OpType, desc}
use onsheet_backend.Prisma.Cascade.{delete_cells}
use onsheet_backend.Http.{ok, err, known_request}
use onsheet_backend.Http.Actions.{Action, pure, check, commit, ◌>>=◌, ◌>>◌}
use onsheet_backend.Sheets.Service.{find_sheet}
use onsheet_backend.Cells.Service.{find_cell, version_of}
use onsheet_backend.Ai.Letters.{to_a1}

pub record CellValue : Type 0 where
  pub row : ℕ
  pub col : ℕ
  pub value : String

-- `AgentAction`: the cells by their A1 names, each with its raw text
pub data AgentAction : Type 0 where
  set_action : Dict String String → AgentAction
  delete_action : Dict String String → AgentAction
  comment_action : ℕ → ℕ → String → AgentAction

pub record ToolResult : Type 0 where
  -- `cellsWritten` or `cellsDeleted`
  pub count : ℕ
  pub action : AgentAction

-- the columns that `get_cell_history` selects
pub record OperationView : Type 0 where
  pub type : OpType
  pub old_value : Option String
  pub new_value : Option String
  pub user_id : String
  pub version : ℕ
  pub created_at : ℕ

abbrev operation_view : CellOperation → OperationView
operation_view o = record {
  type = o.type;
  old_value = o.old_value;
  new_value = o.new_value;
  user_id = o.user_id;
  version = o.version;
  created_at = o.created_at;
}

abbrev pub max_cells : ℕ
max_cells = 200

-- the columns that the tool gives; `style` has its default
abbrev pub tool_cell : String → CellValue → ℕ → Stamp → Cell
tool_cell sheet_id c version z = record {
  id = z.id;
  sheet_id = sheet_id;
  row = c.row;
  col = c.col;
  raw_value = some c.value;
  computed = some c.value;
  formatted = none;
  style = "{}";
  version = version;
}

abbrev pub tool_update : CellValue → ℕ → Cell → Cell
tool_update c version x = record x {
  raw_value = some c.value;
  computed = some c.value;
  version = version;
}

-- `actionCells[toA1(c.row, c.col)] = { raw: c.value }`, for each cell in turn
abbrev pub action_cells : Dict String String → List CellValue → Dict String String
action_cells d [] = d
action_cells d (c ∷ cells) = action_cells (insert (to_a1 c.row c.col) c.value d) cells

-- from `start`, so many numbers in turn
abbrev pub count_up : ℕ → ℕ → List ℕ
count_up zero start = []
count_up (suc n) start = start ∷ count_up n (start + 1)

-- `for (let r = rowStart; r <= rowEnd; r++)`
abbrev pub from_to : ℕ → ℕ → List ℕ
from_to first last = count_up (last + 1 - first) first

abbrev pub is_between : ℕ → ℕ → ℕ → Bool
is_between first last n = leb first n && leb n last

abbrev pub blank : ℕ → ℕ → CellValue
blank row col = record { row = row; col = col; value = "" }

-- the cells of the two nested loops, in their order
abbrev pub rectangle : List ℕ → List ℕ → List CellValue
rectangle [] cols = []
rectangle (r ∷ rows) cols = map (blank r) cols ++ rectangle rows cols

module _ ⦃p : Prisma⦄ where
  -- A new row needs its sheet (the foreign key of `Cell`); an old one has it.
  abbrev pub sheet_exists : Db p → String → Option Cell → Bool
  sheet_exists db sheet_id existing = is_some existing || is_some (find_sheet db sheet_id)

  -- one turn of the loop of `set_cells`
  unfoldable pub set_cell : String → CellValue → Action (Db p) Cell
  set_cell sheet_id c db =
      let existing = find_cell db sheet_id c.row c.col in
      let next_version = version_of existing + 1 in
      commit (λ t. record db { cells = t })
        (if sheet_exists db sheet_id existing
          then p.cells.upsert db.cells (sheet_id, c.row, c.col) (tool_cell sheet_id c next_version)
              (tool_update c next_version)
          else none)
        db

  unfoldable pub set_each : String → List CellValue → Action (Db p) (Unit {0})
  unfolding set_cell
  set_each sheet_id [] = pure tt
  set_each sheet_id (c ∷ cells) = set_cell sheet_id c >> set_each sheet_id cells

  unfoldable pub set_cells : String → List CellValue → Action (Db p) ToolResult
  unfolding set_each
  set_cells sheet_id cells = do
    let capped = take max_cells cells
    set_each sheet_id capped
    pure (record { count = length capped; action = set_action (action_cells [] capped) })

  unfoldable pub delete_range : String → ℕ → ℕ → ℕ → ℕ → Action (Db p) ToolResult
  delete_range sheet_id row_start row_end col_start col_end db =
      let doomed = λ (c : Cell).
        c.sheet_id == sheet_id
        && (is_between row_start row_end c.row && is_between col_start col_end c.col) in
      (
        ok (record {
          count = (p.cells.delete_many db.cells doomed).1;
          action =
              delete_action (
                action_cells []
                  (rectangle (from_to row_start row_end) (from_to col_start col_end)));
        }),
        delete_cells doomed db,
      )

  -- Its row needs the sheet and the user (the foreign keys of `CellComment`).
  unfoldable pub comment_on : String → String → ℕ → ℕ → String → Action (Db p) AgentAction
  comment_on user_id sheet_id row col content = do
    db ← check ok
    comment ←
        commit (λ t. record db { comments = t })
          (if is_some (find_sheet db sheet_id) && is_some (p.users.find_unique db.users user_id)
            then p.comments.create db.comments (λ z. record {
              id = z.id;
              sheet_id = sheet_id;
              row = row;
              col = col;
              content = content;
              created_at = z.now;
              created_by = user_id;
            })
            else none)
    pure (comment_action row col content)

  abbrev limit_or : ℕ → Option ℕ → ℕ
  limit_or n none = n
  limit_or n (some limit) = limit

  -- the tool `get_cell_history`
  unfoldable pub cell_history : Db p → String → ℕ → ℕ → Option ℕ → List OperationView
  cell_history db sheet_id row col limit = map operation_view (
      take (limit_or 20 limit) (
        p.cell_ops.order_by desc (λ o. o.created_at)
          (p.cell_ops.find_many db.cell_ops
            (λ o. o.sheet_id == sheet_id && (o.row == row && o.col == col)))))
