-- ===== src/Cells/Service.antt =====
-- The operations of src/modules/cells/cells.service.ts on single cells and on comments. The writes
-- to the operation log that nothing awaits are made within the operation; one that fails changes
-- nothing.
use onsheet_backend.Base.{
  ℕ, ◌+◌, String, Bool, false, not, ◌&&◌, Option, none, some, List, ◌==◌, nat_eq, string_eq,
  cell_key_eq, if◌then◌else◌, map, keep,
}
use onsheet_backend.Prisma.{
  Prisma, Db, Stamp, User, Workbook, Sheet, Cell, CellComment, OpType, asc,
}
use onsheet_backend.Prisma.Cascade.{delete_cells}
use onsheet_backend.Http.{Result, ok, not_found, conflict, require, refuse}
use onsheet_backend.Http.Checks
use onsheet_backend.Http.Actions.{Action, pure, check, commit, ◌>>=◌, ◌>>◌}
use onsheet_backend.Workbooks.Access.{find_workbook}
use onsheet_backend.Workbooks.Service.{set_defined}
use onsheet_backend.Sheets.Service.{
  find_one, assert_editor_access, cells_of, find_sheet, default_to,
}
use onsheet_backend.OperationLog.{RecordOpInput, record_op}

-- `UpdateCellDto`; an optional field is `none` when it is `undefined`. Left out are `null`, which
-- `@IsOptional` lets through too, and numbers beyond the columns' 32 bits, which Prisma refuses.
pub record UpdateCellDto : Type 0 where
  pub row : ℕ
  pub col : ℕ
  pub raw_value : Option String
  pub computed : Option String
  pub formatted : Option String
  pub style : Option String
  pub base_version : Option ℕ

-- the source of a write, kept in the log's metadata
pub data Source : Type 0 where
  http ws : Source

abbrev pub metadata_of : Source → String
metadata_of http = "{\"source\":\"http\"}"
metadata_of ws = "{\"source\":\"ws\"}"

-- A nullable column under an optional field.
abbrev pub set_nullable {ℓ} : {A : Type ℓ} → Option A → Option A → Option A
set_nullable none old = old
set_nullable (some a) old = some a

-- `existing?.version ?? 0`
abbrev pub version_of : Option Cell → ℕ
version_of none = 0
version_of (some c) = c.version

-- `existing?.rawValue ?? null`
abbrev pub raw_value_of : Option Cell → Option String
raw_value_of none = none
raw_value_of (some c) = c.raw_value

-- `dto.baseVersion !== undefined && existing && existing.version !== dto.baseVersion`
abbrev pub is_stale : Option ℕ → Option Cell → Bool
is_stale none existing = false
is_stale (some base) none = false
is_stale (some base) (some c) = not (c.version == base)

abbrev pub conflict_message : String
conflict_message = "Cell version conflict — cell was modified by another user"

abbrev pub created_cell : String → UpdateCellDto → ℕ → Stamp → Cell
created_cell sheet_id dto version z = record {
  id = z.id;
  sheet_id = sheet_id;
  row = dto.row;
  col = dto.col;
  raw_value = dto.raw_value;
  computed = dto.computed;
  formatted = dto.formatted;
  style = default_to dto.style "{}";
  version = version;
}

abbrev pub updated_cell : UpdateCellDto → ℕ → Cell → Cell
updated_cell dto version c = record c {
  raw_value = set_nullable dto.raw_value c.raw_value;
  computed = set_nullable dto.computed c.computed;
  formatted = set_nullable dto.formatted c.formatted;
  style = set_defined dto.style c.style;
  version = version;
}

abbrev pub update_input :
    String → String → UpdateCellDto → Source → Option Cell → Cell → RecordOpInput
update_input sheet_id user_id dto source existing cell = record {
  cell_id = some cell.id;
  sheet_id = sheet_id;
  row = dto.row;
  col = dto.col;
  user_id = user_id;
  version = version_of existing + 1;
  type = OpType.update;
  old_value = raw_value_of existing;
  new_value = dto.raw_value;
  metadata = some (metadata_of source);
}

abbrev pub clear_input : String → ℕ → ℕ → String → Cell → RecordOpInput
clear_input sheet_id row col user_id c = record {
  cell_id = some c.id;
  sheet_id = sheet_id;
  row = row;
  col = col;
  user_id = user_id;
  version = c.version + 1;
  type = OpType.clear;
  old_value = c.raw_value;
  new_value = none;
  metadata = none;
}

-- `comment.createdBy !== userId`
abbrev pub written_by_other : String → CellComment → Bool
written_by_other user_id c = not (c.created_by == user_id)

-- `sheet.workbook.shareToken === shareToken`
abbrev pub token_is : String → Option String → Bool
token_is share_token none = false
token_is share_token (some t) = t == share_token

module _ ⦃p : Prisma⦄ where
  abbrev pub find_cell : Db p → String → ℕ → ℕ → Option Cell
  find_cell db sheet_id row col = p.cells.find_unique db.cells (sheet_id, row, col)

  -- `this.opLog.record(…).catch(() => {})`: the result and the exception are dropped
  abbrev pub log_op : RecordOpInput → Action (Db p) (Unit {0})
  log_op input db = (ok tt, (record_op input db).1)

  unfoldable pub find_all : Db p → String → String → Result (List Cell)
  find_all db sheet_id user_id =
      Checks.◌>>=◌ (find_one db sheet_id user_id) (λ _. ok (cells_of db sheet_id))

  -- as a call that nothing comes between; Racing has it in two steps
  unfoldable pub upsert : String → String → UpdateCellDto → Source → Action (Db p) Cell
  unfolding record_op
  upsert sheet_id user_id dto source = do
    check (λ db. assert_editor_access db sheet_id user_id)
    existing ← check (λ db. ok (find_cell db sheet_id dto.row dto.col))
    check (λ _. refuse (conflict conflict_message existing) (is_stale dto.base_version existing))
    let next_version = version_of existing + 1
    db ← check ok
    cell ←
        commit (λ t. record db { cells = t })
          (p.cells.upsert db.cells (sheet_id, dto.row, dto.col)
            (created_cell sheet_id dto next_version) (updated_cell dto next_version))
    log_op (update_input sheet_id user_id dto source existing cell)
    pure cell

  abbrev log_clear : String → ℕ → ℕ → String → Option Cell → Action (Db p) (Unit {0})
  log_clear sheet_id row col user_id none = pure tt
  log_clear sheet_id row col user_id (some c) = log_op (clear_input sheet_id row col user_id c)

  unfoldable pub clear : String → ℕ → ℕ → String → Action (Db p) ℕ
  unfolding record_op
  clear sheet_id row col user_id = do
    check (λ db. assert_editor_access db sheet_id user_id)
    existing ← check (λ db. ok (find_cell db sheet_id row col))
    let here = λ (c : Cell). c.sheet_id == sheet_id && (c.row == row && c.col == col)
    count ← (λ db. (ok (p.cells.delete_many db.cells here).1, delete_cells here db))
    log_clear sheet_id row col user_id existing
    pure count

  -- `orderBy: { createdAt: "asc" }`, with the author's row
  unfoldable pub list_comments : Db p → String → String → Result (List (CellComment × Option User))
  list_comments db sheet_id user_id = Checks.◌>>=◌ (find_one db sheet_id user_id) (λ _. ok (
      map (λ c. (c, p.users.find_unique db.users c.created_by))
        (p.comments.order_by asc (λ c. c.created_at)
          (p.comments.find_many db.comments (λ c. c.sheet_id == sheet_id)))))

  unfoldable pub add_comment : String → String → ℕ → ℕ → String → Action (Db p) CellComment
  add_comment sheet_id user_id row col content = do
    check (λ db. find_one db sheet_id user_id)
    db ← check ok
    commit (λ t. record db { comments = t })
        (p.comments.create db.comments (λ z. record {
          id = z.id;
          sheet_id = sheet_id;
          row = row;
          col = col;
          content = content;
          created_at = z.now;
          created_by = user_id;
        }))

  abbrev may_delete : Db p → String → String → CellComment → Result (Unit {0})
  may_delete db sheet_id user_id c =
      if written_by_other user_id c then assert_editor_access db sheet_id user_id else ok tt

  unfoldable pub delete_comment : String → String → String → Action (Db p) CellComment
  delete_comment sheet_id comment_id user_id = do
    comment ← check (λ db.
        require (not_found "Comment not found")
          (keep (λ c. c.sheet_id == sheet_id) (p.comments.find_unique db.comments comment_id)))
    check (λ db. may_delete db sheet_id user_id comment)
    db ← check ok
    commit (λ t. record db { comments = t }) (p.comments.delete db.comments comment_id)

  -- `!sheet || sheet.workbook.shareToken !== shareToken || !sheet.workbook.publicAccess`
  abbrev shared_by : String → Option Workbook → Bool
  shared_by share_token none = false
  shared_by share_token (some wb) = token_is share_token wb.share_token && wb.public_access

  abbrev is_shared : Db p → String → Option Sheet → Bool
  is_shared db share_token none = false
  is_shared db share_token (some s) = shared_by share_token (find_workbook db s.workbook_id)

  unfoldable pub find_public_cells : Db p → String → String → Result (List Cell)
  find_public_cells db share_token sheet_id =
      Checks.◌>>=◌
        (refuse (not_found "Sheet not found or not public")
          (not (is_shared db share_token (find_sheet db sheet_id))))
        (λ _. ok (cells_of db sheet_id))
