-- ===== src/OperationLog.antt =====
-- src/modules/collab/operation-log.service.ts: the append-only log of cell operations.
use onsheet_backend.Base.{
  Bool, ◌∷◌, [], true, not, is_empty, is_some, if◌then◌else◌, ℕ, String, Option, none, some, List,
  ◌==◌, nat_eq, string_eq, ◌&&◌, take,
}
use onsheet_backend.Prisma.{Prisma, Db, Stamp, CellOperation, OpType, desc}
use onsheet_backend.Http.{ok, err, known_request}
use onsheet_backend.Http.Actions.{Action, commit}

pub record RecordOpInput : Type 0 where
  pub cell_id : Option String
  pub sheet_id : String
  pub row : ℕ
  pub col : ℕ
  pub user_id : String
  pub version : ℕ
  pub type : OpType
  pub old_value : Option String
  pub new_value : Option String
  pub metadata : Option String

abbrev pub operation : RecordOpInput → Stamp → CellOperation
operation i z = record {
  id = z.id;
  cell_id = i.cell_id;
  sheet_id = i.sheet_id;
  row = i.row;
  col = i.col;
  user_id = i.user_id;
  version = i.version;
  type = i.type;
  old_value = i.old_value;
  new_value = i.new_value;
  metadata = i.metadata;
  created_at = z.now;
}

module _ ⦃p : Prisma⦄ where
  -- The foreign keys of `CellOperation` in prisma/schema.prisma: the database refuses a row whose
  -- cell, sheet or user is not there.
  abbrev pub cell_exists : Db p → Option String → Bool
  cell_exists db none = true
  cell_exists db (some id) = not (is_empty (p.cells.find_many db.cells (λ c. c.id == id)))

  abbrev pub references_exist : Db p → RecordOpInput → Bool
  references_exist db i =
      cell_exists db i.cell_id
      && (is_some (p.sheets.find_unique db.sheets i.sheet_id)
          && is_some (p.users.find_unique db.users i.user_id))

  -- `cellOperation.create`
  abbrev pub create_op : Db p → RecordOpInput → Option (p.cell_ops.T × CellOperation)
  create_op db i =
      if references_exist db i then p.cell_ops.create db.cell_ops (operation i) else none

  -- `record`
  unfoldable pub record_op : RecordOpInput → Action (Db p) CellOperation
  record_op input db = commit (λ t. record db { cell_ops = t }) (create_op db input) db

  -- the creates of `recordBatch`, up to the first that fails
  abbrev create_ops : Db p → List RecordOpInput → Option (Db p)
  create_ops db [] = some db
  create_ops db (i ∷ is) = elim (create_op db i) [
    | none ↦ none
    | some (t, _) ↦ create_ops (record db { cell_ops = t }) is
  ]

  abbrev settle : Option (Db p) → Action (Db p) (Unit {0})
  settle none db = (err known_request, db)
  settle (some after) db = (ok tt, after)

  -- one transaction: all, or none
  unfoldable pub record_batch : List RecordOpInput → Action (Db p) (Unit {0})
  record_batch inputs db = settle (create_ops db inputs) db

  unfoldable pub get_recent : Db p → String → ℕ → List CellOperation
  get_recent db sheet_id limit = take limit (
      p.cell_ops.order_by desc (λ o. o.created_at)
        (p.cell_ops.find_many db.cell_ops (λ o. o.sheet_id == sheet_id)))

  unfoldable pub get_cell_history : Db p → String → ℕ → ℕ → ℕ → List CellOperation
  get_cell_history db sheet_id row col limit = take limit (
      p.cell_ops.order_by desc (λ o. o.created_at)
        (p.cell_ops.find_many db.cell_ops
          (λ o. o.sheet_id == sheet_id && (o.row == row && o.col == col))))
