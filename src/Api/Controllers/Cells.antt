-- ===== src/Api/Controllers/Cells.antt =====
-- src/modules/cells/cells.controller.ts and src/modules/cells/public-cells.controller.ts.
use onsheet_backend.Base.{ℕ, String, List}
use onsheet_backend.Prisma.{Prisma, Db}
use onsheet_backend.Http.Actions.{Action}
use onsheet_backend.Cells.Service
use onsheet_backend.Cells.Service.{UpdateCellDto, http}
use onsheet_backend.Cells.Bulk
use onsheet_backend.Api.Answers.{
  Answer, returning, reading, cell_value, cells_value, count_value, comment_value, comments_value,
}

-- `@Controller("sheets/:sheetId/cells")`
pub data CellsRoute : Type 0 where
  find_all : CellsRoute
  upsert : UpdateCellDto → CellsRoute
  bulk_upsert : List UpdateCellDto → CellsRoute
  clear : ℕ → ℕ → CellsRoute
  list_comments : CellsRoute
  add_comment : ℕ → ℕ → String → CellsRoute
  delete_comment : String → CellsRoute

module _ ⦃p : Prisma⦄ where
  -- the methods of `CellsController`, on `:sheetId`
  unfoldable pub cells_controller : CellsRoute → String → String → Action (Db p) Answer
  unfolding Service.upsert Bulk.bulk_upsert Service.clear Service.add_comment Service.delete_comment
  cells_controller find_all sheet_id user_id =
      reading cells_value (λ db. Service.find_all db sheet_id user_id)
  cells_controller (upsert dto) sheet_id user_id =
      returning cell_value (Service.upsert sheet_id user_id dto http)
  cells_controller (bulk_upsert cells) sheet_id user_id =
      returning count_value (Bulk.bulk_upsert sheet_id user_id cells)
  cells_controller (clear row col) sheet_id user_id =
      returning count_value (Service.clear sheet_id row col user_id)
  cells_controller list_comments sheet_id user_id =
      reading comments_value (λ db. Service.list_comments db sheet_id user_id)
  cells_controller (add_comment row col content) sheet_id user_id =
      returning comment_value (Service.add_comment sheet_id user_id row col content)
  cells_controller (delete_comment comment_id) sheet_id user_id =
      returning comment_value (Service.delete_comment sheet_id comment_id user_id)

  -- `PublicCellsController.findPublicCells`
  unfoldable pub public_cells_controller : String → String → Action (Db p) Answer
  public_cells_controller share_token sheet_id =
      reading cells_value (λ db. Service.find_public_cells db share_token sheet_id)
