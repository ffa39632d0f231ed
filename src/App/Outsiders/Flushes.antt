-- ===== src/App/Outsiders/Flushes.antt =====
-- A flush of writes whose authors may not edit the sheet.
use onsheet_backend.Base.{ℕ, String, Option, none, List, [], ◌∷◌, string_eq, ◌≢◌, arith, ap}
use onsheet_backend.Base.Dict.{lookup, values}
use onsheet_backend.Prisma.{Prisma, Db, Workbook, Sheet, Cell}
use onsheet_backend.Cells.Service.{UpdateCellDto, ws, upsert}
use onsheet_backend.Cells.Guarding.{writes_denied}
use onsheet_backend.Cells.Elsewhere.{find_cell-upsert_elsewhere}
use onsheet_backend.Collab.Batch.{PendingWrite, Buffers, batch_of, dedup_from, deliver, flush_batch}
use onsheet_backend.Api.Ownership.Rows.{KeepsTables}
use onsheet_backend.Api.Editing.{here_or_elsewhere}
use onsheet_backend.Collab.Batch.Dedup.{All-dedup_from}
use onsheet_backend.App.Senders.{ByOutsiders}
use onsheet_backend.Api.Outsiders.{IsShut, turned_away, denied_of_outside, IsShut-KeepsTables}

module _ ⦃p : Prisma⦄ (sid : String) (sh : Sheet) (wb : Workbook) (IsOutside : String → Type 0)
    (outside : (x : String) → IsOutside x → wb.owner_id ≢ x) (row col : ℕ)
    (cell : Option Cell) where
  abbrev IsShutDb : Db p → Type 0
  IsShutDb = IsShut sid sh wb IsOutside outside row col cell

  upsert-KeepsTables :
      (j id : String) (dto : UpdateCellDto) (db : Db p) → KeepsTables db (upsert j id dto ws db).1
  unfolding upsert
  upsert-KeepsTables j id dto db = ground arith

  upsert-IsShut :
      (w : PendingWrite) (db : Db p)
      → IsOutside w.user_id
      → IsShutDb db
      → IsShutDb (upsert w.sheet_id w.user_id w.dto ws db).1
  upsert-IsShut w db o h =
      let denied = denied_of_outside sid sh wb IsOutside outside row col cell db h w.user_id o in
      IsShut-KeepsTables sid sh wb IsOutside outside row col cell db
        (upsert w.sheet_id w.user_id w.dto ws db).1 h
        (upsert-KeepsTables w.sheet_id w.user_id w.dto db)
        (here_or_elsewhere db sid sh wb h.sheet_kept h.workbook_kept w.user_id turned_away denied
          row col w.sheet_id (upsert w.sheet_id w.user_id w.dto ws db).1
          (λ refused.
            ap (λ x. x.1)
              (writes_denied db w.sheet_id w.user_id turned_away w.dto ws [] row col none none ""
                refused).0)
          (λ apart. find_cell-upsert_elsewhere w.sheet_id sid apart row col w.user_id w.dto ws db))

  deliver-IsShut :
      (writes : List PendingWrite) (db : Db p)
      → ByOutsiders IsOutside writes
      → IsShutDb db
      → IsShutDb (deliver writes db).1
  unfolding deliver
  deliver-IsShut [] db o h = h
  deliver-IsShut (w ∷ writes) db o h =
      deliver-IsShut writes (upsert w.sheet_id w.user_id w.dto ws db).1 o.1
        (upsert-IsShut w db o.0 h)

  pub flush_batch-IsShut :
      (sheet_id : String) (b : Buffers) (db : Db p)
      → ByOutsiders IsOutside (batch_of (lookup sheet_id b.pending_batches))
      → IsShutDb db
      → IsShutDb (flush_batch sheet_id b db).1
  unfolding flush_batch
  flush_batch-IsShut sheet_id b db o h =
      deliver-IsShut (values (dedup_from [] (batch_of (lookup sheet_id b.pending_batches)))) db
        (All-dedup_from (λ w. IsOutside w.user_id) [] (batch_of (lookup sheet_id b.pending_batches))
          tt o)
        h
