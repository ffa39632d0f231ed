-- ===== src/Cells/Elsewhere.antt =====
-- What an operation on one sheet does to the cells of another: nothing.
use onsheet_backend.Base.{
  All, ℕ, zero, suc, String, Bool, false, ◌&&◌, Option, none, some, List, [], ◌∷◌, ◌==◌, string_eq,
  nat_eq, cell_key_eq, take, drop, length, map, ◌≡◌, refl, arith, ap, ◌∙◌, any, ◌+◌, eq_iff,
}
use onsheet_backend.Prisma.{Prisma, Db, Sheet, Cell, cell_key, SheetSnapshot, Stamp}
use onsheet_backend.Prisma.Insert.{insert_rows, insert_row, inserted_cell}
use onsheet_backend.Prisma.Table.Laws.{find-delete_many_spared}
use onsheet_backend.Prisma.Table.Keeping.{find-upsert_apart, find-create_many_apart, key-delete}
use onsheet_backend.Prisma.Cascade.{delete_cells}
use onsheet_backend.Http.{ok, err, require, not_found}
use onsheet_backend.Http.Actions.{Action, continue, check, pure, ◌>>=◌, ◌>>◌}
use onsheet_backend.Sheets.Service.{
  assert_editor_access, find_snapshot, remove, restore_snapshot, restored_cell, wipe_and_fill,
}
use onsheet_backend.Cells.Service.{
  UpdateCellDto, Source, upsert, clear, find_cell, created_cell, updated_cell, version_of,
}
use onsheet_backend.Cells.Bulk.{bulk_upsert, batch_loop, batch_size, execute_batch}
use onsheet_backend.Cells.Bulk.Batches.{execute_batch_lem, rows}
use onsheet_backend.Cells.Bulk.Placeholders.{requested_row}

module _ ⦃p : Prisma⦄ (j sid : String) (other : (j == sid) ≡ false) (row col : ℕ) where
  abbrev Keeps : {A : Type 0} → Action (Db p) A → Type 0
  Keeps m = (db : Db p) → find_cell (m db).1 sid row col ≡ find_cell db sid row col

  Keeps-bind :
      {A B : Type 0} (m : Action (Db p) A) (f : A → Action (Db p) B)
      → Keeps m
      → ((a : A) → Keeps (f a))
      → Keeps (m >>= f)
  Keeps-bind m f first next db =
      elim (m db).0
        as (λ r. find_cell (continue r f (m db).1).1 sid row col ≡ find_cell db sid row col) [
          | ok a ↦ next a (m db).1 ∙ first db
          | err e ↦ first db
        ]

  pub find_cell-upsert_elsewhere :
      (user_id : String) (dto : UpdateCellDto) (source : Source) (db : Db p)
      → find_cell (upsert j user_id dto source db).1 sid row col ≡ find_cell db sid row col
  unfolding upsert
  find_cell-upsert_elsewhere user_id dto source db =
      let existing = find_cell db j dto.row dto.col in
      ground (
        arith,
        find-upsert_apart p.cells p.cells-IsLawful db.cells (j, dto.row, dto.col) (sid, row, col)
            (ground (arith, other)) (created_cell j dto (version_of existing + 1))
            (updated_cell dto (version_of existing + 1)) (λ z. refl) (λ r. refl),
      )

  find-delete_sheet_cells :
      (q : Cell → Bool) (db : Db p)
      → ((c : Cell) → (c.sheet_id == j) ≡ false → q c ≡ false)
      → p.cells.find_unique (p.cells.delete_many db.cells q).0 (sid, row, col)
        ≡ find_cell db sid row col
  find-delete_sheet_cells q db only =
      find-delete_many_spared p.cells p.cells-IsLawful db.cells q (sid, row, col)
        (λ r found. only r (
          ground (
            arith,
            eq_iff j sid,
            eq_iff r.sheet_id j,
            ap (λ (k : String × ℕ × ℕ). k.0)
                (p.cells-IsLawful.find_key db.cells (sid, row, col) r found),
            other,
          )))

  pub find_cell-clear_elsewhere :
      (r c : ℕ) (user_id : String) (db : Db p)
      → find_cell (clear j r c user_id db).1 sid row col ≡ find_cell db sid row col
  unfolding clear
  find_cell-clear_elsewhere r c user_id db = ground (
    arith,
    find-delete_sheet_cells (λ x. x.sheet_id == j && (x.row == r && x.col == c)) db
        (λ x h. ground (arith, h)),
  )

  key-inserted_cell :
      (c : UpdateCellDto) (o : Option Cell) (z : Stamp)
      → (cell_key (inserted_cell (requested_row j c) o z) == (sid, row, col)) ≡ false
  key-inserted_cell c none z = ground (arith, other)
  key-inserted_cell c (some x) z = ground (arith, other)

  find-insert_rows :
      (cells : List UpdateCellDto) (t : p.cells.T)
      → p.cells.find_unique (insert_rows p.cells t (rows j cells)) (sid, row, col)
        ≡ p.cells.find_unique t (sid, row, col)
  find-insert_rows [] t = refl
  find-insert_rows (c ∷ cells) t =
      find-insert_rows cells (insert_row p.cells t (requested_row j c))
      ∙ (let old = p.cells.find_unique t (j, c.row, c.col) in
          ground (
            arith,
            p.cells-IsLawful.find-write t (inserted_cell (requested_row j c) old (p.cells.stamp t))
                (sid, row, col),
            key-inserted_cell c old (p.cells.stamp t),
          ))

  find_cell-execute_batch :
      (batch : List UpdateCellDto) (db : Db p)
      → find_cell (execute_batch j batch db).1 sid row col ≡ find_cell db sid row col
  find_cell-execute_batch batch db =
      ground (arith, execute_batch_lem j batch db, find-insert_rows batch db.cells)

  find_cell-batch_loop :
      (fuel total : ℕ) (cells : List UpdateCellDto) (db : Db p)
      → find_cell (batch_loop fuel j total cells db).1 sid row col ≡ find_cell db sid row col
  unfolding batch_loop
  find_cell-batch_loop zero total cells db = refl
  find_cell-batch_loop (suc fuel) total [] db = refl
  find_cell-batch_loop (suc fuel) total (c ∷ cells) db =
      Keeps-bind (execute_batch j (take batch_size (c ∷ cells)))
        (λ affected. batch_loop fuel j (total + affected) (drop batch_size (c ∷ cells)))
        (find_cell-execute_batch (take batch_size (c ∷ cells)))
        (λ affected. find_cell-batch_loop fuel (total + affected) (drop batch_size (c ∷ cells))) db

  pub find_cell-bulk_upsert_elsewhere :
      (user_id : String) (cells : List UpdateCellDto) (db : Db p)
      → find_cell (bulk_upsert j user_id cells db).1 sid row col ≡ find_cell db sid row col
  unfolding bulk_upsert
  find_cell-bulk_upsert_elsewhere user_id cells db =
      ground (arith, find_cell-batch_loop (length cells) 0 cells db)

  restored-apart :
      (cells : List Cell)
      → All
          (λ f. (z : Stamp) → (cell_key (f z) == (sid, row, col)) ≡ false)
          (map (restored_cell j) cells)
  restored-apart [] = tt
  restored-apart (c ∷ cells) = (λ z. ground (arith, other), restored-apart cells)

  abbrev wiped : Db p → Db p
  wiped db = delete_cells (λ c. c.sheet_id == j) db

  wipe_and_fill-Keeps : (snapshot : SheetSnapshot) → Keeps (wipe_and_fill j snapshot)
  wipe_and_fill-Keeps snapshot db =
      filled_lem (p.cells.create_many (wiped db).cells (map (restored_cell j) snapshot.cells)) refl
    where
      filled_lem :
          (o : Option p.cells.T)
          → p.cells.create_many (wiped db).cells (map (restored_cell j) snapshot.cells) ≡ o
          → find_cell (wipe_and_fill j snapshot db).1 sid row col ≡ find_cell db sid row col
      filled_lem none h = ground (arith, h)
      filled_lem (some t) h = ground (
        arith,
        h,
        find-create_many_apart p.cells p.cells-IsLawful (wiped db).cells
            (map (restored_cell j) snapshot.cells) (sid, row, col) t (restored-apart snapshot.cells)
            h,
        find-delete_sheet_cells (λ c. c.sheet_id == j) db (λ c h. h),
      )

  pub find_cell-restore_elsewhere :
      (snapshot_id user_id : String) (db : Db p)
      → find_cell (restore_snapshot j snapshot_id user_id db).1 sid row col
        ≡ find_cell db sid row col
  unfolding restore_snapshot
  find_cell-restore_elsewhere snapshot_id user_id db =
      Keeps-bind (check (λ db. assert_editor_access db j user_id))
        (λ _.
          check (λ db. require (not_found "Snapshot not found") (find_snapshot db j snapshot_id))
          >>= λ snapshot. wipe_and_fill j snapshot >> pure snapshot_id)
        (λ db. refl)
        (λ _.
          Keeps-bind
            (check
              (λ db. require (not_found "Snapshot not found") (find_snapshot db j snapshot_id)))
            (λ snapshot. wipe_and_fill j snapshot >> pure snapshot_id) (λ db. refl)
            (λ snapshot.
              Keeps-bind (wipe_and_fill j snapshot) (λ _. pure snapshot_id)
                (wipe_and_fill-Keeps snapshot) (λ _ db. refl)))
        db

  removed_lem :
      (user_id : String) (db : Db p) (o : Option (p.sheets.T × Sheet))
      → p.sheets.delete db.sheets j ≡ o
      → find_cell (remove j user_id db).1 sid row col ≡ find_cell db sid row col
  unfolding remove
  removed_lem user_id db none h = ground (arith, h)
  removed_lem user_id db (some (t, gone)) h = ground (
    arith,
    h,
    find-delete_sheet_cells (λ c. any (λ s. s.id == c.sheet_id) (gone ∷ [])) db
        (λ c apart. ground (
          arith,
          apart,
          key-delete p.sheets p.sheets-IsLawful db.sheets t j gone h,
          eq_iff gone.id c.sheet_id,
          eq_iff c.sheet_id j,
        )),
  )

  pub find_cell-remove_elsewhere :
      (user_id : String) (db : Db p)
      → find_cell (remove j user_id db).1 sid row col ≡ find_cell db sid row col
  find_cell-remove_elsewhere user_id db = removed_lem user_id db (p.sheets.delete db.sheets j) refl
