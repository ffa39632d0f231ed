-- ===== src/Ai/Writing.antt =====
-- What the tool `set_cells` writes, and what it tells the client.
use onsheet_backend.Ai.{
  set_action, length, tool_update, set_cell, set_cells, set_each, tool_cell, action_cells,
  CellValue,
}
use onsheet_backend.Base.{
  ℕ, ◌+◌, String, Bool, true, ◌&&◌, Option, none, some, List, [], ◌∷◌, ◌==◌, ◌≡◌, refl, nat_eq,
  string_eq, cell_key_eq, arith, eq_iff, nat_eqb_iff, if◌then◌else◌, is_some, take,
}
use onsheet_backend.Base.Dict.{Dict, lookup, insert, lookup-insert}
use onsheet_backend.Prisma.{Prisma, Db, Cell}
use onsheet_backend.Prisma.Table.Laws.{upsert_free, find-upsert_free, upserted}
use onsheet_backend.Http.{ok}
use onsheet_backend.Sheets.Service.{find_sheet}
use onsheet_backend.Cells.Service.{find_cell, version_of, raw_value_of}
use onsheet_backend.Collab.Batch.Dedup.{or_else}
use onsheet_backend.Ai.Letters.{to_a1, to_a1_iff}

abbrev pub is_cell : ℕ → ℕ → CellValue → Bool
is_cell row col c = c.row == row && c.col == col

-- The value that a list gives a cell last, and how often it names the cell.
abbrev pub last_value : ℕ → ℕ → List CellValue → Option String
last_value row col [] = none
last_value row col (c ∷ cells) =
    or_else (last_value row col cells) (if is_cell row col c then some c.value else none)

abbrev pub count_writes : ℕ → ℕ → List CellValue → ℕ
count_writes row col [] = 0
count_writes row col (c ∷ cells) = (if is_cell row col c then 1 else 0) + count_writes row col cells

to_a1_eqb :
    (row col row' col' : ℕ) → (to_a1 row col == to_a1 row' col') ≡ (row == row' && col == col')
to_a1_eqb row col row' col' = ground (
  arith,
  eq_iff (to_a1 row col) (to_a1 row' col'),
  to_a1_iff row col row' col',
  nat_eqb_iff row row',
  nat_eqb_iff col col',
)

-- The names of an action's cells stand for the last value of each cell, and for no other cell.
pub lookup-action_cells :
    (row col : ℕ) (d : Dict String String) (cells : List CellValue)
    → lookup (to_a1 row col) (action_cells d cells)
      ≡ or_else (last_value row col cells) (lookup (to_a1 row col) d)
lookup-action_cells row col d [] = refl
lookup-action_cells row col d (c ∷ cells) = ground (
  arith,
  lookup-action_cells row col (insert (to_a1 c.row c.col) c.value d) cells,
  lookup-insert (to_a1 c.row c.col) (to_a1 row col) c.value d,
  to_a1_eqb c.row c.col row col,
)

or_else_assoc : (a b c : Option String) → or_else (or_else a b) c ≡ or_else a (or_else b c)
or_else_assoc none b c = refl
or_else_assoc (some a) b c = refl

module _ ⦃p : Prisma⦄ (sheet_id : String) where
  -- the row that one turn of the loop stores
  abbrev turn_row : CellValue → Db p → Cell
  turn_row c db =
      let existing = find_cell db sheet_id c.row c.col in
      upserted existing (tool_cell sheet_id c (version_of existing + 1) (p.cells.stamp db.cells))
        (tool_update c (version_of existing + 1))

  abbrev turned : CellValue → Db p → Db p
  turned c db = record db { cells = p.cells.write db.cells (turn_row c db) }

  set_cell_lem :
      (c : CellValue) (db : Db p)
      → is_some (find_sheet db sheet_id) ≡ true
      → set_cell sheet_id c db ≡ (ok (turn_row c db), turned c db)
  unfolding set_cell
  set_cell_lem c db stored =
      let version = version_of (find_cell db sheet_id c.row c.col) + 1 in
      ground (
        arith,
        stored,
        upsert_free p.cells p.cells-IsLawful (λ r x. refl) db.cells (sheet_id, c.row, c.col)
            (tool_cell sheet_id c version) (tool_update c version) (λ z. refl) (λ r. refl),
      )

  find_cell-turned :
      (c : CellValue) (db : Db p) (row col : ℕ)
      → (version_of (find_cell (turned c db) sheet_id row col)
          ≡ version_of (find_cell db sheet_id row col) + (if is_cell row col c then 1 else 0))
        × (raw_value_of (find_cell (turned c db) sheet_id row col)
            ≡ or_else
                (if is_cell row col c then some c.value else none)
                (raw_value_of (find_cell db sheet_id row col)))
  find_cell-turned c db row col =
      let version = version_of (find_cell db sheet_id c.row c.col) + 1 in
      ground (
        arith,
        find-upsert_free p.cells p.cells-IsLawful (λ r x. refl) db.cells (sheet_id, c.row, c.col)
            (tool_cell sheet_id c version) (tool_update c version) (λ z. refl) (λ r. refl)
            (sheet_id, row, col),
        eq_iff sheet_id sheet_id,
        nat_eqb_iff c.row row,
        nat_eqb_iff c.col col,
      )

  set_each_lem :
      (cells : List CellValue) (db : Db p) (row col : ℕ)
      → is_some (find_sheet db sheet_id) ≡ true
      → ((set_each sheet_id cells db).0 ≡ ok tt)
        × (version_of (find_cell (set_each sheet_id cells db).1 sheet_id row col)
            ≡ version_of (find_cell db sheet_id row col) + count_writes row col cells)
        × (raw_value_of (find_cell (set_each sheet_id cells db).1 sheet_id row col)
            ≡ or_else (last_value row col cells) (raw_value_of (find_cell db sheet_id row col)))
  unfolding set_each
  set_each_lem [] db row col stored = ground arith
  set_each_lem (c ∷ cells) db row col stored = ground (
    arith,
    set_cell_lem c db stored,
    set_each_lem cells (turned c db) row col stored,
    find_cell-turned c db row col,
    or_else_assoc (last_value row col cells) (if is_cell row col c then some c.value else none)
        (raw_value_of (find_cell db sheet_id row col)),
  )

  -- On a sheet that exists the tool `set_cells` succeeds, and no user and no version is checked.
  -- Each cell of the sheet then has the last value that the first 200 entries give it, or its old
  -- one where none does, and its version has gone up by the number of entries that name it.
  pub find_cell-set_cells :
      (cells : List CellValue) (db : Db p) (row col : ℕ)
      → is_some (find_sheet db sheet_id) ≡ true
      → let (result, after) = set_cells sheet_id cells db in
        let capped = take 200 cells in
        (result
          ≡ ok (record { count = length capped; action = set_action (action_cells [] capped) }))
        × (version_of (find_cell after sheet_id row col)
            ≡ version_of (find_cell db sheet_id row col) + count_writes row col capped)
        × (raw_value_of (find_cell after sheet_id row col)
            ≡ or_else (last_value row col capped) (raw_value_of (find_cell db sheet_id row col)))
  unfolding set_cells
  find_cell-set_cells cells db row col stored =
      ground (arith, set_each_lem (take 200 cells) db row col stored)
