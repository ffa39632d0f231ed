-- ===== src/Cells/Clearing.antt =====
-- Clearing a cell: what is deleted, what is logged, and what happens to the cell's version.
use onsheet_backend.Base.{
  All, ℕ, ◌+◌, String, Bool, true, false, not, Option, none, some, List, [], ◌∷◌, ◌==◌, ◌≡◌, refl,
  nat_eq, string_eq, cell_key_eq, arith, ap, ◌∙◌, sym, eq_iff, keep, keep-eq-some, is_empty, head?,
  All, length, if◌then◌else◌,
}
use mathlib.Core.Path.{ap₂}
use onsheet_backend.Prisma.{Prisma, Db, Cell, CellOperation, cell_key}
use onsheet_backend.Prisma.Cascade.{delete_cells, names_cell}
use onsheet_backend.Prisma.Table.{update_where, HasDistinctKeys}
use onsheet_backend.Prisma.Table.Laws.{passes_of_head, found_of_head, head-find_many, some_eq}
use onsheet_backend.Http.{Result, ok}
use onsheet_backend.Workbooks.Access.{assert_editor}
use onsheet_backend.Sheets.Service.{assert_editor_access}
use onsheet_backend.OperationLog.{cell_exists}
use onsheet_backend.Cells.Service.{
  raw_value_of, version_of, set_nullable, UpdateCellDto, Source, find_cell, upsert, clear, is_stale,
}
use onsheet_backend.Cells.Versions.{saved, upsert_saves}

-- A row of the log without its reference to a cell, if it has one.
abbrev forget : String → Option String → Option String
forget id none = none
forget id (some j) = if id == j then none else some j

abbrev pub without_cell : String → Option CellOperation → Option CellOperation
without_cell id none = none
without_cell id (some o) = some (record o { cell_id = forget id o.cell_id })

set_nullable-none : (o : Option String) → set_nullable o none ≡ o
set_nullable-none none = refl
set_nullable-none (some s) = refl

module _ ⦃p : Prisma⦄ (sheet_id : String) (row col : ℕ) (db : Db p) where
  abbrev pub here : Cell → Bool
  here c = cell_key c == (sheet_id, row, col)

  abbrev pub cleared : Db p
  cleared = delete_cells here db

  -- the table after the deletion
  find-cleared :
      (k : String × ℕ × ℕ)
      → p.cells.find_unique cleared.cells k
        ≡ keep (λ c. not (here c)) (p.cells.find_unique db.cells k)
  find-cleared k = p.cells-IsLawful.find-delete_many db.cells here k

  find_cell-cleared : find_cell cleared sheet_id row col ≡ none
  find_cell-cleared =
      find-cleared (sheet_id, row, col)
      ∙ go (p.cells.find_unique db.cells (sheet_id, row, col)) refl
    where
      go :
          (o : Option Cell)
          → p.cells.find_unique db.cells (sheet_id, row, col) ≡ o
          → keep (λ c. not (here c)) o ≡ none
      go none h = refl
      go (some c) h = ground (
        arith,
        cell_key_eq.same_iff (cell_key c) (sheet_id, row, col),
        p.cells-IsLawful.find_key db.cells (sheet_id, row, col) c h,
      )

  -- `id` is the table's primary key: no cell elsewhere has the same one.
  abbrev pub OwnsId : Cell → Type 0
  OwnsId c =
      (k : String × ℕ × ℕ) (c' : Cell)
      → p.cells.find_unique db.cells k ≡ some c'
      → c'.id ≡ c.id
      → k ≡ (sheet_id, row, col)

  cell-gone : (c : Cell) → OwnsId c → cell_exists cleared (some c.id) ≡ false
  cell-gone c own =
      go (p.cells.find_many cleared.cells (λ x. x.id == c.id))
        (passes_of_head p.cells p.cells-IsLawful cleared.cells (λ x. x.id == c.id))
        (found_of_head p.cells p.cells-IsLawful cleared.cells (λ x. x.id == c.id))
    where
      go :
          (l : List Cell)
          → ((r : Cell) → head? l ≡ some r → (r.id == c.id) ≡ true)
          → ((r : Cell)
              → head? l ≡ some r
              → p.cells.find_unique cleared.cells (cell_key r) ≡ some r)
          → not (is_empty l) ≡ false
      go [] f g = refl
      go (x ∷ l) f g =
          let (stored, off) =
            keep-eq-some (λ c. not (here c)) (p.cells.find_unique db.cells (cell_key x)) x
              (sym (find-cleared (cell_key x)) ∙ g x refl) in
          let at : cell_key x ≡ (sheet_id, row, col) =
            own (cell_key x) x stored ((eq_iff x.id c.id).0 (f x refl)) in
          ground (arith, off, (cell_key_eq.same_iff (cell_key x) (sheet_id, row, col)).1 at)

  cleared_lem :
      (user_id : String) (c : Cell)
      → assert_editor_access db sheet_id user_id ≡ ok tt
      → find_cell db sheet_id row col ≡ some c
      → OwnsId c
      → clear sheet_id row col user_id db ≡ (ok (p.cells.delete_many db.cells here).1, cleared)
  unfolding clear
  cleared_lem user_id c access found own = ground (arith, access, found, cell-gone c own)

  -- the one row that the deletion finds
  find_many-here :
      (c : Cell) → find_cell db sheet_id row col ≡ some c → p.cells.find_many db.cells here ≡ c ∷ []
  find_many-here c found =
      go (p.cells.find_many db.cells here)
        (head-find_many p.cells p.cells-IsLawful db.cells (sheet_id, row, col) ∙ found)
        (p.cells-IsLawful.find_many-passes db.cells here)
        (p.cells-IsLawful.find_many-HasDistinctKeys db.cells here)
    where
      go :
          (l : List Cell)
          → head? l ≡ some c
          → All (λ r. here r ≡ true) l
          → HasDistinctKeys p.cells cell_key l
          → l ≡ c ∷ []
      go [] h passes distinct = ground (arith, h)
      go (x ∷ []) h passes distinct = ap (λ y. y ∷ []) (some_eq x c h)
      go (x ∷ y ∷ l) h passes distinct = ground (
        arith,
        passes.0,
        passes.1.0,
        distinct.0.0,
        cell_key_eq.same_iff (cell_key x) (sheet_id, row, col),
        cell_key_eq.same_iff (cell_key y) (sheet_id, row, col),
        cell_key_eq.same_iff (cell_key y) (cell_key x),
      )

  find-cleared_else :
      (k : String × ℕ × ℕ)
      → p.cells.find_unique cleared.cells k
        ≡ (if (sheet_id, row, col) == k then none else p.cells.find_unique db.cells k)
  find-cleared_else k = find-cleared k ∙ go (p.cells.find_unique db.cells k) refl
    where
      go :
          (o : Option Cell)
          → p.cells.find_unique db.cells k ≡ o
          → keep (λ c. not (here c)) o ≡ (if (sheet_id, row, col) == k then none else o)
      go none h = ground arith
      go (some x) h = ground (
        arith,
        p.cells-IsLawful.find_key db.cells k x h,
        cell_key_eq.same_iff (cell_key x) (sheet_id, row, col),
        cell_key_eq.same_iff (sheet_id, row, col) k,
      )

  find_op-cleared :
      (c : Cell) (id : String)
      → find_cell db sheet_id row col ≡ some c
      → p.cell_ops.find_unique cleared.cell_ops id
        ≡ without_cell c.id (p.cell_ops.find_unique db.cell_ops id)
  find_op-cleared c id found =
      p.cell_ops-IsLawful.find-update_many db.cell_ops
        (λ o. names_cell (p.cells.find_many db.cells here) o.cell_id)
        (λ o. record o { cell_id = none }) id (λ r. refl)
      ∙ ap
          (λ l.
            update_where (λ o. names_cell l o.cell_id) (λ o. record o { cell_id = none })
              (p.cell_ops.find_unique db.cell_ops id))
          (find_many-here c found)
      ∙ forgotten (p.cell_ops.find_unique db.cell_ops id)
    where
      row_lem :
          (o : CellOperation) (j : Option String)
          → (if names_cell (c ∷ []) j
              then record o { cell_id = none }
              else record o { cell_id = j })
            ≡ record o { cell_id = forget c.id j }
      row_lem o none = refl
      row_lem o (some j) = ground arith

      forgotten :
          (o : Option CellOperation)
          → update_where (λ x. names_cell (c ∷ []) x.cell_id) (λ x. record x { cell_id = none }) o
            ≡ without_cell c.id o
      forgotten none = refl
      forgotten (some o) = ap some (row_lem o o.cell_id)

  -- A clear by an editor of a cell that is there deletes one cell, this one, and answers with the
  -- count 1. The log has no new row: each of its rows is as it was, but that the rows of the cell
  -- no longer name it. For the CLEAR operation names a cell that is deleted by then, the foreign
  -- key refuses it, and the code drops the error.
  pub clear-unlogged :
      (user_id : String) (c : Cell)
      → assert_editor_access db sheet_id user_id ≡ ok tt
      → find_cell db sheet_id row col ≡ some c
      → OwnsId c
      → let (answer, after) = clear sheet_id row col user_id db in
        (answer ≡ ok 1)
        × ((k : String × ℕ × ℕ)
            → p.cells.find_unique after.cells k
              ≡ (if (sheet_id, row, col) == k then none else p.cells.find_unique db.cells k))
        × ((id : String)
            → p.cell_ops.find_unique after.cell_ops id
              ≡ without_cell c.id (p.cell_ops.find_unique db.cell_ops id))
  clear-unlogged user_id c access found own =
      let done = cleared_lem user_id c access found own in
      (
        ap (λ (x : Result ℕ × Db p). x.0) done
            ∙ ap (λ n. ok n)
                (p.cells-IsLawful.count-delete_many db.cells here
                  ∙ ap length (find_many-here c found)),
        λ k.
            ap (λ (x : Result ℕ × Db p). p.cells.find_unique x.1.cells k) done
            ∙ find-cleared_else k,
        λ id.
            ap (λ (x : Result ℕ × Db p). p.cell_ops.find_unique x.1.cell_ops id) done
            ∙ find_op-cleared c id found,
      )

  access-cleared :
      (user_id : String)
      → assert_editor_access cleared sheet_id user_id ≡ assert_editor_access db sheet_id user_id
  unfolding assert_editor_access assert_editor
  access-cleared user_id = refl

  -- Versions start again after a clear: a write of the cleared cell is accepted whatever base
  -- version it names, also one from before the clear, and the cell has version 1.
  pub upsert-clear :
      (user_id writer : String) (c : Cell) (dto : UpdateCellDto) (source : Source)
      → assert_editor_access db sheet_id user_id ≡ ok tt
      → assert_editor_access db sheet_id writer ≡ ok tt
      → find_cell db sheet_id row col ≡ some c
      → OwnsId c
      → dto.row ≡ row
      → dto.col ≡ col
      → (cell : Cell) × ((upsert sheet_id writer dto source (clear sheet_id row col user_id db).1).0
          ≡ ok cell)
        × (cell.version ≡ 1)
        × (cell.raw_value ≡ dto.raw_value)
  upsert-clear user_id writer c dto source access access' found own same_row same_col =
      let empty : find_cell cleared sheet_id dto.row dto.col ≡ none =
        ap₂ (find_cell cleared sheet_id) same_row same_col ∙ find_cell-cleared in
      let fresh : is_stale dto.base_version (find_cell cleared sheet_id dto.row dto.col) ≡ false =
        rw empty (ground arith) in
      let outcome =
        upsert_saves sheet_id writer dto source cleared (access-cleared writer ∙ access') fresh in
      (
        saved sheet_id writer dto source cleared,
        ap (λ (x : Result ℕ × Db p). (upsert sheet_id writer dto source x.1).0)
              (cleared_lem user_id c access found own)
            ∙ outcome.0,
        outcome.1 ∙ ap (λ o. version_of o + 1) empty,
        outcome.2
            ∙ ap (λ o. set_nullable dto.raw_value (raw_value_of o)) empty
            ∙ set_nullable-none dto.raw_value,
      )
