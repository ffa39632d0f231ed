-- ===== src/Ai/Calls.antt =====
-- What a call of the planner to the tool `set_cells` does, its schema included.
use onsheet_backend.Base.{
  sym, subst, ℕ, zero, suc, ◌+◌, ◌≤◌, String, true, false, Bool, none, List, [], ◌∷◌, length, take,
  is_some, ◌≡◌, refl, arith, ap, ◌∙◌, if◌then◌else◌, subst, sym,
}
use onsheet_backend.Prisma.{Prisma, Db}
use onsheet_backend.Http.{Result, ok, err, other_error}
use onsheet_backend.Http.Actions.{raise, pure, continue}
use onsheet_backend.Sheets.Service.{find_sheet}
use onsheet_backend.Cells.Service.{find_cell, version_of, raw_value_of}
use onsheet_backend.Ai
use onsheet_backend.Ai.{CellValue, ToolResult, set_action, action_cells}
use onsheet_backend.Ai.Writing.{find_cell-set_cells, count_writes, last_value}
use onsheet_backend.Collab.Batch.Dedup.{or_else}
use onsheet_backend.Ai.Tools.{
  ToolOutput, set_cells, cells_written, entries_schema, run_tool, call_tool,
}

-- A slice of a list that is short enough is the list.
take_all : (n : ℕ) (cells : List CellValue) → length cells ≤ n → take n cells ≡ cells
take_all zero [] h = refl
take_all zero (c ∷ cells) h = absurd (omega arith)
take_all (suc n) [] h = refl
take_all (suc n) (c ∷ cells) h = ap (◌∷◌ c) (take_all n cells (omega arith))

at_most : (cells : List CellValue) → entries_schema cells ≡ true → length cells ≤ 200
at_most cells h = ground (arith, h)

module _ ⦃p : Prisma⦄ (user_id sheet_id : String) (cells : List CellValue) (db : Db p) where
  abbrev written : Result ToolOutput × Db p
  written = call_tool user_id (set_cells sheet_id cells) db

  abbrev on_fit : {A : Type 0} → A → A → A
  on_fit a b = if entries_schema cells then a else b

  called_lem :
      (b : Bool)
      → entries_schema cells ≡ b
      → written
        ≡ (if b then run_tool user_id (set_cells sheet_id cells) db else (err other_error, db))
  unfolding call_tool
  called_lem true h =
      ap (λ b. (if b then run_tool user_id (set_cells sheet_id cells) else raise other_error) db) h
  called_lem false h =
      ap (λ b. (if b then run_tool user_id (set_cells sheet_id cells) else raise other_error) db) h

  abbrev output_of : Result ToolResult → Result ToolOutput
  output_of (ok r) = ok (cells_written r)
  output_of (err e) = err e

  ran_lem :
      run_tool user_id (set_cells sheet_id cells) db
      ≡ (output_of (Ai.set_cells sheet_id cells db).0, (Ai.set_cells sheet_id cells db).1)
  unfolding run_tool
  ran_lem = giving_lem (Ai.set_cells sheet_id cells db)
    where
      giving_lem :
          (r : Result ToolResult × Db p)
          → continue r.0 (λ a. pure (cells_written a)) r.1 ≡ (output_of r.0, r.1)
      giving_lem (ok a, after) = refl
      giving_lem (err e, after) = refl

  -- What the theorem says of an outcome, by the verdict of the schema.
  abbrev Outcome : ℕ → ℕ → Bool → Result ToolOutput × Db p → Type 0
  Outcome row col fits x =
      (x.0 ≡ (
        if fits
        then ok (
            cells_written
              (record { count = length cells; action = set_action (action_cells [] cells) }))
        else err other_error))
      × (version_of (find_cell x.1 sheet_id row col)
          ≡ version_of (find_cell db sheet_id row col)
            + (if fits then count_writes row col cells else 0))
      × (raw_value_of (find_cell x.1 sheet_id row col)
          ≡ or_else (if fits then last_value row col cells else none)
              (raw_value_of (find_cell db sheet_id row col)))

  outcome_lem :
      (row col : ℕ)
      → is_some (find_sheet db sheet_id) ≡ true
      → (fits : Bool) → entries_schema cells ≡ fits
      → Outcome row col fits written
  outcome_lem row col stored false h =
      subst (Outcome row col false) (sym (called_lem false h)) (refl, omega arith, refl)
  outcome_lem row col stored true h =
      let done = find_cell-set_cells sheet_id cells db row col stored in
      let all : take 200 cells ≡ cells = take_all 200 cells (at_most cells h) in
      subst (Outcome row col true) (sym (called_lem true h ∙ ran_lem)) (
        ap output_of done.0
            ∙ ap
                (λ l. ok (
                  cells_written
                    (record { count = length l; action = set_action (action_cells [] l) })))
                all,
        done.1 ∙ ap (λ l. version_of (find_cell db sheet_id row col) + count_writes row col l) all,
        done.2
            ∙ ap
                (λ l. or_else (last_value row col l) (raw_value_of (find_cell db sheet_id row col)))
                all,
      )

  -- A call of the tool `set_cells` on a sheet that exists, whoever asks: where its schema refuses
  -- the entries, since there are none or more than 200, it throws, and no cell of the sheet
  -- changes. Otherwise every entry is written: the call returns their number and their places, and
  -- each cell of the sheet then has the last value that an entry gives it, or its old one where
  -- none does, and a version that has gone up by the number of entries that name it.
  pub call_tool-set_cells :
      (row col : ℕ)
      → is_some (find_sheet db sheet_id) ≡ true
      → (written.0
          ≡ on_fit
              (ok (
                cells_written
                  (record { count = length cells; action = set_action (action_cells [] cells) })))
              (err other_error))
        × (version_of (find_cell written.1 sheet_id row col)
            ≡ version_of (find_cell db sheet_id row col) + on_fit (count_writes row col cells) 0)
        × (raw_value_of (find_cell written.1 sheet_id row col)
            ≡ or_else
                (on_fit (last_value row col cells) none)
                (raw_value_of (find_cell db sheet_id row col)))
  call_tool-set_cells row col stored = outcome_lem row col stored (entries_schema cells) refl
