-- ===== src/Ai/Clearing.antt =====
-- What the tool `delete_cells` deletes, and what it tells the client.
use onsheet_backend.Ai.{
  from_to, is_between, AgentAction, count_up, blank, rectangle, delete_range, CellValue,
}
use onsheet_backend.Base.{
  ℕ, ◌+◌, ◌-◌, String, Bool, true, ◌&&◌, none, some, List, [], ◌∷◌, ◌++◌, ◌==◌, ◌≡◌, nat_eq,
  string_eq, cell_key_eq, arith, nat_eqb_iff, leb, if◌then◌else◌, ◌∙◌, ap, map, zero, suc,
}
use onsheet_backend.Base.Dict.{lookup}
use onsheet_backend.Prisma.{Prisma, Db, Cell}
use onsheet_backend.Cells.Service.{find_cell}
use onsheet_backend.Collab.Batch.Dedup.{or_else}
use onsheet_backend.Ai.Letters.{to_a1}
use onsheet_backend.Ai.{
  CellValue, AgentAction, set_action, delete_action, comment_action, ToolResult, count_up, from_to,
  is_between, blank, rectangle, delete_range,
}
use onsheet_backend.Http.{Result, ok, err}
use onsheet_backend.Base.{Option-cases, inl, inr}
use onsheet_backend.Ai.Writing.{last_value, lookup-action_cells}

abbrev is_listed : ℕ → List ℕ → Bool
is_listed n [] = Bool.false
is_listed n (x ∷ l) = if x == n then true else is_listed n l

is_listed-count_up :
    (n count start : ℕ)
    → is_listed n (count_up count start) ≡ (leb start n && leb (n + 1) (start + count))
is_listed-count_up n zero start = ground arith
is_listed-count_up n (suc count) start =
    ground (arith, is_listed-count_up n count (start + 1), nat_eqb_iff start n)

last_value-append :
    (row col : ℕ) (xs ys : List CellValue)
    → last_value row col (xs ++ ys) ≡ or_else (last_value row col ys) (last_value row col xs)
last_value-append row col [] ys = ground arith
last_value-append row col (x ∷ xs) ys = ground (arith, last_value-append row col xs ys)

last_value-row :
    (row col r : ℕ) (cols : List ℕ)
    → last_value row col (map (blank r) cols)
      ≡ (if r == row && is_listed col cols then some "" else none)
last_value-row row col r [] = ground arith
last_value-row row col r (c ∷ cols) = ground (arith, last_value-row row col r cols)

last_value-rectangle :
    (row col : ℕ) (rows cols : List ℕ)
    → last_value row col (rectangle rows cols)
      ≡ (if is_listed row rows && is_listed col cols then some "" else none)
last_value-rectangle row col [] cols = ground arith
last_value-rectangle row col (r ∷ rows) cols = ground (
  arith,
  last_value-append row col (map (blank r) cols) (rectangle rows cols),
  last_value-row row col r cols,
  last_value-rectangle row col rows cols,
)

abbrev pub names_of : AgentAction → List (String × String)
names_of (set_action d) = d
names_of (delete_action d) = d
names_of (comment_action row col content) = []

abbrev pub action_of : Result ToolResult → List (String × String)
action_of (ok r) = names_of r.action
action_of (err e) = []

module _ ⦃p : Prisma⦄ where
  find-delete_range :
      (sheet_id j : String) (r0 r1 c0 c1 row col : ℕ) (db : Db p)
      → find_cell (delete_range sheet_id r0 r1 c0 c1 db).1 j row col ≡ (
          if j == sheet_id && (is_between r0 r1 row && is_between c0 c1 col)
          then none
          else find_cell db j row col)
  unfolding delete_range
  find-delete_range sheet_id j r0 r1 c0 c1 row col db =
      let doomed : Cell → Bool =
        λ c. c.sheet_id == sheet_id && (is_between r0 r1 c.row && is_between c0 c1 c.col) in
      p.cells-IsLawful.find-delete_many db.cells doomed (j, row, col)
      ∙ elim (Option-cases (find_cell db j row col)) [
        | inl absent ↦ ground (arith, absent)
        | inr (c, found) ↦
            let at = p.cells-IsLawful.find_key db.cells (j, row, col) c found in
            ground (
              arith,
              found,
              ap (λ (k : String × ℕ × ℕ). k.0) at,
              ap (λ (k : String × ℕ × ℕ). k.1) at,
              ap (λ (k : String × ℕ × ℕ). k.2) at,
            )
      ]

  -- The tool `delete_cells` deletes exactly the cells of the rectangle, its bounds included, from
  -- its sheet, and its action blanks the A1 names of exactly the cells of the rectangle, so that
  -- the client's copy and the database agree on the rectangle.
  pub find_cell-delete_range :
      (sheet_id j : String) (r0 r1 c0 c1 row col : ℕ) (db : Db p)
      → let (result, after) = delete_range sheet_id r0 r1 c0 c1 db in
        let inside = is_between r0 r1 row && is_between c0 c1 col in
        (find_cell after j row col
          ≡ (if j == sheet_id && inside then none else find_cell db j row col))
        × (lookup (to_a1 row col) (action_of result) ≡ (if inside then some "" else none))
  unfolding delete_range
  find_cell-delete_range sheet_id j r0 r1 c0 c1 row col db = (
    find-delete_range sheet_id j r0 r1 c0 c1 row col db,
    ground (
      arith,
      lookup-action_cells row col [] (rectangle (from_to r0 r1) (from_to c0 c1)),
      last_value-rectangle row col (from_to r0 r1) (from_to c0 c1),
      is_listed-count_up row (r1 + 1 - r0) r0,
      is_listed-count_up col (c1 + 1 - c0) c0,
    ),
  )
