-- ===== src/Ai/Statistics.antt =====
-- What `get_sheet_statistics` counts.
use onsheet_backend.Base.{
  ℕ, ◌+◌, ◌≤◌, ◌<◌, String, Bool, Option, none, some, List, [], ◌∷◌, ◌==◌, string_eq, nat_eq,
  cell_key_eq, length, filter, find_first, ◌≡◌, arith, ap, ◌∙◌, eq_iff, Bool-cases, inl, inr,
}
use onsheet_backend.Prisma.{Prisma, Db, Cell, cell_key}
use onsheet_backend.Cells.Service.{find_cell}
use onsheet_backend.Ai.Reading.{
  get_sheet_statistics, all_cells, is_formula, is_null, max_of, one_past,
}

length-filters :
    (l : List Cell)
    → length (filter (λ c. is_formula c.raw_value) l) + length (filter (λ c. is_null c.raw_value) l)
      ≤ length l
length-filters [] = omega arith
length-filters (c ∷ l) = ground (arith, length-filters l)

one_past-larger :
    (f : Cell → ℕ) (c : Cell) (cells : List Cell)
    → (f c < one_past (max_of f (c ∷ cells)))
      × (one_past (max_of f cells) ≤ one_past (max_of f (c ∷ cells)))
one_past-larger f c cells = ground arith

value_or : (Cell → ℕ) → ℕ → Option Cell → ℕ
value_or f n none = n
value_or f n (some c) = f c

found-below :
    (f : Cell → ℕ) (k : String × ℕ × ℕ) (l : List Cell) (c : Cell)
    → find_first (λ x. cell_key x == k) l ≡ some c
    → f c < one_past (max_of f l)
unfolding value_or
found-below f k [] c h = ground (arith, h)
found-below f k (x ∷ l) c h = elim (Bool-cases (cell_key x == k)) [
  | inl here ↦ ground (
    arith,
    one_past-larger f x l,
    (let same : some x ≡ some c = ground (arith, h, here) in
        let equal : f x ≡ f c = ap (value_or f 0) same in equal),
  )
  | inr later ↦
      ground (arith, one_past-larger f x l, found-below f k l c (ground (arith, h, later)))
]

module _ ⦃p : Prisma⦄ (db : Db p) (sheet_id : String) where
  listed :
      (row col : ℕ) (c : Cell)
      → find_cell db sheet_id row col ≡ some c
      → find_first (λ x. cell_key x == (sheet_id, row, col)) (all_cells db sheet_id) ≡ some c
  listed row col c found =
      p.cells-IsLawful.find-find_many db.cells (λ x. x.sheet_id == sheet_id) (sheet_id, row, col)
      ∙ ground (
        arith,
        found,
        ap (λ (k : String × ℕ × ℕ). k.0)
            (p.cells-IsLawful.find_key db.cells (sheet_id, row, col) c found),
        eq_iff c.sheet_id sheet_id,
      )

  grid_lem :
      (row col : ℕ) (c : Cell)
      → find_cell db sheet_id row col ≡ some c
      → (row < one_past (max_of (λ x. x.row) (all_cells db sheet_id)))
        × (col < one_past (max_of (λ x. x.col) (all_cells db sheet_id)))
  grid_lem row col c found =
      let at = p.cells-IsLawful.find_key db.cells (sheet_id, row, col) c found in
      let k : String × ℕ × ℕ = (sheet_id, row, col) in
      ground (
        arith,
        found-below (λ x. x.row) k (all_cells db sheet_id) c (listed row col c found),
        found-below (λ x. x.col) k (all_cells db sheet_id) c (listed row col c found),
        ap (λ (k : String × ℕ × ℕ). k.1) at,
        ap (λ (k : String × ℕ × ℕ). k.2) at,
      )

  -- In the statistics that the agent reads of a sheet, the cells with data and the empty ones make
  -- up the total, no more cells have a formula than have data, and every stored cell of the sheet lies in
  -- the grid.
  pub get_sheet_statistics_lem :
      let s = get_sheet_statistics db sheet_id in
      (s.total_cells ≡ s.data_cells + s.empty_cells)
      × (s.formula_cells ≤ s.data_cells)
      × ((row col : ℕ) (c : Cell)
          → find_cell db sheet_id row col ≡ some c
          → (row < s.grid_rows) × (col < s.grid_cols))
  unfolding get_sheet_statistics
  get_sheet_statistics_lem =
      let here : Cell → Bool = λ c. c.sheet_id == sheet_id in
      let nulls = p.cells-IsLawful.length-find_many db.cells here (λ c. is_null c.raw_value) in
      let formulas =
        p.cells-IsLawful.length-find_many db.cells here (λ c. is_formula c.raw_value) in
      let both = length-filters (all_cells db sheet_id) in
      (omega (arith, nulls, formulas, both), omega (arith, nulls, formulas, both), grid_lem)
