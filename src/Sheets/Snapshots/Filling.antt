-- ===== src/Sheets/Snapshots/Filling.antt =====
-- What the rows of a snapshot fill an empty sheet with.
use onsheet_backend.Base.{
  All, ℕ, String, Bool, true, false, ◌&&◌, Option, none, some, List, [], ◌∷◌, ◌==◌, string_eq,
  nat_eq, cell_key_eq, map, if◌then◌else◌, ◌≡◌, refl, arith, ap, ◌∙◌, eq_iff, nat_eqb_iff,
  Bool-cases, inl, inr,
}
use onsheet_backend.Prisma.{Prisma, Cell, Stamp}
use onsheet_backend.Prisma.Table.{create_many_law}
use onsheet_backend.Prisma.Table.Laws.{create_free}
use onsheet_backend.Sheets.Service.{restored_cell}

-- what a cell shows, without its version and its id
pub record Content : Type 0 where
  pub raw_value : Option String
  pub computed : Option String
  pub formatted : Option String
  pub style : String

abbrev pub content : Cell → Content
content c = record {
  raw_value = c.raw_value;
  computed = c.computed;
  formatted = c.formatted;
  style = c.style;
}

abbrev pub content_of : Option Cell → Option Content
content_of none = none
content_of (some c) = some (content c)

abbrev pub is_at : ℕ → ℕ → Cell → Bool
is_at row col c = c.row == row && c.col == col

-- the content that a list has for a place, and else `old`
abbrev pub filled : ℕ → ℕ → List Cell → Option Content → Option Content
filled row col [] old = old
filled row col (c ∷ cells) old =
    if is_at row col c then some (content c) else filled row col cells old

-- No two cells of a list are at one place.
abbrev pub ArePlaces : List Cell → Type 0
ArePlaces [] = Unit
ArePlaces (c ∷ cells) = All (λ x. is_at c.row c.col x ≡ false) cells × ArePlaces cells

filled_apart :
    (row col : ℕ) (c : Cell) (cells : List Cell) (old : Option Content)
    → is_at row col c ≡ true
    → All (λ x. is_at c.row c.col x ≡ false) cells
    → filled row col cells old ≡ old
filled_apart row col c [] old here apart = refl
filled_apart row col c (x ∷ cells) old here apart = ground (
  arith,
  here,
  apart.0,
  filled_apart row col c cells old here apart.1,
  nat_eqb_iff c.row row,
  nat_eqb_iff c.col col,
)

module _ ⦃p : Prisma⦄ (sid : String) where
  abbrev pub at : p.cells.T → ℕ → ℕ → Option Cell
  at t row col = p.cells.find_unique t (sid, row, col)

  abbrev pub Absent : p.cells.T → List Cell → Type 0
  Absent t = All (λ c. at t c.row c.col ≡ none)

  Absent-write :
      (t : p.cells.T) (c : Cell) (z : Stamp) (cells : List Cell)
      → All (λ x. is_at c.row c.col x ≡ false) cells
      → Absent t cells
      → Absent (p.cells.write t (restored_cell sid c z)) cells
  Absent-write t c z [] apart h = tt
  Absent-write t c z (x ∷ cells) apart h = (
    ground (
      arith,
      p.cells-IsLawful.find-write t (restored_cell sid c z) (sid, x.row, x.col),
      apart.0,
      h.0,
      nat_eqb_iff x.row c.row,
      nat_eqb_iff c.row x.row,
      nat_eqb_iff x.col c.col,
      nat_eqb_iff c.col x.col,
    ),
    Absent-write t c z cells apart.1 h.1,
  )

  written_first :
      (t : p.cells.T) (c : Cell) (z : Stamp) (cells : List Cell) (row col : ℕ)
      → All (λ x. is_at c.row c.col x ≡ false) cells
      → filled row col cells (content_of (at (p.cells.write t (restored_cell sid c z)) row col))
        ≡ filled row col (c ∷ cells) (content_of (at t row col))
  written_first t c z cells row col apart = elim (Bool-cases (is_at row col c)) [
    | inl here ↦ ground (
      arith,
      here,
      p.cells-IsLawful.find-write t (restored_cell sid c z) (sid, row, col),
      filled_apart row col c cells (some (content c)) here apart,
      eq_iff sid sid,
    )
    | inr away ↦ ground (
      arith,
      away,
      p.cells-IsLawful.find-write t (restored_cell sid c z) (sid, row, col),
      eq_iff sid sid,
    )
  ]

  pub fill_lem :
      (t : p.cells.T) (cells : List Cell)
      → ArePlaces cells
      → Absent t cells
      → (t' : p.cells.T) × (p.cells.create_many t (map (restored_cell sid) cells) ≡ some t')
        × ((row col : ℕ)
            → content_of (at t' row col) ≡ filled row col cells (content_of (at t row col)))
  fill_lem t [] places absent = (t, p.cells-IsLawful.create_many-nil t, λ row col. refl)
  fill_lem t (c ∷ cells) places absent =
      let z = p.cells.stamp t in
      let (t', filled_up, shows) =
        fill_lem (p.cells.write t (restored_cell sid c z)) cells places.1
          (Absent-write t c z cells places.0 absent.1) in
      (
        t',
        p.cells-IsLawful.create_many-cons t (restored_cell sid c) (map (restored_cell sid) cells)
            ∙ ap (λ o. create_many_law p.cells t o (map (restored_cell sid) cells))
                (create_free p.cells p.cells-IsLawful (λ r x. refl) t (restored_cell sid c)
                  absent.0)
            ∙ filled_up,
        λ row col. shows row col ∙ written_first t c z cells row col places.0,
      )
