-- ===== src/Cells/Contents.antt =====
-- What a write leaves in its cell, less the cell's id, and in the other cells of the sheet.
use onsheet_backend.Base.{
  Bool, true, ℕ, String, false, ◌&&◌, Option, none, some, ◌==◌, nat_eq, string_eq, cell_key_eq, ◌≡◌,
  refl, subst, arith, ap, sym, ◌∙◌, if◌then◌else◌, Bool-cases, inl, inr, ◌+◌,
}
use onsheet_backend.Prisma.{Prisma, Db, Cell, Stamp, cell_key}
use onsheet_backend.Prisma.Table.Laws.{upserted, eq_refl}
use onsheet_backend.Prisma.Table.Keeping.{find-upsert_apart}
use onsheet_backend.Http.{Result, ok}
use onsheet_backend.Sheets.Service.{assert_editor_access}
use onsheet_backend.Workbooks.Access.{assert_editor}
use onsheet_backend.Cells.Service.{
  UpdateCellDto, Source, find_cell, upsert, is_stale, version_of, created_cell, updated_cell,
}
use onsheet_backend.Cells.Versions.{upsert_saves, upsert-stale, saved}

-- What a cell holds, less its id: the raw value, the computed and the formatted one, the style, and
-- the version.
abbrev pub Contents : Type 0
Contents = Option String × Option String × Option String × String × ℕ

abbrev pub contents_of : Option Cell → Option Contents
contents_of none = none
contents_of (some c) = some (c.raw_value, c.computed, c.formatted, c.style, c.version)

abbrev field_of : {A : Type 0} → (Cell → Option A) → Option Cell → Option A
field_of f none = none
field_of f (some c) = f c

abbrev pub id_or : String → Option Cell → String
id_or id none = id
id_or id (some c) = c.id

abbrev style_of : Option Cell → String
style_of none = "{}"
style_of (some c) = c.style

abbrev next_version : Option Cell → ℕ
next_version none = 1
next_version (some c) = c.version + 1

abbrev given_or {ℓ} : {A : Type ℓ} → Option A → A → A
given_or none a = a
given_or (some b) a = b

abbrev optional_or {ℓ} : {A : Type ℓ} → Option A → Option A → Option A
optional_or none o = o
optional_or (some a) o = some a

-- Does a write name a version that the cell is not at? A cell that is not there has no version.
abbrev pub names_other : Option ℕ → Option Cell → Bool
names_other none old = false
names_other (some base) none = false
names_other (some base) (some c) = if c.version == base then false else true

-- The cell after a write: one that names another version leaves it, any other one sets the fields
-- that it gives and raises the version by one.
abbrev pub write_cell : UpdateCellDto → Option Cell → Option Contents
write_cell dto old =
    if names_other dto.base_version old
    then contents_of old
    else some (
      optional_or dto.raw_value (field_of (λ c. c.raw_value) old),
      optional_or dto.computed (field_of (λ c. c.computed) old),
      optional_or dto.formatted (field_of (λ c. c.formatted) old),
      given_or dto.style (style_of old),
      next_version old,
    )

pub is_stale_lem : (base : Option ℕ) (old : Option Cell) → is_stale base old ≡ names_other base old
is_stale_lem none old = refl
is_stale_lem (some base) none = refl
is_stale_lem (some base) (some c) = ground arith

module _ ⦃p : Prisma⦄ where
  pub upsert_frame :
      (j u : String) (dto : UpdateCellDto) (source : Source) (db : Db p)
      → (upsert j u dto source db).1 ≡ record db {
        cells = (upsert j u dto source db).1.cells;
        cell_ops = (upsert j u dto source db).1.cell_ops;
      }
  unfolding upsert
  upsert_frame j u dto source db = ground arith

  pub access-upsert :
      (j u x : String) (dto : UpdateCellDto) (source : Source) (db : Db p)
      → assert_editor_access (upsert j u dto source db).1 j x ≡ assert_editor_access db j x
  unfolding assert_editor_access assert_editor
  access-upsert j u x dto source db =
      ap (λ (d : Db p). assert_editor_access d j x) (upsert_frame j u dto source db)

  contents-upserted :
      (j : String) (dto : UpdateCellDto) (o : Option Cell) (z : Stamp)
      → contents_of (
          some (
            upserted o
              (created_cell j dto (version_of o + 1) z)
              (updated_cell dto (version_of o + 1))))
        ≡ some (
          optional_or dto.raw_value (field_of (λ c. c.raw_value) o),
          optional_or dto.computed (field_of (λ c. c.computed) o),
          optional_or dto.formatted (field_of (λ c. c.formatted) o),
          given_or dto.style (style_of o),
          next_version o,
        )
  contents-upserted j dto none z = ground arith
  contents-upserted j dto (some c) z = ground arith

  -- One write by an editor: its own cell, and the others.
  contents-upsert_here :
      (j u : String) (dto : UpdateCellDto) (source : Source) (db : Db p)
      → assert_editor_access db j u ≡ ok tt
      → contents_of (find_cell (upsert j u dto source db).1 j dto.row dto.col)
        ≡ write_cell dto (find_cell db j dto.row dto.col)
  contents-upsert_here j u dto source db access =
      let old = find_cell db j dto.row dto.col in
      elim (Bool-cases (is_stale dto.base_version (find_cell db j dto.row dto.col))) [
        | inl stale ↦ rw (sym (is_stale_lem dto.base_version old) ∙ stale) (
            ap (λ (x : Result Cell × Db p). contents_of (find_cell x.1 j dto.row dto.col))
              (upsert-stale j u dto source db access stale))
        | inr fresh ↦
            let stored : find_cell (upsert j u dto source db).1 j dto.row dto.col
                ≡ some (saved j u dto source db) =
              (upsert_saves j u dto source db access fresh).3 (j, dto.row, dto.col)
              ∙ rw (eq_refl {K = String × ℕ × ℕ} (j, dto.row, dto.col)) in
            rw (sym (is_stale_lem dto.base_version old) ∙ fresh) (
              ap contents_of stored
              ∙ contents-upserted j dto (find_cell db j dto.row dto.col) (p.cells.stamp db.cells))
      ]

  pub contents-upsert :
      (j u : String) (dto : UpdateCellDto) (source : Source) (row col : ℕ) (db : Db p)
      → assert_editor_access db j u ≡ ok tt
      → (dto.row == row && dto.col == col) ≡ true
      → contents_of (find_cell (upsert j u dto source db).1 j row col)
        ≡ write_cell dto (find_cell db j row col)
  contents-upsert j u dto source row col db access same =
      let after = (upsert j u dto source db).1 in
      let same_row : dto.row ≡ row = ground (arith, same) in
      let same_col : dto.col ≡ col = ground (arith, same) in
      subst (λ r. contents_of (find_cell after j r col) ≡ write_cell dto (find_cell db j r col))
        same_row
        (subst
          (λ c.
            contents_of (find_cell after j dto.row c) ≡ write_cell dto (find_cell db j dto.row c))
          same_col (contents-upsert_here j u dto source db access))

  pub find_cell-upsert_apart :
      (j u : String) (dto : UpdateCellDto) (source : Source) (row col : ℕ) (db : Db p)
      → (dto.row == row && dto.col == col) ≡ false
      → find_cell (upsert j u dto source db).1 j row col ≡ find_cell db j row col
  unfolding upsert
  find_cell-upsert_apart j u dto source row col db apart =
      let old = find_cell db j dto.row dto.col in
      ground (
        arith,
        find-upsert_apart p.cells p.cells-IsLawful db.cells (j, dto.row, dto.col) (j, row, col)
            (ground (arith, apart)) (created_cell j dto (version_of old + 1))
            (updated_cell dto (version_of old + 1)) (λ z. refl) (λ r. refl),
      )

  -- One write by an editor that does not name another version: it returns a cell at its place with
  -- the fields of the write, which leaves the others as they were, `{}` for the style of a new
  -- cell, and the next version, 1 for a new cell. An old cell keeps its id. This cell is then
  -- stored, and every other cell of the database is as it was.
  pub upsert_lem :
      (j u : String) (dto : UpdateCellDto) (source : Source) (db : Db p)
      → assert_editor_access db j u ≡ ok tt
      → names_other dto.base_version (find_cell db j dto.row dto.col) ≡ false
      → let (answer, after) = upsert j u dto source db in
        (c : Cell) × (answer ≡ ok c)
        × (cell_key c ≡ (j, dto.row, dto.col))
        × (contents_of (some c) ≡ write_cell dto (find_cell db j dto.row dto.col))
        × (id_or c.id (find_cell db j dto.row dto.col) ≡ c.id)
        × ((k : String × ℕ × ℕ)
            → p.cells.find_unique after.cells k
              ≡ (if (j, dto.row, dto.col) == k then some c else p.cells.find_unique db.cells k))
  upsert_lem j u dto source db access fresh =
      let old = find_cell db j dto.row dto.col in
      let outcome =
        upsert_saves j u dto source db access (is_stale_lem dto.base_version old ∙ fresh) in
      (
        saved j u dto source db,
        outcome.0,
        key-saved old refl,
        rw fresh (contents-upserted j dto old (p.cells.stamp db.cells)),
        kept_id old,
        outcome.3,
      )
    where
      key-saved :
          (o : Option Cell)
          → find_cell db j dto.row dto.col ≡ o
          → cell_key (
              upserted o
                (created_cell j dto (version_of o + 1) (p.cells.stamp db.cells))
                (updated_cell dto (version_of o + 1)))
            ≡ (j, dto.row, dto.col)
      key-saved none h = refl
      key-saved (some c) h = p.cells-IsLawful.find_key db.cells (j, dto.row, dto.col) c h

      kept_id :
          (o : Option Cell)
          → let c =
              upserted o
                (created_cell j dto (version_of o + 1) (p.cells.stamp db.cells))
                (updated_cell dto (version_of o + 1)) in
            id_or c.id o ≡ c.id
      kept_id none = refl
      kept_id (some c) = refl
