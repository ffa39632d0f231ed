-- ===== src/Prisma/Cascade.antt =====
-- The referential actions of prisma/schema.prisma: what the database does to other tables when a
-- row is deleted.
use onsheet_backend.Base.{String, Bool, false, Option, none, some, List, ◌==◌, string_eq, any}
use onsheet_backend.Prisma.Schema.{Sheet, Cell}
use onsheet_backend.Prisma.Client.{Prisma, Db}

abbrev pub names_cell : List Cell → Option String → Bool
names_cell cells none = false
names_cell cells (some id) = any (λ c. c.id == id) cells

module _ ⦃p : Prisma⦄ where
  -- Rows that hang on deleted sheets go with them (`onDelete: Cascade`).
  abbrev pub cascade_sheets : List Sheet → Db p → Db p
  cascade_sheets doomed db = record db {
    cells = (p.cells.delete_many db.cells (λ c. any (λ s. s.id == c.sheet_id) doomed)).0;
    cell_ops = (p.cell_ops.delete_many db.cell_ops (λ o. any (λ s. s.id == o.sheet_id) doomed)).0;
    snapshots =
        (p.snapshots.delete_many db.snapshots (λ x. any (λ s. s.id == x.sheet_id) doomed)).0;
    comments = (p.comments.delete_many db.comments (λ x. any (λ s. s.id == x.sheet_id) doomed)).0;
  }

  -- So do the sheets and the permissions of a deleted workbook.
  abbrev pub cascade_workbook : String → Db p → Db p
  cascade_workbook id db =
      cascade_sheets (p.sheets.find_many db.sheets (λ s. s.workbook_id == id)) (record db {
        sheets = (p.sheets.delete_many db.sheets (λ s. s.workbook_id == id)).0;
        permissions = (p.permissions.delete_many db.permissions (λ r. r.workbook_id == id)).0;
      })

  -- Operations on deleted cells stay, and forget the cell (`onDelete: SetNull`).
  abbrev pub delete_cells : (Cell → Bool) → Db p → Db p
  delete_cells doomed db = record db {
    cells = (p.cells.delete_many db.cells doomed).0;
    cell_ops =
        p.cell_ops.update_many db.cell_ops
          (λ o. names_cell (p.cells.find_many db.cells doomed) o.cell_id)
          (λ o. record o { cell_id = none });
  }
