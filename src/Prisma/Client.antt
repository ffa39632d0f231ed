-- ===== src/Prisma/Client.antt =====
-- The Prisma client as a parameter: a lawful table for each model of prisma/schema.prisma, with
-- the unique constraints beside the key. `Db` is what the tables hold.
use onsheet_backend.Base.{
  List, ◌≡◌, ℕ, String, Bool, false, Option, none, some, ◌&&◌, ◌==◌, nat_eq, string_eq, pair_eq,
  cell_key_eq,
}
use onsheet_backend.Prisma.Schema.{
  User, Workbook, Sheet, Cell, CellOperation, Permission, SheetSnapshot, CellComment,
  permission_key, cell_key,
}
use onsheet_backend.Prisma.Insert.{SqlParam, decode_rows, insert_law}
use onsheet_backend.Prisma.Table.{Table, IsLawful}

-- `email String @unique`
abbrev pub user_clash : User → User → Bool
user_clash a b = a.email == b.email

-- `shareToken String? @unique`: null is equal to nothing
abbrev pub same_token : Option String → Option String → Bool
same_token none t = false
same_token (some s) none = false
same_token (some s) (some t) = s == t

abbrev pub workbook_clash : Workbook → Workbook → Bool
workbook_clash a b = same_token a.share_token b.share_token

-- `@@unique([workbookId, index])`
abbrev pub sheet_clash : Sheet → Sheet → Bool
sheet_clash a b = a.workbook_id == b.workbook_id && a.index == b.index

abbrev pub no_clash : {R : Type 0} → R → R → Bool
no_clash a b = false

pub record Prisma : Type 1 where
  pub users : Table String User
  pub workbooks : Table String Workbook
  pub permissions : Table (String × String) Permission
  pub sheets : Table String Sheet
  pub cells : Table (String × ℕ × ℕ) Cell
  pub cell_ops : Table String CellOperation
  pub snapshots : Table String SheetSnapshot
  pub comments : Table String CellComment
  -- `$executeRawUnsafe` of the one statement that the code sends, `INSERT INTO cells … VALUES …
  -- ON CONFLICT … DO UPDATE …`: the placeholders of each row, the parameters, and as the result
  -- the number of rows affected; `none` is an error of the database
  pub insert_cells : cells.T → List (List ℕ) → List SqlParam → Option (cells.T × ℕ)
  pub insert_cells_lem :
      (s : cells.T) (clauses : List (List ℕ)) (params : List SqlParam)
      → insert_cells s clauses params ≡ insert_law cells s (decode_rows clauses params)
  pub users-IsLawful : IsLawful users (λ u. u.id) user_clash
  pub workbooks-IsLawful : IsLawful workbooks (λ w. w.id) workbook_clash
  pub permissions-IsLawful : IsLawful permissions permission_key no_clash
  pub sheets-IsLawful : IsLawful sheets (λ s. s.id) sheet_clash
  pub cells-IsLawful : IsLawful cells cell_key no_clash
  pub cell_ops-IsLawful : IsLawful cell_ops (λ o. o.id) no_clash
  pub snapshots-IsLawful : IsLawful snapshots (λ s. s.id) no_clash
  pub comments-IsLawful : IsLawful comments (λ c. c.id) no_clash

pub record Db (p : Prisma) : Type 0 where
  pub users : p.users.T
  pub workbooks : p.workbooks.T
  pub permissions : p.permissions.T
  pub sheets : p.sheets.T
  pub cells : p.cells.T
  pub cell_ops : p.cell_ops.T
  pub snapshots : p.snapshots.T
  pub comments : p.comments.T
