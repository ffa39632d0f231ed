-- ===== src/Tests/Office.antt =====
-- A small database: a workbook of Ann with one sheet and one cell, which Bob may view and Cid may
-- edit; Dan has an account and no grant.
use onsheet_backend.Base.{ℕ, String, false, Option, none, some, List, [], ◌∷◌}
use onsheet_backend.Prisma.{
  Db, User, Workbook, Cell, Permission, PermissionRole, viewer, editor, Stamp,
}
use onsheet_backend.Prisma.Memory.{Rows}
use onsheet_backend.Prisma.Example.{in_memory}
use onsheet_backend.Cells.Service.{UpdateCellDto}

abbrev pub supply : String → List Stamp
supply x = record { id = x; token = x; now = 100 } ∷ []

abbrev pub account : String → User
account name = record {
  id = name;
  email = name;
  display_name = name;
  password_hash = name;
  avatar_url = none;
  refresh_token = none;
}

abbrev pub dan : User
dan = account "dan"

abbrev pub book : Workbook
book = record {
  id = "w";
  name = "Budget";
  owner_id = "ann";
  share_token = none;
  public_access = false;
  created_at = 1;
}

abbrev grant : String → PermissionRole → Permission
grant user role = record { workbook_id = "w"; user_id = user; role = role }

abbrev pub first_cell : Cell
first_cell = record {
  id = "c";
  sheet_id = "s";
  row = 2;
  col = 3;
  raw_value = some "old";
  computed = none;
  formatted = none;
  style = "{}";
  version = 4;
}

abbrev pub rows_of : {R : Type 0} → List R → String → Rows R
rows_of l x = record { rows = l; supply = supply x }

abbrev pub office : Db in_memory
office = record {
  users = rows_of (account "ann" ∷ account "bob" ∷ account "cid" ∷ dan ∷ []) "u";
  workbooks = rows_of (book ∷ []) "w2";
  permissions = rows_of (grant "bob" viewer ∷ grant "cid" editor ∷ []) "p";
  sheets = rows_of (record { id = "s"; workbook_id = "w"; name = "Sheet1"; index = 0 } ∷ []) "s2";
  cells = rows_of (first_cell ∷ []) "c2";
  cell_ops = rows_of [] "o";
  snapshots = rows_of [] "n";
  comments = rows_of [] "m";
}

-- a write of a cell that names the base version
abbrev pub write_of : ℕ → ℕ → Option String → Option ℕ → UpdateCellDto
write_of row col value base = record {
  row = row;
  col = col;
  raw_value = value;
  computed = none;
  formatted = none;
  style = none;
  base_version = base;
}
