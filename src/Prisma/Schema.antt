-- ===== src/Prisma/Schema.antt =====
-- The models of prisma/schema.prisma: one record for each table whose rows the code reads.
-- A JSON column is kept as its text; `updatedAt` is read by no operation and left out.
use onsheet_backend.Base.{ℕ, String, Bool, Option, List}

pub data PermissionRole : Type 0 where
  viewer commenter editor owner : PermissionRole

pub data OpType : Type 0 where
  update clear style insert_row delete_row insert_col delete_col : OpType

pub record User : Type 0 where
  pub id : String
  pub email : String
  pub display_name : String
  pub password_hash : String
  pub avatar_url : Option String
  pub refresh_token : Option String

pub record Workbook : Type 0 where
  pub id : String
  pub name : String
  pub owner_id : String
  pub share_token : Option String
  pub public_access : Bool
  pub created_at : ℕ

pub record Sheet : Type 0 where
  pub id : String
  pub workbook_id : String
  pub name : String
  pub index : ℕ

pub record Cell : Type 0 where
  pub id : String
  pub sheet_id : String
  pub row : ℕ
  pub col : ℕ
  pub raw_value : Option String
  pub computed : Option String
  pub formatted : Option String
  pub style : String
  pub version : ℕ

pub record CellOperation : Type 0 where
  pub id : String
  pub cell_id : Option String
  pub sheet_id : String
  pub row : ℕ
  pub col : ℕ
  pub user_id : String
  pub version : ℕ
  pub type : OpType
  pub old_value : Option String
  pub new_value : Option String
  pub metadata : Option String
  pub created_at : ℕ

pub record Permission : Type 0 where
  pub workbook_id : String
  pub user_id : String
  pub role : PermissionRole

pub record SheetSnapshot : Type 0 where
  pub id : String
  pub sheet_id : String
  pub name : String
  pub cells : List Cell
  pub created_at : ℕ
  pub created_by : String

pub record CellComment : Type 0 where
  pub id : String
  pub sheet_id : String
  pub row : ℕ
  pub col : ℕ
  pub content : String
  pub created_at : ℕ
  pub created_by : String

-- The unique keys by which rows are found: `@id`, `@@unique([workbookId, userId])` and
-- `@@unique([sheetId, row, col])`.
abbrev pub permission_key : Permission → String × String
permission_key p = (p.workbook_id, p.user_id)

abbrev pub cell_key : Cell → String × ℕ × ℕ
cell_key c = (c.sheet_id, c.row, c.col)
