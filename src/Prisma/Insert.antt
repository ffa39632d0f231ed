-- ===== src/Prisma/Insert.antt =====
-- The meaning of the raw statement of `bulkUpsert`, as PostgreSQL documents it: `$k` is the k-th
-- parameter; `ON CONFLICT DO UPDATE` cannot affect a row a second time; a new row has version 1,
-- and an old one has the new values and the next version.
use onsheet_backend.Base.{
  ℕ, zero, suc, ◌+◌, String, Bool, true, not, ◌&&◌, Option, none, some, List, [], ◌∷◌, ◌==◌,
  cell_key_eq, any, length, if◌then◌else◌,
}
use onsheet_backend.Prisma.Schema.{Cell}
use onsheet_backend.Prisma.Table.{Stamp, Table}

pub data SqlParam : Type 0 where
  int : ℕ → SqlParam
  text : Option String → SqlParam

-- One row of `VALUES`.
pub record InsertRow : Type 0 where
  pub sheet_id : String
  pub row : ℕ
  pub col : ℕ
  pub raw_value : Option String
  pub computed : Option String
  pub formatted : Option String
  pub style : String

abbrev pub insert_key : InsertRow → String × ℕ × ℕ
insert_key r = (r.sheet_id, r.row, r.col)

-- `$k`
abbrev pub param_at : List SqlParam → ℕ → Option SqlParam
param_at params zero = none
param_at [] (suc k) = none
param_at (x ∷ xs) (suc zero) = some x
param_at (x ∷ xs) (suc (suc k)) = param_at xs (suc k)

abbrev pub all_params : List SqlParam → List ℕ → Option (List SqlParam)
all_params params [] = some []
all_params params (k ∷ ks) = add_param (param_at params k) (all_params params ks)
  where
    add_param : Option SqlParam → Option (List SqlParam) → Option (List SqlParam)
    add_param (some x) (some xs) = some (x ∷ xs)
    add_param _ _ = none

abbrev pub row_of : Option (List SqlParam) → Option InsertRow
row_of (some (text (some s) ∷ int r ∷ int c ∷ text v ∷ text k ∷ text f ∷ text (some y) ∷ [])) =
    some (record {
      sheet_id = s;
      row = r;
      col = c;
      raw_value = v;
      computed = k;
      formatted = f;
      style = y;
    })
row_of _ = none

abbrev pub add_row : Option InsertRow → Option (List InsertRow) → Option (List InsertRow)
add_row (some r) (some rs) = some (r ∷ rs)
add_row _ _ = none

abbrev pub decode_rows : List (List ℕ) → List SqlParam → Option (List InsertRow)
decode_rows [] params = some []
decode_rows (ks ∷ kss) params = add_row (row_of (all_params params ks)) (decode_rows kss params)

abbrev pub keys_distinct : List InsertRow → Bool
keys_distinct [] = true
keys_distinct (r ∷ rs) = not (any (λ x. insert_key x == insert_key r) rs) && keys_distinct rs

-- `"version" = cells."version" + 1`, the other columns from `EXCLUDED`
abbrev pub inserted_cell : InsertRow → Option Cell → Stamp → Cell
inserted_cell r none z = record {
  id = z.id;
  sheet_id = r.sheet_id;
  row = r.row;
  col = r.col;
  raw_value = r.raw_value;
  computed = r.computed;
  formatted = r.formatted;
  style = r.style;
  version = 1;
}
inserted_cell r (some c) z = record c {
  sheet_id = r.sheet_id;
  row = r.row;
  col = r.col;
  raw_value = r.raw_value;
  computed = r.computed;
  formatted = r.formatted;
  style = r.style;
  version = c.version + 1;
}

module _ (t : Table (String × ℕ × ℕ) Cell) where
  abbrev pub insert_row : t.T → InsertRow → t.T
  insert_row s r = t.write s (inserted_cell r (t.find_unique s (insert_key r)) (t.stamp s))

  abbrev pub insert_rows : t.T → List InsertRow → t.T
  insert_rows s [] = s
  insert_rows s (r ∷ rs) = insert_rows (insert_row s r) rs

  abbrev pub insert_law : t.T → Option (List InsertRow) → Option (t.T × ℕ)
  insert_law s none = none
  insert_law s (some rs) = if keys_distinct rs then some (insert_rows s rs, length rs) else none
