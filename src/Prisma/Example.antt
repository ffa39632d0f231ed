-- ===== src/Prisma/Example.antt =====
-- A client whose tables are in memory, for tests.
use onsheet_backend.Base.{refl, string_eq, pair_eq, cell_key_eq}
use onsheet_backend.Prisma.Insert.{decode_rows, insert_law}
use onsheet_backend.Prisma.Schema.{permission_key, cell_key}
use onsheet_backend.Prisma.Memory.{memory, memory-IsLawful}
use onsheet_backend.Prisma.Client.{Prisma, user_clash, workbook_clash, sheet_clash, no_clash}

abbrev pub in_memory : Prisma
in_memory = record {
  users = memory (λ u. u.id) user_clash;
  workbooks = memory (λ w. w.id) workbook_clash;
  permissions = memory permission_key no_clash;
  sheets = memory (λ s. s.id) sheet_clash;
  cells = memory cell_key no_clash;
  cell_ops = memory (λ o. o.id) no_clash;
  snapshots = memory (λ s. s.id) no_clash;
  comments = memory (λ c. c.id) no_clash;
  insert_cells =
      λ s clauses params. insert_law (memory cell_key no_clash) s (decode_rows clauses params);
  insert_cells_lem = λ s clauses params. refl;
  users-IsLawful = memory-IsLawful (λ u. u.id) user_clash;
  workbooks-IsLawful = memory-IsLawful (λ w. w.id) workbook_clash;
  permissions-IsLawful = memory-IsLawful permission_key no_clash;
  sheets-IsLawful = memory-IsLawful (λ s. s.id) sheet_clash;
  cells-IsLawful = memory-IsLawful cell_key no_clash;
  cell_ops-IsLawful = memory-IsLawful (λ o. o.id) no_clash;
  snapshots-IsLawful = memory-IsLawful (λ s. s.id) no_clash;
  comments-IsLawful = memory-IsLawful (λ c. c.id) no_clash;
}
