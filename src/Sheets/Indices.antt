-- ===== src/Sheets/Indices.antt =====
-- The index that a new sheet is given.
use onsheet_backend.Base.{
  String, Bool, false, not, ◌&&◌, Option, some, ◌==◌, ◌≡◌, string_eq, nat_eq, arith, eq_iff,
  nat_eqb_iff, sym,
}
use onsheet_backend.Prisma.{Prisma, Db, Sheet, sheet_clash}
use onsheet_backend.Prisma.Table.Laws.{is_empty-find_many_of_found}
use onsheet_backend.Http.{ok, err, known_request}
use onsheet_backend.Workbooks.Access.{assert_editor}
use onsheet_backend.Sheets.Service.{create, find_sheet, count_sheets, new_sheet}

module _ ⦃p : Prisma⦄ (db : Db p) (workbook_id : String) where
  -- Once a workbook has a sheet whose index is the number of its sheets, as after the removal of a
  -- sheet that is not the last, an editor cannot add a sheet: the index of the new one is taken,
  -- and the call throws the database's error and changes nothing. The new sheet's id is one that
  -- this sheet does not have.
  pub create_collides :
      (user_id id : String) (name : Option String) (s : Sheet)
      → assert_editor db workbook_id user_id ≡ ok tt
      → find_sheet db id ≡ some s
      → s.workbook_id ≡ workbook_id
      → s.index ≡ count_sheets db workbook_id
      → (s.id == (p.sheets.stamp db.sheets).id) ≡ false
      → create workbook_id user_id name db ≡ (err known_request, db)
  unfolding create
  create_collides user_id id name s access found here taken fresh =
      let row =
        new_sheet workbook_id name (count_sheets db workbook_id) (p.sheets.stamp db.sheets) in
      let rival : Sheet → Bool = λ x. sheet_clash row x && not (x.id == row.id) in
      ground (
        arith,
        access,
        p.sheets-IsLawful.create_lem db.sheets
            (new_sheet workbook_id name (count_sheets db workbook_id)),
        is_empty-find_many_of_found p.sheets p.sheets-IsLawful db.sheets rival id s found,
        (eq_iff workbook_id s.workbook_id).1 (sym here),
        (nat_eqb_iff (count_sheets db workbook_id) s.index).1 (sym taken),
        fresh,
      )
