-- ===== src/Api/Ownership/Cascades.antt =====
-- What a cascade leaves alone: the rows of another workbook.
use onsheet_backend.Base.{
  All, ℕ, String, false, not, keep, Option, none, some, List, [], ◌∷◌, ◌≡◌, ◌≢◌, refl, arith, ◌==◌,
  string_eq, pair_eq, cell_key_eq, ◌∙◌, ap, sym, any, find_first, eq_iff, Bool-cases, inl, inr,
}
use onsheet_backend.Prisma.{Prisma, Db, Workbook, Sheet, Permission}
use onsheet_backend.Prisma.Cascade.{cascade_workbook, cascade_sheets}
use onsheet_backend.Prisma.Table.Laws.{find-delete_many_spared, any-find_many, eq_refl}
use onsheet_backend.Users.{cascade_workbooks, cascade_user}
use onsheet_backend.Workbooks.Access.{find_workbook}
use onsheet_backend.Sheets.Service.{find_sheet}
use onsheet_backend.Cells.Service.{find_cell}

pub not_true : (a b : String) → a ≢ b → (a == b) ≡ false
not_true a b h = ground (arith, (eq_iff a b).0, h)

module _ ⦃p : Prisma⦄ where
  -- A sheet's cells stay if the sheet is not among those that go.
  find_cell-cascade_sheets :
      (doomed : List Sheet) (db : Db p) (sid : String) (row col : ℕ)
      → any (λ s. s.id == sid) doomed ≡ false
      → find_cell (cascade_sheets doomed db) sid row col ≡ find_cell db sid row col
  find_cell-cascade_sheets doomed db sid row col spared =
      find-delete_many_spared p.cells p.cells-IsLawful db.cells
        (λ c. any (λ s. s.id == c.sheet_id) doomed) (sid, row, col)
        (λ c found.
          ap (λ (k : String × ℕ × ℕ). any (λ s. s.id == k.0) doomed)
            (p.cells-IsLawful.find_key db.cells (sid, row, col) c found)
          ∙ spared)

  module _ (id wid : String) (other : id ≢ wid) (db : Db p) where
    pub permission-cascade_workbook :
        (user : String)
        → p.permissions.find_unique (cascade_workbook id db).permissions (wid, user)
          ≡ p.permissions.find_unique db.permissions (wid, user)
    permission-cascade_workbook user =
        find-delete_many_spared p.permissions p.permissions-IsLawful db.permissions
          (λ r. r.workbook_id == id) (wid, user)
          (λ r found.
            ap (λ (k : String × String). k.0 == id)
              (p.permissions-IsLawful.find_key db.permissions (wid, user) r found)
            ∙ not_true wid id (λ e. other (sym e)))

    module _ (sid : String) (sh : Sheet) (found : find_sheet db sid ≡ some sh)
        (here : sh.workbook_id ≡ wid) where
      pub find_sheet-cascade_workbook : find_sheet (cascade_workbook id db) sid ≡ some sh
      find_sheet-cascade_workbook =
          find-delete_many_spared p.sheets p.sheets-IsLawful db.sheets (λ s. s.workbook_id == id)
            sid
            (λ s found'. ground (arith, found, found', here, (eq_iff s.workbook_id id).0, other))
          ∙ found

      pub find_cell-cascade_workbook :
          (row col : ℕ) → find_cell (cascade_workbook id db) sid row col ≡ find_cell db sid row col
      find_cell-cascade_workbook row col =
          find_cell-cascade_sheets (p.sheets.find_many db.sheets (λ s. s.workbook_id == id))
            (record db {
              sheets = (p.sheets.delete_many db.sheets (λ s. s.workbook_id == id)).0;
              permissions = (p.permissions.delete_many db.permissions (λ r. r.workbook_id == id)).0;
            })
            sid row col
            (any-find_many p.sheets p.sheets-IsLawful db.sheets (λ s. s.workbook_id == id) sid
              ∙ ground (arith, found, here, (eq_iff sh.workbook_id id).0, other))

  abbrev AreOthers : String → List Workbook → Type 0
  AreOthers wid = All (λ wb. wb.id ≢ wid)

  are_others_lem :
      (wid : String) (l : List Workbook)
      → find_first (λ wb. wb.id == wid) l ≡ none
      → AreOthers wid l
  are_others_lem wid [] h = tt
  are_others_lem wid (wb ∷ l) h = elim (Bool-cases (wb.id == wid)) [
    | inl same ↦ ground (arith, h, same)
    | inr other ↦ (
      λ e. ground (arith, (eq_iff wb.id wid).1 e, other),
      are_others_lem wid l (ground (arith, h, other)),
    )
  ]

  permission-cascade_workbooks :
      (wid user : String) (wbs : List Workbook) (db : Db p)
      → AreOthers wid wbs
      → p.permissions.find_unique (cascade_workbooks wbs db).permissions (wid, user)
        ≡ p.permissions.find_unique db.permissions (wid, user)
  permission-cascade_workbooks wid user [] db h = refl
  permission-cascade_workbooks wid user (wb ∷ wbs) db h =
      permission-cascade_workbooks wid user wbs (cascade_workbook wb.id db) h.1
      ∙ permission-cascade_workbook wb.id wid h.0 db user

  find_cell-cascade_workbooks :
      (wid : String) (wbs : List Workbook) (db : Db p) (sid : String) (sh : Sheet) (row col : ℕ)
      → AreOthers wid wbs
      → find_sheet db sid ≡ some sh
      → sh.workbook_id ≡ wid
      → find_cell (cascade_workbooks wbs db) sid row col ≡ find_cell db sid row col
  find_cell-cascade_workbooks wid [] db sid sh row col h found here = refl
  find_cell-cascade_workbooks wid (wb ∷ wbs) db sid sh row col h found here =
      find_cell-cascade_workbooks wid wbs (cascade_workbook wb.id db) sid sh row col h.1
        (find_sheet-cascade_workbook wb.id wid h.0 db sid sh found here) here
      ∙ find_cell-cascade_workbook wb.id wid h.0 db sid sh found here row col

  find_sheet-cascade_workbooks :
      (wid : String) (wbs : List Workbook) (db : Db p) (sid : String) (sh : Sheet)
      → AreOthers wid wbs
      → find_sheet db sid ≡ some sh
      → sh.workbook_id ≡ wid
      → find_sheet (cascade_workbooks wbs db) sid ≡ some sh
  find_sheet-cascade_workbooks wid [] db sid sh h found here = found
  find_sheet-cascade_workbooks wid (wb ∷ wbs) db sid sh h found here =
      find_sheet-cascade_workbooks wid wbs (cascade_workbook wb.id db) sid sh h.1
        (find_sheet-cascade_workbook wb.id wid h.0 db sid sh found here) here

  workbooks-cascade_workbooks :
      (wbs : List Workbook) (db : Db p) → (cascade_workbooks wbs db).workbooks ≡ db.workbooks
  workbooks-cascade_workbooks [] db = refl
  workbooks-cascade_workbooks (wb ∷ wbs) db =
      workbooks-cascade_workbooks wbs (cascade_workbook wb.id db)

  -- Deleting a user leaves the workbooks of other owners, what others may do with them, and their
  -- cells.
  module _ (id wid : String) (wb : Workbook) (db : Db p) (found : find_workbook db wid ≡ some wb)
      (other : wb.owner_id ≢ id) where
    abbrev owned : List Workbook
    owned = p.workbooks.find_many db.workbooks (λ x. x.owner_id == id)

    -- the database before the workbooks' own cascades
    abbrev stripped : Db p
    stripped = record db {
      workbooks = (p.workbooks.delete_many db.workbooks (λ x. x.owner_id == id)).0;
      permissions = (p.permissions.delete_many db.permissions (λ r. r.user_id == id)).0;
      cell_ops = (p.cell_ops.delete_many db.cell_ops (λ o. o.user_id == id)).0;
      snapshots = (p.snapshots.delete_many db.snapshots (λ x. x.created_by == id)).0;
      comments = (p.comments.delete_many db.comments (λ x. x.created_by == id)).0;
    }

    owned-others : AreOthers wid owned
    owned-others = are_others_lem wid owned (
        p.workbooks-IsLawful.find-find_many db.workbooks (λ x. x.owner_id == id) wid
        ∙ ground (arith, found, (eq_iff wb.owner_id id).0, other))

    pub find_workbook-cascade_user : find_workbook (cascade_user id db) wid ≡ some wb
    find_workbook-cascade_user =
        ap (λ t. p.workbooks.find_unique t wid) (workbooks-cascade_workbooks owned stripped)
        ∙ find-delete_many_spared p.workbooks p.workbooks-IsLawful db.workbooks
            (λ x. x.owner_id == id) wid
            (λ r e. ground (arith, found, e, (eq_iff wb.owner_id id).0, other))
        ∙ found

    pub permission-cascade_user :
        (user : String)
        → user ≢ id
        → p.permissions.find_unique (cascade_user id db).permissions (wid, user)
          ≡ p.permissions.find_unique db.permissions (wid, user)
    permission-cascade_user user stays =
        permission-cascade_workbooks wid user owned stripped owned-others
        ∙ find-delete_many_spared p.permissions p.permissions-IsLawful db.permissions
            (λ r. r.user_id == id) (wid, user)
            (λ r e.
              ap (λ (k : String × String). k.1 == id)
                (p.permissions-IsLawful.find_key db.permissions (wid, user) r e)
              ∙ not_true user id stays)

    pub find_cell-cascade_user :
        (sid : String) (sh : Sheet) (row col : ℕ)
        → find_sheet db sid ≡ some sh
        → sh.workbook_id ≡ wid
        → find_cell (cascade_user id db) sid row col ≡ find_cell db sid row col
    find_cell-cascade_user sid sh row col stored here =
        find_cell-cascade_workbooks wid owned stripped sid sh row col owned-others stored here

    pub find_sheet-cascade_user :
        (sid : String) (sh : Sheet)
        → find_sheet db sid ≡ some sh
        → sh.workbook_id ≡ wid
        → find_sheet (cascade_user id db) sid ≡ some sh
    find_sheet-cascade_user sid sh stored here =
        find_sheet-cascade_workbooks wid owned stripped sid sh owned-others stored here

    -- The deleted user's own grants go.
    pub permission-cascade_user_self :
        p.permissions.find_unique (cascade_user id db).permissions (wid, id) ≡ none
    permission-cascade_user_self =
        permission-cascade_workbooks wid id owned stripped owned-others
        ∙ p.permissions-IsLawful.find-delete_many db.permissions (λ r. r.user_id == id) (wid, id)
        ∙ own_lem (p.permissions.find_unique db.permissions (wid, id)) refl
      where
        own_lem :
            (o : Option Permission)
            → p.permissions.find_unique db.permissions (wid, id) ≡ o
            → keep (λ r. not (r.user_id == id)) o ≡ none
        own_lem none h = refl
        own_lem (some r) h = ground (
          arith,
          ap (λ (k : String × String). k.1 == id)
              (p.permissions-IsLawful.find_key db.permissions (wid, id) r h),
          eq_refl id,
        )
