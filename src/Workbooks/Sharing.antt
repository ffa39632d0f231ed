-- ===== src/Workbooks/Sharing.antt =====
-- What an anonymous reader with a share token can open.
use onsheet_backend.Base.{
  String, Bool, true, Option, some, none, List, ◌≡◌, string_eq, arith, eq_iff, Option-cases, inl,
  inr,
}
use onsheet_backend.Prisma.{Prisma, Db, Workbook, Sheet, same_token}
use onsheet_backend.Prisma.Table.Laws.{passes_of_head, found_of_head}
use onsheet_backend.Http.{ok}
use onsheet_backend.Workbooks.Access.{find_workbook, sheets_of}
use onsheet_backend.Workbooks.Service.{find_by_share_token, find_by_token}

token_eq_some :
    (o : Option String) (token : String) → same_token o (some token) ≡ true → o ≡ some token
token_eq_some none token h = ground (arith, h)
token_eq_some (some t) token h = ground (arith, eq_iff t token)

module _ ⦃p : Prisma⦄ where
  -- A share token opens a workbook only if the workbook is stored with that token and is public at
  -- the time; the sheets that come with it are those of the workbook, by their index.
  pub find_by_share_token_lem :
      (db : Db p) (token : String) (wb : Workbook) (sheets : List Sheet)
      → find_by_share_token db token ≡ ok (wb, sheets)
      → (find_workbook db wb.id ≡ some wb)
        × (wb.share_token ≡ some token)
        × (wb.public_access ≡ true)
        × (sheets ≡ sheets_of db wb.id)
  unfolding find_by_share_token
  find_by_share_token_lem db token wb sheets opened = elim (Option-cases (find_by_token db token)) [
    | inl absent ↦ ground (arith, absent, opened)
    | inr (x, found) ↦
        let q : Workbook → Bool = λ w. same_token w.share_token (some token) in
        ground (
          arith,
          opened,
          found,
          found_of_head p.workbooks p.workbooks-IsLawful db.workbooks q x found,
          token_eq_some x.share_token token
              (passes_of_head p.workbooks p.workbooks-IsLawful db.workbooks q x found),
        )
  ]
