-- ===== src/Api/Saving.antt =====
-- A cell that is written by one request and read by another.
use onsheet_backend.Base.{
  ℕ, String, true, Option, none, some, List, ◌==◌, string_eq, cell_key_eq, ◌≡◌, refl, arith, ap,
  sym, ◌∙◌, if◌then◌else◌, Bool-cases, inl, inr, find_first, keep, subst, ◌&&◌, nat_eq,
}
use onsheet_backend.Prisma.{Prisma, Db, Cell, Sheet, cell_key}
use onsheet_backend.Prisma.Table.Laws.{eq_refl}
use onsheet_backend.Http.{Result, ok}
use onsheet_backend.Auth.{SafeUser, validate_access}
use onsheet_backend.Workbooks.Access
use onsheet_backend.Sheets.Service.{assert_editor_access, find_one, cells_of}
use onsheet_backend.Cells.Service.{UpdateCellDto, http, find_cell, is_stale, upsert, find_all}
use onsheet_backend.Cells.Versions.{upsert_saves, upsert-stale}
use onsheet_backend.Cells.Contents.{
  Contents, contents_of, write_cell, contents-upsert, find_cell-upsert_apart, upsert_frame,
  names_other, is_stale_lem,
}
use onsheet_backend.Api.Answers.{
  succeeded, reply_status, plain_answer, cells_value, filter_exception, transform,
}
use onsheet_backend.Api.Controllers.Accounts.{Server, Draws}
use onsheet_backend.Api.Controllers.Cells
use onsheet_backend.Api.Controllers.Cells.{cells_controller}
use onsheet_backend.Api.Validation.{Validator}
use onsheet_backend.Api.{Request, cells, user_of, can_activate, is_valid, call, handle, serve}

module _ (s : Server) (v : Validator) ⦃p : Prisma⦄ (sid : String) where
  -- a request for one cell, once its sender and its body are known to pass
  module _ (d : Draws) (r : Request) (dto : UpdateCellDto) (u : SafeUser) (db : Db p)
      (route : r.route ≡ cells sid (Cells.upsert dto)) (sender : user_of s v d r db ≡ ok u)
      (valid : is_valid v r.route ≡ true) where
    tables-serve_put : (serve s v d r db).1 ≡ (upsert sid u.id dto http db).1
    unfolding serve handle can_activate call cells_controller
    tables-serve_put = ground (arith, route, sender, valid)

    status-serve_put :
        assert_editor_access db sid u.id ≡ ok tt
        → reply_status (serve s v d r db).0
          ≡ (if names_other dto.base_version (find_cell db sid dto.row dto.col) then 409 else 200)
    unfolding serve handle can_activate call cells_controller filter_exception transform
    status-serve_put access =
        elim (Bool-cases (is_stale dto.base_version (find_cell db sid dto.row dto.col))) [
          | inl stale ↦ ground (
            arith,
            route,
            sender,
            valid,
            sym (is_stale_lem dto.base_version (find_cell db sid dto.row dto.col)) ∙ stale,
            ap (λ (x : Result Cell × Db p). x.0) (upsert-stale sid u.id dto http db access stale),
          )
          | inr fresh ↦ ground (
            arith,
            route,
            sender,
            valid,
            sym (is_stale_lem dto.base_version (find_cell db sid dto.row dto.col)) ∙ fresh,
            (upsert_saves sid u.id dto http db access fresh).0,
          )
        ]

  module _ (d : Draws) (r : Request) (u : SafeUser) (db : Db p)
      (route : r.route ≡ cells sid Cells.find_all) (sender : user_of s v d r db ≡ ok u) (sh : Sheet)
      (access : find_one db sid u.id ≡ ok sh) where
    serve_list :
        serve s v d r db ≡ (succeeded 200 (plain_answer (cells_value (cells_of db sid))), db)
    unfolding serve handle can_activate call cells_controller is_valid find_all transform
    serve_list = ground (arith, route, sender, access)

  find-cells_of :
      (db : Db p) (row col : ℕ)
      → find_first (λ c. cell_key c == (sid, row, col)) (cells_of db sid) ≡ find_cell db sid row col
  find-cells_of db row col =
      p.cells-IsLawful.find-find_many db.cells (λ c. c.sheet_id == sid) (sid, row, col)
      ∙ kept_lem (find_cell db sid row col) refl
    where
      kept_lem :
          (o : Option Cell) → find_cell db sid row col ≡ o → keep (λ c. c.sheet_id == sid) o ≡ o
      kept_lem none h = refl
      kept_lem (some c) h = ground (
        arith,
        ap (λ (k : String × ℕ × ℕ). k.0 == sid)
            (p.cells-IsLawful.find_key db.cells (sid, row, col) c h),
        eq_refl sid,
      )

  user_of-cells :
      (d : Draws) (r : Request) (db : Db p) (t : p.cells.T) (ops : p.cell_ops.T)
      → user_of s v d r (record db { cells = t; cell_ops = ops }) ≡ user_of s v d r db
  unfolding validate_access
  user_of-cells d r db t ops = refl

  find_one-cells :
      (id : String) (db : Db p) (t : p.cells.T) (ops : p.cell_ops.T)
      → find_one (record db { cells = t; cell_ops = ops }) sid id ≡ find_one db sid id
  unfolding find_one Access.find_one
  find_one-cells id db t ops = refl

  -- The cell at a place after a write.
  abbrev pub after_put : UpdateCellDto → Db p → ℕ → ℕ → Option Contents
  after_put dto db row col =
      if dto.row == row && dto.col == col
      then write_cell dto (find_cell db sid row col)
      else contents_of (find_cell db sid row col)

  contents-put :
      (id : String) (dto : UpdateCellDto) (db : Db p) (row col : ℕ)
      → assert_editor_access db sid id ≡ ok tt
      → contents_of (find_cell (upsert sid id dto http db).1 sid row col) ≡ after_put dto db row col
  contents-put id dto db row col access = elim (Bool-cases (dto.row == row && dto.col == col)) [
    | inl same ↦ rw same (contents-upsert sid id dto http row col db access same)
    | inr apart ↦
        rw apart (ap contents_of (find_cell-upsert_apart sid id dto http row col db apart))
  ]

  -- What an editor writes, every reader of the sheet sees. A `PUT` of one cell by a user who may
  -- edit the sheet, with a body that is valid, is answered with 409 where the base version that it
  -- names is not the cell's, and with 200 otherwise. A `GET` of the cells by any user who may read
  -- the sheet, after the `PUT`, is answered with 200 and a list that holds, at the written place,
  -- the cell as it was if the write was stale and else with the fields of the write and the next
  -- version, and at every other place what the sheet held before.
  pub serve-put_get :
      (d d' : Draws) (r r' : Request) (dto : UpdateCellDto) (u u' : SafeUser) (sh : Sheet)
      (db : Db p)
      → r.route ≡ cells sid (Cells.upsert dto)
      → user_of s v d r db ≡ ok u
      → is_valid v r.route ≡ true
      → assert_editor_access db sid u.id ≡ ok tt
      → r'.route ≡ cells sid Cells.find_all
      → user_of s v d' r' db ≡ ok u'
      → find_one db sid u'.id ≡ ok sh
      → let (answer, after) = serve s v d r db in
        (reply_status answer
          ≡ (if names_other dto.base_version (find_cell db sid dto.row dto.col) then 409 else 200))
        × ((listed : List Cell) × (serve s v d' r' after
              ≡ (succeeded 200 (plain_answer (cells_value listed)), after))
            × ((row col : ℕ)
                → contents_of (find_first (λ c. cell_key c == (sid, row, col)) listed)
                  ≡ after_put dto db row col))
  serve-put_get d d' r r' dto u u' sh db route sender valid access route' sender' access' =
      let after = (upsert sid u.id dto http db).1 in
      let put = tables-serve_put d r dto u db route sender valid in
      let framed = upsert_frame sid u.id dto http db in
      let listing : serve s v d' r' after
          ≡ (succeeded 200 (plain_answer (cells_value (cells_of after sid))), after) =
        serve_list d' r' u' after route'
          (ap (user_of s v d' r') framed
            ∙ user_of-cells d' r' db after.cells after.cell_ops
            ∙ sender')
          sh
          (ap (λ x. find_one x sid u'.id) framed
            ∙ find_one-cells u'.id db after.cells after.cell_ops
            ∙ access') in
      (
        status-serve_put d r dto u db route sender valid access,
        (
          cells_of after sid,
          subst
              (λ x.
                serve s v d' r' x
                ≡ (succeeded 200 (plain_answer (cells_value (cells_of after sid))), x))
              (sym put) listing,
          λ row col.
              ap contents_of (find-cells_of after row col)
              ∙ contents-put u.id dto db row col access,
        ),
      )
