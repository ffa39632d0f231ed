-- ===== src/Cells/Racing.antt =====
-- Two writes of one cell at once. `upsert` of src/modules/cells/cells.service.ts awaits its read of
-- the cell before it checks the version and writes, outside a transaction: here it is two steps,
-- between which other requests have theirs.
use onsheet_backend.Base.{
  ℕ, ◌+◌, String, true, false, Option, some, List, [], ◌∷◌, ◌≡◌, refl, nat_eq, string_eq,
  cell_key_eq, arith, ap, ◌∙◌, sym,
}
use onsheet_backend.Prisma.{Prisma, Db, Cell}
use onsheet_backend.Prisma.Table.Laws.{upserted, upsert_free, find-upsert_free, eq_refl}
use onsheet_backend.Http.{Result, ok, err, conflict, refuse}
use onsheet_backend.Http.Actions.{Action, pure, check, commit, ◌>>=◌, ◌>>◌}
use onsheet_backend.Workbooks.Access.{assert_editor}
use onsheet_backend.Sheets.Service.{assert_editor_access}
use onsheet_backend.Cells.Service.{
  UpdateCellDto, Source, find_cell, upsert, is_stale, version_of, created_cell, updated_cell,
  update_input, log_op, conflict_message,
}
use onsheet_backend.Cells.Versions.{access-log_op, cells-log_op}

-- a call of `upsert`
pub record Write : Type 0 where
  pub sheet_id : String
  pub user_id : String
  pub dto : UpdateCellDto
  pub source : Source

-- the cell that a call is about
abbrev pub place : Write → String × ℕ × ℕ
place w = (w.sheet_id, w.dto.row, w.dto.col)

-- How far a call is: not begun, waiting with the cell that it has read, or answered.
pub data Phase : Type 0 where
  begun : Phase
  holding : Option Cell → Phase
  answered : Result Cell → Phase

pub data Turn : Type 0 where
  alice bob : Turn

module _ ⦃p : Prisma⦄ where
  -- the access check and `findUnique`
  unfoldable pub read_cell : Write → Action (Db p) (Option Cell)
  read_cell w = do
    check (λ db. assert_editor_access db w.sheet_id w.user_id)
    check (λ db. ok (find_cell db w.sheet_id w.dto.row w.dto.col))

  -- the check of the version of the cell that was read, the write, and the log
  unfoldable pub write_back : Write → Option Cell → Action (Db p) Cell
  write_back w existing = do
    check (λ _. refuse (conflict conflict_message existing) (is_stale w.dto.base_version existing))
    let next_version = version_of existing + 1
    db ← check ok
    cell ←
        commit (λ t. record db { cells = t })
          (p.cells.upsert db.cells (w.sheet_id, w.dto.row, w.dto.col)
            (created_cell w.sheet_id w.dto next_version) (updated_cell w.dto next_version))
    log_op (update_input w.sheet_id w.user_id w.dto w.source existing cell)
    pure cell

  abbrev held : Result (Option Cell) → Phase
  held (ok existing) = holding existing
  held (err e) = answered (err e)

  -- One step of a call.
  unfoldable pub advance : Write → Phase → Db p → Phase × Db p
  unfolding read_cell write_back
  advance w begun db = (held (read_cell w db).0, db)
  advance w (holding existing) db =
      let (result, after) = write_back w existing db in (answered result, after)
  advance w (answered result) db = (answered result, db)

  -- A call that nothing comes between is `upsert`.
  pub upsert_split :
      (w : Write) (db : Db p)
      → let (result, after) = upsert w.sheet_id w.user_id w.dto w.source db in
        let (phase, read) = advance w begun db in advance w phase read ≡ (answered result, after)
  unfolding advance upsert
  upsert_split w db = ground arith

  -- Two calls and the order of their steps.
  pub record Race : Type 0 where
    pub db : Db p
    pub alice_phase : Phase
    pub bob_phase : Phase

  abbrev pub step : Write → Write → Turn → Race → Race
  step a b alice r =
      let (phase, db) = advance a r.alice_phase r.db in record r { db = db; alice_phase = phase }
  step a b bob r =
      let (phase, db) = advance b r.bob_phase r.db in record r { db = db; bob_phase = phase }

  abbrev pub run : Write → Write → List Turn → Db p → Race
  run a b turns db = steps turns (record { db = db; alice_phase = begun; bob_phase = begun })
    where
      steps : List Turn → Race → Race
      steps [] r = r
      steps (t ∷ ts) r = steps ts (step a b t r)

  module _ (w : Write) (existing : Option Cell) (db : Db p) where
    abbrev found : Option Cell
    found = find_cell db w.sheet_id w.dto.row w.dto.col

    -- what a call stores that has read `existing` where the cell is now `found`
    abbrev row_back : Cell
    row_back =
        upserted found
          (created_cell w.sheet_id w.dto (version_of existing + 1) (p.cells.stamp db.cells))
          (updated_cell w.dto (version_of existing + 1))

    abbrev logged_back : Db p
    logged_back =
        (log_op (update_input w.sheet_id w.user_id w.dto w.source existing row_back)
          (record db { cells = p.cells.write db.cells row_back })).1

    write_back_fresh :
        is_stale w.dto.base_version existing ≡ false
        → write_back w existing db ≡ (ok row_back, logged_back)
    unfolding write_back
    write_back_fresh fresh = ground (
      arith,
      fresh,
      upsert_free p.cells p.cells-IsLawful (λ r x. refl) db.cells (w.sheet_id, w.dto.row, w.dto.col)
          (created_cell w.sheet_id w.dto (version_of existing + 1))
          (updated_cell w.dto (version_of existing + 1)) (λ z. refl) (λ r. refl),
    )

    find_cell-logged_back : find_cell logged_back w.sheet_id w.dto.row w.dto.col ≡ some row_back
    find_cell-logged_back =
        ap (λ (t : p.cells.T). p.cells.find_unique t (w.sheet_id, w.dto.row, w.dto.col))
          (cells-log_op (update_input w.sheet_id w.user_id w.dto w.source existing row_back)
            (record db { cells = p.cells.write db.cells row_back }))
        ∙ find-upsert_free p.cells p.cells-IsLawful (λ r x. refl) db.cells
            (w.sheet_id, w.dto.row, w.dto.col)
            (created_cell w.sheet_id w.dto (version_of existing + 1))
            (updated_cell w.dto (version_of existing + 1)) (λ z. refl) (λ r. refl)
            (w.sheet_id, w.dto.row, w.dto.col)
        ∙ rw (eq_refl {K = String × ℕ × ℕ} (w.sheet_id, w.dto.row, w.dto.col))

  advance_begun :
      (w : Write) (db : Db p) (o : Option Cell)
      → assert_editor_access db w.sheet_id w.user_id ≡ ok tt
      → find_cell db w.sheet_id w.dto.row w.dto.col ≡ o
      → advance w begun db ≡ (holding o, db)
  unfolding advance
  advance_begun w db o access here = ground (arith, access, here)

  advance_fresh :
      (w : Write) (existing : Option Cell) (db : Db p)
      → is_stale w.dto.base_version existing ≡ false
      → advance w (holding existing) db
        ≡ (answered (ok (row_back w existing db)), logged_back w existing db)
  unfolding advance
  advance_fresh w existing db fresh =
      ap (λ (x : Result Cell × Db p). (answered x.0, x.1)) (write_back_fresh w existing db fresh)

  advance_stale :
      (w : Write) (existing : Option Cell) (db : Db p)
      → is_stale w.dto.base_version existing ≡ true
      → advance w (holding existing) db ≡ (answered (err (conflict conflict_message existing)), db)
  unfolding advance write_back
  advance_stale w existing db stale = ground (arith, stale)

  access-logged_back :
      (w : Write) (existing : Option Cell) (db : Db p) (sheet_id user_id : String)
      → assert_editor_access (logged_back w existing db) sheet_id user_id
        ≡ assert_editor_access db sheet_id user_id
  unfolding assert_editor_access assert_editor
  access-logged_back w existing db sheet_id user_id =
      access-log_op
        (update_input w.sheet_id w.user_id w.dto w.source existing (row_back w existing db))
        (record db { cells = p.cells.write db.cells (row_back w existing db) }) sheet_id user_id

  module _ (a b : Write) (c : Cell) (db : Db p)
      (access : assert_editor_access db a.sheet_id a.user_id ≡ ok tt)
      (access' : assert_editor_access db b.sheet_id b.user_id ≡ ok tt)
      (same_cell : place b ≡ place a) (here : find_cell db a.sheet_id a.dto.row a.dto.col ≡ some c)
      (base : a.dto.base_version ≡ some c.version)
      (base' : b.dto.base_version ≡ some c.version) where
    abbrev mine : Cell
    mine = row_back a (some c) db

    abbrev between : Db p
    between = logged_back a (some c) db

    mine_lem : mine ≡ updated_cell a.dto (c.version + 1) c
    mine_lem = ground (arith, here)

    found_between : find_cell between b.sheet_id b.dto.row b.dto.col ≡ some mine
    found_between =
        ap (p.cells.find_unique between.cells) same_cell ∙ find_cell-logged_back a (some c) db

    abbrev yours : Cell
    yours = row_back b (some c) between

    yours_lem : yours ≡ updated_cell b.dto (c.version + 1) mine
    yours_lem = ground (arith, found_between)

    overlapping : run a b (alice ∷ bob ∷ alice ∷ bob ∷ []) db ≡ record {
      db = logged_back b (some c) between;
      alice_phase = answered (ok mine);
      bob_phase = answered (ok yours);
    }
    overlapping = ground (
      arith,
      advance_begun a db (some c) access here,
      advance_begun b db (some c) access' (ap (p.cells.find_unique db.cells) same_cell ∙ here),
      advance_fresh a (some c) db (ground (arith, base)),
      advance_fresh b (some c) between (ground (arith, base')),
    )

    following : run a b (alice ∷ alice ∷ bob ∷ bob ∷ []) db ≡ record {
      db = between;
      alice_phase = answered (ok mine);
      bob_phase = answered (err (conflict conflict_message (some mine)));
    }
    following = ground (
      arith,
      advance_begun a db (some c) access here,
      advance_fresh a (some c) db (ground (arith, base)),
      advance_begun b between (some mine)
          (access-logged_back a (some c) db b.sheet_id b.user_id ∙ access') found_between,
      advance_stale b (some mine) between (ground (arith, base', mine_lem)),
    )

    -- Two editors write one cell, both from the version that it has. If Bob's call reads the cell
    -- after Alice's has written it, he gets a conflict with the cell that she saved, which stays. If
    -- he reads it before she writes it, as the awaits between the read and the write allow, both
    -- calls succeed, with the same version, one above the old: where both set the value, Alice's is
    -- stored first and then overwritten by Bob's, without a conflict.
    pub overlapping_writes-lost :
        (text text' : String)
        → a.dto.raw_value ≡ some text
        → b.dto.raw_value ≡ some text'
        → let serial = run a b (alice ∷ alice ∷ bob ∷ bob ∷ []) db in
          let overlap = run a b (alice ∷ bob ∷ alice ∷ bob ∷ []) db in
          ((x : Cell) × (serial.alice_phase ≡ answered (ok x))
            × (serial.bob_phase ≡ answered (err (conflict conflict_message (some x))))
            × (p.cells.find_unique serial.db.cells (place a) ≡ some x)
            × (x.version ≡ c.version + 1)
            × (x.raw_value ≡ some text))
          × ((x y : Cell) × (overlap.alice_phase ≡ answered (ok x))
              × (overlap.bob_phase ≡ answered (ok y))
              × (p.cells.find_unique overlap.db.cells (place a) ≡ some y)
              × ((x.version ≡ c.version + 1) × (y.version ≡ c.version + 1))
              × ((x.raw_value ≡ some text) × (y.raw_value ≡ some text')))
    overlapping_writes-lost text text' set set' = (
      (
        mine,
        ap (λ r. r.alice_phase) following,
        ap (λ r. r.bob_phase) following,
        ap (λ (r : Race). p.cells.find_unique r.db.cells (place a)) following
            ∙ find_cell-logged_back a (some c) db,
        ap (λ (x : Cell). x.version) mine_lem,
        ap (λ (x : Cell). x.raw_value) mine_lem ∙ ground (arith, set),
      ),
      (
        mine,
        yours,
        ap (λ r. r.alice_phase) overlapping,
        ap (λ r. r.bob_phase) overlapping,
        ap (λ (r : Race). p.cells.find_unique r.db.cells (place a)) overlapping
            ∙ ap (p.cells.find_unique (logged_back b (some c) between).cells) (sym same_cell)
            ∙ find_cell-logged_back b (some c) between,
        (ap (λ (x : Cell). x.version) mine_lem, ap (λ (x : Cell). x.version) yours_lem),
        (
          ap (λ (x : Cell). x.raw_value) mine_lem ∙ ground (arith, set),
          ap (λ (x : Cell). x.raw_value) yours_lem ∙ ground (arith, set'),
        ),
      ),
    )
