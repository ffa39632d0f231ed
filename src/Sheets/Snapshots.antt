-- ===== src/Sheets/Snapshots.antt =====
-- What restoring a snapshot brings back.
pub mod Filling
use onsheet_backend.Base.{
  All, ℕ, String, Bool, true, false, ◌&&◌, not, Option, none, some, List, [], ◌∷◌, ◌==◌, string_eq,
  nat_eq, cell_key_eq, map, find_first, keep, if◌then◌else◌, ◌≡◌, refl, arith, ap, ◌∙◌, sym, subst,
  eq_iff, nat_eqb_iff, Bool-cases, inl, inr,
}
use onsheet_backend.Prisma.{Prisma, Db, Cell, cell_key, SheetSnapshot, Stamp}
use onsheet_backend.Prisma.Cascade.{delete_cells}
use onsheet_backend.Prisma.Table.{HasDistinctKeys, create_many_law}
use onsheet_backend.Prisma.Table.Laws.{create_free}
use onsheet_backend.Prisma.Table.Keeping.{create-row}
use onsheet_backend.Http.{ok}
use onsheet_backend.Sheets.Service.{
  assert_editor_access, restore_snapshot, restored_cell, cells_of, create_snapshot, default_to,
}
use onsheet_backend.Cells.Service.{find_cell}
use onsheet_backend.Sheets.Snapshots.Filling.{
  is_at, filled, ArePlaces, at, Absent, fill_lem, Content, content, content_of,
}

module _ ⦃p : Prisma⦄ (sid : String) where
  -- the places and the contents of the cells that a snapshot takes
  places_lem :
      (cells : List Cell)
      → All (λ c. (c.sheet_id == sid) ≡ true) cells
      → HasDistinctKeys p.cells cell_key cells
      → ArePlaces cells
  places_lem [] here distinct = tt
  places_lem (c ∷ cells) here distinct =
      (apart_lem c cells here.0 here.1 distinct.0, places_lem cells here.1 distinct.1)
    where
      apart_lem :
          (c : Cell) (cells : List Cell)
          → (c.sheet_id == sid) ≡ true
          → All (λ x. (x.sheet_id == sid) ≡ true) cells
          → All (λ x. (cell_key x == cell_key c) ≡ false) cells
          → All (λ x. is_at c.row c.col x ≡ false) cells
      apart_lem c [] h hs ds = tt
      apart_lem c (x ∷ cells) h hs ds = (
        ground (
          arith,
          h,
          hs.0,
          ds.0,
          eq_iff c.sheet_id sid,
          eq_iff x.sheet_id sid,
          eq_iff x.sheet_id c.sheet_id,
        ),
        apart_lem c cells h hs.1 ds.1,
      )

  filled_lem :
      (cells : List Cell) (row col : ℕ)
      → All (λ c. (c.sheet_id == sid) ≡ true) cells
      → filled row col cells none
        ≡ content_of (find_first (λ c. cell_key c == (sid, row, col)) cells)
  filled_lem [] row col here = refl
  filled_lem (c ∷ cells) row col here = ground (arith, here.0, filled_lem cells row col here.1)

  taken_lem :
      (db : Db p) (row col : ℕ)
      → filled row col (cells_of db sid) none ≡ content_of (at sid db.cells row col)
  taken_lem db row col =
      let key : String × ℕ × ℕ = (sid, row, col) in
      filled_lem (cells_of db sid) row col
        (p.cells-IsLawful.find_many-passes db.cells (λ c. c.sheet_id == sid))
      ∙ ap content_of (
          p.cells-IsLawful.find-find_many db.cells (λ c. c.sheet_id == sid) key
          ∙ kept_lem (at sid db.cells row col)
              (λ c found. p.cells-IsLawful.find_key db.cells key c found))
    where
      kept_lem :
          (o : Option Cell)
          → ((c : Cell) → o ≡ some c → cell_key c ≡ (sid, row, col))
          → keep (λ c. c.sheet_id == sid) o ≡ o
      kept_lem none h = refl
      kept_lem (some c) h =
          ground (arith, ap (λ (k : String × ℕ × ℕ). k.0) (h c refl), eq_iff c.sheet_id sid)

  abbrev taken : Db p → String → Option String → Stamp → SheetSnapshot
  taken db user_id name z = record {
    id = z.id;
    sheet_id = sid;
    name = default_to name "Autosave";
    cells = cells_of db sid;
    created_at = z.now;
    created_by = user_id;
  }

  -- A snapshot holds the cells of its sheet.
  snapshot_lem :
      (db : Db p) (user_id : String) (name : Option String) (snapshot : SheetSnapshot)
      → (create_snapshot sid user_id name db).0 ≡ ok snapshot
      → taken db user_id name (p.snapshots.stamp db.snapshots) ≡ snapshot
  unfolding create_snapshot
  snapshot_lem db user_id name snapshot h =
      go (p.snapshots.create db.snapshots (taken db user_id name)) refl
    where
      go :
          (o : Option (p.snapshots.T × SheetSnapshot))
          → p.snapshots.create db.snapshots (taken db user_id name) ≡ o
          → taken db user_id name (p.snapshots.stamp db.snapshots) ≡ snapshot
      go none e = ground (arith, e, h)
      go (some (t, x)) e =
          create-row p.snapshots p.snapshots-IsLawful db.snapshots t (taken db user_id name) x e
          ∙ ground (arith, e, h)

  abbrev emptied : Db p → Db p
  emptied db = delete_cells (λ c. c.sheet_id == sid) db

  at-emptied : (db : Db p) (row col : ℕ) → at sid (emptied db).cells row col ≡ none
  at-emptied db row col =
      let key : String × ℕ × ℕ = (sid, row, col) in
      p.cells-IsLawful.find-delete_many db.cells (λ c. c.sheet_id == sid) key
      ∙ gone_lem (at sid db.cells row col)
          (λ c found. p.cells-IsLawful.find_key db.cells key c found)
    where
      gone_lem :
          (o : Option Cell)
          → ((c : Cell) → o ≡ some c → cell_key c ≡ (sid, row, col))
          → keep (λ c. not (c.sheet_id == sid)) o ≡ none
      gone_lem none h = refl
      gone_lem (some c) h =
          ground (arith, ap (λ (k : String × ℕ × ℕ). k.0) (h c refl), eq_iff c.sheet_id sid)

  Absent-emptied : (db : Db p) (cells : List Cell) → Absent sid (emptied db).cells cells
  Absent-emptied db [] = tt
  Absent-emptied db (c ∷ cells) = (at-emptied db c.row c.col, Absent-emptied db cells)

  -- Whatever happens after a snapshot is taken, as long as its row is stored an editor can restore it:
  -- the call succeeds, and each cell of the sheet then shows what it showed when the snapshot was
  -- taken, a place that had no cell having none again.
  pub restore_snapshot-create_snapshot :
      (before later : Db p) (user_id restorer : String) (name : Option String)
      (snapshot : SheetSnapshot)
      → (create_snapshot sid user_id name before).0 ≡ ok snapshot
      → p.snapshots.find_unique later.snapshots snapshot.id ≡ some snapshot
      → assert_editor_access later sid restorer ≡ ok tt
      → ((restore_snapshot sid snapshot.id restorer later).0 ≡ ok snapshot.id)
        × ((row col : ℕ)
            → content_of (find_cell (restore_snapshot sid snapshot.id restorer later).1 sid row col)
              ≡ content_of (find_cell before sid row col))
  unfolding restore_snapshot
  restore_snapshot-create_snapshot before later user_id restorer name snapshot made kept access =
      let same = snapshot_lem before user_id name snapshot made in
      let same_cells : cells_of before sid ≡ snapshot.cells = ap (λ x. x.cells) same in
      let places : ArePlaces snapshot.cells = subst ArePlaces same_cells (
        places_lem (cells_of before sid)
          (p.cells-IsLawful.find_many-passes before.cells (λ c. c.sheet_id == sid))
          (p.cells-IsLawful.find_many-HasDistinctKeys before.cells (λ c. c.sheet_id == sid))) in
      let (t, filled_up, shows) =
        fill_lem sid (emptied later).cells snapshot.cells places
          (Absent-emptied later snapshot.cells) in
      let here : sid ≡ snapshot.sheet_id = ap (λ x. x.sheet_id) same in
      let restored : restore_snapshot sid snapshot.id restorer later
          ≡ (ok snapshot.id, record (emptied later) { cells = t }) =
        ground (arith, access, kept, eq_iff snapshot.sheet_id sid, here, filled_up) in
      (
        ap (λ r. r.0) restored,
        λ row col.
            ap (λ r. content_of (find_cell r.1 sid row col)) restored
            ∙ shows row col
            ∙ ap (λ o. filled row col snapshot.cells (content_of o)) (at-emptied later row col)
            ∙ ap (λ l. filled row col l none) (sym same_cells)
            ∙ taken_lem before row col,
      )
