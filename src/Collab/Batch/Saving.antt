-- ===== src/Collab/Batch/Saving.antt =====
-- What a flush stores: for each cell the last write of it, where that one is not stale.
use Prim.Native.String.{◌++◌ as append}
use onsheet_backend.Base.Decimal.{decimal}
use onsheet_backend.Base.{
  ℕ, String, Bool, false, ◌&&◌, Option, none, some, List, [], ◌∷◌, ◌==◌, nat_eq, string_eq,
  cell_key_eq, ◌≡◌, refl, arith, ap, sym, ◌∙◌, if◌then◌else◌, eq_iff, All, Bool-cases, inl, inr,
  subst,
}
use onsheet_backend.Base.Dict.{Dict, lookup, values, IsUnique}
use onsheet_backend.Prisma.{Prisma, Db, Cell}
use onsheet_backend.Http.{Result, ok}
use onsheet_backend.Sheets.Service.{assert_editor_access}
use onsheet_backend.Cells.Service.{UpdateCellDto, ws, find_cell, upsert}
use onsheet_backend.Cells.Elsewhere.{find_cell-upsert_elsewhere}
use onsheet_backend.Cells.Contents.{
  Contents, contents_of, write_cell, contents-upsert, find_cell-upsert_apart, access-upsert,
}
use onsheet_backend.Collab.Batch.{
  PendingWrite, Buffers, batch_of, cell_key, dedup_from, deliver, flush_batch,
}
use onsheet_backend.Collab.Batch.CellKeys.{key-inj}
use onsheet_backend.Collab.Batch.Dedup.{
  or_else, last_write, lookup-dedup_from, All-dedup_from, IsKeyed, dedup_from-IsKeyed,
}

abbrev is_at : ℕ → ℕ → PendingWrite → Bool
is_at row col w = w.dto.row == row && w.dto.col == col

-- the last write of a cell in a batch
abbrev pub last_at : ℕ → ℕ → List PendingWrite → Option PendingWrite
last_at row col [] = none
last_at row col (w ∷ writes) =
    or_else (last_at row col writes) (if is_at row col w then some w else none)

abbrev pub write_last : Option PendingWrite → Option Cell → Option Contents
write_last none old = contents_of old
write_last (some w) old = write_cell w.dto old

-- `${row}:${col}`
abbrev key_of : ℕ → ℕ → String
key_of row col = append (decimal row) (append ":" (decimal col))

is_at_lem : (row col : ℕ) (w : PendingWrite) → (cell_key w == key_of row col) ≡ is_at row col w
unfolding cell_key
is_at_lem row col w = ground (
  arith,
  eq_iff (key_of w.dto.row w.dto.col) (key_of row col),
  key-inj w.dto.row w.dto.col row col,
)

or_else-none : {A : Type 0} (o : Option A) → or_else o none ≡ o
or_else-none none = refl
or_else-none (some a) = refl

last_at_lem :
    (row col : ℕ) (writes : List PendingWrite)
    → last_write (key_of row col) writes ≡ last_at row col writes
last_at_lem row col [] = refl
last_at_lem row col (w ∷ writes) = rw (last_at_lem row col writes) (rw (is_at_lem row col w))

-- Writes of one sheet by users who may edit it.
module _ ⦃p : Prisma⦄ (j : String) where
  abbrev pub AreByEditors : Db p → List PendingWrite → Type 0
  AreByEditors db = All (λ w. (w.sheet_id ≡ j) × (assert_editor_access db j w.user_id ≡ ok tt))

  AreByEditors-upsert :
      (u : String) (dto : UpdateCellDto) (db : Db p) (writes : List PendingWrite)
      → AreByEditors db writes
      → AreByEditors (upsert j u dto ws db).1 writes
  AreByEditors-upsert u dto db [] h = tt
  AreByEditors-upsert u dto db (w ∷ writes) h = (
    (h.0.0, access-upsert j u w.user_id dto ws db ∙ h.0.1),
    AreByEditors-upsert u dto db writes h.1,
  )

  module _ (row col : ℕ) where
    contents-deliver :
        (d : Dict String PendingWrite) (db : Db p)
        → IsKeyed d
        → IsUnique d
        → AreByEditors db (values d)
        → contents_of (find_cell (deliver (values d) db).1 j row col)
          ≡ write_last (lookup (key_of row col) d) (find_cell db j row col)
    unfolding deliver
    contents-deliver [] db keyed unique h = refl
    contents-deliver ((k, w) ∷ d) db keyed unique h =
        let after = (upsert j w.user_id w.dto ws db).1 in
        let here : upsert w.sheet_id w.user_id w.dto ws db ≡ upsert j w.user_id w.dto ws db =
          ap (λ x. upsert x w.user_id w.dto ws db) h.0.0 in
        let rest =
          ap
            (λ (x : Result Cell × Db p).
              contents_of (find_cell (deliver (values d) x.1).1 j row col))
            here
          ∙ contents-deliver d after keyed.1 unique.1
              (AreByEditors-upsert w.user_id w.dto db (values d) h.1) in
        let entry : Bool → Option Contents = λ b.
          write_last (if b then some w else lookup (key_of row col) d) (find_cell db j row col) in
        let test : (k == key_of row col) ≡ is_at row col w =
          ap (λ x. x == key_of row col) (sym keyed.0) ∙ is_at_lem row col w in
        elim (Bool-cases (is_at row col w)) [
          | inl same ↦
              let last : lookup (key_of row col) d ≡ none =
                subst (λ x. lookup x d ≡ none) ((eq_iff k (key_of row col)).0 (test ∙ same))
                  unique.0 in
              rest
              ∙ ap (λ o. write_last o (find_cell after j row col)) last
              ∙ contents-upsert j w.user_id w.dto ws row col db h.0.1 same
              ∙ ap entry (sym (test ∙ same))
          | inr apart ↦
              rest
              ∙ ap (write_last (lookup (key_of row col) d))
                  (find_cell-upsert_apart j w.user_id w.dto ws row col db apart)
              ∙ ap entry (sym (test ∙ apart))
        ]

    find_cell-deliver_elsewhere :
        (sid : String)
        → (j == sid) ≡ false
        → (writes : List PendingWrite) (db : Db p) → All (λ w. w.sheet_id ≡ j) writes
        → find_cell (deliver writes db).1 sid row col ≡ find_cell db sid row col
    unfolding deliver
    find_cell-deliver_elsewhere sid apart [] db h = refl
    find_cell-deliver_elsewhere sid apart (w ∷ writes) db h =
        find_cell-deliver_elsewhere sid apart writes (upsert w.sheet_id w.user_id w.dto ws db).1 h.1
        ∙ find_cell-upsert_elsewhere w.sheet_id sid (ap (λ x. x == sid) h.0 ∙ apart) row col
            w.user_id w.dto ws db

    sheets_of_writes :
        (db : Db p) (writes : List PendingWrite)
        → AreByEditors db writes
        → All (λ w. w.sheet_id ≡ j) writes
    sheets_of_writes db [] h = tt
    sheets_of_writes db (w ∷ writes) h = (h.0.0, sheets_of_writes db writes h.1)

    -- A flush of a batch whose authors may all edit the sheet does to each cell of the sheet what
    -- the last write of that cell in the batch does to it, however many writes of it and of other
    -- cells the batch has: where the batch has none, or the last one names a base version that is
    -- not the cell's, the cell holds what it held, and otherwise the fields that the write gives,
    -- at the next version. The cells of other sheets hold what they held.
    pub contents-flush_batch :
        (b : Buffers) (db : Db p) (sid : String)
        → AreByEditors db (batch_of (lookup j b.pending_batches))
        → contents_of (find_cell (flush_batch j b db).1 sid row col) ≡ (
            if j == sid
            then write_last
                (last_at row col (batch_of (lookup j b.pending_batches)))
                (find_cell db sid row col)
            else contents_of (find_cell db sid row col))
    unfolding flush_batch
    contents-flush_batch b db sid h =
        let writes = batch_of (lookup j b.pending_batches) in
        let kept = dedup_from-IsKeyed [] writes tt tt in
        let authors =
          All-dedup_from (λ w. (w.sheet_id ≡ j) × (assert_editor_access db j w.user_id ≡ ok tt)) []
            writes tt h in
        let here =
          contents-deliver (dedup_from [] writes) db kept.0 kept.1 authors
          ∙ ap (λ o. write_last o (find_cell db j row col))
              (lookup-dedup_from (key_of row col) [] writes
                ∙ or_else-none (last_write (key_of row col) writes)
                ∙ last_at_lem row col writes) in
        elim (Bool-cases (j == sid)) [
          | inl same ↦ rw same (
              subst
                (λ x.
                  contents_of (find_cell (deliver (values (dedup_from [] writes)) db).1 x row col)
                  ≡ write_last (last_at row col writes) (find_cell db x row col))
                ((eq_iff j sid).0 same) here)
          | inr apart ↦ rw apart (
              ap contents_of (
                find_cell-deliver_elsewhere sid apart (values (dedup_from [] writes)) db
                  (sheets_of_writes db (values (dedup_from [] writes)) authors)))
        ]
