-- ===== src/Cells/Bulk/Stopping.antt =====
-- Where a bulk write stops.
use mathlib.Core.List.{map-append}
use onsheet_backend.Base.{
  ℕ, zero, suc, ◌+◌, ◌*◌, ◌≤◌, ◌<◌, String, Bool, true, false, List, [], ◌∷◌, ◌++◌, ◌≡◌, refl,
  arith, ap, ◌∙◌, sym, length, take, drop, length-drop, length-take, take_plus, drop_plus,
  Bool-cases, inl, inr, ◌⊎◌, subst,
}
use onsheet_backend.Prisma.{Prisma, Db}
use onsheet_backend.Prisma.Insert.{keys_distinct, insert_rows}
use onsheet_backend.Http.{Result, ok, err, known_request}
use onsheet_backend.Sheets.Service.{assert_editor_access}
use onsheet_backend.Cells.Service.{UpdateCellDto}
use onsheet_backend.Cells.Bulk.{batch_size, batch_loop, bulk_upsert}
use onsheet_backend.Cells.Bulk.Placeholders.{requested_row}
use onsheet_backend.Cells.Bulk.Batches.{rows, execute_batch_lem, insert_rows-append}

-- the k-th batch of 3 000 cells, from 0
abbrev pub batch_at : List UpdateCellDto → ℕ → List UpdateCellDto
batch_at cells k = take batch_size (drop (batch_size * k) cells)

-- Does a batch name no cell twice?
abbrev pub is_clean : String → List UpdateCellDto → Bool
is_clean sheet_id batch = keys_distinct (rows sheet_id batch)

module _ ⦃p : Prisma⦄ (sheet_id : String) where
  -- The first `k` batches are written, and no other: none of them names a cell twice, and either
  -- they are all the cells there are, or the next one does.
  pub record StopsAfter (k : ℕ) (total : ℕ) (cells : List UpdateCellDto) (db : Db p)
      (answer : Result ℕ) (after : Db p) : Type 0 where
    pub written : after ≡ record db {
      cells = insert_rows p.cells db.cells (rows sheet_id (take (batch_size * k) cells));
    }
    pub clean_so_far : (j : ℕ) → j < k → is_clean sheet_id (batch_at cells j) ≡ true
    pub stopped :
        ((answer ≡ ok (total + length cells)) × (length cells ≤ batch_size * k))
        ⊎ ((answer ≡ err known_request) × (is_clean sheet_id (batch_at cells k) ≡ false))

  rows-take_next :
      (k : ℕ) (cells : List UpdateCellDto)
      → rows sheet_id (take (batch_size * suc k) cells)
        ≡ rows sheet_id (take batch_size cells)
          ++ rows sheet_id (take (batch_size * k) (drop batch_size cells))
  rows-take_next k cells =
      ap (rows sheet_id)
        (take_plus (batch_size * suc k) batch_size (batch_size * k) cells (omega arith))
      ∙ map-append (requested_row sheet_id) (take batch_size cells)
          (take (batch_size * k) (drop batch_size cells))

  batch_at_next :
      (k : ℕ) (cells : List UpdateCellDto)
      → batch_at cells (suc k) ≡ batch_at (drop batch_size cells) k
  batch_at_next k cells =
      ap (take batch_size)
        (drop_plus (batch_size * suc k) batch_size (batch_size * k) cells (omega arith))

  stops_later :
      (k total : ℕ) (cells : List UpdateCellDto) (db : Db p) (answer : Result ℕ) (after : Db p)
      → is_clean sheet_id (take batch_size cells) ≡ true
      → StopsAfter k
          (total + length (take batch_size cells))
          (drop batch_size cells)
          (record db {
            cells = insert_rows p.cells db.cells (rows sheet_id (take batch_size cells));
          })
          answer
          after
      → StopsAfter (suc k) total cells db answer after
  stops_later k total cells db answer after clean h = record {
    written =
        h.written
        ∙ ap (λ t. record db { cells = t })
            (sym (
                insert_rows-append db.cells (rows sheet_id (take batch_size cells))
                  (rows sheet_id (take (batch_size * k) (drop batch_size cells))))
              ∙ ap (insert_rows p.cells db.cells) (sym (rows-take_next k cells)));
    clean_so_far = clean_before;
    stopped = elim h.stopped [
      | inl (done, all) ↦ inl (
        done
            ∙ ap (λ n. ok n)
                (omega (arith, length-take {0} batch_size cells, length-drop {0} batch_size cells)),
        omega (arith, all, length-drop {0} batch_size cells),
      )
      | inr (failed, bad) ↦ inr (failed, ap (is_clean sheet_id) (batch_at_next k cells) ∙ bad)
    ];
  }
    where
      clean_before : (j : ℕ) → j < suc k → is_clean sheet_id (batch_at cells j) ≡ true
      clean_before zero lt = clean
      clean_before (suc j) lt =
          ap (is_clean sheet_id) (batch_at_next j cells) ∙ h.clean_so_far j (omega (arith, lt))

  stops_at_once :
      (total : ℕ) (cells : List UpdateCellDto) (db : Db p)
      → is_clean sheet_id (take batch_size cells) ≡ false
      → StopsAfter 0 total cells db (err known_request) db
  stops_at_once total cells db bad = record {
    written = refl;
    clean_so_far = λ j lt. absurd (omega (arith, lt));
    stopped = inr (refl, bad);
  }

  batch_loop_clean :
      (fuel total : ℕ) (c : UpdateCellDto) (cells : List UpdateCellDto) (db : Db p)
      → is_clean sheet_id (take batch_size (c ∷ cells)) ≡ true
      → let batch = take batch_size (c ∷ cells) in
        batch_loop (suc fuel) sheet_id total (c ∷ cells) db
        ≡ batch_loop fuel sheet_id
            (total + length batch)
            (drop batch_size (c ∷ cells))
            (record db { cells = insert_rows p.cells db.cells (rows sheet_id batch) })
  unfolding batch_loop
  batch_loop_clean fuel total c cells db clean =
      ground (arith, execute_batch_lem sheet_id (take batch_size (c ∷ cells)) db, clean)

  batch_loop_bad :
      (fuel total : ℕ) (c : UpdateCellDto) (cells : List UpdateCellDto) (db : Db p)
      → is_clean sheet_id (take batch_size (c ∷ cells)) ≡ false
      → batch_loop (suc fuel) sheet_id total (c ∷ cells) db ≡ (err known_request, db)
  unfolding batch_loop
  batch_loop_bad fuel total c cells db bad =
      ground (arith, execute_batch_lem sheet_id (take batch_size (c ∷ cells)) db, bad)

  abbrev IsStopped : ℕ → List UpdateCellDto → Db p → Result ℕ × Db p → Type 0
  IsStopped total cells db (answer, after) = (k : ℕ) × StopsAfter k total cells db answer after

  IsStopped-nil : (total : ℕ) (db : Db p) → IsStopped total [] db (ok total, db)
  IsStopped-nil total db = (
    0,
    record {
      written = refl;
      clean_so_far = λ j lt. absurd (omega (arith, lt));
      stopped = inl (ap (λ n. ok n) (omega arith), omega arith);
    },
  )

  batch_loop-IsStopped :
      (fuel total : ℕ) (cells : List UpdateCellDto) (db : Db p)
      → length cells ≤ fuel
      → IsStopped total cells db (batch_loop fuel sheet_id total cells db)
  unfolding batch_loop
  batch_loop-IsStopped zero total [] db enough = IsStopped-nil total db
  batch_loop-IsStopped zero total (c ∷ cells) db enough = absurd (omega (arith, enough))
  batch_loop-IsStopped (suc fuel) total [] db enough = IsStopped-nil total db
  batch_loop-IsStopped (suc fuel) total (c ∷ cells) db enough =
      let batch = take batch_size (c ∷ cells) in
      elim (Bool-cases (is_clean sheet_id batch)) [
        | inl clean ↦
            let (k, h) =
              batch_loop-IsStopped fuel (total + length batch) (drop batch_size (c ∷ cells))
                (record db { cells = insert_rows p.cells db.cells (rows sheet_id batch) })
                (omega (arith, enough, length-drop {0} batch_size (c ∷ cells))) in
            subst (IsStopped total (c ∷ cells) db)
              (sym (batch_loop_clean fuel total c cells db clean))
              (suc k, stops_later k total (c ∷ cells) db _ _ clean h)
        | inr bad ↦
            subst (IsStopped total (c ∷ cells) db) (sym (batch_loop_bad fuel total c cells db bad))
              (0, stops_at_once total (c ∷ cells) db bad)
      ]

  -- A bulk write of any cells by an editor goes batch after batch and stops at the first one that
  -- names a cell twice: of the cells of the request exactly those in the batches before it are
  -- written, in their order, and these stay written when it throws the database's error. Where no
  -- batch names a cell twice, all are written and their number is returned.
  pub bulk_upsert-stops :
      (user_id : String) (cells : List UpdateCellDto) (db : Db p)
      → assert_editor_access db sheet_id user_id ≡ ok tt
      → let (answer, after) = bulk_upsert sheet_id user_id cells db in
        (k : ℕ) × StopsAfter k 0 cells db answer after
  unfolding bulk_upsert
  bulk_upsert-stops user_id cells db access =
      subst (IsStopped 0 cells db) (sym (ground (arith, access)))
        (batch_loop-IsStopped (length cells) 0 cells db (omega arith))
