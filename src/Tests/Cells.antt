-- ===== src/Tests/Cells.antt =====
-- Runs of versioned writes, of a clear, and of bulk writes.
use onsheet_backend.Base.{
  List, List, string_eq, nat_eq, cell_key_eq, ◌==◌, if◌then◌else◌, ℕ, String, ◌≡◌, refl, some, none,
  [], ◌∷◌, map, arith,
}
use onsheet_backend.Prisma.{Cell, cell_key}
use onsheet_backend.Prisma.Insert.{decode_rows}
use onsheet_backend.Prisma.Example.{in_memory}
use onsheet_backend.Http.{ok, err, conflict}
use onsheet_backend.Sheets.Service.{assert_editor_access}
use onsheet_backend.Workbooks.Access.{assert_editor}
use onsheet_backend.Cells.Service.{UpdateCellDto, upsert, clear, http, ws, conflict_message}
use onsheet_backend.Cells.Contents.{contents_of, upsert_lem}
use onsheet_backend.Cells.Racing.{Write, alice, bob, run, answered, overlapping_writes-lost}
use onsheet_backend.Cells.Clearing.{without_cell, clear-unlogged, upsert-clear, OwnsId}
use onsheet_backend.Cells.Bulk.{build_statement, bulk_upsert}
use onsheet_backend.Cells.Bulk.Placeholders.{requested_row, decode-build_statement}
use onsheet_backend.Cells.Bulk.Stopping.{StopsAfter, bulk_upsert-stops}
use onsheet_backend.Tests.Office.{office, first_cell, write_of}

upsert_lem_example :
    let (answer, after) =
      upsert ⦃p = in_memory⦄ "s" "cid" (write_of 2 3 none (some 4)) http office in
    (c : Cell) × (answer ≡ ok c)
    × (cell_key c ≡ ("s", 2, 3))
    × (contents_of (some c) ≡ some (some "old", none, none, first_cell.style, 5))
    × (first_cell.id ≡ c.id)
    × ((k : String × ℕ × ℕ)
        → in_memory.cells.find_unique after.cells k
          ≡ (if ("s", 2, 3) == k then some c else in_memory.cells.find_unique office.cells k))
unfolding assert_editor_access assert_editor
upsert_lem_example =
    upsert_lem ⦃p = in_memory⦄ "s" "cid" (write_of 2 3 none (some 4)) http office refl refl

first_cell-OwnsId : OwnsId ⦃p = in_memory⦄ "s" 2 3 office first_cell
first_cell-OwnsId = λ k c' f e. ground (arith, f, cell_key_eq.same_iff ("s", 2, 3) k)

clear-unlogged_example :
    let (answer, after) = clear ⦃p = in_memory⦄ "s" 2 3 "cid" office in
    (answer ≡ ok 1)
    × ((k : String × ℕ × ℕ)
        → in_memory.cells.find_unique after.cells k
          ≡ (if ("s", 2, 3) == k then none else in_memory.cells.find_unique office.cells k))
    × ((id : String)
        → in_memory.cell_ops.find_unique after.cell_ops id
          ≡ without_cell first_cell.id (in_memory.cell_ops.find_unique office.cell_ops id))
unfolding assert_editor_access assert_editor
clear-unlogged_example =
    clear-unlogged ⦃p = in_memory⦄ "s" 2 3 office "cid" first_cell refl refl first_cell-OwnsId

upsert-clear_example :
    (cell : Cell) × ((upsert ⦃p = in_memory⦄ "s" "ann"
        (write_of 2 3 (some "late") (some 4))
        ws
        (clear ⦃p = in_memory⦄ "s" 2 3 "cid" office).1).0
      ≡ ok cell)
    × (cell.version ≡ 1)
    × (cell.raw_value ≡ some "late")
unfolding assert_editor_access assert_editor
upsert-clear_example =
    upsert-clear ⦃p = in_memory⦄ "s" 2 3 office "cid" "ann" first_cell
      (write_of 2 3 (some "late") (some 4)) ws refl refl refl first_cell-OwnsId refl refl

decode-build_statement_example :
    let batch = write_of 0 0 (some "a") none ∷ write_of 0 1 none none ∷ [] in
    decode_rows (build_statement "s" [] [] batch).0 (build_statement "s" [] [] batch).1
    ≡ some (map (requested_row "s") batch)
decode-build_statement_example =
    decode-build_statement "s" (write_of 0 0 (some "a") none ∷ write_of 0 1 none none ∷ [])

abbrev twice : List UpdateCellDto
twice = write_of 0 0 (some "a") none ∷ write_of 0 0 none none ∷ []

bulk_upsert-stops_example :
    let (answer, after) = bulk_upsert ⦃p = in_memory⦄ "s" "cid" twice office in
    (k : ℕ) × StopsAfter ⦃p = in_memory⦄ "s" k 0 twice office answer after
unfolding assert_editor_access assert_editor
bulk_upsert-stops_example = bulk_upsert-stops ⦃p = in_memory⦄ "s" "cid" twice office refl

abbrev by : String → String → Write
by user_id text = record {
  sheet_id = "s";
  user_id = user_id;
  dto = write_of 2 3 (some text) (some 4);
  source = ws;
}

overlapping_writes-lost_example :
    let serial =
      run ⦃p = in_memory⦄
        (by "cid" "hers")
        (by "ann" "his")
        (alice ∷ alice ∷ bob ∷ bob ∷ [])
        office in
    let overlap =
      run ⦃p = in_memory⦄
        (by "cid" "hers")
        (by "ann" "his")
        (alice ∷ bob ∷ alice ∷ bob ∷ [])
        office in
    ((x : Cell) × (serial.alice_phase ≡ answered (ok x))
      × (serial.bob_phase ≡ answered (err (conflict conflict_message (some x))))
      × (in_memory.cells.find_unique serial.db.cells ("s", 2, 3) ≡ some x)
      × (x.version ≡ 5)
      × (x.raw_value ≡ some "hers"))
    × ((x y : Cell) × (overlap.alice_phase ≡ answered (ok x))
        × (overlap.bob_phase ≡ answered (ok y))
        × (in_memory.cells.find_unique overlap.db.cells ("s", 2, 3) ≡ some y)
        × ((x.version ≡ 5) × (y.version ≡ 5))
        × ((x.raw_value ≡ some "hers") × (y.raw_value ≡ some "his")))
unfolding assert_editor_access assert_editor
overlapping_writes-lost_example =
    overlapping_writes-lost ⦃p = in_memory⦄ (by "cid" "hers") (by "ann" "his") first_cell office
      refl refl refl refl refl refl "hers" "his" refl refl
