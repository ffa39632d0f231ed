-- ===== src/Tests/Batches.antt =====
-- Runs of the write batches.
use onsheet_backend.Base.{string_eq, ℕ, none, some, [], ◌∷◌, ◌≡◌, refl}
use onsheet_backend.Prisma.Example.{in_memory}
use onsheet_backend.Collab.Batch.{PendingWrite, Buffers, enqueue_write, flush_batch}
use onsheet_backend.Sheets.Service.{assert_editor_access}
use onsheet_backend.Cells.Service.{find_cell}
use onsheet_backend.Cells.Contents.{contents_of}
use onsheet_backend.Collab.Batch.Saving.{contents-flush_batch}
use onsheet_backend.Collab.Batch.Settling.{count-flush_batch, settled, count}
use onsheet_backend.Collab.Batch.Timers.{Reach-IsScheduled, IsScheduled, Step, Reach, no_buffers}
use onsheet_backend.Tests.Office.{office, write_of}

abbrev pending : ℕ → ℕ → ℕ → PendingWrite
pending row col promise = record {
  sheet_id = "s";
  user_id = "cid";
  dto = write_of row col none none;
  socket_id = "x";
  promise = promise;
}

abbrev buffers : Buffers
buffers = record {
  pending_batches = ("s", pending 2 3 0 ∷ pending 0 0 1 ∷ pending 2 3 2 ∷ []) ∷ [];
  batch_timers = ("s", 50) ∷ [];
}

count-flush_batch_example : count 0 (settled (flush_batch ⦃p = in_memory⦄ "s" buffers office).0) ≡ 1
count-flush_batch_example =
    count-flush_batch ⦃p = in_memory⦄ 0 "s" buffers office
      ((refl, (refl, tt)), ((refl, tt), (tt, tt)))

Reach-IsScheduled_example : IsScheduled (enqueue_write 0 (pending 2 3 0) no_buffers)
Reach-IsScheduled_example =
    Reach-IsScheduled ⦃p = in_memory⦄ office
      (Reach.next Reach.start (Step.enqueued 0 (pending 2 3 0) refl refl))

contents-flush_batch_example :
    contents_of
      (find_cell ⦃p = in_memory⦄ (flush_batch ⦃p = in_memory⦄ "s" buffers office).1 "s" 2 3)
    ≡ some (some "old", none, none, "{}", 5)
unfolding assert_editor_access onsheet_backend.Workbooks.Access.assert_editor
contents-flush_batch_example =
    contents-flush_batch ⦃p = in_memory⦄ "s" 2 3 buffers office "s"
      ((refl, refl), ((refl, refl), ((refl, refl), tt)))
