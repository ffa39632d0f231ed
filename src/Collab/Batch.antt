-- ===== src/Collab/Batch.antt =====
-- The write batches of src/modules/collab/collab.gateway.ts: `enqueueWrite` and `flushBatch`. What
-- the server sends and which promises it settles is the list of events that a flush returns.
pub mod CellKeys
pub mod Dedup
pub mod Settling
pub mod Timers
pub mod Saving
use Prim.Native.String.{◌++◌ as append}
use onsheet_backend.Base.{
  if◌then◌else◌, ℕ, ◌+◌, String, Bool, not, Option, none, some, List, [], ◌∷◌, ◌++◌, ◌==◌, nat_eq,
  string_eq, nat_eqb, filter,
}
use onsheet_backend.Base.Decimal.{decimal}
use onsheet_backend.Base.Dict.{Dict, lookup, insert, erase, values}
use onsheet_backend.Prisma.{Prisma, Db, Cell}
use onsheet_backend.Http.{
  Exception, Result, ok, err, bad_request, unauthorized, forbidden, not_found, conflict,
  known_request, type_error,
}
use onsheet_backend.Cells.Service
use onsheet_backend.Cells.Service.{UpdateCellDto, ws}

-- `BATCH_WINDOW_MS`
abbrev pub batch_window_ms : ℕ
batch_window_ms = 50

-- `PendingWrite`. The pair `resolve`, `reject` belongs to one promise, and `promise` names it; two
-- writes are the same object (`!==`) if they have the same promise.
pub record PendingWrite : Type 0 where
  pub sheet_id : String
  pub user_id : String
  pub dto : UpdateCellDto
  pub socket_id : String
  pub promise : ℕ

-- What a flush does to the outside: `server.to(room).except(socket).emit`, `clientSocket.emit`, and
-- the settling of a promise.
pub data Event : Type 0 where
  cell_updated : String → String → String → Cell → Option String → Event
  cell_confirmed : String → ℕ → ℕ → ℕ → Event
  cell_conflict : String → ℕ → ℕ → Option Cell → Event
  collab_error : String → Exception → Event
  resolve : ℕ → Option Cell → Event
  reject : ℕ → Exception → Event

-- The gateway's buffers; a timer is the time at which it fires.
pub record Buffers : Type 0 where
  pub pending_batches : Dict String (List PendingWrite)
  pub batch_timers : Dict String ℕ

abbrev pub batch_of : Option (List PendingWrite) → List PendingWrite
batch_of none = []
batch_of (some writes) = writes

-- `clearTimeout` and a new `setTimeout`: the timer of the sheet is set anew at every write
unfoldable pub enqueue_write : ℕ → PendingWrite → Buffers → Buffers
enqueue_write now w b = record {
  pending_batches =
      insert w.sheet_id (batch_of (lookup w.sheet_id b.pending_batches) ++ w ∷ [])
        b.pending_batches;
  batch_timers = insert w.sheet_id (now + batch_window_ms) b.batch_timers;
}

-- `${w.dto.row}:${w.dto.col}`
unfoldable pub cell_key : PendingWrite → String
cell_key w = append (decimal w.dto.row) (append ":" (decimal w.dto.col))

-- `for (const w of writes) deduped.set(cellKey(w), w)`
unfoldable pub dedup_from : Dict String PendingWrite → List PendingWrite → Dict String PendingWrite
dedup_from deduped [] = deduped
dedup_from deduped (w ∷ writes) = dedup_from (insert (cell_key w) w deduped) writes

-- `deduped.get(cellKey(w)) !== w`
abbrev pub is_other : PendingWrite → Option PendingWrite → Bool
is_other w none = Bool.true
is_other w (some x) = not (nat_eqb x.promise w.promise)

unfoldable pub resolve_losers : Dict String PendingWrite → List PendingWrite → List Event
resolve_losers deduped [] = []
resolve_losers deduped (w ∷ writes) =
    let rest = resolve_losers deduped writes in
    if is_other w (lookup (cell_key w) deduped) then resolve w.promise none ∷ rest else rest

-- the `try` and the `catch` of one write
abbrev pub outcome_events : PendingWrite → Result Cell → List Event
outcome_events w (ok cell) =
    cell_updated w.sheet_id w.socket_id w.user_id cell w.dto.style
    ∷ cell_confirmed w.socket_id w.dto.row w.dto.col cell.version
    ∷ resolve w.promise (some cell)
    ∷ []
outcome_events w (err (conflict message server_cell)) =
    cell_conflict w.socket_id w.dto.row w.dto.col server_cell
    ∷ reject w.promise (conflict message server_cell)
    ∷ []
outcome_events w (err e) = collab_error w.socket_id e ∷ reject w.promise e ∷ []

module _ ⦃p : Prisma⦄ where
  -- `for (const write of deduped.values())`
  unfoldable pub deliver : List PendingWrite → Db p → List Event × Db p
  deliver [] db = ([], db)
  deliver (w ∷ writes) db =
      let (result, db') = Service.upsert w.sheet_id w.user_id w.dto ws db in
      let (events, db'') = deliver writes db' in (outcome_events w result ++ events, db'')

  unfoldable pub flush_batch : String → Buffers → Db p → List Event × Db p × Buffers
  flush_batch sheet_id b db =
      let writes = batch_of (lookup sheet_id b.pending_batches) in
      let deduped = dedup_from [] writes in
      let (events, db') = deliver (values deduped) db in
      (
        resolve_losers deduped writes ++ events,
        db',
        record {
          pending_batches = erase sheet_id b.pending_batches;
          batch_timers = erase sheet_id b.batch_timers;
        },
      )
