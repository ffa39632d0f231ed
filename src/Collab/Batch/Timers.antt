-- ===== src/Collab/Batch/Timers.antt =====
-- When a batch is flushed: the buffers and the timers over any sequence of writes and flushes.
use onsheet_backend.Base.{
  subst, sym, Bool-cases, inl, inr, ℕ, ◌+◌, String, false, Option, none, some, List, [], ◌∷◌, ◌++◌,
  ◌==◌, ◌≡◌, refl, string_eq, arith, eq_iff, if◌then◌else◌, is_some, is_empty, All, All-append,
}
use onsheet_backend.Base.Dict.{lookup, lookup-insert, lookup-erase}
use onsheet_backend.Prisma.{Prisma, Db}
use onsheet_backend.Collab.Batch.{
  PendingWrite, Buffers, batch_of, batch_window_ms, enqueue_write, flush_batch,
}

-- A write is added at the end of the batch of its sheet, and the timer of that sheet is set to 50 ms
-- from now, whatever it was set to before; the other sheets' batches and timers stay.
pub enqueue_write_lem :
    (now : ℕ) (w : PendingWrite) (b : Buffers) (k : String)
    → (lookup k (enqueue_write now w b).pending_batches ≡ (
        if w.sheet_id == k
        then some (batch_of (lookup k b.pending_batches) ++ w ∷ [])
        else lookup k b.pending_batches))
      × (lookup k (enqueue_write now w b).batch_timers
          ≡ (if w.sheet_id == k then some (now + 50) else lookup k b.batch_timers))
unfolding enqueue_write
enqueue_write_lem now w b k = ground (
  arith,
  lookup-insert w.sheet_id k (batch_of (lookup w.sheet_id b.pending_batches) ++ w ∷ [])
      b.pending_batches,
  lookup-insert w.sheet_id k (now + batch_window_ms) b.batch_timers,
  eq_iff w.sheet_id k,
)

-- A batch waits exactly where a timer runs, is not empty, and holds writes of its own sheet.
abbrev pub IsBatchOf : String → Option (List PendingWrite) → Type 0
IsBatchOf k none = Unit
IsBatchOf k (some writes) = (is_empty writes ≡ false) × All (λ w. w.sheet_id ≡ k) writes

pub record IsScheduled (b : Buffers) : Type 0 where
  pub timed :
      (k : String) → is_some (lookup k b.pending_batches) ≡ is_some (lookup k b.batch_timers)
  pub batched : (k : String) → IsBatchOf k (lookup k b.pending_batches)

abbrev pub no_buffers : Buffers
no_buffers = record { pending_batches = []; batch_timers = [] }

not_empty-push :
    (writes : List PendingWrite) (w : PendingWrite) → is_empty (writes ++ w ∷ []) ≡ false
not_empty-push [] w = refl
not_empty-push (x ∷ writes) w = refl

IsBatchOf-push :
    (k : String) (o : Option (List PendingWrite)) (w : PendingWrite)
    → IsBatchOf k o
    → w.sheet_id ≡ k
    → IsBatchOf k (some (batch_of o ++ w ∷ []))
IsBatchOf-push k none w h e = (refl, (e, tt))
IsBatchOf-push k (some writes) w h e =
    (not_empty-push writes w, All-append (λ x. x.sheet_id ≡ k) writes (w ∷ []) h.1 (e, tt))

enqueue_write-IsScheduled :
    (now : ℕ) (w : PendingWrite) (b : Buffers) → IsScheduled b → IsScheduled (enqueue_write now w b)
enqueue_write-IsScheduled now w b h = record {
  timed = λ k. ground (arith, enqueue_write_lem now w b k, h.timed k);
  batched = λ k. subst (IsBatchOf k) (sym (enqueue_write_lem now w b k).0) (enqueued_batch k);
}
  where
    enqueued_batch :
        (k : String)
        → IsBatchOf k (
            if w.sheet_id == k
            then some (batch_of (lookup k b.pending_batches) ++ w ∷ [])
            else lookup k b.pending_batches)
    enqueued_batch k = elim (Bool-cases (w.sheet_id == k)) [
      | inl same ↦ rw same (
          IsBatchOf-push k (lookup k b.pending_batches) w (h.batched k)
            ((eq_iff w.sheet_id k).0 same))
      | inr other ↦ rw other (h.batched k)
    ]

flush_batch-IsScheduled :
    ⦃p : Prisma⦄ (sheet_id : String) (b : Buffers) (db : Db p)
    → IsScheduled b
    → IsScheduled (flush_batch sheet_id b db).2
unfolding flush_batch
flush_batch-IsScheduled sheet_id b db h = record {
  timed = λ k. ground (
    arith,
    lookup-erase sheet_id k b.pending_batches,
    lookup-erase sheet_id k b.batch_timers,
    h.timed k,
  );
  batched =
      λ k. subst (IsBatchOf k) (sym (lookup-erase sheet_id k b.pending_batches)) (kept_batch k);
}
  where
    kept_batch :
        (k : String) → IsBatchOf k (if sheet_id == k then none else lookup k b.pending_batches)
    kept_batch k = elim (Bool-cases (sheet_id == k)) [
      | inl same ↦ rw same tt
      | inr other ↦ rw other (h.batched k)
    ]

-- One step of the gateway beside the database: a call of `enqueueWrite`, or a timer that fires.
pub data Step ⦃p : Prisma⦄ (b : Buffers) (db : Db p) (b' : Buffers) (db' : Db p) : Type 0 where
  enqueued : (now : ℕ) (w : PendingWrite) → b' ≡ enqueue_write now w b → db' ≡ db → Step b db b' db'
  fired :
      (sheet_id : String)
      → b' ≡ (flush_batch sheet_id b db).2
      → db' ≡ (flush_batch sheet_id b db).1
      → Step b db b' db'

pub data Reach ⦃p : Prisma⦄ (db : Db p) : Buffers → Db p → Type 0 where
  start : Reach db no_buffers db
  next : {b b' : Buffers} {now now' : Db p} → Reach db b now → Step b now b' now' → Reach db b' now'

Step-IsScheduled :
    ⦃p : Prisma⦄ (b b' : Buffers) (db db' : Db p)
    → Step b db b' db'
    → IsScheduled b
    → IsScheduled b'
Step-IsScheduled b b' db db' (enqueued now w e e') h =
    subst IsScheduled (sym e) (enqueue_write-IsScheduled now w b h)
Step-IsScheduled b b' db db' (fired sheet_id e e') h =
    subst IsScheduled (sym e) (flush_batch-IsScheduled sheet_id b db h)

-- In every state that the gateway reaches, a batch waits exactly where a timer runs, so no write is
-- left behind without a flush to come; no batch is empty, and each holds writes of its own sheet.
pub Reach-IsScheduled :
    ⦃p : Prisma⦄ (db : Db p) {b : Buffers} {now : Db p} → Reach db b now → IsScheduled b
Reach-IsScheduled db start = record { timed = λ k. refl; batched = λ k. tt }
Reach-IsScheduled db (next {b} {b'} {now} {now'} r st) =
    Step-IsScheduled b b' now now' st (Reach-IsScheduled db r)
