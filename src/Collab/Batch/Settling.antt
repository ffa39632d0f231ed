-- ===== src/Collab/Batch/Settling.antt =====
-- Every promise of a batch is settled exactly once by the flush.
use mathlib.Core.Path.{ap₂}
use onsheet_backend.Cells.Service
use onsheet_backend.Cells.Service.{ws}
use onsheet_backend.Base.{
  Option-cases, inl, inr, ℕ, ◌+◌, String, Bool, false, ◌||◌, Option, none, some, List, [], ◌∷◌,
  ◌++◌, ◌==◌, ◌≡◌, refl, string_eq, nat_eq, arith, eq_iff, if◌then◌else◌, any, All, ap, ◌∙◌, map,
  nat_eqb,
}
use onsheet_backend.Base.Dict.{
  Dict, lookup, insert, lookup-insert, values, IsUnique, IsUnique-insert,
}
use onsheet_backend.Prisma.{Prisma, Db, Cell}
use onsheet_backend.Http.{Result, ok, err, conflict}
use onsheet_backend.Collab.Batch.{
  PendingWrite, Event, cell_updated, cell_confirmed, cell_conflict, collab_error, resolve, reject,
  Buffers, batch_of, cell_key, dedup_from, is_other, resolve_losers, outcome_events, deliver,
  flush_batch,
}
use onsheet_backend.Collab.Batch.Dedup.{
  last_write_promise, last_write, lookup-dedup_from, any-last_write, last_write_promise,
}

abbrev pub count : ℕ → List ℕ → ℕ
count n [] = 0
count n (x ∷ xs) = (if nat_eqb x n then 1 else 0) + count n xs

-- the promises that events settle, in order
abbrev pub settled : List Event → List ℕ
settled [] = []
settled (resolve m c ∷ events) = m ∷ settled events
settled (reject m e ∷ events) = m ∷ settled events
settled (_ ∷ events) = settled events

abbrev pub promises : List PendingWrite → List ℕ
promises = map (λ w. w.promise)

-- No two writes of the batch share a promise.
abbrev pub HaveDistinctPromises : List PendingWrite → Type 0
HaveDistinctPromises [] = Unit
HaveDistinctPromises (w ∷ writes) =
    All (λ x. nat_eqb x.promise w.promise ≡ false) writes × HaveDistinctPromises writes

count-append : (n : ℕ) (xs ys : List ℕ) → count n (xs ++ ys) ≡ count n xs + count n ys
count-append n [] ys = omega arith
count-append n (x ∷ xs) ys = omega (arith, count-append n xs ys)

settled-append : (xs ys : List Event) → settled (xs ++ ys) ≡ settled xs ++ settled ys
settled-append [] ys = refl
settled-append (cell_updated a b c d e ∷ xs) ys = settled-append xs ys
settled-append (cell_confirmed a b c d ∷ xs) ys = settled-append xs ys
settled-append (cell_conflict a b c d ∷ xs) ys = settled-append xs ys
settled-append (collab_error a b ∷ xs) ys = settled-append xs ys
settled-append (resolve m c ∷ xs) ys = ap (◌∷◌ m) (settled-append xs ys)
settled-append (reject m c ∷ xs) ys = ap (◌∷◌ m) (settled-append xs ys)

module _ (n : ℕ) where
  abbrev hit : PendingWrite → ℕ
  hit w = if nat_eqb w.promise n then 1 else 0

  abbrev hit_of : Option PendingWrite → ℕ
  hit_of none = 0
  hit_of (some w) = hit w

  abbrev total : Dict String PendingWrite → ℕ
  total [] = 0
  total ((j, v) ∷ d) = hit v + total d

  -- the entries under the keys that pass a test
  abbrev weight : (String → Bool) → Dict String PendingWrite → ℕ
  weight q [] = 0
  weight q ((j, v) ∷ d) = (if q j then hit v else 0) + weight q d

  total-insert :
      (k : String) (w : PendingWrite) (d : Dict String PendingWrite)
      → total (insert k w d) + hit_of (lookup k d) ≡ total d + hit w
  total-insert k w [] = omega arith
  total-insert k w ((j, v) ∷ d) = ground (arith, total-insert k w d)

  weight_absent :
      (q : String → Bool) (k : String) (d : Dict String PendingWrite)
      → lookup k d ≡ none
      → weight (λ j. k == j || q j) d ≡ weight q d
  weight_absent q k [] h = refl
  weight_absent q k ((j, v) ∷ d) h = ground (arith, weight_absent q k d, eq_iff j k, eq_iff k j)

  weight-insert :
      (q : String → Bool) (k : String) (w : PendingWrite) (d : Dict String PendingWrite)
      → IsUnique d
      → weight (λ j. k == j || q j) d + (if q k then hit w else 0)
        ≡ weight q (insert k w d) + hit_of (lookup k d)
  weight-insert q k w [] u = omega arith
  weight-insert q k w ((j, v) ∷ d) u =
      ground (arith, weight-insert q k w d u.1, weight_absent q k d, eq_iff j k, eq_iff k j)

  weight_none : (d : Dict String PendingWrite) → weight (λ j. false) d ≡ 0
  weight_none [] = refl
  weight_none ((j, v) ∷ d) = omega (arith, weight_none d)

  -- the writes that a later write of the same cell supersedes
  abbrev superseded : List PendingWrite → ℕ
  superseded [] = 0
  superseded (w ∷ writes) =
      (if any (λ x. cell_key x == cell_key w) writes then hit w else 0) + superseded writes

  total-dedup_from :
      (d : Dict String PendingWrite) (writes : List PendingWrite)
      → IsUnique d
      → total (dedup_from d writes)
          + weight (λ j. any (λ x. cell_key x == j) writes) d
          + superseded writes
        ≡ total d + count n (promises writes)
  unfolding dedup_from
  total-dedup_from d [] u = ground (arith, weight_none d)
  total-dedup_from d (w ∷ writes) u =
      let k = cell_key w in
      omega (
        arith,
        total-dedup_from (insert k w d) writes (IsUnique-insert k w d u),
        total-insert k w d,
        weight-insert (λ j. any (λ x. cell_key x == j) writes) k w d u,
      )

  -- a write is resolved as a loser exactly if a later write of the batch has its cell
  is_other-dedup_from :
      (w : PendingWrite) (d : Dict String PendingWrite) (writes : List PendingWrite)
      → All (λ x. nat_eqb x.promise w.promise ≡ false) writes
      → is_other w (lookup (cell_key w) (dedup_from (insert (cell_key w) w d) writes))
        ≡ any (λ x. cell_key x == cell_key w) writes
  is_other-dedup_from w d writes h =
      let k = cell_key w in
      elim (Option-cases (last_write k writes)) [
        | inl absent ↦ ground (
          arith,
          absent,
          lookup-dedup_from k (insert k w d) writes,
          lookup-insert k k w d,
          any-last_write k writes,
          eq_iff k k,
        )
        | inr (x, last) ↦ ground (
          arith,
          last,
          lookup-dedup_from k (insert k w d) writes,
          any-last_write k writes,
          last_write_promise w.promise k writes x h last,
        )
      ]

  count-resolve_losers :
      (d : Dict String PendingWrite) (writes : List PendingWrite)
      → HaveDistinctPromises writes
      → count n (settled (resolve_losers (dedup_from d writes) writes)) ≡ superseded writes
  unfolding resolve_losers dedup_from
  count-resolve_losers d [] h = refl
  count-resolve_losers d (w ∷ writes) h = ground (
    arith,
    is_other-dedup_from w d writes h.0,
    count-resolve_losers (insert (cell_key w) w d) writes h.1,
  )

  total-eq-count : (d : Dict String PendingWrite) → total d ≡ count n (promises (values d))
  total-eq-count [] = refl
  total-eq-count ((j, v) ∷ d) = omega (arith, total-eq-count d)

settled-outcome_events :
    (w : PendingWrite) (r : Result Cell) → settled (outcome_events w r) ≡ w.promise ∷ []
settled-outcome_events w (ok c) = refl
settled-outcome_events w (err (conflict m c)) = refl
settled-outcome_events w (err _) = refl

module _ ⦃p : Prisma⦄ where
  settled-deliver :
      (writes : List PendingWrite) (db : Db p) → settled (deliver writes db).0 ≡ promises writes
  unfolding deliver
  settled-deliver [] db = refl
  settled-deliver (w ∷ writes) db =
      let result = (Service.upsert w.sheet_id w.user_id w.dto ws db).0 in
      let after = (Service.upsert w.sheet_id w.user_id w.dto ws db).1 in
      settled-append (outcome_events w result) (deliver writes after).0
      ∙ ap₂ ◌++◌ (settled-outcome_events w result) (settled-deliver writes after)

  -- A flush settles each promise of its batch exactly as often as the batch holds it, which is
  -- once, whatever the database answers, and settles no other promise.
  pub count-flush_batch :
      (n : ℕ) (sheet_id : String) (b : Buffers) (db : Db p)
      → HaveDistinctPromises (batch_of (lookup sheet_id b.pending_batches))
      → count n (settled (flush_batch sheet_id b db).0)
        ≡ count n (promises (batch_of (lookup sheet_id b.pending_batches)))
  unfolding flush_batch
  count-flush_batch n sheet_id b db distinct =
      let writes = batch_of (lookup sheet_id b.pending_batches) in
      let kept = values (dedup_from [] writes) in
      let losers = resolve_losers (dedup_from [] writes) writes in
      ap (count n) (settled-append losers (deliver kept db).0)
      ∙ count-append n (settled losers) (settled (deliver kept db).0)
      ∙ ap (λ l. count n (settled losers) + count n l) (settled-deliver kept db)
      ∙ omega (
        arith,
        count-resolve_losers n [] writes distinct,
        total-eq-count n (dedup_from [] writes),
        total-dedup_from n [] writes tt,
      )
