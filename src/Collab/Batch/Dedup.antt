-- ===== src/Collab/Batch/Dedup.antt =====
-- Deduplication keeps, for each cell, the write that arrived last.
use onsheet_backend.Base.{
  Bool-cases, eq_iff, sym, Option-cases, nat_eqb, inl, inr, ℕ, String, false, Option, none, some,
  List, [], ◌∷◌, ◌==◌, ◌≡◌, refl, string_eq, arith, if◌then◌else◌, any, is_some, All,
}
use onsheet_backend.Base.Dict.{
  Dict, lookup, insert, lookup-insert, values, IsUnique, IsUnique-insert,
}
use onsheet_backend.Collab.Batch.{PendingWrite, cell_key, dedup_from}

-- The last write of a list that has the key, whatever stands before it.
abbrev pub or_else : {A : Type 0} → Option A → Option A → Option A
or_else none o = o
or_else (some a) o = some a

abbrev pub last_write : String → List PendingWrite → Option PendingWrite
last_write k [] = none
last_write k (w ∷ writes) = or_else (last_write k writes) (if cell_key w == k then some w else none)

-- The map that `flushBatch` builds has under each key the last write of that key.
pub lookup-dedup_from :
    (k : String) (d : Dict String PendingWrite) (writes : List PendingWrite)
    → lookup k (dedup_from d writes) ≡ or_else (last_write k writes) (lookup k d)
unfolding dedup_from
lookup-dedup_from k d [] = refl
lookup-dedup_from k d (w ∷ writes) =
    ground (
      arith,
      lookup-dedup_from k (insert (cell_key w) w d) writes,
      lookup-insert (cell_key w) k w d,
    )

pub any-last_write :
    (k : String) (writes : List PendingWrite)
    → any (λ x. cell_key x == k) writes ≡ is_some (last_write k writes)
any-last_write k [] = refl
any-last_write k (w ∷ writes) = ground (arith, any-last_write k writes)

-- The last write is one of the list: a promise that no write has is not its.
pub last_write_promise :
    (m : ℕ) (k : String) (writes : List PendingWrite) (x : PendingWrite)
    → All (λ y. nat_eqb y.promise m ≡ false) writes
    → last_write k writes ≡ some x
    → nat_eqb x.promise m ≡ false
last_write_promise m k [] x h e = ground (arith, e)
last_write_promise m k (w ∷ writes) x h e = elim (Option-cases (last_write k writes)) [
  | inl absent ↦ ground (arith, e, absent, h.0)
  | inr (y, last) ↦ ground (arith, e, last, last_write_promise m k writes y h.1 last)
]

-- What holds of each write holds of those that are kept.
All-values-insert :
    (P : PendingWrite → Type 0) (k : String) (w : PendingWrite) (d : Dict String PendingWrite)
    → P w
    → All P (values d)
    → All P (values (insert k w d))
All-values-insert P k w [] here rest = (here, tt)
All-values-insert P k w ((j, x) ∷ d) here rest = elim (Bool-cases (j == k)) [
  | inl same ↦ rw same (here, rest.1)
  | inr other ↦ rw other (rest.0, All-values-insert P k w d here rest.1)
]

pub All-dedup_from :
    (P : PendingWrite → Type 0) (d : Dict String PendingWrite) (writes : List PendingWrite)
    → All P (values d)
    → All P writes
    → All P (values (dedup_from d writes))
unfolding dedup_from
All-dedup_from P d [] kept h = kept
All-dedup_from P d (w ∷ writes) kept h =
    All-dedup_from P (insert (cell_key w) w d) writes
      (All-values-insert P (cell_key w) w d h.0 kept) h.1

-- Each kept write stands under its own key.
abbrev pub IsKeyed : Dict String PendingWrite → Type 0
IsKeyed [] = Unit
IsKeyed ((k, w) ∷ d) = (cell_key w ≡ k) × IsKeyed d

IsKeyed-insert :
    (w : PendingWrite) (d : Dict String PendingWrite)
    → IsKeyed d
    → IsKeyed (insert (cell_key w) w d)
IsKeyed-insert w [] h = (refl, tt)
IsKeyed-insert w ((k, x) ∷ d) h = elim (Bool-cases (k == cell_key w)) [
  | inl same ↦ rw same (sym ((eq_iff k (cell_key w)).0 same), h.1)
  | inr other ↦ rw other (h.0, IsKeyed-insert w d h.1)
]

pub dedup_from-IsKeyed :
    (d : Dict String PendingWrite) (writes : List PendingWrite)
    → IsKeyed d
    → IsUnique d
    → IsKeyed (dedup_from d writes) × IsUnique (dedup_from d writes)
unfolding dedup_from
dedup_from-IsKeyed d [] h u = (h, u)
dedup_from-IsKeyed d (w ∷ writes) h u =
    dedup_from-IsKeyed (insert (cell_key w) w d) writes (IsKeyed-insert w d h)
      (IsUnique-insert (cell_key w) w d u)
