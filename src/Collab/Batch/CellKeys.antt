-- ===== src/Collab/Batch/CellKeys.antt =====
-- The key under which writes of one cell are deduplicated.
use Prim.Native.String.{◌++◌}
use mathlib.Core.Path.{ap₂}
use onsheet_backend.Base.{ℕ, String, ◌≡◌, ◌↔◌, ap, sym, ◌∙◌}
use onsheet_backend.Base.Decimal.{
  decimal, read_from, read-decimal, read-colon, decimal-inj, colon-inj,
}
use onsheet_backend.Collab.Batch.{PendingWrite, cell_key}

-- Reads the row of a key, and what follows it.
read-key :
    (row col : ℕ) → read_from 0 (decimal row ++ (":" ++ decimal col)) ≡ (row, ":" ++ decimal col)
read-key row col = read-decimal row (":" ++ decimal col) ∙ read-colon row (decimal col)

pub key-inj :
    (r c r' c' : ℕ)
    → decimal r ++ (":" ++ decimal c) ≡ decimal r' ++ (":" ++ decimal c')
    → (r ≡ r') × (c ≡ c')
key-inj r c r' c' e =
    let read = sym (read-key r c) ∙ ap (read_from 0) e ∙ read-key r' c' in
    (
      ap (λ (x : ℕ × String). x.0) read,
      decimal-inj c c' (colon-inj (decimal c) (decimal c') (ap (λ (x : ℕ × String). x.1) read)),
    )

-- Two writes have one key exactly if they are writes of the same row and column.
pub cell_key_iff :
    (w v : PendingWrite)
    → (cell_key w ≡ cell_key v) ↔ ((w.dto.row ≡ v.dto.row) × (w.dto.col ≡ v.dto.col))
unfolding cell_key
cell_key_iff w v = (
  key-inj w.dto.row w.dto.col v.dto.row v.dto.col,
  λ h. ap₂ (λ r c. decimal r ++ (":" ++ decimal c)) h.0 h.1,
)
