-- ===== src/Ai/Letters.antt =====
-- Columns by letters: `colToLetter` and `toA1` of src/modules/ai/ai.service.ts, with the reading
-- back of what they print.
use Prim.Native.Nat.{ℕ, zero, suc, ◌+◌, ◌-◌, ◌*◌, ◌/◌, ◌%◌, ◌<◌}
use Prim.Native.Char.{Char, code}
use Prim.Native.String.{String, [], ◌∷◌, ◌++◌}
use text.Mathlib.TextLemmas.{nil-append, cons-append}
use onsheet_backend.Base.{
  arith, ◌≡◌, refl, ap, sym, ◌∙◌, Bool, true, ◌&&◌, leb, nat_eqb, nat_eqb_iff, if◌then◌else◌, ◌↔◌,
}
use mathlib.Core.Path.{ap₂}
use onsheet_backend.Base.Decimal.{
  digit, digits_before, code-digit, decimal, decimal-inj, holds_below, holds_below-at,
}

-- `String.fromCharCode(n + 65)`
abbrev pub letter : ℕ → Char
letter n =
    if nat_eqb n 0
    then "A"
    else if nat_eqb n 1
    then "B"
    else if nat_eqb n 2
    then "C"
    else if nat_eqb n 3
    then "D"
    else if nat_eqb n 4
    then "E"
    else if nat_eqb n 5
    then "F"
    else if nat_eqb n 6
    then "G"
    else if nat_eqb n 7
    then "H"
    else if nat_eqb n 8
    then "I"
    else if nat_eqb n 9
    then "J"
    else if nat_eqb n 10
    then "K"
    else if nat_eqb n 11
    then "L"
    else if nat_eqb n 12
    then "M"
    else if nat_eqb n 13
    then "N"
    else if nat_eqb n 14
    then "O"
    else if nat_eqb n 15
    then "P"
    else if nat_eqb n 16
    then "Q"
    else if nat_eqb n 17
    then "R"
    else if nat_eqb n 18
    then "S"
    else if nat_eqb n 19
    then "T"
    else if nat_eqb n 20
    then "U"
    else if nat_eqb n 21
    then "V"
    else if nat_eqb n 22
    then "W"
    else if nat_eqb n 23
    then "X"
    else if nat_eqb n 24
    then "Y"
    else "Z"

-- `while (n >= 0)`: `n` is what the code calls n while that is not negative. Each turn divides by
-- 26, so `n + 1` turns are enough.
unfoldable pub col_from : ℕ → ℕ → String → String
col_from zero n s = s
col_from (suc fuel) n s =
    let shorter = letter (n % 26) ∷ s in
    let more = col_from fuel (n / 26 - 1) shorter in if nat_eqb (n / 26) 0 then shorter else more

unfoldable pub col_to_letter : ℕ → String
unfolding col_from
col_to_letter c = col_from (suc c) c []

-- `${colToLetter(col)}${row + 1}`
unfoldable pub to_a1 : ℕ → ℕ → String
unfolding col_to_letter
to_a1 row col = col_to_letter col ++ decimal (row + 1)

abbrev is_letter : Char → Bool
is_letter c = leb 65 (code c) && leb (code c) 90

-- The number that letters stand for in base 26 with the digits 1 to 26, and what follows them.
abbrev pub read_col : ℕ → String → ℕ × String
read_col acc [] = (acc, [])
read_col acc (c ∷ s) =
    let more = read_col (acc * 26 + (code c - 64)) s in if is_letter c then more else (acc, c ∷ s)

letter_table : holds_below 26 (λ n. nat_eqb (code (letter n)) (65 + n)) ≡ true
unfolding holds_below
letter_table = refl

code-letter : (n : ℕ) → n < 26 → code (letter n) ≡ 65 + n
code-letter n h =
    (nat_eqb_iff _ _).0
      (holds_below-at 26 n (λ n. nat_eqb (code (letter n)) (65 + n)) h letter_table)

read_col-letter :
    (acc n : ℕ) (s : String) → n < 26 → read_col acc (letter n ∷ s) ≡ read_col (acc * 26 + n + 1) s
read_col-letter acc n s h = ground (arith, code-letter n h)

read_col-col_from :
    (fuel n : ℕ) (s : String) → n < fuel → read_col 0 (col_from fuel n s) ≡ read_col (n + 1) s
unfolding col_from
read_col-col_from zero n s h = absurd (omega arith)
read_col-col_from (suc fuel) n s h = ground (
  arith,
  read_col-letter 0 (n % 26) s,
  read_col-col_from fuel (n / 26 - 1) (letter (n % 26) ∷ s),
  read_col-letter (n / 26) (n % 26) s,
)

col_from-append : (fuel n : ℕ) (s t : String) → col_from fuel n s ++ t ≡ col_from fuel n (s ++ t)
unfolding col_from
col_from-append zero n s t = refl
col_from-append (suc fuel) n s t = ground (
  arith,
  col_from-append fuel (n / 26 - 1) (letter (n % 26) ∷ s) t,
  cons-append (letter (n % 26)) s t,
)

-- The letters of a column, whatever follows them, read back as the column's number counted from 1:
-- the loop ends with A for 0, Z for 25, AA for 26, and no two columns have the same letters.
pub read_col-col_to_letter :
    (c : ℕ) (rest : String) → read_col 0 (col_to_letter c ++ rest) ≡ read_col (c + 1) rest
unfolding col_to_letter
read_col-col_to_letter c rest =
    ap (read_col 0) (col_from-append (suc c) c [] rest ∙ ap (col_from (suc c) c) (nil-append rest))
    ∙ read_col-col_from (suc c) c rest (omega arith)

read_col-digit : (acc n : ℕ) (s : String) → n < 10 → read_col acc (digit n ∷ s) ≡ (acc, digit n ∷ s)
read_col-digit acc n s h = ground (arith, code-digit n h)

read_col-digits_before :
    (acc fuel n : ℕ) (s : String)
    → n < fuel
    → read_col acc (digits_before fuel n s) ≡ (acc, digits_before fuel n s)
unfolding digits_before
read_col-digits_before acc zero n s h = absurd (omega arith)
read_col-digits_before acc (suc fuel) n s h =
    ground
      (arith, read_col-digit acc n s, read_col-digits_before acc fuel (n / 10) (digit (n % 10) ∷ s))

read_col-decimal : (acc n : ℕ) → read_col acc (decimal n) ≡ (acc, decimal n)
unfolding decimal
read_col-decimal acc n = read_col-digits_before acc (suc n) n [] (omega arith)

read_col-to_a1 : (row col : ℕ) → read_col 0 (to_a1 row col) ≡ (col + 1, decimal (row + 1))
unfolding to_a1
read_col-to_a1 row col =
    read_col-col_to_letter col (decimal (row + 1)) ∙ read_col-decimal (col + 1) (row + 1)

-- Two cells have one A1 name exactly if they are the same row and column.
pub to_a1_iff :
    (row col row' col' : ℕ) → (to_a1 row col ≡ to_a1 row' col') ↔ ((row ≡ row') × (col ≡ col'))
to_a1_iff row col row' col' = (
  λ e.
      let read = sym (read_col-to_a1 row col) ∙ ap (read_col 0) e ∙ read_col-to_a1 row' col' in
      let rows : row + 1 ≡ row' + 1 =
        decimal-inj (row + 1) (row' + 1) (ap (λ (x : ℕ × String). x.1) read) in
      let cols : col + 1 ≡ col' + 1 = ap (λ (x : ℕ × String). x.0) read in
      (omega (arith, rows), omega (arith, cols)),
  λ h. ap₂ to_a1 h.0 h.1,
)
