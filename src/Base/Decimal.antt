-- ===== src/Base/Decimal.antt =====
-- Numbers in decimal, as a template literal prints them.
use Prim.Native.Nat.{ℕ, zero, suc, ◌+◌, ◌-◌, ◌*◌, ◌/◌, ◌%◌, ◌<◌}
use Prim.Native.Char.{Char, code}
use Prim.Native.String.{String, [], ◌∷◌, ◌++◌}
use mathlib.Core.Path.{◌≡◌, refl, ap, sym, ◌∙◌}
use mathlib.Core.Bool.{Bool, true, ◌&&◌}
use native.Mathlib.Omega.{arith}
use text.Mathlib.TextLemmas.{nil-append, cons-append}
use onsheet_backend.Base.Tests.{ltb, leb, nat_eqb, nat_eqb_iff, if◌then◌else◌}

abbrev pub digit : ℕ → Char
digit n =
    if nat_eqb n 0
    then "0"
    else if nat_eqb n 1
    then "1"
    else if nat_eqb n 2
    then "2"
    else if nat_eqb n 3
    then "3"
    else if nat_eqb n 4
    then "4"
    else if nat_eqb n 5
    then "5"
    else if nat_eqb n 6
    then "6"
    else if nat_eqb n 7
    then "7"
    else if nat_eqb n 8
    then "8"
    else "9"

-- the digits of `n` in front of `out`
unfoldable pub digits_before : ℕ → ℕ → String → String
digits_before zero n out = out
digits_before (suc fuel) n out =
    let more = digits_before fuel (n / 10) (digit (n % 10) ∷ out) in
    if ltb n 10 then digit n ∷ out else more

-- `${n}`
unfoldable pub decimal : ℕ → String
unfolding digits_before
decimal n = digits_before (suc n) n []

abbrev is_digit : Char → Bool
is_digit c = leb 48 (code c) && leb (code c) 57

-- reads a number up to the first character that is no digit
pub read_from : ℕ → String → ℕ × String
read_from acc [] = (acc, [])
read_from acc (c ∷ s) =
    let more = read_from (acc * 10 + (code c - 48)) s in if is_digit c then more else (acc, c ∷ s)

-- a test at each number below a bound
unfoldable pub holds_below : ℕ → (ℕ → Bool) → Bool
holds_below zero q = true
holds_below (suc bound) q = q bound && holds_below bound q

pub holds_below-at :
    (bound i : ℕ) (q : ℕ → Bool) → i < bound → holds_below bound q ≡ true → q i ≡ true
unfolding holds_below
holds_below-at zero i q less all = absurd (omega arith)
holds_below-at (suc bound) i q less all = ground (arith, holds_below-at bound i q)

digit_table : holds_below 10 (λ x. nat_eqb (code (digit x)) (48 + x)) ≡ true
unfolding holds_below
digit_table = refl

pub code-digit : (n : ℕ) → n < 10 → code (digit n) ≡ 48 + n
code-digit n h =
    (nat_eqb_iff _ _).0 (holds_below-at 10 n (λ x. nat_eqb (code (digit x)) (48 + x)) h digit_table)

read-digit :
    (acc n : ℕ) (out : String)
    → n < 10
    → read_from acc (digit n ∷ out) ≡ read_from (acc * 10 + n) out
unfolding read_from
read-digit acc n out h = ground (arith, code-digit n h)

read-digits_before :
    (fuel n : ℕ) (out : String)
    → n < fuel
    → read_from 0 (digits_before fuel n out) ≡ read_from n out
unfolding digits_before
read-digits_before zero n out h = absurd (omega arith)
read-digits_before (suc fuel) n out h = ground (
  arith,
  read-digit 0 n out,
  read-digits_before fuel (n / 10) (digit (n % 10) ∷ out),
  read-digit (n / 10) (n % 10) out,
)

digits_before-append :
    (fuel n : ℕ) (out s : String) → digits_before fuel n out ++ s ≡ digits_before fuel n (out ++ s)
unfolding digits_before
digits_before-append zero n out s = refl
digits_before-append (suc fuel) n out s = ground (
  arith,
  digits_before-append fuel (n / 10) (digit (n % 10) ∷ out) s,
  cons-append (digit n) out s,
  cons-append (digit (n % 10)) out s,
)

-- Reading back what was printed: the number, and the text that followed it.
pub read-decimal : (n : ℕ) (s : String) → read_from 0 (decimal n ++ s) ≡ read_from n s
unfolding decimal
read-decimal n s =
    ap (read_from 0) (digits_before-append (suc n) n [] s)
    ∙ read-digits_before (suc n) n ([] ++ s) (omega arith)
    ∙ ap (read_from n) (nil-append s)

-- A colon ends the digits.
pub read-colon : (n : ℕ) (s : String) → read_from n (":" ++ s) ≡ (n, ":" ++ s)
unfolding read_from
read-colon n s =
    ap (read_from n) (cons-append ":" [] s ∙ ap (◌∷◌ ":") (nil-append s))
    ∙ ap (λ t. (n, t)) (sym (cons-append ":" [] s ∙ ap (◌∷◌ ":") (nil-append s)))

pub decimal-inj : (m n : ℕ) → decimal m ≡ decimal n → m ≡ n
unfolding read_from
decimal-inj m n e =
    sym (ap (λ (x : ℕ × String). x.0) (read-decimal m []))
    ∙ ap (λ s. (read_from 0 (s ++ [])).0) e
    ∙ ap (λ (x : ℕ × String). x.0) (read-decimal n [])

abbrev rest_of : String → String
rest_of [] = []
rest_of (c ∷ s) = s

pub colon-inj : (s t : String) → ":" ++ s ≡ ":" ++ t → s ≡ t
colon-inj s t e = sym (rest-colon s) ∙ ap rest_of e ∙ rest-colon t
  where
    rest-colon : (u : String) → rest_of (":" ++ u) ≡ u
    rest-colon u = ap rest_of (cons-append ":" [] u) ∙ nil-append u
