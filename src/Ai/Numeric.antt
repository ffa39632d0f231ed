-- ===== src/Ai/Numeric.antt =====
-- `Number.isNaN(Number(v))` for a string, as find_data_anomalies of src/modules/ai/ai.service.ts
-- asks: which texts JavaScript reads as a number.
use Prim.Native.String.{String, [], ◌∷◌}
use Prim.Native.Char.{Char, code}
use onsheet_backend.Base.{
  ℕ, Bool, true, false, ◌&&◌, ◌||◌, nat_eqb, leb, if◌then◌else◌, ◌==◌, string_eq,
}
use onsheet_backend.Base.Text.{trim}

abbrev is_digit : Char → Bool
is_digit c = leb 48 (code c) && leb (code c) 57

-- a digit of base 16, as `0x` has them
abbrev is_hex : Char → Bool
is_hex c =
    is_digit c || ((leb 65 (code c) && leb (code c) 70) || (leb 97 (code c) && leb (code c) 102))

abbrev is_octal : Char → Bool
is_octal c = leb 48 (code c) && leb (code c) 55

abbrev is_binary : Char → Bool
is_binary c = leb 48 (code c) && leb (code c) 49

abbrev all_are : (Char → Bool) → String → Bool
all_are p [] = true
all_are p (c ∷ s) = p c && all_are p s

abbrev some_are : (Char → Bool) → String → Bool
some_are p [] = false
some_are p s = all_are p s

-- what follows the digits at the start
abbrev skip_digits : String → String
skip_digits [] = []
skip_digits (c ∷ s) = let rest = skip_digits s in if is_digit c then rest else c ∷ s

abbrev starts_with_digit : String → Bool
starts_with_digit [] = false
starts_with_digit (c ∷ s) = is_digit c

-- `+` or `-`
abbrev is_sign : Char → Bool
is_sign c = nat_eqb (code c) 43 || nat_eqb (code c) 45

abbrev skip_sign : String → String
skip_sign [] = []
skip_sign (c ∷ s) = if is_sign c then s else c ∷ s

-- nothing, or `e` with digits that may have a sign
abbrev is_exponent : String → Bool
is_exponent [] = true
is_exponent (c ∷ s) =
    (nat_eqb (code c) 101 || nat_eqb (code c) 69) && some_are is_digit (skip_sign s)

-- after the digits of the whole part: a point with digits, and an exponent
abbrev is_fraction : Bool → String → Bool
is_fraction has_whole [] = has_whole
is_fraction has_whole (c ∷ s) =
    if nat_eqb (code c) 46
    then (has_whole || starts_with_digit s) && is_exponent (skip_digits s)
    else has_whole && is_exponent (c ∷ s)

abbrev is_decimal : String → Bool
is_decimal s = s == "Infinity" || is_fraction (starts_with_digit s) (skip_digits s)

-- the letters of `0x`, `0o` and `0b`, in either case
abbrev is_based : ℕ → String → Bool
is_based c s =
    ((nat_eqb c 120 || nat_eqb c 88) && some_are is_hex s)
    || (((nat_eqb c 111 || nat_eqb c 79) && some_are is_octal s)
        || ((nat_eqb c 98 || nat_eqb c 66) && some_are is_binary s))

abbrev is_prefixed : String → Bool
is_prefixed (z ∷ c ∷ s) = nat_eqb (code z) 48 && is_based (code c) s
is_prefixed _ = false

-- Blank text reads as 0.
unfoldable pub is_numeric : String → Bool
is_numeric v = let s = trim v in s == "" || (is_prefixed s || is_decimal (skip_sign s))
