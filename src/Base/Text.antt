-- ===== src/Base/Text.antt =====
-- JavaScript's methods on strings: `trim`, `startsWith` and `includes`.
use Prim.Native.String.{String, [], ◌∷◌}
use Prim.Native.Char.{Char, code}
use onsheet_backend.Base.Tests.{if◌then◌else◌, nat_eqb, leb}
use Prim.Native.Nat.{ℕ, ◌+◌}
use mathlib.Core.Bool.{Bool, true, false, ◌&&◌, ◌||◌}

-- the white space and the line ends of ECMAScript
abbrev pub is_space : Char → Bool
is_space ch =
    let c = code ch in
    (leb 9 c && leb c 13)
    || (nat_eqb c 32
        || (nat_eqb c 160
            || (nat_eqb c 5760
                || ((leb 8192 c && leb c 8202)
                    || (nat_eqb c 8232
                        || (nat_eqb c 8233
                            || (nat_eqb c 8239
                                || (nat_eqb c 8287 || (nat_eqb c 12288 || nat_eqb c 65279)))))))))

abbrev pub trim_start : String → String
trim_start [] = []
trim_start (c ∷ s) = let rest = trim_start s in if is_space c then rest else c ∷ s

-- a blank end is dropped from the right
abbrev cons_trimmed : Char → String → String
cons_trimmed c [] = if is_space c then [] else c ∷ []
cons_trimmed c (d ∷ s) = c ∷ d ∷ s

abbrev trim_end : String → String
trim_end [] = []
trim_end (c ∷ s) = cons_trimmed c (trim_end s)

abbrev pub trim : String → String
trim s = trim_end (trim_start s)

abbrev pub same_char : Char → Char → Bool
same_char c d = nat_eqb (code c) (code d)

-- `text.startsWith(prefix)`
abbrev pub starts_with : String → String → Bool
starts_with [] text = true
starts_with (c ∷ prefix) [] = false
starts_with (c ∷ prefix) (d ∷ text) = same_char c d && starts_with prefix text

-- `text.includes(part)`
abbrev pub includes : String → String → Bool
includes part [] = starts_with part []
includes part (c ∷ text) = starts_with part (c ∷ text) || includes part text

-- `length`, in UTF-16 code units
abbrev pub utf16_length : String → ℕ
utf16_length [] = 0
utf16_length (c ∷ s) = (if leb 65536 (code c) then 2 else 1) + utf16_length s
