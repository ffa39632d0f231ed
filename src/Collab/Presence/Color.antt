-- ===== src/Collab/Presence/Color.antt =====
-- `pickColor` of src/modules/collab/collab.service.ts: a 32-bit hash of the user's id.
use Prim.Native.Char.{code}
use Prim.Native.String.{String, [], ◌∷◌}
use onsheet_backend.Base.{
  ◌<◌, ℕ, zero, suc, ◌+◌, ◌-◌, ◌*◌, ◌/◌, ◌%◌, ◌^◌, List, ◌≡◌, refl, arith, ltb, if◌then◌else◌, ap,
  ◌∙◌,
}

abbrev pub user_colors : List String
user_colors = List.◌∷◌ "#ef4444" (
    List.◌∷◌ "#f97316" (
      List.◌∷◌ "#eab308" (
        List.◌∷◌ "#22c55e" (
          List.◌∷◌ "#06b6d4"
            (List.◌∷◌ "#3b82f6" (List.◌∷◌ "#8b5cf6" (List.◌∷◌ "#ec4899" List.[])))))))

-- the UTF-16 units of a character, as `charCodeAt` reads them
abbrev units : ℕ → List ℕ → List ℕ
units c rest =
    if ltb c 65536
    then List.◌∷◌ c rest
    else List.◌∷◌ (55296 + (c - 65536) / 1024) (List.◌∷◌ (56320 + (c - 65536) % 1024) rest)

abbrev pub char_codes : String → List ℕ
char_codes [] = List.[]
char_codes (c ∷ s) = units (code c) (char_codes s)

-- `h = (h * 31 + userId.charCodeAt(i)) | 0`, on the 32 bits of `h` in two's complement
abbrev pub hash_step : ℕ → ℕ → ℕ
hash_step h c = (h * 31 + c) % 2 ^ 32

unfoldable pub hash_from : ℕ → List ℕ → ℕ
hash_from h List.[] = h
hash_from h (List.◌∷◌ c cs) = hash_from (hash_step h c) cs

-- `Math.abs(h)` of the number that the 32 bits stand for
abbrev pub abs32 : ℕ → ℕ
abs32 h = if ltb h (2 ^ 31) then h else 2 ^ 32 - h

unfoldable pub color_index : List ℕ → ℕ
unfolding hash_from
color_index codes = abs32 (hash_from 0 codes) % 8

abbrev color_at : List String → ℕ → String
color_at List.[] i = "undefined"
color_at (List.◌∷◌ c cs) zero = c
color_at (List.◌∷◌ c cs) (suc i) = color_at cs i

unfoldable pub pick_color : String → String
unfolding color_index
pick_color user_id = color_at user_colors (color_index (char_codes user_id))

-- The polynomial 31-hash with no wrapping.
abbrev pub polynomial : ℕ → List ℕ → ℕ
polynomial h List.[] = h
polynomial h (List.◌∷◌ c cs) = polynomial (h * 31 + c) cs

hash_from-polynomial : (h : ℕ) (cs : List ℕ) → hash_from (h % 2 ^ 32) cs ≡ polynomial h cs % 2 ^ 32
unfolding hash_from
hash_from-polynomial h List.[] = refl
hash_from-polynomial h (List.◌∷◌ c cs) =
    ap (λ x. hash_from x cs) (omega arith) ∙ hash_from-polynomial (h * 31 + c) cs

-- The colour is one of the eight, and it is given by the polynomial hash: the hash modulo 8 where
-- its low 32 bits read as a number that is not negative, and the negation of that modulo 8 where
-- they read as a negative one.
pub color_index_lem :
    (cs : List ℕ)
    → (color_index cs < 8)
      × (color_index cs ≡ (
          if ltb (polynomial 0 cs % 2 ^ 32) (2 ^ 31)
          then polynomial 0 cs % 8
          else (8 - polynomial 0 cs % 8) % 8))
unfolding color_index
color_index_lem cs = ground (arith, hash_from-polynomial 0 cs)
