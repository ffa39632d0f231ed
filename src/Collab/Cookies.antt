-- ===== src/Collab/Cookies.antt =====
-- `parseCookies` of src/modules/collab/collab.gateway.ts.
use Prim.Native.String.{String, [], ◌∷◌, ◌++◌}
use Prim.Native.Char.{Char, code}
use onsheet_backend.Base.{ℕ, Option, none, some, List, nat_eqb, if◌then◌else◌, ◌==◌, string_eq}
use onsheet_backend.Base.Text.{trim}
use onsheet_backend.Base.Dict.{Dict, insert}

-- the parts of a split: the first, and the others
abbrev cut : ℕ → Char → String × List String → String × List String
cut separator c (part, parts) =
    if nat_eqb (code c) separator then ([], List.◌∷◌ part parts) else (c ∷ part, parts)

abbrev split_at : ℕ → String → String × List String
split_at separator [] = ([], List.[])
split_at separator (c ∷ s) = cut separator c (split_at separator s)

-- `join("=")`
abbrev join_equals : List String → String
join_equals List.[] = []
join_equals (List.◌∷◌ s List.[]) = s
join_equals (List.◌∷◌ s (List.◌∷◌ t l)) = s ++ ("=" ++ join_equals (List.◌∷◌ t l))

-- one pair: `c.trim().split("=")`, kept if its key is not empty
abbrev add_pair : String × List String → Dict String String → Dict String String
add_pair (k, v) d = if k == "" then d else insert (trim k) (trim (join_equals v)) d

abbrev add_pairs : List String → Dict String String → Dict String String
add_pairs List.[] d = d
add_pairs (List.◌∷◌ c cs) d = add_pairs cs (add_pair (split_at 61 (trim c)) d)

abbrev parts_of : String × List String → List String
parts_of (part, parts) = List.◌∷◌ part parts

abbrev header_or : Option String → String
header_or none = ""
header_or (some s) = s

unfoldable pub parse_cookies : Option String → Dict String String
parse_cookies header = add_pairs (parts_of (split_at 59 (header_or header))) List.[]
