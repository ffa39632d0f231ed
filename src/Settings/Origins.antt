-- ===== src/Settings/Origins.antt =====
-- The origins that src/main.ts allows: the front end's and its counterpart with or without `www.`.
use Prim.Native.String.{String, [], ◌∷◌, ◌++◌}
use onsheet_backend.Base.{
  ℕ, zero, suc, Bool, false, Option, none, some, List, ◌==◌, string_eq, if◌then◌else◌,
}
use onsheet_backend.Base.Text.{starts_with}
use onsheet_backend.Settings.{Url, if_truthy}

-- `slice(n)`
abbrev pub slice_from : ℕ → String → String
slice_from zero s = s
slice_from (suc n) [] = []
slice_from (suc n) (c ∷ s) = slice_from n s

-- the other of a host with and without `www.`
abbrev pub counterpart : String → String
counterpart host = if starts_with "www." host then slice_from 4 host else "www." ++ host

abbrev pub extra_origin : Url → String
extra_origin url = url.protocol ++ ("//" ++ counterpart url.hostname)

abbrev list_of : String → List String
list_of s = List.◌∷◌ s List.[]

abbrev is_production : Option String → Bool
is_production none = false
is_production (some e) = e == "production"

abbrev with_local : Option String → List String → List String
with_local node_env origins =
    if is_production node_env then origins else List.◌∷◌ "http://localhost:3000" origins

abbrev with_counterpart : Option String → String → Option Url → Option (List String)
with_counterpart node_env frontend_url none = none
with_counterpart node_env frontend_url (some url) =
    some (with_local node_env (List.◌∷◌ frontend_url (list_of (extra_origin url))))

-- The origins for FRONTEND_URL and NODE_ENV. `parse_url` is `new URL(text)`, and `none` the exception
-- of a text that is no URL.
unfoldable pub allowed_origins :
    (String → Option Url) → Option String → Option String → Option (List String)
allowed_origins parse_url frontend_url node_env = go (if_truthy frontend_url)
  where
    go : Option String → Option (List String)
    go none = some (with_local node_env List.[])
    go (some text) = with_counterpart node_env text (parse_url text)
