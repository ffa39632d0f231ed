-- ===== src/Settings.antt =====
-- What the server reads from its environment: src/config, and the settings of src/main.ts. The
-- parsing of a URL is the platform's, and a parameter.
pub mod Origins
use Prim.Native.Char.{Char, code}
use Prim.Native.String.{String, [], ◌∷◌}
use onsheet_backend.Base.{
  ℕ, ◌+◌, ◌-◌, ◌*◌, Bool, true, false, Option, none, some, ◌==◌, string_eq, leb, ◌&&◌,
  if◌then◌else◌, nat_eqb, ◌||◌,
}
use onsheet_backend.Base.Text.{trim_start}

-- `process.env.X ?? d`
abbrev pub or_default : Option String → String → String
or_default none d = d
or_default (some v) d = v

-- a variable that is set and not empty
abbrev pub if_truthy : Option String → Option String
if_truthy none = none
if_truthy (some v) = if v == "" then none else some v

-- the digits at the start of a text, after what was read
abbrev digits_from : ℕ → String → ℕ
digits_from acc [] = acc
digits_from acc (c ∷ s) =
    let more = digits_from (acc * 10 + (code c - 48)) s in
    if leb 48 (code c) && leb (code c) 57 then more else acc

abbrev starts_with_digit : String → Bool
starts_with_digit [] = false
starts_with_digit (c ∷ s) = leb 48 (code c) && leb (code c) 57

-- `Number.parseInt(text, 10)` of a text without a sign; `none` is NaN
unfoldable pub parse_int : String → Option ℕ
parse_int text =
    let s = trim_start text in if starts_with_digit s then some (digits_from 0 s) else none

-- the parts of a URL that the code reads; the protocol has its colon
pub record Url : Type 0 where
  pub protocol : String
  pub hostname : String
  pub port : String
  pub password : String

pub record RedisConfig : Type 0 where
  pub url : Option String
  pub host : String
  pub port : Option ℕ
  pub password : Option String
  pub tls : Bool

-- `new URL(text)`, where `none` is the exception, and `decodeURIComponent`
module _ (parse_url : String → Option Url) (decode : String → Option String) where
  -- what `redisConfig` gives for a URL; `none` is an exception
  abbrev from_url : String → Option Url → Option RedisConfig
  from_url url none = none
  from_url url (some parsed) =
      with_password (if parsed.password == "" then some none else decoded (decode parsed.password))
    where
      decoded : Option String → Option (Option String)
      decoded none = none
      decoded (some s) = some (some s)

      with_password : Option (Option String) → Option RedisConfig
      with_password none = none
      with_password (some password) = some (record {
        url = some url;
        host = parsed.hostname;
        port = parse_int (if parsed.port == "" then "6379" else parsed.port);
        password = password;
        tls = parsed.protocol == "rediss:";
      })

  -- the variables REDIS_URL, REDIS_HOST, REDIS_PORT and REDIS_PASSWORD
  unfoldable pub redis_config :
      Option String → Option String → Option String → Option String → Option RedisConfig
  redis_config url host port password = go (if_truthy url)
    where
      go : Option String → Option RedisConfig
      go (some u) = from_url u (parse_url u)
      go none = some (record {
        url = none;
        host = or_default host "localhost";
        port = parse_int (or_default port "6379");
        password = if_truthy password;
        tls = false;
      })
