-- ===== src/Api/Limits.antt =====
-- The rate limits: the buckets of src/app.module.ts and the decorators of src/modules/auth. The guard
-- of @nestjs/throttler is a parameter.
use onsheet_backend.Base.{
  ℕ, String, Bool, true, false, Option, none, some, List, [], ◌∷◌, ◌==◌, string_eq, leb, ◌&&◌, ◌||◌,
  if◌then◌else◌, ◌≡◌,
}
use onsheet_backend.Api.Controllers.Accounts
use onsheet_backend.Api.{Route, auth}

-- a bucket of `ThrottlerModule`: its name, its span in milliseconds, its limit
pub record Throttler : Type 0 where
  pub name : String
  pub ttl : ℕ
  pub limit : ℕ

abbrev pub throttlers : List Throttler
throttlers =
    record { name = "default"; ttl = 60000; limit = 300 }
    ∷ record { name = "auth"; ttl = 60000; limit = 10 }
    ∷ record { name = "ai"; ttl = 60000; limit = 20 }
    ∷ []

-- `@SkipThrottle({ auth: true })`
abbrev pub skips_auth : Route → Bool
skips_auth (auth Accounts.logout) = true
skips_auth (auth Accounts.me) = true
skips_auth _ = false

abbrev pub skips : Route → String → Bool
skips route name = name == "auth" && skips_auth route

-- `@Throttle({ auth: { limit: 10, ttl: 60_000 } })`
abbrev pub own_limit : Route → String → Option ℕ
own_limit (auth route) name = if name == "auth" then some 10 else none
own_limit _ name = none

abbrev limit_or : Option ℕ → ℕ → ℕ
limit_or none n = n
limit_or (some m) n = m

-- what the package documents: every bucket that the route does not skip has room for the request
abbrev pub has_room : List Throttler → (String → Bool) → (String → Option ℕ) → ℕ → Bool
has_room [] skipped own hits = true
has_room (t ∷ ts) skipped own hits =
    (skipped t.name || leb hits (limit_or (own t.name) t.limit)) && has_room ts skipped own hits

-- `ThrottlerGuard`: may the request pass, with which the client has made so many to the route within
-- the span, given the buckets, the skipped ones and the route's own limits?
pub record ThrottlerGuard : Type 0 where
  pub can_activate : List Throttler → (String → Bool) → (String → Option ℕ) → ℕ → Bool
  pub can_activate_lem :
      (ts : List Throttler) (skipped : String → Bool) (own : String → Option ℕ) (hits : ℕ)
      → can_activate ts skipped own hits ≡ has_room ts skipped own hits

unfoldable pub is_admitted : ThrottlerGuard → Route → ℕ → Bool
is_admitted guard route hits = guard.can_activate throttlers (skips route) (own_limit route) hits
